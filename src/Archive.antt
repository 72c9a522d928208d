-- ===== src/Archive.antt =====
-- Source trees as archives: packFiles of services/control-plane/internal/builder/builder.go, and
-- writeTarGz and readTarGz of internal/httpapi/archive.go. A tar.gz is the list of its entries:
-- Go's archive/tar and compress/gzip encode and decode it, and writing to a buffer does not fail.
-- A file's text stands for its bytes, one character for each.
pub mod Names
pub mod Unpacked
pub mod Readable
pub mod Roundtrip
use Prim.Native.String
use Prim.Native.String.{len}
use spinup.Prelude.{
  ℕ, String, Bool, true, false, ◌&&◌, ◌||◌, Option, none, some, List, [], ◌∷◌, Result, ok, err, ltb,
  if◌then◌else◌, ◌==◌, ◌*◌, ◌^◌, ◌>>=◌,
}
use spinup.Store.Table.{order_by}
use spinup.Text.{has_prefix, contains, trim_slash}
use spinup.Text.Paths.{clean}
use text.Mathlib.Text.{is_le}
use Prim.Native.String.{compare}

abbrev pub Files : Type 0
Files = List (String × String)

unfoldable pub accepted_name : String → Option String
accepted_name cleaned =
    if cleaned == "/" || has_prefix cleaned "/.." then none else some (trim_slash cleaned)

-- The name under which a file is packed, or nothing for a name that is refused.
unfoldable pub entry_name : String → Option String
unfolding accepted_name
entry_name name = accepted_name (clean (String.◌++◌ "/" name))

abbrev by_name : String × String → String × String → Bool
by_name f g = is_le (compare f.0 g.0)

-- The error is the name that is refused.
pack_one : String → String → Option String → Result String Files → Result String Files
pack_one original content none rest = err original
pack_one original content (some name) (ok rest) = ok ((name, content) ∷ rest)
pack_one original content (some name) (err e) = err e

unfoldable pub pack_all : Files → Result String Files
unfolding pack_one
pack_all [] = ok []
pack_all ((name, content) ∷ files) = pack_one name content (entry_name name) (pack_all files)

-- packFiles and writeTarGz: the files in the order of their names, the first bad name refused.
unfoldable pub pack : Files → Result String Files
unfolding pack_all
pack files = pack_all (order_by by_name files)

-- Entries of an uploaded archive: other types than regular files are skipped.
pub data EntryType : Type 0 where
  regular other_type : EntryType

pub record Entry : Type 0 where
  pub type_flag : EntryType
  pub name : String
  pub content : String

pub data UnpackError : Type 0 where
  unsafe_path too_large : String → UnpackError

abbrev pub max_source_upload : ℕ
max_source_upload = 8 * 2 ^ 20

-- files[name] = content
unfoldable pub put_file : String → String → Files → Files
put_file name content [] = (name, content) ∷ []
put_file name content ((n, c) ∷ files) =
    if n == name then (name, content) ∷ files else (n, c) ∷ put_file name content files

unfoldable pub is_unsafe : String → Bool
is_unsafe cleaned = has_prefix cleaned "/" || has_prefix cleaned ".." || contains cleaned "/../"

-- The loop of readTarGz over the entries, with the files collected so far.
unfoldable pub unpack_from : Files → List Entry → Result UnpackError Files
unfolding put_file is_unsafe
unpack_from files [] = ok files
unpack_from files (e ∷ es) = elim e.type_flag [
  | other_type ↦ unpack_from files es
  | regular ↦
      let stored = unpack_from (put_file (clean e.name) e.content files) es in
      if is_unsafe (clean e.name)
      then err (unsafe_path e.name)
      else if ltb max_source_upload (len e.content)
      then err (too_large e.name)
      else stored
]

-- readTarGz on a decoded archive.
unfoldable pub unpack : List Entry → Result UnpackError Files
unfolding unpack_from
unpack es = unpack_from [] es
