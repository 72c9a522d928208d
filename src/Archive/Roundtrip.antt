-- ===== src/Archive/Roundtrip.antt =====
-- What is packed is unpacked again: writeTarGz and readTarGz of httpapi/archive.go.
use Prim.Native.String.{len}
use mathlib.Core.List.{append-nil, append_assoc}
use spinup.Prelude.{
  ◌≡◌, refl, sym, ap, ◌∙◌, ◌≢◌, String, false, [], ◌∷◌, ◌++◌, map, ok, All, arith, ltb, ◌≤◌, ◌==◌,
  eq_iff, All-append,
}
use spinup.Store.Table.{Distinct}
use spinup.Text.Paths.{clean}
use spinup.Text.Paths.Fixed.{clean-safe}
use spinup.Archive.{
  Files, Entry, regular, max_source_upload, put_file, is_unsafe, unpack_from, unpack, pack,
}
use spinup.Archive.Names.{IsBelow, pack-IsBelow}
use spinup.Archive.Readable.{pack-readable}

-- The entry that is written for a file.
abbrev pub as_entry : String × String → Entry
as_entry f = record { type_flag = regular; name = f.0; content = f.1 }

abbrev Differs : String × String → String × String → Type 0
Differs f g = f.0 ≢ g.0

put_file-new :
    (name content : String) (files : Files)
    → All (λ g. g.0 ≢ name) files
    → put_file name content files ≡ files ++ (name, content) ∷ []
unfolding put_file
put_file-new name content [] h = refl
put_file-new name content ((n, c) ∷ files) (p, h) =
    let other : (n == name) ≡ false = ground (arith, eq_iff n name) in
    rw other (ap (λ fs. (n, c) ∷ fs) (put_file-new name content files h))

-- No file has the name of one that comes later.
abbrev IsBefore : Files → Files → Type 0
IsBefore files packed =
    All {A = String × String} (λ f. All {A = String × String} (λ g. g.0 ≢ f.0) files) packed

nothing-IsBefore : (packed : Files) → IsBefore [] packed
nothing-IsBefore [] = tt
nothing-IsBefore (f ∷ packed) = (tt, nothing-IsBefore packed)

after_one-IsBefore :
    (x : String × String) (files packed : Files)
    → IsBefore files packed
    → All (Differs x) packed
    → IsBefore (files ++ x ∷ []) packed
after_one-IsBefore x files [] h k = tt
after_one-IsBefore x files (f ∷ packed) (p, h) (q, k) =
    (All-append (λ g. g.0 ≢ f.0) files (x ∷ []) p (q, tt), after_one-IsBefore x files packed h k)

-- The part of the archive that is still to be read, after files of other names.
unpack_from-entries :
    (files packed : Files)
    → All (λ f. IsBelow f.0) packed
    → All {A = String × String}
        (λ f. (is_unsafe f.0 ≡ false) × (len f.1 ≤ max_source_upload))
        packed
    → IsBefore files packed
    → Distinct Differs packed
    → unpack_from files (map as_entry packed) ≡ ok (files ++ packed)
unfolding unpack_from
unpack_from-entries files [] b a f d = ap ok (sym (append-nil files))
unpack_from-entries files ((n, c) ∷ packed) (below, b) ((safe, small), a) (fresh, f) (other, d) =
    let same : clean n ≡ n = clean-safe n below in
    let fits : ltb max_source_upload (len c) ≡ false = ground arith in
    rw same (
      rw safe (
        rw fits (
          rw (put_file-new n c files fresh) (
            unpack_from-entries (files ++ (n, c) ∷ []) packed b a
              (after_one-IsBefore (n, c) files packed f other) d
            ∙ ap ok (append_assoc files ((n, c) ∷ []) packed)))))

with_sizes :
    (packed : Files)
    → All {A = String × String} (λ f. is_unsafe f.0 ≡ false) packed
    → All {A = String × String} (λ f. len f.1 ≤ max_source_upload) packed
    → All {A = String × String}
        (λ f. (is_unsafe f.0 ≡ false) × (len f.1 ≤ max_source_upload))
        packed
with_sizes [] h k = tt
with_sizes (f ∷ packed) (p, h) (q, k) = ((p, q), with_sizes packed h k)

-- A packed tree whose names differ pairwise and none of whose files is larger than eight mebibytes is
-- accepted by the reader, and unpacked to the files that were packed.
pub pack-unpack :
    (files packed : Files)
    → pack files ≡ ok packed
    → Distinct Differs packed
    → All {A = String × String} (λ f. len f.1 ≤ max_source_upload) packed
    → unpack (map as_entry packed) ≡ ok packed
unfolding unpack
pack-unpack files packed h d k =
    unpack_from-entries [] packed (pack-IsBelow files packed h)
      (with_sizes packed (pack-readable files packed h) k) (nothing-IsBefore packed) d
