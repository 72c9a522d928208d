-- ===== src/Archive/Unpacked.antt =====
-- readTarGz of httpapi/archive.go: what an accepted archive holds.
use Prim.Native.String.{len}
use mathlib.Core.Path.{subst}
use spinup.Prelude.{
  ◌≡◌, refl, ◌≢◌, String, false, List, [], ◌∷◌, ok, All, arith, ltb, ◌≤◌, ok-injective, ◌==◌,
  eq_iff, Bool-cases, inl, inr, ◌⊎◌,
}
use spinup.Store.Table.{Distinct}
use spinup.Text.Paths.{clean}
use spinup.Archive.{
  Files, Entry, EntryType, regular, other_type, max_source_upload, put_file, is_unsafe, unpack_from,
  unpack,
}

-- The names differ pairwise, none is unsafe, and no file is larger than the limit.
abbrev pub IsAccepted : Files → Type 0
IsAccepted files =
    Distinct {A = String × String} (λ f g. f.0 ≢ g.0) files
    × All {A = String × String} (λ f. (is_unsafe f.0 ≡ false) × (len f.1 ≤ max_source_upload)) files

put_file-All :
    (P : String × String → Type 0) (name content : String) (files : Files)
    → P (name, content)
    → All P files
    → All P (put_file name content files)
unfolding put_file
put_file-All P name content [] p h = (p, tt)
put_file-All P name content ((n, c) ∷ files) p (q, h) = elim (Bool-cases (n == name)) [
  | inl same ↦ rw same (p, h)
  | inr other ↦ rw other (q, put_file-All P name content files p h)
]

put_file-Distinct :
    (name content : String) (files : Files)
    → Distinct {A = String × String} (λ f g. f.0 ≢ g.0) files
    → Distinct {A = String × String} (λ f g. f.0 ≢ g.0) (put_file name content files)
unfolding put_file
put_file-Distinct name content [] h = (tt, tt)
put_file-Distinct name content ((n, c) ∷ files) (p, h) = elim (Bool-cases (n == name)) [
  | inl same ↦
      rw same
        (subst (λ i. All {A = String × String} (λ g. i ≢ g.0) files) ((eq_iff n name).0 same) p, h)
  | inr other ↦
      let fresh : n ≢ name = (λ e. ground (arith, eq_iff n name)) in
      rw other (
        put_file-All (λ g. n ≢ g.0) name content files fresh p,
        put_file-Distinct name content files h,
      )
]

type-cases : (k : EntryType) → (k ≡ regular) ⊎ (k ≡ other_type)
type-cases regular = inl refl
type-cases other_type = inr refl

unpack_from-IsAccepted :
    (es : List Entry) (files unpacked : Files)
    → IsAccepted files
    → unpack_from files es ≡ ok unpacked
    → IsAccepted unpacked
unfolding unpack_from
unpack_from-IsAccepted [] files unpacked h e = subst IsAccepted (ok-injective e) h
unpack_from-IsAccepted (e ∷ es) files unpacked h done = elim (type-cases e.type_flag) [
  | inr skipped ↦ unpack_from-IsAccepted es files unpacked h (rw (skipped, unpack_from) at done)
  | inl kind ↦
      let done1 = rw (kind, unpack_from) at done in
      elim (Bool-cases (is_unsafe (clean e.name))) [
        | inl unsafe ↦ absurd (ground (arith, rw unsafe at done1))
        | inr safe ↦
            let done2 = rw safe at done1 in
            elim (Bool-cases (ltb max_source_upload (len e.content))) [
              | inl large ↦ absurd (ground (arith, rw large at done2))
              | inr small ↦
                  unpack_from-IsAccepted es (put_file (clean e.name) e.content files) unpacked
                    (
                      put_file-Distinct (clean e.name) e.content files h.0,
                      put_file-All (λ f. (is_unsafe f.0 ≡ false) × (len f.1 ≤ max_source_upload))
                          (clean e.name) e.content files (safe, ground arith) h.1,
                    )
                    (rw small at done2)
            ]
      ]
]

-- An archive that is accepted gives files whose names differ pairwise and are neither absolute nor
-- begin with ".." nor hold "/../", and none of which has more than eight mebibytes.
pub unpack-IsAccepted : (es : List Entry) (files : Files) → unpack es ≡ ok files → IsAccepted files
unfolding unpack
unpack-IsAccepted es files done = unpack_from-IsAccepted es [] files (tt, tt) done
