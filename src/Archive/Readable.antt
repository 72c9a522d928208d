-- ===== src/Archive/Readable.antt =====
-- The reader of archives refuses no name under which the writers pack a file.
use Prim.Native.String
use text.Mathlib.TextLemmas.{nil-append, cons-append}
use mathlib.Core.Path.{subst}
use spinup.Prelude.{
  ◌≡◌, refl, sym, ap, ◌∙◌, String, true, false, some, List, [], ◌∷◌, ok, All, arith, Bool-cases,
  inl, inr,
}
use spinup.Text.{has_prefix, split_on, join_slash}
use spinup.Text.Paths.{clean_parts}
use spinup.Text.Paths.Safe.{IsSafe}
use spinup.Text.Paths.Fixed.{relative}
use spinup.Text.Paths.Inner.{IsNotUp, later_parts, contains-IsNotUp}
use spinup.Archive.{Files, accepted_name, entry_name, is_unsafe, pack}
use spinup.Archive.Names.{entry_name-IsBelow, clean_rooted, trim_slash_rooted, pack-Named}

up_rooted : (s : String) → has_prefix (String.◌++◌ "/" s) "/.." ≡ has_prefix s ".."
unfolding has_prefix
up_rooted s = rw cons-append (rw nil-append refl)

accepted-first :
    (s : String) {n : String}
    → accepted_name (String.◌++◌ "/" s) ≡ some n
    → has_prefix n ".." ≡ false
unfolding accepted_name
accepted-first s {n} e = elim (Bool-cases (has_prefix (String.◌++◌ "/" s) "/..")) [
  | inl up ↦ absurd (ground arith)
  | inr fine ↦
      let same : s ≡ n = ground (arith, trim_slash_rooted s) in
      subst (λ x. has_prefix x ".." ≡ false) same (sym (up_rooted s) ∙ fine)
]

All-IsNotUp : (ps : List String) → All IsSafe ps → All IsNotUp ps
All-IsNotUp [] h = tt
All-IsNotUp (p ∷ ps) (q, h) = (q.not_up, All-IsNotUp ps h)

later_parts-IsNotUp : (ps : List String) → All IsSafe ps → All IsNotUp (later_parts ps)
later_parts-IsNotUp [] h = tt
later_parts-IsNotUp (p ∷ ps) (q, h) = All-IsNotUp ps h

entry_name-readable : (name : String) {n : String} → entry_name name ≡ some n → is_unsafe n ≡ false
unfolding is_unsafe entry_name
entry_name-readable name {n} e =
    let below = entry_name-IsBelow name e in
    let first =
      accepted-first (join_slash (clean_parts true (String.◌++◌ "/" name)))
        (ap accepted_name (sym (clean_rooted name)) ∙ e) in
    rw (relative n below)
      (rw first (contains-IsNotUp n (later_parts-IsNotUp (split_on b'/' n) below)))

pub pack-readable :
    (files packed : Files)
    → pack files ≡ ok packed
    → All {A = String × String} (λ f. is_unsafe f.0 ≡ false) packed
pack-readable files packed h =
    pack-Named (λ n. is_unsafe n ≡ false) (λ name n e. entry_name-readable name e) files packed h
