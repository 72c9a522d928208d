-- ===== src/Archive/Names.antt =====
-- Every packed name stays below the directory that the archive is unpacked to.
use Prim.Native.String
use Prim.Native.String.{[], ◌∷◌}
use text.Mathlib.TextLemmas.{nil-append, cons-append}
use mathlib.Core.Path.{subst}
use spinup.Prelude.{
  ok-injective, ◌≡◌, refl, sym, ap, ◌∙◌, String, true, false, some, List, [], ◌∷◌, Result, ok, All,
  arith, ◌==◌, Bool-cases, Option-cases, inl, inr, Result-cases,
}
use spinup.Store.Table.{order_by}
use spinup.Text.{has_prefix, trim_slash, split_on, join_slash}
use spinup.Text.Paths.{clean, clean_parts}
use spinup.Text.Paths.Safe.{IsSafe, clean_parts-IsSafe, split_on-join_slash, IsSafe-Lacks}
use spinup.Archive.{Files, accepted_name, entry_name, pack_all, pack, pack_one, by_name}

-- A relative name whose parts are all safe.
abbrev pub IsBelow : String → Type 0
IsBelow name = All IsSafe (split_on b'/' name)

is_rooted : (name : String) → has_prefix (String.◌++◌ "/" name) "/" ≡ true
unfolding has_prefix
is_rooted name = rw cons-append refl

pub clean_rooted :
    (name : String)
    → clean (String.◌++◌ "/" name)
      ≡ String.◌++◌ "/" (join_slash (clean_parts true (String.◌++◌ "/" name)))
unfolding clean
clean_rooted name = rw (is_rooted name) refl

pub trim_slash_rooted : (s : String) → trim_slash (String.◌++◌ "/" s) ≡ s
unfolding trim_slash
trim_slash_rooted s = rw (cons-append, nil-append) refl

joined_IsBelow :
    (ps : List String)
    → All IsSafe ps
    → ((String.◌++◌ "/" (join_slash ps)) == "/") ≡ false
    → IsBelow (join_slash ps)
unfolding join_slash
joined_IsBelow [] h e = cc
joined_IsBelow (p ∷ ps) h e = rw (split_on-join_slash p ps (IsSafe-Lacks (p ∷ ps) h)) h

accepted_IsBelow :
    (ps : List String) {n : String}
    → All IsSafe ps
    → accepted_name (String.◌++◌ "/" (join_slash ps)) ≡ some n
    → IsBelow n
unfolding accepted_name
accepted_IsBelow ps {n} h e = elim (Bool-cases ((String.◌++◌ "/" (join_slash ps)) == "/")) [
  | inl root ↦ absurd (ground arith)
  | inr not_root ↦
      let same : join_slash ps ≡ n = ground (arith, trim_slash_rooted (join_slash ps)) in
      subst IsBelow same (joined_IsBelow ps h not_root)
]

pub entry_name-IsBelow : (name : String) {n : String} → entry_name name ≡ some n → IsBelow n
unfolding entry_name
entry_name-IsBelow name e =
    accepted_IsBelow (clean_parts true (String.◌++◌ "/" name)) (clean_parts-IsSafe _)
      (ap accepted_name (sym (clean_rooted name)) ∙ e)

-- What holds of every name that is accepted holds of the names of a packed tree.
module _ (P : String → Type 0) (named : (name n : String) → entry_name name ≡ some n → P n) where
  abbrev Named : Files → Type 0
  Named files = All {A = String × String} (λ f. P f.0) files

  pack_one-Named :
      (name content : String) (r : Result String Files) (packed : Files)
      → ((rest : Files) → r ≡ ok rest → Named rest)
      → pack_one name content (entry_name name) r ≡ ok packed
      → Named packed
  unfolding pack_one
  pack_one-Named name content r packed ih h = elim (Option-cases (entry_name name)) [
    | inl refused ↦ absurd (ground arith)
    | inr (n, e) ↦ elim (Result-cases r) [
      | inl (rest, f) ↦
          let same : ((n, content) ∷ rest) ≡ packed = ground arith in
          subst Named same (named name n e, ih rest f)
      | inr (bad, f) ↦ absurd (ground arith)
    ]
  ]

  pack_all-Named : (files packed : Files) → pack_all files ≡ ok packed → Named packed
  unfolding pack_all
  pack_all-Named [] packed h = subst Named (ok-injective h) tt
  pack_all-Named ((name, content) ∷ files) packed h =
      pack_one-Named name content (pack_all files) packed (pack_all-Named files) h

  pub pack-Named : (files packed : Files) → pack files ≡ ok packed → Named packed
  unfolding pack
  pack-Named files packed h = pack_all-Named (order_by by_name files) packed h

-- Every entry of a packed tree has a relative name whose parts are neither empty nor "." nor "..",
-- so that unpacking it writes below the target directory only.
pub pack-IsBelow : (files packed : Files) → pack files ≡ ok packed → All (λ f. IsBelow f.0) packed
pack-IsBelow files packed h =
    pack-Named IsBelow (λ name n e. entry_name-IsBelow name e) files packed h
