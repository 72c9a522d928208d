-- ===== src/Text/Paths/Inner.antt =====
-- A path none of whose parts is ".." does not contain "/../".
use Prim.Native.Char.{code}
use Prim.Native.String.{[], ◌∷◌, char_at}
use text.Mathlib.TextEquality.{Char-path}
use spinup.Prelude.{
  ◌≡◌, refl, sym, ◌≢◌, String, true, false, List, [], ◌∷◌, All, arith, eqb, Bool-cases, inl, inr,
}
use spinup.Text.{has_prefix, contains, split_on}
use spinup.Text.Paths.Fixed.{split_on-parts}

abbrev pub IsNotUp : String → Type 0
IsNotUp p = p ≢ ".."

-- The parts after the first.
abbrev pub later_parts : List String → List String
later_parts [] = []
later_parts (p ∷ ps) = ps

-- A text that begins with "../" has ".." for its first part.
first_up :
    (s : String) → has_prefix s "../" ≡ true → (ps : List String) × (split_on b'/' s ≡ ".." ∷ ps)
unfolding split_on has_prefix
first_up [] h = absurd cc
first_up (a ∷ []) h = absurd (ground arith)
first_up (a ∷ b ∷ []) h = absurd (ground arith)
first_up (a ∷ b ∷ c ∷ s) h =
    let dot : String = "." in
    let is_a : char_at dot 0 ≡ a = Char-path (char_at dot 0) a (ground arith) in
    let is_b : char_at dot 0 ≡ b = Char-path (char_at dot 0) b (ground arith) in
    let is_c : char_at "/" 0 ≡ c = Char-path (char_at "/" 0) c (ground arith) in
    rw (sym is_a, sym is_b, sym is_c) (_, refl)

-- The text itself may begin within a part.
pub contains-IsNotUp :
    (s : String) → All IsNotUp (later_parts (split_on b'/' s)) → contains s "/../" ≡ false
unfolding contains has_prefix split_on
contains-IsNotUp [] h = refl
contains-IsNotUp (c ∷ s) h = elim (Bool-cases (eqb (code c) b'/')) [
  | inr other ↦
      let (p, ps, e) = split_on-parts s in
      let after = rw e at (rw other at h) in rw other (contains-IsNotUp s (rw e after))
  | inl slash ↦
      let all = rw slash at h in
      elim (Bool-cases (has_prefix s "../")) [
        | inl up ↦ let (ps, e) = first_up s up in absurd ((rw e at all).0 refl)
        | inr fine ↦
            let (p, ps, e) = split_on-parts s in
            let after = (rw e at all).1 in rw slash (rw fine (contains-IsNotUp s (rw e after)))
      ]
]
