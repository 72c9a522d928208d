-- ===== src/Config/Lists.antt =====
-- Comma-separated lists of config.go: what `splitCSV` returns, and that it reads its own output.
use Prim.Native.Char.{Char}
use Prim.Native.String
use Prim.Native.String.{[], ◌∷◌}
use text.Mathlib.TextLemmas.{nil-append, cons-append}
use spinup.Prelude.{
  ◌≡◌, refl, ap, ◌∙◌, ◌≢◌, ℕ, String, false, ◌&&◌, List, [], ◌∷◌, All, arith, ◌==◌, eq_iff,
  Bool-cases, inl, inr,
}
use spinup.Text.{is_space, trim_left, trim_right, trim_space, split_on}
use spinup.Text.Paths.Safe.{Lacks, split_on-Lacks}
use spinup.Config.{trimmed_parts, split_csv}

-- A text that does not begin with a space.
abbrev NoLead : String → Type 0
NoLead [] = Unit
NoLead (c ∷ s) = is_space c ≡ false

trim_left-NoLead : (s : String) → NoLead (trim_left s)
unfolding trim_left
trim_left-NoLead [] = tt
trim_left-NoLead (c ∷ s) = elim (Bool-cases (is_space c)) [
  | inl space ↦ rw space (trim_left-NoLead s)
  | inr other ↦ rw other other
]

trim_left-noop : (s : String) → NoLead s → trim_left s ≡ s
unfolding trim_left
trim_left-noop [] h = refl
trim_left-noop (c ∷ s) h = rw h refl

trim_right-NoLead : (s : String) → NoLead s → NoLead (trim_right s)
unfolding trim_right
trim_right-NoLead [] h = tt
trim_right-NoLead (c ∷ s) h = rw h h

trim_right_twice : (s : String) → trim_right (trim_right s) ≡ trim_right s
unfolding trim_right
trim_right_twice [] = refl
trim_right_twice (c ∷ s) =
    let again = trim_right_twice s in
    elim (Bool-cases (is_space c && trim_right s == "")) [
      | inl blank ↦ rw blank refl
      | inr kept ↦ rw kept (rw again (rw kept refl))
    ]

trim_space_twice : (s : String) → trim_space (trim_space s) ≡ trim_space s
unfolding trim_space
trim_space_twice s =
    let lead = trim_right-NoLead (trim_left s) (trim_left-NoLead s) in
    ap trim_right (trim_left-noop (trim_right (trim_left s)) lead) ∙ trim_right_twice (trim_left s)

trim_left-Lacks : (sep : ℕ) (s : String) → Lacks sep s → Lacks sep (trim_left s)
unfolding trim_left
trim_left-Lacks sep [] h = tt
trim_left-Lacks sep (c ∷ s) (p, h) = elim (Bool-cases (is_space c)) [
  | inl space ↦ rw space (trim_left-Lacks sep s h)
  | inr other ↦ rw other (p, h)
]

trim_right-Lacks : (sep : ℕ) (s : String) → Lacks sep s → Lacks sep (trim_right s)
unfolding trim_right
trim_right-Lacks sep [] h = tt
trim_right-Lacks sep (c ∷ s) (p, h) = elim (Bool-cases (is_space c && trim_right s == "")) [
  | inl blank ↦ rw blank tt
  | inr kept ↦ rw kept (p, trim_right-Lacks sep s h)
]

-- An entry of a list: not empty, without surrounding space and without a comma.
abbrev pub IsEntry : String → Type 0
IsEntry p = (p ≢ "") × (trim_space p ≡ p) × Lacks b',' p

trimmed_parts-IsEntry : (ps : List String) → All (Lacks b',') ps → All IsEntry (trimmed_parts ps)
unfolding trimmed_parts
trimmed_parts-IsEntry [] h = tt
trimmed_parts-IsEntry (p ∷ ps) (l, h) = elim (Bool-cases (trim_space p == "")) [
  | inl blank ↦ rw blank (trimmed_parts-IsEntry ps h)
  | inr filled ↦ rw filled (
    (
      (λ e. ground (arith, eq_iff (trim_space p) "")),
      trim_space_twice p,
      (unfold trim_space in trim_right-Lacks b',' (trim_left p) (trim_left-Lacks b',' p l)),
    ),
    trimmed_parts-IsEntry ps h,
  )
]

split_csv-IsEntry : (s : String) → All IsEntry (split_csv s)
unfolding split_csv
split_csv-IsEntry s = elim (Bool-cases (s == "")) [
  | inl blank ↦ rw blank tt
  | inr filled ↦ rw filled (trimmed_parts-IsEntry (split_on b',' s) (split_on-Lacks b',' s))
]

-- The entries written as a list.
unfoldable pub join_comma : List String → String
join_comma [] = []
join_comma (p ∷ []) = p
join_comma (p ∷ q ∷ ps) = String.◌++◌ p (String.◌++◌ "," (join_comma (q ∷ ps)))

split_on-last : (p : String) → Lacks b',' p → split_on b',' p ≡ p ∷ []
unfolding split_on
split_on-last [] h = refl
split_on-last (c ∷ p) (q, h) = ground (arith, split_on-last p h)

split_on-comma :
    (p rest : String)
    → Lacks b',' p
    → split_on b',' (String.◌++◌ p (String.◌++◌ "," rest)) ≡ p ∷ split_on b',' rest
unfolding split_on
split_on-comma [] rest h = rw (nil-append, cons-append, nil-append) refl
split_on-comma (c ∷ p) rest (q, h) =
    rw (cons-append c p _) (ground (arith, split_on-comma p rest h))

split_on-join_comma :
    (p : String) (ps : List String)
    → All IsEntry (p ∷ ps)
    → split_on b',' (join_comma (p ∷ ps)) ≡ p ∷ ps
unfolding join_comma
split_on-join_comma p [] ((filled, trimmed, l), h) = split_on-last p l
split_on-join_comma p (q ∷ ps) ((filled, trimmed, l), h) =
    split_on-comma p (join_comma (q ∷ ps)) l ∙ ap (λ xs. p ∷ xs) (split_on-join_comma q ps h)

trimmed_parts-noop : (ps : List String) → All IsEntry ps → trimmed_parts ps ≡ ps
unfolding trimmed_parts
trimmed_parts-noop [] h = refl
trimmed_parts-noop (p ∷ ps) ((filled, trimmed, l), h) =
    let rest = trimmed_parts-noop ps h in
    let some_text : (p == "") ≡ false = ground (arith, eq_iff p "") in
    rw trimmed (rw some_text (ap (λ xs. p ∷ xs) rest))

cons_text : (c : Char) (s : String) → (c ∷ s == "") ≡ false
cons_text c s = elim (Bool-cases (c ∷ s == "")) [
  | inl blank ↦
      let none_left : ◌≡◌ {A = String} (c ∷ s) [] = (eq_iff (c ∷ s) "").0 blank in absurd cc
  | inr filled ↦ filled
]

split_csv-filled : (s : String) → (s == "") ≡ false → split_csv s ≡ trimmed_parts (split_on b',' s)
unfolding split_csv
split_csv-filled s h = rw h refl

join_comma-filled : (p : String) (ps : List String) → p ≢ "" → (join_comma (p ∷ ps) == "") ≡ false
unfolding join_comma
join_comma-filled p [] h = ground (arith, eq_iff p "")
join_comma-filled [] (q ∷ ps) h = absurd (h refl)
join_comma-filled (c ∷ p) (q ∷ ps) h = rw (cons-append c p _) (cons_text c _)

split_csv-join_comma : (ps : List String) → All IsEntry ps → split_csv (join_comma ps) ≡ ps
split_csv-join_comma [] h = unfold split_csv join_comma in refl
split_csv-join_comma (p ∷ ps) h =
    split_csv-filled (join_comma (p ∷ ps)) (join_comma-filled p ps h.0.0)
    ∙ ap trimmed_parts (split_on-join_comma p ps h)
    ∙ trimmed_parts-noop (p ∷ ps) h

-- Whatever the text, the parts that splitCSV returns are not empty, have no surrounding space and no
-- comma; and entries of that kind that are written with commas between them are what it returns.
pub split_csv_lem :
    (s : String) (ps : List String)
    → All IsEntry ps
    → (All IsEntry (split_csv s)) × (split_csv (join_comma ps) ≡ ps)
split_csv_lem s ps h = (split_csv-IsEntry s, split_csv-join_comma ps h)
