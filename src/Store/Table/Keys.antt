-- ===== src/Store/Table/Keys.antt =====
-- Keys of a table: inserting, updating and deleting rows keeps rows that differ pairwise.
use spinup.Prelude.{
  ◌≡◌, Bool, true, List, [], ◌∷◌, ◌++◌, arith, All, All-append, Bool-cases, inl, inr,
}
use spinup.Store.Table.{update_where, delete_where, Distinct, All-delete_where, All-update_where}

module _ {ℓ κ} {A : Type ℓ} (R : A → A → Type κ) where
  pub Distinct-delete_where :
      (p : A → Bool) (xs : List A) → Distinct R xs → Distinct R (delete_where p xs)
  unfolding delete_where
  Distinct-delete_where p [] h = tt
  Distinct-delete_where p (x ∷ xs) (q, h) =
      ground (arith, All-delete_where (R x) p xs q, Distinct-delete_where p xs h)

  pub Distinct-append_one :
      (xs : List A) (y : A) → Distinct R xs → All (λ x. R x y) xs → Distinct R (xs ++ y ∷ [])
  Distinct-append_one [] y h k = (tt, tt)
  Distinct-append_one (x ∷ xs) y (q, h) (p, k) =
      (All-append (R x) xs (y ∷ []) q (p, tt), Distinct-append_one xs y h k)

  Distinct-head : (x z : A) (ys : List A) → ((y : A) → R x y → R z y) → All (R x) ys → All (R z) ys
  Distinct-head x z [] s h = tt
  Distinct-head x z (y ∷ ys) s (p, h) = (s y p, Distinct-head x z ys s h)

  -- The new row stands to the others as the old one did.
  pub Distinct-update_where :
      (p : A → Bool) (f : A → A) (xs : List A)
      → ((x y : A) → p x ≡ true → R x y → R (f x) y)
      → ((x y : A) → p y ≡ true → R x y → R x (f y))
      → Distinct R xs
      → Distinct R (update_where p f xs)
  unfolding update_where
  Distinct-update_where p f [] l r h = tt
  Distinct-update_where p f (x ∷ xs) l r (q, h) =
      let rest = Distinct-update_where p f xs l r h in
      let old = All-update_where (R x) p f xs (r x) q in
      elim (Bool-cases (p x)) [
        | inl hit ↦ rw hit (Distinct-head x (f x) (update_where p f xs) (λ y. l x y hit) old, rest)
        | inr miss ↦ rw miss (old, rest)
      ]
