-- ===== src/Store/Table.antt =====
-- Tables as lists of rows in order of insertion: what the SQL of sqlite.go does to one table.
-- The tests are WHERE clauses, and an ORDER BY is a stable insertion sort.
pub mod Keys
pub mod Search
use spinup.Prelude.{◌≡◌, Bool, true, false, List, [], ◌∷◌, arith, if◌then◌else◌, All}

module _ {ℓ} {A : Type ℓ} where
  -- UPDATE … SET … WHERE
  unfoldable pub update_where : (A → Bool) → (A → A) → List A → List A
  update_where p f [] = []
  update_where p f (x ∷ xs) = (if p x then f x else x) ∷ update_where p f xs

  -- DELETE … WHERE
  unfoldable pub delete_where : (A → Bool) → List A → List A
  delete_where p [] = []
  delete_where p (x ∷ xs) = let rest = delete_where p xs in if p x then rest else x ∷ rest

  unfoldable pub insert_sorted : (A → A → Bool) → A → List A → List A
  insert_sorted le x [] = x ∷ []
  insert_sorted le x (y ∷ ys) =
      let rest = insert_sorted le x ys in if le x y then x ∷ y ∷ ys else y ∷ rest

  -- ORDER BY
  unfoldable pub order_by : (A → A → Bool) → List A → List A
  unfolding insert_sorted
  order_by le [] = []
  order_by le (x ∷ xs) = insert_sorted le x (order_by le xs)

  -- Every earlier row stands in `R` to every later one.
  abbrev pub Distinct {κ} : (A → A → Type κ) → List A → Type κ
  Distinct R [] = Unit
  Distinct R (x ∷ xs) = All (R x) xs × Distinct R xs

module _ {ℓ κ} {A : Type ℓ} (P : A → Type κ) where
  pub All-delete_where : (p : A → Bool) (xs : List A) → All P xs → All P (delete_where p xs)
  unfolding delete_where
  All-delete_where p [] h = tt
  All-delete_where p (x ∷ xs) (q, h) = ground (arith, All-delete_where p xs h)

  pub All-update_where :
      (p : A → Bool) (f : A → A) (xs : List A)
      → ((x : A) → p x ≡ true → P x → P (f x))
      → All P xs
      → All P (update_where p f xs)
  unfolding update_where
  All-update_where p f [] s h = tt
  All-update_where p f (x ∷ xs) s (q, h) = ground (arith, s x, All-update_where p f xs s h)

  pub All-insert_sorted :
      (le : A → A → Bool) (x : A) (xs : List A) → P x → All P xs → All P (insert_sorted le x xs)
  unfolding insert_sorted
  All-insert_sorted le x [] p h = (p, tt)
  All-insert_sorted le x (y ∷ ys) p (q, h) = ground (arith, All-insert_sorted le x ys p h)

  pub All-order_by : (le : A → A → Bool) (xs : List A) → All P xs → All P (order_by le xs)
  unfolding order_by
  All-order_by le [] h = tt
  All-order_by le (x ∷ xs) (p, h) = All-insert_sorted le x (order_by le xs) p (All-order_by le xs h)

  -- What holds of the rows that stay may use that the test failed on them.
  pub All-of_delete_where {ι} :
      {Q : A → Type ι} (p : A → Bool) (xs : List A)
      → ((x : A) → p x ≡ false → P x → Q x)
      → All P xs
      → All Q (delete_where p xs)
  unfolding delete_where
  All-of_delete_where p [] s h = tt
  All-of_delete_where p (x ∷ xs) s (q, h) = ground (arith, s x, All-of_delete_where p xs s h)

  pub All-mono {ι} : {Q : A → Type ι} (xs : List A) → ((x : A) → P x → Q x) → All P xs → All Q xs
  All-mono [] s h = tt
  All-mono (x ∷ xs) s (p, h) = (s x p, All-mono xs s h)
