-- ===== src/Store/Table/Search.antt =====
-- Searching a table for a row: what a search finds after rows are added, changed or deleted.
use spinup.Prelude.{
  ◌≡◌, refl, Bool, true, false, ◌&&◌, some, List, [], ◌∷◌, ◌++◌, arith, any, find?, keep, none, All,
  is_some, Bool-cases, inl, inr,
}
use mathlib.Core.Path.{subst}
use spinup.Store.Table.{update_where, delete_where}

module _ {ℓ} {A : Type ℓ} where
  pub All-of_any-false : (p : A → Bool) (xs : List A) → any p xs ≡ false → All (λ x. p x ≡ false) xs
  unfolding any
  All-of_any-false p [] h = tt
  All-of_any-false p (x ∷ xs) h = ground (arith, All-of_any-false p xs)

  pub any-append : (p : A → Bool) (xs ys : List A) → any p xs ≡ true → any p (xs ++ ys) ≡ true
  unfolding any
  any-append p [] ys h = ground arith
  any-append p (x ∷ xs) ys h = ground (arith, any-append p xs ys)

  pub any-append_one :
      (p : A → Bool) (xs : List A) (y : A) → p y ≡ true → any p (xs ++ y ∷ []) ≡ true
  unfolding any
  any-append_one p [] y h = ground arith
  any-append_one p (x ∷ xs) y h = ground (arith, any-append_one p xs y h)

  -- A row that another test deletes is not the one that is looked for.
  pub any-delete_where :
      (p q : A → Bool) (xs : List A)
      → any p xs ≡ true
      → any (λ x. q x && p x) xs ≡ false
      → any p (delete_where q xs) ≡ true
  unfolding any delete_where
  any-delete_where p q [] h k = h
  any-delete_where p q (x ∷ xs) h k = ground (arith, any-delete_where p q xs)

  pub any-update_where :
      (p q : A → Bool) (f : A → A) (xs : List A)
      → ((x : A) → p (f x) ≡ p x)
      → any p (update_where q f xs) ≡ any p xs
  unfolding any update_where
  any-update_where p q f [] s = refl
  any-update_where p q f (x ∷ xs) s = ground (arith, s x, any-update_where p q f xs s)

  pub any-delete_where_self : (p : A → Bool) (xs : List A) → any p (delete_where p xs) ≡ false
  unfolding any delete_where
  any-delete_where_self p [] = refl
  any-delete_where_self p (x ∷ xs) = ground (arith, any-delete_where_self p xs)

  pub is_some-find? : (p : A → Bool) (xs : List A) → is_some (find? p xs) ≡ any p xs
  unfolding any find?
  is_some-find? p [] = refl
  is_some-find? p (x ∷ xs) = ground (arith, is_some-find? p xs)

  pub find?-passes : (p : A → Bool) (xs : List A) {a : A} → find? p xs ≡ some a → p a ≡ true
  unfolding find?
  find?-passes p [] h = ground arith
  find?-passes p (x ∷ xs) {a} h = ground (arith, find?-passes p xs {a = a})

  pub All-find? {κ} :
      (P : A → Type κ) (p : A → Bool) (xs : List A) {a : A} → All P xs → find? p xs ≡ some a → P a
  unfolding find?
  All-find? P p [] h e = absurd (ground arith)
  All-find? P p (x ∷ xs) {a} (q, h) e = elim (Bool-cases (p x)) [
    | inl hit ↦ subst P (ground arith) q
    | inr miss ↦ All-find? P p xs h (rw miss at e)
  ]

  pub find?-append_one :
      (p : A → Bool) (xs : List A) (y : A)
      → any p xs ≡ false
      → p y ≡ true
      → find? p (xs ++ y ∷ []) ≡ some y
  unfolding any find?
  find?-append_one p [] y h k = ground arith
  find?-append_one p (x ∷ xs) y h k = ground (arith, find?-append_one p xs y)

  pub find?-append_other :
      (p : A → Bool) (xs : List A) (y : A) → p y ≡ false → find? p (xs ++ y ∷ []) ≡ find? p xs
  unfolding find?
  find?-append_other p [] y k = ground arith
  find?-append_other p (x ∷ xs) y k = ground (arith, find?-append_other p xs y k)

  -- A selection that has nothing in common with a deletion is not changed by it.
  pub keep-delete_where_disjoint :
      (p q : A → Bool) (xs : List A)
      → ((x : A) → p x ≡ true → q x ≡ false)
      → keep p (delete_where q xs) ≡ keep p xs
  unfolding keep delete_where
  keep-delete_where_disjoint p q [] s = refl
  keep-delete_where_disjoint p q (x ∷ xs) s =
      ground (arith, s x, keep-delete_where_disjoint p q xs s)

  -- A selection of deleted rows is empty.
  pub keep-delete_where_covered :
      (p q : A → Bool) (xs : List A)
      → ((x : A) → p x ≡ true → q x ≡ true)
      → keep p (delete_where q xs) ≡ []
  unfolding keep delete_where
  keep-delete_where_covered p q [] s = refl
  keep-delete_where_covered p q (x ∷ xs) s = ground (arith, s x, keep-delete_where_covered p q xs s)

  pub find?-delete_where_covered :
      (p q : A → Bool) (xs : List A)
      → ((x : A) → p x ≡ true → q x ≡ true)
      → find? p (delete_where q xs) ≡ none
  unfolding find? delete_where
  find?-delete_where_covered p q [] s = refl
  find?-delete_where_covered p q (x ∷ xs) s =
      ground (arith, s x, find?-delete_where_covered p q xs s)

  pub find?-delete_where_disjoint :
      (p q : A → Bool) (xs : List A)
      → ((x : A) → p x ≡ true → q x ≡ false)
      → find? p (delete_where q xs) ≡ find? p xs
  unfolding find? delete_where
  find?-delete_where_disjoint p q [] s = refl
  find?-delete_where_disjoint p q (x ∷ xs) s =
      ground (arith, s x, find?-delete_where_disjoint p q xs s)

  pub any_of_find? : (p : A → Bool) (xs : List A) (a : A) → find? p xs ≡ some a → any p xs ≡ true
  unfolding find? any
  any_of_find? p [] a h = ground arith
  any_of_find? p (x ∷ xs) a h = ground (arith, any_of_find? p xs a)

  pub find?-update_where :
      (p : A → Bool) (f : A → A) (xs : List A) {a : A}
      → ((x : A) → p x ≡ true → p (f x) ≡ true)
      → find? p xs ≡ some a
      → find? p (update_where p f xs) ≡ some (f a)
  unfolding find? update_where
  find?-update_where p f [] s h = ground arith
  find?-update_where p f (x ∷ xs) {a} s h = ground (arith, s x, find?-update_where p f xs {a = a} s)

  -- An update that covers what is looked for, and does not change what the search looks at.
  pub find?-update_covered :
      (p q : A → Bool) (f : A → A) (xs : List A) {a : A}
      → ((x : A) → p (f x) ≡ p x)
      → ((x : A) → p x ≡ true → q x ≡ true)
      → find? p xs ≡ some a
      → find? p (update_where q f xs) ≡ some (f a)
  unfolding find? update_where
  find?-update_covered p q f [] s c h = ground arith
  find?-update_covered p q f (x ∷ xs) {a} s c h =
      ground (arith, s x, c x, find?-update_covered p q f xs {a = a} s c)
