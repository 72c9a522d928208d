-- ===== src/Prelude/Results.antt =====
-- Errors as values: a Go pair `(value, err)` of which one half is meaningful.
use mathlib.Core.Path.{◌≡◌, refl}
use mathlib.Core.Logic.{◌⊎◌, inl, inr}
use mathlib.Core.Bool.{Bool, true, false}

pub data Result {ℓ} (E A : Type ℓ) : Type ℓ where
  ok : A → Result E A
  err : E → Result E A

abbrev pub is_ok {ℓ} : {E A : Type ℓ} → Result E A → Bool
is_ok (ok a) = true
is_ok (err e) = false

infixl 5 ◌>>=◌ ◌>>◌
-- `if err != nil { return err }` between two steps.
abbrev pub ◌>>=◌ {ℓ} : {E X Y : Type ℓ} → Result E X → (X → Result E Y) → Result E Y
first >>= next = elim first [ err e ↦ err e | ok x ↦ next x ]

-- A step whose value is not needed.
abbrev pub ◌>>◌ {ℓ} : {E X Y : Type ℓ} → Result E X → Result E Y → Result E Y
first >> second = first >>= λ _. second

-- Where two steps went well, the first did, and the second did with its value.
pub >>=-ok {ℓ} :
    {E X Y : Type ℓ} (first : Result E X) (next : X → Result E Y) {y : Y}
    → (first >>= next) ≡ ok y
    → (x : X) × (next x ≡ ok y) × (first ≡ ok x)
>>=-ok (err e) next done = cc
>>=-ok (ok x) next done = (x, done, refl)

pub Result-cases {ℓ} :
    {E A : Type ℓ} (r : Result E A) → ((a : A) × (r ≡ ok a)) ⊎ ((e : E) × (r ≡ err e))
Result-cases (ok a) = inl (a, refl)
Result-cases (err e) = inr (e, refl)

pub ok-injective {ℓ} : {E A : Type ℓ} {a b : A} → ◌≡◌ {A = Result E A} (ok a) (ok b) → a ≡ b
ok-injective h = cc
