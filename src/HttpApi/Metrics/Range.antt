-- ===== src/HttpApi/Metrics/Range.antt =====
-- Which ranges and steps metrics.go takes.
use spinup.Prelude.{
  ◌≡◌, refl, ap, ◌↔◌, inl, inr, ℕ, ◌≤◌, ℤ, pos, negsuc, String, Bool, false, ◌||◌, arith, Result,
  ok, err, ok-injective, ltb, Bool-cases,
}
use spinup.Session.{minute}
use spinup.HttpApi.Metrics.{
  second, day, or_else, bounded_range, bounded_step, then_step, parse_range,
}

module _ (duration : String → Result String ℤ) (is_print : ℕ → Bool) where
  bounded_range-ok :
      (s : String) (d : Result String ℤ) (r : ℕ)
      → bounded_range duration is_print s d ≡ ok r
      → (d ≡ ok (pos r)) × (minute ≤ r) × (r ≤ day)
  bounded_range-ok s (err e) r h = absurd cc
  bounded_range-ok s (ok (negsuc n)) r h = absurd cc
  bounded_range-ok s (ok (pos n)) r h = elim (Bool-cases (ltb n minute || ltb day n)) [
    | inl out ↦ absurd (not_ok (rw out at h))
    | inr fits ↦
        let same : n ≡ r = ok-injective (rw fits at h) in
        (ap (λ x. ok (pos x)) same, ground arith, ground arith)
  ]
    where
      not_ok : {e : String} → ◌≡◌ {A = Result String ℕ} (err e) (ok r) → ⊥
      not_ok e = cc

  bounded_step-ok :
      (s : String) (d : Result String ℤ) (r : ℕ)
      → bounded_step duration is_print s d ≡ ok r
      → (d ≡ ok (pos r)) × (second ≤ r)
  bounded_step-ok s (err e) r h = absurd cc
  bounded_step-ok s (ok (negsuc n)) r h = absurd cc
  bounded_step-ok s (ok (pos n)) r h = elim (Bool-cases (ltb n second)) [
    | inl out ↦ absurd (not_ok (rw out at h))
    | inr fits ↦
        let same : n ≡ r = ok-injective (rw fits at h) in (ap (λ x. ok (pos x)) same, ground arith)
  ]
    where
      not_ok : {e : String} → ◌≡◌ {A = Result String ℕ} (err e) (ok r) → ⊥
      not_ok e = cc

  then_step-ok :
      (a b : Result String ℕ) (r s : ℕ)
      → then_step duration is_print a b ≡ ok (r, s)
      → (a ≡ ok r) × (b ≡ ok s)
  then_step-ok (err e) b r s h = absurd cc
  then_step-ok (ok x) (err e) r s h = absurd cc
  then_step-ok (ok x) (ok y) r s h =
      (ap (λ p. ok (p.0)) (ok-injective h), ap (λ p. ok (p.1)) (ok-injective h))

  -- A range and a step are taken exactly if they are durations, the range of at least a minute and at
  -- most a day and the step of at least a second, where an empty text stands for 15m and 15s.
  pub parse_range_iff :
      (rng stp : String) (r s : ℕ)
      → (parse_range duration is_print rng stp ≡ ok (r, s)) ↔ (
          (duration (or_else "15m" rng) ≡ ok (pos r))
          × (minute ≤ r)
          × (r ≤ day)
          × (duration (or_else "15s" stp) ≡ ok (pos s))
          × (second ≤ s))
  unfolding parse_range
  parse_range_iff rng stp r s = (
    λ h.
        let (a, b) = then_step-ok _ _ r s h in
        let (is_range, low, high) = bounded_range-ok rng _ r a in
        let (is_step, least) = bounded_step-ok stp _ s b in (is_range, low, high, is_step, least),
    λ h.
        let (is_range, low, high, is_step, least) = h in
        let inside : (ltb r minute || ltb day r) ≡ false = ground arith in
        let enough : ltb s second ≡ false = ground arith in
        rw (is_range, is_step) (rw (inside, enough) refl),
  )
