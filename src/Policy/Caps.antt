-- ===== src/Policy/Caps.antt =====
-- What an accepted set of resources satisfies under the policy of resources.go.
use mathlib.Core.HLevel.{Unit-prop}
use spinup.Prelude.{
  ◌≡◌, ap, ◌∙◌, ◌↔◌, sym, ok-injective, ◌⊎◌, inl, inr, String, Bool, true, false, ◌||◌, Option,
  some, Result, ok, err, ◌>>◌, >>=-ok, Result-cases, arith, if◌then◌else◌, ◌==◌, eq_iff,
}
use spinup.Store.{Resources}
use spinup.Policy.{
  ResourcePolicy, PolicyError, unknown_mode, mode_open, mode_max, mode_forced, platform, check_max,
  check_all, apply, is_policy_violation,
}

module _ {Q : Type 0} (parse : String → Option Q) (exceeds : Q → Q → Bool) where
  -- A value fits below a cap: one of them is unset, or both are quantities and the value does not
  -- exceed the cap.
  abbrev pub Fits : String → String → Type 0
  Fits user cap =
      (user ≡ "")
      ⊎ (cap ≡ "")
      ⊎ ((q : Q) × (c : Q) × (parse user ≡ some q) × (parse cap ≡ some c) × (exceeds q c ≡ false))

  abbrev pub Exceeds : String → String → Type 0
  Exceeds user cap =
      (q : Q) × (c : Q) × (parse user ≡ some q) × (parse cap ≡ some c) × (exceeds q c ≡ true)

  pub record FitsAll (p : ResourcePolicy) (r : Resources) : Type 0 where
    pub cpu_request : Fits r.cpu_request p.cpu.request
    pub cpu_limit : Fits r.cpu_limit p.cpu.limit
    pub memory_request : Fits r.memory_request p.mem.request
    pub memory_limit : Fits r.memory_limit p.mem.limit

  check_max-Fits :
      (field user cap : String) → check_max parse exceeds field user cap ≡ ok tt → Fits user cap
  unfolding check_max
  check_max-Fits field user cap h = ground (arith, eq_iff user "", eq_iff cap "")

  Fits-check_max :
      (field user cap : String) → Fits user cap → check_max parse exceeds field user cap ≡ ok tt
  unfolding check_max
  Fits-check_max field user cap h = ground (arith, eq_iff user "", eq_iff cap "")

  check_all-FitsAll :
      (p : ResourcePolicy) (r : Resources) → check_all parse exceeds p r ≡ ok tt → FitsAll p r
  unfolding check_all
  check_all-FitsAll p r h =
      let (_, h₁, a) =
        >>=-ok (check_max parse exceeds "cpuRequest" r.cpu_request p.cpu.request) _ h in
      let (_, h₂, b) = >>=-ok (check_max parse exceeds "cpuLimit" r.cpu_limit p.cpu.limit) _ h₁ in
      let (_, d, c) =
        >>=-ok (check_max parse exceeds "memoryRequest" r.memory_request p.mem.request) _ h₂ in
      record {
        cpu_request = check_max-Fits "cpuRequest" _ _ (a ∙ ap ok (Unit-prop _ _));
        cpu_limit = check_max-Fits "cpuLimit" _ _ (b ∙ ap ok (Unit-prop _ _));
        memory_request = check_max-Fits "memoryRequest" _ _ (c ∙ ap ok (Unit-prop _ _));
        memory_limit = check_max-Fits "memoryLimit" _ _ d;
      }

  FitsAll-check_all :
      (p : ResourcePolicy) (r : Resources) → FitsAll p r → check_all parse exceeds p r ≡ ok tt
  unfolding check_all
  FitsAll-check_all p r h = simp (
    Fits-check_max "cpuRequest" _ _ h.cpu_request,
    Fits-check_max "cpuLimit" _ _ h.cpu_limit,
    Fits-check_max "memoryRequest" _ _ h.memory_request,
    Fits-check_max "memoryLimit" _ _ h.memory_limit,
  )

  apply_max :
      (p : ResourcePolicy) (r : Resources)
      → p.mode ≡ mode_max
      → apply parse exceeds p r ≡ (check_all parse exceeds p r >> ok r)
  unfolding apply
  apply_max p r max = ap (λ m. choose m) max
    where
      choose : String → Result PolicyError Resources
      choose m =
          if m == "" || m == mode_open
          then ok r
          else if m == mode_forced
          then ok (platform p)
          else if m == mode_max
          then (check_all parse exceeds p r >> ok r)
          else err (unknown_mode m)

  -- In mode "max" the resources are accepted, unchanged, exactly when each of the four values fits
  -- below its cap.
  pub apply-max_iff :
      (p : ResourcePolicy) (r r' : Resources)
      → p.mode ≡ mode_max
      → (apply parse exceeds p r ≡ ok r') ↔ (FitsAll p r × (r' ≡ r))
  apply-max_iff p r r' max = (
    λ h.
        let (u, e, c) = >>=-ok (check_all parse exceeds p r) _ (sym (apply_max p r max) ∙ h) in
        (check_all-FitsAll p r (c ∙ ap ok (Unit-prop _ _)), sym (ok-injective e)),
    λ (f, same). apply_max p r max ∙ (rw (FitsAll-check_all p r f) (ap ok (sym same))),
  )

  -- Whatever the mode, resources that were accepted are accepted again, and unchanged.
  pub apply_idempotent :
      (p : ResourcePolicy) (r r' : Resources)
      → apply parse exceeds p r ≡ ok r'
      → apply parse exceeds p r' ≡ ok r'
  unfolding apply
  apply_idempotent p r r' h = elim (Result-cases (check_all parse exceeds p r)) [
    | inl (u, e) ↦ ground arith
    | inr (f, e) ↦ ground arith
  ]

  violation_of_check :
      (field user cap : String) (e : PolicyError)
      → check_max parse exceeds field user cap ≡ err e
      → is_policy_violation e ≡ true
      → Exceeds user cap
  unfolding check_max is_policy_violation
  violation_of_check field user cap e h v = ground (arith, eq_iff user "", eq_iff cap "")

  violation_of_checks :
      (p : ResourcePolicy) (r : Resources) (e : PolicyError)
      → check_all parse exceeds p r ≡ err e
      → is_policy_violation e ≡ true
      → Exceeds r.cpu_request p.cpu.request
        ⊎ Exceeds r.cpu_limit p.cpu.limit
        ⊎ Exceeds r.memory_request p.mem.request
        ⊎ Exceeds r.memory_limit p.mem.limit
  unfolding check_all
  violation_of_checks p r e h v = ground (
    arith,
    violation_of_check "cpuRequest" r.cpu_request p.cpu.request e,
    violation_of_check "cpuLimit" r.cpu_limit p.cpu.limit e,
    violation_of_check "memoryRequest" r.memory_request p.mem.request e,
    violation_of_check "memoryLimit" r.memory_limit p.mem.limit e,
  )

  -- Resources are refused as a violation of the policy only in mode "max", and only if one of the
  -- four values is a quantity that exceeds its cap.
  pub apply_violation :
      (p : ResourcePolicy) (r : Resources) (e : PolicyError)
      → apply parse exceeds p r ≡ err e
      → is_policy_violation e ≡ true
      → (p.mode ≡ mode_max)
        × (Exceeds r.cpu_request p.cpu.request
            ⊎ Exceeds r.cpu_limit p.cpu.limit
            ⊎ Exceeds r.memory_request p.mem.request
            ⊎ Exceeds r.memory_limit p.mem.limit)
  unfolding apply is_policy_violation
  apply_violation p r e h v =
      (ground (arith, eq_iff p.mode mode_max), violation_of_checks p r e (ground arith) v)
