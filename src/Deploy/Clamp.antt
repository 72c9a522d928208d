-- ===== src/Deploy/Clamp.antt =====
-- What is sent to the cluster obeys the policy and names at least one replica.
use spinup.Prelude.{
  ◌≡◌, ◌⊎◌, inl, inr, String, Bool, false, Option, some, Result-cases, non_positive, arith,
}
use spinup.Policy
use spinup.Policy.{ResourcePolicy, mode_max, mode_forced, mode_open, platform}
use spinup.Policy.Caps.{Fits, FitsAll, apply-max_iff}
use spinup.Deploy.{Request, Deployer, wanted_replicas, spin_spec}

wanted_replicas_positive : (r : Request) → non_positive (wanted_replicas r) ≡ false
unfolding wanted_replicas
wanted_replicas_positive r = ground arith

module _ {Q : Type 0} (parse : String → Option Q) (exceeds : Q → Q → Bool) where
  -- A cap of the platform is unset or a quantity.
  abbrev pub IsCap : String → Type 0
  IsCap cap = (cap ≡ "") ⊎ ((q : Q) × (parse cap ≡ some q))

  pub record HasCaps (p : ResourcePolicy) : Type 0 where
    pub cpu_request : IsCap p.cpu.request
    pub cpu_limit : IsCap p.cpu.limit
    pub memory_request : IsCap p.mem.request
    pub memory_limit : IsCap p.mem.limit

  IsCap-Fits :
      ((q : Q) → exceeds q q ≡ false) → (cap : String) → IsCap cap → Fits parse exceeds cap cap
  IsCap-Fits equal cap (inl e) = inl e
  IsCap-Fits equal cap (inr (q, e)) = inr (inr (q, q, e, e, equal q))

  platform-FitsAll :
      (p : ResourcePolicy)
      → ((q : Q) → exceeds q q ≡ false)
      → HasCaps p
      → FitsAll parse exceeds p (platform p)
  unfolding platform
  platform-FitsAll p equal h = record {
    cpu_request = IsCap-Fits equal _ h.cpu_request;
    cpu_limit = IsCap-Fits equal _ h.cpu_limit;
    memory_request = IsCap-Fits equal _ h.memory_request;
    memory_limit = IsCap-Fits equal _ h.memory_limit;
  }

  -- Under mode "max" whose caps are unset or quantities, every set of resources that is sent to the
  -- cluster fits below the caps, whatever the application's row holds, provided that no quantity
  -- exceeds itself; and the replica count that is sent is positive.
  pub spin_spec-FitsAll :
      (d : Deployer) (r : Request)
      → d.resource_policy.mode ≡ mode_max
      → ((q : Q) → exceeds q q ≡ false)
      → HasCaps d.resource_policy
      → FitsAll parse exceeds d.resource_policy (spin_spec parse exceeds d r).resources
        × (non_positive (spin_spec parse exceeds d r).replicas ≡ false)
  unfolding spin_spec
  spin_spec-FitsAll d r max equal caps = (
    elim (Result-cases (Policy.apply parse exceeds d.resource_policy r.app.resources)) [
      | inl (res, e) ↦ rw e (
          rw ((apply-max_iff parse exceeds d.resource_policy r.app.resources res max).0 e).1
            ((apply-max_iff parse exceeds d.resource_policy r.app.resources res max).0 e).0)
      | inr (f, e) ↦ rw e (platform-FitsAll d.resource_policy equal caps)
    ],
    wanted_replicas_positive r,
  )
