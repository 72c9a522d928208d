-- ===== src/Policy.antt =====
-- services/control-plane/internal/policy/resources.go: the platform's caps on CPU and memory.
-- Kubernetes quantities are a parameter: `parse` is resource.ParseQuantity, `exceeds` is
-- `Cmp(…) > 0` on two parsed quantities.
pub mod Caps
use spinup.Prelude.{
  String, Bool, true, false, ◌||◌, Option, none, some, Result, ok, err, ◌>>◌, if◌then◌else◌, ◌==◌,
}
use spinup.Store.{Resources}

abbrev pub mode_open : String
mode_open = "open"

abbrev pub mode_max : String
mode_max = "max"

abbrev pub mode_forced : String
mode_forced = "forced"

pub record Range : Type 0 where
  pub request : String
  pub limit : String

pub record ResourcePolicy : Type 0 where
  pub mode : String
  pub cpu : Range
  pub mem : Range

-- The errors of `Apply`, of which `violation` is the type ErrPolicyViolation.
pub data PolicyError : Type 0 where
  violation : String → String → String → PolicyError
  invalid_quantity : String → String → PolicyError
  invalid_cap : String → String → PolicyError
  unknown_mode : String → PolicyError

unfoldable pub is_policy_violation : PolicyError → Bool
is_policy_violation (violation field user cap) = true
is_policy_violation (invalid_quantity field user) = false
is_policy_violation (invalid_cap field cap) = false
is_policy_violation (unknown_mode mode) = false

-- The platform's four values.
unfoldable pub platform : ResourcePolicy → Resources
platform p = record {
  cpu_request = p.cpu.request;
  cpu_limit = p.cpu.limit;
  memory_request = p.mem.request;
  memory_limit = p.mem.limit;
}

module _ {Q : Type 0} (parse : String → Option Q) (exceeds : Q → Q → Bool) where
  compare_cap : String → String → String → Option Q → Option Q → Result PolicyError (Unit {0})
  compare_cap field user cap none c = err (invalid_quantity field user)
  compare_cap field user cap (some q) none = err (invalid_cap field cap)
  compare_cap field user cap (some q) (some c) =
      if exceeds q c then err (violation field user cap) else ok tt

  unfoldable pub check_max : String → String → String → Result PolicyError (Unit {0})
  unfolding compare_cap
  check_max field user cap =
      if user == "" || cap == "" then ok tt else compare_cap field user cap (parse user) (parse cap)

  unfoldable pub check_all : ResourcePolicy → Resources → Result PolicyError (Unit {0})
  check_all p user = do
    check_max "cpuRequest" user.cpu_request p.cpu.request
    check_max "cpuLimit" user.cpu_limit p.cpu.limit
    check_max "memoryRequest" user.memory_request p.mem.request
    check_max "memoryLimit" user.memory_limit p.mem.limit

  unfoldable pub apply : ResourcePolicy → Resources → Result PolicyError Resources
  unfolding platform check_all
  apply p user =
      if p.mode == "" || p.mode == mode_open
      then ok user
      else if p.mode == mode_forced
      then ok (platform p)
      else if p.mode == mode_max
      then (check_all p user >> ok user)
      else err (unknown_mode p.mode)
