-- ===== src/SpinApp/Requirements.antt =====
-- The resource block of a SpinApp.
use spinup.Prelude.{◌≡◌, none, arith, eq_iff, ◌↔◌}
use spinup.Store.{Resources}
use spinup.SpinApp.{resource_requirements}

-- No empty block is rendered: nothing at all when no value is set, and otherwise an object in
-- which `requests` and `limits`, where they stand, have a field.
pub resource_requirements-none_iff :
    (r : Resources)
    → (resource_requirements r ≡ none) ↔ (
        (r.cpu_request ≡ "") × (r.memory_request ≡ "") × (r.cpu_limit ≡ "") × (r.memory_limit ≡ ""))
unfolding resource_requirements
resource_requirements-none_iff r = ground (
  arith,
  eq_iff r.cpu_request "",
  eq_iff r.memory_request "",
  eq_iff r.cpu_limit "",
  eq_iff r.memory_limit "",
)
