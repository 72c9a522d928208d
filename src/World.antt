-- ===== src/World.antt =====
-- What a request or a build changes: the store, the cluster, and the counters of
-- services/control-plane/internal/telemetry/metrics.go that the code adds to.

use spinup.Prelude.{ℕ}

pub record World (S C : Type 0) : Type 0 where
  pub store : S
  pub cluster : C
  pub functions_created : ℕ
  pub functions_deleted : ℕ
  pub deploys_applied : ℕ
  pub builds_started : ℕ
  pub builds_succeeded : ℕ
  pub builds_failed : ℕ
