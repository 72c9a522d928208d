-- ===== src/Store/Sqlite/Integrity.antt =====
-- The constraints that the schema of sqlite.go declares, as an invariant of the four tables.
pub mod Applications
pub mod Functions
pub mod Others
use spinup.Prelude.{
  ◌≡◌, refl, ◌≢◌, Bool, true, false, ◌&&◌, String, List, All, arith, any, non_positive, ◌==◌,
  eq_iff,
}
use spinup.Store.{Application, Function, Source, Build}
use spinup.Store.Table.{Distinct}
use spinup.Store.Sqlite.{Db}

-- UNIQUE(tenant_id, name), UNIQUE(application_id, name)
abbrev pub OtherAppName : Application → Application → Type 0
OtherAppName a b = a.tenant_id ≡ b.tenant_id → a.name ≢ b.name

abbrev pub OtherFnName : Function → Function → Type 0
OtherFnName f g = f.application_id ≡ g.application_id → f.name ≢ g.name

-- REFERENCES applications(id), REFERENCES functions(id)
abbrev pub has_app : List Application → String → Bool
has_app apps id = any (λ a. a.app_id == id) apps

abbrev pub has_fn : List Function → String → Bool
has_fn fns id = any (λ f. f.fn_id == id) fns

pub record AppsAreSound (apps : List Application) : Type 0 where
  pub ids : Distinct (λ a b. a.app_id ≢ b.app_id) apps
  pub names : Distinct OtherAppName apps
  pub replicas : All (λ a. non_positive a.replicas ≡ false) apps

pub record FnsAreSound (apps : List Application) (fns : List Function) : Type 0 where
  pub ids : Distinct (λ f g. f.fn_id ≢ g.fn_id) fns
  pub names : Distinct OtherFnName fns
  pub owned : All (λ f. has_app apps f.application_id ≡ true) fns

pub record SourcesAreSound (fns : List Function) (sources : List Source) : Type 0 where
  pub ids : Distinct (λ s t. s.function_id ≢ t.function_id) sources
  pub owned : All (λ s. has_fn fns s.function_id ≡ true) sources

pub record BuildsAreSound (apps : List Application) (builds : List Build) : Type 0 where
  pub ids : Distinct (λ b c. b.build_id ≢ c.build_id) builds
  pub owned : All (λ b. has_app apps b.application_id ≡ true) builds

-- Every key is unique, every reference points at a row, and every replica count is positive.
pub record IsConsistent (db : Db) : Type 0 where
  pub apps : AppsAreSound db.applications
  pub fns : FnsAreSound db.applications db.functions
  pub sources : SourcesAreSound db.functions db.sources
  pub builds : BuildsAreSound db.applications db.builds
