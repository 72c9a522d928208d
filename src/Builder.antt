-- ===== src/Builder.antt =====
-- services/control-plane/internal/builder/builder.go: a build as a Kubernetes Job, and the watch
-- over it. Parameters: the API server, the store, the clock, the new build's id, and what the watch
-- sees: `polls` are the answers to its looks at the Job until the fifteen minutes are over, `log`
-- the lines of the builder pod, if there are any.
pub mod Outcome
pub mod Manifest
pub mod Start
mod Size
unfoldable pub use Size.*
use Prim.Native.String
use Prim.Native.String.{[]}
use spinup.Prelude.{
  ℕ, ◌+◌, ℤ, pos, String, Bool, true, false, not, ◌&&◌, ◌||◌, Option, none, some, List, [], ◌∷◌,
  ◌++◌, map, Result, ok, err, non_positive, if◌then◌else◌, ◌==◌,
}
use spinup.Store.{
  Application, Function, Source, Build, BuildStatus, build_pending, build_running, build_succeeded,
  build_failed, runtime_worker_pool, StoreError, StoreOps,
}
use spinup.Kube.{Kube, KubeError, missing, exists, deadline, failure, JobSpec, JobStatus}
use spinup.World.{World}
use spinup.Archive.{Files, pack}
use spinup.Text.{trim_space}
use spinup.Deploy
use spinup.Deploy.{Deployer}
use spinup.SpinApp.{SpinError}

pub record Config : Type 0 where
  pub namespace : String
  pub go_image : String
  pub js_image : String
  pub ts_image : String
  pub rust_image : String
  pub registry_url : String
  pub auth_secret : String
  pub image_pull_secrets : List String

-- The builder image of a language.
unfoldable pub profile : Config → String → Option String
profile cfg lang =
    if lang == "go"
    then some cfg.go_image
    else if lang == "js"
    then some cfg.js_image
    else if lang == "ts"
    then some cfg.ts_image
    else if lang == "rust"
    then some cfg.rust_image
    else none

pub record FunctionBuildInput : Type 0 where
  pub function : Function
  pub source : Source

pub data StartError : Type 0 where
  no_builder no_functions : StartError
  no_manifest : StartError
  create_row : StoreError → StartError
  bad_source : String → StartError
  create_secret create_job : KubeError → StartError

-- functions/{name}/{path} for each file of a function.
unfoldable pub placed_files : String → Files → Files
placed_files name [] = []
placed_files name ((path, content) ∷ files) =
    (String.◌++◌ "functions/" (String.◌++◌ name (String.◌++◌ "/" path)), content)
    ∷ placed_files name files

unfoldable pub placed : List FunctionBuildInput → Files
unfolding placed_files
placed [] = []
placed (fb ∷ fbs) = placed_files fb.function.name fb.source.files ++ placed fbs

-- Blank names are dropped.
unfoldable pub pull_secret_refs : List String → List String
pull_secret_refs [] = []
pull_secret_refs (n ∷ ns) =
    let rest = pull_secret_refs ns in if trim_space n == "" then rest else trim_space n ∷ rest

unfoldable pub secret_name : String → String
secret_name id = String.◌++◌ "src-" id

unfoldable pub job_name : String → String
job_name id = String.◌++◌ "build-" id

abbrev pub build_labels : String → List (String × String)
build_labels id =
    ("app.kubernetes.io/managed-by", "spinup") ∷ ("spinup.emdzej.pl/build-id", id) ∷ []

unfoldable pub job_spec : Config → String → Application → String → String → JobSpec
unfolding secret_name job_name pull_secret_refs
job_spec cfg id app image_ref builder_image = record {
  name = job_name id;
  labels =
      build_labels id
      ++ ("spinup.emdzej.pl/application-id", app.app_id)
        ∷ ("spinup.emdzej.pl/application", app.name)
        ∷ [];
  backoff_limit = 0;
  ttl_seconds = 600;
  image_pull_secrets = pull_secret_refs cfg.image_pull_secrets;
  builder_image = builder_image;
  environment = ("IMAGE_REF", image_ref) ∷ ("APPLICATION_NAME", app.name) ∷ [];
  source_secret = secret_name id;
  auth_secret = if cfg.auth_secret == "" then none else some cfg.auth_secret;
}

-- The Job is done when a pod succeeded or failed.
unfoldable pub is_done : JobStatus → Bool
is_done j = not (non_positive j.succeeded) || not (non_positive j.failed)

-- wait.PollUntilContextTimeout with the closure of `watch`: the first answer that is an error or
-- shows a finished Job, or the deadline.
unfoldable pub poll : List (Result KubeError JobStatus) → Result KubeError JobStatus
unfolding is_done
poll [] = err deadline
poll (err e ∷ rest) = err e
poll (ok j ∷ rest) = if is_done j then ok j else poll rest

-- The message of the first condition of type "Failed" that has one.
unfoldable pub failure_message : List (String × String) → String
failure_message [] = "job failed"
failure_message ((kind, message) ∷ cs) =
    if kind == "Failed" && not (message == "") then message else failure_message cs

-- `text` is `Error()` of the API server's errors.
unfoldable pub watch_message : (KubeError → String) → KubeError → String
watch_message text deadline = "build timed out after 15m"
watch_message text missing = text missing
watch_message text exists = text exists
watch_message text (failure s) = text (failure s)

-- What `Start` asks of the deployer after a build.
unfoldable pub deploy_request : Application → String → Deploy.Request
deploy_request app image_ref = record { app = app; image = image_ref; replicas = pos 1 }

module _ {S C : Type 0} (ops : StoreOps S) where
  set_status : String → BuildStatus → String → Option ℕ → World S C → World S C
  set_status id status message finished w = record w {
    store = (ops.update_build_status id status message finished w.store).1;
  }

  fail_build : String → String → ℕ → World S C → World S C
  unfolding set_status
  fail_build id message now w =
      let w' = set_status id build_failed message (some now) w in
      record w' { builds_failed = w.builds_failed + 1 }

  succeed_build : String → ℕ → World S C → World S C
  unfolding set_status
  succeed_build id now w =
      let w' = set_status id build_succeeded "" (some now) w in
      record w' {
        deploys_applied = w.deploys_applied + 1;
        builds_succeeded = w.builds_succeeded + 1;
      }

  -- The image size of the log is stored if there is one.
  sized : String → Option (List String) → World S C → World S C
  unfolding extract_image_size
  sized id log w = elim (extract_image_size log) [
    | none ↦ w
    | some n ↦ record w { store = (ops.update_build_image_size id n w.store).1 }
  ]

module _ {S C : Type 0} (ops : StoreOps S) (kube : Kube C) {Q : Type 0} (parse : String → Option Q)
    (exceeds : Q → Q → Bool) (d : Deployer) (error_text : SpinError → String)
    (kube_text : KubeError → String) where
  deployed : {A : Type 0} → String → ℕ → World S C → Result SpinError A × C → World S C
  unfolding fail_build succeed_build
  deployed id now w (ok st, c) = succeed_build ops id now (record w { cluster = c })
  deployed id now w (err e, c) =
      fail_build ops id (String.◌++◌ "deploy: " (error_text e)) now (record w { cluster = c })

  -- What follows a Job that succeeded.
  publish : String → Application → String → ℕ → World S C → World S C
  unfolding deployed deploy_request
  publish id app image_ref now w =
      if app.runtime == runtime_worker_pool
      then succeed_build ops id now w
      else deployed id now w
          (Deploy.deploy parse exceeds d kube (deploy_request app image_ref) w.cluster)

  finish :
      String
      → Application
      → String
      → ℕ
      → Option (List String)
      → Result KubeError JobStatus
      → World S C
      → World S C
  unfolding publish sized failure_message watch_message
  finish id app image_ref now log (err e) w = fail_build ops id (watch_message kube_text e) now w
  finish id app image_ref now log (ok j) w =
      if not (non_positive j.failed)
      then fail_build ops id (failure_message j.conditions) now w
      else publish id app image_ref now (sized ops id log w)

  unfoldable pub watch :
      String
      → Application
      → String
      → ℕ
      → List (Result KubeError JobStatus)
      → Option (List String)
      → World S C
      → World S C
  unfolding finish poll
  watch id app image_ref now polls log w =
      finish id app image_ref now log (poll polls) (set_status ops id build_running "" none w)
