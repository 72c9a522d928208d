-- ===== src/HttpApi/Applications.antt =====
-- The handlers of services/control-plane/internal/httpapi/applications.go. `id` and `fn_id` are the
-- UUIDs that a handler draws.
pub mod Created
pub mod Updated
use spinup.Prelude.{
  ℕ, ◌+◌, ℤ, pos, negative, non_positive, String, Bool, true, false, not, ◌&&◌, ◌||◌, Option, none,
  some, is_some, List, [], ◌∷◌, map, Result, ok, err, if◌then◌else◌, ◌==◌, find?, any,
}
use spinup.Store.{
  Application, Function, Build, Variable, Resources, runtime_spin_kube, runtime_worker_pool,
  StoreError, not_found, refused, fault,
}
use spinup.World.{World}
use spinup.Policy
use spinup.Policy.{PolicyError, is_policy_violation}
use spinup.Kube.{KubeError}
use spinup.SpinApp
use spinup.SpinApp.{SpinError}
use spinup.Deploy
use spinup.HttpApi.Names.{dns1123, is_variable_name}
use spinup.HttpApi.Dto.{
  FunctionDto, DeploymentVw, ApplicationDto, CreateApplicationInput, UpdateApplicationInput,
  DeployInput, to_function_dto, to_application_dto, is_succeeded, or_empty, build_deployment_vw,
  worker_deployment,
}
use spinup.HttpApi.Actions.{
  Claims, Cause, store_cause, policy_cause, spin_cause, kube_cause, Response, json, bare, failed,
  caused, Server, Action, pure, gets, modify, reject, reject_with, ◌>>=◌, ◌>>◌, require, decoded,
  serve, require_auth, query, command, internal_error, load_application, default_tenant,
}

abbrev pub or_value : {A : Type 0} → Option A → A → A
or_value none d = d
or_value (some a) d = a

-- `switch in.Language`
unfoldable pub is_language : String → Bool
is_language l = l == "go" || l == "js" || l == "ts" || l == "rust"

unfoldable pub requested_runtime : String → String
requested_runtime r = if r == "" then runtime_spin_kube else r

unfoldable pub is_runtime : String → Bool
is_runtime r = r == runtime_spin_kube || r == runtime_worker_pool

unfoldable pub new_application : String → CreateApplicationInput → Application
unfolding requested_runtime
new_application id input = record {
  app_id = id;
  tenant_id = default_tenant;
  name = input.name;
  language = input.language;
  runtime = requested_runtime input.runtime;
  description = input.description;
  replicas = pos 1;
  variables = [];
  resources = record { cpu_request = ""; cpu_limit = ""; memory_request = ""; memory_limit = "" };
  created_at = 0;
  updated_at = 0;
}

-- The function that every new application gets.
unfoldable pub default_function : String → String → Function
default_function fn_id app_id = record {
  fn_id = fn_id;
  application_id = app_id;
  name = "default";
  route = "/...";
  created_at = 0;
  updated_at = 0;
}

-- The reply of createApplication names no replicas, variables or resources.
unfoldable pub created_dto : Application → Function → ApplicationDto
unfolding to_function_dto
created_dto app fn = record {
  id = app.app_id;
  name = app.name;
  language = app.language;
  runtime = app.runtime;
  description = app.description;
  replicas = pos 0;
  variables = [];
  resources = record { cpu_request = ""; cpu_limit = ""; memory_request = ""; memory_limit = "" };
  functions = to_function_dto fn ∷ [];
  deployment = none;
}

abbrev pub valid_names : List Variable → Bool
valid_names [] = true
valid_names (v ∷ vs) = is_variable_name v.name && valid_names vs

abbrev pub variable_name_rule : String
variable_name_rule = "variable name must start with a letter or '_' and contain only [A-Za-z0-9_]"

module _ {S C Q : Type 0} (server : Server S C Q) (claims : Option Claims) where
  abbrev W : Type 0
  W = World S C

  unfoldable pub list_applications : W → Response (List ApplicationDto) × W
  unfolding to_application_dto
  list_applications = serve do
    require_auth claims
    apps ← query (server.store.list_applications default_tenant)
    pure (json 200 (map (λ a. to_application_dto a [] none) apps))

  -- A failure to create the first function takes the application back.
  unfoldable pub roll_back : {A : Type 0} → Application → StoreError → Action W ApplicationDto A
  roll_back app e = do
    modify (λ w. record w {
      store = (server.store.delete_application default_tenant app.app_id w.store).1;
    })
    reject 500 "internal error"

  unfoldable pub create_application :
      String → String → Option CreateApplicationInput → W → Response ApplicationDto × W
  unfolding is_language is_runtime new_application default_function created_dto roll_back
  create_application id fn_id body = serve do
    require_auth claims
    input ← decoded body
    require (dns1123 input.name) 400
        "name must be DNS-1123 (lowercase alphanumeric + '-', 1-63 chars)"
    require (is_language input.language) 400 "unsupported language"
    require (is_runtime (requested_runtime input.runtime)) 400
        "runtime must be \"spinkube\" or \"workerpool\""
    let app = new_application id input
    command (server.store.create_application app)
        (λ e. reject_with 500 "internal error (possibly duplicate name): " (store_cause e))
    let fn = default_function fn_id app.app_id
    command (server.store.create_function fn) (roll_back app)
    modify (λ w. record w { functions_created = w.functions_created + 1 })
    pure (json 201 (created_dto app fn))

  abbrev shown : Application → Option Build → Option DeploymentVw
  shown app none = none
  shown app (some b) = some (worker_deployment server app b)

  abbrev shown_spin :
      Application → W → Result KubeError (Option SpinApp.Status) → Option DeploymentVw
  shown_spin app w (ok (some st)) = some (build_deployment_vw server app st w.store)
  shown_spin app w (ok none) = none
  shown_spin app w (err e) = none

  -- The deployment of an application: of a worker pool application its last successful build among
  -- 20, of any other its SpinApp.
  unfoldable pub current_deployment : Application → W → Option DeploymentVw
  unfolding worker_deployment build_deployment_vw
  current_deployment app w =
      if app.runtime == runtime_worker_pool
      then shown app
          (find? is_succeeded (or_empty (server.store.list_builds app.app_id (pos 20) w.store)))
      else shown_spin app w (SpinApp.get server.kube server.namespace app.name w.cluster)

  unfoldable pub get_application : String → W → Response ApplicationDto × W
  unfolding load_application current_deployment to_application_dto to_function_dto
  get_application id = serve do
    require_auth claims
    app ← load_application server.store id
    fns ← query (server.store.list_functions app.app_id)
    dep ← gets (current_deployment app)
    pure (json 200 (to_application_dto app (map to_function_dto fns) dep))

  abbrev pub policy_failed : PolicyError → Action W ApplicationDto Resources
  policy_failed e =
      if is_policy_violation e
      then (λ w. (err (failed 400 (caused "" (policy_cause e))), w))
      else reject 500 "internal error"

  abbrev pub policed : Result PolicyError Resources → Action W ApplicationDto Resources
  policed (ok r) = pure r
  policed (err e) = policy_failed e

  abbrev pub redeployed : Application → Result KubeError (Option SpinApp.Status) → W → W
  redeployed app (err e) w = w
  redeployed app (ok none) w = w
  redeployed app (ok (some st)) w = if st.image == "" then w else record w {
    cluster =
        (Deploy.deploy server.parse server.exceeds server.deployer server.kube
          (record { app = app; image = st.image; replicas = pos 0 }) w.cluster).1;
  }

  -- The cluster follows a change of replicas, variables or resources if the application runs there.
  unfoldable pub reconcile : Application → UpdateApplicationInput → W → W
  reconcile app input w =
      if not (app.runtime == runtime_worker_pool)
        && (is_some input.replicas || is_some input.variables || is_some input.resources)
      then redeployed app (SpinApp.get server.kube server.namespace app.name w.cluster) w
      else w

  unfoldable pub update_application :
      String → Option UpdateApplicationInput → W → Response ApplicationDto × W
  unfolding load_application reconcile to_application_dto to_function_dto
  update_application id body = serve do
    require_auth claims
    app ← load_application server.store id
    input ← decoded body
    let replicas : ℤ = or_value input.replicas app.replicas
    require (not (negative replicas)) 400 "replicas must be >= 0"
    require (valid_names (or_value input.variables [])) 400 variable_name_rule
    res ← policed (
        Policy.apply server.parse server.exceeds server.resource_policy
          (or_value input.resources app.resources))
    let changed : Application = record app {
      description = or_value input.description app.description;
      replicas = replicas;
      variables = or_value input.variables app.variables;
      resources = res;
    }
    command
        (server.store.update_application_config default_tenant app.app_id changed.description
          replicas changed.variables res)
        internal_error
    modify (reconcile changed input)
    fns ← gets (λ w. or_empty (server.store.list_functions app.app_id w.store))
    pure (json 200 (to_application_dto changed (map to_function_dto fns) none))

  abbrev pub undeployed :
      Result KubeError (Unit {0}) × C → W → Result (Response (Unit {0})) (Unit {0}) × W
  undeployed (ok u, c) w = (ok tt, record w { cluster = c })
  undeployed (err e, c) w =
      (err (failed 502 (caused "undeploy: " (kube_cause e))), record w { cluster = c })

  abbrev pub undeploy : Application → Action W (Unit {0}) (Unit {0})
  undeploy app w =
      if app.runtime == runtime_worker_pool
      then (ok tt, w)
      else undeployed
          (Deploy.undeploy server.parse server.exceeds server.deployer server.kube app.name
            w.cluster)
          w

  unfoldable pub delete_application : String → W → Response (Unit {0}) × W
  unfolding load_application
  delete_application id = serve do
    require_auth claims
    app ← load_application server.store id
    undeploy app
    command (server.store.delete_application default_tenant app.app_id) internal_error
    modify (λ w. record w { functions_deleted = w.functions_deleted + 1 })
    pure (bare 204)

  abbrev pub deployed :
      Result SpinError SpinApp.Status × C → W → Result (Response DeploymentVw) SpinApp.Status × W
  deployed (ok st, c) w = (ok st, record w { cluster = c })
  deployed (err e, c) w = (err (failed 502 (caused "" (spin_cause e))), record w { cluster = c })

  -- At least one replica.
  unfoldable pub deploy_replicas : ℤ → ℤ
  deploy_replicas n = if non_positive n then pos 1 else n

  unfoldable pub deploy_application : String → Option DeployInput → W → Response DeploymentVw × W
  unfolding load_application build_deployment_vw deploy_replicas
  deploy_application id body = serve do
    require_auth claims
    app ← load_application server.store id
    input ← decoded body
    require (not (input.image == "")) 400 "image is required"
    st ← λ w.
        deployed
          (Deploy.deploy server.parse server.exceeds server.deployer server.kube
            (record { app = app; image = input.image; replicas = deploy_replicas input.replicas })
            w.cluster)
          w
    modify (λ w. record w { deploys_applied = w.deploys_applied + 1 })
    dep ← gets (λ w. build_deployment_vw server app st w.store)
    pure (json 200 dep)
