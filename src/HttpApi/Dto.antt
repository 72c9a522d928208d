-- ===== src/HttpApi/Dto.antt =====
-- The JSON shapes of applications.go, functions.go, builds.go, worker.go and worker_url.go, and the
-- functions that fill them.
use Prim.Native.String
use spinup.Prelude.{
  ℕ, ℤ, pos, String, Bool, true, false, not, ◌&&◌, Option, none, some, is_some, List, [], Result,
  ok, err, if◌then◌else◌, ◌==◌, find?,
}
use spinup.Store.{
  Application, Function, Build, BuildStatus, build_pending, build_running, build_succeeded,
  build_failed, Variable, Resources, StoreError,
}
use spinup.SpinApp
use spinup.HttpApi.Actions.{Server}

pub record FunctionDto : Type 0 where
  pub id : String
  pub name : String
  pub route : String

pub record DeploymentVw : Type 0 where
  pub image : String
  pub image_size_bytes : Option ℤ
  pub replicas : ℤ
  pub observed_replicas : ℤ
  pub updated_replicas : ℤ
  pub ready : Bool
  pub progressing : Bool
  pub message : String
  pub namespace : String
  pub service_name : String
  pub internal_url : String
  pub public_url : String

pub record ApplicationDto : Type 0 where
  pub id : String
  pub name : String
  pub language : String
  pub runtime : String
  pub description : String
  pub replicas : ℤ
  pub variables : List Variable
  pub resources : Resources
  pub functions : List FunctionDto
  pub deployment : Option DeploymentVw

pub record BuildDto : Type 0 where
  pub id : String
  pub status : BuildStatus
  pub image_ref : String
  pub image_size_bytes : Option ℤ
  pub error : String
  pub created_at : ℕ
  pub finished_at : Option ℕ

-- A source without a row has no time.
pub record SourceDto : Type 0 where
  pub files : List (String × String)
  pub updated_at : ℕ

pub record WorkerAppEntry : Type 0 where
  pub id : String
  pub name : String
  pub language : String
  pub image_ref : String
  pub description : String
  pub functions : List (String × String)

pub record CreateApplicationInput : Type 0 where
  pub name : String
  pub language : String
  pub runtime : String
  pub description : String

-- A field that is absent from the body is `none`.
pub record UpdateApplicationInput : Type 0 where
  pub description : Option String
  pub replicas : Option ℤ
  pub variables : Option (List Variable)
  pub resources : Option Resources

pub record DeployInput : Type 0 where
  pub image : String
  pub replicas : ℤ

pub record CreateFunctionInput : Type 0 where
  pub name : String
  pub route : String

unfoldable pub to_function_dto : Function → FunctionDto
to_function_dto f = record { id = f.fn_id; name = f.name; route = f.route }

unfoldable pub to_application_dto :
    Application → List FunctionDto → Option DeploymentVw → ApplicationDto
to_application_dto a fns dep = record {
  id = a.app_id;
  name = a.name;
  language = a.language;
  runtime = a.runtime;
  description = a.description;
  replicas = a.replicas;
  variables = a.variables;
  resources = a.resources;
  functions = fns;
  deployment = dep;
}

unfoldable pub to_build_dto : Build → BuildDto
to_build_dto b = record {
  id = b.build_id;
  status = b.status;
  image_ref = b.image_ref;
  image_size_bytes = b.image_size_bytes;
  error = b.error;
  created_at = b.created_at;
  finished_at = b.finished_at;
}

abbrev pub is_succeeded : Build → Bool
is_succeeded b = elim b.status [
  | build_succeeded ↦ true
  | build_pending ↦ false
  | build_running ↦ false
  | build_failed ↦ false
]

-- The list of a query, or nothing where its error is ignored.
abbrev pub or_empty : {A : Type 0} → Result StoreError (List A) → List A
or_empty (ok xs) = xs
or_empty (err e) = []

unfoldable pub worker_invoke_url : String → String → String
worker_invoke_url base name =
    if base == "" then "" else String.◌++◌ base (String.◌++◌ "/apps/" name)

module _ {S C Q : Type 0} (server : Server S C Q) where
  unfoldable pub public_url_for_ui : String
  public_url_for_ui =
      if server.worker_ui_url == "" then server.worker_invoke_url else server.worker_ui_url

  abbrev size_of : Option Build → Option ℤ
  size_of none = none
  size_of (some b) = b.image_size_bytes

  -- Among the last 20 builds, the first of this image that has a size.
  unfoldable pub lookup_image_size : String → String → S → Option ℤ
  lookup_image_size app_id image s = size_of (
      find? (λ b. (b.image_ref == image) && is_some b.image_size_bytes)
        (or_empty (server.store.list_builds app_id (pos 20) s)))

  unfoldable pub public_url : String → String
  public_url name =
      if not (server.public_domain == "")
      then String.◌++◌ "https://" (String.◌++◌ name (String.◌++◌ "." server.public_domain))
      else if not (server.public_base_url == "")
      then String.◌++◌ server.public_base_url (String.◌++◌ "/fn/" name)
      else ""

  unfoldable pub build_deployment_vw : Application → SpinApp.Status → S → DeploymentVw
  unfolding lookup_image_size public_url
  build_deployment_vw app st s = record {
    image = st.image;
    image_size_bytes = if st.image == "" then none else lookup_image_size app.app_id st.image s;
    replicas = st.replicas;
    observed_replicas = st.observed_replicas;
    updated_replicas = st.updated_replicas;
    ready = st.ready;
    progressing = st.progressing;
    message = st.message;
    namespace = server.namespace;
    service_name = app.name;
    internal_url = String.◌++◌ "http://" (
        String.◌++◌ app.name (String.◌++◌ "." (String.◌++◌ server.namespace ".svc.cluster.local")));
    public_url = public_url app.name;
  }

  -- What the UI shows for a build of a worker pool application.
  unfoldable pub worker_deployment : Application → Build → DeploymentVw
  unfolding worker_invoke_url public_url_for_ui
  worker_deployment app b = record {
    image = b.image_ref;
    image_size_bytes = none;
    replicas = pos 0;
    observed_replicas = pos 0;
    updated_replicas = pos 0;
    ready = true;
    progressing = false;
    message = "served by worker pool on demand";
    namespace = "";
    service_name = app.name;
    internal_url = worker_invoke_url public_url_for_ui app.name;
    public_url = "";
  }
