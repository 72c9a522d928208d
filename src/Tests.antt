-- ===== src/Tests.antt =====
-- Concrete data for the theorems' examples: rows of services/control-plane/internal/store, a small
-- API server, a policy and a server configuration.
pub mod Access
pub mod Login
pub mod Web
pub mod Invocations
pub mod Rows
pub mod Cluster
pub mod Handlers
use spinup.Prelude.{
  ℕ, ◌+◌, ℤ, pos, String, Bool, true, false, Option, none, some, List, [], ◌∷◌, Result, ok, err,
  ltb, if◌then◌else◌, ◌==◌,
}
use spinup.Store.{
  Application, Function, Source, Build, build_pending, runtime_spin_kube, runtime_worker_pool,
  Resources,
}
use spinup.Store.Sqlite.{Db, sqlite}
use spinup.Policy.{ResourcePolicy, mode_max}
use spinup.Kube.{Kube, KubeError, Value, missing}
use spinup.Deploy.{Deployer}
use spinup.World.{World}
use spinup.HttpApi.Actions.{Server, Claims}

abbrev pub sizes : Resources
sizes = record { cpu_request = "1"; cpu_limit = "2"; memory_request = ""; memory_limit = "" }

abbrev pub shop : Application
shop = record {
  app_id = "a1";
  tenant_id = "default";
  name = "shop";
  language = "go";
  runtime = runtime_spin_kube;
  description = "";
  replicas = pos 3;
  variables = [];
  resources = sizes;
  created_at = 1;
  updated_at = 1;
}

abbrev pub blog : Application
blog = record shop { app_id = "a2"; name = "blog"; runtime = runtime_worker_pool }

abbrev pub cart : Function
cart = record {
  fn_id = "f1";
  application_id = "a1";
  name = "cart";
  route = "/cart/...";
  created_at = 1;
  updated_at = 1;
}

abbrev pub pay : Function
pay = record cart { fn_id = "f2"; name = "pay"; route = "/pay/..." }

abbrev pub posts : Function
posts = record cart { fn_id = "f3"; application_id = "a2"; name = "posts"; route = "/..." }

abbrev pub cart_source : Source
cart_source = record {
  function_id = "f1";
  files = ("main.go", "package main") ∷ [];
  updated_at = 1;
}

abbrev pub first_build : Build
first_build = record {
  build_id = "b1";
  application_id = "a1";
  image_ref = "registry/shop:b1";
  image_size_bytes = none;
  status = build_pending;
  error = "";
  created_at = 1;
  finished_at = none;
}

abbrev pub db : Db
db = record {
  applications = shop ∷ blog ∷ [];
  functions = cart ∷ pay ∷ posts ∷ [];
  sources = cart_source ∷ [];
  builds = first_build ∷ [];
}

-- Whole cores, as numbers.
abbrev pub parse : String → Option ℕ
parse s =
    if s == "1" then some 1 else if s == "2" then some 2 else if s == "4" then some 4 else none

abbrev pub exceeds : ℕ → ℕ → Bool
exceeds q c = ltb c q

abbrev pub caps : ResourcePolicy
caps = record {
  mode = mode_max;
  cpu = record { request = "2"; limit = "2" };
  mem = record { request = ""; limit = "" };
}

abbrev pub deployer : Deployer
deployer = record {
  namespace = "apps";
  pull_secrets = [];
  public_domain = "example.org";
  public_gateway = "istio-system/gateway";
  resource_policy = caps;
}

-- An API server that accepts everything and counts what it is asked to change.
abbrev pub kube : Kube ℕ
kube = record {
  apply_spin_app = λ ns name v c. (ok v, c + 1);
  get_spin_app = λ ns name c. err missing;
  delete_spin_app = λ ns name c. (ok tt, c + 1);
  get_deployment = λ ns name c. err missing;
  apply_virtual_service = λ ns name v c. (ok tt, c + 1);
  delete_virtual_service = λ ns name c. (ok tt, c + 1);
  create_secret = λ ns name labels files c. (ok tt, c + 1);
  create_job = λ ns job c. (ok tt, c + 1);
}

abbrev pub server : Server Db ℕ ℕ
server = record {
  store = sqlite true 7;
  kube = kube;
  parse = parse;
  exceeds = exceeds;
  deployer = deployer;
  resource_policy = caps;
  namespace = "apps";
  public_domain = "example.org";
  public_base_url = "https://example.org";
  worker_invoke_url = "";
  worker_ui_url = "";
}

abbrev pub claims : Claims
claims = record { subject = "u1"; email = "u@example.org"; groups = []; roles = [] }

abbrev pub world : World Db ℕ
world = record {
  store = db;
  cluster = 0;
  functions_created = 0;
  functions_deleted = 0;
  deploys_applied = 0;
  builds_started = 0;
  builds_succeeded = 0;
  builds_failed = 0;
}
