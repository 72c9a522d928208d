-- ===== src/Config.antt =====
-- services/control-plane/internal/config/config.go: the configuration that is read from the
-- environment, and `Open` of store/store.go, which takes its DBConfig. Parameters: the environment
-- (os.LookupEnv) and Go's table of lower-case letters.
pub mod Load
pub mod Lists
use Prim.Native.Char.{Char, code}
use Prim.Native.String
use Prim.Native.String.{[], ◌∷◌}
use spinup.Prelude.{
  String, Bool, true, false, not, ◌&&◌, ◌||◌, Option, none, some, List, [], ◌∷◌, Result, ok, err,
  eqb, if◌then◌else◌, ◌==◌,
}
use spinup.Text.{split_on, trim_space}
use spinup.Text.Case.{to_lower}

pub record ResourcePolicyConfig : Type 0 where
  pub mode : String
  pub cpu_request : String
  pub cpu_limit : String
  pub memory_request : String
  pub memory_limit : String

pub record BuilderConfig : Type 0 where
  pub go_image : String
  pub js_image : String
  pub ts_image : String
  pub rust_image : String
  pub registry_url : String
  pub auth_secret : String
  pub image_pull_secrets : List String

pub record FunctionsConfig : Type 0 where
  pub namespace : String
  pub public_base_url : String
  pub public_domain : String
  pub public_gateway : String
  pub image_pull_secrets : List String

pub record WorkerConfig : Type 0 where
  pub url : String
  pub ui_url : String

pub record K8sConfig : Type 0 where
  pub kubeconfig : String
  pub kubecontext : String

pub record OidcConfig : Type 0 where
  pub issuer_url : String
  pub client_id : String
  pub client_secret : String
  pub redirect_url : String
  pub audience : String
  pub dev_insecure_skip_auth : Bool

pub record DbConfig : Type 0 where
  pub driver : String
  pub dsn : String

-- HTTPConfig, AuthzConfig, MetricsConfig and UIConfig have one field each.
pub record Config : Type 0 where
  pub version : String
  pub http_addr : String
  pub oidc : OidcConfig
  pub required_roles : List String
  pub db : DbConfig
  pub functions : FunctionsConfig
  pub k8s : K8sConfig
  pub builder : BuilderConfig
  pub prometheus_url : String
  pub worker : WorkerConfig
  pub ui_static_dir : String
  pub resource_policy : ResourcePolicyConfig

pub data ConfigError : Type 0 where
  oidc_required : ConfigError
  driver_unknown : String → ConfigError

-- strings.TrimRight(s, "/")
unfoldable pub trim_right_slash : String → String
trim_right_slash [] = []
trim_right_slash (c ∷ s) =
    let rest = trim_right_slash s in if eqb (code c) b'/' && rest == "" then [] else c ∷ rest

-- The parts without surrounding space that are not empty, in order.
unfoldable pub trimmed_parts : List String → List String
trimmed_parts [] = []
trimmed_parts (p ∷ ps) =
    let rest = trimmed_parts ps in if trim_space p == "" then rest else trim_space p ∷ rest

unfoldable pub split_csv : String → List String
unfolding split_on trimmed_parts
split_csv s = if s == "" then [] else trimmed_parts (split_on b',' s)

abbrev or_default : String → Option String → String
or_default default none = default
or_default default (some v) = v

module _ (lookup : String → Option String) (lower : Char → Char) where
  unfoldable pub env : String → String → String
  env key default = or_default default (lookup key)

  unfoldable pub loaded_oidc : OidcConfig
  unfolding env
  loaded_oidc = record {
    issuer_url = env "SPINUP_OIDC_ISSUER_URL" "";
    client_id = env "SPINUP_OIDC_CLIENT_ID" "";
    client_secret = env "SPINUP_OIDC_CLIENT_SECRET" "";
    redirect_url = env "SPINUP_OIDC_REDIRECT_URL" "";
    audience = env "SPINUP_OIDC_AUDIENCE" "";
    dev_insecure_skip_auth = env "SPINUP_DEV_INSECURE_SKIP_AUTH" "" == "true";
  }

  unfoldable pub loaded_db : DbConfig
  unfolding env to_lower
  loaded_db = record {
    driver = to_lower lower (env "SPINUP_DB_DRIVER" "sqlite");
    dsn = env "SPINUP_DB_DSN" "spinup.db";
  }

  unfoldable pub loaded_functions : FunctionsConfig
  unfolding env split_csv trim_right_slash trim_space
  loaded_functions = record {
    namespace = env "SPINUP_FUNCTIONS_NAMESPACE" "spinup-functions";
    public_base_url = trim_right_slash (env "SPINUP_PUBLIC_BASE_URL" "");
    public_domain = trim_space (env "SPINUP_FUNCTIONS_PUBLIC_DOMAIN" "");
    public_gateway = trim_space (env "SPINUP_FUNCTIONS_PUBLIC_GATEWAY" "");
    image_pull_secrets = split_csv (env "SPINUP_FUNCTIONS_IMAGE_PULL_SECRETS" "");
  }

  unfoldable pub loaded_builder : BuilderConfig
  unfolding env split_csv
  loaded_builder = record {
    go_image = env "SPINUP_BUILDER_IMAGE_GO" "spinup/builder-go:latest";
    js_image = env "SPINUP_BUILDER_IMAGE_JS" "spinup/builder-js:latest";
    ts_image = env "SPINUP_BUILDER_IMAGE_TS" "spinup/builder-ts:latest";
    rust_image = env "SPINUP_BUILDER_IMAGE_RUST" "spinup/builder-rust:latest";
    registry_url = env "SPINUP_OCI_REGISTRY_URL" "ttl.sh/spinup";
    auth_secret = env "SPINUP_OCI_AUTH_SECRET" "";
    image_pull_secrets = split_csv (env "SPINUP_BUILDER_IMAGE_PULL_SECRETS" "");
  }

  unfoldable pub loaded_policy : ResourcePolicyConfig
  unfolding env
  loaded_policy = record {
    mode = env "SPINUP_RESOURCES_POLICY" "";
    cpu_request = env "SPINUP_RESOURCES_CPU_REQUEST" "";
    cpu_limit = env "SPINUP_RESOURCES_CPU_LIMIT" "";
    memory_request = env "SPINUP_RESOURCES_MEMORY_REQUEST" "";
    memory_limit = env "SPINUP_RESOURCES_MEMORY_LIMIT" "";
  }

  -- What `Load` fills in before it checks anything.
  unfoldable pub loaded : Config
  unfolding env loaded_oidc split_csv loaded_db loaded_functions loaded_builder loaded_policy
      trim_right_slash
  loaded = record {
    version = env "SPINUP_VERSION" "dev";
    http_addr = env "SPINUP_HTTP_ADDR" ":8080";
    oidc = loaded_oidc;
    required_roles = split_csv (env "SPINUP_AUTHZ_REQUIRED_ROLES" "");
    db = loaded_db;
    functions = loaded_functions;
    k8s = record {
      kubeconfig = env "SPINUP_KUBECONFIG" "";
      kubecontext = env "SPINUP_KUBECONTEXT" "";
    };
    builder = loaded_builder;
    prometheus_url = trim_right_slash (env "SPINUP_PROMETHEUS_URL" "");
    worker = record {
      url = trim_right_slash (env "SPINUP_WORKER_URL" "");
      ui_url = trim_right_slash (env "SPINUP_WORKER_UI_URL" "");
    };
    ui_static_dir = env "SPINUP_UI_STATIC_DIR" "";
    resource_policy = loaded_policy;
  }

-- The two checks of `Load`.
unfoldable pub checked : Config → Result ConfigError Config
checked c =
    if not c.oidc.dev_insecure_skip_auth && (c.oidc.issuer_url == "" || c.oidc.client_id == "")
    then err oidc_required
    else if not (c.db.driver == "sqlite") && not (c.db.driver == "postgres")
    then err (driver_unknown c.db.driver)
    else ok c

abbrev pub load : (String → Option String) → (Char → Char) → Result ConfigError Config
load lookup lower = checked (loaded lookup lower)

pub data OpenError (E : Type 0) : Type 0 where
  sqlite_error : E → OpenError E
  not_implemented : OpenError E
  unknown_driver : String → OpenError E

abbrev pub sqlite_opened : {E S : Type 0} → Result E S → Result (OpenError E) S
sqlite_opened {E} {S} (ok s) = ok s
sqlite_opened {E} {S} (err e) = err (sqlite_error e)

-- `store.Open`, with openSQLite as a parameter.
unfoldable pub open_store :
    {E S : Type 0} → (String → Result E S) → DbConfig → Result (OpenError E) S
open_store {E} {S} sqlite cfg =
    if cfg.driver == "sqlite"
    then sqlite_opened (sqlite cfg.dsn)
    else if cfg.driver == "postgres"
    then err not_implemented
    else err (unknown_driver cfg.driver)
