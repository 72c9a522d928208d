-- ===== src/Process.antt =====
-- services/control-plane/cmd/control-plane/main.go and internal/httpapi/server.go: how the process is
-- put together from its configuration, and what stands before the handlers. Parameters: opening the
-- sqlite file, the identity provider's metadata, the Kubernetes clients, the telemetry and the proxy
-- transport. Log lines, the listener and the shutdown are left out.
pub mod Started
pub mod Guarded
use Prim.Native.Char.{Char}
use spinup.Prelude.{
  ◌||◌, ◌&&◌, ℕ, String, Bool, true, false, Option, none, some, List, [], ◌∷◌, Result, ok, err,
  ◌>>=◌, ◌>>◌, if◌then◌else◌, ◌==◌,
}
use spinup.Store.{StoreError}
use spinup.Session.{MemoryStore}
use spinup.Config
use spinup.Config.{
  Config, OidcConfig, K8sConfig, WorkerConfig, ConfigError, OpenError, load, open_store,
}
use spinup.Policy.{ResourcePolicy, mode_open}
use spinup.Deploy.{Deployer}
use spinup.Builder
use spinup.Auth.{
  Request, Verifier, Access, unauthorized, forbidden, admitted, new_policy, middleware,
}
use spinup.Auth.Oauth.{OAuth, OAuthError, new_oauth}
use spinup.HttpApi.Actions.{Claims, Response, failed, json, plain}
use spinup.HttpApi.Invoke.{ProxyClient}

-- What the process reaches when it starts; the provider is asked twice.
pub record Host (E S K : Type 0) : Type 0 where
  pub lookup : String → Option String
  pub lower : Char → Char
  pub open_sqlite : String → Result E S
  pub verifier_provider : String → Result String String
  pub oauth_provider : String → Result String String
  pub cluster : K8sConfig → Result String K
  pub telemetry : Result String (Unit {0})
  pub proxy : K → Result String ProxyClient

pub data StartupError (E : Type 0) : Type 0 where
  load_config : ConfigError → StartupError E
  open_failed : OpenError E → StartupError E
  init_verifier : String → StartupError E
  init_oauth : OAuthError → StartupError E
  init_cluster : String → StartupError E
  init_telemetry : String → StartupError E
  init_proxy : String → StartupError E

-- The arguments of httpapi.New; of config.FunctionsConfig the handlers read the namespace.
pub record Process (S K : Type 0) : Type 0 where
  pub config : Config
  pub store : S
  pub verifier : Verifier
  pub oauth : Option OAuth
  pub cluster : K
  pub deployer : Deployer
  pub builder : Builder.Config
  pub namespace : String
  pub resource_policy : ResourcePolicy
  pub prometheus : Option String
  pub proxy : ProxyClient
  pub sessions : MemoryStore

abbrev with_keys : Result String String → Result String Verifier
with_keys (ok endpoint) = ok (record { skip_auth = false; sessions = false; policy = none })
with_keys (err e) = err e

-- `NewVerifier`; the audience is checked by the library.
unfoldable pub new_verifier : OidcConfig → Result String String → Result String Verifier
new_verifier cfg provider =
    if cfg.dev_insecure_skip_auth
    then ok (record { skip_auth = true; sessions = false; policy = none })
    else with_keys provider

-- `SetSessions` and `SetPolicy` with what main gives them.
unfoldable pub equipped : Config → Verifier → Verifier
unfolding new_policy
equipped cfg v = record v { sessions = true; policy = some (new_policy cfg.required_roles) }

unfoldable pub resource_policy_of : Config → ResourcePolicy
resource_policy_of cfg = record {
  mode = cfg.resource_policy.mode;
  cpu = record { request = cfg.resource_policy.cpu_request; limit = cfg.resource_policy.cpu_limit };
  mem = record {
    request = cfg.resource_policy.memory_request;
    limit = cfg.resource_policy.memory_limit;
  };
}

unfoldable pub deployer_of : Config → Deployer
unfolding resource_policy_of
deployer_of cfg = record {
  namespace = cfg.functions.namespace;
  pull_secrets = cfg.functions.image_pull_secrets;
  public_domain = cfg.functions.public_domain;
  public_gateway = cfg.functions.public_gateway;
  resource_policy = resource_policy_of cfg;
}

unfoldable pub builder_of : Config → Builder.Config
builder_of cfg = record {
  namespace = cfg.functions.namespace;
  go_image = cfg.builder.go_image;
  js_image = cfg.builder.js_image;
  ts_image = cfg.builder.ts_image;
  rust_image = cfg.builder.rust_image;
  registry_url = cfg.builder.registry_url;
  auth_secret = cfg.builder.auth_secret;
  image_pull_secrets = cfg.builder.image_pull_secrets;
}

abbrev pub or_exit :
    {E X A : Type 0} → (X → StartupError E) → Result X A → Result (StartupError E) A
or_exit {E} {X} {A} f (ok a) = ok a
or_exit {E} {X} {A} f (err x) = err (f x)

module _ {E S K : Type 0} (host : Host E S K) where
  -- The steps of main up to the listener; the first that fails ends the process.
  unfoldable pub start : Result (StartupError E) (Process S K)
  unfolding open_store new_verifier new_oauth equipped deployer_of builder_of resource_policy_of
  start = do
    cfg ← or_exit load_config (load host.lookup host.lower)
    store ← or_exit open_failed (open_store host.open_sqlite cfg.db)
    v ← or_exit init_verifier (new_verifier cfg.oidc (host.verifier_provider cfg.oidc.issuer_url))
    oauth ← or_exit init_oauth (new_oauth cfg.oidc (host.oauth_provider cfg.oidc.issuer_url))
    cluster ← or_exit init_cluster (host.cluster cfg.k8s)
    or_exit init_telemetry host.telemetry
    proxy ← or_exit init_proxy (host.proxy cluster)
    ok (record {
      config = cfg;
      store = store;
      verifier = equipped cfg v;
      oauth = oauth;
      cluster = cluster;
      deployer = deployer_of cfg;
      builder = builder_of cfg;
      namespace = cfg.functions.namespace;
      resource_policy = resource_policy_of cfg;
      prometheus = if cfg.prometheus_url == "" then none else some cfg.prometheus_url;
      proxy = proxy;
      sessions = record { sessions = []; last_gc = 0 };
    })

-- `policyInfo`: the mode and the caps.
unfoldable pub policy_info : ResourcePolicy → ResourcePolicy
policy_info p = record p { mode = if p.mode == "" then mode_open else p.mode }

-- What a request under /api/ is answered: by `versionInfo`, by `policyInfo`, or behind the middleware.
pub data ApiReply (R : Type 0) : Type 0 where
  version_info : (version repo_url : String) → ApiReply R
  policy_reply : ResourcePolicy → ApiReply R
  handled : Response R → ApiReply R

-- A pattern for GET is one for HEAD as well.
unfoldable pub is_open : String → String → String → Bool
is_open route method path = (method == "GET" || method == "HEAD") && path == route

module _ {W R : Type 0} where
  abbrev pub passed_on :
      (Option Claims → W → Response R × W) → W → Access × MemoryStore → Response R × W × MemoryStore
  passed_on handler w (unauthorized, m) = (failed 401 (plain "unauthorized"), w, m)
  passed_on handler w (forbidden, m) = (failed 403 (plain "forbidden: missing required role"), w, m)
  passed_on handler w (admitted c, m) = ((handler (some c) w).0, (handler (some c) w).1, m)

  abbrev pub as_handled : Response R × W × MemoryStore → ApiReply R × W × MemoryStore
  as_handled (reply, w, m) = (handled reply, w, m)

  module _ {S K : Type 0} (verify : String → Option Claims) (p : Process S K) where
    -- A request under /api/, with its method and its cleaned path: two routes are registered outside
    -- the middleware, every other request goes through it to its handler.
    unfoldable pub serve_api :
        ℕ
        → String
        → String
        → Request
        → (Option Claims → W → Response R × W)
        → W
        → MemoryStore
        → ApiReply R × W × MemoryStore
    unfolding is_open policy_info middleware
    serve_api now method path r handler w m =
        if is_open "/api/v1/version" method path
        then (version_info p.config.version "https://github.com/emdzej/spinup", w, m)
        else if is_open "/api/v1/policy" method path
        then (policy_reply (policy_info p.resource_policy), w, m)
        else as_handled (passed_on handler w (middleware verify p.verifier now r m))

unfoldable pub health : Result StoreError (Unit {0}) → ℕ × String
health (ok u) = (200, "ok")
health (err e) = (503, "degraded")
