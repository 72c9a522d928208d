-- ===== src/Process/Started.antt =====
-- What main.go has put together when it starts to listen.
use mathlib.Core.Path.{subst}
use spinup.Prelude.{
  ◌≡◌, refl, sym, ap, ◌∙◌, ◌≢◌, ◌⊎◌, inl, inr, String, true, false, Option, none, some, [], arith,
  Result, ok, err, >>=-ok, ok-injective, Result-cases, if◌then◌else◌, ◌==◌, eq_iff, Bool-cases,
}
use spinup.Config.{Config, OidcConfig, loaded, checked, load, sqlite_opened, open_store}
use spinup.Config.Load.{HasLogin, load-HasLogin, open_store_lem}
use spinup.Auth.{Verifier, new_policy}
use spinup.Auth.Oauth.{OAuth, with_provider, new_oauth}
use spinup.HttpApi.Invoke.{ProxyClient}
use spinup.Process.{
  Host, StartupError, load_config, open_failed, init_verifier, init_oauth, init_cluster,
  init_telemetry, init_proxy, Process, new_verifier, equipped, resource_policy_of, deployer_of,
  builder_of, or_exit, start,
}

or_exit-ok :
    {E X A : Type 0} (f : X → StartupError E) (r : Result X A) (a : A)
    → or_exit f r ≡ ok a
    → r ≡ ok a
or_exit-ok f (ok x) a h = ap ok (ok-injective h)
or_exit-ok f (err e) a h = absurd cc

-- Either authentication is switched off and there is no login flow, or there is one with a secret and
-- an address to return to, and requests are authenticated.
abbrev pub IsWired : OidcConfig → Verifier → Option OAuth → Type 0
IsWired cfg v oauth =
    ((cfg.dev_insecure_skip_auth ≡ true) × (v.skip_auth ≡ true) × (oauth ≡ none))
    ⊎ ((cfg.dev_insecure_skip_auth ≡ false)
        × (v.skip_auth ≡ false)
        × (cfg.client_secret ≢ "")
        × (cfg.redirect_url ≢ "")
        × ((oa : OAuth) × (oauth ≡ some oa)))

not_ok : {E A : Type 0} {e : E} {a : A} → ◌≡◌ {A = Result E A} (err e) (ok a) → ⊥
not_ok e = cc

with_provider-some :
    (cfg : OidcConfig) (provider : Result String String) (oauth : Option OAuth)
    → with_provider cfg provider ≡ ok oauth
    → (oa : OAuth) × (oauth ≡ some oa)
with_provider-some cfg (ok endpoint) oauth h = (_, sym (ok-injective h))
with_provider-some cfg (err e) oauth h = absurd cc

new_oauth-some :
    (cfg : OidcConfig) (provider : Result String String) (oauth : Option OAuth)
    → cfg.dev_insecure_skip_auth ≡ false
    → new_oauth cfg provider ≡ ok oauth
    → (cfg.client_secret ≢ "") × (cfg.redirect_url ≢ "") × ((oa : OAuth) × (oauth ≡ some oa))
unfolding new_oauth
new_oauth-some cfg provider oauth on h = elim (Bool-cases (cfg.client_secret == "")) [
  | inl no_secret ↦ absurd (not_ok (rw no_secret at (rw on at h)))
  | inr secret ↦ elim (Bool-cases (cfg.redirect_url == "")) [
    | inl nowhere ↦ absurd (not_ok (rw nowhere at (rw secret at (rw on at h))))
    | inr address ↦ (
      (λ e. ground (arith, eq_iff cfg.client_secret "")),
      (λ e. ground (arith, eq_iff cfg.redirect_url "")),
      with_provider-some cfg provider oauth (rw address at (rw secret at (rw on at h))),
    )
  ]
]

new_verifier-IsWired :
    (cfg : OidcConfig) (keys provider : Result String String) (v : Verifier) (oauth : Option OAuth)
    → new_verifier cfg keys ≡ ok v
    → new_oauth cfg provider ≡ ok oauth
    → IsWired cfg v oauth
unfolding new_verifier new_oauth
new_verifier-IsWired cfg keys provider v oauth h k = elim (Bool-cases cfg.dev_insecure_skip_auth) [
  | inl skip ↦ inl (
    skip,
    sym (ap (λ (x : Verifier). x.skip_auth) (ok-injective (rw skip at h))),
    sym (ok-injective (rw skip at k)),
  )
  | inr on ↦ elim (Result-cases keys) [
    | inr (e, down) ↦ absurd (not_ok (rw down at (rw on at h)))
    | inl (endpoint, up) ↦
        let (secret, address, flow) = new_oauth-some cfg provider oauth on k in
        inr (
          on,
          sym (ap (λ (x : Verifier). x.skip_auth) (ok-injective (rw up at (rw on at h)))),
          secret,
          address,
          flow,
        )
  ]
]

module _ {E S K : Type 0} (host : Host E S K) where
  -- What holds of the process that listens.
  pub record IsStarted (p : Process S K) : Type 0 where
    pub config_is : loaded host.lookup host.lower ≡ p.config
    pub has_login : HasLogin p.config.oidc
    pub driver_is : p.config.db.driver ≡ "sqlite"
    pub store_is : host.open_sqlite p.config.db.dsn ≡ ok p.store
    pub is_wired : IsWired p.config.oidc p.verifier p.oauth
    pub sessions_on : p.verifier.sessions ≡ true
    pub policy_is : p.verifier.policy ≡ some (new_policy p.config.required_roles)
    pub same_policy : p.deployer.resource_policy ≡ p.resource_policy
    pub deployer_namespace : p.deployer.namespace ≡ p.config.functions.namespace
    pub builder_namespace : p.builder.namespace ≡ p.config.functions.namespace
    pub handler_namespace : p.namespace ≡ p.config.functions.namespace

  opened-sqlite :
      (d : Config) (s : S)
      → checked (loaded host.lookup host.lower) ≡ ok d
      → open_store host.open_sqlite d.db ≡ ok s
      → (d.db.driver ≡ "sqlite") × (host.open_sqlite d.db.dsn ≡ ok s)
  opened-sqlite d s h k =
      elim (open_store_lem host.open_sqlite (loaded host.lookup host.lower) d h) [
        | inl (lite, same) ↦ (lite, sqlite_opened-ok (host.open_sqlite d.db.dsn) s (sym same ∙ k))
        | inr (pg, same) ↦ absurd (not_ok (sym same ∙ k))
      ]
    where
      sqlite_opened-ok : (r : Result E S) (s : S) → sqlite_opened {E = E} r ≡ ok s → r ≡ ok s
      sqlite_opened-ok (ok x) s h = ap ok (ok-injective h)
      sqlite_opened-ok (err e) s h = absurd cc

  IsStarted-made :
      (d : Config) (s : S) (v : Verifier) (oauth : Option OAuth) (k : K) (proxy : ProxyClient)
      → load host.lookup host.lower ≡ ok d
      → open_store host.open_sqlite d.db ≡ ok s
      → new_verifier d.oidc (host.verifier_provider d.oidc.issuer_url) ≡ ok v
      → new_oauth d.oidc (host.oauth_provider d.oidc.issuer_url) ≡ ok oauth
      → IsStarted (record {
        config = d;
        store = s;
        verifier = equipped d v;
        oauth = oauth;
        cluster = k;
        deployer = deployer_of d;
        builder = builder_of d;
        namespace = d.functions.namespace;
        resource_policy = resource_policy_of d;
        prometheus = if d.prometheus_url == "" then none else some d.prometheus_url;
        proxy = proxy;
        sessions = record { sessions = []; last_gc = 0 };
      })
  unfolding equipped deployer_of builder_of
  IsStarted-made d s v oauth k proxy loads opens verifies logs =
      let (config_is, has_login) = load-HasLogin host.lookup host.lower d loads in
      let (driver_is, store_is) = opened-sqlite d s loads opens in
      record {
        config_is = config_is;
        has_login = has_login;
        driver_is = driver_is;
        store_is = store_is;
        is_wired = new_verifier-IsWired d.oidc _ _ v oauth verifies logs;
        sessions_on = refl;
        policy_is = refl;
        same_policy = refl;
        deployer_namespace = refl;
        builder_namespace = refl;
        handler_namespace = refl;
      }

  -- A process that listens runs on the configuration that was read, with an issuer and a client id or
  -- authentication switched off, on an sqlite store that was opened. If authentication is not switched
  -- off it has a login flow with a secret and an address to return to; cookies are looked up and the
  -- required roles are the policy. Deployer, builder and handlers work in the namespace of the
  -- configuration, and deployer and handlers have the same resource policy.
  pub start-IsStarted : (p : Process S K) → start host ≡ ok p → IsStarted p
  unfolding start
  start-IsStarted p h =
      let (cfg, h₁, loads) = >>=-ok (or_exit load_config (load host.lookup host.lower)) _ h in
      let (s, h₂, opens) = >>=-ok (or_exit open_failed (open_store host.open_sqlite cfg.db)) _ h₁ in
      let (v, h₃, verifies) =
        >>=-ok
          (or_exit init_verifier
            (new_verifier cfg.oidc (host.verifier_provider cfg.oidc.issuer_url)))
          _ h₂ in
      let (oauth, h₄, logs) =
        >>=-ok (or_exit init_oauth (new_oauth cfg.oidc (host.oauth_provider cfg.oidc.issuer_url))) _
          h₃ in
      let (k, h₅, reached) = >>=-ok (or_exit init_cluster (host.cluster cfg.k8s)) _ h₄ in
      let (u, h₆, counted) = >>=-ok (or_exit init_telemetry host.telemetry) _ h₅ in
      let (proxy, h₇, proxied) = >>=-ok (or_exit init_proxy (host.proxy k)) _ h₆ in
      subst IsStarted (ok-injective h₇) (
        IsStarted-made cfg s v oauth k proxy (or_exit-ok load_config _ cfg loads)
          (or_exit-ok open_failed _ s opens) (or_exit-ok init_verifier _ v verifies)
          (or_exit-ok init_oauth _ oauth logs))
