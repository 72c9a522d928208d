-- ===== src/Tests/Login.antt =====
-- Examples for the configuration, the login flow and the start of the process.
use Prim.Native.Char.{Char, code}
use Prim.Native.String.{[], ◌∷◌}
use spinup.Prelude.{
  any, eqb, Bool, ◌≡◌, refl, ◌≢◌, ◌⊎◌, ℕ, String, true, false, Option, none, some, [], ◌∷◌, All,
  arith, Result, ok, err, map, if◌then◌else◌, ◌==◌, eq_iff,
}
use spinup.Text.{trim_space, has_prefix}
use spinup.Session
use spinup.Session.{Session, MemoryStore, no_sessions}
use spinup.Session.Expiry.{visible}
use spinup.Config.{
  Config, loaded, checked, load, open_store, sqlite_opened, not_implemented, split_csv,
}
use spinup.Config.Lists.{IsEntry, join_comma, split_csv_lem}
use spinup.Config.Load.{Checked, load-Checked, open_store_lem}
use spinup.HttpApi.Actions.{Claims, Response, json}
use spinup.HttpApi.Invoke.{ProxyClient}
use spinup.Auth.{Request, Verifier, resolve, bearer_claims}
use spinup.Auth.Login.{
  established, valid_state, return_target, return_to_or_root, session_cookie, cleared_short_cookies,
  handle_login, handle_callback, handle_logout, bearer_verify,
}
use spinup.Auth.Oauth.{
  AuthRequest, AuthReply, Library, OAuth, redirected, cookie_of, return_to_cookie_name,
  session_cookie_name, new_oauth,
}
use spinup.Auth.Login.Flow.{IsLogin, handle_callback_lem}
use spinup.Auth.Login.Steps.{IsRefusal}
use spinup.Auth.Login.Completed.{sent, IsRooted, login-callback}
use spinup.Auth.Login.Elsewhere.{asked_for, login-elsewhere}
use spinup.Auth.Login.Ended.{handle_logout_lem}
use spinup.Process.{
  Host, Process, start, serve_api, equipped, deployer_of, builder_of, resource_policy_of,
  new_verifier,
}
use spinup.Process.Started.{IsStarted, start-IsStarted}
use spinup.Process.Guarded.{IsApiAnswer, start-serve_api}
use spinup.Tests.{claims}

differs : (a b : String) → (a == b) ≡ false → a ≢ b
differs a b h e = ground (arith, (eq_iff a b).1 e)

-- An environment with a provider, and roles that are required.
abbrev lookup : String → Option String
lookup key =
    if key == "SPINUP_OIDC_ISSUER_URL"
    then some "https://id.example.org"
    else if key == "SPINUP_OIDC_CLIENT_ID"
    then some "spinup"
    else if key == "SPINUP_OIDC_CLIENT_SECRET"
    then some "secret"
    else if key == "SPINUP_OIDC_REDIRECT_URL"
    then some "https://spinup.example.org/auth/callback"
    else if key == "SPINUP_AUTHZ_REQUIRED_ROLES"
    then some "dev, ops"
    else none

abbrev lower : Char → Char
lower c = c

split_csv_lem_example :
    (All IsEntry (split_csv " dev,, ops "))
    × (split_csv (join_comma ("dev" ∷ "ops" ∷ [])) ≡ "dev" ∷ "ops" ∷ [])
unfolding trim_space
split_csv_lem_example = split_csv_lem " dev,, ops " ("dev" ∷ "ops" ∷ []) (
  (
    differs "dev" "" refl,
    refl,
    ((λ e. ground arith), ((λ e. ground arith), ((λ e. ground arith), tt))),
  ),
  (
    (
      differs "ops" "" refl,
      refl,
      ((λ e. ground arith), ((λ e. ground arith), ((λ e. ground arith), tt))),
    ),
    tt,
  ),
)

load-Checked_example : Checked (loaded lookup lower) (load lookup lower)
load-Checked_example = load-Checked lookup lower

abbrev on_postgres : String → Option String
on_postgres key = if key == "SPINUP_DB_DRIVER" then some "Postgres" else lookup key

abbrev no_file : String → Result String String
no_file dsn = err "no such file"

open_store_lem_example :
    (((loaded on_postgres lower).db.driver ≡ "sqlite")
      × (open_store no_file (loaded on_postgres lower).db
          ≡ sqlite_opened (no_file (loaded on_postgres lower).db.dsn)))
    ⊎ (((loaded on_postgres lower).db.driver ≡ "postgres")
        × (open_store no_file (loaded on_postgres lower).db ≡ err not_implemented))
unfolding checked loaded
open_store_lem_example =
    open_store_lem no_file (loaded on_postgres lower) (loaded on_postgres lower) refl

-- Every code is exchanged, for a token of the user of the fixtures that expires at 100.
abbrev library : Library
library = record {
  encode = λ s. s;
  sha256 = λ s. s;
  auth_code_url = λ state parameters. state;
  exchange = λ code verifier. ok (record { access_token = "at"; id_token = some "raw" });
  verify = λ raw. ok (record { expiry = some 100; claims = ok claims });
  parses = λ s. true;
}

abbrev oauth : OAuth
oauth = record {
  client_id = "spinup";
  client_secret = "secret";
  redirect_url = "https://spinup.example.org/auth/callback";
  scopes = [];
  audience = "spinup";
  cookie_secure = true;
  end_session_url = "";
}

abbrev is_dropped : Char → Bool
is_dropped c = any (λ n. eqb n (code c)) (b';' ∷ b'"' ∷ b'\\' ∷ [])

-- The values of cookies without the ASCII characters that are dropped of them.
carried : String → String
carried [] = []
carried (c ∷ s) = let rest = carried s in if is_dropped c then rest else c ∷ rest

carried_tests : (carried "/;/example.org" ≡ "//example.org") × (carried "/apps" ≡ "/apps")
unfolding carried any
carried_tests = (refl, refl)

abbrev asked : AuthRequest
asked = record {
  query = λ name. if name == "returnTo" then "/apps" else "";
  cookies = [];
  authorization = "";
}

abbrev back : AuthRequest
back = record {
  query = λ name. if name == "state" then "s1" else if name == "code" then "c1" else "";
  cookies = map (sent carried) (handle_login oauth library 5 (ok "s1") (ok "v1") asked).1;
  authorization = "";
}

abbrev signed_in : Request
signed_in = record { cookie = some "id1"; authorization = "" }

abbrev verifier : Verifier
verifier = record { skip_auth = false; sessions = true; policy = none }

login-callback_example :
    ((handle_callback oauth library 7 (ok "id1") back no_sessions).0.0
      ≡ redirected (return_to_or_root library asked))
    × (IsRooted (return_to_or_root library asked))
    × ((resolve
          (bearer_verify library)
          verifier
          50
          signed_in
          (handle_callback oauth library 7 (ok "id1") back no_sessions).1).0
        ≡ some claims)
unfolding carried any return_to_or_root has_prefix
login-callback_example =
    login-callback carried oauth library verifier 5 7 50 "s1" "v1" "id1" "raw" _ _ claims asked back
      signed_in no_sessions (differs "s1" "" refl) (differs "v1" "" refl) (differs "id1" "" refl)
      refl refl refl refl refl refl (differs "c1" "" refl) refl refl (differs "raw" "" refl) refl
      refl tt refl refl refl (ground arith)

abbrev asked_elsewhere : AuthRequest
asked_elsewhere = record asked {
  query = λ name. if name == "returnTo" then asked_for "example.org" else "";
}

abbrev back_elsewhere : AuthRequest
back_elsewhere = record back {
  cookies = map (sent carried) (handle_login oauth library 5 (ok "s1") (ok "v1") asked_elsewhere).1;
}

login-elsewhere_example :
    (handle_callback oauth library 7 (ok "id1") back_elsewhere no_sessions).0.0
    ≡ redirected "//example.org"
unfolding carried any established handle_login cookie_of valid_state return_to_or_root has_prefix
login-elsewhere_example =
    login-elsewhere carried oauth library 5 7 "s1" "v1" "example.org" (ok "id1") asked_elsewhere
      back_elsewhere _ no_sessions refl refl refl refl refl

handle_callback_lem_example :
    ((reply : AuthReply) × (IsRefusal reply)
      × (handle_callback oauth library 7 (ok "id1") back no_sessions ≡ ((reply, []), no_sessions)))
    ⊎ ((s : Session) × (IsLogin library 7 (ok "id1") back s)
        × (handle_callback oauth library 7 (ok "id1") back no_sessions ≡ (
          (
            redirected (return_target (cookie_of return_to_cookie_name back.cookies)),
            session_cookie oauth s ∷ cleared_short_cookies oauth,
          ),
          Session.create s no_sessions,
        )))
handle_callback_lem_example = handle_callback_lem oauth library 7 (ok "id1") back no_sessions

abbrev ann : Session
ann = record {
  session_id = "id1";
  subject = "u1";
  email = "ann@example.org";
  groups = [];
  roles = [];
  created_at = 5;
  expires_at = 100;
  access_token = "";
}

abbrev one_session : MemoryStore
one_session = record { sessions = ann ∷ []; last_gc = 0 }

abbrev leaving : AuthRequest
leaving = record {
  query = λ name. "";
  cookies = (session_cookie_name, "id1") ∷ [];
  authorization = "";
}

handle_logout_lem_example :
    ((resolve
        (bearer_verify library)
        verifier
        50
        signed_in
        (handle_logout oauth leaving one_session).1).0
      ≡ bearer_claims (bearer_verify library) "")
    × (visible 50 "id2" (handle_logout oauth leaving one_session).1 ≡ visible 50 "id2" one_session)
unfolding cookie_of
handle_logout_lem_example =
    handle_logout_lem (bearer_verify library) oauth verifier 50 "id1" "id2" leaving signed_in
      one_session (tt, tt) refl refl refl (differs "id1" "id2" refl)

abbrev proxy : ProxyClient
proxy = record {
  base_url = "https://cluster";
  transport = record { refuses = λ m u. none; send = λ r. err "unreachable" };
}

abbrev host : Host String String (Unit {0})
host = record {
  lookup = lookup;
  lower = lower;
  open_sqlite = λ dsn. ok dsn;
  verifier_provider = λ issuer. ok "";
  oauth_provider = λ issuer. ok "";
  cluster = λ k. ok tt;
  telemetry = ok tt;
  proxy = λ k. ok proxy;
}

abbrev settings : Config
settings = loaded lookup lower

abbrev started : Process String (Unit {0})
started = record {
  config = settings;
  store = "spinup.db";
  verifier = equipped settings (record { skip_auth = false; sessions = false; policy = none });
  oauth = some (record {
    client_id = "spinup";
    client_secret = "secret";
    redirect_url = "https://spinup.example.org/auth/callback";
    scopes = "openid" ∷ "email" ∷ "profile" ∷ [];
    audience = "spinup";
    cookie_secure = true;
    end_session_url = "";
  });
  cluster = tt;
  deployer = deployer_of settings;
  builder = builder_of settings;
  namespace = settings.functions.namespace;
  resource_policy = resource_policy_of settings;
  prometheus = none;
  proxy = proxy;
  sessions = no_sessions;
}

starts : start host ≡ ok started
unfolding start checked loaded open_store new_verifier new_oauth has_prefix
starts = refl

start-IsStarted_example : IsStarted host started
start-IsStarted_example = start-IsStarted host started starts

abbrev echo : Option Claims → ℕ → Response ℕ × ℕ
echo c n = (json 200 n, n)

start-serve_api_example :
    IsApiAnswer
      (bearer_verify library)
      started.verifier
      ("dev" ∷ "ops" ∷ [])
      50
      signed_in
      echo
      3
      one_session
      "dev"
      "GET"
      "/api/v1/applications"
      started.resource_policy
      (serve_api
        (bearer_verify library)
        started
        50
        "GET"
        "/api/v1/applications"
        signed_in
        echo
        3
        one_session)
unfolding loaded
start-serve_api_example =
    start-serve_api host started (bearer_verify library) 50 "GET" "/api/v1/applications" signed_in
      echo 3 one_session starts refl (tt, tt)
