-- ===== src/Auth/Oauth.antt =====
-- services/control-plane/internal/auth/oauth.go: cookies, what its handlers read of a request, and
-- `NewOAuth`. Parameters: what the OAuth and OIDC libraries and the identity provider answer, the hash
-- and the base64 encoding. The errors of libraries are their texts.
use spinup.Prelude.{
  ℕ, ◌*◌, String, Bool, Option, none, some, List, [], ◌∷◌, Result, ok, err, if◌then◌else◌, ◌==◌,
}
use spinup.Text.{has_prefix}
use spinup.Session.{minute}
use spinup.Config.{OidcConfig}
use spinup.HttpApi.Actions.{Claims}
use spinup.Auth.{Request, MeResponse}

abbrev pub session_cookie_name : String
session_cookie_name = "spinup_session"

abbrev pub state_cookie_name : String
state_cookie_name = "spinup_oauth_state"

abbrev pub verifier_cookie_name : String
verifier_cookie_name = "spinup_oauth_verifier"

abbrev pub return_to_cookie_name : String
return_to_cookie_name = "spinup_oauth_return"

abbrev pub oauth_cookie_ttl : ℕ
oauth_cookie_ttl = 10 * minute

-- Expires, or MaxAge -1.
pub data Life : Type 0 where
  until : ℕ → Life
  removed : Life

-- What http.SetCookie is given; of the value it drops every byte that a cookie may not have.
pub record Cookie : Type 0 where
  pub name : String
  pub value : String
  pub path : String
  pub life : Life
  pub http_only : Bool
  pub secure : Bool
  pub same_site_lax : Bool

-- What the handlers read of a request: r.URL.Query().Get, the cookies, and the Authorization header.
pub record AuthRequest : Type 0 where
  pub query : String → String
  pub cookies : List (String × String)
  pub authorization : String

pub record Token : Type 0 where
  pub access_token : String
  pub id_token : Option String

-- A verified ID token: its expiry, absent where it is the zero time, and its claims where they decode.
pub record IdToken : Type 0 where
  pub expiry : Option ℕ
  pub claims : Result String Claims

pub record Library : Type 0 where
  pub encode : String → String
  pub sha256 : String → String
  pub auth_code_url : String → List (String × String) → String
  pub exchange : String → String → Result String Token
  pub verify : String → Result String IdToken
  pub parses : String → Bool

pub data AuthReply : Type 0 where
  error_reply : ℕ → String → AuthReply
  redirected : String → AuthReply
  end_session : String → AuthReply
  no_content : AuthReply
  described_user : ℕ × MeResponse → AuthReply

-- r.Cookie: the first of the name.
unfoldable pub cookie_of : String → List (String × String) → Option String
cookie_of name [] = none
cookie_of name ((n, v) ∷ cookies) = if n == name then some v else cookie_of name cookies

abbrev pub to_request : AuthRequest → Request
to_request r = record {
  cookie = cookie_of session_cookie_name r.cookies;
  authorization = r.authorization;
}

pub record OAuth : Type 0 where
  pub client_id : String
  pub client_secret : String
  pub redirect_url : String
  pub scopes : List String
  pub audience : String
  pub cookie_secure : Bool
  pub end_session_url : String

pub data OAuthError : Type 0 where
  secret_required redirect_required : OAuthError
  no_provider : String → OAuthError

abbrev pub with_provider : OidcConfig → Result String String → Result OAuthError (Option OAuth)
with_provider cfg (err e) = err (no_provider e)
with_provider cfg (ok end_session_endpoint) = ok (
    some (record {
      client_id = cfg.client_id;
      client_secret = cfg.client_secret;
      redirect_url = cfg.redirect_url;
      scopes = "openid" ∷ "email" ∷ "profile" ∷ [];
      audience = if cfg.audience == "" then cfg.client_id else cfg.audience;
      cookie_secure = has_prefix cfg.redirect_url "https://";
      end_session_url = end_session_endpoint;
    }))

-- `provider` is what the issuer's metadata gives: the endpoint that ends sessions, if any, or "".
unfoldable pub new_oauth : OidcConfig → Result String String → Result OAuthError (Option OAuth)
new_oauth cfg provider =
    if cfg.dev_insecure_skip_auth
    then ok none
    else if cfg.client_secret == ""
    then err secret_required
    else if cfg.redirect_url == ""
    then err redirect_required
    else with_provider cfg provider
