-- ===== src/Auth/Login.antt =====
-- services/control-plane/internal/auth/oauth.go: the login of browsers. A handler gives its reply,
-- the cookies that it sets and the next session store. Parameters: what the OAuth and OIDC libraries
-- and the identity provider answer, the hash and the base64 encoding, random bytes and the clock.
-- The errors of libraries are their texts.
pub mod Steps
pub mod Flow
pub mod Completed
pub mod Elsewhere
pub mod Ended
use Prim.Native.String
use spinup.Prelude.{
  ℕ, ◌+◌, ◌*◌, ◌^◌, String, Bool, true, false, not, ◌&&◌, Option, none, some, List, [], ◌∷◌, map,
  Result, ok, err, ◌>>=◌, ◌>>◌, if◌then◌else◌, ◌==◌,
}
use spinup.Text.{has_prefix}
use spinup.Session
use spinup.Session.{Session, MemoryStore, minute}
use spinup.Config.{OidcConfig}
use spinup.HttpApi.Actions.{Claims}
use spinup.Auth.{Request, Verifier, MeResponse, dev_claims, handle_me}
use spinup.Auth.Oauth.{
  session_cookie_name, state_cookie_name, verifier_cookie_name, return_to_cookie_name,
  oauth_cookie_ttl, Life, Cookie, AuthRequest, Token, IdToken, Library, AuthReply, cookie_of,
  to_request, OAuth, OAuthError, with_provider, new_oauth, until, removed, error_reply, redirected,
  end_session, no_content, described_user, secret_required, redirect_required, no_provider,
}

abbrev explained : {A : Type 0} → ℕ → String → Result String A → Result AuthReply A
explained status prefix (ok a) = ok a
explained status prefix (err e) = err (error_reply status (String.◌++◌ prefix e))

abbrev needed : AuthReply → Option String → Result AuthReply String
needed reply none = err reply
needed reply (some v) = if v == "" then err reply else ok v

abbrev demand : Bool → AuthReply → Result AuthReply (Unit {0})
demand true reply = ok tt
demand false reply = err reply

unfoldable pub valid_state : String → Option String → Bool
valid_state given none = false
valid_state given (some v) = not (v == "") && given == v

abbrev expires_at : ℕ → Option ℕ → ℕ
expires_at now none = now + 60 * minute
expires_at now (some t) = t

abbrev pub return_target : Option String → String
return_target none = "/"
return_target (some rt) = if has_prefix rt "/" then rt else "/"

module _ (lib : Library) where
  -- Random bytes, encoded.
  abbrev pub random_hex : Result String String → Result String String
  random_hex (ok bytes) = ok (lib.encode bytes)
  random_hex (err e) = err e

  abbrev pub pkce_challenge : String → String
  pkce_challenge verifier = lib.encode (lib.sha256 verifier)

  unfoldable pub return_to_or_root : AuthRequest → String
  return_to_or_root r =
      let rt = r.query "returnTo" in
      if has_prefix rt "/" && not (has_prefix rt "//")
      then (if lib.parses rt then rt else "/")
      else "/"

  -- The session that a callback asks for, or the reply that ends it.
  unfoldable pub established : ℕ → Result String String → AuthRequest → Result AuthReply Session
  unfolding cookie_of valid_state
  established now bytes r = do
    demand (valid_state (r.query "state") (cookie_of state_cookie_name r.cookies))
        (error_reply 400 "invalid state")
    verifier ←
        needed (error_reply 400 "missing pkce verifier") (cookie_of verifier_cookie_name r.cookies)
    code ← needed (error_reply 400 "missing code") (some (r.query "code"))
    token ← explained 502 "token exchange: " (lib.exchange code verifier)
    raw ← needed (error_reply 502 "no id_token in response") token.id_token
    idt ← explained 401 "verify id_token: " (lib.verify raw)
    claims ← explained 401 "decode claims: " idt.claims
    sid ← explained 500 "session id: " (random_hex bytes)
    ok (record {
      session_id = sid;
      subject = claims.subject;
      email = claims.email;
      groups = claims.groups;
      roles = claims.roles;
      created_at = now;
      expires_at = expires_at now idt.expiry;
      access_token = token.access_token;
    })

module _ (oa : OAuth) where
  abbrev cookie : String → String → Life → Cookie
  cookie name value life = record {
    name = name;
    value = value;
    path = "/";
    life = life;
    http_only = true;
    secure = oa.cookie_secure;
    same_site_lax = true;
  }

  abbrev pub short_cookie : ℕ → String → String → Cookie
  short_cookie now name value = cookie name value (until (now + oauth_cookie_ttl))

  abbrev pub cleared_short_cookies : List Cookie
  cleared_short_cookies =
      map (λ name. cookie name "" removed)
        (state_cookie_name ∷ verifier_cookie_name ∷ return_to_cookie_name ∷ [])

  abbrev pub session_cookie : Session → Cookie
  session_cookie s = cookie session_cookie_name s.session_id (until s.expires_at)

  abbrev login_reply :
      Library → ℕ → AuthRequest → Result AuthReply (String × String) → AuthReply × List Cookie
  login_reply lib now r (err reply) = (reply, [])
  login_reply lib now r (ok (state, verifier)) = (
    redirected (
        lib.auth_code_url state (
          ("code_challenge", pkce_challenge lib verifier)
          ∷ ("code_challenge_method", "S256")
          ∷ [])),
    short_cookie now state_cookie_name state
        ∷ short_cookie now verifier_cookie_name verifier
        ∷ short_cookie now return_to_cookie_name (return_to_or_root lib r)
        ∷ [],
  )

  unfoldable pub handle_login :
      Library
      → ℕ
      → Result String String
      → Result String String
      → AuthRequest
      → AuthReply × List Cookie
  unfolding return_to_or_root
  handle_login lib now state_bytes verifier_bytes r = login_reply lib now r do
    state ← explained 500 "state: " (random_hex lib state_bytes)
    verifier ← explained 500 "verifier: " (random_hex lib verifier_bytes)
    ok (state, verifier)

  abbrev pub callback_reply :
      AuthRequest → MemoryStore → Result AuthReply Session → (AuthReply × List Cookie) × MemoryStore
  callback_reply r m (err reply) = ((reply, []), m)
  callback_reply r m (ok s) = (
    (
      redirected (return_target (cookie_of return_to_cookie_name r.cookies)),
      session_cookie s ∷ cleared_short_cookies,
    ),
    Session.create s m,
  )

  -- Creating a session in memory never fails.
  unfoldable pub handle_callback :
      Library
      → ℕ
      → Result String String
      → AuthRequest
      → MemoryStore
      → (AuthReply × List Cookie) × MemoryStore
  unfolding established cookie_of Session.create
  handle_callback lib now bytes r m = callback_reply r m (established lib now bytes r)

  abbrev forgotten : Option String → MemoryStore → MemoryStore
  forgotten none m = m
  forgotten (some id) m = Session.delete id m

  unfoldable pub handle_logout : AuthRequest → MemoryStore → (AuthReply × List Cookie) × MemoryStore
  unfolding cookie_of Session.delete
  handle_logout r m = (
    (end_session oa.end_session_url, cookie session_cookie_name "" removed ∷ []),
    forgotten (cookie_of session_cookie_name r.cookies) m,
  )

pub data AuthRoute : Type 0 where
  login callback logout me : AuthRoute

-- The clock and the random bytes of one request.
pub record Moment : Type 0 where
  pub now : ℕ
  pub state_bytes : Result String String
  pub verifier_bytes : Result String String
  pub session_bytes : Result String String

abbrev decoded_claims : Result String Claims → Option Claims
decoded_claims (ok c) = some c
decoded_claims (err e) = none

abbrev verified_claims : Result String IdToken → Option Claims
verified_claims (ok idt) = decoded_claims idt.claims
verified_claims (err e) = none

abbrev pub bearer_verify : Library → String → Option Claims
bearer_verify lib token = verified_claims (lib.verify token)

abbrev dev_me : MeResponse
dev_me = record { claims = dev_claims; anonymous = false; authorized = true }

abbrev described_reply :
    (ℕ × MeResponse) × MemoryStore → Option ((AuthReply × List Cookie) × MemoryStore)
described_reply (body, m) = some ((described_user body, []), m)

-- The routes under /auth; without a login flow a callback has no handler.
unfoldable pub registered :
    Library
    → Verifier
    → Option OAuth
    → Moment
    → AuthRoute
    → AuthRequest
    → MemoryStore
    → Option ((AuthReply × List Cookie) × MemoryStore)
unfolding handle_login handle_callback handle_logout return_to_or_root handle_me
registered lib v none t me r m = some ((described_user (200, dev_me), []), m)
registered lib v none t login r m = some ((redirected (return_to_or_root lib r), []), m)
registered lib v none t logout r m = some ((no_content, []), m)
registered lib v none t callback r m = none
registered lib v (some oa) t login r m =
    some (handle_login oa lib t.now t.state_bytes t.verifier_bytes r, m)
registered lib v (some oa) t callback r m = some (handle_callback oa lib t.now t.session_bytes r m)
registered lib v (some oa) t logout r m = some (handle_logout oa r m)
registered lib v (some oa) t me r m =
    described_reply (handle_me (bearer_verify lib) v t.now (to_request r) m)
