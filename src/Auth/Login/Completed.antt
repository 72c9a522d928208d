-- ===== src/Auth/Login/Completed.antt =====
-- A login of oauth.go that the provider completes ends in a session that the middleware resolves.
use spinup.Prelude.{
  ◌≡◌, refl, ap, ◌∙◌, ◌≢◌, ℕ, ◌≤◌, String, true, false, Option, none, some, map, arith, ok, ltb,
  ◌==◌, eq_iff, Bool-cases, inl, inr,
}
use spinup.Text.{has_prefix}
use spinup.Session
use spinup.Session.{Session, MemoryStore}
use spinup.Session.Expiry.{IsMap, create-get}
use spinup.HttpApi.Actions.{Claims}
use spinup.Auth.{Request, Verifier, claims_of, resolve, or_bearer}
use spinup.Auth.Login.{
  valid_state, expires_at, return_target, return_to_or_root, established, handle_login,
  handle_callback, callback_reply, bearer_verify,
}
use spinup.Auth.Oauth.{
  Cookie, AuthRequest, Token, IdToken, Library, redirected, cookie_of, OAuth, return_to_cookie_name,
  state_cookie_name, verifier_cookie_name,
}

-- What a browser sends back of a cookie that was set, where `carry` is what http.SetCookie and the
-- browser make of a value.
abbrev pub sent : (String → String) → Cookie → String × String
sent carry c = (c.name, carry c.value)

-- The check of `returnToOrRoot`: a slash at the start and not two.
abbrev pub IsRooted : String → Type 0
IsRooted target = (has_prefix target "/" ≡ true) × (has_prefix target "//" ≡ false)

return_to_or_root-IsRooted : (lib : Library) (r : AuthRequest) → IsRooted (return_to_or_root lib r)
unfolding return_to_or_root
return_to_or_root-IsRooted lib r = elim (Bool-cases (has_prefix (r.query "returnTo") "/")) [
  | inr other ↦ rw other (unfold has_prefix in (refl, refl))
  | inl rooted ↦ elim (Bool-cases (has_prefix (r.query "returnTo") "//")) [
    | inl host ↦ rw rooted (rw host (unfold has_prefix in (refl, refl)))
    | inr local ↦ elim (Bool-cases (lib.parses (r.query "returnTo"))) [
      | inl parsed ↦ rw (rooted, local, parsed) (rooted, local)
      | inr bad ↦ rw (rooted, local, bad) (unfold has_prefix in (refl, refl))
    ]
  ]
]

-- The session that a completed login creates.
abbrev session_for : String → Claims → ℕ → Option ℕ → String → Session
session_for sid c now expiry access = record {
  session_id = sid;
  subject = c.subject;
  email = c.email;
  groups = c.groups;
  roles = c.roles;
  created_at = now;
  expires_at = expires_at now expiry;
  access_token = access;
}

filled : (s : String) → s ≢ "" → (s == "") ≡ false
filled s h = ground (arith, eq_iff s "")

valid_state-same : (s : String) → s ≢ "" → valid_state s (some s) ≡ true
unfolding valid_state
valid_state-same s h = rw (filled s h) ((eq_iff s s).1 refl)

or_bearer-some :
    (verify : String → Option Claims) (h : String) (p : Option Session × MemoryStore) (s : Session)
    → p.0 ≡ some s
    → (or_bearer verify h p).0 ≡ some (claims_of s)
or_bearer-some verify h (some x, m) s e = ap (map_claims) e
  where
    map_claims : Option Session → Option Claims
    map_claims none = none
    map_claims (some x) = some (claims_of x)
or_bearer-some verify h (none, m) s e = absurd cc

resolve-live :
    (verify : String → Option Claims) (v : Verifier) (later : ℕ) (r : Request) (s : Session)
    (m : MemoryStore)
    → v.skip_auth ≡ false
    → v.sessions ≡ true
    → IsMap m
    → r.cookie ≡ some s.session_id
    → s.session_id ≢ ""
    → later ≤ s.expires_at
    → (resolve verify v later r (Session.create s m)).0 ≡ some (claims_of s)
unfolding resolve
resolve-live verify v later r s m on cookies h c f l =
    let alive : ltb s.expires_at later ≡ false = ground arith in
    let found = (create-get later s m h).1 in
    rw on (
      rw cookies (
        rw c (
          rw (filled s.session_id f) (
            or_bearer-some verify r.authorization
              (Session.get later s.session_id (Session.create s m)) s (found ∙ rw alive refl)))))

-- What a callback establishes when every step of it goes well.
established-session_for :
    (lib : Library) (now : ℕ) (state verifier bytes raw : String) (token : Token) (idt : IdToken)
    (c : Claims) (r : AuthRequest)
    → cookie_of state_cookie_name r.cookies ≡ some state
    → cookie_of verifier_cookie_name r.cookies ≡ some verifier
    → r.query "state" ≡ state
    → state ≢ ""
    → verifier ≢ ""
    → r.query "code" ≢ ""
    → lib.exchange (r.query "code") verifier ≡ ok token
    → token.id_token ≡ some raw
    → raw ≢ ""
    → lib.verify raw ≡ ok idt
    → idt.claims ≡ ok c
    → established lib now (ok bytes) r
      ≡ ok (session_for (lib.encode bytes) c now idt.expiry token.access_token)
unfolding established
established-session_for lib now state verifier bytes raw token idt c r cs cv state_is fs fv fc
      exchanged id_token fr verified claims =
    rw cs (
      rw state_is (
        rw (valid_state-same state fs) (
          rw cv (
            rw (filled verifier fv) (
              rw (filled (r.query "code") fc) (
                rw exchanged (rw id_token (rw (filled raw fr) (rw verified (rw claims refl))))))))))

-- What a completed login ends in, whatever its cookies carry of the address to return to.
login_lem :
    (carry : String → String) (oa : OAuth) (lib : Library) (v : Verifier) (start now later : ℕ)
    (state_bytes verifier_bytes bytes raw : String) (token : Token) (idt : IdToken) (c : Claims)
    (asked back : AuthRequest) (next : Request) (m : MemoryStore)
    → lib.encode state_bytes ≢ ""
    → lib.encode verifier_bytes ≢ ""
    → lib.encode bytes ≢ ""
    → carry (lib.encode state_bytes) ≡ lib.encode state_bytes
    → carry (lib.encode verifier_bytes) ≡ lib.encode verifier_bytes
    → carry (lib.encode bytes) ≡ lib.encode bytes
    → back.cookies
      ≡ map (sent carry) (handle_login oa lib start (ok state_bytes) (ok verifier_bytes) asked).1
    → back.query "state" ≡ lib.encode state_bytes
    → back.query "code" ≢ ""
    → lib.exchange (back.query "code") (lib.encode verifier_bytes) ≡ ok token
    → token.id_token ≡ some raw
    → raw ≢ ""
    → lib.verify raw ≡ ok idt
    → idt.claims ≡ ok c
    → IsMap m
    → v.skip_auth ≡ false
    → v.sessions ≡ true
    → next.cookie ≡ some (carry (lib.encode bytes))
    → later ≤ expires_at now idt.expiry
    → ((handle_callback oa lib now (ok bytes) back m).0.0
        ≡ redirected (return_target (some (carry (return_to_or_root lib asked)))))
      × ((resolve
            (bearer_verify lib)
            v
            later
            next
            (handle_callback oa lib now (ok bytes) back m).1).0
          ≡ some c)
unfolding handle_callback
login_lem carry oa lib v start now later state_bytes verifier_bytes bytes raw token idt c asked back
      next m fs fv fb cs cv cb cookies state code exchanged id_token fr verified claims h on
      use_cookies cookie l =
    let s = session_for (lib.encode bytes) c now idt.expiry token.access_token in
    let done : established lib now (ok bytes) back ≡ ok s =
      established-session_for lib now (lib.encode state_bytes) (lib.encode verifier_bytes) bytes raw
        token idt c back (brought state_cookie_name ∙ unfold handle_login cookie_of in ap some cs)
        (brought verifier_cookie_name ∙ unfold handle_login cookie_of in ap some cv) state fs fv
        code exchanged id_token fr verified claims in
    let kept : cookie_of return_to_cookie_name back.cookies
        ≡ some (carry (return_to_or_root lib asked)) =
      brought return_to_cookie_name ∙ unfold handle_login cookie_of in refl in
    (
      ap (λ x. (callback_reply oa back m x).0.0) done ∙ ap (λ o. redirected (return_target o)) kept,
      ap (λ x. (resolve (bearer_verify lib) v later next (callback_reply oa back m x).1).0) done
          ∙ resolve-live (bearer_verify lib) v later next s m on use_cookies h (cookie ∙ ap some cb)
              fb l,
    )
  where
    brought :
        (name : String)
        → cookie_of name back.cookies
          ≡ cookie_of name (
              map
                (sent carry)
                (handle_login oa lib start (ok state_bytes) (ok verifier_bytes) asked).1)
    brought name = ap (cookie_of name) cookies

-- Where random bytes are read and their encoding is not empty, and cookies carry the encoded bytes and
-- the address to return to unchanged, a login whose cookies and state come back with a code that the
-- provider exchanges for an ID token that verifies redirects to what `returnToOrRoot` made of the
-- address that was asked for, which begins with one slash and not with two, and up to the expiry of
-- the token the session cookie resolves to the claims of the token.
pub login-callback :
    (carry : String → String) (oa : OAuth) (lib : Library) (v : Verifier) (start now later : ℕ)
    (state_bytes verifier_bytes bytes raw : String) (token : Token) (idt : IdToken) (c : Claims)
    (asked back : AuthRequest) (next : Request) (m : MemoryStore)
    → lib.encode state_bytes ≢ ""
    → lib.encode verifier_bytes ≢ ""
    → lib.encode bytes ≢ ""
    → carry (lib.encode state_bytes) ≡ lib.encode state_bytes
    → carry (lib.encode verifier_bytes) ≡ lib.encode verifier_bytes
    → carry (lib.encode bytes) ≡ lib.encode bytes
    → carry (return_to_or_root lib asked) ≡ return_to_or_root lib asked
    → back.cookies
      ≡ map (sent carry) (handle_login oa lib start (ok state_bytes) (ok verifier_bytes) asked).1
    → back.query "state" ≡ lib.encode state_bytes
    → back.query "code" ≢ ""
    → lib.exchange (back.query "code") (lib.encode verifier_bytes) ≡ ok token
    → token.id_token ≡ some raw
    → raw ≢ ""
    → lib.verify raw ≡ ok idt
    → idt.claims ≡ ok c
    → IsMap m
    → v.skip_auth ≡ false
    → v.sessions ≡ true
    → next.cookie ≡ some (carry (lib.encode bytes))
    → later ≤ expires_at now idt.expiry
    → ((handle_callback oa lib now (ok bytes) back m).0.0
        ≡ redirected (return_to_or_root lib asked))
      × (IsRooted (return_to_or_root lib asked))
      × ((resolve
            (bearer_verify lib)
            v
            later
            next
            (handle_callback oa lib now (ok bytes) back m).1).0
          ≡ some c)
login-callback carry oa lib v start now later state_bytes verifier_bytes bytes raw token idt c asked
      back next m fs fv fb cs cv cb ct cookies state code exchanged id_token fr verified claims h on
      use_cookies cookie l =
    let local = return_to_or_root-IsRooted lib asked in
    let (reply, signed_in) =
      login_lem carry oa lib v start now later state_bytes verifier_bytes bytes raw token idt c
        asked back next m fs fv fb cs cv cb cookies state code exchanged id_token fr verified claims
        h on use_cookies cookie l in
    (
      reply ∙ ap (λ x. redirected (return_target (some x))) ct ∙ ap redirected (rw local.0 refl),
      local,
      signed_in,
    )
