-- ===== src/Auth/Login/Flow.antt =====
-- The login flow of oauth.go: when a callback establishes a session, and that a login that the
-- provider completes ends in one.
use mathlib.Core.Path.{subst}
use spinup.Prelude.{
  ◌≡◌, refl, sym, ap, ◌∙◌, ◌≢◌, ◌⊎◌, inl, inr, ℕ, ◌≤◌, String, true, Option, some, [], ◌∷◌, arith,
  Result, ok, >>=-ok, ok-injective, Result-cases,
}
use spinup.Session
use spinup.Session.{Session, MemoryStore}
use spinup.HttpApi.Actions.{Claims}
use spinup.Auth.{claims_of}
use spinup.Auth.Login.{
  explained, needed, demand, valid_state, expires_at, return_target, random_hex, established,
  session_cookie, cleared_short_cookies, callback_reply, handle_callback,
}
use spinup.Auth.Oauth.{
  AuthRequest, Token, IdToken, Library, AuthReply, error_reply, redirected, cookie_of, OAuth,
  state_cookie_name, verifier_cookie_name, return_to_cookie_name,
}
use spinup.Auth.Login.Steps.{
  IsRefusal, OnlyRefuses, then-OnlyRefuses, explained-OnlyRefuses, needed-OnlyRefuses,
  demand-OnlyRefuses, needed-ok, explained-ok, demand-ok, StateMatches, valid_state-StateMatches,
}

module _ (lib : Library) (now : ℕ) (bytes : Result String String) (r : AuthRequest) where
  -- What must hold for a callback to establish a session: its state and its PKCE verifier are those
  -- of the cookies, its code is exchanged with that verifier, and the ID token verifies; the session
  -- has the claims of the token and its expiry.
  pub record IsLogin (s : Session) : Type 0 where
    pub verifier : String
    pub token : Token
    pub raw : String
    pub idt : IdToken
    pub state_matches : StateMatches r
    pub verifier_is : cookie_of verifier_cookie_name r.cookies ≡ some verifier
    pub verifier_filled : verifier ≢ ""
    pub code_filled : r.query "code" ≢ ""
    pub exchanged : lib.exchange (r.query "code") verifier ≡ ok token
    pub raw_is : token.id_token ≡ some raw
    pub verified : lib.verify raw ≡ ok idt
    pub claims_are : idt.claims ≡ ok (claims_of s)
    pub id_is : random_hex lib bytes ≡ ok s.session_id
    pub created : s.created_at ≡ now
    pub expiry_is : s.expires_at ≡ expires_at now idt.expiry
    pub access_token_is : s.access_token ≡ token.access_token

  established-OnlyRefuses : OnlyRefuses (established lib now bytes r)
  unfolding established
  established-OnlyRefuses =
      let e400 : 400 ≤ 400 = omega arith in
      let e401 : 400 ≤ 401 = omega arith in
      let e500 : 400 ≤ 500 = omega arith in
      let e502 : 400 ≤ 502 = omega arith in
      then-OnlyRefuses
        (demand (valid_state (r.query "state") (cookie_of state_cookie_name r.cookies))
          (error_reply 400 "invalid state"))
        _
        (demand-OnlyRefuses (valid_state (r.query "state") (cookie_of state_cookie_name r.cookies))
          (error_reply 400 "invalid state") e400)
        (λ u.
          then-OnlyRefuses
            (needed (error_reply 400 "missing pkce verifier")
              (cookie_of verifier_cookie_name r.cookies))
            _
            (needed-OnlyRefuses (error_reply 400 "missing pkce verifier")
              (cookie_of verifier_cookie_name r.cookies) e400)
            (λ verifier.
              then-OnlyRefuses (needed (error_reply 400 "missing code") (some (r.query "code"))) _
                (needed-OnlyRefuses (error_reply 400 "missing code") (some (r.query "code")) e400)
                (λ code.
                  then-OnlyRefuses (explained 502 "token exchange: " (lib.exchange code verifier)) _
                    (explained-OnlyRefuses 502 "token exchange: " (lib.exchange code verifier) e502)
                    (λ token.
                      then-OnlyRefuses
                        (needed (error_reply 502 "no id_token in response") token.id_token) _
                        (needed-OnlyRefuses (error_reply 502 "no id_token in response")
                          token.id_token e502)
                        (λ raw.
                          then-OnlyRefuses (explained 401 "verify id_token: " (lib.verify raw)) _
                            (explained-OnlyRefuses 401 "verify id_token: " (lib.verify raw) e401)
                            (λ idt.
                              then-OnlyRefuses (explained 401 "decode claims: " idt.claims) _
                                (explained-OnlyRefuses 401 "decode claims: " idt.claims e401)
                                (λ claims.
                                  then-OnlyRefuses
                                    (explained 500 "session id: " (random_hex lib bytes)) _
                                    (explained-OnlyRefuses 500 "session id: " (random_hex lib bytes)
                                      e500)
                                    (λ sid. tt))))))))

  IsLogin-made :
      (verifier code raw sid : String) (token : Token) (idt : IdToken) (claims : Claims)
      → valid_state (r.query "state") (cookie_of state_cookie_name r.cookies) ≡ true
      → needed (error_reply 400 "missing pkce verifier") (cookie_of verifier_cookie_name r.cookies)
        ≡ ok verifier
      → needed (error_reply 400 "missing code") (some (r.query "code")) ≡ ok code
      → explained 502 "token exchange: " (lib.exchange code verifier) ≡ ok token
      → needed (error_reply 502 "no id_token in response") token.id_token ≡ ok raw
      → explained 401 "verify id_token: " (lib.verify raw) ≡ ok idt
      → explained 401 "decode claims: " idt.claims ≡ ok claims
      → explained 500 "session id: " (random_hex lib bytes) ≡ ok sid
      → IsLogin (record {
        session_id = sid;
        subject = claims.subject;
        email = claims.email;
        groups = claims.groups;
        roles = claims.roles;
        created_at = now;
        expires_at = expires_at now idt.expiry;
        access_token = token.access_token;
      })
  IsLogin-made verifier code raw sid token idt claims state v c t w i d k =
      let (v_is, v_filled) = needed-ok _ _ verifier v in
      let (c_is, c_filled) = needed-ok _ _ code c in
      let code_is : r.query "code" ≡ code = some-injective c_is in
      record {
        verifier = verifier;
        token = token;
        raw = raw;
        idt = idt;
        state_matches = valid_state-StateMatches _ _ state;
        verifier_is = v_is;
        verifier_filled = v_filled;
        code_filled = (λ e. c_filled (sym code_is ∙ e));
        exchanged = ap (λ x. lib.exchange x verifier) code_is ∙ explained-ok _ _ _ token t;
        raw_is = (needed-ok _ _ raw w).0;
        verified = explained-ok _ _ _ idt i;
        claims_are = explained-ok _ _ _ claims d;
        id_is = explained-ok _ _ _ sid k;
        created = refl;
        expiry_is = refl;
        access_token_is = refl;
      }
    where
      some-injective : {a b : String} → ◌≡◌ {A = Option String} (some a) (some b) → a ≡ b
      some-injective e = cc

  established-IsLogin : (s : Session) → established lib now bytes r ≡ ok s → IsLogin s
  unfolding established
  established-IsLogin s h =
      let (u, h₁, has_u) =
        >>=-ok
          (demand (valid_state (r.query "state") (cookie_of state_cookie_name r.cookies))
            (error_reply 400 "invalid state"))
          _ h in
      let (verifier, h₂, has_verifier) =
        >>=-ok
          (needed (error_reply 400 "missing pkce verifier")
            (cookie_of verifier_cookie_name r.cookies))
          _ h₁ in
      let (code, h₃, has_code) =
        >>=-ok (needed (error_reply 400 "missing code") (some (r.query "code"))) _ h₂ in
      let (token, h₄, has_token) =
        >>=-ok (explained 502 "token exchange: " (lib.exchange code verifier)) _ h₃ in
      let (raw, h₅, has_raw) =
        >>=-ok (needed (error_reply 502 "no id_token in response") token.id_token) _ h₄ in
      let (idt, h₆, has_idt) = >>=-ok (explained 401 "verify id_token: " (lib.verify raw)) _ h₅ in
      let (claims, h₇, has_claims) = >>=-ok (explained 401 "decode claims: " idt.claims) _ h₆ in
      let (sid, h₈, has_sid) = >>=-ok (explained 500 "session id: " (random_hex lib bytes)) _ h₇ in
      subst IsLogin (ok-injective h₈) (
        IsLogin-made verifier code raw sid token idt claims (demand-ok _ _ has_u) has_verifier
          has_code has_token has_raw has_idt has_claims has_sid)

-- A callback either is answered with an error, sets no cookie and leaves the sessions as they are; or
-- its state and PKCE verifier are those of its cookies, the code was exchanged for an ID token that
-- verifies, and exactly one session was created, with the claims and the expiry of that token: its
-- cookie is set, the cookies of the login are removed, and the reply redirects to the address that
-- the login kept.
pub handle_callback_lem :
    (oa : OAuth) (lib : Library) (now : ℕ) (bytes : Result String String) (r : AuthRequest)
    (m : MemoryStore)
    → ((reply : AuthReply) × (IsRefusal reply)
        × (handle_callback oa lib now bytes r m ≡ ((reply, []), m)))
      ⊎ ((s : Session) × (IsLogin lib now bytes r s)
          × (handle_callback oa lib now bytes r m ≡ (
            (
              redirected (return_target (cookie_of return_to_cookie_name r.cookies)),
              session_cookie oa s ∷ cleared_short_cookies oa,
            ),
            Session.create s m,
          )))
unfolding handle_callback
handle_callback_lem oa lib now bytes r m = elim (Result-cases (established lib now bytes r)) [
  | inl (s, done) ↦
      inr (s, established-IsLogin lib now bytes r s done, ap (callback_reply oa r m) done)
  | inr (reply, failed) ↦ inl (
    reply,
    subst OnlyRefuses failed (established-OnlyRefuses lib now bytes r),
    ap (callback_reply oa r m) failed,
  )
]
