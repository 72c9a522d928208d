-- ===== src/Process/Guarded.antt =====
-- What stands before the handlers of the API in a process that has started.
use mathlib.Core.Path.{subst}
use spinup.Prelude.{
  ◌≡◌, refl, sym, ap, ◌∙◌, ◌⊎◌, inl, inr, ℕ, String, true, false, Option, some, List, All, ok,
  arith, eq_iff, Bool-cases,
}
use spinup.Session.{MemoryStore}
use spinup.Session.Expiry.{IsMap}
use spinup.Auth.{
  Request, Verifier, Access, unauthorized, forbidden, admitted, authorize, new_policy, middleware,
}
use spinup.Auth.Guard.{HasRole, Identified, middleware-Identified, authorize-new_policy_iff}
use spinup.HttpApi.Actions.{Claims, Response, failed, plain}
use spinup.Policy.{ResourcePolicy}
use spinup.Process.{
  Host, Process, ApiReply, version_info, policy_reply, policy_info, is_open, as_handled, passed_on,
  serve_api, start,
}
use spinup.Process.Started.{IsWired, start-IsStarted}

module _ {W R : Type 0} (verify : String → Option Claims) (v : Verifier) (roles : List String)
    (now : ℕ) (r : Request) (handler : Option Claims → W → Response R × W) (w : W)
    (m : MemoryStore) where
  -- The request was refused and nothing but expired sessions was touched, or it was identified, its
  -- claims hold a required role, and the handler answered it with those claims.
  abbrev pub Guarded : Response R × W × MemoryStore → Type 0
  Guarded out =
      (rest : MemoryStore) × ((out ≡ (failed 401 (plain "unauthorized"), w, rest))
        ⊎ ((out ≡ (failed 403 (plain "forbidden: missing required role"), w, rest))
            ⊎ ((c : Claims) × (Identified verify now r m c)
                × (All (λ need. need ≡ "") roles ⊎ HasRole roles c)
                × (out ≡ ((handler (some c) w).0, (handler (some c) w).1, rest)))))

  passed_on-Guarded :
      (q : Access × MemoryStore)
      → v.skip_auth ≡ false
      → v.policy ≡ some (new_policy roles)
      → IsMap m
      → middleware verify v now r m ≡ q
      → Guarded (passed_on handler w q)
  passed_on-Guarded (unauthorized, rest) on p h e = (rest, inl refl)
  passed_on-Guarded (forbidden, rest) on p h e = (rest, inr (inl refl))
  passed_on-Guarded (admitted c, rest) on p h e =
      let (found, fine) =
        middleware-Identified verify v now r m c on h (ap (λ (x : Access × MemoryStore). x.0) e) in
      let allowed : authorize (some (new_policy roles)) c ≡ true =
        subst (λ x. authorize x c ≡ true) p fine in
      (rest, inr (inr (c, found, (authorize-new_policy_iff roles c).0 allowed, refl)))

  middleware-Guarded :
      v.skip_auth ≡ false
      → v.policy ≡ some (new_policy roles)
      → IsMap m
      → Guarded (passed_on handler w (middleware verify v now r m))
  middleware-Guarded on p h = passed_on-Guarded (middleware verify v now r m) on p h refl

  -- A GET of one of the two routes that need no login, which changes nothing, or a guarded answer.
  abbrev pub IsApiAnswer :
      String → String → String → ResourcePolicy → ApiReply R × W × MemoryStore → Type 0
  IsApiAnswer version method path caps out =
      (((method ≡ "GET") ⊎ (method ≡ "HEAD"))
        × (((path ≡ "/api/v1/version")
              × (out ≡ (version_info version "https://github.com/emdzej/spinup", w, m)))
            ⊎ ((path ≡ "/api/v1/policy") × (out ≡ (policy_reply (policy_info caps), w, m)))))
      ⊎ ((answer : Response R × W × MemoryStore) × (Guarded answer) × (out ≡ as_handled answer))

is_open_lem :
    (route method path : String)
    → is_open route method path ≡ true
    → ((method ≡ "GET") ⊎ (method ≡ "HEAD")) × (path ≡ route)
unfolding is_open
is_open_lem route method path h =
    ground (arith, eq_iff method "GET", eq_iff method "HEAD", eq_iff path route)

serve_api-IsApiAnswer :
    {S K W R : Type 0} (verify : String → Option Claims) (p : Process S K) (now : ℕ)
    (method path : String) (r : Request) (handler : Option Claims → W → Response R × W) (w : W)
    (m : MemoryStore)
    → p.verifier.skip_auth ≡ false
    → p.verifier.policy ≡ some (new_policy p.config.required_roles)
    → IsMap m
    → IsApiAnswer verify p.verifier p.config.required_roles now r handler w m p.config.version
        method path p.resource_policy
        (serve_api verify p now method path r handler w m)
unfolding serve_api
serve_api-IsApiAnswer verify p now method path r handler w m on policy h =
    elim (Bool-cases (is_open "/api/v1/version" method path)) [
      | inl version ↦
          let (read, there) = is_open_lem "/api/v1/version" method path version in
          rw version (inl (read, inl (there, refl)))
      | inr other ↦ elim (Bool-cases (is_open "/api/v1/policy" method path)) [
        | inl caps ↦
            let (read, there) = is_open_lem "/api/v1/policy" method path caps in
            rw (other, caps) (inl (read, inr (there, refl)))
        | inr guarded ↦
            rw (other, guarded)
              (inr (
                passed_on handler w (middleware verify p.verifier now r m),
                middleware-Guarded verify p.verifier p.config.required_roles now r handler w m on
                    policy h,
                refl,
              ))
      ]
    ]

-- In a process that has started and for which authentication is not switched off, a request under
-- /api/ is a GET or HEAD of /api/v1/version or /api/v1/policy, which is answered to everybody and
-- changes nothing, or it is answered with 401 or 403 and changes nothing but the session store, or it
-- is answered by its handler with the claims of a live session or of a token that verifies, which
-- name a required role if any is required.
pub start-serve_api :
    {E S K W R : Type 0} (host : Host E S K) (p : Process S K) (verify : String → Option Claims)
    (now : ℕ) (method path : String) (r : Request) (handler : Option Claims → W → Response R × W)
    (w : W) (m : MemoryStore)
    → start host ≡ ok p
    → p.config.oidc.dev_insecure_skip_auth ≡ false
    → IsMap m
    → IsApiAnswer verify p.verifier p.config.required_roles now r handler w m p.config.version
        method path p.resource_policy
        (serve_api verify p now method path r handler w m)
start-serve_api host p verify now method path r handler w m h on k =
    let started = start-IsStarted host p h in
    serve_api-IsApiAnswer verify p now method path r handler w m (wired started.is_wired)
      started.policy_is k
  where
    wired : IsWired p.config.oidc p.verifier p.oauth → p.verifier.skip_auth ≡ false
    wired (inl (skip, off, none_flow)) = absurd (apart (sym skip ∙ on))
      where
        apart : true ≡ false → ⊥
        apart e = cc
    wired (inr (on_config, on_verifier, secret, address, flow)) = on_verifier
