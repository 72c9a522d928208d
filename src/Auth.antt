-- ===== src/Auth.antt =====
-- services/control-plane/internal/auth: who a request comes from and whether it is let in (`resolve`
-- and `handleMe` of oauth.go, `Middleware` of oidc.go, authz.go). Parameter: `verify`, which checks
-- an ID token and decodes its claims.
pub mod Guard
pub mod Oauth
pub mod Login
use spinup.Prelude.{
  ℕ, String, Bool, true, false, not, ◌&&◌, Option, none, some, List, [], ◌∷◌, any, if◌then◌else◌,
  ◌==◌,
}
use spinup.Text.{has_prefix, drop_chars, trim_space}
use spinup.Session
use spinup.Session.{Session, MemoryStore}
use spinup.HttpApi.Actions.{Claims}

-- NewPolicy drops empty roles.
unfoldable pub new_policy : List String → List String
new_policy [] = []
new_policy (r ∷ rs) = let rest = new_policy rs in if r == "" then rest else r ∷ rest

abbrev is_none_required : List String → Bool
is_none_required [] = true
is_none_required (r ∷ rs) = false

-- `Authorize`; without a policy everyone is let in.
unfoldable pub authorize : Option (List String) → Claims → Bool
authorize none c = true
authorize (some required) c =
    if is_none_required required
    then true
    else any (λ need. any (λ got. got == need) c.roles) required

-- What is read of a request: the session cookie, if there is one, and the Authorization header.
pub record Request : Type 0 where
  pub cookie : Option String
  pub authorization : String

-- `sessions` says whether cookies are looked up at all.
pub record Verifier : Type 0 where
  pub skip_auth : Bool
  pub sessions : Bool
  pub policy : Option (List String)

abbrev pub dev_claims : Claims
dev_claims = record { subject = "dev"; email = "dev@localhost"; groups = []; roles = [] }

abbrev pub claims_of : Session → Claims
claims_of s = record { subject = s.subject; email = s.email; groups = s.groups; roles = s.roles }

-- What the middleware does with a request.
pub data Access : Type 0 where
  unauthorized forbidden : Access
  admitted : Claims → Access

pub record MeResponse : Type 0 where
  pub claims : Claims
  pub anonymous : Bool
  pub authorized : Bool

module _ (verify : String → Option Claims) where
  unfoldable pub bearer_claims : String → Option Claims
  bearer_claims h =
      if has_prefix h "Bearer " then verify (trim_space (drop_chars h "Bearer ")) else none

  abbrev pub or_bearer : String → Option Session × MemoryStore → Option Claims × MemoryStore
  or_bearer h (some s, m) = (some (claims_of s), m)
  or_bearer h (none, m) = (bearer_claims h, m)

  abbrev pub by_cookie : ℕ → Option String → String → MemoryStore → Option Claims × MemoryStore
  by_cookie now none h m = (bearer_claims h, m)
  by_cookie now (some id) h m =
      if id == "" then (bearer_claims h, m) else or_bearer h (Session.get now id m)

  unfoldable pub resolve : Verifier → ℕ → Request → MemoryStore → Option Claims × MemoryStore
  unfolding bearer_claims
  resolve v now r m =
      if v.skip_auth
      then (some dev_claims, m)
      else if v.sessions
      then by_cookie now r.cookie r.authorization m
      else (bearer_claims r.authorization, m)

  abbrev pub decided : Option (List String) → Option Claims × MemoryStore → Access × MemoryStore
  decided policy (none, m) = (unauthorized, m)
  decided policy (some c, m) = (if authorize policy c then admitted c else forbidden, m)

  unfoldable pub middleware : Verifier → ℕ → Request → MemoryStore → Access × MemoryStore
  unfolding resolve authorize
  middleware v now r m =
      if v.skip_auth then (admitted dev_claims, m) else decided v.policy (resolve v now r m)

  abbrev nobody : Claims
  nobody = record { subject = ""; email = ""; groups = []; roles = [] }

  abbrev described :
      Option (List String) → Option Claims × MemoryStore → (ℕ × MeResponse) × MemoryStore
  described policy (none, m) =
      ((401, record { claims = nobody; anonymous = true; authorized = false }), m)
  described policy (some c, m) =
      ((200, record { claims = c; anonymous = false; authorized = authorize policy c }), m)

  -- The status and the body of /auth/me.
  unfoldable pub handle_me : Verifier → ℕ → Request → MemoryStore → (ℕ × MeResponse) × MemoryStore
  unfolding resolve authorize
  handle_me v now r m = described v.policy (resolve v now r m)
