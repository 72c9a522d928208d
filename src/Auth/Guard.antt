-- ===== src/Auth/Guard.antt =====
-- Whom the middleware of the control plane lets in.
use spinup.Prelude.{
  ◌≡◌, refl, sym, ap, ◌∙◌, ◌≢◌, ◌↔◌, ◌⊎◌, inl, inr, ℕ, String, Bool, true, false, Option, none,
  some, List, [], ◌∷◌, arith, any, All, if◌then◌else◌, ◌==◌, eq_iff, Bool-cases,
}
use mathlib.Core.Path.{subst}
use native.Mathlib.Nat.{le_refl}
use spinup.Session
use spinup.Session.{Session, MemoryStore}
use spinup.Session.Expiry.{IsMap, visible, get-get}
use spinup.HttpApi.Actions.{Claims}
use spinup.Auth.{
  Request, Verifier, Access, admitted, claims_of, authorize, bearer_claims, resolve, middleware,
  new_policy, or_bearer, by_cookie, decided,
}

if_false : {A : Type 0} (b : Bool) (x y : A) → b ≡ false → (if b then x else y) ≡ y
if_false b x y h = rw h refl

-- A role that is required and named by the claims.
abbrev pub HasRole : List String → Claims → Type 0
HasRole required c =
    (role : String) × (role ≢ "")
    × (any (λ need. need == role) required ≡ true)
    × (any (λ got. got == role) c.roles ≡ true)

abbrev matches : Claims → List String → Bool
matches c needs = any (λ need. any (λ got. got == need) c.roles) needs

later_role : (r : String) (rs : List String) (c : Claims) → HasRole rs c → HasRole (r ∷ rs) c
unfolding any
later_role r rs c (role, named, needed, held) = (role, named, ground arith, held)

matches-HasRole : (rs : List String) (c : Claims) → matches c (new_policy rs) ≡ true → HasRole rs c
unfolding any new_policy
matches-HasRole [] c h = absurd (ground arith)
matches-HasRole (r ∷ rs) c h = elim (Bool-cases (r == "")) [
  | inl blank ↦ later_role r rs c (matches-HasRole rs c (rw blank at h))
  | inr named ↦ elim (Bool-cases (any (λ got. got == r) c.roles)) [
    | inl held ↦ (r, (λ e. ground (arith, eq_iff r "")), ground (arith, eq_iff r r), held)
    | inr missing ↦ later_role r rs c (matches-HasRole rs c (rw missing at (rw named at h)))
  ]
]

HasRole-matches : (rs : List String) (c : Claims) → HasRole rs c → matches c (new_policy rs) ≡ true
unfolding any new_policy
HasRole-matches [] c (role, named, needed, held) = absurd (ground arith)
HasRole-matches (r ∷ rs) c (role, named, needed, held) = elim (Bool-cases (r == role)) [
  | inl same ↦
      let is_role : role ≡ r = sym ((eq_iff r role).0 same) in
      let held' : any (λ got. got == r) c.roles ≡ true =
        subst (λ x. any (λ got. got == x) c.roles ≡ true) is_role held in
      let named' : (r == "") ≡ false = ground (arith, eq_iff r "", eq_iff r role) in
      rw named' (rw held' refl)
  | inr other ↦
      let rest = HasRole-matches rs c (role, named, (rw other at needed), held) in
      ground (arith, rest)
]

new_policy-nil : (rs : List String) → All (λ r. r ≡ "") rs → new_policy rs ≡ []
unfolding new_policy
new_policy-nil [] h = refl
new_policy-nil (r ∷ rs) (e, h) = ground (arith, eq_iff r "", new_policy-nil rs h)

nil-new_policy : (rs : List String) → new_policy rs ≡ [] → All (λ r. r ≡ "") rs
unfolding new_policy
nil-new_policy [] h = tt
nil-new_policy (r ∷ rs) h = ground (arith, eq_iff r "", nil-new_policy rs)

authorize-some :
    (rs : List String) (c : Claims)
    → authorize (some rs) c ≡ true
    → (rs ≡ []) ⊎ (matches c rs ≡ true)
unfolding authorize
authorize-some [] c h = inl refl
authorize-some (r ∷ rs) c h = inr h

some-authorize :
    (rs : List String) (c : Claims) → matches c rs ≡ true → authorize (some rs) c ≡ true
unfolding authorize
some-authorize [] c h = refl
some-authorize (r ∷ rs) c h = h

-- A policy made from a list of roles lets claims in exactly if every listed role is empty, or the
-- claims name one of the listed roles that are not empty.
pub authorize-new_policy_iff :
    (rs : List String) (c : Claims)
    → (authorize (some (new_policy rs)) c ≡ true) ↔ (All (λ r. r ≡ "") rs ⊎ HasRole rs c)
authorize-new_policy_iff rs c = (
  λ h. elim (authorize-some (new_policy rs) c h) [
    | inl nothing ↦ inl (nil-new_policy rs nothing)
    | inr some_role ↦ inr (matches-HasRole rs c some_role)
  ],
  λ h. elim h [
    | inl blank ↦ rw (new_policy-nil rs blank) (unfold authorize in refl)
    | inr role ↦ some-authorize (new_policy rs) c (HasRole-matches rs c role)
  ],
)

module _ (verify : String → Option Claims) where
  -- The claims are those of a session that is visible under the request's cookie, or those of the
  -- token that the request bears.
  abbrev pub Identified : ℕ → Request → MemoryStore → Claims → Type 0
  Identified now r m c =
      ((id : String) × (s : Session) × (r.cookie ≡ some id)
        × (id ≢ "")
        × (visible now id m ≡ some s)
        × (c ≡ claims_of s))
      ⊎ (bearer_claims verify r.authorization ≡ some c)

  or_bearer_lem :
      (h : String) (p : Option Session × MemoryStore) (c : Claims)
      → (or_bearer verify h p).0 ≡ some c
      → ((s : Session) × (p.0 ≡ some s) × (c ≡ claims_of s)) ⊎ (bearer_claims verify h ≡ some c)
  or_bearer_lem h (some s, m) c e = inl (s, refl, some_claims e)
    where
      some_claims : {a b : Claims} → ◌≡◌ {A = Option Claims} (some a) (some b) → b ≡ a
      some_claims e = cc
  or_bearer_lem h (none, m) c e = inr e

  by_cookie-Identified :
      (now : ℕ) (r : Request) (o : Option String) (m : MemoryStore) (c : Claims)
      → r.cookie ≡ o
      → IsMap m
      → (by_cookie verify now o r.authorization m).0 ≡ some c
      → Identified now r m c
  by_cookie-Identified now r none m c same h e = inr e
  by_cookie-Identified now r (some id) m c same h e = elim (Bool-cases (id == "")) [
    | inl blank ↦ inr (rw blank at e)
    | inr some_id ↦
        elim (or_bearer_lem r.authorization (Session.get now id m) c (rw some_id at e)) [
          | inl (s, found, c_is) ↦ inl (
            id,
            s,
            same,
            (λ x. ground (arith, eq_iff id "")),
            sym (get-get now now id id m h (le_refl now)).0 ∙ found,
            c_is,
          )
          | inr token ↦ inr token
        ]
  ]

  resolve-Identified :
      (v : Verifier) (now : ℕ) (r : Request) (m : MemoryStore) (c : Claims)
      → v.skip_auth ≡ false
      → IsMap m
      → (resolve verify v now r m).0 ≡ some c
      → Identified now r m c
  unfolding resolve
  resolve-Identified v now r m c real h e = elim (Bool-cases v.sessions) [
    | inl cookies ↦
        by_cookie-Identified now r r.cookie m c refl h (rw cookies at (rw (real, resolve) at e))
    | inr tokens ↦ inr (rw tokens at (rw (real, resolve) at e))
  ]

  decided_lem :
      (policy : Option (List String)) (p : Option Claims × MemoryStore) (c : Claims)
      → (decided verify policy p).0 ≡ admitted c
      → (p.0 ≡ some c) × (authorize policy c ≡ true)
  decided_lem policy (none, m) c e = absurd (ground arith)
  decided_lem policy (some d, m) c e = elim (Bool-cases (authorize policy d)) [
    | inl yes_role ↦
        let same : d ≡ c = injected (rw yes_role at e) in
        (ap some same, subst (λ x. authorize policy x ≡ true) same yes_role)
    | inr no_role ↦ absurd (ground arith)
  ]
    where
      injected : {a b : Claims} → admitted a ≡ admitted b → a ≡ b
      injected e = cc

  -- Unless authentication is switched off, and where every id has one session: a request that is let
  -- in names a session that exists and has not expired, and carries that session's claims, or bears
  -- a token that verifies, and carries its claims; and the claims satisfy the policy.
  pub middleware-Identified :
      (v : Verifier) (now : ℕ) (r : Request) (m : MemoryStore) (c : Claims)
      → v.skip_auth ≡ false
      → IsMap m
      → (middleware verify v now r m).0 ≡ admitted c
      → Identified now r m c × (authorize v.policy c ≡ true)
  unfolding middleware
  middleware-Identified v now r m c real h e =
      let (found, fine) =
        decided_lem v.policy (resolve verify v now r m) c
          (ap (λ (p : Access × MemoryStore). p.0) (sym (if_false v.skip_auth _ _ real)) ∙ e) in
      (resolve-Identified v now r m c real h found, fine)
