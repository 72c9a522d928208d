-- ===== src/Auth/Login/Steps.antt =====
-- The steps of a callback of oauth.go: what one that goes on has checked.
use spinup.Prelude.{
  ◌≡◌, refl, sym, ap, ◌∙◌, ◌≢◌, inl, inr, ℕ, ◌≤◌, String, Bool, true, false, Option, none, some,
  arith, Result, ok, err, ◌>>=◌, ok-injective, ◌==◌, eq_iff, Bool-cases,
}
use spinup.Auth.Login.{explained, needed, demand, valid_state}
use spinup.Auth.Oauth.{
  AuthRequest, AuthReply, error_reply, redirected, end_session, no_content, described_user,
  cookie_of, state_cookie_name,
}

abbrev pub IsRefusal : AuthReply → Type 0
IsRefusal (error_reply status message) = 400 ≤ status
IsRefusal (redirected url) = ⊥
IsRefusal (end_session url) = ⊥
IsRefusal no_content = ⊥
IsRefusal (described_user u) = ⊥

-- A step that ends a request only with an error.
abbrev pub OnlyRefuses : {A : Type 0} → Result AuthReply A → Type 0
OnlyRefuses {A} (ok a) = Unit
OnlyRefuses {A} (err reply) = IsRefusal reply

pub then-OnlyRefuses :
    {A B : Type 0} (first : Result AuthReply A) (next : A → Result AuthReply B)
    → OnlyRefuses first
    → ((a : A) → OnlyRefuses (next a))
    → OnlyRefuses (first >>= next)
then-OnlyRefuses (ok a) next h k = k a
then-OnlyRefuses (err reply) next h k = h

pub explained-OnlyRefuses :
    {A : Type 0} (status : ℕ) (prefix : String) (r : Result String A)
    → 400 ≤ status
    → OnlyRefuses (explained status prefix r)
explained-OnlyRefuses status prefix (ok a) h = tt
explained-OnlyRefuses status prefix (err e) h = h

pub needed-OnlyRefuses :
    (reply : AuthReply) (o : Option String) → IsRefusal reply → OnlyRefuses (needed reply o)
needed-OnlyRefuses reply none h = h
needed-OnlyRefuses reply (some v) h = elim (Bool-cases (v == "")) [
  | inl blank ↦ rw blank h
  | inr filled ↦ rw filled tt
]

pub demand-OnlyRefuses :
    (b : Bool) (reply : AuthReply) → IsRefusal reply → OnlyRefuses (demand b reply)
demand-OnlyRefuses true reply h = tt
demand-OnlyRefuses false reply h = h

pub needed-ok :
    (reply : AuthReply) (o : Option String) (v : String)
    → needed reply o ≡ ok v
    → (o ≡ some v) × (v ≢ "")
needed-ok reply none v h = absurd cc
needed-ok reply (some x) v h = elim (Bool-cases (x == "")) [
  | inl blank ↦ absurd (blank_err (rw blank at h))
  | inr filled ↦
      let same : x ≡ v = ok-injective (rw filled at h) in
      (ap some same, (λ e. ground (arith, eq_iff x "", same ∙ e)))
]
  where
    blank_err : ◌≡◌ {A = Result AuthReply String} (err reply) (ok v) → ⊥
    blank_err e = cc

pub explained-ok :
    {A : Type 0} (status : ℕ) (prefix : String) (r : Result String A) (a : A)
    → explained status prefix r ≡ ok a
    → r ≡ ok a
explained-ok status prefix (ok x) a h = ap ok (ok-injective h)
explained-ok status prefix (err e) a h = absurd cc

pub demand-ok : (b : Bool) (reply : AuthReply) {u : Unit {0}} → demand b reply ≡ ok u → b ≡ true
demand-ok true reply h = refl
demand-ok false reply h = absurd cc

-- The state that the request names is the one of its cookie.
abbrev pub StateMatches : AuthRequest → Type 0
StateMatches r =
    (cookie_of state_cookie_name r.cookies ≡ some (r.query "state")) × (r.query "state" ≢ "")

pub valid_state-StateMatches :
    (given : String) (o : Option String)
    → valid_state given o ≡ true
    → (o ≡ some given) × (given ≢ "")
unfolding valid_state
valid_state-StateMatches given none h = absurd cc
valid_state-StateMatches given (some v) h = elim (Bool-cases (v == "")) [
  | inl blank ↦ absurd (ground arith)
  | inr filled ↦
      let same : given ≡ v = (eq_iff given v).0 (rw filled at h) in
      (ap some (sym same), (λ e. ground (arith, eq_iff v "", sym same ∙ e)))
]
