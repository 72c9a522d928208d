-- ===== src/Auth/Login/Ended.antt =====
-- What handleLogout of oauth.go leaves of a session.
use native.Mathlib.Nat.{le_refl}
use spinup.Prelude.{
  ◌≡◌, refl, ap, ◌∙◌, ◌≢◌, ℕ, String, false, Option, none, some, arith, ◌==◌, eq_iff, Bool-cases,
  inl, inr,
}
use spinup.Store.Table.Keys.{Distinct-delete_where}
use spinup.Store.Table.Search.{find?-delete_where_covered, find?-delete_where_disjoint}
use spinup.Session
use spinup.Session.{Session, MemoryStore, has_id}
use spinup.Session.Expiry.{IsMap, visible, live, get-get}
use spinup.HttpApi.Actions.{Claims}
use spinup.Auth.{Request, Verifier, bearer_claims, resolve, or_bearer}
use spinup.Auth.Login.{handle_logout}
use spinup.Auth.Oauth.{AuthRequest, OAuth, cookie_of, session_cookie_name}

or_bearer-none :
    (verify : String → Option Claims) (h : String) (p : Option Session × MemoryStore)
    → p.0 ≡ none
    → (or_bearer verify h p).0 ≡ bearer_claims verify h
or_bearer-none verify h (some s, m) e = absurd cc
or_bearer-none verify h (none, m) e = refl

deleted-none :
    (later : ℕ) (id : String) (m : MemoryStore)
    → IsMap m
    → (Session.get later id (Session.delete id m)).0 ≡ none
unfolding Session.delete
deleted-none later id m h =
    (get-get later later id id (Session.delete id m)
      (Distinct-delete_where _ (has_id id) m.sessions h) (le_refl later)).0
    ∙ ap (live later) (find?-delete_where_covered (has_id id) (has_id id) m.sessions (λ x e. e))

deleted-visible :
    (later : ℕ) (id other : String) (m : MemoryStore)
    → id ≢ other
    → visible later other (Session.delete id m) ≡ visible later other m
unfolding Session.delete
deleted-visible later id other m differ = ap (live later) (
    find?-delete_where_disjoint (has_id other) (has_id id) m.sessions
      (λ x h. ground (arith, eq_iff x.session_id id, eq_iff x.session_id other, eq_iff id other)))

resolve-deleted :
    (verify : String → Option Claims) (v : Verifier) (later : ℕ) (id : String) (r : Request)
    (m : MemoryStore)
    → IsMap m
    → r.cookie ≡ some id
    → v.skip_auth ≡ false
    → (resolve verify v later r (Session.delete id m)).0 ≡ bearer_claims verify r.authorization
unfolding resolve
resolve-deleted verify v later id r m h c on = elim (Bool-cases v.sessions) [
  | inr off ↦ rw (on, off) refl
  | inl looked_up ↦ elim (Bool-cases (id == "")) [
    | inl blank ↦ rw (on, looked_up, c, blank) refl
    | inr named ↦
        rw (on, looked_up, c, named)
          (or_bearer-none verify r.authorization (Session.get later id (Session.delete id m))
            (deleted-none later id m h))
  ]
]

-- After a logout the cookie that came with it identifies nobody: a later request is resolved as if it
-- bore no cookie. Every session under another id is visible as before.
pub handle_logout_lem :
    (verify : String → Option Claims) (oa : OAuth) (v : Verifier) (later : ℕ) (id other : String)
    (r : AuthRequest) (next : Request) (m : MemoryStore)
    → IsMap m
    → cookie_of session_cookie_name r.cookies ≡ some id
    → next.cookie ≡ some id
    → v.skip_auth ≡ false
    → id ≢ other
    → ((resolve verify v later next (handle_logout oa r m).1).0
        ≡ bearer_claims verify next.authorization)
      × (visible later other (handle_logout oa r m).1 ≡ visible later other m)
unfolding handle_logout
handle_logout_lem verify oa v later id other r next m h c d on differ =
    rw c (resolve-deleted verify v later id next m h d on, deleted-visible later id other m differ)
