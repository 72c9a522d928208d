-- ===== src/Session/Expiry.antt =====
-- Which sessions memory.go returns, and that its sweeps and deletions are not observed.
use mathlib.Core.Path.{subst}
use native.Mathlib.Nat.{le_refl}
use spinup.Prelude.{
  ◌≡◌, refl, ap, ◌∙◌, ◌≢◌, ℕ, ◌-◌, ◌≤◌, String, true, Option, none, some, List, [], ◌∷◌, arith, ltb,
  find?, if◌then◌else◌, ◌==◌, eq_iff, All, Bool-cases, Option-cases, inl, inr,
}
use spinup.Store.Table.{delete_where, Distinct}
use spinup.Store.Table.Keys.{Distinct-delete_where}
use spinup.Store.Table.Search.{find?-delete_where_covered, find?-delete_where_disjoint}
use spinup.Session.{
  Session, MemoryStore, minute, has_id, is_expired, put_session, create, delete, gc_locked, fetched,
  get,
}

-- Every id has one session.
abbrev pub IsMap : MemoryStore → Type 0
IsMap m = Distinct (λ s u. s.session_id ≢ u.session_id) m.sessions

-- What a reader should see: the session with the id, unless it has expired.
abbrev pub live : ℕ → Option Session → Option Session
live now none = none
live now (some s) = if is_expired now s then none else some s

abbrev pub visible : ℕ → String → MemoryStore → Option Session
visible now id m = live now (find? (has_id id) m.sessions)

find?-other :
    (x : Session) (xs : List Session) (id : String)
    → All (λ u. x.session_id ≢ u.session_id) xs
    → (x.session_id == id) ≡ true
    → find? (has_id id) xs ≡ none
unfolding find?
find?-other x [] id h e = refl
find?-other x (y ∷ ys) id (p, h) e =
    ground (arith, eq_iff x.session_id id, eq_iff y.session_id id, find?-other x ys id h e)

-- Dropping what has expired is not seen, then or later.
sweep_lem :
    (now later : ℕ) (id : String) (xs : List Session)
    → now ≤ later
    → Distinct (λ s u. s.session_id ≢ u.session_id) xs
    → live later (find? (has_id id) (delete_where (is_expired now) xs))
      ≡ live later (find? (has_id id) xs)
unfolding find? delete_where
sweep_lem now later id [] l h = refl
sweep_lem now later id (x ∷ xs) l (p, h) =
    let rest = sweep_lem now later id xs l h in
    elim (Bool-cases (x.session_id == id)) [
      | inl hit ↦
          let nothing = find?-other x xs id p hit in
          elim (Bool-cases (is_expired now x)) [
            | inl old ↦
                let older : is_expired later x ≡ true = ground arith in
                rw old (rw hit (rw older (rest ∙ ap (live later) nothing)))
            | inr new ↦ rw new (rw hit refl)
          ]
      | inr miss ↦ elim (Bool-cases (is_expired now x)) [
        | inl old ↦ rw old (rw miss rest)
        | inr new ↦ rw new (rw miss rest)
      ]
    ]

gc_locked-visible :
    (now later : ℕ) (id : String) (m : MemoryStore)
    → now ≤ later
    → IsMap m
    → visible later id (gc_locked now m) ≡ visible later id m
unfolding gc_locked
gc_locked-visible now later id m l h = elim (Bool-cases (ltb (now - m.last_gc) minute)) [
  | inl recent ↦ rw recent refl
  | inr due ↦ rw due (sweep_lem now later id m.sessions l h)
]

gc_locked-IsMap : (now : ℕ) (m : MemoryStore) → IsMap m → IsMap (gc_locked now m)
unfolding gc_locked
gc_locked-IsMap now m h = elim (Bool-cases (ltb (now - m.last_gc) minute)) [
  | inl recent ↦ rw recent h
  | inr due ↦ rw due (Distinct-delete_where _ (is_expired now) m.sessions h)
]

fetched_lem :
    (now : ℕ) (id : String) (o : Option Session) (m : MemoryStore)
    → (fetched now id o m).0 ≡ live now o
fetched_lem now id none m = refl
fetched_lem now id (some s) m = ground arith

-- What a read deletes is not seen, then or later.
fetched-visible :
    (now later : ℕ) (id other : String) (m : MemoryStore)
    → now ≤ later
    → visible later other (fetched now id (find? (has_id id) m.sessions) m).1
      ≡ visible later other m
unfolding delete
fetched-visible now later id other m l = elim (Option-cases (find? (has_id id) m.sessions)) [
  | inl gone ↦ rw gone refl
  | inr (s, found) ↦ elim (Bool-cases (is_expired now s)) [
    | inr new ↦ rw found (rw new refl)
    | inl old ↦ elim (Bool-cases (id == other)) [
      | inl same ↦
          let older : is_expired later s ≡ true = ground arith in
          subst
            (λ o.
              visible later o (fetched now id (find? (has_id id) m.sessions) m).1
              ≡ visible later o m)
            ((eq_iff id other).0 same)
            (rw found (
              rw old (
                rw (find?-delete_where_covered (has_id id) (has_id id) m.sessions (λ x h. h))
                  (rw older refl))))
      | inr different ↦ rw found (
          rw old (
            rw
              (find?-delete_where_disjoint (has_id other) (has_id id) m.sessions (λ x h.
                ground (arith, eq_iff x.session_id id, eq_iff x.session_id other, eq_iff id other)))
              refl))
    ]
  ]
]

fetched-IsMap :
    (now : ℕ) (id : String) (o : Option Session) (m : MemoryStore)
    → IsMap m
    → IsMap (fetched now id o m).1
unfolding delete
fetched-IsMap now id none m h = h
fetched-IsMap now id (some s) m h = elim (Bool-cases (is_expired now s)) [
  | inl old ↦ rw old (Distinct-delete_where _ (has_id id) m.sessions h)
  | inr new ↦ rw new h
]

get-IsMap : (now : ℕ) (id : String) (m : MemoryStore) → IsMap m → IsMap (get now id m).1
unfolding get
get-IsMap now id m h =
    fetched-IsMap now id (find? (has_id id) (gc_locked now m).sessions) (gc_locked now m)
      (gc_locked-IsMap now m h)

get_lem : (now : ℕ) (id : String) (m : MemoryStore) → IsMap m → (get now id m).0 ≡ visible now id m
unfolding get
get_lem now id m h =
    fetched_lem now id (find? (has_id id) (gc_locked now m).sessions) (gc_locked now m)
    ∙ gc_locked-visible now now id m (le_refl now) h

get-unseen :
    (now later : ℕ) (id other : String) (m : MemoryStore)
    → now ≤ later
    → IsMap m
    → visible later other (get now id m).1 ≡ visible later other m
unfolding get
get-unseen now later id other m l h =
    fetched-visible now later id other (gc_locked now m) l ∙ gc_locked-visible now later other m l h

-- Where every id has one session, a read returns the session with the id exactly if there is one
-- that has not expired, whether or not the read sweeps first; and what it sweeps or deletes is not
-- seen by any read that follows, at the same time or later.
pub get-get :
    (now later : ℕ) (id other : String) (m : MemoryStore)
    → IsMap m
    → now ≤ later
    → ((get now id m).0 ≡ visible now id m)
      × (IsMap (get now id m).1)
      × ((get later other (get now id m).1).0 ≡ visible later other m)
get-get now later id other m h l = (
  get_lem now id m h,
  get-IsMap now id m h,
  get_lem later other (get now id m).1 (get-IsMap now id m h) ∙ get-unseen now later id other m l h,
)

put_session-All :
    (P : Session → Type 0) (s : Session) (xs : List Session)
    → P s
    → All P xs
    → All P (put_session s xs)
unfolding put_session
put_session-All P s [] p h = (p, tt)
put_session-All P s (x ∷ xs) p (q, h) = ground (arith, put_session-All P s xs p h)

put_session-Distinct :
    (s : Session) (xs : List Session)
    → Distinct (λ a b. a.session_id ≢ b.session_id) xs
    → Distinct (λ a b. a.session_id ≢ b.session_id) (put_session s xs)
unfolding put_session
put_session-Distinct s [] h = (tt, tt)
put_session-Distinct s (x ∷ xs) (p, h) = elim (Bool-cases (x.session_id == s.session_id)) [
  | inl same ↦
      rw same (
        subst (λ i. All (λ u. i ≢ u.session_id) xs) ((eq_iff x.session_id s.session_id).0 same) p,
        h,
      )
  | inr differs ↦
      let fresh : x.session_id ≢ s.session_id =
        (λ e. ground (arith, eq_iff x.session_id s.session_id)) in
      rw differs (
        put_session-All (λ u. x.session_id ≢ u.session_id) s xs fresh p,
        put_session-Distinct s xs h,
      )
]

find?-put_session :
    (s : Session) (xs : List Session) → find? (has_id s.session_id) (put_session s xs) ≡ some s
unfolding find? put_session
find?-put_session s [] = ground (arith, eq_iff s.session_id s.session_id)
find?-put_session s (x ∷ xs) =
    ground (arith, eq_iff s.session_id s.session_id, find?-put_session s xs)

-- Where every id has one session, this stays so when a session is created; the new session is read
-- back until its expiry and not after it, and once it is deleted it is not read at all.
pub create-get :
    (now : ℕ) (s : Session) (m : MemoryStore)
    → IsMap m
    → IsMap (create s m)
      × ((get now s.session_id (create s m)).0 ≡ (if ltb s.expires_at now then none else some s))
      × ((get now s.session_id (delete s.session_id (create s m))).0 ≡ none)
unfolding create delete
create-get now s m h =
    let kept = put_session-Distinct s m.sessions h in
    (
      kept,
      get_lem now s.session_id (create s m) kept ∙ ap (live now) (find?-put_session s m.sessions),
      get_lem now s.session_id (delete s.session_id (create s m))
            (Distinct-delete_where _ (has_id s.session_id) (put_session s m.sessions) kept)
          ∙ ap (live now) (
              find?-delete_where_covered (has_id s.session_id) (has_id s.session_id)
                (put_session s m.sessions) (λ x e. e)),
    )
