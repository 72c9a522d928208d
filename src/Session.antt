-- ===== src/Session.antt =====
-- services/control-plane/internal/session/session.go and memory.go: sessions in memory. A time is a
-- number of nanoseconds; the map of sessions is a list with one entry for an id. The mutex makes
-- each method one step.
pub mod Expiry
use spinup.Prelude.{
  ℕ, ◌-◌, ◌*◌, ◌^◌, String, Bool, Option, none, some, List, [], ◌∷◌, ltb, find?, if◌then◌else◌,
  ◌==◌,
}
use spinup.Store.Table.{delete_where}

pub record Session : Type 0 where
  pub session_id : String
  pub subject : String
  pub email : String
  pub groups : List String
  pub roles : List String
  pub created_at : ℕ
  pub expires_at : ℕ
  pub access_token : String

pub record MemoryStore : Type 0 where
  pub sessions : List Session
  pub last_gc : ℕ

abbrev pub no_sessions : MemoryStore
no_sessions = record { sessions = []; last_gc = 0 }

abbrev pub minute : ℕ
minute = 60 * 10 ^ 9

-- m.sessions[id]
abbrev pub has_id : String → Session → Bool
has_id id s = s.session_id == id

-- now.After(s.ExpiresAt)
abbrev pub is_expired : ℕ → Session → Bool
is_expired now s = ltb s.expires_at now

-- m.sessions[s.ID] = s
unfoldable pub put_session : Session → List Session → List Session
put_session s [] = s ∷ []
put_session s (x ∷ xs) =
    let rest = put_session s xs in if x.session_id == s.session_id then s ∷ xs else x ∷ rest

unfoldable pub create : Session → MemoryStore → MemoryStore
unfolding put_session
create s m = record m { sessions = put_session s m.sessions }

unfoldable pub delete : String → MemoryStore → MemoryStore
delete id m = record m { sessions = delete_where (has_id id) m.sessions }

-- The sweep, at most once a minute.
unfoldable pub gc_locked : ℕ → MemoryStore → MemoryStore
gc_locked now m =
    if ltb (now - m.last_gc) minute
    then m
    else record { sessions = delete_where (is_expired now) m.sessions; last_gc = now }

abbrev pub fetched : ℕ → String → Option Session → MemoryStore → Option Session × MemoryStore
fetched now id none m = (none, m)
fetched now id (some s) m = if is_expired now s then (none, delete id m) else (some s, m)

unfoldable pub get : ℕ → String → MemoryStore → Option Session × MemoryStore
unfolding delete gc_locked
get now id m =
    let swept = gc_locked now m in fetched now id (find? (has_id id) swept.sessions) swept
