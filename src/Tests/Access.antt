-- ===== src/Tests/Access.antt =====
-- Examples for sessions, the middleware and the start of a build.
use spinup.Prelude.{
  ◌≡◌, refl, ◌↔◌, ◌⊎◌, String, true, false, none, some, [], ◌∷◌, All, arith, find?, any,
}
use spinup.Store.Sqlite.{sqlite}
use spinup.Session
use spinup.Session.{Session, MemoryStore, no_sessions}
use spinup.Session.Expiry.{IsMap, visible, get-get}
use spinup.Auth.{Request, Verifier, claims_of, authorize, new_policy, middleware}
use spinup.Auth.Guard.{HasRole, Identified, authorize-new_policy_iff, middleware-Identified}
use spinup.Builder.{Config}
use spinup.Builder.Start.{start}
use spinup.Builder.Start.Recorded.{Recorded, start-Recorded}
use spinup.Tests.{shop, cart, cart_source, kube, world, db}

abbrev ann : Session
ann = record {
  session_id = "s1";
  subject = "u1";
  email = "ann@example.org";
  groups = [];
  roles = "dev" ∷ [];
  created_at = 5;
  expires_at = 100;
  access_token = "";
}

abbrev store : MemoryStore
store = record { sessions = ann ∷ []; last_gc = 0 }

get-get_example :
    ((Session.get 10 "s1" store).0 ≡ visible 10 "s1" store)
    × (IsMap (Session.get 10 "s1" store).1)
    × ((Session.get 200 "s1" (Session.get 10 "s1" store).1).0 ≡ visible 200 "s1" store)
get-get_example = get-get 10 200 "s1" "s1" store (tt, tt) (ground arith)

authorize-new_policy_iff_example :
    (authorize (some (new_policy ("" ∷ "dev" ∷ []))) (claims_of ann) ≡ true)
    ↔ (All {A = String} (λ r. r ≡ "") ("" ∷ "dev" ∷ []) ⊎ HasRole ("" ∷ "dev" ∷ []) (claims_of ann))
authorize-new_policy_iff_example = authorize-new_policy_iff ("" ∷ "dev" ∷ []) (claims_of ann)

abbrev verifier : Verifier
verifier = record { skip_auth = false; sessions = true; policy = some ("dev" ∷ []) }

abbrev request : Request
request = record { cookie = some "s1"; authorization = "" }

middleware-Identified_example :
    Identified (λ token. none) 10 request store (claims_of ann)
    × (authorize (some ("dev" ∷ [])) (claims_of ann) ≡ true)
unfolding middleware Session.get find? any
middleware-Identified_example =
    middleware-Identified (λ token. none) verifier 10 request store (claims_of ann) refl (tt, tt)
      refl

abbrev config : Config
config = record {
  namespace = "apps";
  go_image = "builder-go";
  js_image = "builder-js";
  ts_image = "builder-ts";
  rust_image = "builder-rust";
  registry_url = "registry";
  auth_secret = "";
  image_pull_secrets = [];
}

start-Recorded_example : Recorded 7 true "a1" "b9" 7 db (
    start
      (sqlite true 7)
      kube
      config
      (λ c. true)
      (λ e. "refused")
      7
      "b9"
      shop
      (record { function = cart; source = cart_source } ∷ [])
      world)
start-Recorded_example =
    start-Recorded 7 true kube config (λ c. true) (λ e. "refused") shop "b9" 7
      (record { function = cart; source = cart_source } ∷ []) world
