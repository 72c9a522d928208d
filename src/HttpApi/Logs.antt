-- ===== src/HttpApi/Logs.antt =====
-- services/control-plane/internal/httpapi/logs.go, `getBuildLogs` of builds.go, and `PodLogsByLabel`
-- and `Logs` of builder/builder.go: logs of pods as they are streamed. Parameters: the list of the
-- pods with a label, the log of a pod as the chunks that are read, and how many writes reach the
-- client. `tail` is the query parameter where it is a 64-bit number.
pub mod Owned
use Prim.Native.String
use spinup.Prelude.{
  ℕ, zero, suc, ℤ, pos, negsuc, String, Bool, true, false, not, Option, none, some, List, [], ◌∷◌,
  Result, ok, err, ltb, if◌then◌else◌, ◌==◌,
}
use spinup.Store.{Application, Build, runtime_worker_pool}
use spinup.World.{World}
use spinup.HttpApi.Actions.{
  Claims, Response, json, Server, Action, pure, reject, ◌>>=◌, ◌>>◌, require, serve, require_auth,
  recover, not_found_or_500, load_application,
}

pub record LogOptions : Type 0 where
  pub follow : Bool
  pub tail_lines : Option ℤ

-- The names of the pods with a label, and a pod's log; an error ends a request.
pub record Pods : Type 0 where
  pub list : String → Result String (List String)
  pub logs : String → LogOptions → Result String (List String)

abbrev pub opened : Result String (List String) → Result String (Option (List String))
opened (ok stream) = ok (some stream)
opened (err e) = err e

-- The log of the first pod, if there is a pod.
unfoldable pub first_log :
    Pods → LogOptions → Result String (List String) → Result String (Option (List String))
first_log pods opts (err e) = err e
first_log pods opts (ok []) = ok none
first_log pods opts (ok (pod ∷ others)) = opened (pods.logs pod opts)

abbrev positive_only : ℤ → Option ℤ
positive_only (pos zero) = none
positive_only (pos (suc n)) = some (pos (suc n))
positive_only (negsuc n) = none

unfoldable pub pod_logs_by_label : Pods → String → Bool → ℤ → Result String (Option (List String))
unfolding first_log
pod_logs_by_label pods selector follow tail =
    first_log pods (record { follow = follow; tail_lines = positive_only tail })
      (pods.list selector)

unfoldable pub builder_logs : Pods → String → Bool → Result String (Option (List String))
unfolding first_log
builder_logs pods build_id follow =
    first_log pods (record { follow = follow; tail_lines = none })
      (pods.list (String.◌++◌ "spinup.emdzej.pl/build-id=" build_id))

-- What reaches the client: chunks that are not empty, until a write fails.
unfoldable pub copied : ℕ → List String → List String
copied zero chunks = []
copied (suc n) [] = []
copied (suc n) (c ∷ chunks) = if c == "" then copied (suc n) chunks else c ∷ copied n chunks

unfoldable pub wanted_tail : Option ℤ → ℤ
wanted_tail none = pos 200
wanted_tail (some (pos zero)) = pos 200
wanted_tail (some (pos (suc n))) = pos (suc n)
wanted_tail (some (negsuc n)) = pos 200

module _ {S C Q : Type 0} (server : Server S C Q) (pods : Pods) (claims : Option Claims)
    (writes : ℕ) where
  abbrev W : Type 0
  W = World S C

  abbrev streamed :
      String → Result String (Option (List String)) → Action W (List String) (List String)
  streamed missing (err e) = reject 503 (String.◌++◌ "logs unavailable: " e)
  streamed missing (ok none) = reject 202 missing
  streamed missing (ok (some chunks)) = pure chunks

  -- A line feed is written first, so that the reply begins before there is a log.
  unfoldable pub get_application_logs : String → Bool → Option ℤ → W → Response (List String) × W
  unfolding load_application pod_logs_by_label wanted_tail copied
  get_application_logs app_id follow tail = serve do
    require_auth claims
    app ← load_application server.store app_id
    require (not (app.runtime == runtime_worker_pool)) 501
        "logs for workerpool apps not yet surfaced — check the spinup-worker pod's stdout"
    chunks ← streamed "no running pod for this application yet" (
        pod_logs_by_label pods (String.◌++◌ "core.spinkube.dev/app-name=" app.name) follow
          (wanted_tail tail))
    pure (json 200 (copied writes ("\n" ∷ chunks)))

  unfoldable pub get_build_logs : String → String → Bool → W → Response (List String) × W
  unfolding load_application builder_logs copied
  get_build_logs app_id build_id follow = serve do
    require_auth claims
    app ← load_application server.store app_id
    b ← λ w.
        recover (server.store.get_build app.app_id build_id w.store) (not_found_or_500 "not found")
          pure w
    chunks ← streamed "no pod for build yet" (builder_logs pods build_id follow)
    pure (json 200 (copied writes chunks))
