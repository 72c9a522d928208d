-- ===== src/HttpApi/Worker.antt =====
-- services/control-plane/internal/httpapi/worker.go: what the worker pool is told to serve.
pub mod Served
use spinup.Prelude.{
  ℤ, pos, String, Bool, true, false, Option, none, some, List, [], ◌∷◌, map, Result, ok, err, find?,
  keep, if◌then◌else◌, ◌==◌,
}
use spinup.Store.{Application, Function, Build, runtime_worker_pool, StoreOps}
use spinup.World.{World}
use spinup.HttpApi.Dto.{WorkerAppEntry, is_succeeded, or_empty}
use spinup.HttpApi.Actions.{
  Claims, Response, json, Server, Action, pure, gets, ◌>>=◌, ◌>>◌, serve, require_auth, query,
  default_tenant,
}

abbrev image_of : Option Build → String
image_of none = ""
image_of (some b) = b.image_ref

module _ {S : Type 0} (ops : StoreOps S) where
  -- The image of the first succeeded build among the last 30.
  unfoldable pub latest_successful_image : S → String → String
  latest_successful_image s app_id =
      image_of (find? is_succeeded (or_empty (ops.list_builds app_id (pos 30) s)))

  unfoldable pub worker_entry : S → Application → String → WorkerAppEntry
  worker_entry s a image = record {
    id = a.app_id;
    name = a.name;
    language = a.language;
    image_ref = image;
    description = a.description;
    functions = map (λ f. (f.name, f.route)) (or_empty (ops.list_functions a.app_id s));
  }

  unfoldable pub worker_entries : S → List Application → List WorkerAppEntry
  unfolding latest_successful_image worker_entry
  worker_entries s [] = []
  worker_entries s (a ∷ apps) =
      let rest = worker_entries s apps in
      let image = latest_successful_image s a.app_id in
      if a.runtime == runtime_worker_pool
      then (if image == "" then rest else worker_entry s a image ∷ rest)
      else rest

module _ {S C Q : Type 0} (server : Server S C Q) (claims : Option Claims) where
  unfoldable pub get_worker_config : World S C → Response (List WorkerAppEntry) × World S C
  unfolding worker_entries
  get_worker_config = serve do
    require_auth claims
    apps ← query (server.store.list_applications default_tenant)
    entries ← gets (λ w. worker_entries server.store w.store apps)
    pure (json 200 entries)
