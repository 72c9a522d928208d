-- ===== src/HttpApi/Api.antt =====
-- The routes of services/control-plane/internal/httpapi/server.go whose handlers write, and sequences
-- of requests to them. Each request has the time of its statements, the claims that the middleware
-- found, new ids where the handler takes one, and its decoded body.
pub mod Apps
pub mod Rest
pub mod Consistent
use spinup.Prelude.{ℕ, String, Bool, true, Option, List, [], ◌∷◌}
use spinup.Store.Sqlite.{Db, sqlite}
use spinup.World.{World}
use spinup.Archive.{Files, Entry}
use spinup.Builder.{Config, StartError}
use spinup.HttpApi.Dto.{
  CreateApplicationInput, UpdateApplicationInput, DeployInput, CreateFunctionInput,
}
use spinup.HttpApi.Actions.{Claims, Response, status_of, Server}
use spinup.HttpApi.Applications.{
  create_application, update_application, delete_application, deploy_application,
}
use spinup.HttpApi.Functions.{create_function, update_function, delete_function}
use spinup.HttpApi.Builds.{put_source, import_source, start_build}

pub data Route : Type 0 where
  post_application : String → String → Option CreateApplicationInput → Route
  patch_application : String → Option UpdateApplicationInput → Route
  remove_application : String → Route
  post_deploy : String → Option DeployInput → Route
  post_function : String → String → Option CreateFunctionInput → Route
  put_function : String → String → Option String → Route
  remove_function : String → String → Route
  put_files : String → String → Option Files → Route
  post_archive : String → String → Option (List Entry) → Route
  post_build : String → String → Route

abbrev answered : {A W : Type 0} → Response A × W → ℕ × W
answered (r, w) = (status_of r, w)

-- The builder's settings, and how the reasons of failed builds are written.
pub record Settings : Type 0 where
  pub builder : Config
  pub is_print : ℕ → Bool
  pub reason : StartError → String

module _ {C Q : Type 0} (server : Server Db C Q) (set : Settings) where
  -- The server at the time of one request, on connections that enforce foreign keys.
  abbrev pub at_time : ℕ → Server Db C Q
  at_time t = record server { store = sqlite true t }

  unfoldable pub handle : ℕ → Option Claims → Route → World Db C → ℕ × World Db C
  unfolding create_application update_application delete_application deploy_application
      create_function update_function delete_function put_source import_source start_build
  handle t c (post_application id fn_id body) w =
      answered (create_application (at_time t) c id fn_id body w)
  handle t c (patch_application id body) w = answered (update_application (at_time t) c id body w)
  handle t c (remove_application id) w = answered (delete_application (at_time t) c id w)
  handle t c (post_deploy id body) w = answered (deploy_application (at_time t) c id body w)
  handle t c (post_function id app_id body) w =
      answered (create_function (at_time t) c id app_id body w)
  handle t c (put_function app_id fn_id route) w =
      answered (update_function (at_time t) c app_id fn_id route w)
  handle t c (remove_function app_id fn_id) w =
      answered (delete_function (at_time t) c app_id fn_id w)
  handle t c (put_files app_id fn_id files) w =
      answered (put_source (at_time t) c app_id fn_id files w)
  handle t c (post_archive app_id fn_id entries) w =
      answered (import_source (at_time t) c app_id fn_id t entries w)
  handle t c (post_build id app_id) w =
      answered (start_build (at_time t) c set.builder set.is_print set.reason t id app_id w)

  -- One request after the other.
  unfoldable pub handle_all : List (ℕ × Option Claims × Route) → World Db C → World Db C
  unfolding handle
  handle_all [] w = w
  handle_all ((t, c, r) ∷ rs) w = handle_all rs (handle t c r w).1
