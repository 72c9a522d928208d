-- ===== src/HttpApi/Api/Consistent.antt =====
-- Sequences of requests keep the tables consistent.
use spinup.Prelude.{ℕ, Option, List, [], ◌∷◌}
use spinup.Store.Sqlite.{Db}
use spinup.Store.Sqlite.Integrity.{IsConsistent}
use spinup.World.{World}
use spinup.HttpApi.Actions.{Claims, Server}
use spinup.HttpApi.Api.{
  Route, post_application, patch_application, remove_application, post_deploy, post_function,
  put_function, remove_function, put_files, post_archive, post_build, Settings, handle, handle_all,
}
use spinup.HttpApi.Api.Apps.{
  create_application-Keeps, update_application-Keeps, delete_application-Keeps,
  deploy_application-Keeps,
}
use spinup.HttpApi.Api.Rest.{
  create_function-Keeps, update_function-Keeps, delete_function-Keeps, put_source-Keeps,
  import_source-Keeps, start_build-Keeps,
}

module _ {C Q : Type 0} (server : Server Db C Q) (set : Settings) where
  handle-IsConsistent :
      (t : ℕ) (c : Option Claims) (r : Route) (w : World Db C)
      → IsConsistent w.store
      → IsConsistent (handle server set t c r w).1.store
  unfolding handle
  handle-IsConsistent t c (post_application id fn_id body) w h =
      create_application-Keeps server t c id fn_id body w h
  handle-IsConsistent t c (patch_application id body) w h =
      update_application-Keeps server t c id body w h
  handle-IsConsistent t c (remove_application id) w h = delete_application-Keeps server t c id w h
  handle-IsConsistent t c (post_deploy id body) w h =
      deploy_application-Keeps server t c id body w h
  handle-IsConsistent t c (post_function id app_id body) w h =
      create_function-Keeps server t c id app_id body w h
  handle-IsConsistent t c (put_function app_id fn_id route) w h =
      update_function-Keeps server t c app_id fn_id route w h
  handle-IsConsistent t c (remove_function app_id fn_id) w h =
      delete_function-Keeps server t c app_id fn_id w h
  handle-IsConsistent t c (put_files app_id fn_id files) w h =
      put_source-Keeps server t c app_id fn_id files w h
  handle-IsConsistent t c (post_archive app_id fn_id entries) w h =
      import_source-Keeps server t c app_id fn_id t entries w h
  handle-IsConsistent t c (post_build id app_id) w h =
      start_build-Keeps server t c set.builder set.is_print set.reason t id app_id w h

  -- From consistent tables, any sequence of requests to the routes that write, with or without claims
  -- and whatever they are answered, leads to consistent tables: unique keys, valid references and
  -- positive replica counts.
  pub handle_all-IsConsistent :
      (rs : List (ℕ × Option Claims × Route)) (w : World Db C)
      → IsConsistent w.store
      → IsConsistent (handle_all server set rs w).store
  unfolding handle_all
  handle_all-IsConsistent [] w h = h
  handle_all-IsConsistent ((t, c, r) ∷ rs) w h =
      handle_all-IsConsistent rs (handle server set t c r w).1 (handle-IsConsistent t c r w h)
