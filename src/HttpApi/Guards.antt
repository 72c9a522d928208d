-- ===== src/HttpApi/Guards.antt =====
-- What every handler does before anything else.
use spinup.Prelude.{◌≡◌, refl, ℕ, ℤ, String, Bool, Option, none, List}
use spinup.World.{World}
use spinup.Archive.{Files, Entry}
use spinup.Builder.{Config, StartError}
use spinup.HttpApi.Dto.{
  CreateApplicationInput, UpdateApplicationInput, DeployInput, CreateFunctionInput,
}
use spinup.HttpApi.Actions.{Response, failed, plain, Server}
use spinup.HttpApi.Applications.{
  list_applications, create_application, get_application, update_application, delete_application,
  deploy_application,
}
use spinup.HttpApi.Functions.{
  create_function, list_functions, update_function, get_function, delete_function,
}
use spinup.HttpApi.Builds.{
  get_source, put_source, list_builds, start_build, get_build, export_source, import_source,
}
use spinup.HttpApi.Worker.{get_worker_config}

-- The reply is 401 and nothing has changed.
abbrev pub Denied : {S C A : Type 0} → World S C → Response A × World S C → Type 0
Denied w reply = reply ≡ (failed 401 (plain "unauthenticated"), w)

module _ {S C Q : Type 0} (server : Server S C Q) (w : World S C) where
  -- A request without claims is answered with 401 by every handler that changes applications,
  -- functions, sources or builds, and changes neither the store, the cluster nor a counter.
  pub unauthenticated-writes :
      (id fn_id : String) (app : Option CreateApplicationInput)
      (change : Option UpdateApplicationInput) (fn : Option CreateFunctionInput)
      (route : Option String) (files : Option Files) (archive : Option (List Entry))
      (image : Option DeployInput) (cfg : Config) (is_print : ℕ → Bool) (text : StartError → String)
      (now : ℕ)
      → Denied w (create_application server none id fn_id app w)
        × Denied w (update_application server none id change w)
        × Denied w (delete_application server none id w)
        × Denied w (deploy_application server none id image w)
        × Denied w (create_function server none fn_id id fn w)
        × Denied w (update_function server none id fn_id route w)
        × Denied w (delete_function server none id fn_id w)
        × Denied w (put_source server none id fn_id files w)
        × Denied w (import_source server none id fn_id now archive w)
        × Denied w (start_build server none cfg is_print text now fn_id id w)
  unfolding create_application update_application delete_application deploy_application
      create_function update_function delete_function put_source import_source start_build
  unauthenticated-writes id fn_id app change fn route files archive image cfg is_print text now =
      (refl, refl, refl, refl, refl, refl, refl, refl, refl, refl)

  -- A request without claims is answered with 401 by every handler that reads applications,
  -- functions, sources or builds, and so learns nothing of what is stored.
  pub unauthenticated-reads :
      (id other : String) (limit : Option ℤ)
      → Denied w (list_applications server none w)
        × Denied w (get_application server none id w)
        × Denied w (list_functions server none id w)
        × Denied w (get_function server none id other w)
        × Denied w (get_source server none id other w)
        × Denied w (export_source server none id other w)
        × Denied w (list_builds server none id limit w)
        × Denied w (get_build server none id other w)
        × Denied w (get_worker_config server none w)
  unfolding list_applications get_application list_functions get_function get_source export_source
      list_builds get_build get_worker_config
  unauthenticated-reads id other limit = (refl, refl, refl, refl, refl, refl, refl, refl, refl)
