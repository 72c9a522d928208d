-- ===== src/Tests/Handlers.antt =====
-- Examples for the handlers of internal/httpapi.
use spinup.Prelude.{
  ℕ, Option, List, ◌≡◌, refl, ◌≢◌, ◌↔◌, ◌≤◌, pos, String, true, false, none, some, [], ◌∷◌, ok, All,
  any, arith, eq_iff, keep, find?, ◌==◌,
}
use spinup.Store.{Application, build_succeeded}
use spinup.Store.Sqlite
use spinup.Store.Sqlite.{Db, sqlite, page_size, stamped_application, stamped_function}
use spinup.Store.Sqlite.Integrity.{IsConsistent}
use spinup.HttpApi.Names.{dns1123, dns1123_iff, IsLabel, BeginsWell, EndsWell, size}
use spinup.HttpApi.Dto.{UpdateApplicationInput, CreateApplicationInput}
use spinup.HttpApi.Actions.{json, load_application, load_function}
use spinup.Store.Table.{order_by}
use spinup.Text.{has_prefix, contains}
use spinup.Builder.{Config}
use spinup.HttpApi.Applications.{
  reconcile, update_application, is_language, is_runtime, create_application, new_application,
  default_function,
}
use spinup.Policy
use spinup.SpinApp
use spinup.HttpApi.Applications.Updated.{Updated, update_application-Updated}
use spinup.HttpApi.Applications.Created.{create_application_lem}
use spinup.HttpApi.Functions.Last.{HasFunction, store_after, delete_function-HasFunction}
use spinup.HttpApi.Builds.{list_builds, clamp_limit, get_source, put_source, good_paths, is_empty}
use spinup.HttpApi.Builds.Pages.{list_builds-bounded, listed}
use spinup.HttpApi.Builds.Sources.{put_source-get_source}
use spinup.HttpApi.Worker.{worker_entries}
use spinup.HttpApi.Worker.Served.{IsListed, Served, worker_entries-Served}
use spinup.HttpApi.Actions.{Claims}
use spinup.HttpApi.Api.{
  Route, post_function, remove_application, remove_function, post_build, Settings, handle_all,
}
use spinup.HttpApi.Api.Consistent.{handle_all-IsConsistent}
use spinup.Tests.{shop, blog, first_build, db, server, claims, world}

dns1123_iff_example :
    (dns1123 "my-app" ≡ true)
    ↔ (IsLabel "my-app" × BeginsWell "my-app" × EndsWell "my-app" × (size "my-app" ≤ 63))
dns1123_iff_example = dns1123_iff "my-app"

abbrev config : Config
config = record {
  namespace = "apps";
  go_image = "builder-go";
  js_image = "builder-js";
  ts_image = "builder-ts";
  rust_image = "builder-rust";
  registry_url = "registry";
  auth_secret = "";
  image_pull_secrets = [];
}

differ : (a b : String) → (a == b) ≡ false → a ≢ b
differ a b h e = ground (arith, (eq_iff a b).1 e)

db-IsConsistent : IsConsistent db
unfolding any
db-IsConsistent = record {
  apps = record {
    ids = ((differ _ _ refl, tt), (tt, tt));
    names = (((λ _. differ _ _ refl), tt), (tt, tt));
    replicas = (refl, (refl, tt));
  };
  fns = record {
    ids = ((differ _ _ refl, (differ _ _ refl, tt)), ((differ _ _ refl, tt), (tt, tt)));
    names = (
      ((λ _. differ _ _ refl), ((λ _. differ _ _ refl), tt)),
      (((λ _. differ _ _ refl), tt), (tt, tt)),
    );
    owned = (refl, (refl, (refl, tt)));
  };
  sources = record { ids = (tt, tt); owned = (refl, tt) };
  builds = record { ids = (tt, tt); owned = (refl, tt) };
}

abbrev settings : Settings
settings = record { builder = config; is_print = λ c. true; reason = λ e. "refused" }

abbrev requests : List (ℕ × Option Claims × Route)
requests =
    (7, some claims, post_function "f9" "a1" none)
    ∷ (8, none, remove_application "a2")
    ∷ (9, some claims, remove_function "a1" "f1")
    ∷ (10, some claims, post_build "b9" "a1")
    ∷ []

handle_all-IsConsistent_example : IsConsistent (handle_all server settings requests world).store
handle_all-IsConsistent_example =
    handle_all-IsConsistent server settings requests world db-IsConsistent

delete_function-HasFunction_example :
    HasFunction "a1" (store_after server 7 "a1" "f1" (some claims) world)
unfolding Sqlite.list_functions order_by keep
delete_function-HasFunction_example =
    delete_function-HasFunction server 7 "a1" "f1" (some claims) world db-IsConsistent
      (_, refl, ground arith)

put_source-get_source_example :
    (is_empty (("a.go", "x") ∷ []) ≡ false)
    × (good_paths (("a.go", "x") ∷ []) ≡ true)
    × ((get_source
          (record server { store = sqlite true 7 })
          (some claims)
          "a1"
          "f1"
          (put_source
            (record server { store = sqlite true 7 })
            (some claims)
            "a1"
            "f1"
            (some (("a.go", "x") ∷ []))
            world).1).0
        ≡ json 200 (record { files = ("a.go", "x") ∷ []; updated_at = 7 }))
unfolding put_source load_function load_application Sqlite.get_application Sqlite.get_function find?
    Sqlite.put_source any has_prefix contains
put_source-get_source_example =
    put_source-get_source server true 7 claims "a1" "f1" (("a.go", "x") ∷ []) world refl

list_builds-bounded_example :
    (1 ≤ page_size (clamp_limit (some (pos 0))))
    × (page_size (clamp_limit (some (pos 0))) ≤ 100)
    × (listed
          (list_builds
            (record server { store = sqlite true 7 })
            (some claims)
            "a1"
            (some (pos 0))
            world).0
        ≤ page_size (clamp_limit (some (pos 0))))
    × ((list_builds
          (record server { store = sqlite true 7 })
          (some claims)
          "a1"
          (some (pos 0))
          world).1
        ≡ world)
list_builds-bounded_example =
    list_builds-bounded server true 7 (some claims) "a1" (some (pos 0)) world

abbrev with_image : Db
with_image = record db {
  builds =
      record first_build { build_id = "b2"; application_id = "a2"; status = build_succeeded }
      ∷ db.builds;
}

worker_entries-Served_example :
    All
      (λ e.
        (a : Application) × (IsListed a (shop ∷ blog ∷ [])) × Served (sqlite true 7) with_image a e)
      (worker_entries (sqlite true 7) with_image (shop ∷ blog ∷ []))
worker_entries-Served_example = worker_entries-Served (sqlite true 7) with_image (shop ∷ blog ∷ [])

abbrev input : CreateApplicationInput
input = record { name = "new"; language = "go"; runtime = ""; description = "" }

create_application_lem_example :
    (Sqlite.get_application "default" "a9"
        (create_application
          (record server { store = sqlite true 7 })
          (some claims)
          "a9"
          "f9"
          (some input)
          world).1.store
      ≡ ok (stamped_application 7 (new_application "a9" input)))
    × (Sqlite.list_functions "a9"
          (create_application
            (record server { store = sqlite true 7 })
            (some claims)
            "a9"
            "f9"
            (some input)
            world).1.store
        ≡ ok (stamped_function 7 (default_function "f9" "a9") ∷ []))
unfolding create_application dns1123 is_language is_runtime new_application
    Sqlite.create_application Sqlite.create_function any Sqlite.same_app_name Sqlite.same_fn_name
create_application_lem_example =
    create_application_lem server 7 claims "a9" "f9" input world db-IsConsistent refl

abbrev change : UpdateApplicationInput
change = record {
  description = some "new";
  replicas = some (pos 0);
  variables = none;
  resources = none;
}

update_application-Updated_example : Updated server true 7 claims "a1" change world
unfolding update_application load_application Sqlite.get_application find? Policy.apply
    Policy.check_all Policy.check_max Sqlite.update_application_config any reconcile SpinApp.get
update_application-Updated_example =
    update_application-Updated server true 7 claims "a1" change world refl
