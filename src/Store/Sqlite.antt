-- ===== src/Store/Sqlite.antt =====
-- services/control-plane/internal/store/sqlite.go: the four tables and each method's SQL.
-- A statement is read as SQL defines it: INSERT checks the constraints of the schema, DELETE
-- cascades along the foreign keys. SQLite enforces foreign keys only on a connection on which
-- `PRAGMA foreign_keys = ON` ran; `fk` says whether the connection at hand is such a one. `now` is
-- the clock. Rows hold decoded values where the tables hold their JSON.
pub mod Integrity
pub mod Cascade
pub mod Rows
pub mod Trace
use spinup.Prelude.{
  ℕ, zero, String, Bool, true, false, not, ◌&&◌, Option, none, some, List, [], ◌∷◌, ◌++◌, ℤ, pos,
  negsuc, non_positive, Result, ok, err, leb, eqb, if◌then◌else◌, ◌==◌, any, find?, keep, take,
  is_some,
}
use spinup.Store.{
  BuildStatus, runtime_spin_kube, Variable, Resources, Application, Function, Source, Build,
  StoreError, not_found, refused, fault, primary_key, unique, foreign_key, StoreOps,
}
use spinup.Store.Table.{update_where, delete_where, order_by}
use text.Mathlib.Text.{is_le}
use Prim.Native.String.{compare}

pub record Db : Type 0 where
  pub applications : List Application
  pub functions : List Function
  pub sources : List Source
  pub builds : List Build

abbrev pub Reply : Type 0
Reply = Result StoreError (Unit {0}) × Db

-- ORDER BY name
abbrev pub by_app_name : Application → Application → Bool
by_app_name a b = is_le (compare a.name b.name)

abbrev pub by_fn_name : Function → Function → Bool
by_fn_name f g = is_le (compare f.name g.name)

-- ORDER BY created_at DESC
abbrev pub newest_first : Build → Build → Bool
newest_first b c = leb c.created_at b.created_at

-- WHERE tenant_id = ? AND id = ?
abbrev pub app_at : String → String → Application → Bool
app_at tenant_id id a = (a.tenant_id == tenant_id) && (a.app_id == id)

-- WHERE application_id = ? AND id = ?
abbrev pub fn_at : String → String → Function → Bool
fn_at application_id id f = (f.application_id == application_id) && (f.fn_id == id)

abbrev pub build_at : String → String → Build → Bool
build_at application_id id b = (b.application_id == application_id) && (b.build_id == id)

-- One row, or ErrNotFound for sql.ErrNoRows.
abbrev pub row_or_not_found : {A : Type 0} → Option A → Result StoreError A
row_or_not_found none = err not_found
row_or_not_found (some a) = ok a

-- `RowsAffected() == 0` gives ErrNotFound.
abbrev pub affected : Bool → Db → Db → Reply
affected hit before after = if hit then (ok tt, after) else (err not_found, before)

unfoldable pub list_applications : String → Db → Result StoreError (List Application)
list_applications tenant_id db =
    ok (order_by by_app_name (keep (λ a. a.tenant_id == tenant_id) db.applications))

unfoldable pub get_application : String → String → Db → Result StoreError Application
get_application tenant_id id db = row_or_not_found (find? (app_at tenant_id id) db.applications)

unfoldable pub get_application_by_name : String → String → Db → Result StoreError Application
get_application_by_name tenant_id name db =
    row_or_not_found (find? (λ a. (a.tenant_id == tenant_id) && (a.name == name)) db.applications)

-- A positive replica count, or 1.
unfoldable pub at_least_one : ℤ → ℤ
at_least_one n = if non_positive n then pos 1 else n

unfoldable pub stamped_application : ℕ → Application → Application
unfolding at_least_one
stamped_application now a = record a {
  runtime = if a.runtime == "" then runtime_spin_kube else a.runtime;
  replicas = at_least_one a.replicas;
  created_at = if eqb a.created_at 0 then now else a.created_at;
  updated_at = now;
}

unfoldable pub same_app_name : Application → Application → Bool
same_app_name a b = (b.tenant_id == a.tenant_id) && (b.name == a.name)

unfoldable pub create_application : ℕ → Application → Db → Reply
unfolding stamped_application
create_application now a db =
    if any (λ b. b.app_id == a.app_id) db.applications
    then (err (refused primary_key), db)
    else if any (same_app_name a) db.applications
    then (err (refused unique), db)
    else (ok tt, record db { applications = db.applications ++ stamped_application now a ∷ [] })

unfoldable pub configured : ℕ → String → ℤ → List Variable → Resources → Application → Application
unfolding at_least_one
configured now desc replicas variables resources a = record a {
  description = desc;
  replicas = at_least_one replicas;
  variables = variables;
  resources = resources;
  updated_at = now;
}

unfoldable pub update_application_config :
    ℕ → String → String → String → ℤ → List Variable → Resources → Db → Reply
unfolding configured
update_application_config now tenant_id id desc replicas variables resources db =
    affected (any (app_at tenant_id id) db.applications) db (record db {
      applications =
          update_where (app_at tenant_id id) (configured now desc replicas variables resources)
            db.applications;
    })

-- ON DELETE CASCADE of functions to sources: the sources of a function that `gone` holds of.
unfoldable pub cascade_sources : (Function → Bool) → List Function → List Source → List Source
cascade_sources gone fns sources =
    delete_where (λ s. any (λ f. gone f && (f.fn_id == s.function_id)) fns) sources

-- ON DELETE CASCADE of applications to functions and builds, and on to sources.
unfoldable pub cascade_application : Bool → (Application → Bool) → Db → Db
unfolding cascade_sources
cascade_application false gone db = record db { applications = delete_where gone db.applications }
cascade_application true gone db =
    let orphan : String → Bool = λ id. any (λ a. gone a && (a.app_id == id)) db.applications in
    record {
      applications = delete_where gone db.applications;
      functions = delete_where (λ f. orphan f.application_id) db.functions;
      sources = cascade_sources (λ f. orphan f.application_id) db.functions db.sources;
      builds = delete_where (λ b. orphan b.application_id) db.builds;
    }

unfoldable pub delete_application : Bool → String → String → Db → Reply
unfolding cascade_application
delete_application fk tenant_id id db =
    affected (any (app_at tenant_id id) db.applications) db
      (cascade_application fk (app_at tenant_id id) db)

unfoldable pub list_functions : String → Db → Result StoreError (List Function)
list_functions application_id db =
    ok (order_by by_fn_name (keep (λ f. f.application_id == application_id) db.functions))

unfoldable pub get_function : String → String → Db → Result StoreError Function
get_function application_id id db = row_or_not_found (find? (fn_at application_id id) db.functions)

unfoldable pub stamped_function : ℕ → Function → Function
stamped_function now f = record f {
  created_at = if eqb f.created_at 0 then now else f.created_at;
  updated_at = now;
}

unfoldable pub same_fn_name : Function → Function → Bool
same_fn_name f g = (g.application_id == f.application_id) && (g.name == f.name)

unfoldable pub create_function : Bool → ℕ → Function → Db → Reply
unfolding stamped_function
create_function fk now f db =
    if any (λ g. g.fn_id == f.fn_id) db.functions
    then (err (refused primary_key), db)
    else if any (same_fn_name f) db.functions
    then (err (refused unique), db)
    else if fk && not (any (λ a. a.app_id == f.application_id) db.applications)
    then (err (refused foreign_key), db)
    else (ok tt, record db { functions = db.functions ++ stamped_function now f ∷ [] })

unfoldable pub rerouted : ℕ → String → Function → Function
rerouted now route f = record f { route = route; updated_at = now }

unfoldable pub update_function_route : ℕ → String → String → String → Db → Reply
unfolding rerouted
update_function_route now application_id id route db =
    affected (any (fn_at application_id id) db.functions) db (record db {
      functions = update_where (fn_at application_id id) (rerouted now route) db.functions;
    })

unfoldable pub delete_function : Bool → String → String → Db → Reply
unfolding cascade_sources
delete_function fk application_id id db =
    affected (any (fn_at application_id id) db.functions) db (record db {
      functions = delete_where (fn_at application_id id) db.functions;
      sources =
          if fk
          then cascade_sources (fn_at application_id id) db.functions db.sources
          else db.sources;
    })

unfoldable pub get_source : String → Db → Result StoreError Source
get_source function_id db = row_or_not_found (find? (λ s. s.function_id == function_id) db.sources)

-- INSERT … ON CONFLICT(function_id) DO UPDATE
unfoldable pub put_source : Bool → ℕ → Source → Db → Reply
put_source fk now src db =
    let row = record src { updated_at = now } in
    if any (λ s. s.function_id == src.function_id) db.sources
    then (
      ok tt,
      record db {
        sources = update_where (λ s. s.function_id == src.function_id) (λ _. row) db.sources;
      },
    )
    else if fk && not (any (λ f. f.fn_id == src.function_id) db.functions)
    then (err (refused foreign_key), db)
    else (ok tt, record db { sources = db.sources ++ row ∷ [] })

-- The INSERT names no image size, so the column is NULL.
unfoldable pub stamped_build : ℕ → Build → Build
stamped_build now b = record b {
  created_at = if eqb b.created_at 0 then now else b.created_at;
  image_size_bytes = none;
}

unfoldable pub create_build : Bool → ℕ → Build → Db → Reply
unfolding stamped_build
create_build fk now b db =
    if any (λ c. c.build_id == b.build_id) db.builds
    then (err (refused primary_key), db)
    else if fk && not (any (λ a. a.app_id == b.application_id) db.applications)
    then (err (refused foreign_key), db)
    else (ok tt, record db { builds = db.builds ++ stamped_build now b ∷ [] })

unfoldable pub get_build : String → String → Db → Result StoreError Build
get_build application_id id db = row_or_not_found (find? (build_at application_id id) db.builds)

-- A limit that is not positive means 20.
unfoldable pub page_size : ℤ → ℕ
page_size (pos zero) = 20
page_size (pos n) = n
page_size (negsuc n) = 20

unfoldable pub list_builds : String → ℤ → Db → Result StoreError (List Build)
unfolding page_size
list_builds application_id limit db = ok (
    take (page_size limit)
      (order_by newest_first (keep (λ b. b.application_id == application_id) db.builds)))

unfoldable pub with_status : BuildStatus → String → Option ℕ → Build → Build
with_status status message finished b = record b {
  status = status;
  error = message;
  finished_at = finished;
}

-- No row with this id is no error.
unfoldable pub update_build_status : String → BuildStatus → String → Option ℕ → Db → Reply
unfolding with_status
update_build_status id status message finished db = (
  ok tt,
  record db {
    builds = update_where (λ b. b.build_id == id) (with_status status message finished) db.builds;
  },
)

unfoldable pub update_build_image_size : String → ℤ → Db → Reply
update_build_image_size id size db = (
  ok tt,
  record db {
    builds =
        update_where (λ b. b.build_id == id) (λ b. record b { image_size_bytes = some size })
          db.builds;
  },
)

-- `sqliteStore` as an implementation of `Store`, at one moment of the clock.
abbrev pub sqlite : Bool → ℕ → StoreOps Db
sqlite fk now = record {
  ping = λ db. ok tt;
  list_applications = list_applications;
  get_application = get_application;
  get_application_by_name = get_application_by_name;
  create_application = create_application now;
  update_application_config = update_application_config now;
  delete_application = delete_application fk;
  list_functions = list_functions;
  get_function = get_function;
  create_function = create_function fk now;
  update_function_route = update_function_route now;
  delete_function = delete_function fk;
  get_source = get_source;
  put_source = put_source fk now;
  create_build = create_build fk now;
  get_build = get_build;
  list_builds = list_builds;
  update_build_status = update_build_status;
  update_build_image_size = update_build_image_size;
}
