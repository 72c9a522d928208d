-- ===== src/Store.antt =====
-- services/control-plane/internal/store/store.go: the persisted types and the persistence contract.
-- A Go string is a `String`, a `time.Time` a number of nanoseconds (0 is the zero time), a map of
-- files an association list. `BuildStatus` holds the four constants that the program writes.
pub mod Table
pub mod Sqlite
use spinup.Prelude.{ℕ, String, Bool, true, false, Option, List, ℤ, Result}

pub data BuildStatus : Type 0 where
  build_pending build_running build_succeeded build_failed : BuildStatus

abbrev pub runtime_spin_kube : String
runtime_spin_kube = "spinkube"

abbrev pub runtime_worker_pool : String
runtime_worker_pool = "workerpool"

pub record Variable : Type 0 where
  pub name : String
  pub value : String

pub record Resources : Type 0 where
  pub cpu_request : String
  pub cpu_limit : String
  pub memory_request : String
  pub memory_limit : String

pub record Application : Type 0 where
  pub app_id : String
  pub tenant_id : String
  pub name : String
  pub language : String
  pub runtime : String
  pub description : String
  pub replicas : ℤ
  pub variables : List Variable
  pub resources : Resources
  pub created_at : ℕ
  pub updated_at : ℕ

pub record Function : Type 0 where
  pub fn_id : String
  pub application_id : String
  pub name : String
  pub route : String
  pub created_at : ℕ
  pub updated_at : ℕ

pub record Source : Type 0 where
  pub function_id : String
  pub files : List (String × String)
  pub updated_at : ℕ

pub record Build : Type 0 where
  pub build_id : String
  pub application_id : String
  pub image_ref : String
  pub image_size_bytes : Option ℤ
  pub status : BuildStatus
  pub error : String
  pub created_at : ℕ
  pub finished_at : Option ℕ

-- `ErrNotFound`, a refused constraint, and any other failure of the database with its text.
pub data Constraint : Type 0 where
  primary_key unique foreign_key : Constraint

pub data StoreError : Type 0 where
  not_found : StoreError
  refused : Constraint → StoreError
  fault : String → StoreError

-- `Store`: a query reads the state, a command also returns the next one.
pub record StoreOps (S : Type 0) : Type 0 where
  pub ping : S → Result StoreError (Unit {0})
  pub list_applications : String → S → Result StoreError (List Application)
  pub get_application : String → String → S → Result StoreError Application
  pub get_application_by_name : String → String → S → Result StoreError Application
  pub create_application : Application → S → Result StoreError (Unit {0}) × S
  pub update_application_config :
      String
      → String
      → String
      → ℤ
      → List Variable
      → Resources
      → S
      → Result StoreError (Unit {0}) × S
  pub delete_application : String → String → S → Result StoreError (Unit {0}) × S
  pub list_functions : String → S → Result StoreError (List Function)
  pub get_function : String → String → S → Result StoreError Function
  pub create_function : Function → S → Result StoreError (Unit {0}) × S
  pub update_function_route : String → String → String → S → Result StoreError (Unit {0}) × S
  pub delete_function : String → String → S → Result StoreError (Unit {0}) × S
  pub get_source : String → S → Result StoreError Source
  pub put_source : Source → S → Result StoreError (Unit {0}) × S
  pub create_build : Build → S → Result StoreError (Unit {0}) × S
  pub get_build : String → String → S → Result StoreError Build
  pub list_builds : String → ℤ → S → Result StoreError (List Build)
  pub update_build_status :
      String → BuildStatus → String → Option ℕ → S → Result StoreError (Unit {0}) × S
  pub update_build_image_size : String → ℤ → S → Result StoreError (Unit {0}) × S
