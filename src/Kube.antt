-- ===== src/Kube.antt =====
-- Kubernetes as the control plane sees it: unstructured objects, and the API server as a parameter.
-- `Value` is the map[string]any of unstructured.Unstructured; numbers in it are int64,
-- but for an int32 in an object that is sent, which `unstructured.NestedInt64` does not read.
use spinup.Prelude.{ℤ, ℕ, String, Option, none, some, List, Result, if◌then◌else◌, ◌==◌}

mutual
  pub data Value : Type 0 where
    text : String → Value
    int : ℤ → Value
    int32 : ℤ → Value
    arr : Items → Value
    obj : Fields → Value

  pub data Items : Type 0 where
    nil : Items
    item : Value → Items → Items

  pub data Fields : Type 0 where
    end : Fields
    field : String → Value → Fields → Fields

unfoldable pub field_of : String → Fields → Option Value
field_of k end = none
field_of k (field j v fs) = if j == k then some v else field_of k fs

abbrev pub value_of : Value → String → Option Value
value_of (obj fs) k = field_of k fs
value_of (text s) k = none
value_of (int n) k = none
value_of (int32 n) k = none
value_of (arr xs) k = none

-- The value at a path of two field names: unstructured.NestedFieldNoCopy.
unfoldable pub nested : String → String → Value → Option Value
unfolding field_of
nested a b v = elim (value_of v a) [ none ↦ none | some w ↦ value_of w b ]

abbrev pub as_text : Option Value → Option String
as_text none = none
as_text (some (text s)) = some s
as_text (some (int n)) = none
as_text (some (int32 n)) = none
as_text (some (arr xs)) = none
as_text (some (obj fs)) = none

abbrev pub as_int : Option Value → Option ℤ
as_int none = none
as_int (some (text s)) = none
as_int (some (int n)) = some n
as_int (some (int32 n)) = none
as_int (some (arr xs)) = none
as_int (some (obj fs)) = none

abbrev pub as_items : Option Value → Items
as_items none = nil
as_items (some (text s)) = nil
as_items (some (int n)) = nil
as_items (some (int32 n)) = nil
as_items (some (arr xs)) = xs
as_items (some (obj fs)) = nil

unfoldable pub text_or : String → Option String → String
text_or d none = d
text_or d (some s) = s

-- The answers of the API server that the program tells apart.
pub data KubeError : Type 0 where
  missing exists deadline : KubeError
  failure : String → KubeError

-- The status of a Deployment, as far as it is read.
pub record Rollout : Type 0 where
  pub replicas : ℤ
  pub updated : ℤ
  pub available : ℤ
  pub generation : ℤ
  pub observed_generation : ℤ

-- The status of a Job: how often it succeeded and failed, and its conditions as type and message.
pub record JobStatus : Type 0 where
  pub succeeded : ℤ
  pub failed : ℤ
  pub conditions : List (String × String)

-- What the program sets of a build Job; the mounts follow from `auth_secret`.
pub record JobSpec : Type 0 where
  pub name : String
  pub labels : List (String × String)
  pub backoff_limit : ℕ
  pub ttl_seconds : ℕ
  pub image_pull_secrets : List String
  pub builder_image : String
  pub environment : List (String × String)
  pub source_secret : String
  pub auth_secret : Option String

-- The API server over a cluster of type `C`; the first two arguments are a namespace and a name.
pub record Kube (C : Type 0) : Type 0 where
  pub apply_spin_app : String → String → Value → C → Result KubeError Value × C
  pub get_spin_app : String → String → C → Result KubeError Value
  pub delete_spin_app : String → String → C → Result KubeError (Unit {0}) × C
  pub get_deployment : String → String → C → Result KubeError Rollout
  pub apply_virtual_service : String → String → Value → C → Result KubeError (Unit {0}) × C
  pub delete_virtual_service : String → String → C → Result KubeError (Unit {0}) × C
  pub create_secret :
      String
      → String
      → List (String × String)
      → List (String × String)
      → C
      → Result KubeError (Unit {0}) × C
  pub create_job : String → JobSpec → C → Result KubeError (Unit {0}) × C
