-- ===== src/SpinApp.antt =====
-- services/control-plane/internal/spinapp/spinapp.go: the SpinApp resource of an application.
pub mod Requirements
use spinup.Prelude.{
  ℤ, pos, String, Bool, true, false, not, ◌&&◌, ◌||◌, Option, none, some, List, [], ◌∷◌, Result, ok,
  err, as_int32, non_positive, le_int, if◌then◌else◌, ◌==◌,
}
use spinup.Store.{Variable, Resources}
use spinup.Kube.{
  Value, Items, Fields, text, int32, arr, obj, nil, item, end, field, nested, value_of, as_text,
  as_int, as_items, text_or, KubeError, missing, exists, deadline, failure, Rollout, Kube,
}

pub record Spec : Type 0 where
  pub name : String
  pub application_id : String
  pub tenant_id : String
  pub image : String
  pub replicas : ℤ
  pub executor : String
  pub image_pull_secrets : List String
  pub variables : List Variable
  pub resources : Resources

pub record Status : Type 0 where
  pub name : String
  pub namespace : String
  pub image : String
  pub replicas : ℤ
  pub ready : Bool
  pub observed_replicas : ℤ
  pub updated_replicas : ℤ
  pub progressing : Bool
  pub message : String

-- A field that is left out when its value is empty.
unfoldable pub unless_empty : String → String → Fields → Fields
unless_empty key value rest = if value == "" then rest else field key (text value) rest

abbrev pub is_end : Fields → Bool
is_end end = true
is_end (field k v rest) = false

unfoldable pub half : String → Fields → Fields → Fields
half key fs rest = if is_end fs then rest else field key (obj fs) rest

-- The `requests` and `limits` halves, each left out when it is empty.
unfoldable pub resource_requirements : Resources → Option Value
unfolding unless_empty half
resource_requirements r =
    let requests = unless_empty "cpu" r.cpu_request (unless_empty "memory" r.memory_request end) in
    let limits = unless_empty "cpu" r.cpu_limit (unless_empty "memory" r.memory_limit end) in
    if is_end requests && is_end limits
    then none
    else some (obj (half "requests" requests (half "limits" limits end)))

unfoldable pub variable_items : List Variable → Items
variable_items [] = nil
variable_items (v ∷ vs) =
    item (obj (field "name" (text v.name) (field "value" (text v.value) end))) (variable_items vs)

unfoldable pub secret_items : List String → Items
secret_items [] = nil
secret_items (n ∷ ns) = item (obj (field "name" (text n) end)) (secret_items ns)

-- A list that is left out when it is empty.
abbrev optional_items : String → Items → Fields → Fields
optional_items key nil rest = rest
optional_items key (item v vs) rest = field key (arr (item v vs)) rest

abbrev optional : String → Option Value → Fields → Fields
optional key none rest = rest
optional key (some v) rest = field key v rest

abbrev pub default_executor : String
default_executor = "containerd-shim-spin"

-- The object that `Apply` sends.
unfoldable pub manifest : String → Spec → Value
unfolding resource_requirements variable_items secret_items
manifest ns s =
    let executor = if s.executor == "" then default_executor else s.executor in
    let labels = field "app.kubernetes.io/managed-by" (text "spinup") (
      field "spinup.emdzej.pl/application" (text s.name)
        (field "spinup.emdzej.pl/application-id" (text s.application_id) end)) in
    let annotations =
      field "spinup.emdzej.pl/tenant" (text s.tenant_id)
        (field "spinup.emdzej.pl/emitted-by" (text "control-plane") end) in
    let metadata = field "name" (text s.name) (
      field "namespace" (text ns)
        (field "labels" (obj labels) (field "annotations" (obj annotations) end))) in
    let spec = field "image" (text s.image) (
      field "executor" (text executor) (
        field "replicas" (int32 s.replicas) (
          optional_items "variables" (variable_items s.variables) (
            optional "resources" (resource_requirements s.resources)
              (optional_items "imagePullSecrets" (secret_items s.image_pull_secrets) end))))) in
    obj (
      field "apiVersion" (text "core.spinkube.dev/v1alpha1") (
        field "kind" (text "SpinApp")
          (field "metadata" (obj metadata) (field "spec" (obj spec) end))))

-- The last non-empty message of a condition of type "Ready".
unfoldable pub ready_message : String → Items → String
ready_message found nil = found
ready_message found (item c cs) =
    let message = text_or "" (as_text (value_of c "message")) in
    let is_ready = text_or "" (as_text (value_of c "type")) == "Ready" in
    ready_message (if is_ready && not (message == "") then message else found) cs

abbrev int_or_zero : Option ℤ → ℤ
int_or_zero none = pos 0
int_or_zero (some n) = as_int32 n

abbrev is_ready : Option ℤ → ℤ → Bool
is_ready none replicas = false
is_ready (some n) replicas = le_int replicas (as_int32 n) && not (non_positive replicas)

unfoldable pub status_from : Value → Status
unfolding nested text_or ready_message
status_from v =
    let replicas = int_or_zero (as_int (nested "spec" "replicas" v)) in
    let observed = as_int (nested "status" "readyReplicas" v) in
    record {
      name = text_or "" (as_text (nested "metadata" "name" v));
      namespace = text_or "" (as_text (nested "metadata" "namespace" v));
      image = text_or "" (as_text (nested "spec" "image" v));
      replicas = replicas;
      ready = is_ready observed replicas;
      observed_replicas = int_or_zero observed;
      updated_replicas = pos 0;
      progressing = false;
      message = ready_message "" (as_items (nested "status" "conditions" v));
    }

-- The part of `Get` that reads the Deployment of the same name.
unfoldable pub with_rollout : Rollout → Status → Status
with_rollout d s =
    let progressing =
      not (le_int d.replicas d.updated)
      || not (le_int d.replicas d.available)
      || not (le_int d.generation d.observed_generation) in
    record s {
      updated_replicas = d.updated;
      progressing = progressing;
      ready = not progressing && not (non_positive d.replicas) && le_int d.replicas d.available;
    }

abbrev refine : Result KubeError Rollout → Status → Status
refine (ok d) s = with_rollout d s
refine (err e) s = s

-- The errors of `Apply`: the CRD is not installed, or any other.
pub data SpinError : Type 0 where
  no_crd : SpinError
  apply_failed : KubeError → SpinError

abbrev spin_error : KubeError → SpinError
spin_error missing = no_crd
spin_error exists = apply_failed exists
spin_error deadline = apply_failed deadline
spin_error (failure s) = apply_failed (failure s)

abbrev applied : {C : Type 0} → Result KubeError Value × C → Result SpinError Status × C
applied (ok v, c) = (ok (status_from v), c)
applied (err e, c) = (err (spin_error e), c)

module _ {C : Type 0} (kube : Kube C) (ns : String) where
  unfoldable pub apply : Spec → C → Result SpinError Status × C
  unfolding manifest status_from
  apply s c = applied (kube.apply_spin_app ns s.name (manifest ns s) c)

  found : String → Result KubeError Value → C → Result KubeError (Option Status)
  unfolding status_from with_rollout
  found name (ok v) c = ok (some (refine (kube.get_deployment ns name c) (status_from v)))
  found name (err missing) c = ok none
  found name (err exists) c = err exists
  found name (err deadline) c = err deadline
  found name (err (failure s)) c = err (failure s)

  -- `none` when there is no such SpinApp.
  unfoldable pub get : String → C → Result KubeError (Option Status)
  unfolding found
  get name c = found name (kube.get_spin_app ns name c) c

  -- A SpinApp that is not there is deleted already.
  deleted : Result KubeError (Unit {0}) × C → Result KubeError (Unit {0}) × C
  deleted (ok u, c) = (ok u, c)
  deleted (err missing, c) = (ok tt, c)
  deleted (err exists, c) = (err exists, c)
  deleted (err deadline, c) = (err deadline, c)
  deleted (err (failure s), c) = (err (failure s), c)

  unfoldable pub delete : String → C → Result KubeError (Unit {0}) × C
  unfolding deleted
  delete name c = deleted (kube.delete_spin_app ns name c)
