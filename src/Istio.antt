-- ===== src/Istio.antt =====
-- services/control-plane/internal/istio/virtualservice.go: the VirtualService of an application.
use spinup.Prelude.{ℤ, String, Result, ok, err}
use spinup.Kube.{
  Value, text, int, arr, obj, nil, item, end, field, KubeError, missing, exists, deadline, failure,
  Kube,
}

pub record Spec : Type 0 where
  pub name : String
  pub application_id : String
  pub host : String
  pub gateway : String
  pub destination_host : String
  pub destination_port : ℤ

unfoldable pub manifest : String → Spec → Value
manifest ns s =
    let labels = field "app.kubernetes.io/managed-by" (text "spinup") (
      field "spinup.emdzej.pl/application" (text s.name)
        (field "spinup.emdzej.pl/application-id" (text s.application_id) end)) in
    let annotations = field "spinup.emdzej.pl/emitted-by" (text "control-plane") end in
    let metadata = field "name" (text s.name) (
      field "namespace" (text ns)
        (field "labels" (obj labels) (field "annotations" (obj annotations) end))) in
    let destination =
      field "host" (text s.destination_host)
        (field "port" (obj (field "number" (int s.destination_port) end)) end) in
    let route = obj (field "destination" (obj destination) end) in
    let http = obj (field "route" (arr (item route nil)) end) in
    let spec = field "hosts" (arr (item (text s.host) nil)) (
      field "gateways" (arr (item (text s.gateway) nil))
        (field "http" (arr (item http nil)) end)) in
    obj (
      field "apiVersion" (text "networking.istio.io/v1alpha3") (
        field "kind" (text "VirtualService")
          (field "metadata" (obj metadata) (field "spec" (obj spec) end))))

-- A VirtualService that is not there is deleted already.
deleted : {C : Type 0} → Result KubeError (Unit {0}) × C → Result KubeError (Unit {0}) × C
deleted (ok u, c) = (ok u, c)
deleted (err missing, c) = (ok tt, c)
deleted (err exists, c) = (err exists, c)
deleted (err deadline, c) = (err deadline, c)
deleted (err (failure s), c) = (err (failure s), c)

module _ {C : Type 0} (kube : Kube C) (ns : String) where
  unfoldable pub apply : Spec → C → Result KubeError (Unit {0}) × C
  apply s c = kube.apply_virtual_service ns s.name (manifest ns s) c

  unfoldable pub delete : String → C → Result KubeError (Unit {0}) × C
  unfolding deleted
  delete name c = deleted (kube.delete_virtual_service ns name c)
