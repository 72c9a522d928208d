-- ===== src/Deploy.antt =====
-- services/control-plane/internal/deploy/deploy.go: publishing an application to the cluster.
-- Log lines are left out. The Deployer of the program always has a VirtualService client.
pub mod Clamp
use spinup.Prelude.{
  ℤ, pos, String, Bool, true, false, not, ◌&&◌, Option, List, Result, ok, err, non_positive,
  if◌then◌else◌, ◌==◌,
}
use spinup.Store.{Application, Resources}
use spinup.Policy
use spinup.Policy.{ResourcePolicy, PolicyError, platform}
use spinup.Kube.{Kube, KubeError}
use spinup.SpinApp
use spinup.SpinApp.{SpinError}
use spinup.Istio
use Prim.Native.String.{◌++◌}

pub record Request : Type 0 where
  pub app : Application
  pub image : String
  pub replicas : ℤ

pub record Deployer : Type 0 where
  pub namespace : String
  pub pull_secrets : List String
  pub public_domain : String
  pub public_gateway : String
  pub resource_policy : ResourcePolicy

-- The request's count if it is positive, or else the application's, or else 1.
unfoldable pub wanted_replicas : Request → ℤ
wanted_replicas r =
    let replicas = if non_positive r.replicas then r.app.replicas else r.replicas in
    if non_positive replicas then pos 1 else replicas

-- The policy's answer, or the platform's own values where it refuses.
unfoldable pub or_platform : ResourcePolicy → Result PolicyError Resources → Resources
or_platform p (ok r) = r
or_platform p (err e) = platform p

unfoldable pub virtual_service_spec : Deployer → Request → Istio.Spec
virtual_service_spec d r = record {
  name = r.app.name;
  application_id = r.app.app_id;
  host = r.app.name ++ "." ++ d.public_domain;
  gateway = d.public_gateway;
  destination_host = r.app.name;
  destination_port = pos 80;
}

unfoldable pub has_ingress : Deployer → Bool
has_ingress d = not (d.public_domain == "") && not (d.public_gateway == "")

module _ {Q : Type 0} (parse : String → Option Q) (exceeds : Q → Q → Bool) (d : Deployer) where
  unfoldable pub clamped : Resources → Resources
  unfolding or_platform
  clamped r = or_platform d.resource_policy (Policy.apply parse exceeds d.resource_policy r)

  unfoldable pub spin_spec : Request → SpinApp.Spec
  unfolding wanted_replicas clamped
  spin_spec r = record {
    name = r.app.name;
    application_id = r.app.app_id;
    tenant_id = r.app.tenant_id;
    image = r.image;
    replicas = wanted_replicas r;
    executor = "";
    image_pull_secrets = d.pull_secrets;
    variables = r.app.variables;
    resources = clamped r.app.resources;
  }

  module _ {C : Type 0} (kube : Kube C) where
    -- What follows a SpinApp that was applied: a failing VirtualService is only logged.
    exposed : Request → Result SpinError SpinApp.Status × C → Result SpinError SpinApp.Status × C
    unfolding has_ingress virtual_service_spec
    exposed r (err e, c) = (err e, c)
    exposed r (ok st, c) = (
      ok st,
      if has_ingress d then (Istio.apply kube d.namespace (virtual_service_spec d r) c).1 else c,
    )

    unfoldable pub deploy : Request → C → Result SpinError SpinApp.Status × C
    unfolding exposed spin_spec
    deploy r c = exposed r (SpinApp.apply kube d.namespace (spin_spec r) c)

    unexposed : String → Result KubeError (Unit {0}) × C → Result KubeError (Unit {0}) × C
    unexposed name (err e, c) = (err e, c)
    unexposed name (ok u, c) = (ok tt, (Istio.delete kube d.namespace name c).1)

    unfoldable pub undeploy : String → C → Result KubeError (Unit {0}) × C
    unfolding unexposed
    undeploy name c = unexposed name (SpinApp.delete kube d.namespace name c)
