-- ===== src/Tests/Cluster.antt =====
-- Examples for the policy, the deployment, the archives and the watch over a build.
use spinup.Prelude.{
  eq_iff, map, ◌≡◌, refl, ◌↔◌, inl, inr, pos, String, true, false, none, [], ◌∷◌, ok, All, arith,
  non_positive, find?,
}
use spinup.Store.{Resources, build_succeeded}
use spinup.Store.Sqlite.{sqlite, get_build}
use spinup.Policy
use spinup.Policy.{PolicyError, violation, is_policy_violation}
use spinup.Policy.Caps.{FitsAll, apply-max_iff}
use spinup.Kube.{JobStatus}
use spinup.SpinApp
use spinup.SpinApp.{Status, SpinError, status_from, with_rollout, resource_requirements}
use spinup.Deploy
use spinup.Deploy.{Request, spin_spec, virtual_service_spec}
use spinup.Deploy.Clamp.{HasCaps, spin_spec-FitsAll}
use spinup.Store.Table.{order_by}
use spinup.Text.{has_prefix, trim_slash, contains}
use spinup.Text.Paths.{clean}
use spinup.Archive.{pack, entry_name}
use spinup.Archive.{Files, Entry, regular, is_unsafe, unpack}
use spinup.Archive.Roundtrip.{as_entry, pack-unpack}
use spinup.Archive.Unpacked.{IsAccepted, unpack-IsAccepted}
use spinup.Archive.Names.{IsBelow, pack-IsBelow}
use spinup.Builder.{watch, poll}
use spinup.Builder.Outcome.{Ended, verdict, published, watch-Ended}
use spinup.Tests.{shop, first_build, sizes, parse, exceeds, caps, deployer, kube, world}

abbrev large : Resources
large = record sizes { cpu_limit = "4" }

apply-max_iff_example :
    (Policy.apply parse exceeds caps sizes ≡ ok sizes)
    ↔ (FitsAll parse exceeds caps sizes × (sizes ≡ sizes))
apply-max_iff_example = apply-max_iff parse exceeds caps sizes sizes refl

caps-HasCaps : HasCaps parse exceeds caps
caps-HasCaps = record {
  cpu_request = inr (2, refl);
  cpu_limit = inr (2, refl);
  memory_request = inl refl;
  memory_limit = inl refl;
}

abbrev request : Request
request = record {
  app = record shop { resources = large };
  image = "registry/shop:b1";
  replicas = pos 0;
}

spin_spec-FitsAll_example :
    FitsAll parse exceeds caps (spin_spec parse exceeds deployer request).resources
    × (non_positive (spin_spec parse exceeds deployer request).replicas ≡ false)
spin_spec-FitsAll_example =
    spin_spec-FitsAll parse exceeds deployer request refl (λ q. ground arith) caps-HasCaps

pack-IsBelow_example : All {A = String × String} (λ f. IsBelow f.0) (("etc/passwd", "x") ∷ [])
unfolding pack order_by entry_name clean trim_slash
pack-IsBelow_example = pack-IsBelow (("../../etc//passwd", "x") ∷ []) _ refl

abbrev running : JobStatus
running = record { succeeded = pos 0; failed = pos 0; conditions = [] }

abbrev succeeded : JobStatus
succeeded = record { succeeded = pos 1; failed = pos 0; conditions = [] }

watch-Ended_example : Ended "a1" "b1" build_succeeded 9 (
    watch
      (sqlite true 7)
      kube
      parse
      exceeds
      deployer
      (λ e. "")
      (λ e. "")
      "b1"
      shop
      "registry/shop:b1"
      9
      (ok running ∷ ok succeeded ∷ [])
      none
      world)
unfolding verdict published poll get_build find? Deploy.deploy SpinApp.apply
watch-Ended_example =
    watch-Ended true 7 kube parse exceeds deployer (λ e. "") (λ e. "") shop "b1" "registry/shop:b1"
      9 (ok running ∷ ok succeeded ∷ []) none world (first_build, refl)

abbrev entry : Entry
entry = record { type_flag = regular; name = "./main.go"; content = "package main" }

unpack-IsAccepted_example : IsAccepted (("main.go", "package main") ∷ [])
unfolding unpack clean contains
unpack-IsAccepted_example = unpack-IsAccepted (entry ∷ []) (("main.go", "package main") ∷ []) refl

abbrev two_files : Files
two_files = ("go.mod", "module m") ∷ ("main.go", "package main") ∷ []

pack-unpack_example : unpack (map as_entry two_files) ≡ ok two_files
unfolding pack order_by entry_name clean trim_slash is_unsafe has_prefix contains
pack-unpack_example =
    pack-unpack (("main.go", "package main") ∷ ("/go.mod", "module m") ∷ []) two_files refl
      (((λ e. ground (arith, (eq_iff "go.mod" "main.go").1 e)), tt), (tt, tt))
      (ground arith, (ground arith, tt))
