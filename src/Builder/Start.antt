-- ===== src/Builder/Start.antt =====
-- `Start` of services/control-plane/internal/builder/builder.go: the row, the source Secret and the
-- Job of a build. The watch that it leaves running is `watch`.
pub mod Recorded
pub mod Consistent
use Prim.Native.String
use spinup.Prelude.{ℕ, ◌+◌, String, Bool, Option, none, some, List, [], ◌∷◌, Result, ok, err}
use spinup.Store.{Application, Build, build_pending, build_failed, StoreError, StoreOps}
use spinup.Kube.{Kube, KubeError, missing, exists, deadline, failure}
use spinup.World.{World}
use spinup.Archive.{Files, put_file, pack}
use spinup.Builder.{
  Config, profile, FunctionBuildInput, StartError, no_builder, no_functions, no_manifest,
  create_row, bad_source, create_secret, create_job, placed, secret_name, build_labels, job_spec,
}
use spinup.Builder.Manifest.{FunctionSpec, synthesize_spin_toml}

unfoldable pub specs : List FunctionBuildInput → List FunctionSpec
specs [] = []
specs (fb ∷ fbs) = record { name = fb.function.name; route = fb.function.route } ∷ specs fbs

unfoldable pub image_ref : Config → Application → String → String
image_ref cfg app id =
    String.◌++◌ cfg.registry_url (String.◌++◌ "/" (String.◌++◌ app.name (String.◌++◌ ":" id)))

unfoldable pub pending_build : Config → Application → String → ℕ → Build
unfolding image_ref
pending_build cfg app id now = record {
  build_id = id;
  application_id = app.app_id;
  image_ref = image_ref cfg app id;
  image_size_bytes = none;
  status = build_pending;
  error = "";
  created_at = now;
  finished_at = none;
}

module _ {S C : Type 0} (ops : StoreOps S) (kube : Kube C) (cfg : Config) where
  -- A Secret that is there already is as good as a new one.
  secret_made : Result KubeError (Unit {0}) × C → Result StartError (Unit {0}) × C
  secret_made (ok u, c) = (ok tt, c)
  secret_made (err exists, c) = (ok tt, c)
  secret_made (err missing, c) = (err (create_secret missing), c)
  secret_made (err deadline, c) = (err (create_secret deadline), c)
  secret_made (err (failure s), c) = (err (create_secret (failure s)), c)

  packed_secret : String → Result String Files → C → Result StartError (Unit {0}) × C
  unfolding secret_made
  packed_secret id (err name) c = (err (bad_source name), c)
  packed_secret id (ok entries) c =
      secret_made (kube.create_secret cfg.namespace (secret_name id) (build_labels id) entries c)

  unfoldable pub make_secret : String → Files → C → Result StartError (Unit {0}) × C
  unfolding packed_secret
  make_secret id files c = packed_secret id (pack files) c

  job_made : Result KubeError (Unit {0}) × C → Result StartError (Unit {0}) × C
  job_made (ok u, c) = (ok tt, c)
  job_made (err e, c) = (err (create_job e), c)

  unfoldable pub make_job : String → Application → String → C → Result StartError (Unit {0}) × C
  unfolding job_made
  make_job id app builder_image c =
      job_made
        (kube.create_job cfg.namespace (job_spec cfg id app (image_ref cfg app id) builder_image) c)

  -- `fail`, with the reason that the caller gives.
  mark_failed : (StartError → String) → String → ℕ → StartError → World S C → World S C
  mark_failed text id now e w = record w {
    store = (ops.update_build_status id build_failed (text e) (some now) w.store).1;
  }

  -- A step on the cluster that marks the build failed when it is refused.
  step :
      (StartError → String)
      → String
      → ℕ
      → Result StartError (Unit {0}) × C
      → World S C
      → (World S C → Result StartError Build × World S C)
      → Result StartError Build × World S C
  unfolding mark_failed
  step text id now (ok u, c) w next = next (record w { cluster = c })
  step text id now (err e, c) w next = (err e, mark_failed text id now e (record w { cluster = c }))

  recorded :
      (StartError → String)
      → ℕ
      → Application
      → Build
      → Files
      → String
      → Result StoreError (Unit {0}) × S
      → World S C
      → Result StartError Build × World S C
  unfolding step
  recorded text now app b files builder_image (err e, s) w =
      (err (create_row e), record w { store = s })
  recorded text now app b files builder_image (ok u, s) w =
      let w' : World S C = record w { store = s } in
      step text b.build_id now (make_secret b.build_id files w'.cluster) w' (λ w₁.
        step text b.build_id now (make_job b.build_id app builder_image w₁.cluster) w₁
          (λ w₂. (ok b, record w₂ { builds_started = w₂.builds_started + 1 })))

  with_manifest :
      (StartError → String)
      → ℕ
      → String
      → Application
      → List FunctionBuildInput
      → String
      → Option String
      → World S C
      → Result StartError Build × World S C
  unfolding recorded
  with_manifest text now id app fns builder_image none w = (err no_manifest, w)
  with_manifest text now id app fns builder_image (some toml) w =
      let b = pending_build cfg app id now in
      recorded text now app b (put_file "spin.toml" toml (placed fns)) builder_image
        (ops.create_build b w.store) w

  with_profile :
      (ℕ → Bool)
      → (StartError → String)
      → ℕ
      → String
      → Application
      → List FunctionBuildInput
      → Option String
      → World S C
      → Result StartError Build × World S C
  unfolding with_manifest
  with_profile is_print text now id app fns none w = (err no_builder, w)
  with_profile is_print text now id app [] (some image) w = (err no_functions, w)
  with_profile is_print text now id app (fb ∷ fbs) (some image) w =
      with_manifest text now id app (fb ∷ fbs) image
        (synthesize_spin_toml is_print app.language app.name (specs (fb ∷ fbs))) w

  -- `text` renders the reason that is stored with a build that failed to start.
  unfoldable pub start :
      (ℕ → Bool)
      → (StartError → String)
      → ℕ
      → String
      → Application
      → List FunctionBuildInput
      → World S C
      → Result StartError Build × World S C
  unfolding with_profile
  start is_print text now id app fns w =
      with_profile is_print text now id app fns (profile cfg app.language) w
