-- ===== src/Builder/Start/Consistent.antt =====
-- `Start` of builder.go keeps the tables consistent, whatever it replies.
use spinup.Prelude.{ℕ, ◌+◌, String, Bool, true, Option, none, some, List, [], ◌∷◌, Result, ok, err}
use spinup.Store.{Application, Build, build_failed, StoreError}
use spinup.Store.Sqlite.{Db, sqlite, create_build}
use spinup.Store.Sqlite.Integrity.{IsConsistent}
use spinup.Store.Sqlite.Integrity.Others.{
  create_build-IsConsistent, update_build_status-IsConsistent,
}
use spinup.Kube.{Kube}
use spinup.World.{World}
use spinup.Archive.{Files}
use spinup.Builder.{Config, FunctionBuildInput, StartError, profile}
use spinup.Builder.Manifest.{synthesize_spin_toml}
use spinup.Builder.Start.{
  specs, pending_build, make_secret, make_job, step, recorded, with_manifest, with_profile, start,
}

module _ {C : Type 0} (t : ℕ) (kube : Kube C) (cfg : Config) (text : StartError → String) where
  abbrev Kept : {A : Type 0} → A × World Db C → Type 0
  Kept {A} p = IsConsistent p.1.store

  step-Kept :
      (id : String) (now : ℕ) (r : Result StartError (Unit {0}) × C) (w : World Db C)
      (next : World Db C → Result StartError Build × World Db C)
      → IsConsistent w.store
      → ((v : World Db C) → IsConsistent v.store → Kept (next v))
      → Kept (step (sqlite true t) kube cfg text id now r w next)
  unfolding step
  step-Kept id now (ok u, c) w next h k = k (record w { cluster = c }) h
  step-Kept id now (err e, c) w next h k =
      update_build_status-IsConsistent id build_failed (text e) (some now) w.store h

  recorded-Kept :
      (now : ℕ) (app : Application) (b : Build) (files : Files) (image : String)
      (p : Result StoreError (Unit {0}) × Db) (w : World Db C)
      → IsConsistent p.1
      → Kept (recorded (sqlite true t) kube cfg text now app b files image p w)
  unfolding recorded
  recorded-Kept now app b files image (err e, s) w h = h
  recorded-Kept now app b files image (ok u, s) w h =
      step-Kept b.build_id now (make_secret (sqlite true t) kube cfg b.build_id files w.cluster)
        (record w { store = s })
        (λ v. step (sqlite true t) kube cfg text b.build_id now (job v) v last) h
        (λ v k. step-Kept b.build_id now (job v) v last k (λ x l. l))
    where
      job : World Db C → Result StartError (Unit {0}) × C
      job v = make_job (sqlite true t) kube cfg b.build_id app image v.cluster

      last : World Db C → Result StartError Build × World Db C
      last x = (ok b, record x { builds_started = x.builds_started + 1 })

  with_manifest-Kept :
      (now : ℕ) (id : String) (app : Application) (fns : List FunctionBuildInput) (image : String)
      (toml : Option String) (w : World Db C)
      → IsConsistent w.store
      → Kept (with_manifest (sqlite true t) kube cfg text now id app fns image toml w)
  unfolding with_manifest
  with_manifest-Kept now id app fns image none w h = h
  with_manifest-Kept now id app fns image (some toml) w h =
      recorded-Kept now app (pending_build cfg app id now) _ image
        (create_build true t (pending_build cfg app id now) w.store) w
        (create_build-IsConsistent t (pending_build cfg app id now) w.store h)

  with_profile-Kept :
      (is_print : ℕ → Bool) (now : ℕ) (id : String) (app : Application)
      (fns : List FunctionBuildInput) (image : Option String) (w : World Db C)
      → IsConsistent w.store
      → Kept (with_profile (sqlite true t) kube cfg is_print text now id app fns image w)
  unfolding with_profile
  with_profile-Kept is_print now id app fns none w h = h
  with_profile-Kept is_print now id app [] (some image) w h = h
  with_profile-Kept is_print now id app (fb ∷ fbs) (some image) w h =
      with_manifest-Kept now id app (fb ∷ fbs) image
        (synthesize_spin_toml is_print app.language app.name (specs (fb ∷ fbs))) w h

  pub start-IsConsistent :
      (is_print : ℕ → Bool) (now : ℕ) (id : String) (app : Application)
      (fns : List FunctionBuildInput) (w : World Db C)
      → IsConsistent w.store
      → IsConsistent (start (sqlite true t) kube cfg is_print text now id app fns w).1.store
  unfolding start
  start-IsConsistent is_print now id app fns w h =
      with_profile-Kept is_print now id app fns (profile cfg app.language) w h
