-- ===== src/Builder/Outcome.antt =====
-- How a watched build ends: a terminal status with a time, read back from the tables.
use mathlib.Core.Path.{subst}
use spinup.Prelude.{
  ◌≡◌, refl, inl, inr, ℕ, ℤ, String, Bool, Option, none, some, List, Result, ok, err, arith,
  non_positive, if◌then◌else◌, ◌==◌, Bool-cases, ◌||◌, ◌&&◌, is_ok,
}
use spinup.Store.{
  Application, Build, BuildStatus, build_running, build_succeeded, build_failed,
  runtime_worker_pool,
}
use spinup.Kube.{Kube, KubeError, JobStatus}
use spinup.World.{World}
use spinup.Store.Sqlite.{Db, sqlite, get_build, update_build_image_size, with_status}
use spinup.Store.Sqlite.Rows.{update_build_status-get, update_build_image_size-get}
use spinup.Deploy
use spinup.Deploy.{Deployer, wanted_replicas, spin_spec}
use spinup.SpinApp.{SpinError}
use spinup.Builder.{
  poll, deploy_request, set_status, fail_build, succeed_build, sized, deployed, publish, finish,
  watch, extract_image_size,
}

module _ {C : Type 0} (app id : String) where
  abbrev pub Stored : World Db C → Type 0
  Stored w = (b : Build) × (get_build app id w.store ≡ ok b)

  -- The build is stored with a final status and the time.
  abbrev pub Ended : BuildStatus → ℕ → World Db C → Type 0
  Ended s now w =
      (b : Build) × (get_build app id w.store ≡ ok b) × (b.status ≡ s) × (b.finished_at ≡ some now)

module _ {C : Type 0} (fk : Bool) (t : ℕ) (app id : String) where
  set_status-Stored :
      (s : BuildStatus) (message : String) (at : Option ℕ) (w : World Db C)
      → Stored app id w
      → Stored app id (set_status (sqlite fk t) id s message at w)
  unfolding set_status
  set_status-Stored s message at w (b, h) =
      (with_status s message at b, update_build_status-get app id message s at w.store h)

  sized-Stored :
      (log : Option (List String)) (w : World Db C)
      → Stored app id w
      → Stored app id (sized (sqlite fk t) id log w)
  unfolding sized
  sized-Stored log w (b, h) = go (extract_image_size log)
    where
      go :
          (o : Option ℤ)
          → Stored app id (elim o [
            | none ↦ w
            | some n ↦ record w { store = (update_build_image_size id n w.store).1 }
          ])
      go none = (b, h)
      go (some n) =
          (record b { image_size_bytes = some n }, update_build_image_size-get app id n w.store h)

  sized-cluster :
      (log : Option (List String)) (w : World Db C)
      → (sized (sqlite fk t) id log w).cluster ≡ w.cluster
  unfolding sized
  sized-cluster log w = ground arith

  fail_build-Ended :
      (message : String) (now : ℕ) (w : World Db C)
      → Stored app id w
      → Ended app id build_failed now (fail_build (sqlite fk t) id message now w)
  unfolding fail_build with_status
  fail_build-Ended message now w (b, h) = (
    with_status build_failed message (some now) b,
    update_build_status-get app id message build_failed (some now) w.store h,
    refl,
    refl,
  )

  succeed_build-Ended :
      (now : ℕ) (w : World Db C)
      → Stored app id w
      → Ended app id build_succeeded now (succeed_build (sqlite fk t) id now w)
  unfolding succeed_build with_status
  succeed_build-Ended now w (b, h) = (
    with_status build_succeeded "" (some now) b,
    update_build_status-get app id "" build_succeeded (some now) w.store h,
    refl,
    refl,
  )

module _ {C : Type 0} (fk : Bool) (t : ℕ) (kube : Kube C) {Q : Type 0} (parse : String → Option Q)
    (exceeds : Q → Q → Bool) (d : Deployer) (error_text : SpinError → String)
    (kube_text : KubeError → String) (app : Application) (id image : String) (now : ℕ) where
  -- The status that a build should end with, from what became of its Job and its deployment.
  unfoldable pub verdict : Result KubeError JobStatus → Bool → BuildStatus
  verdict (err e) published = build_failed
  verdict (ok j) published =
      if non_positive j.failed && published then build_succeeded else build_failed

  -- A worker pool application has nothing to deploy; any other is published if it is applied.
  unfoldable pub published : C → Bool
  published c =
      app.runtime == runtime_worker_pool
      || is_ok (Deploy.deploy parse exceeds d kube (deploy_request app image) c).0

  deployed-Ended :
      {A : Type 0} (w : World Db C) (p : Result SpinError A × C)
      → Stored app.app_id id w
      → Ended app.app_id id
          (if is_ok p.0 then build_succeeded else build_failed)
          now
          (deployed (sqlite fk t) kube parse exceeds d error_text kube_text id now w p)
  unfolding deployed
  deployed-Ended w (ok st, c) h =
      succeed_build-Ended fk t app.app_id id now (record w { cluster = c }) h
  deployed-Ended w (err e, c) h =
      fail_build-Ended fk t app.app_id id _ now (record w { cluster = c }) h

  publish-Ended :
      (w : World Db C)
      → Stored app.app_id id w
      → Ended app.app_id id
          (if published w.cluster then build_succeeded else build_failed)
          now
          (publish (sqlite fk t) kube parse exceeds d error_text kube_text id app image now w)
  unfolding publish published
  publish-Ended w h = elim (Bool-cases (app.runtime == runtime_worker_pool)) [
    | inl pool ↦ rw pool (succeed_build-Ended fk t app.app_id id now w h)
    | inr spin ↦ rw spin (deployed-Ended w _ h)
  ]

  finish-Ended :
      (r : Result KubeError JobStatus) (log : Option (List String)) (w : World Db C)
      → Stored app.app_id id w
      → Ended app.app_id id
          (verdict r (published w.cluster))
          now
          (finish (sqlite fk t) kube parse exceeds d error_text kube_text id app image now log r w)
  unfolding finish verdict
  finish-Ended (err e) log w h = fail_build-Ended fk t app.app_id id _ now w h
  finish-Ended (ok j) log w h = elim (Bool-cases (non_positive j.failed)) [
    | inl fine ↦
        let w' = sized (sqlite fk t) id log w in
        rw fine (
          subst
            (λ c.
              Ended app.app_id id (if published c then build_succeeded else build_failed) now (
                publish (sqlite fk t) kube parse exceeds d error_text kube_text id app image now
                  w'))
            (sized-cluster fk t app.app_id id log w)
            (publish-Ended w' (sized-Stored fk t app.app_id id log w h)))
    | inr bad ↦ rw bad (fail_build-Ended fk t app.app_id id _ now w h)
  ]

  -- A stored build whose watch is over is stored as finished, with the time: as succeeded exactly
  -- if a look at the Job found it done with no failed pod and the application was published, and
  -- as failed in every other case, a lost Job and the fifteen minutes' limit included.
  pub watch-Ended :
      (polls : List (Result KubeError JobStatus)) (log : Option (List String)) (w : World Db C)
      → Stored app.app_id id w
      → Ended app.app_id id (verdict (poll polls) (published w.cluster)) now (
          watch
            (sqlite fk t)
            kube
            parse
            exceeds
            d
            error_text
            kube_text
            id
            app
            image
            now
            polls
            log
            w)
  unfolding watch set_status
  watch-Ended polls log w h =
      finish-Ended (poll polls) log _
        (set_status-Stored fk t app.app_id id build_running "" none w h)
