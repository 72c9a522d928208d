-- ===== src/HttpApi/Worker/Served.antt =====
-- What the worker pool is told to serve: worker.go, for an application at a time.
use spinup.Prelude.{
  ◌≡◌, refl, ◌≢◌, String, true, false, some, List, [], ◌∷◌, All, arith, find?, ◌==◌, eq_iff,
  Option-cases, sym, pos, Bool-cases, inl, inr, ◌⊎◌,
}
use spinup.Store.{Application, Build, build_succeeded, runtime_worker_pool, StoreOps}
use spinup.HttpApi.Dto.{WorkerAppEntry, is_succeeded, or_empty}
use spinup.Store.Table.Search.{find?-passes}
use spinup.Store.Table.{All-mono}
use spinup.HttpApi.Worker.{latest_successful_image, worker_entry, worker_entries}

succeeded : (b : Build) → is_succeeded b ≡ true → b.status ≡ build_succeeded
succeeded b h = ground arith

abbrev pub IsListed : Application → List Application → Type 0
IsListed a [] = ⊥
IsListed a (b ∷ apps) = (a ≡ b) ⊎ IsListed a apps

module _ {S : Type 0} (ops : StoreOps S) (s : S) where
  -- An entry serves an application of the worker pool, with the image of the first succeeded build
  -- among its last 30.
  abbrev pub Served : Application → WorkerAppEntry → Type 0
  Served a e =
      (b : Build) × (find? is_succeeded (or_empty (ops.list_builds a.app_id (pos 30) s)) ≡ some b)
      × (b.status ≡ build_succeeded)
      × (a.runtime ≡ runtime_worker_pool)
      × (e.id ≡ a.app_id)
      × (e.image_ref ≡ b.image_ref)
      × (b.image_ref ≢ "")

  latest_lem :
      (app : String)
      → (latest_successful_image ops s app == "") ≡ false
      → (b : Build) × (find? is_succeeded (or_empty (ops.list_builds app (pos 30) s)) ≡ some b)
        × (b.status ≡ build_succeeded)
        × (b.image_ref ≡ latest_successful_image ops s app)
  unfolding latest_successful_image
  latest_lem app h =
      elim (Option-cases (find? is_succeeded (or_empty (ops.list_builds app (pos 30) s)))) [
        | inl none_yet ↦ cc (rw (none_yet, latest_successful_image) at h)
        | inr (b, found) ↦
            (b, found, succeeded b (find?-passes is_succeeded _ found), rw found refl)
      ]

  entry_lem :
      (a : Application)
      → (a.runtime == runtime_worker_pool) ≡ true
      → (latest_successful_image ops s a.app_id == "") ≡ false
      → Served a (worker_entry ops s a (latest_successful_image ops s a.app_id))
  unfolding worker_entry
  entry_lem a pool image =
      let (b, found, done, same) = latest_lem a.app_id image in
      (
        b,
        found,
        done,
        (eq_iff _ _).0 pool,
        refl,
        sym same,
        (λ blank. ground (arith, eq_iff (latest_successful_image ops s a.app_id) "")),
      )

  -- Every entry of the worker configuration is for a listed application of the worker pool, with
  -- the image, which is not empty, of the first succeeded build among the application's last 30.
  pub worker_entries-Served :
      (apps : List Application)
      → All (λ e. (a : Application) × (IsListed a apps) × Served a e) (worker_entries ops s apps)
  unfolding worker_entries
  worker_entries-Served [] = tt
  worker_entries-Served (a ∷ apps) =
      let later =
        All-mono _ (worker_entries ops s apps)
          (λ e (x : (b : Application) × (IsListed b apps) × Served b e). (x.0, inr x.1, x.2))
          (worker_entries-Served apps) in
      elim (Bool-cases (a.runtime == runtime_worker_pool)) [
        | inr spin ↦ rw spin later
        | inl pool ↦ elim (Bool-cases (latest_successful_image ops s a.app_id == "")) [
          | inl blank ↦ rw pool (rw blank later)
          | inr image ↦ rw pool (rw image ((a, inl refl, entry_lem a pool image), later))
        ]
      ]
