-- ===== src/Builder/Start/Recorded.antt =====
-- What `Start` of builder.go leaves in the tables, for each of its replies.
use spinup.Prelude.{
  eqb, if◌then◌else◌, ◌≡◌, refl, sym, ◌∙◌, ℕ, ◌+◌, String, Bool, true, false, arith, Option, none,
  some, List, [], ◌∷◌, Result, ok, err, Result-cases, inl, inr,
}
use spinup.Store.{Application, Build, build_pending, build_failed}
use spinup.Kube.{Kube, KubeError, exists, missing, deadline, failure}
use spinup.World.{World}
use spinup.Store.Sqlite
use spinup.Store.Sqlite.{Db, sqlite, get_build, with_status, stamped_build}
use spinup.Store.Sqlite.Rows.{create_build-get, create_build-refused, update_build_status-get}
use spinup.Archive.{Files, put_file}
use spinup.Builder.{
  Config, profile, FunctionBuildInput, StartError, no_builder, no_functions, no_manifest,
  create_row, bad_source, create_secret, create_job, placed,
}
use spinup.Builder.Outcome.{Ended, Stored}
use spinup.Builder.Start.{
  secret_made, job_made, packed_secret, pending_build, make_secret, make_job, mark_failed, step,
  recorded, with_manifest, with_profile, start,
}

module _ {C : Type 0} (t : ℕ) (fk : Bool) (app id : String) (now : ℕ) (before : Db) where
  -- A build that was started is stored as pending and without an end. A refusal before the row is
  -- written leaves the tables as they are, and one after it leaves a failed build with the time.
  abbrev pub Recorded : Result StartError Build × World Db C → Type 0
  Recorded (ok b, w) =
      (get_build app id w.store
        ≡ ok (record b {
          created_at = if eqb b.created_at 0 then t else b.created_at;
          image_size_bytes = none;
        }))
      × (b.build_id ≡ id)
      × (b.status ≡ build_pending)
      × (b.finished_at ≡ none)
  Recorded (err no_builder, w) = w.store ≡ before
  Recorded (err no_functions, w) = w.store ≡ before
  Recorded (err no_manifest, w) = w.store ≡ before
  Recorded (err (create_row e), w) = w.store ≡ before
  Recorded (err (bad_source name), w) = Ended app id build_failed now w
  Recorded (err (create_secret e), w) = Ended app id build_failed now w
  Recorded (err (create_job e), w) = Ended app id build_failed now w

-- The reasons that come after the row was written.
abbrev is_late : StartError → Bool
is_late no_builder = false
is_late no_functions = false
is_late no_manifest = false
is_late (create_row e) = false
is_late (bad_source name) = true
is_late (create_secret e) = true
is_late (create_job e) = true

late_Recorded :
    {C : Type 0} (t : ℕ) (fk : Bool) (app id : String) (now : ℕ) (before : Db) (e : StartError)
    (w : World Db C)
    → is_late e ≡ true
    → Ended app id build_failed now w
    → Recorded t fk app id now before (err e, w)
late_Recorded t fk app id now before no_builder w l h = absurd (ground arith)
late_Recorded t fk app id now before no_functions w l h = absurd (ground arith)
late_Recorded t fk app id now before no_manifest w l h = absurd (ground arith)
late_Recorded t fk app id now before (create_row e) w l h = absurd (ground arith)
late_Recorded t fk app id now before (bad_source name) w l h = h
late_Recorded t fk app id now before (create_secret e) w l h = h
late_Recorded t fk app id now before (create_job e) w l h = h

module _ {C : Type 0} (t : ℕ) (fk : Bool) (kube : Kube C) (cfg : Config) where
  abbrev IsLate : Result StartError (Unit {0}) → Type 0
  IsLate (ok u) = Unit
  IsLate (err e) = is_late e ≡ true

  secret_made-IsLate :
      (p : Result KubeError (Unit {0}) × C) → IsLate (secret_made (sqlite fk t) kube cfg p).0
  unfolding secret_made
  secret_made-IsLate (ok u, c) = tt
  secret_made-IsLate (err exists, c) = tt
  secret_made-IsLate (err missing, c) = refl
  secret_made-IsLate (err deadline, c) = refl
  secret_made-IsLate (err (failure s), c) = refl

  job_made-IsLate :
      (p : Result KubeError (Unit {0}) × C) → IsLate (job_made (sqlite fk t) kube cfg p).0
  unfolding job_made
  job_made-IsLate (ok u, c) = tt
  job_made-IsLate (err e, c) = refl

  packed_secret-IsLate :
      (id : String) (r : Result String Files) (c : C)
      → IsLate (packed_secret (sqlite fk t) kube cfg id r c).0
  unfolding packed_secret
  packed_secret-IsLate id (err name) c = refl
  packed_secret-IsLate id (ok entries) c = secret_made-IsLate _

  module _ (text : StartError → String) (app : Application) (id : String) (now : ℕ)
      (before : Db) where
    step-Recorded :
        (p : Result StartError (Unit {0}) × C) (w : World Db C)
        (next : World Db C → Result StartError Build × World Db C)
        → IsLate p.0
        → Stored app.app_id id w
        → ((c : C) → Recorded t fk app.app_id id now before (next (record w { cluster = c })))
        → Recorded t fk app.app_id id now before (step (sqlite fk t) kube cfg text id now p w next)
    unfolding step mark_failed with_status
    step-Recorded (ok u, c) w next late (b, h) k = k c
    step-Recorded (err e, c) w next late (b, h) k =
        late_Recorded t fk app.app_id id now before e _ late (
          with_status build_failed (text e) (some now) b,
          update_build_status-get app.app_id id (text e) build_failed (some now) w.store h,
          refl,
          refl,
        )

    started_lem :
        (image : String) (w : World Db C)
        → get_build app.app_id id w.store ≡ ok (stamped_build t (pending_build cfg app id now))
        → Recorded t fk app.app_id id now before (
            step
              (sqlite fk t)
              kube
              cfg
              text
              id
              now
              (make_job (sqlite fk t) kube cfg id app image w.cluster)
              w
              (λ w₂. (
                ok (pending_build cfg app id now),
                record w₂ { builds_started = w₂.builds_started + 1 },
              )))
    unfolding make_job pending_build stamped_build
    started_lem image w found =
        step-Recorded (make_job (sqlite fk t) kube cfg id app image w.cluster) w
          (λ w₂. (
            ok (pending_build cfg app id now),
            record w₂ { builds_started = w₂.builds_started + 1 },
          ))
          (job_made-IsLate _) (stamped_build t (pending_build cfg app id now), found)
          (λ c. (found, refl, refl, refl))

    inserted_lem :
        (files : Files) (image : String) (w : World Db C) (u : Unit {0}) (s : Db)
        → get_build app.app_id id s ≡ ok (stamped_build t (pending_build cfg app id now))
        → Recorded t fk app.app_id id now before (
            recorded
              (sqlite fk t)
              kube
              cfg
              text
              now
              app
              (pending_build cfg app id now)
              files
              image
              (ok u, s)
              w)
    unfolding recorded make_secret pending_build
    inserted_lem files image w u s found =
        step-Recorded (make_secret (sqlite fk t) kube cfg id files w.cluster)
          (record w { store = s }) _ (packed_secret-IsLate id _ _)
          (stamped_build t (pending_build cfg app id now), found)
          (λ c. started_lem image (record w { store = s; cluster = c }) found)

    recorded-Recorded :
        (files : Files) (image : String) (w : World Db C)
        → before ≡ w.store
        → Recorded t fk app.app_id id now before (
            recorded
              (sqlite fk t)
              kube
              cfg
              text
              now
              app
              (pending_build cfg app id now)
              files
              image
              (Sqlite.create_build fk t (pending_build cfg app id now) w.store)
              w)
    unfolding pending_build recorded
    recorded-Recorded files image w same =
        elim (Result-cases (Sqlite.create_build fk t (pending_build cfg app id now) w.store).0) [
          | inr (e, refusal) ↦
              rw refusal (
                create_build-refused fk t (pending_build cfg app id now) w.store refusal ∙ sym same)
          | inl (u, done) ↦
              let b = pending_build cfg app id now in
              rw done (inserted_lem files image w u _ (create_build-get fk t b w.store done))
        ]

    with_manifest-Recorded :
        (fns : List FunctionBuildInput) (image : String) (toml : Option String) (w : World Db C)
        → before ≡ w.store
        → Recorded t fk app.app_id id now before
            (with_manifest (sqlite fk t) kube cfg text now id app fns image toml w)
    unfolding with_manifest
    with_manifest-Recorded fns image none w same = sym same
    with_manifest-Recorded fns image (some toml) w same =
        recorded-Recorded (put_file "spin.toml" toml (placed fns)) image w same

    with_profile-Recorded :
        (is_print : ℕ → Bool) (fns : List FunctionBuildInput) (image : Option String)
        (w : World Db C)
        → before ≡ w.store
        → Recorded t fk app.app_id id now before
            (with_profile (sqlite fk t) kube cfg is_print text now id app fns image w)
    unfolding with_profile
    with_profile-Recorded is_print fns none w same = sym same
    with_profile-Recorded is_print [] (some image) w same = sym same
    with_profile-Recorded is_print (fb ∷ fbs) (some image) w same =
        with_manifest-Recorded (fb ∷ fbs) image _ w same

  -- A build that `Start` returns is stored as pending, without an end. A failure before the build's
  -- row is written leaves the tables as they were; a failure after it, of packing the sources, the
  -- Secret or the Job, leaves the build stored as failed with the time.
  pub start-Recorded :
      (is_print : ℕ → Bool) (text : StartError → String) (app : Application) (id : String) (now : ℕ)
      (fns : List FunctionBuildInput) (w : World Db C)
      → Recorded t fk app.app_id id now w.store
          (start (sqlite fk t) kube cfg is_print text now id app fns w)
  unfolding start
  start-Recorded is_print text app id now fns w =
      with_profile-Recorded text app id now w.store is_print fns (profile cfg app.language) w refl
