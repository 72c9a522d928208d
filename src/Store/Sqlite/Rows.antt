-- ===== src/Store/Sqlite/Rows.antt =====
-- What a query of sqlite.go returns after a command: round trips, order and bounds.
pub mod Listings
use spinup.Prelude.{
  err, ◌≡◌, refl, ◌∙◌, ◌≢◌, ℕ, ℤ, String, Bool, true, false, ◌&&◌, List, [], ◌∷◌, ◌++◌, Result, ok,
  err, Option, none, some, arith, any, find?, ◌==◌, eq_iff, eq_refl, Bool-cases, inl, inr,
  if◌then◌else◌,
}
use spinup.Store.{
  StoreError, Application, Function, Source, Build, Variable, Resources, BuildStatus, not_found,
}
use spinup.Store.Table.{update_where}
use spinup.Store.Table.Search.{
  find?-append_one, find?-update_where, find?-update_covered, any_of_find?,
}
use spinup.Store.Sqlite.{
  create_build, stamped_build, Db, app_at, fn_at, build_at, get_application, create_application,
  stamped_application, get_function, create_function, stamped_function, get_source, put_source,
  get_build, create_build, stamped_build, configured, update_application_config, rerouted,
  update_function_route, with_status, update_build_status, update_build_image_size,
  row_or_not_found,
}
use spinup.Store.Sqlite.Integrity.{has_app, has_fn}

row_found : {A : Type 0} (o : Option A) {a : A} → row_or_not_found o ≡ ok a → o ≡ some a
row_found none h = cc
row_found (some x) h = cc

no_app_at :
    (t id : String) (apps : List Application)
    → any (λ a. a.app_id == id) apps ≡ false
    → any (app_at t id) apps ≡ false
unfolding any
no_app_at t id [] h = refl
no_app_at t id (a ∷ apps) h = ground (arith, no_app_at t id apps)

-- An application that was created is read back with the defaults that the store fills in: a
-- runtime, a positive replica count, and the time.
pub create_application-get :
    (now : ℕ) (a : Application) (db : Db)
    → (create_application now a db).0 ≡ ok tt
    → get_application a.tenant_id a.app_id (create_application now a db).1
      ≡ ok (stamped_application now a)
unfolding create_application get_application stamped_application
create_application-get now a db done = ground (
  arith,
  no_app_at a.tenant_id a.app_id db.applications,
  find?-append_one (app_at a.tenant_id a.app_id) db.applications (stamped_application now a),
  eq_iff a.tenant_id a.tenant_id,
  eq_iff a.app_id a.app_id,
)

-- A configured application is read back with the new description, variables, resources and
-- replica count, and with its name, language and runtime as they were.
pub update_application_config-get :
    (now : ℕ) (t id desc : String) (n : ℤ) (vars : List Variable) (res : Resources) (db : Db)
    {a : Application}
    → get_application t id db ≡ ok a
    → ((update_application_config now t id desc n vars res db).0 ≡ ok tt)
      × (get_application t id (update_application_config now t id desc n vars res db).1
          ≡ ok (configured now desc n vars res a))
unfolding update_application_config get_application
update_application_config-get now t id desc n vars res db {a} h =
    let found : find? (app_at t id) db.applications ≡ some a = row_found _ h in
    rw (any_of_find? (app_at t id) db.applications a found) (
      refl,
      rw
          (find?-update_where (app_at t id) (configured now desc n vars res) db.applications
            (λ x e. (unfold configured in e)) found)
          refl,
    )

find?-replace :
    {A : Type 0} (p : A → Bool) (row : A) (xs : List A)
    → any p xs ≡ true
    → p row ≡ true
    → find? p (update_where p (λ _. row) xs) ≡ some row
unfolding find? any update_where
find?-replace p row [] h k = ground arith
find?-replace p row (x ∷ xs) h k = ground (arith, find?-replace p row xs)

-- A source that was put is read back with its files and the time, whether it is the first for its
-- function or replaces another.
pub put_source-get :
    (fk : Bool) (now : ℕ) (src : Source) (db : Db)
    → (put_source fk now src db).0 ≡ ok tt
    → get_source src.function_id (put_source fk now src db).1 ≡ ok (record src { updated_at = now })
unfolding put_source get_source
put_source-get fk now src db done =
    let row : Source = record src { updated_at = now } in
    let at : Source → Bool = λ s. s.function_id == src.function_id in
    ground (
      arith,
      find?-replace at row db.sources,
      find?-append_one at db.sources row,
      eq_iff src.function_id src.function_id,
    )

at_build : (app id : String) (b : Build) → build_at app id b ≡ true → (b.build_id == id) ≡ true
at_build app id b h = ground arith

-- A build whose status was updated is read back with the status, the message and the time given,
-- and with its image and its application as they were.
pub update_build_status-get :
    (app id message : String) (status : BuildStatus) (finished : Option ℕ) (db : Db) {b : Build}
    → get_build app id db ≡ ok b
    → get_build app id (update_build_status id status message finished db).1
      ≡ ok (with_status status message finished b)
unfolding update_build_status get_build
update_build_status-get app id message status finished db {b} h =
    rw
      (find?-update_covered (build_at app id) (λ c. c.build_id == id)
        (with_status status message finished) db.builds (λ c. (unfold with_status in refl))
        (at_build app id) (row_found _ h))
      refl

-- A build whose image size was stored is read back with that size and otherwise as it was.
pub update_build_image_size-get :
    (app id : String) (n : ℤ) (db : Db) {b : Build}
    → get_build app id db ≡ ok b
    → get_build app id (update_build_image_size id n db).1
      ≡ ok (record b { image_size_bytes = some n })
unfolding update_build_image_size get_build
update_build_image_size-get app id n db {b} h =
    rw
      (find?-update_covered (build_at app id) (λ c. c.build_id == id)
        (λ c. record c { image_size_bytes = some n }) db.builds (λ c. refl) (at_build app id)
        (row_found _ h))
      refl

no_build_at :
    (app id : String) (builds : List Build)
    → any (λ b. b.build_id == id) builds ≡ false
    → any (build_at app id) builds ≡ false
unfolding any
no_build_at app id [] h = refl
no_build_at app id (b ∷ builds) h = ground (arith, no_build_at app id builds)

-- A build that was created is read back without an image size, and with the time if it named none.
pub create_build-get :
    (fk : Bool) (now : ℕ) (b : Build) (db : Db)
    → (create_build fk now b db).0 ≡ ok tt
    → get_build b.application_id b.build_id (create_build fk now b db).1 ≡ ok (stamped_build now b)
unfolding create_build get_build stamped_build
create_build-get fk now b db done = ground (
  arith,
  no_build_at b.application_id b.build_id db.builds,
  find?-append_one (build_at b.application_id b.build_id) db.builds (stamped_build now b),
  eq_iff b.application_id b.application_id,
  eq_iff b.build_id b.build_id,
)

-- A refused build leaves the tables as they are.
pub create_build-refused :
    (fk : Bool) (now : ℕ) (b : Build) (db : Db) {e : StoreError}
    → (create_build fk now b db).0 ≡ err e
    → (create_build fk now b db).1 ≡ db
unfolding create_build
create_build-refused fk now b db h = ground arith
