-- ===== src/HttpApi/Applications/Created.antt =====
-- createApplication of applications.go: a new application has its first function, or is not there.
use spinup.Prelude.{
  ◌≡◌, refl, ap, ℕ, String, Bool, true, false, some, List, [], ◌∷◌, ◌++◌, Result, ok, arith, All,
  keep, Bool-cases, Result-cases, inl, inr, ◌==◌, eq_iff,
}
use spinup.World.{World}
use spinup.Store.{Application, Function, StoreError}
use spinup.Store.Table.{order_by, insert_sorted}
use spinup.Store.Sqlite
use spinup.Store.Sqlite.Rows.{create_application-get}
use spinup.Store.Sqlite.{Db, sqlite, stamped_application, stamped_function, same_fn_name}
use spinup.Store.Sqlite.Integrity.{IsConsistent, has_app}
use spinup.HttpApi.Names.{dns1123}
use spinup.HttpApi.Dto.{CreateApplicationInput}
use spinup.HttpApi.Actions.{Claims, status_of, Server, default_tenant}
use spinup.HttpApi.Applications.{
  create_application, default_function, new_application, is_language, is_runtime, requested_runtime,
  roll_back,
}

-- No function belongs to an application that is not there.
keep-unowned :
    (id : String) (apps : List Application) (fns : List Function)
    → has_app apps id ≡ false
    → All (λ f. has_app apps f.application_id ≡ true) fns
    → keep (λ f. f.application_id == id) fns ≡ []
unfolding keep
keep-unowned id apps [] h k = refl
keep-unowned id apps (f ∷ fns) h (p, k) = elim (Bool-cases (f.application_id == id)) [
  | inl own ↦
      let same : f.application_id ≡ id = (eq_iff _ _).0 own in
      absurd (ground (arith, ap (has_app apps) same))
  | inr other ↦ rw other (keep-unowned id apps fns h k)
]

keep-append_one :
    {A : Type 0} (p : A → Bool) (xs : List A) (y : A)
    → p y ≡ true
    → keep p xs ≡ []
    → keep p (xs ++ y ∷ []) ≡ y ∷ []
unfolding keep
keep-append_one p [] y h k = ground arith
keep-append_one p (x ∷ xs) y h k = ground (arith, keep-append_one p xs y h)

create_application-fresh :
    (t : ℕ) (a : Application) (db : Db)
    → (Sqlite.create_application t a db).0 ≡ ok tt
    → has_app db.applications a.app_id ≡ false
unfolding Sqlite.create_application
create_application-fresh t a db done = ground arith

create_application-functions :
    (t : ℕ) (a : Application) (db : Db)
    → (Sqlite.create_application t a db).1.functions ≡ db.functions
unfolding Sqlite.create_application
create_application-functions t a db = ground arith

create_function-functions :
    (t : ℕ) (f : Function) (db : Db)
    → (Sqlite.create_function true t f db).0 ≡ ok tt
    → (Sqlite.create_function true t f db).1.functions ≡ db.functions ++ stamped_function t f ∷ []
unfolding Sqlite.create_function
create_function-functions t f db done = ground arith

-- After both inserts the application has the one function.
both_lem :
    (t : ℕ) (a : Application) (f : Function) (db : Db)
    → IsConsistent db
    → f.application_id ≡ a.app_id
    → (Sqlite.create_application t a db).0 ≡ ok tt
    → (Sqlite.create_function true t f (Sqlite.create_application t a db).1).0 ≡ ok tt
    → Sqlite.list_functions a.app_id
        (Sqlite.create_function true t f (Sqlite.create_application t a db).1).1
      ≡ ok (stamped_function t f ∷ [])
unfolding Sqlite.list_functions order_by insert_sorted
both_lem t a f db sound owner first second =
    let none_yet =
      keep-unowned a.app_id db.applications db.functions (create_application-fresh t a db first)
        sound.fns.owned in
    rw (create_function-functions t f (Sqlite.create_application t a db).1 second) (
      rw (create_application-functions t a db) (
        rw
          (keep-append_one (λ g. g.application_id == a.app_id) db.functions (stamped_function t f)
            ((unfold stamped_function in (eq_iff _ _).1 owner)) none_yet)
          refl))

create_function-applications :
    (t : ℕ) (f : Function) (db : Db)
    → (Sqlite.create_function true t f db).1.applications ≡ db.applications
unfolding Sqlite.create_function
create_function-applications t f db = ground arith

module _ {C Q : Type 0} (server : Server Db C Q) (t : ℕ) (c : Claims) (id fn_id : String)
    (input : CreateApplicationInput) (w : World Db C) where
  abbrev on_sqlite : Server Db C Q
  on_sqlite = record server { store = sqlite true t }

  abbrev with_app : Db
  with_app = (Sqlite.create_application t (new_application id input) w.store).1

  abbrev with_fn : Result StoreError (Unit {0}) × Db
  with_fn = Sqlite.create_function true t (default_function fn_id id) with_app

  abbrev Accepted : Type 0
  unfolding create_application new_application
  Accepted =
      ((Sqlite.create_application t (new_application id input) w.store).0 ≡ ok tt)
      × (with_fn.0 ≡ ok tt)
      × ((create_application on_sqlite (some c) id fn_id (some input) w).1.store ≡ with_fn.1)

  create_application-Accepted :
      status_of (create_application on_sqlite (some c) id fn_id (some input) w).0 ≡ 201 → Accepted
  unfolding create_application roll_back new_application
  create_application-Accepted done = elim (Bool-cases (dns1123 input.name)) [
    | inr bad ↦ absurd (ground (arith, rw (bad, create_application) at done))
    | inl name ↦
        let done1 = rw (name, create_application) at done in
        elim (Bool-cases (is_language input.language)) [
          | inr bad ↦ absurd (ground (arith, rw bad at done1))
          | inl language ↦
              let done2 = rw language at done1 in
              elim (Bool-cases (is_runtime (requested_runtime input.runtime))) [
                | inr bad ↦ absurd (ground (arith, rw bad at done2))
                | inl runtime ↦
                    let done3 = rw runtime at done2 in
                    elim (Result-cases
                      (Sqlite.create_application t (new_application id input) w.store).0) [
                        | inr (e, bad) ↦ absurd (ground (arith, rw bad at done3))
                        | inl (u, first) ↦
                            let done4 = rw first at done3 in
                            elim (Result-cases with_fn.0) [
                              | inr (e, bad) ↦ absurd (ground (arith, rw bad at done4))
                              | inl (v, second) ↦ (
                                first,
                                second,
                                rw (name, create_application)
                                    (rw language (rw runtime (rw first (rw second refl)))),
                              )
                            ]
                      ]
              ]
        ]
  ]

  -- An application that createApplication answers with 201 is stored with the store's defaults, and
  -- has exactly one function, the default one, on tables that are consistent and enforce foreign
  -- keys.
  pub create_application_lem :
      IsConsistent w.store
      → status_of (create_application on_sqlite (some c) id fn_id (some input) w).0 ≡ 201
      → (Sqlite.get_application default_tenant id
            (create_application on_sqlite (some c) id fn_id (some input) w).1.store
          ≡ ok (stamped_application t (new_application id input)))
        × (Sqlite.list_functions id
              (create_application on_sqlite (some c) id fn_id (some input) w).1.store
            ≡ ok (stamped_function t (default_function fn_id id) ∷ []))
  unfolding Accepted Sqlite.get_application new_application default_function
  create_application_lem sound done =
      let (first, second, state) = create_application-Accepted done in
      rw state (
        rw (create_function-applications t (default_function fn_id id) with_app)
            (create_application-get t (new_application id input) w.store first),
        both_lem t (new_application id input) (default_function fn_id id) w.store sound refl first
            second,
      )
