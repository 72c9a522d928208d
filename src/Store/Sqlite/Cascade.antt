-- ===== src/Store/Sqlite/Cascade.antt =====
-- What a delete in sqlite.go takes along, what it leaves alone.
use mathlib.Core.Path.{fun_ext}
use spinup.Prelude.{
  ◌≡◌, refl, ap, ◌∙◌, ◌≢◌, ℤ, String, Bool, true, false, ◌&&◌, List, [], ◌∷◌, ok, err, arith, any,
  take-nil, ◌==◌, eq_iff, Bool-cases, inl, inr,
}
use spinup.Store.{Application, Function, not_found}
use spinup.Store.Table.{delete_where, order_by}
use spinup.Store.Table.Search.{
  keep-delete_where_disjoint, keep-delete_where_covered, find?-delete_where_covered,
  find?-delete_where_disjoint,
}
use spinup.Store.Sqlite.{
  Db, app_at, fn_at, get_application, cascade_sources, cascade_application, delete_application,
  list_functions, get_function, delete_function, get_source, list_builds,
}

-- Only the rows of application `id` go, given that there is such an application.
orphan_lem :
    (t id x : String) (apps : List Application)
    → any (λ a. app_at t id a && (a.app_id == x)) apps ≡ (any (app_at t id) apps && (id == x))
unfolding any
orphan_lem t id x [] = refl
orphan_lem t id x (a ∷ apps) =
    ground (arith, eq_iff a.app_id id, eq_iff a.app_id x, eq_iff id x, orphan_lem t id x apps)

module _ (t id : String) (db : Db) (hit : any (app_at t id) db.applications ≡ true) where
  -- The cascade, with the condition on the owner spelled out.
  cascade_lem : cascade_application true (app_at t id) db ≡ record {
    applications = delete_where (app_at t id) db.applications;
    functions = delete_where (λ f. id == f.application_id) db.functions;
    sources = cascade_sources (λ f. id == f.application_id) db.functions db.sources;
    builds = delete_where (λ b. id == b.application_id) db.builds;
  }
  unfolding cascade_application
  cascade_lem =
      let same : (λ x. any (λ a. app_at t id a && (a.app_id == x)) db.applications)
          ≡ (λ x. id == x) =
        fun_ext (λ x. orphan_lem t id x db.applications ∙ (rw hit)) in
      ap
        (λ (orphan : String → Bool). record {
          applications = delete_where (app_at t id) db.applications;
          functions = delete_where (λ f. orphan f.application_id) db.functions;
          sources = cascade_sources (λ f. orphan f.application_id) db.functions db.sources;
          builds = delete_where (λ b. orphan b.application_id) db.builds;
        })
        same

delete_application_state :
    (t id : String) (db : Db)
    → (delete_application true t id db).0 ≡ ok tt
    → (delete_application true t id db).1 ≡ record {
      applications = delete_where (app_at t id) db.applications;
      functions = delete_where (λ f. id == f.application_id) db.functions;
      sources = cascade_sources (λ f. id == f.application_id) db.functions db.sources;
      builds = delete_where (λ b. id == b.application_id) db.builds;
    }
unfolding delete_application
delete_application_state t id db done = elim (Bool-cases (any (app_at t id) db.applications)) [
  | inl hit ↦ rw hit (cascade_lem t id db hit)
  | inr miss ↦ cc (rw miss at done)
]

same_owner : (x y : String) → (x == y) ≡ true → (y == x) ≡ true
same_owner x y h = ground (arith, eq_iff x y, eq_iff y x)

other_owner : (id x y : String) → x ≢ id → (y == x) ≡ true → (id == y) ≡ false
other_owner id x y h k = ground (arith, eq_iff y x, eq_iff id y)

-- After a successful delete of an application: the application is not found, no function and no
-- build is listed for it, and the functions and builds of every other application are listed as
-- before.
pub delete_application_lem :
    (t id other : String) (n : ℤ) (db : Db)
    → (delete_application true t id db).0 ≡ ok tt
    → other ≢ id
    → (get_application t id (delete_application true t id db).1 ≡ err not_found)
      × (list_functions id (delete_application true t id db).1 ≡ ok [])
      × (list_builds id n (delete_application true t id db).1 ≡ ok [])
      × (list_functions other (delete_application true t id db).1 ≡ list_functions other db)
      × (list_builds other n (delete_application true t id db).1 ≡ list_builds other n db)
unfolding get_application list_functions list_builds order_by
delete_application_lem t id other n db done h = rw (delete_application_state t id db done) (
  rw (find?-delete_where_covered (app_at t id) (app_at t id) db.applications (λ a h. h)) refl,
  rw (keep-delete_where_covered _ _ db.functions (λ f. same_owner f.application_id id)) refl,
  rw (keep-delete_where_covered _ _ db.builds (λ b. same_owner b.application_id id)) (rw take-nil),
  rw (keep-delete_where_disjoint _ _ db.functions (λ f. other_owner id other f.application_id h))
      refl,
  rw (keep-delete_where_disjoint _ _ db.builds (λ b. other_owner id other b.application_id h)) refl,
)

orphan_source_lem :
    (app id x : String) (fns : List Function)
    → any (λ f. fn_at app id f && (f.fn_id == x)) fns ≡ (any (fn_at app id) fns && (id == x))
unfolding any
orphan_source_lem app id x [] = refl
orphan_source_lem app id x (f ∷ fns) =
    ground (arith, eq_iff f.fn_id id, eq_iff f.fn_id x, eq_iff id x, orphan_source_lem app id x fns)

-- After a successful delete of a function: it is not found, and neither is its source; every other
-- function of its application, the functions of every other application and the sources of every
-- other function are read as before.
pub delete_function_lem :
    (app id other_app other : String) (db : Db)
    → (delete_function true app id db).0 ≡ ok tt
    → other_app ≢ app
    → other ≢ id
    → (get_function app id (delete_function true app id db).1 ≡ err not_found)
      × (get_source id (delete_function true app id db).1 ≡ err not_found)
      × (get_function app other (delete_function true app id db).1 ≡ get_function app other db)
      × (list_functions other_app (delete_function true app id db).1 ≡ list_functions other_app db)
      × (get_source other (delete_function true app id db).1 ≡ get_source other db)
unfolding delete_function cascade_sources get_function list_functions get_source
delete_function_lem app id other_app other db done h k =
    elim (Bool-cases (any (fn_at app id) db.functions)) [
      | inr miss ↦ cc (rw miss at done)
      | inl hit ↦ rw hit (
        rw (find?-delete_where_covered (fn_at app id) (fn_at app id) db.functions (λ f h. h)) refl,
        rw
            (find?-delete_where_covered _ _ db.sources (λ s e.
              orphan_source_lem app id s.function_id db.functions
              ∙ (rw (hit, same_owner s.function_id id e))))
            refl,
        rw
            (find?-delete_where_disjoint (fn_at app other) (fn_at app id) db.functions
              (λ f e. ground (arith, eq_iff f.fn_id id, eq_iff f.fn_id other)))
            refl,
        rw
            (keep-delete_where_disjoint (λ f. f.application_id == other_app) (fn_at app id)
              db.functions
              (λ f e.
                ground (arith, eq_iff f.application_id other_app, eq_iff f.application_id app)))
            refl,
        rw
            (find?-delete_where_disjoint _ _ db.sources (λ s e.
              orphan_source_lem app id s.function_id db.functions
              ∙ (rw (hit, other_owner id other s.function_id k e))))
            refl,
      )
    ]
