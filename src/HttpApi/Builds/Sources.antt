-- ===== src/HttpApi/Builds/Sources.antt =====
-- putSource and getSource of builds.go: which sources are taken, and that they are read back.
use spinup.Prelude.{
  ◌≡◌, refl, ap, ◌∙◌, ℕ, String, Bool, true, false, some, ok, arith, Bool-cases, Option-cases,
  Result-cases, inl, inr, find?, eq_iff,
}
use spinup.World.{World}
use spinup.Store.{Application, Source, Function}
use spinup.Store.Table.Search.{find?-passes}
use spinup.Store.Sqlite
use spinup.Store.Sqlite.{Db, sqlite, app_at, fn_at}
use spinup.Store.Sqlite.Rows.{put_source-get}
use spinup.Archive.{Files}
use spinup.HttpApi.Actions.{
  Claims, json, status_of, Server, load_application, load_function, default_tenant,
}
use spinup.HttpApi.Builds.{good_paths, is_empty, get_source, put_source}

put_source-others :
    (fk : Bool) (t : ℕ) (src : Source) (db : Db)
    → ((Sqlite.put_source fk t src db).1.applications ≡ db.applications)
      × ((Sqlite.put_source fk t src db).1.functions ≡ db.functions)
unfolding Sqlite.put_source
put_source-others fk t src db = ground arith

module _ {C Q : Type 0} (server : Server Db C Q) (fk : Bool) (t : ℕ) (c : Claims) (app fn : String)
    (files : Files) (w : World Db C) where
  abbrev on_sqlite : Server Db C Q
  on_sqlite = record server { store = sqlite fk t }

  abbrev row : Source
  row = record { function_id = fn; files = files; updated_at = 0 }

  abbrev after : World Db C
  unfolding put_source
  after = (put_source on_sqlite (some c) app fn (some files) w).1

  -- What an accepted source went through.
  abbrev Taken : Type 0
  Taken =
      (a : Application) × (f : Function) × (find? (app_at default_tenant app) w.store.applications
        ≡ some a)
      × (a.app_id ≡ app)
      × (find? (fn_at app fn) w.store.functions ≡ some f)
      × (f.fn_id ≡ fn)
      × (good_paths files ≡ true)
      × (is_empty files ≡ false)
      × ((Sqlite.put_source fk t row w.store).0 ≡ ok tt)
      × (after.store ≡ (Sqlite.put_source fk t row w.store).1)

  put_source-Taken : status_of (put_source on_sqlite (some c) app fn (some files) w).0 ≡ 200 → Taken
  unfolding put_source load_function load_application Sqlite.get_application Sqlite.get_function
  put_source-Taken done =
      elim (Option-cases (find? (app_at default_tenant app) w.store.applications)) [
        | inl none_app ↦ absurd (ground (arith, rw (none_app, put_source) at done))
        | inr (a, an_app) ↦
            let is_app : a.app_id ≡ app =
              (let h = find?-passes (app_at default_tenant app) w.store.applications an_app in
                ground (arith, eq_iff a.app_id app)) in
            let done' = rw is_app at (rw (an_app, put_source) at done) in
            elim (Option-cases (find? (fn_at app fn) w.store.functions)) [
              | inl none_fn ↦ absurd (ground (arith, rw (none_fn, put_source) at done'))
              | inr (f, a_fn) ↦
                  let is_fn : f.fn_id ≡ fn =
                    (let h = find?-passes (fn_at app fn) w.store.functions a_fn in
                      ground (arith, eq_iff f.fn_id fn)) in
                  let done'' = rw is_fn at (rw a_fn at done') in
                  elim (Bool-cases (is_empty files)) [
                    | inl none_file ↦ absurd (ground (arith, rw none_file at done''))
                    | inr some_file ↦
                        let done3 = rw some_file at done'' in
                        elim (Bool-cases (good_paths files)) [
                          | inr bad ↦ absurd (ground (arith, rw bad at done3))
                          | inl good ↦
                              let done4 = rw good at done3 in
                              elim (Result-cases (Sqlite.put_source fk t row w.store).0) [
                                | inr (e, failure) ↦ absurd (ground (arith, rw failure at done4))
                                | inl (u, success) ↦ (
                                  a,
                                  f,
                                  an_app,
                                  is_app,
                                  a_fn,
                                  is_fn,
                                  good,
                                  some_file,
                                  success,
                                  rw (an_app, put_source, after)
                                      (rw is_app (
                                        rw a_fn
                                          (rw is_fn (rw some_file (rw good (rw success refl)))))),
                                )
                              ]
                        ]
                  ]
            ]
      ]

  get_source_lem :
      (v : World Db C) (a : Application) (f : Function) (src : Source)
      → find? (app_at default_tenant app) v.store.applications ≡ some a
      → a.app_id ≡ app
      → find? (fn_at app fn) v.store.functions ≡ some f
      → f.fn_id ≡ fn
      → Sqlite.get_source fn v.store ≡ ok src
      → (get_source on_sqlite (some c) app fn v).0
        ≡ json 200 (record { files = src.files; updated_at = src.updated_at })
  unfolding get_source load_function load_application Sqlite.get_application Sqlite.get_function
  get_source_lem v a f src an_app is_app a_fn is_fn found =
      rw (an_app, get_source) (rw is_app (rw a_fn (rw is_fn (rw found refl))))

  -- A source that putSource accepts has files, none of them with an empty or absolute name or one
  -- that holds "..", and getSource replies with those files from then on.
  pub put_source-get_source :
      status_of (put_source on_sqlite (some c) app fn (some files) w).0 ≡ 200
      → (is_empty files ≡ false)
        × (good_paths files ≡ true)
        × ((get_source on_sqlite
              (some c)
              app
              fn
              (put_source on_sqlite (some c) app fn (some files) w).1).0
            ≡ json 200 (record { files = files; updated_at = t }))
  unfolding put_source after
  put_source-get_source done =
      let (a, f, an_app, is_app, a_fn, is_fn, good, some_file, success, state) =
        put_source-Taken done in
      let (apps, fns) = put_source-others fk t row w.store in
      (
        some_file,
        good,
        get_source_lem after a f (record row { updated_at = t })
            (ap (λ d. find? (app_at default_tenant app) d.applications) state
              ∙ ap (find? (app_at default_tenant app)) apps
              ∙ an_app)
            is_app
            (ap (λ d. find? (fn_at app fn) d.functions) state
              ∙ ap (find? (fn_at app fn)) fns
              ∙ a_fn)
            is_fn (ap (Sqlite.get_source fn) state ∙ put_source-get fk t row w.store success),
      )
