-- ===== src/HttpApi/Functions/Last.antt =====
-- deleteFunction of functions.go: an application keeps a function.
use mathlib.Core.Path.{subst}
use spinup.Prelude.{
  ◌≡◌, refl, sym, ap, ◌∙◌, ◌≢◌, ℕ, suc, ◌≤◌, ◌<◌, String, Bool, true, Option, none, some, List, [],
  ◌∷◌, ok, arith, length, keep, find?, any, All, ◌==◌, eq_iff, Bool-cases, Option-cases, inl, inr,
  ltb, ◌⊎◌,
}
use spinup.Store.{Function}
use spinup.World.{World}
use spinup.Store.Table.{delete_where, insert_sorted, order_by, Distinct}
use spinup.Store.Table.Search.{find?-passes, any_of_find?}
use spinup.Store.Sqlite
use spinup.Store.Sqlite.{Db, sqlite, fn_at, app_at, by_fn_name}
use spinup.Store.Sqlite.Integrity.{IsConsistent}
use spinup.HttpApi.Actions.{Claims, Server, load_function, load_application, default_tenant}
use spinup.HttpApi.Functions.{delete_function}

length-insert_sorted :
    {A : Type 0} (le : A → A → Bool) (x : A) (xs : List A)
    → length (insert_sorted le x xs) ≡ suc (length xs)
unfolding insert_sorted
length-insert_sorted le x [] = refl
length-insert_sorted le x (y ∷ ys) = ground (arith, length-insert_sorted le x ys)

length-order_by :
    {A : Type 0} (le : A → A → Bool) (xs : List A) → length (order_by le xs) ≡ length xs
unfolding order_by
length-order_by le [] = refl
length-order_by le (x ∷ xs) =
    length-insert_sorted le x (order_by le xs) ∙ ap suc (length-order_by le xs)

-- Nothing is deleted where no row has the id.
delete_where-none :
    (app id : String) (fns : List Function)
    → All (λ f. id ≢ f.fn_id) fns
    → delete_where (fn_at app id) fns ≡ fns
unfolding delete_where
delete_where-none app id [] h = refl
delete_where-none app id (f ∷ fns) (p, h) =
    ground (arith, eq_iff f.fn_id id, delete_where-none app id fns h)

-- With distinct ids at most one of the application's functions goes.
length-delete_where :
    (app id : String) (fns : List Function)
    → Distinct (λ f g. f.fn_id ≢ g.fn_id) fns
    → length (keep (λ f. f.application_id == app) fns)
      ≤ suc (length (keep (λ f. f.application_id == app) (delete_where (fn_at app id) fns)))
unfolding keep delete_where
length-delete_where app id [] h = ground arith
length-delete_where app id (f ∷ fns) (p, h) = elim (Bool-cases (fn_at app id f)) [
  | inl hit ↦
      let same : f.fn_id ≡ id = ground (arith, eq_iff f.fn_id id) in
      let rest = delete_where-none app id fns (subst (λ i. All (λ g. i ≢ g.fn_id) fns) same p) in
      ground (arith, rest)
  | inr miss ↦ ground (arith, length-delete_where app id fns h)
]

-- The application has a function.
abbrev pub HasFunction : String → Db → Type 0
HasFunction app db =
    (fns : List Function) × (Sqlite.list_functions app db ≡ ok fns) × (1 ≤ length fns)

deleted-HasFunction :
    (app fn : String) (db : Db)
    → IsConsistent db
    → 1 < length (keep (λ f. f.application_id == app) db.functions)
    → HasFunction app (Sqlite.delete_function true app fn db).1
unfolding Sqlite.delete_function Sqlite.list_functions
deleted-HasFunction app fn db sound several = elim (Bool-cases (any (fn_at app fn) db.functions)) [
  | inl hit ↦
      let count = length-delete_where app fn db.functions sound.fns.ids in
      rw hit (
        _,
        refl,
        ground (
          arith,
          several,
          count,
          length-order_by by_fn_name
              (keep (λ f. f.application_id == app) (delete_where (fn_at app fn) db.functions)),
        ),
      )
  | inr miss ↦ rw miss (
    _,
    refl,
    ground (
      arith,
      several,
      length-order_by by_fn_name (keep (λ f. f.application_id == app) db.functions),
    ),
  )
]

module _ {C Q : Type 0} (server : Server Db C Q) (t : ℕ) (app fn : String) where
  abbrev pub store_after : Option Claims → World Db C → Db
  unfolding delete_function
  store_after claims w =
      (delete_function (record server { store = sqlite true t }) claims app fn w).1.store

  -- The handler leaves the store as it is, or deletes one function of several.
  abbrev Kept : Db → Db → Type 0
  Kept db db' =
      (db' ≡ db)
      ⊎ ((db' ≡ (Sqlite.delete_function true app fn db).1)
          × (1 < length (keep (λ f. f.application_id == app) db.functions)))

  delete_function-Kept :
      (claims : Option Claims) (w : World Db C) → Kept w.store (store_after claims w)
  unfolding delete_function load_function load_application Sqlite.get_application
      Sqlite.get_function Sqlite.list_functions Sqlite.delete_function
  delete_function-Kept none w = inl refl
  delete_function-Kept (some c) w =
      elim (Option-cases (find? (app_at default_tenant app) w.store.applications)) [
        | inl none_app ↦ rw (none_app, store_after) (inl refl)
        | inr (a, an_app) ↦
            let is_app : a.app_id ≡ app =
              (let h = find?-passes (app_at default_tenant app) w.store.applications an_app in
                ground (arith, eq_iff a.app_id app)) in
            elim (Option-cases (find? (fn_at app fn) w.store.functions)) [
              | inl none_fn ↦ rw (an_app, store_after) (rw is_app (rw none_fn (inl refl)))
              | inr (f, a_fn) ↦
                  let is_fn : f.fn_id ≡ fn =
                    (let h = find?-passes (fn_at app fn) w.store.functions a_fn in
                      ground (arith, eq_iff f.fn_id fn)) in
                  let count =
                    length-order_by by_fn_name
                      (keep (λ f. f.application_id == app) w.store.functions) in
                  rw (an_app, store_after)
                    (rw is_app (
                      rw a_fn (
                        rw is_fn
                          (elim (Bool-cases (
                            ltb 1 (
                              length (
                                order_by by_fn_name
                                  (keep (λ f. f.application_id == app) w.store.functions))))) [
                                    | inl several ↦ rw several (
                                        rw (any_of_find? (fn_at app fn) w.store.functions f a_fn)
                                          (inr (refl, ground (arith, count))))
                                    | inr last ↦ rw last (inl refl)
                                  ]))))
            ]
      ]

  -- On tables that are consistent and enforce foreign keys, no call of deleteFunction, whatever it
  -- replies, takes an application's last function.
  pub delete_function-HasFunction :
      (claims : Option Claims) (w : World Db C)
      → IsConsistent w.store
      → HasFunction app w.store
      → HasFunction app (store_after claims w)
  delete_function-HasFunction claims w sound has = elim (delete_function-Kept claims w) [
    | inl same ↦ subst (HasFunction app) (sym same) has
    | inr (gone, several) ↦
        subst (HasFunction app) (sym gone) (deleted-HasFunction app fn w.store sound several)
  ]
