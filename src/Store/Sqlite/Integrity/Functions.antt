-- ===== src/Store/Sqlite/Integrity/Functions.antt =====
-- The statements on the functions and sources tables keep the tables consistent.
use spinup.Prelude.{
  ◌≡◌, refl, ◌∙◌, ℕ, String, true, false, List, All-append, arith, any, ◌==◌, eq_iff, Bool-cases,
  inl, inr,
}
use spinup.Store.{Function}
use spinup.Store.Table.{All-mono, All-of_delete_where, All-update_where, All-delete_where}
use spinup.Store.Table.Keys.{Distinct-append_one, Distinct-update_where, Distinct-delete_where}
use spinup.Store.Table.Search.{All-of_any-false, any-append, any-update_where, any-delete_where}
use spinup.Store.Sqlite.{
  Db, fn_at, stamped_function, same_fn_name, create_function, update_function_route,
  delete_function,
}
use spinup.Store.Sqlite.Integrity.{OtherFnName, has_app, has_fn, FnsAreSound, IsConsistent}
use spinup.Store.Sqlite.Integrity.Applications.{ne_of_false}

-- Functions may be replaced by others that keep every function that a source refers to.
pub IsConsistent-of_fns :
    {db : Db} (fns' : List Function)
    → IsConsistent db
    → FnsAreSound db.applications fns'
    → ((id : String) → has_fn db.functions id ≡ true → has_fn fns' id ≡ true)
    → IsConsistent (record db { functions = fns' })
IsConsistent-of_fns {db} fns' h s kept = record {
  apps = h.apps;
  fns = s;
  sources = record {
    ids = h.sources.ids;
    owned = All-mono _ db.sources (λ r. kept r.function_id) h.sources.owned;
  };
  builds = h.builds;
}

other_name : (f g : Function) → same_fn_name f g ≡ false → OtherFnName g f
unfolding same_fn_name
other_name f g h e k =
    ground (arith, eq_iff g.application_id f.application_id, eq_iff g.name f.name)

pub create_function-IsConsistent :
    (now : ℕ) (f : Function) (db : Db)
    → IsConsistent db
    → IsConsistent (create_function true now f db).1
unfolding create_function stamped_function
create_function-IsConsistent now f db h =
    elim (Bool-cases (any (λ g. g.fn_id == f.fn_id) db.functions)) [
      | inl taken ↦ rw taken h
      | inr no_id ↦ elim (Bool-cases (any (same_fn_name f) db.functions)) [
        | inl taken ↦ rw (no_id, taken) h
        | inr no_name ↦ elim (Bool-cases (has_app db.applications f.application_id)) [
          | inr orphan ↦ rw (no_id, no_name, orphan) h
          | inl owned ↦
              rw (no_id, no_name, owned)
                (IsConsistent-of_fns _ h
                  (record {
                    ids = Distinct-append_one _ db.functions _ h.fns.ids (
                        All-mono _ db.functions (λ g. ne_of_false g.fn_id f.fn_id)
                          (All-of_any-false _ db.functions no_id));
                    names = Distinct-append_one _ db.functions _ h.fns.names (
                        All-mono _ db.functions (λ g. other_name f g)
                          (All-of_any-false _ db.functions no_name));
                    owned = All-append _ db.functions _ h.fns.owned (owned, tt);
                  })
                  (λ id. any-append (λ g. g.fn_id == id) db.functions _))
        ]
      ]
    ]

pub update_function_route-IsConsistent :
    (now : ℕ) (application_id id route : String) (db : Db)
    → IsConsistent db
    → IsConsistent (update_function_route now application_id id route db).1
unfolding update_function_route
update_function_route-IsConsistent now application_id id route db h =
    elim (Bool-cases (any (fn_at application_id id) db.functions)) [
      | inr missing ↦ rw missing h
      | inl hit ↦ rw hit (
          IsConsistent-of_fns _ h
            (record {
              ids =
                  Distinct-update_where _ _ _ db.functions (λ f g _ k. k) (λ f g _ k. k) h.fns.ids;
              names =
                  Distinct-update_where _ _ _ db.functions (λ f g _ k. k) (λ f g _ k. k)
                    h.fns.names;
              owned = All-update_where _ _ _ db.functions (λ f _ k. k) h.fns.owned;
            })
            (λ k e. any-update_where (λ f. f.fn_id == k) _ _ db.functions (λ f. refl) ∙ e))
    ]

pub delete_function-IsConsistent :
    (application_id id : String) (db : Db)
    → IsConsistent db
    → IsConsistent (delete_function true application_id id db).1
unfolding delete_function
delete_function-IsConsistent application_id id db h =
    elim (Bool-cases (any (fn_at application_id id) db.functions)) [
      | inr missing ↦ rw missing h
      | inl hit ↦ rw hit (record {
        apps = h.apps;
        fns = record {
          ids = Distinct-delete_where _ _ _ h.fns.ids;
          names = Distinct-delete_where _ _ _ h.fns.names;
          owned = All-delete_where _ _ _ h.fns.owned;
        };
        sources = record {
          ids = Distinct-delete_where _ _ _ h.sources.ids;
          owned =
              All-of_delete_where _ _ db.sources
                (λ s k e. any-delete_where (λ f. f.fn_id == s.function_id) _ db.functions e k)
                h.sources.owned;
        };
        builds = h.builds;
      })
    ]
