-- ===== src/Tests/Rows.antt =====
-- Examples for the tables of sqlite.go.
use spinup.Prelude.{
  ◌≡◌, refl, pos, true, List, [], ◌∷◌, ◌++◌, ok, err, any, arith, eq_iff, keep, length, ◌≤◌, ◌⊎◌,
  ◌==◌,
}
use mathlib.Core.List.{Perm}
use spinup.Store.{Build, not_found}
use spinup.Store.Table.{Distinct}
use spinup.Store.Sqlite.{
  get_application, list_functions, list_builds, delete_application, delete_function, get_function,
  get_source, page_size,
}
use spinup.Store.Sqlite.Integrity.{IsConsistent}
use spinup.Store.Sqlite.Trace.{run, run-IsConsistent, new_app, new_fn, drop_app, empty}
use spinup.Store.Sqlite.Cascade.{delete_application_lem, delete_function_lem}
use spinup.Store.Sqlite.Rows.Listings.{list_builds_page, NotOlder}
use spinup.Tests.{shop, cart, db}

empty-IsConsistent : IsConsistent empty
empty-IsConsistent = record {
  apps = record { ids = tt; names = tt; replicas = tt };
  fns = record { ids = tt; names = tt; owned = tt };
  sources = record { ids = tt; owned = tt };
  builds = record { ids = tt; owned = tt };
}

run-IsConsistent_example :
    IsConsistent
      (run ((1, new_app shop) ∷ (2, new_fn cart) ∷ (3, drop_app "default" "a1") ∷ []) empty)
run-IsConsistent_example = run-IsConsistent _ empty empty-IsConsistent

delete_application_lem_example :
    (get_application "default" "a1" (delete_application true "default" "a1" db).1 ≡ err not_found)
    × (list_functions "a1" (delete_application true "default" "a1" db).1 ≡ ok [])
    × (list_builds "a1" (pos 5) (delete_application true "default" "a1" db).1 ≡ ok [])
    × (list_functions "a2" (delete_application true "default" "a1" db).1 ≡ list_functions "a2" db)
    × (list_builds "a2" (pos 5) (delete_application true "default" "a1" db).1
        ≡ list_builds "a2" (pos 5) db)
unfolding delete_application any
delete_application_lem_example =
    delete_application_lem "default" "a1" "a2" (pos 5) db refl
      (λ h. ground (arith, (eq_iff "a2" "a1").1 h))

delete_function_lem_example :
    (get_function "a1" "f1" (delete_function true "a1" "f1" db).1 ≡ err not_found)
    × (get_source "f1" (delete_function true "a1" "f1" db).1 ≡ err not_found)
    × (get_function "a1" "f2" (delete_function true "a1" "f1" db).1 ≡ get_function "a1" "f2" db)
    × (list_functions "a2" (delete_function true "a1" "f1" db).1 ≡ list_functions "a2" db)
    × (get_source "f2" (delete_function true "a1" "f1" db).1 ≡ get_source "f2" db)
unfolding delete_function any
delete_function_lem_example =
    delete_function_lem "a1" "f1" "a2" "f2" db refl (λ h. ground (arith, (eq_iff "a2" "a1").1 h))
      (λ h. ground (arith, (eq_iff "f2" "f1").1 h))

list_builds_page_example :
    (page : List Build) × (rest : List Build) × (list_builds "a1" (pos 1) db ≡ ok page)
    × Perm (page ++ rest) (keep (λ b. b.application_id == "a1") db.builds)
    × Distinct NotOlder (page ++ rest)
    × (length page ≤ page_size (pos 1))
    × ((rest ≡ []) ⊎ (length page ≡ page_size (pos 1)))
list_builds_page_example = list_builds_page "a1" (pos 1) db
