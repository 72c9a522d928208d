-- ===== src/Store/Sqlite/Integrity/Applications.antt =====
-- The statements on the applications table keep the tables consistent.
use spinup.Prelude.{
  ◌≡◌, refl, ◌∙◌, ◌≢◌, ℕ, zero, suc, ℤ, pos, negsuc, String, Bool, true, false, ◌&&◌, List, [], ◌∷◌,
  ◌++◌, All-append, arith, any, non_positive, ◌==◌, eq_iff, Bool-cases, inl, inr,
}
use spinup.Store.{Variable, Resources, Application, Function, Build}
use spinup.Store.Table.{
  delete_where, All-mono, All-of_delete_where, All-update_where, All-delete_where,
}
use spinup.Store.Table.Keys.{Distinct-append_one, Distinct-update_where, Distinct-delete_where}
use spinup.Store.Table.Search.{All-of_any-false, any-append, any-update_where, any-delete_where}
use spinup.Store.Sqlite.{
  Db, app_at, at_least_one, stamped_application, same_app_name, create_application,
  update_application_config, cascade_application, delete_application,
}
use spinup.Store.Sqlite.Integrity.{
  OtherAppName, has_app, has_fn, AppsAreSound, FnsAreSound, BuildsAreSound, IsConsistent,
}

at_least_one_positive : (n : ℤ) → non_positive (at_least_one n) ≡ false
unfolding at_least_one
at_least_one_positive (pos zero) = refl
at_least_one_positive (pos (suc n)) = refl
at_least_one_positive (negsuc n) = refl

-- Rows that refer to an application keep their reference when the applications only grow or
-- change in place.
module _ (apps apps' : List Application)
    (kept : (id : String) → has_app apps id ≡ true → has_app apps' id ≡ true) where
  FnsAreSound-of_more : {fns : List Function} → FnsAreSound apps fns → FnsAreSound apps' fns
  FnsAreSound-of_more {fns} h = record {
    ids = h.ids;
    names = h.names;
    owned = All-mono _ fns (λ f. kept f.application_id) h.owned;
  }

  BuildsAreSound-of_more :
      {builds : List Build} → BuildsAreSound apps builds → BuildsAreSound apps' builds
  BuildsAreSound-of_more {builds} h = record {
    ids = h.ids;
    owned = All-mono _ builds (λ b. kept b.application_id) h.owned;
  }

  pub IsConsistent-of_more :
      {db : Db}
      → IsConsistent db
      → db.applications ≡ apps
      → AppsAreSound apps'
      → IsConsistent (record db { applications = apps' })
  IsConsistent-of_more {db} h e s = record {
    apps = s;
    fns = FnsAreSound-of_more (rw e at h.fns);
    sources = h.sources;
    builds = BuildsAreSound-of_more (rw e at h.builds);
  }

pub ne_of_false : (s t : String) → (s == t) ≡ false → s ≢ t
ne_of_false s t h e = ground (arith, eq_iff s t)

other_name : (a b : Application) → same_app_name a b ≡ false → OtherAppName b a
unfolding same_app_name
other_name a b h e f = ground (arith, eq_iff b.tenant_id a.tenant_id, eq_iff b.name a.name)

stamped_AppsAreSound :
    (now : ℕ) (a : Application) (apps : List Application)
    → AppsAreSound apps
    → any (λ b. b.app_id == a.app_id) apps ≡ false
    → any (same_app_name a) apps ≡ false
    → AppsAreSound (apps ++ stamped_application now a ∷ [])
unfolding stamped_application
stamped_AppsAreSound now a apps h no_id no_name = record {
  ids =
      Distinct-append_one _ apps _ h.ids
        (All-mono _ apps (λ b. ne_of_false b.app_id a.app_id) (All-of_any-false _ apps no_id));
  names =
      Distinct-append_one _ apps _ h.names
        (All-mono _ apps (λ b. other_name a b) (All-of_any-false _ apps no_name));
  replicas = All-append _ apps _ h.replicas (at_least_one_positive a.replicas, tt);
}

pub create_application-IsConsistent :
    (now : ℕ) (a : Application) (db : Db)
    → IsConsistent db
    → IsConsistent (create_application now a db).1
unfolding create_application
create_application-IsConsistent now a db h =
    elim (Bool-cases (any (λ b. b.app_id == a.app_id) db.applications)) [
      | inl taken ↦ rw taken h
      | inr no_id ↦ elim (Bool-cases (any (same_app_name a) db.applications)) [
        | inl taken ↦ rw (no_id, taken) h
        | inr no_name ↦
            rw (no_id, no_name)
              (IsConsistent-of_more db.applications _
                (λ id. any-append (λ b. b.app_id == id) db.applications _) h refl
                (stamped_AppsAreSound now a db.applications h.apps no_id no_name))
      ]
    ]

pub update_application_config-IsConsistent :
    (now : ℕ) (tenant_id id desc : String) (n : ℤ) (vars : List Variable) (res : Resources)
    (db : Db)
    → IsConsistent db
    → IsConsistent (update_application_config now tenant_id id desc n vars res db).1
unfolding update_application_config
update_application_config-IsConsistent now tenant_id id desc n vars res db h =
    elim (Bool-cases (any (app_at tenant_id id) db.applications)) [
      | inr missing ↦ rw missing h
      | inl hit ↦ rw hit (
          IsConsistent-of_more db.applications _
            (λ k e. any-update_where (λ a. a.app_id == k) _ _ db.applications (λ a. refl) ∙ e) h
            refl
            (record {
              ids =
                  Distinct-update_where _ _ _ db.applications (λ a b _ k. k) (λ a b _ k. k)
                    h.apps.ids;
              names =
                  Distinct-update_where _ _ _ db.applications (λ a b _ k. k) (λ a b _ k. k)
                    h.apps.names;
              replicas =
                  All-update_where _ _ _ db.applications (λ a _ _. at_least_one_positive n)
                    h.apps.replicas;
            }))
    ]

-- Deleting an application takes its functions, their sources and its builds along, so that no row
-- is left that refers to it.
module _ (gone : Application → Bool) (db : Db) (h : IsConsistent db) where
  orphan : String → Bool
  orphan id = any (λ a. gone a && (a.app_id == id)) db.applications

  app_stays :
      (id : String)
      → orphan id ≡ false
      → has_app db.applications id ≡ true
      → has_app (delete_where gone db.applications) id ≡ true
  unfolding orphan
  app_stays id k e = any-delete_where (λ a. a.app_id == id) gone db.applications e k

  fn_stays :
      (id : String)
      → any (λ f. orphan f.application_id && (f.fn_id == id)) db.functions ≡ false
      → has_fn db.functions id ≡ true
      → has_fn (delete_where (λ f. orphan f.application_id) db.functions) id ≡ true
  fn_stays id k e =
      any-delete_where (λ f. f.fn_id == id) (λ f. orphan f.application_id) db.functions e k

  cascade_application-IsConsistent : IsConsistent (cascade_application true gone db)
  unfolding cascade_application orphan
  cascade_application-IsConsistent = record {
    apps = record {
      ids = Distinct-delete_where _ gone _ h.apps.ids;
      names = Distinct-delete_where _ gone _ h.apps.names;
      replicas = All-delete_where _ gone _ h.apps.replicas;
    };
    fns = record {
      ids = Distinct-delete_where _ _ _ h.fns.ids;
      names = Distinct-delete_where _ _ _ h.fns.names;
      owned =
          All-of_delete_where _ _ db.functions (λ f k e. app_stays f.application_id k e)
            h.fns.owned;
    };
    sources = record {
      ids = Distinct-delete_where _ _ _ h.sources.ids;
      owned =
          All-of_delete_where _ _ db.sources (λ s k e. fn_stays s.function_id k e) h.sources.owned;
    };
    builds = record {
      ids = Distinct-delete_where _ _ _ h.builds.ids;
      owned =
          All-of_delete_where _ _ db.builds (λ b k e. app_stays b.application_id k e)
            h.builds.owned;
    };
  }

pub delete_application-IsConsistent :
    (tenant_id id : String) (db : Db)
    → IsConsistent db
    → IsConsistent (delete_application true tenant_id id db).1
unfolding delete_application
delete_application-IsConsistent tenant_id id db h =
    elim (Bool-cases (any (app_at tenant_id id) db.applications)) [
      | inr missing ↦ rw missing h
      | inl hit ↦ rw hit (cascade_application-IsConsistent (app_at tenant_id id) db h)
    ]
