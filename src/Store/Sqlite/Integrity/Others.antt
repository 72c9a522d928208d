-- ===== src/Store/Sqlite/Integrity/Others.antt =====
-- The statements on the sources and builds tables keep the tables consistent.
use mathlib.Core.Path.{subst}
use spinup.Prelude.{
  ◌≡◌, refl, sym, ◌≢◌, ℕ, ℤ, String, Option, Bool, true, List, All-append, any, ◌==◌, eq_iff,
  Bool-cases, inl, inr,
}
use spinup.Store.{Source, Build, BuildStatus}
use spinup.Store.Table.{update_where, All-mono, All-update_where}
use spinup.Store.Table.Keys.{Distinct-append_one, Distinct-update_where}
use spinup.Store.Table.Search.{All-of_any-false}
use spinup.Store.Sqlite.{
  Db, put_source, stamped_build, create_build, update_build_status, update_build_image_size,
}
use spinup.Store.Sqlite.Integrity.{has_app, has_fn, SourcesAreSound, BuildsAreSound, IsConsistent}
use spinup.Store.Sqlite.Integrity.Applications.{ne_of_false}

IsConsistent-of_sources :
    {db : Db} (sources' : List Source)
    → IsConsistent db
    → SourcesAreSound db.functions sources'
    → IsConsistent (record db { sources = sources' })
IsConsistent-of_sources sources' h s = record {
  apps = h.apps;
  fns = h.fns;
  sources = s;
  builds = h.builds;
}

IsConsistent-of_builds :
    {db : Db} (builds' : List Build)
    → IsConsistent db
    → BuildsAreSound db.applications builds'
    → IsConsistent (record db { builds = builds' })
IsConsistent-of_builds builds' h s = record {
  apps = h.apps;
  fns = h.fns;
  sources = h.sources;
  builds = s;
}

pub put_source-IsConsistent :
    (now : ℕ) (src : Source) (db : Db)
    → IsConsistent db
    → IsConsistent (put_source true now src db).1
unfolding put_source
put_source-IsConsistent now src db h =
    elim (Bool-cases (any (λ s. s.function_id == src.function_id) db.sources)) [
      | inl old ↦ rw old (
          IsConsistent-of_sources _ h (record {
            ids =
                Distinct-update_where _ _ _ db.sources
                  (λ s t e k. subst (λ id. id ≢ t.function_id) ((eq_iff _ _).0 e) k)
                  (λ s t e k. subst (λ id. s.function_id ≢ id) ((eq_iff _ _).0 e) k) h.sources.ids;
            owned =
                All-update_where _ _ _ db.sources
                  (λ s e k. subst (λ id. has_fn db.functions id ≡ true) ((eq_iff _ _).0 e) k)
                  h.sources.owned;
          }))
      | inr new ↦ elim (Bool-cases (has_fn db.functions src.function_id)) [
        | inr orphan ↦ rw (new, orphan) h
        | inl owned ↦
            rw (new, owned)
              (IsConsistent-of_sources _ h (record {
                ids = Distinct-append_one _ db.sources _ h.sources.ids (
                    All-mono _ db.sources (λ s. ne_of_false s.function_id src.function_id)
                      (All-of_any-false _ db.sources new));
                owned = All-append _ db.sources _ h.sources.owned (owned, tt);
              }))
      ]
    ]

pub create_build-IsConsistent :
    (now : ℕ) (b : Build) (db : Db) → IsConsistent db → IsConsistent (create_build true now b db).1
unfolding create_build stamped_build
create_build-IsConsistent now b db h =
    elim (Bool-cases (any (λ c. c.build_id == b.build_id) db.builds)) [
      | inl taken ↦ rw taken h
      | inr no_id ↦ elim (Bool-cases (has_app db.applications b.application_id)) [
        | inr orphan ↦ rw (no_id, orphan) h
        | inl owned ↦
            rw (no_id, owned)
              (IsConsistent-of_builds _ h (record {
                ids = Distinct-append_one _ db.builds _ h.builds.ids (
                    All-mono _ db.builds (λ c. ne_of_false c.build_id b.build_id)
                      (All-of_any-false _ db.builds no_id));
                owned = All-append _ db.builds _ h.builds.owned (owned, tt);
              }))
      ]
    ]

-- An update that leaves the key and the owner of a build alone.
update_builds-IsConsistent :
    (p : Build → Bool) (f : Build → Build) (db : Db)
    → ((b : Build) → (f b).build_id ≡ b.build_id)
    → ((b : Build) → (f b).application_id ≡ b.application_id)
    → IsConsistent db
    → IsConsistent (record db { builds = update_where p f db.builds })
update_builds-IsConsistent p f db key owner h = IsConsistent-of_builds _ h (record {
  ids =
      Distinct-update_where _ p f db.builds
        (λ b c _ k. subst (λ id. id ≢ c.build_id) (sym (key b)) k)
        (λ b c _ k. subst (λ id. b.build_id ≢ id) (sym (key c)) k) h.builds.ids;
  owned =
      All-update_where _ p f db.builds
        (λ b _ k. subst (λ id. has_app db.applications id ≡ true) (sym (owner b)) k) h.builds.owned;
})

pub update_build_status-IsConsistent :
    (id : String) (status : BuildStatus) (message : String) (finished : Option ℕ) (db : Db)
    → IsConsistent db
    → IsConsistent (update_build_status id status message finished db).1
unfolding update_build_status
update_build_status-IsConsistent id status message finished db =
    update_builds-IsConsistent _ _ db (λ b. refl) (λ b. refl)

pub update_build_image_size-IsConsistent :
    (id : String) (size : ℤ) (db : Db)
    → IsConsistent db
    → IsConsistent (update_build_image_size id size db).1
unfolding update_build_image_size
update_build_image_size-IsConsistent id size db =
    update_builds-IsConsistent _ _ db (λ b. refl) (λ b. refl)
