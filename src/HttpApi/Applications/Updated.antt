-- ===== src/HttpApi/Applications/Updated.antt =====
-- updateApplication of applications.go: what is stored for a request that is accepted.
use spinup.Prelude.{
  [], ok-injective, ◌≡◌, refl, sym, ap, ◌∙◌, ℕ, pos, negative, non_positive, if◌then◌else◌, String,
  Bool, true, false, Option, none, some, Result, ok, err, arith, find?, Bool-cases, Option-cases,
  Result-cases, inl, inr, eq_iff,
}
use spinup.World.{World}
use spinup.Policy
use spinup.Policy.{is_policy_violation}
use spinup.Kube.{KubeError}
use spinup.SpinApp
use spinup.Store.{Application, Resources, StoreError}
use spinup.Store.Table.Search.{find?-passes}
use spinup.Store.Sqlite
use spinup.Store.Sqlite.{Db, sqlite, app_at, configured}
use spinup.Store.Sqlite.Rows.{update_application_config-get}
use spinup.HttpApi.Dto.{UpdateApplicationInput}
use spinup.HttpApi.Actions.{Claims, status_of, Server, load_application, default_tenant}
use spinup.HttpApi.Applications.{update_application, reconcile, redeployed, or_value, valid_names}

got_id :
    {id : String} (db : Db) (app : Application)
    → Sqlite.get_application default_tenant id db ≡ ok app
    → app.app_id ≡ id
unfolding Sqlite.get_application
got_id {id} db app h = elim (Option-cases (find? (app_at default_tenant id) db.applications)) [
  | inl no_app ↦ absurd (ground (arith, rw no_app at h))
  | inr (a, an_app) ↦
      let hit = find?-passes (app_at default_tenant id) db.applications an_app in
      let same : a ≡ app = ok-injective (rw an_app at h) in
      ap (λ (x : Application). x.app_id) (sym same) ∙ ground (arith, eq_iff a.app_id id)
]

module _ {C Q : Type 0} (server : Server Db C Q) (fk : Bool) (t : ℕ) where
  abbrev on_sqlite : Server Db C Q
  on_sqlite = record server { store = sqlite fk t }

  redeployed-store :
      (claims : Option Claims) (app : Application) (r : Result KubeError (Option SpinApp.Status))
      (w : World Db C)
      → (redeployed on_sqlite claims app r w).store ≡ w.store
  redeployed-store claims app (err e) w = refl
  redeployed-store claims app (ok none) w = refl
  redeployed-store claims app (ok (some st)) w = ground arith

  reconcile-store :
      (claims : Option Claims) (app : Application) (input : UpdateApplicationInput) (w : World Db C)
      → (reconcile on_sqlite claims app input w).store ≡ w.store
  unfolding reconcile
  reconcile-store claims app input w = ground (
    arith,
    redeployed-store claims app (SpinApp.get server.kube server.namespace app.name w.cluster) w,
  )

  module _ (c : Claims) (id : String) (input : UpdateApplicationInput) (w : World Db C) where
    abbrev pub store_after : Db
    unfolding update_application
    store_after = (update_application on_sqlite (some c) id (some input) w).1.store

    -- The row that an update writes.
    abbrev pub written : Application → Resources → Application
    written app res = record app {
      description = or_value input.description app.description;
      replicas =
          if non_positive (or_value input.replicas app.replicas)
          then pos 1
          else or_value input.replicas app.replicas;
      variables = or_value input.variables app.variables;
      resources = res;
      updated_at = t;
    }

    -- The row before and after, and the resources that the policy made of those asked for.
    abbrev pub Updated : Type 0
    Updated =
        (app : Application) × (res : Resources) × (Sqlite.get_application default_tenant id w.store
          ≡ ok app)
        × (Policy.apply server.parse server.exceeds server.resource_policy
              (or_value input.resources app.resources)
            ≡ ok res)
        × (negative (or_value input.replicas app.replicas) ≡ false)
        × (valid_names (or_value input.variables []) ≡ true)
        × (Sqlite.get_application default_tenant id store_after ≡ ok (written app res))

    stored_lem :
        (app : Application) (res : Resources)
        → Sqlite.get_application default_tenant id w.store ≡ ok app
        → Policy.apply server.parse server.exceeds server.resource_policy
            (or_value input.resources app.resources)
          ≡ ok res
        → negative (or_value input.replicas app.replicas) ≡ false
        → valid_names (or_value input.variables []) ≡ true
        → Sqlite.get_application default_tenant id store_after
          ≡ ok (
              configured t
                (or_value input.description app.description)
                (or_value input.replicas app.replicas)
                (or_value input.variables app.variables)
                res
                app)
    unfolding update_application load_application store_after
    stored_lem app res found accepted count names =
        let is_app : app.app_id ≡ id = got_id w.store app found in
        let desc = or_value input.description app.description in
        let n = or_value input.replicas app.replicas in
        let vars = or_value input.variables app.variables in
        let (went, stored) =
          update_application_config-get t default_tenant id desc n vars res w.store {a = app}
            found in
        let state : store_after
            ≡ (Sqlite.update_application_config t default_tenant id desc n vars res w.store).1 =
          rw (found, update_application, store_after)
            (rw count (
              rw names (rw accepted (rw is_app (rw went (reconcile-store (some c) _ input _)))))) in
        ap (Sqlite.get_application default_tenant id) state ∙ stored

    row_lem :
        (app : Application) (res : Resources)
        → ◌≡◌ {A = Result StoreError Application}
            (ok (
              configured t
                (or_value input.description app.description)
                (or_value input.replicas app.replicas)
                (or_value input.variables app.variables)
                res
                app))
            (ok (written app res))
    unfolding configured Sqlite.at_least_one
    row_lem app res = refl

    -- An update that is answered with 200 was of a stored application, asks for no negative replica
    -- count and only for variables with valid names, and its resources were accepted by the policy;
    -- from then on the application is read back with the description, the replica count (1 in place
    -- of 0) and the variables of the request, or its own where the request names none, with the
    -- resources that the policy answered and the time of the update, and otherwise unchanged.
    pub update_application-Updated :
        status_of (update_application on_sqlite (some c) id (some input) w).0 ≡ 200 → Updated
    unfolding update_application load_application Sqlite.get_application
    update_application-Updated done =
        elim (Option-cases (find? (app_at default_tenant id) w.store.applications)) [
          | inl no_app ↦ absurd (ground (arith, rw (no_app, update_application) at done))
          | inr (app, an_app) ↦
              let done1 = rw (an_app, update_application) at done in
              elim (Bool-cases (negative (or_value input.replicas app.replicas))) [
                | inl below ↦ absurd (ground (arith, rw below at done1))
                | inr count ↦
                    let done2 = rw count at done1 in
                    elim (Bool-cases (valid_names (or_value input.variables []))) [
                      | inr bad ↦ absurd (ground (arith, rw bad at done2))
                      | inl names ↦
                          let done3 = rw names at done2 in
                          elim (Result-cases (
                            Policy.apply server.parse server.exceeds server.resource_policy
                              (or_value input.resources app.resources))) [
                                | inr (e, refusal) ↦ elim (Bool-cases (is_policy_violation e)) [
                                  | inl theirs ↦
                                      absurd (ground (arith, rw theirs at (rw refusal at done3)))
                                  | inr ours ↦
                                      absurd (ground (arith, rw ours at (rw refusal at done3)))
                                ]
                                | inl (res, accepted) ↦
                                    let found : Sqlite.get_application default_tenant id w.store
                                        ≡ ok app =
                                      rw an_app refl in
                                    (
                                      app,
                                      res,
                                      found,
                                      accepted,
                                      count,
                                      names,
                                      stored_lem app res found accepted count names
                                          ∙ row_lem app res,
                                    )
                              ]
                    ]
              ]
        ]
