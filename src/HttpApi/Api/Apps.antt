-- ===== src/HttpApi/Api/Apps.antt =====
-- The handlers of applications keep the tables consistent.
use spinup.Prelude.{
  ℕ, String, true, not, Option, none, some, [], Result, ok, err, Bool-cases, inl, inr, ◌≡◌, refl,
  sym, ◌==◌, ◌&&◌, ◌||◌, is_some, negative,
}
use mathlib.Core.Path.{subst}
use spinup.Store.{Application, StoreError, runtime_worker_pool}
use spinup.Store.Sqlite
use spinup.Store.Sqlite.{Db, sqlite}
use spinup.Store.Sqlite.Integrity.{IsConsistent}
use spinup.Store.Sqlite.Integrity.Applications.{
  create_application-IsConsistent, update_application_config-IsConsistent,
  delete_application-IsConsistent,
}
use spinup.Store.Sqlite.Integrity.Functions.{create_function-IsConsistent}
use spinup.World.{World}
use spinup.Kube.{KubeError}
use spinup.Policy
use spinup.Policy.{PolicyError, is_policy_violation}
use spinup.SpinApp
use spinup.SpinApp.{SpinError}
use spinup.Deploy
use spinup.HttpApi.Dto.{
  ApplicationDto, CreateApplicationInput, UpdateApplicationInput, DeployInput, DeploymentVw,
}
use spinup.HttpApi.Actions.{Claims, Server, authed, default_tenant, internal_error}
use spinup.HttpApi.Actions.Keeps.{
  Keeps, then-Keeps, serve-kept, same-Keeps, require-Keeps, decoded-Keeps, command-Keeps,
  load_application-Keeps,
}
use spinup.HttpApi.Names.{dns1123}
use spinup.HttpApi.Applications.{
  roll_back, create_application, new_application, default_function, is_language, is_runtime,
  requested_runtime, policed, redeployed, reconcile, update_application, undeployed, undeploy,
  delete_application, deployed, deploy_application, deploy_replicas, or_value, valid_names,
}

module _ {C Q : Type 0} (server : Server Db C Q) (t : ℕ) (claims : Option Claims) where
  abbrev on_sqlite : Server Db C Q
  on_sqlite = record server { store = sqlite true t }

  roll_back-Keeps :
      {A : Type 0} (app : Application) (e : StoreError)
      → Keeps (roll_back on_sqlite claims {A = A} app e)
  unfolding roll_back
  roll_back-Keeps app e =
      same-Keeps (λ w c. delete_application-IsConsistent default_tenant app.app_id w.store c)

  pub create_application-Keeps :
      (id fn_id : String) (body : Option CreateApplicationInput) (w : World Db C)
      → IsConsistent w.store
      → IsConsistent (create_application on_sqlite claims id fn_id body w).1.store
  unfolding create_application
  create_application-Keeps id fn_id body w h =
      serve-kept {R = ApplicationDto} w
        (then-Keeps (require-Keeps (authed claims) 401 "unauthenticated") (λ _.
          then-Keeps (decoded-Keeps body) (λ input.
            then-Keeps (require-Keeps (dns1123 input.name) 400 _) (λ _.
              then-Keeps (require-Keeps (is_language input.language) 400 _) (λ _.
                then-Keeps (require-Keeps (is_runtime (requested_runtime input.runtime)) 400 _)
                  (λ _.
                    then-Keeps
                      (command-Keeps (Sqlite.create_application t (new_application id input)) _
                        (create_application-IsConsistent t (new_application id input))
                        (λ e. same-Keeps (λ v d. d)))
                      (λ _.
                        then-Keeps
                          (command-Keeps
                            (Sqlite.create_function true t
                              (default_function fn_id (new_application id input).app_id))
                            _
                            (create_function-IsConsistent t
                              (default_function fn_id (new_application id input).app_id))
                            (roll_back-Keeps (new_application id input)))
                          (λ _. same-Keeps (λ v d. d)))))))))
        h

  redeployed-store :
      (app : Application) (r : Result KubeError (Option SpinApp.Status)) (w : World Db C)
      → (redeployed on_sqlite claims app r w).store ≡ w.store
  redeployed-store app (err e) w = refl
  redeployed-store app (ok none) w = refl
  redeployed-store app (ok (some st)) w = elim (Bool-cases (st.image == "")) [
    | inl none_yet ↦ rw none_yet refl
    | inr image ↦ rw image refl
  ]

  reconcile-store :
      (app : Application) (input : UpdateApplicationInput) (w : World Db C)
      → (reconcile on_sqlite claims app input w).store ≡ w.store
  unfolding reconcile
  reconcile-store app input w =
      elim (Bool-cases (
        not (app.runtime == runtime_worker_pool)
        && (is_some input.replicas || is_some input.variables || is_some input.resources))) [
          | inl follows ↦
              rw follows (
                redeployed-store app (SpinApp.get server.kube server.namespace app.name w.cluster)
                  w)
          | inr alone ↦ rw alone refl
        ]

  policed-Keeps : (r : Result PolicyError _) → Keeps (policed on_sqlite claims r)
  policed-Keeps (ok r) = same-Keeps (λ w c. c)
  policed-Keeps (err e) = elim (Bool-cases (is_policy_violation e)) [
    | inl yours ↦ rw yours (same-Keeps (λ w c. c))
    | inr ours ↦ rw ours (same-Keeps (λ w c. c))
  ]

  pub update_application-Keeps :
      (id : String) (body : Option UpdateApplicationInput) (w : World Db C)
      → IsConsistent w.store
      → IsConsistent (update_application on_sqlite claims id body w).1.store
  unfolding update_application
  update_application-Keeps id body w h =
      serve-kept {R = ApplicationDto} w
        (then-Keeps (require-Keeps (authed claims) 401 "unauthenticated") (λ _.
          then-Keeps (load_application-Keeps (sqlite true t) id) (λ app.
            then-Keeps (decoded-Keeps body) (λ input.
              then-Keeps
                (require-Keeps (not (negative (or_value input.replicas app.replicas))) 400 _)
                (λ _.
                  then-Keeps (require-Keeps (valid_names (or_value input.variables [])) 400 _) (λ _.
                    then-Keeps
                      (policed-Keeps (
                        Policy.apply server.parse server.exceeds server.resource_policy
                          (or_value input.resources app.resources)))
                      (λ res.
                        then-Keeps
                          (command-Keeps
                            (Sqlite.update_application_config t default_tenant app.app_id
                              (or_value input.description app.description)
                              (or_value input.replicas app.replicas)
                              (or_value input.variables app.variables) res)
                            internal_error
                            (update_application_config-IsConsistent t default_tenant app.app_id
                              (or_value input.description app.description)
                              (or_value input.replicas app.replicas)
                              (or_value input.variables app.variables) res)
                            (λ e. same-Keeps (λ v d. d)))
                          (λ _.
                            same-Keeps (λ v d.
                              subst IsConsistent (sym (reconcile-store _ input v)) d)))))))))
        h

  undeployed-store :
      (r : Result KubeError (Unit {0}) × C) (w : World Db C)
      → (undeployed on_sqlite claims r w).1.store ≡ w.store
  undeployed-store (ok u, c) w = refl
  undeployed-store (err e, c) w = refl

  undeploy-Keeps : (app : Application) → Keeps (undeploy on_sqlite claims app)
  undeploy-Keeps app = elim (Bool-cases (app.runtime == runtime_worker_pool)) [
    | inl pool ↦ same-Keeps (λ w c. rw pool c)
    | inr kube ↦ same-Keeps (λ w c. rw kube (subst IsConsistent (sym (undeployed-store _ w)) c))
  ]

  pub delete_application-Keeps :
      (id : String) (w : World Db C)
      → IsConsistent w.store
      → IsConsistent (delete_application on_sqlite claims id w).1.store
  unfolding delete_application
  delete_application-Keeps id w h =
      serve-kept {R = Unit {0}} w
        (then-Keeps (require-Keeps (authed claims) 401 "unauthenticated") (λ _.
          then-Keeps (load_application-Keeps (sqlite true t) id) (λ app.
            then-Keeps (undeploy-Keeps app) (λ _.
              then-Keeps
                (command-Keeps (Sqlite.delete_application true default_tenant app.app_id)
                  internal_error (delete_application-IsConsistent default_tenant app.app_id)
                  (λ e. same-Keeps (λ v d. d)))
                (λ _. same-Keeps (λ v d. d))))))
        h

  deployed-store :
      (r : Result SpinError SpinApp.Status × C) (w : World Db C)
      → (deployed on_sqlite claims r w).1.store ≡ w.store
  deployed-store (ok u, c) w = refl
  deployed-store (err e, c) w = refl

  pub deploy_application-Keeps :
      (id : String) (body : Option DeployInput) (w : World Db C)
      → IsConsistent w.store
      → IsConsistent (deploy_application on_sqlite claims id body w).1.store
  unfolding deploy_application
  deploy_application-Keeps id body w h =
      serve-kept {R = DeploymentVw} w
        (then-Keeps (require-Keeps (authed claims) 401 "unauthenticated") (λ _.
          then-Keeps (load_application-Keeps (sqlite true t) id) (λ app.
            then-Keeps (decoded-Keeps body) (λ input.
              then-Keeps (require-Keeps (not (input.image == "")) 400 "image is required") (λ _.
                then-Keeps
                  (same-Keeps
                    {m = λ w.
                      deployed on_sqlite claims
                        (Deploy.deploy server.parse server.exceeds server.deployer server.kube
                          (record {
                            app = app;
                            image = input.image;
                            replicas = deploy_replicas on_sqlite claims input.replicas;
                          })
                          w.cluster)
                        w}
                    (λ v d. subst IsConsistent (sym (deployed-store _ v)) d))
                  (λ st. same-Keeps (λ v d. d)))))))
        h
