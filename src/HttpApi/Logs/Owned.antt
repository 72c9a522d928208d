-- ===== src/HttpApi/Logs/Owned.antt =====
-- Whose logs logs.go and builds.go show.
use Prim.Native.String
use spinup.Prelude.{
  ◌≡◌, refl, ap, inl, inr, ℕ, suc, pos, String, Bool, true, Option, none, some, List, [], ◌∷◌,
  Result, ok, err, ok-injective,
}
use spinup.Store.{Application, Build, not_found, refused, fault, StoreError}
use spinup.World.{World}
use spinup.HttpApi.Actions.{
  Claims, json, Server, authed, load_application, require_auth, recover, not_found_or_500, pure,
}
use spinup.HttpApi.Actions.Steps.{
  ReadsTo, then-json, then_json-ReadsTo, require-Reads, require-ok, json-injective,
  load_application-Reads,
}
use spinup.HttpApi.Logs.{
  LogOptions, Pods, opened, first_log, pod_logs_by_label, builder_logs, copied, streamed,
  get_build_logs,
}

-- The chunks are the log of the first pod that has the label.
abbrev pub IsLog : Pods → String → LogOptions → List String → Type 0
IsLog pods label opts chunks =
    (pod : String) × (others : List String) × (pods.list label ≡ ok (pod ∷ others))
    × (pods.logs pod opts ≡ ok chunks)

opened-ok :
    (r : Result String (List String)) (chunks : List String)
    → opened r ≡ ok (some chunks)
    → r ≡ ok chunks
opened-ok (ok x) chunks h = ap ok (some-injective (ok-injective h))
  where
    some-injective : {a b : List String} → ◌≡◌ {A = Option (List String)} (some a) (some b) → a ≡ b
    some-injective e = cc
opened-ok (err e) chunks h = absurd cc

first_log-IsLog :
    (pods : Pods) (opts : LogOptions) (found : Result String (List String)) (chunks : List String)
    → first_log pods opts found ≡ ok (some chunks)
    → (pod : String) × (others : List String) × (found ≡ ok (pod ∷ others))
      × (pods.logs pod opts ≡ ok chunks)
unfolding first_log
first_log-IsLog pods opts (err e) chunks h = absurd cc
first_log-IsLog pods opts (ok []) chunks h = absurd (some_pod (ok-injective h))
  where
    some_pod : ◌≡◌ {A = Option (List String)} none (some chunks) → ⊥
    some_pod e = cc
first_log-IsLog pods opts (ok (pod ∷ others)) chunks h =
    (pod, others, refl, opened-ok (pods.logs pod opts) chunks h)

module _ {S C Q : Type 0} (server : Server S C Q) (pods : Pods) (claims : Option Claims)
    (writes : ℕ) (w : World S C) where
  streamed-ReadsTo :
      (missing : String) (r : Result String (Option (List String)))
      → ReadsTo {R = List String} w
          (λ chunks. r ≡ ok (some chunks))
          (streamed server pods claims writes missing r w)
  streamed-ReadsTo missing (err e) = inr (503, _, refl)
  streamed-ReadsTo missing (ok none) = inr (202, _, refl)
  streamed-ReadsTo missing (ok (some chunks)) = inl (chunks, refl, refl)

  get_build-ReadsTo :
      (r : Result StoreError Build)
      → ReadsTo {R = List String} w
          (λ b. r ≡ ok b)
          (recover r (not_found_or_500 {S = S} {C = C} {R = List String} "not found") pure w)
  get_build-ReadsTo (ok b) = inl (b, refl, refl)
  get_build-ReadsTo (err not_found) = inr (404, _, refl)
  get_build-ReadsTo (err (refused c)) = inr (500, _, refl)
  get_build-ReadsTo (err (fault s)) = inr (500, _, refl)

  builder_logs-IsLog :
      (build_id : String) (follow : Bool) (chunks : List String)
      → builder_logs pods build_id follow ≡ ok (some chunks)
      → IsLog pods
          (String.◌++◌ "spinup.emdzej.pl/build-id=" build_id)
          (record { follow = follow; tail_lines = none })
          chunks
  unfolding builder_logs
  builder_logs-IsLog build_id follow chunks h =
      first_log-IsLog pods (record { follow = follow; tail_lines = none })
        (pods.list (String.◌++◌ "spinup.emdzej.pl/build-id=" build_id)) chunks h

  -- The log of a build that is shown was asked for with claims, through a stored application that has
  -- the build, and is that of the first pod that is labelled with the build's id; what reaches the
  -- client is what was read of it, until a write fails, and nothing changes.
  pub get_build_logs_lem :
      (app_id build_id : String) (follow : Bool) (status : ℕ) (out : List String) (v : World S C)
      → get_build_logs server pods claims writes app_id build_id follow w ≡ (json status out, v)
      → (v ≡ w)
        × (status ≡ 200)
        × (authed claims ≡ true)
        × ((app : Application) × (b : Build) × (chunks : List String) × (load_application {C = C}
                {R = List String} server.store app_id w
              ≡ (ok app, w))
            × (server.store.get_build app.app_id build_id w.store ≡ ok b)
            × (IsLog pods
                (String.◌++◌ "spinup.emdzej.pl/build-id=" build_id)
                (record { follow = follow; tail_lines = none })
                chunks)
            × (out ≡ copied writes chunks))
  unfolding get_build_logs
  get_build_logs_lem app_id build_id follow status out v h =
      let (u, allowed, h₁) =
        then-json w (require_auth claims) _ (require-Reads w (authed claims) 401 "unauthenticated")
          h in
      let (app, found, h₂) =
        then-json w (load_application server.store app_id) _
          (load_application-Reads w server.store app_id) h₁ in
      let (b, is_build, h₃) =
        then_json-ReadsTo w (λ b. server.store.get_build app.app_id build_id w.store ≡ ok b)
          (λ w.
            recover (server.store.get_build app.app_id build_id w.store)
              (not_found_or_500 {S = S} {C = C} {R = List String} "not found") pure w)
          _ (get_build-ReadsTo (server.store.get_build app.app_id build_id w.store)) h₂ in
      let (chunks, is_log, h₄) =
        then_json-ReadsTo w (λ chunks. builder_logs pods build_id follow ≡ ok (some chunks))
          (streamed server pods claims writes "no pod for build yet"
            (builder_logs pods build_id follow))
          _ (streamed-ReadsTo "no pod for build yet" (builder_logs pods build_id follow)) h₃ in
      let (same, status_is, out_is) = json-injective w h₄ in
      (
        same,
        status_is,
        require-ok w (authed claims) 401 "unauthenticated" allowed,
        (app, b, chunks, found, is_build, builder_logs-IsLog build_id follow chunks is_log, out_is),
      )

  pod_logs_by_label-IsLog :
      (selector : String) (follow : Bool) (n : ℕ) (chunks : List String)
      → pod_logs_by_label pods selector follow (pos (suc n)) ≡ ok (some chunks)
      → IsLog pods selector (record { follow = follow; tail_lines = some (pos (suc n)) }) chunks
  unfolding pod_logs_by_label
  pod_logs_by_label-IsLog selector follow n chunks h =
      first_log-IsLog pods (record { follow = follow; tail_lines = some (pos (suc n)) })
        (pods.list selector) chunks h
