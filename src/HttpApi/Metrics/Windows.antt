-- ===== src/HttpApi/Metrics/Windows.antt =====
-- What the metrics handlers of metrics.go answer.
use mathlib.Core.Path.{subst}
use spinup.Prelude.{
  ◌≡◌, refl, sym, ap, inl, inr, ℕ, ◌≤◌, ℤ, String, Bool, true, Option, none, some, Result, ok, err,
  Option-cases, Result-cases,
}
use spinup.Store.{Application, Function}
use spinup.World.{World}
use spinup.Session.{minute}
use spinup.Promql.{Prometheus}
use spinup.HttpApi.Actions.{
  Claims, json, Server, authed, load_application, load_function, require_auth,
}
use spinup.HttpApi.Actions.Steps.{
  ReadsTo, then-json, then_json-ReadsTo, require-Reads, require-ok, json-injective,
  load_application-Reads,
}
use spinup.HttpApi.Metrics.{
  MetricsResponse, second, day, configured, window, parse_range, application_series,
  function_series, get_application_metrics, get_function_metrics,
}
use spinup.HttpApi.Metrics.Range.{parse_range_iff}

module _ {S C Q F : Type 0} (server : Server S C Q) (prom : Option (String × Prometheus F))
    (duration : String → Result String ℤ) (is_print : ℕ → Bool) (claims : Option Claims) (now : ℕ)
    (w : World S C) where
  configured-ReadsTo :
      (o : Option (String × Prometheus F))
      → ReadsTo {R = MetricsResponse F} w
          (λ p. o ≡ some p)
          (configured server prom duration is_print claims now o w)
  configured-ReadsTo none = inr (503, _, refl)
  configured-ReadsTo (some p) = inl (p, refl, refl)

  window-ReadsTo :
      (r : Result String (ℕ × ℕ))
      → ReadsTo {R = MetricsResponse F} w
          (λ p. r ≡ ok p)
          (window server prom duration is_print claims now r w)
  window-ReadsTo (ok r) = inl (r, refl, refl)
  window-ReadsTo (err e) = inr (400, _, refl)

  -- The reply is for a stored application and the window that the request names.
  abbrev pub IsSeries : String → String → String → MetricsResponse F → Type 0
  IsSeries app_id rng stp out =
      (minute ≤ out.range)
      × (out.range ≤ day)
      × (second ≤ out.step)
      × ((p : String × Prometheus F) × (app : Application) × (prom ≡ some p)
          × (load_application {C = C} {R = MetricsResponse F} server.store app_id w ≡ (ok app, w))
          × (parse_range duration is_print rng stp ≡ ok (out.range, out.step))
          × (out
              ≡ application_series server prom duration is_print claims now p out.range out.step
                  app))

  application_series-IsSeries :
      (app_id rng stp : String) (p : String × Prometheus F) (app : Application) (r s : ℕ)
      → prom ≡ some p
      → load_application {C = C} {R = MetricsResponse F} server.store app_id w ≡ (ok app, w)
      → parse_range duration is_print rng stp ≡ ok (r, s)
      → IsSeries app_id rng stp
          (application_series server prom duration is_print claims now p r s app)
  unfolding application_series
  application_series-IsSeries app_id rng stp p app r s is_prom found parsed =
      let (is_range, low, high, is_step, least) =
        (parse_range_iff duration is_print rng stp r s).0 parsed in
      (low, high, least, (p, app, is_prom, found, parsed, refl))

  -- Metrics of an application that are answered without an error were asked for with claims, where
  -- Prometheus is configured, for a stored application and for the window that the request names,
  -- which is a minute to a day long in steps of a second or more; whatever Prometheus answers, the
  -- reply is 200 with the series of that application, and nothing changes.
  pub get_application_metrics_lem :
      (app_id rng stp : String) (status : ℕ) (out : MetricsResponse F) (v : World S C)
      → get_application_metrics server prom duration is_print claims now app_id rng stp w
        ≡ (json status out, v)
      → (v ≡ w) × (status ≡ 200) × (authed claims ≡ true) × (IsSeries app_id rng stp out)
  unfolding get_application_metrics
  get_application_metrics_lem app_id rng stp status out v h =
      let (u, allowed, h₁) =
        then-json w (require_auth claims) _ (require-Reads w (authed claims) 401 "unauthenticated")
          h in
      let (p, is_prom, h₂) =
        then_json-ReadsTo w (λ p. prom ≡ some p)
          (configured server prom duration is_print claims now prom) _ (configured-ReadsTo prom)
          h₁ in
      let (app, found, h₃) =
        then-json w (load_application server.store app_id) _
          (load_application-Reads w server.store app_id) h₂ in
      let ((r, s), parsed, h₄) =
        then_json-ReadsTo w (λ x. parse_range duration is_print rng stp ≡ ok x)
          (window server prom duration is_print claims now (parse_range duration is_print rng stp))
          _ (window-ReadsTo (parse_range duration is_print rng stp)) h₃ in
      let (same, status_is, out_is) = json-injective w h₄ in
      (
        same,
        status_is,
        require-ok w (authed claims) 401 "unauthenticated" allowed,
        subst (IsSeries app_id rng stp) (sym out_is)
            (application_series-IsSeries app_id rng stp p app r s is_prom found parsed),
      )

  function_series-name :
      (p : String × Prometheus F) (r s : ℕ) (f g : Function)
      → f.name ≡ g.name
      → function_series server prom duration is_print claims now p r s f
        ≡ function_series server prom duration is_print claims now p r s g
  unfolding function_series
  function_series-name p r s f g same = rw same refl

  -- The metrics of a function are those of its name alone: two functions of the same name that load,
  -- of whatever applications, are answered alike.
  pub get_function_metrics-same_name :
      (app_id fn_id other_app other_fn rng stp : String) (a b : Application) (f g : Function)
      → load_function {C = C} {R = MetricsResponse F} server.store app_id fn_id w ≡ (ok (a, f), w)
      → load_function {C = C} {R = MetricsResponse F} server.store other_app other_fn w
        ≡ (ok (b, g), w)
      → f.name ≡ g.name
      → get_function_metrics server prom duration is_print claims now app_id fn_id rng stp w
        ≡ get_function_metrics server prom duration is_print claims now other_app other_fn rng stp w
  unfolding get_function_metrics
  get_function_metrics-same_name app_id fn_id other_app other_fn rng stp a b f g is_f is_g same =
      elim (Option-cases claims) [
        | inl nobody ↦ rw nobody refl
        | inr (c, someone) ↦ elim (Option-cases prom) [
          | inl off ↦ rw (someone, off) refl
          | inr (p, on) ↦ elim (Result-cases (parse_range duration is_print rng stp)) [
            | inl (window, parsed) ↦
                rw (someone, on)
                  (rw (is_f, is_g)
                    (rw parsed (
                      ap (λ x. (json 200 x, w))
                        (function_series-name p window.0 window.1 f g same))))
            | inr (e, bad) ↦ rw (someone, on) (rw (is_f, is_g) (rw bad refl))
          ]
        ]
      ]
