-- ===== src/HttpApi/Metrics.antt =====
-- services/control-plane/internal/httpapi/metrics.go: time series of applications, functions and the
-- platform. Parameters: the Prometheus client, the clock, time.ParseDuration (`duration`, in
-- nanoseconds) and Go's table of printable characters for %q. The clock is later than 1970 by more
-- than a day.
pub mod Range
pub mod Windows
use Prim.Native.Char.{Char, code}
use Prim.Native.String
use Prim.Native.String.{[], ◌∷◌}
use spinup.Prelude.{
  ℕ, ◌-◌, ◌*◌, ◌^◌, ℤ, pos, negsuc, String, Bool, true, false, ◌||◌, Option, none, some, List, [],
  ◌∷◌, Result, ok, err, ltb, any, eqb, if◌then◌else◌, ◌==◌,
}
use spinup.Store.{Application, Function}
use spinup.World.{World}
use spinup.Session.{minute}
use spinup.Builder.Manifest.{quote}
use spinup.Promql.{Prometheus, Point, PromError, query_range}
use spinup.HttpApi.Actions.{
  Claims, Response, json, Server, Action, pure, reject, ◌>>=◌, ◌>>◌, serve, require_auth,
  load_application, load_function,
}

-- The range and the step as numbers, and the series by their names.
pub record Series (F : Type 0) : Type 0 where
  pub name : String
  pub points : List (Point F)
  pub unit : String

pub record MetricsResponse (F : Type 0) : Type 0 where
  pub range : ℕ
  pub step : ℕ
  pub series : List (Series F)

infixr 66 ◌+++◌
abbrev ◌+++◌ : String → String → String
a +++ b = String.◌++◌ a b

abbrev pub second : ℕ
second = 10 ^ 9

abbrev pub day : ℕ
day = 24 * 60 * minute

abbrev or_else : String → String → String
or_else default s = if s == "" then default else s

module _ (duration : String → Result String ℤ) (is_print : ℕ → Bool) where
  abbrev bounded_range : String → Result String ℤ → Result String ℕ
  bounded_range s (err e) = err ("bad range " +++ quote is_print s +++ ": " +++ e)
  bounded_range s (ok (negsuc n)) = err "range must be between 1m and 24h"
  bounded_range s (ok (pos n)) =
      if ltb n minute || ltb day n then err "range must be between 1m and 24h" else ok n

  abbrev bounded_step : String → Result String ℤ → Result String ℕ
  bounded_step s (err e) = err ("bad step " +++ quote is_print s +++ ": " +++ e)
  bounded_step s (ok (negsuc n)) = err "step must be >= 1s"
  bounded_step s (ok (pos n)) = if ltb n second then err "step must be >= 1s" else ok n

  abbrev with_step : ℕ → Result String ℕ → Result String (ℕ × ℕ)
  with_step r (err e) = err e
  with_step r (ok s) = ok (r, s)

  abbrev then_step : Result String ℕ → Result String ℕ → Result String (ℕ × ℕ)
  then_step (err e) s = err e
  then_step (ok r) s = with_step r s

  unfoldable pub parse_range : String → String → Result String (ℕ × ℕ)
  unfolding quote
  parse_range rng step =
      then_step (bounded_range rng (duration (or_else "15m" rng)))
        (bounded_step step (duration (or_else "15s" step)))

-- regexp.QuoteMeta: a backslash before every character that means something in a pattern.
unfoldable pub is_meta : ℕ → Bool
unfolding any
is_meta n =
    any (λ m. eqb n m)
      (b'\\' ∷ b'.' ∷ b'+' ∷ b'*' ∷ b'?' ∷ b'(' ∷ b')' ∷ b'|' ∷ b'[' ∷ b']' ∷ b'{' ∷ b'}' ∷ b'^'
        ∷ b'$' ∷ [])

unfoldable pub quote_meta : String → String
unfolding is_meta
quote_meta [] = []
quote_meta (c ∷ s) =
    let rest = quote_meta s in if is_meta (code c) then "\\" +++ (c ∷ rest) else c ∷ rest

module _ (is_print : ℕ → Bool) where
  abbrev q : String → String
  unfolding quote
  q s = quote is_print s

  -- The pods of an application, and the container of its name.
  abbrev pod_labels : String → String → String
  unfolding quote_meta
  pod_labels ns app =
      "namespace="
      +++ q ns
      +++ ", pod=~"
      +++ q ("^" +++ quote_meta app +++ "-.*")
      +++ ", container="
      +++ q app

  unfoldable pub cpu_query : String → String → String
  unfolding quote quote_meta
  cpu_query ns app =
      "sum(rate(container_cpu_usage_seconds_total{" +++ pod_labels ns app +++ "}[5m]))"

  unfoldable pub memory_query : String → String → String
  unfolding quote quote_meta
  memory_query ns app = "sum(container_memory_working_set_bytes{" +++ pod_labels ns app +++ "})"

  unfoldable pub request_query : String → String
  unfolding quote
  request_query fn = "sum(rate(spin_request_count{spin_component_id=" +++ q fn +++ "}[2m]))"

  unfoldable pub latency_query : String → String
  unfolding quote
  latency_query fn =
      "spin_request_duration_ms_bucket{spin_component_id=" +++ q fn +++ ",le=\"+Inf\"} * 0"

  unfoldable pub error_query : String → String
  unfolding quote
  error_query fn =
      "sum(rate(spin_request_count{spin_component_id="
      +++ q fn
      +++ ",http_response_status_code=~\"5..\"}[2m]))"

-- A failed query is logged and gives no points.
abbrev pub or_no_points : {F : Type 0} → Result PromError (List (Point F)) → List (Point F)
or_no_points {F} (ok ps) = ps
or_no_points {F} (err e) = []

module _ {S C Q F : Type 0} (server : Server S C Q) (prom : Option (String × Prometheus F))
    (duration : String → Result String ℤ) (is_print : ℕ → Bool) (claims : Option Claims)
    (now : ℕ) where
  abbrev W : Type 0
  W = World S C

  abbrev configured :
      Option (String × Prometheus F) → Action W (MetricsResponse F) (String × Prometheus F)
  configured none = reject 503 "metrics disabled (SPINUP_PROMETHEUS_URL not set)"
  configured (some p) = pure p

  abbrev window : Result String (ℕ × ℕ) → Action W (MetricsResponse F) (ℕ × ℕ)
  window (ok r) = pure r
  window (err e) = reject 400 e

  -- One query from `range` before now until now.
  unfoldable pub series : String × Prometheus F → ℕ → ℕ → String → String → String → Series F
  unfolding query_range
  series (base, p) range step name unit query = record {
    name = name;
    points = or_no_points (query_range p base query (now - range) now step);
    unit = unit;
  }

  unfoldable pub application_series :
      String × Prometheus F → ℕ → ℕ → Application → MetricsResponse F
  unfolding series cpu_query memory_query
  application_series p range step app = record {
    range = range;
    step = step;
    series =
        series p range step "cpu" "cores" (cpu_query is_print server.namespace app.name)
        ∷ series p range step "memory" "bytes" (memory_query is_print server.namespace app.name)
        ∷ [];
  }

  unfoldable pub get_application_metrics :
      String → String → String → W → Response (MetricsResponse F) × W
  unfolding load_application parse_range application_series
  get_application_metrics app_id rng stp = serve do
    require_auth claims
    p ← configured prom
    app ← load_application server.store app_id
    (range, step) ← window (parse_range duration is_print rng stp)
    pure (json 200 (application_series p range step app))

  unfoldable pub function_series : String × Prometheus F → ℕ → ℕ → Function → MetricsResponse F
  unfolding series request_query latency_query error_query
  function_series p range step fn = record {
    range = range;
    step = step;
    series =
        series p range step "requestRate" "req/s" (request_query is_print fn.name)
        ∷ series p range step "latencyP95" "ms" (latency_query is_print fn.name)
        ∷ series p range step "errorRate" "req/s" (error_query is_print fn.name)
        ∷ [];
  }

  unfoldable pub get_function_metrics :
      String → String → String → String → W → Response (MetricsResponse F) × W
  unfolding load_function parse_range function_series
  get_function_metrics app_id fn_id rng stp = serve do
    require_auth claims
    p ← configured prom
    (app, fn) ← load_function server.store app_id fn_id
    (range, step) ← window (parse_range duration is_print rng stp)
    pure (json 200 (function_series p range step fn))

  unfoldable pub overview_series : String × Prometheus F → ℕ → ℕ → MetricsResponse F
  unfolding series
  overview_series p range step = record {
    range = range;
    step = step;
    series =
        series p range step "httpRequestRate" "req/s" "sum(rate(spinup_http_requests_total[1m]))"
        ∷ series p range step "buildRate" "builds/s" "sum(rate(spinup_builds_finished_total[5m]))"
        ∷ [];
  }

  unfoldable pub get_overview_metrics : String → String → W → Response (MetricsResponse F) × W
  unfolding parse_range overview_series
  get_overview_metrics rng stp = serve do
    require_auth claims
    p ← configured prom
    (range, step) ← window (parse_range duration is_print rng stp)
    pure (json 200 (overview_series p range step))
