-- ===== src/Promql.antt =====
-- services/control-plane/internal/promql/client.go: one range query of a Prometheus server.
-- Parameters: the server's answer, where it arrives and decodes, and Go's floating-point numbers
-- (the type `F`, its zero and strconv.ParseFloat). A time is a number of nanoseconds; the request's
-- parameters are numbers here and text on the wire.
use Prim.Native.Nat.{◌/◌}
use spinup.Prelude.{
  ℕ, ◌^◌, String, not, Option, none, some, List, [], ◌∷◌, Result, ok, err, eqb, if◌then◌else◌, ◌==◌,
}

pub record Point (F : Type 0) : Type 0 where
  pub t : F
  pub v : F

pub record RangeRequest : Type 0 where
  pub base : String
  pub query : String
  pub start_seconds : ℕ
  pub end_seconds : ℕ
  pub step : ℕ

-- A pair of JSON values: the first where it is a number, the second where it is a string.
pub record Sample (F : Type 0) : Type 0 where
  pub time : Option F
  pub value : Option String

-- A body that decodes; the series are the values of the results.
pub record PromBody (F : Type 0) : Type 0 where
  pub status : String
  pub series : List (List (Sample F))

pub data PromError : Type 0 where
  not_configured : PromError
  unreachable : String → PromError
  bad_code : ℕ → String → PromError
  undecodable : PromError
  bad_status : String → PromError

pub record Prometheus (F : Type 0) : Type 0 where
  pub zero : F
  pub parse_float : String → Option F
  pub answer : RangeRequest → Result String (ℕ × Option (PromBody F))

module _ {F : Type 0} (prom : Prometheus F) where
  abbrev or_zero : Option F → F
  or_zero none = prom.zero
  or_zero (some x) = x

  abbrev or_blank : Option String → String
  or_blank none = ""
  or_blank (some s) = s

  abbrev with_point : F → Option F → List (Point F) → List (Point F)
  with_point t none rest = rest
  with_point t (some v) rest = record { t = t; v = v } ∷ rest

  -- The points whose value is a number, in order.
  unfoldable pub points_of : List (Sample F) → List (Point F)
  points_of [] = []
  points_of (p ∷ ps) =
      with_point (or_zero p.time) (prom.parse_float (or_blank p.value)) (points_of ps)

  abbrev first_series : List (List (Sample F)) → List (Point F)
  first_series [] = []
  first_series (s ∷ ss) = points_of s

  abbrev answered :
      String → Result String (ℕ × Option (PromBody F)) → Result PromError (List (Point F))
  answered query (err e) = err (unreachable e)
  answered query (ok (code, none)) =
      if not (eqb code 200) then err (bad_code code query) else err undecodable
  answered query (ok (code, some body)) =
      if not (eqb code 200)
      then err (bad_code code query)
      else if not (body.status == "success")
      then err (bad_status body.status)
      else ok (first_series body.series)

  -- Whole seconds since 1970 for the ends of the range (time.Unix).
  unfoldable pub query_range : String → String → ℕ → ℕ → ℕ → Result PromError (List (Point F))
  unfolding points_of
  query_range base query start stop step =
      if base == ""
      then err not_configured
      else answered query (
          prom.answer (record {
            base = base;
            query = query;
            start_seconds = start / 10 ^ 9;
            end_seconds = stop / 10 ^ 9;
            step = step;
          }))
