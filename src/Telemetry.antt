-- ===== src/Telemetry.antt =====
-- The counting of requests in services/control-plane/internal/telemetry/metrics.go. The counter is
-- the list of what was added to it; `pattern` is what net/http left in the request (r.Pattern).
pub mod Counted
use spinup.Prelude.{ℕ, String, List, [], ◌∷◌, leb, if◌then◌else◌, ◌==◌}

unfoldable pub status_class : ℕ → String
status_class code =
    if leb 500 code
    then "5xx"
    else if leb 400 code
    then "4xx"
    else if leb 300 code
    then "3xx"
    else if leb 200 code
    then "2xx"
    else "1xx"

-- What a statusRecorder keeps.
pub record Recorder : Type 0 where
  pub status : ℕ
  pub wrote : List ℕ

abbrev pub new_recorder : Recorder
new_recorder = record { status = 200; wrote = [] }

abbrev kept : ℕ → List ℕ → ℕ → ℕ
kept status [] code = code
kept status (first ∷ codes) code = status

-- WriteHeader; `wrote` lists the codes that were passed on.
unfoldable pub write_header : ℕ → Recorder → Recorder
write_header code r = record { status = kept r.status r.wrote code; wrote = code ∷ r.wrote }

-- The calls of WriteHeader that a handler makes.
unfoldable pub write_all : List ℕ → Recorder → Recorder
unfolding write_header
write_all [] r = r
write_all (code ∷ codes) r = write_all codes (write_header code r)

pub record Attributes : Type 0 where
  pub method : String
  pub route : String
  pub status : String

-- What HTTPMiddleware adds for one request.
unfoldable pub counted : String → String → String → List ℕ → Attributes
unfolding write_all status_class
counted method pattern path codes = record {
  method = method;
  route = if pattern == "" then path else pattern;
  status = status_class (write_all codes new_recorder).status;
}
