-- ===== src/Tests/Invocations.antt =====
-- Examples for invocations, metrics and logs.
use Prim.Native.Char.{Char, code}
use Prim.Native.String.{[], ◌∷◌}
use spinup.Prelude.{
  ◌≡◌, refl, ap, ◌∙◌, ◌≢◌, ◌↔◌, ℕ, ◌≤◌, zero, suc, ◌+◌, ◌*◌, ℤ, pos, String, true, false, not,
  Option, none, some, List, [], ◌∷◌, All, arith, eqb, Result, ok, length, keep, if◌then◌else◌, ◌==◌,
  find?,
}
use spinup.Store.{Application, Function, Build}
use spinup.Store.Sqlite
use spinup.Store.Sqlite.{Db}
use spinup.World.{World}
use spinup.Proxy
use spinup.Proxy.{
  Bytes, Values, Transport, InResponse, ProxyRequest, proxy_request, all_added, is_skipped,
  do_request, max_request_body, max_response_body,
}
use spinup.Proxy.Relayed.{Relays, IsUnskipped, invoke-Relays}
use spinup.Session.{minute}
use spinup.Promql.{Prometheus}
use spinup.HttpApi.Actions.{authed, load_application, load_function}
use spinup.HttpApi.Invoke.{
  InvokeRequest, InvokeResponse, Codec, ProxyClient, invoke_function, invoke_response,
}
use spinup.HttpApi.Invoke.Answered.{
  IsAnswer, bytes_of, invoke_function-IsAnswer, invoke_response-body,
}
use spinup.HttpApi.Invoke.Payload.{IsPayload}
use spinup.HttpApi.Metrics.{parse_range, second, day, get_function_metrics}
use spinup.HttpApi.Metrics.Range.{parse_range_iff}
use spinup.HttpApi.Metrics.Windows.{get_function_metrics-same_name}
use spinup.HttpApi.Logs.{Pods, copied, get_build_logs}
use spinup.HttpApi.Logs.Owned.{IsLog, get_build_logs_lem}
use spinup.Tests.{cart, posts, db, server, claims, world}

abbrev same : Char → Char
same c = c

abbrev no_query : Values → String
no_query q = ""

-- A cluster that answers every request with two bytes.
abbrev answer : InResponse
answer = record {
  status = 200;
  headers = ("Content-Type", "text/plain" ∷ []) ∷ [];
  body = record { bytes = 104 ∷ 105 ∷ []; failure = none };
}

abbrev transport : Transport
transport = record { refuses = λ method url. none; send = λ r. ok answer }

abbrev wanted : ProxyRequest
wanted = record {
  namespace = "apps";
  service_name = "shop";
  method = "get";
  path = "cart";
  query = [];
  headers = ("authorization", "t" ∷ []) ∷ ("X-Id", "1" ∷ "2" ∷ []) ∷ [];
  body = [];
}

abbrev relayed : Proxy.Response
relayed = record {
  status = 200;
  headers = answer.headers;
  body = 104 ∷ 105 ∷ [];
  truncated = false;
  duration_ms = 3;
}

invoke-Relays_example :
    (wanted.service_name ≢ "")
    × (wanted.namespace ≢ "")
    × (All
        (IsUnskipped same same no_query)
        (proxy_request same same no_query "https://c" wanted).headers)
    × ((proxy_request same same no_query "https://c" wanted).headers
        ≡ all_added (keep (λ h. not (is_skipped same same no_query h.0)) wanted.headers))
    × ((a : InResponse) × (do_request transport
            (proxy_request same same no_query "https://c" wanted)
          ≡ ok a)
        × (Relays 3 a relayed))
unfolding Proxy.invoke Proxy.read_response Proxy.read_limited
invoke-Relays_example = invoke-Relays same same no_query transport "https://c" 3 wanted relayed refl

-- Bytes in unary, each with a comma after it.
abbrev unary : ℕ → String → String
unary zero s = "," ∷ s
unary (suc n) s = "1" ∷ unary n s

abbrev write : Bytes → String
write [] = []
write (n ∷ b) = unary n (write b)

abbrev push : ℕ → Option Bytes → Option Bytes
push n none = none
push n (some b) = some (n ∷ b)

abbrev read : ℕ → String → Option Bytes
read n [] = some []
read n (c ∷ s) = let rest = push n (read 0 s) in if eqb (code c) b',' then rest else read (suc n) s

read-unary : (k n : ℕ) (s : String) → read k (unary n s) ≡ push (k + n) (read 0 s)
read-unary k zero s = ap (λ m. push m (read 0 s)) (omega arith)
read-unary k (suc n) s = read-unary (suc k) n s ∙ ap (λ m. push m (read 0 s)) (omega arith)

read-write : (b : Bytes) → read 0 (write b) ≡ some b
read-write [] = refl
read-write (n ∷ b) =
    read-unary 0 n (write b)
    ∙ ap (λ m. push m (read 0 (write b))) (omega arith)
    ∙ ap (push n) (read-write b)

abbrev or_nothing : Option Bytes → Bytes
or_nothing none = []
or_nothing (some b) = b

abbrev codec : Codec
codec = record {
  decode64 = read 0;
  encode64 = write;
  is_utf8 = λ b. true;
  to_bytes = λ s. or_nothing (read 0 s);
  to_text = write;
}

invoke_response-body_example :
    bytes_of codec (invoke_response codec same same no_query relayed) ≡ some (104 ∷ 105 ∷ [])
invoke_response-body_example =
    invoke_response-body codec same same no_query relayed read-write
      (λ b valid. ap or_nothing (read-write b))

abbrev client : ProxyClient
client = record { base_url = "https://c"; transport = transport }

abbrev input : InvokeRequest
input = record {
  method = "POST";
  path = "/cart";
  query = [];
  headers = [];
  body = "11,1,";
  body_is_base64 = false;
}

invoke_function-IsAnswer_example :
    (world ≡ world)
    × (◌≡◌ {A = ℕ} 200 200)
    × (authed (some claims) ≡ true)
    × ((app : Application) × (fn : Function) × (i : InvokeRequest) × (payload : Bytes)
        × (r : Proxy.Response) × (◌≡◌ {A = Option InvokeRequest} (some input) (some i))
        × (load_function {C = ℕ} {R = InvokeResponse} server.store "a1" "f1" world
            ≡ (ok (app, fn), world))
        × (IsPayload codec i payload)
        × (IsAnswer codec same same no_query server
            (some claims)
            world
            (some client)
            transport
            3
            app
            i
            payload
            r)
        × (length r.body ≤ max_response_body)
        × (invoke_response codec same same no_query relayed
            ≡ invoke_response codec same same no_query r))
unfolding invoke_function Proxy.invoke Proxy.read_response Proxy.read_limited Sqlite.get_application
    find? Sqlite.get_function
invoke_function-IsAnswer_example =
    invoke_function-IsAnswer codec same same no_query server (some claims) world (some client)
      transport 3 "a1" "f1" (some input) 200 (invoke_response codec same same no_query relayed)
      world refl

parse_range_iff_example :
    (parse_range
        (λ s. if s == "1h" then ok (pos (60 * minute)) else ok (pos (15 * second)))
        (λ c. true)
        "1h"
        ""
      ≡ ok (60 * minute, 15 * second))
    ↔ ((◌≡◌ {A = Result String ℤ} (ok (pos (60 * minute))) (ok (pos (60 * minute))))
        × (minute ≤ 60 * minute)
        × (60 * minute ≤ day)
        × (◌≡◌ {A = Result String ℤ} (ok (pos (15 * second))) (ok (pos (15 * second))))
        × (second ≤ 15 * second))
parse_range_iff_example =
    parse_range_iff (λ s. if s == "1h" then ok (pos (60 * minute)) else ok (pos (15 * second)))
      (λ c. true) "1h" "" (60 * minute) (15 * second)

abbrev prometheus : Prometheus ℕ
prometheus = record {
  zero = 0;
  parse_float = λ s. some 7;
  answer = λ r. ok (200, some (record { status = "success"; series = [] }));
}

-- The function of the fixtures again, in the other application.
abbrev twins : World Db ℕ
twins = record world {
  store = record db { functions = cart ∷ record posts { name = "cart" } ∷ [] };
}

get_function_metrics-same_name_example :
    get_function_metrics server
      (some ("http://prom", prometheus))
      (λ s. ok (pos minute))
      (λ c. true)
      (some claims)
      (10 * day)
      "a1"
      "f1"
      ""
      ""
      twins
    ≡ get_function_metrics server
        (some ("http://prom", prometheus))
        (λ s. ok (pos minute))
        (λ c. true)
        (some claims)
        (10 * day)
        "a2"
        "f3"
        ""
        ""
        twins
unfolding load_function Sqlite.get_application find? Sqlite.get_function
get_function_metrics-same_name_example =
    get_function_metrics-same_name server (some ("http://prom", prometheus)) (λ s. ok (pos minute))
      (λ c. true) (some claims) (10 * day) twins "a1" "f1" "a2" "f3" "" "" _ _ cart
      (record posts { name = "cart" }) refl refl refl

abbrev pods : Pods
pods = record {
  list = λ label. ok ("build-b1" ∷ []);
  logs = λ pod opts. ok ("building" ∷ "" ∷ "done" ∷ []);
}

get_build_logs_lem_example :
    (world ≡ world)
    × (◌≡◌ {A = ℕ} 200 200)
    × (authed (some claims) ≡ true)
    × ((app : Application) × (b : Build) × (chunks : List String) × (load_application {C = ℕ}
            {R = List String} server.store "a1" world
          ≡ (ok app, world))
        × (server.store.get_build app.app_id "b1" world.store ≡ ok b)
        × (IsLog pods "spinup.emdzej.pl/build-id=b1"
            (record { follow = false; tail_lines = none })
            chunks)
        × ("building" ∷ "done" ∷ [] ≡ copied 9 chunks))
unfolding get_build_logs Sqlite.get_application find? Sqlite.get_build
get_build_logs_lem_example =
    get_build_logs_lem server pods (some claims) 9 world "a1" "b1" false 200
      ("building" ∷ "done" ∷ []) world refl
