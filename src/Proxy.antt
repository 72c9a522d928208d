-- ===== src/Proxy.antt =====
-- services/control-plane/internal/proxy/proxy.go: a request that is relayed to the Service of an
-- application through the Kubernetes API server. Parameters: net/http as a `Transport`, the query
-- encoding of net/url, and Go's tables of letters. A body is a list of bytes; a response's body is a
-- stream that ends or fails after its bytes. Header.Add is listed call by call.
pub mod Relayed
use Prim.Native.Char.{Char}
use Prim.Native.String
use spinup.Prelude.{
  ℕ, suc, ◌+◌, ◌^◌, String, Bool, true, false, ◌||◌, Option, none, some, List, [], ◌∷◌, ◌++◌, map,
  Result, ok, err, ◌>>=◌, length, take, ltb, if◌then◌else◌, ◌==◌,
}
use spinup.Text.{has_prefix}
use spinup.Text.Case.{to_lower, to_upper}

abbrev pub Bytes : Type 0
Bytes = List ℕ

abbrev pub max_request_body : ℕ
max_request_body = 2 ^ 20

abbrev pub max_response_body : ℕ
max_response_body = 2 ^ 20

-- http.Header and url.Values, in the order in which the map is read.
abbrev pub Values : Type 0
Values = List (String × List String)

pub record OutRequest : Type 0 where
  pub method : String
  pub url : String
  pub headers : List (String × String)
  pub body : Bytes

-- The bytes that arrive, and the error that ends them, if any.
pub record Stream : Type 0 where
  pub bytes : Bytes
  pub failure : Option String

pub record InResponse : Type 0 where
  pub status : ℕ
  pub headers : Values
  pub body : Stream

-- Whether http.NewRequestWithContext refuses a method and an address, and what Client.Do answers.
pub record Transport : Type 0 where
  pub refuses : String → String → Option String
  pub send : OutRequest → Result String InResponse

pub record ProxyRequest : Type 0 where
  pub namespace : String
  pub service_name : String
  pub method : String
  pub path : String
  pub query : Values
  pub headers : Values
  pub body : Bytes

pub record Response : Type 0 where
  pub status : ℕ
  pub headers : Values
  pub body : Bytes
  pub truncated : Bool
  pub duration_ms : ℕ

abbrev pub ended : Bytes → Option String → Result String Bytes
ended b none = ok b
ended b (some e) = err e

-- io.Copy of an io.LimitReader; an error that comes after the limit is not seen.
unfoldable pub read_limited : ℕ → Stream → Result String Bytes
read_limited limit s =
    if ltb (length s.bytes) limit then ended s.bytes s.failure else ok (take limit s.bytes)

abbrev pub cut : ℕ → Bytes → Bytes × Bool
cut max b = if ltb max (length b) then (take max b, true) else (b, false)

-- The first byte after the limit is read to see whether there is one.
unfoldable pub read_response : ℕ → InResponse → Result String Response
unfolding read_limited
read_response elapsed r = read_limited (suc max_response_body) r.body >>= λ b. ok (record {
  status = r.status;
  headers = r.headers;
  body = (cut max_response_body b).0;
  truncated = (cut max_response_body b).1;
  duration_ms = elapsed;
})

unfoldable pub normal_path : String → String
normal_path path =
    if path == "" then "/" else if has_prefix path "/" then path else String.◌++◌ "/" path

unfoldable pub with_query : String → String → String
with_query url q = if q == "" then url else String.◌++◌ url (String.◌++◌ "?" q)

abbrev pub built : Transport → OutRequest → Option String → Result String InResponse
built t r none = t.send r
built t r (some e) = err e

abbrev pub do_request : Transport → OutRequest → Result String InResponse
do_request t r = built t r (t.refuses r.method r.url)

abbrev pub exchanged : Transport → ℕ → OutRequest → Result String Response
exchanged t elapsed r = do_request t r >>= λ answer. read_response elapsed answer

-- All values of a header, added one by one.
abbrev pub added : String → List String → List (String × String)
added k [] = []
added k (v ∷ vs) = (k, v) ∷ added k vs

-- Every value of every header (`invokeWorker` of httpapi/invoke.go).
unfoldable pub all_added : Values → List (String × String)
all_added [] = []
all_added ((k, vs) ∷ hs) = added k vs ++ all_added hs

infixr 66 ◌+++◌
abbrev ◌+++◌ : String → String → String
a +++ b = String.◌++◌ a b

module _ (lower upper : Char → Char) (encode : Values → String) where
  unfoldable pub normal_method : String → String
  unfolding to_upper
  normal_method m = if to_upper upper m == "" then "GET" else to_upper upper m

  -- Hop-by-hop and authentication headers.
  unfoldable pub is_skipped : String → Bool
  unfolding to_lower
  is_skipped k =
      let name = to_lower lower k in
      name == "host" || name == "connection" || name == "authorization" || name == "content-length"

  unfoldable pub forwarded : Values → List (String × String)
  unfolding is_skipped
  forwarded [] = []
  forwarded ((k, vs) ∷ hs) =
      let rest = forwarded hs in if is_skipped k then rest else added k vs ++ rest

  unfoldable pub proxy_request : String → ProxyRequest → OutRequest
  unfolding normal_method normal_path with_query forwarded
  proxy_request base r = record {
    method = normal_method r.method;
    url =
        with_query
          (base
            +++ "/api/v1/namespaces/"
            +++ r.namespace
            +++ "/services/http:"
            +++ r.service_name
            +++ ":80/proxy"
            +++ normal_path r.path)
          (encode r.query);
    headers = forwarded r.headers;
    body = r.body;
  }

  unfoldable pub invoke : Transport → String → ℕ → ProxyRequest → Result String Response
  unfolding proxy_request read_response
  invoke t base elapsed r =
      if r.service_name == "" || r.namespace == ""
      then err "namespace and serviceName are required"
      else exchanged t elapsed (proxy_request base r)
