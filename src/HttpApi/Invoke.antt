-- ===== src/HttpApi/Invoke.antt =====
-- services/control-plane/internal/httpapi/invoke.go: a request that a caller makes to a function,
-- through the proxy or through the worker. Parameters, besides those of the proxy: base64 and UTF-8
-- (`Codec`). The decoded body is absent if it is not complete within its limit.
pub mod Payload
pub mod Answered
use Prim.Native.Char.{Char}
use Prim.Native.String
use spinup.Prelude.{
  ℕ, String, Bool, true, false, not, ◌&&◌, ◌||◌, Option, none, some, List, [], ◌∷◌, Result, ok, err,
  length, ltb, if◌then◌else◌, ◌==◌,
}
use spinup.Store.{Application, Function, runtime_worker_pool}
use spinup.World.{World}
use spinup.Text.{has_prefix, contains}
use spinup.Text.Case.{to_lower}
use spinup.Proxy
use spinup.Proxy.{
  Bytes, Values, OutRequest, Transport, max_request_body, normal_method, normal_path, with_query,
  all_added, exchanged, read_response,
}
use spinup.HttpApi.Actions.{
  Claims, Response, json, Server, Action, pure, reject, ◌>>=◌, ◌>>◌, require, decoded, serve,
  require_auth, load_function,
}

pub record InvokeRequest : Type 0 where
  pub method : String
  pub path : String
  pub query : Values
  pub headers : Values
  pub body : String
  pub body_is_base64 : Bool

pub record InvokeResponse : Type 0 where
  pub status : ℕ
  pub headers : Values
  pub body : String
  pub body_is_base64 : Bool
  pub truncated : Bool
  pub duration_ms : ℕ

-- base64.StdEncoding, utf8.Valid, and the conversions between strings and bytes.
pub record Codec : Type 0 where
  pub decode64 : String → Option Bytes
  pub encode64 : Bytes → String
  pub is_utf8 : Bytes → Bool
  pub to_bytes : String → Bytes
  pub to_text : Bytes → String

-- The proxy client, and what it reaches.
pub record ProxyClient : Type 0 where
  pub base_url : String
  pub transport : Transport

unfoldable pub is_textish : String → Bool
is_textish ct =
    if has_prefix ct "text/"
    then true
    else has_prefix ct "application/"
      && (contains ct "json"
          || contains ct "xml"
          || contains ct "yaml"
          || contains ct "javascript"
          || contains ct "html")

-- headers.Get("content-type"): the first value.
unfoldable pub content_type : Values → String
content_type [] = ""
content_type ((k, vs) ∷ hs) = if k == "Content-Type" then first vs else content_type hs
  where
    first : List String → String
    first [] = ""
    first (v ∷ vs) = v

module _ (codec : Codec) (lower upper : Char → Char) (encode : Values → String) where
  unfoldable pub is_binary : Proxy.Response → Bool
  unfolding to_lower content_type is_textish
  is_binary r =
      let ct = to_lower lower (content_type r.headers) in
      not (codec.is_utf8 r.body) || (not (ct == "") && not (is_textish ct))

  unfoldable pub invoke_response : Proxy.Response → InvokeResponse
  unfolding is_binary
  invoke_response r = record {
    status = r.status;
    headers = r.headers;
    body = if is_binary r then codec.encode64 r.body else codec.to_text r.body;
    body_is_base64 = is_binary r;
    truncated = r.truncated;
    duration_ms = r.duration_ms;
  }

  -- {workerURL}/apps/{app}, with the path unless it is the root.
  unfoldable pub worker_url : String → String → InvokeRequest → String
  unfolding normal_path with_query
  worker_url base app input =
      let bare = String.◌++◌ base (String.◌++◌ "/apps/" app) in
      let path = normal_path input.path in
      with_query (if path == "/" then bare else String.◌++◌ bare path) (encode input.query)

  unfoldable pub worker_request : String → String → InvokeRequest → Bytes → OutRequest
  unfolding normal_method worker_url all_added
  worker_request base app input payload = record {
    method = normal_method lower upper encode input.method;
    url = worker_url base app input;
    headers = all_added input.headers;
    body = payload;
  }

  unfoldable pub invoke_worker :
      Transport → String → ℕ → String → InvokeRequest → Bytes → Result String Proxy.Response
  unfolding worker_request read_response
  invoke_worker t base elapsed app input payload =
      exchanged t elapsed (worker_request base app input payload)

  module _ {S C Q : Type 0} (server : Server S C Q) (claims : Option Claims) where
    abbrev W : Type 0
    W = World S C

    abbrev decoded_base64 : Option Bytes → Action W InvokeResponse Bytes
    decoded_base64 none = reject 400 "invalid base64 body"
    decoded_base64 (some b) = pure b

    abbrev within_limit : Bytes → Action W InvokeResponse Bytes
    within_limit b =
        if ltb max_request_body (length b) then reject 413 "body exceeds 1 MiB limit" else pure b

    -- The bytes of the body; the limit is that of the decoded body.
    unfoldable pub request_body : InvokeRequest → Action W InvokeResponse Bytes
    request_body input =
        if input.body == ""
        then pure []
        else if input.body_is_base64
        then (decoded_base64 (codec.decode64 input.body) >>= within_limit)
        else within_limit (codec.to_bytes input.body)

    abbrev relayed : Result String Proxy.Response → Action W InvokeResponse Proxy.Response
    relayed (ok r) = pure r
    relayed (err e) = reject 502 (String.◌++◌ "invoke failed: " e)

    abbrev proxied :
        Option ProxyClient
        → ℕ
        → Application
        → InvokeRequest
        → Bytes
        → Action W InvokeResponse Proxy.Response
    proxied none elapsed app input payload = reject 503 "invoke proxy not configured"
    proxied (some p) elapsed app input payload = relayed (
        Proxy.invoke lower upper encode p.transport p.base_url elapsed (record {
          namespace = server.namespace;
          service_name = app.name;
          method = input.method;
          path = input.path;
          query = input.query;
          headers = input.headers;
          body = payload;
        }))

    abbrev dispatched :
        Option ProxyClient
        → Transport
        → ℕ
        → Application
        → InvokeRequest
        → Bytes
        → Action W InvokeResponse Proxy.Response
    dispatched proxy worker elapsed app input payload =
        if app.runtime == runtime_worker_pool
        then (if server.worker_invoke_url == ""
            then reject 503 "workerpool runtime not configured (SPINUP_WORKER_URL unset)"
            else relayed
                (invoke_worker worker server.worker_invoke_url elapsed app.name input payload))
        else proxied proxy elapsed app input payload

    unfoldable pub invoke_function :
        Option ProxyClient
        → Transport
        → ℕ
        → String
        → String
        → Option InvokeRequest
        → W
        → Response InvokeResponse × W
    unfolding load_function request_body invoke_worker Proxy.invoke invoke_response
    invoke_function proxy worker elapsed app_id fn_id body = serve do
      require_auth claims
      (app, fn) ← load_function server.store app_id fn_id
      input ← decoded body
      payload ← request_body input
      r ← dispatched proxy worker elapsed app input payload
      pure (json 200 (invoke_response r))
