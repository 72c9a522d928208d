-- ===== src/HttpApi/Invoke/Answered.antt =====
-- What an invocation that is answered has sent and returned.
use Prim.Native.Char.{Char}
use Prim.Native.String
use spinup.Prelude.{
  ◌≡◌, refl, sym, ap, keep, not, ◌≢◌, ◌⊎◌, inl, inr, ℕ, ◌≤◌, String, true, false, Option, none,
  some, arith, Result, ok, err, >>=-ok, length, if◌then◌else◌, ◌==◌, eq_iff, Bool-cases,
}
use spinup.Store.{Application, Function, runtime_worker_pool}
use spinup.World.{World}
use spinup.Proxy
use spinup.Proxy.{
  Bytes, Values, Transport, InResponse, OutRequest, normal_method, normal_path, with_query,
  all_added, is_skipped, max_request_body, max_response_body, do_request, proxy_request,
  read_response,
}
use spinup.Proxy.Relayed.{Relays, do_request-ok, invoke-Relays, read_response-Relays}
use spinup.HttpApi.Actions.{Claims, json, Server, authed, load_function, decoded, require_auth}
use spinup.HttpApi.Actions.Steps.{
  require-Reads, decoded-ReadsTo, json-injective, require-ok, then-json, ReadsTo, then_json-ReadsTo,
  load_function-Reads,
}
use spinup.HttpApi.Invoke.{
  InvokeRequest, InvokeResponse, Codec, ProxyClient, worker_url, worker_request, invoke_worker,
  is_binary, invoke_response, request_body, relayed, proxied, dispatched, invoke_function,
}
use spinup.HttpApi.Invoke.Payload.{IsPayload, request_body-IsPayload}

-- The bytes that a caller reads from a reply.
abbrev pub bytes_of : Codec → InvokeResponse → Option Bytes
bytes_of codec out =
    if out.body_is_base64 then codec.decode64 out.body else some (codec.to_bytes out.body)

is_binary-utf8 :
    (codec : Codec) (lower upper : Char → Char) (encode : Values → String) (r : Proxy.Response)
    → is_binary codec lower upper encode r ≡ false
    → codec.is_utf8 r.body ≡ true
unfolding is_binary
is_binary-utf8 codec lower upper encode r h = elim (Bool-cases (codec.is_utf8 r.body)) [
  | inl valid ↦ valid
  | inr invalid ↦ absurd (ground (arith, rw invalid at h))
]

infixr 66 ◌+++◌
abbrev ◌+++◌ : String → String → String
a +++ b = String.◌++◌ a b

-- The root of an application has no slash.
abbrev at_path : String → String → String
at_path root path = if path == "/" then root else root +++ path

-- The request was not refused but sent, and the response gives its answer, cut to the limit.
abbrev pub IsSent : Transport → ℕ → OutRequest → Proxy.Response → Type 0
IsSent t elapsed q r =
    (t.refuses q.method q.url ≡ none)
    × ((answer : InResponse) × (t.send q ≡ ok answer) × (Relays elapsed answer r))

exchanged-IsSent :
    (t : Transport) (elapsed : ℕ) (q : OutRequest) (answer : InResponse) (r : Proxy.Response)
    → do_request t q ≡ ok answer
    → read_response elapsed answer ≡ ok r
    → IsSent t elapsed q r
exchanged-IsSent t elapsed q answer r sent read =
    let (taken, went) = do_request-ok t q answer sent in
    (taken, (answer, went, read_response-Relays elapsed answer r read))

IsSent-bounded :
    (t : Transport) (elapsed : ℕ) (q : OutRequest) (r : Proxy.Response)
    → IsSent t elapsed q r
    → length r.body ≤ max_response_body
IsSent-bounded t elapsed q r (taken, (answer, went, relays)) = relays.3.1

module _ (codec : Codec) (lower upper : Char → Char) (encode : Values → String) where
  module _ {S C Q : Type 0} (server : Server S C Q) (claims : Option Claims) where
    module _ (w : World S C) where
      -- Who answered a request with the payload, the headers and the query of the caller: the worker,
      -- at the address of the application, for one of the worker pool, and otherwise its Service, by
      -- way of the API server, which gets no skipped header.
      abbrev pub IsAnswer :
          Option ProxyClient
          → Transport
          → ℕ
          → Application
          → InvokeRequest
          → Bytes
          → Proxy.Response
          → Type 0
      IsAnswer proxy worker elapsed app input payload r =
          ((app.runtime ≡ runtime_worker_pool)
            × (server.worker_invoke_url ≢ "")
            × IsSent worker elapsed
                (record {
                  method = normal_method lower upper encode input.method;
                  url =
                      with_query
                        (at_path (server.worker_invoke_url +++ "/apps/" +++ app.name)
                          (normal_path input.path))
                        (encode input.query);
                  headers = all_added input.headers;
                  body = payload;
                })
                r)
          ⊎ ((app.runtime ≢ runtime_worker_pool)
              × ((p : ProxyClient) × (proxy ≡ some p)
                  × IsSent p.transport elapsed
                      (record {
                        method = normal_method lower upper encode input.method;
                        url =
                            with_query
                              (p.base_url
                                +++ "/api/v1/namespaces/"
                                +++ server.namespace
                                +++ "/services/http:"
                                +++ app.name
                                +++ ":80/proxy"
                                +++ normal_path input.path)
                              (encode input.query);
                        headers =
                            all_added
                              (keep (λ h. not (is_skipped lower upper encode h.0)) input.headers);
                        body = payload;
                      })
                      r))

      relayed-to :
          (P : Proxy.Response → Type 0) (r : Result String Proxy.Response)
          → ((x : Proxy.Response) → r ≡ ok x → P x)
          → ReadsTo {R = InvokeResponse} w P (relayed codec lower upper encode server claims r w)
      relayed-to P (ok r) h = inl (r, refl, h r refl)
      relayed-to P (err e) h = inr (502, _, refl)

      worker-IsSent :
          (t : Transport) (base : String) (elapsed : ℕ) (app : String) (input : InvokeRequest)
          (payload : Bytes) (r : Proxy.Response)
          → invoke_worker codec lower upper encode t base elapsed app input payload ≡ ok r
          → IsSent t elapsed
              (record {
                method = normal_method lower upper encode input.method;
                url =
                    with_query
                      (at_path (base +++ "/apps/" +++ app) (normal_path input.path))
                      (encode input.query);
                headers = all_added input.headers;
                body = payload;
              })
              r
      unfolding invoke_worker worker_request worker_url
      worker-IsSent t base elapsed app input payload r h =
          let (answer, read, sent) = >>=-ok (do_request t _) _ h in
          exchanged-IsSent t elapsed _ answer r sent read

      proxy-IsSent :
          (p : ProxyClient) (elapsed : ℕ) (app : Application) (input : InvokeRequest)
          (payload : Bytes) (r : Proxy.Response)
          → Proxy.invoke lower upper encode p.transport p.base_url elapsed (record {
            namespace = server.namespace;
            service_name = app.name;
            method = input.method;
            path = input.path;
            query = input.query;
            headers = input.headers;
            body = payload;
          })
            ≡ ok r
          → IsSent p.transport elapsed
              (record {
                method = normal_method lower upper encode input.method;
                url =
                    with_query
                      (p.base_url
                        +++ "/api/v1/namespaces/"
                        +++ server.namespace
                        +++ "/services/http:"
                        +++ app.name
                        +++ ":80/proxy"
                        +++ normal_path input.path)
                      (encode input.query);
                headers =
                    all_added (keep (λ h. not (is_skipped lower upper encode h.0)) input.headers);
                body = payload;
              })
              r
      unfolding proxy_request
      proxy-IsSent p elapsed app input payload r h =
          let (s, n, all, same, (answer, sent, relays)) =
            invoke-Relays lower upper encode p.transport p.base_url elapsed _ r h in
          let (taken, went) = do_request-ok p.transport _ answer sent in
          rw (sym same) (taken, (answer, went, relays))

      proxied-IsAnswer :
          (proxy : Option ProxyClient) (worker : Transport) (elapsed : ℕ) (app : Application)
          (input : InvokeRequest) (payload : Bytes)
          → app.runtime ≢ runtime_worker_pool
          → ReadsTo {R = InvokeResponse} w
              (IsAnswer proxy worker elapsed app input payload)
              (proxied codec lower upper encode server claims proxy elapsed app input payload w)
      proxied-IsAnswer none worker elapsed app input payload h = inr (503, _, refl)
      proxied-IsAnswer (some p) worker elapsed app input payload h =
          relayed-to (IsAnswer (some p) worker elapsed app input payload) _
            (λ x e. inr (h, (p, refl, proxy-IsSent p elapsed app input payload x e)))

      dispatched-IsAnswer :
          (proxy : Option ProxyClient) (worker : Transport) (elapsed : ℕ) (app : Application)
          (input : InvokeRequest) (payload : Bytes)
          → ReadsTo {R = InvokeResponse} w (IsAnswer proxy worker elapsed app input payload) (
              dispatched codec lower upper encode server claims proxy worker elapsed app input
                payload w)
      dispatched-IsAnswer proxy worker elapsed app input payload =
          elim (Bool-cases (app.runtime == runtime_worker_pool)) [
            | inr other ↦ rw other (
                proxied-IsAnswer proxy worker elapsed app input payload
                  (λ e. ground (arith, eq_iff app.runtime runtime_worker_pool)))
            | inl pool ↦ elim (Bool-cases (server.worker_invoke_url == "")) [
              | inl unset ↦ rw (pool, unset) (inr (503, _, refl))
              | inr set ↦
                  rw (pool, set)
                    (relayed-to (IsAnswer proxy worker elapsed app input payload) _ (λ x e. inl (
                      (eq_iff app.runtime runtime_worker_pool).0 pool,
                      (λ u. ground (arith, eq_iff server.worker_invoke_url "")),
                      worker-IsSent worker server.worker_invoke_url elapsed app.name input payload x
                          e,
                    )))
            ]
          ]

      IsAnswer-bounded :
          (proxy : Option ProxyClient) (worker : Transport) (elapsed : ℕ) (app : Application)
          (input : InvokeRequest) (payload : Bytes) (r : Proxy.Response)
          → IsAnswer proxy worker elapsed app input payload r
          → length r.body ≤ max_response_body
      IsAnswer-bounded proxy worker elapsed app input payload r (inl (pool, set, sent)) =
          IsSent-bounded worker elapsed _ r sent
      IsAnswer-bounded proxy worker elapsed app input payload r (inr (other, (p, is_p, sent))) =
          IsSent-bounded p.transport elapsed _ r sent

      -- An invocation that is answered without an error was authenticated and is answered with 200; it
      -- was of a stored function. One request was sent, whose body is what the caller's body stands for
      -- and of at most 1 MiB, with the caller's method and query: to the worker, with all headers, for
      -- an application of the worker pool, and otherwise to the application's Service, without the
      -- skipped headers. Of the answer at most 1 MiB is returned, and neither the store nor the cluster
      -- changes.
      pub invoke_function-IsAnswer :
          (proxy : Option ProxyClient) (worker : Transport) (elapsed : ℕ) (app_id fn_id : String)
          (body : Option InvokeRequest) (status : ℕ) (out : InvokeResponse) (v : World S C)
          → invoke_function codec lower upper encode server claims proxy worker elapsed app_id fn_id
              body w
            ≡ (json status out, v)
          → (v ≡ w)
            × (status ≡ 200)
            × (authed claims ≡ true)
            × ((app : Application) × (fn : Function) × (input : InvokeRequest) × (payload : Bytes)
                × (r : Proxy.Response) × (body ≡ some input)
                × (load_function {C = C} {R = InvokeResponse} server.store app_id fn_id w
                    ≡ (ok (app, fn), w))
                × (IsPayload codec input payload)
                × (IsAnswer proxy worker elapsed app input payload r)
                × (length r.body ≤ max_response_body)
                × (out ≡ invoke_response codec lower upper encode r))
      unfolding invoke_function
      invoke_function-IsAnswer proxy worker elapsed app_id fn_id body status out v h =
          let (u, allowed, h₁) =
            then-json w (require_auth claims) _
              (require-Reads w (authed claims) 401 "unauthenticated") h in
          let ((app, fn), found, h₂) =
            then-json w (load_function server.store app_id fn_id) _
              (load_function-Reads w server.store app_id fn_id) h₁ in
          let (input, is_input, h₃) =
            then_json-ReadsTo w (λ x. body ≡ some x) (decoded body) _ (decoded-ReadsTo w body) h₂ in
          let (payload, is_payload, h₄) =
            then_json-ReadsTo w (IsPayload codec input)
              (request_body codec lower upper encode server claims input) _
              (request_body-IsPayload codec lower upper encode server claims w input) h₃ in
          let (r, is_answer, h₅) =
            then_json-ReadsTo w (IsAnswer proxy worker elapsed app input payload)
              (dispatched codec lower upper encode server claims proxy worker elapsed app input
                payload)
              _ (dispatched-IsAnswer proxy worker elapsed app input payload) h₄ in
          let (same, status_is, out_is) = json-injective w h₅ in
          (
            same,
            status_is,
            require-ok w (authed claims) 401 "unauthenticated" allowed,
            (
              app,
              fn,
              input,
              payload,
              r,
              is_input,
              found,
              is_payload,
              is_answer,
              IsAnswer-bounded proxy worker elapsed app input payload r is_answer,
              out_is,
            ),
          )

  -- Where base64 decodes what it encodes, and text that was read from valid UTF-8 is written as the
  -- same bytes, the bytes of every answer are read back from the reply, whatever its content type.
  pub invoke_response-body :
      (r : Proxy.Response)
      → ((b : Bytes) → codec.decode64 (codec.encode64 b) ≡ some b)
      → ((b : Bytes) → codec.is_utf8 b ≡ true → codec.to_bytes (codec.to_text b) ≡ b)
      → bytes_of codec (invoke_response codec lower upper encode r) ≡ some r.body
  unfolding invoke_response
  invoke_response-body r base64 utf8 = elim (Bool-cases (is_binary codec lower upper encode r)) [
    | inl binary ↦ rw binary (base64 r.body)
    | inr text ↦ rw text (ap some (utf8 r.body (is_binary-utf8 codec lower upper encode r text)))
  ]
