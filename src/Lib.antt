-- ===== src/Lib.antt =====
-- The spinup control plane: applications made of functions, built into images by Kubernetes Jobs
-- and published as SpinApps or to a worker pool. Source:
-- services/control-plane/internal. Components and the files that model them:
--
--   Store.antt, Store/Sqlite.antt     store/store.go, store/sqlite.go: the rows, the `Store`
--                                     contract as a record of operations, and the sqlite methods
--                                     on four tables (Store/Table.antt: UPDATE, DELETE, ORDER BY).
--   Policy.antt                       policy/resources.go: `Apply` and `checkMax`.
--   Kube.antt                         the Kubernetes API server as a record of operations, and
--                                     unstructured objects.
--   SpinApp.antt, Istio.antt          spinapp/spinapp.go, istio/virtualservice.go: the clients.
--   Deploy.antt                       deploy/deploy.go: `Deploy` and `Undeploy`.
--   Archive.antt                      `packFiles` of builder/builder.go, `writeTarGz` and
--                                     `readTarGz` of httpapi/archive.go.
--   Builder.antt, Builder/            builder/builder.go (`Start`, `watch`, `createJob`,
--                                     `extractImageSize`) and builder/manifest.go.
--   HttpApi.antt, HttpApi/            httpapi/applications.go, functions.go, builds.go,
--                                     archive.go, worker.go, worker_url.go: one function for each
--                                     handler, on the world of World.antt (store, cluster,
--                                     counters).
--   HttpApi/Api.antt                  the routes of httpapi/server.go that write, and sequences of
--                                     requests to them.
--   HttpApi/Invoke.antt, Proxy.antt   httpapi/invoke.go, proxy/proxy.go: calls of functions.
--   HttpApi/Metrics.antt,             httpapi/metrics.go, promql/client.go.
--   Promql.antt
--   HttpApi/Logs.antt                 httpapi/logs.go and the logs of builds.go and builder.go.
--   Session.antt, Auth.antt           session/memory.go; auth/authz.go, the middleware of
--                                     auth/oidc.go, and `resolve` and `handleMe` of auth/oauth.go.
--   Auth/Oauth.antt, Auth/Login.antt  auth/oauth.go: login, callback, logout and their cookies.
--   WebUi.antt                        webui/handler.go: files, the shell and cache headers.
--   K8s.antt                          k8s/client.go: the configuration and the clients.
--   Config.antt                       config/config.go: `Load`; `Open` of store/store.go.
--   Telemetry.antt                    telemetry/metrics.go: the counting of requests.
--   Process.antt                      cmd/control-plane/main.go up to the listener, and what
--                                     httpapi/server.go puts before the handlers.
--   Text.antt, Text/                  the functions of Go's strings, and path.Clean.
--   Prelude.antt, Tests.antt          shared names and lemmas; concrete data and examples.
--
-- A handler reads the store through the record of store operations and calls the deployer and the
-- builder, which call the clients; the theorems about handlers take the sqlite operations for the
-- store. A command of the store returns the next tables, a call of the API server the next cluster.
-- Go's strings are strings, int32 is an integer and wraps where the code converts to it, a time is
-- a number, a nil pointer an absent option, and a map of files an association list.
--
-- The process is started from the environment: its configuration gives the policy, the deployer, the
-- builder and the authentication. Under /api/ the version and the resource policy are open to everybody;
-- the middleware stands before every other handler.
--
-- Requests are handled one after another, and one reading of the clock stands for those of one call. A
-- cookie that is set is what http.SetCookie is given; what it and the browser make of a value is a
-- parameter of the theorems about logins.
--
-- Loops are recursion on the lists they run over, so no fuel is needed. The poll of a build's Job
-- runs over the answers that arrive within its fifteen minutes; when they are used up the deadline
-- has passed.
--
-- Parameters: Kubernetes quantities (`parse`, `exceeds`), the API server, the clock, new ids and random
-- bytes, Go's tables of letters and of printable characters, durations, base64 and UTF-8, the pods' logs,
-- the environment, the identity provider and the OAuth and OIDC libraries, net/http as a transport,
-- Prometheus, and whether a database connection enforces foreign keys. Not modelled: the table of
-- routes, the file server of net/http, the registration of
-- instruments, the listener and the shutdown, the worker, tar and gzip, and SQL as text.
pub mod Prelude
pub mod Text
pub mod Store
pub mod Policy
pub mod Kube
pub mod SpinApp
pub mod Istio
pub mod K8s
pub mod Deploy
pub mod Archive
pub mod WebUi
pub mod World
pub mod Session
pub mod Config
pub mod Proxy
pub mod Promql
pub mod Auth
pub mod Builder
pub mod HttpApi
pub mod Telemetry
pub mod Process
pub mod Tests
