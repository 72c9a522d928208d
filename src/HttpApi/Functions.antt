-- ===== src/HttpApi/Functions.antt =====
-- The handlers of services/control-plane/internal/httpapi/functions.go.
pub mod Last
use Prim.Native.String
use spinup.Prelude.{
  ℕ, ◌+◌, String, Bool, true, false, not, ◌&&◌, ◌||◌, Option, none, some, List, [], ◌∷◌, map,
  Result, ok, err, length, ltb, if◌then◌else◌, ◌==◌,
}
use spinup.Store.{Application, Function, StoreError, not_found, refused, fault}
use spinup.World.{World}
use spinup.Text.{has_prefix}
use spinup.HttpApi.Names.{dns1123}
use spinup.HttpApi.Dto.{FunctionDto, CreateFunctionInput, to_function_dto}
use spinup.HttpApi.Actions.{
  Claims, Cause, store_cause, Response, json, bare, failed, caused, Server, Action, pure, gets,
  modify, reject, reject_with, ◌>>=◌, ◌>>◌, require, decoded, serve, require_auth, query, command,
  internal_error, load_application, load_function,
}

unfoldable pub default_route : String → String → String
default_route name route = if route == "" then String.◌++◌ "/" (String.◌++◌ name "/...") else route

unfoldable pub new_function : String → String → CreateFunctionInput → Function
unfolding default_route
new_function id app_id input = record {
  fn_id = id;
  application_id = app_id;
  name = input.name;
  route = default_route input.name input.route;
  created_at = 0;
  updated_at = 0;
}

module _ {S C Q : Type 0} (server : Server S C Q) (claims : Option Claims) where
  abbrev W : Type 0
  W = World S C

  unfoldable pub create_function :
      String → String → Option CreateFunctionInput → W → Response FunctionDto × W
  unfolding load_application new_function to_function_dto
  create_function id app_id body = serve do
    require_auth claims
    app ← load_application server.store app_id
    input ← decoded body
    require (dns1123 input.name) 400 "name must be DNS-1123"
    let fn = new_function id app.app_id input
    command (server.store.create_function fn)
        (λ e. reject_with 500 "internal error (possibly duplicate name/route): " (store_cause e))
    modify (λ w. record w { functions_created = w.functions_created + 1 })
    pure (json 201 (to_function_dto fn))

  unfoldable pub list_functions : String → W → Response (List FunctionDto) × W
  unfolding load_application to_function_dto
  list_functions app_id = serve do
    require_auth claims
    app ← load_application server.store app_id
    fns ← query (server.store.list_functions app.app_id)
    pure (json 200 (map to_function_dto fns))

  -- The body of the update is its route.
  unfoldable pub update_function : String → String → Option String → W → Response FunctionDto × W
  unfolding load_function to_function_dto
  update_function app_id fn_id body = serve do
    require_auth claims
    (app, fn) ← load_function server.store app_id fn_id
    route ← decoded body
    require (has_prefix route "/") 400 "route must start with \"/\""
    command (server.store.update_function_route app.app_id fn.fn_id route)
        (λ e. reject 500 "internal error (possibly duplicate route)")
    pure (json 200 (to_function_dto (record fn { route = route })))

  unfoldable pub get_function : String → String → W → Response FunctionDto × W
  unfolding load_function to_function_dto
  get_function app_id fn_id = serve do
    require_auth claims
    (app, fn) ← load_function server.store app_id fn_id
    pure (json 200 (to_function_dto fn))

  unfoldable pub delete_function : String → String → W → Response (Unit {0}) × W
  unfolding load_function
  delete_function app_id fn_id = serve do
    require_auth claims
    (app, fn) ← load_function server.store app_id fn_id
    all ← query (server.store.list_functions app.app_id)
    require (ltb 1 (length all)) 409 "cannot delete last function; delete the application instead"
    command (server.store.delete_function app.app_id fn.fn_id) internal_error
    modify (λ w. record w { functions_deleted = w.functions_deleted + 1 })
    pure (bare 204)
