-- ===== src/HttpApi/Builds.antt =====
-- The handlers of services/control-plane/internal/httpapi/builds.go, without the streaming of logs,
-- and the archive handlers of archive.go. `limit` is the query parameter where it is a number.
pub mod Sources
pub mod Pages
use Prim.Native.String
use spinup.Prelude.{
  ℕ, zero, suc, ◌+◌, ℤ, pos, negsuc, String, Bool, true, false, not, ◌&&◌, ◌||◌, Option, none, some,
  List, [], ◌∷◌, map, Result, ok, err, ltb, if◌then◌else◌, ◌==◌,
}
use spinup.Store.{Application, Function, Source, Build, StoreError, not_found, refused, fault}
use spinup.World.{World}
use spinup.Text.{has_prefix, contains}
use spinup.Archive.{Files, Entry, UnpackError, pack, unpack}
use spinup.Builder.{Config, FunctionBuildInput, StartError}
use spinup.Builder.Start.{start}
use spinup.HttpApi.Dto.{SourceDto, BuildDto, to_build_dto}
use spinup.HttpApi.Actions.{
  Claims, Cause, start_cause, unpack_cause, Response, json, bare, failed, caused, Server, Action,
  pure, gets, modify, reject, reject_with, ◌>>=◌, ◌>>◌, require, decoded, serve, require_auth,
  recover, query, command, internal_error, not_found_or_500, load_application, load_function,
}

unfoldable pub bad_path : String → Bool
bad_path name = name == "" || has_prefix name "/" || contains name ".."

abbrev pub good_paths : Files → Bool
good_paths [] = true
good_paths ((name, content) ∷ files) = not (bad_path name) && good_paths files

abbrev pub is_empty : Files → Bool
is_empty [] = true
is_empty (f ∷ fs) = false

-- The default page has 5 builds; a number is cut to between 1 and 100.
unfoldable pub clamp_limit : Option ℤ → ℤ
clamp_limit none = pos 5
clamp_limit (some (pos n)) = if ltb n 1 then pos 1 else if ltb 100 n then pos 100 else pos n
clamp_limit (some (negsuc n)) = pos 1

module _ {S C Q : Type 0} (server : Server S C Q) (claims : Option Claims) where
  abbrev W : Type 0
  W = World S C

  abbrev pub no_source : {A R : Type 0} → Action W R A → StoreError → Action W R A
  no_source m not_found = m
  no_source m (refused c) = reject 500 "internal error"
  no_source m (fault s) = reject 500 "internal error"

  -- A function without a source has no files.
  unfoldable pub get_source : String → String → W → Response SourceDto × W
  unfolding load_function
  get_source app_id fn_id = serve do
    require_auth claims
    (app, fn) ← load_function server.store app_id fn_id
    (λ w.
        recover (server.store.get_source fn.fn_id w.store)
          (no_source (pure (json 200 (record { files = []; updated_at = 0 }))))
          (λ src. pure (json 200 (record { files = src.files; updated_at = src.updated_at }))) w)

  unfoldable pub put_source : String → String → Option Files → W → Response SourceDto × W
  unfolding load_function bad_path
  put_source app_id fn_id body = serve do
    require_auth claims
    (app, fn) ← load_function server.store app_id fn_id
    files ← decoded body
    require (not (is_empty files)) 400 "at least one file is required"
    require (good_paths files) 400 "invalid file path"
    command
        (server.store.put_source (record { function_id = fn.fn_id; files = files; updated_at = 0 }))
        internal_error
    pure (json 200 (record { files = files; updated_at = 0 }))

  unfoldable pub list_builds : String → Option ℤ → W → Response (List BuildDto) × W
  unfolding load_application clamp_limit to_build_dto
  list_builds app_id limit = serve do
    require_auth claims
    app ← load_application server.store app_id
    builds ← query (server.store.list_builds app.app_id (clamp_limit limit))
    pure (json 200 (map to_build_dto builds))

  abbrev pub not_found_as_400 : String → StoreError → Action W BuildDto (List FunctionBuildInput)
  not_found_as_400 name not_found =
      reject 400 (String.◌++◌ "function " (String.◌++◌ name " has no source uploaded yet"))
  not_found_as_400 name (refused c) = reject 500 "internal error"
  not_found_as_400 name (fault s) = reject 500 "internal error"

  -- The functions with their sources; one without a source ends the request.
  unfoldable pub build_inputs : List Function → Action W BuildDto (List FunctionBuildInput)
  build_inputs [] = pure []
  build_inputs (fn ∷ fns) =
      let rest = build_inputs fns in
      (λ w.
        recover (server.store.get_source fn.fn_id w.store) (not_found_as_400 fn.name)
          (λ src. rest >>= λ inputs. pure (record { function = fn; source = src } ∷ inputs)) w)

  abbrev pub started : Result StartError Build × W → Result (Response BuildDto) Build × W
  started (ok b, w) = (ok b, w)
  started (err e, w) = (err (failed 502 (caused "" (start_cause e))), w)

  abbrev pub has_functions : List Function → Bool
  has_functions [] = false
  has_functions (f ∷ fs) = true

  unfoldable pub start_build :
      Config → (ℕ → Bool) → (StartError → String) → ℕ → String → String → W → Response BuildDto × W
  unfolding load_application build_inputs to_build_dto
  start_build cfg is_print text now id app_id = serve do
    require_auth claims
    app ← load_application server.store app_id
    fns ← query (server.store.list_functions app.app_id)
    require (has_functions fns) 400 "application has no functions"
    inputs ← build_inputs fns
    b ← λ w. started (start server.store server.kube cfg is_print text now id app inputs w)
    pure (json 202 (to_build_dto b))

  unfoldable pub get_build : String → String → W → Response BuildDto × W
  unfolding load_application to_build_dto
  get_build app_id build_id = serve do
    require_auth claims
    app ← load_application server.store app_id
    b ← λ w.
        recover (server.store.get_build app.app_id build_id w.store) (not_found_or_500 "not found")
          pure w
    pure (json 200 (to_build_dto b))

  -- The archive, or nothing of it after a file name that cannot be packed.
  unfoldable pub export_source : String → String → W → Response (Result String Files) × W
  unfolding load_function
  export_source app_id fn_id = serve do
    require_auth claims
    (app, fn) ← load_function server.store app_id fn_id
    src ← λ w.
        recover (server.store.get_source fn.fn_id w.store)
          (not_found_or_500 "no source uploaded yet") pure w
    pure (json 200 (pack src.files))

  abbrev pub unpacked : Result UnpackError Files → Action W SourceDto Files
  unpacked (ok files) = pure files
  unpacked (err e) = reject_with 400 "invalid archive: " (unpack_cause e)

  abbrev pub decoded_archive : Option (List Entry) → Action W SourceDto (List Entry)
  decoded_archive none = reject 400 "invalid archive"
  decoded_archive (some es) = pure es

  -- The body is an archive that was decoded to its entries; the reply's time is that of the reply.
  unfoldable pub import_source :
      String → String → ℕ → Option (List Entry) → W → Response SourceDto × W
  unfolding load_function
  import_source app_id fn_id now body = serve do
    require_auth claims
    (app, fn) ← load_function server.store app_id fn_id
    entries ← decoded_archive body
    files ← unpacked (unpack entries)
    require (not (is_empty files)) 400 "archive is empty"
    command
        (server.store.put_source (record { function_id = fn.fn_id; files = files; updated_at = 0 }))
        internal_error
    pure (json 200 (record { files = files; updated_at = now }))
