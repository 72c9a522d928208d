-- ===== src/HttpApi/Api/Rest.antt =====
-- The handlers of functions, sources and builds keep the tables consistent.
use spinup.Prelude.{
  ℕ, String, Bool, true, not, Option, none, some, List, [], ◌∷◌, Result, ok, err, length, ltb,
}
use spinup.Store.{Function, Source, Build, StoreError, not_found, refused, fault}
use spinup.Store.Sqlite
use spinup.Store.Sqlite.{Db, sqlite}
use spinup.Store.Sqlite.Integrity.{IsConsistent}
use spinup.Store.Sqlite.Integrity.Functions.{
  create_function-IsConsistent, update_function_route-IsConsistent, delete_function-IsConsistent,
}
use spinup.Store.Sqlite.Integrity.Others.{put_source-IsConsistent}
use spinup.World.{World}
use spinup.Text.{has_prefix}
use spinup.Archive.{Files, Entry, UnpackError, unpack}
use spinup.Builder.{Config, StartError}
use spinup.Builder.Start.{start}
use spinup.Builder.Start.Consistent.{start-IsConsistent}
use spinup.HttpApi.Dto.{FunctionDto, SourceDto, BuildDto, CreateFunctionInput}
use spinup.HttpApi.Actions.{Claims, Server, authed, internal_error, pure, ◌>>=◌}
use spinup.HttpApi.Actions.Keeps.{
  Keeps, then-Keeps, serve-kept, same-Keeps, require-Keeps, decoded-Keeps, query-Keeps, reads-Keeps,
  command-Keeps, load_application-Keeps, load_function-Keeps,
}
use spinup.HttpApi.Names.{dns1123}
use spinup.HttpApi.Functions.{create_function, new_function, update_function, delete_function}
use spinup.HttpApi.Builds.{
  is_empty, good_paths, put_source, import_source, started, unpacked, decoded_archive,
  not_found_as_400, build_inputs, has_functions, start_build,
}

module _ {C Q : Type 0} (server : Server Db C Q) (t : ℕ) (claims : Option Claims) where
  abbrev on_sqlite : Server Db C Q
  on_sqlite = record server { store = sqlite true t }

  pub create_function-Keeps :
      (id app_id : String) (body : Option CreateFunctionInput) (w : World Db C)
      → IsConsistent w.store
      → IsConsistent (create_function on_sqlite claims id app_id body w).1.store
  unfolding create_function
  create_function-Keeps id app_id body w h =
      serve-kept {R = FunctionDto} w
        (then-Keeps (require-Keeps (authed claims) 401 "unauthenticated") (λ _.
          then-Keeps (load_application-Keeps (sqlite true t) app_id) (λ app.
            then-Keeps (decoded-Keeps body) (λ input.
              then-Keeps (require-Keeps (dns1123 input.name) 400 "name must be DNS-1123") (λ _.
                then-Keeps
                  (command-Keeps (Sqlite.create_function true t (new_function id app.app_id input))
                    _ (create_function-IsConsistent t (new_function id app.app_id input))
                    (λ e. same-Keeps (λ v d. d)))
                  (λ _. same-Keeps (λ v d. d)))))))
        h

  pub update_function-Keeps :
      (app_id fn_id : String) (body : Option String) (w : World Db C)
      → IsConsistent w.store
      → IsConsistent (update_function on_sqlite claims app_id fn_id body w).1.store
  unfolding update_function
  update_function-Keeps app_id fn_id body w h =
      serve-kept {R = FunctionDto} w
        (then-Keeps (require-Keeps (authed claims) 401 "unauthenticated") (λ _.
          then-Keeps (load_function-Keeps (sqlite true t) app_id fn_id) (λ pair.
            then-Keeps (decoded-Keeps body) (λ route.
              then-Keeps (require-Keeps (has_prefix route "/") 400 _) (λ _.
                then-Keeps
                  (command-Keeps (Sqlite.update_function_route t pair.0.app_id pair.1.fn_id route) _
                    (update_function_route-IsConsistent t pair.0.app_id pair.1.fn_id route)
                    (λ e. same-Keeps (λ v d. d)))
                  (λ _. same-Keeps (λ v d. d)))))))
        h

  pub delete_function-Keeps :
      (app_id fn_id : String) (w : World Db C)
      → IsConsistent w.store
      → IsConsistent (delete_function on_sqlite claims app_id fn_id w).1.store
  unfolding delete_function
  delete_function-Keeps app_id fn_id w h =
      serve-kept {R = Unit {0}} w
        (then-Keeps (require-Keeps (authed claims) 401 "unauthenticated") (λ _.
          then-Keeps (load_function-Keeps (sqlite true t) app_id fn_id) (λ pair.
            then-Keeps (query-Keeps (Sqlite.list_functions pair.0.app_id)) (λ all.
              then-Keeps (require-Keeps (ltb 1 (length all)) 409 _) (λ _.
                then-Keeps
                  (command-Keeps (Sqlite.delete_function true pair.0.app_id pair.1.fn_id)
                    internal_error (delete_function-IsConsistent pair.0.app_id pair.1.fn_id)
                    (λ e. same-Keeps (λ v d. d)))
                  (λ _. same-Keeps (λ v d. d)))))))
        h

  source_row : String → Files → Source
  source_row fn_id files = record { function_id = fn_id; files = files; updated_at = 0 }

  pub put_source-Keeps :
      (app_id fn_id : String) (body : Option Files) (w : World Db C)
      → IsConsistent w.store
      → IsConsistent (put_source on_sqlite claims app_id fn_id body w).1.store
  unfolding put_source source_row
  put_source-Keeps app_id fn_id body w h =
      serve-kept {R = SourceDto} w
        (then-Keeps (require-Keeps (authed claims) 401 "unauthenticated") (λ _.
          then-Keeps (load_function-Keeps (sqlite true t) app_id fn_id) (λ pair.
            then-Keeps (decoded-Keeps body) (λ files.
              then-Keeps (require-Keeps (not (is_empty files)) 400 _) (λ _.
                then-Keeps (require-Keeps (good_paths files) 400 _) (λ _.
                  then-Keeps
                    (command-Keeps (Sqlite.put_source true t (source_row pair.1.fn_id files))
                      internal_error (put_source-IsConsistent t (source_row pair.1.fn_id files))
                      (λ e. same-Keeps (λ v d. d)))
                    (λ _. same-Keeps (λ v d. d))))))))
        h

  unpacked-Keeps : (r : Result UnpackError Files) → Keeps (unpacked on_sqlite claims r)
  unpacked-Keeps (ok files) = same-Keeps (λ w c. c)
  unpacked-Keeps (err e) = same-Keeps (λ w c. c)

  decoded_archive-Keeps : (o : Option (List Entry)) → Keeps (decoded_archive on_sqlite claims o)
  decoded_archive-Keeps none = same-Keeps (λ w c. c)
  decoded_archive-Keeps (some es) = same-Keeps (λ w c. c)

  pub import_source-Keeps :
      (app_id fn_id : String) (now : ℕ) (body : Option (List Entry)) (w : World Db C)
      → IsConsistent w.store
      → IsConsistent (import_source on_sqlite claims app_id fn_id now body w).1.store
  unfolding import_source source_row
  import_source-Keeps app_id fn_id now body w h =
      serve-kept {R = SourceDto} w
        (then-Keeps (require-Keeps (authed claims) 401 "unauthenticated") (λ _.
          then-Keeps (load_function-Keeps (sqlite true t) app_id fn_id) (λ pair.
            then-Keeps (decoded_archive-Keeps body) (λ entries.
              then-Keeps (unpacked-Keeps (unpack entries)) (λ files.
                then-Keeps (require-Keeps (not (is_empty files)) 400 _) (λ _.
                  then-Keeps
                    (command-Keeps (Sqlite.put_source true t (source_row pair.1.fn_id files))
                      internal_error (put_source-IsConsistent t (source_row pair.1.fn_id files))
                      (λ e. same-Keeps (λ v d. d)))
                    (λ _. same-Keeps (λ v d. d))))))))
        h

  not_found_as_400-Keeps :
      (name : String) (e : StoreError) → Keeps (not_found_as_400 on_sqlite claims name e)
  not_found_as_400-Keeps name not_found = same-Keeps (λ w c. c)
  not_found_as_400-Keeps name (refused x) = same-Keeps (λ w c. c)
  not_found_as_400-Keeps name (fault s) = same-Keeps (λ w c. c)

  build_inputs-Keeps : (fns : List Function) → Keeps (build_inputs on_sqlite claims fns)
  unfolding build_inputs
  build_inputs-Keeps [] = same-Keeps (λ w c. c)
  build_inputs-Keeps (fn ∷ fns) =
      reads-Keeps (Sqlite.get_source fn.fn_id) (not_found_as_400 on_sqlite claims fn.name)
        (λ src. build_inputs on_sqlite claims fns >>= λ inputs.
          pure (record { function = fn; source = src } ∷ inputs))
        (not_found_as_400-Keeps fn.name)
        (λ src. then-Keeps (build_inputs-Keeps fns) (λ inputs. same-Keeps (λ v d. d)))

  started-kept :
      (p : Result StartError Build × World Db C)
      → IsConsistent p.1.store
      → IsConsistent (started on_sqlite claims p).1.store
  started-kept (ok b, w) h = h
  started-kept (err e, w) h = h

  pub start_build-Keeps :
      (cfg : Config) (is_print : ℕ → Bool) (text : StartError → String) (now : ℕ)
      (id app_id : String) (w : World Db C)
      → IsConsistent w.store
      → IsConsistent (start_build on_sqlite claims cfg is_print text now id app_id w).1.store
  unfolding start_build
  start_build-Keeps cfg is_print text now id app_id w h =
      serve-kept {R = BuildDto} w
        (then-Keeps (require-Keeps (authed claims) 401 "unauthenticated") (λ _.
          then-Keeps (load_application-Keeps (sqlite true t) app_id) (λ app.
            then-Keeps (query-Keeps (Sqlite.list_functions app.app_id)) (λ fns.
              then-Keeps (require-Keeps (has_functions on_sqlite claims fns) 400 _) (λ _.
                then-Keeps (build_inputs-Keeps fns) (λ inputs.
                  then-Keeps
                    (same-Keeps
                      {m = λ w.
                        started on_sqlite claims
                          (start (sqlite true t) server.kube cfg is_print text now id app inputs w)}
                      (λ v d.
                        started-kept
                          (start (sqlite true t) server.kube cfg is_print text now id app inputs v)
                          (start-IsConsistent t server.kube cfg text is_print now id app inputs v
                            d)))
                    (λ b. same-Keeps (λ v d. d))))))))
        h
