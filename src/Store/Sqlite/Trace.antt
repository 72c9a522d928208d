-- ===== src/Store/Sqlite/Trace.antt =====
-- Every sequence of commands that the control plane may send to the tables, on connections that
-- enforce foreign keys.
use spinup.Prelude.{ℕ, ℤ, String, Option, List, [], ◌∷◌, true}
use spinup.Store.{BuildStatus, Variable, Resources, Application, Function, Source, Build}
use spinup.Store.Sqlite.{
  Db, Reply, create_application, update_application_config, delete_application, create_function,
  update_function_route, delete_function, put_source, create_build, update_build_status,
  update_build_image_size,
}
use spinup.Store.Sqlite.Integrity.{IsConsistent}
use spinup.Store.Sqlite.Integrity.Applications.{
  create_application-IsConsistent, update_application_config-IsConsistent,
  delete_application-IsConsistent,
}
use spinup.Store.Sqlite.Integrity.Functions.{
  create_function-IsConsistent, update_function_route-IsConsistent, delete_function-IsConsistent,
}
use spinup.Store.Sqlite.Integrity.Others.{
  put_source-IsConsistent, create_build-IsConsistent, update_build_status-IsConsistent,
  update_build_image_size-IsConsistent,
}

-- One constructor for each method of the store that writes.
pub data Command : Type 0 where
  new_app : Application → Command
  configure_app : String → String → String → ℤ → List Variable → Resources → Command
  drop_app : String → String → Command
  new_fn : Function → Command
  reroute_fn : String → String → String → Command
  drop_fn : String → String → Command
  write_source : Source → Command
  new_build : Build → Command
  set_status : String → BuildStatus → String → Option ℕ → Command
  set_size : String → ℤ → Command

unfoldable pub execute : ℕ → Command → Db → Reply
execute now (new_app a) = create_application now a
execute now (configure_app t i d n v r) = update_application_config now t i d n v r
execute now (drop_app t i) = delete_application true t i
execute now (new_fn f) = create_function true now f
execute now (reroute_fn a i r) = update_function_route now a i r
execute now (drop_fn a i) = delete_function true a i
execute now (write_source s) = put_source true now s
execute now (new_build b) = create_build true now b
execute now (set_status i s m t) = update_build_status i s m t
execute now (set_size i n) = update_build_image_size i n

-- Each command with the time at which it runs; a refused command leaves its own reply behind.
unfoldable pub run : List (ℕ × Command) → Db → Db
unfolding execute
run [] db = db
run ((now, c) ∷ cs) db = run cs (execute now c db).1

abbrev pub empty : Db
empty = record { applications = []; functions = []; sources = []; builds = [] }

pub execute-IsConsistent :
    (now : ℕ) (c : Command) (db : Db) → IsConsistent db → IsConsistent (execute now c db).1
unfolding execute
execute-IsConsistent now (new_app a) db = create_application-IsConsistent now a db
execute-IsConsistent now (configure_app t i d n v r) db =
    update_application_config-IsConsistent now t i d n v r db
execute-IsConsistent now (drop_app t i) db = delete_application-IsConsistent t i db
execute-IsConsistent now (new_fn f) db = create_function-IsConsistent now f db
execute-IsConsistent now (reroute_fn a i r) db = update_function_route-IsConsistent now a i r db
execute-IsConsistent now (drop_fn a i) db = delete_function-IsConsistent a i db
execute-IsConsistent now (write_source s) db = put_source-IsConsistent now s db
execute-IsConsistent now (new_build b) db = create_build-IsConsistent now b db
execute-IsConsistent now (set_status i s m t) db = update_build_status-IsConsistent i s m t db
execute-IsConsistent now (set_size i n) db = update_build_image_size-IsConsistent i n db

-- From consistent tables, any sequence of commands leads to consistent tables: the keys stay
-- unique, the references valid and the replica counts positive.
pub run-IsConsistent :
    (cs : List (ℕ × Command)) (db : Db) → IsConsistent db → IsConsistent (run cs db)
unfolding run
run-IsConsistent [] db h = h
run-IsConsistent ((now, c) ∷ cs) db h =
    run-IsConsistent cs (execute now c db).1 (execute-IsConsistent now c db h)
