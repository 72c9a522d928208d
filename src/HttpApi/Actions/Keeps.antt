-- ===== src/HttpApi/Actions/Keeps.antt =====
-- Actions that keep the tables of the store consistent, whatever they reply.
use spinup.Prelude.{ℕ, String, Bool, true, false, Option, none, some, Result, ok, err}
use spinup.Store.{StoreError, not_found, refused, fault, StoreOps}
use spinup.Store.Sqlite.{Db}
use spinup.Store.Sqlite.Integrity.{IsConsistent}
use spinup.World.{World}
use spinup.HttpApi.Actions.{
  Response, Action, after, pure, require, decoded, written, serve, ◌>>=◌, recover, stored, query,
  command, internal_error, not_found_or_500, load_application, load_function, default_tenant,
}

pub record Keeps {C R A : Type 0} (m : Action (World Db C) R A) : Type 0 where
  pub kept : (w : World Db C) → IsConsistent w.store → IsConsistent (m w).1.store

module _ {C R : Type 0} where
  after-kept :
      {A B : Type 0} (p : Result (Response R) A × World Db C) (k : A → Action (World Db C) R B)
      → IsConsistent p.1.store
      → ((a : A) → Keeps (k a))
      → IsConsistent (after p k).1.store
  after-kept (ok a, w) k h l = (l a).kept w h
  after-kept (err r, w) k h l = h

  pub then-Keeps :
      {A B : Type 0} {m : Action (World Db C) R A} {k : A → Action (World Db C) R B}
      → Keeps m
      → ((a : A) → Keeps (k a))
      → Keeps (m >>= k)
  then-Keeps {A} {B} {m} {k} h l = record { kept = λ w c. after-kept (m w) k (h.kept w c) l }

  written-kept :
      (p : Result (Response R) (Response R) × World Db C)
      → IsConsistent p.1.store
      → IsConsistent (written p).1.store
  written-kept (ok r, w) h = h
  written-kept (err r, w) h = h

  pub serve-kept :
      {m : Action (World Db C) R (Response R)} (w : World Db C)
      → Keeps m
      → IsConsistent w.store
      → IsConsistent (serve m w).1.store
  serve-kept {m} w h c = written-kept (m w) (h.kept w c)

  -- An action that leaves the store alone.
  pub same-Keeps :
      {A : Type 0} {m : Action (World Db C) R A}
      → ((w : World Db C) → IsConsistent w.store → IsConsistent (m w).1.store)
      → Keeps m
  same-Keeps h = record { kept = h }

  pub require-Keeps :
      (b : Bool) (n : ℕ) (s : String) → Keeps (require {W = World Db C} {R = R} b n s)
  require-Keeps true n s = record { kept = λ w c. c }
  require-Keeps false n s = record { kept = λ w c. c }

  pub decoded-Keeps : {A : Type 0} (o : Option A) → Keeps (decoded {W = World Db C} {R = R} o)
  decoded-Keeps none = record { kept = λ w c. c }
  decoded-Keeps (some a) = record { kept = λ w c. c }

  recover-Keeps :
      {A B : Type 0} (r : Result StoreError A) (h : StoreError → Action (World Db C) R B)
      (f : A → Action (World Db C) R B)
      → ((e : StoreError) → Keeps (h e))
      → ((a : A) → Keeps (f a))
      → Keeps (recover r h f)
  recover-Keeps (ok a) h f kh kf = kf a
  recover-Keeps (err e) h f kh kf = kh e

  -- A read of the store, with what follows on an error and otherwise.
  pub reads-Keeps :
      {A B : Type 0} (r : Db → Result StoreError A) (h : StoreError → Action (World Db C) R B)
      (f : A → Action (World Db C) R B)
      → ((e : StoreError) → Keeps (h e))
      → ((a : A) → Keeps (f a))
      → Keeps (λ w. recover (r w.store) h f w)
  reads-Keeps r h f kh kf = record { kept = λ w c. (recover-Keeps (r w.store) h f kh kf).kept w c }

  pub not_found_or_500-Keeps :
      {A : Type 0} (what : String) (e : StoreError)
      → Keeps (not_found_or_500 {S = Db} {C = C} {R = R} {A = A} what e)
  not_found_or_500-Keeps what not_found = record { kept = λ w c. c }
  not_found_or_500-Keeps what (refused x) = record { kept = λ w c. c }
  not_found_or_500-Keeps what (fault s) = record { kept = λ w c. c }

  pub query-Keeps :
      {A : Type 0} (q : Db → Result StoreError A) → Keeps (query {S = Db} {C = C} {R = R} q)
  query-Keeps q =
      reads-Keeps q internal_error pure (λ e. record { kept = λ v d. d })
        (λ a. record { kept = λ v d. d })

  stored-kept :
      {A : Type 0} (p : Result StoreError A × Db) (w : World Db C)
      (h : StoreError → Action (World Db C) R A)
      → IsConsistent p.1
      → ((e : StoreError) → Keeps (h e))
      → IsConsistent (stored p w h).1.store
  stored-kept (ok a, s) w h c k = c
  stored-kept (err e, s) w h c k = (k e).kept (record w { store = s }) c

  pub command-Keeps :
      {A : Type 0} (f : Db → Result StoreError A × Db) (h : StoreError → Action (World Db C) R A)
      → ((db : Db) → IsConsistent db → IsConsistent (f db).1)
      → ((e : StoreError) → Keeps (h e))
      → Keeps (command {S = Db} {C = C} {R = R} f h)
  command-Keeps f h k l = record { kept = λ w c. stored-kept (f w.store) w h (k w.store c) l }

  pub load_application-Keeps :
      (ops : StoreOps Db) (id : String) → Keeps (load_application {C = C} {R = R} ops id)
  unfolding load_application
  load_application-Keeps ops id =
      reads-Keeps (ops.get_application default_tenant id) (not_found_or_500 "application not found")
        pure (not_found_or_500-Keeps "application not found") (λ a. record { kept = λ v d. d })

  pub load_function-Keeps :
      (ops : StoreOps Db) (app_id fn_id : String)
      → Keeps (load_function {C = C} {R = R} ops app_id fn_id)
  unfolding load_function
  load_function-Keeps ops app_id fn_id = then-Keeps (load_application-Keeps ops app_id) (λ app.
      then-Keeps {k = λ fn. pure (app, fn)}
        (reads-Keeps (ops.get_function app_id fn_id)
          (not_found_or_500 {S = Db} {C = C} {R = R} "function not found") pure
          (not_found_or_500-Keeps "function not found") (λ a. record { kept = λ v d. d }))
        (λ fn. record { kept = λ w d. d }))
