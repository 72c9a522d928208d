-- ===== src/HttpApi/Actions.antt =====
-- Responses, the actions that handlers are made of, and the loading of rows that they begin with
-- (loadApplication, loadFunction and authed of applications.go).
pub mod Steps
pub mod Keeps
use spinup.Prelude.{ℕ, String, Bool, true, false, Option, none, some, List, Result, ok, err}
use spinup.Store.{Application, Function, StoreError, not_found, refused, fault, StoreOps}
use spinup.Policy.{PolicyError, ResourcePolicy}
use spinup.SpinApp.{SpinError}
use spinup.Kube.{Kube, KubeError}
use spinup.Deploy.{Deployer}
use spinup.World.{World}
use spinup.Builder.{StartError}
use spinup.Archive.{UnpackError}

pub record Claims : Type 0 where
  pub subject : String
  pub email : String
  pub groups : List String
  pub roles : List String

-- `err.Error()` in a message.
pub data Cause : Type 0 where
  store_cause : StoreError → Cause
  policy_cause : PolicyError → Cause
  spin_cause : SpinError → Cause
  kube_cause : KubeError → Cause
  start_cause : StartError → Cause
  unpack_cause : UnpackError → Cause

pub data Message : Type 0 where
  plain : String → Message
  caused : String → Cause → Message

-- http.Error, writeJSON and a bare WriteHeader.
pub data Response (A : Type 0) : Type 0 where
  failed : ℕ → Message → Response A
  json : ℕ → A → Response A
  bare : ℕ → Response A

abbrev pub status_of : {A : Type 0} → Response A → ℕ
status_of (failed n m) = n
status_of (json n a) = n
status_of (bare n) = n

-- The parts of `Server` that the handlers read.
pub record Server (S C Q : Type 0) : Type 0 where
  pub store : StoreOps S
  pub kube : Kube C
  pub parse : String → Option Q
  pub exceeds : Q → Q → Bool
  pub deployer : Deployer
  pub resource_policy : ResourcePolicy
  pub namespace : String
  pub public_domain : String
  pub public_base_url : String
  pub worker_invoke_url : String
  pub worker_ui_url : String

-- Either the value to go on with, or the response that was written.
abbrev pub Action : Type 0 → Type 0 → Type 0 → Type 0
Action W R A = W → Result (Response R) A × W

module _ {W R : Type 0} where
  abbrev pub pure : {A : Type 0} → A → Action W R A
  pure a w = (ok a, w)

  abbrev pub gets : {A : Type 0} → (W → A) → Action W R A
  gets f w = (ok (f w), w)

  abbrev pub modify : (W → W) → Action W R (Unit {0})
  modify f w = (ok tt, f w)

  abbrev pub reject : {A : Type 0} → ℕ → String → Action W R A
  reject n message w = (err (failed n (plain message)), w)

  abbrev pub reject_with : {A : Type 0} → ℕ → String → Cause → Action W R A
  reject_with n message cause w = (err (failed n (caused message cause)), w)

  abbrev pub after :
      {A B : Type 0} → Result (Response R) A × W → (A → Action W R B) → Result (Response R) B × W
  after (ok a, w) f = f a w
  after (err r, w) f = (err r, w)

  infixl 5 ◌>>=◌ ◌>>◌
  abbrev pub ◌>>=◌ : {A B : Type 0} → Action W R A → (A → Action W R B) → Action W R B
  ◌>>=◌ m f w = after (m w) f

  abbrev pub ◌>>◌ : {B : Type 0} → Action W R (Unit {0}) → Action W R B → Action W R B
  m >> k = m >>= λ _. k

  -- `if !cond { http.Error(…); return }`
  abbrev pub require : Bool → ℕ → String → Action W R (Unit {0})
  require true n message = pure tt
  require false n message = reject n message

  -- A body that does not decode is answered with 400.
  abbrev pub decoded : {A : Type 0} → Option A → Action W R A
  decoded none = reject 400 "invalid json"
  decoded (some a) = pure a

  abbrev pub written : Result (Response R) (Response R) × W → Response R × W
  written (ok r, w) = (r, w)
  written (err r, w) = (r, w)

  abbrev pub serve : Action W R (Response R) → W → Response R × W
  serve m w = written (m w)

-- auth.ClaimsFrom: the claims that the middleware left in the context.
abbrev pub authed : Option Claims → Bool
authed none = false
authed (some c) = true

abbrev pub default_tenant : String
default_tenant = "default"

module _ {S C R : Type 0} where
  abbrev pub require_auth : Option Claims → Action (World S C) R (Unit {0})
  require_auth claims = require (authed claims) 401 "unauthenticated"

  -- A query of the store, with what to do on an error.
  abbrev pub recover :
      {A B : Type 0}
      → Result StoreError A
      → (StoreError → Action (World S C) R B)
      → (A → Action (World S C) R B)
      → Action (World S C) R B
  recover (ok a) h f = f a
  recover (err e) h f = h e

  abbrev pub internal_error : {A : Type 0} → StoreError → Action (World S C) R A
  internal_error e = reject 500 "internal error"

  abbrev pub query : {A : Type 0} → (S → Result StoreError A) → Action (World S C) R A
  query q w = recover (q w.store) internal_error pure w

  abbrev pub stored :
      {A : Type 0}
      → Result StoreError A × S
      → World S C
      → (StoreError → Action (World S C) R A)
      → Result (Response R) A × World S C
  stored (ok a, s) w h = (ok a, record w { store = s })
  stored (err e, s) w h = h e (record w { store = s })

  -- A command to the store, with what to do on an error.
  abbrev pub command :
      {A : Type 0}
      → (S → Result StoreError A × S)
      → (StoreError → Action (World S C) R A)
      → Action (World S C) R A
  command f h w = stored (f w.store) w h

  abbrev pub not_found_or_500 : {A : Type 0} → String → StoreError → Action (World S C) R A
  not_found_or_500 what not_found = reject 404 what
  not_found_or_500 what (refused c) = reject 500 "internal error"
  not_found_or_500 what (fault s) = reject 500 "internal error"

  unfoldable pub load_application : StoreOps S → String → Action (World S C) R Application
  load_application ops id w =
      recover (ops.get_application default_tenant id w.store)
        (not_found_or_500 "application not found") pure w

  unfoldable pub load_function :
      StoreOps S → String → String → Action (World S C) R (Application × Function)
  unfolding load_application
  load_function ops app_id fn_id = do
    app ← load_application ops app_id
    fn ← λ w.
        recover (ops.get_function app_id fn_id w.store) (not_found_or_500 "function not found") pure
          w
    pure (app, fn)
