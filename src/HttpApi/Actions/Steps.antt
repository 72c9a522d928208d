-- ===== src/HttpApi/Actions/Steps.antt =====
-- Steps of handlers that change nothing: they go on with a value or end the request with an error.
use spinup.Prelude.{
  ◌≡◌, refl, sym, ap, ◌⊎◌, inl, inr, ℕ, String, Bool, true, false, Option, none, some, Result, ok,
  err,
}
use spinup.Store.{StoreError, not_found, refused, fault, StoreOps}
use spinup.World.{World}
use spinup.HttpApi.Actions.{
  Message, Response, failed, json, Action, pure, require, decoded, written, ◌>>=◌, recover,
  not_found_or_500, load_application, load_function, default_tenant,
}

module _ {W R : Type 0} (w : W) where
  -- What such a step leaves: a value, or an error that was written.
  abbrev pub Reads : {A : Type 0} → Result (Response R) A × W → Type 0
  Reads {A} p =
      ((a : A) × (p ≡ (ok a, w))) ⊎ ((n : ℕ) × (m : Message) × (p ≡ (err (failed n m), w)))

  pub require-Reads : (b : Bool) (n : ℕ) (s : String) → Reads (require {W = W} {R = R} b n s w)
  require-Reads true n s = inl (tt, refl)
  require-Reads false n s = inr (n, _, refl)

  pub decoded-Reads : {A : Type 0} (o : Option A) → Reads (decoded {W = W} {R = R} o w)
  decoded-Reads none = inr (400, _, refl)
  decoded-Reads (some a) = inl (a, refl)

  pub then-Reads :
      {A B : Type 0} (m : Action W R A) (k : A → Action W R B)
      → Reads (m w)
      → ((a : A) → Reads (k a w))
      → Reads ((m >>= k) w)
  then-Reads m k (inl (a, e)) h = rw e (h a)
  then-Reads m k (inr (n, s, e)) h = rw e (inr (n, s, refl))

  pub require-ok :
      (b : Bool) (n : ℕ) (s : String) {u : Unit {0}}
      → require {W = W} {R = R} b n s w ≡ (ok u, w)
      → b ≡ true
  require-ok true n s e = refl
  require-ok false n s e = absurd (not_ok (ap (λ p. p.0) e))
    where
      not_ok :
          {r : Response R} {u : Unit {0}}
          → ◌≡◌ {A = Result (Response R) (Unit {0})} (err r) (ok u)
          → ⊥
      not_ok e = cc

  -- Two replies without an error that are the same.
  pub json-injective :
      {n k : ℕ} {a b : R} {v : W}
      → ◌≡◌ {A = Response R × W} (json n a, w) (json k b, v)
      → (v ≡ w) × (k ≡ n) × (b ≡ a)
  json-injective e = (ap (λ p. p.1) (sym e), status (ap (λ p. p.0) e), value (ap (λ p. p.0) e))
    where
      status : {n k : ℕ} {a b : R} → ◌≡◌ {A = Response R} (json n a) (json k b) → k ≡ n
      status e = cc

      value : {n k : ℕ} {a b : R} → ◌≡◌ {A = Response R} (json n a) (json k b) → b ≡ a
      value e = cc

  not_json :
      {n status : ℕ} {m : Message} {b : R} {v : W}
      → ◌≡◌ {A = Response R × W} (failed n m, w) (json status b, v)
      → ⊥
  not_json e = absurd (split (ap (λ p. p.0) e))
    where
      split :
          {n status : ℕ} {m : Message} {b : R}
          → ◌≡◌ {A = Response R} (failed n m) (json status b)
          → ⊥
      split e = cc

  -- A reply that is not an error went through the step.
  pub then-json :
      {A : Type 0} (m : Action W R A) (k : A → Action W R (Response R)) {status : ℕ} {b : R} {v : W}
      → Reads (m w)
      → written ((m >>= k) w) ≡ (json status b, v)
      → (a : A) × (m w ≡ (ok a, w)) × (written (k a w) ≡ (json status b, v))
  then-json m k (inl (a, e)) h = (a, e, (rw e at h))
  then-json m k (inr (n, s, e)) h = absurd (not_json (rw e at h))

  -- A step whose value has a property.
  abbrev pub ReadsTo : {A : Type 0} → (A → Type 0) → Result (Response R) A × W → Type 0
  ReadsTo {A} P p =
      ((a : A) × (p ≡ (ok a, w)) × P a) ⊎ ((n : ℕ) × (m : Message) × (p ≡ (err (failed n m), w)))

  pub decoded-ReadsTo :
      {A : Type 0} (o : Option A) → ReadsTo (λ a. o ≡ some a) (decoded {W = W} {R = R} o w)
  decoded-ReadsTo none = inr (400, _, refl)
  decoded-ReadsTo (some a) = inl (a, refl, refl)

  pub then-ReadsTo :
      {A B : Type 0} (P : B → Type 0) (m : Action W R A) (k : A → Action W R B)
      → Reads (m w)
      → ((a : A) → m w ≡ (ok a, w) → ReadsTo P (k a w))
      → ReadsTo P ((m >>= k) w)
  then-ReadsTo P m k (inl (a, e)) h = rw e (h a e)
  then-ReadsTo P m k (inr (n, s, e)) h = rw e (inr (n, s, refl))

  pub then_json-ReadsTo :
      {A : Type 0} (P : A → Type 0) (m : Action W R A) (k : A → Action W R (Response R))
      {status : ℕ} {b : R} {v : W}
      → ReadsTo P (m w)
      → written ((m >>= k) w) ≡ (json status b, v)
      → (a : A) × P a × (written (k a w) ≡ (json status b, v))
  then_json-ReadsTo P m k (inl (a, e, p)) h = (a, p, (rw e at h))
  then_json-ReadsTo P m k (inr (n, s, e)) h = absurd (not_json (rw e at h))

module _ {S C R : Type 0} (w : World S C) where
  recover-Reads :
      {A : Type 0} (what : String) (r : Result StoreError A)
      → Reads {R = R} w (recover r (not_found_or_500 {S = S} {C = C} {R = R} what) pure w)
  recover-Reads what (ok a) = inl (a, refl)
  recover-Reads what (err not_found) = inr (404, _, refl)
  recover-Reads what (err (refused c)) = inr (500, _, refl)
  recover-Reads what (err (fault s)) = inr (500, _, refl)

  pub load_application-Reads :
      (ops : StoreOps S) (id : String)
      → Reads {R = R} w (load_application {S = S} {C = C} {R = R} ops id w)
  unfolding load_application
  load_application-Reads ops id =
      recover-Reads "application not found" (ops.get_application default_tenant id w.store)

  pub load_function-Reads :
      (ops : StoreOps S) (app_id fn_id : String)
      → Reads {R = R} w (load_function {S = S} {C = C} {R = R} ops app_id fn_id w)
  unfolding load_function
  load_function-Reads ops app_id fn_id =
      then-Reads w (load_application ops app_id) _ (load_application-Reads ops app_id) (λ app.
        then-Reads w
          (λ v.
            recover (ops.get_function app_id fn_id v.store)
              (not_found_or_500 {S = S} {C = C} {R = R} "function not found") pure v)
          _ (recover-Reads "function not found" (ops.get_function app_id fn_id w.store))
          (λ fn. inl ((app, fn), refl)))
