-- ===== src/Config/Load.antt =====
-- What a configuration that config.go accepts promises, and what `store.Open` makes of it.
use mathlib.Core.Path.{subst}
use Prim.Native.Char.{Char}
use spinup.Prelude.{
  ◌≡◌, refl, ap, ◌≢◌, ◌⊎◌, inl, inr, String, Bool, true, false, not, ◌&&◌, ◌||◌, Option, arith,
  Result, ok, err, ok-injective, if◌then◌else◌, ◌==◌, eq_iff, Bool-cases,
}
use spinup.Config.{
  Config, OidcConfig, ConfigError, oidc_required, driver_unknown, loaded, checked, load,
  sqlite_opened, not_implemented, open_store,
}

-- Logins are configured, or switched off.
abbrev pub HasLogin : OidcConfig → Type 0
HasLogin o = (o.dev_insecure_skip_auth ≡ true) ⊎ ((o.issuer_url ≢ "") × (o.client_id ≢ ""))

-- The three outcomes of `Load`.
pub data Checked (c : Config) : Result ConfigError Config → Type 0 where
  accepted :
      HasLogin c.oidc → (c.db.driver ≡ "sqlite") ⊎ (c.db.driver ≡ "postgres") → Checked c (ok c)
  without_login :
      c.oidc.dev_insecure_skip_auth ≡ false
      → (c.oidc.issuer_url ≡ "") ⊎ (c.oidc.client_id ≡ "")
      → Checked c (err oidc_required)
  without_driver :
      HasLogin c.oidc
      → c.db.driver ≢ "sqlite"
      → c.db.driver ≢ "postgres"
      → Checked c (err (driver_unknown c.db.driver))

or_cases : (a b x y : String) → (a == x || b == y) ≡ true → (a ≡ x) ⊎ (b ≡ y)
or_cases a b x y h = elim (Bool-cases (a == x)) [
  | inl same ↦ inl ((eq_iff a x).0 same)
  | inr other ↦ inr ((eq_iff b y).0 (rw other at h))
]

differs : (a b : String) → (a == b) ≡ false → a ≢ b
differs a b h e = ground (arith, eq_iff a b)

driver-Checked :
    (c : Config)
    → HasLogin c.oidc
    → Checked c (
        if not (c.db.driver == "sqlite") && not (c.db.driver == "postgres")
        then err (driver_unknown c.db.driver)
        else ok c)
driver-Checked c login = elim (Bool-cases (c.db.driver == "sqlite")) [
  | inl lite ↦ rw lite (accepted login (inl ((eq_iff c.db.driver "sqlite").0 lite)))
  | inr not_lite ↦ elim (Bool-cases (c.db.driver == "postgres")) [
    | inl pg ↦ rw not_lite (rw pg (accepted login (inr ((eq_iff c.db.driver "postgres").0 pg))))
    | inr not_pg ↦ rw not_lite (
        rw not_pg (
          without_driver login (differs c.db.driver "sqlite" not_lite)
            (differs c.db.driver "postgres" not_pg)))
  ]
]

has_ids : (o : OidcConfig) → (o.issuer_url == "" || o.client_id == "") ≡ false → HasLogin o
has_ids o h =
    inr
      ((λ e. ground (arith, eq_iff o.issuer_url "")), (λ e. ground (arith, eq_iff o.client_id "")))

login-Checked :
    (c : Config) (skip missing : Bool)
    → c.oidc.dev_insecure_skip_auth ≡ skip
    → (c.oidc.issuer_url == "" || c.oidc.client_id == "") ≡ missing
    → Checked c (
        if not skip && missing
        then err oidc_required
        else if not (c.db.driver == "sqlite") && not (c.db.driver == "postgres")
        then err (driver_unknown c.db.driver)
        else ok c)
login-Checked c true missing skip h = driver-Checked c (inl skip)
login-Checked c false false skip h = driver-Checked c (has_ids c.oidc h)
login-Checked c false true skip h =
    without_login skip (or_cases c.oidc.issuer_url c.oidc.client_id "" "" h)

checked-Checked : (c : Config) → Checked c (checked c)
unfolding checked
checked-Checked c = login-Checked c _ _ refl refl

-- Load accepts what it read, unchanged, exactly where logins are configured or switched off and the
-- driver is one of the two that are named; it reports a missing issuer or client id only where
-- logins are required, and a driver only where it is neither.
pub load-Checked :
    (lookup : String → Option String) (lower : Char → Char)
    → Checked (loaded lookup lower) (load lookup lower)
load-Checked lookup lower = checked-Checked (loaded lookup lower)

Checked-driver :
    (c d : Config) (r : Result ConfigError Config)
    → Checked c r
    → r ≡ ok d
    → (d.db.driver ≡ "sqlite") ⊎ (d.db.driver ≡ "postgres")
Checked-driver c d _ (accepted login driver) e =
    subst (λ x. (x.db.driver ≡ "sqlite") ⊎ (x.db.driver ≡ "postgres")) (ok-injective e) driver
Checked-driver c d _ (without_login on missing) e = absurd cc
Checked-driver c d _ (without_driver login a b) e = absurd cc

-- Of the two drivers that Load accepts, the store opens one: with "sqlite" it is what openSQLite
-- gives for the data source name, and with "postgres" it is always an error.
pub open_store_lem :
    {E S : Type 0} (sqlite : String → Result E S) (c d : Config)
    → checked c ≡ ok d
    → ((d.db.driver ≡ "sqlite") × (open_store sqlite d.db ≡ sqlite_opened (sqlite d.db.dsn)))
      ⊎ ((d.db.driver ≡ "postgres") × (open_store sqlite d.db ≡ err not_implemented))
unfolding open_store
open_store_lem sqlite c d h = elim (Checked-driver c d (checked c) (checked-Checked c) h) [
  | inl lite ↦
      let is_lite : (d.db.driver == "sqlite") ≡ true = (eq_iff d.db.driver "sqlite").1 lite in
      inl (lite, rw is_lite refl)
  | inr pg ↦
      let not_lite : (d.db.driver == "sqlite") ≡ false = ap (λ x. x == "sqlite") pg in
      let is_pg : (d.db.driver == "postgres") ≡ true = (eq_iff d.db.driver "postgres").1 pg in
      inr (pg, rw not_lite (rw is_pg refl))
]

Checked-HasLogin :
    (c d : Config) (r : Result ConfigError Config)
    → Checked c r
    → r ≡ ok d
    → (c ≡ d) × HasLogin d.oidc
Checked-HasLogin c d _ (accepted login driver) e =
    let same : c ≡ d = ok-injective e in (same, subst (λ x. HasLogin x.oidc) same login)
Checked-HasLogin c d _ (without_login on missing) e = absurd cc
Checked-HasLogin c d _ (without_driver login a b) e = absurd cc

pub load-HasLogin :
    (lookup : String → Option String) (lower : Char → Char) (d : Config)
    → load lookup lower ≡ ok d
    → (loaded lookup lower ≡ d) × HasLogin d.oidc
load-HasLogin lookup lower d h =
    Checked-HasLogin (loaded lookup lower) d (load lookup lower) (load-Checked lookup lower) h
