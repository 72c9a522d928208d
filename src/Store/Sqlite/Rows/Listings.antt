-- ===== src/Store/Sqlite/Rows/Listings.antt =====
-- The lists that sqlite.go returns: which rows they hold, in which order, and how many.
use mathlib.Core.List.{Perm}
use mathlib.Core.List.Perm
use mathlib.Core.Path.{subst}
use native.Mathlib.Nat.{le_trans}
use spinup.Prelude.{
  sym, ◌++◌, drop, take-append-drop, drop_full, ◌⊎◌, ◌≡◌, refl, ℤ, ◌≤◌, String, Bool, true, false,
  List, [], ◌∷◌, ok, arith, keep, take, length, length-take-le, All, ◌==◌, eq_iff, Bool-cases, inl,
  inr,
}
use spinup.Store.{Application, Build}
use spinup.Store.Table.{
  order_by, insert_sorted, Distinct, All-order_by, All-mono, All-insert_sorted,
}
use spinup.Store.Sqlite.{Db, newest_first, by_app_name, list_builds, list_applications, page_size}

insert_sorted-perm :
    {A : Type 0} (le : A → A → Bool) (x : A) (xs : List A) → Perm (insert_sorted le x xs) (x ∷ xs)
unfolding insert_sorted
insert_sorted-perm le x [] = Perm.refl _
insert_sorted-perm le x (y ∷ ys) = elim (Bool-cases (le x y)) [
  | inl h ↦ rw h (Perm.refl _)
  | inr h ↦ rw h (Perm.trans (Perm.cons y (insert_sorted-perm le x ys)) (Perm.swap x y ys))
]

pub order_by-perm : {A : Type 0} (le : A → A → Bool) (xs : List A) → Perm (order_by le xs) xs
unfolding order_by
order_by-perm le [] = Perm.refl _
order_by-perm le (x ∷ xs) =
    Perm.trans (insert_sorted-perm le x (order_by le xs)) (Perm.cons x (order_by-perm le xs))

-- `b` is not older than `c`.
abbrev pub NotOlder : Build → Build → Type 0
NotOlder b c = c.created_at ≤ b.created_at

newer : (b c : Build) → newest_first b c ≡ true → NotOlder b c
newer b c e = ground arith

older : (b c : Build) → newest_first b c ≡ false → NotOlder c b
older b c e = ground arith

insert_sorted-NotOlder :
    (b : Build) (bs : List Build)
    → Distinct NotOlder bs
    → Distinct NotOlder (insert_sorted newest_first b bs)
unfolding insert_sorted
insert_sorted-NotOlder b [] h = (tt, tt)
insert_sorted-NotOlder b (c ∷ bs) (p, h) = elim (Bool-cases (newest_first b c)) [
  | inl e ↦
      let fresh = newer b c e in rw e ((fresh, All-mono _ bs (λ d k. le_trans k fresh) p), (p, h))
  | inr e ↦ rw e (
    All-insert_sorted (NotOlder c) newest_first b bs (older b c e) p,
    insert_sorted-NotOlder b bs h,
  )
]

order_by-NotOlder : (bs : List Build) → Distinct NotOlder (order_by newest_first bs)
unfolding order_by
order_by-NotOlder [] = tt
order_by-NotOlder (b ∷ bs) =
    insert_sorted-NotOlder b (order_by newest_first bs) (order_by-NotOlder bs)

keep-All : {A : Type 0} (p : A → Bool) (xs : List A) → All (λ x. p x ≡ true) (keep p xs)
unfolding keep
keep-All p [] = tt
keep-All p (x ∷ xs) = ground (arith, keep-All p xs)

-- A page of builds and the builds of the application that are not on it are together all the
-- builds of the application, in an order in which none is older than a later one; the page holds
-- at most the limit (20 if the limit is not positive), and less only if nothing is left over.
pub list_builds_page :
    (app : String) (n : ℤ) (db : Db)
    → (page : List Build) × (rest : List Build) × (list_builds app n db ≡ ok page)
      × Perm (page ++ rest) (keep (λ b. b.application_id == app) db.builds)
      × Distinct NotOlder (page ++ rest)
      × (length page ≤ page_size n)
      × ((rest ≡ []) ⊎ (length page ≡ page_size n))
unfolding list_builds
list_builds_page app n db =
    let mine : List Build = keep (λ b. b.application_id == app) db.builds in
    let sorted : List Build = order_by newest_first mine in
    let whole = take-append-drop (page_size n) sorted in
    (
      take (page_size n) sorted,
      drop (page_size n) sorted,
      refl,
      subst (λ bs. Perm bs mine) (sym whole) (order_by-perm newest_first mine),
      subst (Distinct NotOlder) (sym whole) (order_by-NotOlder mine),
      length-take-le (page_size n) sorted,
      drop_full (page_size n) sorted,
    )

-- The applications listed for a tenant are those of the tenant, each as often as it is stored.
pub list_applications-perm :
    (t : String) (db : Db)
    → (apps : List Application) × (list_applications t db ≡ ok apps)
      × Perm apps (keep (λ a. a.tenant_id == t) db.applications)
      × All (λ a. a.tenant_id ≡ t) apps
unfolding list_applications
list_applications-perm t db =
    let mine : List Application = keep (λ a. a.tenant_id == t) db.applications in
    (
      order_by by_app_name mine,
      refl,
      order_by-perm by_app_name mine,
      All-order_by _ by_app_name mine
          (All-mono _ mine (λ a e. (eq_iff a.tenant_id t).0 e) (keep-All _ db.applications)),
    )
