-- ===== src/HttpApi/Builds/Pages.antt =====
-- listBuilds of builds.go: how much a page holds.
use spinup.Prelude.{
  ◌≡◌, refl, ap, ℕ, zero, suc, ◌≤◌, ℤ, pos, negsuc, String, Bool, Option, none, some, List, [], ◌∷◌,
  map, arith, length, ltb, Bool-cases, Option-cases, inl, inr, find?, take, keep, length-take-le,
  ◌==◌,
}
use spinup.World.{World}
use spinup.Store.Table.{order_by}
use spinup.Store.Sqlite
use spinup.Store.Sqlite.{Db, sqlite, page_size, app_at, newest_first}
use spinup.HttpApi.Actions.{
  Claims, Response, failed, json, bare, Server, load_application, default_tenant,
}
use spinup.HttpApi.Dto.{BuildDto, to_build_dto}
use spinup.HttpApi.Builds.{clamp_limit, list_builds}

clamp_limit-bounds :
    (limit : Option ℤ) → (1 ≤ page_size (clamp_limit limit)) × (page_size (clamp_limit limit) ≤ 100)
unfolding clamp_limit page_size
clamp_limit-bounds none = (omega arith, omega arith)
clamp_limit-bounds (some (negsuc n)) = (omega arith, omega arith)
clamp_limit-bounds (some (pos zero)) = (omega arith, omega arith)
clamp_limit-bounds (some (pos (suc n))) = elim (Bool-cases (ltb 100 (suc n))) [
  | inl long ↦ rw long (ground arith, ground arith)
  | inr short ↦ rw short (ground arith, ground arith)
]

length-map : {A B : Type 0} (f : A → B) (xs : List A) → length (map f xs) ≡ length xs
length-map f [] = refl
length-map f (x ∷ xs) = ap suc (length-map f xs)

abbrev pub listed : Response (List BuildDto) → ℕ
listed (failed n m) = 0
listed (json n builds) = length builds
listed (bare n) = 0

module _ {C Q : Type 0} (server : Server Db C Q) (fk : Bool) (t : ℕ) where
  -- Whatever number a request asks for, zero and negative ones included, listBuilds asks the
  -- tables for at least one and at most 100 builds, replies with no more than it asked for, and
  -- changes nothing.
  pub list_builds-bounded :
      (claims : Option Claims) (app : String) (limit : Option ℤ) (w : World Db C)
      → let reply = list_builds (record server { store = sqlite fk t }) claims app limit w in
        (1 ≤ page_size (clamp_limit limit))
        × (page_size (clamp_limit limit) ≤ 100)
        × (listed reply.0 ≤ page_size (clamp_limit limit))
        × (reply.1 ≡ w)
  unfolding list_builds load_application Sqlite.get_application Sqlite.list_builds
  list_builds-bounded none app limit w =
      let (low, high) = clamp_limit-bounds limit in (low, high, ground arith, refl)
  list_builds-bounded (some c) app limit w =
      let (low, high) = clamp_limit-bounds limit in
      elim (Option-cases (find? (app_at default_tenant app) w.store.applications)) [
        | inl none_app ↦ rw (none_app, list_builds) (low, high, ground arith, refl)
        | inr (a, an_app) ↦
            rw (an_app, list_builds)
              (
                low,
                high,
                rw
                    (length-map to_build_dto (
                      take (page_size (clamp_limit limit)) (
                        order_by newest_first
                          (keep (λ b. b.application_id == a.app_id) w.store.builds))))
                    (length-take-le _ _),
                refl,
              )
      ]
