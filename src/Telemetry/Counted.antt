-- ===== src/Telemetry/Counted.antt =====
-- Under which status requests are counted.
use spinup.Prelude.{◌≡◌, refl, ℕ, String, List, [], ◌∷◌}
use spinup.Telemetry.{status_class, write_header, write_all, counted}

write_all-status :
    (codes : List ℕ) (status first : ℕ) (wrote : List ℕ)
    → (write_all codes (record { status = status; wrote = first ∷ wrote })).status ≡ status
unfolding write_all write_header
write_all-status [] status first wrote = refl
write_all-status (c ∷ codes) status first wrote = write_all-status codes status c (first ∷ wrote)

-- A request is counted under the class of the first status that its handler writes.
pub counted-first :
    (method pattern path : String) (code : ℕ) (codes : List ℕ)
    → (counted method pattern path (code ∷ codes)).status ≡ status_class code
unfolding counted write_all write_header
counted-first method pattern path code codes = rw (write_all-status codes code code []) refl
