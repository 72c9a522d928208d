-- ===== src/Text/Paths/Safe.antt =====
-- A cleaned rooted path has safe parts only, and is split back into them.
use Prim.Native.Char.{Char, code}
use Prim.Native.String
use Prim.Native.String.{[], ◌∷◌}
use mathlib.Core.List.{reverse_aux}
use text.Mathlib.TextLemmas.{nil-append, cons-append}
use spinup.Prelude.{◌≡◌, refl, ap, ◌∙◌, ◌≢◌, ℕ, String, true, List, [], ◌∷◌, All, arith, eq_iff}
use spinup.Text.{split_on, on_head, join_slash}
use spinup.Text.Paths.{climb, resolve, resolve_all, clean_parts}

abbrev pub Lacks : ℕ → String → Type 0
Lacks sep [] = Unit
Lacks sep (c ∷ s) = (code c ≢ sep) × Lacks sep s

-- A part that names a file below the directory that it is joined to.
pub record IsSafe (part : String) : Type 0 where
  pub not_empty : part ≢ ""
  pub not_here : part ≢ "."
  pub not_up : part ≢ ".."
  pub no_slash : Lacks b'/' part

on_head-Lacks :
    (sep : ℕ) (c : Char) (ps : List String)
    → code c ≢ sep
    → All (Lacks sep) ps
    → All (Lacks sep) (on_head c ps)
on_head-Lacks sep c [] h k = ((h, tt), tt)
on_head-Lacks sep c (p ∷ ps) h (q, k) = ((h, q), k)

pub split_on-Lacks : (sep : ℕ) (s : String) → All (Lacks sep) (split_on sep s)
unfolding split_on
split_on-Lacks sep [] = (tt, tt)
split_on-Lacks sep (c ∷ s) =
    ground (arith, split_on-Lacks sep s, on_head-Lacks sep c (split_on sep s))

reverse_aux-All :
    (P : String → Type 0) (xs ys : List String) → All P xs → All P ys → All P (reverse_aux xs ys)
reverse_aux-All P [] ys h k = k
reverse_aux-All P (x ∷ xs) ys (p, h) k = reverse_aux-All P xs (x ∷ ys) h (p, k)

climb-IsSafe : (stack : List String) → All IsSafe stack → All IsSafe (climb true stack)
unfolding climb
climb-IsSafe [] h = tt
climb-IsSafe (top ∷ stack) (p, h) = ground (arith, eq_iff top "..", p.not_up)

resolve-IsSafe :
    (stack : List String) (part : String)
    → All IsSafe stack
    → Lacks b'/' part
    → All IsSafe (resolve true stack part)
unfolding resolve
resolve-IsSafe stack part h k =
    ground
      (arith, eq_iff part "", eq_iff part ".", eq_iff part "..", climb-IsSafe stack h, safe part)
  where
    safe : (p : String) → p ≢ "" → p ≢ "." → p ≢ ".." → Lacks b'/' p → IsSafe p
    safe p a b c d = record { not_empty = a; not_here = b; not_up = c; no_slash = d }

resolve_all-IsSafe :
    (stack parts : List String)
    → All IsSafe stack
    → All (Lacks b'/') parts
    → All IsSafe (resolve_all true stack parts)
unfolding resolve_all
resolve_all-IsSafe stack [] h k = reverse_aux-All IsSafe stack [] h tt
resolve_all-IsSafe stack (part ∷ parts) h (p, k) =
    resolve_all-IsSafe (resolve true stack part) parts (resolve-IsSafe stack part h p) k

pub clean_parts-IsSafe : (s : String) → All IsSafe (clean_parts true s)
unfolding clean_parts
clean_parts-IsSafe s = resolve_all-IsSafe [] (split_on b'/' s) tt (split_on-Lacks b'/' s)

split_on-slash :
    (p rest : String)
    → Lacks b'/' p
    → split_on b'/' (String.◌++◌ p (String.◌++◌ "/" rest)) ≡ p ∷ split_on b'/' rest
unfolding split_on
split_on-slash [] rest h = rw (nil-append, cons-append, nil-append) refl
split_on-slash (c ∷ p) rest (q, h) =
    rw (cons-append c p _) (ground (arith, split_on-slash p rest h))

split_on-whole : (p : String) → Lacks b'/' p → split_on b'/' p ≡ p ∷ []
unfolding split_on
split_on-whole [] h = refl
split_on-whole (c ∷ p) (q, h) = ground (arith, split_on-whole p h)

-- Parts without a slash are found again in the text that joins them.
pub split_on-join_slash :
    (p : String) (ps : List String)
    → All (Lacks b'/') (p ∷ ps)
    → split_on b'/' (join_slash (p ∷ ps)) ≡ p ∷ ps
unfolding join_slash
split_on-join_slash p [] (h, _) = split_on-whole p h
split_on-join_slash p (q ∷ ps) (h, k) =
    split_on-slash p (join_slash (q ∷ ps)) h ∙ ap (λ qs. p ∷ qs) (split_on-join_slash q ps k)

pub IsSafe-Lacks : (ps : List String) → All IsSafe ps → All (Lacks b'/') ps
IsSafe-Lacks [] h = tt
IsSafe-Lacks (p ∷ ps) (q, h) = (q.no_slash, IsSafe-Lacks ps h)
