-- ===== src/Text/Paths/Fixed.antt =====
-- A relative path whose parts are all safe is clean already.
use Prim.Native.Char.{Char, code}
use Prim.Native.String
use Prim.Native.String.{[], ◌∷◌, char_at}
use text.Mathlib.TextEquality.{Char-path}
use mathlib.Core.List.{reverse_aux}
use text.Mathlib.TextLemmas.{nil-append, cons-append}
use spinup.Prelude.{
  ◌≡◌, refl, sym, ap, ◌∙◌, String, Bool, true, false, List, [], ◌∷◌, All, arith, eq_iff, eqb,
  Bool-cases, inl, inr,
}
use spinup.Text.{has_prefix, split_on, on_head, join_slash}
use spinup.Text.Paths.{resolve, resolve_all, clean_parts, clean}
use spinup.Text.Paths.Safe.{IsSafe}

resolve-safe :
    (rooted : Bool) (stack : List String) (p : String)
    → IsSafe p
    → resolve rooted stack p ≡ p ∷ stack
unfolding resolve
resolve-safe rooted stack p h =
    ground (arith, eq_iff p "", eq_iff p ".", eq_iff p "..", h.not_empty, h.not_here, h.not_up)

resolve_all-safe :
    (rooted : Bool) (stack parts : List String)
    → All IsSafe parts
    → resolve_all rooted stack parts ≡ reverse_aux stack parts
unfolding resolve_all
resolve_all-safe rooted stack [] h = refl
resolve_all-safe rooted stack (p ∷ ps) (q, h) =
    rw (resolve-safe rooted stack p q) (resolve_all-safe rooted (p ∷ stack) ps h)

on_head-join :
    (c : Char) (p : String) (ps : List String)
    → join_slash (on_head c (p ∷ ps)) ≡ c ∷ join_slash (p ∷ ps)
unfolding join_slash
on_head-join c p [] = refl
on_head-join c p (q ∷ ps) = cons-append c p _

slash : (c : Char) (s : String) → eqb (code c) b'/' ≡ true → String.◌++◌ "/" s ≡ c ∷ s
slash c s h =
    let same : char_at "/" 0 ≡ c = Char-path (char_at "/" 0) c (ground arith) in
    rw cons-append (rw nil-append (ap (λ d. d ∷ s) same))

pub split_on-parts : (s : String) → (p : String) × (ps : List String) × (split_on b'/' s ≡ p ∷ ps)
unfolding split_on
split_on-parts [] = (_, _, refl)
split_on-parts (c ∷ s) = elim (Bool-cases (eqb (code c) b'/')) [
  | inl h ↦ rw h (_, _, refl)
  | inr h ↦ let (p, ps, e) = split_on-parts s in rw h (rw e (_, _, refl))
]

join_slash-split_on : (s : String) → join_slash (split_on b'/' s) ≡ s
unfolding split_on join_slash
join_slash-split_on [] = refl
join_slash-split_on (c ∷ s) =
    let (p, ps, e) = split_on-parts s in
    let same : join_slash (p ∷ ps) ≡ s = ap join_slash (sym e) ∙ join_slash-split_on s in
    elim (Bool-cases (eqb (code c) b'/')) [
      | inl h ↦ rw h (rw e (rw same (rw nil-append (slash c s h))))
      | inr h ↦ rw h (rw e (on_head-join c p ps ∙ ap (λ x. c ∷ x) same))
    ]

pub relative : (s : String) → All IsSafe (split_on b'/' s) → has_prefix s "/" ≡ false
unfolding split_on has_prefix
relative [] h = refl
relative (c ∷ s) h = elim (Bool-cases (eqb (code c) b'/')) [
  | inl e ↦ absurd ((rw e at h).0.not_empty refl)
  | inr e ↦ rw e refl
]

pub clean-safe : (s : String) → All IsSafe (split_on b'/' s) → clean s ≡ s
unfolding clean clean_parts
clean-safe s h =
    let (p, ps, e) = split_on-parts s in
    rw (relative s h) (
      rw (resolve_all-safe false [] (split_on b'/' s) h)
        (rw e (ap join_slash (sym e) ∙ join_slash-split_on s)))
