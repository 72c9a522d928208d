-- ===== src/HttpApi/Names.antt =====
-- The names that the handlers accept: the regular expressions `dns1123` and `_envVarName` of
-- applications.go.
use Prim.Native.Char.{Char, code}
use Prim.Native.String.{[], ◌∷◌}
use spinup.Prelude.{
  ◌≡◌, ◌↔◌, ℕ, zero, suc, ◌+◌, ◌≤◌, String, Bool, true, false, ◌&&◌, ◌||◌, leb, eqb, arith,
}

unfoldable pub is_lower_alnum : Char → Bool
is_lower_alnum c =
    (leb b'a' (code c) && leb (code c) b'z') || (leb b'0' (code c) && leb (code c) b'9')

unfoldable pub is_label_char : Char → Bool
unfolding is_lower_alnum
is_label_char c = is_lower_alnum c || eqb (code c) b'-'

-- [-a-z0-9]{0,n}[a-z0-9] against a whole text.
unfoldable pub label_tail : ℕ → String → Bool
unfolding is_label_char
label_tail n [] = false
label_tail n (c ∷ []) = is_lower_alnum c
label_tail zero (c ∷ d ∷ s) = false
label_tail (suc n) (c ∷ d ∷ s) = is_label_char c && label_tail n (d ∷ s)

-- ^[a-z0-9]([-a-z0-9]{0,61}[a-z0-9])?$
unfoldable pub dns1123 : String → Bool
unfolding label_tail
dns1123 [] = false
dns1123 (c ∷ []) = is_lower_alnum c
dns1123 (c ∷ d ∷ s) = is_lower_alnum c && label_tail 61 (d ∷ s)

unfoldable pub is_letter_or_underscore : Char → Bool
is_letter_or_underscore c =
    (leb b'A' (code c) && leb (code c) b'Z')
    || (leb b'a' (code c) && leb (code c) b'z')
    || eqb (code c) b'_'

unfoldable pub all_variable_chars : String → Bool
unfolding is_letter_or_underscore
all_variable_chars [] = true
all_variable_chars (c ∷ s) =
    (is_letter_or_underscore c || (leb b'0' (code c) && leb (code c) b'9')) && all_variable_chars s

-- ^[A-Za-z_][A-Za-z0-9_]*$
unfoldable pub is_variable_name : String → Bool
unfolding all_variable_chars
is_variable_name [] = false
is_variable_name (c ∷ s) = is_letter_or_underscore c && all_variable_chars s

abbrev pub size : String → ℕ
size [] = 0
size (c ∷ s) = suc (size s)

-- Every character is a lower-case letter, a digit or a dash.
abbrev pub IsLabel : String → Type 0
IsLabel [] = Unit
IsLabel (c ∷ s) = (is_label_char c ≡ true) × IsLabel s

-- The last character is a letter or a digit.
abbrev pub EndsWell : String → Type 0
EndsWell [] = ⊥
EndsWell (c ∷ []) = is_lower_alnum c ≡ true
EndsWell (c ∷ d ∷ s) = EndsWell (d ∷ s)

abbrev pub BeginsWell : String → Type 0
BeginsWell [] = ⊥
BeginsWell (c ∷ s) = is_lower_alnum c ≡ true

label_tail-IsLabel :
    (n : ℕ) (s : String) → label_tail n s ≡ true → IsLabel s × EndsWell s × (size s ≤ n + 1)
unfolding label_tail
label_tail-IsLabel n [] h = absurd (ground arith)
label_tail-IsLabel n (c ∷ []) h = ground arith
label_tail-IsLabel zero (c ∷ d ∷ s) h = absurd (ground arith)
label_tail-IsLabel (suc n) (c ∷ d ∷ s) h = ground (arith, label_tail-IsLabel n (d ∷ s))

IsLabel-label_tail :
    (n : ℕ) (s : String) → IsLabel s → EndsWell s → size s ≤ n + 1 → label_tail n s ≡ true
unfolding label_tail
IsLabel-label_tail n [] h e k = elim e [ ]
IsLabel-label_tail n (c ∷ []) h e k = e
IsLabel-label_tail zero (c ∷ d ∷ s) h e k = absurd (omega arith)
IsLabel-label_tail (suc n) (c ∷ d ∷ s) (p, h) e k = ground (arith, IsLabel-label_tail n (d ∷ s) h e)

-- A name is accepted exactly when it has 1 to 63 characters, all of them lower-case letters, digits
-- or dashes, of which the first and the last is no dash.
pub dns1123_iff :
    (s : String) → (dns1123 s ≡ true) ↔ (IsLabel s × BeginsWell s × EndsWell s × (size s ≤ 63))
unfolding dns1123
dns1123_iff [] = ((λ h. absurd (ground arith)), λ h. elim h.1 [ ])
dns1123_iff (c ∷ []) = ground arith
dns1123_iff (c ∷ d ∷ s) = (
  λ h. ground (arith, label_tail-IsLabel 61 (d ∷ s)),
  λ h. ground (arith, IsLabel-label_tail 61 (d ∷ s)),
)
