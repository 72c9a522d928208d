-- ===== src/Builder/Size.antt =====
-- The size marker in a builder's log: extractImageSize of builder.go, and strconv.ParseInt for it.
use Prim.Native.Char.{Char, code}
use Prim.Native.String.{[], ◌∷◌}
use spinup.Prelude.{
  ◌≡◌, refl, ℕ, zero, suc, ◌+◌, ◌-◌, ◌*◌, ◌^◌, ℤ, pos, negsuc, String, Bool, ◌&&◌, Option, none,
  some, List, [], ◌∷◌, leb, ltb, eqb, if◌then◌else◌,
}
use spinup.Text.{drop_chars, has_prefix, trim_space}

unfoldable pub is_digit : Char → Bool
is_digit c = leb b'0' (code c) && leb (code c) b'9'

-- The number that the digits spell, after those read so far.
unfoldable pub digits_from : ℕ → String → Option ℕ
unfolding is_digit
digits_from n [] = some n
digits_from n (c ∷ s) =
    let rest = digits_from (n * 10 + (code c - b'0')) s in if is_digit c then rest else none

unfoldable pub digits : String → Option ℕ
unfolding digits_from
digits [] = none
digits (c ∷ s) = digits_from 0 (c ∷ s)

abbrev in_range : Option ℕ → Option ℤ
in_range none = none
in_range (some n) = if ltb n (2 ^ 63) then some (pos n) else none

abbrev negated : Option ℕ → Option ℤ
negated none = none
negated (some zero) = some (pos zero)
negated (some (suc n)) = if ltb n (2 ^ 63) then some (negsuc n) else none

-- strconv.ParseInt(s, 10, 64); none is an error.
unfoldable pub parse_int : String → Option ℤ
unfolding digits
parse_int [] = none
parse_int (c ∷ s) =
    if eqb (code c) b'-'
    then negated (digits s)
    else if eqb (code c) b'+'
    then in_range (digits s)
    else in_range (digits (c ∷ s))

abbrev pub size_marker : String
size_marker = "SPINUP_IMAGE_SIZE_BYTES="

abbrev positive : Option ℤ → Option ℤ
positive none = none
positive (some (pos zero)) = none
positive (some (pos (suc n))) = some (pos (suc n))
positive (some (negsuc n)) = none

-- The size that a line names.
unfoldable pub line_size : String → Option ℤ
unfolding parse_int has_prefix trim_space
line_size line =
    if has_prefix line size_marker
    then positive (parse_int (trim_space (drop_chars line size_marker)))
    else none

abbrev or_else : Option ℤ → Option ℤ → Option ℤ
or_else none o = o
or_else (some n) o = some n

unfoldable pub first_size : List String → Option ℤ
unfolding line_size
first_size [] = none
first_size (line ∷ lines) = or_else (line_size line) (first_size lines)

-- The first line that names a positive size; nothing if there is no log.
unfoldable pub extract_image_size : Option (List String) → Option ℤ
unfolding first_size
extract_image_size none = none
extract_image_size (some lines) = first_size lines

size_tests :
    (extract_image_size (some ("x" ∷ "SPINUP_IMAGE_SIZE_BYTES= 1234 " ∷ [])) ≡ some (pos 1234))
    × (extract_image_size (some ("SPINUP_IMAGE_SIZE_BYTES=-1" ∷ [])) ≡ none)
unfolding extract_image_size
size_tests = (refl, refl)
