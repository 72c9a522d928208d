-- ===== src/Text.antt =====
-- What the program uses of Go's packages strings and path, over texts as sequences of characters.
-- The separators and prefixes are ASCII, so that characters and bytes give the same answers.
pub mod Paths
pub mod Case
use Prim.Native.Char.{Char, code}
use Prim.Native.String
use Prim.Native.String.{[], ◌∷◌}
use spinup.Prelude.{
  ℕ, String, Bool, true, false, not, ◌&&◌, ◌||◌, List, [], ◌∷◌, map, eqb, leb, if◌then◌else◌, ◌==◌,
}

-- strings.HasPrefix
unfoldable pub has_prefix : String → String → Bool
has_prefix s [] = true
has_prefix [] (p ∷ ps) = false
has_prefix (c ∷ s) (p ∷ ps) = eqb (code c) (code p) && has_prefix s ps

-- s[len(prefix):]
abbrev pub drop_chars : String → String → String
drop_chars s [] = s
drop_chars [] (p ∷ ps) = []
drop_chars (c ∷ s) (p ∷ ps) = drop_chars s ps

-- strings.Contains
unfoldable pub contains : String → String → Bool
unfolding has_prefix
contains [] t = has_prefix [] t
contains (c ∷ s) t = has_prefix (c ∷ s) t || contains s t

-- strings.HasSuffix
unfoldable pub has_suffix : String → String → Bool
has_suffix [] t = [] == t
has_suffix (c ∷ s) t = c ∷ s == t || has_suffix s t

-- strings.TrimPrefix(s, "/")
unfoldable pub trim_slash : String → String
trim_slash [] = []
trim_slash (c ∷ s) = if eqb (code c) b'/' then s else c ∷ s

-- unicode.IsSpace
unfoldable pub is_space_code : ℕ → Bool
is_space_code n =
    eqb n 32
    || (leb 9 n && leb n 13)
    || eqb n 0x85
    || eqb n 0xa0
    || eqb n 0x1680
    || (leb 0x2000 n && leb n 0x200a)
    || eqb n 0x2028
    || eqb n 0x2029
    || eqb n 0x202f
    || eqb n 0x205f
    || eqb n 0x3000

abbrev pub is_space : Char → Bool
is_space c = is_space_code (code c)

unfoldable pub trim_left : String → String
unfolding is_space_code
trim_left [] = []
trim_left (c ∷ s) = let rest = trim_left s in if is_space c then rest else c ∷ s

unfoldable pub trim_right : String → String
unfolding is_space_code
trim_right [] = []
trim_right (c ∷ s) = let rest = trim_right s in if is_space c && rest == "" then [] else c ∷ rest

-- strings.TrimSpace
unfoldable pub trim_space : String → String
unfolding trim_left trim_right
trim_space s = trim_right (trim_left s)

abbrev pub on_head : Char → List String → List String
on_head c [] = (c ∷ []) ∷ []
on_head c (p ∷ ps) = (c ∷ p) ∷ ps

-- strings.Split at one ASCII character: the parts between separators, empty ones included.
unfoldable pub split_on : ℕ → String → List String
split_on sep [] = [] ∷ []
split_on sep (c ∷ s) =
    let rest = split_on sep s in if eqb (code c) sep then [] ∷ rest else on_head c rest

-- strings.Join(parts, "/")
unfoldable pub join_slash : List String → String
join_slash [] = []
join_slash (p ∷ []) = p
join_slash (p ∷ q ∷ ps) = String.◌++◌ p (String.◌++◌ "/" (join_slash (q ∷ ps)))
