-- ===== src/Text/Case.antt =====
-- Go's strings.ToLower and strings.ToUpper: ASCII letters are written out, for every other character
-- the parameter is Go's table (unicode.ToLower, unicode.ToUpper).
use Prim.Native.Char.{Char, code}
use Prim.Native.String.{[], ◌∷◌, char_at}
use spinup.Prelude.{◌-◌, String, ◌&&◌, leb, if◌then◌else◌}

module _ (table : Char → Char) where
  abbrev lower_char : Char → Char
  lower_char c =
      if leb b'A' (code c) && leb (code c) b'Z'
      then char_at "abcdefghijklmnopqrstuvwxyz" (code c - b'A')
      else if leb (code c) 127
      then c
      else table c

  abbrev upper_char : Char → Char
  upper_char c =
      if leb b'a' (code c) && leb (code c) b'z'
      then char_at "ABCDEFGHIJKLMNOPQRSTUVWXYZ" (code c - b'a')
      else if leb (code c) 127
      then c
      else table c

  unfoldable pub to_lower : String → String
  to_lower [] = []
  to_lower (c ∷ s) = lower_char c ∷ to_lower s

  unfoldable pub to_upper : String → String
  to_upper [] = []
  to_upper (c ∷ s) = upper_char c ∷ to_upper s
