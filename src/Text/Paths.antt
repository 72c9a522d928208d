-- ===== src/Text/Paths.antt =====
-- Go's path.Clean by its documentation: slashes are merged, "." parts dropped, and each ".." takes
-- the part before it along; a rooted path drops ".." at its start, any other path keeps it there.
pub mod Safe
pub mod Fixed
pub mod Inner
use Prim.Native.String
use Prim.Native.String.{[], ◌∷◌}
use spinup.Prelude.{
  ◌≡◌, refl, String, Bool, true, false, ◌&&◌, ◌||◌, List, [], ◌∷◌, if◌then◌else◌, ◌==◌,
}
use spinup.Text.{has_prefix, split_on, join_slash}
use mathlib.Core.List.{reverse}

-- The stack has the last part at its head.
unfoldable pub climb : Bool → List String → List String
climb true [] = []
climb false [] = ".." ∷ []
climb rooted (top ∷ stack) = if top == ".." then ".." ∷ top ∷ stack else stack

unfoldable pub resolve : Bool → List String → String → List String
unfolding climb
resolve rooted stack part =
    if part == "" || part == "."
    then stack
    else if part == ".."
    then climb rooted stack
    else part ∷ stack

unfoldable pub resolve_all : Bool → List String → List String → List String
unfolding resolve
resolve_all rooted stack [] = reverse stack
resolve_all rooted stack (part ∷ parts) = resolve_all rooted (resolve rooted stack part) parts

-- The parts of the cleaned path.
unfoldable pub clean_parts : Bool → String → List String
unfolding resolve_all split_on
clean_parts rooted s = resolve_all rooted [] (split_on b'/' s)

abbrev rooted_text : Bool → List String → String
rooted_text true parts = String.◌++◌ "/" (join_slash parts)
rooted_text false [] = "."
rooted_text false (p ∷ ps) = join_slash (p ∷ ps)

-- path.Clean
unfoldable pub clean : String → String
unfolding clean_parts has_prefix join_slash
clean s = let rooted = has_prefix s "/" in rooted_text rooted (clean_parts rooted s)

clean_tests :
    (clean "/a/../../b//./c" ≡ "/b/c")
    × (clean "../a/.." ≡ "..")
    × (clean "" ≡ ".")
    × (clean "/.." ≡ "/")
    × (clean "a/../../b" ≡ "../b")
unfolding clean
clean_tests = (refl, refl, refl, refl, refl)
