-- ===== src/WebUi.antt =====
-- services/control-plane/internal/webui/handler.go: the handler of the built user interface. A file
-- system is what fs.Stat finds of it, by name; os.DirFS and fs.Sub are parameters. http.FileServer is
-- left to the library: an answer is the path that it is asked to serve and the Cache-Control header.
pub mod Shell
use Prim.Native.String.{[], ◌∷◌}
use spinup.Prelude.{
  String, Bool, true, false, ◌||◌, Option, none, some, List, [], ◌∷◌, if◌then◌else◌, ◌==◌, ◌≡◌,
  refl,
}
use spinup.Text.{has_prefix, has_suffix, contains, trim_slash, split_on}

abbrev pub FileSystem : Type 0
FileSystem = String → Bool

pub record Roots : Type 0 where
  pub dir_fs : String → FileSystem
  pub sub_dist : Option FileSystem

pub data Answer : Type 0 where
  not_found : Answer
  served : (path : String) → (cache_control : Option String) → Answer

abbrev pub immutable : String
immutable = "public, max-age=31536000, immutable"

abbrev pub no_cache : String
no_cache = "no-cache"

-- The last part that is not empty, or the text that is given.
unfoldable pub last_part : String → List String → String
last_part found [] = found
last_part found (p ∷ ps) = last_part (if p == "" then found else p) ps

-- path.Base
unfoldable pub base : String → String
unfolding last_part split_on
base p = if p == "" then "." else last_part "/" (split_on b'/' p)

unfoldable pub file_name : String → String
unfolding trim_slash
file_name path = if trim_slash path == "" then "index.html" else trim_slash path

unfoldable pub cache_control : String → Option String
unfolding has_prefix has_suffix
cache_control path =
    if has_prefix path "/_app/immutable/"
    then some immutable
    else if has_suffix path ".html" || path == "/"
    then some no_cache
    else none

abbrev pub is_asset : String → Bool
is_asset path = contains (base (file_name path)) "."

unfoldable pub serve : FileSystem → String → Answer
unfolding file_name base contains cache_control
serve stat path =
    if stat (file_name path)
    then served path (cache_control path)
    else if is_asset path
    then not_found
    else served "/" (cache_control "/")

abbrev or_not_found : Option FileSystem → String → Answer
or_not_found none path = not_found
or_not_found (some stat) path = serve stat path

unfoldable handler : Roots → String → String → Answer
unfolding serve
handler roots static_dir path =
    if static_dir == ""
    then or_not_found roots.sub_dist path
    else serve (roots.dir_fs static_dir) path

abbrev pub one_asset : FileSystem
one_asset name = name == "_app/immutable/start.js" || name == "index.html"

serve_tests :
    (serve one_asset "/_app/immutable/start.js"
      ≡ served "/_app/immutable/start.js" (some immutable))
    × (serve one_asset "/_app/immutable/gone.js" ≡ not_found)
    × (serve one_asset "/_app/immutable/" ≡ served "/" (some no_cache))
    × (serve one_asset "/applications/7" ≡ served "/" (some no_cache))
    × (serve one_asset "" ≡ served "" none)
    × (serve one_asset "/index.html" ≡ served "/index.html" (some no_cache))
unfolding serve
serve_tests = (refl, refl, refl, refl, refl, refl)
