-- ===== src/Builder/Manifest.antt =====
-- services/control-plane/internal/builder/manifest.go: the spin.toml of an application.
-- The text is built as its lines. Of strconv.Quote (%q) the ASCII half is written out; `is_print`
-- is strconv.IsPrint, Go's table of printable characters, of which the other half depends.
use Prim.Native.Char.{Char, code}
use Prim.Native.String
use Prim.Native.String.{[], ◌∷◌, compare}
use text.Mathlib.Text.{is_le}
use spinup.Prelude.{
  ℕ, zero, suc, ◌^◌, String, Bool, ◌&&◌, ◌||◌, Option, none, some, List, [], ◌∷◌, ◌++◌, ltb, leb,
  eqb, if◌then◌else◌, ◌==◌,
}
use Prim.Native.Nat.{◌/◌, ◌%◌}
use spinup.Store.Table.{order_by}

pub record FunctionSpec : Type 0 where
  pub name : String
  pub route : String

infixr 66 ◌+++◌
abbrev ◌+++◌ : String → String → String
a +++ b = String.◌++◌ a b

-- A lower-case hexadecimal digit.
unfoldable pub hex_digit : ℕ → String
hex_digit n =
    if eqb n 0
    then "0"
    else if eqb n 1
    then "1"
    else if eqb n 2
    then "2"
    else if eqb n 3
    then "3"
    else if eqb n 4
    then "4"
    else if eqb n 5
    then "5"
    else if eqb n 6
    then "6"
    else if eqb n 7
    then "7"
    else if eqb n 8
    then "8"
    else if eqb n 9
    then "9"
    else if eqb n 10
    then "a"
    else if eqb n 11
    then "b"
    else if eqb n 12
    then "c"
    else if eqb n 13
    then "d"
    else if eqb n 14
    then "e"
    else "f"

-- The lowest `k` hexadecimal digits.
unfoldable pub hex : ℕ → ℕ → String
unfolding hex_digit
hex zero n = ""
hex (suc k) n = hex k (n / 16) +++ hex_digit (n % 16)

-- One character inside the quotes.
unfoldable pub escape : (ℕ → Bool) → Char → String
unfolding hex
escape is_print c =
    let n = code c in
    if eqb n b'"'
    then "\\\""
    else if eqb n 0x5c
    then "\\\\"
    else if leb 32 n && ltb n 127
    then c ∷ []
    else if leb 128 n && is_print n
    then c ∷ []
    else if eqb n 7
    then "\\a"
    else if eqb n 8
    then "\\b"
    else if eqb n 12
    then "\\f"
    else if eqb n 10
    then "\\n"
    else if eqb n 13
    then "\\r"
    else if eqb n 9
    then "\\t"
    else if eqb n 11
    then "\\v"
    else if ltb n 32 || eqb n 127
    then "\\x" +++ hex 2 n
    else if ltb n (2 ^ 16)
    then "\\u" +++ hex 4 n
    else "\\U" +++ hex 8 n

unfoldable pub escape_all : (ℕ → Bool) → String → String
unfolding escape
escape_all is_print [] = []
escape_all is_print (c ∷ s) = escape is_print c +++ escape_all is_print s

-- %q
unfoldable pub quote : (ℕ → Bool) → String → String
unfolding escape_all
quote is_print s = "\"" +++ escape_all is_print s +++ "\""

abbrev by_name : FunctionSpec → FunctionSpec → Bool
by_name f g = is_le (compare f.name g.name)

module _ (is_print : ℕ → Bool) where
  unfoldable pub trigger_lines : List FunctionSpec → List String
  unfolding quote
  trigger_lines [] = []
  trigger_lines (f ∷ fs) =
      "[[trigger.http]]"
      ∷ ("route = " +++ quote is_print f.route)
      ∷ ("component = " +++ quote is_print f.name)
      ∷ ""
      ∷ trigger_lines fs

  -- The lines of a language between the head of a component and its empty last line.
  unfoldable pub build_lines : String → String → List String
  unfolding quote
  build_lines language name =
      let workdir = "functions/" +++ name in
      let build = "[component." +++ name +++ ".build]" in
      let place = "workdir = " +++ quote is_print workdir in
      if language == "go"
      then ("source = " +++ quote is_print (workdir +++ "/main.wasm"))
        ∷ "allowed_outbound_hosts = []"
        ∷ build
        ∷ "command = \"go tool componentize-go build\""
        ∷ place
        ∷ "watch = [\"**/*.go\", \"go.mod\"]"
        ∷ []
      else if language == "js" || language == "ts"
      then ("source = " +++ quote is_print (workdir +++ "/dist/scaffold.wasm"))
        ∷ "exclude_files = [\"**/node_modules\"]"
        ∷ build
        ∷ "command = [\"npm install\", \"npm run build\"]"
        ∷ place
        ∷ (if language == "ts"
            then "watch = [\"src/**/*.ts\", \"package.json\"]"
            else "watch = [\"src/**/*.js\", \"package.json\"]")
        ∷ []
      else if language == "rust"
      then ("source = "
          +++ quote is_print (workdir +++ "/target/wasm32-wasip2/release/scaffold.wasm"))
        ∷ "allowed_outbound_hosts = []"
        ∷ build
        ∷ "command = \"cargo build --target wasm32-wasip2 --release\""
        ∷ place
        ∷ "watch = [\"src/**/*.rs\", \"Cargo.toml\"]"
        ∷ []
      else ("# unknown language " +++ quote is_print language) ∷ []

  unfoldable pub component_lines : String → List FunctionSpec → List String
  unfolding build_lines
  component_lines language [] = []
  component_lines language (f ∷ fs) =
      ("[component." +++ f.name +++ "]")
      ∷ (build_lines language f.name ++ ("" ∷ component_lines language fs))

  unfoldable pub head_lines : String → List String
  unfolding quote
  head_lines app_name =
      "spin_manifest_version = 2"
      ∷ ""
      ∷ "[application]"
      ∷ ("name = " +++ quote is_print app_name)
      ∷ "version = \"0.1.0\""
      ∷ ""
      ∷ []

  unfoldable pub manifest_lines : String → String → List FunctionSpec → List String
  unfolding head_lines trigger_lines component_lines
  manifest_lines language app_name functions =
      let sorted = order_by by_name functions in
      head_lines app_name ++ (trigger_lines sorted ++ component_lines language sorted)

  -- Each line ends in a line feed.
  unfoldable pub unlines : List String → String
  unlines [] = ""
  unlines (l ∷ ls) = l +++ "\n" +++ unlines ls

  -- synthesizeSpinToml; none is its error.
  unfoldable pub synthesize_spin_toml : String → String → List FunctionSpec → Option String
  unfolding manifest_lines unlines
  synthesize_spin_toml language app_name [] = none
  synthesize_spin_toml language app_name (f ∷ fs) =
      some (unlines (manifest_lines language app_name (f ∷ fs)))
