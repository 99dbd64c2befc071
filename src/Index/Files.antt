-- ===== src/Index/Files.antt =====
-- What the repositories read of the files: parsed JSON, times and sizes, and paths in texts.
use Prim.Native.Char.{code}
use mcu.Base.{
  ℕ, String, Bool, true, false, not, ◌||◌, Option, none, some, List, [], ◌∷◌, ◌++◌, ◌==◌, nat_eq,
  string_eq, if◌then◌else◌,
}
use mcu.Base.Dict.{Dict}
use mcu.Models.{FilePath}
use mcu.Base.Int.{pos, negsuc}
use mcu.Models.Json.{Value, Items, Members, nil, cons, end, member}
use mcu.Models.Json

-- `json.loads` of a file's text, `st_mtime` of a directory and `st_size` of what stands at a path;
-- each is missing where the call raises. `cwd` is the working directory.
pub record Files : Type 0 where
  pub read_json : FilePath → Option Value
  pub mtime : FilePath → Option ℕ
  pub stat_size : FilePath → Option ℕ
  pub cwd : FilePath

abbrev pub dict_of : Members → Dict String Value
dict_of end = []
dict_of (member k v ms) = (k, v) ∷ dict_of ms

-- The components of a path in a text; empty ones and "." are dropped.
abbrev add_part : String → List String → List String
add_part w ws = if w == "" || w == "." then ws else w ∷ ws

split : String → String × List String
split String.[] = ("", [])
split (String.◌∷◌ c s) =
    let (w, ws) = split s in if code c == b'/' then ("", add_part w ws) else (String.◌∷◌ c w, ws)

-- `Path(text).parts`, without the root
unfoldable pub parts : String → List String
unfolding split
parts s = let (w, ws) = split s in add_part w ws

abbrev is_absolute : String → Bool
is_absolute String.[] = false
is_absolute (String.◌∷◌ c s) = code c == b'/'

-- Where `Path(text)` points.
abbrev pub located : FilePath → String → FilePath
located cwd s = if is_absolute s then parts s else cwd ++ parts s

abbrev reverse_onto : List String → List String → List String
reverse_onto acc [] = acc
reverse_onto acc (x ∷ xs) = reverse_onto (x ∷ acc) xs

-- `path.parent.name` and `path.name`, where both are not empty
abbrev last_two : List String → Option (String × String)
last_two (n ∷ m ∷ r) = some (m, n)
last_two _ = none

abbrev pub parent_and_name : String → Option (String × String)
parent_and_name s = last_two (reverse_onto [] (parts s))

-- A value that counts as false.
abbrev pub is_falsy : Value → Bool
is_falsy Json.null = true
is_falsy (Json.boolean b) = not b
is_falsy (Json.number (pos n)) = n == 0
is_falsy (Json.number (negsuc n)) = false
is_falsy (Json.text s) = s == ""
is_falsy (Json.array nil) = true
is_falsy (Json.array (cons v vs)) = false
is_falsy (Json.object end) = true
is_falsy (Json.object (member k v ms)) = false
