-- ===== src/Util/Json.antt =====
-- The JSON form of TOML values: util/utils.go. Parsing TOML is the work of go-toml; what it makes of
-- a text is an argument.
pub mod Quote
use dove.Base.{
  Bool, true, false, Option, none, some, [], ◌∷◌, ◌++◌, if◌then◌else◌, Bytes, codes, nat_eq,
  bytes_eq,
}
use dove.Util.Json.Quote.{quote}

mutual
  -- A value of a tree: `printed` carries what `%v` prints of a number, a Boolean or a date. A null
  -- is a missing value.
  pub data TomlValue : Type 0 where
    subtree : TomlTree → TomlValue
    null : TomlValue
    text : Bytes → TomlValue
    array : TomlArray → TomlValue
    printed : Bytes → TomlValue

  -- The keys in the order of `Keys()`, each with its value.
  pub data TomlTree : Type 0 where
    no_key : TomlTree
    entry : Bytes → TomlValue → TomlTree → TomlTree

  pub data TomlArray : Type 0 where
    no_item : TomlArray
    item : TomlValue → TomlArray → TomlArray

pub is_no_key : TomlTree → Bool
is_no_key no_key = true
is_no_key (entry k v t) = false

pub is_no_item : TomlArray → Bool
is_no_item no_item = true
is_no_item (item v a) = false

unfoldable mutual
  -- `show` is what `%v` makes of a tree.
  pub json_encode : (TomlTree → Bytes) → TomlValue → Bytes
  json_encode show (subtree t) = b'{' ∷ (json_entries show t ++ b'}' ∷ [])
  json_encode show null = codes "null"
  json_encode show (text s) = quote s
  json_encode show (array a) = b'[' ∷ (json_items show a ++ b']' ∷ [])
  json_encode show (printed s) = s

  -- The loop of `TraverseTomlAsJson`: no comma behind the last entry.
  pub json_entries : (TomlTree → Bytes) → TomlTree → Bytes
  json_entries show no_key = []
  json_entries show (entry k v t) =
      quote k
      ++ (b':' ∷ (json_encode show v ++ (if is_no_key t then [] else b',' ∷ json_entries show t)))

  -- The loop of `ListToJson`: a tree in a list is printed.
  pub json_items : (TomlTree → Bytes) → TomlArray → Bytes
  json_items show no_item = []
  json_items show (item v a) =
      list_item show v ++ (if is_no_item a then [] else b',' ∷ json_items show a)

  pub list_item : (TomlTree → Bytes) → TomlValue → Bytes
  list_item show (subtree t) = show t
  list_item show null = codes "<nil>"
  list_item show (text s) = quote s
  list_item show (array a) = b'[' ∷ (json_items show a ++ b']' ∷ [])
  list_item show (printed s) = s

-- The value of the first key; nil when there is no key, and an error when the text is no TOML.
unfoldable pub toml_config_value_to_json :
    (TomlTree → Bytes) → (Bytes → Option TomlTree) → Bytes → Option (Option Bytes)
toml_config_value_to_json show load content = elim (load content) [
  | none ↦ none
  | some no_key ↦ some none
  | some (entry k v t) ↦ some (some (json_encode show v))
]
