-- ===== src/Projconfig/Debug.antt =====
-- Values in debug files: projconfig/debugconfig.go. Whether a file exists, and what the TOML parser
-- makes of it, are arguments. A name is the path of a debug file.
pub mod Nearest
use dove.Base.{
  ℕ, suc, Bool, true, false, not, ◌&&◌, Option, none, some, List, [], ◌∷◌, ◌++◌, map, ltb, leb,
  nat_beq, if◌then◌else◌, length, Bytes, codes, bytes_beq, nat_eq, bytes_eq,
}
use dove.Base.Dict.{Dict, keys, lookup}
use dove.Base.Text.{split, join, trim_right}
use dove.Util.Json.{TomlTree, TomlValue, null, text, subtree, array, printed, json_encode}
use dove.Util.Json.Quote.{quote}

-- `files` is the setting CONFIG_DIR; `exists` asks the file system.
abbrev pub debug_path : Bytes → Bytes → Bytes
debug_path debug_filename dir = trim_right dir (codes "/") ++ (b'/' ∷ debug_filename)

pub existing : (Bytes → Bool) → List Bytes → List Bytes
existing exists [] = []
existing exists (f ∷ fs) = let rest = existing exists fs in if exists f then f ∷ rest else rest

-- A debug file of the settings that exists is the only one.
pub get_debug_files : (Bytes → Bool) → Bytes → Bytes → List Bytes → List Bytes
unfolding existing
get_debug_files exists debug_file debug_filename config_dir =
    if not (bytes_beq debug_file []) && exists debug_file
    then debug_file ∷ []
    else existing exists (map (debug_path debug_filename) config_dir)

-- One file that cannot be parsed is an error of the whole; a later file of the same name replaces
-- the earlier one.
pub load_debug_configs :
    (Bytes → Option TomlTree) → List Bytes → Dict Bytes TomlTree → Option (Dict Bytes TomlTree)
load_debug_configs load_file [] configs = some configs
load_debug_configs load_file (f ∷ fs) configs =
    let next : Dict Bytes TomlTree → Option (Dict Bytes TomlTree) =
      load_debug_configs load_file fs in
    elim (load_file f) [ none ↦ none | some t ↦ next (dove.Base.Dict.insert f t configs) ]

drop_last : List Bytes → List Bytes
drop_last [] = []
drop_last (x ∷ xs) = elim xs [ [] ↦ [] | y ∷ ys ↦ x ∷ drop_last xs ]

-- The debug file beside a schema file.
pub expected_debug_file : Bytes → Bytes → Bytes
unfolding drop_last
expected_debug_file debug_filename schema_file =
    join (drop_last (split schema_file b'/')) (codes "/") ++ (b'/' ∷ debug_filename)

-- The first position at which a name differs from the expected one; `none` when the name is a prefix
-- of it.
pub first_difference : Bytes → Bytes → Option ℕ
first_difference [] expected = none
first_difference (c ∷ name) [] = some 0
first_difference (c ∷ name) (e ∷ expected) =
    let rest = first_difference name expected in
    if nat_beq c e then (elim rest [ none ↦ none | some n ↦ some (suc n) ]) else some 0

-- One round of the loop over the debug files: `test_pos` and `nearest` are its variables, and the
-- name differs from the expected one at the position given.
pub nearest_step : Option ℕ → ℕ → Bytes → Bytes → ℕ × Bytes
nearest_step none test_pos nearest name = (test_pos, nearest)
nearest_step (some pos) test_pos nearest name =
    if leb test_pos pos then (pos, name) else (test_pos, nearest)

pub nearest_loop : Bytes → ℕ → Bytes → List Bytes → ℕ × Bytes
unfolding nearest_step
nearest_loop expected test_pos nearest [] = (test_pos, nearest)
nearest_loop expected test_pos nearest (name ∷ names) =
    let (pos, n) = nearest_step (first_difference name expected) test_pos nearest name in
    nearest_loop expected pos n names

-- The file from which a value is taken.
pub chosen_file : Dict Bytes TomlTree → Bytes → Bytes
unfolding nearest_loop
chosen_file configs expected = elim (lookup expected configs) [
  | some t ↦ expected
  | none ↦ (nearest_loop expected 0 [] (keys configs)).1
]

last_of : List Bytes → Bytes
last_of [] = []
last_of (x ∷ xs) = elim xs [ [] ↦ x | y ∷ ys ↦ last_of xs ]

-- The value as a line of TOML. `print_tree` is `ToString` of a tree, and `show` what `%v` prints of
-- an array.
pub toml_text : Bool → (TomlTree → Bytes) → (TomlValue → Bytes) → Bytes → TomlValue → Bytes
unfolding last_of
toml_text false print_tree show name v = []
toml_text true print_tree show name (subtree t) = print_tree t
toml_text true print_tree show name null = []
toml_text true print_tree show name (text s) = last_of (split name b'.') ++ (b'=' ∷ quote s)
toml_text true print_tree show name (array a) = last_of (split name b'.') ++ (b'=' ∷ show (array a))
toml_text true print_tree show name (printed s) = last_of (split name b'.') ++ (b'=' ∷ s)

-- `get` is the parser's lookup of a dotted name in a tree. A file that is not there is a nil tree,
-- and asking it panics.
pub data DebugValue : Type 0 where
  panics nothing : DebugValue
  found : Bytes → Bytes → DebugValue

pub get_config_by_schemafile :
    (TomlTree → Bytes → TomlValue)
    → (TomlTree → Bytes)
    → (TomlTree → Bytes)
    → (TomlValue → Bytes)
    → Bytes
    → Dict Bytes TomlTree
    → Bytes
    → Bytes
    → Bool
    → DebugValue
unfolding chosen_file toml_text expected_debug_file
get_config_by_schemafile get show_tree print_tree show debug_filename configs name schema_file
      with_toml =
    if ltb (length configs) 1
    then nothing
    else elim (lookup (chosen_file configs (expected_debug_file debug_filename schema_file))
        configs) [
          | none ↦ panics
          | some t ↦ elim (get t name) [
            | null ↦ nothing
            | subtree s ↦
                found (json_encode show_tree (subtree s))
                  (toml_text with_toml print_tree show name (subtree s))
            | text s ↦
                found (json_encode show_tree (text s))
                  (toml_text with_toml print_tree show name (text s))
            | array a ↦
                found (json_encode show_tree (array a))
                  (toml_text with_toml print_tree show name (array a))
            | printed s ↦
                found (json_encode show_tree (printed s))
                  (toml_text with_toml print_tree show name (printed s))
          ]
        ]
