-- ===== src/Schema.antt =====
-- Schema files and their placeholders: configschema/configschema.go. The directory listing, the
-- file contents and the MD5 sums are the arguments of the functions that read them.
pub mod Placeholders
pub mod Files
mod Examples
use dove.Base.{
  ℕ, zero, suc, ◌+◌, ◌-◌, ◌*◌, ◌/◌, ◌<◌, Bool, false, not, ◌&&◌, ◌||◌, Option, none, some, List, [],
  ◌∷◌, ◌++◌, map, leb, nat_beq, if◌then◌else◌, length, take, drop, Bytes, codes, nat_eq, bytes_eq,
}
use dove.Base.Text.{has_suffix, trim, trim_right, split, first}
use dove.Util.{append_all_missing}

abbrev pub schemafile_suffix : Bytes
schemafile_suffix = codes ".schema.php"

abbrev pub toml_suffix : Bytes
toml_suffix = codes ".schema.toml"

pub record SchemaFile : Type 0 where
  pub md5 : Bytes
  pub path : Bytes

unfoldable pub is_schema_file : Bytes → Bool
is_schema_file filename = has_suffix filename schemafile_suffix || has_suffix filename toml_suffix

-- An entry of a directory, with the MD5 sum of its content if that can be computed.
pub record DirEntry : Type 0 where
  pub name : Bytes
  pub is_dir : Bool
  pub md5sum : Option Bytes

entry_files : Bytes → List DirEntry → List SchemaFile
entry_files dir [] = []
entry_files dir (f ∷ fs) =
    let rest = entry_files dir fs in
    if f.is_dir
    then rest
    else if is_schema_file f.name
    then record {
      path = trim_right dir (codes "/") ++ (b'/' ∷ f.name);
      md5 = elim f.md5sum [ some m ↦ m | none ↦ codes "error_of_md5sum" ];
    }
      ∷ rest
    else rest

pub get_schema_files_by_dir : Bytes → Option (List DirEntry) → List SchemaFile
unfolding entry_files
get_schema_files_by_dir dir none = []
get_schema_files_by_dir dir (some fs) = entry_files dir fs

-- The configured directories, each with its listing.
pub load_schema_files : List (Bytes × Option (List DirEntry)) → List SchemaFile
load_schema_files [] = []
load_schema_files ((dir, listing) ∷ dirs) =
    get_schema_files_by_dir dir listing ++ load_schema_files dirs

-- `\w`.
unfoldable pub is_word : ℕ → Bool
is_word c =
    (leb b'0' c && leb c b'9')
    || ((leb b'A' c && leb c b'Z') || ((leb b'a' c && leb c b'z') || nat_beq c b'_'))

-- `[\-\d\w\.]`.
unfoldable pub is_name_byte : ℕ → Bool
unfolding is_word
is_name_byte c = is_word c || (nat_beq c b'-' || nat_beq c b'.')

abbrev pub open_tag : Bytes
open_tag = codes "\"#{"

abbrev pub close_tag : Bytes
close_tag = codes "}\""

-- The longest run of name bytes, and what follows it.
unfoldable pub name_run : Bytes → Bytes × Bytes
unfolding is_name_byte
name_run [] = ([], [])
name_run (c ∷ s) =
    let (run, rest) = name_run s in if is_name_byte c then (c ∷ run, rest) else ([], c ∷ s)

last_is_word : Bytes → Bool
unfolding is_word
last_is_word [] = false
last_is_word (c ∷ s) = elim s [ [] ↦ is_word c | d ∷ r ↦ last_is_word s ]

-- `\w+|\w+[\-\d\w\.]*[\w\d]`: word bytes at both ends.
unfoldable pub is_name : Bytes → Bool
unfolding last_is_word is_word
is_name [] = false
is_name (c ∷ s) = is_word c && last_is_word (c ∷ s)

-- The regular expression at the front of a text: the matched text and what follows. A name holds
-- no `}`, so the name of a match is the whole run.
unfoldable pub match_placeholder : Bytes → Option (Bytes × Bytes)
unfolding name_run is_name
match_placeholder s =
    if dove.Base.Text.has_prefix s open_tag
    then (let (run, rest) = name_run (drop 3 s) in
        if is_name run && dove.Base.Text.has_prefix rest close_tag
        then some (open_tag ++ (run ++ close_tag), drop 2 rest)
        else none)
    else none

-- `FindAllString(s, -1)`: the leftmost matches, none inside another. The fuel is the length of the
-- text: each round takes at least one byte.
unfoldable pub find_all : ℕ → Bytes → List Bytes
unfolding match_placeholder
find_all zero s = []
find_all (suc fuel) [] = []
find_all (suc fuel) (c ∷ s) = elim (match_placeholder (c ∷ s)) [
  | none ↦ find_all fuel s
  | some (m, rest) ↦ m ∷ find_all fuel rest
]

-- The content of a file: `none` when it cannot be read.
unfoldable pub parse_item_placeholders : Option Bytes → Option (List Bytes)
parse_item_placeholders none = none
parse_item_placeholders (some b) = some (find_all (length b) b)

-- strings.Trim(item, "\"#{}")
unfoldable pub trim_item : Bytes → Bytes
trim_item item = trim item (codes "\"#{}")

unfoldable pub parse_items : Option Bytes → Option (List Bytes)
unfolding parse_item_placeholders
parse_items content = elim (parse_item_placeholders content) [
  | none ↦ none
  | some items ↦ some (append_all_missing [] (map trim_item items))
]

-- A schema file that cannot be read adds no item.
unfoldable pub get_all_schema_items : List (Option Bytes) → List Bytes
get_all_schema_items [] = []
get_all_schema_items (content ∷ contents) = elim (parse_item_placeholders content) [
  | none ↦ get_all_schema_items contents
  | some items ↦ items ++ get_all_schema_items contents
]

-- strings.Split(name, ".")[0]
unfoldable pub root_node : Bytes → Bytes
root_node name = first (split name b'.')

pub get_all_schema_item_root_nodes : List (Option Bytes) → List Bytes
get_all_schema_item_root_nodes contents =
    append_all_missing [] (map (λ item. root_node (trim_item item)) (get_all_schema_items contents))

caution : Bytes
caution =
    codes "\n/**\n * This file is generated automatically by ConfigurationSystem.\n"
    ++ (codes
          " * Do not change it manually in production, unless you know what you're doing and can take responsibilities for the consequences of changes you make.\n"
        ++ codes " */\n")

pub get_compilation_caution : Bool → Bytes
unfolding caution
get_compilation_caution with_tag =
    if with_tag then codes "<?php " ++ (caution ++ codes "?>\n") else caution
