-- ===== src/Schema/Files.antt =====
-- Which files and root nodes configschema/configschema.go reports.
use mathlib.Core.List.{reverse, reverse-append}
use dove.Base.{
  ◌≡◌, refl, inl, inr, true, Option, none, some, List, [], ◌∷◌, ◌++◌, map, arith, Bool-cases, All,
  All-append, Bytes, codes, nat_eq, bytes_eq, contains, Distinct,
}
use dove.Base.Text.{has_prefix, has_suffix, trim_right}
use dove.Util.Arrays.{append_all_missing-Distinct, contains-append_all_missing}
use dove.Schema.{
  SchemaFile, DirEntry, is_schema_file, entry_files, get_schema_files_by_dir, load_schema_files,
  schemafile_suffix, toml_suffix, trim_item, root_node, get_all_schema_items,
  get_all_schema_item_root_nodes,
}

pub has_prefix-append : (s t p : Bytes) → has_prefix s p ≡ true → has_prefix (s ++ t) p ≡ true
unfolding has_prefix
has_prefix-append s t [] h = refl
has_prefix-append [] t (x ∷ p) h = cc
has_prefix-append (c ∷ s) t (x ∷ p) h = ground (arith, has_prefix-append s t p)

pub has_suffix-append : (t s p : Bytes) → has_suffix s p ≡ true → has_suffix (t ++ s) p ≡ true
unfolding has_suffix
has_suffix-append t s p h =
    rw (reverse-append t s) (has_prefix-append (reverse s) (reverse t) (reverse p) h)

is_schema_file-append : (t s : Bytes) → is_schema_file s ≡ true → is_schema_file (t ++ s) ≡ true
unfolding is_schema_file
is_schema_file-append t s h =
    ground (arith, has_suffix-append t s schemafile_suffix, has_suffix-append t s toml_suffix)

abbrev pub IsSchema : SchemaFile → Type 0
IsSchema f = is_schema_file f.path ≡ true

entry_files-IsSchema : (dir : Bytes) (fs : List DirEntry) → All IsSchema (entry_files dir fs)
unfolding entry_files
entry_files-IsSchema dir [] = tt
entry_files-IsSchema dir (f ∷ fs) = elim (Bool-cases f.is_dir) [
  | inl d ↦ rw d (entry_files-IsSchema dir fs)
  | inr d ↦ elim (Bool-cases (is_schema_file f.name)) [
    | inl e ↦
        rw (d, e)
          (
            is_schema_file-append (trim_right dir (codes "/")) (b'/' ∷ f.name)
                (is_schema_file-append (b'/' ∷ []) f.name e),
            entry_files-IsSchema dir fs,
          )
    | inr e ↦ rw (d, e) (entry_files-IsSchema dir fs)
  ]
]

-- Every file that is loaded is one that `IsSchemaFile` accepts by its path, in whatever
-- directories, readable or not.
pub load_schema_files-IsSchema :
    (dirs : List (Bytes × Option (List DirEntry))) → All IsSchema (load_schema_files dirs)
unfolding load_schema_files get_schema_files_by_dir
load_schema_files-IsSchema [] = tt
load_schema_files-IsSchema ((dir, none) ∷ dirs) = load_schema_files-IsSchema dirs
load_schema_files-IsSchema ((dir, some fs) ∷ dirs) =
    All-append IsSchema (entry_files dir fs) (load_schema_files dirs) (entry_files-IsSchema dir fs)
      (load_schema_files-IsSchema dirs)

-- The root nodes are distinct, and they are the roots of the items of all the files.
pub get_all_schema_item_root_nodes_lem :
    (contents : List (Option Bytes))
    → Distinct (get_all_schema_item_root_nodes contents)
      × ((root : Bytes)
          → contains (get_all_schema_item_root_nodes contents) root
            ≡ contains
                (map (λ item. root_node (trim_item item)) (get_all_schema_items contents))
                root)
unfolding get_all_schema_item_root_nodes contains
get_all_schema_item_root_nodes_lem contents = (
  append_all_missing-Distinct []
      (map (λ item. root_node (trim_item item)) (get_all_schema_items contents)) tt,
  λ root.
      contains-append_all_missing []
        (map (λ item. root_node (trim_item item)) (get_all_schema_items contents)) root,
)
