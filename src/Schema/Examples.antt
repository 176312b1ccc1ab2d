-- ===== src/Schema/Examples.antt =====
-- Concrete runs of configschema/configschema.go.
use dove.Base.{
  ◌+◌, ◌-◌, ◌/◌, ◌<◌, ◌≡◌, refl, false, Option, none, some, List, [], ◌∷◌, ◌++◌, arith, All, Bytes,
  codes, bytes_beq, nat_eq, bytes_eq, contains,
}
use dove.Util.{append_all_missing}
use dove.Schema.{
  DirEntry, parse_items, get_all_schema_item_root_nodes, root_node, get_all_schema_items, trim_item,
  is_word, is_name_byte, is_name,
}
use dove.Schema.Placeholders.{render, IsSegment, item_names, parse_items-render}

abbrev segments : List (Bytes × Bytes)
segments =
    (codes "db.host-1", codes ",\n") ∷ (codes "cache", []) ∷ (codes "db.host-1", codes ";") ∷ []

abbrev dirs : List (Bytes × Option (List DirEntry))
dirs =
    (
      codes "/etc/app/",
      some (record { name = codes "db.schema.php"; is_dir = false; md5sum = none } ∷ []),
    )
    ∷ (codes "/gone", none)
    ∷ []

parse_items_run :
    parse_items (some (codes "x = \"#{a.b}\"; y = \"#{c}\"; z = \"#{a.b}\" \"#{-}\""))
    ≡ some (codes "a.b" ∷ codes "c" ∷ [])
unfolding parse_items dove.Schema.find_all trim_item dove.Base.Text.has_prefix bytes_beq contains
    append_all_missing dove.Util.append_missing dove.Base.Text.trim
parse_items_run = refl

roots_run :
    get_all_schema_item_root_nodes (none ∷ some (codes "\"#{a.b}\" \"#{a.c}\"") ∷ [])
    ≡ codes "a" ∷ []
unfolding get_all_schema_item_root_nodes get_all_schema_items dove.Schema.parse_item_placeholders
    dove.Schema.find_all trim_item dove.Base.Text.has_prefix bytes_beq contains root_node
    append_all_missing dove.Util.append_missing dove.Base.Text.trim dove.Base.Text.split
    dove.Base.Text.first
roots_run = refl

segments-IsSegment : All IsSegment segments
unfolding is_word is_name_byte is_name
segments-IsSegment = (
  (record { bytes = ground arith; ends = refl }, ground arith),
  (
    (record { bytes = ground arith; ends = refl }, tt),
    ((record { bytes = ground arith; ends = refl }, ground arith), tt),
  ),
)

parse_items-render_example :
    parse_items (some (codes "<?php " ++ render segments))
    ≡ some (append_all_missing [] (item_names segments))
parse_items-render_example =
    parse_items-render (codes "<?php ") segments (ground arith) segments-IsSegment
