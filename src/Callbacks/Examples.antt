-- ===== src/Callbacks/Examples.antt =====
-- Concrete runs of callbacks/callback.go.
use dove.Base.{
  ◌≡◌, refl, List, [], ◌∷◌, map, Bytes, codes, bytes_beq, nat_eq, bytes_eq, contains, Distinct,
}
use dove.Base.Text.{join}
use dove.Base.Dict.{lookup}
use dove.Callbacks.{Pending, get_customize_callbacks, with_params, update_schema_nodes_and_diff}
use dove.Callbacks.Nodes.{update_schema_nodes_and_diff_lem}
use dove.Callbacks.Rules.{some_rule, get_customize_callbacks_lem}

abbrev node_a : Bytes
node_a = codes "a"

abbrev node_b : Bytes
node_b = codes "b"

abbrev mysql : Bytes
mysql = codes "mysql.schema"

abbrev pending : Pending
pending = record {
  updated_schema_files = mysql ∷ [];
  updated_nodes = node_a ∷ [];
  schema_to_nodes = (mysql, node_a ∷ []) ∷ [];
}

update_schema_nodes_and_diff_lem_example :
    Distinct (update_schema_nodes_and_diff mysql (node_a ∷ node_b ∷ []) pending).0
unfolding lookup bytes_beq
update_schema_nodes_and_diff_lem_example =
    (update_schema_nodes_and_diff_lem mysql (node_a ∷ []) (node_a ∷ node_b ∷ []) pending refl).0

abbrev rules : List (List Bytes)
rules = (codes "reload.sh" ∷ mysql ∷ []) ∷ (codes "never.sh" ∷ codes "redis.schema" ∷ []) ∷ []

get_customize_callbacks_lem_example :
    (scripts : List Bytes) × ((get_customize_callbacks rules pending).0
      ≡ map (with_params (join pending.updated_nodes (codes ","))) scripts)
    × Distinct scripts
    × ((s : Bytes) → contains scripts s ≡ some_rule pending.updated_schema_files s rules)
    × ((get_customize_callbacks rules pending).1.updated_schema_files ≡ [])
    × ((get_customize_callbacks rules pending).1.updated_nodes ≡ [])
    × ((get_customize_callbacks rules pending).1.schema_to_nodes ≡ pending.schema_to_nodes)
get_customize_callbacks_lem_example = get_customize_callbacks_lem rules pending
