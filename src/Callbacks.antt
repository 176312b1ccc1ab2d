-- ===== src/Callbacks.antt =====
-- What an update hands to the callbacks: callbacks/callback.go, and the scripts that
-- `invokeCallbackScripts` of configwatcher/zk_watcher.go runs.
pub mod Nodes
pub mod Rules
pub mod Apc
pub mod Reload
mod Examples
use dove.Base.{
  ◌+◌, Bool, true, false, not, ◌&&◌, none, some, List, [], ◌∷◌, ◌++◌, map, nat_beq, if◌then◌else◌,
  length, Bytes, codes, nat_eq, bytes_eq,
}
use dove.Base.Dict.{Dict, lookup, insert}
use dove.Base.Text.{join}
use dove.Util.{in_array_string, append_missing, append_all_missing}

-- The package's variables. The lock `lk` makes each operation one step.
pub record Pending : Type 0 where
  pub updated_schema_files : List Bytes
  pub updated_nodes : List Bytes
  pub schema_to_nodes : Dict Bytes (List Bytes)

abbrev pub initial : Pending
initial = record { updated_schema_files = []; updated_nodes = []; schema_to_nodes = [] }

unfoldable pub add_updated_schemafiles : Bytes → Pending → Pending
add_updated_schemafiles file p = record p {
  updated_schema_files = append_missing p.updated_schema_files file;
}

unfoldable pub add_updated_nodes : List Bytes → Pending → Pending
add_updated_nodes nodes p =
    if nat_beq (length nodes) 0
    then p
    else record p { updated_nodes = append_all_missing p.updated_nodes nodes }

abbrev pub get_updated_nodes : Pending → List Bytes
get_updated_nodes p = p.updated_nodes

-- The loop over `nodes`: those that are in neither list are collected.
pub diff_loop : List Bytes → List Bytes → List Bytes → List Bytes
diff_loop node_list result [] = result
diff_loop node_list result (node ∷ nodes) =
    diff_loop node_list
      (if not (in_array_string node_list node) && not (in_array_string result node)
        then result ++ node ∷ []
        else result)
      nodes

pub update_schema_nodes_and_diff : Bytes → List Bytes → Pending → List Bytes × Pending
unfolding diff_loop
update_schema_nodes_and_diff file nodes p =
    let p' = record p { schema_to_nodes = insert file nodes p.schema_to_nodes } in
    elim (lookup file p.schema_to_nodes) [
      | none ↦ (nodes, p')
      | some node_list ↦ (diff_loop node_list [] nodes, p')
    ]

-- One of the files is among the updated ones.
pub any_updated : List Bytes → List Bytes → Bool
any_updated updated [] = false
any_updated updated (file ∷ files) =
    if in_array_string updated file then true else any_updated updated files

-- A rule is a script and, behind it, the schema files that it waits for.
pub apply_rule : List Bytes → List Bytes → List Bytes → List Bytes
unfolding any_updated
apply_rule updated scripts [] = scripts
apply_rule updated scripts (script ∷ files) = elim files [
  | [] ↦ if in_array_string scripts script then scripts else scripts ++ script ∷ []
  | file ∷ more ↦
      if in_array_string scripts script
      then scripts
      else if any_updated updated (file ∷ more)
      then scripts ++ script ∷ []
      else scripts
]

unfoldable pub apply_rules : List Bytes → List Bytes → List (List Bytes) → List Bytes
apply_rules updated scripts [] = scripts
apply_rules updated scripts (rule ∷ rules) =
    apply_rules updated (apply_rule updated scripts rule) rules

-- fmt.Sprintf("%s %s", script, params)
abbrev pub with_params : Bytes → Bytes → Bytes
with_params params script = script ++ (b' ' ∷ params)

-- The deferred function clears both lists after the scripts have their parameters.
unfoldable pub get_customize_callbacks : List (List Bytes) → Pending → List Bytes × Pending
get_customize_callbacks rules p = (
  map (with_params (join p.updated_nodes (codes ",")))
      (apply_rules p.updated_schema_files [] rules),
  record p { updated_schema_files = []; updated_nodes = [] },
)

-- The command lines of one round of `invokeCallbackScripts`: the main scripts get the nodes too.
unfoldable pub callback_scripts : List Bytes → List (List Bytes) → Pending → List Bytes × Pending
unfolding get_customize_callbacks
callback_scripts post_update_scripts rules p =
    let (custom, p') = get_customize_callbacks rules p in
    (map (with_params (join (get_updated_nodes p) (codes ","))) post_update_scripts ++ custom, p')
