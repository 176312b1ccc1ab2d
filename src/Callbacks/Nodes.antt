-- ===== src/Callbacks/Nodes.antt =====
-- The nodes that callbacks/callback.go collects for the scripts.
use dove.Base.{
  ◌≡◌, ap, ◌∙◌, not, ◌&&◌, ◌||◌, some, List, [], ◌∷◌, ◌++◌, arith, if◌then◌else◌, ◌==◌, Bytes,
  bytes_beq_iff, nat_eq, bytes_eq, beq_refl, contains, contains-append, Distinct, Distinct-snoc,
}
use dove.Base.Dict.{lookup, lookup-insert}
use dove.Util.{in_array_string}
use dove.Util.Arrays.{
  in_array_string-contains, append_missing-Distinct, append_all_missing-Distinct,
  contains-append_all_missing,
}
use dove.Callbacks.{
  Pending, add_updated_schemafiles, add_updated_nodes, get_customize_callbacks, diff_loop,
  update_schema_nodes_and_diff,
}

pub record IsDistinct (p : Pending) : Type 0 where
  pub files : Distinct p.updated_schema_files
  pub nodes : Distinct p.updated_nodes

pub data Op : Type 0 where
  add_file : Bytes → Op
  add_nodes : List Bytes → Op
  diff : Bytes → List Bytes → Op
  take_scripts : List (List Bytes) → Op

pub run_op : Op → Pending → Pending
run_op (add_file f) p = add_updated_schemafiles f p
run_op (add_nodes ns) p = add_updated_nodes ns p
run_op (diff f ns) p = (update_schema_nodes_and_diff f ns p).1
run_op (take_scripts rules) p = (get_customize_callbacks rules p).1

pub run_ops : List Op → Pending → Pending
run_ops [] p = p
run_ops (o ∷ os) p = run_ops os (run_op o p)

run_op-IsDistinct : (o : Op) (p : Pending) → IsDistinct p → IsDistinct (run_op o p)
unfolding run_op add_updated_schemafiles add_updated_nodes update_schema_nodes_and_diff
    get_customize_callbacks
run_op-IsDistinct (add_file f) p d = record {
  files = append_missing-Distinct p.updated_schema_files f d.files;
  nodes = d.nodes;
}
run_op-IsDistinct (add_nodes []) p d = ground arith
run_op-IsDistinct (add_nodes (n ∷ ns)) p d =
    ground (arith, append_all_missing-Distinct p.updated_nodes (n ∷ ns) d.nodes)
run_op-IsDistinct (diff f ns) p d = ground arith
run_op-IsDistinct (take_scripts rules) p d = record { files = tt; nodes = tt }

-- Whatever the updates, no schema file and no node is noted twice.
pub run_ops-IsDistinct : (os : List Op) (p : Pending) → IsDistinct p → IsDistinct (run_ops os p)
unfolding run_ops
run_ops-IsDistinct [] p d = d
run_ops-IsDistinct (o ∷ os) p d = run_ops-IsDistinct os (run_op o p) (run_op-IsDistinct o p d)

-- A node is noted after `AddUpdatedNodes` exactly when it was before or is one of the new ones.
pub contains-add_updated_nodes :
    (nodes : List Bytes) (p : Pending) (a : Bytes)
    → contains (add_updated_nodes nodes p).updated_nodes a
      ≡ (contains p.updated_nodes a || contains nodes a)
unfolding add_updated_nodes contains
contains-add_updated_nodes [] p a = ground arith
contains-add_updated_nodes (n ∷ ns) p a =
    ground (arith, contains-append_all_missing p.updated_nodes (n ∷ ns) a)

-- What the loop does with one node.
diff_step : List Bytes → List Bytes → Bytes → List Bytes
diff_step node_list result n =
    if not (in_array_string node_list n) && not (in_array_string result n)
    then result ++ n ∷ []
    else result

diff_step-Distinct :
    (node_list result : List Bytes) (n : Bytes)
    → Distinct result
    → Distinct (diff_step node_list result n)
unfolding diff_step
diff_step-Distinct node_list result n d =
    ground (arith, Distinct-snoc result n d, in_array_string-contains result n)

contains-diff_step :
    (node_list result : List Bytes) (n a : Bytes)
    → contains (diff_step node_list result n) a
      ≡ (contains result a || ((n == a) && not (contains node_list a)))
unfolding diff_step contains
contains-diff_step node_list result n a = ground (
  arith,
  in_array_string-contains result n,
  in_array_string-contains node_list n,
  contains-append result (n ∷ []) a,
  bytes_beq_iff n a,
)

diff_loop-Distinct :
    (node_list result nodes : List Bytes)
    → Distinct result
    → Distinct (diff_loop node_list result nodes)
unfolding diff_loop diff_step
diff_loop-Distinct node_list result [] d = d
diff_loop-Distinct node_list result (n ∷ nodes) d =
    diff_loop-Distinct node_list (diff_step node_list result n) nodes
      (diff_step-Distinct node_list result n d)

contains-diff_loop :
    (node_list result nodes : List Bytes) (a : Bytes)
    → contains (diff_loop node_list result nodes) a
      ≡ (contains result a || (contains nodes a && not (contains node_list a)))
unfolding diff_loop contains diff_step
contains-diff_loop node_list result [] a = ground arith
contains-diff_loop node_list result (n ∷ nodes) a =
    let result' = diff_step node_list result n in
    ground
      (arith, contains-diff_loop node_list result' nodes a, contains-diff_step node_list result n a)

-- The second time that a schema file is recorded, the nodes that come back are those that it holds
-- now and did not hold the last time, each once; and the record is of the nodes that it holds now.
pub update_schema_nodes_and_diff_lem :
    (file : Bytes) (old nodes : List Bytes) (p : Pending)
    → lookup file p.schema_to_nodes ≡ some old
    → Distinct (update_schema_nodes_and_diff file nodes p).0
      × ((a : Bytes)
          → contains (update_schema_nodes_and_diff file nodes p).0 a
            ≡ (contains nodes a && not (contains old a)))
      × (lookup file (update_schema_nodes_and_diff file nodes p).1.schema_to_nodes ≡ some nodes)
unfolding update_schema_nodes_and_diff
update_schema_nodes_and_diff_lem file old nodes p e =
    rw (e, update_schema_nodes_and_diff)
      (
        diff_loop-Distinct old [] nodes tt,
        λ a. unfold contains in contains-diff_loop old [] nodes a,
        lookup-insert file file nodes p.schema_to_nodes
            ∙ ap (λ b. if b then some nodes else lookup file p.schema_to_nodes) (beq_refl file),
      )
