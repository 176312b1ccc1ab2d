-- ===== src/Watcher/Start.antt =====
-- The start of the watcher: Start of configwatcher/zk_watcher.go. The registration of the client, whose
-- error is only logged, is Watcher.Monitor; the goroutines that are started have modules of their own.
use dove.Base.{
  ◌≡◌, refl, ap, ◌∙◌, inl, inr, Bool, true, false, not, Option, none, some, List, [], ◌∷◌, map,
  arith, if◌then◌else◌, Bool-cases, Option-cases, ◌==◌, Bytes, codes, bytes_beq_iff, nat_eq,
  bytes_eq, beq_refl, contains,
}
use mathlib.Core.Path.{subst}
use dove.Base.Dict.{Dict, keys, lookup}
use dove.Schema.{root_node, trim_item, get_all_schema_items, get_all_schema_item_root_nodes}
use dove.Schema.Files.{get_all_schema_item_root_nodes_lem}
use dove.Watcher.Nodes.{
  RegisteredNodeInfo, load_node, load_all, Nodes, root_of, add_to_watch_list,
  load_registered_nodes_from_disk,
}
use dove.Watcher.Nodes.Registered.{
  IsCovered, will_watch, is_covered, add_to_watch_list-is_covered, is_covered-add_to_watch_list,
  registered-add_to_watch_list,
}
use dove.Watcher.Nodes.Reachable.{load_stored-IsCovered}
use dove.Watcher.Update.{Outside, Watcher, update_by_root_node}

-- The names of getAllRegisteredNodeInfo.
abbrev pub get_all_registered : Nodes → List Bytes
get_all_registered s = keys s.registered_nodes

unfoldable pub watch_roots : List Bytes → Nodes → Nodes
watch_roots [] s = s
watch_roots (root ∷ roots) s = watch_roots roots (add_to_watch_list root s).1

-- The schema files with their contents, if these can be read. The result says whether there is a
-- connection; without one nothing is started. `none` is a panic of the first update.
unfoldable pub start :
    Outside → Bool → List (Bytes × Option Bytes) → Watcher → Nodes → Option (Bool × Watcher × Nodes)
unfolding watch_roots
start o conn_ok files w s =
    let loaded : Nodes = (load_registered_nodes_from_disk s).1 in
    let roots = get_all_schema_item_root_nodes (map (λ f. f.1) files) in
    if not conn_ok
    then some (false, w, s)
    else elim (update_by_root_node o (codes "*") true files (get_all_registered loaded) w) [
      | none ↦ none
      | some (pass, w') ↦ some (true, w', watch_roots roots loaded)
    ]

watch_roots-keeps :
    (roots : List Bytes) (a : Bytes) (s : Nodes)
    → is_covered a s ≡ true
    → is_covered a (watch_roots roots s) ≡ true
unfolding watch_roots
watch_roots-keeps [] a s h = h
watch_roots-keeps (root ∷ roots) a s h =
    watch_roots-keeps roots a (add_to_watch_list root s).1 (is_covered-add_to_watch_list root a s h)

watch_roots-watches :
    (roots : List Bytes) (a : Bytes) (s : Nodes)
    → contains roots a ≡ true
    → is_covered a (watch_roots roots s) ≡ true
unfolding watch_roots contains
watch_roots-watches [] a s h = ground (arith, h)
watch_roots-watches (root ∷ roots) a s h = elim (Bool-cases (root == a)) [
  | inl e ↦ watch_roots-keeps roots a (add_to_watch_list root s).1 (
      ap (λ r. is_covered a (add_to_watch_list r s).1) ((bytes_beq_iff root a).0 e)
      ∙ add_to_watch_list-is_covered a s)
  | inr e ↦ watch_roots-watches roots a (add_to_watch_list root s).1 (ground (arith, e, h))
]

contains-map :
    (f : Bytes → Bytes) (xs : List Bytes) (a : Bytes)
    → contains xs a ≡ true
    → contains (map f xs) (f a) ≡ true
unfolding contains
contains-map f [] a h = ground (arith, h)
contains-map f (x ∷ xs) a h = elim (Bool-cases (x == a)) [
  | inl e ↦
      let same : f x ≡ f a = ap f ((bytes_beq_iff x a).0 e) in
      ground (arith, ap (λ y. y == f a) same, beq_refl (f a))
  | inr e ↦ ground (arith, contains-map f xs a (ground (arith, e, h)))
]

watch_roots-IsCovered :
    (roots : List Bytes) (s : Nodes) → IsCovered s → IsCovered (watch_roots roots s)
unfolding watch_roots
watch_roots-IsCovered [] s c = c
watch_roots-IsCovered (root ∷ roots) s c =
    watch_roots-IsCovered roots (add_to_watch_list root s).1 (record {
      covered = λ a. ground (
        arith,
        c.covered a,
        ap (lookup a) (registered-add_to_watch_list root s),
        is_covered-add_to_watch_list root (root_of a) s,
      );
    })

stuck-add_to_watch_list : (root : Bytes) (s : Nodes) → (add_to_watch_list root s).1.stuck ≡ s.stuck
unfolding add_to_watch_list
stuck-add_to_watch_list root s = ground arith

watch_roots-stuck : (roots : List Bytes) (s : Nodes) → (watch_roots roots s).stuck ≡ s.stuck
unfolding watch_roots
watch_roots-stuck [] s = refl
watch_roots-stuck (root ∷ roots) s =
    watch_roots-stuck roots (add_to_watch_list root s).1 ∙ stuck-add_to_watch_list root s

load_all-stuck : (m : Dict Bytes RegisteredNodeInfo) (s : Nodes) → (load_all m s).stuck ≡ s.stuck
unfolding load_all load_node
load_all-stuck [] s = refl
load_all-stuck ((name, stored) ∷ m) s =
    load_all-stuck m (load_node (name, stored) s) ∙ stuck-add_to_watch_list (root_of name) _

loaded-stuck : (s : Nodes) → (load_registered_nodes_from_disk s).1.stuck ≡ s.stuck
unfolding load_registered_nodes_from_disk
loaded-stuck s = elim (Option-cases s.saved) [
  | inl e ↦ ground (arith, e)
  | inr (m, e) ↦ ground (arith, e, load_all-stuck m s)
]

-- When the watcher has started with a connection, with no goroutine that hangs, a goroutine listens for the root of
-- every item of a schema file, or is started that will, and the same holds of the roots of the registered
-- settings, with those that are loaded from the disk, if it held before.
pub start-watches :
    (o : Outside) (files : List (Bytes × Option Bytes)) (w w' : Watcher) (s s' : Nodes)
    (item : Bytes)
    → start o true files w s ≡ some (true, w', s')
    → s.stuck ≡ []
    → IsCovered s
    → contains (get_all_schema_items (map (λ f. f.1) files)) item ≡ true
    → (will_watch (root_node (trim_item item)) s' ≡ true) × IsCovered s' × (s'.stuck ≡ [])
unfolding start contains
start-watches o files w w' s s' item u k c h =
    let contents = map (λ (f : Bytes × Option Bytes). f.1) files in
    let roots = get_all_schema_item_root_nodes contents in
    let loaded : Nodes = (load_registered_nodes_from_disk s).1 in
    let root = root_node (trim_item item) in
    let covered : is_covered root (watch_roots roots loaded) ≡ true =
      watch_roots-watches roots root loaded (
        (get_all_schema_item_root_nodes_lem contents).1 root
        ∙ contains-map (λ i. root_node (trim_item i)) (get_all_schema_items contents) item h) in
    let none_hangs : (watch_roots roots loaded).stuck ≡ [] =
      watch_roots-stuck roots loaded ∙ loaded-stuck s ∙ k in
    elim (Option-cases
      (update_by_root_node o (codes "*") true files (get_all_registered loaded) w)) [
        | inl n ↦ absurd (ground (arith, u, n))
        | inr (r, e) ↦
            let same : watch_roots roots loaded ≡ s' = ground (arith, u, e) in
            subst (λ n. (will_watch root n ≡ true) × IsCovered n × (n.stuck ≡ [])) same
              (
                ground (arith, covered, ap (λ l. contains l root) none_hangs),
                watch_roots-IsCovered roots loaded (load_stored-IsCovered s c),
                none_hangs,
              )
      ]
