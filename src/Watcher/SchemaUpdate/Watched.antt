-- ===== src/Watcher/SchemaUpdate/Watched.antt =====
-- What an update behind a change of a schema file leaves watched: configwatcher/zk_watcher.go.
use dove.Base.{
  ◌≡◌, refl, sym, ap, ◌∙◌, inl, inr, Bool, true, false, Option, none, some, List, [], ◌∷◌, arith,
  Bool-cases, Option-cases, All, Bytes, nat_eq, bytes_eq,
}
use mathlib.Core.Path.{subst}
use dove.Base.Dict.{Dict}
use dove.Schema.{parse_items}
use dove.Callbacks.{update_schema_nodes_and_diff}
use dove.Projconfig.Local.{ValueError}
use dove.Watcher.Nodes.{root_of, add_to_watch_list}
use dove.Watcher.Nodes.Registered.{
  is_covered, add_to_watch_list-is_covered, is_covered-add_to_watch_list,
}
use dove.Watcher.SchemaUpdate.{
  Outside, World, Items, compile, watched_item, new_item, item_step, items_loop,
  update_by_schemafile, died,
}

item_step-nodes :
    (o : Outside) (path name : Bytes) (s : Items) (w : World)
    → died s ≡ false
    → (item_step o path name (s, w)).1.nodes ≡ (add_to_watch_list (root_of name) w.nodes).1
unfolding item_step watched_item new_item
item_step-nodes o path name s w d = ground (arith, d)

item_step-died :
    (o : Outside) (path name : Bytes) (s : Items) (w : World)
    → died s ≡ true
    → item_step o path name (s, w) ≡ (s, w)
unfolding item_step
item_step-died o path name s w d = rw d refl

items_loop-died :
    (o : Outside) (path : Bytes) (names : List Bytes) (s : Items) (w : World)
    → died s ≡ true
    → died (items_loop o path names (s, w)).0 ≡ true
unfolding items_loop
items_loop-died o path [] s w d = d
items_loop-died o path (name ∷ names) s w d =
    ap (λ r. died (items_loop o path names r).0) (item_step-died o path name s w d)
    ∙ items_loop-died o path names s w d

-- A loop that ends has met no panic.
items_loop-lived :
    (o : Outside) (path : Bytes) (names : List Bytes) (s : Items) (w : World)
    → died (items_loop o path names (s, w)).0 ≡ false
    → died s ≡ false
items_loop-lived o path names s w h = elim (Bool-cases (died s)) [
  | inl d ↦ absurd (ground (arith, h, items_loop-died o path names s w d))
  | inr l ↦ l
]

items_loop-keeps :
    (o : Outside) (path root : Bytes) (names : List Bytes) (s : Items) (w : World)
    → died (items_loop o path names (s, w)).0 ≡ false
    → is_covered root w.nodes ≡ true
    → is_covered root (items_loop o path names (s, w)).1.nodes ≡ true
unfolding items_loop
items_loop-keeps o path root [] s w d h = h
items_loop-keeps o path root (name ∷ names) s w d h =
    let r = item_step o path name (s, w) in
    let l = items_loop-lived o path (name ∷ names) s w d in
    items_loop-keeps o path root names r.0 r.1 d (
      ap (is_covered root) (item_step-nodes o path name s w l)
      ∙ is_covered-add_to_watch_list (root_of name) root w.nodes h)

items_loop-watches :
    (o : Outside) (path : Bytes) (names : List Bytes) (s : Items) (w : World)
    → died (items_loop o path names (s, w)).0 ≡ false
    → All (λ name. is_covered (root_of name) (items_loop o path names (s, w)).1.nodes ≡ true) names
unfolding items_loop
items_loop-watches o path [] s w d = tt
items_loop-watches o path (name ∷ names) s w d =
    let r = item_step o path name (s, w) in
    let l = items_loop-lived o path (name ∷ names) s w d in
    (
      items_loop-keeps o path (root_of name) names r.0 r.1 d (
          ap (is_covered (root_of name)) (item_step-nodes o path name s w l)
          ∙ add_to_watch_list-is_covered (root_of name) w.nodes),
      items_loop-watches o path names r.0 r.1 d,
    )

compile-nodes :
    (o : Outside) (item_values : Dict Bytes (Option Bytes)) (path : Bytes) (w : World)
    → (compile o item_values path w).1.nodes ≡ w.nodes
unfolding compile
compile-nodes o item_values path w = ground arith

-- After an update behind a change of a schema file that can be parsed, unless it panics, a goroutine
-- listens for the root of each of its items, or was started that will, or hangs behind a directive to
-- stop, whatever else the values and the compilation come to.
pub update_by_schemafile-watches :
    (o : Outside) (path : Bytes) (content : Option Bytes) (w w' : World) (items : List Bytes)
    (errors : Bool × Option ValueError)
    → parse_items content ≡ some items
    → update_by_schemafile o path content w ≡ some (errors, w')
    → All (λ name. is_covered (root_of name) w'.nodes ≡ true) items
unfolding update_by_schemafile
update_by_schemafile-watches o path content w w' items errors e h =
    let diff = update_schema_nodes_and_diff path items w.pending in
    let s0 : Items = record { new_nodes = diff.0; item_values = []; c_err = none } in
    let w0 : World = record w { pending = diff.1 } in
    let r = items_loop o path items (s0, w0) in
    let c = compile o r.0.item_values path r.1 in
    elim (Bool-cases (died r.0)) [
      | inl d ↦ absurd (ground (arith, e, h, d))
      | inr d ↦ elim (Option-cases c.0) [
        | inl n ↦ absurd (ground (arith, e, h, d, n))
        | inr (f, k) ↦
            let same : w'.nodes ≡ c.1.nodes = ground (arith, e, h, d, k) in
            subst (λ n. All (λ name. is_covered (root_of name) n ≡ true) items)
              (sym (same ∙ compile-nodes o r.0.item_values path r.1))
              (items_loop-watches o path items s0 w0 d)
      ]
    ]
