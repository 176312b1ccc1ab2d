-- ===== src/Watcher/Nodes/Registered.antt =====
-- What registering a setting guarantees: configwatcher/zk_watcher.go.
use dove.Base.{
  ℕ, ◌≡◌, refl, sym, ap, ◌∙◌, inl, inr, Bool, true, false, not, ◌&&◌, ◌||◌, Option, none, some,
  arith, if◌then◌else◌, Bool-cases, ◌==◌, Bytes, bytes_beq_iff, nat_eq, bytes_eq, beq_refl,
  contains,
}
use dove.Base.Dict.{lookup, lookup-insert}
use dove.Watcher.Nodes.{
  RegisteredNodeInfo, Nodes, set_registered_node_info, root_of, is_watched, add_to_watch_list,
  touch_dynamic_node, is_watched_info, save_registered_nodes_to_disk,
}

-- A goroutine listens for the root, or one was started that will.
abbrev pub will_watch : Bytes → Nodes → Bool
will_watch root s = (is_watched root s && not (contains s.stuck root)) || contains s.starting root

-- The same, or the goroutine of the root hangs behind a directive to stop.
abbrev pub is_covered : Bytes → Nodes → Bool
is_covered root s = will_watch root s || contains s.stuck root

pub add_to_watch_list-is_covered :
    (root : Bytes) (s : Nodes) → is_covered root (add_to_watch_list root s).1 ≡ true
unfolding add_to_watch_list contains
add_to_watch_list-is_covered root s = elim (Bool-cases (is_watched root s)) [
  | inl e ↦ rw (e, add_to_watch_list) (ground (arith, e))
  | inr e ↦ rw (e, add_to_watch_list) (ground (arith, beq_refl root))
]

abbrev pub is_registered : Option RegisteredNodeInfo → Bool
is_registered none = false
is_registered (some info) = true

-- For the root of every registered setting a goroutine listens or was started that will, or its goroutine
-- hangs behind a directive to stop.
pub record IsCovered (s : Nodes) : Type 0 where
  pub covered :
      (a : Bytes)
      → (is_registered (lookup a s.registered_nodes) && not (is_covered (root_of a) s)) ≡ false

pub is_covered-add_to_watch_list :
    (root other : Bytes) (s : Nodes)
    → is_covered other s ≡ true
    → is_covered other (add_to_watch_list root s).1 ≡ true
unfolding add_to_watch_list contains is_watched
is_covered-add_to_watch_list root other s h = ground arith

pub registered-add_to_watch_list :
    (root : Bytes) (s : Nodes) → (add_to_watch_list root s).1.registered_nodes ≡ s.registered_nodes
unfolding add_to_watch_list
registered-add_to_watch_list root s = ground arith

lookup-registered :
    (name a : Bytes) (info : RegisteredNodeInfo) (s : Nodes)
    → lookup a
        (add_to_watch_list (root_of name) (set_registered_node_info name info s)).1.registered_nodes
      ≡ (if name == a then some info else lookup a s.registered_nodes)
lookup-registered name a info s =
    ap (lookup a)
      (registered-add_to_watch_list (root_of name) (set_registered_node_info name info s))
    ∙ lookup-insert name a info s.registered_nodes

is_covered-set :
    (name other : Bytes) (info : RegisteredNodeInfo) (s : Nodes)
    → is_covered other (set_registered_node_info name info s) ≡ is_covered other s
unfolding is_watched
is_covered-set name other info s = refl

-- Registering a setting and watching its root.
pub register-IsCovered :
    (name : Bytes) (info : RegisteredNodeInfo) (s : Nodes)
    → IsCovered s
    → IsCovered (add_to_watch_list (root_of name) (set_registered_node_info name info s)).1
register-IsCovered name info s c = record {
  covered = λ a. elim (Bool-cases (name == a)) [
    | inl y ↦
        let same : name ≡ a = (bytes_beq_iff name a).0 y in
        let t = (add_to_watch_list (root_of name) (set_registered_node_info name info s)).1 in
        let w : is_covered (root_of a) t ≡ true =
          ap (λ n. is_covered (root_of n) t) (sym same)
          ∙ add_to_watch_list-is_covered (root_of name) (set_registered_node_info name info s) in
        rw w (ground arith)
    | inr n ↦ ground (
      arith,
      n,
      c.covered a,
      lookup-registered name a info s,
      is_covered-set name (root_of a) info s,
      is_covered-add_to_watch_list (root_of name) (root_of a)
          (set_registered_node_info name info s),
    )
  ];
}

-- A setting that is registered already gets another entry.
refresh-IsCovered :
    (name : Bytes) (info new : RegisteredNodeInfo) (s : Nodes)
    → lookup name s.registered_nodes ≡ some info
    → IsCovered s
    → IsCovered (set_registered_node_info name new s)
refresh-IsCovered name info new s e c = record {
  covered = λ a. elim (Bool-cases (name == a)) [
    | inl y ↦
        let there : lookup a s.registered_nodes ≡ some info =
          ap (λ n. lookup n s.registered_nodes) (sym ((bytes_beq_iff name a).0 y)) ∙ e in
        ground (
          arith,
          there,
          c.covered a,
          y,
          lookup-insert name a new s.registered_nodes,
          is_covered-set name (root_of a) new s,
        )
    | inr n ↦ ground (
      arith,
      c.covered a,
      n,
      lookup-insert name a new s.registered_nodes,
      is_covered-set name (root_of a) new s,
    )
  ];
}

save-unchanged :
    (s : Nodes)
    → ((save_registered_nodes_to_disk s).1.registered_nodes ≡ s.registered_nodes)
      × ((save_registered_nodes_to_disk s).1.watch_list ≡ s.watch_list)
      × ((save_registered_nodes_to_disk s).1.starting ≡ s.starting)
      × ((save_registered_nodes_to_disk s).1.stuck ≡ s.stuck)
unfolding save_registered_nodes_to_disk
save-unchanged s = ground arith

pub save-IsCovered : (s : Nodes) → IsCovered s → IsCovered (save_registered_nodes_to_disk s).1
unfolding is_watched
save-IsCovered s c =
    let (r, w, g, k) = save-unchanged s in
    record {
      covered = λ a. ground (
        arith,
        c.covered a,
        ap (lookup a) r,
        ap (λ m. is_watched_info (lookup (root_of a) m)) w,
        ap (λ l. contains l (root_of a)) g,
        ap (λ l. contains l (root_of a)) k,
      );
    }

pub touch_node-IsCovered :
    (run_as_bi : Bool) (now : ℕ) (name : Bytes) (s : Nodes) (o : Option RegisteredNodeInfo)
    → lookup name s.registered_nodes ≡ o
    → IsCovered s
    → IsCovered (touch_dynamic_node run_as_bi now name s).1
unfolding touch_dynamic_node
touch_node-IsCovered true now name s o e c = c
touch_node-IsCovered false now name s none e c =
    rw (e, touch_dynamic_node)
      (save-IsCovered
        (add_to_watch_list (root_of name) (
          set_registered_node_info name
            (record { name = name; last_access_time = now; reg_time = now }) s)).1
        (register-IsCovered name (record { name = name; last_access_time = now; reg_time = now }) s
          c))
touch_node-IsCovered false now name s (some info) e c =
    rw (e, touch_dynamic_node)
      (refresh-IsCovered name info (record info { last_access_time = now }) s e c)

touch_node_cases :
    (now : ℕ) (name : Bytes) (s : Nodes) (o : Option RegisteredNodeInfo)
    → lookup name s.registered_nodes ≡ o
    → (info : RegisteredNodeInfo) × (lookup name
          (touch_dynamic_node false now name s).1.registered_nodes
        ≡ some info)
      × (info.last_access_time ≡ now)
unfolding touch_dynamic_node
touch_node_cases now name s none e =
    let new : RegisteredNodeInfo = record { name = name; last_access_time = now; reg_time = now } in
    rw (e, touch_dynamic_node)
      (
        new,
        ap (λ m. lookup name m)
              (save-unchanged
                (add_to_watch_list (root_of name) (set_registered_node_info name new s)).1).0
            ∙ lookup-registered name name new s
            ∙ ap (λ b. if b then some new else lookup name s.registered_nodes) (beq_refl name),
        refl,
      )
touch_node_cases now name s (some info) e =
    let new : RegisteredNodeInfo = record info { last_access_time = now } in
    rw (e, touch_dynamic_node)
      (
        new,
        lookup-insert name name new s.registered_nodes
            ∙ ap (λ b. if b then some new else lookup name s.registered_nodes) (beq_refl name),
        refl,
      )

pub touch_node-registered :
    (now : ℕ) (name : Bytes) (s : Nodes)
    → (info : RegisteredNodeInfo) × (lookup name
          (touch_dynamic_node false now name s).1.registered_nodes
        ≡ some info)
      × (info.last_access_time ≡ now)
touch_node-registered now name s = touch_node_cases now name s (lookup name s.registered_nodes) refl
