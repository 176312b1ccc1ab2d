-- ===== src/Watcher/Nodes/Reachable.antt =====
-- What is known of the watchers of the registered settings, whatever happens:
-- configwatcher/zk_watcher.go.
use dove.Base.{
  ℕ, ◌≡◌, refl, sym, ap, ◌∙◌, inl, inr, Bool, true, false, not, ◌&&◌, Option, none, some, List, [],
  ◌∷◌, arith, if◌then◌else◌, Bool-cases, ◌==◌, Bytes, bytes_beq_iff, nat_eq, bytes_eq, contains,
}
use dove.Base.Dict.{Dict, keys, lookup, delete, lookup-insert, lookup-delete}
use dove.Watcher.Nodes.{
  RegisteredNodeInfo, Nodes, root_of, is_watched, touch_dynamic_node, un_watch_received, drop_below,
  load_node, watch_item_starts, is_watched_info, save_registered_nodes_to_disk,
  load_registered_nodes_from_disk, load_all, remove_first, remove_all,
}
use dove.Watcher.Nodes.Registered.{
  IsCovered, is_covered, register-IsCovered, save-IsCovered, touch_node-IsCovered, is_registered,
}

load_node-IsCovered :
    (entry : Bytes × RegisteredNodeInfo) (s : Nodes) → IsCovered s → IsCovered (load_node entry s)
unfolding load_node
load_node-IsCovered (name, stored) s c = register-IsCovered name _ s c

is_watched-starts :
    (now : ℕ) (name other : Bytes) (s : Nodes)
    → is_watched other (watch_item_starts now name s)
      ≡ (if name == other then true else is_watched other s)
unfolding watch_item_starts is_watched is_watched_info
is_watched-starts now name other s = ground (
  arith,
  lookup-insert name other (record { reg_time = now; state = 1; un_watch = false }) s.watch_list,
)

unchanged_by_start :
    (now : ℕ) (name : Bytes) (s : Nodes)
    → (watch_item_starts now name s).registered_nodes ≡ s.registered_nodes
unfolding watch_item_starts
unchanged_by_start now name s = refl

equal-as : (y x a : Bytes) → (y == x) ≡ true → (y == a) ≡ (x == a)
equal-as y x a e = ap (λ z. z == a) ((bytes_beq_iff y x).0 e)

-- Another root than the one that starts stays where it was.
contains-remove_first :
    (x a : Bytes) (xs : List Bytes)
    → (x == a) ≡ false
    → contains (remove_first x xs) a ≡ contains xs a
unfolding remove_first contains
contains-remove_first x a [] h = refl
contains-remove_first x a (y ∷ ys) h =
    ground (arith, h, contains-remove_first x a ys h, equal-as y x a)

contains-remove_all :
    (x a : Bytes) (xs : List Bytes)
    → (x == a) ≡ false
    → contains (remove_all x xs) a ≡ contains xs a
unfolding remove_all contains
contains-remove_all x a [] h = refl
contains-remove_all x a (y ∷ ys) h = ground (arith, h, contains-remove_all x a ys h, equal-as y x a)

not-contains-remove_all : (x : Bytes) (xs : List Bytes) → contains (remove_all x xs) x ≡ false
unfolding remove_all contains
not-contains-remove_all x [] = refl
not-contains-remove_all x (y ∷ ys) = ground (arith, not-contains-remove_all x ys)

is_covered-starts :
    (now : ℕ) (name other : Bytes) (s : Nodes)
    → is_covered other s ≡ true
    → is_covered other (watch_item_starts now name s) ≡ true
unfolding watch_item_starts
is_covered-starts now name other s h = elim (Bool-cases (name == other)) [
  | inl e ↦
      let none_left : contains (remove_all name s.stuck) other ≡ false =
        ap (contains (remove_all name s.stuck)) (sym ((bytes_beq_iff name other).0 e))
        ∙ not-contains-remove_all name s.stuck in
      ground (arith, e, is_watched-starts now name other s, none_left)
  | inr e ↦ ground (
    arith,
    e,
    h,
    is_watched-starts now name other s,
    contains-remove_all name other s.stuck e,
    contains-remove_first name other s.starting e,
  )
]

watch_item_starts-IsCovered :
    (now : ℕ) (name : Bytes) (s : Nodes) → IsCovered s → IsCovered (watch_item_starts now name s)
watch_item_starts-IsCovered now name s c = record {
  covered = λ a. ground (
    arith,
    c.covered a,
    ap (lookup a) (unchanged_by_start now name s),
    is_covered-starts now name (root_of a) s,
  );
}

drop_below-registered :
    (root : Bytes) (items : List Bytes) (m : Dict Bytes RegisteredNodeInfo) (a : Bytes)
    → (is_registered (lookup a (drop_below root items m)) && not (is_registered (lookup a m)))
      ≡ false
unfolding drop_below
drop_below-registered root [] m a = ground arith
drop_below-registered root (item ∷ items) m a = ground (
  arith,
  drop_below-registered root items (if root_of item == root then delete item m else m) a,
  lookup-delete item a m,
)

un_watch_received-IsCovered :
    (name : Bytes) (s : Nodes) → IsCovered s → IsCovered (un_watch_received name s)
unfolding un_watch_received is_watched contains
un_watch_received-IsCovered name s c = record {
  covered = λ a. ground (
    arith,
    c.covered a,
    drop_below-registered name (keys s.registered_nodes) s.registered_nodes a,
  );
}

load_all-IsCovered :
    (m : Dict Bytes RegisteredNodeInfo) (s : Nodes) → IsCovered s → IsCovered (load_all m s)
unfolding load_all
load_all-IsCovered [] s c = c
load_all-IsCovered (entry ∷ m) s c =
    load_all-IsCovered m (load_node entry s) (load_node-IsCovered entry s c)

load_copy-IsCovered :
    (opens : Bool) (saved : Option (Dict Bytes RegisteredNodeInfo)) (s : Nodes)
    → IsCovered s
    → let r : Bool × Nodes =
        if opens
        then (elim saved [ none ↦ (false, s) | some m ↦ (true, load_all m s) ])
        else (false, s) in
      IsCovered r.1
load_copy-IsCovered false saved s c = c
load_copy-IsCovered true none s c = c
load_copy-IsCovered true (some m) s c = load_all-IsCovered m s c

pub load_stored-IsCovered :
    (s : Nodes) → IsCovered s → IsCovered (load_registered_nodes_from_disk s).1
unfolding load_registered_nodes_from_disk
load_stored-IsCovered s c = load_copy-IsCovered s.db_opens s.saved s c

-- What happens to the nodes: a call for a setting, the loading of the copy on disk and its writing, a
-- goroutine that enters its item, a directive to stop.
pub data Op : Type 0 where
  touch : Bool → ℕ → Bytes → Op
  load : Op
  save : Op
  starts : ℕ → Bytes → Op
  un_watch : Bytes → Op

pub run_op : Op → Nodes → Nodes
run_op (touch run_as_bi now name) s = (touch_dynamic_node run_as_bi now name s).1
run_op load s = (load_registered_nodes_from_disk s).1
run_op save s = (save_registered_nodes_to_disk s).1
run_op (starts now name) s = watch_item_starts now name s
run_op (un_watch name) s = un_watch_received name s

pub run_ops : List Op → Nodes → Nodes
run_ops [] s = s
run_ops (o ∷ os) s = run_ops os (run_op o s)

run_op-IsCovered : (o : Op) (s : Nodes) → IsCovered s → IsCovered (run_op o s)
unfolding run_op
run_op-IsCovered (touch run_as_bi now name) s c =
    touch_node-IsCovered run_as_bi now name s (lookup name s.registered_nodes) refl c
run_op-IsCovered load s c = load_stored-IsCovered s c
run_op-IsCovered save s c = save-IsCovered s c
run_op-IsCovered (starts now name) s c = watch_item_starts-IsCovered now name s c
run_op-IsCovered (un_watch name) s c = un_watch_received-IsCovered name s c

-- If a goroutine listens for the root of every registered setting, or was started that will, or hangs behind
-- a directive to stop, then this stays so whatever happens: a root has lost its watcher only by such a
-- directive.
pub run_ops-IsCovered : (os : List Op) (s : Nodes) → IsCovered s → IsCovered (run_ops os s)
unfolding run_ops
run_ops-IsCovered [] s c = c
run_ops-IsCovered (o ∷ os) s c = run_ops-IsCovered os (run_op o s) (run_op-IsCovered o s c)
