-- ===== src/Watcher/Nodes.antt =====
-- The nodes that are watched: the settings that were registered by a call, the watch list, and the
-- copy of the former on disk (configwatcher/zk_watcher.go). The locks make each operation one step.
pub mod Reachable
pub mod Registered
use dove.Base.{
  ℕ, Bool, true, false, Option, none, some, List, [], ◌∷◌, ltb, nat_beq, if◌then◌else◌, ◌==◌, Bytes,
  nat_eq, bytes_eq,
}
use dove.Base.Dict.{Dict, keys, lookup, insert, delete}
use dove.Base.Text.{split, first}

pub record RegisteredNodeInfo : Type 0 where
  pub name : Bytes
  pub last_access_time : ℕ
  pub reg_time : ℕ

-- `state` is 1 for an item that is watched; `un_watch` says that the channel holds the directive to
-- stop.
pub record WatchInfo : Type 0 where
  pub reg_time : ℕ
  pub state : ℕ
  pub un_watch : Bool

-- The package's variables; the roots for which a goroutine `watchItem` was started and has not
-- entered its item yet; the roots whose goroutine hangs behind a directive to stop, while the item stays
-- in the watch list; the copy on disk; and, as the environment has it, whether the database can be
-- had and whether writes to it succeed.
pub record Nodes : Type 0 where
  pub registered_nodes : Dict Bytes RegisteredNodeInfo
  pub watch_list : Dict Bytes WatchInfo
  pub starting : List Bytes
  pub stuck : List Bytes
  pub saved : Option (Dict Bytes RegisteredNodeInfo)
  pub db_opens : Bool
  pub db_writes : Bool

abbrev pub get_registered_node_info : Bytes → Nodes → Option RegisteredNodeInfo
get_registered_node_info name s = lookup name s.registered_nodes

abbrev pub set_registered_node_info : Bytes → RegisteredNodeInfo → Nodes → Nodes
set_registered_node_info name info s = record s {
  registered_nodes = insert name info s.registered_nodes;
}

abbrev pub delete_registered_node_info : Bytes → Nodes → Nodes
delete_registered_node_info name s = record s { registered_nodes = delete name s.registered_nodes }

-- strings.Split(name, ".")[0]
abbrev pub root_of : Bytes → Bytes
root_of name = first (split name b'.')

is_watched_info : Option WatchInfo → Bool
is_watched_info none = false
is_watched_info (some info) = nat_beq info.state 1

-- `exists && (*info).State == int8(1)`
unfoldable pub is_watched : Bytes → Nodes → Bool
unfolding is_watched_info
is_watched name s = is_watched_info (lookup name s.watch_list)

-- The result says whether the item is watched already; if not, a goroutine is started.
unfoldable pub add_to_watch_list : Bytes → Nodes → Bool × Nodes
unfolding is_watched
add_to_watch_list name s =
    if is_watched name s then (true, s) else (false, record s { starting = name ∷ s.starting })

remove_first : Bytes → List Bytes → List Bytes
remove_first x [] = []
remove_first x (y ∷ ys) = if y == x then ys else y ∷ remove_first x ys

remove_all : Bytes → List Bytes → List Bytes
remove_all x [] = []
remove_all x (y ∷ ys) = let rest = remove_all x ys in if y == x then rest else y ∷ rest

-- A goroutine `watchItem` enters its item, at the time given; from then on it listens for the item.
unfoldable pub watch_item_starts : ℕ → Bytes → Nodes → Nodes
unfolding remove_first remove_all
watch_item_starts now name s = record s {
  starting = remove_first name s.starting;
  stuck = remove_all name s.stuck;
  watch_list = insert name (record { reg_time = now; state = 1; un_watch = false }) s.watch_list;
}

-- The directive to stop: the settings below the root are registered no more. The goroutine then calls
-- `syncRegisteredNodesToDisk`, which loops for ever: it listens no more, and the item stays as it is.
drop_below : Bytes → List Bytes → Dict Bytes RegisteredNodeInfo → Dict Bytes RegisteredNodeInfo
drop_below root [] m = m
drop_below root (item ∷ items) m =
    drop_below root items (if root_of item == root then delete item m else m)

unfoldable pub un_watch_received : Bytes → Nodes → Nodes
unfolding drop_below
un_watch_received name s = record s {
  stuck = name ∷ s.stuck;
  registered_nodes = drop_below name (keys s.registered_nodes) s.registered_nodes;
}

-- An error of the write is assigned to a variable of the inner block, so that it is not reported.
unfoldable pub save_registered_nodes_to_disk : Nodes → Bool × Nodes
save_registered_nodes_to_disk s =
    if s.db_opens
    then (true, if s.db_writes then record s { saved = some s.registered_nodes } else s)
    else (false, s)

-- A setting that is asked for the first time is registered, and its root is watched. The result
-- says whether the name, not its root, was in the watch list, or had been registered before.
-- `run_as_bi` is a temporary instance, which watches nothing.
unfoldable pub touch_dynamic_node : Bool → ℕ → Bytes → Nodes → Bool × Nodes
unfolding is_watched add_to_watch_list save_registered_nodes_to_disk
touch_dynamic_node run_as_bi now name s =
    if run_as_bi then (true, s) else elim (get_registered_node_info name s) [
      | none ↦
          let s' =
            set_registered_node_info name
              (record { name = name; last_access_time = now; reg_time = now }) s in
          (
            is_watched name s',
            (save_registered_nodes_to_disk (add_to_watch_list (root_of name) s').1).1,
          )
      | some info ↦ (true, set_registered_node_info name (record info { last_access_time = now }) s)
    ]

-- What `LoadRegisteredNodesFromDisk` does with one entry of the stored JSON: the registration time
-- is read from the field of the last access, and a later access in memory is kept.
unfoldable pub load_node : Bytes × RegisteredNodeInfo → Nodes → Nodes
unfolding add_to_watch_list
load_node (name, stored) s =
    let last : ℕ = elim (get_registered_node_info name s) [
      | none ↦ stored.last_access_time
      | some info ↦
          if ltb stored.last_access_time info.last_access_time
          then info.last_access_time
          else stored.last_access_time
    ] in
    let s' =
      set_registered_node_info name
        (record { name = stored.name; last_access_time = last; reg_time = stored.last_access_time })
        s in
    (add_to_watch_list (root_of name) s').1

unfoldable pub load_all : Dict Bytes RegisteredNodeInfo → Nodes → Nodes
load_all [] s = s
load_all (entry ∷ m) s = load_all m (load_node entry s)

-- A database that cannot be had, or that holds no copy, is an error.
unfoldable pub load_registered_nodes_from_disk : Nodes → Bool × Nodes
unfolding load_all
load_registered_nodes_from_disk s =
    if s.db_opens
    then (elim s.saved [ none ↦ (false, s) | some m ↦ (true, load_all m s) ])
    else (false, s)
