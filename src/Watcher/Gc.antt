-- ===== src/Watcher/Gc.antt =====
-- Which watchers are given up: one round of `gcWatcher` of configwatcher/gc_watcher.go. The time and
-- the root nodes of the schema files are arguments.
pub mod Kicked
pub mod LastAccess
use dove.Base.{
  ℕ, ◌-◌, true, not, ◌&&◌, Option, none, some, List, [], ◌∷◌, ◌++◌, ltb, leb, if◌then◌else◌, Bytes,
  nat_eq, bytes_eq, contains,
}
use dove.Base.Dict.{Dict, keys, lookup, insert}
use dove.Util.{in_array_string}
use dove.Watcher.Nodes.{RegisteredNodeInfo, Nodes, root_of, is_watched}

abbrev pub threshold_gc_item : ℕ
threshold_gc_item = 600

-- The values of a Go map, in the order of `range`.
abbrev pub values_of : Dict Bytes RegisteredNodeInfo → List RegisteredNodeInfo
values_of [] = []
values_of (entry ∷ m) = entry.1 ∷ values_of m

-- The last access of a root is the latest of those of the settings below it.
pub last_access_step : RegisteredNodeInfo → Dict Bytes ℕ → Dict Bytes ℕ
last_access_step info m = elim (lookup (root_of info.name) m) [
  | none ↦ insert (root_of info.name) info.last_access_time m
  | some l ↦
      if ltb l info.last_access_time then insert (root_of info.name) info.last_access_time m else m
]

unfoldable pub roots_last_access : List RegisteredNodeInfo → Dict Bytes ℕ → Dict Bytes ℕ
roots_last_access [] m = m
roots_last_access (info ∷ infos) m = roots_last_access infos (last_access_step info m)

-- The roots that were registered by a call and are not used any more.
unfoldable pub expired_loop : ℕ → List Bytes → Nodes → List Bytes → Dict Bytes ℕ → List Bytes
expired_loop t schema_items s kicked [] = kicked
expired_loop t schema_items s kicked (entry ∷ m) =
    expired_loop t schema_items s
      (if not (is_watched entry.0 s)
        then kicked
        else if leb threshold_gc_item (t - entry.1) && not (in_array_string schema_items entry.0)
        then kicked ++ entry.0 ∷ []
        else kicked)
      m

-- The roots that neither a schema file nor a registered setting needs.
unfoldable pub unneeded_loop :
    List Bytes → Dict Bytes ℕ → Nodes → List Bytes → List Bytes → List Bytes
unneeded_loop schema_items last s kicked [] = kicked
unneeded_loop schema_items last s kicked (root ∷ roots) =
    unneeded_loop schema_items last s
      (if not (is_watched root s)
        then kicked
        else if not (contains (keys last) root)
            && not (in_array_string kicked root)
            && not (in_array_string schema_items root)
        then kicked ++ root ∷ []
        else kicked)
      roots

unfoldable pub nodes_to_be_kicked : ℕ → List Bytes → Nodes → List Bytes
unfolding roots_last_access expired_loop unneeded_loop
nodes_to_be_kicked t schema_items s =
    let last = roots_last_access (values_of s.registered_nodes) [] in
    unneeded_loop schema_items last s (expired_loop t schema_items s [] last) (keys s.watch_list)

-- The directive goes into the channel of the root, which has one place: a full one makes the
-- collector wait for ever, since the goroutine of the root does not read it again.
unfoldable pub kick : Bytes → Nodes → Option Nodes
kick root s = elim (lookup root s.watch_list) [
  | none ↦ none
  | some info ↦
      if info.un_watch
      then none
      else some
          (record s { watch_list = insert root (record info { un_watch = true }) s.watch_list })
]

unfoldable pub kick_all : List Bytes → Nodes → Option Nodes
kick_all [] s = some s
kick_all (root ∷ roots) s = elim (kick root s) [ none ↦ none | some s' ↦ kick_all roots s' ]

unfoldable pub gc_round : ℕ → List Bytes → Nodes → Option Nodes
unfolding nodes_to_be_kicked kick_all
gc_round t schema_items s = kick_all (nodes_to_be_kicked t schema_items s) s
