-- ===== src/Watcher/SchemaUpdate.antt =====
-- `updateProjectConfigBySchemafile` and `compile` of configwatcher/zk_watcher.go: the update behind a
-- change of a schema file. What compiles a file of a known type is an argument.
pub mod Watched
use dove.Base.{
  ◌+◌, Bool, true, false, not, ◌&&◌, Option, none, some, List, [], ◌∷◌, ◌++◌, if◌then◌else◌, Bytes,
  codes, nat_eq, bytes_eq, Result, ok, err,
}
use dove.Base.Dict.{Dict, insert}
use dove.Base.Text.{has_suffix}
use dove.Schema.{parse_items}
use dove.Storage.{store_to_mem}
use dove.Callbacks.{
  Pending, add_updated_nodes, add_updated_schemafiles, update_schema_nodes_and_diff,
}
use dove.Projconfig.FetchLock.{Queue}
use dove.Projconfig.Local.{Env, Values, ValueError, save_to_disk}
use dove.Projconfig.Server.{Reply}
use dove.Projconfig.Config.{is_panic, get_config}
use dove.Watcher.NewValue.{NewValue, get_new_value_of_config}
use dove.Watcher.Nodes.{Nodes, root_of, add_to_watch_list}
use dove.Watcher.Recheck.{Recheck, add_to_schema_recheck_queue}

-- `compile_toml` and `compile_php` take the values and the file, and say whether they failed; `none` is a
-- panic.
pub record Outside : Type 0 where
  pub env : Env
  pub reply : Bytes → Reply
  pub debug : Bytes → Bytes → Option (Bytes × Bytes)
  pub compile_toml : Dict Bytes (Option Bytes) → Bytes → Values → Option Bool × Values
  pub compile_php : Dict Bytes (Option Bytes) → Bytes → Values → Option Bool × Values

-- What the update works on.
pub record World : Type 0 where
  pub values : Values
  pub queue : Queue
  pub nodes : Nodes
  pub pending : Pending

-- A file of a known type is noted for the callbacks, whether its compilation fails or not.
unfoldable pub compile : Outside → Dict Bytes (Option Bytes) → Bytes → World → Option Bool × World
compile o item_values path w =
    let noted = add_updated_schemafiles path w.pending in
    if has_suffix path (codes ".schema.toml")
    then (let (failed, v) = o.compile_toml item_values path w.values in
        (failed, record w { values = v; pending = noted }))
    else if has_suffix path (codes ".schema.php")
    then (let (failed, v) = o.compile_php item_values path w.values in
        (failed, record w { values = v; pending = noted }))
    else (some true, w)

-- The variables of the loop: `c_err` is the error of the latest item only.
pub record Items : Type 0 where
  pub new_nodes : List Bytes
  pub item_values : Dict Bytes (Option Bytes)
  pub c_err : Option ValueError

-- `itemValues[name] = itemValue`, when there is no error.
with_value : Bytes → Result ValueError (Option Bytes) → Items → Items
with_value name (ok re) s = record s { item_values = insert name re s.item_values; c_err = none }
with_value name (err e) s = record s { c_err = some e }

new_value_result : NewValue → Result ValueError (Option Bytes)
new_value_result nv = elim nv.c_err [ none ↦ ok nv.value_serialized | some e ↦ err e ]

is_new : NewValue → Bool
is_new nv = elim nv.c_err [ some e ↦ false | none ↦ nv.has_update && not nv.is_debug_value ]

value_debug : Env → Option (Bytes × Bytes) → Option Bytes
value_debug env none = none
value_debug env (some d) = if env.dev_mode then some d.0 else none

-- An item of a watched root comes from where `GetConfig` finds it.
watched_item : Outside → Bytes → Bytes → Items × World → Items × World
unfolding with_value value_debug
watched_item o path name (s, w) =
    let (re, v, q) =
      get_config o.env (o.reply name) (value_debug o.env (o.debug name path)) false 0 0 name
        w.values w.queue in
    (with_value name re s, record w { values = v; queue = q })

-- An item of another root is fetched, and a new value is kept.
new_item : Outside → Bytes → Bytes → Items × World → Items × World
unfolding with_value new_value_result is_new
new_item o path name (s, w) =
    let (nv, v) = get_new_value_of_config o.env (o.reply name) (o.debug name path) name w.values in
    let stored : Values =
      (save_to_disk o.env name nv.value_plain
        (record v { memory = store_to_mem name nv.value_serialized v.memory })).1 in
    (
      with_value name (new_value_result nv)
          (if is_new nv then record s { new_nodes = s.new_nodes ++ name ∷ [] } else s),
      record w { values = if is_new nv then stored else v },
    )

-- The error of the latest item is a panic, which nothing recovers: the process is gone.
unfoldable pub died : Items → Bool
died s = elim s.c_err [ none ↦ false | some e ↦ is_panic e ]

unfoldable pub item_step : Outside → Bytes → Bytes → Items × World → Items × World
unfolding watched_item new_item
item_step o path name (s, w) =
    let (has_been_watching, nodes) = add_to_watch_list (root_of name) w.nodes in
    let w' = record w { nodes = nodes } in
    if died s
    then (s, w)
    else if has_been_watching
    then watched_item o path name (s, w')
    else new_item o path name (s, w')

unfoldable pub items_loop : Outside → Bytes → List Bytes → Items × World → Items × World
items_loop o path [] sw = sw
items_loop o path (name ∷ names) sw = items_loop o path names (item_step o path name sw)

-- The update up to its goroutine: whether the file could not be parsed or compiled, the error of the
-- last item, and the state; `none` is a panic, behind which nothing runs.
unfoldable pub update_by_schemafile :
    Outside → Bytes → Option Bytes → World → Option ((Bool × Option ValueError) × World)
unfolding items_loop compile
update_by_schemafile o path content w = elim (parse_items content) [
  | none ↦ some ((true, none), w)
  | some items ↦
      let (new_nodes, pending) = update_schema_nodes_and_diff path items w.pending in
      let (s, w1) = items_loop o path items (
        record { new_nodes = new_nodes; item_values = []; c_err = none },
        record w { pending = pending },
      ) in
      let (failed, w2) = compile o s.item_values path w1 in
      if died s then none else elim failed [
        | none ↦ none
        | some f ↦
            some ((f, s.c_err), record w2 { pending = add_updated_nodes s.new_nodes w2.pending })
      ]
]

-- The goroutine behind it, once it has the lock of the callbacks: they are invoked when the file was
-- compiled, and the file is queued again after an error.
unfoldable pub finish_schemafile :
    Bytes → Bool → Bool × Option ValueError → Recheck → Bool × Recheck
finish_schemafile path lock_of_exec_callback (failed, c_err) r =
    if not lock_of_exec_callback then (false, r) else (
      not failed,
      if failed
          then add_to_schema_recheck_queue path r
          else (elim c_err [ none ↦ r | some e ↦ add_to_schema_recheck_queue path r ]),
    )
