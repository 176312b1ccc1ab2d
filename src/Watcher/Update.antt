-- ===== src/Watcher/Update.antt =====
-- `updateProjectConfigByRootNode` of configwatcher/zk_watcher.go. The answers of the server, the values
-- of debug files, the contents of the schema files and the compilation of a file are arguments.
pub mod Collected
pub mod Fetched
pub mod Forced
pub mod Store
use dove.Base.{
  ◌+◌, ◌*◌, Bool, true, false, not, ◌&&◌, ◌||◌, Option, none, some, List, [], ◌∷◌, ◌++◌, ltb,
  if◌then◌else◌, length, Bytes, codes, bytes_beq, nat_eq, bytes_eq, ok, err,
}
use dove.Base.Dict.{Dict, insert}
use dove.Base.Text.{has_prefix, has_suffix}
use dove.Util.{in_array_string, append_missing, exists_in_map}
use dove.Schema.{parse_items}
use dove.Storage.{store_to_mem}
use dove.Storage.Disk.{Disk, put}
use dove.Callbacks.{Pending, add_updated_schemafiles, add_updated_nodes}
use dove.Projconfig.Local.{Env, Values, get_local_storage, store_disk}
use dove.Projconfig.Server.{Reply}
use dove.Projconfig.Config.{is_panic}
use dove.Watcher.NewValue.{NewValue, get_new_value_of_config}
use dove.Watcher.Recheck.{Recheck, add_to_recheck_queue}

-- What an update meets: for a name, the server's answer, and for a name and a schema file, the value
-- of the debug files with its TOML. `compile` is what compiles a file of a known type; it takes the
-- values and the file, says whether it failed, and may change what is kept, as it reads settings itself;
-- `none` is a panic.
pub record Outside : Type 0 where
  pub env : Env
  pub reply : Bytes → Reply
  pub debug : Bytes → Bytes → Option (Bytes × Bytes)
  pub compile : Dict Bytes (Option Bytes) → Bytes → Values → Option Bool × Values

-- The variables of the loops; `registered_has_update` is that of the second one. `panicked` says that there
-- was a panic, which nothing recovers: the process is gone, and nothing else is done.
pub record Pass : Type 0 where
  pub schema_contains_update : Bool
  pub has_update_overall : Bool
  pub registered_has_update : Bool
  pub encrypted : Dict Bytes Bytes
  pub plain : Dict Bytes Bytes
  pub serialized : Dict Bytes (Option Bytes)
  pub items_has_update : List Bytes
  pub failed_items : List Bytes
  pub debug_items : List Bytes
  pub parse_failed : Bool
  pub compile_failed : Bool
  pub compiled_files : List Bytes
  pub panicked : Bool

abbrev pub first_pass : Pass
first_pass = record {
  schema_contains_update = false;
  has_update_overall = false;
  registered_has_update = false;
  encrypted = [];
  plain = [];
  serialized = [];
  items_has_update = [];
  failed_items = [];
  debug_items = [];
  parse_failed = false;
  compile_failed = false;
  compiled_files = [];
  panicked = false;
}

is_none : {A : Type 0} → Option A → Bool
is_none none = true
is_none (some a) = false

-- The three maps get what was found, when there is no error.
unfoldable pub keep_value : Bytes → NewValue → Pass → Pass
unfolding is_none
keep_value item nv s =
    if is_none nv.c_err
    then record s {
      encrypted = insert item nv.value_encrypted s.encrypted;
      plain = insert item nv.value_plain s.plain;
      serialized = insert item nv.value_serialized s.serialized;
    }
    else s

unfoldable pub note_failure : Bytes → NewValue → Pass → Pass
unfolding is_none
note_failure item nv s =
    if not (is_none nv.c_err) || not nv.new_version_checked
    then record s { failed_items = s.failed_items ++ item ∷ [] }
    else s

unfoldable pub note_update : Bytes → NewValue → Pass → Pass
unfolding is_none
note_update item nv s =
    if is_none nv.c_err && nv.has_update
    then record s {
      items_has_update = append_missing s.items_has_update item;
      schema_contains_update = true;
      has_update_overall = true;
    }
    else s

unfoldable pub note_debug : Bytes → NewValue → Pass → Pass
unfolding is_none
note_debug item nv s =
    if is_none nv.c_err && nv.is_debug_value
    then record s { debug_items = append_missing s.debug_items item }
    else s

-- The root is "*", or the item's name starts with the root and a dot.
unfoldable pub concerns : Bytes → Bytes → Bool
concerns root item = bytes_beq root (codes "*") || has_prefix item (root ++ b'.' ∷ [])

unfoldable pub is_panic_of : NewValue → Bool
is_panic_of nv = elim nv.c_err [ none ↦ false | some e ↦ is_panic e ]

-- What is done with a value of an item of a schema file.
unfoldable pub note_item : Bytes → NewValue → Pass → Pass
unfolding keep_value note_failure note_update note_debug is_panic_of
note_item item nv s =
    if is_panic_of nv
    then record s { panicked = true }
    else note_failure item nv (note_debug item nv (note_update item nv (keep_value item nv s)))

unfoldable pub item_step : Outside → Bytes → Bytes → Bytes → Pass × Values → Pass × Values
unfolding note_item concerns
item_step o root path item (s, v) =
    let (nv, v') = get_new_value_of_config o.env (o.reply item) (o.debug item path) item v in
    if s.panicked
    then (s, v)
    else if in_array_string s.items_has_update item && not o.env.dev_mode
    then (record s { schema_contains_update = true }, v)
    else if o.env.dev_mode || (concerns root item && not (exists_in_map s.encrypted item))
    then (note_item item nv s, v')
    else (s, v)

unfoldable pub items_loop : Outside → Bytes → Bytes → List Bytes → Pass × Values → Pass × Values
items_loop o root path [] sv = sv
items_loop o root path (item ∷ items) sv =
    items_loop o root path items (item_step o root path item sv)

-- The files that `compile` knows how to compile.
unfoldable pub is_compilable : Bytes → Bool
is_compilable path = has_suffix path (codes ".schema.toml") || has_suffix path (codes ".schema.php")

-- A file is compiled when this is forced, or when one of its items has an update. A file of a known type
-- is noted for the callbacks, whether its compilation fails or not.
unfoldable pub compiled_as : Option Bool → Bytes → Pass → Pass
compiled_as none path s = record s { panicked = true }
compiled_as (some failed) path s = record s {
  compile_failed = failed;
  compiled_files = s.compiled_files ++ path ∷ [];
}

unfoldable pub compile_step : Outside → Bool → Bytes → Pass × Values → Pass × Values
unfolding is_compilable compiled_as
compile_step o force path (s, v) =
    let (failed, v') = o.compile s.serialized path v in
    if not s.panicked && (force || s.schema_contains_update)
    then (if is_compilable path
        then (compiled_as failed path s, v')
        else (record s { compile_failed = true }, v))
    else (s, v)

-- A schema file: its path and its content, if that can be read.
unfoldable pub schema_step :
    Outside → Bytes → Bool → Bytes × Option Bytes → Pass × Values → Pass × Values
unfolding items_loop compile_step
schema_step o root force (path, content) (s, v) =
    if s.panicked then (s, v) else elim (parse_items content) [
      | none ↦ (record s { schema_contains_update = false; parse_failed = true }, v)
      | some items ↦
          compile_step o force path
            (items_loop o root path items (record s { schema_contains_update = false }, v))
    ]

unfoldable pub schemas_loop :
    Outside → Bytes → Bool → List (Bytes × Option Bytes) → Pass × Values → Pass × Values
schemas_loop o root force [] sv = sv
schemas_loop o root force (file ∷ files) sv =
    schemas_loop o root force files (schema_step o root force file sv)

unfoldable pub note_registered : Bytes → NewValue → Pass → Pass
unfolding is_none
note_registered item nv s =
    if is_none nv.c_err
    then record s {
      registered_has_update = s.registered_has_update || nv.has_update;
      debug_items = if nv.is_debug_value then s.debug_items ++ item ∷ [] else s.debug_items;
    }
    else s

unfoldable pub note_registered_item : Bytes → NewValue → Pass → Pass
unfolding keep_value note_failure note_registered is_panic_of
note_registered_item item nv s =
    if is_panic_of nv
    then record s { panicked = true }
    else note_failure item nv (note_registered item nv (keep_value item nv s))

-- The loop over the settings that were registered by a call.
unfoldable pub registered_loop : Outside → Bytes → List Bytes → Pass × Values → Pass × Values
unfolding note_registered_item concerns
registered_loop o root [] sv = sv
registered_loop o root (item ∷ items) (s, v) =
    let (nv, v') = get_new_value_of_config o.env (o.reply item) (o.debug item []) item v in
    registered_loop o root items (
      if not s.panicked && (concerns root item && not (exists_in_map s.encrypted item))
      then (note_registered_item item nv s, v')
      else (s, v))

-- Values of debug files are not saved.
unfoldable pub is_saved : Bool → Pass → Bytes → Bool
is_saved dev_mode s item = not (dev_mode && in_array_string s.debug_items item)

unfoldable pub save_all : (Bytes → Bool) → Dict Bytes Bytes → Disk → Disk
save_all saved [] d = d
save_all saved (entry ∷ m) d =
    save_all saved m (if saved entry.0 then (put entry.0 entry.1 d).1 else d)

unfoldable pub store_all : (Bytes → Bool) → Dict Bytes (Option Bytes) → Values → Values
store_all saved [] v = v
store_all saved (entry ∷ m) v =
    store_all saved m
      (if saved entry.0 then record v { memory = store_to_mem entry.0 entry.1 v.memory } else v)

-- Both stores, when something has an update; without a database only the memory.
unfoldable pub persist : Outside → Pass → Values → Values
unfolding save_all store_all is_saved
persist o s v =
    let (opened, v') = get_local_storage v in
    let saved = is_saved o.env.dev_mode s in
    let m = if o.env.encrypt_enable then s.encrypted else s.plain in
    if s.has_update_overall || s.registered_has_update
    then store_all saved s.serialized
        (elim opened [ err e ↦ v' | ok d ↦ store_disk (save_all saved m d) v' ])
    else v

unfoldable pub note_all : List Bytes → Pending → Pending
note_all [] p = p
note_all (file ∷ files) p = note_all files (add_updated_schemafiles file p)

pub record Watcher : Type 0 where
  pub values : Values
  pub pending : Pending
  pub recheck : Recheck

-- The update up to its goroutine: the pass, and the state with the update stored, the root queued
-- again when an item failed, and the items noted for the callbacks; `none` is a panic.
unfoldable pub update_by_root_node :
    Outside
    → Bytes
    → Bool
    → List (Bytes × Option Bytes)
    → List Bytes
    → Watcher
    → Option (Pass × Watcher)
unfolding schemas_loop registered_loop persist note_all
update_by_root_node o root force files registered w =
    let (s, v) =
      registered_loop o root registered (schemas_loop o root force files (first_pass, w.values)) in
    if s.panicked
    then none
    else some (
      s,
      record {
        values = persist o s v;
        pending = add_updated_nodes s.items_has_update (note_all s.compiled_files w.pending);
        recheck =
            if ltb 0 (length s.failed_items)
            then add_to_recheck_queue root w.recheck
            else w.recheck;
      },
    )

-- Whether the goroutine invokes the callbacks: it asks for their lock, but the answer only changes
-- what is logged.
pub invokes_callbacks : Bool → Pass → Bool → Bool
invokes_callbacks force s lock_of_exec_callback = s.has_update_overall || force
