-- ===== src/Watcher/Examples.antt =====
-- Concrete runs of configwatcher/.
use dove.Base.{
  ◌+◌, ◌-◌, ◌*◌, ◌/◌, ◌≤◌, ◌<◌, ◌≡◌, refl, ◌≢◌, ◌⊎◌, true, false, ◌&&◌, Option, none, some, List,
  [], ◌∷◌, ◌++◌, map, length, All, Bytes, codes, bytes_beq, nat_eq, bytes_eq, contains,
}
use dove.Base.Dict.{Dict, lookup, insert}
use dove.Storage.{get_from_mem}
use dove.Storage.Disk.{Disk}
use dove.Callbacks.{initial}
use dove.Util.Json.{entry, no_key, text}
use dove.Projconfig.Local.{Env, Values, get_from_disk}
use dove.Projconfig.Server.{
  Reply, configuration, number, absent, no_connection, no_metadata, text as text_field,
}
use dove.Base.Text.{fields, join}
use dove.Callbacks.{Pending, callback_scripts, get_customize_callbacks, get_updated_nodes}
use dove.Watcher.Invoke.{invoke_callback_scripts, noted, invoke_callback_scripts-commands}
use dove.Watcher.Debounce.{
  Stamps, requested, received, run, req_callback, has_lock_of_exec_callback,
  has_lock_of_exec_callback-run, is_nil, requests,
}
use dove.Watcher.UpdateLock.{Counter, Run, start, accepted, entered, get_update_lock, Run-refused}
use dove.Watcher.NewValue.{get_new_value_of_config}
use dove.Watcher.Recheck.{Recheck, will_update, add_to_recheck_queue, Run-added, added}
use dove.Watcher.Update.{Outside, Watcher, Pass, first_pass, update_by_root_node}
use dove.Watcher.Update.Forced.{update_by_root_node-forced}
use dove.Watcher.Update.Fetched.{IsFetched}
use dove.Watcher.Update.Store.{update_by_root_node-stored}
use dove.Watcher.Nodes.{Nodes}
use dove.Watcher.Nodes.Reachable.{Op, touch, starts, load, run_ops, run_ops-IsCovered}
use dove.Watcher.Nodes.Registered.{IsCovered, will_watch, is_covered}
use dove.Watcher.Nodes.{root_of}
use dove.Schema.{root_node, trim_item}
use dove.Watcher.Start.{start-watches}
use dove.Watcher.SchemaUpdate.{World, update_by_schemafile}
use dove.Watcher.SchemaUpdate.Watched.{update_by_schemafile-watches}
use dove.Watcher.Gc.{nodes_to_be_kicked, values_of, threshold_gc_item}
use dove.Watcher.Gc.Kicked.{nodes_to_be_kicked_lem}

abbrev host : Bytes
host = codes "mysql.host"

abbrev mysql : Bytes
mysql = codes "mysql"

-- A second task of a name waits for the first one, and a third one is turned away.
abbrev two : Counter
two = (mysql, 2) ∷ []

two_tasks : Run mysql 1 1 two
unfolding get_update_lock lookup insert bytes_beq dove.Watcher.UpdateLock.counted
two_tasks = accepted (entered (accepted start refl)) refl

Run-refused_example : 0 < 1
unfolding get_update_lock lookup bytes_beq dove.Watcher.UpdateLock.counted
Run-refused_example = Run-refused mysql 1 1 two two_tasks refl

abbrev env : Env
env = record {
  mode = record {
    accepts = λ key. true;
    crypt_blocks = λ key iv s. s;
    decrypt_blocks = λ key iv s. s;
  };
  encryptor = record { iv = codes "12345678"; key = codes "k" };
  encrypt_enable = false;
  encrypt_ver = 1;
  dev_mode = false;
  load = λ s. some (entry (codes "host") (text s) no_key);
  show = λ t. [];
}

-- The disk holds what the server holds.
abbrev values : Values
values = record {
  memory = record { project_configs = []; raw_config = [] };
  handle = record {
    db = some (record {
      entries = (host, codes "db1") ∷ [];
      is_closed = false;
      locked = false;
      opens = [];
    });
    initialized = true;
  };
  stored = [];
  opens = [];
}

abbrev reply_with : Bytes → Reply
reply_with s =
    configuration (record { encrypted = absent; state = number 1; encrypt_ver = absent })
      (text_field s)

abbrev empty_recheck : Recheck
empty_recheck = record { queued = []; failed = []; sleeping = [] }

Run-added_example : will_update mysql (add_to_recheck_queue mysql empty_recheck) ≡ true
Run-added_example = Run-added empty_recheck mysql dove.Watcher.Recheck.start

abbrev queued_recheck : Recheck
queued_recheck = record { queued = mysql ∷ []; failed = []; sleeping = [] }

abbrev sleeping_recheck : Recheck
sleeping_recheck = record { queued = []; failed = mysql ∷ []; sleeping = mysql ∷ [] }

queued_run : dove.Watcher.Recheck.Run queued_recheck
unfolding add_to_recheck_queue contains
queued_run = added mysql dove.Watcher.Recheck.start

abbrev outside : Outside
outside = record {
  env = env;
  reply = λ name. reply_with (codes "db2");
  debug = λ name path. none;
  compile = λ m path v. (some false, v);
}

abbrev files : List (Bytes × Option Bytes)
files = (codes "/app/mysql.schema.php", some (codes "\"#{mysql.host}\"")) ∷ []

abbrev watcher : Watcher
watcher = record { values = values; pending = initial; recheck = empty_recheck }

abbrev behind_update : Option (Pass × Watcher) → Pass × Watcher
behind_update none = (first_pass, watcher)
behind_update (some r) = r

abbrev one_update : Pass × Watcher
one_update = behind_update (update_by_root_node outside mysql false files [] watcher)

update_by_root_node-stored_example :
    (json : Option Bytes) × (lookup host one_update.0.serialized ≡ some json)
    × IsFetched outside host json
    × (get_from_mem host one_update.1.values.memory ≡ json)
    × (contains one_update.1.pending.updated_nodes host ≡ true)
unfolding update_by_root_node contains dove.Watcher.Update.schema_step dove.Schema.parse_items
    dove.Util.append_all_missing dove.Schema.find_all dove.Base.Text.has_prefix
    dove.Util.append_missing dove.Watcher.Update.item_step bytes_beq dove.Schema.trim_item
    dove.Base.Text.trim dove.Util.exists_in_map lookup get_new_value_of_config get_from_disk
    dove.Storage.Disk.get_db dove.Storage.Disk.get insert dove.Base.Text.trim_left
    dove.Base.Text.trim_right dove.Callbacks.add_updated_nodes
    dove.Projconfig.Server.get_from_server dove.Projconfig.Server.content_of_configuration
    dove.Schema.is_name dove.Schema.is_name_byte dove.Schema.is_word dove.Schema.match_placeholder
    dove.Schema.name_run dove.Watcher.NewValue.json_of dove.Util.Json.toml_config_value_to_json
    dove.Encrypt.encrypt dove.Util.in_array_string dove.Base.Text.has_suffix
update_by_root_node-stored_example =
    update_by_root_node-stored outside mysql false files [] watcher one_update.1 one_update.0 host
      refl refl refl

abbrev one_file : Bytes
one_file = codes "/app/db.schema.toml"

abbrev one_item : Option Bytes
one_item = some (codes "host = \"#{mysql.host}\"")

abbrev forced_update : Pass × Watcher
forced_update =
    behind_update
      (update_by_root_node outside (codes "*") true ([] ++ (one_file, one_item) ∷ []) [] watcher)

update_by_root_node-forced_example :
    contains forced_update.1.pending.updated_schema_files one_file ≡ true
unfolding update_by_root_node contains dove.Watcher.Update.schema_step dove.Schema.parse_items
    dove.Util.append_all_missing dove.Schema.find_all dove.Base.Text.has_prefix
    dove.Util.append_missing dove.Watcher.Update.item_step bytes_beq dove.Schema.trim_item
    dove.Base.Text.trim dove.Util.exists_in_map lookup get_new_value_of_config get_from_disk
    dove.Storage.Disk.get_db dove.Storage.Disk.get insert dove.Base.Text.trim_left
    dove.Base.Text.trim_right dove.Callbacks.add_updated_nodes
    dove.Projconfig.Server.get_from_server dove.Projconfig.Server.content_of_configuration
    dove.Schema.is_name dove.Schema.is_name_byte dove.Schema.is_word dove.Schema.match_placeholder
    dove.Schema.name_run dove.Watcher.NewValue.json_of dove.Util.Json.toml_config_value_to_json
    dove.Encrypt.encrypt dove.Util.in_array_string dove.Base.Text.has_suffix
update_by_root_node-forced_example =
    update_by_root_node-forced outside (codes "*") [] [] one_file one_item (host ∷ []) [] watcher
      forced_update.1 forced_update.0 refl refl refl

abbrev offline : Outside
offline = record outside { reply = λ name. no_connection }

one_failed :
    length (behind_update (update_by_root_node offline mysql false files [] watcher)).0.failed_items
    ≡ 1
unfolding update_by_root_node dove.Projconfig.Config.is_panic contains
    dove.Watcher.Update.schema_step dove.Schema.parse_items dove.Util.append_all_missing
    dove.Schema.find_all dove.Base.Text.has_prefix dove.Util.append_missing
    dove.Watcher.Update.item_step bytes_beq dove.Schema.trim_item dove.Base.Text.trim
    dove.Util.exists_in_map lookup get_new_value_of_config get_from_disk dove.Storage.Disk.get_db
    dove.Storage.Disk.get insert dove.Base.Text.trim_left dove.Base.Text.trim_right
    dove.Callbacks.add_updated_nodes dove.Projconfig.Server.get_from_server
    dove.Projconfig.Server.content_of_configuration dove.Schema.is_name dove.Schema.is_name_byte
    dove.Schema.is_word dove.Schema.match_placeholder dove.Schema.name_run
    dove.Watcher.NewValue.json_of dove.Util.Json.toml_config_value_to_json dove.Encrypt.encrypt
    dove.Util.in_array_string
one_failed = refl

-- The server gives no metadata, and the process is gone.
panics_run :
    update_by_root_node
      (record outside { reply = λ name. no_metadata })
      mysql
      false
      files
      []
      watcher
    ≡ none
unfolding update_by_root_node contains dove.Watcher.Update.schema_step dove.Schema.parse_items
    dove.Util.append_all_missing dove.Schema.find_all dove.Base.Text.has_prefix
    dove.Util.append_missing dove.Watcher.Update.item_step bytes_beq dove.Schema.trim_item
    dove.Base.Text.trim dove.Util.exists_in_map lookup get_new_value_of_config get_from_disk
    dove.Storage.Disk.get_db dove.Storage.Disk.get insert dove.Base.Text.trim_left
    dove.Base.Text.trim_right dove.Callbacks.add_updated_nodes
    dove.Projconfig.Server.get_from_server dove.Projconfig.Server.content_of_configuration
    dove.Schema.is_name dove.Schema.is_name_byte dove.Schema.is_word dove.Schema.match_placeholder
    dove.Schema.name_run dove.Watcher.NewValue.json_of dove.Util.Json.toml_config_value_to_json
    dove.Projconfig.Config.is_panic dove.Encrypt.encrypt dove.Util.in_array_string
    dove.Base.Text.has_suffix
panics_run = refl

abbrev no_nodes : Nodes
no_nodes = record {
  registered_nodes = [];
  watch_list = [];
  starting = [];
  stuck = [];
  saved = none;
  db_opens = true;
  db_writes = true;
}

no_nodes-IsCovered : IsCovered no_nodes
unfolding lookup
no_nodes-IsCovered = record { covered = λ a. refl }

abbrev ops : List Op
ops = touch false 5 host ∷ starts 6 mysql ∷ touch false 7 host ∷ load ∷ []

run_ops-IsCovered_example : IsCovered (run_ops ops no_nodes)
run_ops-IsCovered_example = run_ops-IsCovered ops no_nodes no_nodes-IsCovered

abbrev host_item : Bytes
host_item = codes "\"#{mysql.host}\""

abbrev started : Nodes
started = elim (dove.Watcher.Start.start outside true files watcher no_nodes) [
  | none ↦ no_nodes
  | some r ↦ r.2
]

abbrev started_watcher : Watcher
started_watcher = elim (dove.Watcher.Start.start outside true files watcher no_nodes) [
  | none ↦ watcher
  | some r ↦ r.1
]

start-watches_example :
    (will_watch (root_node (trim_item host_item)) started ≡ true)
    × IsCovered started
    × (started.stuck ≡ [])
unfolding dove.Watcher.Nodes.load_registered_nodes_from_disk dove.Watcher.Start.start
    dove.Schema.get_all_schema_items dove.Schema.parse_item_placeholders update_by_root_node
    contains dove.Watcher.Update.schema_step dove.Schema.parse_items dove.Util.append_all_missing
    dove.Schema.find_all dove.Base.Text.has_prefix dove.Util.append_missing
    dove.Watcher.Update.item_step bytes_beq dove.Schema.trim_item dove.Base.Text.trim
    dove.Util.exists_in_map lookup get_new_value_of_config get_from_disk dove.Storage.Disk.get_db
    dove.Storage.Disk.get insert dove.Base.Text.trim_left dove.Base.Text.trim_right
    dove.Callbacks.add_updated_nodes dove.Projconfig.Server.get_from_server
    dove.Projconfig.Server.content_of_configuration dove.Schema.is_name dove.Schema.is_name_byte
    dove.Schema.is_word dove.Schema.match_placeholder dove.Schema.name_run
    dove.Watcher.NewValue.json_of dove.Util.Json.toml_config_value_to_json dove.Encrypt.encrypt
    dove.Util.in_array_string dove.Base.Text.has_suffix
start-watches_example =
    start-watches outside files watcher started_watcher no_nodes started host_item refl refl
      no_nodes-IsCovered refl

abbrev some_nodes : Nodes
some_nodes = record {
  registered_nodes = (host, record { name = host; last_access_time = 100; reg_time = 5 }) ∷ [];
  watch_list = (mysql, record { reg_time = 6; state = 1; un_watch = false }) ∷ [];
  starting = [];
  stuck = [];
  saved = none;
  db_opens = true;
  db_writes = true;
}

abbrev schema_outside : dove.Watcher.SchemaUpdate.Outside
schema_outside = record {
  env = env;
  reply = λ name. reply_with (codes "db2");
  debug = λ name path. none;
  compile_toml = λ m path v. (some false, v);
  compile_php = λ m path v. (some false, v);
}

abbrev world : World
world = record { values = values; queue = []; nodes = no_nodes; pending = initial }

abbrev schema_path : Bytes
schema_path = codes "/app/mysql.schema.php"

abbrev schema_text : Option Bytes
schema_text = some (codes "\"#{mysql.host}\"")

abbrev world_after : World
world_after = elim (update_by_schemafile schema_outside schema_path schema_text world) [
  | none ↦ world
  | some r ↦ r.1
]

update_by_schemafile-watches_example :
    All (λ name. is_covered (root_of name) world_after.nodes ≡ true) (host ∷ [])
unfolding dove.Watcher.SchemaUpdate.died update_by_schemafile dove.Watcher.SchemaUpdate.item_step
    dove.Watcher.Nodes.add_to_watch_list dove.Watcher.Nodes.is_watched dove.Base.Text.first
    dove.Base.Text.split contains dove.Watcher.Update.schema_step dove.Schema.parse_items
    dove.Util.append_all_missing dove.Schema.find_all dove.Base.Text.has_prefix
    dove.Util.append_missing dove.Watcher.Update.item_step bytes_beq dove.Schema.trim_item
    dove.Base.Text.trim dove.Util.exists_in_map lookup get_new_value_of_config get_from_disk
    dove.Storage.Disk.get_db dove.Storage.Disk.get insert dove.Base.Text.trim_left
    dove.Base.Text.trim_right dove.Callbacks.add_updated_nodes
    dove.Projconfig.Server.get_from_server dove.Projconfig.Server.content_of_configuration
    dove.Schema.is_name dove.Schema.is_name_byte dove.Schema.is_word dove.Schema.match_placeholder
    dove.Schema.name_run dove.Watcher.NewValue.json_of dove.Util.Json.toml_config_value_to_json
    dove.Encrypt.encrypt dove.Util.in_array_string dove.Base.Text.has_suffix
update_by_schemafile-watches_example =
    update_by_schemafile-watches schema_outside schema_path schema_text world world_after
      (host ∷ []) (false, none) refl refl

nodes_to_be_kicked_lem_example :
    ((a : Bytes)
      → (contains (mysql ∷ []) a && contains (nodes_to_be_kicked 900 (mysql ∷ []) some_nodes) a)
        ≡ false)
    × All
        (λ info.
          (contains
              (nodes_to_be_kicked 900 (mysql ∷ []) some_nodes)
              (dove.Watcher.Nodes.root_of info.name)
            ≡ false)
          ⊎ (threshold_gc_item ≤ 900 - info.last_access_time))
        (values_of some_nodes.registered_nodes)
nodes_to_be_kicked_lem_example = nodes_to_be_kicked_lem 900 (mysql ∷ []) some_nodes

abbrev no_stamps : Stamps
no_stamps = record { callback_req_chan = []; last_req_time = 0; report_time_tag = 0 }

-- A task that asks at 5 and sleeps while another asks at 6.
overtaken_events :
    (run (received ∷ requested 6 ∷ received ∷ []) (req_callback 5 no_stamps)).callback_req_chan ≡ []
unfolding run req_callback
overtaken_events = refl

has_lock_of_exec_callback-run_example :
    has_lock_of_exec_callback 5
      (run (received ∷ requested 6 ∷ received ∷ []) (req_callback 5 no_stamps))
    ≡ is_nil (requests (received ∷ requested 6 ∷ received ∷ []))
unfolding contains
has_lock_of_exec_callback-run_example =
    has_lock_of_exec_callback-run 5 no_stamps (received ∷ requested 6 ∷ received ∷ []) refl
      overtaken_events

abbrev two_nodes : Pending
two_nodes = record {
  updated_schema_files = [];
  updated_nodes = codes "db" ∷ codes "cache" ∷ [];
  schema_to_nodes = [];
}

abbrev silent : List Bytes → Bytes × Option Bytes
silent command = ([], none)

reload_is_no_blank :
    All (λ script. fields script ≢ []) (callback_scripts (codes "sh reload.sh" ∷ []) [] two_nodes).0
unfolding callback_scripts get_customize_callbacks dove.Callbacks.apply_rules fields join
reload_is_no_blank = (λ e. absurd (cc e), tt)

invoke_callback_scripts-commands_example :
    (d : Dict Bytes Bytes) × (invoke_callback_scripts
        (noted silent)
        (codes "sh reload.sh" ∷ [])
        []
        two_nodes
        []
      ≡ (
        some d,
        (get_customize_callbacks [] two_nodes).1,
        []
            ++ (map
                  (λ script.
                    fields script ++ fields (join (get_updated_nodes two_nodes) (codes ",")))
                  (codes "sh reload.sh" ∷ [])
                ++ map fields (get_customize_callbacks [] two_nodes).0),
      ))
invoke_callback_scripts-commands_example =
    invoke_callback_scripts-commands silent (codes "sh reload.sh" ∷ []) [] two_nodes []
      reload_is_no_blank

reload_run :
    fields (codes "sh reload.sh") ++ fields (join (get_updated_nodes two_nodes) (codes ","))
    ≡ codes "sh" ∷ codes "reload.sh" ∷ codes "db,cache" ∷ []
unfolding fields join
reload_run = refl
