-- ===== src/Handler/Examples.antt =====
-- A concrete request for a setting.
use dove.Base.{◌≡◌, refl, true, false, none, some, [], Bytes, codes, nat_eq, bytes_eq}
use dove.Base.Dict.{lookup}
use dove.Projconfig.Server.{no_connection}
use dove.Watcher.Nodes.{RegisteredNodeInfo}
use dove.Watcher.Nodes.Registered.{IsCovered}
use dove.Handler.{Daemon, Call, get_project_config}
use dove.Handler.Registers.{get_project_config-registered}

abbrev host : Bytes
host = codes "mysql.host"

abbrev daemon : Daemon
daemon = record {
  values = record {
    memory = record { project_configs = []; raw_config = [] };
    handle = record { db = none; initialized = false };
    stored = [];
    opens = [];
  };
  queue = [];
  nodes = record {
    registered_nodes = [];
    watch_list = [];
    starting = [];
    stuck = [];
    saved = none;
    db_opens = true;
    db_writes = true;
  };
}

abbrev call : Call
call = record {
  env = record {
    mode = record {
      accepts = λ key. true;
      crypt_blocks = λ key iv s. s;
      decrypt_blocks = λ key iv s. s;
    };
    encryptor = record { iv = codes "12345678"; key = codes "k" };
    encrypt_enable = false;
    encrypt_ver = 1;
    dev_mode = false;
    load = λ s. none;
    show = λ t. [];
  };
  run_as_bi = false;
  reply = λ name. no_connection;
  debug = λ name. none;
  now = 5;
  later = 6;
}

no_nodes-IsCovered : IsCovered daemon.nodes
unfolding lookup
no_nodes-IsCovered = record { covered = λ a. refl }

get_project_config-registered_example :
    (info : RegisteredNodeInfo) × (lookup host
        (get_project_config call host daemon).1.nodes.registered_nodes
      ≡ some info)
    × (info.last_access_time ≡ 5)
    × IsCovered (get_project_config call host daemon).1.nodes
get_project_config-registered_example =
    get_project_config-registered call host daemon refl no_nodes-IsCovered
