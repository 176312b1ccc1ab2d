-- ===== src/Watcher/Monitor/Examples.antt =====
-- A client whose update failed, on a server that is a dictionary.
use dove.Base.{ℕ, true, Option, some, [], ◌∷◌, Bytes, codes, nat_eq, bytes_eq, Result}
use dove.Base.Dict.{Dict, lookup, insert}
use dove.Storage.Etcd.{Client}
use dove.Watcher.Monitor.{Content, Monitor, Self, Outcome, save_update_results}
use dove.Watcher.Monitor.Reported.{values_of}

abbrev Store : Type 0
Store = Dict Bytes (Content × Option ℕ)

abbrev server : Client Content Store
server = record {
  kv_get = λ k s. (some (values_of (lookup k s)), s);
  kv_put = λ k v lease s. (true, insert k (v, lease) s);
  lease_grant = λ ttl s. (some 5, s);
  keep_alive = λ lease s. (true, s);
}

abbrev web_1 : Self
web_1 = record {
  identity = record {
    hostname = some (codes "web1");
    local_addr = some (codes "10.0.0.7:5123");
    pid = 42;
    client_ver = codes "2.1";
  };
  md5 = some (codes "9e107d9d");
  config_dir = codes "/app" ∷ [];
}

abbrev failed_update : Outcome
failed_update = record {
  now = 1700000000;
  update_error = some (codes "no value for db");
  callback_results = [];
  script_results = [];
}

abbrev after : Option (Result dove.Watcher.Monitor.MonitorError (Unit {0})) × Monitor × Store
after =
    save_update_results server (codes "/conf") web_1 failed_update
      (record { node_cache = []; lease = 0 }) []
