-- ===== src/Projconfig/Examples.antt =====
-- Concrete runs of projconfig/projconfig.go and projconfig/debugconfig.go.
use dove.Base.{
  ◌≤◌, ◌≡◌, refl, true, false, none, some, [], ◌∷◌, arith, Bytes, codes, bytes_beq, nat_eq,
  bytes_eq, ok,
}
use dove.Base.Dict.{Dict, lookup, insert}
use dove.Util.Json.{TomlTree, entry, no_key, text}
use dove.Util.Json.Quote.{quote}
use dove.Storage.{get_from_mem}
use dove.Storage.Disk.{Disk}
use dove.Encrypt.{BlockMode}
use dove.Projconfig.FetchLock.{
  Queue, Run, start, granted, get_lock_of_srv, release_lock_of_srv, is_none, Run-IsExclusive,
  lock_answer,
}
use dove.Projconfig.Local.{Env, Values, get_from_disk, save_to_disk}
use dove.Projconfig.Local.RoundTrip.{get_from_disk-save_to_disk}
use dove.Projconfig.Server.{Reply, no_connection, configuration, number, absent, text as text_field}
use dove.Projconfig.Config.{get_config}
use dove.Projconfig.Config.Laws.{get_config-again}
use dove.Projconfig.Config.Release.{get_config-releases}

abbrev host : Bytes
host = codes "mysql.host"

-- A cipher that changes nothing.
abbrev plain_mode : BlockMode
plain_mode = record {
  accepts = λ key. true;
  crypt_blocks = λ key iv s. s;
  decrypt_blocks = λ key iv s. s;
}

abbrev env : Env
env = record {
  mode = plain_mode;
  encryptor = record { iv = codes "12345678"; key = codes "k" };
  encrypt_enable = true;
  encrypt_ver = 1;
  dev_mode = false;
  load = λ s. some (entry (codes "host") (text s) no_key);
  show = λ t. [];
}

abbrev disk : Disk
disk = record { entries = []; is_closed = false; locked = false; opens = [] }

abbrev values : Values
values = record {
  memory = record { project_configs = []; raw_config = [] };
  handle = record { db = some disk; initialized = true };
  stored = [];
  opens = [];
}

abbrev reply : Reply
reply =
    configuration (record { encrypted = absent; state = number 1; encrypt_ver = absent })
      (text_field (codes "db1"))

abbrev json_db1 : Bytes
json_db1 = codes "\"db1\""

get_config-again_example :
    get_config env no_connection none true 3 4 host
      (get_config env reply none true 1 2 host values []).1
      []
    ≡ (ok (some json_db1), (get_config env reply none true 1 2 host values []).1, [])
unfolding get_config get_from_mem lookup get_from_disk dove.Storage.Disk.get_db
    dove.Storage.Disk.get dove.Projconfig.Config.fetch_from_server
    dove.Projconfig.Server.get_from_server dove.Projconfig.Config.save_fetched save_to_disk
    dove.Encrypt.encrypt dove.Storage.Disk.put dove.Util.Json.toml_config_value_to_json
    dove.Util.Json.json_encode quote dove.Util.Json.Quote.escape get_lock_of_srv lock_answer
    release_lock_of_srv dove.Projconfig.FetchLock.released_status insert bytes_beq
    dove.Storage.store_to_mem
get_config-again_example =
    get_config-again env env reply no_connection true true 1 2 3 4 host json_db1 values
      (get_config env reply none true 1 2 host values []).1 [] [] refl refl

get_config-releases_example :
    is_none (get_lock_of_srv host 9 (get_config env no_connection none true 1 2 host values []).2)
    ≡ false
unfolding get_lock_of_srv lookup lock_answer
get_config-releases_example =
    get_config-releases env no_connection none true 1 2 9 host values [] refl

get_from_disk-save_to_disk_example :
    ((save_to_disk env host (codes "db1") values).0 ≡ ok tt)
    × ((get_from_disk env host (save_to_disk env host (codes "db1") values).1).0 ≡ ok (codes "db1"))
get_from_disk-save_to_disk_example =
    get_from_disk-save_to_disk env host (codes "db1") values disk
      (record {
        initialized_lem = refl;
        db_lem = refl;
        ready = record { open_lem = refl; free_lem = refl };
      })
      (record { length_lem = λ key iv s. refl; inverse = λ key iv s h. refl }) refl refl
      (ground arith)

abbrev granted_queue : Queue
granted_queue = (host, record { free = false; last_update_time = 1 }) ∷ []

one_holder : Run host 1 granted_queue
unfolding get_lock_of_srv lookup lock_answer insert
one_holder = granted 1 start refl

Run-IsExclusive_example :
    (1 ≤ 1)
    × (is_none (get_lock_of_srv host 2 granted_queue) ≡ true)
    × (is_none (release_lock_of_srv host 2 granted_queue) ≡ false)
Run-IsExclusive_example = Run-IsExclusive host 1 2 granted_queue one_holder

abbrev configs : Dict Bytes TomlTree
configs = (codes "/app/a/config.debug.toml", no_key) ∷ (codes "/b/config.debug.toml", no_key) ∷ []
