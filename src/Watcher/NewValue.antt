-- ===== src/Watcher/NewValue.antt =====
-- `GetNewValueOfConfig` of configwatcher/zk_watcher.go: the latest value of a setting, from the debug
-- file, the configuration server or the local disk.
pub mod Laws
use dove.Base.{
  Bool, true, false, not, Option, none, some, [], if◌then◌else◌, Bytes, bytes_beq, nat_eq, bytes_eq,
  Result, ok, err,
}
use dove.Storage.{save_raw_config}
use dove.Encrypt.{CryptError, encrypt}
use dove.Util.Json.{toml_config_value_to_json}
use dove.Projconfig.Local.{Env, Values, ValueError, crypt_failed, not_toml, get_from_disk}
use dove.Projconfig.Server.{Reply, get_from_server}
use dove.Projconfig.Config.{is_panic}

-- The named results; a value that was never set is empty.
pub record NewValue : Type 0 where
  pub value_encrypted : Bytes
  pub value_plain : Bytes
  pub value_serialized : Option Bytes
  pub new_version_checked : Bool
  pub has_update : Bool
  pub is_debug_value : Bool
  pub c_err : Option ValueError

-- The variables up to the encryption: the JSON or an error, and the TOML that goes with it.
pub record Chosen : Type 0 where
  pub parsed : Result ValueError (Option Bytes)
  pub plain : Bytes
  pub checked : Bool
  pub updated : Bool
  pub debug : Bool

unfoldable pub json_of : Env → Bytes → Result ValueError (Option Bytes)
json_of env content = elim (toml_config_value_to_json env.show env.load content) [
  | none ↦ err not_toml
  | some json ↦ ok json
]

-- The old copy, when there is one; or else the error that made it necessary stays.
unfoldable pub from_old : Env → Result ValueError Bytes → ValueError → Chosen
from_old env old e = elim old [
  | err _ ↦ record { parsed = err e; plain = []; checked = false; updated = false; debug = false }
  | ok content ↦ record {
    parsed = json_of env content;
    plain = content;
    checked = false;
    updated = false;
    debug = false;
  }
]

-- `oErr != nil || string(oldContent) != string(newContent)`
unfoldable pub differs : Result ValueError Bytes → Bytes → Bool
differs (err e) new_content = true
differs (ok old_content) new_content = not (bytes_beq old_content new_content)

unfoldable pub from_server : Env → Result ValueError Bytes → Result ValueError Bytes → Chosen
unfolding from_old differs
from_server env old (err e) = from_old env old e
from_server env old (ok new_content) = elim (json_of env new_content) [
  | err e ↦ from_old env old e
  | ok json ↦ record {
    parsed = ok json;
    plain = new_content;
    checked = true;
    updated = differs old new_content;
    debug = false;
  }
]

unfoldable pub from_debug : Bytes × Bytes → Chosen
from_debug d = record {
  parsed = ok (some d.0);
  plain = d.1;
  checked = true;
  updated = false;
  debug = true;
}

encrypted_or_nil : Result CryptError Bytes → Bytes
encrypted_or_nil (ok b) = b
encrypted_or_nil (err e) = []

crypt_error : Result CryptError Bytes → Option ValueError
crypt_error (ok b) = none
crypt_error (err e) = some (crypt_failed e)

-- The last part: encryption, and the TOML kept in memory.
unfoldable pub conclude : Env → Bytes → Chosen → Values → NewValue × Values
unfolding encrypted_or_nil crypt_error
conclude env name c v = elim c.parsed [
  | err e ↦ (
    record {
      value_encrypted = [];
      value_plain = if c.debug then c.plain else [];
      value_serialized = none;
      new_version_checked = c.checked;
      has_update = c.updated;
      is_debug_value = c.debug;
      c_err = some e;
    },
    v,
  )
  | ok json ↦
      let r = encrypt env.mode env.encryptor c.plain in
      (
        record {
          value_encrypted = encrypted_or_nil r;
          value_plain = c.plain;
          value_serialized = json;
          new_version_checked = c.checked;
          has_update = c.updated;
          is_debug_value = c.debug;
          c_err = crypt_error r;
        },
        record v { memory = save_raw_config name c.plain v.memory },
      )
]

panic_in : Result ValueError Bytes → Option ValueError
panic_in (ok b) = none
panic_in (err e) = if is_panic e then some e else none

-- A panic ends the goroutine; the value is then that of the panic.
abbrev pub panicked : ValueError → NewValue
panicked e = record {
  value_encrypted = [];
  value_plain = [];
  value_serialized = none;
  new_version_checked = false;
  has_update = false;
  is_debug_value = false;
  c_err = some e;
}

-- A value of a debug file comes first; the old copy is read in any case, and the server is only asked
-- when there is no such value.
unfoldable pub answer :
    Env
    → Bytes
    → Result ValueError Bytes
    → Result ValueError Bytes
    → Option (Bytes × Bytes)
    → Values
    → NewValue × Values
unfolding from_server from_debug conclude panic_in
answer env name old server (some d) v = elim (panic_in old) [
  | some e ↦ (panicked e, v)
  | none ↦ conclude env name (from_debug d) v
]
answer env name old server none v = elim (panic_in old) [
  | some e ↦ (panicked e, v)
  | none ↦ elim (panic_in server) [
    | some e ↦ (panicked e, v)
    | none ↦ conclude env name (from_server env old server) v
  ]
]

-- `debug` is the value in the debug files with its TOML, if there is one; it counts in development
-- mode.
unfoldable pub get_new_value_of_config :
    Env → Reply → Option (Bytes × Bytes) → Bytes → Values → NewValue × Values
unfolding answer
get_new_value_of_config env reply debug name v =
    let (old, v') = get_from_disk env name v in
    answer env name old (get_from_server env reply) (if env.dev_mode then debug else none) v'
