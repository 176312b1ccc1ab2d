-- ===== src/Settings.antt =====
-- The settings of the client, by the names of the fields of Config, as the package `reflect` shows
-- them: config/setup_config.go and config/utils.go.
pub mod Ids
pub mod Parse
pub mod Server
pub mod Setup
pub mod Typed
mod Examples
use dove.Base.{
  ℕ, ◌≡◌, Bool, false, Option, none, some, List, [], ◌∷◌, Bytes, codes, nat_eq, bytes_eq,
}
use dove.Base.Dict.{Dict, lookup}
use dove.Base.Decimal.{ℤ, pos}

-- A number of type float64 is its 64 bits.
pub data Value : Type 0 where
  text : Bytes → Value
  texts : List Bytes → Value
  flag : Bool → Value
  int : ℤ → Value
  float : ℕ → Value
  rules : List (List Bytes) → Value

pub data Kind : Type 0 where
  text_kind texts_kind flag_kind int_kind float_kind rules_kind : Kind

abbrev pub kind_of : Value → Kind
kind_of (text _) = text_kind
kind_of (texts _) = texts_kind
kind_of (flag _) = flag_kind
kind_of (int _) = int_kind
kind_of (float _) = float_kind
kind_of (rules _) = rules_kind

abbrev pub Config : Type 0
Config = Dict Bytes Value

-- The fields in the order of their declaration.
pub fields_of_config : Dict Bytes Kind
fields_of_config =
    (codes "ListenAddr", text_kind)
    ∷ (codes "ListenAddrTransi", text_kind)
    ∷ (codes "RunAsBi", flag_kind)
    ∷ (codes "InstallDir", text_kind)
    ∷ (codes "PidFile", text_kind)
    ∷ (codes "DATA_ROOT", text_kind)
    ∷ (codes "DATA_DIR", text_kind)
    ∷ (codes "LOG_DIR", text_kind)
    ∷ (codes "CONFIG_DIR", texts_kind)
    ∷ (codes "DAEMON_USER", text_kind)
    ∷ (codes "DAEMON_UID", int_kind)
    ∷ (codes "DAEMON_GID", int_kind)
    ∷ (codes "POST_UPDATE_CALLBACKS", texts_kind)
    ∷ (codes "POST_UPDATE_SCRIPTS", texts_kind)
    ∷ (codes "ENV", text_kind)
    ∷ (codes "ClientVer", text_kind)
    ∷ (codes "ENCRYPT_ENABLE", flag_kind)
    ∷ (codes "ENCRYPT_KEY", text_kind)
    ∷ (codes "ENCRYPT_IV", text_kind)
    ∷ (codes "ENCRYPT_VER", float_kind)
    ∷ (codes "DEVMODE", flag_kind)
    ∷ (codes "DEBUG_FILE", text_kind)
    ∷ (codes "ETCD_CONNECTION_TIMEOUT", int_kind)
    ∷ (codes "ETCD_DIAL_KEEP_ALIVE_TIME", int_kind)
    ∷ (codes "ETCD_DIAL_KEEP_ALIVE_TIMEOUT", int_kind)
    ∷ (codes "ETCD_HEARTBEAT_KEY", text_kind)
    ∷ (codes "ETCD_REQUEST_TIMEOUT", int_kind)
    ∷ (codes "ETCD_MIN_RETRY_INTERVAL", int_kind)
    ∷ (codes "ETCD_RETRY_INTERVAL_RANGE", int_kind)
    ∷ (codes "ETCD_AUTO_SYNC_INTERVAL", int_kind)
    ∷ (codes "POST_UPDATE_SCRIPTS_RULE", text_kind)
    ∷ (codes "PostUpdateRule", rules_kind)
    ∷ (codes "PPROF_LISTEN", text_kind)
    ∷ (codes "DOVE_SERVER", text_kind)
    ∷ []

zero_of : Kind → Value
zero_of text_kind = text []
zero_of texts_kind = texts []
zero_of flag_kind = flag false
zero_of int_kind = int (pos 0)
zero_of float_kind = float 0
zero_of rules_kind = rules []

zero_fields : Dict Bytes Kind → Config
unfolding zero_of
zero_fields [] = []
zero_fields ((name, k) ∷ m) = (name, zero_of k) ∷ zero_fields m

-- `&Config{}`
unfoldable pub zero_config : Config
unfolding zero_fields fields_of_config
zero_config = zero_fields fields_of_config

abbrev pub kinds : Config → Dict Bytes Kind
kinds [] = []
kinds ((name, v) ∷ c) = (name, kind_of v) ∷ kinds c

-- Each field has a value of its type.
abbrev pub IsTyped : Config → Type 0
IsTyped c = kinds c ≡ fields_of_config

text_of : Option Value → Bytes
text_of (some (text t)) = t
text_of (some (texts _)) = []
text_of (some (flag _)) = []
text_of (some (int _)) = []
text_of (some (float _)) = []
text_of (some (rules _)) = []
text_of none = []

-- The value of a field of type string.
unfoldable pub get_text : Bytes → Config → Bytes
unfolding text_of
get_text name c = text_of (lookup name c)

list_of : Option Value → List Bytes
list_of (some (texts l)) = l
list_of (some (text _)) = []
list_of (some (flag _)) = []
list_of (some (int _)) = []
list_of (some (float _)) = []
list_of (some (rules _)) = []
list_of none = []

unfoldable pub get_texts : Bytes → Config → List Bytes
unfolding list_of
get_texts name c = list_of (lookup name c)

flag_of : Option Value → Bool
flag_of (some (flag b)) = b
flag_of (some (text _)) = false
flag_of (some (texts _)) = false
flag_of (some (int _)) = false
flag_of (some (float _)) = false
flag_of (some (rules _)) = false
flag_of none = false

unfoldable pub get_flag : Bytes → Config → Bool
unfolding flag_of
get_flag name c = flag_of (lookup name c)

float_of : Option Value → ℕ
float_of (some (float n)) = n
float_of (some (text _)) = 0
float_of (some (texts _)) = 0
float_of (some (flag _)) = 0
float_of (some (int _)) = 0
float_of (some (rules _)) = 0
float_of none = 0

unfoldable pub get_float : Bytes → Config → ℕ
unfolding float_of
get_float name c = float_of (lookup name c)

-- Why no settings come back; `panics` ends the process.
pub data SettingsError : Type 0 where
  panics unreadable bad_version no_secrets bad_rules unknown_env no_user bad_iv bad_key no_dir :
      SettingsError
  no_equals : ℕ → SettingsError
