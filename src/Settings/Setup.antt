-- ===== src/Settings/Setup.antt =====
-- Setup of config/setup_config.go, on Linux.
mod Environment
mod Checked
pub mod Guarantees
use dove.Base.{
  ℕ, ◌^◌, Bool, true, false, not, ◌&&◌, ◌||◌, Option, none, some, List, [], ◌∷◌, ◌++◌, ltb, nat_beq,
  if◌then◌else◌, length, ◌==◌, Bytes, codes, nat_eq, bytes_eq, Result, ◌>>=◌, ok, err,
}
use dove.Base.Dict.{Dict, insert}
use dove.Base.Decimal.{ℤ}
use dove.Base.Text.{has_prefix, trim_right, split, join}
use dove.Settings.{
  Value, Config, SettingsError, text, texts, flag, int, float, rules, panics, bad_rules, no_secrets,
  unknown_env, no_user, bad_iv, bad_key, no_dir, get_text, get_texts, get_flag, get_float,
}
use dove.Settings.Parse.{parse_extra_config}
use dove.Settings.Ids.{Ids, lookup_os_uid_gid, found}
use dove.Settings.Server.{EnvInfo, Remote, ServerError, init_zk_config_by_server, refused}

-- The library that reads TOML: `Get` with a dotted key of the secret settings, and the table of the
-- hosts; and what the operating system answers.
pub record System : Type 0 where
  pub secret : Option (Bytes → Option Value)
  pub host_table : Option (Dict Bytes Bytes)
  pub parse_float : Bytes → Option ℕ
  pub file : Option Bytes
  pub load_rules : Bytes → Option (List (List Bytes))
  pub remote : Remote
  pub uid : ℤ
  pub gid : ℤ
  pub id_output : Bytes → Option Bytes
  pub file_exists : Bytes → Bool
  pub mkdir_all : Bytes → Bool
  pub getenv : Bytes → Bytes
  pub args_dir : Bytes

abbrev pub Fallible : Type 0 → Type 0
Fallible A = Result SettingsError A

-- `.(string)`, `.(int64)` and `.(float64)` of what the secret settings hold.
text_or_panic : Option Value → Fallible Bytes
text_or_panic (some (text t)) = ok t
text_or_panic (some (texts _)) = err panics
text_or_panic (some (flag _)) = err panics
text_or_panic (some (int _)) = err panics
text_or_panic (some (float _)) = err panics
text_or_panic (some (rules _)) = err panics
text_or_panic none = err panics

int_or_panic : Option Value → Fallible ℤ
int_or_panic (some (int n)) = ok n
int_or_panic (some (text _)) = err panics
int_or_panic (some (texts _)) = err panics
int_or_panic (some (flag _)) = err panics
int_or_panic (some (float _)) = err panics
int_or_panic (some (rules _)) = err panics
int_or_panic none = err panics

float_or_panic : Option Value → Fallible ℕ
float_or_panic (some (float n)) = ok n
float_or_panic (some (int _)) = err panics
float_or_panic (some (text _)) = err panics
float_or_panic (some (texts _)) = err panics
float_or_panic (some (flag _)) = err panics
float_or_panic (some (rules _)) = err panics
float_or_panic none = err panics

or_error {ℓ} : {A : Type ℓ} → Option A → SettingsError → Result SettingsError A
or_error none e = err e
or_error (some a) e = ok a

set_rules : System → Config → Fallible Config
unfolding or_error
set_rules sys c = if get_text (codes "POST_UPDATE_SCRIPTS_RULE") c == [] then ok c else do
  r ← or_error (sys.load_rules (get_text (codes "POST_UPDATE_SCRIPTS_RULE") c)) bad_rules
  ok (insert (codes "PostUpdateRule") (rules r) c)

is_some : Option Value → Bool
is_some none = false
is_some (some _) = true

text_if_there : Option Value → Option Bytes
unfolding text_or_panic
text_if_there v = elim (text_or_panic v) [ ok t ↦ some t | err e ↦ none ]

-- The environment is one that the server knows, or one of the secret settings; the message about an
-- unknown one names those of the table.
env_info : System → (Bytes → Option Value) → Config → Fallible (Option EnvInfo)
unfolding is_some text_or_panic text_if_there
env_info sys secret c =
    let env = get_text (codes "ENV") c in
    let server = get_text (codes "DOVE_SERVER") c in
    let known =
      is_some (secret (codes "Zookeeper.host." ++ env))
      && is_some (secret (codes "Encrypt." ++ env)) in
    let unknown : Fallible (Option EnvInfo) = elim sys.host_table [
      | none ↦ err panics
      | some _ ↦ err unknown_env
    ] in
    let built_in : Fallible (Option EnvInfo) = if known then ok none else unknown in
    if server == [] then built_in else do
      auth_key ← text_or_panic (secret (codes "Env.AuthKey"))
      elim (init_zk_config_by_server sys.remote server env
          (text_if_there (secret (codes "Env.AuthIv"))) auth_key) [
            | ok e ↦ ok (some e)
            | err refused ↦ built_in
            | err ServerError.panics ↦ err panics
          ]

daemon_ids : System → Config → Fallible (ℤ × ℤ)
daemon_ids sys c =
    if get_text (codes "DAEMON_USER") c == []
    then ok (sys.uid, sys.gid)
    else elim (lookup_os_uid_gid (sys.id_output (get_text (codes "DAEMON_USER") c))) [
      | Ids.panics ↦ err panics
      | found uid gid failed ↦ if failed then err no_user else ok (uid, gid)
    ]

-- A directory that is not there is made.
make_dir : System → Bytes → List Bytes → Fallible (List Bytes)
make_dir sys dir dirs =
    if sys.file_exists dir
    then ok dirs
    else if sys.mkdir_all dir
    then ok (dirs ++ dir ∷ [])
    else err no_dir

-- The default of DATA_ROOT is overwritten by the statement behind it.
set_data_root : Config → Config
set_data_root c =
    let c' : Config =
      if get_text (codes "DATA_DIR") c == []
      then insert (codes "DATA_ROOT") (text (codes "/var/lib/doveclient/")) c
      else c in
    insert (codes "DATA_ROOT")
      (text (trim_right (get_text (codes "DATA_DIR") c') (codes "/") ++ codes "/")) c'

set_addresses : Config → Config
set_addresses c =
    if get_text (codes "ListenAddr") c == []
    then insert (codes "ListenAddrTransi")
        (text (get_text (codes "DATA_DIR") c ++ codes "doveclient.transi.sock"))
        (insert (codes "ListenAddr")
          (text (get_text (codes "DATA_DIR") c ++ codes "doveclient.sock")) c)
    else c

-- `os.PathListSeparator` is the colon.
set_paths : System → Config → Config
set_paths sys c =
    let root = get_text (codes "DATA_ROOT") c in
    insert (codes "DATA_DIR")
      (text (root ++ (codes "/" ++ (get_text (codes "ENV") c ++ codes "/"))))
      (insert (codes "PidFile")
        (text (root ++ (if get_flag (codes "RunAsBi") c then codes "bi.pid" else codes "pid")))
        (insert (codes "InstallDir") (text (sys.args_dir ++ codes ":")) c))

set_secrets : (Bytes → Option Value) → Option EnvInfo → Config → Fallible Config
unfolding text_or_panic
set_secrets secret none c = do
  iv ← text_or_panic (secret (codes "Encrypt." ++ (get_text (codes "ENV") c ++ codes ".iv")))
  key ← text_or_panic (secret (codes "Encrypt." ++ (get_text (codes "ENV") c ++ codes ".key")))
  ok (insert (codes "ENCRYPT_KEY") (text key) (insert (codes "ENCRYPT_IV") (text iv) c))
set_secrets secret (some e) c =
    ok (insert (codes "ENCRYPT_KEY") (text e.key) (insert (codes "ENCRYPT_IV") (text e.iv) c))

-- Both zeros of the floating-point numbers are equal to 0.
set_encrypt_ver : (Bytes → Option Value) → Config → Fallible Config
unfolding float_or_panic
set_encrypt_ver secret c =
    let v = get_float (codes "ENCRYPT_VER") c in
    if not (nat_beq v 0 || nat_beq v (2 ^ 63)) then ok c else do
      n ← float_or_panic (secret (codes "Encrypt.Ver"))
      ok (insert (codes "ENCRYPT_VER") (float n) c)

check_secrets : Config → Fallible Config
check_secrets c =
    if not (nat_beq (length (get_text (codes "ENCRYPT_IV") c)) 8)
    then err bad_iv
    else if ltb (length (get_text (codes "ENCRYPT_KEY") c)) 1
    then err bad_key
    else ok c

-- A field takes the value of its environment variable, by its type; `reflect` panics where a text is
-- stored to a field of a type that is neither a text nor a list.
set_from_env : Bytes → Bytes → Value → Config → Fallible Config
set_from_env name e (text _) c = ok (insert name (text e) c)
set_from_env name e (texts _) c = ok (insert name (texts (split e b',')) c)
set_from_env name e (rules _) c = ok c
set_from_env name e (flag _) c = err panics
set_from_env name e (int _) c = err panics
set_from_env name e (float _) c = err panics

abbrev pub variable_of : Bytes → Bytes
variable_of name = codes "DOVE_" ++ name

-- The loop over the fields, of which those of the first argument are left.
unfoldable pub from_environment : (Bytes → Bytes) → Config → Config → Fallible Config
unfolding set_from_env
from_environment getenv [] c = ok c
from_environment getenv ((name, v) ∷ fields) c =
    (if getenv (variable_of name) == []
      then ok c
      else set_from_env name (getenv (variable_of name)) v c)
    >>= from_environment getenv fields

dropped_last : List Bytes → List Bytes
dropped_last [] = []
dropped_last (w ∷ ws) = elim ws [ [] ↦ [] | v ∷ r ↦ w ∷ dropped_last ws ]

-- `config.DEBUG_FILE[0:lastpos]`, if there is a slash.
debug_dir : Bytes → Option Bytes
unfolding dropped_last
debug_dir debug_file = elim (dropped_last (split debug_file b'/')) [
  | [] ↦ none
  | w ∷ ws ↦ some (join (w ∷ ws) (codes "/"))
]

set_debug_dir : System → Config → Config
unfolding debug_dir
set_debug_dir sys c =
    let debug_file = get_text (codes "DEBUG_FILE") c in
    if debug_file == [] || not (sys.file_exists debug_file)
    then c
    else elim (debug_dir debug_file) [
      | none ↦ c
      | some dir ↦
          insert (codes "DEVMODE") (flag true)
            (insert (codes "CONFIG_DIR") (texts (get_texts (codes "CONFIG_DIR") c ++ dir ∷ [])) c)
    ]

hosts_of : Dict Bytes Bytes → Dict Bytes (List Bytes)
hosts_of [] = []
hosts_of ((env, hosts) ∷ m) = (env, split hosts b',') ∷ hosts_of m

-- The hosts of each environment, and the root of the names.
unfoldable pub init_zk_config :
    System
    → (Bytes → Option Value)
    → Option EnvInfo
    → Config
    → Fallible (Dict Bytes (List Bytes) × Bytes)
unfolding hosts_of or_error text_or_panic
init_zk_config sys secret none c = do
  table ← or_error sys.host_table panics
  root ← text_or_panic (secret (codes "Zookeeper.root"))
  ok (hosts_of table, root)
init_zk_config sys secret (some e) c = do
  root ← text_or_panic (secret (codes "Zookeeper.root"))
  ok ((get_text (codes "ENV") c, split e.hosts b',') ∷ [], root)

etcd_ints : (Bytes → Option Value) → List Bytes → Config → Fallible Config
unfolding int_or_panic
etcd_ints secret [] c = ok c
etcd_ints secret (name ∷ names) c = do
  n ← int_or_panic (secret (codes "Etcd." ++ name))
  etcd_ints secret names (insert (codes "ETCD_" ++ name) (int n) c)

abbrev pub timeouts : List Bytes
timeouts =
    codes "CONNECTION_TIMEOUT" ∷ codes "DIAL_KEEP_ALIVE_TIME" ∷ codes "DIAL_KEEP_ALIVE_TIMEOUT" ∷ []

abbrev pub intervals : List Bytes
intervals =
    codes "REQUEST_TIMEOUT"
    ∷ codes "MIN_RETRY_INTERVAL"
    ∷ codes "RETRY_INTERVAL_RANGE"
    ∷ codes "AUTO_SYNC_INTERVAL"
    ∷ []

set_etcd : (Bytes → Option Value) → Config → Fallible Config
unfolding etcd_ints text_or_panic
set_etcd secret c = do
  c1 ← etcd_ints secret timeouts c
  key ← text_or_panic (secret (codes "Etcd.HEARTBEAT_KEY"))
  etcd_ints secret intervals (insert (codes "ETCD_HEARTBEAT_KEY") (text key) c1)

-- What there is after `Setup`: the settings, the hosts and the root, and the directories it made.
pub record Started : Type 0 where
  pub config : Config
  pub zk_hosts : Dict Bytes (List Bytes)
  pub zk_root : Bytes
  pub dirs : List Bytes

with_version : Bytes → Config → Config
with_version ver c = insert (codes "ClientVer") (text ver) c

with_dev_mode : Config → Config
with_dev_mode c =
    insert (codes "DEVMODE") (flag (has_prefix (get_text (codes "ENV") c) (codes "DEV"))) c

with_ids : ℤ × ℤ → Config → Config
with_ids ids c = insert (codes "DAEMON_GID") (int ids.1) (insert (codes "DAEMON_UID") (int ids.0) c)

-- The paths, the key, and the directories of the data: the directories made are the last part.
placed :
    System
    → (Bytes → Option Value)
    → Option EnvInfo
    → Config
    → Fallible (Config × Option EnvInfo × List Bytes)
unfolding make_dir set_addresses set_paths set_secrets set_encrypt_ver check_secrets
placed sys secret info c = do
  dirs ← make_dir sys (get_text (codes "DATA_ROOT") c) []
  c1 ← set_secrets secret info (set_paths sys (set_addresses c))
  c2 ← set_encrypt_ver secret c1
  c3 ← check_secrets c2
  dirs' ← make_dir sys (get_text (codes "DATA_DIR") c3) dirs
  ok (c3, info, dirs')

-- Up to the check of the key: the settings, the environment and the directories made so far.
unfoldable pub setup_checked :
    System → (Bytes → Option Value) → Config → Fallible (Config × Option EnvInfo × List Bytes)
unfolding set_rules text_or_panic env_info daemon_ids set_data_root with_version with_dev_mode
    with_ids placed
setup_checked sys secret c0 = do
  c1 ← parse_extra_config sys.parse_float sys.file c0
  c2 ← set_rules sys c1
  ver ← text_or_panic (secret (codes "Ver"))
  info ← env_info sys secret (with_version ver c2)
  ids ← daemon_ids sys (with_dev_mode (with_version ver c2))
  placed sys secret info (set_data_root (with_ids ids (with_dev_mode (with_version ver c2))))

-- A directory of logs that cannot be made is only reported.
log_dirs : System → Config → List Bytes → List Bytes
log_dirs sys c dirs =
    let dir = get_text (codes "LOG_DIR") c in
    if sys.file_exists dir || not (sys.mkdir_all dir) then dirs else dirs ++ dir ∷ []

unfoldable pub setup : System → Config → Fallible Started
unfolding or_error setup_checked log_dirs set_debug_dir set_etcd
setup sys c0 = do
  secret ← or_error sys.secret no_secrets
  checked ← setup_checked sys secret c0
  c1 ← from_environment sys.getenv checked.0 checked.0
  let c2 = set_debug_dir sys c1
  zk ← init_zk_config sys secret checked.1 c2
  c3 ← set_etcd secret c2
  ok (record {
    config = c3;
    zk_hosts = zk.0;
    zk_root = zk.1;
    dirs = log_dirs sys checked.0 checked.2;
  })
