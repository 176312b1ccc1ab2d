-- ===== src/Settings/Examples.antt =====
-- A concrete client: its file of settings, its secret settings and its system.
use dove.Base.{
  ◌<◌, ◌≡◌, refl, true, false, none, some, [], ◌∷◌, if◌then◌else◌, length, ◌==◌, Bytes, codes,
  bytes_beq, nat_eq, bytes_eq, contains, Result, ok, err,
}
use dove.Base.Dict.{Dict, lookup, insert}
use dove.Base.Decimal.{pos}
use dove.Base.Text.{split, join, trim, trim_right, has_prefix, cut}
use dove.Encrypt.{BlockMode}
use dove.Settings.{
  Value, SettingsError, text, int, float, zero_config, fields_of_config, IsTyped, get_text,
  get_float,
}
use dove.Settings.Parse.{parse_extra_config}
use dove.Settings.Server.{Remote, no_reply}
use dove.Settings.Setup.{System, setup, Started, from_environment, init_zk_config}
use dove.Settings.Setup.Guarantees.{setup-iv_size}

abbrev plain_mode : BlockMode
plain_mode = record {
  accepts = λ key. true;
  crypt_blocks = λ key iv t. t;
  decrypt_blocks = λ key iv t. t;
}

abbrev remote : Remote
remote = record {
  local_ip = codes "10.0.0.1";
  now = 5;
  md5_hex = λ t. codes "00";
  http_get = λ url. no_reply;
  decode_answer = λ t. none;
  decode_env = λ t. none;
  mode = plain_mode;
}

abbrev secrets : Dict Bytes Value
secrets =
    (codes "Ver", text (codes "0.10.3"))
    ∷ (codes "Zookeeper.host.PROD", text (codes "10.1.2.57:2181,10.1.2.58:2181"))
    ∷ (codes "Zookeeper.root", text (codes "/conf"))
    ∷ (codes "Encrypt.PROD", text [])
    ∷ (codes "Encrypt.PROD.iv", text (codes "12345678"))
    ∷ (codes "Encrypt.PROD.key", text (codes "k"))
    ∷ (codes "Encrypt.Ver", float 7)
    ∷ (codes "Etcd.CONNECTION_TIMEOUT", int (pos 5))
    ∷ (codes "Etcd.DIAL_KEEP_ALIVE_TIME", int (pos 5))
    ∷ (codes "Etcd.DIAL_KEEP_ALIVE_TIMEOUT", int (pos 5))
    ∷ (codes "Etcd.HEARTBEAT_KEY", text (codes "heartbeat"))
    ∷ (codes "Etcd.REQUEST_TIMEOUT", int (pos 5))
    ∷ (codes "Etcd.MIN_RETRY_INTERVAL", int (pos 5))
    ∷ (codes "Etcd.RETRY_INTERVAL_RANGE", int (pos 5))
    ∷ (codes "Etcd.AUTO_SYNC_INTERVAL", int (pos 5))
    ∷ []

abbrev system : (Bytes → Bytes) → System
system env = record {
  secret = some (λ name. lookup name secrets);
  host_table = some ((codes "PROD", codes "10.1.2.57:2181,10.1.2.58:2181") ∷ []);
  parse_float = λ t. none;
  file = some (codes "ENV=\"PROD\"\n# comment\nCONFIG_DIR=\"/a,/b\"");
  load_rules = λ f. none;
  remote = remote;
  uid = pos 0;
  gid = pos 0;
  id_output = λ u. none;
  file_exists = λ f. false;
  mkdir_all = λ d. true;
  getenv = env;
  args_dir = codes "/usr/bin";
}

zero_config-IsTyped : IsTyped zero_config
unfolding zero_config fields_of_config
zero_config-IsTyped = refl

abbrev no_variables : Bytes → Bytes
no_variables name = []

abbrev short_iv : Bytes → Bytes
short_iv name = if name == codes "DOVE_ENCRYPT_IV" then codes "x" else []

started_or : Started → Result SettingsError Started → Started
started_or s (ok t) = t
started_or s (err e) = s

abbrev nothing_started : Started
nothing_started = record { config = []; zk_hosts = []; zk_root = []; dirs = [] }

started : (Bytes → Bytes) → Started
unfolding setup started_or
started env = started_or nothing_started (setup (system env) zero_config)

started_lem : setup (system no_variables) zero_config ≡ ok (started no_variables)
unfolding started setup started_or bytes_beq lookup insert zero_config split join trim_right
    parse_extra_config trim contains has_prefix cut get_text get_float from_environment
    init_zk_config
started_lem = refl

started_short_lem : setup (system short_iv) zero_config ≡ ok (started short_iv)
unfolding started setup started_or bytes_beq lookup insert zero_config split join trim_right
    parse_extra_config trim contains has_prefix cut get_text get_float from_environment
    init_zk_config
started_short_lem = refl

started_env : get_text (codes "ENV") (started no_variables).config ≡ codes "PROD"
unfolding started setup started_or bytes_beq lookup insert zero_config split join trim_right
    parse_extra_config trim contains has_prefix cut get_text get_float from_environment
    init_zk_config
started_env = refl

setup-iv_size_example :
    (length (get_text (codes "ENCRYPT_IV") (started no_variables).config) ≡ 8)
    × (0 < length (get_text (codes "ENCRYPT_KEY") (started no_variables).config))
unfolding bytes_beq
setup-iv_size_example =
    setup-iv_size (system no_variables) zero_config (started no_variables) zero_config-IsTyped
      started_lem refl refl

abbrev dev_mode : Bytes → Bytes
dev_mode name = if name == codes "DOVE_DEVMODE" then codes "1" else []

abbrev env_setting : Bytes × Bytes
env_setting = (codes "ENV", codes "PROD")

abbrev id_output : Bytes
id_output = codes "uid=1000(www) gid=100(users) groups=100(users)"
