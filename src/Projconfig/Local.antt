-- ===== src/Projconfig/Local.antt =====
-- Values on the local disk: `getLocalStorage`, `GetFromDisk` and `SaveToDisk` of
-- projconfig/projconfig.go.
pub mod RoundTrip
use dove.Base.{ℕ, Bool, Option, some, List, if◌then◌else◌, Bytes, nat_eq, bytes_eq, Result, ok, err}
use dove.Base.Dict.{Dict}
use dove.Storage.{Memory}
use dove.Storage.Disk.{Disk, DbError, Handle, init_db, get_db, get, put}
use dove.Encrypt.{BlockMode, Encryptor, CryptError, encrypt, decrypt}
use dove.Util.Json.{TomlTree}

-- The settings of the client and the libraries it calls. `load` is the TOML parser, and `show` what
-- `%v` prints of a tree.
pub record Env : Type 0 where
  pub mode : BlockMode
  pub encryptor : Encryptor
  pub encrypt_enable : Bool
  pub encrypt_ver : ℕ
  pub dev_mode : Bool
  pub load : Bytes → Option TomlTree
  pub show : TomlTree → Bytes

-- The memory, the database's handle, and the directory of the database with the outcomes of the
-- attempts to open it.
pub record Values : Type 0 where
  pub memory : Memory
  pub handle : Handle
  pub stored : Dict Bytes Bytes
  pub opens : List Bool

pub data ValueError : Type 0 where
  storage_failed : DbError → ValueError
  crypt_failed : CryptError → ValueError
  no_engine not_on_server undecodable unpublished wrong_version bad_base64 broken_content panics
        waits not_found_anywhere not_toml :
      ValueError

abbrev pub get_local_storage : Values → Result DbError Disk × Values
get_local_storage v =
    let h = if v.handle.initialized then v.handle else init_db v.handle in
    let (r, h') = get_db v.stored v.opens h in (r, record v { handle = h' })

-- `db.Conn` is one object: what an operation makes of it is what the handle holds.
abbrev pub store_disk : Disk → Values → Values
store_disk d v = record v { handle = record v.handle { db = some d } }

abbrev pub crypt_result : {A : Type 0} → Result CryptError A → Result ValueError A
crypt_result (ok a) = ok a
crypt_result (err e) = err (crypt_failed e)

unfoldable pub get_from_disk : Env → Bytes → Values → Result ValueError Bytes × Values
get_from_disk env name v =
    let (opened, v1) = get_local_storage v in
    elim opened [
      | err e ↦ (err (storage_failed e), v1)
      | ok d ↦
          let (r, d') = get name d in
          (
            elim r [
              | err e ↦ err (storage_failed e)
              | ok re ↦
                  if env.encrypt_enable
                  then crypt_result (decrypt env.mode env.encryptor re)
                  else ok re
            ],
            store_disk d' v1,
          )
    ]

-- What is written: the content, encrypted when the settings say so.
abbrev pub content_to_store : Env → Bytes → Result CryptError Bytes
content_to_store env content =
    if env.encrypt_enable then encrypt env.mode env.encryptor content else ok content

unfoldable pub save_to_disk : Env → Bytes → Bytes → Values → Result ValueError (Unit {0}) × Values
save_to_disk env name content v =
    let (opened, v1) = get_local_storage v in
    elim opened [
      | err e ↦ (err (storage_failed e), v1)
      | ok d ↦ elim (content_to_store env content) [
        | err e ↦ (err (crypt_failed e), v1)
        | ok bytes ↦
            let (r, d') = put name bytes d in
            (elim r [ err e ↦ err (storage_failed e) | ok u ↦ ok u ], store_disk d' v1)
      ]
    ]
