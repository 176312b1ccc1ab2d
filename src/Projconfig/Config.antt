-- ===== src/Projconfig/Config.antt =====
-- `GetConfig` of projconfig/projconfig.go: debug file, memory, local disk, configuration server.
pub mod Laws
pub mod Release
use dove.Base.{
  ℕ, Bool, true, false, not, Option, none, some, if◌then◌else◌, Bytes, nat_eq, bytes_eq, Result, ok,
  err,
}
use dove.Storage.{get_from_mem, store_to_mem}
use dove.Encrypt.{CryptError}
use dove.Util.Json.{toml_config_value_to_json}
use dove.Projconfig.FetchLock.{Queue, get_lock_of_srv, release_lock_of_srv}
use dove.Projconfig.Local.{
  Env, Values, ValueError, crypt_failed, panics, waits, not_found_anywhere, not_toml, get_from_disk,
  save_to_disk,
}
use dove.Projconfig.Server.{Reply, get_from_server}

is_crypt_panic : CryptError → Bool
is_crypt_panic CryptError.panics = true
is_crypt_panic CryptError.bad_key = false

-- A panic is not an error that the code goes on from.
unfoldable pub is_panic : ValueError → Bool
unfolding is_crypt_panic
is_panic panics = true
is_panic (crypt_failed e) = is_crypt_panic e
is_panic _ = false

-- What the server gives is saved to the disk, and a failure to do so is only logged.
unfoldable pub save_fetched : Env → Bytes → Bytes → Values → Result ValueError Bytes × Values
unfolding is_panic
save_fetched env name re v =
    let (saved, v') = save_to_disk env name re v in
    elim saved [ ok u ↦ (ok re, v') | err e ↦ if is_panic e then (err e, v') else (ok re, v') ]

unfoldable pub fetch_from_server :
    Env → Bytes → Result ValueError Bytes → Values → Result ValueError Bytes × Values
fetch_from_server env name (err e) v = (err e, v)
fetch_from_server env name (ok re) v = save_fetched env name re v

-- The content as TOML: from the disk, or else from the server.
unfoldable pub fetch : Env → Reply → Bytes → Values → Result ValueError Bytes × Values
unfolding is_panic
fetch env reply name v =
    let (on_disk, v') = get_from_disk env name v in
    elim on_disk [
      | ok re ↦ (ok re, v')
      | err e ↦
          if is_panic e
          then (err e, v')
          else fetch_from_server env name (get_from_server env reply) v'
    ]

-- What is fetched becomes JSON, and is kept in memory.
unfoldable pub finish :
    Env → Bytes → Result ValueError Bytes → Values → Result ValueError (Option Bytes) × Values
unfolding is_panic
finish env name (err e) v = (err (if is_panic e then e else not_found_anywhere), v)
finish env name (ok re) v = elim (toml_config_value_to_json env.show env.load re) [
  | none ↦ (err not_toml, v)
  | some json ↦ (ok json, record v { memory = store_to_mem name json v.memory })
]

unfoldable pub fetch_config :
    Env → Reply → Bytes → Values → Result ValueError (Option Bytes) × Values
unfolding fetch finish
fetch_config env reply name v = let (r, v') = fetch env reply name v in finish env name r v'

-- The deferred release.
pub released_queue : Bytes → ℕ → Queue → Queue
released_queue name now q = elim (release_lock_of_srv name now q) [ none ↦ q | some q' ↦ q' ]

-- `debug` is the value in the debug file, `none` when there is none or no debug file is used; `now`
-- and `later` are the times at which the lock is asked for and released. A caller that is told that
-- another one has fetched looks into the memory again, and one that would wait for the token ends
-- here.
unfoldable pub get_config :
    Env
    → Reply
    → Option Bytes
    → Bool
    → ℕ
    → ℕ
    → Bytes
    → Values
    → Queue
    → Result ValueError (Option Bytes) × Values × Queue
unfolding fetch_config released_queue
get_config env reply debug lock_srv_cocur now later name v q = elim debug [
  | some re ↦ (ok (some re), v, q)
  | none ↦ elim (get_from_mem name v.memory) [
    | some re ↦ (ok (some re), v, q)
    | none ↦
        let (r, v') = fetch_config env reply name v in
        if not lock_srv_cocur then (r, v', q) else elim (get_lock_of_srv name now q) [
          | none ↦ (err waits, v, q)
          | some (fetch_state, q') ↦
              if fetch_state
              then (r, v', released_queue name later q')
              else (elim (get_from_mem name v.memory) [
                | none ↦ (err not_found_anywhere, v, q')
                | some re ↦ (ok (some re), v, q')
              ])
        ]
  ]
]
