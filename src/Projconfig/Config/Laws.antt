-- ===== src/Projconfig/Config/Laws.antt =====
-- What `GetConfig` of projconfig/projconfig.go leaves in memory.
use dove.Base.{
  ℕ, ◌≡◌, refl, ap, ◌∙◌, Bool, false, Option, none, some, arith, Bytes, nat_eq, bytes_eq, beq_refl,
  Result, ok, err,
}
use dove.Base.Dict.{lookup-insert}
use dove.Storage.{Memory, get_from_mem, store_to_mem}
use dove.Projconfig.FetchLock.{Queue}
use dove.Projconfig.Local.{Env, Values, ValueError, get_from_disk, save_to_disk}
use dove.Projconfig.Server.{Reply, get_from_server}
use dove.Projconfig.Config.{
  save_fetched, fetch_from_server, fetch, finish, fetch_config, get_config,
}

get_from_disk-memory :
    (env : Env) (name : Bytes) (v : Values) → (get_from_disk env name v).1.memory ≡ v.memory
unfolding get_from_disk
get_from_disk-memory env name v = ground arith

save_to_disk-memory :
    (env : Env) (name content : Bytes) (v : Values)
    → (save_to_disk env name content v).1.memory ≡ v.memory
unfolding save_to_disk
save_to_disk-memory env name content v = ground arith

save_fetched-memory :
    (env : Env) (name re : Bytes) (v : Values) → (save_fetched env name re v).1.memory ≡ v.memory
unfolding save_fetched
save_fetched-memory env name re v = ground (arith, save_to_disk-memory env name re v)

fetch_from_server-memory :
    (env : Env) (name : Bytes) (r : Result ValueError Bytes) (v : Values)
    → (fetch_from_server env name r v).1.memory ≡ v.memory
unfolding fetch_from_server
fetch_from_server-memory env name (err e) v = refl
fetch_from_server-memory env name (ok re) v = save_fetched-memory env name re v

fetch-memory :
    (env : Env) (reply : Reply) (name : Bytes) (v : Values)
    → (fetch env reply name v).1.memory ≡ v.memory
unfolding fetch
fetch-memory env reply name v = ground (
  arith,
  get_from_disk-memory env name v,
  fetch_from_server-memory env name (get_from_server env reply) (get_from_disk env name v).1,
)

-- The memory after a value was found: the value is kept under its name.
abbrev pub memory_after : Bytes → Result ValueError (Option Bytes) → Memory → Memory
memory_after name (ok json) m = store_to_mem name json m
memory_after name (err e) m = m

finish-memory :
    (env : Env) (name : Bytes) (r : Result ValueError Bytes) (v : Values)
    → (finish env name r v).1.memory ≡ memory_after name (finish env name r v).0 v.memory
unfolding finish
finish-memory env name (err e) v = refl
finish-memory env name (ok re) v = ground arith

fetch_config-memory :
    (env : Env) (reply : Reply) (name : Bytes) (v : Values)
    → (fetch_config env reply name v).1.memory
      ≡ memory_after name (fetch_config env reply name v).0 v.memory
unfolding fetch_config
fetch_config-memory env reply name v =
    let r = fetch env reply name v in
    finish-memory env name r.0 r.1
    ∙ ap (memory_after name (finish env name r.0 r.1).0) (fetch-memory env reply name v)

-- A value that comes from the memory, or that is kept there: nothing else is.
abbrev pub memory_result : Option Bytes → Bytes → Result ValueError (Option Bytes) → Memory → Memory
memory_result (some re) name r m = m
memory_result none name r m = memory_after name r m

-- A value in the debug file or in memory leaves the memory as it was; with neither, the memory is as
-- the fetch leaves it.
get_config-memory :
    (env : Env) (reply : Reply) (debug : Option Bytes) (now later : ℕ) (name : Bytes) (v : Values)
    (q : Queue)
    → let r = get_config env reply debug false now later name v q in
      (r.1.memory ≡ elim debug [
        | some re ↦ v.memory
        | none ↦ memory_result (get_from_mem name v.memory) name r.0 v.memory
      ])
unfolding get_config
get_config-memory env reply (some re) now later name v q = refl
get_config-memory env reply none now later name v q =
    ground (arith, fetch_config-memory env reply name v)

get_from_mem-store :
    (name : Bytes) (json : Option Bytes) (m : Memory)
    → get_from_mem name (store_to_mem name json m) ≡ json
unfolding get_from_mem store_to_mem
get_from_mem-store name json m =
    ground (arith, lookup-insert name name json m.project_configs, beq_refl name)

get_config-in_memory :
    (env : Env) (reply : Reply) (lock_srv_cocur : Bool) (now later : ℕ) (name re : Bytes)
    (v : Values) (q : Queue)
    → get_from_mem name v.memory ≡ some re
    → get_config env reply none lock_srv_cocur now later name v q ≡ (ok (some re), v, q)
unfolding get_config
get_config-in_memory env reply lock_srv_cocur now later name re v q e = ground (arith, e)

get_config-kept :
    (env : Env) (reply : Reply) (cocur : Bool) (now later : ℕ) (name re : Bytes) (v : Values)
    (q : Queue) (found : Option Bytes)
    → get_from_mem name v.memory ≡ found
    → (get_config env reply none cocur now later name v q).0 ≡ ok (some re)
    → get_from_mem name (get_config env reply none cocur now later name v q).1.memory ≡ some re
unfolding get_config
get_config-kept env reply cocur now later name re v q (some r) e g = ground (arith, e)
get_config-kept env reply cocur now later name re v q none e g =
    ground
      (arith, e, fetch_config-memory env reply name v, get_from_mem-store name (some re) v.memory)

-- Once a call without debug value, locking or not, has given a value, a later one gives the same value
-- and changes nothing, locking or not and whatever the server and the settings then are, as long as
-- nothing was stored under the name in memory between the two.
pub get_config-again :
    (env env' : Env) (reply reply' : Reply) (cocur cocur' : Bool) (now later now' later' : ℕ)
    (name re : Bytes) (v v' : Values) (q q' : Queue)
    → (get_config env reply none cocur now later name v q).0 ≡ ok (some re)
    → get_from_mem name v'.memory
      ≡ get_from_mem name (get_config env reply none cocur now later name v q).1.memory
    → get_config env' reply' none cocur' now' later' name v' q' ≡ (ok (some re), v', q')
get_config-again env env' reply reply' cocur cocur' now later now' later' name re v v' q q' e m =
    get_config-in_memory env' reply' cocur' now' later' name re v' q' (
      m ∙ get_config-kept env reply cocur now later name re v q (get_from_mem name v.memory) refl e)
