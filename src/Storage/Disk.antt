-- ===== src/Storage/Disk.antt =====
-- The local database: storage/leveldb/leveldb.go and storage/leveldb/errors.go. LevelDB itself is a
-- dictionary that may be closed; `opens` says how each later attempt to open it ends.
pub mod Laws
use dove.Base.{
  ℕ, zero, suc, Bool, true, false, not, Option, none, some, List, [], ◌∷◌, if◌then◌else◌, Bytes,
  nat_eq, bytes_eq, Result, is_ok, ok, err,
}
use dove.Base.Dict.{Dict, lookup, insert}

-- The package's codes, and the driver's errors.
pub data DbError : Type 0 where
  lock_failed open_failed create_failed not_initialized closed not_found : DbError

-- `locked` is the lock `dbRWLock`. What is asked for one at a time waits for nobody: a lock that
-- is held when an operation starts is not released while that waits.
pub record Disk : Type 0 where
  pub entries : Dict Bytes Bytes
  pub is_closed : Bool
  pub locked : Bool
  pub opens : List Bool

unfoldable pub get_db_lock : Disk → Bool × Disk
get_db_lock d = if d.locked then (false, d) else (true, record d { locked = true })

unfoldable pub release_db_lock : Disk → Disk
release_db_lock d = record d { locked = false }

-- With no outcome left, opening succeeds.
unfoldable pub reconnect : Disk → Result DbError (Unit {0}) × Disk
reconnect d = elim d.opens [
  | [] ↦ (ok tt, record d { is_closed = false })
  | true ∷ os ↦ (ok tt, record d { is_closed = false; opens = os })
  | false ∷ os ↦ (err open_failed, record d { opens = os })
]

-- The driver's `Get` and `Put`.
unfoldable pub driver_get : Bytes → Disk → Result DbError Bytes
driver_get key d =
    if d.is_closed
    then err closed
    else elim (lookup key d.entries) [ none ↦ err not_found | some v ↦ ok v ]

unfoldable pub driver_put : Bytes → Bytes → Disk → Result DbError (Unit {0}) × Disk
driver_put key value d =
    if d.is_closed
    then (err closed, d)
    else (ok tt, record d { entries = insert key value d.entries })

is_closed_error : {A : Type 0} → Result DbError A → Bool
is_closed_error (err closed) = true
is_closed_error _ = false

-- The two returns behind a closed database do not release the lock.
unfoldable pub get : Bytes → Disk → Result DbError Bytes × Disk
unfolding get_db_lock release_db_lock reconnect driver_get is_closed_error
get key d =
    let (had_lock, d1) = get_db_lock d in
    if not had_lock
    then (err lock_failed, d1)
    else (let r = driver_get key d1 in
        if is_closed_error r
        then (let (e, d2) = reconnect d1 in if is_ok e then (driver_get key d2, d2) else (r, d2))
        else (r, release_db_lock d1))

unfoldable pub put : Bytes → Bytes → Disk → Result DbError (Unit {0}) × Disk
unfolding get_db_lock release_db_lock reconnect driver_put is_closed_error
put key value d =
    let (had_lock, d1) = get_db_lock d in
    if not had_lock
    then (err lock_failed, d1)
    else (let (r, d2) = driver_put key value d1 in
        if is_closed_error r
        then (let (e, d3) = reconnect d2 in if is_ok e then driver_put key value d3 else (r, d3))
        else (r, release_db_lock d2))

-- The package's handle: none until the first `GetDb` that opens it.
pub record Handle : Type 0 where
  pub db : Option Disk
  pub initialized : Bool

unfoldable pub init_db : Handle → Handle
init_db h = record h { initialized = true }

-- `for maxRetryTimes := 180; maxRetryTimes > 0; maxRetryTimes-- { … }`: the attempts that are left,
-- and how they end.
unfoldable pub open_loop : ℕ → List Bool → Bool × List Bool
open_loop zero opens = (false, opens)
open_loop (suc tries) [] = (true, [])
open_loop (suc tries) (true ∷ opens) = (true, opens)
open_loop (suc tries) (false ∷ opens) = open_loop tries opens

-- What `GetDb` does behind the loop.
unfoldable pub after_open :
    Dict Bytes Bytes → Handle → Bool → List Bool → Result DbError Disk × Handle
after_open stored h opened rest =
    let d : Disk = record { entries = stored; is_closed = false; locked = false; opens = rest } in
    if opened then (ok d, record h { db = some d }) else (err create_failed, h)

-- `stored` is what the directory of the database holds. What is asked for one at a time gets the
-- creation lock at once.
unfoldable pub get_db : Dict Bytes Bytes → List Bool → Handle → Result DbError Disk × Handle
get_db stored opens h = elim h.db [
  | some d ↦ (ok d, h)
  | none ↦
      let (opened, rest) = open_loop 180 opens in
      if not h.initialized then (err not_initialized, h) else after_open stored h opened rest
]
