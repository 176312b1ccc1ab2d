-- ===== src/Storage/Disk/Laws.antt =====
-- What the database of storage/leveldb/leveldb.go keeps, and when its lock is left behind.
use dove.Base.{
  ℕ, zero, suc, ◌≡◌, refl, sym, ap, ◌∙◌, Bool, true, false, ◌||◌, Option, none, some, List, [], ◌∷◌,
  arith, if◌then◌else◌, ◌==◌, Bytes, nat_eq, bytes_eq, Result, is_ok, ok, err,
}
use mathlib.Core.Path.{subst}
use dove.Base.Dict.{Dict, lookup, insert, lookup-insert}
use dove.Storage.Disk.{
  Disk, DbError, lock_failed, not_found, get, put, Handle, open_loop, get_db, after_open,
}

-- Open, with its lock free.
pub record IsReady (d : Disk) : Type 0 where
  pub open_lem : d.is_closed ≡ false
  pub free_lem : d.locked ≡ false

-- What a key holds.
abbrev pub content_of : Bytes → Disk → Result DbError Bytes
content_of key d = elim (lookup key d.entries) [ none ↦ err not_found | some v ↦ ok v ]

pub get-ready : (key : Bytes) (d : Disk) → IsReady d → get key d ≡ (content_of key d, d)
unfolding get
get-ready key d r = ground (arith, r.open_lem, r.free_lem)

pub put-ready :
    (key value : Bytes) (d : Disk)
    → IsReady d
    → put key value d ≡ (ok tt, record d { entries = insert key value d.entries })
unfolding put
put-ready key value d r = ground (arith, r.open_lem, r.free_lem)

content_of-insert :
    (key other value : Bytes) (d : Disk)
    → content_of other (record d { entries = insert key value d.entries })
      ≡ (if key == other then ok value else content_of other d)
content_of-insert key other value d = ground (arith, lookup-insert key other value d.entries)

-- On an open database with a free lock, a value that is put is what a later `Get` of the key gives,
-- every other key gives what it gave before, and the database is open with its lock free afterwards.
get-put :
    (key other value : Bytes) (d : Disk)
    → IsReady d
    → ((put key value d).0 ≡ ok tt)
      × ((get other (put key value d).1).0 ≡ (if key == other then ok value else (get other d).0))
      × IsReady (get other (put key value d).1).1
get-put key other value d r = rw (put-ready key value d r) (
  refl,
  ap (λ g. g.0) (get-ready other d' r')
      ∙ content_of-insert key other value d
      ∙ ap (λ g. if key == other then ok value else g.0) (sym (get-ready other d r)),
  subst IsReady (ap (λ g. g.1) (sym (get-ready other d' r'))) r',
)
  where
    d' : Disk
    d' = record d { entries = insert key value d.entries }

    r' : IsReady d'
    r' = record { open_lem = r.open_lem; free_lem = r.free_lem }

get-locked : (key : Bytes) (d : Disk) → d.locked ≡ true → get key d ≡ (err lock_failed, d)
unfolding get
get-locked key d l = ground (arith, l)

put-locked :
    (key value : Bytes) (d : Disk) → d.locked ≡ true → put key value d ≡ (err lock_failed, d)
unfolding put
put-locked key value d l = ground (arith, l)

get_locks :
    (key : Bytes) (d : Disk) → d.is_closed ≡ true → d.locked ≡ false → (get key d).1.locked ≡ true
unfolding get
get_locks key d c l = ground (arith, c, l)

-- On a closed database with a free lock, `Get` leaves the lock behind, whether the database can be
-- opened again or not, and from then on every `Get` and every `Put` fails for want of the lock.
pub get_leaks :
    (key k v : Bytes) (d : Disk)
    → d.is_closed ≡ true
    → d.locked ≡ false
    → (get k (get key d).1 ≡ (err lock_failed, (get key d).1))
      × (put k v (get key d).1 ≡ (err lock_failed, (get key d).1))
get_leaks key k v d c l = (
  get-locked k (get key d).1 (get_locks key d c l),
  put-locked k v (get key d).1 (get_locks key d c l),
)

-- One of the first `n` outcomes lets the database be opened; with none left it can be.
abbrev pub opens_within : ℕ → List Bool → Bool
opens_within zero opens = false
opens_within (suc n) [] = true
opens_within (suc n) (o ∷ opens) = o || opens_within n opens

open_loop_lem : (n : ℕ) (opens : List Bool) → (open_loop n opens).0 ≡ opens_within n opens
unfolding open_loop
open_loop_lem zero opens = refl
open_loop_lem (suc n) [] = refl
open_loop_lem (suc n) (true ∷ opens) = refl
open_loop_lem (suc n) (false ∷ opens) = open_loop_lem n opens

after_open-ok :
    (stored : Dict Bytes Bytes) (h : Handle) (opened : Bool) (rest : List Bool)
    → is_ok (after_open stored h opened rest).0 ≡ opened
unfolding after_open
after_open-ok stored h true rest = refl
after_open-ok stored h false rest = refl

after_open-db :
    (stored : Dict Bytes Bytes) (h : Handle) (opened : Bool) (rest : List Bool) (d : Disk)
    → (after_open stored h opened rest).0 ≡ ok d
    → (after_open stored h opened rest).1.db ≡ some d
unfolding after_open
after_open-db stored h true rest d e = ground arith
after_open-db stored h false rest d e = cc

pub get_db-known :
    (stored : Dict Bytes Bytes) (opens : List Bool) (h : Handle) (d : Disk)
    → h.db ≡ some d
    → get_db stored opens h ≡ (ok d, h)
unfolding get_db
get_db-known stored opens h d e = ground (arith, e)

-- The first `GetDb` after `InitDb` gives a database exactly when one of the next 180 attempts to open
-- it succeeds.
pub get_db_lem :
    (stored : Dict Bytes Bytes) (opens : List Bool) (h : Handle)
    → h.db ≡ none
    → h.initialized ≡ true
    → is_ok (get_db stored opens h).0 ≡ opens_within 180 opens
unfolding get_db
get_db_lem stored opens h e i =
    let o = open_loop 180 opens in
    rw (e, i, get_db)
      (after_open-ok stored (record { db = h.db; initialized = true }) o.0 o.1
        ∙ open_loop_lem 180 opens)

get_db-keeps :
    (stored : Dict Bytes Bytes) (opens : List Bool) (h : Handle) (o : Option Disk) (d : Disk)
    → h.db ≡ o
    → (get_db stored opens h).0 ≡ ok d
    → (get_db stored opens h).1.db ≡ some d
unfolding get_db
get_db-keeps stored opens h (some d') d e g = ground (arith, e)
get_db-keeps stored opens h none d e g =
    ground (arith, after_open-db stored h (open_loop 180 opens).0 (open_loop 180 opens).1 d)

-- The database that `GetDb` gives is the one that every later `GetDb` gives, without another attempt
-- to open it.
pub get_db-again :
    (stored stored' : Dict Bytes Bytes) (opens opens' : List Bool) (h : Handle) (d : Disk)
    → (get_db stored opens h).0 ≡ ok d
    → get_db stored' opens' (get_db stored opens h).1 ≡ (ok d, (get_db stored opens h).1)
get_db-again stored stored' opens opens' h d e =
    get_db-known stored' opens' (get_db stored opens h).1 d
      (get_db-keeps stored opens h h.db d refl e)
