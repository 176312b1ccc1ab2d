-- ===== src/Projconfig/Config/Release.antt =====
-- What `GetConfig` of projconfig/projconfig.go leaves of the lock on the fetch.
use dove.Base.{
  ℕ, ◌≤◌, ◌≡◌, refl, ap, ◌∙◌, Bool, true, false, Option, none, some, arith, nat_beq, Bytes, nat_eq,
  bytes_eq,
}
use dove.Base.Dict.{lookup}
use dove.Projconfig.FetchLock.{
  Queue, AccessStatus, get_lock_of_srv, release_lock_of_srv, held, get_lock-held, release-held,
  is_none, lock_waits, taken,
}
use dove.Projconfig.Local.{Env, Values}
use dove.Projconfig.Server.{Reply}
use dove.Projconfig.Config.{get_config, released_queue}

held-get_lock :
    (name : Bytes) (now : ℕ) (q : Queue)
    → is_none (get_lock_of_srv name now q) ≡ nat_beq (held name q) 1
unfolding held
held-get_lock name now q = (lock_waits name now q (lookup name q) refl).0

held-release_lock :
    (name : Bytes) (now : ℕ) (q : Queue)
    → is_none (release_lock_of_srv name now q) ≡ nat_beq (held name q) 0
unfolding held
held-release_lock name now q = (lock_waits name now q (lookup name q) refl).1

taken-le : (o : Option AccessStatus) → taken o ≤ 1
unfolding taken
taken-le none = omega arith
taken-le (some info) = ground arith

held-le : (name : Bytes) (q : Queue) → held name q ≤ 1
unfolding held
held-le name q = taken-le (lookup name q)

held-released_queue :
    (name : Bytes) (now : ℕ) (q : Queue) (o : Option Queue)
    → release_lock_of_srv name now q ≡ o
    → held name (released_queue name now q) ≡ 0
unfolding released_queue
held-released_queue name now q none e = ground (arith, e, held-release_lock name now q)
held-released_queue name now q (some q') e = ground (arith, e, release-held name now q q' e)

held-get_config :
    (env : Env) (reply : Reply) (debug : Option Bytes) (lock_srv_cocur : Bool) (now later : ℕ)
    (name : Bytes) (v : Values) (q : Queue) (o : Option (Bool × Queue))
    → get_lock_of_srv name now q ≡ o
    → held name q ≡ 0
    → held name (get_config env reply debug lock_srv_cocur now later name v q).2 ≡ 0
unfolding get_config
held-get_config env reply debug lock_srv_cocur now later name v q none e h =
    ground (arith, e, h, held-get_lock name now q)
held-get_config env reply debug lock_srv_cocur now later name v q (some (true, q')) e h = ground (
  arith,
  e,
  h,
  get_lock-held name now q q' true e,
  held-released_queue name later q' (release_lock_of_srv name later q') refl,
)
held-get_config env reply debug lock_srv_cocur now later name v q (some (false, q')) e h =
    ground (arith, e, h, get_lock-held name now q q' false e)

-- When nobody waits for the lock of a setting before a call of `GetConfig`, nobody does after it: the
-- lock is released on every path, errors and panics included.
pub get_config-releases :
    (env : Env) (reply : Reply) (debug : Option Bytes) (lock_srv_cocur : Bool) (now later time : ℕ)
    (name : Bytes) (v : Values) (q : Queue)
    → is_none (get_lock_of_srv name now q) ≡ false
    → is_none
        (get_lock_of_srv name time (get_config env reply debug lock_srv_cocur now later name v q).2)
      ≡ false
get_config-releases env reply debug lock_srv_cocur now later time name v q h =
    let q' = (get_config env reply debug lock_srv_cocur now later name v q).2 in
    let free : held name q ≡ 0 = ground (arith, h, held-get_lock name now q, held-le name q) in
    let after : held name q' ≡ 0 =
      held-get_config env reply debug lock_srv_cocur now later name v q (get_lock_of_srv name now q)
        refl free in
    held-get_lock name time q' ∙ ap (λ n. nat_beq n 1) after
