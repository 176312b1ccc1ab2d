-- ===== src/Projconfig/FetchLock.antt =====
-- One fetch from the server at a time for each setting: `getLockOfSrv` and `releaseLockOfSrv` of
-- projconfig/projconfig.go.
use dove.Base.{
  ℕ, suc, ◌+◌, ◌-◌, ◌≤◌, ◌≡◌, refl, sym, ap, ◌∙◌, Bool, true, false, not, Option, none, some, [],
  arith, ltb, nat_beq, if◌then◌else◌, ◌==◌, Bytes, nat_eq, bytes_eq, beq_refl,
}
use dove.Base.Dict.{Dict, lookup, insert, lookup-insert}

-- `free` says whether the channel of one place holds its token. Times are seconds.
pub record AccessStatus : Type 0 where
  pub free : Bool
  pub last_update_time : ℕ

abbrev pub Queue : Type 0
Queue = Dict Bytes AccessStatus

abbrev pub min_interval_of_fetch_from_server : ℕ
min_interval_of_fetch_from_server = 1

-- What a caller is told, and the status that it leaves; `none` is a caller that waits for the token.
unfoldable pub lock_answer : ℕ → Option AccessStatus → Option (Bool × AccessStatus)
lock_answer now none = some (true, record { free = false; last_update_time = now })
lock_answer now (some info) =
    if not info.free
    then none
    else if ltb min_interval_of_fetch_from_server (now - info.last_update_time)
    then some (true, record info { free = false })
    else some (false, record info { free = true })

-- `true` tells the caller to fetch and to release the lock afterwards, `false` that another one has
-- fetched.
unfoldable pub get_lock_of_srv : Bytes → ℕ → Queue → Option (Bool × Queue)
get_lock_of_srv name now q = elim (lock_answer now (lookup name q)) [
  | none ↦ none
  | some (b, info) ↦ some (b, insert name info q)
]

-- `none` is a name that was never asked for, or a second token that finds no place.
unfoldable pub released_status : ℕ → Option AccessStatus → Option AccessStatus
released_status now none = none
released_status now (some info) =
    if info.free then none else some (record { free = true; last_update_time = now + 3 })

unfoldable pub release_lock_of_srv : Bytes → ℕ → Queue → Option Queue
release_lock_of_srv name now q = elim (released_status now (lookup name q)) [
  | none ↦ none
  | some info ↦ some (insert name info q)
]

-- The runs of all the goroutines, as far as they concern one name: `holders` counts those that were
-- told to fetch and have not released the lock yet.
pub data Run (name : Bytes) : ℕ → Queue → Type 0 where
  start : Run name 0 []
  granted :
      {h : ℕ} {q q' : Queue} (now : ℕ)
      → Run name h q
      → get_lock_of_srv name now q ≡ some (true, q')
      → Run name (suc h) q'
  told :
      {h : ℕ} {q q' : Queue} (now : ℕ)
      → Run name h q
      → get_lock_of_srv name now q ≡ some (false, q')
      → Run name h q'
  released :
      {h : ℕ} {q q' : Queue} (now : ℕ)
      → Run name (suc h) q
      → release_lock_of_srv name now q ≡ some q'
      → Run name h q'
  elsewhere :
      {h : ℕ} {q q' : Queue} (now : ℕ) (other : Bytes) (b : Bool)
      → Run name h q
      → (other == name) ≡ false
      → get_lock_of_srv other now q ≡ some (b, q')
      → Run name h q'
  released_elsewhere :
      {h : ℕ} {q q' : Queue} (now : ℕ) (other : Bytes)
      → Run name h q
      → (other == name) ≡ false
      → release_lock_of_srv other now q ≡ some q'
      → Run name h q'

unfoldable pub taken : Option AccessStatus → ℕ
taken none = 0
taken (some info) = if info.free then 0 else 1

lock_answer-taken :
    (now : ℕ) (o : Option AccessStatus) (b : Bool) (info : AccessStatus)
    → lock_answer now o ≡ some (b, info)
    → (taken o ≡ 0) × (taken (some info) ≡ (if b then 1 else 0))
unfolding lock_answer taken
lock_answer-taken now none b info e = ground arith
lock_answer-taken now (some i) b info e = ground arith

released_status-taken :
    (now : ℕ) (o : Option AccessStatus) (info : AccessStatus)
    → released_status now o ≡ some info
    → (taken o ≡ 1) × (taken (some info) ≡ 0)
unfolding released_status taken
released_status-taken now none info e = cc
released_status-taken now (some i) info e = ground arith

get_lock_cases :
    (name : Bytes) (now : ℕ) (q q' : Queue) (b : Bool) (o : Option (Bool × AccessStatus))
    → lock_answer now (lookup name q) ≡ o
    → get_lock_of_srv name now q ≡ some (b, q')
    → (info : AccessStatus) × (lock_answer now (lookup name q) ≡ some (b, info))
      × (q' ≡ insert name info q)
unfolding get_lock_of_srv
get_lock_cases name now q q' b none e g = ground arith
get_lock_cases name now q q' b (some (b', info)) e g = (info, ground arith, ground arith)

release_cases :
    (name : Bytes) (now : ℕ) (q q' : Queue) (o : Option AccessStatus)
    → released_status now (lookup name q) ≡ o
    → release_lock_of_srv name now q ≡ some q'
    → (info : AccessStatus) × (released_status now (lookup name q) ≡ some info)
      × (q' ≡ insert name info q)
unfolding release_lock_of_srv
release_cases name now q q' none e g = ground arith
release_cases name now q q' (some info) e g = (info, ground arith, ground arith)

-- The token is away.
unfoldable pub held : Bytes → Queue → ℕ
held name q = taken (lookup name q)

held-insert :
    (name other : Bytes) (info : AccessStatus) (q : Queue)
    → held name (insert other info q) ≡ (if other == name then taken (some info) else held name q)
unfolding held
held-insert name other info q = ground (arith, lookup-insert other name info q)

pub get_lock-held :
    (name : Bytes) (now : ℕ) (q q' : Queue) (b : Bool)
    → get_lock_of_srv name now q ≡ some (b, q')
    → (held name q ≡ 0) × (held name q' ≡ (if b then 1 else 0))
unfolding held
get_lock-held name now q q' b e =
    let (info, a, q_eq) = get_lock_cases name now q q' b (lock_answer now (lookup name q)) refl e in
    let (before, after) = lock_answer-taken now (lookup name q) b info a in
    (
      before,
      ap (held name) q_eq
          ∙ held-insert name name info q
          ∙ ap (λ t. if t then taken (some info) else held name q) (beq_refl name)
          ∙ after,
    )

pub release-held :
    (name : Bytes) (now : ℕ) (q q' : Queue)
    → release_lock_of_srv name now q ≡ some q'
    → (held name q ≡ 1) × (held name q' ≡ 0)
unfolding held
release-held name now q q' e =
    let (info, a, q_eq) =
      release_cases name now q q' (released_status now (lookup name q)) refl e in
    let (before, after) = released_status-taken now (lookup name q) info a in
    (
      before,
      ap (held name) q_eq
          ∙ held-insert name name info q
          ∙ ap (λ t. if t then taken (some info) else held name q) (beq_refl name)
          ∙ after,
    )

held-elsewhere :
    (name other : Bytes) (info : AccessStatus) (q : Queue)
    → (other == name) ≡ false
    → held name (insert other info q) ≡ held name q
held-elsewhere name other info q n =
    held-insert name other info q ∙ ap (λ t. if t then taken (some info) else held name q) n

-- As many hold the lock as the token is away.
Run-held : (name : Bytes) (h : ℕ) (q : Queue) → Run name h q → h ≡ held name q
unfolding held taken lookup
Run-held name h q start = refl
Run-held name h q (granted now r e) =
    let (before, after) = get_lock-held name now _ q true e in
    omega (arith, before, after, Run-held name _ _ r)
Run-held name h q (told now r e) =
    let (before, after) = get_lock-held name now _ q false e in
    omega (arith, before, after, Run-held name _ _ r)
Run-held name h q (released now r e) =
    let (before, after) = release-held name now _ q e in
    omega (arith, before, after, Run-held name _ _ r)
Run-held name h q (elsewhere {q = q0} now other b r n e) =
    let (info, a, q_eq) =
      get_lock_cases other now q0 q b (lock_answer now (lookup other q0)) refl e in
    Run-held name h q0 r ∙ sym (held-elsewhere name other info q0 n) ∙ ap (held name) (sym q_eq)
Run-held name h q (released_elsewhere {q = q0} now other r n e) =
    let (info, a, q_eq) =
      release_cases other now q0 q (released_status now (lookup other q0)) refl e in
    Run-held name h q0 r ∙ sym (held-elsewhere name other info q0 n) ∙ ap (held name) (sym q_eq)

abbrev pub is_none : {A : Type 0} → Option A → Bool
is_none none = true
is_none (some a) = false

pub lock_waits :
    (name : Bytes) (now : ℕ) (q : Queue) (o : Option AccessStatus)
    → lookup name q ≡ o
    → (is_none (get_lock_of_srv name now q) ≡ nat_beq (taken o) 1)
      × (is_none (release_lock_of_srv name now q) ≡ nat_beq (taken o) 0)
unfolding get_lock_of_srv release_lock_of_srv lock_answer released_status taken
lock_waits name now q none e = ground (arith, e)
lock_waits name now q (some info) e = ground (arith, e)

-- However the goroutines run, at most one of them is told to fetch a setting and has not released the
-- lock; another one that asks waits exactly while there is such a goroutine; and the release of that
-- one always succeeds.
pub Run-IsExclusive :
    (name : Bytes) (h now : ℕ) (q : Queue)
    → Run name h q
    → (h ≤ 1)
      × (is_none (get_lock_of_srv name now q) ≡ nat_beq h 1)
      × (is_none (release_lock_of_srv name now q) ≡ nat_beq h 0)
unfolding held taken
Run-IsExclusive name h now q r =
    let e = Run-held name h q r in
    let (l, m) = lock_waits name now q (lookup name q) refl in
    (ground (arith, e), l ∙ ap (λ t. nat_beq t 1) (sym e), m ∙ ap (λ t. nat_beq t 0) (sym e))
