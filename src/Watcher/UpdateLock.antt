-- ===== src/Watcher/UpdateLock.antt =====
-- The lock of the update tasks: `getUpdateLock` and `releaseUpdateLock` of
-- configwatcher/zk_watcher.go. A task is counted first, and then waits for the channel of one place
-- that all the tasks share.
use dove.Base.{
  ℕ, suc, ◌+◌, ◌-◌, ◌≤◌, ◌<◌, ◌≡◌, refl, ap, ◌∙◌, ◌⊎◌, inl, inr, Bool, true, false, Option, none,
  some, [], arith, ltb, if◌then◌else◌, ◌==◌, Bytes, nat_eq, bytes_eq, beq_refl,
}
use dove.Base.Dict.{Dict, lookup, insert, lookup-insert}

abbrev pub Counter : Type 0
Counter = Dict Bytes ℕ

-- The part under the mutex: whether the task goes on to the channel, and the counter.
unfoldable pub counted : Option ℕ → Option ℕ
counted none = some 1
counted (some n) = if ltb 1 n then none else some (n + 1)

unfoldable pub get_update_lock : Bytes → Counter → Bool × Counter
get_update_lock name c = elim (counted (lookup name c)) [
  | none ↦ (false, c)
  | some n ↦ (true, insert name n c)
]

abbrev pub count : Option ℕ → ℕ
count none = 0
count (some n) = n

-- The count of a task that runs is at least 1, so that the subtraction is that of Go.
unfoldable pub release_update_lock : Bytes → Counter → Counter
release_update_lock name c = insert name (count (lookup name c) - 1) c

-- The runs of all the tasks, as far as they concern one name: how many tasks wait for the channel
-- and how many are past it.
pub data Run (name : Bytes) : ℕ → ℕ → Counter → Type 0 where
  start : Run name 0 0 []
  accepted :
      {w r : ℕ} {c c' : Counter}
      → Run name w r c
      → get_update_lock name c ≡ (true, c')
      → Run name (suc w) r c'
  refused :
      {w r : ℕ} {c c' : Counter}
      → Run name w r c
      → get_update_lock name c ≡ (false, c')
      → Run name w r c'
  entered : {w : ℕ} {c : Counter} → Run name (suc w) 0 c → Run name w 1 c
  released : {w : ℕ} {c : Counter} → Run name w 1 c → Run name w 0 (release_update_lock name c)
  elsewhere :
      {w r : ℕ} {c c' : Counter} (other : Bytes) (b : Bool)
      → Run name w r c
      → (other == name) ≡ false
      → get_update_lock other c ≡ (b, c')
      → Run name w r c'
  released_elsewhere :
      {w r : ℕ} {c : Counter} (other : Bytes)
      → Run name w r c
      → (other == name) ≡ false
      → Run name w r (release_update_lock other c)

tasks : Bytes → Counter → ℕ
tasks name c = count (lookup name c)

tasks-insert :
    (name other : Bytes) (n : ℕ) (c : Counter)
    → tasks name (insert other n c) ≡ (if other == name then n else tasks name c)
unfolding tasks
tasks-insert name other n c = ground (arith, lookup-insert other name n c)

tasks-insert_self : (name : Bytes) (n : ℕ) (c : Counter) → tasks name (insert name n c) ≡ n
tasks-insert_self name n c =
    tasks-insert name name n c ∙ ap (λ b. if b then n else tasks name c) (beq_refl name)

tasks-insert_other :
    (name other : Bytes) (n : ℕ) (c : Counter)
    → (other == name) ≡ false
    → tasks name (insert other n c) ≡ tasks name c
tasks-insert_other name other n c e =
    tasks-insert name other n c ∙ ap (λ b. if b then n else tasks name c) e

get_cases :
    (other : Bytes) (c c' : Counter) (b : Bool) (o found : Option ℕ)
    → lookup other c ≡ found
    → counted found ≡ o
    → get_update_lock other c ≡ (b, c')
    → ((b ≡ true) × (count found ≤ 1) × (c' ≡ insert other (count found + 1) c))
      ⊎ ((b ≡ false) × (1 < count found) × (c' ≡ c))
unfolding get_update_lock counted
get_cases other c c' b o none e f g = ground (arith, e)
get_cases other c c' b o (some n) e f g = ground (arith, e)

get_self :
    (name : Bytes) (c c' : Counter) (b : Bool)
    → get_update_lock name c ≡ (b, c')
    → (tasks name c' ≡ (if b then tasks name c + 1 else tasks name c))
      × (if b then tasks name c ≤ 1 else 1 < tasks name c)
unfolding tasks
get_self name c c' b e =
    elim (get_cases name c c' b (counted (lookup name c)) (lookup name c) refl refl e) [
      | inl (y, le, same_c) ↦
          rw (y, if◌then◌else◌)
            (ap (tasks name) same_c ∙ tasks-insert_self name (tasks name c + 1) c, le)
      | inr (n, gt, same_c) ↦ rw (n, if◌then◌else◌) (ap (tasks name) same_c, gt)
    ]

get_other :
    (name other : Bytes) (c c' : Counter) (b : Bool)
    → (other == name) ≡ false
    → get_update_lock other c ≡ (b, c')
    → tasks name c' ≡ tasks name c
get_other name other c c' b d e =
    elim (get_cases other c c' b (counted (lookup other c)) (lookup other c) refl refl e) [
      | inl (y, le, same_c) ↦
          ap (tasks name) same_c ∙ tasks-insert_other name other (count (lookup other c) + 1) c d
      | inr (n, gt, same_c) ↦ ap (tasks name) same_c
    ]

-- The counter is the number of the tasks that wait or run, at most one of them runs, and they are
-- at most two.
record IsCounted (name : Bytes) (w r : ℕ) (c : Counter) : Type 0 where
  counted_lem : tasks name c ≡ w + r
  one_runs : r ≤ 1
  two_tasks : w + r ≤ 2

tasks_none : (name : Bytes) → tasks name [] ≡ 0
unfolding tasks lookup
tasks_none name = refl

tasks-release :
    (name : Bytes) (c : Counter) → tasks name (release_update_lock name c) ≡ tasks name c - 1
unfolding release_update_lock
tasks-release name c = unfold tasks in tasks-insert_self name (count (lookup name c) - 1) c

tasks-release_other :
    (name other : Bytes) (c : Counter)
    → (other == name) ≡ false
    → tasks name (release_update_lock other c) ≡ tasks name c
unfolding release_update_lock
tasks-release_other name other c d = tasks-insert_other name other (count (lookup other c) - 1) c d

Run-IsCounted : (name : Bytes) (w r : ℕ) (c : Counter) → Run name w r c → IsCounted name w r c
Run-IsCounted name w r c start = record {
  counted_lem = tasks_none name;
  one_runs = omega arith;
  two_tasks = omega arith;
}
Run-IsCounted name w r c (accepted {w = v} {c = d} p e) =
    let h = Run-IsCounted name v r d p in
    let (after, le) = get_self name d c true e in
    record {
      counted_lem = omega (arith, after, h.counted_lem);
      one_runs = h.one_runs;
      two_tasks = omega (arith, le, h.counted_lem);
    }
Run-IsCounted name w r c (refused {c = d} p e) =
    let h = Run-IsCounted name w r d p in
    let (after, gt) = get_self name d c false e in
    record { counted_lem = after ∙ h.counted_lem; one_runs = h.one_runs; two_tasks = h.two_tasks }
Run-IsCounted name w r c (entered p) =
    let h = Run-IsCounted name (suc w) 0 c p in
    record {
      counted_lem = omega (arith, h.counted_lem);
      one_runs = omega arith;
      two_tasks = omega (arith, h.two_tasks);
    }
Run-IsCounted name w r c (released {c = d} p) =
    let h = Run-IsCounted name w 1 d p in
    record {
      counted_lem = omega (arith, tasks-release name d, h.counted_lem);
      one_runs = omega arith;
      two_tasks = omega (arith, h.two_tasks);
    }
Run-IsCounted name w r c (elsewhere {c = d} other b p n e) =
    let h = Run-IsCounted name w r d p in
    record {
      counted_lem = get_other name other d c b n e ∙ h.counted_lem;
      one_runs = h.one_runs;
      two_tasks = h.two_tasks;
    }
Run-IsCounted name w r c (released_elsewhere {c = d} other p n) =
    let h = Run-IsCounted name w r d p in
    record {
      counted_lem = tasks-release_other name other d n ∙ h.counted_lem;
      one_runs = h.one_runs;
      two_tasks = h.two_tasks;
    }

-- However the update tasks of a name run, at most one of them runs and at most two are there, waiting
-- or running.
pub Run-le : (name : Bytes) (w r : ℕ) (c : Counter) → Run name w r c → (r ≤ 1) × (w + r ≤ 2)
Run-le name w r c p = let h = Run-IsCounted name w r c p in (h.one_runs, h.two_tasks)

-- However the tasks of a name run, one that is turned away loses no update: another task of the same
-- name is waiting for the lock, and will read the settings only after it has it.
pub Run-refused :
    (name : Bytes) (w r : ℕ) (c : Counter)
    → Run name w r c
    → (get_update_lock name c).0 ≡ false
    → 0 < w
Run-refused name w r c p e =
    let h = Run-IsCounted name w r c p in
    let (after, gt) =
      get_self name c (get_update_lock name c).1 false
        (ap (λ b. (b, (get_update_lock name c).1)) e) in
    omega (arith, gt, h.counted_lem, h.one_runs)
