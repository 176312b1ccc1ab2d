-- ===== src/Watcher/Recheck.antt =====
-- The updates that are tried again: configwatcher/zk_recheck.go. The queue of schema files has the
-- same operations over its own variables, except that it knows no "*".
use dove.Base.{
  ◌≡◌, refl, ap, Bool, true, ◌||◌, Option, none, some, List, [], ◌∷◌, ◌++◌, arith, if◌then◌else◌,
  ◌==◌, Bytes, codes, bytes_beq_iff, nat_eq, bytes_eq, beq_refl, contains, contains-append,
}

-- The names in the channel, the keys of `failedConfigItemRoots`, and the names whose goroutine sleeps
-- before it updates. The locks make each operation one step; a send to the channel that is full
-- waits, and is the step in which it goes through.
pub record Recheck : Type 0 where
  pub queued : List Bytes
  pub failed : List Bytes
  pub sleeping : List Bytes

abbrev pub star : Bytes
star = codes "*"

unfoldable pub add_to_recheck_queue : Bytes → Recheck → Recheck
add_to_recheck_queue node_name s =
    if contains s.failed star
    then s
    else if contains s.failed node_name
    then s
    else record s { queued = s.queued ++ node_name ∷ [] }

unfoldable pub add_to_schema_recheck_queue : Bytes → Recheck → Recheck
add_to_schema_recheck_queue schemafile s =
    if contains s.failed schemafile then s else record s { queued = s.queued ++ schemafile ∷ [] }

-- One round of `receiveRecheck`; with an empty channel it waits.
unfoldable pub receive_recheck : Recheck → Option Recheck
receive_recheck s = elim s.queued [
  | [] ↦ none
  | root ∷ rest ↦
      if contains s.failed root
      then some (record s { queued = rest })
      else some (record { queued = rest; failed = root ∷ s.failed; sleeping = root ∷ s.sleeping })
]

without : Bytes → List Bytes → List Bytes
without a [] = []
without a (x ∷ xs) = let rest = without a xs in if x == a then rest else x ∷ rest

-- The goroutine of a name wakes up: the name is no failed one any more, and the update runs.
unfoldable pub wake : Bytes → Recheck → Recheck
unfolding without
wake name s = record s { failed = without name s.failed; sleeping = without name s.sleeping }

-- From the start, by sends, rounds and awakenings of sleeping goroutines.
pub data Run : Recheck → Type 0 where
  start : Run (record { queued = []; failed = []; sleeping = [] })
  added : {s : Recheck} (name : Bytes) → Run s → Run (add_to_recheck_queue name s)
  received : {s t : Recheck} → Run s → receive_recheck s ≡ some t → Run t
  awake : {s : Recheck} (name : Bytes) → Run s → contains s.sleeping name ≡ true → Run (wake name s)

-- A name that is marked as failed has a goroutine that will update it, and the other way round.
receive-marks :
    (s t : Recheck) → s.failed ≡ s.sleeping → receive_recheck s ≡ some t → t.failed ≡ t.sleeping
unfolding receive_recheck
receive-marks s t e r = ground arith

Run-marks : (s : Recheck) → Run s → s.failed ≡ s.sleeping
unfolding add_to_recheck_queue wake
Run-marks s start = refl
Run-marks s (added {s = t} name p) = ground (arith, Run-marks t p)
Run-marks s (received {s = t} p e) = receive-marks t s (Run-marks t p) e
Run-marks s (awake {s = t} name p e) = ap (without name) (Run-marks t p)

-- The update of the name will be tried again: it is queued, or a goroutine sleeps before the update
-- of it, or before that of everything.
abbrev pub will_update : Bytes → Recheck → Bool
will_update name s =
    contains s.queued name || (contains s.sleeping name || contains s.sleeping star)

-- In a reachable state a failed update is never forgotten: after it is reported, its name is queued, or
-- a goroutine sleeps that will update it, or everything.
pub Run-added :
    (s : Recheck) (name : Bytes) → Run s → will_update name (add_to_recheck_queue name s) ≡ true
unfolding add_to_recheck_queue contains
Run-added s name p = ground (
  arith,
  ap (λ l. contains l star) (Run-marks s p),
  ap (λ l. contains l name) (Run-marks s p),
  contains-append s.queued (name ∷ []) name,
  beq_refl name,
)

received_from :
    (s t : Recheck) (name : Bytes) (q : List Bytes)
    → s.queued ≡ q
    → s.failed ≡ s.sleeping
    → receive_recheck s ≡ some t
    → will_update name s ≡ true
    → will_update name t ≡ true
unfolding receive_recheck contains
received_from s t name [] h m e w = ground (arith, h)
received_from s t name (root ∷ rest) h m e w =
    ground
      (arith, h, ap (λ l. contains l root) m, bytes_beq_iff root name, ap (λ l. contains l name) h)

-- In a reachable state, taking the next name from the queue forgets none: whatever was to be updated
-- still is.
pub Run-received :
    (s t : Recheck) (name : Bytes)
    → Run s
    → receive_recheck s ≡ some t
    → will_update name s ≡ true
    → will_update name t ≡ true
Run-received s t name p e w = received_from s t name s.queued refl (Run-marks s p) e w
