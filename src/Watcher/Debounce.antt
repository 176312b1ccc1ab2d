-- ===== src/Watcher/Debounce.antt =====
-- Which of several tasks runs the callbacks, or reports the results: getLockOfExecCallback and
-- getLockOfExecResultReporting of configwatcher/zk_watcher.go. A task takes the time as its stamp,
-- leaves it, sleeps, and looks whether it is still the last one.
use dove.Base.{
  ℕ, ◌≡◌, refl, sym, ap, ◌∙◌, Bool, true, false, List, [], ◌∷◌, ◌++◌, append_assoc, append-nil,
  arith, ◌==◌, nat_eq, bytes_eq, beq_refl, contains,
}

-- The stamps in the channel `callbackReqChan`, the last one that was received, and the last one that
-- was left for the reports.
pub record Stamps : Type 0 where
  pub callback_req_chan : List ℕ
  pub last_req_time : ℕ
  pub report_time_tag : ℕ

-- A send to the channel that is full waits, and is the step in which it goes through.
unfoldable pub req_callback : ℕ → Stamps → Stamps
req_callback timestamp s = record s { callback_req_chan = s.callback_req_chan ++ timestamp ∷ [] }

-- One round of the receiver; with an empty channel it waits.
unfoldable pub receive_req_callback : Stamps → Stamps
receive_req_callback s = elim s.callback_req_chan [
  | [] ↦ s
  | t ∷ rest ↦ record s { callback_req_chan = rest; last_req_time = t }
]

-- What getLockOfExecCallback gives behind the sleep.
unfoldable pub has_lock_of_exec_callback : ℕ → Stamps → Bool
has_lock_of_exec_callback timestamp s = s.last_req_time == timestamp

unfoldable pub set_report_time_tag : ℕ → Stamps → Stamps
set_report_time_tag my_tag s = record s { report_time_tag = my_tag }

-- What getLockOfExecResultReporting gives behind the sleep.
unfoldable pub has_lock_of_exec_result_reporting : ℕ → Stamps → Bool
has_lock_of_exec_result_reporting my_tag s = s.report_time_tag == my_tag

-- What the other tasks and the receiver do while a task sleeps.
pub data Event : Type 0 where
  requested : ℕ → Event
  received : Event
  tagged : ℕ → Event

unfoldable pub step : Event → Stamps → Stamps
unfolding req_callback receive_req_callback set_report_time_tag
step (requested t) s = req_callback t s
step received s = receive_req_callback s
step (tagged t) s = set_report_time_tag t s

unfoldable pub run : List Event → Stamps → Stamps
unfolding step
run [] s = s
run (e ∷ events) s = run events (step e s)

-- The stamps that the others leave.
abbrev pub requests : List Event → List ℕ
requests [] = []
requests (requested t ∷ events) = t ∷ requests events
requests (received ∷ events) = requests events
requests (tagged t ∷ events) = requests events

abbrev pub tags : List Event → List ℕ
tags [] = []
tags (requested t ∷ events) = tags events
tags (received ∷ events) = tags events
tags (tagged t ∷ events) = t ∷ tags events

abbrev pub is_nil : List ℕ → Bool
is_nil [] = true
is_nil (t ∷ ts) = false

last_of : ℕ → List ℕ → ℕ
last_of t [] = t
last_of t (u ∷ ts) = last_of u ts

last_of-append :
    (t : ℕ) (xs : List ℕ) (u : ℕ) (ys : List ℕ) → last_of t (xs ++ u ∷ ys) ≡ last_of u ys
unfolding last_of
last_of-append t [] u ys = refl
last_of-append t (x ∷ xs) u ys = last_of-append x xs u ys

-- The last stamp of all is that of the task itself only if the others left none.
last_of-own : (t u : ℕ) (ts : List ℕ) → contains (u ∷ ts) t ≡ false → (last_of u ts == t) ≡ false
unfolding last_of contains
last_of-own t u [] h = ground (arith, h)
last_of-own t u (v ∷ ts) h = last_of-own t v ts (ground (arith, h))

own_last : (t : ℕ) (ts : List ℕ) → contains ts t ≡ false → (last_of t ts == t) ≡ is_nil ts
unfolding last_of
own_last t [] h = beq_refl t
own_last t (u ∷ ts) h = last_of-own t u ts h

step-last :
    (s : Stamps) (c : List ℕ) (events : List Event)
    → s.callback_req_chan ≡ c
    → last_of
        (receive_req_callback s).last_req_time
        ((receive_req_callback s).callback_req_chan ++ requests events)
      ≡ last_of s.last_req_time (s.callback_req_chan ++ requests events)
unfolding receive_req_callback last_of
step-last s [] events h = rw h refl
step-last s (t ∷ rest) events h = rw h refl

run-last :
    (events : List Event) (s : Stamps)
    → last_of (run events s).last_req_time (run events s).callback_req_chan
      ≡ last_of s.last_req_time (s.callback_req_chan ++ requests events)
unfolding run req_callback
run-last [] s = ap (last_of s.last_req_time) (sym (append-nil s.callback_req_chan))
run-last (requested t ∷ events) s =
    run-last events (req_callback t s)
    ∙ ap (last_of s.last_req_time) (append_assoc s.callback_req_chan (t ∷ []) (requests events))
run-last (received ∷ events) s =
    run-last events (receive_req_callback s) ∙ step-last s s.callback_req_chan events refl
run-last (tagged t ∷ events) s = run-last events (set_report_time_tag t s)

receive-tag :
    (s : Stamps) (c : List ℕ)
    → s.callback_req_chan ≡ c
    → (receive_req_callback s).report_time_tag ≡ s.report_time_tag
unfolding receive_req_callback
receive-tag s [] h = rw (h, receive_req_callback) refl
receive-tag s (t ∷ rest) h = rw (h, receive_req_callback) refl

run-tag :
    (events : List Event) (s : Stamps)
    → (run events s).report_time_tag ≡ last_of s.report_time_tag (tags events)
unfolding run req_callback receive_req_callback set_report_time_tag last_of
run-tag [] s = refl
run-tag (requested t ∷ events) s = run-tag events (req_callback t s)
run-tag (received ∷ events) s =
    run-tag events (receive_req_callback s)
    ∙ ap (λ x. last_of x (tags events)) (receive-tag s s.callback_req_chan refl)
run-tag (tagged t ∷ events) s = run-tag events (set_report_time_tag t s)

-- A task leaves its stamp for the callbacks and sleeps; no other task leaves the same stamp, and when
-- the task looks, the receiver has taken all stamps. Then getLockOfExecCallback tells it that it may run the
-- callbacks exactly if no task left a stamp behind it.
pub has_lock_of_exec_callback-run :
    (t : ℕ) (s : Stamps) (events : List Event)
    → contains (requests events) t ≡ false
    → (run events (req_callback t s)).callback_req_chan ≡ []
    → has_lock_of_exec_callback t (run events (req_callback t s)) ≡ is_nil (requests events)
unfolding has_lock_of_exec_callback req_callback last_of run
has_lock_of_exec_callback-run t s events h c =
    let s' = run events (req_callback t s) in
    let last : s'.last_req_time ≡ last_of t (requests events) =
      ap (last_of s'.last_req_time) (sym c)
      ∙ run-last (requested t ∷ events) s
      ∙ last_of-append s.last_req_time s.callback_req_chan t (requests events) in
    ap (λ x. x == t) last ∙ own_last t (requests events) h

-- The same for the reports, whose stamp is left at once.
pub has_lock_of_exec_result_reporting-run :
    (t : ℕ) (s : Stamps) (events : List Event)
    → contains (tags events) t ≡ false
    → has_lock_of_exec_result_reporting t (run events (set_report_time_tag t s))
      ≡ is_nil (tags events)
unfolding has_lock_of_exec_result_reporting last_of set_report_time_tag run
has_lock_of_exec_result_reporting-run t s events h =
    ap (λ x. x == t) (run-tag (tagged t ∷ events) s) ∙ own_last t (tags events) h
