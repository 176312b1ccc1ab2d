-- ===== src/Watcher/Watching.antt =====
-- The loop of a goroutine that watches a root: watchItem of configwatcher/zk_watcher.go. What it does to
-- the watch list when it starts and when it is told to quit is in Watcher.Nodes.
use dove.Base.{
  ℕ, suc, ◌+◌, ◌≡◌, ◌∙◌, Bool, true, false, List, [], ◌∷◌, arith, if◌then◌else◌, nat_eq, bytes_eq,
}

-- What arrives on the stream of the watch.
pub record Response : Type 0 where
  pub canceled : Bool
  pub has_error : Bool
  pub has_events : Bool

-- What the select gets; a response and a reset come with the connection that is in use then.
pub data WatchEvent : Type 0 where
  responded : ℕ → Response → WatchEvent
  driver_reset : ℕ → WatchEvent
  un_watched : WatchEvent

-- The connection that the stream is one of, the updates that were started, the seconds that were slept.
pub record Watching : Type 0 where
  pub stream_of : ℕ
  pub updates : ℕ
  pub slept : ℕ

re_watch : ℕ → Watching → Watching
re_watch conn w = record w { stream_of = conn }

-- A response with events starts an update, and nothing else is done, even if it says that the watch is
-- canceled; any other one is a sign that the stream is broken.
watch_response : ℕ → Response → Watching → Watching
unfolding re_watch
watch_response conn r w =
    if r.has_events
    then record w { updates = suc w.updates }
    else re_watch conn (record w { slept = w.slept + 5 })

-- The events up to the one that ends the loop; the result says whether it has ended.
unfoldable pub watch_loop : List WatchEvent → Watching → Watching × Bool
unfolding watch_response re_watch
watch_loop [] w = (w, false)
watch_loop (responded conn r ∷ events) w = watch_loop events (watch_response conn r w)
watch_loop (driver_reset conn ∷ events) w = watch_loop events (re_watch conn w)
watch_loop (un_watched ∷ events) w = (w, true)

-- The responses with events before the loop is told to end.
abbrev pub changes : List WatchEvent → ℕ
changes [] = 0
changes (responded conn r ∷ events) = if r.has_events then suc (changes events) else changes events
changes (driver_reset conn ∷ events) = changes events
changes (un_watched ∷ events) = 0

response-updates :
    (conn : ℕ) (r : Response) (w : Watching) (n : ℕ)
    → (watch_response conn r w).updates + n ≡ w.updates + (if r.has_events then suc n else n)
unfolding watch_response re_watch
response-updates conn r w n = ground arith

-- Each response with events starts one update, whatever happens to the connection in between.
pub watch_loop-updates :
    (events : List WatchEvent) (w : Watching)
    → (watch_loop events w).0.updates ≡ w.updates + changes events
unfolding watch_loop re_watch
watch_loop-updates [] w = omega arith
watch_loop-updates (responded conn r ∷ events) w =
    watch_loop-updates events (watch_response conn r w) ∙ response-updates conn r w (changes events)
watch_loop-updates (driver_reset conn ∷ events) w = watch_loop-updates events (re_watch conn w)
watch_loop-updates (un_watched ∷ events) w = omega arith
