-- ===== src/Connection/Statistics.antt =====
-- The counters of requests by the minute: `receiveStats` and `gcStats` of connection/statistics.go.
use dove.Base.{
  ℕ, zero, suc, ◌+◌, ◌-◌, ◌*◌, ◌≡◌, refl, ap, ◌∙◌, Bool, true, false, not, Option, none, some, List,
  [], ◌∷◌, arith, nat_beq, if◌then◌else◌, length, ◌==◌, Bytes, nat_eq, bytes_eq, beq_refl,
}
use dove.Base.Dict.{Dict, lookup, insert, delete, lookup-insert}

abbrev pub connaction_accept : ℕ
connaction_accept = 1

abbrev pub connaction_response : ℕ
connaction_response = 2

abbrev pub connaction_process_fin : ℕ
connaction_process_fin = 3

-- Both states have the same value in the source.
abbrev pub connaction_status_ok : ℕ
connaction_status_ok = 1

abbrev pub connaction_status_failed : ℕ
connaction_status_failed = 1

pub record StatsMessage : Type 0 where
  pub cmd : Bytes
  pub action : ℕ
  pub status : ℕ

pub record Stats : Type 0 where
  pub total_req : ℕ
  pub finished_req : ℕ
  pub failed_req : ℕ

abbrev pub no_stats : Stats
no_stats = record { total_req = 0; finished_req = 0; failed_req = 0 }

-- The counters of a minute by command, and the minutes by their index.
abbrev pub Segment : Type 0
Segment = Dict Bytes Stats

abbrev pub Segments : Type 0
Segments = Dict ℕ Segment

abbrev pub segment_or_new : Option Segment → Segment
segment_or_new none = []
segment_or_new (some s) = s

abbrev pub stats_or_new : Option Stats → Stats
stats_or_new none = no_stats
stats_or_new (some s) = s

abbrev pub counted_in : ℕ → Stats → Stats
counted_in status s =
    if nat_beq status connaction_status_ok
    then record s { total_req = s.total_req + 1; finished_req = s.finished_req + 1 }
    else record s { total_req = s.total_req + 1; failed_req = s.failed_req + 1 }

-- One round of the loop, in the minute given.
unfoldable pub receive_stats : ℕ → StatsMessage → Segments → Segments
receive_stats current m segs =
    let seg = segment_or_new (lookup current segs) in
    let stats = stats_or_new (lookup m.cmd seg) in
    if not (nat_beq m.action connaction_process_fin)
    then segs
    else insert current (insert m.cmd (counted_in m.status stats) seg) segs

abbrev pub max_in_mem_stats_length : ℕ
max_in_mem_stats_length = 30

-- `for i := 1; delRangeLength-i >= 0; i++ { … }`: the indexes that are deleted, counted down.
unfoldable pub del_loop : ℕ → ℕ → Segments → Segments
del_loop current zero segs = segs
del_loop current (suc i) segs =
    delete (current - (max_in_mem_stats_length * 24 + suc i) * 60) (del_loop current i segs)

unfoldable pub gc_stats : ℕ → Segments → Segments
unfolding del_loop
gc_stats current segs = del_loop current (length segs - max_in_mem_stats_length * 24 * 60) segs

-- The two messages of `runRequestHandler` for one request, by whether the handler failed.
abbrev pub fin_status : Bool → ℕ
fin_status failed = if failed then connaction_status_failed else connaction_status_ok

abbrev pub request_messages : Bytes → Bool → List StatsMessage
request_messages cmd failed =
    (record { cmd = cmd; action = connaction_accept; status = connaction_status_ok })
    ∷ (record { cmd = cmd; action = connaction_process_fin; status = fin_status failed })
    ∷ []

pub receive_all : ℕ → List StatsMessage → Segments → Segments
receive_all current [] segs = segs
receive_all current (m ∷ ms) segs = receive_all current ms (receive_stats current m segs)

abbrev pub stats_of : ℕ → Bytes → Segments → Stats
stats_of current cmd segs = stats_or_new (lookup cmd (segment_or_new (lookup current segs)))

stats_of-receive_stats :
    (current : ℕ) (m : StatsMessage) (segs : Segments) (cmd : Bytes)
    → m.action ≡ connaction_process_fin
    → stats_of current cmd (receive_stats current m segs) ≡ (
        if m.cmd == cmd
        then counted_in m.status (stats_of current m.cmd segs)
        else stats_of current cmd segs)
unfolding receive_stats
stats_of-receive_stats current m segs cmd e = ground (
  arith,
  e,
  lookup-insert current current
      (insert m.cmd (counted_in m.status (stats_of current m.cmd segs))
        (segment_or_new (lookup current segs)))
      segs,
  beq_refl current,
  lookup-insert m.cmd cmd (counted_in m.status (stats_of current m.cmd segs))
      (segment_or_new (lookup current segs)),
)

receive_stats_ignored :
    (current : ℕ) (m : StatsMessage) (segs : Segments)
    → m.action ≡ connaction_accept
    → receive_stats current m segs ≡ segs
unfolding receive_stats
receive_stats_ignored current m segs e = ground (arith, e)

counted_ok :
    (failed : Bool) (s : Stats)
    → counted_in (fin_status failed) s ≡ record {
      total_req = s.total_req + 1;
      finished_req = s.finished_req + 1;
      failed_req = s.failed_req;
    }
counted_ok true s = refl
counted_ok false s = refl

-- A request of a command, whether its handler failed or not, counts as one that was finished, and never
-- as one that failed; the counters of the other commands of the minute stay as they are.
receive_all-request_messages :
    (current : ℕ) (cmd other : Bytes) (failed : Bool) (segs : Segments)
    → stats_of current other (receive_all current (request_messages cmd failed) segs) ≡ (
        if cmd == other
        then record {
          total_req = (stats_of current cmd segs).total_req + 1;
          finished_req = (stats_of current cmd segs).finished_req + 1;
          failed_req = (stats_of current cmd segs).failed_req;
        }
        else stats_of current other segs)
unfolding receive_all
receive_all-request_messages current cmd other failed segs =
    rw
      (receive_stats_ignored current
        (record { cmd = cmd; action = connaction_accept; status = connaction_status_ok }) segs refl)
      (stats_of-receive_stats current
          (record { cmd = cmd; action = connaction_process_fin; status = fin_status failed }) segs
          other refl
        ∙ ap (λ c. if cmd == other then c else stats_of current other segs)
            (counted_ok failed (stats_of current cmd segs)))
