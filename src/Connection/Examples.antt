-- ===== src/Connection/Examples.antt =====
-- Concrete runs of the requests and responses of connection/conn_handler.go.
use dove.Base.{
  ℕ, ◌+◌, ◌-◌, ◌≤◌, ◌≡◌, refl, ◌≢◌, true, false, none, List, [], ◌∷◌, ◌++◌, arith, take, drop,
  replicate, Bytes, codes, bytes_beq, nat_eq, bytes_eq, contains, Result, ok,
}
use dove.Base.Decimal.{itoa}
use dove.Connection.Console.{console_read, console_loop, fresh, command, command_of, stats}
use dove.Connection.Console.Lines.{crlf, console_loop-split}
use dove.Connection.Console.Reads.{console_loop-ends}
use dove.Connection.Server.{Counter, no_connections, accept, stop_may_return}
use dove.Connection.Server.Bound
use dove.Connection.Server.Bound.{Run-handlers}
use dove.Connection.Response.{Conn, response, response_lem, length_tag}
use dove.Connection.Request.{arrived, broken, timeout, read_request}
use dove.Connection.Shutdown.{Run, start, checked, used, stops, signals, sends, sent, Run-signalled}
use dove.Connection.Request.Segments.{arrive, bytes_of, request_frame, read_request-request_frame}
use dove.Connection.Request.Outcomes.{IsSound, read_request-IsSound}

abbrev open_conn : Conn
open_conn = record { sent = []; outcomes = [] }

abbrev ok_status : Bytes
ok_status = codes "OK"

abbrev ping : Bytes
ping = codes "ping"

response_lem_example :
    response ok_status ping open_conn
    ≡ (ok tt, record open_conn { sent = length_tag 4 ++ ((ok_status ++ replicate 6 0) ++ ping) })
response_lem_example = (response_lem ok_status ping open_conn (omega arith) (omega arith) refl).0

-- Two requests in three segments that are cut inside the tag and inside the body.
abbrev chunks : List Bytes
chunks =
    take 3 (request_frame ping)
    ∷ (take 7 (drop 3 (request_frame ping)))
    ∷ (drop 10 (request_frame ping) ++ codes "CLOSE")
    ∷ []

read_request-request_frame_example :
    (rest : List Bytes) × (read_request (arrive chunks)
      ≡ (record { closed = false; body = ping; error = none }, arrive rest))
    × (bytes_of rest ≡ codes "CLOSE")
unfolding itoa
read_request-request_frame_example =
    read_request-request_frame ping (codes "CLOSE") chunks (omega arith) (omega arith) refl

read_request-IsSound_example :
    IsSound (read_request (arrived (codes "CLO") ∷ broken timeout ∷ [])).0
read_request-IsSound_example = read_request-IsSound (arrived (codes "CLO") ∷ broken timeout ∷ [])

-- A handler that answers the body, and counts the requests.
abbrev echo : Bytes → ℕ → Result Bytes Bytes × ℕ
echo body n = (ok body, n + 1)

one_waits : Run 0 1 0 (record {
  user_counter = 1;
  tokens = 1;
  to_send = 0;
  sending = false;
  stopping = true;
  signalled = true;
})
one_waits =
    sent
      (sends (signals (stops (used (checked start refl) refl refl)) refl refl refl) refl
        (omega arith) (omega arith))
      refl refl

Run-signalled_example : (1 ≤ 1 + 0) × (1 ≤ 100)
Run-signalled_example =
    Run-signalled 0 1 0
      (record {
        user_counter = 1;
        tokens = 1;
        to_send = 0;
        sending = false;
        stopping = true;
        signalled = true;
      })
      one_waits refl

abbrev fifty_bytes : List Bytes
fifty_bytes = replicate 50 (codes "x")

console_loop-ends_example : console_loop fifty_bytes fresh ≢ ([], false)
console_loop-ends_example = console_loop-ends fifty_bytes (ground arith) (omega arith)

console_loop-split_example :
    (console_read ((codes "sta" ++ codes "ts") ++ crlf) fresh
      ≡ command (command_of (codes "sta" ++ codes "ts")))
    × (console_loop (codes "sta" ∷ (codes "ts" ++ crlf) ∷ []) fresh ≡ ([], false))
console_loop-split_example =
    console_loop-split (codes "sta") (codes "ts") (omega arith) (ground arith) (ground arith)
      (omega arith)

stats_run : console_loop (codes "stats\r\n" ∷ []) fresh ≡ (stats ∷ [], false)
unfolding console_loop command_of bytes_beq dove.Base.Text.to_lower dove.Base.Text.trim_right
    contains
stats_run = refl

abbrev one_connection : Counter
one_connection = record no_connections { handlers = 0 + 1; sending = true }

one_run : dove.Connection.Server.Bound.Run 0 one_connection
unfolding accept dove.Connection.Server.count_exceeds
one_run = dove.Connection.Server.Bound.accepted true dove.Connection.Server.Bound.start refl refl

Run-handlers_example : one_connection.handlers ≤ 0 + 102
Run-handlers_example = Run-handlers 0 one_connection one_run

-- One connection is served, and none is counted.
not_counted : (one_connection.handlers ≡ 1) × (stop_may_return one_connection ≡ true)
unfolding stop_may_return dove.Connection.Server.count_exceeds
not_counted = (refl, refl)
