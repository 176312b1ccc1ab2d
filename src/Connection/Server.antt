-- ===== src/Connection/Server.antt =====
-- The local server: StartLocalServer, StopLocalServer, the counter of connections and the profiler's
-- listener of connection/conn_handler.go.
pub mod Bound
use dove.Base.{
  ℕ, ◌+◌, ◌-◌, Bool, true, false, not, ◌&&◌, Option, none, some, List, [], ◌∷◌, ◌++◌, ltb,
  if◌then◌else◌, ◌==◌, Bytes, nat_eq, bytes_eq, Result, ok, err,
}

pub data ServerError : Type 0 where
  no_listener no_mode : ServerError

-- What the start finds: whether the process is a backup instance, whether it takes over the socket of
-- the process before, how making the listener and changing its mode end, and the system.
pub record Start : Type 0 where
  pub run_as_bi : Bool
  pub is_restart : Bool
  pub is_unix : Bool
  pub file_listener_ok : Bool
  pub listen_ok : Bool
  pub chmod_ok : Bool

-- The old socket is removed, unless it is taken over, and the console is started.
pub record Listening : Type 0 where
  pub addr : Bytes
  pub old_removed : Bool
  pub has_console : Bool

unfoldable pub start_local_server : Start → Bytes → Bytes → Result ServerError Listening
start_local_server w listen_addr listen_addr_transi =
    let addr : Bytes = if w.run_as_bi then listen_addr_transi else listen_addr in
    let listens : Bool = if w.is_restart then w.file_listener_ok else w.listen_ok in
    if not listens
    then err no_listener
    else if w.is_unix && not w.chmod_ok
    then err no_mode
    else ok (record {
      addr = addr;
      old_removed = not w.is_restart && w.is_unix;
      has_console = not w.run_as_bi;
    })

-- The connections: what the counter has added up of the messages 1 and -1, the message it has in hand,
-- the messages in the channel (`true` is 1), whether the loop of the server is about to send its 1, the
-- handlers that run, and those that have closed their connection and are about to send their -1.
pub record Counter : Type 0 where
  pub plus : ℕ
  pub minus : ℕ
  pub in_hand : Option Bool
  pub counter_ch : List Bool
  pub sending : Bool
  pub handlers : ℕ
  pub leaving : ℕ

abbrev pub no_connections : Counter
no_connections = record {
  plus = 0;
  minus = 0;
  in_hand = none;
  counter_ch = [];
  sending = false;
  handlers = 0;
  leaving = 0;
}

abbrev pub places : ℕ
places = 100

-- GetCurrentConnectionCount() > limit
unfoldable pub count_exceeds : ℕ → Counter → Bool
count_exceeds limit s = ltb (limit + s.minus) s.plus

-- A connection is accepted: it is refused, or a handler is started.
unfoldable pub accept : ℕ → Counter → Bool × Counter
unfolding count_exceeds
accept max_connections s =
    if count_exceeds max_connections s
    then (false, s)
    else (true, record s { handlers = s.handlers + 1; sending = true })

-- `counterCh <- 1`, and `counterCh <- -1` of a handler that leaves.
unfoldable pub send_plus : Counter → Counter
send_plus s = record s { counter_ch = s.counter_ch ++ true ∷ []; sending = false }

unfoldable pub close_conn_of : Counter → Counter
close_conn_of s = record s { handlers = s.handlers - 1; leaving = s.leaving + 1 }

unfoldable pub send_minus : Counter → Counter
send_minus s = record s { counter_ch = s.counter_ch ++ false ∷ []; leaving = s.leaving - 1 }

-- connCounter takes a message, and counts it once it has the lock.
unfoldable pub take_message : Counter → Counter
take_message s = elim s.counter_ch [
  | [] ↦ s
  | m ∷ rest ↦ record s { in_hand = some m; counter_ch = rest }
]

unfoldable pub count_message : Counter → Counter
count_message s = elim s.in_hand [
  | none ↦ s
  | some true ↦ record s { plus = s.plus + 1; in_hand = none }
  | some false ↦ record s { minus = s.minus + 1; in_hand = none }
]

-- The loop of StopLocalServer is left when there is no connection by the count.
unfoldable pub stop_may_return : Counter → Bool
unfolding count_exceeds
stop_may_return s = not (count_exceeds 0 s)

-- What the loop of the server does with what `Accept` gives: an error, or a connection, with the count
-- at that time and whether a message of SendSignal is there behind it.
pub data Accepted : Type 0 where
  accept_failed : Accepted
  connected : ℕ → Bool → Accepted

pub data Round : Type 0 where
  retried refused served served_last : Round

accept_round : ℕ → Accepted → Round
accept_round max_connections accept_failed = retried
accept_round max_connections (connected count signal) =
    if ltb max_connections count then refused else if signal then served_last else served

-- The rounds, up to the one behind which the server returns.
unfoldable pub accept_loop : ℕ → List Accepted → List Round
unfolding accept_round
accept_loop max_connections [] = []
accept_loop max_connections (a ∷ more) =
    let rest = accept_loop max_connections more in
    elim (accept_round max_connections a) [
      | served_last ↦ served_last ∷ []
      | retried ↦ retried ∷ rest
      | refused ↦ refused ∷ rest
      | served ↦ served ∷ rest
    ]

-- A listener that is kept in a variable: it is forgotten when it could be closed. StopPProf, and
-- StopConsole of connection/statistics.go.
unfoldable pub stop_pprof : Bool → Bool → Bool
stop_pprof close_ok is_there = is_there && not close_ok

unfoldable pub stop_console : Bool → Bool → Bool
stop_console close_ok is_there = is_there && not close_ok

-- The listener of the profiler, if an address is set and can be listened on.
unfoldable pub start_pprof : Bytes → Bool → Bool
start_pprof pprof_listen listen_ok = not (pprof_listen == []) && listen_ok
