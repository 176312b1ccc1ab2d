-- ===== src/Connection/Serve.antt =====
-- Serving a connection: `HandleConn` and `processRequest` of connection/conn_handler.go. What a
-- request does to the state of the daemon is an argument.
pub mod Replies
use dove.Base.{
  ℕ, ◌+◌, ◌/◌, ◌%◌, Bool, true, false, ◌||◌, none, some, List, [], ◌∷◌, ◌++◌, ltb, nat_beq,
  if◌then◌else◌, Bytes, codes, nat_eq, bytes_eq, Result, ok, err,
}
use dove.Connection.Response.{Conn, ResponseError, write, response, panics, write_failed}
use dove.Connection.Request.{Request}

abbrev hex : ℕ → ℕ
hex n = if ltb n 10 then b'0' + n else 87 + n

-- One byte of a string in `json.Marshal`, which also escapes the letters of HTML; the bytes from 128
-- on are those of valid text in UTF-8.
marshal_byte : ℕ → Bytes
marshal_byte c =
    if nat_beq c b'"' || nat_beq c b'\\'
    then b'\\' ∷ c ∷ []
    else if nat_beq c 10
    then codes "\\n"
    else if nat_beq c 13
    then codes "\\r"
    else if nat_beq c 9
    then codes "\\t"
    else if ltb c 32 || nat_beq c b'<' || nat_beq c b'>' || nat_beq c b'&'
    then codes "\\u00" ++ hex (c / 16) ∷ hex (c % 16) ∷ []
    else c ∷ []

marshal_bytes : Bytes → Bytes
unfolding marshal_byte
marshal_bytes [] = []
marshal_bytes (c ∷ s) = marshal_byte c ++ marshal_bytes s

-- json.Marshal(err.Error())
pub marshal_string : Bytes → Bytes
unfolding marshal_bytes
marshal_string s = b'"' ∷ (marshal_bytes s ++ b'"' ∷ [])

-- The status and the data of an answer: the result, or the message of an error.
unfoldable pub answer_of : Result Bytes Bytes → Bytes × Bytes
answer_of (ok re) = (codes "ok", re)
answer_of (err message) = (codes "failed", marshal_string message)

-- What the loop receives: the signal to stop, or a request that was read.
pub data Event : Type 0 where
  stop_signal : Event
  request : Request → Event

-- How the handler ends: `waits` for the next event, returns, having called `Unuse` or not, or panics.
pub data HandlerEnd : Type 0 where
  waits panicked : HandlerEnd
  returned : Bool → HandlerEnd

-- The deferred function: "CLOSE" goes out, whether that succeeds or not.
unfoldable pub close_conn : Conn → Conn
unfolding write
close_conn c = (write (codes "CLOSE") c).1

pub after_response : Result ResponseError (Unit {0}) → Bool × Bool
after_response (ok u) = (true, false)
after_response (err write_failed) = (false, false)
after_response (err panics) = (false, true)

-- The loop, over the state `S` of the daemon, which a request may change.
module _ {S : Type 0} (process_request : Bytes → S → Result Bytes Bytes × S) where
  unfoldable pub handle_loop : List Event → S → Conn → HandlerEnd × S × Conn
  unfolding after_response
  handle_loop [] s c = (waits, s, c)
  handle_loop (stop_signal ∷ events) s c = (returned false, s, close_conn c)
  handle_loop (request r ∷ events) s c =
      let (result, s') = process_request r.body s in
      let (status, re) = answer_of result in
      let (sent, c') = response status re c in
      let (went_on, panic) = after_response sent in
      let rest = handle_loop events s' c' in
      if r.closed then (returned true, s, close_conn c) else elim r.error [
        | some e ↦ (returned true, s, close_conn c)
        | none ↦
            if went_on
            then rest
            else if panic
            then (panicked, s', close_conn c')
            else (returned true, s', close_conn c')
      ]

  -- A connection that comes while the server stops is closed at once.
  unfoldable pub handle_conn : Bool → List Event → S → Conn → HandlerEnd × S × Conn
  handle_conn stopping events s c =
      if stopping then (returned false, s, close_conn c) else handle_loop events s c
