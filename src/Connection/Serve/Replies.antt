-- ===== src/Connection/Serve/Replies.antt =====
-- What a client of connection/conn_handler.go reads.
use dove.Base.{
  ◌-◌, ◌<◌, false, none, List, [], ◌∷◌, ◌++◌, length, replicate, Bytes, nat_eq, bytes_eq, Result,
}
use dove.Base.Decimal.{power_of_ten}
use dove.Connection.Response.{length_tag}
use dove.Connection.Request.{Request, closing}
use dove.Connection.Serve.{Event, request, answer_of}

-- The frame of an answer: the length of the data, the status, the data.
abbrev pub reply_frame : Bytes × Bytes → Bytes
reply_frame a = length_tag (length a.1) ++ ((a.0 ++ replicate (8 - length a.0) 0) ++ a.1)

abbrev pub good : Bytes → Request
good body = record { closed = false; body = body; error = none }

abbrev pub requests : List Bytes → List Event
requests [] = request closing ∷ []
requests (body ∷ bodies) = request (good body) ∷ requests bodies

module _ {S : Type 0} (process_request : Bytes → S → Result Bytes Bytes × S) where
  -- The frames of the answers, in the order of the requests, and the state behind them.
  abbrev pub replies : List Bytes → S → Bytes × S
  replies [] s = ([], s)
  replies (body ∷ bodies) s =
      let (r, s') = process_request body s in
      let (rest, s'') = replies bodies s' in (reply_frame (answer_of r) ++ rest, s'')

  -- Every answer has fewer than 10^8 bytes.
  abbrev pub AreShort : List Bytes → S → Type 0
  AreShort [] s = Unit
  AreShort (body ∷ bodies) s =
      (length (answer_of (process_request body s).0).1 < power_of_ten 8)
      × AreShort bodies (process_request body s).1
