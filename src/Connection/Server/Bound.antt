-- ===== src/Connection/Server/Bound.antt =====
-- How many connections the local server of connection/conn_handler.go has at most.
use dove.Base.{
  ℕ, suc, ◌+◌, ◌≤◌, ◌<◌, ◌≡◌, refl, inl, inr, Bool, true, false, Option, none, some, List, [], ◌∷◌,
  ◌++◌, arith, ltb, if◌then◌else◌, Bool-cases, length, length-append, nat_eq, bytes_eq,
}
use dove.Connection.Server.{
  Counter, no_connections, places, count_exceeds, accept, send_plus, close_conn_of, send_minus,
  take_message, count_message, stop_may_return,
}

-- The runs of the server's loop, the handlers and the counter. A send waits for a place.
pub data Run (max : ℕ) : Counter → Type 0 where
  start : Run max no_connections
  accepted :
      {s t : Counter} (b : Bool) → Run max s → s.sending ≡ false → accept max s ≡ (b, t) → Run max t
  sent :
      {s : Counter}
      → Run max s
      → s.sending ≡ true
      → length s.counter_ch < places
      → Run max (send_plus s)
  closed : {s : Counter} → Run max s → 0 < s.handlers → Run max (close_conn_of s)
  left :
      {s : Counter}
      → Run max s
      → 0 < s.leaving
      → length s.counter_ch < places
      → Run max (send_minus s)
  taken : {s : Counter} → Run max s → s.in_hand ≡ none → Run max (take_message s)
  counted : {s : Counter} → Run max s → Run max (count_message s)

-- The messages of one sign in the channel, or in hand.
abbrev pub messages : Bool → List Bool → ℕ
messages b [] = 0
messages b (m ∷ ms) =
    if m
    then (if b then suc (messages b ms) else messages b ms)
    else (if b then messages b ms else suc (messages b ms))

abbrev pub hand : Bool → Option Bool → ℕ
hand b none = 0
hand b (some m) = messages b (m ∷ [])

abbrev pub one_if : Bool → ℕ
one_if true = 1
one_if false = 0

messages-append :
    (b m : Bool) (ms : List Bool) → messages b (ms ++ m ∷ []) ≡ messages b ms + messages b (m ∷ [])
messages-append b m [] = ground arith
messages-append b m (x ∷ ms) = ground (arith, messages-append b m ms)

messages-le : (b : Bool) (ms : List Bool) → messages b ms ≤ length ms
messages-le b [] = omega arith
messages-le b (m ∷ ms) = ground (arith, messages-le b ms)

hand-le : (b : Bool) (o : Option Bool) → hand b o ≤ 1
hand-le b none = omega arith
hand-le b (some m) = ground arith

-- The messages 1 that were sent or are about to be, and the same for -1.
abbrev pub started : Counter → ℕ
started s = s.plus + hand true s.in_hand + messages true s.counter_ch + one_if s.sending

abbrev pub ended : Counter → ℕ
ended s = s.minus + hand false s.in_hand + messages false s.counter_ch + s.leaving

record IsBounded (max : ℕ) (s : Counter) : Type 0 where
  balance : s.handlers + ended s ≡ started s
  room : length s.counter_ch ≤ places
  limit : started s ≤ max + s.minus + 102

accept-IsBounded :
    (max : ℕ) (s t : Counter) (b : Bool)
    → s.sending ≡ false
    → accept max s ≡ (b, t)
    → IsBounded max s
    → IsBounded max t
unfolding accept count_exceeds
accept-IsBounded max s t b n e h = elim (Bool-cases (ltb (max + s.minus) s.plus)) [
  | inl many ↦ let same : t ≡ s = ground (arith, e, many) in rw same h
  | inr few ↦
      let new : t ≡ record s { handlers = s.handlers + 1; sending = true } =
        ground (arith, e, few) in
      rw new (record {
        balance = ground (arith, h.balance, n);
        room = h.room;
        limit = ground (arith, few, messages-le true s.counter_ch, hand-le true s.in_hand, h.room);
      })
]

send_plus-IsBounded :
    (max : ℕ) (s : Counter)
    → s.sending ≡ true
    → length s.counter_ch < places
    → IsBounded max s
    → IsBounded max (send_plus s)
unfolding send_plus
send_plus-IsBounded max s e l h = record {
  balance = ground (
    arith,
    h.balance,
    e,
    messages-append true true s.counter_ch,
    messages-append false true s.counter_ch,
  );
  room = omega (arith, l, length-append s.counter_ch (true ∷ []));
  limit = ground (arith, h.limit, e, messages-append true true s.counter_ch);
}

send_minus-IsBounded :
    (max : ℕ) (s : Counter)
    → 0 < s.leaving
    → length s.counter_ch < places
    → IsBounded max s
    → IsBounded max (send_minus s)
unfolding send_minus
send_minus-IsBounded max s e l h = record {
  balance = ground (
    arith,
    h.balance,
    e,
    messages-append true false s.counter_ch,
    messages-append false false s.counter_ch,
  );
  room = omega (arith, l, length-append s.counter_ch (false ∷ []));
  limit = ground (arith, h.limit, messages-append true false s.counter_ch);
}

close_conn_of-IsBounded :
    (max : ℕ) (s : Counter) → 0 < s.handlers → IsBounded max s → IsBounded max (close_conn_of s)
unfolding close_conn_of
close_conn_of-IsBounded max s l h = record {
  balance = omega (arith, h.balance, l);
  room = h.room;
  limit = h.limit;
}

take_message-IsBounded :
    (max : ℕ) (s : Counter) (ch : List Bool)
    → s.counter_ch ≡ ch
    → s.in_hand ≡ none
    → IsBounded max s
    → IsBounded max (take_message s)
unfolding take_message
take_message-IsBounded max s [] c e h = rw (c, take_message) h
take_message-IsBounded max s (m ∷ rest) c e h =
    rw (c, take_message)
      (record {
        balance = ground (arith, h.balance, c, e);
        room = ground (arith, h.room, c);
        limit = ground (arith, h.limit, c, e);
      })

count_message-IsBounded :
    (max : ℕ) (s : Counter) (o : Option Bool)
    → s.in_hand ≡ o
    → IsBounded max s
    → IsBounded max (count_message s)
unfolding count_message
count_message-IsBounded max s none c h = rw (c, count_message) h
count_message-IsBounded max s (some true) c h =
    rw (c, count_message)
      (record {
        balance = ground (arith, h.balance, c);
        room = h.room;
        limit = ground (arith, h.limit, c);
      })
count_message-IsBounded max s (some false) c h =
    rw (c, count_message)
      (record {
        balance = ground (arith, h.balance, c);
        room = h.room;
        limit = ground (arith, h.limit, c);
      })

Run-IsBounded : (max : ℕ) (s : Counter) → Run max s → IsBounded max s
Run-IsBounded max s start = record { balance = refl; room = omega arith; limit = omega arith }
Run-IsBounded max s (accepted {s = t} b r n e) =
    accept-IsBounded max t s b n e (Run-IsBounded max t r)
Run-IsBounded max s (sent {s = t} r e l) = send_plus-IsBounded max t e l (Run-IsBounded max t r)
Run-IsBounded max s (closed {s = t} r l) = close_conn_of-IsBounded max t l (Run-IsBounded max t r)
Run-IsBounded max s (left {s = t} r l p) = send_minus-IsBounded max t l p (Run-IsBounded max t r)
Run-IsBounded max s (taken {s = t} r e) =
    take_message-IsBounded max t t.counter_ch refl e (Run-IsBounded max t r)
Run-IsBounded max s (counted {s = t} r) =
    count_message-IsBounded max t t.in_hand refl (Run-IsBounded max t r)

-- In every run of the server's loop, the handlers and the counter, with the limit `max`, at most 102
-- connections more than the limit are served at a time: one that the limit itself lets in, one that the
-- counter has in hand, and the 100 whose messages are in the channel.
pub Run-handlers : (max : ℕ) (s : Counter) → Run max s → s.handlers ≤ max + 102
Run-handlers max s r = let h = Run-IsBounded max s r in omega (arith, h.balance, h.limit)

-- When the loop of StopLocalServer may be left, at most as many connections are served as messages of
-- their start are still on their way.
pub Run-stop_may_return :
    (max : ℕ) (s : Counter)
    → Run max s
    → stop_may_return s ≡ true
    → s.handlers ≤ hand true s.in_hand + messages true s.counter_ch + one_if s.sending
unfolding stop_may_return count_exceeds
Run-stop_may_return max s r e = let h = Run-IsBounded max s r in ground (arith, h.balance, e)
