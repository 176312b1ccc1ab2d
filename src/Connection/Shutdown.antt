-- ===== src/Connection/Shutdown.antt =====
-- Stopping the server: the signal of connection/conn_handler.go, and the connections that wait for
-- it. `Use` and `Unuse` are one step each, since they hold the lock of the counter. `SendSignal` takes
-- the lock in a step of its own, puts one message after the other into a channel of 100 places, and
-- gives the lock back in a last step. In between no other goroutine comes to `Use` or `Unuse`.
use dove.Base.{ℕ, suc, ◌+◌, ◌-◌, ◌≤◌, ◌<◌, ◌≡◌, refl, Bool, true, false, arith, nat_eq, bytes_eq}

-- `user_counter`, and the messages in the channel `stoppingSigal`. `stopping` is
-- `stoppingLocalServer`, `sending` says that `SendSignal` has the lock, `to_send` is its `c`, and
-- `signalled` says that it has returned.
pub record StoppingSignalOp : Type 0 where
  pub user_counter : ℕ
  pub tokens : ℕ
  pub to_send : ℕ
  pub sending : Bool
  pub stopping : Bool
  pub signalled : Bool

abbrev pub fresh : StoppingSignalOp
fresh = record {
  user_counter = 0;
  tokens = 0;
  to_send = 0;
  sending = false;
  stopping = false;
  signalled = false;
}

abbrev pub use_signal : StoppingSignalOp → StoppingSignalOp
use_signal s = record s { user_counter = s.user_counter + 1 }

abbrev pub unuse_signal : StoppingSignalOp → StoppingSignalOp
unuse_signal s = record s { user_counter = s.user_counter - 1 }

-- `SendSignal`: its lock, one turn of its loop, and its return.
abbrev pub start_signal : StoppingSignalOp → StoppingSignalOp
start_signal s = record s { to_send = s.user_counter; sending = true }

abbrev pub send_signal : StoppingSignalOp → StoppingSignalOp
send_signal s = record s { tokens = s.tokens + 1; to_send = s.to_send - 1 }

abbrev pub end_signal : StoppingSignalOp → StoppingSignalOp
end_signal s = record s { sending = false; signalled = true }

abbrev pub set_local_server_stopping_state : StoppingSignalOp → StoppingSignalOp
set_local_server_stopping_state s = record s { stopping = true }

abbrev pub take_signal : StoppingSignalOp → StoppingSignalOp
take_signal s = record s { tokens = s.tokens - 1 }

-- The runs of the goroutines that use the signal: how many have seen that the server does not stop and
-- have not called `Use` yet, how many wait for the signal, and how many of those that ever waited
-- came to `Use` behind `SendSignal`. One that has taken a message returns
-- without `Unuse`.
pub data Run : ℕ → ℕ → ℕ → StoppingSignalOp → Type 0 where
  start : Run 0 0 0 fresh
  checked :
      {n w l : ℕ} {s : StoppingSignalOp} → Run n w l s → s.stopping ≡ false → Run (suc n) w l s
  used :
      {n w l : ℕ} {s : StoppingSignalOp}
      → Run (suc n) w l s
      → s.sending ≡ false
      → s.signalled ≡ false
      → Run n (suc w) l (use_signal s)
  used_late :
      {n w l : ℕ} {s : StoppingSignalOp}
      → Run (suc n) w l s
      → s.sending ≡ false
      → s.signalled ≡ true
      → Run n (suc w) (suc l) (use_signal s)
  unused :
      {n w l : ℕ} {s : StoppingSignalOp}
      → Run n (suc w) l s
      → s.sending ≡ false
      → Run n w l (unuse_signal s)
  stops :
      {n w l : ℕ} {s : StoppingSignalOp}
      → Run n w l s
      → Run n w l (set_local_server_stopping_state s)
  signals :
      {n w l : ℕ} {s : StoppingSignalOp}
      → Run n w l s
      → s.stopping ≡ true
      → s.sending ≡ false
      → s.signalled ≡ false
      → Run n w l (start_signal s)
  sends :
      {n w l : ℕ} {s : StoppingSignalOp}
      → Run n w l s
      → s.sending ≡ true
      → 0 < s.to_send
      → s.tokens < 100
      → Run n w l (send_signal s)
  sent :
      {n w l : ℕ} {s : StoppingSignalOp}
      → Run n w l s
      → s.sending ≡ true
      → s.to_send ≡ 0
      → Run n w l (end_signal s)
  taken :
      {n w l : ℕ} {s : StoppingSignalOp}
      → Run n (suc w) l s
      → 0 < s.tokens
      → Run n w l (take_signal s)

-- Before the signal the counter is the number of those that wait; while it is sent, a message is left
-- or still comes for each of them; after it, one is left for each of them but the late ones.
record IsSignalled (w l : ℕ) (s : StoppingSignalOp) : Type 0 where
  room : s.tokens ≤ 100
  before : s.sending ≡ false → s.signalled ≡ false → (s.user_counter ≡ w) × (s.tokens ≡ 0)
  during : s.sending ≡ true → w ≤ s.tokens + s.to_send + l
  after : s.signalled ≡ true → (w ≤ s.tokens + l) × (s.to_send ≡ 0)

Run-IsSignalled : (n w l : ℕ) (s : StoppingSignalOp) → Run n w l s → IsSignalled w l s
Run-IsSignalled n w l s start = record {
  room = omega arith;
  before = λ b c. (refl, refl);
  during = λ a. omega arith;
  after = λ a. (omega arith, refl);
}
Run-IsSignalled n w l s (checked p e) = Run-IsSignalled _ w l s p
Run-IsSignalled n w l s (used {w = v} {s = t} p e f) =
    let h = Run-IsSignalled (suc n) v l t p in
    record {
      room = h.room;
      before = λ b g. let (c, d) = h.before e f in (omega (arith, c), d);
      during = λ a. absurd (ground (arith, e, a));
      after = λ a. absurd (ground (arith, f, a));
    }
Run-IsSignalled n w l s (used_late {w = v} {l = k} {s = t} p e f) =
    let h = Run-IsSignalled (suc n) v k t p in
    record {
      room = h.room;
      before = λ b c. absurd (ground (arith, f, c));
      during = λ a. absurd (ground (arith, e, a));
      after = λ a. let (g, i) = h.after f in (omega (arith, g), i);
    }
Run-IsSignalled n w l s (unused {s = t} p e) =
    let h = Run-IsSignalled n (suc w) l t p in
    record {
      room = h.room;
      before = λ b g. let (c, d) = h.before b g in (omega (arith, c), d);
      during = λ a. absurd (ground (arith, e, a));
      after = λ a. let (g, i) = h.after a in (omega (arith, g), i);
    }
Run-IsSignalled n w l s (stops {s = t} p) =
    let h = Run-IsSignalled n w l t p in
    record { room = h.room; before = h.before; during = h.during; after = h.after }
Run-IsSignalled n w l s (signals {s = t} p e f g) =
    let h = Run-IsSignalled n w l t p in
    let (c, d) = h.before f g in
    record {
      room = h.room;
      before = λ b i. absurd (ground (arith, b));
      during = λ a. omega (arith, c, d);
      after = λ a. absurd (ground (arith, g, a));
    }
Run-IsSignalled n w l s (sends {s = t} p e f g) =
    let h = Run-IsSignalled n w l t p in
    record {
      room = omega (arith, g);
      before = λ b i. absurd (ground (arith, e, b));
      during = λ a. let d = h.during e in omega (arith, d, f);
      after = λ a. let (d, i) = h.after a in absurd (omega (arith, i, f));
    }
Run-IsSignalled n w l s (sent {s = t} p e f) =
    let h = Run-IsSignalled n w l t p in
    let d = h.during e in
    record {
      room = h.room;
      before = λ b i. absurd (ground (arith, i));
      during = λ a. absurd (ground (arith, a));
      after = λ a. (omega (arith, d, f), f);
    }
Run-IsSignalled n w l s (taken {s = t} p e) =
    let h = Run-IsSignalled n (suc w) l t p in
    let r = h.room in
    record {
      room = omega (arith, r);
      before = λ b g. let (c, d) = h.before b g in absurd (omega (arith, d, e));
      during = λ a. let d = h.during a in omega (arith, d, e);
      after = λ a. let (g, i) = h.after a in (omega (arith, g, e), i);
    }

-- The channel never holds more than 100 messages, and once `SendSignal` has returned, a message is
-- left for each goroutine that waits for it, apart from those that had seen that the server does not
-- stop and called `Use` only behind `SendSignal`. That it returns is not stated.
pub Run-signalled :
    (n w l : ℕ) (s : StoppingSignalOp)
    → Run n w l s
    → s.signalled ≡ true
    → (w ≤ s.tokens + l) × (s.tokens ≤ 100)
Run-signalled n w l s p e =
    let h = Run-IsSignalled n w l s p in let (g, i) = h.after e in (g, h.room)

-- A late one may be left without a message.
late_waits : Run 0 1 1 (record {
  user_counter = 1;
  tokens = 0;
  to_send = 0;
  sending = false;
  stopping = true;
  signalled = true;
})
late_waits =
    used_late (sent (signals (stops (checked start refl)) refl refl refl) refl refl) refl refl
