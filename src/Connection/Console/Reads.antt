-- ===== src/Connection/Console/Reads.antt =====
-- How the reads of the console of connection/statistics.go lead to commands.
use dove.Base.{
  ℕ, suc, ◌+◌, ◌-◌, ◌≤◌, ◌<◌, ◌≡◌, refl, ◌≢◌, inl, inr, false, List, [], ◌∷◌, ◌++◌, arith, leb,
  Bool-cases, length, take, drop, length-append, length-take, length-drop, All, Bytes, nat_eq,
  bytes_eq,
}
use dove.Connection.Console.{
  Console, capacity, fresh, scan, ReadEnd, reads, command, too_long, console_read, console_loop,
  ends_conn,
}

-- The buffer has its size, and there is room for two more bytes.
pub record IsOpen (s : Console) : Type 0 where
  pub size : length s.cmd ≡ capacity
  pub room : s.start < 50

length-filled :
    (start : ℕ) (cmd got : Bytes)
    → length cmd ≡ capacity
    → start + length got ≤ capacity
    → length (take start cmd ++ (got ++ drop (start + length got) cmd)) ≡ capacity
length-filled start cmd got e h = omega (
  arith,
  length-append (take start cmd) (got ++ drop (start + length got) cmd),
  length-append got (drop (start + length got) cmd),
  length-take start cmd,
  length-drop (start + length got) cmd,
  e,
  h,
)

console_read-IsOpen :
    (got : Bytes) (s t : Console)
    → length got ≤ capacity - s.start
    → console_read got s ≡ reads t
    → IsOpen s
    → IsOpen t × (t.start ≡ s.start + length got)
unfolding console_read
console_read-IsOpen got s t l e o =
    let n = length got in
    let cmd : Bytes = take s.start s.cmd ++ (got ++ drop (s.start + n) s.cmd) in
    let z = scan n cmd s.has_enter in
    elim (Bool-cases (z.1)) [
      | inl over ↦ absurd (ground (arith, e, over))
      | inr more ↦ elim (Bool-cases (leb 50 (s.start + n))) [
        | inl long ↦ absurd (ground (arith, e, more, long))
        | inr short ↦
            let new : t ≡ record { cmd = cmd; start = s.start + n; has_enter = z.0 } =
              ground (arith, e, more, short) in
            rw new (
              record {
                size = length-filled s.start s.cmd got o.size (omega (arith, l, o.room));
                room = ground (arith, short);
              },
              refl,
            )
      ]
    ]

after_read :
    (got : Bytes) (more : List Bytes) (s : Console) (r : ReadEnd)
    → (next : (t : Console)
        → 50 ≤ t.start + length more
        → IsOpen t
        → console_loop more t ≢ ([], false))
    → 0 < length got
    → 50 ≤ s.start + suc (length more)
    → IsOpen s
    → console_read (take (capacity - s.start) got) s ≡ r
    → console_loop (got ∷ more) s ≢ ([], false)
unfolding console_loop
after_read got more s too_long next g l o e = rw (e, console_loop) (λ q. cc q)
after_read got more s (command c) next g l o e =
    rw (e, console_loop)
      (elim (Bool-cases (ends_conn c)) [ inl q ↦ rw q (λ x. cc x) | inr q ↦ rw q (λ x. cc x) ])
after_read got more s (reads t) next g l o e =
    let part = take (capacity - s.start) got in
    let n = length-take (capacity - s.start) got in
    let (open_t, at) = console_read-IsOpen part s t (omega (arith, n)) e o in
    rw (e, console_loop) (next t (omega (arith, at, l, g, o.room, n)) open_t)

-- Fifty reads are enough for a command or the end.
loop-ends :
    (rs : List Bytes) (s : Console)
    → All (λ got. 0 < length got) rs
    → 50 ≤ s.start + length rs
    → IsOpen s
    → console_loop rs s ≢ ([], false)
loop-ends [] s h l o = absurd (omega (arith, l, o.room))
loop-ends (got ∷ more) s h l o = after_read got more s _ (λ t. loop-ends more t h.1) h.0 l o refl

-- Of 50 reads of the console that each give something, one is understood as a command, if only the empty
-- one, or the server closes the connection.
pub console_loop-ends :
    (rs : List Bytes)
    → All (λ got. 0 < length got) rs
    → 50 ≤ length rs
    → console_loop rs fresh ≢ ([], false)
console_loop-ends rs h l =
    loop-ends rs fresh h (omega (arith, l)) (record { size = refl; room = omega arith })
