-- ===== src/Connection/Console/Lines.antt =====
-- Which lines of a client the console of connection/statistics.go takes for commands.
use dove.Base.{
  ℕ, zero, suc, ◌+◌, ◌-◌, ◌≤◌, ◌<◌, ◌≡◌, refl, sym, ap, ◌∙◌, ◌≢◌, Bool, true, false, List, [], ◌∷◌,
  ◌++◌, append_assoc, arith, leb, length, take, drop, replicate, length-append, take-append,
  take_all, All, All-append, Bytes, codes, nat_eq, bytes_eq, contains,
}
use dove.Base.Text.{trim_right}
use dove.Connection.Console.{
  Console, capacity, empty_cmd, fresh, scan, command_of, reads, command, console_read, console_loop,
}

-- Bytes that end no command.
abbrev pub IsPlain : Bytes → Type 0
IsPlain = All (λ c. (c ≢ b'\r') × (c ≢ b'\n') × (c ≢ 0))

scan-append :
    (w rest : Bytes) (k : ℕ) → IsPlain w → scan (length w + k) (w ++ rest) false ≡ scan k rest false
unfolding scan
scan-append [] rest k h = ap (λ n. scan n rest false) (omega arith)
scan-append (c ∷ w) rest k h =
    let n : suc (length w) + k ≡ suc (length w + k) = omega arith in
    ap (λ m. scan m (c ∷ (w ++ rest)) false) n ∙ ground (arith, h.0, scan-append w rest k h.1)

scan_no_end :
    (n : ℕ) (cmd : Bytes) (e : Bool) → All (λ c. c ≢ b'\n') (take n cmd) → (scan n cmd e).1 ≡ false
unfolding scan
scan_no_end zero cmd e h = refl
scan_no_end (suc n) [] e h = refl
scan_no_end (suc n) (c ∷ cmd) e h =
    ground (arith, h.0, scan_no_end n cmd true h.1, scan_no_end n cmd false h.1)

take-All :
    (P : ℕ → Type 0) (n : ℕ) (p rest : Bytes) → All P p → n ≤ length p → All P (take n (p ++ rest))
take-All P zero p rest h l = tt
take-All P (suc n) [] rest h l = absurd (omega arith)
take-All P (suc n) (c ∷ p) rest h l = (h.0, take-All P n p rest h.1 (omega arith))

abbrev cut : Bytes
cut = codes "\r\n" ++ 0 ∷ []

trim_zeros : (n m : ℕ) → trim_right (drop n (replicate m 0)) cut ≡ []
unfolding trim_right contains
trim_zeros zero zero = refl
trim_zeros zero (suc m) = rw (trim_zeros zero m, trim_right) refl
trim_zeros (suc n) zero = refl
trim_zeros (suc n) (suc m) = trim_zeros n m

trim_end : (t : Bytes) → trim_right t cut ≡ [] → trim_right (b'\r' ∷ (b'\n' ∷ t)) cut ≡ []
unfolding trim_right contains
trim_end t e = rw (e, trim_right) refl

trim_plain : (w t : Bytes) → IsPlain w → trim_right t cut ≡ [] → trim_right (w ++ t) cut ≡ w
unfolding trim_right contains
trim_plain [] t h e = e
trim_plain (c ∷ w) t h e = ground (arith, h.0, trim_plain w t h.1 e)

abbrev pub crlf : Bytes
crlf = b'\r' ∷ (b'\n' ∷ [])

scan-line :
    (w rest : Bytes)
    → IsPlain w
    → scan (length (w ++ crlf)) ((w ++ crlf) ++ rest) false ≡ (true, true)
unfolding scan
scan-line w rest h =
    let n : length (w ++ crlf) ≡ length w + 2 = omega (arith, length-append w crlf) in
    ap (λ m. scan m ((w ++ crlf) ++ rest) false) n
    ∙ ap (λ t. scan (length w + 2) t false) (append_assoc w crlf rest)
    ∙ scan-append w (crlf ++ rest) 2 h

read-line : (w : Bytes) → IsPlain w → console_read (w ++ crlf) fresh ≡ command (command_of w)
unfolding console_read
read-line w h =
    let got = w ++ crlf in
    let rest = drop (0 + length got) empty_cmd in
    let over : scan (length got) (got ++ rest) false ≡ (true, true) = scan-line w rest h in
    let text : trim_right (got ++ rest) cut ≡ w =
      ap (λ t. trim_right t cut) (append_assoc w crlf rest)
      ∙ trim_plain w (crlf ++ rest) h (trim_end rest (trim_zeros (0 + length got) capacity)) in
    rw (over, text) refl

read_quiet :
    (got : Bytes) (s : Console)
    → (scan
        (length got)
        (take s.start s.cmd ++ (got ++ drop (s.start + length got) s.cmd))
        s.has_enter).1
      ≡ false
    → s.start + length got < 50
    → console_read got s
      ≡ reads (record {
        cmd = take s.start s.cmd ++ (got ++ drop (s.start + length got) s.cmd);
        start = s.start + length got;
        has_enter =
            (scan
              (length got)
              (take s.start s.cmd ++ (got ++ drop (s.start + length got) s.cmd))
              s.has_enter).0;
      })
unfolding console_read
read_quiet got s h l =
    let short : leb 50 (s.start + length got) ≡ false = ground (arith, l) in rw (h, short) refl

no_feed : (w : Bytes) → IsPlain w → All (λ c. c ≢ b'\n') w
no_feed [] h = tt
no_feed (c ∷ w) h = (h.0.1, no_feed w h.1)

IsPlain-append : (a b : Bytes) → IsPlain a → IsPlain b → IsPlain (a ++ b)
IsPlain-append a b ha hb = All-append (λ c. (c ≢ b'\r') × (c ≢ b'\n') × (c ≢ 0)) a b ha hb

-- What is looked at behind a second read ends before its line does.
scan-second :
    (a b r : Bytes) (e : Bool)
    → 0 < length a
    → IsPlain a
    → IsPlain b
    → (scan (length (b ++ crlf)) (a ++ ((b ++ crlf) ++ r)) e).1 ≡ false
scan-second a b r e l ha hb =
    let cr : Bytes = b'\r' ∷ [] in
    let p = a ++ (b ++ cr) in
    let regrouped : a ++ ((b ++ crlf) ++ r) ≡ p ++ b'\n' ∷ r =
      ap (λ t. a ++ t) (append_assoc b crlf r ∙ sym (append_assoc b cr (b'\n' ∷ r)))
      ∙ sym (append_assoc a (b ++ cr) (b'\n' ∷ r)) in
    let lines : All (λ c. c ≢ b'\n') p =
      All-append (λ c. c ≢ b'\n') a (b ++ cr) (no_feed a ha)
        (All-append (λ c. c ≢ b'\n') b cr (no_feed b hb) (omega arith, tt)) in
    let n : length (b ++ crlf) ≤ length p =
      omega (arith, l, length-append b crlf, length-append a (b ++ cr), length-append b cr) in
    ap (λ t. (scan (length (b ++ crlf)) t e).1) regrouped
    ∙ scan_no_end (length (b ++ crlf)) (p ++ b'\n' ∷ r) e
        (take-All (λ c. c ≢ b'\n') (length (b ++ crlf)) p (b'\n' ∷ r) lines n)

loop-reads :
    (got : Bytes) (more : List Bytes) (s t : Console)
    → length got ≤ capacity - s.start
    → console_read got s ≡ reads t
    → console_loop (got ∷ more) s ≡ console_loop more t
unfolding console_loop
loop-reads got more s t l e =
    let r : console_read (take (capacity - s.start) got) s ≡ reads t =
      ap (λ g. console_read g s) (take_all got (capacity - s.start) l) ∙ e in
    rw (r, console_loop) refl

loop-second :
    (a b r : Bytes) (e : Bool)
    → 0 < length a
    → IsPlain a
    → IsPlain b
    → length a + length b ≤ 47
    → console_loop ((b ++ crlf) ∷ []) (record { cmd = a ++ r; start = length a; has_enter = e })
      ≡ ([], false)
unfolding console_loop
loop-second a b r e l ha hb n =
    let s : Console = record { cmd = a ++ r; start = length a; has_enter = e } in
    let m : length (b ++ crlf) ≡ length b + 2 = omega (arith, length-append b crlf) in
    let rest = drop (length a + length (b ++ crlf)) (a ++ r) in
    let quiet : (scan (length (b ++ crlf)) (take (length a) (a ++ r) ++ ((b ++ crlf) ++ rest)) e).1
        ≡ false =
      ap (λ t. (scan (length (b ++ crlf)) (t ++ ((b ++ crlf) ++ rest)) e).1)
        (take-append a r (length a) refl)
      ∙ scan-second a b rest e l ha hb in
    loop-reads (b ++ crlf) [] s _ (omega (arith, m, n))
      (read_quiet (b ++ crlf) s quiet (omega (arith, m, n)))

-- A line of the console that holds no zero byte and fits in one read is run as a command. When the same
-- line comes in two reads, of which the first holds at least one of its bytes and no line end, no command
-- is run: what is looked at behind the second read starts at the front of the buffer again.
pub console_loop-split :
    (a b : Bytes)
    → 0 < length a
    → IsPlain a
    → IsPlain b
    → length a + length b ≤ 47
    → (console_read ((a ++ b) ++ crlf) fresh ≡ command (command_of (a ++ b)))
      × (console_loop (a ∷ (b ++ crlf) ∷ []) fresh ≡ ([], false))
console_loop-split a b l ha hb n =
    let rest = drop (0 + length a) empty_cmd in
    let first : All (λ c. c ≢ b'\n') (take (length a) (a ++ rest)) =
      take-All (λ c. c ≢ b'\n') (length a) a rest (no_feed a ha) (omega arith) in
    let quiet = scan_no_end (length a) (a ++ rest) false first in
    let at : 0 + length a ≡ length a = omega arith in
    let e = (scan (length a) (a ++ rest) false).0 in
    (
      read-line (a ++ b) (IsPlain-append a b ha hb),
      loop-reads a ((b ++ crlf) ∷ []) fresh _ (omega (arith, n))
            (read_quiet a fresh quiet (omega (arith, n)))
          ∙ ap
              (λ k.
                console_loop ((b ++ crlf) ∷ [])
                  (record { cmd = a ++ rest; start = k; has_enter = e }))
              at
          ∙ loop-second a b rest e l ha hb n,
    )
