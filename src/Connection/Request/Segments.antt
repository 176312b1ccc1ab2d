-- ===== src/Connection/Request/Segments.antt =====
-- However the bytes of a request are cut into segments, `readRequest` of
-- connection/conn_handler.go reads the same request.
use dove.Base.{
  ℕ, zero, suc, ◌-◌, ◌≤◌, ◌<◌, ◌≡◌, refl, sym, ap, ◌∙◌, inl, inr, false, none, some, List, [], ◌∷◌,
  ◌++◌, append_assoc, append-nil, arith, leb, le→ltb, Bool-cases, length, take, drop, length-append,
  take-append, drop-append, take-append_le, take-append_ge, drop-append_ge, drop-append_le, All,
  Bytes, bytes_beq, nat_eq, bytes_eq,
}
use dove.Base.Decimal.{pos, itoa, atoi, atoi-itoa, IsDigit, itoa-IsDigit, power_of_ten}
use dove.Connection.Response.{
  head_tag_length, length_tag, length-length_tag, parse_head_tag_length,
  parse_head_tag_length-length_tag,
}
use dove.Connection.Request.{
  Segment, arrived, full, read_loop, read_body, read_request, is_tag_close, tag_close,
}

abbrev pub arrive : List Bytes → List Segment
arrive [] = []
arrive (b ∷ bs) = arrived b ∷ arrive bs

abbrev pub bytes_of : List Bytes → Bytes
bytes_of [] = []
bytes_of (b ∷ bs) = b ++ bytes_of bs

-- The loop takes exactly `want` bytes off the front of what arrives.
read_loop-arrive :
    (got : Bytes) (want : ℕ) (chunks : List Bytes)
    → want ≤ length (bytes_of chunks)
    → (rest : List Bytes) × (read_loop got want (arrive chunks)
        ≡ (full (got ++ take want (bytes_of chunks)), arrive rest))
      × (bytes_of rest ≡ drop want (bytes_of chunks))
unfolding read_loop
read_loop-arrive got zero chunks h = (chunks, rw append-nil, refl)
read_loop-arrive got (suc want) [] h = absurd (omega arith)
read_loop-arrive got (suc want) (b ∷ chunks) h = elim (Bool-cases (leb (length b) (suc want))) [
  | inl e ↦
      let fits : length b ≤ suc want = ground arith in
      let (rest, p, q) =
        read_loop-arrive (got ++ b) (suc want - length b) chunks
          (omega (arith, length-append b (bytes_of chunks))) in
      rw e (
        rest,
        p
            ∙ ap (λ l. (full l, arrive rest))
                (append_assoc got b (take (suc want - length b) (bytes_of chunks))
                  ∙ ap (λ l. got ++ l) (sym (take-append_ge b (bytes_of chunks) (suc want) fits))),
        q ∙ sym (drop-append_ge b (bytes_of chunks) (suc want) fits),
      )
  | inr e ↦
      let over : suc want ≤ length b = ground arith in
      rw e (
        drop (suc want) b ∷ chunks,
        ap (λ l. (full (got ++ l), arrived (drop (suc want) b) ∷ arrive chunks))
            (sym (take-append_le b (bytes_of chunks) (suc want) over)),
        sym (drop-append_le b (bytes_of chunks) (suc want) over),
      )
]

-- The tag and the body as a client sends them.
abbrev pub request_frame : Bytes → Bytes
request_frame body = length_tag (length body) ++ body

digits-not-close : (s : Bytes) → All IsDigit s → bytes_beq tag_close s ≡ false
unfolding bytes_beq
digits-not-close [] d = refl
digits-not-close (c ∷ s) d = ground arith

read_body-arrive :
    (n : ℕ) (chunks : List Bytes)
    → n ≤ length (bytes_of chunks)
    → (rest : List Bytes) × (read_body n (arrive chunks)
        ≡ (record { closed = false; body = take n (bytes_of chunks); error = none }, arrive rest))
      × (bytes_of rest ≡ drop n (bytes_of chunks))
unfolding read_body
read_body-arrive n chunks h =
    let (rest, p, q) = read_loop-arrive [] n chunks h in (rest, ground (arith, p), q)

read_request-body :
    (segs rest : List Segment) (tag : Bytes) (n : ℕ)
    → read_loop [] head_tag_length segs ≡ (full tag, rest)
    → is_tag_close (parse_head_tag_length tag) ≡ false
    → atoi (parse_head_tag_length tag) ≡ some (pos n)
    → 0 < n
    → read_request segs ≡ read_body n rest
unfolding read_request
read_request-body segs rest tag n e c a p =
    rw (e, c, a, le→ltb n 1 p, read_request) (ap (λ r. read_body n r.1) e)

-- A body of 1 to 99999999 bytes behind its length tag is read whole, in whatever segments the bytes
-- arrive, and what arrives behind it is left for the next request.
pub read_request-request_frame :
    (body more : Bytes) (chunks : List Bytes)
    → 0 < length body
    → length body < power_of_ten 8
    → bytes_of chunks ≡ request_frame body ++ more
    → (rest : List Bytes) × (read_request (arrive chunks)
        ≡ (record { closed = false; body = body; error = none }, arrive rest))
      × (bytes_of rest ≡ more)
read_request-request_frame body more chunks p h e =
    let (rest, loop, left) = read_loop-arrive [] 8 chunks (omega (arith, enough)) in
    let left' : bytes_of rest ≡ body ++ more =
      left ∙ ap (drop 8) split_at_8 ∙ drop-append tag (body ++ more) 8 tag_8 in
    let (rest', answer, more') =
      read_body-arrive n rest (omega (arith, ap length left', length-append body more)) in
    (
      rest',
      read_request-body (arrive chunks) (arrive rest) tag n
            (loop
              ∙ ap (λ l. (full l, arrive rest))
                  (ap (take 8) split_at_8 ∙ take-append tag (body ++ more) 8 tag_8))
            (rw (parse_head_tag_length-length_tag n h) (digits-not-close (itoa n) (itoa-IsDigit n)))
            (rw (parse_head_tag_length-length_tag n h) (atoi-itoa n (omega arith))) p
          ∙ answer
          ∙ ap (λ b. (record { closed = false; body = b; error = none }, arrive rest'))
              (ap (take n) left' ∙ take-append body more n refl),
      more' ∙ ap (drop n) left' ∙ drop-append body more n refl,
    )
  where
    n : ℕ
    n = length body

    tag : Bytes
    tag = length_tag n

    tag_8 : length tag ≡ 8
    tag_8 = length-length_tag n h

    split_at_8 : bytes_of chunks ≡ tag ++ (body ++ more)
    split_at_8 = e ∙ append_assoc tag body more

    enough : 8 ≤ length (bytes_of chunks)
    enough = omega (arith, ap length split_at_8, length-append tag (body ++ more), tag_8)
