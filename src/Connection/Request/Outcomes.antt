-- ===== src/Connection/Request/Outcomes.antt =====
-- What `HandleConn` may rely on in a request, on every branch of `readRequest` of
-- connection/conn_handler.go.
use dove.Base.{
  ℕ, zero, suc, ◌+◌, ◌-◌, ◌≤◌, ◌<◌, ◌≡◌, refl, inl, inr, true, false, Option, none, some, List, [],
  ◌∷◌, ◌++◌, arith, leb, Bool-cases, length, take, length-append, length-take, Bytes, nat_eq,
  bytes_eq,
}
use dove.Base.Decimal.{ℤ, pos, negsuc, atoi}
use dove.Connection.Response.{head_tag_length, parse_head_tag_length}
use dove.Connection.Request.{
  Segment, arrived, broken, ReadEnd, full, failed, Request, RequestError, read_loop, read_body,
  read_request, closing, refused, short_tag,
}

-- A full buffer has the length that was asked for.
FullLength : ℕ → ReadEnd → Type 0
FullLength n (full b) = length b ≡ n
FullLength n (failed b e) = length b < n

read_loop-FullLength :
    (got : Bytes) (want n : ℕ) (segs : List Segment)
    → length got + want ≡ n
    → FullLength n (read_loop got want segs).0
unfolding read_loop FullLength
read_loop-FullLength got zero n segs h = omega arith
read_loop-FullLength got (suc want) n [] h = omega arith
read_loop-FullLength got (suc want) n (broken e ∷ segs) h = omega arith
read_loop-FullLength got (suc want) n (arrived b ∷ segs) h =
    elim (Bool-cases (leb (length b) (suc want))) [
      | inl e ↦
          let fits : length b ≤ suc want = ground arith in
          rw e (
            read_loop-FullLength (got ++ b) (suc want - length b) n segs
              (omega (arith, length-append got b)))
      | inr e ↦
          let over : suc want < length b = ground arith in
          rw e (omega (arith, length-append got (take (suc want) b), length-take (suc want) b))
    ]

-- A request that ends the connection carries nothing; one that is accepted has a body.
pub record IsSound (r : Request) : Type 0 where
  pub closing_lem : r.closed ≡ true → (r.body ≡ []) × (r.error ≡ none)
  pub accepted : r.closed ≡ false → r.error ≡ none → 0 < length r.body

short_tag-IsSound : (got : Bytes) → IsSound (short_tag got)
unfolding short_tag
short_tag-IsSound got = ground arith

read_body_end :
    (n : ℕ) (segs : List Segment) (end : ReadEnd)
    → (read_loop [] n segs).0 ≡ end
    → FullLength n end
    → 0 < n
    → IsSound (read_body n segs).0
unfolding read_body FullLength
read_body_end n segs (full b) e h p =
    rw (e, read_body) (record { closing_lem = λ q. cc; accepted = λ q r. omega (arith, h) })
read_body_end n segs (failed got x) e h p =
    rw (e, read_body) (record { closing_lem = λ q. cc; accepted = λ q r. cc })

read_body-IsSound : (n : ℕ) (segs : List Segment) → 0 < n → IsSound (read_body n segs).0
read_body-IsSound n segs p =
    read_body_end n segs (read_loop [] n segs).0 refl
      (read_loop-FullLength [] n n segs (omega arith)) p

refused-IsSound : (e : RequestError) → IsSound (refused e)
refused-IsSound e = ground arith

closing-IsSound : IsSound closing
closing-IsSound = ground arith

-- A whole tag: what follows depends on the number that it holds.
tag-IsSound :
    (tag : Bytes) (segs rest : List Segment) (length_read : Option ℤ)
    → read_loop [] head_tag_length segs ≡ (full tag, rest)
    → atoi (parse_head_tag_length tag) ≡ length_read
    → IsSound (read_request segs).0
unfolding read_request
tag-IsSound tag segs rest none e a = ground (arith, e, a)
tag-IsSound tag segs rest (some (negsuc n)) e a = ground (arith, e, a)
tag-IsSound tag segs rest (some (pos n)) e a = ground (arith, e, a, read_body-IsSound n rest)

read_request_end :
    (segs rest : List Segment) (end : ReadEnd)
    → read_loop [] head_tag_length segs ≡ (end, rest)
    → IsSound (read_request segs).0
unfolding read_request
read_request_end segs rest (full tag) e =
    tag-IsSound tag segs rest (atoi (parse_head_tag_length tag)) e refl
read_request_end segs rest (failed got x) e = rw (e, read_request) (short_tag-IsSound got)

-- A request that ends the connection has no body and no error; a request that does not, and that
-- has no error, has a body of at least one byte.
pub read_request-IsSound : (segs : List Segment) → IsSound (read_request segs).0
read_request-IsSound segs =
    read_request_end segs (read_loop [] head_tag_length segs).1
      (read_loop [] head_tag_length segs).0 refl
