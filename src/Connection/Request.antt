-- ===== src/Connection/Request.antt =====
-- `readRequest` of connection/conn_handler.go: an 8-byte tag with the decimal length, then the
-- body. The bytes of a connection arrive in segments of any size.
pub mod Segments
pub mod Outcomes
use dove.Base.{
  ℕ, zero, suc, ◌-◌, Bool, true, false, not, ◌&&◌, Option, none, some, List, [], ◌∷◌, ◌++◌, ltb,
  leb, if◌then◌else◌, length, take, drop, replicate, Bytes, codes, bytes_beq, nat_eq, bytes_eq,
}
use dove.Base.Decimal.{pos, negsuc, atoi}
use dove.Connection.Response.{head_tag_length, parse_head_tag_length}

pub data ReadError : Type 0 where
  eof timeout : ReadError

-- What a call of `Read` meets: bytes, or an error. After the last segment the peer has closed.
pub data Segment : Type 0 where
  arrived : Bytes → Segment
  broken : ReadError → Segment

-- How a loop of reads ends: with the buffer full, or with an error and what was read until then.
pub data ReadEnd : Type 0 where
  full : Bytes → ReadEnd
  failed : Bytes → ReadError → ReadEnd

-- `for start < n { count, err = conn.Read(buf[start:]); … start += count }`: `got` is buf[:start]
-- and `want` what is left to read.
pub read_loop : Bytes → ℕ → List Segment → ReadEnd × List Segment
read_loop got zero segs = (full got, segs)
read_loop got (suc want) [] = (failed got eof, [])
read_loop got (suc want) (broken e ∷ segs) = (failed got e, segs)
read_loop got (suc want) (arrived b ∷ segs) =
    let rest = read_loop (got ++ b) (suc want - length b) segs in
    if leb (length b) (suc want)
    then rest
    else (full (got ++ take (suc want) b), arrived (drop (suc want) b) ∷ segs)

pub data RequestError : Type 0 where
  length_read_error length_parse_error length_below_one premature body_read_error : RequestError

pub record Request : Type 0 where
  pub closed : Bool
  pub body : Bytes
  pub error : Option RequestError

abbrev pub tag_close : Bytes
tag_close = codes "CLOSE"

abbrev pub is_tag_close : Bytes → Bool
is_tag_close tag = bytes_beq tag_close tag

abbrev pub closing : Request
closing = record { closed = true; body = []; error = none }

abbrev pub refused : RequestError → Request
refused e = record { closed = false; body = []; error = some e }

-- The tag is cut short: `got` is what came of it. `headerTag[0:5]` is filled up with zeros.
pub short_tag : Bytes → Request
short_tag got =
    if ltb 0 (length got)
      && not (bytes_beq tag_close (take 5 (got ++ replicate (head_tag_length - length got) 0)))
    then refused length_read_error
    else closing

is_eof : ReadError → Bool
is_eof eof = true
is_eof timeout = false

pub read_body : ℕ → List Segment → Request × List Segment
unfolding is_eof
read_body body_length segs =
    let (end, rest) = read_loop [] body_length segs in
    elim end [
      | full body ↦ (record { closed = false; body = body; error = none }, rest)
      | failed got e ↦ (
        record {
          closed = false;
          body = got ++ replicate (body_length - length got) 0;
          error = some (
              if not (is_eof e) && ltb (length got) (body_length - 1)
              then premature
              else body_read_error);
        },
        rest,
      )
    ]

pub read_request : List Segment → Request × List Segment
read_request segs =
    let (end, rest) = read_loop [] head_tag_length segs in
    elim end [
      | failed got e ↦ (short_tag got, rest)
      | full header_tag ↦
          if is_tag_close (parse_head_tag_length header_tag)
          then (closing, rest)
          else elim (atoi (parse_head_tag_length header_tag)) [
            | none ↦ (refused length_parse_error, rest)
            | some (negsuc n) ↦ (refused length_below_one, rest)
            | some (pos n) ↦
                let answer = read_body n rest in
                if ltb n 1 then (refused length_below_one, rest) else answer
          ]
    ]
