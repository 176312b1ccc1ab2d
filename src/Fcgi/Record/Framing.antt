-- ===== src/Fcgi/Record/Framing.antt =====
-- What the reader makes of a written record: callbacks/fcgiclient/fcgiclient.go.
use dove.Base.{
  ℕ, zero, suc, ◌+◌, ◌-◌, ◌%◌, ◌^◌, ◌≤◌, ◌<◌, ◌≡◌, refl, [], ◌∷◌, ◌++◌, arith, length, take, drop,
  replicate, length-append, take-append-drop, length-take, length-replicate, take-append,
  drop-append, take-append_le, take-take_le, Bytes, nat_eq, bytes_eq, ok,
}
use dove.Fcgi.Wire.{Header, FcgiClient, net_write, Sends, IsOpen}
use dove.Fcgi.Record.{
  fcgi_responder, fcgi_begin_request, write_begin_request, init, write_record, put_header,
  get_header, read_full, read_record, record_bytes,
}

-- The header that `write_record` sends, from a client whose reserved byte is 0.
abbrev pub header_of : ℕ → ℕ → ℕ → Header
header_of t i n = record {
  version = 1;
  kind = t;
  id = i;
  content_length = n % 2 ^ 16;
  padding_length = (8 - n % 8) % 8;
  reserved = 0;
}

abbrev pub frame : ℕ → ℕ → Bytes → Bytes
frame t i content = record_bytes (header_of t i (length content)) content

pub write_record-Sends :
    (t i : ℕ) (content : Bytes) (c : FcgiClient)
    → IsOpen c
    → Sends (write_record t i content) c tt (frame t i content)
unfolding write_record net_write init
write_record-Sends t i content c o = ground arith

pub begin-Sends :
    (c : FcgiClient)
    → IsOpen c
    → Sends
        (write_begin_request 1 fcgi_responder 0)
        c
        tt
        (frame fcgi_begin_request 1 (0 ∷ 1 ∷ 0 ∷ replicate 5 0))
unfolding write_begin_request
begin-Sends c o = write_record-Sends fcgi_begin_request 1 (0 ∷ 1 ∷ 0 ∷ replicate 5 0) c o

get_header-put_header :
    (h : Header) (s : Bytes)
    → h.id < 2 ^ 16
    → h.content_length < 2 ^ 16
    → get_header (put_header h ++ s) ≡ ok (h, s)
unfolding get_header put_header
get_header-put_header h s p q = ground arith

read_full-append : (b s : Bytes) (n : ℕ) → length b ≡ n → read_full (b ++ s) n ≡ ok (b, s)
unfolding read_full
read_full-append [] s zero h = refl
read_full-append [] s (suc n) h = absurd (omega arith)
read_full-append (x ∷ b) s zero h = absurd (omega arith)
read_full-append (x ∷ b) s (suc n) h =
    ground
      (arith, take-append b s n (omega arith), drop-append b s n (omega arith), length-append b s)

-- A record with the content length `n` of its header, over a body that may be longer.
read_record-put_header :
    (h : Header) (b rest : Bytes)
    → h.version ≡ 1
    → h.id < 2 ^ 16
    → h.content_length < 2 ^ 16
    → length b ≡ h.content_length + h.padding_length
    → read_record (put_header h ++ (b ++ rest)) ≡ ok (h, take h.content_length b, rest)
unfolding read_record
read_record-put_header h b rest v p q e =
    rw (get_header-put_header h (b ++ rest) p q) (ground (arith, read_full-append b rest _ e))

frame_split :
    (h : Header) (content rest : Bytes)
    → record_bytes h content ++ rest
      ≡ put_header h ++ ((content ++ replicate h.padding_length 0) ++ rest)
unfolding record_bytes put_header
frame_split h content rest = refl

-- A record of up to 65535 bytes, with an id of 16 bits, is read back whole, with its type and id, and
-- the reader stops at the end of the padding.
pub read_record-frame :
    (t i : ℕ) (content rest : Bytes)
    → i < 2 ^ 16
    → length content < 2 ^ 16
    → read_record (frame t i content ++ rest) ≡ ok (header_of t i (length content), content, rest)
read_record-frame t i content rest p q =
    let h = header_of t i (length content) in
    let pad : Bytes = replicate h.padding_length 0 in
    let size : length content ≡ h.content_length = omega arith in
    let body : length (content ++ pad) ≡ h.content_length + h.padding_length =
      omega (arith, length-append content pad, length-replicate {0} h.padding_length (zero)) in
    cc (
      frame_split h content rest,
      read_record-put_header h (content ++ pad) rest refl p (omega arith) body,
      take-append content pad h.content_length size,
    )

-- `writeRecord` puts no limit on the content, and the 16-bit length of a larger one wraps around: with
-- an id of 16 bits, the reader gets a proper prefix, and takes what is left of the content for the next record.
pub read_record-frame_oversize :
    (t i : ℕ) (content rest : Bytes)
    → i < 2 ^ 16
    → 2 ^ 16 ≤ length content
    → let h = header_of t i (length content) in
      let stream = (content ++ replicate h.padding_length 0) ++ rest in
      (read_record (frame t i content ++ rest)
        ≡ ok (h, take h.content_length content, drop (h.content_length + h.padding_length) stream))
      × (length (take h.content_length content) < length content)
read_record-frame_oversize t i content rest p q =
    let h = header_of t i (length content) in
    let pad : Bytes = replicate h.padding_length 0 in
    let stream : Bytes = (content ++ pad) ++ rest in
    let k : ℕ = h.content_length + h.padding_length in
    let enough : h.content_length ≤ length content = omega arith in
    let cut : length (take k stream) ≡ k = omega (
      arith,
      length-take k stream,
      length-append (content ++ pad) rest,
      length-append content pad,
      length-replicate {0} h.padding_length (zero),
    ) in
    (
      cc (
        frame_split h content rest,
        take-append-drop k stream,
        read_record-put_header h (take k stream) (drop k stream) refl p (omega arith) cut,
        take-take_le stream h.content_length k (omega arith),
        take-append_le (content ++ pad) rest h.content_length
            (omega (arith, length-append content pad)),
        take-append_le content pad h.content_length enough,
      ),
      omega (arith, length-take h.content_length content),
    )

-- Every record takes a multiple of 8 bytes.
pub frame_aligned : (t i : ℕ) (content : Bytes) → length (frame t i content) % 8 ≡ 0
unfolding record_bytes put_header
frame_aligned t i content = omega (
  arith,
  length-append content (replicate ((8 - length content % 8) % 8) (zero)),
  length-replicate {0} ((8 - length content % 8) % 8) (zero),
)
