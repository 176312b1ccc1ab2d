-- ===== src/Fcgi/Record.antt =====
-- FastCGI records: `header.init`, `writeRecord`, `record.read` and `record.content` of
-- callbacks/fcgiclient/fcgiclient.go.
pub mod Framing
use dove.Base.{
  ℕ, zero, suc, ◌+◌, ◌-◌, ◌*◌, ◌/◌, ◌%◌, ◌^◌, ◌≤◌, [], ◌∷◌, ◌++◌, arith, ltb, nat_beq,
  if◌then◌else◌, length, take, drop, replicate, Bytes, nat_eq, bytes_eq, Result, ◌>>=◌, ok, err,
}
use dove.Fcgi.Wire.{Error, eof, unexpected_eof, invalid_version, Header, Act, net_write}

abbrev pub fcgi_begin_request : ℕ
fcgi_begin_request = 1

abbrev pub fcgi_end_request : ℕ
fcgi_end_request = 3

abbrev pub fcgi_params : ℕ
fcgi_params = 4

abbrev pub fcgi_stdin : ℕ
fcgi_stdin = 5

abbrev pub fcgi_responder : ℕ
fcgi_responder = 1

-- Maximum record body.
pub max_write : ℕ
max_write = 6553500

pub max_write_large : 2 ^ 16 ≤ max_write
unfolding max_write
max_write_large = omega arith

-- The conversions to uint16 and uint8 drop the high bits; `-n & 7` is the distance to a multiple
-- of 8. `reserved` keeps its value.
pub init : ℕ → ℕ → ℕ → Header → Header
init rec_type req_id n h = record h {
  version = 1;
  kind = rec_type;
  id = req_id;
  content_length = n % 2 ^ 16;
  padding_length = (8 - n % 8) % 8;
}

-- binary.Write(buf, binary.BigEndian, h)
pub put_header : Header → Bytes
put_header h =
    h.version
    ∷ h.kind
    ∷ (h.id / 2 ^ 8)
    ∷ (h.id % 2 ^ 8)
    ∷ (h.content_length / 2 ^ 8)
    ∷ (h.content_length % 2 ^ 8)
    ∷ h.padding_length
    ∷ h.reserved
    ∷ []

-- binary.Read(r, binary.BigEndian, &h), and the rest of the stream.
pub get_header : Bytes → Result Error (Header × Bytes)
get_header [] = err eof
get_header (v ∷ t ∷ i1 ∷ i0 ∷ c1 ∷ c0 ∷ p ∷ r ∷ rest) = ok (
  record {
    version = v;
    kind = t;
    id = i1 * 2 ^ 8 + i0;
    content_length = c1 * 2 ^ 8 + c0;
    padding_length = p;
    reserved = r;
  },
  rest,
)
get_header _ = err unexpected_eof

-- io.ReadFull(r, buf[:n])
pub read_full : Bytes → ℕ → Result Error (Bytes × Bytes)
read_full s zero = ok ([], s)
read_full [] (suc n) = err eof
read_full (c ∷ s) (suc n) =
    if ltb (length s) n then err unexpected_eof else ok (c ∷ take n s, drop n s)

-- `rec.read(r)`: the header, the first `content_length` bytes of the body (`rec.content()`), and
-- the rest of the stream.
pub read_record : Bytes → Result Error (Header × Bytes × Bytes)
unfolding get_header read_full
read_record s = get_header s >>= λ got.
    if nat_beq got.0.version 1
    then (read_full got.1 (got.0.content_length + got.0.padding_length) >>= λ body.
        ok (got.0, take got.0.content_length body.0, body.1))
    else err invalid_version

-- The bytes that `writeRecord` hands to the connection in one write.
pub record_bytes : Header → Bytes → Bytes
unfolding put_header
record_bytes h content = put_header h ++ (content ++ replicate h.padding_length 0)

pub write_record : ℕ → ℕ → Bytes → Act (Unit {0})
unfolding init
write_record rec_type req_id content c =
    let h' = init rec_type req_id (length content) c.h in
    net_write (record_bytes h' content) (record c { h = h' })

-- role >> 8, role, flags and five zeros.
pub write_begin_request : ℕ → ℕ → ℕ → Act (Unit {0})
write_begin_request req_id role flags =
    write_record fcgi_begin_request req_id
      ((role / 2 ^ 8 % 2 ^ 8) ∷ (role % 2 ^ 8) ∷ flags ∷ replicate 5 0)

-- uint32(appStatus), protocolStatus and three zeros.
pub write_end_request : ℕ → ℕ → ℕ → Act (Unit {0})
write_end_request req_id app_status protocol_status =
    write_record fcgi_end_request req_id
      (dove.Fcgi.Size.put_uint32 app_status ++ protocol_status ∷ replicate 3 0)
