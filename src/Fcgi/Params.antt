-- ===== src/Fcgi/Params.antt =====
-- Name-value pairs and whole requests: `bufWriter`, `streamWriter`, `writePairs` and `Request` of
-- callbacks/fcgiclient/fcgiclient.go. The environment of a request is a Go map: the pairs come in
-- the order in which `range` visits it.
pub mod Sent
pub mod RoundTrip
use dove.Base.{
  ℕ, zero, suc, ◌+◌, ◌%◌, ◌^◌, List, [], ◌∷◌, ◌++◌, ltb, leb, if◌then◌else◌, length, take, drop,
  Bytes, nat_eq, bytes_eq, ok, err,
}
use dove.Fcgi.Size.{encode_size}
use dove.Fcgi.Wire.{Act, ◌>>=◌, ◌>>◌, pure}
use dove.Fcgi.Record.{
  max_write, fcgi_params, fcgi_stdin, fcgi_responder, write_record, write_begin_request,
  read_record,
}

-- `streamWriter.Write`: records of at most `max_write` bytes. The fuel is the number of rounds;
-- `length p` rounds are enough, since each takes at least one byte.
pub stream_write : ℕ → ℕ → ℕ → Bytes → ℕ → Act ℕ
stream_write t i fuel [] nn = pure nn
stream_write t i zero (x ∷ p) nn = pure nn
stream_write t i (suc fuel) (x ∷ p) nn =
    write_record t i (take max_write (x ∷ p))
    >> stream_write t i fuel (drop max_write (x ∷ p)) (nn + length (take max_write (x ∷ p)))

-- `bufio.Writer.Flush`: the buffer is the argument, and the result is the buffer afterwards.
pub flush : ℕ → ℕ → Bytes → Act Bytes
flush t i [] = pure []
flush t i (x ∷ buf) = stream_write t i (length (x ∷ buf)) (x ∷ buf) 0 >> pure []

flush_if_full : ℕ → ℕ → Bytes → Act Bytes
unfolding flush
flush_if_full t i buf = if leb max_write (length buf) then flush t i buf else pure buf

-- `bufio.Writer.Write` and `WriteString` with a buffer of `max_write` bytes: the buffer is flushed
-- when it is full and another byte comes.
pub buf_write : ℕ → ℕ → Bytes → Bytes → Act Bytes
unfolding flush_if_full
buf_write t i [] buf = pure buf
buf_write t i (x ∷ p) buf = flush_if_full t i buf >>= λ b. buf_write t i p (b ++ x ∷ [])

-- `bufWriter.Close`: the empty record ends the stream, also after a failed flush.
pub close : ℕ → ℕ → Bytes → Act (Unit {0})
close t i buf c =
    let (r, c') = flush t i buf c in
    let (r', c'') = write_record t i [] c' in (elim r [ ok _ ↦ r' | err e ↦ err e ], c'')

pub write_pair : ℕ → ℕ → Bytes → Bytes → Bytes → Act Bytes
write_pair t i k v buf =
    buf_write t i (encode_size (length k % 2 ^ 32) ++ encode_size (length v % 2 ^ 32)) buf >>= λ b.
    buf_write t i k b >>= λ b'. buf_write t i v b'

pub write_pairs_loop : ℕ → ℕ → List (Bytes × Bytes) → Bytes → Act Bytes
write_pairs_loop t i [] buf = pure buf
write_pairs_loop t i ((k, v) ∷ pairs) buf =
    write_pair t i k v buf >>= λ b. write_pairs_loop t i pairs b

-- The result of `w.Close()` is dropped.
ignoring : Act (Unit {0}) → Act (Unit {0})
ignoring m c = (ok tt, (m c).1)

pub write_pairs : ℕ → ℕ → List (Bytes × Bytes) → Act (Unit {0})
unfolding ignoring
write_pairs t i pairs = write_pairs_loop t i pairs [] >>= λ buf. ignoring (close t i buf)

-- `rec.read(this.rwc)`, then `rec.content()`.
receive_record : Act Bytes
receive_record c = elim (read_record c.wire.incoming) [
  | ok got ↦ (ok got.1, record c { wire = record c.wire { incoming = got.2 } })
  | err e ↦ (err e, c)
]

send_stdin : Bytes → Act (Unit {0})
send_stdin req_str = if ltb 0 (length req_str) then write_record fcgi_stdin 1 req_str else pure tt

pub request : List (Bytes × Bytes) → Bytes → Act Bytes
unfolding send_stdin receive_record
request env req_str =
    write_begin_request 1 fcgi_responder 0
    >> (write_pairs fcgi_params 1 env >> (send_stdin req_str >> receive_record))
