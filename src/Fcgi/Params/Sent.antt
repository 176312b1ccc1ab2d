-- ===== src/Fcgi/Params/Sent.antt =====
-- What a client whose writes go through puts on the connection.
use dove.Base.{
  ℕ, suc, ◌+◌, ◌%◌, ◌^◌, ◌≤◌, ◌<◌, ◌≡◌, refl, ap, ◌∙◌, ◌≢◌, List, [], ◌∷◌, ◌++◌, append_assoc,
  append-nil, arith, ltb, if◌then◌else◌, lt→ltb, length, replicate, length-append, take_all,
  drop_all, Bytes, nat_eq, bytes_eq, ok,
}
use dove.Fcgi.Size.{encode_size, length-encode_size}
use dove.Fcgi.Wire.{
  FcgiClient, Act, ◌>>◌, pure, Sends, IsOpen, Sends-IsOpen, Sends-pure, Sends-bind, bind_result,
}
use dove.Fcgi.Record.{
  max_write, max_write_large, fcgi_params, fcgi_stdin, fcgi_responder, fcgi_begin_request,
  write_record, write_begin_request,
}
use dove.Fcgi.Record.Framing.{frame, read_record-frame, write_record-Sends, begin-Sends}
use dove.Fcgi.Params.{
  stream_write, flush, flush_if_full, buf_write, close, write_pair, write_pairs_loop, write_pairs,
  receive_record, send_stdin, request,
}

-- The body of a stream of pairs.
abbrev pub pair_bytes : Bytes → Bytes → Bytes
pair_bytes k v = (encode_size (length k % 2 ^ 32) ++ encode_size (length v % 2 ^ 32)) ++ (k ++ v)

abbrev pub encode_pairs : List (Bytes × Bytes) → Bytes
encode_pairs [] = []
encode_pairs ((k, v) ∷ pairs) = pair_bytes k v ++ encode_pairs pairs

flush_if_full-fits :
    (t i : ℕ) (buf : Bytes) (c : FcgiClient)
    → length buf < max_write
    → flush_if_full t i buf c ≡ (ok buf, c)
unfolding flush_if_full
flush_if_full-fits t i buf c h = ground arith

buf_write-fits :
    (t i : ℕ) (p buf : Bytes) (c : FcgiClient)
    → length buf + length p ≤ max_write
    → buf_write t i p buf c ≡ (ok (buf ++ p), c)
unfolding buf_write
buf_write-fits t i [] buf c h = rw append-nil
buf_write-fits t i (x ∷ p) buf c h = rw (flush_if_full-fits t i buf c (omega arith)) (
    buf_write-fits t i p (buf ++ x ∷ []) c (omega (arith, length-append buf (x ∷ [])))
    ∙ ap (λ b. (ok b, c)) (append_assoc buf (x ∷ []) p))

write_pair-fits :
    (t i : ℕ) (k v buf : Bytes) (c : FcgiClient)
    → length buf + length (pair_bytes k v) ≤ max_write
    → write_pair t i k v buf c ≡ (ok (buf ++ pair_bytes k v), c)
unfolding write_pair
write_pair-fits t i k v buf c h =
    let sizes = encode_size (length k % 2 ^ 32) ++ encode_size (length v % 2 ^ 32) in
    let total : length (pair_bytes k v) ≡ length sizes + (length k + length v) =
      omega (arith, length-append sizes (k ++ v), length-append k v) in
    let l1 : length (buf ++ sizes) ≡ length buf + length sizes = length-append buf sizes in
    let l2 : length ((buf ++ sizes) ++ k) ≡ length (buf ++ sizes) + length k =
      length-append (buf ++ sizes) k in
    rw
      (
        buf_write-fits t i sizes buf c (omega arith),
        buf_write-fits t i k (buf ++ sizes) c (omega arith),
        buf_write-fits t i v ((buf ++ sizes) ++ k) c (omega arith),
      )
      (ap (λ b. (ok b, c)) (append_assoc (buf ++ sizes) k v ∙ append_assoc buf sizes (k ++ v)))

write_pairs_loop-fits :
    (t i : ℕ) (pairs : List (Bytes × Bytes)) (buf : Bytes) (c : FcgiClient)
    → length buf + length (encode_pairs pairs) ≤ max_write
    → write_pairs_loop t i pairs buf c ≡ (ok (buf ++ encode_pairs pairs), c)
unfolding write_pairs_loop
write_pairs_loop-fits t i [] buf c h = rw append-nil
write_pairs_loop-fits t i ((k, v) ∷ pairs) buf c h =
    let total = length-append (pair_bytes k v) (encode_pairs pairs) in
    rw (write_pair-fits t i k v buf c (omega (arith, total))) (
      write_pairs_loop-fits t i pairs (buf ++ pair_bytes k v) c
        (omega (arith, total, length-append buf (pair_bytes k v)))
      ∙ ap (λ b. (ok b, c)) (append_assoc buf (pair_bytes k v) (encode_pairs pairs)))

stream_write-Sends :
    (t i fuel nn x : ℕ) (p : Bytes) (c : FcgiClient)
    → length (x ∷ p) ≤ max_write
    → IsOpen c
    → Sends (stream_write t i (suc fuel) (x ∷ p) nn) c (nn + length (x ∷ p)) (frame t i (x ∷ p))
unfolding stream_write
stream_write-Sends t i fuel nn x p c h o =
    rw (take_all (x ∷ p) max_write h, drop_all (x ∷ p) max_write h)
      (rw (← append-nil (frame t i (x ∷ p))) (
        Sends-bind (write_record t i (x ∷ p)) (λ _. stream_write t i fuel [] _)
          (write_record-Sends t i (x ∷ p) c o)
          (Sends-pure _ (Sends-IsOpen (write_record-Sends t i (x ∷ p) c o)))))

flush-Sends :
    (t i : ℕ) (buf : Bytes) (c : FcgiClient)
    → buf ≢ []
    → length buf ≤ max_write
    → IsOpen c
    → Sends (flush t i buf) c [] (frame t i buf)
unfolding flush
flush-Sends t i [] c n h o = absurd (n refl)
flush-Sends t i (x ∷ buf) c n h o =
    let sent = stream_write-Sends t i (length buf) 0 x buf c h o in
    rw (← append-nil (frame t i (x ∷ buf))) (
      Sends-bind (stream_write t i (suc (length buf)) (x ∷ buf) 0) (λ _. pure []) sent
        (Sends-pure [] (Sends-IsOpen sent)))

close-Sends :
    (t i : ℕ) (buf : Bytes) (c : FcgiClient)
    → buf ≢ []
    → length buf ≤ max_write
    → IsOpen c
    → Sends (close t i buf) c tt (frame t i buf ++ frame t i [])
unfolding close
close-Sends t i buf c n h o = record {
  result = rw (s.result, close) s'.result;
  sent_lem = cc (s.sent_lem, s'.sent_lem, append_assoc c.wire.sent (frame t i buf) (frame t i []));
  incoming_lem = cc (s.incoming_lem, s'.incoming_lem);
  outcomes_lem = s'.outcomes_lem;
  reserved_lem = s'.reserved_lem;
}
  where
    s : Sends (flush t i buf) c [] (frame t i buf)
    s = flush-Sends t i buf c n h o

    s' : Sends (write_record t i []) (flush t i buf c).1 tt (frame t i [])
    s' = write_record-Sends t i [] (flush t i buf c).1 (Sends-IsOpen s)

pair_bytes_pos : (k v : Bytes) → 0 < length (pair_bytes k v)
pair_bytes_pos k v =
    let n : ℕ = length k % 2 ^ 32 in
    let m : ℕ = length v % 2 ^ 32 in
    ground (
      arith,
      length-append (encode_size n ++ encode_size m) (k ++ v),
      length-append (encode_size n) (encode_size m),
      length-encode_size n,
    )

pub encode_pairs-ne-nil : (pairs : List (Bytes × Bytes)) → pairs ≢ [] → encode_pairs pairs ≢ []
encode_pairs-ne-nil [] n e = n refl
encode_pairs-ne-nil ((k, v) ∷ pairs) n e =
    omega
      (arith, ap length e, length-append (pair_bytes k v) (encode_pairs pairs), pair_bytes_pos k v)

-- Pairs with a body of at most 65535 bytes go out as one record, and an empty one behind it.
pub write_pairs-Sends :
    (t i : ℕ) (pairs : List (Bytes × Bytes)) (c : FcgiClient)
    → pairs ≢ []
    → length (encode_pairs pairs) < 2 ^ 16
    → IsOpen c
    → Sends (write_pairs t i pairs) c tt (frame t i (encode_pairs pairs) ++ frame t i [])
unfolding write_pairs
write_pairs-Sends t i pairs c n h o = record {
  result = rw loop;
  sent_lem = rw loop s.sent_lem;
  incoming_lem = rw loop s.incoming_lem;
  outcomes_lem = rw loop s.outcomes_lem;
  reserved_lem = rw loop s.reserved_lem;
}
  where
    room : length (encode_pairs pairs) ≤ max_write
    room = omega (arith, max_write_large)

    loop : write_pairs_loop t i pairs [] c ≡ (ok (encode_pairs pairs), c)
    loop = write_pairs_loop-fits t i pairs [] c (omega (arith, room))

    s : Sends (close t i (encode_pairs pairs)) c tt (frame t i (encode_pairs pairs) ++ frame t i [])
    s = close-Sends t i (encode_pairs pairs) c (encode_pairs-ne-nil pairs n) room o

-- The bytes that a whole request sends, for an environment of at most 65535 bytes: the begin
-- record, the stream of pairs with its end, and one record of standard input unless that is empty.
abbrev pub stdin_bytes : Bytes → Bytes
stdin_bytes req = if ltb 0 (length req) then frame fcgi_stdin 1 req else []

abbrev pub request_bytes : List (Bytes × Bytes) → Bytes → Bytes
request_bytes env req =
    frame fcgi_begin_request 1 (0 ∷ 1 ∷ 0 ∷ replicate 5 0)
    ++ ((frame fcgi_params 1 (encode_pairs env) ++ frame fcgi_params 1 []) ++ stdin_bytes req)

send_stdin-Sends :
    (req : Bytes) (c : FcgiClient) → IsOpen c → Sends (send_stdin req) c tt (stdin_bytes req)
unfolding send_stdin
send_stdin-Sends [] c o = Sends-pure tt o
send_stdin-Sends (x ∷ req) c o =
    rw (lt→ltb 0 (length (x ∷ req)) (omega arith)) (write_record-Sends fcgi_stdin 1 (x ∷ req) c o)

receive_record-frame :
    (c : FcgiClient) (t i : ℕ) (answer rest : Bytes)
    → i < 2 ^ 16
    → length answer < 2 ^ 16
    → c.wire.incoming ≡ frame t i answer ++ rest
    → receive_record c ≡ (ok answer, record c { wire = record c.wire { incoming = rest } })
unfolding receive_record
receive_record-frame c t i answer rest p q e =
    rw (e, receive_record) (rw (read_record-frame t i answer rest p q))

-- On an open connection, a request whose environment is not empty and takes at most 65535 bytes sends
-- those bytes, and returns the content of the first record that comes back, of whatever type it is,
-- when that is a well-formed one.
pub request_lem :
    (env : List (Bytes × Bytes)) (req : Bytes) (c : FcgiClient) (t i : ℕ) (answer rest : Bytes)
    → env ≢ []
    → length (encode_pairs env) < 2 ^ 16
    → IsOpen c
    → i < 2 ^ 16
    → length answer < 2 ^ 16
    → c.wire.incoming ≡ frame t i answer ++ rest
    → ((request env req c).0 ≡ ok answer)
      × ((request env req c).1.wire.sent ≡ c.wire.sent ++ request_bytes env req)
      × ((request env req c).1.wire.incoming ≡ rest)
unfolding request
request_lem env req c t i answer rest n h o p q e =
    (ap (λ r. r.0) whole, ap (λ r. r.1.wire.sent) whole ∙ sent, ap (λ r. r.1.wire.incoming) whole)
  where
    m1 : Act (Unit {0})
    m1 = write_begin_request 1 fcgi_responder 0

    m2 : Act (Unit {0})
    m2 = write_pairs fcgi_params 1 env

    s1 : Sends m1 c tt (frame fcgi_begin_request 1 (0 ∷ 1 ∷ 0 ∷ replicate 5 0))
    s1 = begin-Sends c o

    c1 : FcgiClient
    c1 = (m1 c).1

    s2 : Sends m2 c1 tt (frame fcgi_params 1 (encode_pairs env) ++ frame fcgi_params 1 [])
    s2 = write_pairs-Sends fcgi_params 1 env c1 n h (Sends-IsOpen s1)

    c2 : FcgiClient
    c2 = (m2 c1).1

    s3 : Sends (send_stdin req) c2 tt (stdin_bytes req)
    s3 = send_stdin-Sends req c2 (Sends-IsOpen s2)

    c3 : FcgiClient
    c3 = (send_stdin req c2).1

    whole : request env req c ≡ (ok answer, record c3 { wire = record c3.wire { incoming = rest } })
    whole =
        bind_result m1 (λ _. m2 >> (send_stdin req >> receive_record)) c s1.result
        ∙ bind_result m2 (λ _. send_stdin req >> receive_record) c1 s2.result
        ∙ bind_result (send_stdin req) (λ _. receive_record) c2 s3.result
        ∙ receive_record-frame c3 t i answer rest p q
            (s3.incoming_lem ∙ s2.incoming_lem ∙ s1.incoming_lem ∙ e)

    sent : c3.wire.sent ≡ c.wire.sent ++ request_bytes env req
    sent = simp (s3.sent_lem, s2.sent_lem, s1.sent_lem, append_assoc)
