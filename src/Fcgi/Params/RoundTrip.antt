-- ===== src/Fcgi/Params/RoundTrip.antt =====
-- The receiver's side of the pairs of callbacks/fcgiclient/fcgiclient.go, by its own `readSize`
-- and `readString`: what was put into a request is read back from it.
use dove.Base.{
  ℕ, zero, suc, ◌%◌, ◌^◌, ◌<◌, ◌≡◌, refl, ap, ◌∙◌, ◌≢◌, Option, none, some, List, [], ◌∷◌, ◌++◌,
  append_assoc, append-nil, arith, length, drop, replicate, length-append, take-append, drop-append,
  All, Bytes, nat_eq, bytes_eq, ok, err,
}
use dove.Fcgi.Size.{encode_size, read_size, read_string, read_size-encode_size}
use dove.Fcgi.Wire.{Header}
use dove.Fcgi.Record.{read_record, fcgi_begin_request, fcgi_params}
use dove.Fcgi.Record.Framing.{frame, read_record-frame}
use dove.Fcgi.Params.Sent.{
  pair_bytes, encode_pairs, encode_pairs-ne-nil, request_bytes, stdin_bytes,
}

-- One pair off the front of a stream of pairs.
read_pair : Bytes → (Bytes × Bytes) × Bytes
read_pair s =
    let (n, a) = read_size s in
    let (m, b) = read_size (drop a s) in
    let body = drop b (drop a s) in
    ((read_string body n, read_string (drop n body) m), drop m (drop n body))

decode_pairs : ℕ → Bytes → List (Bytes × Bytes)
decode_pairs zero s = []
decode_pairs (suc fuel) s = (read_pair s).0 ∷ decode_pairs fuel (read_pair s).1

-- The contents of records up to the empty one.
collect : ℕ → Bytes → Option Bytes
collect zero s = none
collect (suc fuel) s = elim (read_record s) [
  | err e ↦ none
  | ok got ↦ elim got.1 [
    | [] ↦ some []
    | x ∷ xs ↦ elim (collect fuel got.2) [ none ↦ none | some more ↦ some ((x ∷ xs) ++ more) ]
  ]
]

-- Skips the begin record, and reads `n` pairs from the stream behind it.
pub received_env : ℕ → ℕ → Bytes → Option (List (Bytes × Bytes))
unfolding collect decode_pairs read_pair
received_env n fuel s = elim (read_record s) [
  | err e ↦ none
  | ok got ↦ elim (collect fuel got.2) [ none ↦ none | some body ↦ some (decode_pairs n body) ]
]

abbrev pub IsShort : Bytes × Bytes → Type 0
IsShort p = (length p.0 < 2 ^ 31) × (length p.1 < 2 ^ 31)

read_string-append : (b s : Bytes) → read_string (b ++ s) (length b) ≡ b
unfolding read_string
read_string-append b s = ground (arith, length-append b s, take-append b s (length b) refl)

read_pair-pair_bytes :
    (k v rest : Bytes) → IsShort (k, v) → read_pair (pair_bytes k v ++ rest) ≡ ((k, v), rest)
unfolding read_pair
read_pair-pair_bytes k v rest h = rw (
  shape,
  read_size-encode_size (length k) (b ++ (k ++ (v ++ rest))) h.0,
  drop-append a (b ++ (k ++ (v ++ rest))) (length a) refl,
  read_size-encode_size (length v) (k ++ (v ++ rest)) h.1,
  drop-append b (k ++ (v ++ rest)) (length b) refl,
  read_string-append k (v ++ rest),
  drop-append k (v ++ rest) (length k) refl,
  read_string-append v rest,
  drop-append v rest (length v) refl,
)
  where
    a : Bytes
    a = encode_size (length k)

    b : Bytes
    b = encode_size (length v)

    small : (n : ℕ) → n < 2 ^ 31 → n % 2 ^ 32 ≡ n
    small n p = omega arith

    shape : pair_bytes k v ++ rest ≡ a ++ (b ++ (k ++ (v ++ rest)))
    shape = simp (small (length k) h.0, small (length v) h.1, append_assoc)

decode_pairs-encode_pairs :
    (pairs : List (Bytes × Bytes))
    → All IsShort pairs
    → decode_pairs (length pairs) (encode_pairs pairs) ≡ pairs
unfolding decode_pairs
decode_pairs-encode_pairs [] h = refl
decode_pairs-encode_pairs ((k, v) ∷ pairs) h =
    rw (read_pair-pair_bytes k v (encode_pairs pairs) h.0)
      (ap (λ l. (k, v) ∷ l) (decode_pairs-encode_pairs pairs h.1))

collect-more :
    (fuel x : ℕ) (xs s rest more : Bytes) (h : Header)
    → read_record s ≡ ok (h, x ∷ xs, rest)
    → collect fuel rest ≡ some more
    → collect (suc fuel) s ≡ some ((x ∷ xs) ++ more)
unfolding collect
collect-more fuel x xs s rest more h e e' = ground arith

collect-end :
    (fuel : ℕ) (s rest : Bytes) (h : Header)
    → read_record s ≡ ok (h, [], rest)
    → collect (suc fuel) s ≡ some []
unfolding collect
collect-end fuel s rest h e = ground arith

received_env_lem :
    (n fuel : ℕ) (s content rest body : Bytes) (h : Header)
    → read_record s ≡ ok (h, content, rest)
    → collect fuel rest ≡ some body
    → received_env n fuel s ≡ some (decode_pairs n body)
unfolding received_env
received_env_lem n fuel s content rest body h e e' = ground arith

collect-frame :
    (t i fuel : ℕ) (x : ℕ) (content rest : Bytes)
    → i < 2 ^ 16
    → length (x ∷ content) < 2 ^ 16
    → collect (suc (suc fuel)) ((frame t i (x ∷ content) ++ frame t i []) ++ rest)
      ≡ some (x ∷ content)
collect-frame t i fuel x content rest p q =
    ap (collect (suc (suc fuel))) (append_assoc (frame t i (x ∷ content)) (frame t i []) rest)
    ∙ collect-more (suc fuel) x content _ _ [] _
        (read_record-frame t i (x ∷ content) (frame t i [] ++ rest) p q)
        (collect-end fuel _ _ _ (read_record-frame t i [] rest p (omega arith)))
    ∙ ap some (append-nil (x ∷ content))

collect-body :
    (t i fuel : ℕ) (body rest : Bytes)
    → body ≢ []
    → i < 2 ^ 16
    → length body < 2 ^ 16
    → collect (suc (suc fuel)) ((frame t i body ++ frame t i []) ++ rest) ≡ some body
collect-body t i fuel [] rest n p q = absurd (n refl)
collect-body t i fuel (x ∷ body) rest n p q = collect-frame t i fuel x body rest p q

-- The receiver of a request reads back exactly the environment that was put into it, when the
-- environment is not empty, its names and values are shorter than 2^31 bytes, and its stream takes at
-- most 65535 bytes.
pub received_env-request_bytes :
    (env : List (Bytes × Bytes)) (req rest : Bytes) (fuel : ℕ)
    → env ≢ []
    → All IsShort env
    → length (encode_pairs env) < 2 ^ 16
    → received_env (length env) (suc (suc fuel)) (request_bytes env req ++ rest) ≡ some env
received_env-request_bytes env req rest fuel n short h =
    ap (received_env (length env) (suc (suc fuel))) shape
    ∙ received_env_lem (length env) (suc (suc fuel)) _ _ _ (encode_pairs env) _
        (read_record-frame fcgi_begin_request 1 (0 ∷ 1 ∷ 0 ∷ replicate 5 0)
          (params ++ (stdin_bytes req ++ rest)) (omega arith) (omega arith))
        (collect-body fcgi_params 1 fuel (encode_pairs env) (stdin_bytes req ++ rest)
          (encode_pairs-ne-nil env n) (omega arith) h)
    ∙ ap some (decode_pairs-encode_pairs env short)
  where
    params : Bytes
    params = frame fcgi_params 1 (encode_pairs env) ++ frame fcgi_params 1 []

    shape :
        request_bytes env req ++ rest
        ≡ frame fcgi_begin_request 1 (0 ∷ 1 ∷ 0 ∷ replicate 5 0)
          ++ (params ++ (stdin_bytes req ++ rest))
    shape = simp append_assoc
