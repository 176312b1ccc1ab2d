-- ===== src/Fcgi/Examples.antt =====
-- Concrete runs of the FastCGI client of callbacks/fcgiclient/fcgiclient.go.
use dove.Base.{
  ℕ, ◌≡◌, refl, some, List, [], ◌∷◌, ◌++◌, arith, length, replicate, length-replicate, Bytes, codes,
  nat_eq, bytes_eq, ok,
}
use dove.Fcgi.Size.{encode_size}
use dove.Fcgi.Wire.{FcgiClient}
use dove.Fcgi.Record.Framing.{frame}
use dove.Fcgi.Params.{request}
use dove.Fcgi.Params.Sent.{request_bytes, request_lem}
use dove.Fcgi.Params.RoundTrip.{received_env, received_env-request_bytes}

abbrev env : List (Bytes × Bytes)
env = (codes "REQUEST_METHOD", codes "GET") ∷ (codes "REMOTE_ADDR", codes "127.0.0.1") ∷ []

abbrev answer : Bytes
answer = codes "true"

abbrev client : FcgiClient
client = record {
  wire = record { sent = []; incoming = frame 6 1 answer ++ []; outcomes = [] };
  h = record {
    version = 0;
    kind = 0;
    id = 0;
    content_length = 0;
    padding_length = 0;
    reserved = 0;
  };
}

big : Bytes
big = replicate 65537 7

length-big : length big ≡ 65537
unfolding big
length-big = length-replicate {A = ℕ} 65537 7

encode_size_200 : encode_size 200 ≡ 128 ∷ 0 ∷ 0 ∷ 200 ∷ []
unfolding encode_size
encode_size_200 = refl

request_lem_example : (request env [] client).0 ≡ ok answer
unfolding encode_size
request_lem_example =
    (request_lem env [] client 6 1 answer [] (λ e. cc) (omega arith)
      (record { outcomes_lem = refl; reserved_lem = refl }) (omega arith) (omega arith) refl).0

received_env-request_bytes_example : received_env 2 2 (request_bytes env [] ++ 5 ∷ []) ≡ some env
unfolding encode_size
received_env-request_bytes_example =
    received_env-request_bytes env [] (5 ∷ []) 0 (λ e. cc) (omega arith) (omega arith)
