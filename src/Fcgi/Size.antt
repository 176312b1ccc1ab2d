-- ===== src/Fcgi/Size.antt =====
-- The lengths of the FastCGI name-value pairs: `encodeSize`, `readSize` and `readString` of
-- callbacks/fcgiclient/fcgiclient.go. A size is a uint32.
use dove.Base.{
  ℕ, ◌+◌, ◌*◌, ◌/◌, ◌%◌, ◌^◌, ◌≤◌, ◌<◌, ◌≡◌, [], ◌∷◌, ◌++◌, arith, ltb, leb, if◌then◌else◌, length,
  take, Bytes, nat_eq, bytes_eq,
}

-- binary.BigEndian.PutUint32
unfoldable pub put_uint32 : ℕ → Bytes
put_uint32 n = (n / 2 ^ 24 % 256) ∷ (n / 2 ^ 16 % 256) ∷ (n / 2 ^ 8 % 256) ∷ (n % 256) ∷ []

-- binary.BigEndian.Uint32
unfoldable pub get_uint32 : Bytes → ℕ
get_uint32 (a ∷ b ∷ c ∷ d ∷ _) = a * 2 ^ 24 + b * 2 ^ 16 + c * 2 ^ 8 + d
get_uint32 _ = 0

-- size | 1<<31, of a uint32.
set_top_bit : ℕ → ℕ
set_top_bit size = size % 2 ^ 31 + 2 ^ 31

unfoldable pub encode_size : ℕ → Bytes
unfolding set_top_bit put_uint32
encode_size size = if ltb 127 size then put_uint32 (set_top_bit size) else (size % 256) ∷ []

-- The size, and how many bytes it took: 0 when there are too few.
unfoldable pub read_size : Bytes → ℕ × ℕ
unfolding get_uint32
read_size [] = (0, 0)
read_size (b ∷ s) =
    if leb 128 b
    then (if ltb (length (b ∷ s)) 4 then (0, 0) else (get_uint32 (b ∷ s) % 2 ^ 31, 4))
    else (b, 1)

unfoldable pub read_string : Bytes → ℕ → Bytes
read_string s size = if ltb (length s) size then [] else take size s

top_byte : (n : ℕ) → n < 2 ^ 31 → 128 ≤ (n % 2 ^ 31 + 2 ^ 31) / 2 ^ 24 % 256
top_byte n h = omega arith

four_bytes :
    (m : ℕ)
    → m < 2 ^ 32
    → m / 2 ^ 24 % 256 * 2 ^ 24 + m / 2 ^ 16 % 256 * 2 ^ 16 + m / 2 ^ 8 % 256 * 2 ^ 8 + m % 256 ≡ m
four_bytes m h = omega arith

-- Every size below 2^31 is read back from its encoding, whatever follows, and the reader consumes
-- exactly the bytes that the encoder wrote.
pub read_size-encode_size :
    (n : ℕ) (rest : Bytes)
    → n < 2 ^ 31
    → read_size (encode_size n ++ rest) ≡ (n, length (encode_size n))
unfolding read_size encode_size
read_size-encode_size n rest h =
    ground (arith, top_byte n h, four_bytes (n % 2 ^ 31 + 2 ^ 31) (omega arith))

pub length-encode_size : (n : ℕ) → length (encode_size n) ≡ (if ltb 127 n then 4 else 1)
unfolding encode_size
length-encode_size n = ground arith
