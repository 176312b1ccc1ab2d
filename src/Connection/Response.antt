-- ===== src/Connection/Response.antt =====
-- The responses of connection/conn_handler.go: two tags of 8 bytes, then the data.
use dove.Base.{
  ℕ, zero, suc, ◌-◌, ◌≤◌, ◌<◌, ◌≡◌, refl, ap, ◌∙◌, ◌⊎◌, inl, inr, Option, none, some, List, [], ◌∷◌,
  ◌++◌, append_assoc, arith, ltb, nat_beq, if◌then◌else◌, length, take, replicate, length-append,
  length-replicate, All, Bytes, nat_eq, bytes_eq, Result, ok, err,
}
use dove.Base.Decimal.{
  pos, itoa, atoi, atoi-itoa, IsDigit, itoa-IsDigit, power_of_ten, length-itoa-le, length-itoa-ge,
}

abbrev pub head_tag_length : ℕ
head_tag_length = 8

abbrev pub status_tag_length : ℕ
status_tag_length = 8

-- What was written to a connection; `outcomes` says how each later write ends, as the environment
-- chooses: `none` lets it through, `some n` breaks it after `n` bytes.
pub record Conn : Type 0 where
  pub sent : Bytes
  pub outcomes : List (Option ℕ)

-- `panics` is a negative length handed to `make`.
pub data ResponseError : Type 0 where
  panics write_failed : ResponseError

unfoldable pub write : Bytes → Conn → Result ResponseError (Unit {0}) × Conn
write p c = elim c.outcomes [
  | [] ↦ (ok tt, record c { sent = c.sent ++ p })
  | none ∷ os ↦ (ok tt, record { sent = c.sent ++ p; outcomes = os })
  | some n ∷ os ↦ (err write_failed, record { sent = c.sent ++ take n p; outcomes = os })
]

-- Later writes are not tried when one fails.
pub write_all : List Bytes → Conn → Result ResponseError (Unit {0}) × Conn
write_all [] c = (ok tt, c)
write_all (p ∷ ps) c =
    let (r, c') = write p c in elim r [ ok _ ↦ write_all ps c' | err e ↦ (err e, c') ]

-- A tag filled up with zeros: append(tag, make([]byte, n-len(tag))...).
unfoldable pub padded : ℕ → Bytes → Result ResponseError Bytes
padded n tag = if ltb n (length tag) then err panics else ok (tag ++ replicate (n - length tag) 0)

pub response : Bytes → Bytes → Conn → Result ResponseError (Unit {0}) × Conn
unfolding write_all
response status data_bytes c = elim (padded status_tag_length status) [
  | err e ↦ (err e, c)
  | ok status_tag ↦ elim (padded head_tag_length (itoa (length data_bytes))) [
    | err e ↦ (err e, c)
    | ok head_tag ↦ write_all (head_tag ∷ status_tag ∷ data_bytes ∷ []) c
  ]
]

-- The bytes of a tag before the first zero, at most `n` of them; on a tag of 8 bytes `n` is 8.
until_zero : ℕ → Bytes → Bytes
until_zero zero tag = []
until_zero (suc n) [] = []
until_zero (suc n) (c ∷ tag) = if nat_beq c 0 then [] else c ∷ until_zero n tag

unfoldable pub parse_head_tag_length : Bytes → Bytes
unfolding until_zero
parse_head_tag_length tag = until_zero head_tag_length tag

until_zero-replicate : (n k : ℕ) → until_zero n (replicate k 0) ≡ []
unfolding until_zero
until_zero-replicate zero k = refl
until_zero-replicate (suc n) zero = refl
until_zero-replicate (suc n) (suc k) = refl

until_zero-digits :
    (n k : ℕ) (s : Bytes) → All IsDigit s → length s ≤ n → until_zero n (s ++ replicate k 0) ≡ s
unfolding until_zero
until_zero-digits n k [] d h = until_zero-replicate n k
until_zero-digits zero k (c ∷ s) d h = absurd (omega arith)
until_zero-digits (suc n) k (c ∷ s) d h = ground (arith, until_zero-digits n k s d.1)

-- The padded decimal length, 8 bytes.
abbrev pub length_tag : ℕ → Bytes
length_tag n = itoa n ++ replicate (8 - length (itoa n)) 0

pub length-length_tag : (n : ℕ) → n < power_of_ten 8 → length (length_tag n) ≡ 8
length-length_tag n h = omega (
  arith,
  length-append (itoa n) (replicate (8 - length (itoa n)) (zero)),
  length-replicate {0} (8 - length (itoa n)) (zero),
  length-itoa-le 7 n h,
)

pub parse_head_tag_length-length_tag :
    (n : ℕ) → n < power_of_ten 8 → parse_head_tag_length (length_tag n) ≡ itoa n
unfolding parse_head_tag_length
parse_head_tag_length-length_tag n h =
    until_zero-digits 8 (8 - length (itoa n)) (itoa n) (itoa-IsDigit n) (length-itoa-le 7 n h)

padded_tag :
    (tag : Bytes) → length tag ≤ 8 → padded 8 tag ≡ ok (tag ++ replicate (8 - length tag) 0)
unfolding padded
padded_tag tag h = ground arith

write_all-open :
    (a b d : Bytes) (c : Conn)
    → c.outcomes ≡ []
    → write_all (a ∷ b ∷ d ∷ []) c ≡ (ok tt, record c { sent = c.sent ++ (a ++ (b ++ d)) })
unfolding write_all write
write_all-open a b d c o =
    ground (
      arith,
      append_assoc c.sent a b,
      append_assoc (c.sent ++ a) b d,
      append_assoc c.sent a (b ++ d),
    )

-- A response with a status of at most 8 bytes and fewer than 10^8 bytes of data does not panic;
-- when the writes go through it sends the length tag, the status tag and the data, and the length
-- tag reads back as the length of the data.
pub response_lem :
    (status data_bytes : Bytes) (c : Conn)
    → length status ≤ 8
    → length data_bytes < power_of_ten 8
    → c.outcomes ≡ []
    → (response status data_bytes c ≡ (
      ok tt,
      record c {
        sent =
            c.sent
            ++ (length_tag (length data_bytes)
                ++ ((status ++ replicate (8 - length status) 0) ++ data_bytes));
      },
    ))
      × (atoi (parse_head_tag_length (length_tag (length data_bytes)))
          ≡ some (pos (length data_bytes)))
unfolding response
response_lem status data_bytes c s d o =
    let n = length data_bytes in
    (
      rw (padded_tag status s, padded_tag (itoa n) (length-itoa-le 7 n d), response)
          (write_all-open (length_tag n) (status ++ replicate (8 - length status) 0) data_bytes c
            o),
      ap atoi (parse_head_tag_length-length_tag n d) ∙ atoi-itoa n (omega arith),
    )

-- A longer status, or data of 10^8 bytes and more, panics before anything is written.
pub response_panics :
    (status data_bytes : Bytes) (c : Conn)
    → (8 < length status) ⊎ (power_of_ten 8 ≤ length data_bytes)
    → response status data_bytes c ≡ (err panics, c)
unfolding response padded
response_panics status data_bytes c (inl s) = ground arith
response_panics status data_bytes c (inr d) = ground (arith, length-itoa-ge 8 (length data_bytes) d)
