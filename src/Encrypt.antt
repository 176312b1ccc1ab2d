-- ===== src/Encrypt.antt =====
-- The encryption of stored values: encrypt/encrypt.go. The block cipher in CBC mode, Blowfish of
-- golang.org/x/crypto, is an argument.
pub mod RoundTrip
mod Examples
use dove.Base.{
  ℕ, zero, suc, ◌-◌, ◌%◌, ◌≡◌, Bool, not, none, some, ◌++◌, nat_beq, if◌then◌else◌, length,
  get_elem?, take, replicate, Bytes, nat_eq, bytes_eq, Result, ok, err,
}

-- `cipher.Block` in CBC mode: whether a key is accepted, and both directions of `CryptBlocks`, which
-- take the key and the initial vector.
pub record BlockMode : Type 0 where
  pub accepts : Bytes → Bool
  pub crypt_blocks : Bytes → Bytes → Bytes → Bytes
  pub decrypt_blocks : Bytes → Bytes → Bytes → Bytes

-- What the documentation of the package promises.
pub record IsBlockMode (m : BlockMode) : Type 0 where
  pub length_lem : (key iv text : Bytes) → length (m.crypt_blocks key iv text) ≡ length text
  pub inverse :
      (key iv text : Bytes)
      → length text % 8 ≡ 0
      → m.decrypt_blocks key iv (m.crypt_blocks key iv text) ≡ text

pub record Encryptor : Type 0 where
  pub iv : Bytes
  pub key : Bytes

abbrev pub block_size : ℕ
block_size = 8

-- `panics` is an initial vector that has not the size of a block, or a text of broken blocks.
pub data CryptError : Type 0 where
  bad_key panics : CryptError

-- `append(plainText, make([]byte, modLen)...)`
abbrev pub padded_text : Bytes → Bytes
padded_text plain_text = plain_text ++ replicate (block_size - length plain_text % block_size) 0

unfoldable pub encrypt : BlockMode → Encryptor → Bytes → Result CryptError Bytes
encrypt m c plain_text =
    if not (m.accepts c.key)
    then err bad_key
    else if not (nat_beq (length c.iv) block_size)
    then err panics
    else ok (m.crypt_blocks c.key c.iv (padded_text plain_text))

-- `for textLen > 0 { if plainText[textLen-1] != 0 { break }; textLen -= 1 }`
unfoldable pub text_len : Bytes → ℕ → ℕ
text_len plain_text zero = zero
text_len plain_text (suc n) =
    let rest = text_len plain_text n in
    elim (get_elem? plain_text n) [ none ↦ suc n | some c ↦ if nat_beq c 0 then rest else suc n ]

-- plainText[:textLen]
unfoldable pub without_padding : Bytes → Bytes
unfolding text_len
without_padding plain_text = take (text_len plain_text (length plain_text)) plain_text

unfoldable pub decrypt : BlockMode → Encryptor → Bytes → Result CryptError Bytes
unfolding without_padding
decrypt m c encrypted_text =
    if not (m.accepts c.key)
    then err bad_key
    else if not (nat_beq (length c.iv) block_size)
    then err panics
    else if not (nat_beq (length encrypted_text % block_size) 0)
    then err panics
    else ok (without_padding (m.decrypt_blocks c.key c.iv encrypted_text))
