-- ===== src/Encrypt/Examples.antt =====
-- Concrete runs of encrypt/encrypt.go, with a cipher that adds the first byte of the key.
use dove.Base.{
  ℕ, suc, ◌+◌, ◌-◌, ◌%◌, ◌≡◌, refl, ap, [], ◌∷◌, arith, ltb, nat_beq, if◌then◌else◌, length, Bytes,
  codes, nat_eq, bytes_eq,
}
use dove.Encrypt.{BlockMode, IsBlockMode, Encryptor}

-- Every byte has its lowest bit flipped.
flip : ℕ → ℕ
flip c = if nat_beq (c % 2) 0 then c + 1 else c - 1

flip_all : Bytes → Bytes
unfolding flip
flip_all [] = []
flip_all (c ∷ s) = flip c ∷ flip_all s

length-flip_all : (s : Bytes) → length (flip_all s) ≡ length s
unfolding flip_all
length-flip_all [] = refl
length-flip_all (c ∷ s) = ap suc (length-flip_all s)

flip_all-flip_all : (s : Bytes) → flip_all (flip_all s) ≡ s
unfolding flip_all flip
flip_all-flip_all [] = refl
flip_all-flip_all (c ∷ s) = ground (arith, flip_all-flip_all s)

abbrev flip_mode : BlockMode
flip_mode = record {
  accepts = λ key. ltb 0 (length key);
  crypt_blocks = λ key iv s. flip_all s;
  decrypt_blocks = λ key iv s. flip_all s;
}

flip_mode-IsBlockMode : IsBlockMode flip_mode
flip_mode-IsBlockMode = record {
  length_lem = λ key iv s. length-flip_all s;
  inverse = λ key iv s h. flip_all-flip_all s;
}

abbrev encryptor : Encryptor
encryptor = record { iv = codes "12345678"; key = codes "k" }
