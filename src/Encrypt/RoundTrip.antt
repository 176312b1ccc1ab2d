-- ===== src/Encrypt/RoundTrip.antt =====
-- What comes back from an encrypted text: encrypt/encrypt.go.
use dove.Base.{
  ℕ, zero, suc, ◌+◌, ◌-◌, ◌%◌, ◌≤◌, ◌<◌, ◌≡◌, refl, sym, ap, ◌∙◌, ◌≢◌, true, some, [], ◌∷◌, ◌++◌,
  append_assoc, arith, length, get_elem?, take, replicate, length-append, length-replicate,
  take-append, Bytes, nat_eq, bytes_eq, ◌>>=◌, ok,
}
use dove.Encrypt.{
  BlockMode, IsBlockMode, Encryptor, padded_text, encrypt, text_len, without_padding, decrypt,
}

get_elem?-zeros :
    (b : Bytes) (k i : ℕ)
    → length b ≤ i
    → i < length b + k
    → get_elem? (b ++ replicate k 0) i ≡ some 0
get_elem?-zeros [] zero i p q = absurd (omega arith)
get_elem?-zeros [] (suc k) zero p q = refl
get_elem?-zeros [] (suc k) (suc i) p q = get_elem?-zeros [] k i (omega arith) (omega arith)
get_elem?-zeros (c ∷ b) k zero p q = absurd (omega arith)
get_elem?-zeros (c ∷ b) k (suc i) p q = get_elem?-zeros b k i (omega arith) (omega arith)

get_elem?-front : (b s : Bytes) (i : ℕ) → i < length b → get_elem? (b ++ s) i ≡ get_elem? b i
get_elem?-front [] s i p = absurd (omega arith)
get_elem?-front (c ∷ b) s zero p = refl
get_elem?-front (c ∷ b) s (suc i) p = get_elem?-front b s i (omega arith)

plus_zero : (j : ℕ) → 0 + j ≡ j
plus_zero j = omega arith

plus_suc : (k j : ℕ) → suc k + j ≡ suc (k + j)
plus_suc k j = omega arith

replicate-append : (k j : ℕ) → replicate {A = ℕ} k 0 ++ replicate j 0 ≡ replicate (k + j) 0
replicate-append zero j = rw (plus_zero j) refl
replicate-append (suc k) j =
    ap (λ l. 0 ∷ l) (replicate-append k j) ∙ sym (ap (λ n. replicate {A = ℕ} n 0) (plus_suc k j))

-- The last byte is not zero; a text with no byte has none.
abbrev pub EndsFull : Bytes → Type 0
EndsFull b = get_elem? b (length b - 1) ≢ some 0

text_len-stop : (b s : Bytes) (n : ℕ) → length b ≡ n → EndsFull b → text_len (b ++ s) n ≡ n
unfolding text_len
text_len-stop b s zero h e = refl
text_len-stop b s (suc n) h e = ground (arith, get_elem?-front b s n (omega arith))

text_len-zeros :
    (b : Bytes) (k n j : ℕ)
    → n ≡ length b + j
    → j ≤ k
    → EndsFull b
    → text_len (b ++ replicate k 0) n ≡ length b
unfolding text_len
text_len-zeros b k n zero h p e =
    ap (λ i. text_len (b ++ replicate k 0) i) (h ∙ omega arith)
    ∙ text_len-stop b (replicate k 0) (length b) refl e
text_len-zeros b k zero (suc j) h p e = absurd (omega arith)
text_len-zeros b k (suc n) (suc j) h p e =
    rw (get_elem?-zeros b k n (omega arith) (omega arith), text_len)
      (text_len-zeros b k n j (omega arith) (omega arith) e)

without_padding-zeros : (b : Bytes) (k : ℕ) → EndsFull b → without_padding (b ++ replicate k 0) ≡ b
unfolding without_padding
without_padding-zeros b k e =
    ap (λ n. take n (b ++ replicate k 0))
      (text_len-zeros b k (length (b ++ replicate k 0)) k
        (omega (arith, length-append b (replicate k 0), length-replicate {A = ℕ} k 0)) (omega arith)
        e)
    ∙ take-append b (replicate k 0) (length b) refl

decrypt-crypt_blocks :
    (m : BlockMode) (c : Encryptor) (text : Bytes)
    → IsBlockMode m
    → m.accepts c.key ≡ true
    → length c.iv ≡ 8
    → length text % 8 ≡ 0
    → decrypt m c (m.crypt_blocks c.key c.iv text) ≡ ok (without_padding text)
unfolding decrypt
decrypt-crypt_blocks m c text law a l h =
    ground (arith, law.length_lem c.key c.iv text, law.inverse c.key c.iv text h)

-- With a key that the cipher accepts and an initial vector of 8 bytes, what is encrypted comes back
-- decrypted without its trailing zeros: a text that does not end in a zero comes back as it was.
pub decrypt-encrypt :
    (m : BlockMode) (c : Encryptor) (b : Bytes) (k : ℕ)
    → IsBlockMode m
    → m.accepts c.key ≡ true
    → length c.iv ≡ 8
    → EndsFull b
    → (encrypt m c (b ++ replicate k 0) >>= decrypt m c) ≡ ok b
unfolding encrypt
decrypt-encrypt m c b k law a l e =
    let n = length (b ++ replicate k 0) in
    let j = 8 - n % 8 in
    let shape : padded_text (b ++ replicate k 0) ≡ b ++ replicate (k + j) 0 =
      append_assoc b (replicate k 0) (replicate j 0) ∙ ap (λ l. b ++ l) (replicate-append k j) in
    let aligned : length (padded_text (b ++ replicate k 0)) % 8 ≡ 0 =
      omega
        (arith, length-append (b ++ replicate k 0) (replicate j 0), length-replicate {A = ℕ} j 0) in
    rw (a, l, encrypt)
      (decrypt-crypt_blocks m c (padded_text (b ++ replicate k 0)) law a l aligned
        ∙ ap ok (ap without_padding shape ∙ without_padding-zeros b (k + j) e))

-- A text is encrypted to whole blocks, with at least one byte of padding and at most 8.
pub length-encrypt :
    (m : BlockMode) (c : Encryptor) (text : Bytes)
    → IsBlockMode m
    → m.accepts c.key ≡ true
    → length c.iv ≡ 8
    → (r : Bytes) × (encrypt m c text ≡ ok r)
      × (length r % 8 ≡ 0)
      × (length text < length r)
      × (length r ≤ length text + 8)
unfolding encrypt
length-encrypt m c text law a l =
    let j = 8 - length text % 8 in
    let n : length (m.crypt_blocks c.key c.iv (padded_text text)) ≡ length text + j =
      law.length_lem c.key c.iv (padded_text text)
      ∙ length-append text (replicate j 0)
      ∙ ap (λ i. length text + i) (length-replicate {A = ℕ} j 0) in
    (
      m.crypt_blocks c.key c.iv (padded_text text),
      ground arith,
      omega (arith, n),
      omega (arith, n),
      omega (arith, n),
    )
