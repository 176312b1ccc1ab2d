-- ===== src/Settings/Ids/Overwritten.antt =====
-- Which user id LookupOsUidGid of config/utils.go gives.
use dove.Base.{
  ℕ, suc, ◌+◌, ◌-◌, ◌*◌, ◌^◌, ◌≤◌, ◌<◌, ◌≡◌, refl, ap, ◌∙◌, inl, inr, false, none, some, List, [],
  ◌∷◌, ◌++◌, arith, leb, if◌then◌else◌, Bool-cases, length, take, length-append, take-append,
  take-append_ge, All, Bytes, codes, nat_eq, bytes_eq, contains,
}
use dove.Base.Decimal.{
  pos, atoi, itoa, atoi-itoa, itoa-IsDigit, IsDigit, itoa_pos, atoi_digits, unsigned, positive,
  negative, is_digit,
}
use dove.Base.Text.{fields, index_byte}
use dove.Settings.Ids.{found, lookup_os_uid_gid, id_text, id_or_zero, ids_of}

abbrev paren : ℕ
paren = b'('

-- The parenthesis stands behind the digits.
index_digits :
    (d rest : Bytes) → All IsDigit d → index_byte paren (d ++ paren ∷ rest) ≡ some (length d)
unfolding index_byte
index_digits [] rest h = ground arith
index_digits (c ∷ d) rest h = ground (arith, index_digits d rest h.1)

pub index_id :
    (prefix : Bytes) (d rest : Bytes)
    → contains prefix paren ≡ false
    → All IsDigit d
    → index_byte paren (prefix ++ (d ++ paren ∷ rest)) ≡ some (length prefix + length d)
unfolding index_byte contains
index_id [] d rest p h = ground (arith, index_digits d rest h)
index_id (c ∷ p) d rest e h = ground (arith, index_id p d rest)

-- A text with a parenthesis behind a digit is no number.
digits_broken : (n : ℕ) (d rest : Bytes) → atoi_digits n (d ++ paren ∷ rest) ≡ none
unfolding atoi_digits is_digit
digits_broken n [] rest = ground arith
digits_broken n (c ∷ d) rest = ground (arith, digits_broken (n * 10 + (c - b'0')) d rest)

atoi_broken : (d rest : Bytes) → All IsDigit d → 0 < length d → atoi (d ++ paren ∷ rest) ≡ none
unfolding atoi unsigned positive negative
atoi_broken [] rest h p = absurd (omega arith)
atoi_broken (c ∷ d) rest h p = ground (arith, digits_broken 0 (c ∷ d) rest)

text_of_id :
    (t : Bytes) (k : ℕ)
    → k ≤ length t
    → id_text (codes "gid=" ++ t) (some (4 + k)) ≡ some (take k t)
unfolding id_text
text_of_id t k h =
    let e : 4 + k ≡ suc (suc (suc (suc k))) = omega arith in
    ap (λ n. id_text (codes "gid=" ++ t) (some n)) e ∙ ground arith

module _ (u g : ℕ) (a b : Bytes) where
  abbrev uid_field : Bytes
  uid_field = codes "uid=" ++ (itoa u ++ paren ∷ a)

  abbrev gid_field : Bytes
  gid_field = codes "gid=" ++ (itoa g ++ paren ∷ b)

  taken :
      (k : ℕ)
      → length (itoa g) ≤ k
      → g < 2 ^ 63
      → id_or_zero (atoi (take k (itoa g ++ paren ∷ b)))
        ≡ (if leb k (length (itoa g)) then pos g else pos 0)
  unfolding id_or_zero
  taken k h l = elim (Bool-cases (leb k (length (itoa g)))) [
    | inl e ↦
        let same : length (itoa g) ≡ k = ground (arith, e) in
        rw (e, take-append (itoa g) (paren ∷ b) k same, atoi-itoa g l)
    | inr e ↦
        let more : k - length (itoa g) ≡ suc (k - length (itoa g) - 1) = ground (arith, e) in
        rw (e, take-append_ge (itoa g) (paren ∷ b) k h, more)
          (ap id_or_zero
            (atoi_broken (itoa g) (take (k - length (itoa g) - 1) b) (itoa-IsDigit g) (itoa_pos g)))
  ]

  -- For a user id of as many digits as the group id, or more, the output of `id` gives the group id for
  -- the user id when it has as many digits, and else 0, the id of root; no error is reported. (The
  -- second field is long enough that the slice is within its bounds.)
  lookup_os_uid_gid-uid :
      (output : Bytes) (others : List Bytes)
      → fields output ≡ uid_field ∷ gid_field ∷ others
      → g < 2 ^ 63
      → length (itoa g) ≤ length (itoa u)
      → length (itoa u) ≤ length (itoa g) + suc (length b)
      → lookup_os_uid_gid (some output)
        ≡ found (if leb (length (itoa u)) (length (itoa g)) then pos g else pos 0) (pos g) false
  unfolding lookup_os_uid_gid contains
  lookup_os_uid_gid-uid output others f l h k =
      let t = itoa g ++ paren ∷ b in
      let len : length t ≡ length (itoa g) + suc (length b) = length-append (itoa g) (paren ∷ b) in
      let first_id =
        ap (id_text gid_field) (index_id (codes "uid=") (itoa u) a refl (itoa-IsDigit u))
        ∙ text_of_id t (length (itoa u)) (omega (arith, len)) in
      let second_id =
        ap (id_text gid_field) (index_id (codes "gid=") (itoa g) b refl (itoa-IsDigit g))
        ∙ text_of_id t (length (itoa g)) (omega (arith, len))
        ∙ ap some (take-append (itoa g) (paren ∷ b) (length (itoa g)) refl) in
      rw (f, first_id, second_id, ids_of, taken (length (itoa u)) h l, atoi-itoa g l, id_or_zero)
