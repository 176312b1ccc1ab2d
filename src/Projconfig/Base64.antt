-- ===== src/Projconfig/Base64.antt =====
-- `base64.StdEncoding.DecodeString`, which projconfig/projconfig.go uses for encrypted contents.
use dove.Base.{
  ℕ, ◌+◌, ◌-◌, ◌*◌, ◌/◌, ◌%◌, ◌&&◌, ◌||◌, Option, none, some, [], ◌∷◌, leb, nat_beq, if◌then◌else◌,
  length, Bytes, nat_eq, bytes_eq,
}

-- The value of a letter of the alphabet.
unfoldable pub sextet : ℕ → Option ℕ
sextet c =
    if leb b'A' c && leb c b'Z'
    then some (c - b'A')
    else if leb b'a' c && leb c b'z'
    then some (c - b'a' + 26)
    else if leb b'0' c && leb c b'9'
    then some (c - b'0' + 52)
    else if nat_beq c b'+'
    then some 62
    else if nat_beq c b'/'
    then some 63
    else none

two : Option ℕ → Option ℕ → Option (ℕ × ℕ)
two (some a) (some b) = some (a, b)
two _ _ = none

-- Four letters are three bytes; one or two `=` at the very end stand for missing bytes.
unfoldable pub decode_groups : Bytes → Option Bytes
unfolding two
decode_groups [] = some []
decode_groups (a ∷ b ∷ c ∷ d ∷ s) =
    let rest = decode_groups s in
    elim (two (sextet a) (sextet b)) [
      | none ↦ none
      | some (p, q) ↦
          let x = p * 4 + q / 16 in
          if nat_beq (length s) 0 && nat_beq c b'=' && nat_beq d b'='
          then some (x ∷ [])
          else elim (sextet c) [
            | none ↦ none
            | some r ↦
                let y = q % 16 * 16 + r / 4 in
                if nat_beq (length s) 0 && nat_beq d b'='
                then some (x ∷ y ∷ [])
                else elim (sextet d) [
                  | none ↦ none
                  | some t ↦ elim rest [
                    | none ↦ none
                    | some bytes ↦ some (x ∷ y ∷ (r % 4 * 64 + t) ∷ bytes)
                  ]
                ]
          ]
    ]
decode_groups _ = none

without_newlines : Bytes → Bytes
without_newlines [] = []
without_newlines (c ∷ s) =
    let rest = without_newlines s in if nat_beq c b'\n' || nat_beq c b'\r' then rest else c ∷ rest

unfoldable pub base64_decode : Bytes → Option Bytes
unfolding without_newlines
base64_decode s = decode_groups (without_newlines s)
