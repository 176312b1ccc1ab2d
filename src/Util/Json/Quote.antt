-- ===== src/Util/Json/Quote.antt =====
-- The `%q` that util/utils.go uses for the strings of its JSON.
use dove.Base.{
  ℕ, ◌+◌, ◌/◌, ◌%◌, ◌≤◌, ◌<◌, ◌≡◌, refl, ap, ◌∙◌, ◌≢◌, ◌⊎◌, ◌||◌, Option, none, some, [], ◌∷◌, ◌++◌,
  append_assoc, arith, ltb, nat_beq, if◌then◌else◌, All, Bytes, codes, nat_eq, bytes_eq,
}

abbrev hex : ℕ → ℕ
hex n = if ltb n 10 then b'0' + n else 87 + n

-- One byte of strconv.Quote: the bytes from 128 on are those of printable text in UTF-8.
unfoldable pub escape : ℕ → Bytes
escape c =
    if nat_beq c b'"' || nat_beq c b'\\'
    then b'\\' ∷ c ∷ []
    else if nat_beq c 7
    then codes "\\a"
    else if nat_beq c 8
    then codes "\\b"
    else if nat_beq c 9
    then codes "\\t"
    else if nat_beq c 10
    then codes "\\n"
    else if nat_beq c 11
    then codes "\\v"
    else if nat_beq c 12
    then codes "\\f"
    else if nat_beq c 13
    then codes "\\r"
    else if ltb c 32 || nat_beq c 127
    then b'\\' ∷ b'x' ∷ hex (c / 16) ∷ hex (c % 16) ∷ []
    else c ∷ []

unfoldable pub escape_all : Bytes → Bytes
escape_all [] = []
escape_all (c ∷ s) = escape c ++ escape_all s

-- fmt.Sprintf("%q", s)
unfoldable pub quote : Bytes → Bytes
unfolding escape_all
quote s = b'"' ∷ (escape_all s ++ b'"' ∷ [])

-- A reader of the strings of JSON, from behind the first quote: the string and what follows it. The
-- escapes are those of RFC 8259 with one letter.
escaped : ℕ → Option ℕ
escaped c =
    if nat_beq c b'"' || nat_beq c b'\\' || nat_beq c b'/'
    then some c
    else if nat_beq c b'b'
    then some 8
    else if nat_beq c b't'
    then some 9
    else if nat_beq c b'n'
    then some 10
    else if nat_beq c b'f'
    then some 12
    else if nat_beq c b'r'
    then some 13
    else none

push : ℕ → Option (Bytes × Bytes) → Option (Bytes × Bytes)
push c none = none
push c (some r) = some (c ∷ r.0, r.1)

pub read_json_string : Bytes → Option (Bytes × Bytes)
unfolding escaped push
read_json_string [] = none
read_json_string (c ∷ []) = if nat_beq c b'"' then some ([], []) else none
read_json_string (c ∷ d ∷ s) =
    let behind = read_json_string s in
    let next = read_json_string (d ∷ s) in
    if nat_beq c b'"'
    then some ([], d ∷ s)
    else if nat_beq c b'\\'
    then (elim (escaped d) [ none ↦ none | some e ↦ push e behind ])
    else if ltb c 32
    then none
    else push c next

-- The bytes for which `%q` writes what JSON reads.
abbrev pub IsJsonByte : ℕ → Type 0
IsJsonByte c = (c ≢ 127) × ((32 ≤ c) ⊎ ((8 ≤ c) × ((c ≤ 10) ⊎ ((12 ≤ c) × (c ≤ 13)))))

read_json_string-escape :
    (c : ℕ) (s : Bytes)
    → IsJsonByte c
    → s ≢ []
    → read_json_string (escape c ++ s) ≡ push c (read_json_string s)
unfolding read_json_string escape escaped
read_json_string-escape c [] h n = absurd (n refl)
read_json_string-escape c (d ∷ s) h n = ground arith

append_cons-ne-nil : (s rest : Bytes) (c : ℕ) → s ++ c ∷ rest ≢ []
append_cons-ne-nil [] rest c e = cc
append_cons-ne-nil (d ∷ s) rest c e = cc

read_json_string-escape_all :
    (s rest : Bytes)
    → All IsJsonByte s
    → read_json_string (escape_all s ++ b'"' ∷ rest) ≡ some (s, rest)
unfolding escape_all read_json_string push
read_json_string-escape_all [] [] h = refl
read_json_string-escape_all [] (c ∷ rest) h = refl
read_json_string-escape_all (c ∷ s) rest h =
    ap read_json_string (append_assoc (escape c) (escape_all s) (b'"' ∷ rest))
    ∙ read_json_string-escape c (escape_all s ++ b'"' ∷ rest) h.0
        (append_cons-ne-nil (escape_all s) rest b'"')
    ∙ ap (push c) (read_json_string-escape_all s rest h.1)

-- A string of JSON at the front of a text.
pub json_string : Bytes → Option (Bytes × Bytes)
json_string [] = none
json_string (c ∷ s) = if nat_beq c b'"' then read_json_string s else none

-- A string without the control characters that JSON has no letter for, and without DEL, is written
-- in quotes as JSON: a reader of JSON gets it back, and what follows it.
json_string-quote :
    (s rest : Bytes) → All IsJsonByte s → json_string (quote s ++ rest) ≡ some (s, rest)
unfolding quote json_string
json_string-quote s rest h =
    ap read_json_string (append_assoc (escape_all s) (b'"' ∷ []) rest)
    ∙ read_json_string-escape_all s rest h

-- A string that starts with any other control character, or with DEL, is written in quotes that no
-- reader of JSON accepts, since `%q` writes them as `\a`, `\v` or `\x..`.
pub json_string-quote_control :
    (c : ℕ) (s : Bytes)
    → (c < 8) ⊎ ((c ≡ 11) ⊎ (((14 ≤ c) × (c < 32)) ⊎ (c ≡ 127)))
    → json_string (quote (c ∷ s)) ≡ none
unfolding quote json_string read_json_string escape_all escape escaped
json_string-quote_control c s h = ground arith
