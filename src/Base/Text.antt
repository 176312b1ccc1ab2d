-- ===== src/Base/Text.antt =====
-- The functions of Go's `strings` and `bytes` packages that the program calls, over bytes.
use dove.Base.Tests.{nat_beq, leb, if◌then◌else◌}
use dove.Base.Lists.{length, take, drop}
use dove.Base.Keys.{◌==◌, nat_eq, Bytes, codes, contains}
use Prim.Native.Nat.{ℕ, zero, suc, ◌+◌, ◌-◌}
use mathlib.Core.Option.{Option, none, some}
use mathlib.Core.Bool.{Bool, true, false, ◌&&◌, ◌||◌}
use mathlib.Core.List.{List, [], ◌∷◌, ◌++◌, map, reverse}

-- strings.HasPrefix(s, p)
unfoldable pub has_prefix : Bytes → Bytes → Bool
has_prefix s [] = true
has_prefix [] (p ∷ ps) = false
has_prefix (c ∷ s) (p ∷ ps) = nat_beq c p && has_prefix s ps

-- strings.HasSuffix(s, p)
unfoldable pub has_suffix : Bytes → Bytes → Bool
unfolding has_prefix
has_suffix s p = has_prefix (reverse s) (reverse p)

-- strings.TrimLeft(s, cutset)
unfoldable pub trim_left : Bytes → Bytes → Bytes
trim_left [] cut = []
trim_left (c ∷ s) cut = let rest = trim_left s cut in if contains cut c then rest else c ∷ s

-- strings.TrimRight(s, cutset)
unfoldable pub trim_right : Bytes → Bytes → Bytes
trim_right [] cut = []
trim_right (c ∷ s) cut = elim (trim_right s cut) [
  | [] ↦ if contains cut c then [] else c ∷ []
  | d ∷ r ↦ c ∷ d ∷ r
]

-- strings.Trim(s, cutset)
unfoldable pub trim : Bytes → Bytes → Bytes
unfolding trim_left trim_right
trim s cut = trim_right (trim_left s cut) cut

-- strings.TrimPrefix(s, p)
unfoldable pub trim_prefix : Bytes → Bytes → Bytes
unfolding has_prefix
trim_prefix s p = if has_prefix s p then drop (length p) s else s

-- strings.Split(s, sep) for a separator of one byte.
unfoldable pub push_byte : ℕ → List Bytes → List Bytes
push_byte c [] = (c ∷ []) ∷ []
push_byte c (w ∷ ws) = (c ∷ w) ∷ ws

unfoldable pub split : Bytes → ℕ → List Bytes
unfolding push_byte
split [] sep = [] ∷ []
split (c ∷ s) sep = if nat_beq c sep then [] ∷ split s sep else push_byte c (split s sep)

-- strings.Join(words, sep)
unfoldable pub join : List Bytes → Bytes → Bytes
join [] sep = []
join (w ∷ ws) sep = elim ws [ [] ↦ w | v ∷ r ↦ w ++ (sep ++ join ws sep) ]

-- strings.Replace(s, old, new, -1) for `old` and `new` of one byte each.
unfoldable pub replace_byte : Bytes → ℕ → ℕ → Bytes
replace_byte [] old new = []
replace_byte (c ∷ s) old new = (if nat_beq c old then new else c) ∷ replace_byte s old new

-- words[0]
unfoldable pub first : List Bytes → Bytes
first [] = []
first (w ∷ ws) = w

-- An ASCII space of unicode.IsSpace.
unfoldable pub is_space : ℕ → Bool
is_space c = nat_beq c b' ' || (leb 9 c && leb c 13)

-- The word before a space, if there is one.
unfoldable pub emit : Bytes → List Bytes → List Bytes
emit [] words = words
emit (c ∷ w) words = (c ∷ w) ∷ words

-- strings.Fields(s), of ASCII text: `word` holds the bytes since the last space.
unfoldable pub fields_from : Bytes → Bytes → List Bytes
unfolding is_space emit
fields_from word [] = emit word []
fields_from word (c ∷ s) = elim (is_space c) [
  | true ↦ emit word (fields_from [] s)
  | false ↦ fields_from (word ++ c ∷ []) s
]

unfoldable pub fields : Bytes → List Bytes
unfolding fields_from
fields s = fields_from [] s

lower : ℕ → ℕ
lower c = if leb b'A' c && leb c b'Z' then c + 32 else c

-- strings.ToLower(s), of ASCII text.
unfoldable pub to_lower : Bytes → Bytes
unfolding lower
to_lower s = map lower s

-- strings.SplitN(s, sep, 2) for a separator of one byte: the parts, if there are two.
unfoldable pub cut : ℕ → Bytes → Option (Bytes × Bytes)
cut sep [] = none
cut sep (c ∷ s) =
    if nat_beq c sep
    then some ([], s)
    else elim (cut sep s) [ none ↦ none | some (k, v) ↦ some (c ∷ k, v) ]

-- strings.Index(s, sep) for a separator of one byte.
unfoldable pub index_byte : ℕ → Bytes → Option ℕ
index_byte sep [] = none
index_byte sep (c ∷ s) =
    if nat_beq c sep
    then some 0
    else elim (index_byte sep s) [ none ↦ none | some i ↦ some (suc i) ]

-- strings.TrimSpace(s), of ASCII text.
abbrev pub space_bytes : Bytes
space_bytes = codes "\t\n" ++ (11 ∷ 12 ∷ codes "\r ")

unfoldable pub trim_space : Bytes → Bytes
unfolding trim
trim_space s = trim s space_bytes

-- strings.Replace(s, old, new, -1) for an `old` that is not empty: `skip` bytes of an occurrence are
-- left to be passed over.
unfoldable pub replace_from : Bytes → Bytes → ℕ → Bytes → Bytes
unfolding has_prefix
replace_from old new skip [] = []
replace_from old new zero (c ∷ s) = elim (has_prefix (c ∷ s) old) [
  | true ↦ new ++ replace_from old new (length old - 1) s
  | false ↦ c ∷ replace_from old new zero s
]
replace_from old new (suc skip) (c ∷ s) = replace_from old new skip s

unfoldable pub replace_all : Bytes → Bytes → Bytes → Bytes
unfolding replace_from
replace_all s old new = replace_from old new 0 s

-- strings.Index(s, sep)
unfoldable pub index_of : Bytes → Bytes → Option ℕ
unfolding has_prefix
index_of [] sep = if length sep == 0 then some 0 else none
index_of (c ∷ s) sep =
    if has_prefix (c ∷ s) sep
    then some 0
    else elim (index_of s sep) [ none ↦ none | some i ↦ some (suc i) ]

-- strings.Replace(s, old, new, 1)
unfoldable pub replace_first : Bytes → Bytes → Bytes → Bytes
unfolding index_of
replace_first s old new = elim (index_of s old) [
  | none ↦ s
  | some i ↦ take i s ++ (new ++ drop (i + length old) s)
]
