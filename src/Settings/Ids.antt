-- ===== src/Settings/Ids.antt =====
-- LookupOsUidGid of config/utils.go, over the output of the command `id`, and DecodeSetting.
pub mod Overwritten
use dove.Base.{
  ℕ, ◌-◌, Bool, true, false, ◌||◌, Option, none, some, List, [], ◌∷◌, map, ltb, if◌then◌else◌,
  length, take, drop, Bytes, nat_eq, bytes_eq,
}
use dove.Base.Decimal.{ℤ, pos, atoi}
use dove.Base.Text.{fields, index_byte}

-- What comes back is a user id, a group id, and whether there was an error; `panics` is a slice whose
-- bounds are out of range.
pub data Ids : Type 0 where
  panics : Ids
  found : ℤ → ℤ → Bool → Ids

-- strconv.Atoi returns 0 with its error, if the text is no number that is out of range.
id_or_zero : Option ℤ → ℤ
id_or_zero none = pos 0
id_or_zero (some n) = n

-- `s[4:end]`; an index of -1 is out of range too.
pub id_text : Bytes → Option ℕ → Option Bytes
id_text s none = none
id_text s (some end) = if ltb end 4 || ltb (length s) end then none else some (drop 4 (take end s))

-- The error that is left is that of the group id: the one of the user id is overwritten.
ids_of : Option Bytes → Option Bytes → Ids
unfolding id_or_zero
ids_of none gid = panics
ids_of (some uid) none = panics
ids_of (some uid) (some gid) =
    found (id_or_zero (atoi uid)) (id_or_zero (atoi gid))
      (elim (atoi gid) [ none ↦ true | some _ ↦ false ])

-- The user id is taken from the second field of the output, up to the parenthesis of the first one.
ids_of_fields : List Bytes → Ids
unfolding ids_of id_text
ids_of_fields [] = panics
ids_of_fields (first_field ∷ others) = elim others [
  | [] ↦ panics
  | second_field ∷ _ ↦
      ids_of (id_text second_field (index_byte b'(' first_field))
        (id_text second_field (index_byte b'(' second_field))
]

-- The argument is the output of `id`, if it succeeds.
unfoldable pub lookup_os_uid_gid : Option Bytes → Ids
unfolding ids_of_fields fields
lookup_os_uid_gid none = found (pos 0) (pos 0) true
lookup_os_uid_gid (some output) = ids_of_fields (fields output)

-- `^b` of a byte.
unfoldable pub decode_setting : Bytes → Bytes
decode_setting settings = map (λ b. 255 - b) settings
