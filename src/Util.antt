-- ===== src/Util.antt =====
-- Slices of strings: util/utils.go.
pub mod Json
pub mod Arrays
mod Examples
use dove.Base.{
  ℕ, suc, Bool, true, false, ◌&&◌, ◌||◌, none, some, List, [], ◌∷◌, ◌++◌, ltb, leb, nat_beq,
  if◌then◌else◌, length, take, drop, ◌==◌, Bytes, bytes_beq, nat_eq, bytes_eq,
}
use dove.Base.Dict.{Dict, lookup}
use dove.Base.Text.{split}

unfoldable pub in_array_string : List Bytes → Bytes → Bool
in_array_string [] sep = false
in_array_string (s ∷ arr) sep = if s == sep then true else in_array_string arr sep

-- The body of the loops that collect what is not there yet: an element goes to the end, once.
unfoldable pub append_missing : List Bytes → Bytes → List Bytes
unfolding in_array_string
append_missing xs x = if in_array_string xs x then xs else xs ++ x ∷ []

unfoldable pub append_all_missing : List Bytes → List Bytes → List Bytes
append_all_missing xs [] = xs
append_all_missing xs (y ∷ ys) = append_all_missing (append_missing xs y) ys

unfoldable pub string_slice_unique : List Bytes → List Bytes
string_slice_unique s = append_all_missing [] s

-- `arr[0:index]` and `arr[index+1:]` are joined; the case of index 0 is the same slice.
unfoldable pub del_in_array_string : List Bytes → ℕ → List Bytes
del_in_array_string arr index =
    if ltb (length arr) 1 || leb (length arr) index
    then arr
    else if nat_beq index 0
    then drop 1 arr
    else take index arr ++ drop (suc index) arr

unfoldable pub exists_in_map {ℓ} : {V : Type ℓ} → Dict Bytes V → Bytes → Bool
exists_in_map m index = elim (lookup index m) [ none ↦ false | some _ ↦ true ]

-- A split of the empty text has no part, where `strings.Split` gives one empty part.
unfoldable pub string_split : Bytes → ℕ → List Bytes
string_split str sep =
    if nat_beq (length (split str sep)) 1 && (bytes_beq (dove.Base.Text.first (split str sep)) [])
    then []
    else split str sep
