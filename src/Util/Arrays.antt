-- ===== src/Util/Arrays.antt =====
-- The laws of the slice helpers of util/utils.go.
use dove.Base.{
  ℕ, suc, ◌≤◌, ◌≡◌, refl, sym, ◌∙◌, inl, inr, false, ◌||◌, List, [], ◌∷◌, ◌++◌, append_assoc,
  append-nil, arith, Bool-cases, length, drop, length-append, take-append, ◌==◌, Bytes,
  bytes_beq_iff, nat_eq, bytes_eq, contains, contains-append, Distinct, Distinct-snoc,
}
use dove.Util.{
  in_array_string, append_missing, append_all_missing, string_slice_unique, del_in_array_string,
}

pub in_array_string-contains :
    (arr : List Bytes) (s : Bytes) → in_array_string arr s ≡ contains arr s
unfolding in_array_string contains
in_array_string-contains [] s = refl
in_array_string-contains (x ∷ arr) s = ground (arith, in_array_string-contains arr s)

pub append_missing-Distinct :
    (xs : List Bytes) (y : Bytes) → Distinct xs → Distinct (append_missing xs y)
unfolding append_missing
append_missing-Distinct xs y d = elim (Bool-cases (in_array_string xs y)) [
  | inl old ↦ rw old d
  | inr new ↦ rw new (Distinct-snoc xs y d (sym (in_array_string-contains xs y) ∙ new))
]

pub contains-append_missing :
    (xs : List Bytes) (y a : Bytes) → contains (append_missing xs y) a ≡ (contains xs a || (y == a))
unfolding append_missing contains
contains-append_missing xs y a =
    ground (arith, contains-append xs (y ∷ []) a, in_array_string-contains xs y, bytes_beq_iff y a)

pub append_all_missing-Distinct :
    (xs ys : List Bytes) → Distinct xs → Distinct (append_all_missing xs ys)
unfolding append_all_missing
append_all_missing-Distinct xs [] d = d
append_all_missing-Distinct xs (y ∷ ys) d =
    append_all_missing-Distinct (append_missing xs y) ys (append_missing-Distinct xs y d)

pub contains-append_all_missing :
    (xs ys : List Bytes) (a : Bytes)
    → contains (append_all_missing xs ys) a ≡ (contains xs a || contains ys a)
unfolding append_all_missing contains
contains-append_all_missing xs [] a = ground arith
contains-append_all_missing xs (y ∷ ys) a =
    ground (
      arith,
      contains-append_all_missing (append_missing xs y) ys a,
      contains-append_missing xs y a,
    )

-- Nothing that was there moves or goes.
pub append_all_missing_extends :
    (xs ys : List Bytes) → (more : List Bytes) × (append_all_missing xs ys ≡ xs ++ more)
unfolding append_all_missing append_missing
append_all_missing_extends xs [] = ([], sym (append-nil xs))
append_all_missing_extends xs (y ∷ ys) = elim (Bool-cases (in_array_string xs y)) [
  | inl old ↦ rw old (append_all_missing_extends xs ys)
  | inr new ↦
      let (more, e) = append_all_missing_extends (xs ++ y ∷ []) ys in
      rw new (y ∷ more, e ∙ append_assoc xs (y ∷ []) more)
]

contains-middle : (xs ys : List Bytes) (y : Bytes) → Distinct (xs ++ y ∷ ys) → contains xs y ≡ false
unfolding contains
contains-middle [] ys y d = refl
contains-middle (x ∷ xs) ys y d = ground (
  arith,
  contains-middle xs ys y d.1,
  contains-append xs (y ∷ ys) x,
  bytes_beq_iff x y,
  bytes_beq_iff y x,
)

pub append_all_missing_fixed :
    (xs ys : List Bytes) → Distinct (xs ++ ys) → append_all_missing xs ys ≡ xs ++ ys
unfolding append_all_missing append_missing
append_all_missing_fixed xs [] d = sym (append-nil xs)
append_all_missing_fixed xs (y ∷ ys) d =
    let new : in_array_string xs y ≡ false =
      in_array_string-contains xs y ∙ contains-middle xs ys y d in
    rw new
      (append_all_missing_fixed (xs ++ y ∷ []) ys (rw append_assoc d) ∙ append_assoc xs (y ∷ []) ys)

-- `StringSliceUnique` keeps every string that the slice holds and adds none, leaves no string
-- twice, and changes nothing where no string is twice.
pub string_slice_unique_lem :
    (s : List Bytes)
    → Distinct (string_slice_unique s)
      × ((a : Bytes) → contains (string_slice_unique s) a ≡ contains s a)
      × (Distinct s → string_slice_unique s ≡ s)
unfolding string_slice_unique contains
string_slice_unique_lem s = (
  append_all_missing-Distinct [] s tt,
  λ a. contains-append_all_missing [] s a,
  append_all_missing_fixed [] s,
)

pub drop_past : (xs ys : List Bytes) (y : Bytes) → drop (suc (length xs)) (xs ++ y ∷ ys) ≡ ys
drop_past [] ys y = refl
drop_past (x ∷ xs) ys y = drop_past xs ys y

-- Removing an index that is there drops that element alone; an index past the end removes nothing.
pub del_in_array_string_lem :
    (xs ys : List Bytes) (y : Bytes) (index : ℕ)
    → (del_in_array_string (xs ++ y ∷ ys) (length xs) ≡ xs ++ ys)
      × (length xs ≤ index → del_in_array_string xs index ≡ xs)
unfolding del_in_array_string
del_in_array_string_lem [] ys y index = (ground arith, λ h. ground arith)
del_in_array_string_lem (x ∷ xs) ys y index = (
  ground (
    arith,
    length-append xs (y ∷ ys),
    take-append xs (y ∷ ys) (length xs) refl,
    drop_past xs ys y,
  ),
  λ h. ground arith,
)
