-- ===== src/Watcher/Local/Retry.antt =====
-- What a round of retryAddFaildDirs of configwatcher/local_watcher.go does to the directories.
use dove.Base.{
  ℕ, zero, suc, ◌+◌, ◌≡◌, refl, sym, ap, ◌∙◌, Bool, true, false, List, [], ◌∷◌, ◌++◌, append_assoc,
  arith, length, drop, length-append, take-append, drop-append, All, Bytes, nat_eq, bytes_eq,
}
use dove.Util.{del_in_array_string}
use dove.Util.Arrays.{drop_past}
use dove.Watcher.Local.{
  Slice, array, del_in_slice, read_at, retry_loop, retry_add_faild_dirs, System, addable, last_of,
}

-- The slice that comes back holds what `DelInArrayString` is to return.
pub del_in_slice-elements :
    (index : ℕ) (s : Slice) → (del_in_slice index s).elements ≡ del_in_array_string s.elements index
unfolding del_in_slice del_in_array_string
del_in_slice-elements index s = elements_lem index s.before s.elements s.after
  where
    elements_lem :
        (i : ℕ) (b e a : List Bytes)
        → (del_in_slice i (record { before = b; elements = e; after = a })).elements
          ≡ del_in_array_string e i
    elements_lem i b [] a = ground arith
    elements_lem i b (x ∷ xs) a = ground arith

abbrev pub IsDown : (Bytes → Bool) → Bytes → Type 0
IsDown p dir = p dir ≡ false

drop-suc : (m : ℕ) (xs : List Bytes) → drop (suc m) xs ≡ drop 1 (drop m xs)
drop-suc zero xs = refl
drop-suc (suc m) [] = refl
drop-suc (suc m) (x ∷ xs) = drop-suc m xs

pub step_down :
    (p : Bytes → Bool) (k n start : ℕ) (s : Slice)
    → p (read_at (start + n) (array s)) ≡ false
    → retry_loop p (suc k) n start s ≡ retry_loop p k (n + 1) start s
unfolding retry_loop
step_down p k n start s e = rw e

pub step_up :
    (p : Bytes → Bool) (k n start : ℕ) (s : Slice) (dir : Bytes)
    → read_at (start + n) (array s) ≡ dir
    → p dir ≡ true
    → retry_loop p (suc k) n start s ≡ (
      dir ∷ (retry_loop p k (n + 1) start (del_in_slice n s)).0,
      (retry_loop p k (n + 1) start (del_in_slice n s)).1,
    )
unfolding retry_loop
step_up p k n start s dir r e = rw (r, e)

pub read_at_lem :
    (i : ℕ) (xs more : List Bytes) (x : Bytes) → drop i xs ≡ x ∷ more → read_at i xs ≡ x
unfolding read_at
read_at_lem i xs more x e = rw (e, read_at)

pub drop-next :
    (start n : ℕ) (xs more : List Bytes) (x : Bytes)
    → drop (start + n) xs ≡ x ∷ more
    → drop (start + (n + 1)) xs ≡ more
drop-next start n xs more x e =
    let next : start + (n + 1) ≡ suc (start + n) = omega arith in
    rw next (drop-suc (start + n) xs ∙ ap (drop 1) e)

-- Directories that cannot be added yet change nothing.
pub skip :
    (p : Bytes → Bool) (rs more : List Bytes) (k n start : ℕ) (s : Slice)
    → drop (start + n) (array s) ≡ rs ++ more
    → All (IsDown p) rs
    → retry_loop p (length rs + k) n start s ≡ retry_loop p k (n + length rs) start s
skip p [] more k n start s d h =
    let e : 0 + k ≡ k = omega arith in let e' : n + 0 ≡ n = omega arith in rw (e, e')
skip p (r ∷ rs) more k n start s d h =
    let e : suc (length rs) + k ≡ suc (length rs + k) = omega arith in
    let e' : n + suc (length rs) ≡ (n + 1) + length rs = omega arith in
    let down = ap p (read_at_lem (start + n) (array s) (rs ++ more) r d) ∙ h.0 in
    rw (e, e')
      (step_down p (length rs + k) n start s down
        ∙ skip p rs more k (n + 1) start s (drop-next start n (array s) (rs ++ more) r d) h.1)

pub idle :
    (p : Bytes → Bool) (rs more : List Bytes) (n start : ℕ) (s : Slice)
    → drop (start + n) (array s) ≡ rs ++ more
    → All (IsDown p) rs
    → retry_loop p (length rs) n start s ≡ ([], s)
unfolding retry_loop
idle p rs more n start s d h =
    let e : length rs + 0 ≡ length rs = omega arith in
    ap (λ k. retry_loop p k n start s) (sym e) ∙ skip p rs more 0 n start s d h

-- A round in which no directory can be added changes nothing.
pub none_back :
    (sys : System) (s : Slice)
    → All (IsDown (addable sys)) s.elements
    → retry_add_faild_dirs sys s ≡ ([], [], s)
unfolding retry_add_faild_dirs array
none_back sys s h =
    let d : drop (length s.before + 0) (s.before ++ (s.elements ++ s.after))
        ≡ s.elements ++ s.after =
      let e : length s.before + 0 ≡ length s.before = omega arith in
      rw e (drop-append s.before (s.elements ++ s.after) (length s.before) refl) in
    rw (idle (addable sys) s.elements s.after 0 (length s.before) s d h)

pub last_of-IsDown :
    (p : Bytes → Bool) (x : Bytes) (xs : List Bytes)
    → All (IsDown p) (x ∷ xs)
    → p (last_of x xs) ≡ false
unfolding last_of
last_of-IsDown p x [] h = h.0
last_of-IsDown p x (y ∷ ys) h = last_of-IsDown p y ys h.1

last_of-append : (x y : Bytes) (xs ys : List Bytes) → last_of x (xs ++ y ∷ ys) ≡ last_of y ys
unfolding last_of
last_of-append x y [] ys = refl
last_of-append x y (z ∷ zs) ys = last_of-append z y zs ys

-- What the rest of the round reads from the array, behind the place of the element that went.
record Reads (p : Bytes → Bool) (n : ℕ) (start : ℕ) (s : Slice) : Type 0 where
  rs : List Bytes
  more : List Bytes
  from_array : drop (start + (n + 1)) (array s) ≡ rs ++ more
  down : All (IsDown p) rs

pub del_first :
    (b ys a : List Bytes) (y : Bytes)
    → del_in_slice 0 (record { before = b; elements = y ∷ ys; after = a })
      ≡ record { before = b ++ y ∷ []; elements = ys; after = a }
unfolding del_in_slice
del_first b ys a y = ground arith

pub del_later :
    (b xs ys a : List Bytes) (x y : Bytes)
    → del_in_slice
        (suc (length xs))
        (record { before = b; elements = x ∷ (xs ++ y ∷ ys); after = a })
      ≡ record { before = b; elements = x ∷ (xs ++ ys); after = last_of y ys ∷ a }
unfolding del_in_slice
del_later b xs ys a x y = ground (
  arith,
  length-append xs (y ∷ ys),
  take-append xs (y ∷ ys) (length xs) refl,
  drop_past xs ys y,
  last_of-append x y xs ys,
)

-- The state behind the removal of the element that was added.
module _ (p : Bytes → Bool) (y : Bytes) (b a : List Bytes) where
  abbrev ReadsAfter : List Bytes → List Bytes → Slice → Type 0
  ReadsAfter xs ys s = (r : Reads p (length xs) (length b) s) × (length r.rs ≡ length ys)

pub drop_both : (b xs ys : List Bytes) → drop (length b + length xs) (b ++ (xs ++ ys)) ≡ ys
drop_both b xs ys =
    ap (drop (length b + length xs)) (sym (append_assoc b xs ys))
    ∙ drop-append (b ++ xs) ys (length b + length xs) (length-append b xs)

drop_start :
    (b xs more ys : List Bytes)
    → drop (length b + length xs) (b ++ ((xs ++ ys) ++ more)) ≡ ys ++ more
drop_start b xs more ys =
    ap (λ e. drop (length b + length xs) (b ++ e)) (append_assoc xs ys more)
    ∙ drop_both b xs (ys ++ more)

-- The first directory that can be added is reached, and is removed by its place in the slice.
pub first_back :
    (p : Bytes → Bool) (b xs ys a : List Bytes) (y : Bytes)
    → All (IsDown p) xs
    → p y ≡ true
    → let s : Slice = record { before = b; elements = xs ++ y ∷ ys; after = a } in
      let rest = retry_loop p (length ys) (length xs + 1) (length b) (del_in_slice (length xs) s) in
      retry_loop p (length (xs ++ y ∷ ys)) 0 (length b) s ≡ (y ∷ rest.0, rest.1)
unfolding array
first_back p b xs ys a y hx hy =
    let s : Slice = record { before = b; elements = xs ++ y ∷ ys; after = a } in
    let d : drop (length b + length xs) (array s) ≡ y ∷ (ys ++ a) = drop_start b xs a (y ∷ ys) in
    let d0 : drop (length b + 0) (array s) ≡ xs ++ (y ∷ (ys ++ a)) =
      drop_start b [] a (xs ++ y ∷ ys) ∙ append_assoc xs (y ∷ ys) a in
    ap (λ k. retry_loop p k 0 (length b) s) (length-append xs (y ∷ ys))
    ∙ skip p xs (y ∷ (ys ++ a)) (suc (length ys)) 0 (length b) s d0 hx
    ∙ ap (λ n. retry_loop p (suc (length ys)) n (length b) s) (omega arith)
    ∙ step_up p (length ys) (length xs) (length b) s y
        (read_at_lem (length b + length xs) (array s) (ys ++ a) y d) hy
