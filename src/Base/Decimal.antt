-- ===== src/Base/Decimal.antt =====
-- strconv.Itoa and strconv.Atoi, on 64-bit integers.
use Prim.Native.Nat.{ℕ, zero, suc, ◌+◌, ◌-◌, ◌*◌, ◌/◌, ◌%◌, ◌^◌, ◌≤◌, ◌<◌}
use mathlib.Core.Path.{◌≡◌, ap, ◌∙◌}
use mathlib.Core.Bool.{Bool, ◌&&◌}
use mathlib.Core.List.{[], ◌∷◌}
use mathlib.Core.Option.{Option, none, some}
use native.Mathlib.Omega.{arith}
use dove.Base.Tests.{ltb, leb, nat_beq, if◌then◌else◌}
use dove.Base.Lists.{length, All}
use dove.Base.Keys.{Bytes}

-- `negsuc n` is -(n + 1).
pub data ℤ : Type 0 where
  pos : ℕ → ℤ
  negsuc : ℕ → ℤ

-- The digits of `n` in front of `acc`; `n + 1` rounds are enough.
digits : ℕ → ℕ → Bytes → Bytes
digits zero n acc = acc
digits (suc fuel) n acc =
    let last = (b'0' + n % 10) ∷ acc in
    let more = digits fuel (n / 10) last in if ltb n 10 then last else more

unfoldable pub itoa : ℕ → Bytes
unfolding digits
itoa n = digits (suc n) n []

unfoldable pub is_digit : ℕ → Bool
is_digit c = leb b'0' c && leb c b'9'

unfoldable pub atoi_digits : ℕ → Bytes → Option ℕ
unfolding is_digit
atoi_digits n [] = some n
atoi_digits n (c ∷ s) =
    let more = atoi_digits (n * 10 + (c - b'0')) s in if is_digit c then more else none

-- At least one digit.
unfoldable pub unsigned : Bytes → Option ℕ
unfolding atoi_digits
unsigned [] = none
unsigned (c ∷ s) = atoi_digits 0 (c ∷ s)

unfoldable pub positive : Option ℕ → Option ℤ
positive none = none
positive (some n) = if ltb n (2 ^ 63) then some (pos n) else none

unfoldable pub negative : Option ℕ → Option ℤ
negative none = none
negative (some zero) = some (pos 0)
negative (some (suc n)) = if ltb n (2 ^ 63) then some (negsuc n) else none

-- An optional sign, then digits; `none` is a syntax or a range error.
unfoldable pub atoi : Bytes → Option ℤ
unfolding unsigned positive negative
atoi [] = none
atoi (c ∷ s) =
    if nat_beq c b'-'
    then negative (unsigned s)
    else if nat_beq c b'+'
    then positive (unsigned s)
    else positive (unsigned (c ∷ s))

atoi_digits-digits :
    (fuel n : ℕ) (acc : Bytes) → n < fuel → atoi_digits 0 (digits fuel n acc) ≡ atoi_digits n acc
unfolding atoi_digits digits is_digit
atoi_digits-digits zero n acc h = absurd (omega arith)
atoi_digits-digits (suc fuel) n acc h =
    ground (arith, atoi_digits-digits fuel (n / 10) ((b'0' + n % 10) ∷ acc))

abbrev pub IsDigit : ℕ → Type 0
IsDigit c = (b'0' ≤ c) × (c ≤ b'9')

digits-IsDigit : (fuel n : ℕ) (acc : Bytes) → All IsDigit acc → All IsDigit (digits fuel n acc)
unfolding digits
digits-IsDigit zero n acc h = h
digits-IsDigit (suc fuel) n acc h =
    let here : IsDigit (b'0' + n % 10) = (omega arith, omega arith) in
    ground (arith, digits-IsDigit fuel (n / 10) ((b'0' + n % 10) ∷ acc) (here, h))

pub itoa-IsDigit : (n : ℕ) → All IsDigit (itoa n)
unfolding itoa
itoa-IsDigit n = digits-IsDigit (suc n) n [] tt

-- 10^k.
abbrev pub power_of_ten : ℕ → ℕ
power_of_ten zero = 1
power_of_ten (suc k) = 10 * power_of_ten k

length-digits-le :
    (k fuel n : ℕ) (acc : Bytes)
    → n < power_of_ten (suc k)
    → length (digits fuel n acc) ≤ suc k + length acc
unfolding digits
length-digits-le k zero n acc h = omega arith
length-digits-le zero (suc fuel) n acc h = ground arith
length-digits-le (suc k) (suc fuel) n acc h =
    ground (arith, length-digits-le k fuel (n / 10) ((b'0' + n % 10) ∷ acc))

-- A number below 10^k takes at most `k` digits.
pub length-itoa-le : (k n : ℕ) → n < power_of_ten (suc k) → length (itoa n) ≤ suc k
unfolding itoa
length-itoa-le k n h = omega (arith, length-digits-le k (suc n) n [] h)

length-le-digits : (fuel n : ℕ) (acc : Bytes) → length acc ≤ length (digits fuel n acc)
unfolding digits
length-le-digits zero n acc = omega arith
length-le-digits (suc fuel) n acc =
    ground (arith, length-le-digits fuel (n / 10) ((b'0' + n % 10) ∷ acc))

power_of_ten_pos : (k : ℕ) → 0 < power_of_ten k
power_of_ten_pos zero = omega arith
power_of_ten_pos (suc k) = omega (arith, power_of_ten_pos k)

length-digits-ge :
    (k fuel n : ℕ) (acc : Bytes)
    → power_of_ten k ≤ n
    → n < fuel
    → suc k + length acc ≤ length (digits fuel n acc)
unfolding digits
length-digits-ge k zero n acc p h = absurd (omega arith)
length-digits-ge zero (suc fuel) n acc p h =
    ground (arith, length-le-digits fuel (n / 10) ((b'0' + n % 10) ∷ acc))
length-digits-ge (suc k) (suc fuel) n acc p h =
    ground (arith, length-digits-ge k fuel (n / 10) ((b'0' + n % 10) ∷ acc), power_of_ten_pos k)

-- A number of at least 10^k takes more than `k` digits.
pub length-itoa-ge : (k n : ℕ) → power_of_ten k ≤ n → suc k ≤ length (itoa n)
unfolding itoa
length-itoa-ge k n p = omega (arith, length-digits-ge k (suc n) n [] p (omega arith))

pub itoa_pos : (n : ℕ) → 0 < length (itoa n)
unfolding itoa digits
itoa_pos n = ground (arith, length-le-digits n (n / 10) ((b'0' + n % 10) ∷ []))

-- A text of digits has no sign.
atoi-digits : (s : Bytes) → All IsDigit s → 0 < length s → atoi s ≡ positive (atoi_digits 0 s)
unfolding atoi unsigned
atoi-digits [] d h = absurd (omega arith)
atoi-digits (c ∷ s) d h = ground arith

atoi_digits-itoa : (n : ℕ) → atoi_digits 0 (itoa n) ≡ some n
unfolding itoa atoi_digits
atoi_digits-itoa n = atoi_digits-digits (suc n) n [] (omega arith)

positive_in_range : (n : ℕ) → n < 2 ^ 63 → positive (some n) ≡ some (pos n)
unfolding positive
positive_in_range n h = ground arith

-- Every number that an int64 holds is read back from its decimal print.
pub atoi-itoa : (n : ℕ) → n < 2 ^ 63 → atoi (itoa n) ≡ some (pos n)
atoi-itoa n h =
    atoi-digits (itoa n) (itoa-IsDigit n) (itoa_pos n)
    ∙ ap positive (atoi_digits-itoa n)
    ∙ positive_in_range n h
