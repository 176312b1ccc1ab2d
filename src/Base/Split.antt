-- ===== src/Base/Split.antt =====
-- The laws of the trims of Base.Text.
use dove.Base.Keys.{nat_eq, Bytes, contains}
use dove.Base.Text.{trim_left, trim_right, trim}
use Prim.Native.Nat.{ℕ}
use mathlib.Core.Path.{◌≡◌, refl}
use mathlib.Core.Bool.{true, false}
use mathlib.Core.List.{[], ◌∷◌, ◌++◌}
use native.Mathlib.Omega.{arith}

pub trim_left-fixed :
    (c : ℕ) (s set : Bytes) → contains set c ≡ false → trim_left (c ∷ s) set ≡ c ∷ s
unfolding trim_left
trim_left-fixed c s set h = rw h

pub trim_right-fixed :
    (s set : Bytes) (c : ℕ) → contains set c ≡ false → trim_right (s ++ c ∷ []) set ≡ s ++ c ∷ []
unfolding trim_right
trim_right-fixed [] set c h = rw h
trim_right-fixed (d ∷ []) set c h = ground (arith, h)
trim_right-fixed (d ∷ e ∷ s) set c h = ground (arith, trim_right-fixed (e ∷ s) set c h)

pub trim_right-snoc :
    (s set : Bytes) (c : ℕ)
    → contains set c ≡ true
    → trim_right (s ++ c ∷ []) set ≡ trim_right s set
unfolding trim_right
trim_right-snoc [] set c h = rw h
trim_right-snoc (d ∷ s) set c h = ground (arith, trim_right-snoc s set c h)

-- Nothing of the text is cut off at either end.
abbrev pub IsTrimmed : Bytes → Bytes → Type 0
IsTrimmed set [] = Unit
IsTrimmed set (d ∷ s) = (contains set d ≡ false) × (trim_right (d ∷ s) set ≡ d ∷ s)

pub trim-IsTrimmed : (s set : Bytes) → IsTrimmed set s → trim s set ≡ s
unfolding trim trim_left
trim-IsTrimmed [] set h = refl
trim-IsTrimmed (d ∷ s) set h = rw (h.0) h.1
