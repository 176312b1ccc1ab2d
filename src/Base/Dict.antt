-- ===== src/Base/Dict.antt =====
-- Go's `map` as an association list with one entry for a key. `range` visits the entries in the
-- order of the list; Go's order is unspecified, so a theorem holds for a list in any order.
use mathlib.Core.Path.{◌≡◌, refl}
use mathlib.Core.List.{List, [], ◌∷◌}
use mathlib.Core.Option.{Option, none, some}
use native.Mathlib.Omega.{arith}
use mathlib.Core.Bool.{true, ◌||◌}
use mathlib.Core.Logic.{inl, inr}
use dove.Base.Tests.{if◌then◌else◌, Bool-cases}
use dove.Base.Keys.{Eq, ◌==◌, contains, Distinct}

abbrev pub Dict {ℓ κ} : Type ℓ → Type κ → Type (ℓ ⊔ κ)
Dict K V = List (K × V)

module _ {ℓ κ} {K : Type ℓ} {V : Type κ} where
  abbrev pub keys : Dict K V → List K
  keys [] = []
  keys ((k, v) ∷ m) = k ∷ keys m

module _ {ℓ κ} {K : Type ℓ} {V : Type κ} ⦃e : Eq K⦄ where
  -- v, exists := m[k]
  unfoldable pub lookup : K → Dict K V → Option V
  lookup k [] = none
  lookup k (entry ∷ m) = if entry.0 == k then some entry.1 else lookup k m

  -- m[k] = v
  unfoldable pub insert : K → V → Dict K V → Dict K V
  insert k v [] = (k, v) ∷ []
  insert k v (entry ∷ m) = if entry.0 == k then (k, v) ∷ m else entry ∷ insert k v m

  -- delete(m, k)
  unfoldable pub delete : K → Dict K V → Dict K V
  delete k [] = []
  delete k (entry ∷ m) = let rest = delete k m in if entry.0 == k then rest else entry ∷ rest

  pub lookup-insert :
      (k j : K) (v : V) (m : Dict K V)
      → lookup j (insert k v m) ≡ (if k == j then some v else lookup j m)
  unfolding lookup insert
  lookup-insert k j v [] = refl
  lookup-insert k j v (entry ∷ m) =
      ground
        (arith, lookup-insert k j v m, e.same_iff entry.0 j, e.same_iff entry.0 k, e.same_iff k j)

  pub lookup-delete :
      (k j : K) (m : Dict K V) → lookup j (delete k m) ≡ (if k == j then none else lookup j m)
  unfolding lookup delete
  lookup-delete k j [] = ground arith
  lookup-delete k j ((i, w) ∷ m) =
      ground (arith, e.same_iff k j, e.same_iff i k, e.same_iff i j, lookup-delete k j m)

  pub contains-insert :
      (k a : K) (v : V) (m : Dict K V)
      → contains (keys (insert k v m)) a ≡ ((k == a) || contains (keys m) a)
  unfolding insert contains
  contains-insert k a v [] = refl
  contains-insert k a v (entry ∷ m) =
      ground
        (arith, contains-insert k a v m, e.same_iff entry.0 k, e.same_iff entry.0 a, e.same_iff k a)

  pub insert-Distinct :
      (k : K) (v : V) (m : Dict K V) → Distinct (keys m) → Distinct (keys (insert k v m))
  unfolding insert contains
  insert-Distinct k v [] d = (refl, tt)
  insert-Distinct k v (entry ∷ m) d = ground (
    arith,
    insert-Distinct k v m d.1,
    contains-insert k entry.0 v m,
    e.same_iff entry.0 k,
    e.same_iff k entry.0,
  )

  pub lookup-contains :
      (a : K) (m : Dict K V) → contains (keys m) a ≡ true → (v : V) × (lookup a m ≡ some v)
  unfolding lookup contains
  lookup-contains a [] h = cc
  lookup-contains a (entry ∷ m) h = elim (Bool-cases (entry.0 == a)) [
    | inl y ↦ (entry.1, ground (arith, y))
    | inr n ↦ let (v, e) = lookup-contains a m (ground (arith, n, h)) in (v, ground (arith, n, e))
  ]
