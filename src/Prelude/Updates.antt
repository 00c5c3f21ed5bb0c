-- ===== src/Prelude/Updates.antt =====
-- Writes to lists at given places: how they commute, what they do to sums, and lists of places
-- without repetition.
use Prim.Native.Nat.{ℕ, zero, suc, ◌+◌, ◌≤◌}
use mathlib.Core.Path.{◌≡◌, refl, ap}
use mathlib.Core.Logic.{◌≢◌}
use mathlib.Core.Bool.{Bool, false, ◌||◌}
use mathlib.Core.List.{List, [], ◌∷◌, map}
use mathlib.Core.Option.{some}
use native.Mathlib.Omega.{arith}
use burn_lm.Prelude.Tests.{◌==◌}
use burn_lm.Prelude.Lists.{get_elem?, set, sum}

module _ {ℓ} {A : Type ℓ} where
  pub set_comm :
      (xs : List A) (i j : ℕ) (v w : A) → i ≢ j → set (set xs i v) j w ≡ set (set xs j w) i v
  set_comm [] i j v w h = refl
  set_comm (x ∷ xs) zero zero v w h = absurd (h refl)
  set_comm (x ∷ xs) zero (suc j) v w h = refl
  set_comm (x ∷ xs) (suc i) zero v w h = refl
  set_comm (x ∷ xs) (suc i) (suc j) v w h = ap (◌∷◌ x) (set_comm xs i j v w (λ e. h (ap suc e)))

  -- A write moves a sum by the difference of the two values.
  pub sum-map-set :
      (f : A → ℕ) (xs : List A) (i : ℕ) (v : A) {x : A}
      → get_elem? xs i ≡ some x
      → sum (map f (set xs i v)) + f x ≡ sum (map f xs) + f v
  sum-map-set f [] i v h = cc
  sum-map-set f (y ∷ xs) zero v h = ground (arith, ap {B = ℕ} f)
  sum-map-set f (y ∷ xs) (suc i) v h = omega (arith, sum-map-set f xs i v h)

  pub le-sum-map :
      (f : A → ℕ) (xs : List A) (i : ℕ) {x : A} → get_elem? xs i ≡ some x → f x ≤ sum (map f xs)
  le-sum-map f [] i h = cc
  le-sum-map f (y ∷ xs) zero h = ground arith
  le-sum-map f (y ∷ xs) (suc i) h = omega (arith, le-sum-map f xs i h)

-- Whether a number stands in a list.
abbrev pub mem : ℕ → List ℕ → Bool
mem a [] = false
mem a (x ∷ xs) = a == x || mem a xs

-- No number stands in the list twice.
abbrev pub Distinct : List ℕ → Type 0
Distinct [] = Unit
Distinct (x ∷ xs) = (mem x xs ≡ false) × Distinct xs
