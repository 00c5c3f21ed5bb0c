-- ===== src/Prelude/Arith.antt =====
-- `usize::div_ceil`, and the laws of it that block arithmetic needs.
use native.Mathlib.Nat.{
  div-add-mod', div-lt_iff_lt-mul, le_of_mul-le-mul_right, lt_of_mul-lt-mul_right, le_trans,
}
use burn_lm.Prelude.{
  ℕ, ◌+◌, ◌*◌, ◌/◌, ◌%◌, ◌≤◌, ◌<◌, inl, inr, arith, ltb, if◌then◌else◌, Bool-cases,
}

-- As the standard library computes it. At a divisor of zero the source panics.
unfoldable pub div_ceil : ℕ → ℕ → ℕ
div_ceil n d = if ltb 0 (n % d) then n / d + 1 else n / d

pub le-div_ceil-mul : (n d : ℕ) → 0 < d → n ≤ div_ceil n d * d
unfolding div_ceil
le-div_ceil-mul n d h = grind arith

pub div_ceil-le : (n d k : ℕ) → 0 < d → n ≤ k * d → div_ceil n d ≤ k
unfolding div_ceil
div_ceil-le n d k h le = elim (Bool-cases (ltb 0 (n % d))) [
  | inl e ↦ rw e (
      omega
        (arith, lt_of_mul-lt-mul_right d {m = n / d} {n = k} (ground (arith, div-add-mod' n d))))
  | inr e ↦
      rw e (le_of_mul-le-mul_right {m = n / d} {n = k} {k = d} (ground (arith, div-add-mod' n d)) h)
]

pub div_ceil_mono : (m n d : ℕ) → 0 < d → m ≤ n → div_ceil m d ≤ div_ceil n d
div_ceil_mono m n d h le = div_ceil-le m d (div_ceil n d) h (le_trans le (le-div_ceil-mul n d h))

-- A position below the length lies in one of the blocks that cover it.
pub div-lt-div_ceil : (p n d : ℕ) → 0 < d → p < n → p / d < div_ceil n d
div-lt-div_ceil p n d h lt = (div-lt_iff_lt-mul h).1 (omega (arith, le-div_ceil-mul n d h))
