-- ===== src/Pool/Sized.antt =====
-- The blocks and lanes of a new pool.
use burn_lm.Prelude.{
  ℕ, zero, suc, ◌+◌, ◌-◌, ◌^◌, ◌%◌, ◌≤◌, ◌<◌, ◌≡◌, refl, List, [], some, arith, length, map, sum,
  replicate, length-replicate, ltb, false, ◌||◌,
}
use native.Mathlib.Nat.{mod-eq_of_lt}
use burn_lm.Pool.{BlockPool, block_ids, new, usable_blocks, lane_count}

length-block_ids : (n : ℕ) → length (block_ids n) ≡ n - 1
unfolding block_ids
length-block_ids zero = refl
length-block_ids (suc zero) = refl
length-block_ids (suc (suc n)) = omega (arith, length-block_ids (suc n))

sum-no_tables : (n : ℕ) → sum (map length (replicate {A = List ℕ} n [])) ≡ 0
sum-no_tables zero = refl
sum-no_tables (suc n) = omega (arith, sum-no_tables n)

-- A pool as it was sized.
pub record Sized (block_size usable lanes : ℕ) (p : BlockPool) : Type 0 where
  pub blocks : p.block_size ≡ block_size
  pub total : usable_blocks p ≡ usable
  pub lanes_of : lane_count p ≡ lanes

pub new-Sized :
    (block_size usable lanes : ℕ)
    → 1 ≤ block_size
    → 1 ≤ usable
    → usable + 1 < 2 ^ 32
    → (p : BlockPool) × (new block_size (usable + 1) lanes ≡ some p)
      × Sized block_size usable lanes p
unfolding new
new-Sized block_size usable lanes room some_block small =
    let guard : (ltb block_size 1 || ltb (usable + 1) 2) ≡ false = ground arith in
    (
      record {
        block_size = block_size;
        free = block_ids ((usable + 1) % 2 ^ 32);
        tables = replicate lanes [];
        lens = replicate lanes 0;
      },
      rw guard refl,
      record {
        blocks = refl;
        total =
            rw (mod-eq_of_lt small) omega
              (arith, length-block_ids (usable + 1), sum-no_tables lanes);
        lanes_of = length-replicate {A = ℕ} lanes 0;
      },
    )
