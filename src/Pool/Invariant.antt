-- ===== src/Pool/Invariant.antt =====
-- The invariant of the ledger, which `check_invariants` tests in debug builds.
use burn_lm.Prelude.{ℕ, ◌<◌, ◌≡◌, List, some, length, get_elem?}
use burn_lm.Pool.{BlockPool, blocks_for}

-- Every lane has exactly the blocks that its length needs.
pub record Consistent (p : BlockPool) : Type 0 where
  pub positive : 0 < p.block_size
  pub sized : length p.tables ≡ length p.lens
  pub covers :
      (i : ℕ) (table : List ℕ) (len : ℕ)
      → get_elem? p.tables i ≡ some table
      → get_elem? p.lens i ≡ some len
      → length table ≡ blocks_for p len
