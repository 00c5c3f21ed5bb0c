-- ===== src/Pool/Tests.antt =====
-- Runs of the block pool, and the properties at concrete pools.
use burn_lm.Prelude.{ℕ, ◌≡◌, ◌⊎◌, refl, List, [], ◌∷◌, some, arith}
use burn_lm.Prelude.Arith.{div_ceil}
use burn_lm.Pool.{
  BlockPool, ok, err, PoolExhausted, short_by, new, begin_round, grow_lanes, grow_table,
  take_blocks, extend, rollback, read_lens, advance_lens, free_lane, block_ids,
}
use burn_lm.Pool.Round.{Committed, RolledBack, Freed, begin_round_cases, free_lane_lem}
use burn_lm.Pool.Reach.{round, free, here, next, Ledger, Step-Ledger, new-Ledger, Reach-Ledger}

-- Blocks of 4 positions, six ids (0 is the sentinel), two lanes.
abbrev pub empty_pool : BlockPool
empty_pool = record {
  block_size = 4;
  free = 5 ∷ 4 ∷ 3 ∷ 2 ∷ 1 ∷ [];
  tables = [] ∷ [] ∷ [];
  lens = 0 ∷ 0 ∷ [];
}

abbrev pub used_pool : BlockPool
used_pool = record {
  block_size = 4;
  free = 1 ∷ [];
  tables = (5 ∷ 4 ∷ []) ∷ (3 ∷ 2 ∷ []) ∷ [];
  lens = 5 ∷ 5 ∷ [];
}

abbrev freed_pool : BlockPool
freed_pool = record {
  block_size = 4;
  free = 4 ∷ 5 ∷ 1 ∷ [];
  tables = [] ∷ (3 ∷ 2 ∷ []) ∷ [];
  lens = 0 ∷ 5 ∷ [];
}

new_run : new 4 6 2 ≡ some empty_pool
unfolding new block_ids
new_run = refl

begin_round_run : begin_round empty_pool (0 ∷ 1 ∷ []) 5 ≡ some (used_pool, ok (0 ∷ 0 ∷ []))
unfolding begin_round grow_lanes grow_table take_blocks extend rollback read_lens advance_lens
    div_ceil
begin_round_run = refl

free_lane_run : free_lane used_pool 0 ≡ some freed_pool
unfolding free_lane extend
free_lane_run = refl

-- A round that is exhausted puts the blocks of the first lane back in another order.
exhausted_run :
    begin_round empty_pool (0 ∷ 1 ∷ []) 12
    ≡ some (record empty_pool { free = 3 ∷ 4 ∷ 5 ∷ 2 ∷ 1 ∷ [] }, err (short_by 1))
unfolding begin_round grow_lanes grow_table take_blocks extend rollback read_lens advance_lens
    div_ceil
exhausted_run = refl

pub empty_pool-Ledger : Ledger 6 empty_pool
empty_pool-Ledger = new-Ledger 4 6 2 (omega arith) new_run

pub used_pool-Ledger : Ledger 6 used_pool
used_pool-Ledger =
    Step-Ledger 6
      (round (0 ∷ 1 ∷ []) 5 (ok (0 ∷ 0 ∷ [])) (omega arith, (omega arith, tt)) (refl, (refl, tt))
        begin_round_run)
      empty_pool-Ledger

new-Ledger_example : Ledger 6 empty_pool
new-Ledger_example = new-Ledger 4 6 2 (omega arith) new_run

Reach-Ledger_example : Ledger 6 freed_pool
Reach-Ledger_example = Reach-Ledger 6 empty_pool-Ledger (
    next
      (next here (
        round (0 ∷ 1 ∷ []) 5 (ok (0 ∷ 0 ∷ [])) (omega arith, (omega arith, tt)) (refl, (refl, tt))
          begin_round_run))
      (free 0 (omega arith) free_lane_run))

begin_round_cases_example :
    ((q : BlockPool) × (starts : List ℕ) × (begin_round empty_pool (0 ∷ 1 ∷ []) 12
        ≡ some (q, ok starts))
      × Committed empty_pool 12 (0 ∷ 1 ∷ []) q starts)
    ⊎ ((q : BlockPool) × (e : PoolExhausted) × (begin_round empty_pool (0 ∷ 1 ∷ []) 12
          ≡ some (q, err e))
        × RolledBack empty_pool q)
begin_round_cases_example =
    begin_round_cases empty_pool 12 (0 ∷ 1 ∷ []) empty_pool-Ledger.consistent
      (omega arith, (omega arith, tt)) (refl, (refl, tt))

free_lane_lem_example : (q : BlockPool) × (free_lane used_pool 0 ≡ some q) × Freed used_pool 0 q
free_lane_lem_example = free_lane_lem used_pool 0 used_pool-Ledger.consistent (omega arith)
