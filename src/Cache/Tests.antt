-- ===== src/Cache/Tests.antt =====
-- The plan of a prefill of five tokens in each of two lanes.
use burn_lm.Prelude.{
  zero, suc, ◌⊎◌, List, ◌++◌, false, arith, ℕ, ◌+◌, ◌<◌, ◌≤◌, ◌≡◌, refl, [], ◌∷◌, some, ltb,
  get_elem?,
}
use burn_lm.Pool.Tests.{empty_pool, empty_pool-Ledger, used_pool, used_pool-Ledger}
use burn_lm.Prelude.Arith.{div_ceil}
use burn_lm.Pool.{
  ok, err, begin_round, grow_lanes, grow_table, take_blocks, rollback, read_lens, advance_lens,
}
use burn_lm.Store.{BlockStore, pos, as_i32, gather, new_store, write, write_lane, write_indices}
use burn_lm.Store.Tests.{toy_tensors}
use burn_lm.Cache.{
  LanePlan, build_plan, PagedKvCache, PagedKvError, prepare_lanes, too_long, longest, tabulate,
  lane_mask, get_block, gather_lane, gather_all, snapshot,
}
use burn_lm.Cache.Contents.{Represents, rows_for}
use burn_lm.Pool.Invariant.{Consistent}
use burn_lm.Pool.Reach.{Ledger, Step-Ledger, round}
use burn_lm.Cache.Read.{gather-Represents}
use burn_lm.Cache.Prepare.{
  Ledger-IsAddressable, Prepared, prepare_lanes_cases, prepare_lanes-Represents,
}
use burn_lm.Cache.Plan.{hidden}
use burn_lm.Cache.Total.{build_plan_lem}

build_plan_lem_example :
    (plan : LanePlan) × (build_plan used_pool (0 ∷ 1 ∷ []) 5 (0 ∷ 0 ∷ []) ≡ some plan)
    × ((k start : ℕ)
        → get_elem? (0 ∷ 0 ∷ []) k ≡ some start
        → (start + 5 ≤ plan.l_max)
          × ((r c : ℕ) → r < 5 → c < plan.l_max → hidden plan k r c ≡ some (ltb (start + r) c)))
    × ((k start : ℕ) × (get_elem? (0 ∷ 0 ∷ []) k ≡ some start) × (start + 5 ≡ plan.l_max))
build_plan_lem_example =
    build_plan_lem used_pool 5 0 0 (1 ∷ []) (0 ∷ []) used_pool-Ledger.consistent (refl, (refl, tt))

abbrev empty_cache : PagedKvCache
empty_cache = record {
  layout = record { n_layers = 1; n_kv_heads = 1; head_dim = 1; max_seq_len = 8 };
  pool = empty_pool;
}

abbrev stepped_cache : PagedKvCache
stepped_cache = record empty_cache {
  pool = record {
    block_size = 4;
    free = 3 ∷ 2 ∷ 1 ∷ [];
    tables = (5 ∷ []) ∷ (4 ∷ []) ∷ [];
    lens = 1 ∷ 1 ∷ [];
  };
}

abbrev step_plan : LanePlan
step_plan = record {
  lanes = 0 ∷ 1 ∷ [];
  starts = 0 ∷ 0 ∷ [];
  tables = (5 ∷ []) ∷ (4 ∷ []) ∷ [];
  gather_idx = pos 5 ∷ pos 4 ∷ [];
  blocks_per_lane = 1;
  write_idx = (pos 5, pos 0) ∷ (pos 4, pos 0) ∷ [];
  l_max = 1;
  lengths = pos 1 ∷ pos 1 ∷ [];
  mask = ((false ∷ []) ∷ []) ∷ ((false ∷ []) ∷ []) ∷ [];
}

prepare_lanes_run : prepare_lanes empty_cache (0 ∷ 1 ∷ []) 1 ≡ some (stepped_cache, ok step_plan)
unfolding prepare_lanes too_long begin_round grow_lanes grow_table take_blocks rollback read_lens
    advance_lens div_ceil build_plan longest snapshot write_indices write_lane gather_all
    gather_lane get_block tabulate lane_mask as_i32
prepare_lanes_run = refl

empty_store : BlockStore toy_tensors
empty_store = new_store toy_tensors 6 4

empty_view : ℕ → List ℕ
empty_view lane = []

empty-Represents : Represents toy_tensors empty_store empty_pool empty_view
unfolding empty_view empty_store new_store
empty-Represents = record {
  long = lengths;
  offsets = refl;
  blocks = λ b past. ground (arith, empty_pool-Ledger.owned_once b);
  shows = λ lane place len r e f. cc;
}
  where
    lengths : (lane len : ℕ) → get_elem? empty_pool.lens lane ≡ some len → 0 ≡ len
    lengths zero len e = cc
    lengths (suc zero) len e = cc
    lengths (suc (suc lane)) len e = cc

prepare_lanes_cases_example :
    ((c' : PagedKvCache) × (plan : LanePlan) × (prepare_lanes empty_cache (0 ∷ 1 ∷ []) 9
        ≡ some (c', ok plan))
      × Prepared empty_cache 9 (0 ∷ 1 ∷ []) c' plan)
    ⊎ ((c' : PagedKvCache) × (e : PagedKvError) × (prepare_lanes empty_cache (0 ∷ 1 ∷ []) 9
          ≡ some (c', err e))
        × (c'.pool.tables ≡ empty_pool.tables)
        × (c'.pool.lens ≡ empty_pool.lens)
        × Consistent c'.pool
        × (c'.layout ≡ empty_cache.layout))
prepare_lanes_cases_example =
    prepare_lanes_cases empty_cache 9 0 (1 ∷ []) empty_pool-Ledger.consistent
      (omega arith, (omega arith, tt)) (refl, (refl, tt))

-- The first rows of two lanes.
prepare_lanes-Represents_example :
    Represents toy_tensors
      (write toy_tensors empty_store step_plan.write_idx (7 ∷ 8 ∷ []))
      stepped_cache.pool
      (λ l. empty_view l ++ rows_for 1 (0 ∷ 1 ∷ []) (7 ∷ 8 ∷ []) l)
prepare_lanes-Represents_example =
    prepare_lanes-Represents toy_tensors 6 empty_cache 1 0 (1 ∷ []) empty_store (7 ∷ 8 ∷ [])
      empty_view (omega arith) (omega arith) empty_pool-Ledger (omega arith, (omega arith, tt))
      (refl, (refl, tt)) refl prepare_lanes_run empty-Represents

stepped_run : begin_round empty_pool (0 ∷ 1 ∷ []) 1 ≡ some (stepped_cache.pool, ok (0 ∷ 0 ∷ []))
unfolding begin_round grow_lanes grow_table take_blocks rollback read_lens advance_lens div_ceil
stepped_run = refl

stepped_pool-Ledger : Ledger 6 stepped_cache.pool
stepped_pool-Ledger =
    Step-Ledger 6
      (round (0 ∷ 1 ∷ []) 1 (ok (0 ∷ 0 ∷ [])) (omega arith, (omega arith, tt)) (refl, (refl, tt))
        stepped_run)
      empty_pool-Ledger

abbrev stepped_store : BlockStore toy_tensors
stepped_store = write toy_tensors empty_store step_plan.write_idx (7 ∷ 8 ∷ [])

stepped-Represents :
    Represents toy_tensors stepped_store stepped_cache.pool
      (λ l. empty_view l ++ rows_for 1 (0 ∷ 1 ∷ []) (7 ∷ 8 ∷ []) l)
stepped-Represents =
    prepare_lanes-Represents toy_tensors 6 empty_cache 1 0 (1 ∷ []) empty_store (7 ∷ 8 ∷ [])
      empty_view (omega arith) (omega arith) empty_pool-Ledger (omega arith, (omega arith, tt))
      (refl, (refl, tt)) refl prepare_lanes_run empty-Represents

stepped_plan : build_plan stepped_cache.pool (0 ∷ 1 ∷ []) 1 (0 ∷ 0 ∷ []) ≡ some step_plan
unfolding div_ceil build_plan longest snapshot write_indices write_lane gather_all gather_lane
    get_block tabulate lane_mask as_i32
stepped_plan = refl

-- The second lane reads its row back.
gather-Represents_example : gather toy_tensors stepped_store 4 (pos 5 ∷ pos 4 ∷ []) 1 1 1 0 ≡ some 8
unfolding empty_view
gather-Represents_example =
    gather-Represents toy_tensors stepped_store stepped_cache.pool
      (λ l. empty_view l ++ rows_for 1 (0 ∷ 1 ∷ []) (7 ∷ 8 ∷ []) l) (0 ∷ 1 ∷ []) 1 (0 ∷ 0 ∷ [])
      step_plan 1 1 0 1 0
      (Ledger-IsAddressable 6 stepped_cache.pool (omega arith) (omega arith) stepped_pool-Ledger)
      stepped-Represents stepped_plan refl refl refl (omega arith) refl
