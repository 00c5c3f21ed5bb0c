-- ===== src/Cache/Room.antt =====
-- The cache that `new` builds.
use burn_lm.Prelude.{ℕ, ◌+◌, ◌^◌, ◌≤◌, ◌<◌, ◌≡◌, refl, ◌*◌, min, some, ltb, false, arith, ◌||◌}
use burn_lm.Pool.Sized.{Sized, new-Sized}
use burn_lm.Prelude.Arith.{div_ceil}
use burn_lm.Cache.{
  KvLayout, PagedKvCache, new, with_window_per_lane, with_default_blocks, default_block_size,
}

pub new_lem :
    (layout : KvLayout) (lanes block_size usable : ℕ)
    → 1 ≤ block_size
    → block_size ≤ layout.max_seq_len
    → 1 ≤ usable
    → usable + 1 < 2 ^ 32
    → (cache : PagedKvCache) × (new layout lanes block_size usable ≡ some cache)
      × Sized block_size usable lanes cache.pool
unfolding new
new_lem layout lanes block_size usable room within enough small =
    let (pool, built, sized) = new-Sized block_size usable lanes room enough small in
    let guard : (ltb block_size 1 || ltb layout.max_seq_len block_size || ltb usable 1) ≡ false =
      ground arith in
    (record { layout = layout; pool = pool }, rw (guard, built) refl, sized)

pub with_default_blocks_lem :
    (layout : KvLayout) (lanes : ℕ)
    → 1 ≤ layout.max_seq_len
    → 1 ≤ div_ceil (lanes * layout.max_seq_len) (min default_block_size layout.max_seq_len)
    → div_ceil (lanes * layout.max_seq_len) (min default_block_size layout.max_seq_len) + 1 < 2 ^ 32
    → (cache : PagedKvCache) × (with_default_blocks layout lanes ≡ some cache)
      × Sized
          (min default_block_size layout.max_seq_len)
          (div_ceil (lanes * layout.max_seq_len) (min default_block_size layout.max_seq_len))
          lanes
          cache.pool
unfolding with_default_blocks with_window_per_lane
with_default_blocks_lem layout lanes window enough small =
    new_lem layout lanes (min default_block_size layout.max_seq_len) _ (omega arith) (omega arith)
      enough small
