-- ===== src/Cache.antt =====
-- crates/burn-lm-paged-kv/src/cache.rs: planning one round over the lanes of the cache.
-- A plan's tensors are modelled by the host data that they are built from. `none` is a panic.
pub mod Plan
pub mod Total
pub mod Placed
pub mod Contents
pub mod Refines
pub mod Prepare
pub mod Read
pub mod Reset
pub mod Room
mod Tests
use burn_lm.Prelude.{
  ℕ, zero, suc, ◌+◌, ◌*◌, Bool, ◌||◌, List, [], ◌∷◌, map, Option, none, some, ltb, leb,
  if◌then◌else◌, ◌>>=◌, get_elem?, min, max, ◌++◌,
}
use burn_lm.Prelude.Arith.{div_ceil}
use burn_lm.Pool.{
  BlockPool, Result, ok, err, PoolExhausted, short_by, sentinel_block, lane_count, begin_round,
  free_lane,
}
use burn_lm.Pool
use burn_lm.Store.{ℤ, as_i32, write_indices}

abbrev pub default_block_size : ℕ
default_block_size = 128

pub record KvLayout : Type 0 where
  pub n_layers : ℕ
  pub n_kv_heads : ℕ
  pub head_dim : ℕ
  pub max_seq_len : ℕ

pub data PagedKvError : Type 0 where
  max_sequence_length_exceeded : ℕ → ℕ → PagedKvError
  pool_exhausted : ℕ → PagedKvError

-- `mask` has a list for each lane, in it one for each new row, in it a flag for each column.
pub record LanePlan : Type 0 where
  pub lanes : List ℕ
  pub starts : List ℕ
  pub tables : List (List ℕ)
  pub gather_idx : List ℤ
  pub blocks_per_lane : ℕ
  pub write_idx : List (ℤ × ℤ)
  pub l_max : ℕ
  pub lengths : List ℤ
  pub mask : List (List (List Bool))

-- The layers' stores are `Store.KeyValueCache`; a plan does not touch them.
pub record PagedKvCache : Type 0 where
  pub layout : KvLayout
  pub pool : BlockPool

pub new : KvLayout → ℕ → ℕ → ℕ → Option PagedKvCache
new layout max_lanes block_size usable_blocks =
    if ltb block_size 1 || ltb layout.max_seq_len block_size || ltb usable_blocks 1
    then none
    else do
      pool ← Pool.new block_size (usable_blocks + 1) max_lanes
      some (record { layout = layout; pool = pool })

-- One whole window for each lane.
pub with_window_per_lane : KvLayout → ℕ → ℕ → Option PagedKvCache
with_window_per_lane layout max_lanes block_size =
    new layout max_lanes block_size (div_ceil (max_lanes * layout.max_seq_len) block_size)

pub with_default_blocks : KvLayout → ℕ → Option PagedKvCache
with_default_blocks layout max_lanes =
    with_window_per_lane layout max_lanes (min default_block_size layout.max_seq_len)

pub unpaged : KvLayout → ℕ → Option PagedKvCache
unpaged layout max_lanes = with_window_per_lane layout max_lanes layout.max_seq_len

-- The first lane that has no room for the new tokens, with the length that it would have.
pub too_long : List ℕ → ℕ → ℕ → List ℕ → Option (Option ℕ)
too_long lens seq_len limit [] = some none
too_long lens seq_len limit (lane ∷ lanes) = do
  len ← get_elem? lens lane
  if ltb limit (len + seq_len)
      then some (some (len + seq_len))
      else too_long lens seq_len limit lanes

-- `starts.iter().map(|s| s + seq_len).max()`
pub longest : List ℕ → ℕ → Option ℕ
longest [] seq_len = none
longest (s ∷ starts) seq_len = elim (longest starts seq_len) [
  | none ↦ some (s + seq_len)
  | some l ↦ some (max (s + seq_len) l)
]

-- `(from..from + n).map(f)`
pub tabulate {ℓ} : {A : Type ℓ} → ℕ → ℕ → (ℕ → A) → List A
tabulate from zero f = []
tabulate from (suc n) f = f from ∷ tabulate (from + 1) n f

-- Row `r` of a lane that starts at `s` hides every column past `s + r`.
pub lane_mask : ℕ → ℕ → ℕ → List (List Bool)
unfolding tabulate
lane_mask seq_len l_max s = tabulate 0 seq_len (λ r. tabulate 0 l_max (λ c. ltb (s + r) c))

pub get_block : List ℕ → ℕ → ℕ
get_block table i = elim (get_elem? table i) [ some b ↦ b | none ↦ sentinel_block ]

pub gather_lane : ℕ → List ℕ → List ℤ
unfolding tabulate get_block
gather_lane blocks_per_lane table = tabulate 0 blocks_per_lane (λ i. as_i32 (get_block table i))

-- `tables.iter().zip(starts.iter())`: the block ids of the lanes, and their lengths.
pub gather_all : ℕ → ℕ → List (List ℕ) → List ℕ → List ℤ × List ℤ
gather_all seq_len blocks_per_lane [] starts = ([], [])
gather_all seq_len blocks_per_lane (table ∷ tables) [] = ([], [])
gather_all seq_len blocks_per_lane (table ∷ tables) (s ∷ starts) =
    let (ids, lens) = gather_all seq_len blocks_per_lane tables starts in
    (gather_lane blocks_per_lane table ++ ids, as_i32 (s + seq_len) ∷ lens)

-- `lanes.iter().map(|&lane| self.pool.lane_blocks(lane).to_vec())`
pub snapshot : List (List ℕ) → List ℕ → Option (List (List ℕ))
snapshot tables [] = some []
snapshot tables (lane ∷ lanes) = do
  table ← get_elem? tables lane
  rest ← snapshot tables lanes
  some (table ∷ rest)

-- The plan of a committed round over the pool `p`.
pub build_plan : BlockPool → List ℕ → ℕ → List ℕ → Option LanePlan
build_plan p lanes seq_len starts = do
  l_max ← longest starts seq_len
  tables ← snapshot p.tables lanes
  let blocks_per_lane = div_ceil l_max p.block_size
  write_idx ← write_indices tables starts seq_len p.block_size
  let gathered = gather_all seq_len blocks_per_lane tables starts
  some (record {
    lanes = lanes;
    starts = starts;
    tables = tables;
    gather_idx = gathered.0;
    blocks_per_lane = blocks_per_lane;
    write_idx = write_idx;
    l_max = l_max;
    lengths = gathered.1;
    mask = map (lane_mask seq_len l_max) starts;
  })

pub prepare_lanes : PagedKvCache → List ℕ → ℕ → Option (PagedKvCache × Result PagedKvError LanePlan)
prepare_lanes c lanes seq_len = do
  over ← too_long c.pool.lens seq_len c.layout.max_seq_len lanes
  elim over [
    | some actual ↦ some (c, err (max_sequence_length_exceeded actual c.layout.max_seq_len))
    | none ↦ do
      (pool, result) ← begin_round c.pool lanes seq_len
      elim result [
        | err (short_by n) ↦ some (record c { pool = pool }, err (pool_exhausted n))
        | ok starts ↦ do
          plan ← build_plan pool lanes seq_len starts
          some (record c { pool = pool }, ok plan)
      ]
  ]

-- A lane past the ledger is ignored.
pub reset_lane : PagedKvCache → ℕ → Option PagedKvCache
reset_lane c lane =
    if leb (lane_count c.pool) lane
    then some c
    else free_lane c.pool lane >>= λ pool. some (record c { pool = pool })

-- `for lane in from..from + n`
pub reset_from : PagedKvCache → ℕ → ℕ → Option PagedKvCache
reset_from c from zero = some c
reset_from c from (suc n) = reset_lane c from >>= λ c'. reset_from c' (from + 1) n

pub reset : PagedKvCache → Option PagedKvCache
reset c = reset_from c 0 (lane_count c.pool)
