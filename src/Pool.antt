-- ===== src/Pool.antt =====
-- crates/burn-lm-paged-kv/src/block_pool.rs: the shared pool of KV blocks and the per-lane ledger.
-- A method of `&mut self` returns the new pool. `none` is a panic: an index out of range, a pop from
-- an empty stack that the source `expect`s not to be empty, a failed `assert!`, or `split_off` past
-- the end. The debug-only checks (`debug_assert!`, `check_invariants`) are not part of the code that
-- runs in a release.
pub mod Tests
pub mod Grow
pub mod Rollback
pub mod Growing
pub mod Round
pub mod Sized
pub mod Invariant
pub mod Reach
pub mod Address
use burn_lm.Prelude.Arith.{div_ceil}
use burn_lm.Prelude.{
  ℕ, zero, suc, ◌+◌, ◌-◌, ◌%◌, ◌^◌, ◌||◌, List, [], ◌∷◌, ◌++◌, map, Option, none, some, ltb, leb,
  if◌then◌else◌, ◌>>=◌, length, get_elem?, set, take, drop, replicate, sum,
}

abbrev pub sentinel_block : ℕ
sentinel_block = 0

-- `Result` of the source, for every error type of it.
pub data Result (E A : Type 0) : Type 0 where
  ok : A → Result E A
  err : E → Result E A

pub data PoolExhausted : Type 0 where
  short_by : ℕ → PoolExhausted

-- The head of `free` is the top of the stack, which is the end of the source's vector.
pub record BlockPool : Type 0 where
  pub block_size : ℕ
  pub free : List ℕ
  pub tables : List (List ℕ)
  pub lens : List ℕ

-- `(1..n).collect()`, the last one on top.
pub block_ids : ℕ → List ℕ
block_ids zero = []
block_ids (suc zero) = []
block_ids (suc (suc n)) = suc n ∷ block_ids (suc n)

-- `num_blocks as u32` wraps.
pub new : ℕ → ℕ → ℕ → Option BlockPool
new block_size num_blocks num_lanes =
    if ltb block_size 1 || ltb num_blocks 2
    then none
    else some (record {
      block_size = block_size;
      free = block_ids (num_blocks % 2 ^ 32);
      tables = replicate num_lanes [];
      lens = replicate num_lanes 0;
    })

abbrev pub blocks_for : BlockPool → ℕ → ℕ
blocks_for p len = div_ceil len p.block_size

abbrev pub free_blocks : BlockPool → ℕ
free_blocks p = length p.free

abbrev pub usable_blocks : BlockPool → ℕ
usable_blocks p = length p.free + sum (map length p.tables)

abbrev pub lane_count : BlockPool → ℕ
lane_count p = length p.lens

abbrev pub lane_len : BlockPool → ℕ → Option ℕ
lane_len p lane = get_elem? p.lens lane

abbrev pub lane_blocks : BlockPool → ℕ → Option (List ℕ)
lane_blocks p lane = get_elem? p.tables lane

-- `Vec::extend` on the free stack: each block is pushed in turn.
pub extend : List ℕ → List ℕ → List ℕ
extend free [] = free
extend free (b ∷ bs) = extend (b ∷ free) bs

-- `for _ in 0..short { … free.pop() … push … }`: the stack and the table after.
unfoldable pub take_blocks : ℕ → List ℕ → List ℕ → Option (List ℕ × List ℕ)
take_blocks zero free table = some (free, table)
take_blocks (suc n) [] table = none
take_blocks (suc n) (b ∷ free) table = take_blocks n free (table ++ b ∷ [])

unfoldable pub grow_table : BlockPool → ℕ → ℕ → Option (BlockPool × Result PoolExhausted (Unit {0}))
grow_table p lane new_len = do
  table ← get_elem? p.tables lane
  let need = blocks_for p new_len
  let have = length table
  let short = need - have
  if leb need have
      then some (p, ok tt)
      else if ltb (length p.free) short
      then some (p, err (short_by (short - length p.free)))
      else do
        (free, table') ← take_blocks short p.free table
        some (record p { free = free; tables = set p.tables lane table' }, ok tt)

-- The inner loop of the error path: `split_off(keep)` on each grown table, the excess freed.
unfoldable pub rollback : BlockPool → List (ℕ × ℕ) → Option BlockPool
rollback p [] = some p
rollback p ((lane, keep) ∷ grown) = do
  table ← get_elem? p.tables lane
  if ltb (length table) keep
      then none
      else rollback
          (record p {
            free = extend p.free (drop keep table);
            tables = set p.tables lane (take keep table);
          })
          grown

-- The loop of `begin_round` that grows each lane's table; `grown` is what it has grown so far.
unfoldable pub grow_lanes :
    BlockPool → ℕ → List ℕ → List (ℕ × ℕ) → Option (BlockPool × Result PoolExhausted (Unit {0}))
grow_lanes p seq_len [] grown = some (p, ok tt)
grow_lanes p seq_len (lane ∷ lanes) grown = do
  table ← get_elem? p.tables lane
  len ← get_elem? p.lens lane
  (p', result) ← grow_table p lane (len + seq_len)
  elim result [
    | ok _ ↦ grow_lanes p' seq_len lanes (grown ++ (lane, length table) ∷ [])
    | err e ↦ rollback p' grown >>= λ q. some (q, err e)
  ]

-- `lanes.iter().map(|&lane| self.lens[lane]).collect()`
unfoldable pub read_lens : List ℕ → List ℕ → Option (List ℕ)
read_lens lens [] = some []
read_lens lens (lane ∷ lanes) = do
  len ← get_elem? lens lane
  rest ← read_lens lens lanes
  some (len ∷ rest)

-- `for &lane in lanes { self.lens[lane] += seq_len; }`
unfoldable pub advance_lens : List ℕ → ℕ → List ℕ → Option (List ℕ)
advance_lens lens seq_len [] = some lens
advance_lens lens seq_len (lane ∷ lanes) = do
  len ← get_elem? lens lane
  advance_lens (set lens lane (len + seq_len)) seq_len lanes

-- On success the start positions, which are the lengths before the round.
unfoldable pub begin_round :
    BlockPool → List ℕ → ℕ → Option (BlockPool × Result PoolExhausted (List ℕ))
begin_round p lanes seq_len = do
  (p', result) ← grow_lanes p seq_len lanes []
  elim result [
    | ok _ ↦ do
      starts ← read_lens p'.lens lanes
      lens ← advance_lens p'.lens seq_len lanes
      some (record p' { lens = lens }, ok starts)
    | err e ↦ some (p', err e)
  ]

pub free_lane : BlockPool → ℕ → Option BlockPool
free_lane p lane = do
  blocks ← get_elem? p.tables lane
  len ← get_elem? p.lens lane
  some (record p {
    free = extend p.free blocks;
    tables = set p.tables lane [];
    lens = set p.lens lane 0;
  })
