-- ===== src/Store.antt =====
-- crates/burn-lm-paged-kv/src/block_store.rs and kv_cache.rs: the KV rows behind the block ids.
-- The tensors are burn's and stay a parameter: a pool tensor is read at a block and an offset, where
-- one row is the `[num_heads, head_dim]` vector of one position. The laws are what burn documents of
-- `zeros` and `slice_assign`, of `scatter_nd` with `Assign` at indices without repetition, and of
-- `select`.
pub mod Indices
pub mod Tests
use native.Mathlib.Nat.{mod-eq_of_lt}
use burn_lm.Prelude.{
  ℕ, zero, suc, ◌+◌, ◌/◌, ◌%◌, ◌^◌, ◌≡◌, refl, ◌≢◌, ◌-◌, ◌*◌, ◌<◌, true, ltb, none, arith,
  if◌then◌else◌, List, [], ◌∷◌, ◌++◌, Option, some, ◌>>=◌, get_elem?,
}

-- A signed number; `negsuc n` is `-1 - n`.
pub data ℤ : Type 0 where
  pos negsuc : ℕ → ℤ

abbrev pub natural : ℕ → ℤ
natural n = pos n

-- `x as i32`: the low 32 bits, with the sign that the highest of them gives.
unfoldable pub as_i32 : ℕ → ℤ
as_i32 n = if ltb (n % 2 ^ 32) (2 ^ 31) then pos (n % 2 ^ 32) else negsuc (2 ^ 32 - 1 - n % 2 ^ 32)

pub as_i32_small : (n : ℕ) → n < 2 ^ 31 → as_i32 n ≡ pos n
unfolding as_i32
as_i32_small n h =
    let same : n % 2 ^ 32 ≡ n = mod-eq_of_lt (omega arith) in
    let low : ltb n (2 ^ 31) ≡ true = ground arith in rw (same, low) refl

-- `write_indices` for one lane: the positions `start..start + seq_len`.
unfoldable pub write_lane : List ℕ → ℕ → ℕ → ℕ → Option (List (ℤ × ℤ))
write_lane table block_size start zero = some []
write_lane table block_size start (suc n) = do
  block ← get_elem? table (start / block_size)
  rest ← write_lane table block_size (start + 1) n
  some ((as_i32 block, as_i32 (start % block_size)) ∷ rest)

-- `tables.iter().zip(starts)` ends with the shorter of the two.
unfoldable pub write_indices : List (List ℕ) → List ℕ → ℕ → ℕ → Option (List (ℤ × ℤ))
write_indices [] starts seq_len block_size = some []
write_indices (table ∷ tables) [] seq_len block_size = some []
write_indices (table ∷ tables) (start ∷ starts) seq_len block_size = do
  here ← write_lane table block_size start seq_len
  rest ← write_indices tables starts seq_len block_size
  some (here ++ rest)

-- The pairs of the list are all different.
abbrev pub NotIn : ℤ × ℤ → List (ℤ × ℤ) → Type 0
NotIn a [] = Unit
NotIn a (x ∷ xs) = (a ≢ x) × NotIn a xs

abbrev pub AllDifferent : List (ℤ × ℤ) → Type 0
AllDifferent [] = Unit
AllDifferent (x ∷ xs) = NotIn x xs × AllDifferent xs

-- A place of a tensor, as an index has it.
abbrev pub index_of : ℕ × ℕ → ℤ × ℤ
index_of a = (pos (a.0), pos (a.1))

-- Every pair of the list is a place below the two bounds.
abbrev pub AllInside : ℕ → ℕ → List (ℤ × ℤ) → Type 0
AllInside blocks offsets idx =
    (k : ℕ) (i : ℤ × ℤ)
    → get_elem? idx k ≡ some i
    → (a : ℕ × ℕ) × (i ≡ index_of a) × (a.0 < blocks) × (a.1 < offsets)

-- burn's tensors, as far as the store uses them. `blocks` and `offsets` are the first two dimensions of
-- a pool tensor. `Fresh` is the K or V of a round as the projection gives it, and `token_major` its
-- `swap_dims(1, 2)` and `reshape`: a row for each new position, in order, one lane after the other.
pub record Tensors : Type 1 where
  pub Row : Type 0
  pub Tensor : Type 0
  pub Fresh : Type 0
  pub zero_row : Row
  pub blocks : Tensor → ℕ
  pub offsets : Tensor → ℕ
  pub read : Tensor → ℕ → ℕ → Row
  pub empty : ℕ → ℕ → Tensor
  pub zero_sentinel : Tensor → Tensor
  pub token_major : Fresh → List Row
  pub scatter : Tensor → List (ℤ × ℤ) → List Row → Tensor
  pub sentinel_is_zero :
      (t : Tensor) (o : ℕ) → 0 < blocks t → o < offsets t → read (zero_sentinel t) 0 o ≡ zero_row
  pub empty_shape : (n size : ℕ) → (blocks (empty n size) ≡ n) × (offsets (empty n size) ≡ size)
  pub sentinel_shape :
      (t : Tensor) → (blocks (zero_sentinel t) ≡ blocks t) × (offsets (zero_sentinel t) ≡ offsets t)
  pub scatter_shape :
      (t : Tensor) (idx : List (ℤ × ℤ)) (rows : List Row)
      → (blocks (scatter t idx rows) ≡ blocks t) × (offsets (scatter t idx rows) ≡ offsets t)
  pub scatter_hit :
      (t : Tensor) (idx : List (ℤ × ℤ)) (rows : List Row) (k : ℕ) (a : ℕ × ℕ) (r : Row)
      → AllDifferent idx
      → AllInside (blocks t) (offsets t) idx
      → get_elem? idx k ≡ some (index_of a)
      → get_elem? rows k ≡ some r
      → read (scatter t idx rows) a.0 a.1 ≡ r
  pub scatter_miss :
      (t : Tensor) (idx : List (ℤ × ℤ)) (rows : List Row) (a : ℕ × ℕ)
      → AllInside (blocks t) (offsets t) idx
      → NotIn (index_of a) idx
      → a.0 < blocks t
      → a.1 < offsets t
      → read (scatter t idx rows) a.0 a.1 ≡ read t a.0 a.1

module _ (T : Tensors) where
  open T use {Row, Tensor, Fresh, read, empty, zero_sentinel, token_major, scatter}

  pub record BlockStore : Type 0 where
    pub pool : Tensor

  -- Everything but the sentinel holds garbage.
  unfoldable pub new_store : ℕ → ℕ → BlockStore
  new_store num_blocks block_size = record { pool = zero_sentinel (empty num_blocks block_size) }

  -- `fresh` is the round's K or V.
  unfoldable pub write : BlockStore → List (ℤ × ℤ) → Fresh → BlockStore
  write s write_idx fresh = record { pool = scatter s.pool write_idx (token_major fresh) }

  -- A row of the block that `select` takes at an id; a negative id has none.
  unfoldable pub select_row : BlockStore → ℤ → ℕ → Option Row
  select_row s (pos block) o = some (read s.pool block o)
  select_row s (negsuc n) o = none

  -- `gather`, at lane number `k` and a column: of the blocks that the index selects, `blocks_per_lane`
  -- are stitched together for each lane, and the sequence is cut off at `l_max`.
  unfoldable pub gather : BlockStore → ℕ → List ℤ → ℕ → ℕ → ℕ → ℕ → Option Row
  unfolding select_row
  gather s block_size idx blocks_per_lane l_max k column =
      if ltb column l_max
      then (get_elem? idx (k * blocks_per_lane + column / block_size) >>= λ id.
          select_row s id (column % block_size))
      else none

  pub record KeyValueCache : Type 0 where
    pub key : BlockStore
    pub value : BlockStore
    pub block_size : ℕ

  pub new_kv : ℕ → ℕ → KeyValueCache
  new_kv num_blocks block_size = record {
    key = new_store num_blocks block_size;
    value = new_store num_blocks block_size;
    block_size = block_size;
  }

  pub write_kv : KeyValueCache → List (ℤ × ℤ) → Fresh → Fresh → KeyValueCache
  write_kv c write_idx keys values = record c {
    key = write c.key write_idx keys;
    value = write c.value write_idx values;
  }
