-- ===== src/Llama/Server.antt =====
-- crates/burn-lm-llama/src/server/llama3.rs: what the batched Llama servers tell the worker of their
-- capacity, and the cache that `load` sizes, with crates/burn-lm-llama/src/nn/llama/base.rs.
pub mod Capacity
use burn_lm.Prelude.{
  ℕ, ◌*◌, ◌≡◌, Bool, not, true, false, ◌&&◌, List, [], ◌∷◌, map, Option, none, some, ltb, leb, ◌+◌,
  ◌==◌, if◌then◌else◌, ◌>>=◌, min,
}
use burn_lm.Prelude.Arith.{div_ceil}
use burn_lm.Pool.{usable_blocks, lane_count}
use burn_lm.Engine.{KvAdmission, reserve, elastic, KvBudget, BatchCapacity}
use burn_lm.Cache.{KvLayout, PagedKvCache, default_block_size, with_default_blocks}
use burn_lm.Cache

-- What the variables are: a number where `parse::<usize>` reads one, or the bytes.
pub record Environment : Type 0 where
  pub max_slots : Option ℕ
  pub max_seq_len : Option ℕ
  pub kv_pool_tokens : Option ℕ
  pub prefill_chunk_size : Option ℕ
  pub prefill_token_budget : Option ℕ
  pub kv_admission : Option (List ℕ)

-- Without the fields that only the sampler and the single-stream generation read.
pub record Llama3ServerConfig : Type 0 where
  pub max_seq_len : ℕ
  pub max_slots : ℕ
  pub prefill_chunk_size : ℕ
  pub prefill_token_budget : ℕ
  pub kv_pool_tokens : ℕ

pub data LlamaVersion : Type 0 where
  llama3_instruct llama31_instruct llama323b_instruct llama321b_instruct : LlamaVersion
  llama321b_instruct_q4 : LlamaVersion

-- The context length that each model admits.
abbrev pub max_context_len : LlamaVersion → ℕ
max_context_len llama3_instruct = 8 * 1024
max_context_len llama31_instruct = 128 * 1024
max_context_len llama323b_instruct = 128 * 1024
max_context_len llama321b_instruct = 128 * 1024
max_context_len llama321b_instruct_q4 = 128 * 1024

-- Of a loaded model only the cache.
pub record LlamaServer : Type 0 where
  pub version : LlamaVersion
  pub config : Llama3ServerConfig
  pub loaded : Option PagedKvCache

abbrev pub config_usize : ℕ → Option ℕ → ℕ
config_usize configured none = configured
config_usize configured (some value) = value

-- `div_ceil` by a block size of 0 panics, as the assertions of the cache do.
pub init_cache : KvLayout → ℕ → ℕ → Option PagedKvCache
init_cache layout max_batch_size kv_pool_tokens =
    let block_size = min default_block_size layout.max_seq_len in
    if ltb 0 kv_pool_tokens
    then Cache.new layout max_batch_size block_size (div_ceil kv_pool_tokens block_size)
    else with_default_blocks layout max_batch_size

-- The quantized model keeps the lane and the rectangle that `LlamaConfig` defaults to.
abbrev pub sized_cache : LlamaVersion → KvLayout → ℕ → ℕ → Option PagedKvCache
sized_cache llama3_instruct layout max_slots tokens = init_cache layout max_slots tokens
sized_cache llama31_instruct layout max_slots tokens = init_cache layout max_slots tokens
sized_cache llama323b_instruct layout max_slots tokens = init_cache layout max_slots tokens
sized_cache llama321b_instruct layout max_slots tokens = init_cache layout max_slots tokens
sized_cache llama321b_instruct_q4 layout max_slots tokens = init_cache layout 1 0

-- `layout` has the dimensions of the model; its context window is the configured one. `loads` says for
-- which versions the weights and the tokenizer can be had and read: a loader that fails is unwrapped.
pub load_into :
    (LlamaVersion → Bool)
    → Environment
    → KvLayout
    → LlamaVersion
    → Llama3ServerConfig
    → Option PagedKvCache
    → Option PagedKvCache
load_into loads env layout version config (some cache) = some cache
load_into loads env layout version config none =
    let max_seq_len = config_usize config.max_seq_len env.max_seq_len in
    if ltb (max_context_len version) max_seq_len
    then none
    else if not (loads version)
    then none
    else sized_cache version (record layout { max_seq_len = max_seq_len })
        (config_usize config.max_slots env.max_slots)
        (config_usize config.kv_pool_tokens env.kv_pool_tokens)

pub load : (LlamaVersion → Bool) → Environment → KvLayout → LlamaServer → Option LlamaServer
unfolding load_into
load loads env layout s = do
  cache ← load_into loads env layout s.version s.config s.loaded
  some (record s { loaded = some cache })

pub unload : LlamaServer → LlamaServer
unload s = record s { loaded = none }

abbrev pub loaded_lane_count : Option PagedKvCache → Option ℕ
loaded_lane_count none = none
loaded_lane_count (some cache) = some (lane_count cache.pool)

abbrev pub loaded_kv_budget : Option PagedKvCache → Option KvBudget
loaded_kv_budget none = none
loaded_kv_budget (some cache) =
    some (record { block_size = cache.pool.block_size; total_blocks = usable_blocks cache.pool })

abbrev capped : ℕ → Option ℕ → ℕ
capped configured (some lanes) = min configured lanes
capped configured none = configured

-- The budget before a load.
abbrev pub configured_budget : Environment → Llama3ServerConfig → Option KvBudget
configured_budget env config =
    let max_seq_len = config_usize config.max_seq_len env.max_seq_len in
    let block_size = min default_block_size max_seq_len in
    let pool_tokens = config_usize config.kv_pool_tokens env.kv_pool_tokens in
    if block_size == 0
    then none
    else if ltb 0 pool_tokens
    then some (record { block_size = block_size; total_blocks = div_ceil pool_tokens block_size })
    else some (record {
      block_size = block_size;
      total_blocks =
          div_ceil (config_usize config.max_slots env.max_slots * max_seq_len) block_size;
    })

abbrev budget_of : Environment → Llama3ServerConfig → Option KvBudget → Option KvBudget
budget_of env config (some kv) = some kv
budget_of env config none = configured_budget env config

pub batch_capacity : Environment → LlamaServer → Option BatchCapacity
batch_capacity env s = do
  kv ← budget_of env s.config (loaded_kv_budget s.loaded)
  some (record {
    max_slots = capped (config_usize s.config.max_slots env.max_slots) (loaded_lane_count s.loaded);
    kv = kv;
  })

abbrev pub prefill_token_budget : Environment → LlamaServer → ℕ
prefill_token_budget env s = config_usize s.config.prefill_token_budget env.prefill_token_budget

abbrev pub prefill_chunk_size : Environment → LlamaServer → ℕ
prefill_chunk_size env s = config_usize s.config.prefill_chunk_size env.prefill_chunk_size

abbrev to_ascii_lowercase : ℕ → ℕ
to_ascii_lowercase b = if leb 65 b && leb b 90 then b + 32 else b

abbrev eq_ignore_ascii_case : List ℕ → List ℕ → Bool
eq_ignore_ascii_case [] [] = true
eq_ignore_ascii_case [] (y ∷ ys) = false
eq_ignore_ascii_case (x ∷ xs) [] = false
eq_ignore_ascii_case (x ∷ xs) (y ∷ ys) =
    (to_ascii_lowercase x == to_ascii_lowercase y) && eq_ignore_ascii_case xs ys

-- `reserve`.
abbrev reserve_word : List ℕ
reserve_word = 114 ∷ 101 ∷ 115 ∷ 101 ∷ 114 ∷ 118 ∷ 101 ∷ []

abbrev admission_named : Option (List ℕ) → KvAdmission
admission_named none = elastic
admission_named (some v) = if eq_ignore_ascii_case v reserve_word then reserve else elastic

abbrev pub kv_admission : Environment → KvAdmission
kv_admission env = admission_named env.kv_admission
