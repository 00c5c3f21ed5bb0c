-- ===== src/Llama/Server/Capacity.antt =====
-- The capacity before and after a load.
use burn_lm.Prelude.{
  ℕ, ◌+◌, ◌*◌, ◌^◌, ◌≤◌, ◌<◌, ◌≡◌, refl, Bool, ◌∙◌, inl, inr, Option, some, none, ltb, ◌==◌, true,
  false, arith, min, Bool-cases, not, if◌then◌else◌,
}
use burn_lm.Prelude.Arith.{div_ceil}
use burn_lm.Pool.{lane_count}
use burn_lm.Pool.Sized.{Sized}
use burn_lm.Engine.{BatchCapacity}
use burn_lm.Cache.{KvLayout, PagedKvCache, default_block_size}
use burn_lm.Cache.Room.{new_lem, with_default_blocks_lem}
use burn_lm.Llama.Server.{
  Environment, Llama3ServerConfig, LlamaServer, config_usize, init_cache, load, load_into,
  sized_cache, LlamaVersion, llama3_instruct, llama31_instruct, llama323b_instruct,
  llama321b_instruct, llama321b_instruct_q4, max_context_len, configured_budget, batch_capacity,
}

-- The blocks of the pool that a load sizes.
abbrev pub blocks_of : ℕ → ℕ → ℕ → ℕ
blocks_of max_seq_len lanes tokens =
    if ltb 0 tokens
    then div_ceil tokens (min default_block_size max_seq_len)
    else div_ceil (lanes * max_seq_len) (min default_block_size max_seq_len)

init_cache_lem :
    (layout : KvLayout) (lanes tokens : ℕ)
    → 1 ≤ layout.max_seq_len
    → 1 ≤ blocks_of layout.max_seq_len lanes tokens
    → blocks_of layout.max_seq_len lanes tokens + 1 < 2 ^ 32
    → (cache : PagedKvCache) × (init_cache layout lanes tokens ≡ some cache)
      × Sized
          (min default_block_size layout.max_seq_len)
          (blocks_of layout.max_seq_len lanes tokens)
          lanes
          cache.pool
unfolding init_cache
init_cache_lem layout lanes tokens window enough small = elim (Bool-cases (ltb 0 tokens)) [
  | inl given ↦
      let enough' : 1 ≤ div_ceil tokens (min default_block_size layout.max_seq_len) =
        rw given at enough in
      let small' : div_ceil tokens (min default_block_size layout.max_seq_len) + 1 < 2 ^ 32 =
        rw given at small in
      rw given (
        new_lem layout lanes (min default_block_size layout.max_seq_len) _ (omega arith)
          (omega arith) enough' small')
  | inr rectangle ↦
      rw rectangle (
        with_default_blocks_lem layout lanes window (rw rectangle at enough)
          (rw rectangle at small))
]

-- The versions that the batched servers run.
abbrev pub is_batched : LlamaVersion → Bool
is_batched llama3_instruct = true
is_batched llama31_instruct = true
is_batched llama323b_instruct = true
is_batched llama321b_instruct = true
is_batched llama321b_instruct_q4 = false

sized_cache_lem :
    (version : LlamaVersion) (layout : KvLayout) (max_slots tokens : ℕ)
    → is_batched version ≡ true
    → sized_cache version layout max_slots tokens ≡ init_cache layout max_slots tokens
sized_cache_lem llama3_instruct layout max_slots tokens b = refl
sized_cache_lem llama31_instruct layout max_slots tokens b = refl
sized_cache_lem llama323b_instruct layout max_slots tokens b = refl
sized_cache_lem llama321b_instruct layout max_slots tokens b = refl
sized_cache_lem llama321b_instruct_q4 layout max_slots tokens b = cc

abbrev pub server : LlamaVersion → Llama3ServerConfig → Option PagedKvCache → LlamaServer
server version config loaded = record { version = version; config = config; loaded = loaded }

-- What the configuration and the environment say.
abbrev pub window : Environment → Llama3ServerConfig → ℕ
window env config = config_usize config.max_seq_len env.max_seq_len

abbrev pub slots : Environment → Llama3ServerConfig → ℕ
slots env config = config_usize config.max_slots env.max_slots

abbrev pub pool_tokens : Environment → Llama3ServerConfig → ℕ
pool_tokens env config = config_usize config.kv_pool_tokens env.kv_pool_tokens

abbrev pub blocks : Environment → Llama3ServerConfig → ℕ
blocks env config = blocks_of (window env config) (slots env config) (pool_tokens env config)

load_into_lem :
    (loads : LlamaVersion → Bool) (env : Environment) (layout : KvLayout) (version : LlamaVersion)
    (config : Llama3ServerConfig)
    → is_batched version ≡ true
    → loads version ≡ true
    → 1 ≤ window env config
    → window env config ≤ max_context_len version
    → 1 ≤ blocks env config
    → blocks env config + 1 < 2 ^ 32
    → (cache : PagedKvCache) × (load_into loads env layout version config none ≡ some cache)
      × Sized
          (min default_block_size (window env config))
          (blocks env config)
          (slots env config)
          cache.pool
unfolding load_into
load_into_lem loads env layout version config batched there positive short enough small =
    let fine : ltb (max_context_len version) (window env config) ≡ false = ground arith in
    let found : not (loads version) ≡ false = rw there refl in
    let sized = record layout { max_seq_len = window env config } in
    let (cache, e, r) =
      init_cache_lem sized (slots env config) (pool_tokens env config) positive enough small in
    (
      cache,
      rw (fine, found)
          (sized_cache_lem version sized (slots env config) (pool_tokens env config) batched ∙ e),
      r,
    )

-- What a pool of the configured size can hold.
abbrev pub capacity : Environment → Llama3ServerConfig → BatchCapacity
capacity env config = record {
  max_slots = slots env config;
  kv = record {
    block_size = min default_block_size (window env config);
    total_blocks = blocks env config;
  };
}

configured_budget_lem :
    (env : Environment) (config : Llama3ServerConfig)
    → 1 ≤ window env config
    → configured_budget env config ≡ some ((capacity env config).kv)
configured_budget_lem env config positive =
    let room : (min default_block_size (window env config) == 0) ≡ false = ground arith in
    rw room (ground arith)

abbrev capacity_of : ℕ → ℕ → ℕ → Option BatchCapacity
capacity_of lanes block_size total =
    some
      (record { max_slots = lanes; kv = record { block_size = block_size; total_blocks = total } })

same_capacity : {a b c x y z : ℕ} → a ≡ x → b ≡ y → c ≡ z → capacity_of a b c ≡ capacity_of x y z
same_capacity e f g = rw (e, f, g) refl

-- A server of a batched version that has not loaded its model, whose loader succeeds, whose window is not empty and within
-- what the model admits, and whose pool has a block and fewer than `2 ^ 32` of them with the sentinel,
-- loads without a panic. It reports the same capacity before and after the load; and whatever the
-- configuration and the environment become while it stays loaded, it still reports the blocks of the
-- pool, and no more slots than the pool has lanes.
pub batch_capacity-load :
    (loads : LlamaVersion → Bool) (env : Environment) (layout : KvLayout) (version : LlamaVersion)
    (config : Llama3ServerConfig) (env' : Environment) (config' : Llama3ServerConfig)
    → is_batched version ≡ true
    → loads version ≡ true
    → 1 ≤ window env config
    → window env config ≤ max_context_len version
    → 1 ≤ blocks env config
    → blocks env config + 1 < 2 ^ 32
    → (cache : PagedKvCache) × (load loads env layout (server version config none)
        ≡ some (server version config (some cache)))
      × (batch_capacity env (server version config none) ≡ some (capacity env config))
      × (batch_capacity env (server version config (some cache)) ≡ some (capacity env config))
      × (batch_capacity env' (server version config' (some cache))
          ≡ some (record {
            max_slots = min (slots env' config') (slots env config);
            kv = (capacity env config).kv;
          }))
      × (lane_count cache.pool ≡ slots env config)
unfolding load batch_capacity
batch_capacity-load loads env layout version config env' config' batched there positive short enough
      small =
    let (cache, e, r) =
      load_into_lem loads env layout version config batched there positive short enough small in
    (
      cache,
      rw e refl,
      rw (configured_budget_lem env config positive) refl,
      same_capacity (omega (arith, r.lanes_of)) r.blocks r.total,
      same_capacity (omega (arith, r.lanes_of)) r.blocks r.total,
      r.lanes_of,
    )
