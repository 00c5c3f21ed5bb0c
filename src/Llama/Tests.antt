-- ===== src/Llama/Tests.antt =====
-- A decoder of two empty lanes: a prefill, a fused decode of both lanes and a release.
use burn_lm.Prelude.{◌≡◌, inl, refl, List, [], ◌∷◌, some, none, true, arith}
use burn_lm.Pool.Tests.{empty_pool, empty_pool-Ledger}
use burn_lm.Engine.{InferenceResult}
use burn_lm.Cache.{PagedKvCache}
use burn_lm.Llama.Server.{Environment, Llama3ServerConfig, llama321b_instruct, load, batch_capacity}
use burn_lm.Llama.Server.Capacity.{batch_capacity-load, server}
use burn_lm.Cache.{KvLayout}
use burn_lm.Pool.{lane_count}
use burn_lm.Prelude.Arith.{div_ceil}
use burn_lm.Llama.{Network, LlamaDecoder, decode, prefill, release}
use burn_lm.Store.{ℤ}
use burn_lm.Llama.Decode.{Ends, Prefills, Filled, decode_lem, prefill_lem, release_lem}

-- A network whose logits are the ids that it is given.
abbrev toy_network : Network
toy_network = record {
  Kv = Unit;
  Logits = List (List ℤ);
  forward_lanes = λ kv input plan. (kv, input);
}

abbrev empty_decoder : LlamaDecoder toy_network
empty_decoder = record {
  kv = tt;
  cache = record {
    layout = record { n_layers = 1; n_kv_heads = 1; head_dim = 1; max_seq_len = 8 };
    pool = empty_pool;
  };
}

decode_lem_example :
    (out : LlamaDecoder toy_network × InferenceResult (List (List ℤ))) × (decode toy_network
        empty_decoder
        (record { slot = 0; token = 7 } ∷ record { slot = 1; token = 9 } ∷ [])
      ≡ some out)
    × Ends toy_network empty_decoder.cache (0 ∷ 1 ∷ []) 1 out
decode_lem_example =
    decode_lem toy_network empty_decoder (record { slot = 0; token = 7 })
      (record { slot = 1; token = 9 } ∷ []) empty_pool-Ledger.consistent
      (omega arith, (omega arith, tt)) (refl, (refl, tt))

prefill_lem_example :
    (out : LlamaDecoder toy_network × InferenceResult (List (List ℤ))) × (prefill toy_network
        empty_decoder 1
        (5 ∷ 6 ∷ 7 ∷ [])
        0
      ≡ some out)
    × Prefills toy_network empty_decoder.cache 1 0 3 out
prefill_lem_example =
    prefill_lem toy_network empty_decoder 1 0 0 (5 ∷ 6 ∷ 7 ∷ []) empty_pool-Ledger.consistent
      (omega arith) refl (inl refl) refl

release_lem_example :
    (d' : LlamaDecoder toy_network) × (release toy_network empty_decoder 1 ≡ some d')
    × Filled toy_network empty_decoder.cache 1 0 d'.cache
    × (d'.kv ≡ tt)
release_lem_example =
    release_lem toy_network empty_decoder 1 empty_pool-Ledger.consistent (omega arith)

-- Nothing is set but the slots: eight in place of four.
abbrev eight_slots : Environment
eight_slots = record {
  max_slots = some 8;
  max_seq_len = none;
  kv_pool_tokens = none;
  prefill_chunk_size = none;
  prefill_token_budget = none;
  kv_admission = none;
}

abbrev default_config : Llama3ServerConfig
default_config = record {
  max_seq_len = 8192;
  max_slots = 4;
  prefill_chunk_size = 512;
  prefill_token_budget = 512;
  kv_pool_tokens = 0;
}

abbrev toy_layout : KvLayout
toy_layout = record { n_layers = 16; n_kv_heads = 8; head_dim = 64; max_seq_len = 128 }

batch_capacity-load_example :
    (cache : PagedKvCache) × (load
        (λ v. true)
        eight_slots
        toy_layout
        (server llama321b_instruct default_config none)
      ≡ some (server llama321b_instruct default_config (some cache)))
    × (batch_capacity eight_slots (server llama321b_instruct default_config none)
        ≡ some (record { max_slots = 8; kv = record { block_size = 128; total_blocks = 512 } }))
    × (batch_capacity eight_slots (server llama321b_instruct default_config (some cache))
        ≡ some (record { max_slots = 8; kv = record { block_size = 128; total_blocks = 512 } }))
    × (batch_capacity
          (record eight_slots { max_slots = some 32 })
          (server llama321b_instruct default_config (some cache))
        ≡ some (record { max_slots = 8; kv = record { block_size = 128; total_blocks = 512 } }))
    × (lane_count cache.pool ≡ 8)
unfolding div_ceil
batch_capacity-load_example =
    batch_capacity-load (λ v. true) eight_slots toy_layout llama321b_instruct default_config
      (record eight_slots { max_slots = some 32 }) default_config refl refl (omega arith)
      (omega arith) (omega arith) (omega arith)
