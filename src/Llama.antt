-- ===== src/Llama.antt =====
-- crates/burn-lm-llama/src/nn/llama/inference.rs: the decoder of the Llama models over the paged
-- cache. The network is a parameter: it is given the plan of a round and returns one row of logits for
-- each lane. The stores of the layers belong to its state. `none` is a panic; the debug assertion on
-- the position of a prefill is left out, as in a release build.
mod Tests
pub mod Decode
pub mod Server
use burn_lm.Prelude.{ℕ, List, [], ◌∷◌, Option, none, some, map, ◌>>=◌, ◌==◌, if◌then◌else◌, length}
use burn_lm.Pool.{ok, err}
use burn_lm.Engine.{
  InferenceResult, InferenceError, context_length_exceeded, kv_pool_exhausted, DecodeRow,
}
use burn_lm.Store.{ℤ, as_i32}
use burn_lm.Cache.{
  PagedKvCache, PagedKvError, max_sequence_length_exceeded, pool_exhausted, LanePlan, prepare_lanes,
  reset_lane,
}
use burn_lm.Cache

-- `Transformer::forward_lanes`, with the slice of the last position; `Kv` are the layers' stores.
pub record Network : Type 1 where
  pub Kv : Type 0
  pub Logits : Type 0
  pub forward_lanes : Kv → List (List ℤ) → LanePlan → Kv × Logits

pub error_of : PagedKvError → InferenceError
error_of (max_sequence_length_exceeded actual limit) = context_length_exceeded actual limit
error_of (pool_exhausted short_by) = kv_pool_exhausted short_by

module _ (N : Network) where
  open N use {Kv, Logits}

  -- Without the rotary table, which is only read, and the device.
  pub record LlamaDecoder : Type 0 where
    pub kv : Kv
    pub cache : PagedKvCache

  pub max_context_len : LlamaDecoder → ℕ
  max_context_len d = d.cache.layout.max_seq_len

  -- `input` has the new ids of each lane, all lanes as many; the slice of the last position has none
  -- to take when `seq_len` is 0.
  pub forward_lanes :
      LlamaDecoder → List ℕ → List (List ℤ) → ℕ → Option (LlamaDecoder × InferenceResult Logits)
  unfolding error_of
  forward_lanes d lanes input seq_len = do
    (cache, planned) ← prepare_lanes d.cache lanes seq_len
    elim planned [
      | err e ↦ some (record { kv = d.kv; cache = cache }, err (error_of e))
      | ok plan ↦
          let out = N.forward_lanes d.kv input plan in
          if seq_len == 0 then none else some (record { kv = out.0; cache = cache }, ok (out.1))
    ]

  pub clear_lane : LlamaDecoder → ℕ → Option LlamaDecoder
  clear_lane d slot = do cache ← reset_lane d.cache slot; some (record d { cache = cache })

  -- A prompt at position 0 is a new sequence, and clears its lane.
  pub begin_prefill : LlamaDecoder → ℕ → ℕ → Option LlamaDecoder
  unfolding clear_lane
  begin_prefill d slot position = if position == 0 then clear_lane d slot else some d

  pub prefill : LlamaDecoder → ℕ → List ℕ → ℕ → Option (LlamaDecoder × InferenceResult Logits)
  unfolding begin_prefill forward_lanes
  prefill d slot tokens position = do
    d' ← begin_prefill d slot position
    forward_lanes d' (slot ∷ []) (map as_i32 tokens ∷ []) (length tokens)

  pub decode : LlamaDecoder → List DecodeRow → Option (LlamaDecoder × InferenceResult Logits)
  unfolding forward_lanes
  decode d rows =
      forward_lanes d (map (λ (r : DecodeRow). r.slot) rows)
        (map (λ (r : DecodeRow). as_i32 r.token ∷ []) rows) 1

  pub release : LlamaDecoder → ℕ → Option LlamaDecoder
  unfolding clear_lane
  release d slot = clear_lane d slot

  -- The rotary table of a decoder that serves lanes is never shifted.
  pub reset : LlamaDecoder → Option LlamaDecoder
  reset d = do cache ← Cache.reset d.cache; some (record d { cache = cache })
