-- ===== src/Engine.antt =====
-- crates/burn-lm-inference/src/batching.rs and errors.rs: the decode core that advances every
-- in-flight sequence by one token per round. The decoder and the sampler are a parameter, `Model`:
-- they are implemented by a model's own crate, against the trait of the source.
pub mod Budget
pub mod Round
use Prim.Native.String.{String}
use burn_lm.Prelude.{
  ℕ, zero, suc, ◌+◌, ◌-◌, ◌<◌, ◌≡◌, refl, ◌%◌, ◌^◌, Bool, true, false, not, ◌&&◌, ◌||◌, List, [],
  ◌∷◌, map, Option, none, some, ltb, leb, ◌==◌, if◌then◌else◌, length, get_elem?, take, drop, mem,
  min, ◌++◌,
}
use burn_lm.Prelude.Arith.{div_ceil}
use burn_lm.Pool.{Result, ok, err}

-- The text of a contract violation, by the parts that its message is formatted from.
pub data Violation : Type 0 where
  no_token_for_prefill : Violation
  wrong_number_of_ids : ℕ → Violation
  wrong_number_of_rows : ℕ → ℕ → ℕ → Violation

pub data InferenceError : Type 0 where
  delete_error download_error unload_error : String → String → InferenceError
  load_error plugin_download_unsupported : String → InferenceError
  model_not_loaded cancelled overloaded worker_died : InferenceError
  context_length_exceeded busy : ℕ → ℕ → InferenceError
  kv_pool_exhausted : ℕ → InferenceError
  batch_contract_violation : Violation → InferenceError

abbrev pub InferenceResult : Type 0 → Type 0
InferenceResult A = Result InferenceError A

abbrev pub and_then :
    {A B : Type 0} → InferenceResult A → (A → InferenceResult B) → InferenceResult B
and_then (ok a) f = f a
and_then (err e) f = err e

pub data KvAdmission : Type 0 where
  reserve elastic : KvAdmission

pub record KvBudget : Type 0 where
  pub block_size : ℕ
  pub total_blocks : ℕ

abbrev pub usize_max : ℕ
usize_max = 18446744073709551615

pub unlimited : KvBudget
unlimited = record { block_size = 1; total_blocks = usize_max }

-- The blocks that cover the tokens, where a block has room for one at least.
abbrev pub covering : KvBudget → ℕ → ℕ
covering kv tokens = div_ceil tokens kv.block_size

-- A division by a block size of 0 panics.
pub blocks_for : KvBudget → ℕ → Option ℕ
blocks_for kv tokens = if kv.block_size == 0 then none else some (covering kv tokens)

pub blocks_for_lem :
    (kv : KvBudget) (tokens : ℕ)
    → (kv.block_size == 0) ≡ false
    → blocks_for kv tokens ≡ some (covering kv tokens)
unfolding blocks_for
blocks_for_lem kv tokens positive = rw positive refl

-- `usize` arithmetic of a release build.
pub wrapping_add : ℕ → ℕ → ℕ
wrapping_add a b = (a + b) % 2 ^ 64

pub wrapping_sub : ℕ → ℕ → ℕ
wrapping_sub a b = (a + 2 ^ 64 - b) % 2 ^ 64

pub record BatchCapacity : Type 0 where
  pub max_slots : ℕ
  pub kv : KvBudget

pub record DecodeRow : Type 0 where
  pub slot : ℕ
  pub token : ℕ

-- `BatchedDecoder`, with the sampler beside it: a call returns the state after it. One state stands
-- for the decoder's caches and the backend's random numbers.
pub record Model : Type 1 where
  pub State : Type 0
  pub Logits : Type 0
  pub rows : Logits → ℕ
  pub vocab : Logits → ℕ
  pub prefill : State → ℕ → List ℕ → ℕ → State × InferenceResult Logits
  pub decode : State → List DecodeRow → State × InferenceResult Logits
  pub release : State → ℕ → State
  pub max_context_len : State → ℕ
  pub sample : State → Logits → State × InferenceResult (List ℕ)

pub record ActiveSeq (X : Type 0) : Type 0 where
  pub slot : ℕ
  pub tokens : List ℕ
  pub processed : ℕ
  pub generated : ℕ
  pub max_gen : ℕ
  pub finished : Bool
  pub kv_reservation : ℕ
  pub paused : Bool
  pub extra : X

pub data StepOutcome : Type 0 where
  skipped prefilling : StepOutcome
  stepped : ℕ → Bool → Bool → StepOutcome
  failed : InferenceError → StepOutcome

-- What a sequence asks of the round: nothing, a prompt prefill, or a row of the fused decode.
pub data Work : Type 0 where
  idle prompt : Work
  row : DecodeRow → Work

-- One position of the round: the sequence, its outcome so far, and its work. The source keeps the
-- outcomes in a vector beside the slice, and the work as lists of increasing indices into both.
pub record Entry (X : Type 0) : Type 0 where
  pub seq : ActiveSeq X
  pub outcome : StepOutcome
  pub work : Work

-- `seq.tokens[seq.processed]`, in range where it is read.
pub token_at : List ℕ → ℕ → ℕ
token_at tokens i = elim (get_elem? tokens i) [ some t ↦ t | none ↦ 0 ]

module _ {X : Type 0} where
  pub classify : ℕ → ActiveSeq X → Entry X
  unfolding token_at
  classify max_context_len seq =
      if seq.finished || seq.paused
      then record { seq = seq; outcome = skipped; work = idle }
      else if leb seq.max_gen seq.generated || leb (length seq.tokens) seq.processed
      then record { seq = record seq { finished = true }; outcome = skipped; work = idle }
      else if ltb max_context_len (length seq.tokens)
      then record {
        seq = record seq { finished = true };
        outcome = failed (context_length_exceeded (length seq.tokens) max_context_len);
        work = idle;
      }
      else if ltb 1 (length seq.tokens - seq.processed)
      then record { seq = seq; outcome = skipped; work = prompt }
      else record {
        seq = seq;
        outcome = skipped;
        work = row (record { slot = seq.slot; token = token_at seq.tokens seq.processed });
      }

  -- `advance_or_fail`: a sampled token, or the error of the forward that should have given one.
  pub advance_or_fail : List ℕ → InferenceResult ℕ → Entry X → Entry X
  advance_or_fail stop_ids (err e) entry = record entry {
    seq = record (entry.seq) { finished = true };
    outcome = failed e;
  }
  advance_or_fail stop_ids (ok token) entry =
      let seq = entry.seq in
      let is_stop = mem token stop_ids in
      let done = is_stop || leb seq.max_gen (seq.generated + 1) || seq.finished in
      record entry {
        seq = record seq {
          processed = length seq.tokens;
          tokens = seq.tokens ++ token ∷ [];
          generated = seq.generated + 1;
          finished = done;
        };
        outcome = stepped token is_stop done;
      }
