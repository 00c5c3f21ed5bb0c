-- ===== src/Worker.antt =====
-- crates/burn-lm-inference/src/channels/batching/worker.rs: the state of the worker thread, and the
-- server that it owns, which is a parameter (`BatchedInferenceServer` is implemented elsewhere).
-- A channel's receiver and a completion sender are known by a number; a cancel signal by the number
-- of its request, whose value at a turn is an argument of the turn. Logging is left out.
mod Tests
pub mod Growth
pub mod Slots
pub mod Fits
pub mod Admit
pub mod Step
pub mod Command
use burn_lm.Prelude.{
  ℕ, zero, suc, Bool, true, false, List, Option, none, some, map, sum, mem, if◌then◌else◌,
}
use burn_lm.Engine.{InferenceResult, KvAdmission, KvBudget, BatchCapacity, Model, ActiveSeq}

pub record JobMeta : Type 0 where
  pub id : ℕ
  pub hit_stop : Bool
  pub cancel : ℕ
  pub queue_wait : ℕ
  pub cancelled : Bool

abbrev pub JobSeq : Type 0
JobSeq = ActiveSeq JobMeta

-- `ResumedJob`: an evicted sequence.
pub record ResumedJob : Type 0 where
  pub tokens : List ℕ
  pub max_gen : ℕ
  pub generated : ℕ
  pub meta : JobMeta

pub data FinishReason : Type 0 where
  cancelled stop length_cap : FinishReason

-- The entries that a retirement reports.
pub record Stats : Type 0 where
  pub tokens_count : ℕ
  pub queue_wait : ℕ
  pub finish_reason : FinishReason

-- emission.rs: what the worker tells the emission thread. An emitter goes with its completion.
pub data EmissionEvent : Type 0 where
  admitted : ℕ → ℕ → EmissionEvent
  tokens : List (ℕ × List ℕ) → EmissionEvent
  retire : ℕ → InferenceResult Stats → EmissionEvent

-- What the worker does to the outside, in order: an event to the emission thread, or a reply to a
-- job that never left the queue.
pub data Effect : Type 0 where
  emit : EmissionEvent → Effect
  reply : ℕ → InferenceResult Stats → Effect

-- `QueuedJob`, with the parts of its `InferenceJob`. A job's permit is dropped when it leaves the queue.
pub record QueuedJob (Task : Type 0) : Type 0 where
  pub task : Task
  pub max_tokens : Option ℕ
  pub cancel : ℕ
  pub completion : ℕ
  pub enqueued_at : ℕ

-- `BatchedInferenceServer`. `borrow` is `decoder()`, which loads the model if need be.
pub record Server : Type 1 where
  pub model : Model
  pub open model use {State}
  pub Task : Type 0
  pub borrow : State → State × InferenceResult (Unit {0})
  pub batch_capacity : State → BatchCapacity
  pub prefill_chunk_size : State → ℕ
  pub prefill_token_budget : State → ℕ
  pub kv_admission : State → KvAdmission
  pub tokenize : State → Task → InferenceResult (List ℕ)
  pub detokenize_bytes : State → List ℕ → List ℕ
  pub stop_ids : State → List ℕ
  pub max_gen_tokens : State → ℕ
  pub unload : State → State × InferenceResult (Unit {0})
  pub clear_state : State → State × InferenceResult (Unit {0})

-- `active.iter().map(|seq| seq.kv_reservation).sum()`
abbrev pub reserved_blocks : List JobSeq → ℕ
reserved_blocks active = sum (map (λ seq. seq.kv_reservation) active)

-- What one turn of the worker reads and writes: the server, the worker's variables, and what it has
-- sent so far. `State` and `Task` are the server's.
pub record Turn (State Task : Type 0) : Type 0 where
  pub server : State
  pub queue : List (QueuedJob Task)
  pub active : List JobSeq
  pub resume : List ResumedJob
  pub next_id : ℕ
  pub effects : List Effect

-- `(0..max_slots).find(|candidate| active.iter().all(|seq| seq.slot != *candidate))`, over the
-- `count` candidates from `candidate` on.
pub lowest_free : ℕ → ℕ → List JobSeq → Option ℕ
lowest_free zero candidate active = none
lowest_free (suc count) candidate active =
    let later = lowest_free count (suc candidate) active in
    if mem candidate (map (λ seq. seq.slot) active) then later else some candidate
