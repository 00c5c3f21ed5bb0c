-- ===== src/Worker/Step.antt =====
-- `step` of worker.rs: cancellations, growth, one round, and what the round's outcomes do to the
-- callers.
pub mod Frames
pub mod Kept
use burn_lm.Prelude.{
  ℕ, Bool, true, false, not, ◌&&◌, List, [], ◌∷◌, ◌++◌, map, Option, none, some, leb, if◌then◌else◌,
}
use burn_lm.Pool.{ok, err}
use burn_lm.Engine.{InferenceError, BatchCapacity, Entry, skipped, prefilling, stepped, failed}
use burn_lm.Engine.Round.{for_round, step_round}
use burn_lm.Worker.{
  JobMeta, JobSeq, FinishReason, cancelled, stop, length_cap, Stats, EmissionEvent, tokens, retire,
  emit, Server, Turn,
}
use burn_lm.Worker.Growth.{checked_grants}

-- The sweep for cancellations.
pub sweep_cancelled : (ℕ → Bool) → List JobSeq → List JobSeq
sweep_cancelled is_cancelled [] = []
sweep_cancelled is_cancelled (seq ∷ active) =
    let marked : JobSeq = record seq {
      finished = true;
      extra = record (seq.extra) { cancelled = true };
    } in
    (if not seq.finished && is_cancelled seq.extra.cancel then marked else seq)
    ∷ sweep_cancelled is_cancelled active

-- The sequence after the sweep over the outcomes.
pub note_stop : Entry JobMeta → JobSeq
note_stop entry = elim entry.outcome as (λ _. JobSeq) [
  | stepped token true done ↦ record (entry.seq) {
    extra = record (entry.seq.extra) { hit_stop = true };
  }
  | stepped token false done ↦ entry.seq
  | failed e ↦ entry.seq
  | skipped ↦ entry.seq
  | prefilling ↦ entry.seq
]

-- The retirements that the sweep sends, of the sequences whose forward failed.
pub failures : List (Entry JobMeta) → List EmissionEvent
failures [] = []
failures (entry ∷ entries) = elim entry.outcome as (λ _. List EmissionEvent) [
  | failed e ↦ retire entry.seq.extra.id (err e) ∷ failures entries
  | stepped token is_stop done ↦ failures entries
  | skipped ↦ failures entries
  | prefilling ↦ failures entries
]

-- `round_tokens`: the bytes of each token that is streamed, for the request that it belongs to.
pub round_tokens : (List ℕ → List ℕ) → List (Entry JobMeta) → List (ℕ × List ℕ)
round_tokens detokenize [] = []
round_tokens detokenize (entry ∷ entries) = elim entry.outcome as (λ _. List (ℕ × List ℕ)) [
  | stepped token false done ↦
      (entry.seq.extra.id, detokenize (token ∷ [])) ∷ round_tokens detokenize entries
  | stepped token true done ↦ round_tokens detokenize entries
  | failed e ↦ round_tokens detokenize entries
  | skipped ↦ round_tokens detokenize entries
  | prefilling ↦ round_tokens detokenize entries
]

pub tokens_event : List (ℕ × List ℕ) → List EmissionEvent
tokens_event [] = []
tokens_event (first ∷ rest) = tokens (first ∷ rest) ∷ []

pub reason_of : JobSeq → FinishReason
reason_of seq =
    if seq.extra.cancelled
    then cancelled
    else if seq.extra.hit_stop
    then stop
    else if leb seq.max_gen seq.generated
    then length_cap
    else stop

pub stats_of : JobSeq → Stats
unfolding reason_of
stats_of seq = record {
  tokens_count = seq.generated;
  queue_wait = seq.extra.queue_wait;
  finish_reason = reason_of seq;
}

-- `retain_mut`: the sequences that stay, the retirements sent, and the slots that are freed.
pub retire_finished : List JobSeq → List JobSeq × List EmissionEvent × List ℕ
unfolding stats_of
retire_finished [] = ([], [], [])
retire_finished (seq ∷ active) =
    let (kept, sent, freed) = retire_finished active in
    if seq.finished
    then (kept, retire seq.extra.id (ok (stats_of seq)) ∷ sent, seq.slot ∷ freed)
    else (seq ∷ kept, sent, freed)

-- `if active.is_empty() { return; }`
pub unless_empty : {A : Type 0} → List JobSeq → A → A → A
unless_empty [] idle busy = idle
unless_empty (seq ∷ active) idle busy = busy

module _ (srv : Server) where
  open srv use {
    model, Task, borrow, batch_capacity, stop_ids, prefill_chunk_size, prefill_token_budget,
    detokenize_bytes,
  }
  open model use {State, release, max_context_len}

  pub release_each : State → List ℕ → State
  release_each st [] = st
  release_each st (slot ∷ slots) = release_each (release st slot) slots

  -- The growth grants, if the decoder can be borrowed; `none` if the fuel of the grants ran out, or
  -- at a division by a block size of 0.
  pub grow : Turn State Task → Option (Turn State Task)
  unfolding checked_grants release_each
  grow t =
      let kv = BatchCapacity.kv (batch_capacity t.server) in
      let borrowed = borrow t.server in
      elim borrowed.1 as (λ _. Option (Turn State Task)) [
        | err e ↦ some (record t { server = borrowed.0 })
        | ok _ ↦ elim (checked_grants kv (max_context_len (borrowed.0)) t.active t.resume) [
          | none ↦ none
          | some g ↦ some (record t {
            server = release_each (borrowed.0) g.released;
            active = g.active;
            resume = g.resume;
          })
        ]
      ]

  -- The decoder cannot be borrowed: every sequence retires with the error.
  pub retire_all : InferenceError → List JobSeq → List EmissionEvent
  retire_all e [] = []
  retire_all e (seq ∷ active) = retire seq.extra.id (err e) ∷ retire_all e active

  -- What follows the round: the streamed tokens, the retirements, and the slots' release.
  pub deliver_round : Turn State Task → List (Entry JobMeta) → Turn State Task
  unfolding note_stop failures round_tokens tokens_event retire_finished release_each
  deliver_round t entries =
      let (kept, sent, freed) = retire_finished (map note_stop entries) in
      let streamed = tokens_event (round_tokens (detokenize_bytes t.server) entries) in
      let borrowed = borrow t.server in
      let released : State = elim borrowed.1 as (λ _. State) [
        | ok _ ↦ release_each (borrowed.0) freed
        | err e ↦ borrowed.0
      ] in
      let server : State = elim freed as (λ _. State) [ [] ↦ t.server | _ ∷ _ ↦ released ] in
      record t {
        server = server;
        active = kept;
        effects = t.effects ++ map emit (failures entries ++ streamed ++ sent);
      }

  -- The round, over the sequences that growth left. The stop ids and the two prefill settings were
  -- read before growth.
  pub run_round : List ℕ → ℕ → ℕ → Turn State Task → Turn State Task
  unfolding for_round step_round retire_all deliver_round
  run_round stops chunk_size budget t =
      let borrowed = borrow t.server in
      let (st, left, entries) =
        step_round model (borrowed.0) t.active stops (for_round t.active budget) chunk_size in
      elim borrowed.1 as (λ _. Turn State Task) [
        | err e ↦ record t {
          server = borrowed.0;
          active = [];
          effects = t.effects ++ map emit (retire_all e t.active);
        }
        | ok _ ↦ deliver_round (record t { server = st }) entries
      ]

  unfoldable pub step : (ℕ → Bool) → Turn State Task → Option (Turn State Task)
  unfolding sweep_cancelled grow run_round unless_empty
  step is_cancelled t =
      let swept : Turn State Task = record t { active = sweep_cancelled is_cancelled t.active } in
      let stepped = elim (grow swept) as (λ _. Option (Turn State Task)) [
        | none ↦ none
        | some grown ↦ some (
            run_round (stop_ids t.server) (prefill_chunk_size t.server)
              (prefill_token_budget t.server) grown)
      ] in
      unless_empty t.active (some t) stepped
