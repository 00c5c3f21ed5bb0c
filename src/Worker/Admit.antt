-- ===== src/Worker/Admit.antt =====
-- `admit` of worker.rs: evicted sequences resume, then queued jobs are admitted, while a slot is free
-- and the block budget covers the guarantee. `none` is the panic of `expect` on a free slot, or of a
-- division by a block size of 0.
pub mod Attempts
pub mod Outcome
use burn_lm.Prelude.{
  ℕ, ◌+◌, ◌-◌, Bool, true, false, List, [], ◌∷◌, ◌++◌, Option, none, some, ltb, leb, if◌then◌else◌,
  length, min,
}
use burn_lm.Pool.{ok, err}
use burn_lm.Engine.{
  InferenceError, KvAdmission, reserve, elastic, cancelled, kv_pool_exhausted, BatchCapacity,
  blocks_for, wrapping_add, wrapping_sub, Model, ActiveSeq,
}
use burn_lm.Worker.{
  JobMeta, JobSeq, ResumedJob, Effect, emit, reply, admitted, QueuedJob, Server, Turn, lowest_free,
  reserved_blocks,
}

-- A sequence as it enters a slot, fresh or resumed: its prompt is prefilled from the start.
pub entering : ℕ → List ℕ → ℕ → ℕ → ℕ → JobMeta → JobSeq
entering slot tokens generated max_gen guaranteed extra = record {
  slot = slot;
  tokens = tokens;
  processed = 0;
  generated = generated;
  max_gen = max_gen;
  finished = false;
  kv_reservation = guaranteed;
  paused = false;
  extra = extra;
}

-- The blocks that admission guarantees, of the worst case and the footprint with one token more.
pub guarantee : KvAdmission → List JobSeq → ℕ → ℕ → ℕ
guarantee mode [] worst footprint = worst
guarantee reserve (seq ∷ active) worst footprint = worst
guarantee elastic (seq ∷ active) worst footprint = footprint

module _ (srv : Server) where
  open srv use {model, Task, borrow, batch_capacity, kv_admission, tokenize, max_gen_tokens}
  open model use {State, release, max_context_len}

  -- What an attempt leaves, and whether the loop goes on.
  abbrev pub Attempt : Type 0
  Attempt = Option (Turn State Task × Bool)

  -- `if let Ok(decoder) = server.decoder() { decoder.release(slot) }`
  pub release_slot : State → ℕ → State
  release_slot st slot =
      let borrowed = borrow st in
      elim borrowed.1 as (λ _. State) [ ok _ ↦ release (borrowed.0) slot | err e ↦ borrowed.0 ]

  -- The last steps of an admission: the slot, its release in the decoder, and the push.
  pub seat : Turn State Task → (ℕ → JobSeq) → Attempt
  unfolding lowest_free release_slot
  seat t seq = elim (lowest_free (BatchCapacity.max_slots (batch_capacity t.server)) 0 t.active) [
    | none ↦ none
    | some slot ↦
        some (
          record t { server = release_slot t.server slot; active = t.active ++ seq slot ∷ [] },
          true,
        )
  ]

  -- The budget's part of the gate for an evicted sequence, the decoder being borrowed.
  pub resume_gate : Turn State Task → ResumedJob → Attempt
  unfolding guarantee seat entering
  resume_gate t candidate =
      let ctx = max_context_len t.server in
      let kv = BatchCapacity.kv (batch_capacity t.server) in
      let total =
        wrapping_sub (wrapping_add (length candidate.tokens) candidate.max_gen)
          candidate.generated in
      elim (blocks_for kv (min total ctx)) as (λ _. Attempt) [
        | none ↦ none
        | some worst ↦
            elim (blocks_for kv (min (length candidate.tokens + 1) ctx)) as (λ _. Attempt) [
              | none ↦ none
              | some footprint ↦
                  let guaranteed = guarantee (kv_admission t.server) t.active worst footprint in
                  let seated = seat t (λ slot.
                    entering slot candidate.tokens candidate.generated candidate.max_gen guaranteed
                      candidate.meta) in
                  if ltb (kv.total_blocks - reserved_blocks t.active) guaranteed
                  then some (t, false)
                  else seated
            ]
      ]

  -- The body of the first loop.
  pub try_resume : Turn State Task → ResumedJob → Attempt
  unfolding resume_gate
  try_resume t candidate =
      let borrowed = borrow t.server in
      let t' : Turn State Task = record t { server = borrowed.0 } in
      elim borrowed.1 as (λ _. Attempt) [
        | err e ↦ some (t', false)
        | ok _ ↦ resume_gate t' candidate
      ]

  -- `while !resume.is_empty() && ...`
  pub resume_loop : List ResumedJob → Turn State Task → Option (Turn State Task)
  unfolding try_resume
  resume_loop [] t = some (record t { resume = [] })
  resume_loop (candidate ∷ rest) t =
      let stop : Turn State Task → Turn State Task = λ u. record u { resume = candidate ∷ rest } in
      if ltb (length t.active) (BatchCapacity.max_slots (batch_capacity t.server))
      then elim (try_resume t candidate) [
        | none ↦ none
        | some (u, true) ↦ resume_loop rest u
        | some (u, false) ↦ some (stop u)
      ]
      else some (stop t)

  -- A job that leaves the queue with an answer and no slot.
  pub answer : Turn State Task → QueuedJob Task → InferenceError → Attempt
  answer t job e =
      some (record t { effects = t.effects ++ reply job.completion (err e) ∷ [] }, true)

  pub clamp_max_gen : ℕ → Option ℕ → ℕ
  clamp_max_gen cap none = cap
  clamp_max_gen cap (some requested) = min requested cap

  -- The job takes a fresh id, its delivery state goes to the emission thread, and it is seated.
  pub enter : ℕ → Turn State Task → QueuedJob Task → List ℕ → ℕ → ℕ → Attempt
  unfolding seat entering
  enter now t job tokens max_gen guaranteed =
      seat
        (record t {
          next_id = t.next_id + 1;
          effects = t.effects ++ emit (admitted t.next_id job.completion) ∷ [];
        })
        (λ slot. entering slot tokens 0 max_gen guaranteed (record {
          id = t.next_id;
          hit_stop = false;
          cancel = job.cancel;
          queue_wait = now - job.enqueued_at;
          cancelled = false;
        }))

  -- The budget's part of the gate, for a job with these tokens.
  pub gate : ℕ → Turn State Task → QueuedJob Task → List ℕ → Attempt
  unfolding guarantee answer clamp_max_gen enter
  gate now t job tokens =
      let ctx = max_context_len t.server in
      let max_gen = clamp_max_gen (max_gen_tokens t.server) job.max_tokens in
      let kv = BatchCapacity.kv (batch_capacity t.server) in
      elim (blocks_for kv (min (wrapping_add (length tokens) max_gen) ctx)) as (λ _. Attempt) [
        | none ↦ none
        | some need ↦ elim (blocks_for kv (min (length tokens + 1) ctx)) as (λ _. Attempt) [
          | none ↦ none
          | some footprint ↦
              let guaranteed = guarantee (kv_admission t.server) t.active need footprint in
              if ltb kv.total_blocks need
              then answer t job (kv_pool_exhausted (need - kv.total_blocks))
              else if ltb (kv.total_blocks - reserved_blocks t.active) guaranteed
              then some (t, false)
              else enter now t job tokens max_gen guaranteed
        ]
      ]

  -- The body of the second loop, at the front job.
  pub try_admit : ℕ → (ℕ → Bool) → Turn State Task → QueuedJob Task → Attempt
  unfolding answer gate
  try_admit now is_cancelled t job =
      let borrowed = borrow t.server in
      let t' : Turn State Task = record t { server = borrowed.0 } in
      let fits : Attempt = elim borrowed.1 as (λ _. Attempt) [
        | err e ↦ answer t' job e
        | ok _ ↦ elim (tokenize (borrowed.0) job.task) as (λ _. Attempt) [
          | err e ↦ answer t' job e
          | ok tokens ↦ gate now t' job tokens
        ]
      ] in
      if is_cancelled job.cancel then answer t job cancelled else fits

  pub queue_loop :
      ℕ → (ℕ → Bool) → List (QueuedJob Task) → Turn State Task → Option (Turn State Task)
  unfolding try_admit
  queue_loop now is_cancelled [] t = some (record t { queue = [] })
  queue_loop now is_cancelled (job ∷ rest) t =
      let stop : Turn State Task → Turn State Task = λ u. record u { queue = job ∷ rest } in
      if ltb (length t.active) (BatchCapacity.max_slots (batch_capacity t.server))
      then elim (try_admit now is_cancelled t job) [
        | none ↦ none
        | some (u, true) ↦ queue_loop now is_cancelled rest u
        | some (u, false) ↦ some (stop u)
      ]
      else some (stop t)

  unfoldable pub admit : ℕ → (ℕ → Bool) → Turn State Task → Option (Turn State Task)
  unfolding resume_loop queue_loop
  admit now is_cancelled t = elim (resume_loop t.resume t) [
    | none ↦ none
    | some u ↦ queue_loop now is_cancelled u.queue u
  ]
