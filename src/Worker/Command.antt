-- ===== src/Worker/Command.antt =====
-- `handle_command`, `fail_everything` and `worker_iteration` of worker.rs. A command that only asks
-- the server, or configures it, is `query`: what the server does is a parameter of the command.
pub mod Iteration
use burn_lm.Prelude.{
  ℕ, Bool, true, false, ◌||◌, not, ◌&&◌, List, [], ◌∷◌, ◌++◌, Option, none, some, ltb, length,
  if◌then◌else◌,
}
use burn_lm.Pool.{err}
use burn_lm.Engine.{InferenceResult, busy, worker_died, BatchCapacity}
use burn_lm.Worker.{Effect, reply, QueuedJob, Server, Turn}
use burn_lm.Worker.Admit.{admit}
use burn_lm.Worker.Step.{step}

-- `Command`. A reply channel is left out: `handle_command` returns the reply.
pub data Command (State Task : Type 0) : Type 0 where
  query : (State → State × InferenceResult (Unit {0})) → Command State Task
  submit : QueuedJob Task → Command State Task
  unload clear_state shutdown : Command State Task

pub is_empty : {A : Type 0} → List A → Bool
is_empty [] = true
is_empty (a ∷ l) = false

-- `Flow`
pub data Flow : Type 0 where
  continue shut_down : Flow

module _ (srv : Server) where
  open srv use {model, Task, batch_capacity}
  open model use {State}

  -- What the command's own channel is sent: nothing for a job and for a shutdown.
  abbrev pub Reply : Type 0
  Reply = Option (InferenceResult (Unit {0}))

  -- `Unload` and `ClearState`: refused while a job is active or queued.
  pub when_idle :
      (State → State × InferenceResult (Unit {0})) → Turn State Task → Turn State Task × Reply
  unfolding is_empty
  when_idle operation t =
      let done = operation t.server in
      let ran : Turn State Task × Reply = (record t { server = done.0 }, some (done.1)) in
      if is_empty t.active && is_empty t.queue
      then ran
      else (t, some (err (busy (length t.active) (length t.queue))))

  -- The turn after, whether it was a shutdown, and the reply.
  pub handle_command : Turn State Task → Command State Task → Bool × Turn State Task × Reply
  unfolding when_idle
  handle_command t (query operation) =
      let done = operation t.server in (false, record t { server = done.0 }, some (done.1))
  handle_command t (submit queued) = (false, record t { queue = t.queue ++ queued ∷ [] }, none)
  handle_command t unload = let (t', r) = when_idle (Server.unload srv) t in (false, t', r)
  handle_command t clear_state =
      let (t', r) = when_idle (Server.clear_state srv) t in (false, t', r)
  handle_command t shutdown = (true, t, none)

  -- The commands that wait, in order; those behind a shutdown are not read.
  pub drain : Turn State Task → List (Command State Task) → Bool × Turn State Task × List Reply
  unfolding handle_command
  drain t [] = (false, t, [])
  drain t (command ∷ commands) =
      let (is_shutdown, t', r) = handle_command t command in
      let (later, t'', rs) = drain t' commands in
      if is_shutdown then (true, t', r ∷ []) else (later, t'', r ∷ rs)

  -- Whether the worker would run something without a new command.
  pub has_work : Turn State Task → Bool
  unfolding is_empty
  has_work t =
      not (is_empty t.active)
      || (not (is_empty t.queue) || not (is_empty t.resume))
        && ltb (length t.active) (BatchCapacity.max_slots (batch_capacity t.server))

  pub answer_died : List (QueuedJob Task) → List Effect
  answer_died [] = []
  answer_died (queued ∷ queue) = reply queued.completion (err worker_died) ∷ answer_died queue

  pub fail_everything : Turn State Task → Turn State Task
  unfolding answer_died
  fail_everything t = record t {
    active = [];
    queue = [];
    effects = t.effects ++ answer_died t.queue;
  }

  -- One turn. `commands` are those that arrive up to the end of the drain: a worker without work
  -- blocks for the first, so an empty list is then a receiver whose senders are gone.
  pub worker_iteration :
      ℕ → (ℕ → Bool) → List (Command State Task) → Turn State Task → Option (Flow × Turn State Task)
  unfolding drain has_work admit step
  worker_iteration now is_cancelled commands t =
      let (is_shutdown, drained, replies) = drain t commands in
      let run : Option (Flow × Turn State Task) =
        elim (admit srv now is_cancelled drained) as (λ _. Option (Flow × Turn State Task)) [
          | none ↦ none
          | some admitted ↦
              elim (step srv is_cancelled admitted) as (λ _. Option (Flow × Turn State Task)) [
                | none ↦ none
                | some stepped ↦ some (continue, stepped)
              ]
        ] in
      if not (has_work t) && is_empty commands
      then some (shut_down, t)
      else if is_shutdown
      then some (shut_down, drained)
      else run
