-- ===== src/Worker/Command/Iteration.antt =====
-- One turn of the worker as a whole.
use burn_lm.Prelude.{
  ◌≤◌, ℕ, ◌≡◌, refl, sym, ◌∙◌, subst, Bool, List, [], ◌∷◌, some, All, Bool-cases, inl, inr, not,
  ◌&&◌,
}
use burn_lm.Engine.{BatchCapacity, InferenceResult}
use burn_lm.Worker.{Server, Turn}
use burn_lm.Worker.Fits.{Fits}
use burn_lm.Worker.Admit.Attempts.{Static}
use burn_lm.Worker.Admit.Outcome.{admit_lem}
use burn_lm.Worker.Step.Kept.{step_lem}
use burn_lm.Worker.Command.{
  Command, query, submit, unload, clear_state, shutdown, Flow, continue, shut_down, is_empty,
  when_idle, handle_command, drain, has_work, worker_iteration,
}

module _ (srv : Server) (cap : BatchCapacity) where
  open srv use {model, Task, batch_capacity}
  open model use {State}

  -- The command leaves the server's capacity as it is.
  abbrev pub IsSteady : Command State Task → Type 0
  IsSteady (query operation) =
      (st : State) → batch_capacity st ≡ cap → batch_capacity (operation st).0 ≡ cap
  IsSteady unload =
      (st : State) → batch_capacity st ≡ cap → batch_capacity (Server.unload srv st).0 ≡ cap
  IsSteady clear_state =
      (st : State) → batch_capacity st ≡ cap → batch_capacity (Server.clear_state srv st).0 ≡ cap
  IsSteady (submit queued) = Unit
  IsSteady shutdown = Unit

  -- A command leaves the active set alone.
  record Handled (t u : Turn State Task) : Type 0 where
    capacity : batch_capacity u.server ≡ cap
    same_active : u.active ≡ t.active

  when_idle-Handled :
      (operation : State → State × InferenceResult (Unit {0})) (t : Turn State Task)
      → ((st : State) → batch_capacity st ≡ cap → batch_capacity (operation st).0 ≡ cap)
      → batch_capacity t.server ≡ cap
      → Handled t (when_idle srv operation t).0
  unfolding when_idle
  when_idle-Handled operation t steady same =
      elim (Bool-cases (is_empty t.active && is_empty t.queue)) [
        | inl idle ↦
            rw (when_idle, idle) (record { capacity = steady t.server same; same_active = refl })
        | inr busy ↦ rw (when_idle, busy) (record { capacity = same; same_active = refl })
      ]

  handle_command-Handled :
      (t : Turn State Task) (command : Command State Task)
      → IsSteady command
      → batch_capacity t.server ≡ cap
      → Handled t (handle_command srv t command).1
  unfolding handle_command
  handle_command-Handled t (query operation) steady same = record {
    capacity = steady t.server same;
    same_active = refl;
  }
  handle_command-Handled t unload steady same = when_idle-Handled (Server.unload srv) t steady same
  handle_command-Handled t clear_state steady same =
      when_idle-Handled (Server.clear_state srv) t steady same
  handle_command-Handled t (submit queued) steady same = record {
    capacity = same;
    same_active = refl;
  }
  handle_command-Handled t shutdown steady same = record { capacity = same; same_active = refl }

  drain-Handled :
      (t : Turn State Task) (commands : List (Command State Task))
      → All IsSteady commands
      → batch_capacity t.server ≡ cap
      → Handled t (drain srv t commands).1
  unfolding drain
  drain-Handled t [] steady same = record { capacity = same; same_active = refl }
  drain-Handled t (command ∷ commands) (one, all) same =
      let first = handle_command-Handled t command one same in
      let rest = drain-Handled (handle_command srv t command).1 commands all first.capacity in
      elim (Bool-cases (handle_command srv t command).0) [
        | inl stops ↦ rw (drain, stops) first
        | inr goes ↦
            rw (drain, goes)
              (record {
                capacity = rest.capacity;
                same_active = rest.same_active ∙ first.same_active;
              })
      ]

  -- From an active set that fits the capacity, with a server whose capacity is static and whose blocks
  -- have room for a token at least, and commands that leave it so, a turn of the worker ends, whatever
  -- the decoder and the sampler return, and in a release build without a panic of its own: the search
  -- for a slot finds one, no division is by zero, and the fuel of the growth grants is enough. The
  -- active set that the turn leaves fits the capacity: its slots are different and below `max_slots`,
  -- and its reservations add up to at most `total_blocks`.
  pub worker_iteration_lem :
      (static : Static srv cap) (now : ℕ) (is_cancelled : ℕ → Bool)
      (commands : List (Command State Task)) (t : Turn State Task)
      → All IsSteady commands
      → batch_capacity t.server ≡ cap
      → Fits cap t.active
      → 1 ≤ cap.kv.block_size
      → (flow : Flow) × (u : Turn State Task) × (worker_iteration srv now is_cancelled commands t
          ≡ some (flow, u))
        × Fits cap u.active
  unfolding worker_iteration
  worker_iteration_lem static now is_cancelled commands t steady same fits positive =
      let drained = (drain srv t commands).1 in
      let d = drain-Handled t commands steady same in
      let fits' : Fits cap drained.active = subst (Fits cap) (sym d.same_active) fits in
      let (a, ran, capacity, fits'', first, later, resumed) =
        admit_lem srv cap static positive now is_cancelled drained d.capacity fits' in
      let (u, done, last, same_queue, same_id) =
        step_lem srv cap is_cancelled a capacity fits'' positive in
      elim (Bool-cases (not (has_work srv t) && is_empty commands)) [
        | inl idle ↦
            let run : worker_iteration srv now is_cancelled commands t ≡ some (shut_down, t) =
              rw (worker_iteration, idle) refl in
            (shut_down, t, run, fits)
        | inr woken ↦ elim (Bool-cases (drain srv t commands).0) [
          | inl stops ↦
              let run : worker_iteration srv now is_cancelled commands t
                  ≡ some (shut_down, drained) =
                rw (worker_iteration, woken, stops) refl in
              (shut_down, drained, run, fits')
          | inr goes ↦
              let run : worker_iteration srv now is_cancelled commands t ≡ some (continue, u) =
                rw (worker_iteration, woken, goes, ran, done) refl in
              (continue, u, run, last)
        ]
      ]
