-- ===== src/Channel/Tests.antt =====
-- Calls on a channel of depth one.
use burn_lm.Prelude.{◌≡◌, ◌⊎◌, refl, true, false, some, length, get_elem?}
use burn_lm.Pool.{ok, err}
use burn_lm.Engine.{overloaded}
use burn_lm.Channel.{
  Channel, WorkerInner, returned, with_queue_depth, enter, check, sender, submit_job, is_overloaded,
}
use burn_lm.Channel.Steps.{Reach, starts, goes, enters, checks}
use burn_lm.Channel.Permits.{IsCounted, Reach-Counted}
use burn_lm.Channel.Submit.{Ended, Respawned, submit_lem, sender_lem}

abbrev one_deep : Channel
one_deep = with_queue_depth 1

-- Two calls enter before either tests its value; the second is shed, the first is not.
abbrev two_calls : Channel
two_calls = check 0 0 (check 1 1 (enter (enter one_deep)))

two_calls-Reach : Reach 1 two_calls
unfolding with_queue_depth enter check
two_calls-Reach =
    goes _ _ (goes _ _ (goes _ _ (goes _ _ starts enters) enters) (checks 1 1 refl))
      (checks 0 0 refl)

Reach-Counted_example : IsCounted two_calls
Reach-Counted_example = Reach-Counted two_calls-Reach

submit_lem_example :
    ((is_overloaded two_calls ≡ true)
      × (get_elem? (submit_job true two_calls).callers (length two_calls.callers)
          ≡ some (returned (err overloaded)))
      × ((submit_job true two_calls).inner ≡ two_calls.inner)
      × ((submit_job true two_calls).pending ≡ two_calls.pending))
    ⊎ ((is_overloaded two_calls ≡ false)
        × Ended
            (length two_calls.callers)
            two_calls.pending
            (sender true two_calls)
            (submit_job true two_calls))
submit_lem_example = submit_lem true two_calls

sender_lem_example :
    let out = sender true one_deep in
    (w : WorkerInner) × (out.0.inner ≡ some w)
    × (out.1 ≡ ok w.id)
    × (w.finished ≡ false)
    × ((one_deep.inner ≡ some w) ⊎ Respawned one_deep.inner w)
sender_lem_example = sender_lem one_deep
