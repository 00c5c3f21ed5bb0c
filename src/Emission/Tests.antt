-- ===== src/Emission/Tests.antt =====
-- The delivery of two requests, of which one is never retired.
use burn_lm.Prelude.{ℕ, ◌++◌, map, concat, ◌≡◌, refl, List, [], ◌∷◌}
use burn_lm.Pool.{err}
use burn_lm.Engine.{cancelled}
use burn_lm.Worker.{EmissionEvent, admitted, tokens, retire}
use burn_lm.Utf8.{finish}
use burn_lm.Utf8.Chunks.{text_in}
use burn_lm.Emission.{text, completed, run}
use burn_lm.Emission.Text.{mine, result_of, chunks_of}
use burn_lm.Emission.Told.{run_admitted-Told}
use burn_lm.Emission.Once.{answers, admissions, run-answers_once}

-- The first request gets the two bytes of `é` in two rounds; the second only the first of them.
abbrev toy_events : List EmissionEvent
toy_events =
    admitted 0 10
    ∷ admitted 1 11
    ∷ tokens ((0, 195 ∷ []) ∷ (1, 195 ∷ []) ∷ [])
    ∷ tokens ((0, 169 ∷ []) ∷ [])
    ∷ retire 0 (err cancelled)
    ∷ retire 0 (err cancelled)
    ∷ []

run-answers_once_example : answers 11 (run toy_events []) ≡ admissions 11 toy_events
run-answers_once_example = run-answers_once toy_events 11 (refl, (refl, tt))

-- What follows the admission of the first request.
abbrev later_events : List EmissionEvent
later_events =
    admitted 1 11
    ∷ tokens ((0, 195 ∷ []) ∷ (1, 195 ∷ []) ∷ [])
    ∷ tokens ((0, 169 ∷ []) ∷ [])
    ∷ retire 0 (err cancelled)
    ∷ []

run_admitted-Told_example :
    (texts : List (List ℕ)) × (mine 10 (run (admitted 0 10 ∷ later_events) [])
      ≡ map (text 10) texts ++ completed 10 (result_of 0 later_events) ∷ [])
    × (concat texts ≡ text_in (finish (concat (chunks_of 0 later_events))))
run_admitted-Told_example = run_admitted-Told 0 10 later_events [] (refl, refl, tt) tt
