-- ===== src/Generate.antt =====
-- crates/burn-lm-llama/src/generation/generate.rs: the batch driver of the library, which runs the
-- decode core over a fixed set of prompts until every sequence has finished. The decoder and the
-- sampler are the parameter `Model`; `Driver` has what else the driver calls of `Llama`.
mod Tests
pub mod Stream
pub mod Ends
pub mod Output
use burn_lm.Prelude.{
  ℕ, zero, suc, ◌≡◌, ◌>>=◌, ◌+◌, ◌-◌, ◌*◌, Bool, true, false, not, ◌||◌, List, [], ◌∷◌, Option,
  none, some, leb, ◌==◌, if◌then◌else◌, length, sum, map,
}
use burn_lm.Pool.{ok, err}
use burn_lm.Engine.{
  InferenceError, InferenceResult, Model, ActiveSeq, StepOutcome, skipped, prefilling, stepped,
  failed, Entry,
}
use burn_lm.Engine.Round.{for_round, step_round}
use burn_lm.Generate.Stream.{GenerationContext, Tokenizer, update, panics, finish}

-- `tokenize` is the tokenizer's `encode`. `has_died` says whether the thread of a sequence that was sent
-- these tokens has dropped its receiver when the next one is sent, which it does only in a panic.
pub record Driver (M : Model) : Type 1 where
  pub Prompt : Type 0
  pub tokenize : Prompt → List ℕ
  pub stop_ids : List ℕ
  pub lane_count : M.State → ℕ
  pub reset : M.State → M.State
  pub tokenizer : Tokenizer
  pub has_died : List ℕ → Bool
  pub died_panicking : (sent : List ℕ) → has_died sent ≡ true → panics tokenizer sent ≡ true

-- Without `time`.
pub record GenerationOutput : Type 0 where
  pub tokens : ℕ

abbrev pub Seq : Type 0
Seq = ActiveSeq GenerationContext

-- `active.iter().any(|seq| !seq.finished)`
pub any_unfinished : List Seq → Bool
any_unfinished [] = false
any_unfinished (seq ∷ active) = not seq.finished || any_unfinished active

-- `if !is_stop { seq.extra.update(token) }`
pub stream_token : (List ℕ → Bool) → Bool → ℕ → Seq → Option Seq
unfolding update
stream_token died true token seq = some seq
stream_token died false token seq = update (died seq.extra.sent) seq.extra token >>= λ context.
    some (record seq { extra = context })

-- One turn of the loop over the outcomes; `later` is what the later turns give, and `untouched` the
-- sequences that they do not reach if this one breaks. `none` is a panic of `update`.
pub stream_one :
    (List ℕ → Bool)
    → StepOutcome
    → Seq
    → Option (List Seq × Option InferenceError)
    → List Seq
    → Option (List Seq × Option InferenceError)
unfolding stream_token
stream_one died (stepped token is_stop done) seq later untouched =
    stream_token died is_stop token seq >>= λ seq'. later >>= λ rest. some (seq' ∷ rest.0, rest.1)
stream_one died (failed error) seq later untouched = some (seq ∷ untouched, some error)
stream_one died skipped seq later untouched = later >>= λ rest. some (seq ∷ rest.0, rest.1)
stream_one died prefilling seq later untouched = later >>= λ rest. some (seq ∷ rest.0, rest.1)

abbrev pub seqs_of : List (Entry GenerationContext) → List Seq
seqs_of [] = []
seqs_of (e ∷ entries) = e.seq ∷ seqs_of entries

pub stream_round :
    (List ℕ → Bool) → List (Entry GenerationContext) → Option (List Seq × Option InferenceError)
unfolding stream_one
stream_round died [] = some ([], none)
stream_round died (e ∷ entries) =
    stream_one died e.outcome e.seq (stream_round died entries) (seqs_of entries)

-- At most this many rounds advance a sequence.
pub rounds_left : Seq → ℕ
rounds_left seq =
    if seq.finished
    then 0
    else 1 + (seq.max_gen - seq.generated) * 2 + (length seq.tokens - seq.processed)

pub enough_rounds : List Seq → ℕ
unfolding rounds_left
enough_rounds active = suc (sum (map rounds_left active))

module _ (M : Model) where
  open M use {State, release}

  -- The loop `'rounds`, on fuel; `none` is out of fuel, or a panic.
  unfoldable pub run_rounds :
      (List ℕ → Bool)
      → ℕ
      → List ℕ
      → State
      → List Seq
      → Option (State × List Seq × Option InferenceError)
  unfolding any_unfinished stream_round
  run_rounds died zero stop_ids st active = none
  run_rounds died (suc fuel) stop_ids st active = elim (any_unfinished active) [
    | false ↦ some (st, active, none)
    | true ↦
        let (st', budget, entries) = step_round M st active stop_ids (for_round active 0) 0 in
        elim (stream_round died entries) [
          | none ↦ none
          | some (active', some error) ↦ some (st', active', some error)
          | some (active', none) ↦ run_rounds died fuel stop_ids st' active'
        ]
  ]

  unfoldable pub release_all : State → List Seq → State
  release_all st [] = st
  release_all st (seq ∷ active) = release_all (release st seq.slot) active

  pub output_of : Seq → GenerationOutput
  output_of seq = record { tokens = seq.generated }

  -- The outputs, each after `finish` of its sequence.
  pub finish_all : Tokenizer → List Seq → Option (List GenerationOutput)
  unfolding output_of
  finish_all T [] = some []
  finish_all T (seq ∷ active) = finish T seq.extra >>= λ done.
      finish_all T active >>= λ outputs. some (output_of seq ∷ outputs)

  -- What follows the loop.
  unfoldable pub conclude :
      Tokenizer
      → State × List Seq × Option InferenceError
      → Option (State × InferenceResult (List GenerationOutput))
  unfolding release_all finish_all
  conclude T (st, active, some error) = some (release_all st active, err error)
  conclude T (st, active, none) =
      finish_all T active >>= λ outputs. some (release_all st active, ok outputs)

  module _ (D : Driver M) where
    open D use {Prompt, tokenize, stop_ids, lane_count, reset, tokenizer, has_died}

    -- `zip` and `enumerate` from a slot on.
    pub build_active : ℕ → ℕ → List Prompt → List ℕ → List Seq
    build_active sample_len slot [] emitters = []
    build_active sample_len slot (p ∷ prompts) [] = []
    build_active sample_len slot (p ∷ prompts) (emitter ∷ emitters) =
        record {
          slot = slot;
          tokens = tokenize p;
          processed = 0;
          generated = 0;
          max_gen = sample_len;
          finished = false;
          kv_reservation = 0;
          paused = false;
          extra = record { emitter = emitter; sent = [] };
        }
        ∷ build_active sample_len (suc slot) prompts emitters

    -- `none` is a panic, or a loop that does not end.
    pub generate_batch :
        State → List Prompt → ℕ → List ℕ → Option (State × InferenceResult (List GenerationOutput))
    unfolding conclude run_rounds build_active enough_rounds
    generate_batch st prompts sample_len emitters =
        if not (length prompts == length emitters)
        then none
        else if not (leb (length prompts) (lane_count st))
        then none
        else let active = build_active sample_len 0 prompts emitters in
          elim (run_rounds has_died (enough_rounds active) stop_ids (reset st) active) [
            | none ↦ none
            | some ran ↦ conclude tokenizer ran
          ]

    -- `pop().expect(..)`
    pub pop_output :
        State × InferenceResult (List GenerationOutput)
        → Option (State × InferenceResult GenerationOutput)
    pop_output (st, err error) = some (st, err error)
    pop_output (st, ok []) = none
    pop_output (st, ok (out ∷ [])) = some (st, ok out)
    pop_output (st, ok (out ∷ next ∷ outputs)) = pop_output (st, ok (next ∷ outputs))

    pub generate : State → Prompt → ℕ → ℕ → Option (State × InferenceResult GenerationOutput)
    unfolding generate_batch pop_output
    generate st prompt sample_len emitter =
        elim (generate_batch st (prompt ∷ []) sample_len (emitter ∷ [])) [
          | none ↦ none
          | some out ↦ pop_output out
        ]
