-- ===== src/Engine/Round/Tests.antt =====
-- A round at a toy decoder that always samples token 7.
use burn_lm.Prelude.{ℕ, false, [], ◌∷◌, some, length, replicate, Each}
use burn_lm.Pool.{ok}
use burn_lm.Engine.{Model, ActiveSeq}
use burn_lm.Engine.Budget.{admit_prefill}
use burn_lm.Engine.Round.{step_round}
use burn_lm.Engine.Round.Moves.{Moved, is_bounded}
use burn_lm.Engine.Round.Faults.{Fault}
use burn_lm.Engine.Round.Prefill.{Granted, admit_prefill-Granted}
use burn_lm.Engine.Round.Decode.{step_round-Moved}

abbrev seven_model : Model
seven_model = record {
  State = Unit;
  Logits = ℕ;
  rows = λ l. l;
  vocab = λ l. 8;
  prefill = λ st slot tokens start. (st, ok 1);
  decode = λ st rows. (st, ok (length rows));
  release = λ st slot. st;
  max_context_len = λ st. 16;
  sample = λ st l. (st, ok (replicate l 7));
}

abbrev round_seq : ℕ → ℕ → ActiveSeq (Unit {0})
round_seq slot processed = record {
  slot = slot;
  tokens = 3 ∷ 4 ∷ 5 ∷ [];
  processed = processed;
  generated = 0;
  max_gen = 2;
  finished = false;
  kv_reservation = 1;
  paused = false;
  extra = tt;
}

-- One sequence decodes, one has its prompt to prefill, under a budget of two tokens.
step_round-Moved_example :
    Each
      (Moved (7 ∷ []) 16 (is_bounded (some 2)) (Fault seven_model))
      (round_seq 0 2 ∷ round_seq 1 0 ∷ [])
      (step_round seven_model tt (round_seq 0 2 ∷ round_seq 1 0 ∷ []) (7 ∷ []) (some 2) 0).2
step_round-Moved_example =
    step_round-Moved seven_model (7 ∷ []) tt (round_seq 0 2 ∷ round_seq 1 0 ∷ []) (some 2) 0

admit_prefill-Granted_example : Granted (some 2) 3 (admit_prefill (some 2) 3)
admit_prefill-Granted_example = admit_prefill-Granted (some 2) 3
