-- ===== src/Engine/Round/Faults.antt =====
-- The errors that a round may fail a sequence with: those that the decoder or the sampler returns, and
-- the violations of their contract.
use burn_lm.Prelude.{
  ℕ, ◌≡◌, ◌⊎◌, inl, inr, refl, false, List, [], ◌∷◌, ◌==◌, length, Bool-cases, subst,
}
use burn_lm.Pool.{ok, err}
use burn_lm.Engine.{
  Model, InferenceError, InferenceResult, DecodeRow, and_then, batch_contract_violation,
  no_token_for_prefill, wrong_number_of_ids, wrong_number_of_rows,
}
use burn_lm.Engine.Round.{expect_rows, sample_checked, first_id}

module _ (M : Model) where
  open M use {State, Logits, rows, vocab, prefill, decode, sample}

  -- A call of the decoder returned it.
  abbrev pub Forwarded : InferenceResult Logits → Type 0
  Forwarded r =
      ((st : State) × (slot : ℕ) × (tokens : List ℕ) × (position : ℕ) × ((prefill st slot tokens
            position).1
          ≡ r))
      ⊎ ((st : State) × (batch : List DecodeRow) × ((decode st batch).1 ≡ r))

  abbrev pub Sampled : InferenceResult (List ℕ) → Type 0
  Sampled r = (st : State) × (l : Logits) × ((sample st l).1 ≡ r)

  pub data Fault : InferenceError → Type 0 where
    of_decoder : (error : InferenceError) → Forwarded (err error) → Fault error
    of_sampler : (error : InferenceError) → Sampled (err error) → Fault error
    rows_differ :
        (l : Logits) (n : ℕ)
        → Forwarded (ok l)
        → (rows l == n) ≡ false
        → Fault (batch_contract_violation (wrong_number_of_rows (rows l) (vocab l) n))
    no_id : Sampled (ok []) → Fault (batch_contract_violation no_token_for_prefill)
    ids_differ :
        (ids : List ℕ) (n : ℕ)
        → Sampled (ok ids)
        → (length ids == n) ≡ false
        → Fault (batch_contract_violation (wrong_number_of_ids n))

  -- A result whose ids the sampler returned, or whose error is a fault.
  abbrev pub Sound : InferenceResult (List ℕ) → Type 0
  Sound (ok ids) = Sampled (ok ids)
  Sound (err error) = Fault error

  abbrev pub SoundId : InferenceResult ℕ → Type 0
  SoundId (ok id) = Unit
  SoundId (err error) = Fault error

  Sampled-Sound : (r : InferenceResult (List ℕ)) → Sampled r → Sound r
  Sampled-Sound (ok ids) s = s
  Sampled-Sound (err error) s = of_sampler error s

  pub sample_checked-Sound :
      (n : ℕ) (st : State) (r : InferenceResult Logits)
      → Forwarded r
      → Sound (sample_checked M n (st, r)).1
  unfolding sample_checked expect_rows
  sample_checked-Sound n st (err error) f = of_decoder error f
  sample_checked-Sound n st (ok l) f = elim (Bool-cases (rows l == n)) [
    | inl same ↦ rw (Sound, same) (Sampled-Sound (sample st l).1 (st, l, refl))
    | inr differs ↦ rw (Sound, differs) (rows_differ l n f differs)
  ]

  pub first_id-Sound : (r : InferenceResult (List ℕ)) → Sound r → SoundId (and_then r first_id)
  unfolding first_id
  first_id-Sound (err error) s = s
  first_id-Sound (ok []) s = no_id s
  first_id-Sound (ok (id ∷ ids)) s = tt

  pub Sound-Fault :
      (r : InferenceResult ℕ) → SoundId r → (error : InferenceError) → r ≡ err error → Fault error
  Sound-Fault (ok id) s error q = cc
  Sound-Fault (err e) s error q = let same : e ≡ error = cc in subst Fault same s
