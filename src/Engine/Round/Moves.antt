-- ===== src/Engine/Round/Moves.antt =====
-- What one `step_round` does to each sequence of the round.
use burn_lm.Prelude.{
  ℕ, ◌+◌, ◌-◌, ◌<◌, ◌≤◌, ◌≡◌, ◌≢◌, refl, ap, ◌⊎◌, inl, inr, Bool, true, false, ◌||◌, List, [], ◌∷◌,
  ◌++◌, none, some, arith, ltb, leb, length, mem, Bool-cases,
}
use burn_lm.Pool.{ok, err}
use burn_lm.Engine.Budget.{PrefillBudget}
use burn_lm.Engine.{
  InferenceError, InferenceResult, context_length_exceeded, ActiveSeq, skipped, prefilling, stepped,
  failed, DecodeRow, prompt, row, Entry, classify, advance_or_fail,
}

abbrev pub is_bounded : PrefillBudget → Bool
is_bounded none = false
is_bounded (some r) = true

module _ {X : Type 0} where
  abbrev pub retire : ActiveSeq X → ActiveSeq X
  retire seq = record seq { finished = true }

  -- The sequence after a sampled token.
  abbrev pub append_token : List ℕ → ActiveSeq X → ℕ → ActiveSeq X
  append_token stop_ids seq t = record seq {
    processed = length seq.tokens;
    tokens = seq.tokens ++ t ∷ [];
    generated = seq.generated + 1;
    finished = mem t stop_ids || leb seq.max_gen (seq.generated + 1) || seq.finished;
  }

  -- It has neither finished nor been paused.
  abbrev pub is_live : ActiveSeq X → Bool
  is_live seq = elim (seq.finished || seq.paused) [ true ↦ false | false ↦ true ]

  -- What classification promises of a sequence that takes part in a forward.
  pub record IsReady (max_context_len : ℕ) (seq : ActiveSeq X) (e : Entry X) : Type 0 where
    pub live : is_live seq ≡ true
    pub open_end : seq.generated < seq.max_gen
    pub unread : seq.processed < length seq.tokens
    pub fits : length seq.tokens ≤ max_context_len
    pub same : e.seq ≡ seq
    pub waiting : e.outcome ≡ skipped

-- `bounded`: the round has a prefill budget. `Fault` holds of the errors that a forward may fail with.
module _ {X : Type 0} (stop_ids : List ℕ) (max_context_len : ℕ) (bounded : Bool)
    (Fault : InferenceError → Type 0) where
  -- The move of one sequence.
  pub data Moved (seq : ActiveSeq X) (e : Entry X) : Type 0 where
    rests : is_live seq ≡ false → e.seq ≡ seq → e.outcome ≡ skipped → Moved seq e
    defers :
        bounded ≡ true
        → 1 < length seq.tokens - seq.processed
        → e.seq ≡ seq
        → e.outcome ≡ skipped
        → Moved seq e
    has_nothing :
        is_live seq ≡ true
        → (seq.max_gen ≤ seq.generated) ⊎ (length seq.tokens ≤ seq.processed)
        → e.seq ≡ retire seq
        → e.outcome ≡ skipped
        → Moved seq e
    overflows :
        is_live seq ≡ true
        → seq.generated < seq.max_gen
        → seq.processed < length seq.tokens
        → max_context_len < length seq.tokens
        → e.seq ≡ retire seq
        → e.outcome ≡ failed (context_length_exceeded (length seq.tokens) max_context_len)
        → Moved seq e
    fails :
        (error : InferenceError)
        → is_live seq ≡ true
        → seq.generated < seq.max_gen
        → seq.processed < length seq.tokens
        → length seq.tokens ≤ max_context_len
        → Fault error
        → e.seq ≡ retire seq
        → e.outcome ≡ failed error
        → Moved seq e
    chunks :
        (k : ℕ)
        → is_live seq ≡ true
        → seq.processed < k
        → k < length seq.tokens
        → e.seq ≡ record seq { processed = k }
        → e.outcome ≡ prefilling
        → Moved seq e
    steps :
        (t : ℕ)
        → is_live seq ≡ true
        → seq.generated < seq.max_gen
        → length seq.tokens ≤ max_context_len
        → e.seq ≡ append_token stop_ids seq t
        → e.outcome ≡ stepped t (mem t stop_ids) (append_token stop_ids seq t).finished
        → Moved seq e

  -- Where a sequence stands between the passes of the round.
  pub data Stage (seq : ActiveSeq X) (e : Entry X) : Type 0 where
    settled : ((r : DecodeRow) → e.work ≢ row r) → e.work ≢ prompt → Moved seq e → Stage seq e
    asks_prefill :
        e.work ≡ prompt
        → 1 < length seq.tokens - seq.processed
        → IsReady max_context_len seq e
        → Stage seq e
    asks_decode : (r : DecodeRow) → e.work ≡ row r → IsReady max_context_len seq e → Stage seq e

  pub classify-Stage : (seq : ActiveSeq X) → Stage seq (classify max_context_len seq)
  unfolding classify
  classify-Stage seq = elim (Bool-cases (seq.finished || seq.paused)) [
    | inl off ↦ rw off (settled (λ r q. cc) (λ q. cc) (rests (ground arith) refl refl))
    | inr on ↦
        elim (Bool-cases (leb seq.max_gen seq.generated || leb (length seq.tokens) seq.processed)) [
          | inl nothing ↦
              rw (on, nothing)
                (settled (λ r q. cc) (λ q. cc)
                  (has_nothing (ground arith) (ground arith) refl refl))
          | inr some_work ↦ elim (Bool-cases (ltb max_context_len (length seq.tokens))) [
            | inl long ↦
                rw (on, some_work, long)
                  (settled (λ r q. cc) (λ q. cc)
                    (overflows (ground arith) (ground arith) (ground arith) (ground arith) refl
                      refl))
            | inr fits ↦ elim (Bool-cases (ltb 1 (length seq.tokens - seq.processed))) [
              | inl many ↦
                  rw (on, some_work, fits, many)
                    (asks_prefill refl (ground arith) (record {
                      live = ground arith;
                      open_end = ground arith;
                      unread = ground arith;
                      fits = ground arith;
                      same = refl;
                      waiting = refl;
                    }))
              | inr one ↦
                  rw (on, some_work, fits, one)
                    (asks_decode _ refl (record {
                      live = ground arith;
                      open_end = ground arith;
                      unread = ground arith;
                      fits = ground arith;
                      same = refl;
                      waiting = refl;
                    }))
            ]
          ]
        ]
  ]

  -- A sampled token, or an error in its place, settles a ready sequence.
  pub advance-Moved :
      (seq : ActiveSeq X) (e : Entry X) (sampled : InferenceResult ℕ)
      → IsReady max_context_len seq e
      → ((error : InferenceError) → sampled ≡ err error → Fault error)
      → Moved seq (advance_or_fail stop_ids sampled e)
  unfolding advance_or_fail
  advance-Moved seq e (err error) h fault =
      fails error h.live h.open_end h.unread h.fits (fault error refl) (ap retire h.same) refl
  advance-Moved seq e (ok t) h fault =
      steps t h.live h.open_end h.fits (ap (λ s. append_token stop_ids s t) h.same)
        (ap (λ s. stepped t (mem t stop_ids) (append_token stop_ids s t).finished) h.same)
