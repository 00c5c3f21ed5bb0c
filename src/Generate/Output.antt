-- ===== src/Generate/Output.antt =====
-- What the batch driver returns.
use burn_lm.Prelude.{
  Bool-cases, inl, inr, false, ℕ, zero, suc, ◌≤◌, ◌≡◌, refl, sym, ap, ◌∙◌, true, List, [], ◌∷◌,
  Option, none, some, arith, map, length, All, Each, leb, ◌==◌, ==_iff, subst,
}
use burn_lm.Pool.{ok, err}
use burn_lm.Engine.{InferenceError, InferenceResult, Model}
use burn_lm.Generate.{
  Seq, Driver, GenerationOutput, build_active, conclude, enough_rounds, output_of, release_all,
  generate_batch, generate, pop_output, finish_all,
}
use burn_lm.Generate.Stream.{Tokenizer, IsTotal, panics_total, finish_total}
use burn_lm.Generate.Ends.{Runs, Kept, run_rounds_lem}

ok_injective : {A : Type 0} {a b : A} → Path (InferenceResult A) (ok a) (ok b) → a ≡ b
ok_injective q = cc

-- The outputs of `n` prompts, each within the cap.
pub Returned : ℕ → ℕ → InferenceResult (List GenerationOutput) → Type 0
Returned n sample_len (err error) = Unit
Returned n sample_len (ok outputs) =
    (length outputs ≡ n) × All (λ (out : GenerationOutput). out.tokens ≤ sample_len) outputs

-- A sequence in the slot, with the cap of the call.
record IsSeated (sample_len slot : ℕ) (seq : Seq) : Type 0 where
  at : seq.slot ≡ slot
  cap : seq.max_gen ≡ sample_len
  runs : Runs seq

-- Sequences in the slots from `slot` on.
abbrev Seated : ℕ → ℕ → ℕ → List Seq → Type 0
Seated sample_len n slot [] = n ≡ 0
Seated sample_len zero slot (seq ∷ seqs) = ⊥
Seated sample_len (suc n) slot (seq ∷ seqs) =
    IsSeated sample_len slot seq × Seated sample_len n (suc slot) seqs

module _ (sample_len : ℕ) where
  Seated-Runs : (n slot : ℕ) (seqs : List Seq) → Seated sample_len n slot seqs → All Runs seqs
  Seated-Runs n slot [] h = tt
  Seated-Runs zero slot (seq ∷ seqs) h = absurd h
  Seated-Runs (suc n) slot (seq ∷ seqs) (h, rest) = (h.runs, Seated-Runs n (suc slot) seqs rest)

  Kept-Seated :
      (n slot : ℕ) (seqs seqs' : List Seq)
      → Seated sample_len n slot seqs
      → Each Kept seqs seqs'
      → Seated sample_len n slot seqs'
  Kept-Seated n slot [] [] h k = h
  Kept-Seated n slot [] (s ∷ seqs') h k = absurd k
  Kept-Seated n slot (seq ∷ seqs) [] h k = absurd k
  Kept-Seated zero slot (seq ∷ seqs) (s ∷ seqs') h k = absurd h
  Kept-Seated (suc n) slot (seq ∷ seqs) (s ∷ seqs') (h, hs) (k, ks) = (
    record { at = k.slot_same ∙ h.at; cap = k.cap_same ∙ h.cap; runs = k.runs },
    Kept-Seated n (suc slot) seqs seqs' hs ks,
  )

module _ (M : Model) where
  open M use {State, release}

  -- Every slot from `slot` on is released, in order.
  pub release_slots : State → ℕ → ℕ → State
  release_slots st slot zero = st
  release_slots st slot (suc n) = release_slots (release st slot) (suc slot) n

  Seated-release :
      (sample_len n slot : ℕ) (seqs : List Seq) (st : State)
      → Seated sample_len n slot seqs
      → release_all M st seqs ≡ release_slots st slot n
  unfolding release_all release_slots
  Seated-release sample_len n slot [] st h = rw h refl
  Seated-release sample_len zero slot (seq ∷ seqs) st h = absurd h
  Seated-release sample_len (suc n) slot (seq ∷ seqs) st (h, rest) =
      Seated-release sample_len n (suc slot) seqs (release st seq.slot) rest
      ∙ ap (λ s. release_slots (release st s) (suc slot) n) h.at

  Seated-outputs :
      (sample_len n slot : ℕ) (seqs : List Seq)
      → Seated sample_len n slot seqs
      → Returned n sample_len (ok (map (output_of M) seqs))
  unfolding Returned output_of
  Seated-outputs sample_len n slot [] h = (sym h, tt)
  Seated-outputs sample_len zero slot (seq ∷ seqs) h = absurd h
  Seated-outputs sample_len (suc n) slot (seq ∷ seqs) (h, rest) =
      let (count, within) = Seated-outputs sample_len n (suc slot) seqs rest in
      (ap suc count, (omega (arith, h.cap, h.runs.within), within))

  finish_all_total :
      (T : Tokenizer)
      → IsTotal T
      → (active : List Seq) → finish_all M T active ≡ some (map (output_of M) active)
  unfolding finish_all output_of
  finish_all_total T total [] = refl
  finish_all_total T total (seq ∷ active) =
      let (out, e) = finish_total T total seq.extra in rw (e, finish_all_total T total active) refl

  conclude_lem :
      (T : Tokenizer)
      → IsTotal T
      → (sample_len n : ℕ) (st : State) (active : List Seq) (failure : Option InferenceError)
      → Seated sample_len n 0 active
      → (result : InferenceResult (List GenerationOutput)) × (conclude M T (st, active, failure)
          ≡ some (release_slots st 0 n, result))
        × Returned n sample_len result
  unfolding conclude Returned
  conclude_lem T total sample_len n st active (some error) h =
      (err error, ap (λ s. some (s, err error)) (Seated-release sample_len n 0 active st h), tt)
  conclude_lem T total sample_len n st active none h = (
    ok (map (output_of M) active),
    rw (finish_all_total T total active) (
        ap (λ s. some (s, ok (map (output_of M) active)))
          (Seated-release sample_len n 0 active st h)),
    Seated-outputs sample_len n 0 active h,
  )

  module _ (D : Driver M) where
    open D use {Prompt, stop_ids, lane_count, reset, tokenizer, has_died, died_panicking}

    nobody_dies : IsTotal tokenizer → (sent : List ℕ) → has_died sent ≡ false
    nobody_dies total sent = elim (Bool-cases (has_died sent)) [
      | inl gone ↦ cc (died_panicking sent gone, panics_total tokenizer total sent)
      | inr there ↦ there
    ]

    build_active-Seated :
        (sample_len slot : ℕ) (prompts : List Prompt) (emitters : List ℕ)
        → length prompts ≡ length emitters
        → Seated sample_len
            (length prompts)
            slot
            (build_active M D sample_len slot prompts emitters)
    unfolding build_active
    build_active-Seated sample_len slot [] emitters q = refl
    build_active-Seated sample_len slot (p ∷ prompts) [] q = absurd (omega arith)
    build_active-Seated sample_len slot (p ∷ prompts) (e ∷ emitters) q = (
      record { at = refl; cap = refl; runs = record { unpaused = refl; within = omega arith } },
      build_active-Seated sample_len (suc slot) prompts emitters (omega arith),
    )

    pub generate_batch_lem :
        (st : State) (prompts : List Prompt) (sample_len : ℕ) (emitters : List ℕ)
        → length prompts ≡ length emitters
        → length prompts ≤ lane_count st
        → IsTotal tokenizer
        → (last : State) × (result : InferenceResult (List GenerationOutput)) × (generate_batch M D
              st prompts sample_len emitters
            ≡ some (release_slots last 0 (length prompts), result))
          × Returned (length prompts) sample_len result
    unfolding generate_batch enough_rounds
    generate_batch_lem st prompts sample_len emitters same fits total =
        let active : List Seq = build_active M D sample_len 0 prompts emitters in
        let seated : Seated sample_len (length prompts) 0 active =
          build_active-Seated sample_len 0 prompts emitters same in
        let paired : (length prompts == length emitters) ≡ true = (==_iff _ _).1 same in
        let room : leb (length prompts) (lane_count st) ≡ true = ground arith in
        let (last, active', failure, q, kept, done) =
          run_rounds_lem M stop_ids has_died (nobody_dies total) (enough_rounds active) (reset st)
            active (omega arith) (Seated-Runs sample_len (length prompts) 0 active seated) in
        let (result, q', returned) =
          conclude_lem tokenizer total sample_len (length prompts) last active' failure
            (Kept-Seated sample_len (length prompts) 0 active active' seated kept) in
        (last, result, rw (paired, room, q, q') refl, returned)

    pop_output_lem :
        (sample_len : ℕ) (st : State) (result : InferenceResult (List GenerationOutput))
        → Returned 1 sample_len result
        → (out : InferenceResult GenerationOutput) × (pop_output M D (st, result) ≡ some (st, out))
          × ((o : GenerationOutput) → out ≡ ok o → o.tokens ≤ sample_len)
    unfolding pop_output Returned
    pop_output_lem sample_len st (err error) h = (err error, refl, λ o q. cc)
    pop_output_lem sample_len st (ok []) h = absurd (omega arith)
    pop_output_lem sample_len st (ok (o ∷ [])) (count, (within, rest)) = (
      ok o,
      refl,
      λ o' q. subst (λ (x : GenerationOutput). x.tokens ≤ sample_len) (ok_injective q) within,
    )
    pop_output_lem sample_len st (ok (o ∷ next ∷ outputs)) h = absurd (omega arith)

    -- The call for one prompt, where there is a lane and no tokens make the tokenizer panic, ends: its output has at
    -- most `sample_len` tokens, or it is the error of a forward, and slot 0 is released.
    pub generate_lem :
        (st : State) (prompt : Prompt) (sample_len emitter : ℕ)
        → 1 ≤ lane_count st
        → IsTotal tokenizer
        → (last : State) × (out : InferenceResult GenerationOutput) × (generate M D st prompt
              sample_len emitter
            ≡ some (release last 0, out))
          × ((o : GenerationOutput) → out ≡ ok o → o.tokens ≤ sample_len)
    unfolding generate release_slots
    generate_lem st prompt sample_len emitter room total =
        let (last, result, q, returned) =
          generate_batch_lem st (prompt ∷ []) sample_len (emitter ∷ []) refl room total in
        let (out, q', within) = pop_output_lem sample_len (release last 0) result returned in
        (last, out, rw (generate, q, q') refl, within)
