-- ===== src/Engine/Round/Prefill.antt =====
-- The prefill pass of `step_round`: what it does to each sequence, and what it spends.
use burn_lm.Prelude.{
  ℕ, zero, suc, ◌+◌, ◌-◌, ◌<◌, ◌≤◌, ◌≡◌, ◌≢◌, refl, ap, sym, ◌∙◌, inl, inr, ◌⊎◌, Bool, true, List,
  [], ◌∷◌, Option, none, some, arith, ltb, length, min, Bool-cases, Each,
}
use burn_lm.Pool.{ok, err}
use burn_lm.Engine.Budget.{PrefillBudget, admit_prefill}
use burn_lm.Engine.{
  InferenceError, InferenceResult, Model, ActiveSeq, DecodeRow, Work, idle, prompt, row, Entry,
  advance_or_fail,
}
use burn_lm.Engine.Round.Faults.{
  Fault, Forwarded, of_decoder, Sound-Fault, first_id-Sound, sample_checked-Sound,
}
use burn_lm.Engine.Round.{
  wanted_width, prefill_final, prefill_chunk, prefill_granted, prefill_claimed, prefill_one,
  prefill_entry, prefill_pass,
}
use burn_lm.Engine.Round.Moves.{
  is_bounded, retire, Moved, defers, fails, chunks, Stage, settled, asks_prefill, asks_decode,
  IsReady, advance-Moved,
}

-- What a grant of `g` tokens leaves: an unbounded budget gives all that is wanted, and another loses
-- what is granted; if that is less than is wanted, the budget is spent.
abbrev pub Spent : PrefillBudget → ℕ → ℕ → PrefillBudget → Type 0
Spent none wanted g rest = (g ≡ wanted) × (rest ≡ none)
Spent (some r) wanted g rest =
    (left : ℕ) × (rest ≡ some left) × (left + g ≡ r) × ((g ≡ wanted) ⊎ (left ≡ 0))

-- What a claim on the budget gives: nothing only if the budget is spent, and never more than wanted.
pub data Granted (budget : PrefillBudget) (wanted : ℕ) (claim : PrefillBudget × Option ℕ)
    : Type 0 where
  nothing :
      is_bounded budget ≡ true
      → budget ≡ some 0
      → claim ≡ (budget, none)
      → Granted budget wanted claim
  grants :
      (g : ℕ) (rest : PrefillBudget)
      → g ≤ wanted
      → (0 < wanted → 0 < g)
      → is_bounded rest ≡ is_bounded budget
      → Spent budget wanted g rest
      → claim ≡ (rest, some g)
      → Granted budget wanted claim

-- A claim on the prefill budget is refused only if the budget is spent, and leaves it so. Otherwise it
-- is granted, at most what is wanted, and more than nothing if anything is wanted: an unbounded budget
-- grants all of it and stays, and another grants no more than it has, loses exactly what it grants,
-- and grants less than is wanted only when that spends it.
pub admit_prefill-Granted :
    (budget : PrefillBudget) (wanted : ℕ) → Granted budget wanted (admit_prefill budget wanted)
unfolding admit_prefill
admit_prefill-Granted none wanted = grants wanted none (omega arith) (λ h. h) refl (refl, refl) refl
admit_prefill-Granted (some zero) wanted = nothing refl refl refl
admit_prefill-Granted (some (suc r)) wanted =
    grants (min wanted (suc r)) (some (suc r - min wanted (suc r))) (omega arith) (λ h. omega arith)
      refl (suc r - min wanted (suc r), refl, omega arith, by_less wanted (suc r)) refl
  where
    by_less : (w n : ℕ) → (min w n ≡ w) ⊎ (n - min w n ≡ 0)
    by_less w n = elim (Bool-cases (ltb n w)) [
      | inl less ↦ inr (ground arith)
      | inr enough ↦ inl (ground arith)
    ]

module _ {X : Type 0} (stop_ids : List ℕ) (max_context_len : ℕ) (bounded : Bool)
    (Fault : InferenceError → Type 0) where
  -- After the prefill pass a sequence has made its move, or waits for the fused decode.
  pub data Prefilled (seq : ActiveSeq X) (e : Entry X) : Type 0 where
    moved :
        ((r : DecodeRow) → e.work ≢ row r)
        → Moved stop_ids max_context_len bounded Fault seq e
        → Prefilled seq e
    waits : (r : DecodeRow) → e.work ≡ row r → IsReady max_context_len seq e → Prefilled seq e

work-advance_or_fail :
    {X : Type 0} (stop_ids : List ℕ) (sampled : InferenceResult ℕ) (e : Entry X)
    → (advance_or_fail stop_ids sampled e).work ≡ e.work
unfolding advance_or_fail
work-advance_or_fail stop_ids (ok t) e = refl
work-advance_or_fail stop_ids (err error) e = refl

wanted_pos :
    {X : Type 0} (chunk_size : ℕ) (seq : ActiveSeq X)
    → 1 < length seq.tokens - seq.processed
    → (0 < wanted_width chunk_size seq)
      × (wanted_width chunk_size seq ≤ length seq.tokens - seq.processed)
unfolding wanted_width
wanted_pos chunk_size seq h = (ground arith, ground arith)

module _ (M : Model) {X : Type 0} (stop_ids : List ℕ) (max_context_len : ℕ) (bounded : Bool)
    (chunk_size : ℕ) where
  open M use {State, Logits, prefill}

  prefill_chunk-Moved :
      (seq : ActiveSeq X) (e : Entry X) (k : ℕ) (forward : State × InferenceResult Logits)
      → Forwarded M forward.1
      → IsReady max_context_len seq e
      → seq.processed < k
      → k < length seq.tokens
      → let e' = (prefill_chunk M k forward e).1 in
        Moved stop_ids max_context_len bounded (Fault M) seq e' × (e'.work ≡ e.work)
  unfolding prefill_chunk
  prefill_chunk-Moved seq e k (st, ok logits) came h more less = (
    chunks k h.live more less (ap (λ (s : ActiveSeq X). record s { processed = k }) h.same) refl,
    refl,
  )
  prefill_chunk-Moved seq e k (st, err error) came h more less = (
    fails error h.live h.open_end h.unread h.fits (of_decoder error came) (ap retire h.same) refl,
    refl,
  )

  prefill_final-Moved :
      (seq : ActiveSeq X) (e : Entry X) (forward : State × InferenceResult Logits)
      → Forwarded M forward.1
      → IsReady max_context_len seq e
      → let e' = (prefill_final M stop_ids forward e).1 in
        Moved stop_ids max_context_len bounded (Fault M) seq e' × (e'.work ≡ e.work)
  unfolding prefill_final
  prefill_final-Moved seq e forward came h = (
    advance-Moved stop_ids max_context_len bounded (Fault M) seq e _ h
        (Sound-Fault M _ (first_id-Sound M _ (sample_checked-Sound M 1 forward.0 forward.1 came))),
    work-advance_or_fail stop_ids _ e,
  )

  prefill_granted-Moved :
      (seq : ActiveSeq X) (e : Entry X) (g : ℕ) (st : State)
      → IsReady max_context_len seq e
      → 0 < g
      → let e' = (prefill_granted M stop_ids g st e).1 in
        Moved stop_ids max_context_len bounded (Fault M) seq e' × (e'.work ≡ e.work)
  unfolding prefill_granted
  prefill_granted-Moved seq e g st h pos =
      elim (Bool-cases (ltb (e.seq.processed + g) (length e.seq.tokens))) [
        | inl more ↦ rw more (
            prefill_chunk-Moved seq e (e.seq.processed + g) _
              (inl (st, e.seq.slot, _, e.seq.processed, refl)) h (ground arith) (ground arith))
        | inr last ↦
            rw last (prefill_final-Moved seq e _ (inl (st, e.seq.slot, _, e.seq.processed, refl)) h)
      ]

  prefill_claimed-Prefilled :
      (seq : ActiveSeq X) (e : Entry X) (st : State) (budget : PrefillBudget) (wanted : ℕ)
      (claim : PrefillBudget × Option ℕ)
      → is_bounded budget ≡ bounded
      → e.work ≡ prompt
      → 1 < length seq.tokens - seq.processed
      → 0 < wanted
      → IsReady max_context_len seq e
      → Granted budget wanted claim
      → let out = prefill_claimed M stop_ids st claim e in
        Prefilled stop_ids max_context_len bounded (Fault M) seq out.2
        × (is_bounded out.1 ≡ bounded)
  unfolding prefill_claimed
  prefill_claimed-Prefilled seq e st budget wanted (rest, none) b w many pos h
        (nothing limited spent q) =
      (moved (λ r f. cc) (defers (sym b ∙ limited) many h.same h.waiting), cc)
  prefill_claimed-Prefilled seq e st budget wanted (rest, some zero) b w many pos h
        (nothing limited spent q) =
      cc
  prefill_claimed-Prefilled seq e st budget wanted (rest, some (suc g)) b w many pos h
        (nothing limited spent q) =
      cc
  prefill_claimed-Prefilled seq e st budget wanted (rest, none) b w many pos h
        (grants k rest' le up same spent q) =
      cc
  prefill_claimed-Prefilled seq e st budget wanted (rest, some zero) b w many pos h
        (grants k rest' le up same spent q) =
      absurd (ground (arith, up pos))
  prefill_claimed-Prefilled seq e st budget wanted (rest, some (suc g)) b w many pos h
        (grants k rest' le up same spent q) =
      let (m, kept) = prefill_granted-Moved seq e (suc g) st h (omega arith) in
      (moved (λ r f. cc) m, cc)

  prefill_one-Prefilled :
      (seq : ActiveSeq X) (e : Entry X) (st : State) (budget : PrefillBudget)
      → is_bounded budget ≡ bounded
      → e.work ≡ prompt
      → 1 < length seq.tokens - seq.processed
      → IsReady max_context_len seq e
      → let out = prefill_one M stop_ids chunk_size st budget e in
        Prefilled stop_ids max_context_len bounded (Fault M) seq out.2
        × (is_bounded out.1 ≡ bounded)
  unfolding prefill_one
  prefill_one-Prefilled seq e st budget b w many h =
      prefill_claimed-Prefilled seq e st budget (wanted_width chunk_size e.seq) _ b w many
        (wanted_pos chunk_size e.seq (ground arith)).0 h
        (admit_prefill-Granted budget (wanted_width chunk_size e.seq))

  prefill_work-Prefilled :
      (seq : ActiveSeq X) (e : Entry X) (w : Work) (st : State) (budget : PrefillBudget)
      → e.work ≡ w
      → is_bounded budget ≡ bounded
      → Stage stop_ids max_context_len bounded (Fault M) seq e
      → let out = prefill_entry M stop_ids chunk_size w st budget e in
        Prefilled stop_ids max_context_len bounded (Fault M) seq out.2
        × (is_bounded out.1 ≡ bounded)
  unfolding prefill_entry
  prefill_work-Prefilled seq e prompt st budget q b (asks_prefill w many h) =
      prefill_one-Prefilled seq e st budget b w many h
  prefill_work-Prefilled seq e prompt st budget q b (asks_decode r w h) = cc
  prefill_work-Prefilled seq e prompt st budget q b (settled norow noprompt m) = absurd (noprompt q)
  prefill_work-Prefilled seq e (row r) st budget q b (asks_prefill w many h) = cc
  prefill_work-Prefilled seq e (row r) st budget q b (asks_decode r' w h) = (waits r q h, b)
  prefill_work-Prefilled seq e (row r) st budget q b (settled norow noprompt m) = absurd (norow r q)
  prefill_work-Prefilled seq e idle st budget q b (asks_prefill w many h) = cc
  prefill_work-Prefilled seq e idle st budget q b (asks_decode r' w h) = cc
  prefill_work-Prefilled seq e idle st budget q b (settled norow noprompt m) = (moved norow m, b)

  -- The pass takes every sequence from one stage to the next.
  pub prefill_pass-Prefilled :
      (seqs : List (ActiveSeq X)) (entries : List (Entry X)) (st : State) (budget : PrefillBudget)
      → is_bounded budget ≡ bounded
      → Each (Stage stop_ids max_context_len bounded (Fault M)) seqs entries
      → Each
          (Prefilled stop_ids max_context_len bounded (Fault M))
          seqs
          (prefill_pass M stop_ids chunk_size st budget entries).2
  unfolding prefill_pass
  prefill_pass-Prefilled [] [] st budget b h = tt
  prefill_pass-Prefilled [] (e ∷ entries) st budget b h = absurd h
  prefill_pass-Prefilled (seq ∷ seqs) [] st budget b h = absurd h
  prefill_pass-Prefilled (seq ∷ seqs) (e ∷ entries) st budget b (h, rest) =
      let (p, b') = prefill_work-Prefilled seq e e.work st budget refl b h in
      (p, prefill_pass-Prefilled seqs entries _ _ b' rest)
