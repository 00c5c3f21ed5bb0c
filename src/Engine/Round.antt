-- ===== src/Engine/Round.antt =====
-- `PrefillBudget::for_round` and `step_round` of batching.rs.
mod Tests
pub mod Moves
pub mod Faults
pub mod Prefill
pub mod Decode
use burn_lm.Prelude.{
  ℕ, zero, suc, Option, ◌+◌, ◌-◌, Bool, true, false, not, ◌&&◌, ◌||◌, List, [], ◌∷◌, ◌++◌, none,
  some, ltb, ◌==◌, if◌then◌else◌, length, take, drop, min,
}
use burn_lm.Pool.{ok, err}
use burn_lm.Engine.Budget.{PrefillBudget, admit_prefill}
use burn_lm.Engine.{
  no_token_for_prefill, wrong_number_of_ids, wrong_number_of_rows, InferenceError, InferenceResult,
  batch_contract_violation, and_then, Model, ActiveSeq, DecodeRow, prefilling, failed, Work, idle,
  prompt, row, Entry, classify, advance_or_fail,
}

-- The row of a sequence that decodes.
pub rows_of : Work → List DecodeRow
rows_of (row r) = r ∷ []
rows_of prompt = []
rows_of idle = []

module _ {X : Type 0} where
  -- It has been through the decoder, and owes exactly one new token.
  pub is_decoding : ActiveSeq X → Bool
  is_decoding seq =
      not seq.finished
      && ltb seq.generated seq.max_gen
      && ltb 0 seq.processed
      && length seq.tokens == seq.processed + 1

  pub any_decoding : List (ActiveSeq X) → Bool
  any_decoding [] = false
  any_decoding (seq ∷ active) = is_decoding seq || any_decoding active

  unfoldable pub for_round : List (ActiveSeq X) → ℕ → PrefillBudget
  for_round active token_budget =
      if any_decoding active && ltb 0 token_budget then some token_budget else none

  pub classify_all : ℕ → List (ActiveSeq X) → List (Entry X)
  classify_all max_context_len [] = []
  classify_all max_context_len (seq ∷ active) =
      classify max_context_len seq ∷ classify_all max_context_len active

  pub wanted_width : ℕ → ActiveSeq X → ℕ
  wanted_width chunk_size seq =
      let tail = length seq.tokens - seq.processed in
      if chunk_size == 0 then tail else min chunk_size tail

  -- The decode rows of the round, in order.
  pub decode_rows : List (Entry X) → List DecodeRow
  unfolding rows_of
  decode_rows [] = []
  decode_rows (e ∷ entries) = rows_of e.work ++ decode_rows entries

  -- Each sampled id goes back to its row, in order: the entry after, and the ids left.
  pub take_id : List ℕ → Work → List ℕ → Entry X → Entry X × List ℕ
  take_id stop_ids (row r) (id ∷ ids) e = (advance_or_fail stop_ids (ok id) e, ids)
  take_id stop_ids (row r) [] e = (e, [])
  take_id stop_ids prompt ids e = (e, ids)
  take_id stop_ids idle ids e = (e, ids)

  pub fan_out : List ℕ → List ℕ → List (Entry X) → List (Entry X)
  unfolding take_id
  fan_out stop_ids ids [] = []
  fan_out stop_ids ids (e ∷ entries) =
      let (e', ids') = take_id stop_ids e.work ids e in e' ∷ fan_out stop_ids ids' entries

  -- A fused decode fails for every row of it.
  pub fail_row : List ℕ → InferenceError → Work → Entry X → Entry X
  fail_row stop_ids error (row r) e = advance_or_fail stop_ids (err error) e
  fail_row stop_ids error prompt e = e
  fail_row stop_ids error idle e = e

  pub fail_rows : List ℕ → InferenceError → List (Entry X) → List (Entry X)
  unfolding fail_row
  fail_rows stop_ids error [] = []
  fail_rows stop_ids error (e ∷ entries) =
      fail_row stop_ids error e.work e ∷ fail_rows stop_ids error entries

  pub deliver : List ℕ → ℕ → InferenceResult (List ℕ) → List (Entry X) → List (Entry X)
  unfolding fan_out fail_rows
  deliver stop_ids n (err error) entries = fail_rows stop_ids error entries
  deliver stop_ids n (ok ids) entries =
      if length ids == n
      then fan_out stop_ids ids entries
      else fail_rows stop_ids (batch_contract_violation (wrong_number_of_ids n)) entries

pub first_id : List ℕ → InferenceResult ℕ
first_id [] = err (batch_contract_violation no_token_for_prefill)
first_id (id ∷ ids) = ok id

module _ (M : Model) where
  open M use {State, Logits, rows, vocab, prefill, decode, max_context_len, sample}

  pub expect_rows : Logits → ℕ → InferenceResult Logits
  expect_rows logits in_rows =
      if rows logits == in_rows
      then ok logits
      else err
          (batch_contract_violation (wrong_number_of_rows (rows logits) (vocab logits) in_rows))

  -- `logits.and_then(|l| expect_rows(l, n)).and_then(|l| sample(l))`
  pub sample_checked : ℕ → State × InferenceResult Logits → State × InferenceResult (List ℕ)
  unfolding expect_rows
  sample_checked n (st, logits) = elim (and_then logits (λ l. expect_rows l n)) [
    | ok l ↦ sample st l
    | err e ↦ (st, err e)
  ]

  module _ {X : Type 0} where
    pub prefill_final : List ℕ → State × InferenceResult Logits → Entry X → State × Entry X
    unfolding sample_checked first_id
    prefill_final stop_ids forward entry =
        let (st, ids) = sample_checked 1 forward in
        (st, advance_or_fail stop_ids (and_then ids first_id) entry)

    pub prefill_chunk : ℕ → State × InferenceResult Logits → Entry X → State × Entry X
    prefill_chunk chunk_end (st, ok logits) entry = (
      st,
      record entry { seq = record (entry.seq) { processed = chunk_end }; outcome = prefilling },
    )
    prefill_chunk chunk_end (st, err e) entry =
        (st, record entry { seq = record (entry.seq) { finished = true }; outcome = failed e })

    -- A grant of `granted` tokens: the forward over them, and what becomes of the sequence.
    pub prefill_granted : List ℕ → ℕ → State → Entry X → State × Entry X
    unfolding prefill_final prefill_chunk
    prefill_granted stop_ids granted st entry =
        let seq = entry.seq in
        let chunk_end = seq.processed + granted in
        let slice = take granted (drop seq.processed seq.tokens) in
        let forward = prefill st seq.slot slice seq.processed in
        if ltb chunk_end (length seq.tokens)
        then prefill_chunk chunk_end forward entry
        else prefill_final stop_ids forward entry

    -- A prompt that the budget cannot cover is deferred, untouched.
    pub prefill_claimed :
        List ℕ → State → PrefillBudget × Option ℕ → Entry X → State × PrefillBudget × Entry X
    unfolding prefill_granted
    prefill_claimed stop_ids st (budget, none) entry = (st, budget, entry)
    prefill_claimed stop_ids st (budget, some zero) entry = (st, budget, entry)
    prefill_claimed stop_ids st (budget, some (suc g)) entry =
        let (st', entry') = prefill_granted stop_ids (suc g) st entry in (st', budget, entry')

    pub prefill_one : List ℕ → ℕ → State → PrefillBudget → Entry X → State × PrefillBudget × Entry X
    unfolding prefill_claimed wanted_width
    prefill_one stop_ids chunk_size st budget entry =
        prefill_claimed stop_ids st (admit_prefill budget (wanted_width chunk_size entry.seq)) entry

    pub prefill_entry :
        List ℕ → ℕ → Work → State → PrefillBudget → Entry X → State × PrefillBudget × Entry X
    unfolding prefill_one
    prefill_entry stop_ids chunk_size prompt st budget entry =
        prefill_one stop_ids chunk_size st budget entry
    prefill_entry stop_ids chunk_size idle st budget entry = (st, budget, entry)
    prefill_entry stop_ids chunk_size (row r) st budget entry = (st, budget, entry)

    pub prefill_pass :
        List ℕ → ℕ → State → PrefillBudget → List (Entry X) → State × PrefillBudget × List (Entry X)
    unfolding prefill_entry
    prefill_pass stop_ids chunk_size st budget [] = (st, budget, [])
    prefill_pass stop_ids chunk_size st budget (e ∷ entries) =
        let (st', budget', e') = prefill_entry stop_ids chunk_size e.work st budget e in
        let (st'', budget'', entries') = prefill_pass stop_ids chunk_size st' budget' entries in
        (st'', budget'', e' ∷ entries')

    pub decode_with : List ℕ → State → List DecodeRow → List (Entry X) → State × List (Entry X)
    unfolding sample_checked deliver
    decode_with stop_ids st [] entries = (st, entries)
    decode_with stop_ids st (r ∷ rs) entries =
        let (st', ids) = sample_checked (length (r ∷ rs)) (decode st (r ∷ rs)) in
        (st', deliver stop_ids (length (r ∷ rs)) ids entries)

    pub decode_pass : List ℕ → State → List (Entry X) → State × List (Entry X)
    unfolding decode_with decode_rows
    decode_pass stop_ids st entries = decode_with stop_ids st (decode_rows entries) entries

    unfoldable pub step_round :
        State
        → List (ActiveSeq X)
        → List ℕ
        → PrefillBudget
        → ℕ
        → State × PrefillBudget × List (Entry X)
    unfolding classify_all prefill_pass decode_pass
    step_round st active stop_ids budget chunk_size =
        let (st', budget', entries) =
          prefill_pass stop_ids chunk_size st budget (classify_all (max_context_len st) active) in
        let (st'', entries') = decode_pass stop_ids st' entries in (st'', budget', entries')
