-- ===== src/Engine/Round/Decode.antt =====
-- The decode pass of `step_round`, and the round as a whole.
use burn_lm.Prelude.{
  ℕ, ◌+◌, ◌≡◌, refl, sym, ap, subst, ◌∙◌, Bool, inl, inr, List, [], ◌∷◌, arith, ◌==◌, ==_iff,
  length, length-append, Each, Bool-cases,
}
use burn_lm.Pool.{ok, err}
use burn_lm.Engine.Budget.{PrefillBudget}
use burn_lm.Engine.{
  InferenceError, InferenceResult, Model, ActiveSeq, DecodeRow, Work, idle, prompt, row, Entry,
}
use burn_lm.Engine.Round.{
  classify_all, rows_of, decode_rows, take_id, fan_out, fail_row, fail_rows, deliver, decode_with,
  decode_pass, step_round,
}
use burn_lm.Engine.Round.Faults.{Fault, Sound, ids_differ, sample_checked-Sound}
use burn_lm.Engine.Round.Moves.{is_bounded, Moved, Stage, advance-Moved, classify-Stage}
use burn_lm.Engine.Round.Prefill.{Prefilled, moved, waits, prefill_pass-Prefilled}

module _ {X : Type 0} (stop_ids : List ℕ) (max_context_len : ℕ) (bounded : Bool) (M : Model) where
  abbrev Move : ActiveSeq X → Entry X → Type 0
  Move = Moved stop_ids max_context_len bounded (Fault M)

  abbrev IsPrefilled : ActiveSeq X → Entry X → Type 0
  IsPrefilled = Prefilled stop_ids max_context_len bounded (Fault M)

  fail_row-Moved :
      (error : InferenceError) (seq : ActiveSeq X) (e : Entry X) (w : Work)
      → Fault M error
      → e.work ≡ w
      → IsPrefilled seq e
      → Move seq (fail_row stop_ids error w e)
  unfolding fail_row
  fail_row-Moved error seq e (row r) fault q (waits r' w h) =
      advance-Moved stop_ids max_context_len bounded (Fault M) seq e (err error) h
        (λ x q. let same : error ≡ x = cc in subst (Fault M) same fault)
  fail_row-Moved error seq e (row r) fault q (moved norow m) = absurd (norow r q)
  fail_row-Moved error seq e prompt fault q (waits r' w h) = cc
  fail_row-Moved error seq e prompt fault q (moved norow m) = m
  fail_row-Moved error seq e idle fault q (waits r' w h) = cc
  fail_row-Moved error seq e idle fault q (moved norow m) = m

  fail_rows-Moved :
      (error : InferenceError) (seqs : List (ActiveSeq X)) (entries : List (Entry X))
      → Fault M error
      → Each IsPrefilled seqs entries
      → Each Move seqs (fail_rows stop_ids error entries)
  unfolding fail_rows
  fail_rows-Moved error [] [] fault h = tt
  fail_rows-Moved error [] (e ∷ entries) fault h = absurd h
  fail_rows-Moved error (seq ∷ seqs) [] fault h = absurd h
  fail_rows-Moved error (seq ∷ seqs) (e ∷ entries) fault (h, rest) = (
    fail_row-Moved error seq e e.work fault refl h,
    fail_rows-Moved error seqs entries fault rest,
  )

  take_id-Moved :
      (ids : List ℕ) (seq : ActiveSeq X) (e : Entry X) (w : Work) (n : ℕ)
      → e.work ≡ w
      → IsPrefilled seq e
      → length ids ≡ length (rows_of w) + n
      → let out = take_id stop_ids w ids e in Move seq out.0 × (length out.1 ≡ n)
  unfolding take_id rows_of
  take_id-Moved (id ∷ ids) seq e (row r) n q (waits r' w h) l = (
    advance-Moved stop_ids max_context_len bounded (Fault M) seq e (ok id) h (λ x q. cc),
    omega arith,
  )
  take_id-Moved [] seq e (row r) n q p l = absurd (omega arith)
  take_id-Moved (id ∷ ids) seq e (row r) n q (moved norow m) l = absurd (norow r q)
  take_id-Moved ids seq e prompt n q (waits r' w h) l = cc
  take_id-Moved ids seq e prompt n q (moved norow m) l = (m, omega arith)
  take_id-Moved ids seq e idle n q (waits r' w h) l = cc
  take_id-Moved ids seq e idle n q (moved norow m) l = (m, omega arith)

  fan_out-Moved :
      (seqs : List (ActiveSeq X)) (entries : List (Entry X)) (ids : List ℕ)
      → length ids ≡ length (decode_rows entries)
      → Each IsPrefilled seqs entries
      → Each Move seqs (fan_out stop_ids ids entries)
  unfolding fan_out decode_rows
  fan_out-Moved [] [] ids l h = tt
  fan_out-Moved [] (e ∷ entries) ids l h = absurd h
  fan_out-Moved (seq ∷ seqs) [] ids l h = absurd h
  fan_out-Moved (seq ∷ seqs) (e ∷ entries) ids l (h, rest) =
      let (m, l') =
        take_id-Moved ids seq e e.work (length (decode_rows entries)) refl h
          (l ∙ length-append (rows_of e.work) (decode_rows entries)) in
      (m, fan_out-Moved seqs entries _ l' rest)

  deliver-Moved :
      (ids : InferenceResult (List ℕ)) (seqs : List (ActiveSeq X)) (entries : List (Entry X))
      → Sound M ids
      → Each IsPrefilled seqs entries
      → Each Move seqs (deliver stop_ids (length (decode_rows entries)) ids entries)
  unfolding deliver
  deliver-Moved (err error) seqs entries s h = fail_rows-Moved error seqs entries s h
  deliver-Moved (ok ids) seqs entries s h =
      elim (Bool-cases (length ids == length (decode_rows entries))) [
        | inl fits ↦ rw fits (fan_out-Moved seqs entries ids ((==_iff _ _).0 fits) h)
        | inr wrong ↦ rw wrong (fail_rows-Moved _ seqs entries (ids_differ ids _ s wrong) h)
      ]

  no_rows-Moved :
      (seqs : List (ActiveSeq X)) (entries : List (Entry X))
      → length (decode_rows entries) ≡ 0
      → Each IsPrefilled seqs entries
      → Each Move seqs entries
  unfolding decode_rows rows_of
  no_rows-Moved [] [] q h = tt
  no_rows-Moved [] (e ∷ entries) q h = absurd h
  no_rows-Moved (seq ∷ seqs) [] q h = absurd h
  no_rows-Moved (seq ∷ seqs) (e ∷ entries) q (moved norow m, rest) = (
    m,
    no_rows-Moved seqs entries
        (omega (arith, q, length-append (rows_of e.work) (decode_rows entries))) rest,
  )
  no_rows-Moved (seq ∷ seqs) (e ∷ entries) q (waits r w h, rest) = absurd (
      omega (
        arith,
        q,
        length-append (rows_of e.work) (decode_rows entries),
        ap {B = ℕ} (λ x. length (rows_of x)) w,
      ))

  classify_all-Stage :
      (seqs : List (ActiveSeq X))
      → Each
          (Stage stop_ids max_context_len bounded (Fault M))
          seqs
          (classify_all max_context_len seqs)
  unfolding classify_all
  classify_all-Stage [] = tt
  classify_all-Stage (seq ∷ seqs) =
      (classify-Stage stop_ids max_context_len bounded (Fault M) seq, classify_all-Stage seqs)

module _ (M : Model) {X : Type 0} (stop_ids : List ℕ) where
  open M use {State, max_context_len, decode}

  decode_with-Moved :
      (max_context_len : ℕ) (bounded : Bool) (st : State) (rs : List DecodeRow)
      (seqs : List (ActiveSeq X)) (entries : List (Entry X))
      → decode_rows entries ≡ rs
      → Each (Prefilled stop_ids max_context_len bounded (Fault M)) seqs entries
      → Each
          (Moved stop_ids max_context_len bounded (Fault M))
          seqs
          (decode_with M stop_ids st rs entries).1
  unfolding decode_with
  decode_with-Moved c b st [] seqs entries q h =
      no_rows-Moved stop_ids c b M seqs entries (ap {B = ℕ} length q) h
  decode_with-Moved c b st (r ∷ rs) seqs entries q h = rw (ap {B = ℕ} length (sym q)) (
      deliver-Moved stop_ids c b M _ seqs entries
        (sample_checked-Sound M (length (decode_rows entries)) (decode st (r ∷ rs)).0
          (decode st (r ∷ rs)).1 (inr (st, r ∷ rs, refl)))
        h)

  -- Whatever the decoder and the sampler return, the round has one outcome for each active sequence, in
  -- order, and the sequence makes the move that goes with it: a paused or finished one is left alone,
  -- and no other. One without work, or too long for the context, retires; a prompt is deferred only
  -- under a budget, or it advances by a chunk; a token is appended only below the cap and within the
  -- context; and only a sequence that was to take part in a forward is retired by a failure, whose
  -- error the decoder or the sampler returned, or which is a breach of their contract by what they
  -- returned.
  pub step_round-Moved :
      (st : State) (active : List (ActiveSeq X)) (budget : PrefillBudget) (chunk_size : ℕ)
      → Each
          (Moved stop_ids (max_context_len st) (is_bounded budget) (Fault M))
          active
          (step_round M st active stop_ids budget chunk_size).2
  unfolding step_round decode_pass
  step_round-Moved st active budget chunk_size =
      decode_with-Moved (max_context_len st) (is_bounded budget) _ _ active _ refl (
        prefill_pass-Prefilled M stop_ids (max_context_len st) (is_bounded budget) chunk_size active
          _ st budget refl
          (classify_all-Stage stop_ids (max_context_len st) (is_bounded budget) M active))
