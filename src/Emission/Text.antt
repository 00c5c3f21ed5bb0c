-- ===== src/Emission/Text.antt =====
-- What a caller is sent, and what is not sent to it.
use burn_lm.Prelude.{
  ℕ, ◌≡◌, ◌⊎◌, inl, inr, refl, ap, ◌∙◌, false, List, [], ◌∷◌, ◌++◌, Option, none, some, ◌==◌,
  Bool-cases, if◌then◌else◌,
}
use burn_lm.Pool.{err}
use burn_lm.Engine.{InferenceResult, worker_died}
use burn_lm.Worker.{Stats, EmissionEvent, admitted, tokens, retire}
use burn_lm.Utf8.{push, finish}
use burn_lm.Emission.{
  Delivery, Output, text, completed, Live, text_out, deliver, finish_with, remove, lookup,
  deliver_to, deliver_batch, answer, handle, answer_died, run,
}

-- What `c` is sent, in order.
abbrev pub mine : ℕ → List Output → List Output
mine c [] = []
mine c (text d s ∷ outs) = if d == c then text d s ∷ mine c outs else mine c outs
mine c (completed d r ∷ outs) = if d == c then completed d r ∷ mine c outs else mine c outs

-- How a request ends: as the worker retires it, or with the worker.
abbrev pub result_of : ℕ → List EmissionEvent → InferenceResult Stats
result_of id [] = err worker_died
result_of id (admitted i c ∷ events) = result_of id events
result_of id (tokens batch ∷ events) = result_of id events
result_of id (retire i r ∷ events) = if i == id then r else result_of id events

-- The bytes of a request in a batch, chunk by chunk, and up to its retirement.
abbrev pub batch_chunks : ℕ → List (ℕ × List ℕ) → List (List ℕ)
batch_chunks id [] = []
batch_chunks id (item ∷ batch) =
    if item.0 == id then item.1 ∷ batch_chunks id batch else batch_chunks id batch

abbrev pub chunks_of : ℕ → List EmissionEvent → List (List ℕ)
chunks_of id [] = []
chunks_of id (admitted i c ∷ events) = chunks_of id events
chunks_of id (tokens batch ∷ events) = batch_chunks id batch ++ chunks_of id events
chunks_of id (retire i r ∷ events) = if i == id then [] else chunks_of id events

-- Neither the id nor the completion is handed over again.
abbrev pub IsLast : ℕ → ℕ → List EmissionEvent → Type 0
IsLast id c [] = Unit
IsLast id c (admitted i d ∷ events) = ((i == id) ≡ false) × ((d == c) ≡ false) × IsLast id c events
IsLast id c (tokens batch ∷ events) = IsLast id c events
IsLast id c (retire i r ∷ events) = IsLast id c events

module _ (id c : ℕ) where
  -- The entry of another request.
  abbrev pub IsOther : ℕ × Delivery → Type 0
  IsOther entry = ((entry.0 == id) ≡ false) × ((entry.1.completion == c) ≡ false)

  abbrev pub AllOther : Live → Type 0
  AllOther [] = Unit
  AllOther (entry ∷ live) = IsOther entry × AllOther live

  -- The request is live, once, and holds `pending` back.
  abbrev pub Owns : List ℕ → Live → Type 0
  Owns pending [] = ⊥
  Owns pending (entry ∷ live) =
      ((entry ≡ (id, record { detok = pending; completion = c })) × AllOther live)
      ⊎ (IsOther entry × Owns pending live)

  pub mine-append : (xs ys : List Output) → mine c (xs ++ ys) ≡ mine c xs ++ mine c ys
  mine-append [] ys = refl
  mine-append (completed d r ∷ xs) ys = elim (Bool-cases (d == c)) [
    | inl self ↦ rw self (ap (◌∷◌ (completed d r)) (mine-append xs ys))
    | inr other ↦ rw other (mine-append xs ys)
  ]
  mine-append (text d s ∷ xs) ys = elim (Bool-cases (d == c)) [
    | inl self ↦ rw self (ap (◌∷◌ (text d s)) (mine-append xs ys))
    | inr other ↦ rw other (mine-append xs ys)
  ]

  -- Nothing of what others are sent.
  mine-other : (xs ys : List Output) → mine c xs ≡ [] → mine c ys ≡ [] → mine c (xs ++ ys) ≡ []
  mine-other xs ys p q = mine-append xs ys ∙ ap (λ x. x ++ mine c ys) p ∙ q

  pub mine-text_out : (d : ℕ) (s : Option (List ℕ)) → (d == c) ≡ false → mine c (text_out d s) ≡ []
  unfolding text_out
  mine-text_out d none h = refl
  mine-text_out d (some s) h = rw h refl

  pub mine-finish_with :
      (d : Delivery) (r : InferenceResult Stats)
      → (d.completion == c) ≡ false
      → mine c (finish_with d r) ≡ []
  unfolding finish_with
  mine-finish_with d r h =
      mine-other (text_out d.completion (finish d.detok)) (completed d.completion r ∷ [])
        (mine-text_out d.completion (finish d.detok) h) (rw h refl)

  pub deliver_to-AllOther :
      (i : ℕ) (bytes : List ℕ) (live : Live)
      → AllOther live
      → let out = deliver_to i bytes live in AllOther out.0 × (mine c out.1 ≡ [])
  unfolding deliver_to deliver
  deliver_to-AllOther i bytes [] h = (tt, refl)
  deliver_to-AllOther i bytes (entry ∷ live) (h, rest) = elim (Bool-cases (entry.0 == i)) [
    | inl here ↦
        rw here ((h, rest), mine-text_out entry.1.completion (push entry.1.detok bytes).0 h.1)
    | inr there ↦
        let (rest', quiet) = deliver_to-AllOther i bytes live rest in rw there ((h, rest'), quiet)
  ]

  pub remove-AllOther : (i : ℕ) (live : Live) → AllOther live → AllOther (remove i live)
  unfolding remove
  remove-AllOther i [] h = tt
  remove-AllOther i (entry ∷ live) (h, rest) = elim (Bool-cases (entry.0 == i)) [
    | inl here ↦ rw here (remove-AllOther i live rest)
    | inr there ↦ rw there (h, remove-AllOther i live rest)
  ]

  pub lookup-AllOther :
      (i : ℕ) (live : Live) (r : InferenceResult Stats)
      → AllOther live
      → mine c (answer (lookup i live) r) ≡ []
  unfolding lookup answer
  lookup-AllOther i [] r h = refl
  lookup-AllOther i (entry ∷ live) r (h, rest) = elim (Bool-cases (entry.0 == i)) [
    | inl here ↦ rw here (mine-finish_with entry.1 r h.1)
    | inr there ↦ rw there (lookup-AllOther i live r rest)
  ]

  pub deliver_batch-AllOther :
      (batch : List (ℕ × List ℕ)) (live : Live)
      → AllOther live
      → let out = deliver_batch batch live in AllOther out.0 × (mine c out.1 ≡ [])
  unfolding deliver_batch
  deliver_batch-AllOther [] live h = (h, refl)
  deliver_batch-AllOther (item ∷ batch) live h =
      let (h', quiet) = deliver_to-AllOther item.0 item.1 live h in
      let (h'', quiet') = deliver_batch-AllOther batch (deliver_to item.0 item.1 live).0 h' in
      (h'', mine-other (deliver_to item.0 item.1 live).1 _ quiet quiet')

  pub answer_died-AllOther : (live : Live) → AllOther live → mine c (answer_died live) ≡ []
  unfolding answer_died
  answer_died-AllOther [] h = refl
  answer_died-AllOther (entry ∷ live) (h, rest) =
      mine-other (finish_with entry.1 (err worker_died)) (answer_died live)
        (mine-finish_with entry.1 (err worker_died) h.1) (answer_died-AllOther live rest)

  -- A request that is not live, and is not admitted again, is sent nothing.
  pub run-AllOther :
      (events : List EmissionEvent) (live : Live)
      → IsLast id c events
      → AllOther live
      → mine c (run events live) ≡ []
  unfolding run handle
  run-AllOther [] live l h = answer_died-AllOther live h
  run-AllOther (admitted i d ∷ events) live (new_id, new_completion, l) h =
      run-AllOther events _ l ((new_id, new_completion), remove-AllOther i live h)
  run-AllOther (tokens batch ∷ events) live l h =
      let (h', quiet) = deliver_batch-AllOther batch live h in
      mine-other (deliver_batch batch live).1 _ quiet (run-AllOther events _ l h')
  run-AllOther (retire i r ∷ events) live l h =
      mine-other (answer (lookup i live) r) _ (lookup-AllOther i live r h)
        (run-AllOther events (remove i live) l (remove-AllOther i live h))
