-- ===== src/Emission/Told.antt =====
-- The text that a caller is told, and how it ends.
use burn_lm.Prelude.{
  ℕ, ◌≡◌, inl, inr, refl, sym, ap, ◌∙◌, subst, false, List, [], ◌∷◌, ◌++◌, Option, none, some,
  arith, ◌==◌, ==_iff, Bool-cases, concat, concat-append, append_assoc, append-nil, map,
}
use burn_lm.Pool.{err}
use burn_lm.Engine.{InferenceResult, worker_died}
use burn_lm.Worker.{Stats, EmissionEvent, admitted, tokens, retire}
use burn_lm.Utf8.{push, finish}
use burn_lm.Utf8.Chunks.{push_chunks, push_chunks-append, text_in}
use burn_lm.Utf8.Whole.{finish-push_chunks}
use burn_lm.Emission.{
  Delivery, Output, text, completed, Live, text_out, deliver, finish_with, remove, lookup,
  deliver_to, deliver_batch, answer, handle, answer_died, run,
}
use burn_lm.Emission.Text.{
  mine, result_of, batch_chunks, chunks_of, IsLast, AllOther, Owns, mine-append, mine-text_out,
  deliver_to-AllOther, remove-AllOther, run-AllOther, answer_died-AllOther, mine-finish_with,
  lookup-AllOther,
}

-- Outputs to `c` that are texts, together `said`.
abbrev pub Tells : ℕ → List Output → List ℕ → Type 0
Tells c outs said = (texts : List (List ℕ)) × (outs ≡ map (text c) texts) × (concat texts ≡ said)

map-append : {A B : Type 0} (f : A → B) (xs ys : List A) → map f (xs ++ ys) ≡ map f xs ++ map f ys
map-append f [] ys = refl
map-append f (x ∷ xs) ys = ap (◌∷◌ (f x)) (map-append f xs ys)

Tells-append :
    (c : ℕ) (xs ys : List Output) (s t : List ℕ)
    → Tells c xs s
    → Tells c ys t
    → Tells c (xs ++ ys) (s ++ t)
Tells-append c xs ys s t (texts, q, e) (texts', q', e') = (
  texts ++ texts',
  rw (q, q') (sym (map-append (text c) texts texts')),
  concat-append texts texts' ∙ rw (e, e') refl,
)

module _ (id c : ℕ) where
  Tells-text_out : (s : Option (List ℕ)) → Tells c (mine c (text_out c s)) (text_in s)
  unfolding text_out
  Tells-text_out none = ([], refl, refl)
  Tells-text_out (some s) = (s ∷ [], rw ((==_iff c c).1 refl) refl, append-nil s)

  -- A chunk for another request, and for this one.
  deliver_to-other :
      (i : ℕ) (bytes pending : List ℕ) (live : Live)
      → (i == id) ≡ false
      → Owns id c pending live
      → let out = deliver_to i bytes live in Owns id c pending out.0 × (mine c out.1 ≡ [])
  unfolding deliver_to deliver
  deliver_to-other i bytes pending [] ne h = absurd h
  deliver_to-other i bytes pending (entry ∷ live) ne (inl (q, rest)) =
      let ne' : (id == i) ≡ false = ground arith in
      subst
        (λ (e : ℕ × Delivery).
          let out = deliver_to i bytes (e ∷ live) in Owns id c pending out.0 × (mine c out.1 ≡ []))
        (sym q)
        (let (others, quiet) = deliver_to-AllOther id c i bytes live rest in
          rw ne' (inl (refl, others), quiet))
  deliver_to-other i bytes pending (entry ∷ live) ne (inr (h, rest)) =
      elim (Bool-cases (entry.0 == i)) [
        | inl here ↦
            rw here (
              inr (h, rest),
              mine-text_out id c entry.1.completion (push entry.1.detok bytes).0 h.1,
            )
        | inr there ↦
            let (rest', quiet) = deliver_to-other i bytes pending live ne rest in
            rw there (inr (h, rest'), quiet)
      ]

  deliver_to_self :
      (bytes pending : List ℕ) (live : Live)
      → Owns id c pending live
      → let out = deliver_to id bytes live in
        Owns id c (push pending bytes).1 out.0
        × (mine c out.1 ≡ mine c (text_out c (push pending bytes).0))
  unfolding deliver_to deliver
  deliver_to_self bytes pending [] h = absurd h
  deliver_to_self bytes pending (entry ∷ live) (inl (q, rest)) =
      subst
        (λ (e : ℕ × Delivery).
          let out = deliver_to id bytes (e ∷ live) in
          Owns id c (push pending bytes).1 out.0
          × (mine c out.1 ≡ mine c (text_out c (push pending bytes).0)))
        (sym q) (rw ((==_iff id id).1 refl) (inl (refl, rest), refl))
  deliver_to_self bytes pending (entry ∷ live) (inr (h, rest)) =
      let (rest', said) = deliver_to_self bytes pending live rest in rw (h.0) (inr (h, rest'), said)

  -- A request whose chunks have been pushed, and what its caller was told.
  abbrev Pushed : List ℕ → List (List ℕ) → Live × List Output → Type 0
  Pushed pending chunks out =
      Owns id c (push_chunks pending chunks).1 out.0
      × Tells c (mine c out.1) (push_chunks pending chunks).0

  Pushed-quiet :
      (pending : List ℕ) (chunks : List (List ℕ)) (outs : List Output) (out : Live × List Output)
      → mine c outs ≡ []
      → Pushed pending chunks out
      → Pushed pending chunks (out.0, outs ++ out.1)
  Pushed-quiet pending chunks outs out quiet (h, said) = (
    h,
    subst (λ x. Tells c x (push_chunks pending chunks).0)
        (sym (mine-append id c outs out.1 ∙ ap (λ x. x ++ mine c out.1) quiet)) said,
  )

  deliver_batch-Pushed :
      (pending : List ℕ) (batch : List (ℕ × List ℕ)) (live : Live)
      → Owns id c pending live
      → Pushed pending (batch_chunks id batch) (deliver_batch batch live)
  unfolding deliver_batch push_chunks
  deliver_batch-Pushed pending [] live h = (h, ([], refl, refl))
  deliver_batch-Pushed pending (item ∷ batch) live h = elim (Bool-cases (item.0 == id)) [
    | inl self ↦
        let same : item.0 ≡ id = (==_iff item.0 id).0 self in
        let (h', said) =
          subst
            (λ i.
              let out = deliver_to i item.1 live in
              Owns id c (push pending item.1).1 out.0
              × (mine c out.1 ≡ mine c (text_out c (push pending item.1).0)))
            (sym same) (deliver_to_self item.1 pending live h) in
        let first = deliver_to item.0 item.1 live in
        let later = deliver_batch batch first.0 in
        let (h'', said') = deliver_batch-Pushed (push pending item.1).1 batch first.0 h' in
        rw self (
          h'',
          subst
              (λ x. Tells c x (
                text_in (push pending item.1).0
                ++ (push_chunks (push pending item.1).1 (batch_chunks id batch)).0))
              (sym (mine-append id c first.1 later.1 ∙ ap (λ x. x ++ mine c later.1) said))
              (Tells-append c _ (mine c later.1) _ _ (Tells-text_out (push pending item.1).0)
                said'),
        )
    | inr other ↦
        let (h', quiet) = deliver_to-other item.0 item.1 pending live other h in
        let first = deliver_to item.0 item.1 live in
        rw other (
          Pushed-quiet pending (batch_chunks id batch) first.1 (deliver_batch batch first.0) quiet
            (deliver_batch-Pushed pending batch first.0 h'))
  ]

  -- Another id is removed or answered.
  remove-other :
      (i : ℕ) (pending : List ℕ) (live : Live)
      → (i == id) ≡ false
      → Owns id c pending live
      → Owns id c pending (remove i live)
  unfolding remove
  remove-other i pending [] ne h = absurd h
  remove-other i pending (entry ∷ live) ne (inl (q, rest)) =
      let ne' : (id == i) ≡ false = ground arith in
      subst (λ (e : ℕ × Delivery). Owns id c pending (remove i (e ∷ live))) (sym q)
        (rw ne' (inl (refl, remove-AllOther id c i live rest)))
  remove-other i pending (entry ∷ live) ne (inr (h, rest)) = elim (Bool-cases (entry.0 == i)) [
    | inl here ↦ rw here (remove-other i pending live ne rest)
    | inr there ↦ rw there (inr (h, remove-other i pending live ne rest))
  ]

  remove_self :
      (pending : List ℕ) (live : Live) → Owns id c pending live → AllOther id c (remove id live)
  unfolding remove
  remove_self pending [] h = absurd h
  remove_self pending (entry ∷ live) (inl (q, rest)) =
      subst (λ (e : ℕ × Delivery). AllOther id c (remove id (e ∷ live))) (sym q)
        (rw ((==_iff id id).1 refl) (remove-AllOther id c id live rest))
  remove_self pending (entry ∷ live) (inr (h, rest)) = rw (h.0) (h, remove_self pending live rest)

  lookup_self :
      (pending : List ℕ) (live : Live)
      → Owns id c pending live
      → lookup id live ≡ some (record { detok = pending; completion = c })
  unfolding lookup
  lookup_self pending [] h = absurd h
  lookup_self pending (entry ∷ live) (inl (q, rest)) =
      subst
        (λ (e : ℕ × Delivery).
          lookup id (e ∷ live) ≡ some (record { detok = pending; completion = c }))
        (sym q) (rw ((==_iff id id).1 refl) refl)
  lookup_self pending (entry ∷ live) (inr (h, rest)) = rw (h.0) (lookup_self pending live rest)

  lookup-other :
      (i : ℕ) (pending : List ℕ) (live : Live) (r : InferenceResult Stats)
      → (i == id) ≡ false
      → Owns id c pending live
      → mine c (answer (lookup i live) r) ≡ []
  unfolding lookup answer
  lookup-other i pending [] r ne h = absurd h
  lookup-other i pending (entry ∷ live) r ne (inl (q, rest)) =
      let ne' : (id == i) ≡ false = ground arith in
      subst (λ (e : ℕ × Delivery). mine c (answer (lookup i (e ∷ live)) r) ≡ []) (sym q)
        (rw ne' (lookup-AllOther id c i live r rest))
  lookup-other i pending (entry ∷ live) r ne (inr (h, rest)) = elim (Bool-cases (entry.0 == i)) [
    | inl here ↦ rw here (mine-finish_with id c entry.1 r h.1)
    | inr there ↦ rw there (lookup-other i pending live r ne rest)
  ]

  -- The outputs are texts, together `said`, and then one completion with `r`.
  abbrev pub Told : List Output → InferenceResult Stats → List ℕ → Type 0
  Told outs r said =
      (texts : List (List ℕ)) × (outs ≡ map (text c) texts ++ completed c r ∷ [])
      × (concat texts ≡ said)

  Told-after :
      (xs ys : List Output) (s t : List ℕ) (r : InferenceResult Stats)
      → Tells c xs s
      → Told ys r t
      → Told (xs ++ ys) r (s ++ t)
  Told-after xs ys s t r (texts, q, e) (texts', q', e') = (
    texts ++ texts',
    ap (λ z. z ++ ys) q
        ∙ ap (λ z. map (text c) texts ++ z) q'
        ∙ sym (append_assoc (map (text c) texts) (map (text c) texts') (completed c r ∷ []))
        ∙ ap (λ z. z ++ completed c r ∷ []) (sym (map-append (text c) texts texts')),
    concat-append texts texts' ∙ ap (λ z. z ++ concat texts') e ∙ ap (λ z. s ++ z) e',
  )

  finish_with-Told :
      (pending : List ℕ) (r : InferenceResult Stats)
      → Told
          (mine c (finish_with (record { detok = pending; completion = c }) r))
          r
          (text_in (finish pending))
  unfolding finish_with
  finish_with-Told pending r =
      let one : mine c (completed c r ∷ []) ≡ completed c r ∷ [] = rw ((==_iff c c).1 refl) refl in
      subst (λ x. Told x r (text_in (finish pending)))
        (sym (mine-append id c (text_out c (finish pending)) (completed c r ∷ [])))
        (subst (λ x. Told (mine c (text_out c (finish pending)) ++ mine c (completed c r ∷ [])) r x)
          (append-nil (text_in (finish pending)))
          (Told-after (mine c (text_out c (finish pending))) (mine c (completed c r ∷ []))
            (text_in (finish pending)) [] r (Tells-text_out (finish pending)) ([], one, refl)))

  -- A request that is live is answered once, after its text.
  answer_died_self :
      (pending : List ℕ) (live : Live)
      → Owns id c pending live
      → mine c (answer_died live)
        ≡ mine c (finish_with (record { detok = pending; completion = c }) (err worker_died))
  unfolding answer_died
  answer_died_self pending [] h = absurd h
  answer_died_self pending (entry ∷ live) (inl (q, rest)) =
      subst
        (λ (e : ℕ × Delivery).
          mine c (answer_died (e ∷ live))
          ≡ mine c (finish_with (record { detok = pending; completion = c }) (err worker_died)))
        (sym q)
        (mine-append id c
            (finish_with (record { detok = pending; completion = c }) (err worker_died))
            (answer_died live)
          ∙ ap
              (λ x.
                mine c (finish_with (record { detok = pending; completion = c }) (err worker_died))
                ++ x)
              (answer_died-AllOther id c live rest)
          ∙ append-nil
              (mine c (finish_with (record { detok = pending; completion = c }) (err worker_died))))
  answer_died_self pending (entry ∷ live) (inr (h, rest)) =
      mine-append id c (finish_with entry.1 (err worker_died)) (answer_died live)
      ∙ ap (λ x. x ++ mine c (answer_died live))
          (mine-finish_with id c entry.1 (err worker_died) h.1)
      ∙ answer_died_self pending live rest

  retire_self :
      (pending : List ℕ) (live : Live) (r : InferenceResult Stats) (events : List EmissionEvent)
      → IsLast id c events
      → Owns id c pending live
      → mine c (answer (lookup id live) r ++ run events (remove id live))
        ≡ mine c (finish_with (record { detok = pending; completion = c }) r)
  unfolding answer
  retire_self pending live r events l h =
      mine-append id c (answer (lookup id live) r) (run events (remove id live))
      ∙ ap (λ x. mine c (answer x r) ++ mine c (run events (remove id live)))
          (lookup_self pending live h)
      ∙ ap (λ x. mine c (finish_with (record { detok = pending; completion = c }) r) ++ x)
          (run-AllOther id c events (remove id live) l (remove_self pending live h))
      ∙ append-nil (mine c (finish_with (record { detok = pending; completion = c }) r))

  abbrev whole_text : List ℕ → List EmissionEvent → List ℕ
  whole_text pending events =
      let out = push_chunks pending (chunks_of id events) in out.0 ++ text_in (finish out.1)

  run-Told :
      (events : List EmissionEvent) (pending : List ℕ) (live : Live)
      → IsLast id c events
      → Owns id c pending live
      → Told (mine c (run events live)) (result_of id events) (whole_text pending events)
  unfolding run handle push_chunks answer
  run-Told [] pending live l h =
      subst (λ x. Told x (err worker_died) (text_in (finish pending)))
        (sym (answer_died_self pending live h)) (finish_with-Told pending (err worker_died))
  run-Told (admitted i d ∷ events) pending live (new_id, new_completion, l) h =
      run-Told events pending _ l
        (inr ((new_id, new_completion), remove-other i pending live new_id h))
  run-Told (tokens batch ∷ events) pending live l h =
      let (h', said) = deliver_batch-Pushed pending batch live h in
      let first = deliver_batch batch live in
      let mid = push_chunks pending (batch_chunks id batch) in
      let whole : mid.0 ++ whole_text mid.1 events ≡ whole_text pending (tokens batch ∷ events) =
        sym (append_assoc mid.0 _ _)
        ∙ ap (λ (out : List ℕ × List ℕ). out.0 ++ text_in (finish out.1))
            (sym (push_chunks-append pending (batch_chunks id batch) (chunks_of id events))) in
      subst (Told (mine c (first.1 ++ run events first.0)) (result_of id events)) whole (
        subst (λ x. Told x (result_of id events) (mid.0 ++ whole_text mid.1 events))
          (sym (mine-append id c first.1 (run events first.0)))
          (Told-after (mine c first.1) (mine c (run events first.0)) mid.0 (whole_text mid.1 events)
            (result_of id events) said (run-Told events mid.1 first.0 l h')))
  run-Told (retire i r ∷ events) pending live l h = elim (Bool-cases (i == id)) [
    | inl self ↦
        subst
          (λ j.
            Told (mine c (answer (lookup j live) r ++ run events (remove j live)))
              (result_of id (retire i r ∷ events)) (whole_text pending (retire i r ∷ events)))
          (sym ((==_iff i id).0 self))
          (subst
            (λ x.
              Told x (result_of id (retire i r ∷ events))
                (whole_text pending (retire i r ∷ events)))
            (sym (retire_self pending live r events l h))
            (rw (whole_text, self) (finish_with-Told pending r)))
    | inr other ↦
        subst
          (λ x.
            Told x (result_of id (retire i r ∷ events)) (whole_text pending (retire i r ∷ events)))
          (sym (
            mine-append id c (answer (lookup i live) r) (run events (remove i live))
            ∙ ap (λ x. x ++ mine c (run events (remove i live)))
                (lookup-other i pending live r other h)))
          (rw (whole_text, other)
            (run-Told events pending (remove i live) l (remove-other i pending live other h)))
  ]

-- From its admission on, a caller is sent texts and then exactly one completion, if its id and its
-- completion are not handed over again: the texts together are the lossy decoding of all bytes that
-- the worker sends for the id up to its retirement, whole or cut, and the completion is the first
-- retirement's, or the death of the worker.
pub run_admitted-Told :
    (id c : ℕ) (events : List EmissionEvent) (live : Live)
    → IsLast id c events
    → AllOther id c live
    → (texts : List (List ℕ)) × (mine c (run (admitted id c ∷ events) live)
        ≡ map (text c) texts ++ completed c (result_of id events) ∷ [])
      × (concat texts ≡ text_in (finish (concat (chunks_of id events))))
unfolding run handle
run_admitted-Told id c events live l h =
    let (texts, q, e) =
      run-Told id c events [] ((id, record { detok = []; completion = c }) ∷ remove id live) l
        (inl (refl, remove-AllOther id c id live h)) in
    (texts, q, e ∙ finish-push_chunks (chunks_of id events))
