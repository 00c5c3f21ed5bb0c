-- ===== src/Worker/Step/Kept.antt =====
-- What `step` keeps of an active set that fits.
use burn_lm.Prelude.{
  ℕ, ◌≤◌, ◌≡◌, ◌==◌, refl, ap, ◌∙◌, inl, inr, Bool, false, List, [], ◌∷◌, map, Option, some, Each,
  arith, mem, Bool-cases,
}
use burn_lm.Engine.{BatchCapacity}
use burn_lm.Engine.Round.{step_round, for_round}
use burn_lm.Engine.Round.Faults.{Fault}
use burn_lm.Engine.Round.Moves.{is_bounded}
use burn_lm.Engine.Round.Decode.{step_round-Moved}
use burn_lm.Worker.{JobSeq, Server, Turn, reserved_blocks}
use burn_lm.Worker.Slots.{slots}
use burn_lm.Worker.Fits.{Fits}
use burn_lm.Worker.Growth.{checked_grants, checked_grants_lem}
use burn_lm.Worker.Growth.Bounds.{grant_kv_growth-Fits}
use burn_lm.Worker.Admit.Attempts.{Result-cases}
use burn_lm.Worker.Step.{
  sweep_cancelled, note_stop, retire_finished, grow, deliver_round, run_round, step, unless_empty,
  release_each,
}
use burn_lm.Worker.Step.Frames.{Framed, Fits-Framed, sweep-Framed, round-Framed}

-- The retirement keeps a part of the sequences.
mem-retire_finished :
    (x : ℕ) (active : List JobSeq)
    → mem x (slots active) ≡ false
    → mem x (slots (retire_finished active).0) ≡ false
unfolding retire_finished
mem-retire_finished x [] m = refl
mem-retire_finished x (seq ∷ active) m = elim (Bool-cases seq.finished) [
  | inl done ↦ rw (retire_finished, done) (mem-retire_finished x active (ground arith))
  | inr live ↦ rw (retire_finished, live) (ground (arith, mem-retire_finished x active))
]

Fits-tail :
    (cap : BatchCapacity) (seq : JobSeq) (active : List JobSeq)
    → Fits cap (seq ∷ active)
    → Fits cap active
Fits-tail cap seq active fits = record {
  distinct = fits.distinct.1;
  inside = fits.inside.1;
  within = omega (arith, fits.within);
}

reserved-retire_finished :
    (active : List JobSeq) → reserved_blocks (retire_finished active).0 ≤ reserved_blocks active
unfolding retire_finished
reserved-retire_finished [] = omega arith
reserved-retire_finished (seq ∷ active) = elim (Bool-cases seq.finished) [
  | inl done ↦ rw (retire_finished, done) (omega (arith, reserved-retire_finished active))
  | inr live ↦ rw (retire_finished, live) (omega (arith, reserved-retire_finished active))
]

Fits-retire_finished :
    (cap : BatchCapacity) (active : List JobSeq)
    → Fits cap active
    → Fits cap (retire_finished active).0
unfolding retire_finished
Fits-retire_finished cap [] fits = fits
Fits-retire_finished cap (seq ∷ active) fits =
    let rest = Fits-retire_finished cap active (Fits-tail cap seq active fits) in
    elim (Bool-cases seq.finished) [
      | inl done ↦ rw (retire_finished, done) rest
      | inr live ↦
          rw (retire_finished, live)
            (record {
              distinct = (mem-retire_finished seq.slot active fits.distinct.0, rest.distinct);
              inside = (fits.inside.0, rest.inside);
              within = omega (arith, fits.within, reserved-retire_finished active);
            })
    ]

Fits-nil : (cap : BatchCapacity) → Fits cap []
Fits-nil cap = record { distinct = tt; inside = tt; within = omega arith }

module _ (srv : Server) (cap : BatchCapacity) where
  open srv use {model, Task, borrow, batch_capacity}
  open model use {State, max_context_len}

  -- What a part of the turn leaves of it.
  record Kept (t u : Turn State Task) : Type 0 where
    fits : Fits cap u.active
    same_queue : u.queue ≡ t.queue
    same_id : u.next_id ≡ t.next_id

  grow-Kept :
      (t : Turn State Task)
      → batch_capacity t.server ≡ cap
      → Fits cap t.active
      → (cap.kv.block_size == 0) ≡ false
      → (u : Turn State Task) × (grow srv t ≡ some u) × Kept t u
  unfolding grow
  grow-Kept t same fits positive = elim (Result-cases (borrow t.server).1) [
    | inr (e, f) ↦
        let after : Turn State Task = record t { server = (borrow t.server).0 } in
        let run : grow srv t ≡ some after = rw (grow, f) refl in
        (after, run, record { fits = fits; same_queue = refl; same_id = refl })
    | inl (u, f) ↦
        let ctx = max_context_len (borrow t.server).0 in
        let (g, ran, fits') = grant_kv_growth-Fits cap ctx t.active t.resume fits in
        let ran' : checked_grants (BatchCapacity.kv (batch_capacity t.server)) ctx t.active t.resume
            ≡ some g =
          ap (λ (c : BatchCapacity). checked_grants c.kv ctx t.active t.resume) same
          ∙ checked_grants_lem cap.kv ctx t.active t.resume positive
          ∙ ran in
        let after : Turn State Task = record t {
          server = release_each srv (borrow t.server).0 g.released;
          active = g.active;
          resume = g.resume;
        } in
        let run : grow srv t ≡ some after = rw (grow, f, ran') refl in
        (after, run, record { fits = fits'; same_queue = refl; same_id = refl })
  ]

  run_round-Kept :
      (stops : List ℕ) (chunk_size budget : ℕ) (t : Turn State Task)
      → Fits cap t.active
      → Kept t (run_round srv stops chunk_size budget t)
  unfolding run_round deliver_round
  run_round-Kept stops chunk_size budget t fits = elim (Result-cases (borrow t.server).1) [
    | inr (e, f) ↦
        rw (run_round, f) (record { fits = Fits-nil cap; same_queue = refl; same_id = refl })
    | inl (u, f) ↦
        let st = (borrow t.server).0 in
        let b = for_round t.active budget in
        let entries = (step_round model st t.active stops b chunk_size).2 in
        let framed : Each Framed t.active (map note_stop entries) =
          round-Framed stops (max_context_len st) (is_bounded b) (Fault model) t.active entries
            (step_round-Moved model stops st t.active b chunk_size) in
        rw (run_round, f)
          (record {
            fits =
                Fits-retire_finished cap (map note_stop entries)
                  (Fits-Framed cap t.active (map note_stop entries) framed fits);
            same_queue = refl;
            same_id = refl;
          })
  ]

  unless_empty-cases :
      {A : Type 0} (P : A → Type 0) (active : List JobSeq) (idle busy : A)
      → P idle
      → P busy
      → P (unless_empty active idle busy)
  unfolding unless_empty
  unless_empty-cases P [] idle busy p q = p
  unless_empty-cases P (seq ∷ active) idle busy p q = q

  -- From an active set that fits the capacity, whose blocks have room for a token at least, a round of
  -- the worker ends, within the fuel of the growth grants and whatever the decoder and the sampler
  -- return; what it leaves of the active set fits the capacity too: the slots are different and below
  -- `max_slots`, and the reservations add up to at most `total_blocks`. The queue and the next id are
  -- as they were.
  pub step_lem :
      (is_cancelled : ℕ → Bool) (t : Turn State Task)
      → batch_capacity t.server ≡ cap
      → Fits cap t.active
      → 1 ≤ cap.kv.block_size
      → (u : Turn State Task) × (step srv is_cancelled t ≡ some u)
        × Fits cap u.active
        × (u.queue ≡ t.queue)
        × (u.next_id ≡ t.next_id)
  unfolding step
  step_lem is_cancelled t same fits positive =
      let swept : Turn State Task = record t { active = sweep_cancelled is_cancelled t.active } in
      let (grown, ran, k) =
        grow-Kept swept same (Fits-Framed cap t.active _ (sweep-Framed is_cancelled t.active) fits)
          (ground arith) in
      let r = run_round-Kept _ _ _ grown k.fits in
      rw (step, ran)
        (unless_empty-cases
          (λ (out : Option (Turn State Task)).
            (u : Turn State Task) × (out ≡ some u)
            × Fits cap u.active
            × (u.queue ≡ t.queue)
            × (u.next_id ≡ t.next_id))
          t.active (some t) _ (t, refl, fits, refl, refl)
          (_, refl, r.fits, r.same_queue ∙ k.same_queue, r.same_id ∙ k.same_id))
