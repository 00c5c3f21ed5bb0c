-- ===== src/Worker/Step/Frames.antt =====
-- A sequence's slot and its reservation, through the parts of `step` that change neither.
use burn_lm.Prelude.{
  ℕ, ◌<◌, ◌≡◌, refl, sym, ◌∙◌, inl, inr, Bool, true, false, List, [], ◌∷◌, map, All, Each, arith,
  Distinct, Bool-cases, not, ◌&&◌, subst,
}
use burn_lm.Engine.{
  BatchCapacity, InferenceError, Entry, StepOutcome, skipped, prefilling, stepped, failed,
}
use burn_lm.Engine.Round.Moves.{Moved, rests, defers, has_nothing, overflows, fails, chunks, steps}
use burn_lm.Worker.{JobMeta, JobSeq, reserved_blocks}
use burn_lm.Worker.Slots.{slots}
use burn_lm.Worker.Fits.{Fits}
use burn_lm.Worker.Step.{sweep_cancelled, note_stop}

-- The sequence keeps its slot and its reservation.
abbrev pub Framed : JobSeq → JobSeq → Type 0
Framed s s' = (s'.slot ≡ s.slot) × (s'.kv_reservation ≡ s.kv_reservation)

slots-Framed : (old new : List JobSeq) → Each Framed old new → slots new ≡ slots old
slots-Framed [] [] f = refl
slots-Framed (a ∷ old) (b ∷ new) ((s, r), f) = cc (s, slots-Framed old new f)
slots-Framed [] (b ∷ new) f = elim f [ ]
slots-Framed (a ∷ old) [] f = elim f [ ]

reserved-Framed :
    (old new : List JobSeq) → Each Framed old new → reserved_blocks new ≡ reserved_blocks old
reserved-Framed [] [] f = refl
reserved-Framed (a ∷ old) (b ∷ new) ((s, r), f) = omega (arith, reserved-Framed old new f)
reserved-Framed [] (b ∷ new) f = elim f [ ]
reserved-Framed (a ∷ old) [] f = elim f [ ]

inside-Framed :
    (n : ℕ) (old new : List JobSeq)
    → Each Framed old new
    → All (λ (seq : JobSeq). seq.slot < n) old
    → All (λ (seq : JobSeq). seq.slot < n) new
inside-Framed n [] [] f a = tt
inside-Framed n (a ∷ old) (b ∷ new) ((s, r), f) (below, rest) =
    (omega arith, inside-Framed n old new f rest)
inside-Framed n [] (b ∷ new) f a = elim f [ ]
inside-Framed n (a ∷ old) [] f h = elim f [ ]

pub Fits-Framed :
    (cap : BatchCapacity) (old new : List JobSeq)
    → Each Framed old new
    → Fits cap old
    → Fits cap new
Fits-Framed cap old new f fits = record {
  distinct = subst Distinct (sym (slots-Framed old new f)) fits.distinct;
  inside = inside-Framed cap.max_slots old new f fits.inside;
  within = omega (arith, reserved-Framed old new f, fits.within);
}

pub sweep-Framed :
    (c : ℕ → Bool) (active : List JobSeq) → Each Framed active (sweep_cancelled c active)
unfolding sweep_cancelled
sweep-Framed c [] = tt
sweep-Framed c (seq ∷ active) = elim (Bool-cases (not seq.finished && c seq.extra.cancel)) [
  | inl gone ↦ rw (sweep_cancelled, gone) ((refl, refl), sweep-Framed c active)
  | inr stays ↦ rw (sweep_cancelled, stays) ((refl, refl), sweep-Framed c active)
]

note_stop-Framed :
    (e : Entry JobMeta) (o : StepOutcome) → e.outcome ≡ o → Framed e.seq (note_stop e)
unfolding note_stop
note_stop-Framed e (stepped t true d) h = rw (note_stop, h) (refl, refl)
note_stop-Framed e (stepped t false d) h = rw (note_stop, h) (refl, refl)
note_stop-Framed e (failed x) h = rw (note_stop, h) (refl, refl)
note_stop-Framed e skipped h = rw (note_stop, h) (refl, refl)
note_stop-Framed e prefilling h = rw (note_stop, h) (refl, refl)

by_seq : (s s' : JobSeq) (e : Entry JobMeta) → e.seq ≡ s' → Framed s s' → Framed s e.seq
by_seq s s' e same f = subst (Framed s) (sym same) f

Moved-Framed :
    (stop_ids : List ℕ) (c : ℕ) (b : Bool) (F : InferenceError → Type 0) (seq : JobSeq)
    (e : Entry JobMeta)
    → Moved stop_ids c b F seq e
    → Framed seq e.seq
Moved-Framed stop_ids c b F seq e (rests l s o) = by_seq seq _ e s (refl, refl)
Moved-Framed stop_ids c b F seq e (defers x y s o) = by_seq seq _ e s (refl, refl)
Moved-Framed stop_ids c b F seq e (has_nothing l x s o) = by_seq seq _ e s (refl, refl)
Moved-Framed stop_ids c b F seq e (overflows l x y z s o) = by_seq seq _ e s (refl, refl)
Moved-Framed stop_ids c b F seq e (fails x l y z w v s o) = by_seq seq _ e s (refl, refl)
Moved-Framed stop_ids c b F seq e (chunks k l x y s o) = by_seq seq _ e s (refl, refl)
Moved-Framed stop_ids c b F seq e (steps t l x y s o) = by_seq seq _ e s (refl, refl)

pub round-Framed :
    (stop_ids : List ℕ) (c : ℕ) (b : Bool) (F : InferenceError → Type 0) (active : List JobSeq)
    (entries : List (Entry JobMeta))
    → Each (Moved stop_ids c b F) active entries
    → Each Framed active (map note_stop entries)
round-Framed stop_ids c b F [] [] m = tt
round-Framed stop_ids c b F (seq ∷ active) (e ∷ entries) (m, ms) =
    let (s, r) = Moved-Framed stop_ids c b F seq e m in
    let (s', r') = note_stop-Framed e e.outcome refl in
    ((s' ∙ s, r' ∙ r), round-Framed stop_ids c b F active entries ms)
round-Framed stop_ids c b F [] (e ∷ entries) m = elim m [ ]
round-Framed stop_ids c b F (seq ∷ active) [] m = elim m [ ]
