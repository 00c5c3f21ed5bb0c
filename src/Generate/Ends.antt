-- ===== src/Generate/Ends.antt =====
-- The loop of the batch driver ends: what a round does to the rounds that are left.
use burn_lm.Prelude.{
  ap, Bool, ◌++◌, ℕ, zero, suc, ◌<◌, ◌≤◌, ◌≡◌, refl, sym, subst, inl, inr, true, false, List, [],
  ◌∷◌, Option, none, some, arith, sum, map, length, All, Each, Bool-cases, Option-cases,
  length-append, ◌∙◌,
}
use burn_lm.Engine.{InferenceError, Model, StepOutcome, skipped, prefilling, stepped, failed, Entry}
use burn_lm.Engine.Budget.{PrefillBudget}
use burn_lm.Engine.Round.{for_round, any_decoding, step_round}
use burn_lm.Engine.Round.Faults.{Fault}
use burn_lm.Engine.Round.Moves.{
  Moved, rests, defers, has_nothing, overflows, fails, chunks, steps, retire, is_bounded,
  append_token, is_live,
}
use burn_lm.Engine.Round.Decode.{step_round-Moved}
use burn_lm.Generate.Stream.{GenerationContext, update}
use burn_lm.Generate.{
  Seq, any_unfinished, stream_one, stream_round, stream_token, seqs_of, rounds_left, run_rounds,
}

-- A sequence that this driver runs: never paused, within its cap.
pub record Runs (seq : Seq) : Type 0 where
  pub unpaused : seq.paused ≡ false
  pub within : seq.generated ≤ seq.max_gen

-- What a round makes of it.
pub record Advances (seq seq' : Seq) : Type 0 where
  pub runs : Runs seq'
  pub slot_same : seq'.slot ≡ seq.slot
  pub cap_same : seq'.max_gen ≡ seq.max_gen
  pub fewer : rounds_left seq' ≤ rounds_left seq
  pub progress : seq.finished ≡ false → rounds_left seq' < rounds_left seq

for_round_unbounded : (active : List Seq) → is_bounded (for_round active 0) ≡ false
unfolding for_round
for_round_unbounded active = elim (Bool-cases (any_decoding active)) [
  | inl e ↦ rw e refl
  | inr e ↦ rw e refl
]

retire-Advances : (seq : Seq) → Runs seq → Advances seq (retire seq)
unfolding rounds_left
retire-Advances seq h = record {
  runs = record { unpaused = h.unpaused; within = h.within };
  slot_same = refl;
  cap_same = refl;
  fewer = omega arith;
  progress = λ live. rw live (omega arith);
}

live_open : (seq : Seq) → is_live seq ≡ true → seq.finished ≡ false
live_open seq live = ground arith

rest-Advances : (seq : Seq) → Runs seq → is_live seq ≡ false → Advances seq seq
rest-Advances seq h off =
    let shut : seq.finished ≡ true = ground (arith, h.unpaused) in
    record {
      runs = h;
      slot_same = refl;
      cap_same = refl;
      fewer = omega arith;
      progress = λ live. cc;
    }

chunk-Advances :
    (seq : Seq) (k : ℕ)
    → Runs seq
    → is_live seq ≡ true
    → seq.processed < k
    → k < length seq.tokens
    → Advances seq (record seq { processed = k })
unfolding rounds_left
chunk-Advances seq k h live more less =
    let fewer : rounds_left (record seq { processed = k }) < rounds_left seq =
      rw (live_open seq live) (omega arith) in
    record {
      runs = record { unpaused = h.unpaused; within = h.within };
      slot_same = refl;
      cap_same = refl;
      fewer = omega arith;
      progress = λ live. fewer;
    }

step-Advances :
    (stop_ids : List ℕ) (seq : Seq) (t : ℕ)
    → Runs seq
    → is_live seq ≡ true
    → seq.generated < seq.max_gen
    → Advances seq (append_token stop_ids seq t)
unfolding rounds_left
step-Advances stop_ids seq t h live open_end =
    let fewer : rounds_left (append_token stop_ids seq t) < rounds_left seq =
      rw (live_open seq live) (ground (arith, length-append seq.tokens (t ∷ []))) in
    record {
      runs = record { unpaused = h.unpaused; within = omega arith };
      slot_same = refl;
      cap_same = refl;
      fewer = omega arith;
      progress = λ live. fewer;
    }

Moved-Advances :
    (F : InferenceError → Type 0) (stop_ids : List ℕ) (max_context_len : ℕ) (seq : Seq)
    (e : Entry GenerationContext)
    → Runs seq
    → Moved stop_ids max_context_len false F seq e
    → Advances seq e.seq
Moved-Advances F stop_ids c seq e h (rests off q o) =
    subst (Advances seq) (sym q) (rest-Advances seq h off)
Moved-Advances F stop_ids c seq e h (defers bounded many q o) = cc
Moved-Advances F stop_ids c seq e h (has_nothing live why q o) =
    subst (Advances seq) (sym q) (retire-Advances seq h)
Moved-Advances F stop_ids c seq e h (overflows live open_end unread long q o) =
    subst (Advances seq) (sym q) (retire-Advances seq h)
Moved-Advances F stop_ids c seq e h (fails error live open_end unread fits fault q o) =
    subst (Advances seq) (sym q) (retire-Advances seq h)
Moved-Advances F stop_ids c seq e h (chunks k live more less q o) =
    subst (Advances seq) (sym q) (chunk-Advances seq k h live more less)
Moved-Advances F stop_ids c seq e h (steps t live open_end fits q o) =
    subst (Advances seq) (sym q) (step-Advances stop_ids seq t h live open_end)

update-Advances :
    (seq s : Seq) (x : GenerationContext) → Advances seq s → Advances seq (record s { extra = x })
unfolding rounds_left
update-Advances seq s x h = record {
  runs = record { unpaused = h.runs.unpaused; within = h.runs.within };
  slot_same = h.slot_same;
  cap_same = h.cap_same;
  fewer = h.fewer;
  progress = h.progress;
}

-- What a round streams where no thread has died.
streamed_one :
    StepOutcome
    → Seq
    → List Seq × Option InferenceError
    → List Seq
    → List Seq × Option InferenceError
streamed_one (stepped token true done) seq later untouched = (seq ∷ later.0, later.1)
streamed_one (stepped token false done) seq later untouched = (
  record seq { extra = record (seq.extra) { sent = seq.extra.sent ++ token ∷ [] } } ∷ later.0,
  later.1,
)
streamed_one (failed error) seq later untouched = (seq ∷ untouched, some error)
streamed_one skipped seq later untouched = (seq ∷ later.0, later.1)
streamed_one prefilling seq later untouched = (seq ∷ later.0, later.1)

streamed_round : List (Entry GenerationContext) → List Seq × Option InferenceError
unfolding streamed_one
streamed_round [] = ([], none)
streamed_round (e ∷ entries) =
    streamed_one e.outcome e.seq (streamed_round entries) (seqs_of entries)

stream_one_lem :
    (died : List ℕ → Bool)
    → ((sent : List ℕ) → died sent ≡ false)
    → (o : StepOutcome) (seq : Seq) (later : List Seq × Option InferenceError)
      (untouched : List Seq)
    → stream_one died o seq (some later) untouched ≡ some (streamed_one o seq later untouched)
unfolding stream_one stream_token streamed_one update
stream_one_lem died alive (stepped token true done) seq later untouched = refl
stream_one_lem died alive (stepped token false done) seq later untouched =
    rw (alive seq.extra.sent) refl
stream_one_lem died alive (failed error) seq later untouched = refl
stream_one_lem died alive skipped seq later untouched = refl
stream_one_lem died alive prefilling seq later untouched = refl

stream_round_lem :
    (died : List ℕ → Bool)
    → ((sent : List ℕ) → died sent ≡ false)
    → (entries : List (Entry GenerationContext))
    → stream_round died entries ≡ some (streamed_round entries)
unfolding stream_round streamed_round
stream_round_lem died alive [] = refl
stream_round_lem died alive (e ∷ entries) =
    ap (λ later. stream_one died e.outcome e.seq later (seqs_of entries))
      (stream_round_lem died alive entries)
    ∙ stream_one_lem died alive e.outcome e.seq (streamed_round entries) (seqs_of entries)

abbrev IsAdvanced : Seq → Entry GenerationContext → Type 0
IsAdvanced seq e = Advances seq e.seq

seqs_of-Advances :
    (seqs : List Seq) (entries : List (Entry GenerationContext))
    → Each IsAdvanced seqs entries
    → Each Advances seqs (seqs_of entries)
seqs_of-Advances [] [] h = tt
seqs_of-Advances [] (e ∷ entries) h = absurd h
seqs_of-Advances (seq ∷ seqs) [] h = absurd h
seqs_of-Advances (seq ∷ seqs) (e ∷ entries) (h, rest) = (h, seqs_of-Advances seqs entries rest)

streamed_one-Advances :
    (o : StepOutcome) (seq s : Seq) (seqs : List Seq) (later : List Seq × Option InferenceError)
    (untouched : List Seq)
    → Advances seq s
    → Each Advances seqs later.0
    → Each Advances seqs untouched
    → Each Advances (seq ∷ seqs) (streamed_one o s later untouched).0
unfolding streamed_one
streamed_one-Advances skipped seq s seqs later untouched h l u = (h, l)
streamed_one-Advances prefilling seq s seqs later untouched h l u = (h, l)
streamed_one-Advances (failed error) seq s seqs later untouched h l u = (h, u)
streamed_one-Advances (stepped t true done) seq s seqs later untouched h l u = (h, l)
streamed_one-Advances (stepped t false done) seq s seqs later untouched h l u =
    (update-Advances seq s (record (s.extra) { sent = s.extra.sent ++ t ∷ [] }) h, l)

streamed_round-Advances :
    (seqs : List Seq) (entries : List (Entry GenerationContext))
    → Each IsAdvanced seqs entries
    → Each Advances seqs (streamed_round entries).0
unfolding streamed_round
streamed_round-Advances [] [] h = tt
streamed_round-Advances [] (e ∷ entries) h = absurd h
streamed_round-Advances (seq ∷ seqs) [] h = absurd h
streamed_round-Advances (seq ∷ seqs) (e ∷ entries) (h, rest) =
    streamed_one-Advances e.outcome seq e.seq seqs (streamed_round entries) (seqs_of entries) h
      (streamed_round-Advances seqs entries rest) (seqs_of-Advances seqs entries rest)

Moved-IsAdvanced :
    (F : InferenceError → Type 0) (stop_ids : List ℕ) (max_context_len : ℕ) (seqs : List Seq)
    (entries : List (Entry GenerationContext))
    → All Runs seqs
    → Each (Moved stop_ids max_context_len false F) seqs entries
    → Each IsAdvanced seqs entries
Moved-IsAdvanced F stop_ids c [] [] r h = tt
Moved-IsAdvanced F stop_ids c [] (e ∷ entries) r h = absurd h
Moved-IsAdvanced F stop_ids c (seq ∷ seqs) [] r h = absurd h
Moved-IsAdvanced F stop_ids c (seq ∷ seqs) (e ∷ entries) (r, runs) (h, rest) =
    (Moved-Advances F stop_ids c seq e r h, Moved-IsAdvanced F stop_ids c seqs entries runs rest)

-- A round leaves no more rounds than there were, and fewer while a sequence is unfinished.
fewer_rounds :
    (seqs seqs' : List Seq)
    → Each Advances seqs seqs'
    → (sum (map rounds_left seqs') ≤ sum (map rounds_left seqs))
      × (any_unfinished seqs ≡ true → sum (map rounds_left seqs') < sum (map rounds_left seqs))
unfolding any_unfinished
fewer_rounds [] [] h = (omega arith, λ q. cc)
fewer_rounds [] (s ∷ seqs') h = absurd h
fewer_rounds (seq ∷ seqs) [] h = absurd h
fewer_rounds (seq ∷ seqs) (s ∷ seqs') (h, rest) =
    let (le, lt) = fewer_rounds seqs seqs' rest in
    (
      omega (arith, h.fewer),
      λ q. elim (Bool-cases seq.finished) [
        | inl shut ↦ omega (arith, h.fewer, lt (ground arith))
        | inr open_seq ↦ omega (arith, h.progress open_seq)
      ],
    )

-- What a sequence keeps through all rounds.
pub record Kept (seq seq' : Seq) : Type 0 where
  pub runs : Runs seq'
  pub slot_same : seq'.slot ≡ seq.slot
  pub cap_same : seq'.max_gen ≡ seq.max_gen

Kept-refl : (seqs : List Seq) → All Runs seqs → Each Kept seqs seqs
Kept-refl [] h = tt
Kept-refl (seq ∷ seqs) (h, rest) =
    (record { runs = h; slot_same = refl; cap_same = refl }, Kept-refl seqs rest)

Advances-Runs : (seqs seqs' : List Seq) → Each Advances seqs seqs' → All Runs seqs'
Advances-Runs [] [] h = tt
Advances-Runs [] (s ∷ seqs') h = absurd h
Advances-Runs (seq ∷ seqs) [] h = absurd h
Advances-Runs (seq ∷ seqs) (s ∷ seqs') (h, rest) = (h.runs, Advances-Runs seqs seqs' rest)

Advances-Kept :
    (seqs mid seqs' : List Seq)
    → Each Advances seqs mid
    → Each Kept mid seqs'
    → Each Kept seqs seqs'
Advances-Kept [] [] seqs' h k = k
Advances-Kept [] (m ∷ mid) seqs' h k = absurd h
Advances-Kept (seq ∷ seqs) [] seqs' h k = absurd h
Advances-Kept (seq ∷ seqs) (m ∷ mid) [] h k = absurd k
Advances-Kept (seq ∷ seqs) (m ∷ mid) (s ∷ seqs') (h, hs) (k, ks) = (
  record {
    runs = k.runs;
    slot_same = k.slot_same ∙ h.slot_same;
    cap_same = k.cap_same ∙ h.cap_same;
  },
  Advances-Kept seqs mid seqs' hs ks,
)

module _ (M : Model) (stop_ids : List ℕ) (died : List ℕ → Bool)
    (alive : (sent : List ℕ) → died sent ≡ false) where
  open M use {State, max_context_len}

  round-Advances :
      (st : State) (active : List Seq)
      → All Runs active
      → Each Advances active
          (streamed_round (step_round M st active stop_ids (for_round active 0) 0).2).0
  round-Advances st active runs =
      streamed_round-Advances active (step_round M st active stop_ids (for_round active 0) 0).2 (
        Moved-IsAdvanced (Fault M) stop_ids (max_context_len st) active
          (step_round M st active stop_ids (for_round active 0) 0).2 runs
          (subst
            (λ b.
              Each (Moved stop_ids (max_context_len st) b (Fault M)) active
                (step_round M st active stop_ids (for_round active 0) 0).2)
            (for_round_unbounded active)
            (step_round-Moved M stop_ids st active (for_round active 0) 0)))

  -- Where no thread dies, the loop ends with the fuel of `enough_rounds`: every sequence has kept its slot and its cap, and
  -- has finished unless a forward failed.
  pub run_rounds_lem :
      (fuel : ℕ) (st : State) (active : List Seq)
      → sum (map rounds_left active) < fuel
      → All Runs active
      → (st' : State) × (active' : List Seq) × (failure : Option InferenceError) × (run_rounds M
            died fuel stop_ids st active
          ≡ some (st', active', failure))
        × Each Kept active active'
        × (failure ≡ none → any_unfinished active' ≡ false)
  unfolding run_rounds
  run_rounds_lem zero st active less runs = absurd (omega arith)
  run_rounds_lem (suc fuel) st active less runs = elim (Bool-cases (any_unfinished active)) [
    | inr over ↦ (st, active, none, rw (run_rounds, over) refl, Kept-refl active runs, λ q. over)
    | inl more ↦
        let out : State × PrefillBudget × List (Entry GenerationContext) =
          step_round M st active stop_ids (for_round active 0) 0 in
        let moved : Each Advances active (streamed_round out.2).0 = round-Advances st active runs in
        let sent : stream_round died out.2 ≡ some (streamed_round out.2) =
          stream_round_lem died alive out.2 in
        elim (Option-cases (streamed_round out.2).1) [
          | inl fine ↦
              let (st', active', failure, q, kept, done) =
                run_rounds_lem fuel out.0 (streamed_round out.2).0
                  (omega (arith, (fewer_rounds active _ moved).1 more))
                  (Advances-Runs active _ moved) in
              (
                st',
                active',
                failure,
                rw (run_rounds, more, sent, fine) q,
                Advances-Kept active _ active' moved kept,
                done,
              )
          | inr (error, bad) ↦ (
            out.0,
            (streamed_round out.2).0,
            some error,
            rw (run_rounds, more, sent, bad) refl,
            Advances-Kept active _ _ moved (Kept-refl _ (Advances-Runs active _ moved)),
            λ q. cc,
          )
        ]
  ]
