-- ===== src/Emission/Once.antt =====
-- How often the completion that a caller waits for fires.
use burn_lm.Prelude.{
  ℕ, ◌+◌, ◌≡◌, subst, refl, sym, ap, ◌∙◌, false, List, [], ◌∷◌, ◌++◌, Option, none, some, All,
  arith, ◌==◌, Bool-cases, if◌then◌else◌, mem, Distinct, inl, inr,
}
use burn_lm.Engine.{InferenceResult}
use burn_lm.Worker.{Stats, EmissionEvent, admitted, tokens, retire}
use burn_lm.Utf8.{finish}
use burn_lm.Emission.{
  Delivery, Output, text, completed, Live, text_out, deliver, finish_with, remove, lookup,
  deliver_to, deliver_batch, answer, handle, answer_died, run,
}

-- How often the outputs complete `c`.
abbrev pub answers : ℕ → List Output → ℕ
answers c [] = 0
answers c (text d s ∷ outs) = answers c outs
answers c (completed d r ∷ outs) = (if d == c then 1 else 0) + answers c outs

-- How often `c` is handed over.
abbrev pub admissions : ℕ → List EmissionEvent → ℕ
admissions c [] = 0
admissions c (admitted id d ∷ events) = (if d == c then 1 else 0) + admissions c events
admissions c (tokens batch ∷ events) = admissions c events
admissions c (retire id r ∷ events) = admissions c events

-- The ids that the worker gives out.
abbrev pub admitted_ids : List EmissionEvent → List ℕ
admitted_ids [] = []
admitted_ids (admitted id d ∷ events) = id ∷ admitted_ids events
admitted_ids (tokens batch ∷ events) = admitted_ids events
admitted_ids (retire id r ∷ events) = admitted_ids events

abbrev live_ids : Live → List ℕ
live_ids [] = []
live_ids (entry ∷ live) = entry.0 ∷ live_ids live

abbrev held : ℕ → Delivery → ℕ
held c d = if d.completion == c then 1 else 0

abbrev holders : ℕ → Live → ℕ
holders c [] = 0
holders c (entry ∷ live) = held c (entry.1) + holders c live

abbrev held_by : ℕ → Option Delivery → ℕ
held_by c none = 0
held_by c (some d) = held c d

answers-append : (c : ℕ) (xs ys : List Output) → answers c (xs ++ ys) ≡ answers c xs + answers c ys
answers-append c [] ys = omega arith
answers-append c (text d s ∷ xs) ys = answers-append c xs ys
answers-append c (completed d r ∷ xs) ys = omega (arith, answers-append c xs ys)

answers-text_out : (c d : ℕ) (s : Option (List ℕ)) → answers c (text_out d s) ≡ 0
unfolding text_out
answers-text_out c d none = refl
answers-text_out c d (some s) = refl

answers-finish_with :
    (c : ℕ) (d : Delivery) (r : InferenceResult Stats) → answers c (finish_with d r) ≡ held c d
unfolding finish_with
answers-finish_with c d r = omega (
  arith,
  answers-append c (text_out d.completion (finish d.detok)) (completed d.completion r ∷ []),
  answers-text_out c d.completion (finish d.detok),
)

answers-answer :
    (c : ℕ) (d : Option Delivery) (r : InferenceResult Stats) → answers c (answer d r) ≡ held_by c d
unfolding answer
answers-answer c none r = refl
answers-answer c (some d) r = answers-finish_with c d r

answers-answer_died : (c : ℕ) (live : Live) → answers c (answer_died live) ≡ holders c live
unfolding answer_died
answers-answer_died c [] = refl
answers-answer_died c (entry ∷ live) = omega (
  arith,
  answers-append c (finish_with (entry.1) _) (answer_died live),
  answers-finish_with c (entry.1) _,
  answers-answer_died c live,
)

remove_absent : (id : ℕ) (live : Live) → mem id (live_ids live) ≡ false → remove id live ≡ live
unfolding remove
remove_absent id [] m = refl
remove_absent id ((i, d) ∷ live) m = elim (Bool-cases (i == id)) [
  | inl same ↦ absurd (ground arith)
  | inr other ↦ rw other (ap (◌∷◌ (i, d)) (remove_absent id live (ground arith)))
]

mem-remove :
    (x id : ℕ) (live : Live)
    → mem x (live_ids live) ≡ false
    → mem x (live_ids (remove id live)) ≡ false
unfolding remove
mem-remove x id [] m = refl
mem-remove x id ((i, d) ∷ live) m = elim (Bool-cases (i == id)) [
  | inl same ↦ rw same (mem-remove x id live (ground arith))
  | inr other ↦ rw other (ground (arith, mem-remove x id live))
]

-- What a turn keeps of the live ids, all different.
Distinct-remove :
    (id : ℕ) (live : Live) → Distinct (live_ids live) → Distinct (live_ids (remove id live))
unfolding remove
Distinct-remove id [] d = tt
Distinct-remove id ((i, e) ∷ live) (m, d) = elim (Bool-cases (i == id)) [
  | inl same ↦ rw same (Distinct-remove id live d)
  | inr other ↦ rw other (mem-remove i id live m, Distinct-remove id live d)
]

mem-remove_self : (id : ℕ) (live : Live) → mem id (live_ids (remove id live)) ≡ false
unfolding remove
mem-remove_self id [] = refl
mem-remove_self id ((i, e) ∷ live) = elim (Bool-cases (i == id)) [
  | inl same ↦ rw same (mem-remove_self id live)
  | inr other ↦ rw other (ground (arith, mem-remove_self id live))
]

holders-remove :
    (c id : ℕ) (live : Live)
    → Distinct (live_ids live)
    → held_by c (lookup id live) + holders c (remove id live) ≡ holders c live
unfolding remove lookup
holders-remove c id [] d = refl
holders-remove c id ((i, e) ∷ live) (m, d) = elim (Bool-cases (i == id)) [
  | inl same ↦
      let gone : remove id live ≡ live = remove_absent id live (ground arith) in
      rw (same, gone) refl
  | inr other ↦ rw other (omega (arith, holders-remove c id live d))
]

-- A delivery of bytes leaves the ids and the completions, and completes nothing.
record Silent (c : ℕ) (live : Live) (turn : Live × List Output) : Type 0 where
  same_ids : live_ids turn.0 ≡ live_ids live
  same_holders : holders c turn.0 ≡ holders c live
  nothing : answers c turn.1 ≡ 0

deliver_to-Silent :
    (c id : ℕ) (bytes : List ℕ) (live : Live) → Silent c live (deliver_to id bytes live)
unfolding deliver_to deliver
deliver_to-Silent c id bytes [] = record { same_ids = refl; same_holders = refl; nothing = refl }
deliver_to-Silent c id bytes ((i, d) ∷ live) =
    let rest = deliver_to-Silent c id bytes live in
    elim (Bool-cases (i == id)) [
      | inl same ↦
          rw (deliver_to, same)
            (record {
              same_ids = refl;
              same_holders = refl;
              nothing = answers-text_out c d.completion _;
            })
      | inr other ↦
          rw (deliver_to, other)
            (record {
              same_ids = ap (◌∷◌ i) rest.same_ids;
              same_holders = ap (λ n. held c d + n) rest.same_holders;
              nothing = rest.nothing;
            })
    ]

deliver_batch-Silent :
    (c : ℕ) (batch : List (ℕ × List ℕ)) (live : Live) → Silent c live (deliver_batch batch live)
unfolding deliver_batch
deliver_batch-Silent c [] live = record { same_ids = refl; same_holders = refl; nothing = refl }
deliver_batch-Silent c (item ∷ batch) live =
    let first = deliver_to-Silent c (item.0) (item.1) live in
    let rest = deliver_batch-Silent c batch (deliver_to (item.0) (item.1) live).0 in
    record {
      same_ids = rest.same_ids ∙ first.same_ids;
      same_holders = rest.same_holders ∙ first.same_holders;
      nothing = omega (
        arith,
        answers-append c (deliver_to (item.0) (item.1) live).1
            (deliver_batch batch (deliver_to (item.0) (item.1) live).0).1,
        first.nothing,
        rest.nothing,
      );
    }

apart-remove :
    (id : ℕ) (live : Live) (ids : List ℕ)
    → All (λ x. mem x (live_ids live) ≡ false) ids
    → All (λ x. mem x (live_ids (remove id live)) ≡ false) ids
apart-remove id live [] a = tt
apart-remove id live (x ∷ ids) (here, a) = (mem-remove x id live here, apart-remove id live ids a)

-- The ids still to come are not the one just admitted.
apart-insert :
    (id : ℕ) (live : Live) (ids : List ℕ)
    → mem id ids ≡ false
    → All (λ x. mem x (live_ids live) ≡ false) ids
    → All (λ x. mem x (id ∷ live_ids (remove id live)) ≡ false) ids
apart-insert id live [] m a = tt
apart-insert id live (x ∷ ids) m (here, a) =
    (ground (arith, mem-remove x id live here), apart-insert id live ids (ground arith) a)

run-answers :
    (c : ℕ) (events : List EmissionEvent) (live : Live)
    → Distinct (live_ids live)
    → Distinct (admitted_ids events)
    → All (λ id. mem id (live_ids live) ≡ false) (admitted_ids events)
    → answers c (run events live) ≡ holders c live + admissions c events
unfolding run handle
run-answers c [] live d fresh apart = omega (arith, answers-answer_died c live)
run-answers c (admitted id completion ∷ events) live d (new, fresh) (here, apart) =
    let kept : remove id live ≡ live = remove_absent id live here in
    omega (
      arith,
      run-answers c events ((id, record { detok = []; completion = completion }) ∷ remove id live)
          (mem-remove_self id live, Distinct-remove id live d) fresh
          (apart-insert id live (admitted_ids events) new apart),
      ap (holders c) kept,
    )
run-answers c (tokens batch ∷ events) live d fresh apart =
    let turn = deliver_batch-Silent c batch live in
    let live' = (deliver_batch batch live).0 in
    omega (
      arith,
      answers-append c (deliver_batch batch live).1 (run events live'),
      run-answers c events live' (subst Distinct (sym turn.same_ids) d) fresh (
          subst (λ (ids : List ℕ). All (λ id. mem id ids ≡ false) (admitted_ids events))
            (sym turn.same_ids) apart),
      turn.nothing,
      turn.same_holders,
    )
run-answers c (retire id r ∷ events) live d fresh apart = omega (
  arith,
  answers-append c (answer (lookup id live) r) (run events (remove id live)),
  run-answers c events (remove id live) (Distinct-remove id live d) fresh
      (apart-remove id live (admitted_ids events) apart),
  answers-answer c (lookup id live) r,
  holders-remove c id live d,
)

-- If the worker never gives an id twice, the thread completes each caller exactly as often as the
-- worker handed it over, whatever else the worker sent, retired or left unretired.
pub run-answers_once :
    (events : List EmissionEvent) (c : ℕ)
    → Distinct (admitted_ids events)
    → answers c (run events []) ≡ admissions c events
run-answers_once events c fresh =
    omega (arith, run-answers c events [] tt fresh (all_apart (admitted_ids events)))
  where
    all_apart : (ids : List ℕ) → All (λ id. mem id [] ≡ false) ids
    all_apart [] = tt
    all_apart (id ∷ ids) = (refl, all_apart ids)
