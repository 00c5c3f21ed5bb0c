-- ===== src/Worker/Growth.antt =====
-- `grant_kv_growth` of worker.rs: who may take KV blocks this round, who pauses, who is evicted.
-- A difference that the source takes on `usize` is one of numbers whose order the invariant of
-- `Growth.Turns` gives.
pub mod Turns
pub mod Loop
pub mod Bounds
pub mod Preserved
pub mod Senior
pub mod Conserved
use burn_lm.Prelude.{
  ℕ, zero, suc, ◌+◌, ◌-◌, ◌*◌, ◌≡◌, refl, not, ◌&&◌, ◌||◌, Bool, true, false, List, [], ◌∷◌, ◌++◌,
  Option, none, some, ltb, leb, ◌==◌, if◌then◌else◌, length, get_elem?, set, min,
}
use burn_lm.Engine.{KvBudget, covering, wrapping_add, usize_max}
use burn_lm.Worker.{JobSeq, ResumedJob, reserved_blocks}

-- The loop's variables; `released` are the slots that it frees, in order.
pub record Growth : Type 0 where
  pub active : List JobSeq
  pub resume : List ResumedJob
  pub reserved : ℕ
  pub released : List ℕ

-- `active.iter().position(|seq| !seq.finished)`
unfoldable pub senior_from : ℕ → List JobSeq → Option ℕ
senior_from i [] = none
senior_from i (seq ∷ active) = if seq.finished then senior_from (suc i) active else some i

-- `Vec::remove`
abbrev pub remove : List JobSeq → ℕ → List JobSeq
remove [] i = []
remove (seq ∷ active) zero = active
remove (seq ∷ active) (suc i) = seq ∷ remove active i

-- The last place at or after `i` where an unfinished sequence stands.
pub last_live : ℕ → List JobSeq → Option ℕ
last_live i [] = none
last_live i (seq ∷ active) = elim (last_live (suc i) active) [
  | some v ↦ some v
  | none ↦ if seq.finished then none else some i
]

-- `drop`, counted from the front, and the place of the youngest victim past `index`.
pub after : List JobSeq → ℕ → List JobSeq
after active zero = active
after [] (suc n) = []
after (seq ∷ active) (suc n) = after active n

pub victim_of : List JobSeq → ℕ → Option ℕ
unfolding last_live after
victim_of active index = last_live (suc index) (after active (suc index))

-- Blocks that the sequence needs for the tokens that it has.
abbrev pub need_now : KvBudget → ℕ → JobSeq → ℕ
need_now kv ctx seq = covering kv (min (length seq.tokens) ctx)

-- Blocks that it needs for its worst case.
abbrev pub need_full : KvBudget → ℕ → JobSeq → ℕ
need_full kv ctx seq =
    covering kv (min (wrapping_add (length seq.tokens) (seq.max_gen - seq.generated)) ctx)

-- The oldest live sequence takes what it can of its worst case before anyone else.
pub top_up : KvBudget → ℕ → ℕ → JobSeq → JobSeq × ℕ
top_up kv ctx reserved senior =
    let full = need_full kv ctx senior in
    let take = min (full - senior.kv_reservation) (kv.total_blocks - reserved) in
    if ltb senior.kv_reservation full
    then (record senior { kv_reservation = senior.kv_reservation + take }, reserved + take)
    else (senior, reserved)

pub top_up_senior : KvBudget → ℕ → Growth → Growth
unfolding senior_from top_up
top_up_senior kv ctx g = elim (senior_from 0 g.active) [
  | none ↦ g
  | some i ↦ elim (get_elem? g.active i) [
    | none ↦ g
    | some senior ↦
        let (senior', reserved) = top_up kv ctx g.reserved senior in
        record g { active = set g.active i senior'; reserved = reserved }
  ]
]

abbrev pub parked : JobSeq → ResumedJob
parked seq = record {
  tokens = seq.tokens;
  max_gen = seq.max_gen;
  generated = seq.generated;
  meta = seq.extra;
}

pub evict : Growth → ℕ → JobSeq → Growth
evict g victim seq = record g {
  active = remove g.active victim;
  resume = parked seq ∷ g.resume;
  reserved = g.reserved - seq.kv_reservation;
  released = g.released ++ seq.slot ∷ [];
}

-- `Some(index) == senior_index`
pub is_senior : Option ℕ → ℕ → Bool
is_senior none index = false
is_senior (some s) index = s == index

-- One turn of the loop at an unfinished sequence that stands at `index`: the variables after, and
-- whether the index advances.
pub grow_one : KvBudget → ℕ → Option ℕ → Growth → ℕ → JobSeq → Growth × Bool
unfolding victim_of evict is_senior
grow_one kv ctx senior_index g index seq =
    let delta = need_now kv ctx seq - seq.kv_reservation in
    let pause : Growth × Bool =
      (record g { active = set g.active index (record seq { paused = true }) }, true) in
    if leb (need_now kv ctx seq) seq.kv_reservation
    then (record g { active = set g.active index (record seq { paused = false }) }, true)
    else if leb delta (kv.total_blocks - g.reserved)
    then (
      record g {
        active =
            set g.active index
              (record seq { kv_reservation = seq.kv_reservation + delta; paused = false });
        reserved = g.reserved + delta;
      },
      true,
    )
    else if is_senior senior_index index
    then elim (victim_of g.active index) [
      | none ↦ pause
      | some v ↦ elim (get_elem? g.active v) [
        | none ↦ pause
        | some victim ↦ (evict g v victim, false)
      ]
    ]
    else pause

-- `while index < active.len()`; `none` means that the fuel ran out.
pub grow_loop : ℕ → KvBudget → ℕ → Option ℕ → Growth → ℕ → Option Growth
unfolding grow_one
grow_loop zero kv ctx senior_index g index = none
grow_loop (suc fuel) kv ctx senior_index g index = elim (get_elem? g.active index) [
  | none ↦ some g
  | some seq ↦
      let skip = grow_loop fuel kv ctx senior_index g (suc index) in
      let turn = grow_one kv ctx senior_index g index seq in
      let next = grow_loop fuel kv ctx senior_index turn.0 (if turn.1 then suc index else index) in
      if seq.finished then skip else next
]

-- Each turn passes a sequence or removes one that is still ahead, so `2 * len + 1` turns suffice.
pub grant_kv_growth : KvBudget → ℕ → List JobSeq → List ResumedJob → Option Growth
unfolding grow_loop top_up_senior senior_from
grant_kv_growth kv ctx active resume =
    let start : Growth = record {
      active = active;
      resume = resume;
      reserved = reserved_blocks active;
      released = [];
    } in
    let topped = top_up_senior kv ctx start in
    if kv.total_blocks == usize_max
    then some start
    else grow_loop (2 * length active + 1) kv ctx (senior_from 0 active) topped 0

-- A live sequence is what the blocks are counted for, in a limited budget.
pub any_live : List JobSeq → Bool
any_live [] = false
any_live (seq ∷ active) = not seq.finished || any_live active

pub divides_by_zero : KvBudget → List JobSeq → Bool
unfolding any_live
divides_by_zero kv active =
    kv.block_size == 0 && not (kv.total_blocks == usize_max) && any_live active

-- The grants with the panic of `blocks_for`, which has a block size of 0 to divide by.
unfoldable pub checked_grants : KvBudget → ℕ → List JobSeq → List ResumedJob → Option Growth
unfolding grant_kv_growth divides_by_zero
checked_grants kv ctx active resume =
    if divides_by_zero kv active then none else grant_kv_growth kv ctx active resume

pub checked_grants_lem :
    (kv : KvBudget) (ctx : ℕ) (active : List JobSeq) (resume : List ResumedJob)
    → (kv.block_size == 0) ≡ false
    → checked_grants kv ctx active resume ≡ grant_kv_growth kv ctx active resume
unfolding checked_grants divides_by_zero
checked_grants_lem kv ctx active resume positive = rw (checked_grants, positive) refl
