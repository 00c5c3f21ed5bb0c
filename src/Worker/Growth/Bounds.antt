-- ===== src/Worker/Growth/Bounds.antt =====
-- `grant_kv_growth` as a whole.
use burn_lm.Prelude.{
  ℕ, zero, suc, ◌+◌, ◌*◌, ◌<◌, ◌≤◌, ◌≡◌, ◌≢◌, refl, inl, inr, List, [], ◌∷◌, some, arith, ◌↔◌, All,
  ◌==◌, ==_iff, Bool-cases, false, mem, length, get_elem?, lt_of_get_elem?, Distinct,
}
use burn_lm.Engine.{KvBudget, usize_max, BatchCapacity}
use burn_lm.Worker.{JobSeq, ResumedJob, reserved_blocks}
use burn_lm.Worker.Slots.{slots}
use burn_lm.Worker.Fits.{Fits}
use burn_lm.Worker.Growth.{Growth, top_up_senior, senior_from, grant_kv_growth}
use burn_lm.Worker.Growth.Turns.{Served, Granted, cut}
use burn_lm.Worker.Growth.Loop.{grow_loop-Granted, top_up_senior-Granted}

module _ (P : List ℕ → Type 0) (closed : (xs : List ℕ) (v : ℕ) → P xs → P (cut xs v))
    (kv : KvBudget) (ctx : ℕ) where
  -- With a limited budget the grants end as the loop does.
  grant_kv_growth-Granted :
      (active : List JobSeq) (resume : List ResumedJob)
      → reserved_blocks active ≤ kv.total_blocks
      → P (slots active)
      → kv.total_blocks ≢ usize_max
      → (g : Growth) × (grant_kv_growth kv ctx active resume ≡ some g)
        × Granted P kv ctx g (length g.active)
  unfolding grant_kv_growth
  grant_kv_growth-Granted active resume fits placed limited =
      let start : Growth = record {
        active = active;
        resume = resume;
        reserved = reserved_blocks active;
        released = [];
      } in
      let begins : Granted P kv ctx start 0 = record {
        derived = refl;
        within = fits;
        placed = placed;
        served = λ j t below et. absurd (omega arith);
      } in
      let (topped, same) = top_up_senior-Granted P closed kv ctx start begins in
      let (g, ran, left) =
        grow_loop-Granted P closed kv ctx (2 * length active + 1) (senior_from 0 active)
          (top_up_senior kv ctx start) 0 topped (omega arith) (omega arith) in
      elim (Bool-cases (kv.total_blocks == usize_max)) [
        | inl unlimited ↦ absurd (limited ((==_iff kv.total_blocks usize_max).0 unlimited))
        | inr bounded ↦
            let run : grant_kv_growth kv ctx active resume ≡ some g =
              rw (grant_kv_growth, bounded) ran in
            (g, run, left)
      ]

-- If the reservations fit a limited budget, the fuel of the growth grants is enough, the reservations
-- fit the budget after them too, and every sequence that they leave active is finished, or paused,
-- or holds the blocks that its tokens need.
pub grant_kv_growth_lem :
    (kv : KvBudget) (ctx : ℕ) (active : List JobSeq) (resume : List ResumedJob)
    → reserved_blocks active ≤ kv.total_blocks
    → kv.total_blocks ≢ usize_max
    → (g : Growth) × (grant_kv_growth kv ctx active resume ≡ some g)
      × (reserved_blocks g.active ≤ kv.total_blocks)
      × ((j : ℕ) (s : JobSeq) → get_elem? g.active j ≡ some s → Served kv ctx s)
grant_kv_growth_lem kv ctx active resume fits limited =
    let (g, run, left) =
      grant_kv_growth-Granted (λ xs. Unit) (λ xs v h. tt) kv ctx active resume fits tt limited in
    (
      g,
      run,
      omega (arith, left.derived, left.within),
      λ j s e. left.served j s (lt_of_get_elem? g.active j e) e,
    )

-- Slots that are different and below `n`.
abbrev pub Placed : ℕ → List ℕ → Type 0
Placed n xs = Distinct xs × All (λ (x : ℕ). x < n) xs

mem-cut : (x : ℕ) (xs : List ℕ) (v : ℕ) → mem x xs ≡ false → mem x (cut xs v) ≡ false
mem-cut x [] v m = refl
mem-cut x (y ∷ xs) zero m = ground arith
mem-cut x (y ∷ xs) (suc v) m = ground (arith, mem-cut x xs v)

Placed-cut : (n : ℕ) (xs : List ℕ) (v : ℕ) → Placed n xs → Placed n (cut xs v)
Placed-cut n [] v p = p
Placed-cut n (x ∷ xs) zero ((new, d), (below, a)) = (d, a)
Placed-cut n (x ∷ xs) (suc v) ((new, d), (below, a)) =
    let (d', a') = Placed-cut n xs v (d, a) in ((mem-cut x xs v new, d'), (below, a'))

All-slots :
    (n : ℕ) (active : List JobSeq)
    → All (λ (seq : JobSeq). seq.slot < n) active ↔ All (λ (x : ℕ). x < n) (slots active)
All-slots n [] = ((λ h. tt), (λ h. tt))
All-slots n (seq ∷ active) =
    ((λ (h, a). (h, (All-slots n active).0 a)), (λ (h, a). (h, (All-slots n active).1 a)))

-- The grants end, whatever the budget, and an active set that fits the capacity still does.
pub grant_kv_growth-Fits :
    (cap : BatchCapacity) (ctx : ℕ) (active : List JobSeq) (resume : List ResumedJob)
    → Fits cap active
    → (g : Growth) × (grant_kv_growth cap.kv ctx active resume ≡ some g) × Fits cap g.active
unfolding grant_kv_growth
grant_kv_growth-Fits cap ctx active resume fits =
    elim (Bool-cases (cap.kv.total_blocks == usize_max)) [
      | inl unlimited ↦
          let run : grant_kv_growth cap.kv ctx active resume
              ≡ some (record {
                active = active;
                resume = resume;
                reserved = reserved_blocks active;
                released = [];
              }) =
            rw (grant_kv_growth, unlimited) refl in
          (_, run, fits)
      | inr bounded ↦
          let (g, run, left) =
            grant_kv_growth-Granted (Placed cap.max_slots) (Placed-cut cap.max_slots) cap.kv ctx
              active resume fits.within
              (fits.distinct, (All-slots cap.max_slots active).0 fits.inside)
              (λ e. cc ((==_iff cap.kv.total_blocks usize_max).1 e)) in
          (
            g,
            run,
            record {
              distinct = left.placed.0;
              inside = (All-slots cap.max_slots g.active).1 left.placed.1;
              within = omega (arith, left.derived, left.within);
            },
          )
    ]
