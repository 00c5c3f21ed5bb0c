-- ===== src/Cache/Total.antt =====
-- A plan exists: no index that it reads is out of range.
use burn_lm.Prelude.{
  ℕ, ◌+◌, ◌<◌, ◌≤◌, ◌≡◌, refl, inl, inr, ◌∙◌, List, [], ◌∷◌, some, map, ltb, ◌++◌, arith, Each,
  get_elem?, get_elem?_of_lt, lt_of_get_elem?, Option-cases,
}
use burn_lm.Prelude.Arith.{div_ceil}
use burn_lm.Pool.{BlockPool}
use burn_lm.Pool.Invariant.{Consistent}
use burn_lm.Store.{ℤ, write_indices}
use burn_lm.Store.Indices.{write_lane_total, write_indices-cons, write_indices-nil}
use burn_lm.Cache.{LanePlan, longest, snapshot, build_plan, gather_all, lane_mask}
use burn_lm.Cache.Plan.{longest-some, longest-attained, hidden, build_plan-hidden}

-- Each lane of the round holds `seq_len` positions from its start on.
abbrev pub Holds : BlockPool → ℕ → List ℕ → List ℕ → Type 0
Holds p seq_len = Each (λ (lane s : ℕ). get_elem? p.lens lane ≡ some (s + seq_len))

write_indices_total :
    (p : BlockPool) (seq_len : ℕ) (lanes starts : List ℕ)
    → Consistent p
    → Holds p seq_len lanes starts
    → (tables : List (List ℕ)) × (snapshot p.tables lanes ≡ some tables)
      × ((idx : List (ℤ × ℤ)) × (write_indices tables starts seq_len p.block_size ≡ some idx))
unfolding snapshot
write_indices_total p seq_len [] [] c h =
    ([], refl, ([], write_indices-nil [] seq_len p.block_size))
write_indices_total p seq_len [] (s ∷ starts) c h = elim h [ ]
write_indices_total p seq_len (lane ∷ lanes) [] c h = elim h [ ]
write_indices_total p seq_len (lane ∷ lanes) (s ∷ starts) c (at, h) =
    let (table, e) =
      get_elem?_of_lt p.tables lane (omega (arith, c.sized, lt_of_get_elem? p.lens lane at)) in
    let covers = c.covers lane table (s + seq_len) e at in
    let (here, f) =
      write_lane_total table p.block_size s seq_len (s + seq_len) c.positive covers (omega arith) in
    let (tables, snap, (idx, g)) = write_indices_total p seq_len lanes starts c h in
    (
      table ∷ tables,
      rw (snapshot, e, snap) refl,
      (here ++ idx, write_indices-cons table tables s starts seq_len p.block_size f g),
    )

-- In a consistent pool where each lane of a round, one at least, has the length of its start and the
-- new tokens, the plan of the round is built without a panic. It is as wide as its longest lane, and
-- its mask is causal: in a lane that starts at `s`, the new row `r` sees exactly the columns up to its
-- own position, `s + r`, and none of the padding.
pub build_plan_lem :
    (p : BlockPool) (seq_len lane s : ℕ) (lanes starts : List ℕ)
    → Consistent p
    → Holds p seq_len (lane ∷ lanes) (s ∷ starts)
    → (plan : LanePlan) × (build_plan p (lane ∷ lanes) seq_len (s ∷ starts) ≡ some plan)
      × ((k start : ℕ)
          → get_elem? (s ∷ starts) k ≡ some start
          → (start + seq_len ≤ plan.l_max)
            × ((r c : ℕ)
                → r < seq_len
                → c < plan.l_max
                → hidden plan k r c ≡ some (ltb (start + r) c)))
      × ((k start : ℕ) × (get_elem? (s ∷ starts) k ≡ some start) × (start + seq_len ≡ plan.l_max))
unfolding build_plan
build_plan_lem p seq_len lane s lanes starts c h =
    let (tables, snap, (idx, g)) = write_indices_total p seq_len (lane ∷ lanes) (s ∷ starts) c h in
    elim (Option-cases (longest (s ∷ starts) seq_len)) [
      | inl nothing ↦ absurd (longest-some s starts seq_len nothing)
      | inr (l, long) ↦
          let (plan, run, width) = built l tables idx long snap g in
          let (j, start, there, wide) = longest-attained (s ∷ starts) seq_len long in
          (
            plan,
            run,
            λ k start at. build_plan-hidden p (lane ∷ lanes) seq_len (s ∷ starts) k run at,
            (j, start, there, wide ∙ width),
          )
    ]
  where
    built :
        (l : ℕ) (tables : List (List ℕ)) (idx : List (ℤ × ℤ))
        → longest (s ∷ starts) seq_len ≡ some l
        → snapshot p.tables (lane ∷ lanes) ≡ some tables
        → write_indices tables (s ∷ starts) seq_len p.block_size ≡ some idx
        → (plan : LanePlan) × (build_plan p (lane ∷ lanes) seq_len (s ∷ starts) ≡ some plan)
          × (l ≡ plan.l_max)
    built l tables idx long snap g =
        let gathered = gather_all seq_len (div_ceil l p.block_size) tables (s ∷ starts) in
        let plan : LanePlan = record {
          lanes = lane ∷ lanes;
          starts = s ∷ starts;
          tables = tables;
          gather_idx = gathered.0;
          blocks_per_lane = div_ceil l p.block_size;
          write_idx = idx;
          l_max = l;
          lengths = gathered.1;
          mask = map (lane_mask seq_len l) (s ∷ starts);
        } in
        let run : build_plan p (lane ∷ lanes) seq_len (s ∷ starts) ≡ some plan =
          rw (build_plan, long, snap, g) refl in
        (plan, run, refl)
