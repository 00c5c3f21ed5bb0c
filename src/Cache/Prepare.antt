-- ===== src/Cache/Prepare.antt =====
-- `prepare_lanes` as a whole: it never panics, an error leaves the lanes as they were, and a plan that
-- is written extends the rows of each lane.
use burn_lm.Prelude.{
  ℕ, ◌+◌, ◌<◌, ◌≤◌, ◌^◌, ◌≡◌, ◌⊎◌, inl, inr, refl, ap, ◌∙◌, subst, List, [], ◌∷◌, ◌++◌, none, some,
  arith, length, get_elem?, get_elem?_of_lt, >>=-eq-some, Distinct, mem, All, Bool-cases, true, ltb,
  ◌==◌, ==_iff, lt_of_get_elem?,
}
use burn_lm.Pool.{BlockPool, ok, err, short_by}
use burn_lm.Pool.Invariant.{Consistent}
use burn_lm.Pool.Reach.{Ledger}
use burn_lm.Pool.Round.{
  Committed, AreLens, begin_round_cases, Committed-Consistent, RolledBack-Consistent,
}
use burn_lm.Store.{Tensors, BlockStore, write, write_indices}
use burn_lm.Cache.{
  PagedKvCache, PagedKvError, LanePlan, too_long, longest, snapshot, build_plan, prepare_lanes,
  max_sequence_length_exceeded, pool_exhausted,
}
use burn_lm.Cache.Total.{Holds, build_plan_lem}
use burn_lm.Cache.Placed.{row_number}
use burn_lm.Cache.Contents.{IsAddressable, Represents, rows_for}
use burn_lm.Cache.Refines.{write-Represents}

-- A ledger of few enough blocks can be addressed as an `i32`.
pub Ledger-IsAddressable :
    (num_blocks : ℕ) (p : BlockPool)
    → num_blocks ≤ 2 ^ 31
    → p.block_size ≤ 2 ^ 31
    → Ledger num_blocks p
    → IsAddressable p
Ledger-IsAddressable num_blocks p few narrow g = record {
  positive = g.consistent.positive;
  small_blocks = narrow;
  once = λ b. ground (arith, g.owned_once b);
  small_ids = λ b wide. ground (arith, g.owned_once b);
}

Committed-IsAddressable :
    (p q : BlockPool) (n : ℕ) (lanes starts : List ℕ)
    → Committed p n lanes q starts
    → IsAddressable p
    → IsAddressable q
Committed-IsAddressable p q n lanes starts m h = record {
  positive = omega (arith, h.positive, m.same_size);
  small_blocks = omega (arith, h.small_blocks, m.same_size);
  once = λ b. omega (arith, h.once b, m.same_owners b);
  small_ids = λ b wide. m.same_owners b ∙ h.small_ids b wide;
}

-- After a committed round a lane of it has its start and the new tokens.
Committed-Holds :
    (p q : BlockPool) (n : ℕ) (all starts all_starts lanes : List ℕ)
    → Committed p n all q all_starts
    → AreLens p.lens lanes starts
    → All (λ lane. mem lane all ≡ true) lanes
    → Holds q n lanes starts
Committed-Holds p q n all [] all_starts [] m h inside = tt
Committed-Holds p q n all (s ∷ starts) all_starts [] m h inside = absurd h
Committed-Holds p q n all [] all_starts (l ∷ lanes) m h inside = absurd h
Committed-Holds p q n all (s ∷ starts) all_starts (l ∷ lanes) m (at, h) (here, inside) =
    (m.lens.longer l s at here, Committed-Holds p q n all starts all_starts lanes m h inside)

mem-more :
    (l : ℕ) (all lanes : List ℕ)
    → All (λ lane. mem lane all ≡ true) lanes
    → All (λ lane. mem lane (l ∷ all) ≡ true) lanes
mem-more l all [] h = tt
mem-more l all (x ∷ lanes) (h, rest) = (ground arith, mem-more l all lanes rest)

mem-All : (lanes : List ℕ) → All (λ lane. mem lane lanes ≡ true) lanes
mem-All [] = tt
mem-All (l ∷ lanes) = (ground arith, mem-more l lanes lanes (mem-All lanes))

-- Whether a lane has no room.
too_long_cases :
    (lens : List ℕ) (n limit : ℕ) (lanes : List ℕ)
    → All (λ lane. lane < length lens) lanes
    → ((actual : ℕ) × (too_long lens n limit lanes ≡ some (some actual)))
      ⊎ ((too_long lens n limit lanes ≡ some none)
          × ((lane len : ℕ)
              → mem lane lanes ≡ true
              → get_elem? lens lane ≡ some len
              → len + n ≤ limit))
unfolding too_long
too_long_cases lens n limit [] inside = inr (refl, λ lane len in_round e. cc)
too_long_cases lens n limit (l ∷ lanes) (at, inside) =
    let (len, e) = get_elem?_of_lt lens l at in
    elim (Bool-cases (ltb limit (len + n))) [
      | inl over ↦ inl (len + n, rw (e, over) refl)
      | inr room ↦ elim (too_long_cases lens n limit lanes inside) [
        | inl (actual, found) ↦ inl (actual, rw (e, room) found)
        | inr (fine, fits) ↦ inr (
          rw (e, room) fine,
          λ lane len' in_round e'. elim (Bool-cases (lane == l)) [
            | inl same ↦
                let same_len : len' ≡ len = cc (e, e', (==_iff lane l).0 same) in
                ground (arith, same_len)
            | inr other ↦ fits lane len' (ground arith) e'
          ],
        )
      ]
    ]

plan_total :
    (p q : BlockPool) (n lane : ℕ) (lanes starts : List ℕ)
    → Consistent p
    → Committed p n (lane ∷ lanes) q starts
    → (plan : LanePlan) × (build_plan q (lane ∷ lanes) n starts ≡ some plan)
plan_total p q n lane lanes [] g m = absurd m.starts_are
plan_total p q n lane lanes (s ∷ starts) g m =
    let (plan, run, rest, width) =
      build_plan_lem q n lane s lanes starts
        (Committed-Consistent p n (lane ∷ lanes) q (s ∷ starts) g m)
        (Committed-Holds p q n (lane ∷ lanes) (s ∷ starts) (s ∷ starts) (lane ∷ lanes) m
          m.starts_are (mem-All (lane ∷ lanes))) in
    (plan, run)

-- What a plan comes with.
pub record Prepared (c : PagedKvCache) (n : ℕ) (lanes : List ℕ) (c' : PagedKvCache)
    (plan : LanePlan) : Type 0 where
  pub starts : List ℕ
  pub consistent : Consistent c'.pool
  pub same_layout : c'.layout ≡ c.layout
  pub committed : Committed c.pool n lanes c'.pool starts
  pub planned : build_plan c'.pool lanes n starts ≡ some plan
  pub in_window :
      (lane len : ℕ)
      → mem lane lanes ≡ true
      → get_elem? c'.pool.lens lane ≡ some len
      → len ≤ c.layout.max_seq_len

-- `prepare_lanes` for one lane or more, all of them in range and different, never panics in a
-- consistent pool. It gives a plan, over a committed round that leaves every lane of it within
-- `max_seq_len`; or an error, and then every table and length is as it was. The pool is consistent
-- after both.
pub prepare_lanes_cases :
    (c : PagedKvCache) (n lane : ℕ) (lanes : List ℕ)
    → Consistent c.pool
    → All (λ l. l < length c.pool.lens) (lane ∷ lanes)
    → Distinct (lane ∷ lanes)
    → ((c' : PagedKvCache) × (plan : LanePlan) × (prepare_lanes c (lane ∷ lanes) n
          ≡ some (c', ok plan))
        × Prepared c n (lane ∷ lanes) c' plan)
      ⊎ ((c' : PagedKvCache) × (e : PagedKvError) × (prepare_lanes c (lane ∷ lanes) n
            ≡ some (c', err e))
          × (c'.pool.tables ≡ c.pool.tables)
          × (c'.pool.lens ≡ c.pool.lens)
          × Consistent c'.pool
          × (c'.layout ≡ c.layout))
unfolding prepare_lanes
prepare_lanes_cases c n lane lanes g inside d =
    elim (too_long_cases c.pool.lens n c.layout.max_seq_len (lane ∷ lanes) inside) [
      | inl (actual, over) ↦ inr (
        c,
        max_sequence_length_exceeded actual c.layout.max_seq_len,
        rw over refl,
        refl,
        refl,
        g,
        refl,
      )
      | inr (fine, fits) ↦ elim (begin_round_cases c.pool n (lane ∷ lanes) g inside d) [
        | inl (q, starts, ran, m) ↦
            let (plan, planned) = plan_total c.pool q n lane lanes starts g m in
            inl (
              record c { pool = q },
              plan,
              rw (fine, ran, planned) refl,
              record {
                starts = starts;
                consistent = Committed-Consistent c.pool n (lane ∷ lanes) q starts g m;
                same_layout = refl;
                committed = m;
                planned = planned;
                in_window = λ l len inside_round e.
                    let (old, at) =
                      get_elem?_of_lt c.pool.lens l
                        (omega (arith, lt_of_get_elem? q.lens l e, m.lens.same_count)) in
                    let grown : len ≡ old + n = cc (e, m.lens.longer l old at inside_round) in
                    omega (arith, grown, fits l old inside_round at);
              },
            )
        | inr (q, short_by k, ran, r) ↦ inr (
          record c { pool = q },
          pool_exhausted k,
          rw (fine, ran) refl,
          r.same_tables,
          r.same_lens,
          RolledBack-Consistent c.pool q g r,
          refl,
        )
      ]
    ]

-- The plan of a round lists the write indices of its lanes.
planned_writes :
    (p : BlockPool) (lanes : List ℕ) (n : ℕ) (starts : List ℕ) {plan : LanePlan}
    → build_plan p lanes n starts ≡ some plan
    → (tables : List (List ℕ)) × (snapshot p.tables lanes ≡ some tables)
      × (write_indices tables starts n p.block_size ≡ some plan.write_idx)
unfolding build_plan
planned_writes p lanes n starts {plan} e =
    let (l, long, e1) = >>=-eq-some (longest starts n) _ e in
    let (tables, snap, e2) = >>=-eq-some (snapshot p.tables lanes) _ e1 in
    let (idx, writes, e3) = >>=-eq-some (write_indices tables starts n p.block_size) _ e2 in
    let same : idx ≡ plan.write_idx = cc in (tables, snap, writes ∙ ap some same)

-- If a store shows a list of rows for each lane, and has a block for every id that is held, then after `prepare_lanes` gave a plan and the rows of
-- the round were written at the plan's indices it shows the same lists, those of the lanes of the
-- round with their new rows at the end. The ledger has at most `2 ^ 31` blocks, and a block at most
-- `2 ^ 31` positions.
pub prepare_lanes-Represents :
    (T : Tensors) (num_blocks : ℕ) (c : PagedKvCache) (n lane : ℕ) (lanes : List ℕ)
    {c' : PagedKvCache} {plan : LanePlan} (s : BlockStore T) (fresh : Tensors.Fresh T)
    (view : ℕ → List (Tensors.Row T))
    → num_blocks ≤ 2 ^ 31
    → c.pool.block_size ≤ 2 ^ 31
    → Ledger num_blocks c.pool
    → All (λ l. l < length c.pool.lens) (lane ∷ lanes)
    → Distinct (lane ∷ lanes)
    → length (Tensors.token_major T fresh) ≡ row_number n (length (lane ∷ lanes)) 0
    → prepare_lanes c (lane ∷ lanes) n ≡ some (c', ok plan)
    → Represents T s c.pool view
    → Represents T
        (write T s plan.write_idx fresh)
        c'.pool
        (λ l. view l ++ rows_for n (lane ∷ lanes) (Tensors.token_major T fresh) l)
prepare_lanes-Represents T num_blocks c n lane lanes {c'} {plan} s fresh view few narrow g inside d
      full run v =
    elim (prepare_lanes_cases c n lane lanes g.consistent inside d) [
      | inr (c'', e, failed, tables, lens, good, layout) ↦ cc
      | inl (c'', plan', ran, r) ↦
          let same : c'' ≡ c' = cc in
          let same_plan : plan' ≡ plan = cc in
          let (tables, snap, writes) =
            planned_writes c''.pool (lane ∷ lanes) n r.starts r.planned in
          subst
            (λ (x : PagedKvCache).
              Represents T (write T s plan.write_idx fresh) x.pool
                (λ l. view l ++ rows_for n (lane ∷ lanes) (Tensors.token_major T fresh) l))
            same
            (subst
              (λ (x : LanePlan).
                Represents T (write T s x.write_idx fresh) c''.pool
                  (λ l. view l ++ rows_for n (lane ∷ lanes) (Tensors.token_major T fresh) l))
              same_plan
              (write-Represents T c.pool c''.pool n (lane ∷ lanes) r.starts tables plan'.write_idx s
                fresh d
                (Committed-IsAddressable c.pool c''.pool n (lane ∷ lanes) r.starts r.committed
                  (Ledger-IsAddressable num_blocks c.pool few narrow g))
                r.committed snap writes v.offsets v.blocks view full v))
    ]
