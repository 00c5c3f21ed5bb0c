-- ===== src/Pool/Round.antt =====
-- `begin_round` and `free_lane` as a whole.
use burn_lm.Prelude.{
  ℕ, ◌+◌, ◌<◌, ◌≡◌, refl, sym, ap, ◌∙◌, ◌≢◌, ◌⊎◌, inl, inr, List, [], ◌∷◌, ◌++◌, some, true, false,
  arith, ◌==◌, ==_iff, Bool-cases, All, length, get_elem?, set, mem, Distinct, length-set,
  get_elem?-set_self, get_elem?-set_ne, get_elem?_of_lt, length-append, lt_of_get_elem?, count,
  sum-map-set,
}
use burn_lm.Pool.{
  BlockPool, ok, err, PoolExhausted, blocks_for, extend, read_lens, advance_lens, begin_round,
  free_lane,
}
use burn_lm.Prelude.Arith.{div_ceil_mono, div_ceil-le}
use burn_lm.Pool.Invariant.{Consistent}
use burn_lm.Pool.Grow.{owners, count-extend}
use burn_lm.Pool.Rollback.{cut_back, cut_back-nil}
use burn_lm.Pool.Growing.{Grew, grow_lanes_cases, mem-cons_false}

-- The starts are the lengths of the lanes, one by one.
abbrev pub AreLens : List ℕ → List ℕ → List ℕ → Type 0
AreLens lens [] [] = Unit
AreLens lens (lane ∷ lanes) (s ∷ starts) =
    (get_elem? lens lane ≡ some s) × AreLens lens lanes starts
AreLens lens _ _ = ⊥

read_lens_lem :
    (lens lanes : List ℕ)
    → All (λ lane. lane < length lens) lanes
    → (starts : List ℕ) × (read_lens lens lanes ≡ some starts) × AreLens lens lanes starts
unfolding read_lens
read_lens_lem lens [] inside = ([], refl, tt)
read_lens_lem lens (lane ∷ lanes) inside =
    let (s, e) = get_elem?_of_lt lens lane inside.0 in
    let (starts, f, are) = read_lens_lem lens lanes inside.1 in (s ∷ starts, rw (e, f), (e, are))

-- Each lane of the round is longer by `seq_len`, every other as it was.
pub record Advanced (lens : List ℕ) (seq_len : ℕ) (lanes lens' : List ℕ) : Type 0 where
  pub same_count : length lens' ≡ length lens
  pub kept :
      (i len : ℕ) → get_elem? lens i ≡ some len → mem i lanes ≡ false → get_elem? lens' i ≡ some len
  pub longer :
      (i len : ℕ)
      → get_elem? lens i ≡ some len
      → mem i lanes ≡ true
      → get_elem? lens' i ≡ some (len + seq_len)

Advanced-cons :
    (lens : List ℕ) (seq_len lane : ℕ) (lanes lens' : List ℕ) (len : ℕ)
    → get_elem? lens lane ≡ some len
    → mem lane lanes ≡ false
    → Advanced (set lens lane (len + seq_len)) seq_len lanes lens'
    → Advanced lens seq_len (lane ∷ lanes) lens'
Advanced-cons lens seq_len lane lanes lens' len at once a = record {
  same_count = a.same_count ∙ length-set lens lane _;
  kept = λ i l e out.
      let (apart, rest) = mem-cons_false i lane lanes out in
      a.kept i l (get_elem?-set_ne lens lane i _ apart ∙ e) rest;
  longer = λ i l e m. elim (Bool-cases (i == lane)) [
    | inl same ↦
        let eq = (==_iff i lane).0 same in
        cc (
          eq,
          e,
          at,
          a.kept lane (len + seq_len)
              (get_elem?-set_self lens lane _ (lt_of_get_elem? lens lane at)) once,
        )
    | inr other ↦
        a.longer i l (get_elem?-set_ne lens lane i _ (λ s. cc ((==_iff i lane).1 (sym s))) ∙ e)
          (ground arith)
  ];
}

advance_lens_lem :
    (lens : List ℕ) (seq_len : ℕ) (lanes : List ℕ)
    → All (λ lane. lane < length lens) lanes
    → Distinct lanes
    → (lens' : List ℕ) × (advance_lens lens seq_len lanes ≡ some lens')
      × Advanced lens seq_len lanes lens'
unfolding advance_lens
advance_lens_lem lens seq_len [] inside d =
    (lens, refl, record { same_count = refl; kept = λ i l e m. e; longer = λ i l e m. cc })
advance_lens_lem lens seq_len (lane ∷ lanes) inside d =
    let (len, e) = get_elem?_of_lt lens lane inside.0 in
    let (lens', f, a) =
      advance_lens_lem (set lens lane (len + seq_len)) seq_len lanes
        (rw (length-set lens lane (len + seq_len)) inside.1) d.1 in
    (lens', rw (e, f), Advanced-cons lens seq_len lane lanes lens' len e d.0 a)

-- What a committed round leaves behind.
pub record Committed (p : BlockPool) (seq_len : ℕ) (lanes : List ℕ) (q : BlockPool)
    (starts : List ℕ) : Type 0 where
  pub same_size : q.block_size ≡ p.block_size
  pub same_tables : length q.tables ≡ length p.tables
  pub same_owners : (b : ℕ) → owners b q ≡ owners b p
  pub lens : Advanced p.lens seq_len lanes q.lens
  pub tables : Grew p seq_len lanes (record q { lens = p.lens })
  pub starts_are : AreLens p.lens lanes starts

-- What an exhausted round leaves behind: every ledger as it was, every block held as before.
pub record RolledBack (p q : BlockPool) : Type 0 where
  pub same_tables : q.tables ≡ p.tables
  pub same_lens : q.lens ≡ p.lens
  pub same_size : q.block_size ≡ p.block_size
  pub same_owners : (b : ℕ) → owners b q ≡ owners b p

-- A round over distinct lanes, all in range, of a consistent pool never panics. It commits: each lane
-- of the round is longer by `seq_len`, with the blocks for that at the end of its table, the others
-- are as they were, and the starts are the lengths before. Or it is exhausted, and every table and
-- length is as it was. In both cases each block is held as often as before.
pub begin_round_cases :
    (p : BlockPool) (seq_len : ℕ) (lanes : List ℕ)
    → Consistent p
    → All (λ lane. lane < length p.lens) lanes
    → Distinct lanes
    → ((q : BlockPool) × (starts : List ℕ) × (begin_round p lanes seq_len ≡ some (q, ok starts))
        × Committed p seq_len lanes q starts)
      ⊎ ((q : BlockPool) × (e : PoolExhausted) × (begin_round p lanes seq_len ≡ some (q, err e))
          × RolledBack p q)
unfolding begin_round
begin_round_cases p seq_len lanes c inside d =
    elim (grow_lanes_cases p seq_len lanes [] c.sized inside (nothing_grown lanes) d back) [
      | inl (q, ran, g) ↦
          let (starts, e, are) = read_lens_lem p.lens lanes inside in
          let (lens, f, a) = advance_lens_lem p.lens seq_len lanes inside d in
          inl (
            record q { lens = lens },
            starts,
            rw (ran, begin_round, g.same_lens, e, f),
            record {
              same_size = g.same_size;
              same_tables = g.same_count;
              same_owners = g.same_owners;
              lens = a;
              tables = record {
                same_lens = refl;
                same_size = g.same_size;
                same_count = g.same_count;
                same_owners = g.same_owners;
                kept = g.kept;
                grown = g.grown;
              };
              starts_are = are;
            },
          )
      | inr r ↦ inr (
        r.pool,
        r.error,
        rw (r.failed, begin_round),
        record {
          same_tables = r.undone.same_tables;
          same_lens = r.undone.same_lens;
          same_size = r.undone.same_size;
          same_owners = r.undone.same_owners;
        },
      )
    ]
  where
    nothing_grown : (is : List ℕ) → All (λ i. mem i [] ≡ false) is
    nothing_grown [] = tt
    nothing_grown (i ∷ is) = (refl, nothing_grown is)

    back : cut_back p.tables [] ≡ some p.tables
    back = cut_back-nil p.tables

-- A committed round keeps every lane covered.
pub Committed-Consistent :
    (p : BlockPool) (seq_len : ℕ) (lanes : List ℕ) (q : BlockPool) (starts : List ℕ)
    → Consistent p
    → Committed p seq_len lanes q starts
    → Consistent q
Committed-Consistent p seq_len lanes q starts c m = record {
  positive = omega (arith, c.positive, m.same_size);
  sized = m.same_tables ∙ c.sized ∙ sym m.lens.same_count;
  covers = λ i table len e f.
      let (t, e') =
        get_elem?_of_lt p.tables i (omega (arith, lt_of_get_elem? q.tables i e, m.same_tables)) in
      let (l, f') =
        get_elem?_of_lt p.lens i (omega (arith, lt_of_get_elem? q.lens i f, m.lens.same_count)) in
      let fits = c.covers i t l e' f' in
      elim (Bool-cases (mem i lanes)) [
        | inl inside ↦
            let (added, g, n) = m.tables.grown i t l e' f' inside in
            let st : table ≡ t ++ added = cc in
            let sl : len ≡ l + seq_len = cc (f, m.lens.longer i l f' inside) in
            rw (st, sl, m.same_size, length-append t added)
              (omega (
                arith,
                n,
                fits,
                div_ceil_mono l (l + seq_len) p.block_size c.positive (omega arith),
              ))
        | inr outside ↦
            cc (e, f, m.tables.kept i t e' outside, m.lens.kept i l f' outside, fits, m.same_size)
      ];
}

pub RolledBack-Consistent : (p q : BlockPool) → Consistent p → RolledBack p q → Consistent q
RolledBack-Consistent p q c r = record {
  positive = omega (arith, c.positive, r.same_size);
  sized = cc (c.sized, r.same_tables, r.same_lens);
  covers = λ i table len e f.
      rw r.same_size (c.covers i table len (rw r.same_tables at e) (rw r.same_lens at f));
}

-- Freeing a lane empties its table and zeroes its length; every block of it is free again.
pub record Freed (p : BlockPool) (lane : ℕ) (q : BlockPool) : Type 0 where
  pub same_size : q.block_size ≡ p.block_size
  pub tables : q.tables ≡ set p.tables lane []
  pub lens : q.lens ≡ set p.lens lane 0
  pub same_owners : (b : ℕ) → owners b q ≡ owners b p

-- Releasing a lane, in range, of a consistent pool never panics. Its table is empty and its length is
-- zero after it, the other lanes are as they were, and each block is held as often as before: those
-- of the lane are free.
pub free_lane_lem :
    (p : BlockPool) (lane : ℕ)
    → Consistent p
    → lane < length p.lens
    → (q : BlockPool) × (free_lane p lane ≡ some q) × Freed p lane q
unfolding free_lane
free_lane_lem p lane c h =
    let (t, e) = get_elem?_of_lt p.tables lane (omega (arith, c.sized)) in
    let (l, f) = get_elem?_of_lt p.lens lane h in
    (
      record p { free = extend p.free t; tables = set p.tables lane []; lens = set p.lens lane 0 },
      rw (e, f),
      record {
        same_size = refl;
        tables = refl;
        lens = refl;
        same_owners =
            λ b. omega (arith, count-extend b p.free t, sum-map-set (count b) p.tables lane [] e);
      },
    )

Freed-Consistent_self :
    (p q : BlockPool) (lane i : ℕ) (table : List ℕ) (len : ℕ)
    → Consistent p
    → Freed p lane q
    → lane ≡ i
    → get_elem? q.tables i ≡ some table
    → get_elem? q.lens i ≡ some len
    → length table ≡ blocks_for q len
Freed-Consistent_self p q lane i table len c r eq e f =
    let inside = lt_of_get_elem? q.tables i e in
    let inside' = lt_of_get_elem? q.lens i f in
    let gone =
      get_elem?-set_self p.tables lane []
        (omega (arith, eq, inside, ap length r.tables, length-set p.tables lane [])) in
    let zeroed =
      get_elem?-set_self p.lens lane 0
        (omega (arith, eq, inside', ap length r.lens, length-set p.lens lane 0)) in
    let empty : table ≡ [] = cc (e, gone, r.tables, eq) in
    let none_left : len ≡ 0 = cc (f, zeroed, r.lens, eq) in
    rw (empty, none_left, r.same_size)
      (omega (arith, div_ceil-le 0 p.block_size 0 c.positive (omega arith)))

pub Freed-Consistent :
    (p : BlockPool) (lane : ℕ) (q : BlockPool) → Consistent p → Freed p lane q → Consistent q
Freed-Consistent p lane q c r = record {
  positive = omega (arith, c.positive, r.same_size);
  sized = cc (c.sized, r.tables, r.lens, length-set p.tables lane [], length-set p.lens lane 0);
  covers = λ i table len e f.
      let e' = rw r.tables at e in
      let f' = rw r.lens at f in
      elim (Bool-cases (lane == i)) [
        | inl same ↦
            let eq = (==_iff lane i).0 same in Freed-Consistent_self p q lane i table len c r eq e f
        | inr other ↦
            let apart : lane ≢ i = λ s. cc ((==_iff lane i).1 s) in
            rw r.same_size (
              c.covers i table len (sym (get_elem?-set_ne p.tables lane i [] apart) ∙ e')
                (sym (get_elem?-set_ne p.lens lane i 0 apart) ∙ f'))
      ];
}
