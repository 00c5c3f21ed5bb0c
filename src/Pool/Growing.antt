-- ===== src/Pool/Growing.antt =====
-- The growing loop of `begin_round`.
use burn_lm.Prelude.{
  ℕ, ◌+◌, ◌-◌, ◌<◌, ◌≡◌, refl, sym, ◌∙◌, ◌≢◌, ◌⊎◌, ◌≤◌, Option, inl, inr, List, [], ◌∷◌, ◌++◌, map,
  some, true, false, arith, ◌==◌, ==_iff, Bool-cases, All, length, get_elem?, take, mem, Distinct,
  length-take, length-set, get_elem?-set_self, get_elem?-set_ne, get_elem?_of_lt, lt_of_get_elem?,
}
use burn_lm.Pool.{BlockPool, Result, ok, err, PoolExhausted, blocks_for, grow_lanes}
use burn_lm.Pool.Grow.{owners, grant, owners-grant, grow_table_cases}
use burn_lm.Pool.Rollback.{cut_back, cut_back-append, Undone, rollback_lem}

-- The pool `q` is `p` with a table for `seq_len` more tokens in each of the lanes.
pub record Grew (p : BlockPool) (seq_len : ℕ) (lanes : List ℕ) (q : BlockPool) : Type 0 where
  pub same_lens : q.lens ≡ p.lens
  pub same_size : q.block_size ≡ p.block_size
  pub same_count : length q.tables ≡ length p.tables
  pub same_owners : (b : ℕ) → owners b q ≡ owners b p
  pub kept :
      (i : ℕ) (t : List ℕ)
      → get_elem? p.tables i ≡ some t
      → mem i lanes ≡ false
      → get_elem? q.tables i ≡ some t
  pub grown :
      (i : ℕ) (t : List ℕ) (len : ℕ)
      → get_elem? p.tables i ≡ some t
      → get_elem? p.lens i ≡ some len
      → mem i lanes ≡ true
      → (added : List ℕ) × (get_elem? q.tables i ≡ some (t ++ added))
        × (length added ≡ blocks_for p (len + seq_len) - length t)

pub mem-cons_false : (i x : ℕ) (xs : List ℕ) → mem i (x ∷ xs) ≡ false → (x ≢ i) × (mem i xs ≡ false)
mem-cons_false i x xs h = ground arith

module _ (p : BlockPool) (seq_len lane : ℕ) (lanes table : List ℕ) (len : ℕ)
    (here : get_elem? p.tables lane ≡ some table) (at : get_elem? p.lens lane ≡ some len)
    (once : mem lane lanes ≡ false) where
  abbrev lacks : ℕ
  lacks = blocks_for p (len + seq_len) - length table

  -- The lane's own growth is kept by the lanes after it.
  Grew-cons_self :
      (q : BlockPool) (i : ℕ) (t : List ℕ) (l : ℕ)
      → lacks ≤ length p.free
      → Grew (grant p lane table lacks) seq_len lanes q
      → i ≡ lane
      → get_elem? p.tables i ≡ some t
      → get_elem? p.lens i ≡ some l
      → (added : List ℕ) × (get_elem? q.tables i ≡ some (t ++ added))
        × (length added ≡ blocks_for p (l + seq_len) - length t)
  Grew-cons_self q i t l room g same e el = (
    take lacks p.free,
    cc (kept_here, same_table),
    omega (arith, sized, length-take lacks p.free),
  )
    where
      kept_here : get_elem? q.tables lane ≡ some (table ++ take lacks p.free)
      kept_here =
          g.kept lane _ (get_elem?-set_self p.tables lane _ (lt_of_get_elem? p.tables lane here))
            once

      same_table : table ≡ t
      same_table = cc

      sized : blocks_for p (l + seq_len) - length t ≡ lacks
      sized = cc

  Grew-cons :
      (q : BlockPool)
      → lacks ≤ length p.free
      → Grew (grant p lane table lacks) seq_len lanes q
      → Grew p seq_len (lane ∷ lanes) q
  Grew-cons q room g = record {
    same_lens = g.same_lens;
    same_size = g.same_size;
    same_count = g.same_count ∙ length-set p.tables lane _;
    same_owners = λ b. g.same_owners b ∙ owners-grant p lane lacks b here;
    kept = λ i t e out.
        let (apart, rest) = mem-cons_false i lane lanes out in
        g.kept i t (get_elem?-set_ne p.tables lane i _ apart ∙ e) rest;
    grown = λ i t l e el m. elim (Bool-cases (i == lane)) [
      | inl same ↦ Grew-cons_self q i t l room g ((==_iff i lane).0 same) e el
      | inr other ↦
          g.grown i t l
            (get_elem?-set_ne p.tables lane i _ (λ s. cc ((==_iff i lane).1 (sym s))) ∙ e) el
            (ground arith)
    ];
  }

pub record Reverted (p : BlockPool) (tables : List (List ℕ))
    (out : Option (BlockPool × Result PoolExhausted (Unit {0}))) : Type 0 where
  pub pool : BlockPool
  pub error : PoolExhausted
  pub failed : out ≡ some (pool, err error)
  pub undone : Undone p tables pool

mem-append_one :
    (i lane n : ℕ) (grown : List (ℕ × ℕ))
    → i ≢ lane
    → mem i (map (λ g. g.0) grown) ≡ false
    → mem i (map (λ g. g.0) (grown ++ (lane, n) ∷ [])) ≡ false
mem-append_one i lane n [] h e = ground arith
mem-append_one i lane n ((j, k) ∷ grown) h e = ground (arith, mem-append_one i lane n grown h)

-- The lanes still to come are not the one just grown.
still_fresh :
    (lane n : ℕ) (grown : List (ℕ × ℕ)) (lanes : List ℕ)
    → mem lane lanes ≡ false
    → All (λ i. mem i (map (λ g. g.0) grown) ≡ false) lanes
    → All (λ i. mem i (map (λ g. g.0) (grown ++ (lane, n) ∷ [])) ≡ false) lanes
still_fresh lane n grown [] m a = tt
still_fresh lane n grown (i ∷ lanes) m (h, a) = (
  mem-append_one i lane n grown (λ e. (mem-cons_false lane i lanes m).0 e) h,
  still_fresh lane n grown lanes (mem-cons_false lane i lanes m).1 a,
)

-- The loop ends in one of two ways, and never panics, if the lanes are distinct and in range.
pub grow_lanes_cases :
    (p : BlockPool) (seq_len : ℕ) (lanes : List ℕ) (grown : List (ℕ × ℕ)) {tables : List (List ℕ)}
    → length p.tables ≡ length p.lens
    → All (λ lane. lane < length p.lens) lanes
    → All (λ lane. mem lane (map (λ g. g.0) grown) ≡ false) lanes
    → Distinct lanes
    → cut_back p.tables grown ≡ some tables
    → ((q : BlockPool) × (grow_lanes p seq_len lanes grown ≡ some (q, ok tt))
        × Grew p seq_len lanes q)
      ⊎ Reverted p tables (grow_lanes p seq_len lanes grown)
unfolding grow_lanes
grow_lanes_cases p seq_len [] grown sized inside fresh d back = inl (
  p,
  refl,
  record {
    same_lens = refl;
    same_size = refl;
    same_count = refl;
    same_owners = λ b. refl;
    kept = λ i t e m. e;
    grown = λ i t l e el m. cc;
  },
)
grow_lanes_cases p seq_len (lane ∷ lanes) grown sized inside fresh d back =
    let (table, e) = get_elem?_of_lt p.tables lane (omega arith) in
    let (len, f) = get_elem?_of_lt p.lens lane (omega arith) in
    elim (grow_table_cases p lane (len + seq_len) e) [
      | inl (done, room) ↦
          let n = blocks_for p (len + seq_len) - length table in
          rw (e, f, done)
            (elim (grow_lanes_cases (grant p lane table n) seq_len lanes
              (grown ++ (lane, length table) ∷ []) (length-set p.tables lane _ ∙ sized) inside.1
              (still_fresh lane (length table) grown lanes d.0 fresh.1) d.1
              (cut_back-append p.tables grown lane (take n p.free) fresh.0 e ∙ back)) [
                | inl (q, ran, g) ↦
                    inl (q, ran, Grew-cons p seq_len lane lanes table len e f d.0 q room g)
                | inr r ↦ inr (record {
                  pool = r.pool;
                  error = r.error;
                  failed = r.failed;
                  undone = record {
                    same_tables = r.undone.same_tables;
                    same_lens = r.undone.same_lens;
                    same_size = r.undone.same_size;
                    same_owners = λ b. r.undone.same_owners b ∙ owners-grant p lane n b e;
                  };
                })
              ])
      | inr (short, failed, _, _) ↦
          let (q, ran, u) = rollback_lem p grown back in
          inr (record { pool = q; error = short; failed = rw (e, f, failed, ran); undone = u })
    ]
