-- ===== src/Pool/Reach.antt =====
-- Every pool that the operations make of a new one.
use native.Mathlib.Nat.{mod-eq_of_lt}
use burn_lm.Prelude.{
  ℕ, zero, suc, ◌<◌, ◌^◌, ◌≡◌, refl, sym, ◌∙◌, subst, ◌&&◌, ◌||◌, inl, inr, List, [], map, some,
  arith, ltb, if◌then◌else◌, All, length, get_elem?, sum, count, replicate, Distinct, Bool-cases,
  length-replicate,
}
use burn_lm.Prelude.Arith.{div_ceil-le}
use burn_lm.Pool.{BlockPool, Result, PoolExhausted, block_ids, new, begin_round, free_lane}
use burn_lm.Pool.Invariant.{Consistent}
use burn_lm.Pool.Grow.{owners}
use burn_lm.Pool.Round.{
  begin_round_cases, free_lane_lem, Committed-Consistent, RolledBack-Consistent, Freed-Consistent,
}

-- One call, with arguments that the debug assertions admit. A round may commit or be exhausted.
pub data Step (p q : BlockPool) : Type 0 where
  round :
      (lanes : List ℕ) (seq_len : ℕ) (result : Result PoolExhausted (List ℕ))
      → All (λ lane. lane < length p.lens) lanes
      → Distinct lanes
      → begin_round p lanes seq_len ≡ some (q, result)
      → Step p q
  free : (lane : ℕ) → lane < length p.lens → free_lane p lane ≡ some q → Step p q

pub data Reach (p : BlockPool) : BlockPool → Type 0 where
  here : Reach p p
  next : {q r : BlockPool} → Reach p q → Step q r → Reach p r

-- One where a usable block id stands, zero elsewhere: the ids are `1..num_blocks`.
abbrev pub one_owner : ℕ → ℕ → ℕ
one_owner num_blocks b = if ltb 0 b && ltb b num_blocks then 1 else 0

count-block_ids : (n b : ℕ) → count b (block_ids n) ≡ one_owner n b
unfolding block_ids
count-block_ids zero b = ground arith
count-block_ids (suc zero) b = ground arith
count-block_ids (suc (suc n)) b = ground (arith, count-block_ids (suc n) b)

count-no_tables : (b n : ℕ) → sum (map (count b) (replicate n [])) ≡ 0
count-no_tables b zero = refl
count-no_tables b (suc n) = omega (arith, count-no_tables b n)

get_elem?-replicate :
    {A : Type 0} (n i : ℕ) (a : A) {x : A} → get_elem? (replicate n a) i ≡ some x → x ≡ a
get_elem?-replicate zero i a e = cc
get_elem?-replicate (suc n) zero a e = cc
get_elem?-replicate (suc n) (suc i) a e = get_elem?-replicate n i a e

-- What every call keeps.
pub record Ledger (num_blocks : ℕ) (p : BlockPool) : Type 0 where
  pub consistent : Consistent p
  pub owned_once : (b : ℕ) → owners b p ≡ one_owner num_blocks b

-- What `new` builds.
abbrev fresh : ℕ → ℕ → ℕ → BlockPool
fresh block_size num_blocks num_lanes = record {
  block_size = block_size;
  free = block_ids num_blocks;
  tables = replicate num_lanes [];
  lens = replicate num_lanes 0;
}

fresh-Ledger :
    (block_size num_blocks num_lanes : ℕ)
    → 0 < block_size
    → Ledger num_blocks (fresh block_size num_blocks num_lanes)
fresh-Ledger block_size num_blocks num_lanes pos = record {
  consistent = record {
    positive = pos;
    sized = length-replicate {A = List ℕ} num_lanes [] ∙ sym (length-replicate {A = ℕ} num_lanes 0);
    covers = λ i table len e f.
        rw (get_elem?-replicate num_lanes i [] e, get_elem?-replicate num_lanes i 0 f)
          (omega (arith, div_ceil-le 0 block_size 0 pos (omega arith)));
  };
  owned_once = λ b. omega (arith, count-block_ids num_blocks b, count-no_tables b num_lanes);
}

-- If `new` builds a pool of fewer than `2 ^ 32` blocks, every lane of it has the blocks that its length
-- needs, and every id below `num_blocks` but the sentinel is held exactly once.
pub new-Ledger :
    (block_size num_blocks num_lanes : ℕ) {p : BlockPool}
    → num_blocks < 2 ^ 32
    → new block_size num_blocks num_lanes ≡ some p
    → Ledger num_blocks p
unfolding new
new-Ledger block_size num_blocks num_lanes {p} small e =
    elim (Bool-cases (ltb block_size 1 || ltb num_blocks 2)) [
      | inl bad ↦ absurd (cc (rw bad at e))
      | inr good ↦
          let e' = rw (good, mod-eq_of_lt small) at e in
          let same : fresh block_size num_blocks num_lanes ≡ p = cc in
          subst (Ledger num_blocks) same
            (fresh-Ledger block_size num_blocks num_lanes (ground arith))
    ]

pub Step-Ledger : (n : ℕ) {p q : BlockPool} → Step p q → Ledger n p → Ledger n q
Step-Ledger n {p} {q} (round lanes seq_len result inside d e) g =
    elim (begin_round_cases p seq_len lanes g.consistent inside d) [
      | inl (q', s, e', m) ↦
          let same : q' ≡ q = cc in
          subst (Ledger n) same (record {
            consistent = Committed-Consistent p seq_len lanes q' s g.consistent m;
            owned_once = λ b. m.same_owners b ∙ g.owned_once b;
          })
      | inr (q', x, e', r) ↦
          let same : q' ≡ q = cc in
          subst (Ledger n) same (record {
            consistent = RolledBack-Consistent p q' g.consistent r;
            owned_once = λ b. r.same_owners b ∙ g.owned_once b;
          })
    ]
Step-Ledger n {p} {q} (free lane h e) g =
    let (q', e', r) = free_lane_lem p lane g.consistent h in
    let same : q' ≡ q = cc in
    subst (Ledger n) same (record {
      consistent = Freed-Consistent p lane q' g.consistent r;
      owned_once = λ b. r.same_owners b ∙ g.owned_once b;
    })

-- Whatever rounds and releases a new pool goes through, every lane keeps exactly the blocks that its
-- length needs, every usable block is held exactly once, by a lane or by the free stack, and the
-- sentinel and every id past the pool are held by nobody.
pub Reach-Ledger : (n : ℕ) {p q : BlockPool} → Ledger n p → Reach p q → Ledger n q
Reach-Ledger n g here = g
Reach-Ledger n g (next r s) = Step-Ledger n s (Reach-Ledger n g r)
