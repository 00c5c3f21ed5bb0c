-- ===== src/Cache/Reset.antt =====
-- `reset_lane` for a lane in range.
use burn_lm.Prelude.{
  ℕ, ◌<◌, ◌≡◌, ◌≢◌, refl, ap, ◌∙◌, some, arith, leb, length, get_elem?, get_elem?-set_self,
  get_elem?-set_ne, length-set, false,
}
use burn_lm.Pool.Invariant.{Consistent}
use burn_lm.Pool.Round.{free_lane_lem, Freed-Consistent}
use burn_lm.Cache.{PagedKvCache, reset_lane}

-- The lane is empty, and the others are as they were.
pub record Cleared (c : PagedKvCache) (lane : ℕ) (c' : PagedKvCache) : Type 0 where
  pub consistent : Consistent c'.pool
  pub emptied : get_elem? c'.pool.lens lane ≡ some 0
  pub others : (i : ℕ) → lane ≢ i → get_elem? c'.pool.lens i ≡ get_elem? c.pool.lens i
  pub same_count : length c'.pool.lens ≡ length c.pool.lens
  pub same_layout : c'.layout ≡ c.layout

pub reset_lane_lem :
    (c : PagedKvCache) (lane : ℕ)
    → Consistent c.pool
    → lane < length c.pool.lens
    → (c' : PagedKvCache) × (reset_lane c lane ≡ some c') × Cleared c lane c'
unfolding reset_lane
reset_lane_lem c lane g inside =
    let (q, e, freed) = free_lane_lem c.pool lane g inside in
    let there : leb (length c.pool.lens) lane ≡ false = ground arith in
    (
      record c { pool = q },
      rw (there, e) refl,
      record {
        consistent = Freed-Consistent c.pool lane q g freed;
        emptied =
            ap (λ l. get_elem? l lane) freed.lens ∙ get_elem?-set_self c.pool.lens lane 0 inside;
        others =
            λ i ne. ap (λ l. get_elem? l i) freed.lens ∙ get_elem?-set_ne c.pool.lens lane i 0 ne;
        same_count = ap length freed.lens ∙ length-set c.pool.lens lane 0;
        same_layout = refl;
      },
    )
