-- ===== src/Worker/Growth/Conserved.antt =====
-- Nobody is lost in `grant_kv_growth`: a sequence stays active or stands on the resume list.
use burn_lm.Prelude.{
  ℕ, zero, suc, ◌+◌, ◌≤◌, ◌≡◌, ◌≢◌, refl, ap, ◌∙◌, List, [], ◌∷◌, Option, some, get_elem?, set,
  arith, sum, map, sum-map-set,
}
use burn_lm.Engine.{KvBudget, usize_max}
use burn_lm.Worker.{JobMeta, JobSeq, ResumedJob, reserved_blocks}
use burn_lm.Worker.Growth.{Growth, remove, evict, senior_from, grant_kv_growth}
use burn_lm.Worker.Growth.Preserved.{IsPreserved, grant_kv_growth-IsPreserved}

module _ (f : JobMeta → ℕ) where
  -- A weight of the requests that are active or wait to be resumed; a request counts as often as it
  -- stands there.
  abbrev pub weight : List JobSeq → List ResumedJob → ℕ
  weight active resume =
      sum (map (λ (seq : JobSeq). f seq.extra) active)
      + sum (map (λ (job : ResumedJob). f job.meta) resume)

  abbrev weighs : Growth → ℕ
  weighs g = weight g.active g.resume

  set-weight :
      (active : List JobSeq) (resume : List ResumedJob) (i : ℕ) (seq' : JobSeq) {seq : JobSeq}
      → get_elem? active i ≡ some seq
      → seq'.extra ≡ seq.extra
      → weight (set active i seq') resume ≡ weight active resume
  set-weight active resume i seq' e same =
      omega (arith, sum-map-set (λ (seq : JobSeq). f seq.extra) active i seq' e, ap f same)

  remove-weight :
      (active : List JobSeq) (v : ℕ) {seq : JobSeq}
      → get_elem? active v ≡ some seq
      → sum (map (λ (t : JobSeq). f t.extra) (remove active v)) + f seq.extra
        ≡ sum (map (λ (t : JobSeq). f t.extra) active)
  remove-weight [] v e = cc
  remove-weight (x ∷ active) zero {seq = seq} e =
      let same : f x.extra ≡ f seq.extra = cc in omega arith
  remove-weight (x ∷ active) (suc v) e = omega (arith, remove-weight active v e)

  weighs-IsPreserved : (senior : Option ℕ) → IsPreserved (λ a b. weighs b ≡ weighs a) senior
  unfolding evict
  weighs-IsPreserved senior = record {
    stays = λ g. refl;
    joins = λ a b c p q. q ∙ p;
    changed = λ g i t t' reserved e same meta. set-weight g.active g.resume i t' e meta;
    evicted = λ g index v victim oldest past at. omega (arith, remove-weight g.active v at);
  }

-- If the reservations fit a limited budget, the growth grants end, and whatever weight the requests
-- are given, those that are active or wait to be resumed weigh as much after them as before: none is
-- lost, and none stands there twice over.
pub grant_kv_growth-weight :
    (f : JobMeta → ℕ) (kv : KvBudget) (ctx : ℕ) (active : List JobSeq) (resume : List ResumedJob)
    → reserved_blocks active ≤ kv.total_blocks
    → kv.total_blocks ≢ usize_max
    → (g : Growth) × (grant_kv_growth kv ctx active resume ≡ some g)
      × (weight f g.active g.resume ≡ weight f active resume)
grant_kv_growth-weight f kv ctx active resume fits limited =
    grant_kv_growth-IsPreserved (λ a b. weighs f b ≡ weighs f a) (senior_from 0 active)
      (weighs-IsPreserved f (senior_from 0 active)) kv ctx active resume refl fits limited
