-- ===== src/Worker/Growth/Senior.antt =====
-- Who may be evicted by `grant_kv_growth`: never the oldest live sequence, nor those before it.
use burn_lm.Prelude.{
  ℕ, zero, suc, ◌<◌, ◌≤◌, ◌≡◌, ◌≢◌, refl, ap, ◌∙◌, List, [], ◌∷◌, some, ==_iff, get_elem?, arith,
}
use burn_lm.Engine.{KvBudget, usize_max}
use burn_lm.Worker.{JobSeq, ResumedJob, reserved_blocks}
use burn_lm.Worker.Slots.{slots}
use burn_lm.Worker.Growth.{Growth, remove, evict, is_senior, senior_from, grant_kv_growth}
use burn_lm.Worker.Growth.Turns.{slots-set}
use burn_lm.Worker.Growth.Preserved.{IsPreserved, grant_kv_growth-IsPreserved}

-- The sequences up to the place `s` are the same ones, known by their slots.
abbrev pub Keeps : ℕ → List JobSeq → List JobSeq → Type 0
Keeps s active active' = (j : ℕ) → j ≤ s → get_elem? (slots active') j ≡ get_elem? (slots active) j

get_elem?-slots-remove :
    (active : List JobSeq) (v j : ℕ)
    → j < v
    → get_elem? (slots (remove active v)) j ≡ get_elem? (slots active) j
get_elem?-slots-remove [] v j h = refl
get_elem?-slots-remove (x ∷ active) zero j h = absurd (omega arith)
get_elem?-slots-remove (x ∷ active) (suc v) zero h = refl
get_elem?-slots-remove (x ∷ active) (suc v) (suc j) h =
    get_elem?-slots-remove active v j (omega arith)

Keeps-IsPreserved : (s : ℕ) → IsPreserved (λ a b. Keeps s a.active b.active) (some s)
unfolding evict is_senior
Keeps-IsPreserved s = record {
  stays = λ g j below. refl;
  joins = λ a b c p q j below. q j below ∙ p j below;
  changed = λ g i t t' reserved e same meta j below.
      ap (λ l. get_elem? l j) (slots-set g.active i t' e same);
  evicted = λ g index v victim oldest past at j below.
      let here : s ≡ index = (==_iff s index).0 oldest in
      get_elem?-slots-remove g.active v j (omega arith);
}

-- If the reservations fit a limited budget and a sequence is live, the growth grants end, and the
-- oldest live sequence and those before it are still active afterwards, at their places.
pub grant_kv_growth-Keeps :
    (kv : KvBudget) (ctx : ℕ) (active : List JobSeq) (resume : List ResumedJob) (s : ℕ)
    → reserved_blocks active ≤ kv.total_blocks
    → kv.total_blocks ≢ usize_max
    → senior_from 0 active ≡ some s
    → (g : Growth) × (grant_kv_growth kv ctx active resume ≡ some g) × Keeps s active g.active
grant_kv_growth-Keeps kv ctx active resume s fits limited oldest =
    grant_kv_growth-IsPreserved (λ a b. Keeps s a.active b.active) (some s) (Keeps-IsPreserved s) kv
      ctx active resume oldest fits limited
