-- ===== src/Cache/Plan.antt =====
-- What a plan shows to the attention of each lane.
use burn_lm.Prelude.{
  ℕ, zero, suc, ◌+◌, ◌<◌, ◌≤◌, ◌≡◌, ap, ◌∙◌, inl, inr, Bool, ◌≢◌, List, [], ◌∷◌, map, Option, none,
  some, ltb, arith, get_elem?, ◌>>=◌, >>=-eq-some, Option-cases, max, Bool-cases, refl,
}
use burn_lm.Pool.{BlockPool}
use burn_lm.Store.{write_indices}
use burn_lm.Cache.{LanePlan, longest, tabulate, lane_mask, snapshot, build_plan}

pub get_elem?-tabulate :
    {A : Type 0} (from n i : ℕ) (f : ℕ → A)
    → i < n
    → get_elem? (tabulate from n f) i ≡ some (f (from + i))
unfolding tabulate
get_elem?-tabulate from zero i f h = absurd (omega arith)
get_elem?-tabulate from (suc n) zero f h = ap (λ k. some (f k)) (omega arith)
get_elem?-tabulate from (suc n) (suc i) f h =
    let next : from + 1 + i ≡ from + suc i = omega arith in
    get_elem?-tabulate (from + 1) n i f (omega arith) ∙ ap (λ k. some (f k)) next

get_elem?-lane_mask :
    (seq_len l_max s r c : ℕ)
    → r < seq_len
    → c < l_max
    → (get_elem? (lane_mask seq_len l_max s) r >>= λ row. get_elem? row c) ≡ some (ltb (s + r) c)
unfolding lane_mask
get_elem?-lane_mask seq_len l_max s r c below inside =
    let row = get_elem?-tabulate 0 seq_len r (λ q. tabulate 0 l_max (λ d. ltb (s + q) d)) below in
    let shown = get_elem?-tabulate 0 l_max c (λ d. ltb (s + (0 + r)) d) inside in
    let left : 0 + r ≡ r = omega arith in
    let right : 0 + c ≡ c = omega arith in rw (lane_mask, row) (shown ∙ cc (left, right))

pub longest-some : (x : ℕ) (starts : List ℕ) (seq_len : ℕ) → longest (x ∷ starts) seq_len ≢ none
unfolding longest
longest-some x starts seq_len e = elim (Option-cases (longest starts seq_len)) [
  | inl nothing ↦ cc
  | inr (m, found) ↦ cc
]

le-longest :
    (starts : List ℕ) (seq_len k : ℕ) {s l : ℕ}
    → longest starts seq_len ≡ some l
    → get_elem? starts k ≡ some s
    → s + seq_len ≤ l
unfolding longest
le-longest [] seq_len k e at = cc
le-longest (x ∷ starts) seq_len zero {s = s} {l = l} e at =
    let same : x ≡ s = cc in
    elim (Option-cases (longest starts seq_len)) [
      | inl nothing ↦ let whole : x + seq_len ≡ l = cc in omega arith
      | inr (m, found) ↦ let whole : max (x + seq_len) m ≡ l = cc in omega arith
    ]
le-longest (x ∷ []) seq_len (suc k) e at = cc
le-longest (x ∷ y ∷ starts) seq_len (suc k) {s = s} {l = l} e at =
    elim (Option-cases (longest (y ∷ starts) seq_len)) [
      | inl nothing ↦ absurd (longest-some y starts seq_len nothing)
      | inr (m, found) ↦
          let whole : max (x + seq_len) m ≡ l = cc in
          omega (arith, le-longest (y ∷ starts) seq_len k found at)
    ]

pub longest-attained :
    (starts : List ℕ) (seq_len : ℕ) {l : ℕ}
    → longest starts seq_len ≡ some l
    → (k s : ℕ) × (get_elem? starts k ≡ some s) × (s + seq_len ≡ l)
unfolding longest
longest-attained [] seq_len e = cc
longest-attained (x ∷ starts) seq_len {l = l} e = elim (Option-cases (longest starts seq_len)) [
  | inl nothing ↦ let whole : x + seq_len ≡ l = cc in (0, x, refl, whole)
  | inr (m, found) ↦
      let whole : max (x + seq_len) m ≡ l = cc in
      let (k, s, at, wide) = longest-attained starts seq_len found in
      elim (Bool-cases (ltb m (x + seq_len))) [
        | inl first ↦ (0, x, refl, ground arith)
        | inr later ↦ (suc k, s, at, ground arith)
      ]
]

get_elem?-map :
    {A B : Type 0} (f : A → B) (xs : List A) (k : ℕ) {x : A}
    → get_elem? xs k ≡ some x
    → get_elem? (map f xs) k ≡ some (f x)
get_elem?-map f [] k e = cc
get_elem?-map f (y ∷ xs) zero e = cc
get_elem?-map f (y ∷ xs) (suc k) e = get_elem?-map f xs k e

-- Whether new row `r` of the round's lane number `k` hides column `c`.
abbrev pub hidden : LanePlan → ℕ → ℕ → ℕ → Option Bool
hidden plan k r c = get_elem? plan.mask k >>= λ rows. get_elem? rows r >>= λ row. get_elem? row c

-- A plan is as wide as its longest lane, and its mask is causal: in a lane that starts at `s`, the new
-- row `r` sees exactly the columns up to its own position, `s + r`, and none of the padding.
pub build_plan-hidden :
    (p : BlockPool) (lanes : List ℕ) (seq_len : ℕ) (starts : List ℕ) (k : ℕ) {s : ℕ}
    {plan : LanePlan}
    → build_plan p lanes seq_len starts ≡ some plan
    → get_elem? starts k ≡ some s
    → (s + seq_len ≤ plan.l_max)
      × ((r c : ℕ) → r < seq_len → c < plan.l_max → hidden plan k r c ≡ some (ltb (s + r) c))
unfolding build_plan
build_plan-hidden p lanes seq_len starts k {s = s} {plan = plan} e at =
    let (l, long, e1) = >>=-eq-some (longest starts seq_len) _ e in
    let (tables, snap, e2) = >>=-eq-some (snapshot p.tables lanes) _ e1 in
    let (idx, writes, e3) = >>=-eq-some (write_indices tables starts seq_len p.block_size) _ e2 in
    let width : l ≡ plan.l_max = cc in
    let mask : map (lane_mask seq_len l) starts ≡ plan.mask = cc in
    (
      omega (arith, le-longest starts seq_len k long at),
      λ r c below inside.
          let rows : get_elem? plan.mask k ≡ some (lane_mask seq_len l s) =
            rw mask at (get_elem?-map (lane_mask seq_len l) starts k at) in
          rw rows (get_elem?-lane_mask seq_len l s r c below (omega arith)),
    )
