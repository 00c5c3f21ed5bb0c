-- ===== src/Cache/Read.antt =====
-- What a round reads back through its gather index.
use burn_lm.Prelude.{
  ℕ, zero, suc, ◌+◌, ◌*◌, ◌/◌, ◌%◌, ◌<◌, ◌≡◌, refl, ap, ◌∙◌, List, [], ◌∷◌, some, arith, get_elem?,
  get_elem?-append, length, subst, sym, >>=-eq-some, ltb, true,
}
use burn_lm.Prelude.Arith.{div_ceil, div-lt-div_ceil}
use burn_lm.Pool.{BlockPool}
use burn_lm.Pool.Address.{address}
use burn_lm.Store.{ℤ, natural, Tensors, BlockStore, as_i32, write_indices, gather}
use burn_lm.Cache.{
  LanePlan, get_block, gather_lane, gather_all, snapshot, longest, build_plan, tabulate,
}
use burn_lm.Cache.Plan.{get_elem?-tabulate}
use burn_lm.Cache.Placed.{get_elem?-append_right}
use burn_lm.Cache.Contents.{IsAddressable, Represents, row_at, held_small}

-- The id of a block that a lane holds survives the cast of the gather index.
gather_lane_at :
    (p : BlockPool) (lane i b blocks_per_lane : ℕ) (table : List ℕ)
    → IsAddressable p
    → get_elem? p.tables lane ≡ some table
    → get_elem? table i ≡ some b
    → i < blocks_per_lane
    → get_elem? (gather_lane blocks_per_lane table) i ≡ some (natural b)
unfolding gather_lane get_block
gather_lane_at p lane i b blocks_per_lane table h e f below =
    let (held, small) = held_small p h lane i b table e f in
    let at : 0 + i ≡ i = omega arith in
    let there : get_block table i ≡ b = rw (get_block, f) refl in
    get_elem?-tabulate 0 blocks_per_lane i (λ k. as_i32 (get_block table k)) below
    ∙ ap (λ k. some (as_i32 (get_block table k))) at
    ∙ ap (λ x. some (as_i32 x)) there
    ∙ ap some small

length-tabulate : {A : Type 0} (from n : ℕ) (f : ℕ → A) → length (tabulate from n f) ≡ n
unfolding tabulate
length-tabulate from zero f = refl
length-tabulate from (suc n) f = ap suc (length-tabulate (from + 1) n f)

-- The index has the ids of the lanes one after the other.
gather_all_at :
    (seq_len blocks_per_lane k i : ℕ) (tables : List (List ℕ)) (starts : List ℕ) {table : List ℕ}
    {start : ℕ} {id : ℤ}
    → get_elem? tables k ≡ some table
    → get_elem? starts k ≡ some start
    → get_elem? (gather_lane blocks_per_lane table) i ≡ some id
    → get_elem? (gather_all seq_len blocks_per_lane tables starts).0 (k * blocks_per_lane + i)
      ≡ some id
unfolding gather_all gather_lane
gather_all_at seq_len n k i [] starts e f at = cc
gather_all_at seq_len n k i (t ∷ tables) [] e f at = cc
gather_all_at seq_len n zero i (t ∷ tables) (s ∷ starts) {table} {start} {id} e f at =
    let first : 0 * n + i ≡ i = omega arith in
    let same : table ≡ t = cc in
    let here : get_elem? (gather_lane n t) i ≡ some id =
      subst (λ x. get_elem? (gather_lane n x) i ≡ some id) same at in
    ap (get_elem? (gather_all seq_len n (t ∷ tables) (s ∷ starts)).0) first
    ∙ get_elem?-append (gather_lane n t) (gather_all seq_len n tables starts).0 i here
gather_all_at seq_len n (suc k) i (t ∷ tables) (s ∷ starts) e f at =
    get_elem?-append_right (gather_lane n t) (gather_all seq_len n tables starts).0 (suc k * n + i)
      (k * n + i) (omega (arith, length-tabulate 0 n (λ j. as_i32 (get_block t j))))
    ∙ gather_all_at seq_len n k i tables starts e f at

snapshot_at :
    (tables : List (List ℕ)) (lanes : List ℕ) (k : ℕ) {shot : List (List ℕ)} {lane : ℕ}
    → snapshot tables lanes ≡ some shot
    → get_elem? lanes k ≡ some lane
    → (table : List ℕ) × (get_elem? shot k ≡ some table) × (get_elem? tables lane ≡ some table)
unfolding snapshot
snapshot_at tables [] k s e = cc
snapshot_at tables (l ∷ lanes) zero {shot} {lane} s e =
    let (table, et, s1) = >>=-eq-some (get_elem? tables l) _ s in
    let (rest, er, s2) = >>=-eq-some (snapshot tables lanes) _ s1 in
    let same : table ∷ rest ≡ shot = cc in (table, cc, cc)
snapshot_at tables (l ∷ lanes) (suc k) {shot} {lane} s e =
    let (table, et, s1) = >>=-eq-some (get_elem? tables l) _ s in
    let (rest, er, s2) = >>=-eq-some (snapshot tables lanes) _ s1 in
    let same : table ∷ rest ≡ shot = cc in
    let (t, at, there) = snapshot_at tables lanes k er e in
    (t, sym (ap (λ x. get_elem? x (suc k)) same) ∙ at, there)

planned_gather :
    (p : BlockPool) (lanes : List ℕ) (n : ℕ) (starts : List ℕ) {plan : LanePlan}
    → build_plan p lanes n starts ≡ some plan
    → (tables : List (List ℕ)) × (snapshot p.tables lanes ≡ some tables)
      × (plan.blocks_per_lane ≡ div_ceil plan.l_max p.block_size)
      × (plan.gather_idx ≡ (gather_all n plan.blocks_per_lane tables starts).0)
unfolding build_plan
planned_gather p lanes n starts {plan} e =
    let (l, long, e1) = >>=-eq-some (longest starts n) _ e in
    let (tables, snap, e2) = >>=-eq-some (snapshot p.tables lanes) _ e1 in
    let (idx, writes, e3) = >>=-eq-some (write_indices tables starts n p.block_size) _ e2 in
    let width : l ≡ plan.l_max = cc in
    let blocks : div_ceil l p.block_size ≡ plan.blocks_per_lane = cc in
    let ids : (gather_all n (div_ceil l p.block_size) tables starts).0 ≡ plan.gather_idx = cc in
    (
      tables,
      snap,
      sym blocks ∙ ap (λ x. div_ceil x p.block_size) width,
      sym ids ∙ ap (λ x. (gather_all n x tables starts).0) blocks,
    )

-- In a pool where no block is held twice and ids and offsets fit an `i32`, and of a store that shows a
-- list of rows for each lane, `gather` with the index of the plan of a round reads in lane number `k`
-- of the round the rows of that list, column by column, as far as the list and the plan go.
pub gather-Represents :
    (T : Tensors) (s : BlockStore T) (p : BlockPool) (view : ℕ → List (Tensors.Row T))
    (lanes : List ℕ) (n : ℕ) (starts : List ℕ) (plan : LanePlan) (k lane start len column : ℕ)
    {r : Tensors.Row T}
    → IsAddressable p
    → Represents T s p view
    → build_plan p lanes n starts ≡ some plan
    → get_elem? lanes k ≡ some lane
    → get_elem? starts k ≡ some start
    → get_elem? p.lens lane ≡ some len
    → column < plan.l_max
    → get_elem? (view lane) column ≡ some r
    → gather T s p.block_size plan.gather_idx plan.blocks_per_lane plan.l_max k column ≡ some r
unfolding gather row_at address
gather-Represents T s p view lanes n starts plan k lane start len column h v planned at_k from at
      inside e =
    let shown = v.shows lane column len _ at e in
    let (a, ea, er) = >>=-eq-some (address p lane column) _ shown in
    let (t, et, e1) = >>=-eq-some (get_elem? p.tables lane) _ ea in
    let (b, eb, e2) = >>=-eq-some (get_elem? t (column / p.block_size)) _ e1 in
    let (tables, snap, blocks, ids) = planned_gather p lanes n starts planned in
    let (table, in_shot, held) = snapshot_at p.tables lanes k snap at_k in
    let same : t ≡ table = cc in
    let place : (b, column % p.block_size) ≡ a = cc in
    let below : column / p.block_size < plan.blocks_per_lane =
      omega (arith, blocks, div-lt-div_ceil column plan.l_max p.block_size h.positive inside) in
    let found : get_elem? plan.gather_idx (k * plan.blocks_per_lane + column / p.block_size)
        ≡ some (natural b) =
      ap (λ x. get_elem? x (k * plan.blocks_per_lane + column / p.block_size)) ids
      ∙ gather_all_at n plan.blocks_per_lane k (column / p.block_size) tables starts in_shot from (
          gather_lane_at p lane (column / p.block_size) b plan.blocks_per_lane table h held
            (cc (same, eb)) below) in
    let shown_column : ltb column plan.l_max ≡ true = ground arith in
    rw (shown_column, found) (ap (λ (x : ℕ × ℕ). some (Tensors.read T s.pool x.0 x.1)) place ∙ er)
