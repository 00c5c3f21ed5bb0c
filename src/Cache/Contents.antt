-- ===== src/Cache/Contents.antt =====
-- The rows of the lanes, before and after a round is written.
use burn_lm.Prelude.{
  take, drop, if◌then◌else◌, ltb, ltb→lt, ℕ, zero, suc, ◌+◌, ◌/◌, ◌%◌, ◌<◌, ◌≤◌, ◌^◌, ◌≡◌, inl, inr,
  refl, sym, ap, ◌∙◌, subst, List, [], ◌∷◌, Option, some, arith, length, get_elem?, ◌>>=◌, Distinct,
  mem, Bool-cases, ◌==◌, true, le-sum-map, count,
}
use native.Mathlib.Nat.{mod-lt}
use burn_lm.Pool.{BlockPool}
use burn_lm.Pool.Grow.{owners}
use burn_lm.Pool.Address.{address, address_injective, count_pos}
use burn_lm.Store.{
  ℤ, natural, index_of, AllInside, as_i32_small, Tensors, BlockStore, write_indices, as_i32,
  AllDifferent, NotIn,
}
use burn_lm.Store.Indices.{PlaceOf, NotIn-of, AllDifferent-of}
use burn_lm.Cache.{snapshot}
use burn_lm.Cache.Placed.{
  Placed, row_number, row_number_injective, write_indices-Placed, write_indices_at,
}

-- No block is held twice, and ids and offsets survive the casts to `i32`.
pub record IsAddressable (p : BlockPool) : Type 0 where
  pub positive : 0 < p.block_size
  pub small_blocks : p.block_size ≤ 2 ^ 31
  pub once : (b : ℕ) → owners b p ≤ 1
  pub small_ids : (b : ℕ) → 2 ^ 31 ≤ b → owners b p ≡ 0

pub mem-get_elem? : (xs : List ℕ) (i : ℕ) {x : ℕ} → get_elem? xs i ≡ some x → mem x xs ≡ true
mem-get_elem? [] i e = cc
mem-get_elem? (y ∷ xs) zero e = ground arith
mem-get_elem? (y ∷ xs) (suc i) e = ground (arith, mem-get_elem? xs i e)

get_elem?_unique :
    (xs : List ℕ) (i j : ℕ) {x : ℕ}
    → Distinct xs
    → get_elem? xs i ≡ some x
    → get_elem? xs j ≡ some x
    → i ≡ j
get_elem?_unique [] i j d e f = cc
get_elem?_unique (y ∷ xs) zero zero d e f = refl
get_elem?_unique (y ∷ xs) zero (suc j) d e f = cc (d.0, mem-get_elem? xs j f)
get_elem?_unique (y ∷ xs) (suc i) zero d e f = cc (d.0, mem-get_elem? xs i e)
get_elem?_unique (y ∷ xs) (suc i) (suc j) d e f = ap suc (get_elem?_unique xs i j d.1 e f)

index_injective : (a b : ℕ × ℕ) → index_of a ≡ index_of b → a ≡ b
index_injective a b e =
    let first : a.0 ≡ b.0 = cc in let second : a.1 ≡ b.1 = cc in rw (first, second) refl

module _ (p : BlockPool) (h : IsAddressable p) where
  -- A block that a lane holds, and an offset, keep their value.
  pub held_small :
      (lane i b : ℕ) (table : List ℕ)
      → get_elem? p.tables lane ≡ some table
      → get_elem? table i ≡ some b
      → (1 ≤ owners b p) × (as_i32 b ≡ natural b)
  held_small lane i b table e f =
      let held : 1 ≤ owners b p =
        omega (arith, count_pos b table i f, le-sum-map (count b) p.tables lane e) in
      (
        held,
        as_i32_small b (elim (Bool-cases (ltb b (2 ^ 31))) [
          | inl fits ↦ ltb→lt b (2 ^ 31) fits
          | inr wide ↦ absurd (omega (arith, held, h.small_ids b (ground arith)))
        ]),
      )

  -- The place of a position, as a place of the tensor.
  pub place-address :
      (lane pos : ℕ) (table : List ℕ) (i : ℤ × ℤ)
      → get_elem? p.tables lane ≡ some table
      → PlaceOf table p.block_size pos i
      → (a : ℕ × ℕ) × (address p lane pos ≡ some a)
        × (i ≡ index_of a)
        × (1 ≤ owners a.0 p)
        × (a.1 < p.block_size)
  unfolding address
  place-address lane pos table i e (b, eb, q) =
      let (held, id) = held_small lane (pos / p.block_size) b table e eb in
      let below : pos % p.block_size < p.block_size = mod-lt pos h.positive in
      let off = as_i32_small (pos % p.block_size) (omega (arith, below, h.small_blocks)) in
      ((b, pos % p.block_size), rw (e, eb) refl, cc (q, id, off), held, below)

  -- Two write indices with one place are one.
  index_unique :
      (n : ℕ) (lanes starts : List ℕ) (i j : ℕ) (a : ℤ × ℤ)
      → Distinct lanes
      → Placed p n lanes starts i a
      → Placed p n lanes starts j a
      → i ≡ j
  index_unique n lanes starts i j a d s t =
      let (x, at_x, is_x, held_x, below_x) =
        place-address s.lane (s.start + s.offset) s.table a s.table_at s.place in
      let (y, at_y, is_y, held_y, below_y) =
        place-address t.lane (t.start + t.offset) t.table a t.table_at t.place in
      let same : y ≡ x = index_injective y x (sym is_y ∙ is_x) in
      let (same_lane, same_pos) =
        address_injective p s.lane t.lane (s.start + s.offset) (t.start + t.offset) h.once at_x
          (at_y ∙ ap some same) in
      let same_number : s.number ≡ t.number =
        get_elem?_unique lanes s.number t.number d (s.lane_at ∙ ap some same_lane) t.lane_at in
      let same_start : s.start ≡ t.start = cc (s.start_at, t.start_at, same_number) in
      let same_offset : s.offset ≡ t.offset = omega arith in
      cc (s.at, t.at, same_number, same_offset)

  pub indices-AllDifferent :
      (n : ℕ) (lanes starts : List ℕ) (tables : List (List ℕ)) {idx : List (ℤ × ℤ)}
      → Distinct lanes
      → snapshot p.tables lanes ≡ some tables
      → write_indices tables starts n p.block_size ≡ some idx
      → AllDifferent idx
  indices-AllDifferent n lanes starts tables {idx} d s w = AllDifferent-of idx (λ i j a e f.
      index_unique n lanes starts i j a d (write_indices-Placed p n lanes starts tables s w i a e)
        (write_indices-Placed p n lanes starts tables s w j a f))

  -- The index of a new position is its place.
  pub new_place :
      (n : ℕ) (lanes starts : List ℕ) (tables : List (List ℕ)) {idx : List (ℤ × ℤ)}
      (m j lane start : ℕ)
      → snapshot p.tables lanes ≡ some tables
      → write_indices tables starts n p.block_size ≡ some idx
      → get_elem? lanes m ≡ some lane
      → get_elem? starts m ≡ some start
      → j < n
      → (a : ℕ × ℕ) × (get_elem? idx (row_number n m j) ≡ some (index_of a))
        × (address p lane (start + j) ≡ some a)
  new_place n lanes starts tables m j lane start s w at at' below =
      let (i, e) = write_indices_at p n lanes starts tables m j lane start s w at at' below in
      let t = write_indices-Placed p n lanes starts tables s w (row_number n m j) i e in
      let (same_number, same_offset) =
        row_number_injective n m t.number j t.offset below t.below t.at in
      let same_lane : t.lane ≡ lane = cc (at, t.lane_at, same_number) in
      let same_start : t.start ≡ start = cc (at', t.start_at, same_number) in
      let same_pos : t.start + t.offset ≡ start + j = omega arith in
      let (a, place, is_a, held, inside) =
        place-address t.lane (t.start + t.offset) t.table i t.table_at t.place in
      (
        a,
        e ∙ ap some is_a,
        subst (λ l. address p l (start + j) ≡ some a) same_lane
            (subst (λ x. address p t.lane x ≡ some a) same_pos place),
      )

  -- All of them are places of a tensor that has a block for every id held.
  pub indices-AllInside :
      (n : ℕ) (lanes starts : List ℕ) (tables : List (List ℕ)) {idx : List (ℤ × ℤ)} (blocks : ℕ)
      → snapshot p.tables lanes ≡ some tables
      → write_indices tables starts n p.block_size ≡ some idx
      → ((b : ℕ) → blocks ≤ b → owners b p ≡ 0)
      → AllInside blocks p.block_size idx
  indices-AllInside n lanes starts tables blocks s w enough k i e =
      let t = write_indices-Placed p n lanes starts tables s w k i e in
      let (a, place, is_a, held, inside) =
        place-address t.lane (t.start + t.offset) t.table i t.table_at t.place in
      (a, is_a, held_below blocks a.0 held enough, inside)
    where
      held_below :
          (blocks b : ℕ) → 1 ≤ owners b p → ((b : ℕ) → blocks ≤ b → owners b p ≡ 0) → b < blocks
      held_below blocks b held enough = elim (Bool-cases (ltb b blocks)) [
        | inl below ↦ ltb→lt b blocks below
        | inr past ↦ absurd (omega (arith, held, enough b (ground arith)))
      ]

  -- A position that is not new has no index.
  pub old_place :
      (n : ℕ) (lanes starts : List ℕ) (tables : List (List ℕ)) {idx : List (ℤ × ℤ)} (lane pos : ℕ)
      (a : ℕ × ℕ)
      → snapshot p.tables lanes ≡ some tables
      → write_indices tables starts n p.block_size ≡ some idx
      → address p lane pos ≡ some a
      → ((m start : ℕ)
          → get_elem? lanes m ≡ some lane
          → get_elem? starts m ≡ some start
          → pos < start)
      → NotIn (index_of a) idx
  old_place n lanes starts tables {idx} lane pos a s w at older = NotIn-of (index_of a) idx (λ k e.
      let t = write_indices-Placed p n lanes starts tables s w k (index_of a) e in
      let (x, place, is_x, held, inside) =
        place-address t.lane (t.start + t.offset) t.table (index_of a) t.table_at t.place in
      let same : x ≡ a = index_injective x a (sym is_x) in
      let (same_lane, same_pos) =
        address_injective p t.lane lane (t.start + t.offset) pos h.once (place ∙ ap some same) at in
      absurd (
        omega (arith, same_pos, older t.number t.start (t.lane_at ∙ ap some same_lane) t.start_at)))

-- The row at a position of a lane.
unfoldable pub row_at : (T : Tensors) → BlockStore T → BlockPool → ℕ → ℕ → Option (Tensors.Row T)
row_at T s p lane pos = address p lane pos >>= λ a. some (Tensors.read T s.pool (a.0) (a.1))

-- The rows that a round brings for a lane: `rows` holds `n` rows for each lane of the round, in order.
abbrev pub rows_for {ℓ} : {A : Type ℓ} → ℕ → List ℕ → List A → ℕ → List A
rows_for n [] rows lane = []
rows_for n (l ∷ lanes) rows lane =
    if l == lane then take n rows else rows_for n lanes (drop n rows) lane

-- The abstract cache: a list of rows for each lane, as long as the lane. The pool tensor has a block
-- for every id that is held, and the pool's block size.
pub record Represents (T : Tensors) (s : BlockStore T) (p : BlockPool)
    (view : ℕ → List (Tensors.Row T)) : Type 0 where
  pub long : (lane len : ℕ) → get_elem? p.lens lane ≡ some len → length (view lane) ≡ len
  pub offsets : Tensors.offsets T s.pool ≡ p.block_size
  pub blocks : (b : ℕ) → Tensors.blocks T s.pool ≤ b → owners b p ≡ 0
  pub shows :
      (lane pos len : ℕ) (r : Tensors.Row T)
      → get_elem? p.lens lane ≡ some len
      → get_elem? (view lane) pos ≡ some r
      → row_at T s p lane pos ≡ some r
