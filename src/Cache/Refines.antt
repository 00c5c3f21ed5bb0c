-- ===== src/Cache/Refines.antt =====
-- A round that is written extends the list of rows of each of its lanes, and of no other.
use native.Mathlib.Nat.{mod-lt}
use burn_lm.Prelude.{
  ◌/◌, ◌%◌, ◌≤◌, ltb, ltb→lt, count, le-sum-map, ℕ, zero, suc, ◌+◌, ◌<◌, ◌≡◌, inl, inr, refl, sym,
  ap, ◌∙◌, subst, List, [], ◌∷◌, ◌++◌, Option, some, arith, length, get_elem?, get_elem?_of_lt,
  lt_of_get_elem?, >>=-eq-some, Distinct, mem, Bool-cases, ◌==◌, ==_iff, true, false, take, drop,
  length-append, length-take, length-drop, get_elem?-append,
}
use burn_lm.Pool.{BlockPool}
use burn_lm.Pool.Address.{address, count_pos}
use burn_lm.Pool.Grow.{owners}
use burn_lm.Pool.Round.{Committed, AreLens}
use burn_lm.Store.{ℤ, index_of, AllInside, Tensors, BlockStore, write, write_indices, NotIn}
use burn_lm.Cache.{snapshot}
use burn_lm.Cache.Placed.{row_number, get_elem?-append_cases}
use burn_lm.Cache.Contents.{
  IsAddressable, Represents, row_at, rows_for, new_place, old_place, indices-AllDifferent,
  indices-AllInside,
}

some_lens : (a b : ℕ) → Path (Option ℕ) (some a) (some b) → a ≡ b
some_lens a b e = cc

-- The start of a lane is its length before the round.
starts_at :
    (lens lanes starts : List ℕ) (m : ℕ) {lane start : ℕ}
    → AreLens lens lanes starts
    → get_elem? lanes m ≡ some lane
    → get_elem? starts m ≡ some start
    → get_elem? lens lane ≡ some start
starts_at lens [] starts m h e f = cc
starts_at lens (l ∷ lanes) [] m h e f = cc
starts_at lens (l ∷ lanes) (s ∷ starts) zero (at, h) e f = cc
starts_at lens (l ∷ lanes) (s ∷ starts) (suc m) (at, h) e f = starts_at lens lanes starts m h e f

start_of_lane :
    (lens lanes starts : List ℕ) (m : ℕ) {lane : ℕ}
    → AreLens lens lanes starts
    → get_elem? lanes m ≡ some lane
    → (start : ℕ) × (get_elem? starts m ≡ some start)
start_of_lane lens [] starts m h e = cc
start_of_lane lens (l ∷ lanes) [] m h e = absurd h
start_of_lane lens (l ∷ lanes) (s ∷ starts) zero h e = (s, refl)
start_of_lane lens (l ∷ lanes) (s ∷ starts) (suc m) (at, h) e =
    start_of_lane lens lanes starts m h e

get_elem?-take :
    {A : Type 0} (n : ℕ) (xs : List A) (j : ℕ) {x : A}
    → get_elem? (take n xs) j ≡ some x
    → (j < n) × (get_elem? xs j ≡ some x)
get_elem?-take zero xs j e = cc
get_elem?-take (suc n) [] j e = cc
get_elem?-take (suc n) (x ∷ xs) zero e = (omega arith, e)
get_elem?-take (suc n) (x ∷ xs) (suc j) e =
    let (lt, at) = get_elem?-take n xs j e in (omega (arith, lt), at)

get_elem?-drop :
    {A : Type 0} (n : ℕ) (xs : List A) (j k : ℕ)
    → k ≡ n + j
    → get_elem? (drop n xs) j ≡ get_elem? xs k
get_elem?-drop zero xs j k q = ap (λ i. get_elem? xs i) (omega arith)
get_elem?-drop (suc n) [] j k q = refl
get_elem?-drop (suc n) (x ∷ xs) j zero q = absurd (omega arith)
get_elem?-drop (suc n) (x ∷ xs) j (suc k) q = get_elem?-drop n xs j k (omega arith)

-- The rows for a lane of the round, and for another.
rows_for_at :
    {A : Type 0} (n : ℕ) (lanes : List ℕ) (rows : List A) (lane j : ℕ) {r : A}
    → get_elem? (rows_for n lanes rows lane) j ≡ some r
    → (m : ℕ) × (get_elem? lanes m ≡ some lane)
      × (j < n)
      × (get_elem? rows (row_number n m j) ≡ some r)
rows_for_at n [] rows lane j e = cc
rows_for_at n (l ∷ lanes) rows lane j e = elim (Bool-cases (l == lane)) [
  | inl here ↦
      let (lt, at) = get_elem?-take n rows j (rw here at e) in
      (0, ap some ((==_iff l lane).0 here), lt, at)
  | inr later ↦
      let (m, at, lt, found) = rows_for_at n lanes (drop n rows) lane j (rw later at e) in
      (suc m, at, lt, sym (get_elem?-drop n rows (row_number n m j) _ refl) ∙ found)
]

length-rows_for :
    {A : Type 0} (n : ℕ) (lanes : List ℕ) (rows : List A) (lane : ℕ)
    → length rows ≡ row_number n (length lanes) 0
    → mem lane lanes ≡ true
    → length (rows_for n lanes rows lane) ≡ n
length-rows_for n [] rows lane q inside = cc
length-rows_for n (l ∷ lanes) rows lane q inside = elim (Bool-cases (l == lane)) [
  | inl here ↦ rw here (omega (arith, length-take n rows))
  | inr later ↦ rw later (
      length-rows_for n lanes (drop n rows) lane (omega (arith, length-drop n rows)) (ground arith))
]

rows_for-none :
    {A : Type 0} (n : ℕ) (lanes : List ℕ) (rows : List A) (lane : ℕ)
    → mem lane lanes ≡ false
    → rows_for n lanes rows lane ≡ []
rows_for-none n [] rows lane outside = refl
rows_for-none n (l ∷ lanes) rows lane outside =
    let other : (l == lane) ≡ false = ground arith in
    rw other (rows_for-none n lanes (drop n rows) lane (ground arith))

-- A committed round leaves the places of a lane's positions where they were.
address_kept :
    (p q : BlockPool) (n : ℕ) (lanes starts : List ℕ) (lane pos len : ℕ) (a : ℕ × ℕ)
    → Committed p n lanes q starts
    → get_elem? p.lens lane ≡ some len
    → address p lane pos ≡ some a
    → address q lane pos ≡ some a
unfolding address
address_kept p q n lanes starts lane pos len a m at e =
    let (table, et, e1) = >>=-eq-some (get_elem? p.tables lane) _ e in
    let (b, eb, e2) = >>=-eq-some (get_elem? table (pos / p.block_size)) _ e1 in
    elim (Bool-cases (mem lane lanes)) [
      | inl inside ↦
          let (added, grew, sized) = m.tables.grown lane table len et at inside in
          let still = get_elem?-append table added (pos / p.block_size) eb in
          rw (grew, m.same_size, still) e2
      | inr outside ↦ rw (m.tables.kept lane table et outside, m.same_size, eb) e2
    ]

-- A position that has a place has it in a block that is held, below the block size.
pub address_below :
    (p : BlockPool) (lane pos : ℕ) (a : ℕ × ℕ) (blocks : ℕ)
    → address p lane pos ≡ some a
    → 0 < p.block_size
    → ((b : ℕ) → blocks ≤ b → owners b p ≡ 0)
    → (a.0 < blocks) × (a.1 < p.block_size)
unfolding address
address_below p lane pos a blocks e positive enough =
    let (table, et, e1) = >>=-eq-some (get_elem? p.tables lane) _ e in
    let (b, eb, e2) = >>=-eq-some (get_elem? table (pos / p.block_size)) _ e1 in
    let id : b ≡ a.0 = cc in
    let off : pos % p.block_size ≡ a.1 = cc in
    let held : 1 ≤ owners b p =
      omega
        (arith, count_pos b table (pos / p.block_size) eb, le-sum-map (count b) p.tables lane et) in
    (
      elim (Bool-cases (ltb a.0 blocks)) [
        | inl below ↦ ltb→lt a.0 blocks below
        | inr past ↦ absurd (omega (arith, held, id, enough b (ground arith)))
      ],
      omega (arith, off, mod-lt pos positive),
    )

module _ (T : Tensors) (p q : BlockPool) (n : ℕ) (lanes starts : List ℕ) (tables : List (List ℕ))
    (idx : List (ℤ × ℤ)) (s : BlockStore T) (fresh : Tensors.Fresh T) (d : Distinct lanes)
    (h : IsAddressable q) (m : Committed p n lanes q starts)
    (snap : snapshot q.tables lanes ≡ some tables)
    (w : write_indices tables starts n q.block_size ≡ some idx)
    (size : Tensors.offsets T s.pool ≡ p.block_size)
    (enough : (b : ℕ) → Tensors.blocks T s.pool ≤ b → owners b p ≡ 0) where
  open T use {
    Row, blocks, offsets, read, scatter, token_major, scatter_hit, scatter_miss, scatter_shape,
  }

  abbrev rows : List Row
  rows = token_major fresh

  held_after : (b : ℕ) → blocks s.pool ≤ b → owners b q ≡ 0
  held_after b past = m.same_owners b ∙ enough b past

  offsets_after : offsets s.pool ≡ q.block_size
  offsets_after = omega (arith, size, m.same_size)

  inside : AllInside (blocks s.pool) (offsets s.pool) idx
  inside =
      subst (λ o. AllInside (blocks s.pool) o idx) (sym offsets_after)
        (indices-AllInside q h n lanes starts tables (blocks s.pool) snap w held_after)

  -- A position that was there shows the row that it showed.
  kept_row :
      (lane pos len : ℕ) (r : Row)
      → get_elem? p.lens lane ≡ some len
      → pos < len
      → row_at T s p lane pos ≡ some r
      → row_at T (write T s idx fresh) q lane pos ≡ some r
  unfolding row_at write
  kept_row lane pos len r at below e =
      let (a, ea, er) = >>=-eq-some (address p lane pos) _ e in
      let place : address q lane pos ≡ some a =
        address_kept p q n lanes starts lane pos len a m at ea in
      let apart : NotIn (index_of a) idx =
        old_place q h n lanes starts tables lane pos a snap w place (λ k start l f. omega (
          arith,
          some_lens len start (sym at ∙ starts_at p.lens lanes starts k m.starts_are l f),
        )) in
      let (below_blocks, below_size) =
        address_below q lane pos a (blocks s.pool) place h.positive held_after in
      rw
        (
          place,
          scatter_miss s.pool idx rows a inside apart below_blocks
              (omega (arith, offsets_after, below_size)),
        )
        er

  -- A new position shows the row that was written for it.
  new_row :
      (lane len k j : ℕ) (r : Row)
      → get_elem? p.lens lane ≡ some len
      → get_elem? lanes k ≡ some lane
      → j < n
      → get_elem? rows (row_number n k j) ≡ some r
      → row_at T (write T s idx fresh) q lane (len + j) ≡ some r
  unfolding row_at write
  new_row lane len k j r at l below e =
      let (start, f) = start_of_lane p.lens lanes starts k m.starts_are l in
      let same : start ≡ len =
        some_lens start len (sym (starts_at p.lens lanes starts k m.starts_are l f) ∙ at) in
      let (a, ei, place) = new_place q h n lanes starts tables k j lane start snap w l f below in
      let here : address q lane (len + j) ≡ some a =
        subst (λ x. address q lane (x + j) ≡ some a) same place in
      rw
        (
          here,
          scatter_hit s.pool idx rows (row_number n k j) a r
              (indices-AllDifferent q h n lanes starts tables d snap w) inside ei e,
        )
        refl

  -- The store after the round stands for the lists of rows before it, each lane of the round with its
  -- new rows at the end.
  pub write-Represents :
      (view : ℕ → List Row)
      → length (token_major fresh) ≡ row_number n (length lanes) 0
      → Represents T s p view
      → Represents T
          (write T s idx fresh)
          q
          (λ lane. view lane ++ rows_for n lanes (token_major fresh) lane)
  unfolding write
  write-Represents view full v = record {
    long = λ lane len e.
        let (l, at) =
          get_elem?_of_lt p.lens lane
            (omega (arith, lt_of_get_elem? q.lens lane e, m.lens.same_count)) in
        elim (Bool-cases (mem lane lanes)) [
          | inl inside ↦
              let grown : len ≡ l + n =
                some_lens len (l + n) (sym e ∙ m.lens.longer lane l at inside) in
              omega (
                arith,
                length-append (view lane) (rows_for n lanes rows lane),
                v.long lane l at,
                length-rows_for n lanes rows lane full inside,
              )
          | inr outside ↦
              let same : len ≡ l = some_lens len l (sym e ∙ m.lens.kept lane l at outside) in
              omega (
                arith,
                length-append (view lane) (rows_for n lanes rows lane),
                v.long lane l at,
                ap {B = ℕ} length (rows_for-none n lanes rows lane outside),
              )
        ];
    offsets = omega (arith, (scatter_shape s.pool idx rows).1, offsets_after);
    blocks = λ b past. held_after b (omega (arith, (scatter_shape s.pool idx rows).0, past));
    shows = λ lane pos len r e f.
        let (l, at) =
          get_elem?_of_lt p.lens lane
            (omega (arith, lt_of_get_elem? q.lens lane e, m.lens.same_count)) in
        elim (get_elem?-append_cases (view lane) (rows_for n lanes rows lane) pos f) [
          | inl old ↦
              kept_row lane pos l r at
                (omega (arith, lt_of_get_elem? (view lane) pos old, v.long lane l at))
                (v.shows lane pos l r at old)
          | inr (j, there, new) ↦
              let (k, in_round, below, found) = rows_for_at n lanes rows lane j new in
              let where_to : l + j ≡ pos = omega (arith, there, v.long lane l at) in
              subst (λ x. row_at T (write T s idx fresh) q lane x ≡ some r) where_to
                (new_row lane l k j r at in_round below found)
        ];
  }
