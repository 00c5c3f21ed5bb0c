-- ===== src/Pool/Grow.antt =====
-- What `grow_table` does: it moves the top of the free stack to the end of the lane's table.
use burn_lm.Prelude.{
  ℕ, zero, suc, ◌+◌, ◌-◌, ◌≤◌, ◌<◌, ◌≡◌, refl, ap, ◌∙◌, ◌⊎◌, inl, inr, List, [], ◌∷◌, ◌++◌, map,
  some, append-nil, append_assoc, arith, ltb, leb, Bool-cases, length, get_elem?, set, take, drop,
  sum, count, count-append, sum-map-set, set-get_elem?,
}
use burn_lm.Pool.{
  BlockPool, ok, err, PoolExhausted, short_by, blocks_for, extend, take_blocks, grow_table,
}

-- How many times a block is held: free, or in a lane's table.
abbrev pub owners : ℕ → BlockPool → ℕ
owners b p = count b p.free + sum (map (count b) p.tables)

pub count-extend : (b : ℕ) (free bs : List ℕ) → count b (extend free bs) ≡ count b free + count b bs
unfolding extend
count-extend b free [] = omega arith
count-extend b free (x ∷ bs) = omega (arith, count-extend b (x ∷ free) bs)

pub length-extend : (free bs : List ℕ) → length (extend free bs) ≡ length free + length bs
unfolding extend
length-extend free [] = omega arith
length-extend free (x ∷ bs) = omega (arith, length-extend (x ∷ free) bs)

pub count-take-drop :
    (b n : ℕ) (xs : List ℕ) → count b (take n xs) + count b (drop n xs) ≡ count b xs
count-take-drop b zero xs = omega arith
count-take-drop b (suc n) [] = omega arith
count-take-drop b (suc n) (x ∷ xs) = omega (arith, count-take-drop b n xs)

pub take_blocks_lem :
    (n : ℕ) (free table : List ℕ)
    → n ≤ length free
    → take_blocks n free table ≡ some (drop n free, table ++ take n free)
unfolding take_blocks
take_blocks_lem zero free table h = rw (append-nil table)
take_blocks_lem (suc n) [] table h = absurd (omega arith)
take_blocks_lem (suc n) (b ∷ free) table h =
    take_blocks_lem n free (table ++ b ∷ []) (omega arith)
    ∙ ap (λ t. some (drop n free, t)) (append_assoc table (b ∷ []) (take n free))

-- The pool after a lane has been given the top `n` blocks of the stack.
abbrev pub grant : BlockPool → ℕ → List ℕ → ℕ → BlockPool
grant p lane table n = record p {
  free = drop n p.free;
  tables = set p.tables lane (table ++ take n p.free);
}

pub owners-grant :
    (p : BlockPool) (lane n b : ℕ) {table : List ℕ}
    → get_elem? p.tables lane ≡ some table
    → owners b (grant p lane table n) ≡ owners b p
owners-grant p lane n b {table} e = omega (
  arith,
  sum-map-set (count b) p.tables lane (table ++ take n p.free) e,
  count-append b table (take n p.free),
  count-take-drop b n p.free,
)

grant-zero :
    (p : BlockPool) (lane n : ℕ) {table : List ℕ}
    → get_elem? p.tables lane ≡ some table
    → n ≡ 0
    → grant p lane table n ≡ p
grant-zero p lane n {table} e z =
    rw (z, append-nil table) (ap (λ ts. record p { tables = ts }) (set-get_elem? p.tables lane e))

-- `grow_table` either gives the lane exactly the blocks that it lacks, or changes nothing and says
-- how many blocks are missing.
pub grow_table_cases :
    (p : BlockPool) (lane new_len : ℕ) {table : List ℕ}
    → get_elem? p.tables lane ≡ some table
    → ((grow_table p lane new_len
          ≡ some (grant p lane table (blocks_for p new_len - length table), ok tt))
        × (blocks_for p new_len - length table ≤ length p.free))
      ⊎ ((e : PoolExhausted) × (grow_table p lane new_len ≡ some (p, err e))
          × (e ≡ short_by (blocks_for p new_len - length table - length p.free))
          × (length p.free < blocks_for p new_len - length table))
unfolding grow_table
grow_table_cases p lane new_len {table} e = elim (Bool-cases (leb need have)) [
  | inl fits ↦ inl (rw (e, fits, grant-zero p lane (need - have) e (ground arith)), ground arith)
  | inr grows ↦ elim (Bool-cases (ltb (length p.free) (need - have))) [
    | inl dry ↦ inr (short_by (need - have - length p.free), rw (e, grows, dry), refl, ground arith)
    | inr enough ↦ inl (
      rw (e, grows, enough, take_blocks_lem (need - have) p.free table (ground arith)),
      ground arith,
    )
  ]
]
  where
    need : ℕ
    need = blocks_for p new_len

    have : ℕ
    have = length table
