-- ===== src/Pool/Address.antt =====
-- The addressing contract: position `p` of a lane lies in block `table[p / block_size]` at offset
-- `p % block_size`.
use native.Mathlib.Nat.{div-add-mod'}
use burn_lm.Prelude.{
  ℕ, zero, suc, ◌+◌, ◌*◌, ◌/◌, ◌%◌, ◌≤◌, ◌≡◌, refl, sym, ap, ◌∙◌, ◌≢◌, inl, inr, List, [], ◌∷◌, map,
  Option, some, arith, ◌==◌, ◌>>=◌, ==_iff, Bool-cases, >>=-eq-some, get_elem?, sum, count,
  le-sum-map,
}
use burn_lm.Pool.{BlockPool}
use burn_lm.Pool.Grow.{owners}

unfoldable pub address : BlockPool → ℕ → ℕ → Option (ℕ × ℕ)
address p lane pos = do
  table ← get_elem? p.tables lane
  block ← get_elem? table (pos / p.block_size)
  some (block, pos % p.block_size)

pub count_pos : (b : ℕ) (xs : List ℕ) (i : ℕ) → get_elem? xs i ≡ some b → 1 ≤ count b xs
count_pos b [] i h = cc
count_pos b (x ∷ xs) zero h = ground arith
count_pos b (x ∷ xs) (suc i) h = omega (arith, count_pos b xs i h)

count_two :
    (b : ℕ) (xs : List ℕ) (i j : ℕ)
    → get_elem? xs i ≡ some b
    → get_elem? xs j ≡ some b
    → i ≢ j
    → 2 ≤ count b xs
count_two b [] i j h k ne = cc
count_two b (x ∷ xs) zero zero h k ne = absurd (ne refl)
count_two b (x ∷ xs) zero (suc j) h k ne = ground (arith, count_pos b xs j k)
count_two b (x ∷ xs) (suc i) zero h k ne = ground (arith, count_pos b xs i h)
count_two b (x ∷ xs) (suc i) (suc j) h k ne =
    omega (arith, count_two b xs i j h k (λ e. ne (ap suc e)))

le-sum-map_two :
    {A : Type 0} (f : A → ℕ) (xs : List A) (i j : ℕ) {x y : A}
    → get_elem? xs i ≡ some x
    → get_elem? xs j ≡ some y
    → i ≢ j
    → f x + f y ≤ sum (map f xs)
le-sum-map_two f [] i j h k ne = cc
le-sum-map_two f (z ∷ xs) zero zero h k ne = absurd (ne refl)
le-sum-map_two f (z ∷ xs) zero (suc j) h k ne = ground (arith, le-sum-map f xs j k)
le-sum-map_two f (z ∷ xs) (suc i) zero h k ne = ground (arith, le-sum-map f xs i h)
le-sum-map_two f (z ∷ xs) (suc i) (suc j) h k ne =
    omega (arith, le-sum-map_two f xs i j h k (λ e. ne (ap suc e)))

-- If no block is held twice, two positions with one address are one position of one lane: the rows
-- of two lanes, and of two positions of one lane, never share their place in the store.
pub address_injective :
    (p : BlockPool) (i j m n : ℕ) {a : ℕ × ℕ}
    → ((b : ℕ) → owners b p ≤ 1)
    → address p i m ≡ some a
    → address p j n ≡ some a
    → (i ≡ j) × (m ≡ n)
unfolding address
address_injective p i j m n {a} once e f =
    let (t, et, e') = >>=-eq-some (get_elem? p.tables i) _ e in
    let (b, eb, ea) = >>=-eq-some (get_elem? t (m / p.block_size)) _ e' in
    let (u, fu, f') = >>=-eq-some (get_elem? p.tables j) _ f in
    let (d, fd, fa) = >>=-eq-some (get_elem? u (n / p.block_size)) _ f' in
    let same_block : b ≡ d = cc in
    let same_offset : m % p.block_size ≡ n % p.block_size = cc in
    elim (Bool-cases (i == j)) [
      | inr apart ↦ absurd (
          omega (
            arith,
            once b,
            count_pos b t (m / p.block_size) eb,
            count_pos b u (n / p.block_size) (fd ∙ ap some (sym same_block)),
            le-sum-map_two (count b) p.tables i j et fu (λ s. cc ((==_iff i j).1 s)),
          ))
      | inl same ↦
          let lane : i ≡ j = (==_iff i j).0 same in
          elim (Bool-cases (m / p.block_size == n / p.block_size)) [
            | inl at ↦ (
              lane,
              omega (
                arith,
                same_offset,
                div-add-mod' m p.block_size,
                div-add-mod' n p.block_size,
                ap (λ (k : ℕ). k * p.block_size)
                    ((==_iff (m / p.block_size) (n / p.block_size)).0 at),
              ),
            )
            | inr other ↦ absurd (
                omega (
                  arith,
                  once b,
                  le-sum-map (count b) p.tables i et,
                  count_two b t (m / p.block_size) (n / p.block_size) eb
                      (cc (lane, et, fu, fd, same_block))
                      (λ s. cc ((==_iff (m / p.block_size) (n / p.block_size)).1 s)),
                ))
          ]
    ]
