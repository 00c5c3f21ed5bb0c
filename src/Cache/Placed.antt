-- ===== src/Cache/Placed.antt =====
-- Where a round writes: which position of which lane each write index stands for.
use burn_lm.Prelude.{
  get_elem?_of_lt, get_elem?-append, ap, ℕ, zero, suc, ◌+◌, ◌<◌, ◌≡◌, ◌⊎◌, inl, inr, refl, subst,
  List, [], ◌∷◌, ◌++◌, some, arith, length, get_elem?, lt_of_get_elem?, >>=-eq-some,
}
use burn_lm.Pool.{BlockPool}
use burn_lm.Store.{ℤ, write_indices}
use burn_lm.Store.Indices.{
  PlaceOf, write_lane-IsRun, write_indices-split, write_indices-none_left, write_indices-no_starts,
}
use burn_lm.Cache.{snapshot}

-- The row of the `j`-th new position of lane number `m`, in a round of `n` new positions for each lane.
abbrev pub row_number : ℕ → ℕ → ℕ → ℕ
row_number n zero j = j
row_number n (suc m) j = n + row_number n m j

pub get_elem?-append_cases :
    {A : Type 0} (xs ys : List A) (k : ℕ) {a : A}
    → get_elem? (xs ++ ys) k ≡ some a
    → (get_elem? xs k ≡ some a) ⊎ ((j : ℕ) × (k ≡ length xs + j) × (get_elem? ys j ≡ some a))
get_elem?-append_cases [] ys k e = inr (k, omega arith, e)
get_elem?-append_cases (x ∷ xs) ys zero e = inl e
get_elem?-append_cases (x ∷ xs) ys (suc k) e = elim (get_elem?-append_cases xs ys k e) [
  | inl here ↦ inl here
  | inr (j, at, there) ↦ inr (j, omega (arith, at), there)
]

-- Write index `k`, the pair `a`, is the place of a new position of a lane of the round.
pub record Placed (p : BlockPool) (n : ℕ) (lanes starts : List ℕ) (k : ℕ) (a : ℤ × ℤ) : Type 0 where
  pub number : ℕ
  pub offset : ℕ
  pub lane : ℕ
  pub start : ℕ
  pub table : List ℕ
  pub below : offset < n
  pub at : k ≡ row_number n number offset
  pub lane_at : get_elem? lanes number ≡ some lane
  pub start_at : get_elem? starts number ≡ some start
  pub table_at : get_elem? p.tables lane ≡ some table
  pub place : PlaceOf table p.block_size (start + offset) a

Placed-later :
    (p : BlockPool) (n lane start : ℕ) (lanes starts : List ℕ) (k : ℕ) (a : ℤ × ℤ)
    → Placed p n lanes starts k a
    → Placed p n (lane ∷ lanes) (start ∷ starts) (n + k) a
Placed-later p n lane start lanes starts k a h = record {
  number = suc h.number;
  offset = h.offset;
  lane = h.lane;
  start = h.start;
  table = h.table;
  below = h.below;
  at = omega (arith, h.at);
  lane_at = h.lane_at;
  start_at = h.start_at;
  table_at = h.table_at;
  place = h.place;
}

pub write_indices-Placed :
    (p : BlockPool) (n : ℕ) (lanes starts : List ℕ) (tables : List (List ℕ)) {idx : List (ℤ × ℤ)}
    → snapshot p.tables lanes ≡ some tables
    → write_indices tables starts n p.block_size ≡ some idx
    → (k : ℕ) (a : ℤ × ℤ) → get_elem? idx k ≡ some a
    → Placed p n lanes starts k a
unfolding snapshot
write_indices-Placed p n [] starts tables {idx} s w k a e =
    let none_there : tables ≡ [] = cc in
    let empty : [] ≡ idx =
      write_indices-none_left starts n p.block_size
        (subst (λ ts. write_indices ts starts n p.block_size ≡ some idx) none_there w) in
    cc (empty, e)
write_indices-Placed p n (lane ∷ lanes) [] tables {idx} s w k a e =
    let (table, et, s1) = >>=-eq-some (get_elem? p.tables lane) _ s in
    let (rest, er, s2) = >>=-eq-some (snapshot p.tables lanes) _ s1 in
    let same : tables ≡ table ∷ rest = cc in
    let empty : [] ≡ idx =
      write_indices-no_starts table rest n p.block_size
        (subst (λ ts. write_indices ts [] n p.block_size ≡ some idx) same w) in
    cc (empty, e)
write_indices-Placed p n (lane ∷ lanes) (start ∷ starts) tables {idx} s w k a e =
    let (table, et, s1) = >>=-eq-some (get_elem? p.tables lane) _ s in
    let (rest, er, s2) = >>=-eq-some (snapshot p.tables lanes) _ s1 in
    let same : tables ≡ table ∷ rest = cc in
    let (here, later, eh, el, joined) =
      write_indices-split table rest start starts n p.block_size
        (subst (λ ts. write_indices ts (start ∷ starts) n p.block_size ≡ some idx) same w) in
    let (size, run) = write_lane-IsRun table p.block_size start n eh in
    elim (get_elem?-append_cases here later k (cc (joined, e))) [
      | inl first ↦ record {
        number = 0;
        offset = k;
        lane = lane;
        start = start;
        table = table;
        below = omega (arith, size, lt_of_get_elem? here k first);
        at = refl;
        lane_at = refl;
        start_at = refl;
        table_at = et;
        place = run k a first;
      }
      | inr (j, at, second) ↦
          let k_at : n + j ≡ k = omega (arith, size, at) in
          subst (λ x. Placed p n (lane ∷ lanes) (start ∷ starts) x a) k_at
            (Placed-later p n lane start lanes starts j a
              (write_indices-Placed p n lanes starts rest er el j a second))
    ]

pub get_elem?-append_right :
    {A : Type 0} (xs ys : List A) (k j : ℕ)
    → k ≡ length xs + j
    → get_elem? (xs ++ ys) k ≡ get_elem? ys j
get_elem?-append_right [] ys k j e = ap (λ i. get_elem? ys i) (omega arith)
get_elem?-append_right (x ∷ xs) ys zero j e = absurd (omega arith)
get_elem?-append_right (x ∷ xs) ys (suc k) j e = get_elem?-append_right xs ys k j (omega arith)

pub row_number_injective :
    (n m m' j j' : ℕ) → j < n → j' < n → row_number n m j ≡ row_number n m' j' → (m ≡ m') × (j ≡ j')
row_number_injective n zero zero j j' h h' q = (refl, q)
row_number_injective n zero (suc m') j j' h h' q = absurd (omega arith)
row_number_injective n (suc m) zero j j' h h' q = absurd (omega arith)
row_number_injective n (suc m) (suc m') j j' h h' q =
    let (same, at) = row_number_injective n m m' j j' h h' (omega arith) in (ap suc same, at)

-- Every new position has its write index.
pub write_indices_at :
    (p : BlockPool) (n : ℕ) (lanes starts : List ℕ) (tables : List (List ℕ)) {idx : List (ℤ × ℤ)}
    (m j lane start : ℕ)
    → snapshot p.tables lanes ≡ some tables
    → write_indices tables starts n p.block_size ≡ some idx
    → get_elem? lanes m ≡ some lane
    → get_elem? starts m ≡ some start
    → j < n
    → (a : ℤ × ℤ) × (get_elem? idx (row_number n m j) ≡ some a)
unfolding snapshot
write_indices_at p n [] starts tables {idx} m j lane start s w at at' below = cc
write_indices_at p n (l ∷ lanes) [] tables {idx} m j lane start s w at at' below = cc
write_indices_at p n (l ∷ lanes) (f ∷ starts) tables {idx} m j lane start s w at at' below =
    let (table, et, s1) = >>=-eq-some (get_elem? p.tables l) _ s in
    let (rest, er, s2) = >>=-eq-some (snapshot p.tables lanes) _ s1 in
    let same : tables ≡ table ∷ rest = cc in
    let (here, later, eh, el, joined) =
      write_indices-split table rest f starts n p.block_size
        (subst (λ ts. write_indices ts (f ∷ starts) n p.block_size ≡ some idx) same w) in
    let (size, run) = write_lane-IsRun table p.block_size f n eh in
    by_number m here later size joined at at'
      (λ k at at'. write_indices_at p n lanes starts rest k j lane start er el at at' below)
  where
    by_number :
        (m : ℕ) (here later : List (ℤ × ℤ))
        → length here ≡ n
        → here ++ later ≡ idx
        → get_elem? (l ∷ lanes) m ≡ some lane
        → get_elem? (f ∷ starts) m ≡ some start
        → ((k : ℕ)
            → get_elem? lanes k ≡ some lane
            → get_elem? starts k ≡ some start
            → (a : ℤ × ℤ) × (get_elem? later (row_number n k j) ≡ some a))
        → (a : ℤ × ℤ) × (get_elem? idx (row_number n m j) ≡ some a)
    by_number zero here later size joined at at' again =
        let (a, e) = get_elem?_of_lt here j (omega (arith, size)) in
        (a, cc (joined, get_elem?-append here later j e))
    by_number (suc k) here later size joined at at' again =
        let (a, e) = again k at at' in
        (
          a,
          cc (
            joined,
            get_elem?-append_right here later (n + row_number n k j) (row_number n k j)
                (omega (arith, size)),
            e,
          ),
        )
