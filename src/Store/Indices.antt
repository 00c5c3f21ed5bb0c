-- ===== src/Store/Indices.antt =====
-- The indices that a round writes to.
use burn_lm.Prelude.{
  ℕ, zero, suc, ◌+◌, ◌/◌, ◌%◌, ◌<◌, ◌≤◌, ◌≡◌, ◌≢◌, refl, ap, subst, List, [], ◌∷◌, some, arith,
  length, ◌++◌, get_elem?_of_lt, get_elem?, >>=-eq-some,
}
use burn_lm.Prelude.Arith.{div_ceil, div-lt-div_ceil}
use burn_lm.Store.{ℤ, as_i32, write_lane, write_indices, NotIn, AllDifferent}

-- A table that covers the length after the round has a block for every position of the round.
pub write_lane_total :
    (table : List ℕ) (block_size start n len : ℕ)
    → 0 < block_size
    → length table ≡ div_ceil len block_size
    → start + n ≤ len
    → (idx : List (ℤ × ℤ)) × (write_lane table block_size start n ≡ some idx)
unfolding write_lane
write_lane_total table block_size start zero len pos covers inside = ([], refl)
write_lane_total table block_size start (suc n) len pos covers inside =
    let (b, e) =
      get_elem?_of_lt table (start / block_size)
        (omega (arith, covers, div-lt-div_ceil start len block_size pos (omega arith))) in
    let (rest, f) = write_lane_total table block_size (start + 1) n len pos covers (omega arith) in
    ((as_i32 b, as_i32 (start % block_size)) ∷ rest, rw (write_lane, e, f) refl)

pub write_indices-cons :
    (table : List ℕ) (tables : List (List ℕ)) (start : ℕ) (starts : List ℕ) (seq_len block_size : ℕ)
    {here rest : List (ℤ × ℤ)}
    → write_lane table block_size start seq_len ≡ some here
    → write_indices tables starts seq_len block_size ≡ some rest
    → write_indices (table ∷ tables) (start ∷ starts) seq_len block_size ≡ some (here ++ rest)
unfolding write_indices
write_indices-cons table tables start starts seq_len block_size e f = rw (write_indices, e, f) refl

pub write_indices-nil :
    (starts : List ℕ) (seq_len block_size : ℕ)
    → write_indices [] starts seq_len block_size ≡ some []
unfolding write_indices
write_indices-nil starts seq_len block_size = refl

-- The pair `a` is the place of position `pos` in a table.
abbrev pub PlaceOf : List ℕ → ℕ → ℕ → ℤ × ℤ → Type 0
PlaceOf table block_size pos a =
    (b : ℕ) × (get_elem? table (pos / block_size) ≡ some b)
    × (a ≡ (as_i32 b, as_i32 (pos % block_size)))

-- The pairs are the places of the positions from `start` on.
abbrev pub IsRun : List ℕ → ℕ → ℕ → List (ℤ × ℤ) → Type 0
IsRun table block_size start idx =
    (j : ℕ) (a : ℤ × ℤ) → get_elem? idx j ≡ some a → PlaceOf table block_size (start + j) a

IsRun-cons :
    (table : List ℕ) (block_size start b : ℕ) (rest : List (ℤ × ℤ))
    → get_elem? table (start / block_size) ≡ some b
    → IsRun table block_size (start + 1) rest
    → IsRun table block_size start ((as_i32 b, as_i32 (start % block_size)) ∷ rest)
IsRun-cons table block_size start b rest e h zero a q =
    let first : start ≡ start + 0 = omega arith in
    subst (λ pos. PlaceOf table block_size pos a) first (b, e, cc)
IsRun-cons table block_size start b rest e h (suc j) a q =
    let next : start + 1 + j ≡ start + suc j = omega arith in
    subst (λ pos. PlaceOf table block_size pos a) next (h j a q)

-- `write_lane` gives as many pairs as positions, each the place of its position.
pub write_lane-IsRun :
    (table : List ℕ) (block_size start n : ℕ) {idx : List (ℤ × ℤ)}
    → write_lane table block_size start n ≡ some idx
    → (length idx ≡ n) × IsRun table block_size start idx
unfolding write_lane
write_lane-IsRun table block_size start zero {idx} e =
    let same : [] ≡ idx = cc in
    subst (λ (l : List (ℤ × ℤ)). (length l ≡ 0) × IsRun table block_size start l) same
      (refl, λ j a q. cc)
write_lane-IsRun table block_size start (suc n) {idx} e =
    let (b, eb, e1) = >>=-eq-some (get_elem? table (start / block_size)) _ e in
    let (rest, er, e2) = >>=-eq-some (write_lane table block_size (start + 1) n) _ e1 in
    let (size, later) = write_lane-IsRun table block_size (start + 1) n er in
    let same : (as_i32 b, as_i32 (start % block_size)) ∷ rest ≡ idx = cc in
    subst (λ (l : List (ℤ × ℤ)). (length l ≡ suc n) × IsRun table block_size start l) same
      (ap suc size, IsRun-cons table block_size start b rest eb later)

-- The indices of a round, lane by lane.
pub write_indices-split :
    (table : List ℕ) (tables : List (List ℕ)) (start : ℕ) (starts : List ℕ) (seq_len block_size : ℕ)
    {idx : List (ℤ × ℤ)}
    → write_indices (table ∷ tables) (start ∷ starts) seq_len block_size ≡ some idx
    → (here rest : List (ℤ × ℤ)) × (write_lane table block_size start seq_len ≡ some here)
      × (write_indices tables starts seq_len block_size ≡ some rest)
      × (here ++ rest ≡ idx)
unfolding write_indices
write_indices-split table tables start starts seq_len block_size e =
    let (here, eh, e1) = >>=-eq-some (write_lane table block_size start seq_len) _ e in
    let (rest, er, e2) = >>=-eq-some (write_indices tables starts seq_len block_size) _ e1 in
    (here, rest, eh, er, cc)

pub write_indices-none_left :
    (starts : List ℕ) (seq_len block_size : ℕ) {idx : List (ℤ × ℤ)}
    → write_indices [] starts seq_len block_size ≡ some idx
    → [] ≡ idx
unfolding write_indices
write_indices-none_left starts seq_len block_size e = cc

pub write_indices-no_starts :
    (table : List ℕ) (tables : List (List ℕ)) (seq_len block_size : ℕ) {idx : List (ℤ × ℤ)}
    → write_indices (table ∷ tables) [] seq_len block_size ≡ some idx
    → [] ≡ idx
unfolding write_indices
write_indices-no_starts table tables seq_len block_size e = cc

-- Places, each at one index only, are all different.
pub NotIn-of : (a : ℤ × ℤ) (idx : List (ℤ × ℤ)) → ((k : ℕ) → get_elem? idx k ≢ some a) → NotIn a idx
NotIn-of a [] h = tt
NotIn-of a (x ∷ idx) h = (λ q. h 0 (cc q), NotIn-of a idx (λ k. h (suc k)))

pub AllDifferent-of :
    (idx : List (ℤ × ℤ))
    → ((i j : ℕ) (a : ℤ × ℤ) → get_elem? idx i ≡ some a → get_elem? idx j ≡ some a → i ≡ j)
    → AllDifferent idx
AllDifferent-of [] h = tt
AllDifferent-of (x ∷ idx) h = (
  NotIn-of x idx (λ k e. absurd (suc_ne k (h 0 (suc k) x refl e))),
  AllDifferent-of idx (λ i j a e f. omega (arith, h (suc i) (suc j) a e f)),
)
  where
    suc_ne : (k : ℕ) → 0 ≢ suc k
    suc_ne k q = omega (arith, q)
