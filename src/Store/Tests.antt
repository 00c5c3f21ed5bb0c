-- ===== src/Store/Tests.antt =====
-- A tensor library whose tensors are functions of the block and the offset, with a number for a row.
use burn_lm.Prelude.{
  ℕ, zero, suc, ◌≡◌, ◌≢◌, refl, inl, inr, Bool, true, false, ◌&&◌, List, [], ◌∷◌, some, arith, ◌==◌,
  if◌then◌else◌, get_elem?, Bool-cases,
}
use burn_lm.Store.{ℤ, pos, negsuc, index_of, Tensors, NotIn, AllDifferent}

abbrev is_at : ℤ × ℤ → ℕ × ℕ → Bool
is_at (pos b, pos o) a = b == a.0 && o == a.1
is_at (pos b, negsuc o) a = false
is_at (negsuc b, o) a = false

is_at_self : (a : ℕ × ℕ) → is_at (index_of a) a ≡ true
is_at_self a = ground arith

is_at_eq : (x : ℤ × ℤ) (a : ℕ × ℕ) → is_at x a ≡ true → x ≡ index_of a
is_at_eq (pos b, pos o) a h =
    let block : b ≡ a.0 = ground arith in
    let offset : o ≡ a.1 = ground arith in rw (block, offset) refl
is_at_eq (pos b, negsuc o) a h = cc
is_at_eq (negsuc b, o) a h = cc

is_at_ne : (x : ℤ × ℤ) (a : ℕ × ℕ) → x ≢ index_of a → is_at x a ≡ false
is_at_ne x a ne = elim (Bool-cases (is_at x a)) [
  | inl same ↦ absurd (ne (is_at_eq x a same))
  | inr other ↦ other
]

abbrev scatter_in : (ℕ × ℕ → ℕ) → List (ℤ × ℤ) → List ℕ → ℕ × ℕ → ℕ
scatter_in t [] rows a = t a
scatter_in t (x ∷ idx) [] a = t a
scatter_in t (x ∷ idx) (r ∷ rows) a = if is_at x a then r else scatter_in t idx rows a

pub scatter_in_hit :
    (t : ℕ × ℕ → ℕ) (idx : List (ℤ × ℤ)) (rows : List ℕ) (k : ℕ) (a : ℕ × ℕ) (r : ℕ)
    → AllDifferent idx
    → get_elem? idx k ≡ some (index_of a)
    → get_elem? rows k ≡ some r
    → scatter_in t idx rows a ≡ r
scatter_in_hit t [] rows k a r d e f = cc
scatter_in_hit t (x ∷ idx) [] k a r d e f = cc
scatter_in_hit t (x ∷ idx) (y ∷ rows) zero a r d e f =
    let same : x ≡ index_of a = cc in let row : y ≡ r = cc in rw (same, is_at_self a) row
scatter_in_hit t (x ∷ idx) (y ∷ rows) (suc k) a r d e f =
    rw (is_at_ne x a (NotIn_ne x (index_of a) idx k d.0 e))
      (scatter_in_hit t idx rows k a r d.1 e f)
  where
    NotIn_ne :
        (x a : ℤ × ℤ) (idx : List (ℤ × ℤ)) (k : ℕ) → NotIn x idx → get_elem? idx k ≡ some a → x ≢ a
    NotIn_ne x a [] k out e = cc
    NotIn_ne x a (y ∷ idx) zero out e = λ q. out.0 (cc (q, e))
    NotIn_ne x a (y ∷ idx) (suc k) out e = NotIn_ne x a idx k out.1 e

pub scatter_in_miss :
    (t : ℕ × ℕ → ℕ) (idx : List (ℤ × ℤ)) (rows : List ℕ) (a : ℕ × ℕ)
    → NotIn (index_of a) idx
    → scatter_in t idx rows a ≡ t a
scatter_in_miss t [] rows a out = refl
scatter_in_miss t (x ∷ idx) [] a out = refl
scatter_in_miss t (x ∷ idx) (y ∷ rows) a out =
    rw (is_at_ne x a (λ q. out.0 (cc q))) (scatter_in_miss t idx rows a out.1)

-- A tensor of a shape.
pub record Grid : Type 0 where
  pub blocks : ℕ
  pub offsets : ℕ
  pub cells : ℕ × ℕ → ℕ

abbrev pub toy_tensors : Tensors
toy_tensors = record {
  Row = ℕ;
  Tensor = Grid;
  Fresh = List ℕ;
  zero_row = 0;
  blocks = λ t. t.blocks;
  offsets = λ t. t.offsets;
  read = λ t b o. t.cells (b, o);
  empty = λ n size. record { blocks = n; offsets = size; cells = λ a. 9 };
  zero_sentinel = λ t. record t { cells = λ a. if a.0 == 0 then 0 else t.cells a };
  token_major = λ rows. rows;
  scatter = λ t idx rows. record t { cells = scatter_in t.cells idx rows };
  sentinel_is_zero = λ t o h h'. refl;
  empty_shape = λ n size. (refl, refl);
  sentinel_shape = λ t. (refl, refl);
  scatter_shape = λ t idx rows. (refl, refl);
  scatter_hit = λ t idx rows k a r d inside. scatter_in_hit t.cells idx rows k a r d;
  scatter_miss = λ t idx rows a inside out h h'. scatter_in_miss t.cells idx rows a out;
}
