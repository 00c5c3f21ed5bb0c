-- ===== src/Worker/Slots.antt =====
-- The slot that `admit` looks for, over the slots of the active sequences.
use burn_lm.Prelude.{
  ℕ, zero, suc, ◌+◌, ◌<◌, ◌≤◌, ◌≡◌, subst, ◌≢◌, refl, ◌⊎◌, true, false, List, [], ◌∷◌, some, map,
  arith, ◌==◌, ==_iff, Bool-cases, inl, inr, length, mem, if◌then◌else◌,
}
use burn_lm.Worker.{JobSeq, lowest_free}

abbrev pub slots : List JobSeq → List ℕ
slots active = map (λ seq. seq.slot) active

-- One occurrence taken away.
without : ℕ → List ℕ → List ℕ
without y [] = []
without y (x ∷ xs) = if x == y then xs else x ∷ without y xs

length-without : (y : ℕ) (xs : List ℕ) → mem y xs ≡ true → suc (length (without y xs)) ≡ length xs
unfolding without
length-without y [] m = cc
length-without y (x ∷ xs) m = elim (Bool-cases (x == y)) [
  | inl same ↦ rw same refl
  | inr other ↦ rw other (ground (arith, length-without y xs))
]

mem-without : (x y : ℕ) (xs : List ℕ) → x ≢ y → mem x xs ≡ true → mem x (without y xs) ≡ true
unfolding without
mem-without x y [] d m = cc
mem-without x y (z ∷ xs) d m = elim (Bool-cases (z == y)) [
  | inl same ↦ rw same (ground arith)
  | inr other ↦ rw other (ground (arith, mem-without x y xs d))
]

-- A list in which `n` numbers in a row stand is as long as that.
length-range :
    (low n : ℕ) (xs : List ℕ) → ((x : ℕ) → low ≤ x → x < low + n → mem x xs ≡ true) → n ≤ length xs
length-range low zero xs inside = omega arith
length-range low (suc n) xs inside =
    let top = inside (low + n) (omega arith) (omega arith) in
    omega (
      arith,
      length-without (low + n) xs top,
      length-range low n (without (low + n) xs) (λ x above below.
          mem-without x (low + n) xs (λ e. omega arith) (inside x above (omega arith))),
    )

-- What the search finds: the least free number of the range, or that all are taken.
lowest_free-cases :
    (count candidate : ℕ) (active : List JobSeq)
    → ((slot : ℕ) × (lowest_free count candidate active ≡ some slot)
        × (slot < candidate + count)
        × (mem slot (slots active) ≡ false))
      ⊎ ((x : ℕ) → candidate ≤ x → x < candidate + count → mem x (slots active) ≡ true)
unfolding lowest_free
lowest_free-cases zero candidate active = inr (λ x above below. absurd (omega arith))
lowest_free-cases (suc count) candidate active = elim (Bool-cases (mem candidate (slots active))) [
  | inr free ↦ inl (candidate, rw (lowest_free, free) refl, omega arith, free)
  | inl taken ↦ elim (lowest_free-cases count (suc candidate) active) [
    | inl (slot, found, inside, free) ↦ inl (slot, rw (lowest_free, taken) found, omega arith, free)
    | inr all ↦ inr (λ x above below. elim (Bool-cases (candidate == x)) [
      | inl same ↦
          let at : candidate ≡ x = (==_iff candidate x).0 same in
          subst (λ (y : ℕ). mem y (slots active) ≡ true) at taken
      | inr other ↦
          let apart : candidate ≢ x = λ p. cc ((==_iff candidate x).1 p) in
          all x (omega arith) (omega arith)
    ])
  ]
]

length-slots : (active : List JobSeq) → length (slots active) ≡ length active
length-slots [] = refl
length-slots (seq ∷ active) = omega (arith, length-slots active)

-- While fewer than `max_slots` sequences are active, the search finds a slot below `max_slots` that
-- none of them uses.
pub lowest_free_lem :
    (max_slots : ℕ) (active : List JobSeq)
    → length active < max_slots
    → (slot : ℕ) × (lowest_free max_slots 0 active ≡ some slot)
      × (slot < max_slots)
      × (mem slot (slots active) ≡ false)
lowest_free_lem max_slots active room = elim (lowest_free-cases max_slots 0 active) [
  | inl (slot, found, below, free) ↦ (slot, found, omega arith, free)
  | inr all ↦
      absurd (omega (arith, length-range 0 max_slots (slots active) all, length-slots active))
]
