-- ===== src/Worker/Fits.antt =====
-- The active set under a capacity, and what one more sequence needs.
use burn_lm.Prelude.{
  ℕ, ◌+◌, ◌<◌, ◌≤◌, ◌≡◌, ◌≢◌, refl, false, List, [], ◌∷◌, ◌++◌, All, arith, mem, Distinct,
}
use burn_lm.Engine.{BatchCapacity}
use burn_lm.Worker.{JobSeq, reserved_blocks}
use burn_lm.Worker.Slots.{slots}

mem-snoc :
    (x y : ℕ) (active : List JobSeq) (s : JobSeq)
    → s.slot ≡ y
    → x ≢ y
    → mem x (slots active) ≡ false
    → mem x (slots (active ++ s ∷ [])) ≡ false
mem-snoc x y [] s e d m = ground arith
mem-snoc x y (seq ∷ active) s e d m = ground (arith, mem-snoc x y active s e d)

Distinct-snoc :
    (active : List JobSeq) (s : JobSeq)
    → Distinct (slots active)
    → mem s.slot (slots active) ≡ false
    → Distinct (slots (active ++ s ∷ []))
Distinct-snoc [] s d m = (refl, tt)
Distinct-snoc (seq ∷ active) s (new, d) m = (
  mem-snoc seq.slot s.slot active s refl (ground arith) new,
  Distinct-snoc active s d (ground arith),
)

reserved-snoc :
    (active : List JobSeq) (s : JobSeq)
    → reserved_blocks (active ++ s ∷ []) ≡ reserved_blocks active + s.kv_reservation
reserved-snoc [] s = omega arith
reserved-snoc (seq ∷ active) s = omega (arith, reserved-snoc active s)

inside-snoc :
    (n : ℕ) (active : List JobSeq) (s : JobSeq)
    → All (λ (seq : JobSeq). seq.slot < n) active
    → s.slot < n
    → All (λ (seq : JobSeq). seq.slot < n) (active ++ s ∷ [])
inside-snoc n [] s a p = (p, tt)
inside-snoc n (seq ∷ active) s (q, a) p = (q, inside-snoc n active s a p)

-- The active set under a capacity: its slots are different and in range, and the blocks that are
-- reserved for it fit the budget.
pub record Fits (cap : BatchCapacity) (active : List JobSeq) : Type 0 where
  pub distinct : Distinct (slots active)
  pub inside : All (λ (seq : JobSeq). seq.slot < cap.max_slots) active
  pub within : reserved_blocks active ≤ cap.kv.total_blocks

pub Fits-snoc :
    (cap : BatchCapacity) (active : List JobSeq) (s : JobSeq)
    → Fits cap active
    → s.slot < cap.max_slots
    → mem s.slot (slots active) ≡ false
    → reserved_blocks active + s.kv_reservation ≤ cap.kv.total_blocks
    → Fits cap (active ++ s ∷ [])
Fits-snoc cap active s fits below free room = record {
  distinct = Distinct-snoc active s fits.distinct free;
  inside = inside-snoc cap.max_slots active s fits.inside below;
  within = omega (arith, reserved-snoc active s);
}
