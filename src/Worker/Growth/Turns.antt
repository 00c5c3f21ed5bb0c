-- ===== src/Worker/Growth/Turns.antt =====
-- The invariant of the loop of `grant_kv_growth`, and one turn of it.
use burn_lm.Prelude.{
  ℕ, zero, suc, subst, ◌+◌, ◌-◌, ◌<◌, ◌≤◌, ◌≡◌, ◌⊎◌, inl, inr, refl, sym, ap, ◌∙◌, Bool, true,
  false, List, [], ◌∷◌, Option, none, some, leb, leb→le, ◌==◌, ==_iff, Bool-cases, Option-cases,
  length, get_elem?, set, arith, length-set, get_elem?-set_self, get_elem?-set_ne, lt_of_get_elem?,
  sum-map-set,
}
use burn_lm.Engine.{KvBudget}
use burn_lm.Worker.{JobSeq, reserved_blocks}
use burn_lm.Worker.Slots.{slots}
use burn_lm.Worker.Growth.{
  Growth, remove, last_live, victim_of, need_now, evict, grow_one, after, is_senior,
}

abbrev pub reservation : JobSeq → ℕ
reservation seq = seq.kv_reservation

-- The sequence asks for no block beyond its reservation in the round that follows.
abbrev pub Served : KvBudget → ℕ → JobSeq → Type 0
Served kv ctx seq =
    (seq.finished ≡ true) ⊎ ((seq.paused ≡ true) ⊎ (need_now kv ctx seq ≤ seq.kv_reservation))

-- The loop's invariant: the total is derived and fits, and the sequences before `index` are served.
pub record Granted (P : List ℕ → Type 0) (kv : KvBudget) (ctx : ℕ) (g : Growth) (index : ℕ)
    : Type 0 where
  pub derived : g.reserved ≡ reserved_blocks g.active
  pub within : g.reserved ≤ kv.total_blocks
  pub placed : P (slots g.active)
  pub served : (j : ℕ) (s : JobSeq) → j < index → get_elem? g.active j ≡ some s → Served kv ctx s

-- `remove`, on the slots.
abbrev pub cut : List ℕ → ℕ → List ℕ
cut [] v = []
cut (x ∷ xs) zero = xs
cut (x ∷ xs) (suc v) = x ∷ cut xs v

pub slots-remove : (active : List JobSeq) (v : ℕ) → slots (remove active v) ≡ cut (slots active) v
slots-remove [] v = refl
slots-remove (x ∷ active) zero = refl
slots-remove (x ∷ active) (suc v) = ap (◌∷◌ x.slot) (slots-remove active v)

pub slots-set :
    (active : List JobSeq) (i : ℕ) (s' : JobSeq) {s : JobSeq}
    → get_elem? active i ≡ some s
    → s'.slot ≡ s.slot
    → slots (set active i s') ≡ slots active
slots-set [] i s' e same = refl
slots-set (x ∷ active) zero s' {s = s} e same =
    let there : x.slot ≡ s.slot = cc in ap (λ n. n ∷ slots active) (same ∙ sym there)
slots-set (x ∷ active) (suc i) s' e same = ap (◌∷◌ x.slot) (slots-set active i s' e same)

sum-remove :
    (active : List JobSeq) (v : ℕ) {s : JobSeq}
    → get_elem? active v ≡ some s
    → reserved_blocks (remove active v) + s.kv_reservation ≡ reserved_blocks active
sum-remove [] v e = cc
sum-remove (x ∷ active) zero {s = s} e =
    let same : x.kv_reservation ≡ s.kv_reservation = cc in omega arith
sum-remove (x ∷ active) (suc v) e = omega (arith, sum-remove active v e)

get_elem?-remove :
    (active : List JobSeq) (v j : ℕ) → j < v → get_elem? (remove active v) j ≡ get_elem? active j
get_elem?-remove [] v j h = refl
get_elem?-remove (x ∷ active) zero j h = absurd (omega arith)
get_elem?-remove (x ∷ active) (suc v) zero h = refl
get_elem?-remove (x ∷ active) (suc v) (suc j) h = get_elem?-remove active v j (omega arith)

length-remove :
    (active : List JobSeq) (v : ℕ) {s : JobSeq}
    → get_elem? active v ≡ some s
    → suc (length (remove active v)) ≡ length active
length-remove [] v e = cc
length-remove (x ∷ active) zero e = refl
length-remove (x ∷ active) (suc v) e = ap suc (length-remove active v e)

le-last_live : (i : ℕ) (active : List JobSeq) {v : ℕ} → last_live i active ≡ some v → i ≤ v
unfolding last_live
le-last_live i [] {v = v} e = cc
le-last_live i (x ∷ active) {v = v} e = elim (Option-cases (last_live (suc i) active)) [
  | inl nothing ↦ ground arith
  | inr (w, found) ↦ let same : w ≡ v = cc in omega (arith, le-last_live (suc i) active found)
]

pub lt-victim_of :
    (active : List JobSeq) (index : ℕ) {v : ℕ} → victim_of active index ≡ some v → index < v
unfolding victim_of
lt-victim_of active index e = le-last_live (suc index) (after active (suc index)) e

pub past-end :
    (active : List JobSeq) (index j : ℕ)
    → get_elem? active index ≡ none
    → j < length active
    → j < index
past-end [] index j e h = absurd (omega arith)
past-end (x ∷ active) zero j e h = cc
past-end (x ∷ active) (suc index) zero e h = omega arith
past-end (x ∷ active) (suc index) (suc j) e h =
    omega (arith, past-end active index j e (omega arith))

module _ (P : List ℕ → Type 0) (closed : (xs : List ℕ) (v : ℕ) → P xs → P (cut xs v))
    (kv : KvBudget) (ctx : ℕ) where
  replaced-Granted :
      (g : Growth) (index : ℕ) (s s' : JobSeq) (reserved' : ℕ)
      → Granted P kv ctx g index
      → get_elem? g.active index ≡ some s
      → Served kv ctx s'
      → s'.slot ≡ s.slot
      → reserved' + s.kv_reservation ≡ g.reserved + s'.kv_reservation
      → reserved' ≤ kv.total_blocks
      → Granted P kv ctx
          (record g { active = set g.active index s'; reserved = reserved' })
          (suc index)
  replaced-Granted g index s s' reserved' inv e good at_slot total room = record {
    derived = omega (arith, inv.derived, sum-map-set reservation g.active index s' e);
    within = room;
    placed = subst P (sym (slots-set g.active index s' e at_slot)) inv.placed;
    served = λ j t below et. elim (Bool-cases (index == j)) [
      | inl same ↦
          let at : index ≡ j = (==_iff index j).0 same in
          let self : get_elem? (set g.active index s') index ≡ some s' =
            get_elem?-set_self g.active index s' (lt_of_get_elem? g.active index e) in
          let eq : s' ≡ t = cc in subst (Served kv ctx) eq good
      | inr other ↦
          inv.served j t (ground arith)
            (sym (get_elem?-set_ne g.active index j s' (λ p. cc ((==_iff index j).1 p))) ∙ et)
    ];
  }

  evict-Granted :
      (g : Growth) (index v : ℕ) (s : JobSeq)
      → Granted P kv ctx g index
      → index < v
      → get_elem? g.active v ≡ some s
      → Granted P kv ctx (evict g v s) index
  unfolding evict
  evict-Granted g index v s inv past e = record {
    derived = omega (arith, inv.derived, sum-remove g.active v e);
    within = omega (arith, inv.within);
    placed = subst P (sym (slots-remove g.active v)) (closed (slots g.active) v inv.placed);
    served = λ j t below et.
        inv.served j t below (sym (get_elem?-remove g.active v j (omega arith)) ∙ et);
  }

  -- A turn passes the sequence at `index`, or it removes one past it.
  abbrev pub Turned : Growth → ℕ → Growth × Bool → Type 0
  Turned g index turn =
      ((turn.1 ≡ true)
        × (length turn.0.active ≡ length g.active)
        × Granted P kv ctx turn.0 (suc index))
      ⊎ ((turn.1 ≡ false)
          × (suc (length turn.0.active) ≡ length g.active)
          × Granted P kv ctx turn.0 index
          × (suc index < length g.active))

  pause-Turned :
      (g : Growth) (index : ℕ) (s : JobSeq)
      → Granted P kv ctx g index
      → get_elem? g.active index ≡ some s
      → Turned g index (record g { active = set g.active index (record s { paused = true }) }, true)
  pause-Turned g index s inv e = inl (
    refl,
    length-set g.active index _,
    replaced-Granted g index s (record s { paused = true }) g.reserved inv e (inr (inl refl)) refl
        refl inv.within,
  )

  evict-Turned :
      (g : Growth) (index : ℕ) (s : JobSeq)
      → Granted P kv ctx g index
      → get_elem? g.active index ≡ some s
      → Turned g index (elim (victim_of g.active index) as (λ _. Growth × Bool) [
        | none ↦ (record g { active = set g.active index (record s { paused = true }) }, true)
        | some v ↦ elim (get_elem? g.active v) as (λ _. Growth × Bool) [
          | none ↦ (record g { active = set g.active index (record s { paused = true }) }, true)
          | some victim ↦ (evict g v victim, false)
        ]
      ])
  unfolding evict
  evict-Turned g index s inv e = elim (Option-cases (victim_of g.active index)) [
    | inl nobody ↦ rw nobody (pause-Turned g index s inv e)
    | inr (v, found) ↦ elim (Option-cases (get_elem? g.active v)) [
      | inl missing ↦ rw (found, missing) (pause-Turned g index s inv e)
      | inr (victim, at) ↦
          let past : index < v = lt-victim_of g.active index found in
          rw (found, at)
            (inr (
              refl,
              length-remove g.active v at,
              evict-Granted g index v victim inv past at,
              omega (arith, lt_of_get_elem? g.active v at),
            ))
    ]
  ]

  pub grow_one-Turned :
      (senior : Option ℕ) (g : Growth) (index : ℕ) (s : JobSeq)
      → Granted P kv ctx g index
      → get_elem? g.active index ≡ some s
      → Turned g index (grow_one kv ctx senior g index s)
  unfolding grow_one
  grow_one-Turned senior g index s inv e =
      let delta = need_now kv ctx s - s.kv_reservation in
      elim (Bool-cases (leb (need_now kv ctx s) s.kv_reservation)) [
        | inl covered ↦ rw covered (
            inl (
              refl,
              length-set g.active index _,
              replaced-Granted g index s (record s { paused = false }) g.reserved inv e
                  (inr (inr (leb→le _ _ covered))) refl refl inv.within,
            ))
        | inr uncovered ↦ elim (Bool-cases (leb delta (kv.total_blocks - g.reserved))) [
          | inl fits ↦
              rw (uncovered, fits)
                (inl (
                  refl,
                  length-set g.active index _,
                  replaced-Granted g index s
                      (record s { kv_reservation = s.kv_reservation + delta; paused = false })
                      (g.reserved + delta) inv e (inr (inr (omega arith))) refl (omega arith)
                      (omega (arith, leb→le _ _ fits, inv.within)),
                ))
          | inr full ↦ elim (Bool-cases (is_senior senior index)) [
            | inl oldest ↦ rw (uncovered, full, oldest) (evict-Turned g index s inv e)
            | inr younger ↦ rw (uncovered, full, younger) (pause-Turned g index s inv e)
          ]
        ]
      ]
