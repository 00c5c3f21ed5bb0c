-- ===== src/Worker/Growth/Loop.antt =====
-- The loop of `grant_kv_growth` over its turns, and the senior's share before it.
use burn_lm.Prelude.{
  ltb, ℕ, zero, suc, subst, ◌+◌, ◌-◌, ◌<◌, ◌≤◌, ◌≡◌, ◌≢◌, inl, inr, refl, sym, ◌∙◌, true, List,
  Option, some, ◌==◌, ==_iff, Bool-cases, Option-cases, length, get_elem?, set, arith, min,
  length-set, lt_of_get_elem?, sum-map-set,
}
use burn_lm.Engine.{KvBudget}
use burn_lm.Worker.{JobSeq}
use burn_lm.Worker.Growth.{
  Growth, need_full, top_up, top_up_senior, senior_from, grow_one, grow_loop,
}
use burn_lm.Worker.Growth.Turns.{reservation, Granted, cut, past-end, slots-set, grow_one-Turned}

module _ (P : List ℕ → Type 0) (closed : (xs : List ℕ) (v : ℕ) → P xs → P (cut xs v))
    (kv : KvBudget) (ctx : ℕ) where
  skip-Granted :
      (g : Growth) (index : ℕ) (s : JobSeq)
      → Granted P kv ctx g index
      → get_elem? g.active index ≡ some s
      → s.finished ≡ true
      → Granted P kv ctx g (suc index)
  skip-Granted g index s inv e done = record {
    derived = inv.derived;
    within = inv.within;
    placed = inv.placed;
    served = λ j t below et. elim (Bool-cases (index == j)) [
      | inl same ↦
          let at : index ≡ j = (==_iff index j).0 same in
          let eq : s ≡ t = cc in inl (subst (λ (u : JobSeq). u.finished ≡ true) eq done)
      | inr other ↦
          let apart : index ≢ j = λ p. cc ((==_iff index j).1 p) in inv.served j t (omega arith) et
    ];
  }

  -- What the loop leaves, with fuel for the sequences ahead.
  pub grow_loop-Granted :
      (fuel : ℕ) (senior : Option ℕ) (g : Growth) (index : ℕ)
      → Granted P kv ctx g index
      → length g.active < fuel + index
      → index ≤ length g.active
      → (g' : Growth) × (grow_loop fuel kv ctx senior g index ≡ some g')
        × Granted P kv ctx g' (length g'.active)
  unfolding grow_loop
  grow_loop-Granted zero senior g index inv enough inside = absurd (omega arith)
  grow_loop-Granted (suc fuel) senior g index inv enough inside =
      elim (Option-cases (get_elem? g.active index)) [
        | inl done ↦
            let run : grow_loop (suc fuel) kv ctx senior g index ≡ some g =
              rw (grow_loop, done) refl in
            (
              g,
              run,
              record {
                derived = inv.derived;
                within = inv.within;
                placed = inv.placed;
                served = λ j t below et. inv.served j t (past-end g.active index j done below) et;
              },
            )
        | inr (s, e) ↦ elim (Bool-cases s.finished) [
          | inl over ↦
              let run : grow_loop (suc fuel) kv ctx senior g index
                  ≡ grow_loop fuel kv ctx senior g (suc index) =
                rw (grow_loop, e, over) refl in
              let (g', ran, left) =
                grow_loop-Granted fuel senior g (suc index) (skip-Granted g index s inv e over)
                  (omega arith) (lt_of_get_elem? g.active index e) in
              (g', run ∙ ran, left)
          | inr live ↦ elim (grow_one-Turned P closed kv ctx senior g index s inv e) [
            | inl (ahead, same, inv') ↦
                let next = (grow_one kv ctx senior g index s).0 in
                let run : grow_loop (suc fuel) kv ctx senior g index
                    ≡ grow_loop fuel kv ctx senior next (suc index) =
                  rw (grow_loop, e, ahead, live) refl in
                let (g', ran, left) =
                  grow_loop-Granted fuel senior next (suc index) inv' (omega arith)
                    (omega (arith, lt_of_get_elem? g.active index e)) in
                (g', run ∙ ran, left)
            | inr (stays, fewer, inv', room) ↦
                let next = (grow_one kv ctx senior g index s).0 in
                let run : grow_loop (suc fuel) kv ctx senior g index
                    ≡ grow_loop fuel kv ctx senior next index =
                  rw (grow_loop, e, stays, live) refl in
                let (g', ran, left) =
                  grow_loop-Granted fuel senior next index inv' (omega arith) (omega arith) in
                (g', run ∙ ran, left)
          ]
        ]
      ]

  pub top_up_senior-Granted :
      (g : Growth)
      → Granted P kv ctx g 0
      → Granted P kv ctx (top_up_senior kv ctx g) 0
        × (length (top_up_senior kv ctx g).active ≡ length g.active)
  unfolding top_up_senior top_up
  top_up_senior-Granted g inv = elim (Option-cases (senior_from 0 g.active)) [
    | inl nobody ↦ rw (top_up_senior, nobody) (inv, refl)
    | inr (i, found) ↦ elim (Option-cases (get_elem? g.active i)) [
      | inl missing ↦ rw (top_up_senior, found, missing) (inv, refl)
      | inr (s, e) ↦
          let take = min (need_full kv ctx s - s.kv_reservation) (kv.total_blocks - g.reserved) in
          elim (Bool-cases (ltb s.kv_reservation (need_full kv ctx s))) [
            | inl short ↦
                rw (top_up_senior, top_up, found, e, short)
                  (from_start i s (record s { kv_reservation = s.kv_reservation + take })
                    (g.reserved + take) inv e refl (omega arith) (omega (arith, inv.within)))
            | inr whole ↦
                rw (top_up_senior, top_up, found, e, whole)
                  (from_start i s s g.reserved inv e refl refl inv.within)
          ]
    ]
  ]
    where
      from_start :
          (i : ℕ) (s s' : JobSeq) (reserved' : ℕ)
          → Granted P kv ctx g 0
          → get_elem? g.active i ≡ some s
          → s'.slot ≡ s.slot
          → reserved' + s.kv_reservation ≡ g.reserved + s'.kv_reservation
          → reserved' ≤ kv.total_blocks
          → Granted P kv ctx (record g { active = set g.active i s'; reserved = reserved' }) 0
            × (length (set g.active i s') ≡ length g.active)
      from_start i s s' reserved' inv e at_slot total room = (
        record {
          derived = omega (arith, inv.derived, sum-map-set reservation g.active i s' e);
          within = room;
          placed = subst P (sym (slots-set g.active i s' e at_slot)) inv.placed;
          served = λ j t below et. absurd (omega arith);
        },
        length-set g.active i s',
      )
