-- ===== src/Worker/Growth/Preserved.antt =====
-- What `grant_kv_growth` does to its variables, step by step: a relation that holds for each single
-- change holds for the whole.
use burn_lm.Prelude.{
  ℕ, zero, suc, ◌+◌, ◌-◌, ◌*◌, ◌<◌, ◌≤◌, ◌≡◌, ◌≢◌, inl, inr, refl, sym, ap, subst, ◌∙◌, Bool, true,
  false, List, [], Option, none, some, leb, ltb, ◌==◌, ==_iff, Bool-cases, Option-cases, length,
  get_elem?, set, min, if◌then◌else◌,
}
use burn_lm.Engine.{KvBudget, usize_max}
use burn_lm.Worker.{JobSeq, ResumedJob, reserved_blocks}
use burn_lm.Worker.Growth.{
  Growth, victim_of, need_now, need_full, evict, grow_one, grow_loop, is_senior, top_up,
  top_up_senior, senior_from, grant_kv_growth,
}
use burn_lm.Worker.Growth.Turns.{lt-victim_of}
use burn_lm.Worker.Growth.Bounds.{grant_kv_growth_lem}

pub record IsPreserved (R : Growth → Growth → Type 0) (senior : Option ℕ) : Type 0 where
  pub stays : (g : Growth) → R g g
  pub joins : (a b c : Growth) → R a b → R b c → R a c
  pub changed :
      (g : Growth) (i : ℕ) (s s' : JobSeq) (reserved : ℕ)
      → get_elem? g.active i ≡ some s
      → s'.slot ≡ s.slot
      → s'.extra ≡ s.extra
      → R g (record g { active = set g.active i s'; reserved = reserved })
  pub evicted :
      (g : Growth) (index v : ℕ) (victim : JobSeq)
      → is_senior senior index ≡ true
      → index < v
      → get_elem? g.active v ≡ some victim
      → R g (evict g v victim)

-- The variables before the loop.
abbrev pub at_start : List JobSeq → List ResumedJob → Growth
at_start active resume = record {
  active = active;
  resume = resume;
  reserved = reserved_blocks active;
  released = [];
}

module _ (R : Growth → Growth → Type 0) (senior : Option ℕ) (P : IsPreserved R senior)
    (kv : KvBudget) (ctx : ℕ) where
  paused_lem :
      (g : Growth) (index : ℕ) (seq : JobSeq)
      → get_elem? g.active index ≡ some seq
      → R g (record g { active = set g.active index (record seq { paused = true }) })
  paused_lem g index seq e =
      P.changed g index seq (record seq { paused = true }) g.reserved e refl refl

  evict_lem :
      (g : Growth) (index : ℕ) (seq : JobSeq)
      → get_elem? g.active index ≡ some seq
      → is_senior senior index ≡ true
      → R g (
          (elim (victim_of g.active index) as (λ _. Growth × Bool) [
            | none ↦ (record g { active = set g.active index (record seq { paused = true }) }, true)
            | some v ↦ elim (get_elem? g.active v) as (λ _. Growth × Bool) [
              | none ↦
                  (record g { active = set g.active index (record seq { paused = true }) }, true)
              | some victim ↦ (evict g v victim, false)
            ]
          ]).0)
  evict_lem g index seq e oldest = elim (Option-cases (victim_of g.active index)) [
    | inl nobody ↦ rw nobody (paused_lem g index seq e)
    | inr (v, found) ↦ elim (Option-cases (get_elem? g.active v)) [
      | inl missing ↦ rw (found, missing) (paused_lem g index seq e)
      | inr (victim, at) ↦
          rw (found, at) (P.evicted g index v victim oldest (lt-victim_of g.active index found) at)
    ]
  ]

  grow_one_lem :
      (g : Growth) (index : ℕ) (seq : JobSeq)
      → get_elem? g.active index ≡ some seq
      → R g (grow_one kv ctx senior g index seq).0
  unfolding grow_one
  grow_one_lem g index seq e =
      let delta = need_now kv ctx seq - seq.kv_reservation in
      elim (Bool-cases (leb (need_now kv ctx seq) seq.kv_reservation)) [
        | inl covered ↦
            rw covered
              (P.changed g index seq (record seq { paused = false }) g.reserved e refl refl)
        | inr uncovered ↦ elim (Bool-cases (leb delta (kv.total_blocks - g.reserved))) [
          | inl fits ↦
              rw (uncovered, fits)
                (P.changed g index seq
                  (record seq { kv_reservation = seq.kv_reservation + delta; paused = false })
                  (g.reserved + delta) e refl refl)
          | inr full ↦ elim (Bool-cases (is_senior senior index)) [
            | inl oldest ↦ rw (uncovered, full, oldest) (evict_lem g index seq e oldest)
            | inr younger ↦ rw (uncovered, full, younger) (paused_lem g index seq e)
          ]
        ]
      ]

  grow_loop_lem :
      (fuel : ℕ) (g : Growth) (index : ℕ) (g' : Growth)
      → grow_loop fuel kv ctx senior g index ≡ some g'
      → R g g'
  unfolding grow_loop
  grow_loop_lem zero g index g' e = cc
  grow_loop_lem (suc fuel) g index g' e = elim (Option-cases (get_elem? g.active index)) [
    | inl done ↦
        let run : grow_loop (suc fuel) kv ctx senior g index ≡ some g = rw (grow_loop, done) refl in
        let same : g ≡ g' = cc in subst (R g) same (P.stays g)
    | inr (seq, at) ↦ elim (Bool-cases seq.finished) [
      | inl over ↦
          let run : grow_loop (suc fuel) kv ctx senior g index
              ≡ grow_loop fuel kv ctx senior g (suc index) =
            rw (grow_loop, at, over) refl in
          grow_loop_lem fuel g (suc index) g' (sym run ∙ e)
      | inr live ↦
          let turn = grow_one kv ctx senior g index seq in
          let run : grow_loop (suc fuel) kv ctx senior g index
              ≡ grow_loop fuel kv ctx senior turn.0 (if turn.1 then suc index else index) =
            rw (grow_loop, at, live) refl in
          P.joins g turn.0 g' (grow_one_lem g index seq at)
            (grow_loop_lem fuel turn.0 (if turn.1 then suc index else index) g' (sym run ∙ e))
    ]
  ]

  top_up_senior_lem : (g : Growth) → R g (top_up_senior kv ctx g)
  unfolding top_up_senior top_up
  top_up_senior_lem g = elim (Option-cases (senior_from 0 g.active)) [
    | inl nobody ↦ rw (top_up_senior, nobody) (P.stays g)
    | inr (i, found) ↦ elim (Option-cases (get_elem? g.active i)) [
      | inl missing ↦ rw (top_up_senior, found, missing) (P.stays g)
      | inr (t, e) ↦
          let take = min (need_full kv ctx t - t.kv_reservation) (kv.total_blocks - g.reserved) in
          elim (Bool-cases (ltb t.kv_reservation (need_full kv ctx t))) [
            | inl short ↦
                rw (top_up_senior, top_up, found, e, short)
                  (P.changed g i t (record t { kv_reservation = t.kv_reservation + take })
                    (g.reserved + take) e refl refl)
            | inr whole ↦
                rw (top_up_senior, top_up, found, e, whole)
                  (P.changed g i t t g.reserved e refl refl)
          ]
    ]
  ]

  pub grant_kv_growth-IsPreserved :
      (active : List JobSeq) (resume : List ResumedJob)
      → senior_from 0 active ≡ senior
      → reserved_blocks active ≤ kv.total_blocks
      → kv.total_blocks ≢ usize_max
      → (g : Growth) × (grant_kv_growth kv ctx active resume ≡ some g)
        × R (at_start active resume) g
  unfolding grant_kv_growth
  grant_kv_growth-IsPreserved active resume oldest fits limited =
      let (g, run, within, served) = grant_kv_growth_lem kv ctx active resume fits limited in
      let start = at_start active resume in
      let topped = top_up_senior kv ctx start in
      elim (Bool-cases (kv.total_blocks == usize_max)) [
        | inl unlimited ↦ absurd (limited ((==_iff kv.total_blocks usize_max).0 unlimited))
        | inr bounded ↦
            let fuel = 2 * length active + 1 in
            let loop : grant_kv_growth kv ctx active resume
                ≡ grow_loop fuel kv ctx (senior_from 0 active) topped 0 =
              rw (grant_kv_growth, bounded) refl in
            let oldest_first : grow_loop fuel kv ctx (senior_from 0 active) topped 0
                ≡ grow_loop fuel kv ctx senior topped 0 =
              ap (λ o. grow_loop fuel kv ctx o topped 0) oldest in
            (
              g,
              run,
              P.joins start topped g (top_up_senior_lem start)
                  (grow_loop_lem fuel topped 0 g (sym oldest_first ∙ (sym loop ∙ run))),
            )
      ]
