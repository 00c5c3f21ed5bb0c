-- ===== src/Pool/Rollback.antt =====
-- The error path of `begin_round`: the tables that the round has grown are cut back.
use burn_lm.Prelude.{
  ℕ, ◌+◌, ◌≡◌, refl, sym, ◌∙◌, ◌≢◌, Option, List, [], ◌∷◌, ◌++◌, map, some, none, false, arith, ltb,
  if◌then◌else◌, ◌>>=◌, Bool-cases, Option-cases, >>=-eq-some, inl, inr, length, get_elem?, set,
  take, drop, count, mem, sum-map-set, length-append, take-append, get_elem?-set_self,
  get_elem?-set_ne, set-set, set_comm, set-get_elem?, lt_of_get_elem?,
}
use burn_lm.Pool.{BlockPool, extend, rollback}
use burn_lm.Pool.Grow.{owners, count-extend, count-take-drop}

-- What `rollback` does to the tables alone.
pub cut_back : List (List ℕ) → List (ℕ × ℕ) → Option (List (List ℕ))
cut_back tables [] = some tables
cut_back tables ((lane, keep) ∷ grown) = do
  table ← get_elem? tables lane
  if ltb (length table) keep then none else cut_back (set tables lane (take keep table)) grown

pub cut_back-nil : (tables : List (List ℕ)) → cut_back tables [] ≡ some tables
unfolding cut_back
cut_back-nil tables = refl

-- `rollback` cuts the tables back and gives every block that it takes to the free stack.
pub record Undone (p : BlockPool) (tables : List (List ℕ)) (q : BlockPool) : Type 0 where
  pub same_tables : q.tables ≡ tables
  pub same_lens : q.lens ≡ p.lens
  pub same_size : q.block_size ≡ p.block_size
  pub same_owners : (b : ℕ) → owners b q ≡ owners b p

-- One round of the loop.
abbrev cut : BlockPool → ℕ → ℕ → List ℕ → BlockPool
cut p lane keep table = record p {
  free = extend p.free (drop keep table);
  tables = set p.tables lane (take keep table);
}

owners-cut :
    (p : BlockPool) (lane keep b : ℕ) {table : List ℕ}
    → get_elem? p.tables lane ≡ some table
    → owners b (cut p lane keep table) ≡ owners b p
owners-cut p lane keep b {table} e = omega (
  arith,
  sum-map-set (count b) p.tables lane (take keep table) e,
  count-extend b p.free (drop keep table),
  count-take-drop b keep table,
)

Undone-cut :
    (p : BlockPool) (lane keep : ℕ) {table : List ℕ} {tables : List (List ℕ)} {q : BlockPool}
    → get_elem? p.tables lane ≡ some table
    → Undone (cut p lane keep table) tables q
    → Undone p tables q
Undone-cut p lane keep e u = record {
  same_tables = u.same_tables;
  same_lens = u.same_lens;
  same_size = u.same_size;
  same_owners = λ b. u.same_owners b ∙ owners-cut p lane keep b e;
}

none≢some {ℓ} : {A : Type ℓ} {a : A} → ¬ (none ≡ some a)
none≢some h = cc

pub rollback_lem :
    (p : BlockPool) (grown : List (ℕ × ℕ)) {tables : List (List ℕ)}
    → cut_back p.tables grown ≡ some tables
    → (q : BlockPool) × (rollback p grown ≡ some q) × Undone p tables q
unfolding rollback cut_back
rollback_lem p [] h = (
  p,
  refl,
  record {
    same_tables = ground arith;
    same_lens = refl;
    same_size = refl;
    same_owners = λ b. refl;
  },
)
rollback_lem p ((lane, keep) ∷ grown) {tables} h =
    let (table, e, h') = >>=-eq-some (get_elem? p.tables lane) _ h in
    elim (Bool-cases (ltb (length table) keep)) [
      | inl short ↦ absurd (none≢some (rw short at h'))
      | inr fits ↦
          let (q, r, u) = rollback_lem (cut p lane keep table) grown (rw fits at h') in
          rw (e, fits) (q, r, Undone-cut p lane keep e u)
    ]

keeps : (n k m : ℕ) → m ≡ n + k → ltb m n ≡ false
keeps n k m h = ground arith

-- A lane that the round grows last is cut back last, whatever else was grown.
pub cut_back-append :
    (tables : List (List ℕ)) (grown : List (ℕ × ℕ)) (lane : ℕ) (added : List ℕ) {table : List ℕ}
    → mem lane (map (λ g. g.0) grown) ≡ false
    → get_elem? tables lane ≡ some table
    → cut_back (set tables lane (table ++ added)) (grown ++ (lane, length table) ∷ [])
      ≡ cut_back tables grown
unfolding cut_back
cut_back-append tables [] lane added {table} h e = rw (
  get_elem?-set_self tables lane (table ++ added) (lt_of_get_elem? tables lane e),
  keeps (length table) (length added) (length (table ++ added)) (length-append table added),
  take-append table added,
  set-set tables lane (table ++ added) table,
  set-get_elem? tables lane e,
)
cut_back-append tables ((j, keep) ∷ grown) lane added {table} h e =
    rw (get_elem?-set_ne tables lane j (table ++ added) apart)
      (elim (Option-cases (get_elem? tables j)) [
        | inl gone ↦ rw gone
        | inr (other, f) ↦ rw f (elim (Bool-cases (ltb (length other) keep)) [
          | inl short ↦ rw short
          | inr fits ↦
              rw (fits, set_comm tables lane j (table ++ added) (take keep other) apart)
                (cut_back-append (set tables j (take keep other)) grown lane added rest
                  (get_elem?-set_ne tables j lane (take keep other) (λ q. apart (sym q)) ∙ e))
        ])
      ])
  where
    apart : lane ≢ j
    apart = ground arith

    rest : mem lane (map (λ g. g.0) grown) ≡ false
    rest = ground arith
