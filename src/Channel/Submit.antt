-- ===== src/Channel/Submit.antt =====
-- A call of `submit` that nothing interrupts.
use burn_lm.Prelude.{
  ◌+◌, ◌-◌, arith, ℕ, ◌≡◌, ◌⊎◌, refl, sym, ap, ◌∙◌, inl, inr, Bool, true, false, List, [], ◌∷◌,
  ◌++◌, Option, none, some, length, get_elem?, set, get_elem?-set_self, lt_of_get_elem?, leb,
  Bool-cases, subst,
}
use burn_lm.Pool.{ok, err}
use burn_lm.Engine.{InferenceResult, overloaded, worker_died}
use burn_lm.Channel.{
  Channel, WorkerInner, submit, post, Caller, checking, permitted, sending, returned, enter, check,
  obtain, obtain_with, deliver, deliver_with, sender, send, turn, go_on, submit_job, is_overloaded,
  reaches, spawn_if_none, live_inner, keep_unless,
}

get_elem?_last : (xs : List Caller) (x : Caller) → get_elem? (xs ++ x ∷ []) (length xs) ≡ some x
get_elem?_last [] x = refl
get_elem?_last (y ∷ xs) x = get_elem?_last xs x

moved_at :
    (callers : List Caller) (i : ℕ) {from : Caller} (to : Caller)
    → get_elem? callers i ≡ some from
    → get_elem? (set callers i to) i ≡ some to
moved_at callers i to q = get_elem?-set_self callers i to (lt_of_get_elem? callers i q)

turn_at :
    (c : Channel) (i : ℕ) (can_spawn : Bool) {at : Caller}
    → get_elem? c.callers i ≡ some at
    → turn i can_spawn c ≡ go_on i can_spawn (some at) c
unfolding turn
turn_at c i can_spawn q = ap (λ o. go_on i can_spawn o c) q

returned-turn :
    (c : Channel) (i : ℕ) (can_spawn : Bool) (r : InferenceResult ℕ)
    → get_elem? c.callers i ≡ some (returned r)
    → turn i can_spawn c ≡ c
unfolding go_on
returned-turn c i can_spawn r q = turn_at c i can_spawn q

-- How a call ends that is not shed, `chosen` being what `sender` gave: the job of call `i` stands last
-- in the inbox of the worker that was chosen, which listens, and the permit with it; or there was no
-- sender to give, or the worker no longer listened, and the permit is dropped.
pub data Ended (i pending : ℕ) (chosen : Channel × InferenceResult ℕ) (out : Channel) : Type 0 where
  received :
      (w : WorkerInner)
      → chosen.0.inner ≡ some w
      → w.listening ≡ true
      → get_elem? out.callers i ≡ some (returned (ok i))
      → out.inner ≡ some (record w { inbox = w.inbox ++ submit i ∷ [] })
      → out.pending ≡ pending + 1
      → Ended i pending chosen out
  no_sender :
      chosen.1 ≡ err worker_died
      → get_elem? out.callers i ≡ some (returned (err worker_died))
      → out.pending ≡ pending
      → Ended i pending chosen out
  closed :
      (w : WorkerInner)
      → chosen.0.inner ≡ some w
      → w.listening ≡ false
      → get_elem? out.callers i ≡ some (returned (err worker_died))
      → out.inner ≡ some w
      → out.pending ≡ pending
      → Ended i pending chosen out

deliver-Ended :
    (x : Channel) (i : ℕ) (w : WorkerInner) (pending : ℕ) (chosen : Channel × InferenceResult ℕ)
    → x.inner ≡ some w
    → chosen.0.inner ≡ some w
    → get_elem? x.callers i ≡ some (sending w.id)
    → x.pending ≡ pending + 1
    → Ended i pending chosen (deliver i w.id x)
unfolding deliver deliver_with send post reaches
deliver-Ended x i w pending chosen here same at count = elim (Bool-cases w.listening) [
  | inl listens ↦
      let reached : reaches w.id x.inner ≡ true = rw (here, listens) (ground arith) in
      rw reached (received w same listens (moved_at x.callers i _ at) (rw here refl) count)
  | inr deaf ↦
      let missed : reaches w.id x.inner ≡ false = rw (here, deaf) (ground arith) in
      rw missed (closed w same deaf (moved_at x.callers i _ at) here (omega (arith, count)))
]

abbrev fresh_worker : ℕ → Option WorkerInner
fresh_worker n = some (record { id = n; inbox = []; listening = true; finished = false; jobs = [] })

-- The second and the third turn, from what `live_inner` leaves.
served-Ended :
    (can_spawn : Bool) (c x : Channel) (i : ℕ) (inner : Option WorkerInner)
    → get_elem? x.callers i ≡ some permitted
    → x.spawned ≡ c.spawned
    → x.pending ≡ c.pending + 1
    → Ended i c.pending
        (spawn_if_none can_spawn c inner)
        (turn i can_spawn (obtain_with i (spawn_if_none can_spawn x inner)))
unfolding spawn_if_none obtain_with go_on
served-Ended can_spawn c x i (some w) at spawned count =
    let y : Channel = record x { inner = some w; callers = set x.callers i (sending w.id) } in
    let here : get_elem? y.callers i ≡ some (sending w.id) = moved_at x.callers i _ at in
    subst (Ended i c.pending (spawn_if_none can_spawn c (some w)))
      (sym (turn_at y i can_spawn here)) (deliver-Ended y i w c.pending _ refl refl here count)
served-Ended true c x i none at spawned count =
    let w : WorkerInner = record {
      id = x.spawned;
      inbox = [];
      listening = true;
      finished = false;
      jobs = [];
    } in
    let y : Channel = record x {
      inner = some w;
      spawned = x.spawned + 1;
      callers = set x.callers i (sending w.id);
    } in
    let here : get_elem? y.callers i ≡ some (sending w.id) = moved_at x.callers i _ at in
    subst (Ended i c.pending (spawn_if_none true c none)) (sym (turn_at y i true here))
      (deliver-Ended y i w c.pending _ refl (ap fresh_worker (sym spawned)) here count)
served-Ended false c x i none at spawned count =
    let y : Channel = record x {
      inner = none;
      callers = set x.callers i (returned (err worker_died));
      pending = x.pending - 1;
    } in
    let here : get_elem? y.callers i ≡ some (returned (err worker_died)) =
      moved_at x.callers i _ at in
    subst (Ended i c.pending (spawn_if_none false c none)) (sym (turn_at y i false here))
      (no_sender refl here (omega (arith, count)))

enter_at :
    (c : Channel) → get_elem? (enter c).callers (length c.callers) ≡ some (checking c.pending)
unfolding enter
enter_at c = get_elem?_last c.callers (checking c.pending)

-- A call of `submit` that nothing interrupts ends in at most three turns after its `fetch_add`. It is
-- shed exactly if `is_overloaded` said so before it, and then the worker and the count of the pending
-- calls are as they were. Otherwise its job stands last in the inbox of the worker that `sender`
-- gives, with a permit that counts; or it returns that the worker died, with its permit dropped, which
-- happens only where `sender` has no worker to give or that worker no longer listens.
pub submit_lem :
    (can_spawn : Bool) (c : Channel)
    → let i = length c.callers in
      let out = submit_job can_spawn c in
      ((is_overloaded c ≡ true)
        × (get_elem? out.callers i ≡ some (returned (err overloaded)))
        × (out.inner ≡ c.inner)
        × (out.pending ≡ c.pending))
      ⊎ ((is_overloaded c ≡ false) × Ended i c.pending (sender can_spawn c) out)
unfolding submit_job is_overloaded go_on check obtain sender enter
submit_lem can_spawn c =
    let i : ℕ = length c.callers in
    let begun : Channel = enter c in
    let tested : turn i can_spawn begun ≡ check i c.pending begun =
      turn_at begun i can_spawn (enter_at c) in
    elim (Bool-cases (leb c.max_queue_depth c.pending)) [
      | inl full ↦
          let shed : Channel = record begun {
            pending = c.pending + 1 - 1;
            callers = set begun.callers i (returned (err overloaded));
          } in
          let first : turn i can_spawn begun ≡ shed = tested ∙ rw full refl in
          let at : get_elem? shed.callers i ≡ some (returned (err overloaded)) =
            moved_at begun.callers i _ (enter_at c) in
          let still : turn i can_spawn shed ≡ shed = returned-turn shed i can_spawn _ at in
          let all : submit_job can_spawn c ≡ shed =
            ap (λ x. turn i can_spawn (turn i can_spawn x)) first
            ∙ ap (turn i can_spawn) still
            ∙ still in
          inl (
            full,
            ap (λ (x : Channel). get_elem? x.callers i) all ∙ at,
            ap (λ (x : Channel). x.inner) all,
            ap (λ (x : Channel). x.pending) all ∙ omega arith,
          )
      | inr room ↦
          let held : Channel = record begun { callers = set begun.callers i permitted } in
          let first : turn i can_spawn begun ≡ held = tested ∙ rw room refl in
          let at : get_elem? held.callers i ≡ some permitted =
            moved_at begun.callers i _ (enter_at c) in
          let second : turn i can_spawn held ≡ obtain i can_spawn held =
            turn_at held i can_spawn at in
          let all : submit_job can_spawn c ≡ turn i can_spawn (obtain i can_spawn held) =
            ap (λ x. turn i can_spawn (turn i can_spawn x)) first ∙ ap (turn i can_spawn) second in
          inr (
            room,
            subst (Ended i c.pending (sender can_spawn c)) (sym all)
                (served-Ended can_spawn c held i (live_inner c.inner) at refl refl),
          )
    ]

-- A worker that listens and has nothing to do, in place of none or of one that had finished.
abbrev pub Respawned : Option WorkerInner → WorkerInner → Type 0
Respawned inner w =
    (w.listening ≡ true)
    × (w.inbox ≡ [])
    × ((inner ≡ none) ⊎ ((old : WorkerInner) × (inner ≡ some old) × (old.finished ≡ true)))

-- The sender of an unfinished worker: the one that was there, or a new one.
abbrev Spawns : Option WorkerInner → Channel × InferenceResult ℕ → Type 0
Spawns inner out =
    (w : WorkerInner) × (out.0.inner ≡ some w)
    × (out.1 ≡ ok w.id)
    × (w.finished ≡ false)
    × ((inner ≡ some w) ⊎ Respawned inner w)

spawn-Spawns :
    (c : Channel) (inner : Option WorkerInner)
    → (inner ≡ none) ⊎ ((old : WorkerInner) × (inner ≡ some old) × (old.finished ≡ true))
    → Spawns inner (spawn_if_none true c none)
unfolding spawn_if_none
spawn-Spawns c inner gone = (
  record { id = c.spawned; inbox = []; listening = true; finished = false; jobs = [] },
  refl,
  refl,
  refl,
  inr (refl, refl, gone),
)

keep_unless-Spawns :
    (over : Bool) (c : Channel) (w : WorkerInner)
    → w.finished ≡ over
    → Spawns (some w) (spawn_if_none true c (keep_unless over w))
unfolding spawn_if_none keep_unless
keep_unless-Spawns true c w q = spawn-Spawns c (some w) (inr (w, refl, q))
keep_unless-Spawns false c w q = (w, refl, refl, q, inl refl)

live_inner-Spawns :
    (c : Channel) (inner : Option WorkerInner)
    → Spawns inner (spawn_if_none true c (live_inner inner))
unfolding live_inner spawn_if_none
live_inner-Spawns c none = spawn-Spawns c none (inl refl)
live_inner-Spawns c (some w) = keep_unless-Spawns w.finished c w refl

-- While threads can be spawned, `sender` always gives a sender to a worker that has not finished: the
-- one that was there, or, only where there was none or it had finished, a new one, which listens and
-- has nothing in its inbox.
pub sender_lem :
    (c : Channel)
    → let out = sender true c in
      (w : WorkerInner) × (out.0.inner ≡ some w)
      × (out.1 ≡ ok w.id)
      × (w.finished ≡ false)
      × ((c.inner ≡ some w) ⊎ Respawned c.inner w)
unfolding sender
sender_lem c = live_inner-Spawns c c.inner
