-- ===== src/Channel/Permits.antt =====
-- The count of the permits, and the bound on the jobs that wait.
use burn_lm.Prelude.{
  ℕ, suc, ◌+◌, ◌-◌, ◌≤◌, ◌≡◌, refl, sym, ap, ◌∙◌, inl, inr, Bool, true, false, List, [], ◌∷◌, ◌++◌,
  Option, none, some, arith, sum, map, length, length-append, get_elem?, set, sum-map-set,
  le-sum-map, ltb, leb, if◌then◌else◌, Bool-cases, subst,
}
use burn_lm.Pool.{ok, err}
use burn_lm.Engine.{InferenceResult, overloaded, worker_died}
use burn_lm.Channel.{
  Channel, WorkerInner, Message, submit, request, shutdown, Caller, checking, permitted, sending,
  returned, enter, check, obtain, obtain_with, deliver, deliver_with, with_queue_depth, sender,
  send, post, reaches, live_inner, keep_unless, spawn_if_none,
}
use burn_lm.Channel.Steps.{
  WorkerStep, takes_in, answers, drops, closes, discards_job, discards_request, discards_shutdown,
  finishes, Step, enters, checks, obtains, delivers, requests, works, Reach, starts, goes,
}

-- The permits of a call: one from its `fetch_add` to its end.
abbrev pub held_by : Caller → ℕ
held_by (checking before) = 1
held_by permitted = 1
held_by (sending id) = 1
held_by (returned r) = 0

-- The places of the queue that a call has, or will have.
abbrev pub reserved_by : ℕ → Caller → ℕ
reserved_by depth (checking before) = if ltb before depth then 1 else 0
reserved_by depth permitted = 1
reserved_by depth (sending id) = 1
reserved_by depth (returned r) = 0

abbrev pub submits : List Message → ℕ
submits [] = 0
submits (submit i ∷ inbox) = suc (submits inbox)
submits (request i ∷ inbox) = submits inbox
submits (shutdown ∷ inbox) = submits inbox

-- The jobs that a worker has not yet admitted or rejected.
abbrev pub waiting_in : WorkerInner → ℕ
waiting_in w = submits w.inbox + length w.jobs

abbrev pub waiting : Option WorkerInner → ℕ
waiting none = 0
waiting (some w) = waiting_in w

abbrev pub held : List Caller → ℕ
held callers = sum (map held_by callers)

abbrev pub reserved : ℕ → List Caller → ℕ
reserved depth callers = sum (map (reserved_by depth) callers)

abbrev pub IsIdle : Option WorkerInner → Type 0
IsIdle none = Unit
IsIdle (some w) = w.finished ≡ true → (w.listening ≡ false) × (waiting_in w ≡ 0)

-- `pending` counts the permits, and what waits or will wait fits the depth.
pub record Counted (pending depth : ℕ) (callers : List Caller) (inner : Option WorkerInner)
    : Type 0 where
  pub exact : pending ≡ held callers + waiting inner
  pub bounded : reserved depth callers + waiting inner ≤ depth
  pub idle : IsIdle inner

abbrev pub IsCounted : Channel → Type 0
IsCounted c = Counted c.pending c.max_queue_depth c.callers c.inner

reserved-le-held : (depth : ℕ) (callers : List Caller) → reserved depth callers ≤ held callers
reserved-le-held depth [] = omega arith
reserved-le-held depth (checking before ∷ callers) = ground (arith, reserved-le-held depth callers)
reserved-le-held depth (permitted ∷ callers) = omega (arith, reserved-le-held depth callers)
reserved-le-held depth (sending id ∷ callers) = omega (arith, reserved-le-held depth callers)
reserved-le-held depth (returned r ∷ callers) = omega (arith, reserved-le-held depth callers)

sum-map-append :
    (f : Caller → ℕ) (xs ys : List Caller)
    → sum (map f (xs ++ ys)) ≡ sum (map f xs) + sum (map f ys)
sum-map-append f [] ys = omega arith
sum-map-append f (x ∷ xs) ys = omega (arith, sum-map-append f xs ys)

submits-append : (xs ys : List Message) → submits (xs ++ ys) ≡ submits xs + submits ys
submits-append [] ys = omega arith
submits-append (submit i ∷ xs) ys = omega (arith, submits-append xs ys)
submits-append (request i ∷ xs) ys = submits-append xs ys
submits-append (shutdown ∷ xs) ys = submits-append xs ys

start-Counted : (depth : ℕ) → IsCounted (with_queue_depth depth)
unfolding with_queue_depth
start-Counted depth = record { exact = refl; bounded = omega arith; idle = tt }

enter-Counted : (c : Channel) → IsCounted c → IsCounted (enter c)
unfolding enter
enter-Counted c h =
    let held_more : held (c.callers ++ checking c.pending ∷ []) ≡ held c.callers + 1 =
      sum-map-append held_by c.callers (checking c.pending ∷ []) in
    let reserved_more : reserved c.max_queue_depth (c.callers ++ checking c.pending ∷ [])
        ≡ reserved c.max_queue_depth c.callers
          + ((if ltb c.pending c.max_queue_depth then 1 else 0) + 0) =
      sum-map-append (reserved_by c.max_queue_depth) c.callers (checking c.pending ∷ []) in
    record {
      exact = omega (arith, h.exact);
      bounded = ground (arith, h.exact, h.bounded, reserved-le-held c.max_queue_depth c.callers);
      idle = h.idle;
    }

-- A call moves from one place to another, and the worker with it.
move-Counted :
    (pending depth : ℕ) (callers : List Caller) (inner inner' : Option WorkerInner) (i : ℕ)
    (from to : Caller) (pending' : ℕ)
    → get_elem? callers i ≡ some from
    → Counted pending depth callers inner
    → pending' + held_by from + waiting inner ≡ pending + held_by to + waiting inner'
    → reserved_by depth to + waiting inner' ≤ reserved_by depth from + waiting inner
    → IsIdle inner'
    → Counted pending' depth (set callers i to) inner'
move-Counted pending depth callers inner inner' i from to pending' q h count room idle' = record {
  exact = omega (arith, sum-map-set held_by callers i to q, h.exact);
  bounded = omega (arith, sum-map-set (reserved_by depth) callers i to q, h.bounded);
  idle = idle';
}

held-pos :
    (c : Channel) (i : ℕ) {from : Caller}
    → get_elem? c.callers i ≡ some from
    → IsCounted c
    → held_by from ≤ c.pending
held-pos c i q h = omega (arith, le-sum-map held_by c.callers i q, h.exact)

check-Counted :
    (c : Channel) (i before : ℕ)
    → get_elem? c.callers i ≡ some (checking before)
    → IsCounted c
    → IsCounted (check i before c)
unfolding check
check-Counted c i before q h = elim (Bool-cases (leb c.max_queue_depth before)) [
  | inl full ↦ rw full (
      move-Counted c.pending c.max_queue_depth c.callers c.inner c.inner i (checking before)
        (returned (err overloaded)) (c.pending - 1) q h (omega (arith, held-pos c i q h))
        (ground arith) h.idle)
  | inr room ↦ rw room (
      move-Counted c.pending c.max_queue_depth c.callers c.inner c.inner i (checking before)
        permitted c.pending q h (omega arith) (ground arith) h.idle)
]

-- A sender leaves all but the worker as it was, and a worker has as many jobs as before.
record Same (c c' : Channel) : Type 0 where
  same_pending : c'.pending ≡ c.pending
  same_depth : c'.max_queue_depth ≡ c.max_queue_depth
  same_callers : c'.callers ≡ c.callers
  same_waiting : waiting c'.inner ≡ waiting c.inner
  idle : IsIdle c'.inner

spawn_if_none-Same :
    (can_spawn : Bool) (c : Channel) (inner : Option WorkerInner)
    → waiting inner ≡ waiting c.inner
    → IsIdle inner
    → Same c (spawn_if_none can_spawn c inner).0
unfolding spawn_if_none
spawn_if_none-Same can_spawn c (some w) q idle = record {
  same_pending = refl;
  same_depth = refl;
  same_callers = refl;
  same_waiting = q;
  idle = idle;
}
spawn_if_none-Same true c none q idle = record {
  same_pending = refl;
  same_depth = refl;
  same_callers = refl;
  same_waiting = omega (arith, q);
  idle = λ f. cc;
}
spawn_if_none-Same false c none q idle = record {
  same_pending = refl;
  same_depth = refl;
  same_callers = refl;
  same_waiting = q;
  idle = idle;
}

keep_unless-waiting :
    (over : Bool) (w : WorkerInner)
    → w.finished ≡ over
    → IsIdle (some w)
    → (waiting (keep_unless over w) ≡ waiting_in w) × IsIdle (keep_unless over w)
unfolding keep_unless
keep_unless-waiting true w over h = (sym (h over).1, tt)
keep_unless-waiting false w live h = (refl, h)

live_inner-waiting :
    (inner : Option WorkerInner)
    → IsIdle inner
    → (waiting (live_inner inner) ≡ waiting inner) × IsIdle (live_inner inner)
unfolding live_inner
live_inner-waiting none h = (refl, tt)
live_inner-waiting (some w) h = keep_unless-waiting w.finished w refl h

sender-Same : (can_spawn : Bool) (c : Channel) → IsIdle c.inner → Same c (sender can_spawn c).0
unfolding sender
sender-Same can_spawn c h =
    let (q, idle) = live_inner-waiting c.inner h in
    spawn_if_none-Same can_spawn c (live_inner c.inner) q idle

-- What is received adds to the worker what the message has of jobs.
post-waiting :
    (m : Message) (inner : Option WorkerInner) (id : ℕ)
    → reaches id inner ≡ true
    → IsIdle inner
    → (waiting (post m inner) ≡ waiting inner + submits (m ∷ [])) × IsIdle (post m inner)
unfolding post reaches
post-waiting m none id h idle = cc
post-waiting m (some w) id h idle =
    (omega (arith, submits-append w.inbox (m ∷ [])), λ over. absurd (ground (arith, (idle over).0)))

Same-Counted : (c c' : Channel) → Same c c' → IsCounted c → IsCounted c'
Same-Counted c c' s h =
    let same_reserved : reserved c'.max_queue_depth c'.callers
        ≡ reserved c.max_queue_depth c.callers =
      ap (λ d. reserved d c'.callers) s.same_depth
      ∙ ap (reserved c.max_queue_depth) s.same_callers in
    record {
      exact =
          omega (arith, s.same_pending, s.same_waiting, ap {B = ℕ} held s.same_callers, h.exact);
      bounded = omega (arith, s.same_waiting, s.same_depth, h.bounded);
      idle = s.idle;
    }

-- Call `i` gets its sender, or ends.
obtain_with-Counted :
    (c : Channel) (i : ℕ) (r : InferenceResult ℕ)
    → get_elem? c.callers i ≡ some permitted
    → IsCounted c
    → IsCounted (obtain_with i (c, r))
unfolding obtain_with
obtain_with-Counted c i (ok id) q h =
    move-Counted c.pending c.max_queue_depth c.callers c.inner c.inner i permitted (sending id)
      c.pending q h (omega arith) (omega arith) h.idle
obtain_with-Counted c i (err e) q h =
    move-Counted c.pending c.max_queue_depth c.callers c.inner c.inner i permitted
      (returned (err e)) (c.pending - 1) q h (omega (arith, held-pos c i q h)) (omega arith) h.idle

obtain-Counted :
    (c : Channel) (i : ℕ) (can_spawn : Bool)
    → get_elem? c.callers i ≡ some permitted
    → IsCounted c
    → IsCounted (obtain i can_spawn c)
unfolding obtain
obtain-Counted c i can_spawn q h =
    let s = sender-Same can_spawn c h.idle in
    obtain_with-Counted (sender can_spawn c).0 i (sender can_spawn c).1
      (ap (λ l. get_elem? l i) s.same_callers ∙ q) (Same-Counted c (sender can_spawn c).0 s h)

deliver-Counted :
    (c : Channel) (i id : ℕ)
    → get_elem? c.callers i ≡ some (sending id)
    → IsCounted c
    → IsCounted (deliver i id c)
unfolding deliver deliver_with send
deliver-Counted c i id q h = elim (Bool-cases (reaches id c.inner)) [
  | inl there ↦
      let (more, idle) = post-waiting (submit i) c.inner id there h.idle in
      rw there (
        move-Counted c.pending c.max_queue_depth c.callers c.inner (post (submit i) c.inner) i
          (sending id) (returned (ok i)) c.pending q h (omega (arith, more)) (omega (arith, more))
          idle)
  | inr gone ↦ rw gone (
      move-Counted c.pending c.max_queue_depth c.callers c.inner c.inner i (sending id)
        (returned (err worker_died)) (c.pending - 1) q h (omega (arith, held-pos c i q h))
        (omega arith) h.idle)
]

send_request-Counted : (c : Channel) (i id : ℕ) → IsCounted c → IsCounted (send id (request i) c).0
unfolding send
send_request-Counted c i id h = elim (Bool-cases (reaches id c.inner)) [
  | inl there ↦
      let (more, idle) = post-waiting (request i) c.inner id there h.idle in
      rw there (record {
        exact = omega (arith, more, h.exact);
        bounded = omega (arith, more, h.bounded);
        idle = idle;
      })
  | inr gone ↦ rw gone h
]

-- What the worker does with its jobs.
WorkerStep-waiting :
    {w w' : WorkerInner} {dropped : ℕ}
    → WorkerStep w w' dropped
    → IsIdle (some w)
    → (waiting_in w' + dropped ≡ waiting_in w) × IsIdle (some w')
WorkerStep-waiting {w} (takes_in i rest live q) h =
    (omega (arith, length-append w.jobs (i ∷ []), ap {B = ℕ} submits q), λ over. cc ((h over).0))
WorkerStep-waiting (answers i rest live q) h =
    (omega (arith, ap {B = ℕ} submits q), λ over. cc ((h over).0))
WorkerStep-waiting (drops before after i q) h = (
  omega (arith, ap {B = ℕ} length q, length-append before (i ∷ after), length-append before after),
  λ over. (
    (h over).0,
    omega (arith, (h over).1, ap {B = ℕ} length q, length-append before (i ∷ after)),
  ),
)
WorkerStep-waiting (closes live) h = (omega arith, λ over. (refl, (h over).1))
WorkerStep-waiting (discards_job i rest shut q) h = (
  omega (arith, ap {B = ℕ} submits q),
  λ over. (shut, omega (arith, (h over).1, ap {B = ℕ} submits q)),
)
WorkerStep-waiting (discards_request i rest shut q) h = (
  omega (arith, ap {B = ℕ} submits q),
  λ over. (shut, omega (arith, (h over).1, ap {B = ℕ} submits q)),
)
WorkerStep-waiting (discards_shutdown rest q) h = (
  omega (arith, ap {B = ℕ} submits q),
  λ over. ((h over).0, omega (arith, (h over).1, ap {B = ℕ} submits q)),
)
WorkerStep-waiting (finishes shut empty nothing) h = (
  omega arith,
  λ over. (shut, omega (arith, ap {B = ℕ} submits empty, ap {B = ℕ} length nothing)),
)

work-Counted :
    (c : Channel) {w w' : WorkerInner} {dropped : ℕ}
    → c.inner ≡ some w
    → WorkerStep w w' dropped
    → IsCounted c
    → IsCounted (record c { inner = some w'; pending = c.pending - dropped })
work-Counted c {w} {w'} {dropped} q s h =
    let (same, idle) = WorkerStep-waiting s (subst IsIdle q h.idle) in
    record {
      exact = omega (arith, same, h.exact, ap {B = ℕ} waiting q);
      bounded = omega (arith, same, h.bounded, ap {B = ℕ} waiting q);
      idle = idle;
    }

Step-Counted : {c c' : Channel} → Step c c' → IsCounted c → IsCounted c'
Step-Counted {c} enters h = enter-Counted c h
Step-Counted {c} (checks i before q) h = check-Counted c i before q h
Step-Counted {c} (obtains i can_spawn q) h = obtain-Counted c i can_spawn q h
Step-Counted {c} (delivers i id q) h = deliver-Counted c i id q h
Step-Counted {c} (requests i can_spawn id) h =
    send_request-Counted (sender can_spawn c).0 i id
      (Same-Counted c (sender can_spawn c).0 (sender-Same can_spawn c h.idle) h)
Step-Counted {c} (works w w' dropped q s) h = work-Counted c q s h

-- However calls of `submit` and the worker interleave, and however often a worker dies and another is
-- spawned, `pending` counts exactly the calls that hold a permit and the jobs that wait with one, and
-- the calls that are past the test and the jobs that wait are together no more than the depth.
pub Reach-Counted : {depth : ℕ} {c : Channel} → Reach depth c → IsCounted c
Reach-Counted {depth} starts = start-Counted depth
Reach-Counted (goes c c' r s) = Step-Counted s (Reach-Counted r)
