-- ===== src/Channel.antt =====
-- crates/burn-lm-inference/src/channels/batching/mod.rs: the callers' side of the worker. A channel
-- is shared by any number of calls of `submit`, each at a place of its own between two atomic
-- operations; the worker thread takes commands from the inbox and drops jobs, closes its receiver and
-- finishes in its own time. Whether a thread can be spawned is an argument. A reply channel is known by
-- a number.
mod Tests
pub mod Steps
pub mod Permits
pub mod Submit
use burn_lm.Prelude.{
  ℕ, zero, suc, ◌+◌, ◌-◌, Bool, true, false, ◌&&◌, List, [], ◌∷◌, ◌++◌, Option, none, some, ltb,
  leb, ◌==◌, if◌then◌else◌, length, get_elem?, set,
}
use burn_lm.Pool.{ok, err}
use burn_lm.Engine.{InferenceResult, overloaded, worker_died}

abbrev pub default_max_queue_depth : ℕ
default_max_queue_depth = 32

-- `Command`, by what a sender has to do with it: a job with its permit, a request that waits for a reply.
pub data Message : Type 0 where
  submit request : ℕ → Message
  shutdown : Message

-- A worker: its command channel, whether it still has its receiver, `handle.is_finished()`, and the
-- jobs that it has taken in and not yet admitted or rejected.
pub record WorkerInner : Type 0 where
  pub id : ℕ
  pub inbox : List Message
  pub listening : Bool
  pub finished : Bool
  pub jobs : List ℕ

-- Where a call of `submit` stands: after its `fetch_add` returned a value, with a permit, with a sender to
-- a worker, or at its end.
pub data Caller : Type 0 where
  checking : ℕ → Caller
  permitted : Caller
  sending : ℕ → Caller
  returned : InferenceResult ℕ → Caller

-- `Worker`, with the calls in flight; `spawned` counts the threads so far. A call is known by its place.
pub record Channel : Type 0 where
  pub inner : Option WorkerInner
  pub pending : ℕ
  pub max_queue_depth : ℕ
  pub callers : List Caller
  pub spawned : ℕ

pub with_queue_depth : ℕ → Channel
with_queue_depth depth = record {
  inner = none;
  pending = 0;
  max_queue_depth = depth;
  callers = [];
  spawned = 0;
}

pub new : Channel
unfolding with_queue_depth
new = with_queue_depth default_max_queue_depth

abbrev pub queue_depth : Channel → ℕ
queue_depth c = c.pending

pub is_overloaded : Channel → Bool
is_overloaded c = leb c.max_queue_depth (queue_depth c)

pub is_spawned : Channel → Bool
is_spawned c = elim c.inner [ none ↦ false | some w ↦ true ]

-- The last lines of `sender`, with the worker that is there.
pub spawn_if_none : Bool → Channel → Option WorkerInner → Channel × InferenceResult ℕ
spawn_if_none can_spawn c (some w) = (record c { inner = some w }, ok w.id)
spawn_if_none true c none = (
  record c {
    inner =
        some (record { id = c.spawned; inbox = []; listening = true; finished = false; jobs = [] });
    spawned = c.spawned + 1;
  },
  ok c.spawned,
)
spawn_if_none false c none = (record c { inner = none }, err worker_died)

-- A finished worker is joined and forgotten.
pub keep_unless : Bool → WorkerInner → Option WorkerInner
keep_unless true w = none
keep_unless false w = some w

pub live_inner : Option WorkerInner → Option WorkerInner
unfolding keep_unless
live_inner none = none
live_inner (some w) = keep_unless w.finished w

pub sender : Bool → Channel → Channel × InferenceResult ℕ
unfolding spawn_if_none live_inner
sender can_spawn c = spawn_if_none can_spawn c (live_inner c.inner)

-- Whether a sender to worker `id` still reaches a receiver.
pub reaches : ℕ → Option WorkerInner → Bool
reaches id none = false
reaches id (some w) = w.id == id && w.listening

pub post : Message → Option WorkerInner → Option WorkerInner
post m none = none
post m (some w) = some (record w { inbox = w.inbox ++ m ∷ [] })

-- `Sender::send`: whether it was received.
pub send : ℕ → Message → Channel → Channel × Bool
unfolding reaches post
send id m c = if reaches id c.inner then (record c { inner = post m c.inner }, true) else (c, false)

abbrev pub move_caller : ℕ → Caller → Channel → Channel
move_caller i caller c = record c { callers = set c.callers i caller }

-- `QueuePermit::drop`, or the `fetch_sub` of a shed call.
abbrev pub drop_permit : Channel → Channel
drop_permit c = record c { pending = c.pending - 1 }

-- A new call: `fetch_add`.
pub enter : Channel → Channel
enter c = record c { pending = c.pending + 1; callers = c.callers ++ checking c.pending ∷ [] }

-- Call `i` tests the value that its `fetch_add` returned.
pub check : ℕ → ℕ → Channel → Channel
check i before c =
    if leb c.max_queue_depth before
    then move_caller i (returned (err overloaded)) (drop_permit c)
    else move_caller i permitted c

-- Call `i` asks for a sender; without one it returns, and its permit drops.
pub obtain_with : ℕ → Channel × InferenceResult ℕ → Channel
obtain_with i (c, ok id) = move_caller i (sending id) c
obtain_with i (c, err e) = move_caller i (returned (err e)) (drop_permit c)

pub obtain : ℕ → Bool → Channel → Channel
unfolding sender obtain_with
obtain i can_spawn c = obtain_with i (sender can_spawn c)

-- Call `i` sends its job to worker `id`: the permit goes with it, or drops.
pub deliver_with : ℕ → Channel × Bool → Channel
deliver_with i (c, true) = move_caller i (returned (ok i)) c
deliver_with i (c, false) = move_caller i (returned (err worker_died)) (drop_permit c)

pub deliver : ℕ → ℕ → Channel → Channel
unfolding send deliver_with
deliver i id c = deliver_with i (send id (submit i) c)

-- A call goes on from where it stands.
pub go_on : ℕ → Bool → Option Caller → Channel → Channel
unfolding check obtain deliver
go_on i can_spawn none c = c
go_on i can_spawn (some (checking before)) c = check i before c
go_on i can_spawn (some permitted) c = obtain i can_spawn c
go_on i can_spawn (some (sending id)) c = deliver i id c
go_on i can_spawn (some (returned r)) c = c

pub turn : ℕ → Bool → Channel → Channel
unfolding go_on
turn i can_spawn c = go_on i can_spawn (get_elem? c.callers i) c

-- `submit` from its first line to its end, with nothing in between.
pub submit_job : Bool → Channel → Channel
unfolding enter turn
submit_job can_spawn c =
    let i = length c.callers in turn i can_spawn (turn i can_spawn (turn i can_spawn (enter c)))

-- `run_job`: what the completion's receiver gives, `none` if its sender is dropped.
pub run_job : {A : Type 0} → InferenceResult ℕ → Option (InferenceResult A) → InferenceResult A
run_job (err e) completion = err e
run_job (ok i) none = err worker_died
run_job (ok i) (some r) = r

-- `request` with its `map_err`: what the reply's receiver gives, if the command was sent.
pub reply_or_died : {A : Type 0} → Bool → Option (InferenceResult A) → InferenceResult A
reply_or_died false reply = err worker_died
reply_or_died true none = err worker_died
reply_or_died true (some r) = r

-- `request` with its `unwrap_or`.
pub reply_or : {A : Type 0} → A → Bool → Option A → A
reply_or default false reply = default
reply_or default true none = default
reply_or default true (some r) = r

pub is_loaded : Channel → Bool → Option Bool → Bool
unfolding is_spawned reply_or
is_loaded c sent reply = is_spawned c && reply_or false sent reply
