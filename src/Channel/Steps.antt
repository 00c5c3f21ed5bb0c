-- ===== src/Channel/Steps.antt =====
-- The steps of a channel: a call of `submit` between two atomic operations, or the worker thread.
use burn_lm.Prelude.{ℕ, ◌-◌, ◌≡◌, Bool, true, false, List, [], ◌∷◌, ◌++◌, some, get_elem?}
use burn_lm.Channel.{
  Channel, WorkerInner, Message, submit, request, shutdown, checking, permitted, sending, enter,
  check, obtain, deliver, with_queue_depth, sender, send,
}

-- A change of the worker, and the number of permits that it drops.
pub data WorkerStep (w : WorkerInner) : WorkerInner → ℕ → Type 0 where
  -- A job comes off the inbox, into the worker's queue.
  takes_in :
      (i : ℕ) (rest : List Message)
      → w.listening ≡ true
      → w.inbox ≡ submit i ∷ rest
      → WorkerStep w (record w { inbox = rest; jobs = w.jobs ++ i ∷ [] }) 0
  -- Another command comes off the inbox.
  answers :
      (i : ℕ) (rest : List Message)
      → w.listening ≡ true
      → w.inbox ≡ request i ∷ rest
      → WorkerStep w (record w { inbox = rest }) 0
  -- A job leaves the queue: admitted, rejected, or drained by a panic.
  drops :
      (before after : List ℕ) (i : ℕ)
      → w.jobs ≡ before ++ i ∷ after
      → WorkerStep w (record w { jobs = before ++ after }) 1
  -- The receiver goes, by a shutdown or a panic.
  closes : w.listening ≡ true → WorkerStep w (record w { listening = false }) 0
  -- What is left in the channel goes with it.
  discards_job :
      (i : ℕ) (rest : List Message)
      → w.listening ≡ false
      → w.inbox ≡ submit i ∷ rest
      → WorkerStep w (record w { inbox = rest }) 1
  discards_request :
      (i : ℕ) (rest : List Message)
      → w.listening ≡ false
      → w.inbox ≡ request i ∷ rest
      → WorkerStep w (record w { inbox = rest }) 0
  discards_shutdown :
      (rest : List Message) → w.inbox ≡ shutdown ∷ rest → WorkerStep w (record w { inbox = rest }) 0
  -- The thread ends when nothing is left.
  finishes :
      w.listening ≡ false
      → w.inbox ≡ []
      → w.jobs ≡ []
      → WorkerStep w (record w { finished = true }) 0

pub data Step (c : Channel) : Channel → Type 0 where
  enters : Step c (enter c)
  checks :
      (i before : ℕ) → get_elem? c.callers i ≡ some (checking before) → Step c (check i before c)
  obtains :
      (i : ℕ) (can_spawn : Bool)
      → get_elem? c.callers i ≡ some permitted
      → Step c (obtain i can_spawn c)
  delivers : (i id : ℕ) → get_elem? c.callers i ≡ some (sending id) → Step c (deliver i id c)
  -- Another command than a job is sent.
  requests :
      (i : ℕ) (can_spawn : Bool) (id : ℕ) → Step c (send id (request i) (sender can_spawn c).0).0
  works :
      (w w' : WorkerInner) (dropped : ℕ)
      → c.inner ≡ some w
      → WorkerStep w w' dropped
      → Step c (record c { inner = some w'; pending = c.pending - dropped })

-- What a channel can come to.
pub data Reach (depth : ℕ) : Channel → Type 0 where
  starts : Reach depth (with_queue_depth depth)
  goes : (c c' : Channel) → Reach depth c → Step c c' → Reach depth c'
