-- ===== src/Worker/Tests.antt =====
-- The worker's properties at a toy server: two slots, a pool of four blocks of four positions, and a
-- decoder that always samples token 7.
use burn_lm.Prelude.{
  ℕ, ◌<◌, ◌≤◌, ◌≡◌, refl, Bool, true, false, List, [], ◌∷◌, some, arith, length, get_elem?, mem,
  replicate,
}
use burn_lm.Pool.{ok}
use burn_lm.Engine.{elastic, BatchCapacity, Model}
use burn_lm.Worker.{JobSeq, QueuedJob, Server, Turn, lowest_free, reserved_blocks}
use burn_lm.Worker.Slots.{slots, lowest_free_lem}
use burn_lm.Worker.Fits.{Fits}
use burn_lm.Worker.Growth.{Growth, grant_kv_growth, senior_from}
use burn_lm.Worker.Growth.Conserved.{weight, grant_kv_growth-weight}
use burn_lm.Worker.Growth.Senior.{Keeps, grant_kv_growth-Keeps}
use burn_lm.Worker.Growth.Turns.{Served}
use burn_lm.Worker.Growth.Bounds.{grant_kv_growth_lem}
use burn_lm.Worker.Admit.Attempts.{Static}
use burn_lm.Worker.Step.{step}
use burn_lm.Worker.Step.Kept.{step_lem}
use burn_lm.Worker.Command.{Flow, submit, unload, worker_iteration}
use burn_lm.Worker.Command.Iteration.{worker_iteration_lem}

abbrev toy_model : Model
toy_model = record {
  State = Unit;
  Logits = ℕ;
  rows = λ l. l;
  vocab = λ l. 8;
  prefill = λ st slot tokens start. (st, ok 1);
  decode = λ st rows. (st, ok (length rows));
  release = λ st slot. st;
  max_context_len = λ st. 16;
  sample = λ st l. (st, ok (replicate l 7));
}

abbrev toy_capacity : BatchCapacity
toy_capacity = record { max_slots = 2; kv = record { block_size = 4; total_blocks = 4 } }

abbrev toy_server : Server
toy_server = record {
  model = toy_model;
  Task = List ℕ;
  borrow = λ st. (st, ok tt);
  batch_capacity = λ st. toy_capacity;
  prefill_chunk_size = λ st. 0;
  prefill_token_budget = λ st. 0;
  kv_admission = λ st. elastic;
  tokenize = λ st task. ok task;
  detokenize_bytes = λ st tokens. tokens;
  stop_ids = λ st. [];
  max_gen_tokens = λ st. 8;
  unload = λ st. (st, ok tt);
  clear_state = λ st. (st, ok tt);
}

abbrev toy_job : ℕ → List ℕ → QueuedJob (List ℕ)
toy_job n task = record {
  task = task;
  max_tokens = some 4;
  cancel = n;
  completion = n;
  enqueued_at = 0;
}

-- One that is cancelled while it waits, one that fits, one that never fits, two that fit.
abbrev toy_turn : Turn (Unit {0}) (List ℕ)
toy_turn = record {
  server = tt;
  queue =
      toy_job 1 (3 ∷ [])
      ∷ toy_job 2 (3 ∷ 4 ∷ 5 ∷ [])
      ∷ toy_job 3 (3 ∷ 4 ∷ 5 ∷ 6 ∷ 7 ∷ [])
      ∷ toy_job 4 (3 ∷ [])
      ∷ [];
  active = [];
  resume = [];
  next_id = 0;
  effects = [];
}

abbrev is_first : ℕ → Bool
is_first n = elim (mem n (1 ∷ [])) [ true ↦ true | false ↦ false ]

toy_static : Static toy_server toy_capacity
toy_static = record { borrowing = λ st e. e; releasing = λ st slot e. e }

-- The sequence of request `n` in its slot, five tokens long, with so many blocks reserved.
abbrev toy_seq : ℕ → ℕ → JobSeq
toy_seq n blocks = record {
  slot = n;
  tokens = 3 ∷ 4 ∷ 5 ∷ 6 ∷ 7 ∷ [];
  processed = 4;
  generated = 2;
  max_gen = 8;
  finished = false;
  kv_reservation = blocks;
  paused = false;
  extra = record { id = n; hit_stop = false; cancel = n; queue_wait = 0; cancelled = false };
}

lowest_free_lem_example :
    (slot : ℕ) × (lowest_free 3 0 (toy_seq 1 2 ∷ toy_seq 0 1 ∷ []) ≡ some slot)
    × (slot < 3)
    × (mem slot (slots (toy_seq 1 2 ∷ toy_seq 0 1 ∷ [])) ≡ false)
lowest_free_lem_example = lowest_free_lem 3 (toy_seq 1 2 ∷ toy_seq 0 1 ∷ []) (omega arith)

-- Three sequences with all blocks taken, two short of one block: the youngest is evicted.
grant_kv_growth_lem_example :
    (g : Growth) × (grant_kv_growth toy_capacity.kv 16
        (toy_seq 0 1 ∷ toy_seq 1 1 ∷ toy_seq 2 2 ∷ [])
        []
      ≡ some g)
    × (reserved_blocks g.active ≤ 4)
    × ((j : ℕ) (s : JobSeq) → get_elem? g.active j ≡ some s → Served toy_capacity.kv 16 s)
grant_kv_growth_lem_example =
    grant_kv_growth_lem toy_capacity.kv 16 (toy_seq 0 1 ∷ toy_seq 1 1 ∷ toy_seq 2 2 ∷ []) []
      (omega arith) (λ e. omega arith)

-- Of the same three the first is the oldest.
oldest_first : senior_from 0 (toy_seq 0 1 ∷ toy_seq 1 1 ∷ toy_seq 2 2 ∷ []) ≡ some 0
unfolding senior_from
oldest_first = refl

grant_kv_growth-Keeps_example :
    (g : Growth) × (grant_kv_growth toy_capacity.kv 16
        (toy_seq 0 1 ∷ toy_seq 1 1 ∷ toy_seq 2 2 ∷ [])
        []
      ≡ some g)
    × Keeps 0 (toy_seq 0 1 ∷ toy_seq 1 1 ∷ toy_seq 2 2 ∷ []) g.active
grant_kv_growth-Keeps_example =
    grant_kv_growth-Keeps toy_capacity.kv 16 (toy_seq 0 1 ∷ toy_seq 1 1 ∷ toy_seq 2 2 ∷ []) [] 0
      (omega arith) (λ e. omega arith) oldest_first

-- They weigh the sum of their ids, with the evicted one among those that wait.
grant_kv_growth-weight_example :
    (g : Growth) × (grant_kv_growth toy_capacity.kv 16
        (toy_seq 0 1 ∷ toy_seq 1 1 ∷ toy_seq 2 2 ∷ [])
        []
      ≡ some g)
    × (weight (λ m. m.id) g.active g.resume ≡ 3)
grant_kv_growth-weight_example =
    grant_kv_growth-weight (λ m. m.id) toy_capacity.kv 16
      (toy_seq 0 1 ∷ toy_seq 1 1 ∷ toy_seq 2 2 ∷ []) [] (omega arith) (λ e. omega arith)

abbrev busy_turn : Turn (Unit {0}) (List ℕ)
busy_turn = record {
  server = tt;
  queue = toy_job 4 (3 ∷ []) ∷ [];
  active = toy_seq 1 2 ∷ toy_seq 0 1 ∷ [];
  resume = [];
  next_id = 2;
  effects = [];
}

busy-Fits : Fits toy_capacity busy_turn.active
busy-Fits = record {
  distinct = (refl, (refl, tt));
  inside = (omega arith, (omega arith, tt));
  within = omega arith;
}

-- One of the two is cancelled, and the other is granted a block.
step_lem_example :
    (u : Turn (Unit {0}) (List ℕ)) × (step toy_server is_first busy_turn ≡ some u)
    × Fits toy_capacity u.active
    × (u.queue ≡ busy_turn.queue)
    × (u.next_id ≡ busy_turn.next_id)
step_lem_example = step_lem toy_server toy_capacity is_first busy_turn refl busy-Fits (omega arith)

-- A job arrives, and an unload that is refused.
worker_iteration_lem_example :
    (flow : Flow) × (u : Turn (Unit {0}) (List ℕ)) × (worker_iteration toy_server 5 is_first
        (submit (toy_job 5 (3 ∷ [])) ∷ unload ∷ [])
        busy_turn
      ≡ some (flow, u))
    × Fits toy_capacity u.active
worker_iteration_lem_example =
    worker_iteration_lem toy_server toy_capacity toy_static 5 is_first
      (submit (toy_job 5 (3 ∷ [])) ∷ unload ∷ []) busy_turn (tt, ((λ st e. e), tt)) refl busy-Fits
      (omega arith)
