-- ===== src/Emission.antt =====
-- crates/burn-lm-inference/src/channels/batching/emission.rs: the thread that delivers. An emitter
-- and a completion sender are one number, that of the request's completion; the events are all that
-- the worker sends before its end of the channel drops.
mod Tests
pub mod Once
pub mod Text
pub mod Told
use burn_lm.Prelude.{ℕ, Bool, List, [], ◌∷◌, ◌++◌, Option, none, some, ◌==◌, if◌then◌else◌}
use burn_lm.Pool.{err}
use burn_lm.Engine.{InferenceResult, worker_died}
use burn_lm.Worker.{Stats, EmissionEvent, admitted, tokens, retire}
use burn_lm.Utf8.{push, finish}

-- `Delivery`: `detok` is what its buffer holds back.
pub record Delivery : Type 0 where
  pub detok : List ℕ
  pub completion : ℕ

-- What a caller sees.
pub data Output : Type 0 where
  text : ℕ → List ℕ → Output
  completed : ℕ → InferenceResult Stats → Output

abbrev pub Live : Type 0
Live = List (ℕ × Delivery)

pub text_out : ℕ → Option (List ℕ) → List Output
text_out completion none = []
text_out completion (some s) = text completion s ∷ []

pub deliver : Delivery → List ℕ → Delivery × List Output
unfolding push text_out
deliver d bytes =
    let (s, left) = push d.detok bytes in
    (record { detok = left; completion = d.completion }, text_out d.completion s)

pub finish_with : Delivery → InferenceResult Stats → List Output
unfolding finish text_out
finish_with d r = text_out d.completion (finish d.detok) ++ completed d.completion r ∷ []

-- `HashMap::remove`
pub remove : ℕ → Live → Live
remove id [] = []
remove id (entry ∷ live) = if entry.0 == id then remove id live else entry ∷ remove id live

pub lookup : ℕ → Live → Option Delivery
lookup id [] = none
lookup id (entry ∷ live) = if entry.0 == id then some (entry.1) else lookup id live

-- `get_mut` and `deliver`.
pub deliver_to : ℕ → List ℕ → Live → Live × List Output
unfolding deliver
deliver_to id bytes [] = ([], [])
deliver_to id bytes (entry ∷ live) =
    let (d, out) = deliver (entry.1) bytes in
    let (live', out') = deliver_to id bytes live in
    if entry.0 == id then ((entry.0, d) ∷ live, out) else (entry ∷ live', out')

pub deliver_batch : List (ℕ × List ℕ) → Live → Live × List Output
unfolding deliver_to
deliver_batch [] live = (live, [])
deliver_batch (item ∷ batch) live =
    let (live', out) = deliver_to (item.0) (item.1) live in
    let (live'', out') = deliver_batch batch live' in (live'', out ++ out')

pub answer : Option Delivery → InferenceResult Stats → List Output
unfolding finish_with
answer none r = []
answer (some d) r = finish_with d r

pub handle : EmissionEvent → Live → Live × List Output
unfolding deliver_batch remove lookup answer
handle (admitted id completion) live =
    ((id, record { detok = []; completion = completion }) ∷ remove id live, [])
handle (tokens batch) live = deliver_batch batch live
handle (retire id r) live = (remove id live, answer (lookup id live) r)

-- The worker is gone.
pub answer_died : Live → List Output
unfolding finish_with
answer_died [] = []
answer_died (entry ∷ live) = finish_with (entry.1) (err worker_died) ++ answer_died live

pub run : List EmissionEvent → Live → List Output
unfolding handle answer_died
run [] live = answer_died live
run (event ∷ events) live = let (live', out) = handle event live in out ++ run events live'
