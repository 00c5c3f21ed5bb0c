-- ===== src/Worker/Admit/Attempts.antt =====
-- What one attempt of `admit` leaves of a sound turn, with a server whose capacity is static, as
-- `BatchedInferenceServer::batch_capacity` documents it.
use burn_lm.Prelude.{
  ℕ, ◌+◌, ◌-◌, ◌<◌, ◌≤◌, ◌≡◌, refl, sym, ap, ◌∙◌, ◌⊎◌, Bool, true, false, List, [], ◌∷◌, ◌++◌,
  append-nil, some, arith, ltb, Bool-cases, inl, inr, length, mem, min, ◌==◌,
}
use burn_lm.Pool.{ok, err}
use burn_lm.Engine.{
  InferenceError, InferenceResult, BatchCapacity, blocks_for, blocks_for_lem, covering,
  wrapping_add, wrapping_sub,
}
use burn_lm.Worker.{JobSeq, ResumedJob, QueuedJob, Server, Turn, lowest_free, reserved_blocks}
use burn_lm.Worker.Slots.{slots, lowest_free_lem}
use burn_lm.Worker.Fits.{Fits, Fits-snoc}
use burn_lm.Worker.Admit.{
  Attempt, entering, guarantee, release_slot, resume_gate, clamp_max_gen, seat, try_resume, answer,
  enter, gate, try_admit,
}

pub Result-cases :
    {A : Type 0} (r : InferenceResult A)
    → ((a : A) × (r ≡ ok a)) ⊎ ((e : InferenceError) × (r ≡ err e))
Result-cases (ok a) = inl (a, refl)
Result-cases (err e) = inr (e, refl)

-- What came after some of the elements of a list.
abbrev pub Suffix : {A : Type 0} → List A → List A → Type 0
Suffix {A = A} later all = (gone : List A) × (all ≡ gone ++ later)

abbrev pub Prefix : {A : Type 0} → List A → List A → Type 0
Prefix {A = A} first all = (new : List A) × (all ≡ first ++ new)

module _ (srv : Server) (cap : BatchCapacity) where
  open srv use {model, Task, borrow, batch_capacity, kv_admission, tokenize, max_gen_tokens}
  open model use {State, release, max_context_len}

  -- The capacity does not change as the decoder is borrowed, or a slot released.
  pub record Static : Type 0 where
    pub borrowing : (st : State) → batch_capacity st ≡ cap → batch_capacity (borrow st).0 ≡ cap
    pub releasing :
        (st : State) (slot : ℕ) → batch_capacity st ≡ cap → batch_capacity (release st slot) ≡ cap

  -- What holds of the turn throughout.
  pub record Sound (t : Turn State Task) : Type 0 where
    pub capacity : batch_capacity t.server ≡ cap
    pub fits : Fits cap t.active

  -- What an attempt leaves of `t`.
  pub record Tried (t : Turn State Task) (out : Attempt srv) : Type 0 where
    pub turn : Turn State Task
    pub more : Bool
    pub ran : out ≡ some (turn, more)
    pub sound : Sound turn
    pub extended : Prefix t.active turn.active
    pub same_queue : turn.queue ≡ t.queue
    pub same_resume : turn.resume ≡ t.resume

  module _ (static : Static) (positive : (cap.kv.block_size == 0) ≡ false) where
    release_slot-capacity :
        (st : State) (slot : ℕ)
        → batch_capacity st ≡ cap
        → batch_capacity (release_slot srv st slot) ≡ cap
    unfolding release_slot
    release_slot-capacity st slot same = elim (Result-cases (borrow st).1) [
      | inl (u, e) ↦ rw (release_slot, e) (static.releasing _ slot (static.borrowing st same))
      | inr (e, f) ↦ rw (release_slot, f) (static.borrowing st same)
    ]

    seat-Tried :
        (t : Turn State Task) (seq : ℕ → JobSeq) (guaranteed : ℕ)
        → Sound t
        → length t.active < cap.max_slots
        → ((slot : ℕ) → (seq slot).slot ≡ slot)
        → ((slot : ℕ) → (seq slot).kv_reservation ≡ guaranteed)
        → ltb (cap.kv.total_blocks - reserved_blocks t.active) guaranteed ≡ false
        → Tried t (seat srv t seq)
    unfolding seat
    seat-Tried t seq guaranteed sound room placed reserves covered =
        let (slot, found, below, free) = lowest_free_lem cap.max_slots t.active room in
        let search : lowest_free (BatchCapacity.max_slots (batch_capacity t.server)) 0 t.active
            ≡ some slot =
          ap (λ (c : BatchCapacity). lowest_free c.max_slots 0 t.active) sound.capacity ∙ found in
        let at : (seq slot).slot ≡ slot = placed slot in
        record {
          turn = record t {
            server = release_slot srv t.server slot;
            active = t.active ++ seq slot ∷ [];
          };
          more = true;
          ran = rw (seat, search) refl;
          sound = record {
            capacity = release_slot-capacity t.server slot sound.capacity;
            fits =
                Fits-snoc cap t.active (seq slot) sound.fits (omega arith)
                  (ap (λ x. mem x (slots t.active)) at ∙ free)
                  (let gap : guaranteed ≤ cap.kv.total_blocks - reserved_blocks t.active =
                      ground arith in
                    omega (arith, reserves slot, sound.fits.within));
          };
          extended = (seq slot ∷ [], refl);
          same_queue = refl;
          same_resume = refl;
        }

    borrowed : Turn State Task → Turn State Task
    borrowed t = record t { server = (borrow t.server).0 }

    borrowed-Sound : (t : Turn State Task) → Sound t → Sound (borrowed t)
    unfolding borrowed
    borrowed-Sound t sound = record {
      capacity = static.borrowing t.server sound.capacity;
      fits = sound.fits;
    }

    stays-Tried :
        (t u : Turn State Task) (more : Bool)
        → u.active ≡ t.active
        → u.queue ≡ t.queue
        → u.resume ≡ t.resume
        → Sound u
        → Tried t (some (u, more))
    stays-Tried t u more same queue resume sound = record {
      turn = u;
      more = more;
      ran = refl;
      sound = sound;
      extended = ([], same ∙ sym (append-nil t.active));
      same_queue = queue;
      same_resume = resume;
    }

    -- The budget's test, of the server's own capacity.
    covers :
        (t : Turn State Task) (guaranteed : ℕ)
        → Sound t
        → ltb
            ((BatchCapacity.kv (batch_capacity t.server)).total_blocks - reserved_blocks t.active)
            guaranteed
          ≡ false
        → ltb (cap.kv.total_blocks - reserved_blocks t.active) guaranteed ≡ false
    covers t guaranteed sound e =
        ap (λ (c : BatchCapacity). ltb (c.kv.total_blocks - reserved_blocks t.active) guaranteed)
          (sym sound.capacity)
        ∙ e

    counted :
        (t : Turn State Task) (n : ℕ)
        → Sound t
        → let kv = BatchCapacity.kv (batch_capacity t.server) in
          blocks_for kv n ≡ some (covering kv n)
    counted t n sound =
        blocks_for_lem (BatchCapacity.kv (batch_capacity t.server)) n
          (ap (λ (c : BatchCapacity). c.kv.block_size == 0) sound.capacity ∙ positive)

    resume_gate-Tried :
        (t : Turn State Task) (candidate : ResumedJob)
        → Sound t
        → length t.active < cap.max_slots
        → Tried t (resume_gate srv t candidate)
    unfolding resume_gate entering
    resume_gate-Tried t candidate sound room =
        let ctx = max_context_len t.server in
        let kv = BatchCapacity.kv (batch_capacity t.server) in
        let total =
          wrapping_sub (wrapping_add (length candidate.tokens) candidate.max_gen)
            candidate.generated in
        let guaranteed =
          guarantee (kv_admission t.server) t.active (covering kv (min total ctx))
            (covering kv (min (length candidate.tokens + 1) ctx)) in
        let worst = counted t (min total ctx) sound in
        let footprint = counted t (min (length candidate.tokens + 1) ctx) sound in
        elim (Bool-cases (ltb (kv.total_blocks - reserved_blocks t.active) guaranteed)) [
          | inl waits ↦
              rw (resume_gate, worst, footprint, waits) (stays-Tried t t false refl refl refl sound)
          | inr covered ↦
              rw (resume_gate, worst, footprint, covered)
                (seat-Tried t _ guaranteed sound room (λ slot. refl) (λ slot. refl)
                  (covers t guaranteed sound covered))
        ]

    -- An attempt after the borrow is one from before it.
    from_borrowed : (t : Turn State Task) {out : Attempt srv} → Tried (borrowed t) out → Tried t out
    unfolding borrowed
    from_borrowed t r = record {
      turn = r.turn;
      more = r.more;
      ran = r.ran;
      sound = r.sound;
      extended = r.extended;
      same_queue = r.same_queue;
      same_resume = r.same_resume;
    }

    pub try_resume-Tried :
        (t : Turn State Task) (candidate : ResumedJob)
        → Sound t
        → length t.active < cap.max_slots
        → Tried t (try_resume srv t candidate)
    unfolding try_resume borrowed
    try_resume-Tried t candidate sound room =
        let sound' = borrowed-Sound t sound in
        elim (Result-cases (borrow t.server).1) [
          | inr (e, f) ↦ rw (try_resume, f) (stays-Tried t (borrowed t) false refl refl refl sound')
          | inl (u, e) ↦
              rw (try_resume, e)
                (from_borrowed t (resume_gate-Tried (borrowed t) candidate sound' room))
        ]

    enter-Tried :
        (now : ℕ) (t : Turn State Task) (job : QueuedJob Task) (tokens : List ℕ)
        (max_gen guaranteed : ℕ)
        → Sound t
        → length t.active < cap.max_slots
        → ltb (cap.kv.total_blocks - reserved_blocks t.active) guaranteed ≡ false
        → Tried t (enter srv now t job tokens max_gen guaranteed)
    unfolding enter entering
    enter-Tried now t job tokens max_gen guaranteed sound room covered =
        let r =
          seat-Tried _ _ guaranteed (record { capacity = sound.capacity; fits = sound.fits }) room
            (λ slot. refl) (λ slot. refl) covered in
        record {
          turn = r.turn;
          more = r.more;
          ran = r.ran;
          sound = r.sound;
          extended = r.extended;
          same_queue = r.same_queue;
          same_resume = r.same_resume;
        }

    answer-Tried :
        (t : Turn State Task) (job : QueuedJob Task) (e : InferenceError)
        → Sound t
        → Tried t (answer srv t job e)
    unfolding answer
    answer-Tried t job e sound =
        stays-Tried t _ true refl refl refl
          (record { capacity = sound.capacity; fits = sound.fits })

    gate-Tried :
        (now : ℕ) (t : Turn State Task) (job : QueuedJob Task) (tokens : List ℕ)
        → Sound t
        → length t.active < cap.max_slots
        → Tried t (gate srv now t job tokens)
    unfolding gate
    gate-Tried now t job tokens sound room =
        let ctx = max_context_len t.server in
        let max_gen = clamp_max_gen srv (max_gen_tokens t.server) job.max_tokens in
        let kv = BatchCapacity.kv (batch_capacity t.server) in
        let need = covering kv (min (wrapping_add (length tokens) max_gen) ctx) in
        let guaranteed =
          guarantee (kv_admission t.server) t.active need
            (covering kv (min (length tokens + 1) ctx)) in
        let worst = counted t (min (wrapping_add (length tokens) max_gen) ctx) sound in
        let footprint = counted t (min (length tokens + 1) ctx) sound in
        elim (Bool-cases (ltb kv.total_blocks need)) [
          | inl never ↦ rw (gate, worst, footprint, never) (answer-Tried t job _ sound)
          | inr fits ↦
              elim (Bool-cases (ltb (kv.total_blocks - reserved_blocks t.active) guaranteed)) [
                | inl waits ↦
                    rw (gate, worst, footprint, fits, waits)
                      (stays-Tried t t false refl refl refl sound)
                | inr covered ↦
                    rw (gate, worst, footprint, fits, covered)
                      (enter-Tried now t job tokens max_gen guaranteed sound room
                        (covers t guaranteed sound covered))
              ]
        ]

    pub try_admit-Tried :
        (now : ℕ) (is_cancelled : ℕ → Bool) (t : Turn State Task) (job : QueuedJob Task)
        → Sound t
        → length t.active < cap.max_slots
        → Tried t (try_admit srv now is_cancelled t job)
    unfolding try_admit borrowed
    try_admit-Tried now is_cancelled t job sound room =
        let sound' = borrowed-Sound t sound in
        elim (Bool-cases (is_cancelled job.cancel)) [
          | inl gone ↦ rw (try_admit, gone) (answer-Tried t job _ sound)
          | inr wanted ↦ elim (Result-cases (borrow t.server).1) [
            | inr (e, f) ↦
                rw (try_admit, wanted, f) (from_borrowed t (answer-Tried (borrowed t) job e sound'))
            | inl (u, b) ↦ elim (Result-cases (tokenize (borrow t.server).0 job.task)) [
              | inr (e, f) ↦
                  rw (try_admit, wanted, b, f)
                    (from_borrowed t (answer-Tried (borrowed t) job e sound'))
              | inl (tokens, f) ↦
                  rw (try_admit, wanted, b, f)
                    (from_borrowed t (gate-Tried now (borrowed t) job tokens sound' room))
            ]
          ]
        ]
