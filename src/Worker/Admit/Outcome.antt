-- ===== src/Worker/Admit/Outcome.antt =====
-- The two loops of `admit`, and `admit` as a whole.
use burn_lm.Prelude.{
  ℕ, ◌<◌, ◌≤◌, ◌==◌, arith, false, ◌≡◌, subst, refl, sym, ap, ◌∙◌, Bool, List, [], ◌∷◌, ◌++◌,
  append-nil, append_assoc, Option, some, ltb, ltb→lt, Bool-cases, inl, inr, length,
}
use burn_lm.Engine.{BatchCapacity}
use burn_lm.Worker.{ResumedJob, QueuedJob, Server, Turn}
use burn_lm.Worker.Fits.{Fits}
use burn_lm.Worker.Admit.{resume_loop, queue_loop, admit}
use burn_lm.Worker.Admit.Attempts.{Static, Sound, Prefix, Suffix, try_resume-Tried, try_admit-Tried}

Prefix-trans : {A : Type 0} (a : List A) {b c : List A} → Prefix a b → Prefix b c → Prefix a c
Prefix-trans a (x, e) (y, f) = (x ++ y, f ∙ ap (λ l. l ++ y) e ∙ append_assoc a x y)

Prefix-refl : {A : Type 0} {a : List A} → Prefix a a
Prefix-refl {a = a} = ([], sym (append-nil a))

Suffix-cons : {A : Type 0} (x : A) {a b : List A} → Suffix a b → Suffix a (x ∷ b)
Suffix-cons x (gone, e) = (x ∷ gone, ap (◌∷◌ x) e)

module _ (srv : Server) (cap : BatchCapacity) where
  open srv use {model, Task, batch_capacity}
  open model use {State}

  -- Some turn that is sound, with the sequences of `t` first in its active set.
  record Resumed (rest : List ResumedJob) (t : Turn State Task) (out : Option (Turn State Task))
      : Type 0 where
    turn : Turn State Task
    ran : out ≡ some turn
    sound : Sound srv cap turn
    extended : Prefix t.active turn.active
    same_queue : turn.queue ≡ t.queue
    remaining : Suffix turn.resume rest

  record Queued (rest : List (QueuedJob Task)) (t : Turn State Task)
      (out : Option (Turn State Task)) : Type 0 where
    turn : Turn State Task
    ran : out ≡ some turn
    sound : Sound srv cap turn
    extended : Prefix t.active turn.active
    same_resume : turn.resume ≡ t.resume
    remaining : Suffix turn.queue rest

  module _ (static : Static srv cap) (positive : 1 ≤ cap.kv.block_size) where
    some_room : (cap.kv.block_size == 0) ≡ false
    some_room = ground arith

    resume_loop-Resumed :
        (rest : List ResumedJob) (t : Turn State Task)
        → Sound srv cap t
        → Resumed rest t (resume_loop srv rest t)
    unfolding resume_loop
    resume_loop-Resumed [] t sound = record {
      turn = record t { resume = [] };
      ran = refl;
      sound = record { capacity = sound.capacity; fits = sound.fits };
      extended = Prefix-refl;
      same_queue = refl;
      remaining = ([], refl);
    }
    resume_loop-Resumed (candidate ∷ rest) t sound =
        elim (Bool-cases
          (ltb (length t.active) (BatchCapacity.max_slots (batch_capacity t.server)))) [
            | inr full ↦
                rw (resume_loop, full)
                  (record {
                    turn = record t { resume = candidate ∷ rest };
                    ran = refl;
                    sound = record { capacity = sound.capacity; fits = sound.fits };
                    extended = Prefix-refl;
                    same_queue = refl;
                    remaining = ([], refl);
                  })
            | inl room ↦
                let below : length t.active < cap.max_slots = ltb→lt _ _ (
                  ap (λ (c : BatchCapacity). ltb (length t.active) c.max_slots) (sym sound.capacity)
                  ∙ room) in
                let r = try_resume-Tried srv cap static some_room t candidate sound below in
                elim (Bool-cases r.more) [
                  | inl more ↦
                      let l = resume_loop-Resumed rest r.turn r.sound in
                      rw (resume_loop, room, r.ran, more)
                        (record {
                          turn = l.turn;
                          ran = l.ran;
                          sound = l.sound;
                          extended = Prefix-trans t.active r.extended l.extended;
                          same_queue = l.same_queue ∙ r.same_queue;
                          remaining = Suffix-cons candidate l.remaining;
                        })
                  | inr stop ↦
                      rw (resume_loop, room, r.ran, stop)
                        (record {
                          turn = record (r.turn) { resume = candidate ∷ rest };
                          ran = refl;
                          sound = record { capacity = r.sound.capacity; fits = r.sound.fits };
                          extended = r.extended;
                          same_queue = r.same_queue;
                          remaining = ([], refl);
                        })
                ]
          ]

    queue_loop-Queued :
        (now : ℕ) (is_cancelled : ℕ → Bool) (rest : List (QueuedJob Task)) (t : Turn State Task)
        → Sound srv cap t
        → Queued rest t (queue_loop srv now is_cancelled rest t)
    unfolding queue_loop
    queue_loop-Queued now is_cancelled [] t sound = record {
      turn = record t { queue = [] };
      ran = refl;
      sound = record { capacity = sound.capacity; fits = sound.fits };
      extended = Prefix-refl;
      same_resume = refl;
      remaining = ([], refl);
    }
    queue_loop-Queued now is_cancelled (job ∷ rest) t sound =
        elim (Bool-cases
          (ltb (length t.active) (BatchCapacity.max_slots (batch_capacity t.server)))) [
            | inr full ↦
                rw (queue_loop, full)
                  (record {
                    turn = record t { queue = job ∷ rest };
                    ran = refl;
                    sound = record { capacity = sound.capacity; fits = sound.fits };
                    extended = Prefix-refl;
                    same_resume = refl;
                    remaining = ([], refl);
                  })
            | inl room ↦
                let below : length t.active < cap.max_slots = ltb→lt _ _ (
                  ap (λ (c : BatchCapacity). ltb (length t.active) c.max_slots) (sym sound.capacity)
                  ∙ room) in
                let r =
                  try_admit-Tried srv cap static some_room now is_cancelled t job sound below in
                elim (Bool-cases r.more) [
                  | inl more ↦
                      let l = queue_loop-Queued now is_cancelled rest r.turn r.sound in
                      rw (queue_loop, room, r.ran, more)
                        (record {
                          turn = l.turn;
                          ran = l.ran;
                          sound = l.sound;
                          extended = Prefix-trans t.active r.extended l.extended;
                          same_resume = l.same_resume ∙ r.same_resume;
                          remaining = Suffix-cons job l.remaining;
                        })
                  | inr stop ↦
                      rw (queue_loop, room, r.ran, stop)
                        (record {
                          turn = record (r.turn) { queue = job ∷ rest };
                          ran = refl;
                          sound = record { capacity = r.sound.capacity; fits = r.sound.fits };
                          extended = r.extended;
                          same_resume = r.same_resume;
                          remaining = ([], refl);
                        })
                ]
          ]

    pub admit_lem :
        (now : ℕ) (is_cancelled : ℕ → Bool) (t : Turn State Task)
        → batch_capacity t.server ≡ cap
        → Fits cap t.active
        → (u : Turn State Task) × (admit srv now is_cancelled t ≡ some u)
          × (batch_capacity u.server ≡ cap)
          × Fits cap u.active
          × Prefix t.active u.active
          × Suffix u.queue t.queue
          × Suffix u.resume t.resume
    unfolding admit
    admit_lem now is_cancelled t capacity fits =
        let r = resume_loop-Resumed t.resume t (record { capacity = capacity; fits = fits }) in
        let q = queue_loop-Queued now is_cancelled r.turn.queue r.turn r.sound in
        (
          q.turn,
          rw (admit, r.ran) q.ran,
          q.sound.capacity,
          q.sound.fits,
          Prefix-trans t.active r.extended q.extended,
          subst (λ (l : List (QueuedJob Task)). Suffix q.turn.queue l) r.same_queue q.remaining,
          subst (λ (l : List ResumedJob). Suffix l t.resume) (sym q.same_resume) r.remaining,
        )
