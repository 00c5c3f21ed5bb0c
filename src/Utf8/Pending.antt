-- ===== src/Utf8/Pending.antt =====
-- What `push` holds back.
use burn_lm.Prelude.{
  ℕ, zero, suc, ◌+◌, ◌-◌, ◌<◌, ◌≤◌, ◌≡◌, refl, Bool, true, false, List, [], ◌∷◌, ◌++◌, arith,
  length, drop, length-drop, if◌then◌else◌, ltb, ◌==◌,
}
use burn_lm.Utf8.{
  Start, complete, broken, incomplete, continue_with, second, start_of, between, Verdict, valid,
  cut_off, invalid, from_utf8, push_loop, push,
}

-- A character and a broken part have a byte at least, and one that is cut off has few bytes so far.
abbrev pub IsSane : ℕ → ℕ → Start → Type 0
IsSane limit len (complete n) = 1 ≤ n
IsSane limit len (broken n) = 1 ≤ n
IsSane limit len incomplete = len ≤ limit

IsSane-mono :
    (limit len limit' len' : ℕ) (s : Start)
    → limit + len' ≤ limit' + len
    → IsSane limit len s
    → IsSane limit' len' s
IsSane-mono limit len limit' len' (complete n) h sane = sane
IsSane-mono limit len limit' len' (broken n) h sane = sane
IsSane-mono limit len limit' len' incomplete h sane = omega arith

if-IsSane :
    (b : Bool) (limit len : ℕ) (s t : Start)
    → IsSane limit len s
    → IsSane limit len t
    → IsSane limit len (if b then s else t)
if-IsSane true limit len s t sane other = sane
if-IsSane false limit len s t sane other = other

continue_with-IsSane :
    (n seen : ℕ) (bytes : List ℕ)
    → 1 ≤ seen
    → IsSane n (suc (length bytes)) (continue_with n seen bytes)
unfolding continue_with
continue_with-IsSane zero seen bytes some_seen = some_seen
continue_with-IsSane (suc n) seen [] some_seen = omega arith
continue_with-IsSane (suc n) seen (byte ∷ bytes) some_seen =
    let rest = continue_with-IsSane n (suc seen) bytes (omega arith) in
    if-IsSane (between 128 191 byte) (suc n) (suc (suc (length bytes)))
      (continue_with n (suc seen) bytes) (broken seen)
      (IsSane-mono n (suc (length bytes)) (suc n) (suc (suc (length bytes))) _ (omega arith) rest)
      some_seen

second-IsSane :
    (low high more : ℕ) (bytes : List ℕ) → IsSane more (length bytes) (second low high more bytes)
unfolding second
second-IsSane low high more [] = omega arith
second-IsSane low high more (byte ∷ bytes) =
    if-IsSane (between low high byte) more (suc (length bytes)) (continue_with more 2 bytes)
      (broken 1) (continue_with-IsSane more 2 bytes (omega arith)) (omega arith)

second-within :
    (low high more : ℕ) (bytes : List ℕ)
    → more ≤ 2
    → IsSane 2 (length bytes) (second low high more bytes)
second-within low high more bytes few =
    IsSane-mono more (length bytes) 2 (length bytes) (second low high more bytes) (omega arith)
      (second-IsSane low high more bytes)

pub start_of-IsSane : (first : ℕ) (rest : List ℕ) → IsSane 2 (length rest) (start_of first rest)
unfolding start_of
start_of-IsSane first rest =
    let n = length rest in
    if-IsSane (ltb first 128) 2 n _ _ (omega arith) (
      if-IsSane (between 194 223 first) 2 n _ _ (second-within 128 191 0 rest (omega arith)) (
        if-IsSane (first == 224) 2 n _ _ (second-within 160 191 1 rest (omega arith)) (
          if-IsSane (first == 237) 2 n _ _ (second-within 128 159 1 rest (omega arith)) (
            if-IsSane (between 225 239 first) 2 n _ _ (second-within 128 191 1 rest (omega arith)) (
              if-IsSane (first == 240) 2 n _ _ (second-within 144 191 2 rest (omega arith)) (
                if-IsSane (between 241 243 first) 2 n _ _
                  (second-within 128 191 2 rest (omega arith))
                  (if-IsSane (first == 244) 2 n _ _ (second-within 128 143 2 rest (omega arith))
                    (omega arith))))))))

-- What `from_utf8` reports of `len` bytes: an error has a byte at least, and what is cut off is short.
abbrev pub IsReport : ℕ → ℕ → Verdict → Type 0
IsReport len up_to valid = Unit
IsReport len up_to (invalid n) = (1 ≤ n) × (0 < len)
IsReport len up_to cut_off = len - up_to ≤ 3

IsReport-later :
    (n len up_to : ℕ) (v : Verdict) → IsReport (len - n) up_to v → IsReport len (n + up_to) v
IsReport-later n len up_to valid r = tt
IsReport-later n len up_to (invalid k) (one, some_left) = (one, omega arith)
IsReport-later n len up_to cut_off r = omega arith

pub from_utf8-IsReport :
    (fuel : ℕ) (bytes : List ℕ)
    → length bytes ≤ fuel
    → IsReport (length bytes) (from_utf8 fuel bytes).0 (from_utf8 fuel bytes).1
unfolding from_utf8
from_utf8-IsReport fuel [] enough = tt
from_utf8-IsReport zero (byte ∷ bytes) enough = absurd (omega arith)
from_utf8-IsReport (suc fuel) (byte ∷ bytes) enough =
    by_start (λ tail fits. from_utf8-IsReport fuel tail fits) (start_of byte bytes) refl
      (start_of-IsSane byte bytes)
  where
    by_start :
        ((tail : List ℕ)
          → length tail ≤ fuel
          → IsReport (length tail) (from_utf8 fuel tail).0 (from_utf8 fuel tail).1)
        → (s : Start) → start_of byte bytes ≡ s
        → IsSane 2 (length bytes) s
        → IsReport
            (suc (length bytes))
            (from_utf8 (suc fuel) (byte ∷ bytes)).0
            (from_utf8 (suc fuel) (byte ∷ bytes)).1
    by_start again (complete n) e one =
        let tail = drop n (byte ∷ bytes) in
        let size = length-drop n (byte ∷ bytes) in
        let rest = again tail (omega arith) in
        rw (from_utf8, e)
          (IsReport-later n (suc (length bytes)) (from_utf8 fuel tail).0 (from_utf8 fuel tail).1
            (rw size at rest))
    by_start again (broken n) e one = rw (from_utf8, e) (one, omega arith)
    by_start again incomplete e few = rw (from_utf8, e) (omega arith)

push_loop-pending :
    (fuel : ℕ) (bytes : List ℕ) → length bytes < fuel → length (push_loop fuel bytes).1 ≤ 3
unfolding push_loop
push_loop-pending zero bytes enough = absurd (omega arith)
push_loop-pending (suc fuel) bytes enough =
    by_verdict (λ tail fits. push_loop-pending fuel tail fits) (from_utf8 (length bytes) bytes).1
      refl (from_utf8-IsReport (length bytes) bytes (omega arith))
  where
    by_verdict :
        ((tail : List ℕ) → length tail < fuel → length (push_loop fuel tail).1 ≤ 3)
        → (v : Verdict) → (from_utf8 (length bytes) bytes).1 ≡ v
        → IsReport (length bytes) (from_utf8 (length bytes) bytes).0 v
        → length (push_loop (suc fuel) bytes).1 ≤ 3
    by_verdict again valid e r = rw (push_loop, e) (omega arith)
    by_verdict again (invalid n) e (one, some_left) =
        let taken = (from_utf8 (length bytes) bytes).0 + n in
        rw (push_loop, e) (again (drop taken bytes) (omega (arith, length-drop taken bytes)))
    by_verdict again cut_off e r =
        rw (push_loop, e) (omega (arith, length-drop (from_utf8 (length bytes) bytes).0 bytes))

-- Whatever bytes come, valid or not, and however they are cut, `push` holds at most three back.
pub push-pending : (pending bytes : List ℕ) → length (push pending bytes).1 ≤ 3
unfolding push
push-pending pending bytes =
    push_loop-pending (length (pending ++ bytes) + 1) (pending ++ bytes) (omega arith)
