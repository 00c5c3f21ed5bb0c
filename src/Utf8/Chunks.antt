-- ===== src/Utf8/Chunks.antt =====
-- `push` reads characters, and what it emits does not depend on how the bytes are cut.
use burn_lm.Prelude.{
  ℕ, zero, suc, ◌+◌, ◌<◌, ◌≤◌, ◌≡◌, refl, sym, ap, ◌∙◌, List, [], ◌∷◌, ◌++◌, arith, Option, none,
  some, length, take, drop, append_assoc, append-nil, length-drop, take_add, drop-drop, concat,
  subst,
}
use burn_lm.Utf8.{
  Start, complete, broken, incomplete, start_of, replacement, Verdict, valid, cut_off, invalid,
  from_utf8, push_loop, push, text_of,
}
use burn_lm.Utf8.Pending.{IsSane, start_of-IsSane, IsReport, from_utf8-IsReport}
use burn_lm.Utf8.Scan.{Scans, ends, cut, char, bad, Scans-append, Scans_unique}

-- What a verdict after `k` bytes says of the bytes.
abbrev pub Reads : List ℕ → ℕ → Verdict → Type 0
Reads bytes k valid = Scans bytes (take k bytes) []
Reads bytes k cut_off = Scans bytes (take k bytes) (drop k bytes)
Reads bytes k (invalid n) =
    (text left : List ℕ)
    → Scans (drop (k + n) bytes) text left
    → Scans bytes (take k bytes ++ (replacement ++ text)) left

-- One more character in front.
Reads-later :
    (b : ℕ) (bytes : List ℕ) (n k : ℕ) (v : Verdict)
    → start_of b bytes ≡ complete n
    → Reads (drop n (b ∷ bytes)) k v
    → Reads (b ∷ bytes) (n + k) v
Reads-later b bytes n k valid q h =
    subst (λ x. Scans (b ∷ bytes) x []) (sym (take_add n k (n + k) (b ∷ bytes) refl))
      (char b bytes n _ [] q h)
Reads-later b bytes n k cut_off q h =
    subst (λ x. Scans (b ∷ bytes) x (drop (n + k) (b ∷ bytes)))
      (sym (take_add n k (n + k) (b ∷ bytes) refl))
      (subst (λ x. Scans (b ∷ bytes) (take n (b ∷ bytes) ++ take k (drop n (b ∷ bytes))) x)
        (drop-drop n k (n + k) (b ∷ bytes) refl) (char b bytes n _ _ q h))
Reads-later b bytes n k (invalid m) q h = λ text left rest.
    subst (λ x. Scans (b ∷ bytes) x left)
      (sym (append_assoc (take n (b ∷ bytes)) (take k (drop n (b ∷ bytes))) (replacement ++ text))
        ∙ ap (λ x. x ++ (replacement ++ text)) (sym (take_add n k (n + k) (b ∷ bytes) refl)))
      (char b bytes n _ left q (
        h text left (
          subst (λ x. Scans x text left)
            (sym (drop-drop n (k + m) ((n + k) + m) (b ∷ bytes) (omega arith))) rest)))

pub from_utf8-Reads :
    (fuel : ℕ) (bytes : List ℕ)
    → length bytes ≤ fuel
    → Reads bytes (from_utf8 fuel bytes).0 (from_utf8 fuel bytes).1
unfolding from_utf8
from_utf8-Reads fuel [] enough = ends
from_utf8-Reads zero (byte ∷ bytes) enough = absurd (omega arith)
from_utf8-Reads (suc fuel) (byte ∷ bytes) enough =
    by_start (λ tail fits. from_utf8-Reads fuel tail fits) (start_of byte bytes) refl
      (start_of-IsSane byte bytes)
  where
    by_start :
        ((tail : List ℕ)
          → length tail ≤ fuel
          → Reads tail (from_utf8 fuel tail).0 (from_utf8 fuel tail).1)
        → (s : Start) → start_of byte bytes ≡ s
        → IsSane 2 (length bytes) s
        → Reads
            (byte ∷ bytes)
            (from_utf8 (suc fuel) (byte ∷ bytes)).0
            (from_utf8 (suc fuel) (byte ∷ bytes)).1
    by_start again (complete n) e one =
        let tail = drop n (byte ∷ bytes) in
        let size = length-drop n (byte ∷ bytes) in
        rw (from_utf8, e)
          (Reads-later byte bytes n (from_utf8 fuel tail).0 (from_utf8 fuel tail).1 e
            (again tail (omega arith)))
    by_start again (broken n) e one =
        rw (from_utf8, e)
          (λ text left rest.
            bad byte bytes n text left e
              (subst (λ k. Scans (drop k (byte ∷ bytes)) text left) (omega arith) rest))
    by_start again incomplete e few = rw (from_utf8, e) (cut byte bytes e)

push_loop-Scans :
    (fuel : ℕ) (bytes : List ℕ)
    → length bytes < fuel
    → Scans bytes (push_loop fuel bytes).0 (push_loop fuel bytes).1
unfolding push_loop
push_loop-Scans zero bytes enough = absurd (omega arith)
push_loop-Scans (suc fuel) bytes enough =
    by_verdict (λ tail fits. push_loop-Scans fuel tail fits) (from_utf8 (length bytes) bytes).1 refl
      (from_utf8-IsReport (length bytes) bytes (omega arith))
      (from_utf8-Reads (length bytes) bytes (omega arith))
  where
    by_verdict :
        ((tail : List ℕ)
          → length tail < fuel
          → Scans tail (push_loop fuel tail).0 (push_loop fuel tail).1)
        → (v : Verdict) → (from_utf8 (length bytes) bytes).1 ≡ v
        → IsReport (length bytes) (from_utf8 (length bytes) bytes).0 v
        → Reads bytes (from_utf8 (length bytes) bytes).0 v
        → Scans bytes (push_loop (suc fuel) bytes).0 (push_loop (suc fuel) bytes).1
    by_verdict again valid e r h = rw (push_loop, e) h
    by_verdict again (invalid n) e (one, some_left) h =
        let k = (from_utf8 (length bytes) bytes).0 in
        let rest = again (drop (k + n) bytes) (omega (arith, length-drop (k + n) bytes)) in
        rw (push_loop, e)
          (subst (λ x. Scans bytes x (push_loop fuel (drop (k + n) bytes)).1)
            (sym (append_assoc (take k bytes) replacement (push_loop fuel (drop (k + n) bytes)).0))
            (h _ _ rest))
    by_verdict again cut_off e r h = rw (push_loop, e) h

-- The text of an answer.
abbrev pub text_in : Option (List ℕ) → List ℕ
text_in none = []
text_in (some s) = s

pub text_in-text_of : (s : List ℕ) → text_in (text_of s) ≡ s
unfolding text_of
text_in-text_of [] = refl
text_in-text_of (b ∷ s) = refl

-- `push` reads what was held back and the new bytes, one character after the other, each broken part
-- as a replacement character, up to the character that is cut off.
pub push-Scans :
    (pending bytes : List ℕ)
    → let out = push pending bytes in Scans (pending ++ bytes) (text_in out.0) out.1
unfolding push
push-Scans pending bytes =
    let all = pending ++ bytes in
    let out = push_loop (length all + 1) all in
    subst (λ x. Scans all x out.1) (sym (text_in-text_of out.0))
      (push_loop-Scans (length all + 1) all (omega arith))

-- A stream in chunks: the texts together, and what is held back at the end.
unfoldable pub push_chunks : List ℕ → List (List ℕ) → List ℕ × List ℕ
push_chunks pending [] = ([], pending)
push_chunks pending (chunk ∷ chunks) =
    let (text, left) = push pending chunk in
    let (texts, last) = push_chunks left chunks in (text_in text ++ texts, last)

ap2_pair : {a b : List ℕ} {c d : List ℕ} → a ≡ b → c ≡ d → Path (List ℕ × List ℕ) (a, c) (b, d)
ap2_pair p q = rw (p, q) refl

pub push_chunks-append :
    (pending : List ℕ) (xs ys : List (List ℕ))
    → let first = push_chunks pending xs in
      let later = push_chunks first.1 ys in
      push_chunks pending (xs ++ ys) ≡ (first.0 ++ later.0, later.1)
unfolding push_chunks
push_chunks-append pending [] ys = refl
push_chunks-append pending (chunk ∷ chunks) ys =
    let out = push pending chunk in
    let first = push_chunks out.1 chunks in
    let h = push_chunks-append out.1 chunks ys in
    ap2_pair
      (ap (λ (x : List ℕ × List ℕ). text_in out.0 ++ x.0) h
        ∙ sym (append_assoc (text_in out.0) first.0 (push_chunks first.1 ys).0))
      (ap (λ (x : List ℕ × List ℕ). x.1) h)

-- Nothing is held back but the start of a character.
abbrev pub IsHeld : List ℕ → Type 0
IsHeld pending = Scans pending [] pending

pub Scans-IsHeld : {xs t l : List ℕ} → Scans xs t l → IsHeld l
Scans-IsHeld ends = ends
Scans-IsHeld (cut b bytes q) = cut b bytes q
Scans-IsHeld (char b bytes n text left q h) = Scans-IsHeld h
Scans-IsHeld (bad b bytes n text left q h) = Scans-IsHeld h

pub push_chunks-Scans :
    (pending : List ℕ) (chunks : List (List ℕ))
    → IsHeld pending
    → let out = push_chunks pending chunks in Scans (pending ++ concat chunks) out.0 out.1
unfolding push_chunks
push_chunks-Scans pending [] held = subst (λ x. Scans x [] pending) (sym (append-nil pending)) held
push_chunks-Scans pending (chunk ∷ chunks) held =
    let first = push-Scans pending chunk in
    let out = push pending chunk in
    subst
      (λ x.
        Scans x (push_chunks pending (chunk ∷ chunks)).0 (push_chunks pending (chunk ∷ chunks)).1)
      (append_assoc pending chunk (concat chunks))
      (Scans-append (concat chunks) _ _ first (push_chunks-Scans out.1 chunks (Scans-IsHeld first)))

-- However a stream of bytes is cut into chunks, pushing the chunks one after the other gives the text
-- that pushing all of it at once gives, and holds the same bytes back.
pub push_chunks_lem :
    (chunks : List (List ℕ))
    → let whole = push [] (concat chunks) in push_chunks [] chunks ≡ (text_in whole.0, whole.1)
push_chunks_lem chunks =
    let (texts, lefts) =
      Scans_unique (push_chunks-Scans [] chunks ends) (push-Scans [] (concat chunks)) in
    ap2_pair texts lefts
