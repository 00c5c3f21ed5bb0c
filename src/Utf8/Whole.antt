-- ===== src/Utf8/Whole.antt =====
-- Valid text comes out as it went in, and a whole stream as `from_utf8_lossy` would decode it.
use burn_lm.Prelude.{
  ℕ, zero, suc, ◌+◌, ◌-◌, ◌<◌, ◌≤◌, ◌≡◌, refl, sym, ap, ◌∙◌, List, [], ◌∷◌, ◌++◌, arith, length,
  take, drop, append_assoc, append-nil, length-drop, take_all, concat, subst,
}
use burn_lm.Utf8.{
  Start, complete, broken, incomplete, start_of, replacement, Verdict, valid, cut_off, invalid,
  from_utf8, lossy, finish,
}
use burn_lm.Utf8.Pending.{IsReport, from_utf8-IsReport}
use burn_lm.Utf8.Scan.{Scans, ends, IsStable, start_of-IsStable, Scans_unique}
use burn_lm.Utf8.Chunks.{
  Reads, from_utf8-Reads, push_chunks, push_chunks-Scans, text_in, text_in-text_of, Scans-IsHeld,
}

-- How far a verdict without an error reaches.
abbrev EndsAt : ℕ → ℕ → Verdict → Type 0
EndsAt len k valid = k ≡ len
EndsAt len k cut_off = k < len
EndsAt len k (invalid n) = Unit

EndsAt-later : (len n k : ℕ) (v : Verdict) → n ≤ len → EndsAt (len - n) k v → EndsAt len (n + k) v
EndsAt-later len n k valid le h = omega arith
EndsAt-later len n k cut_off le h = omega arith
EndsAt-later len n k (invalid m) le h = tt

from_utf8-EndsAt :
    (fuel : ℕ) (bytes : List ℕ)
    → EndsAt (length bytes) (from_utf8 fuel bytes).0 (from_utf8 fuel bytes).1
unfolding from_utf8
from_utf8-EndsAt fuel [] = refl
from_utf8-EndsAt zero (byte ∷ bytes) = omega arith
from_utf8-EndsAt (suc fuel) (byte ∷ bytes) =
    by_start (from_utf8-EndsAt fuel) (start_of byte bytes) refl (start_of-IsStable byte bytes [])
  where
    by_start :
        ((tail : List ℕ) → EndsAt (length tail) (from_utf8 fuel tail).0 (from_utf8 fuel tail).1)
        → (s : Start) → start_of byte bytes ≡ s
        → IsStable (suc (length bytes)) (start_of byte bytes) (start_of byte (bytes ++ []))
        → EndsAt
            (suc (length bytes))
            (from_utf8 (suc fuel) (byte ∷ bytes)).0
            (from_utf8 (suc fuel) (byte ∷ bytes)).1
    by_start again (complete n) e stable =
        let tail = drop n (byte ∷ bytes) in
        let h =
          subst (λ x. EndsAt x (from_utf8 fuel tail).0 (from_utf8 fuel tail).1)
            (length-drop n (byte ∷ bytes)) (again tail) in
        let (same, le) =
          subst (λ x. IsStable (suc (length bytes)) x (start_of byte (bytes ++ []))) e stable in
        rw (from_utf8, e)
          (EndsAt-later (suc (length bytes)) n (from_utf8 fuel tail).0 (from_utf8 fuel tail).1 le h)
    by_start again (broken n) e stable = rw (from_utf8, e) tt
    by_start again incomplete e stable = rw (from_utf8, e) (omega arith)

-- Text that `from_utf8` accepts, cut anywhere into chunks, comes out of `push` as it went in, with
-- nothing held back at the end.
pub push_chunks-valid :
    (chunks : List (List ℕ))
    → (from_utf8 (length (concat chunks)) (concat chunks)).1 ≡ valid
    → push_chunks [] chunks ≡ (concat chunks, [])
push_chunks-valid chunks ok =
    let s : List ℕ = concat chunks in
    let k : ℕ = (from_utf8 (length s) s).0 in
    let reads : Scans s (take k s) [] =
      subst (Reads s k) ok (from_utf8-Reads (length s) s (omega arith)) in
    let all : k ≡ length s = subst (EndsAt (length s) k) ok (from_utf8-EndsAt (length s) s) in
    let (texts, lefts) = Scans_unique (push_chunks-Scans [] chunks ends) reads in
    rw (texts, lefts, all, take_all s) refl

-- What is shown of the bytes held back at the end of a stream.
abbrev last_text : List ℕ → List ℕ
last_text [] = []
last_text (b ∷ bytes) = replacement

last_text_pos : (l : List ℕ) → 0 < length l → last_text l ≡ replacement
last_text_pos [] h = absurd (omega arith)
last_text_pos (b ∷ l) h = refl

-- The one-shot decoding reads the same characters.
abbrev IsLossy : List ℕ → List ℕ → Type 0
IsLossy bytes out = (text left : List ℕ) × Scans bytes text left × (out ≡ text ++ last_text left)

lossy-IsLossy : (fuel : ℕ) (bytes : List ℕ) → length bytes < fuel → IsLossy bytes (lossy fuel bytes)
unfolding lossy
lossy-IsLossy zero bytes enough = absurd (omega arith)
lossy-IsLossy (suc fuel) bytes enough =
    by_verdict (λ tail fits. lossy-IsLossy fuel tail fits) (from_utf8 (length bytes) bytes).1 refl
      (from_utf8-IsReport (length bytes) bytes (omega arith))
      (from_utf8-Reads (length bytes) bytes (omega arith)) (from_utf8-EndsAt (length bytes) bytes)
  where
    by_verdict :
        ((tail : List ℕ) → length tail < fuel → IsLossy tail (lossy fuel tail))
        → (v : Verdict) → (from_utf8 (length bytes) bytes).1 ≡ v
        → IsReport (length bytes) (from_utf8 (length bytes) bytes).0 v
        → Reads bytes (from_utf8 (length bytes) bytes).0 v
        → EndsAt
            (length bytes)
            (from_utf8 (length bytes) bytes).0
            (from_utf8 (length bytes) bytes).1
        → IsLossy bytes (lossy (suc fuel) bytes)
    by_verdict again valid e r h at =
        let k = (from_utf8 (length bytes) bytes).0 in
        let out : lossy (suc fuel) bytes ≡ take k bytes = rw (lossy, e) refl in
        (take k bytes, [], h, out ∙ sym (append-nil (take k bytes)))
    by_verdict again (invalid n) e (one, some_left) h at =
        let k = (from_utf8 (length bytes) bytes).0 in
        let (text, left, s, q) =
          again (drop (k + n) bytes) (omega (arith, length-drop (k + n) bytes)) in
        let out : lossy (suc fuel) bytes
            ≡ take k bytes ++ replacement ++ lossy fuel (drop (k + n) bytes) =
          rw (lossy, e) refl in
        (
          take k bytes ++ (replacement ++ text),
          left,
          h text left s,
          out
              ∙ append_assoc (take k bytes) replacement (lossy fuel (drop (k + n) bytes))
              ∙ ap (λ x. take k bytes ++ (replacement ++ x)) q
              ∙ ap (λ x. take k bytes ++ x) (sym (append_assoc replacement text (last_text left)))
              ∙ sym (append_assoc (take k bytes) (replacement ++ text) (last_text left)),
        )
    by_verdict again cut_off e r h at =
        let k = (from_utf8 (length bytes) bytes).0 in
        let short : k < length bytes = subst (EndsAt (length bytes) k) e at in
        let out : lossy (suc fuel) bytes ≡ take k bytes ++ replacement = rw (lossy, e) refl in
        (
          take k bytes,
          drop k bytes,
          h,
          out
              ∙ ap (λ x. take k bytes ++ x)
                  (sym (last_text_pos (drop k bytes) (omega (arith, length-drop k bytes)))),
        )

finish_text :
    (bytes text left : List ℕ)
    → Scans bytes text left
    → text_in (finish bytes) ≡ text ++ last_text left
unfolding finish
finish_text bytes text left s =
    let (text', left', s', q) = lossy-IsLossy (length bytes + 1) bytes (omega arith) in
    let (texts, lefts) = Scans_unique s' s in
    text_in-text_of (lossy (length bytes + 1) bytes)
    ∙ q
    ∙ ap (λ x. x ++ last_text left') texts
    ∙ ap (λ x. text ++ last_text x) lefts

-- A stream that is pushed in chunks and finished gives, whatever its bytes, the text of a buffer that
-- holds all of them and is finished at once.
pub finish-push_chunks :
    (chunks : List (List ℕ))
    → let out = push_chunks [] chunks in
      out.0 ++ text_in (finish out.1) ≡ text_in (finish (concat chunks))
finish-push_chunks chunks =
    let out = push_chunks [] chunks in
    let s : Scans (concat chunks) out.0 out.1 = push_chunks-Scans [] chunks ends in
    ap (λ x. out.0 ++ x) (finish_text out.1 [] out.1 (Scans-IsHeld s))
    ∙ sym (finish_text (concat chunks) out.0 out.1 s)
