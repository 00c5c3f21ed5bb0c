-- ===== src/Utf8/Scan.antt =====
-- A specification of the assembler by relation: the bytes read one character after the other.
use burn_lm.Prelude.{
  ℕ, zero, suc, ◌+◌, ◌≤◌, ◌≡◌, refl, sym, ap, ◌∙◌, Bool, true, false, List, [], ◌∷◌, ◌++◌, arith,
  length, take, drop, append_assoc, take_le-append, drop_le-append, if◌then◌else◌, ltb, ◌==◌, subst,
}
use burn_lm.Utf8.{
  Start, complete, broken, incomplete, continue_with, second, start_of, between, replacement,
}

-- Bytes, the text that they make, and what is held back of them.
pub data Scans : List ℕ → List ℕ → List ℕ → Type 0 where
  ends : Scans [] [] []
  cut : (b : ℕ) (bytes : List ℕ) → start_of b bytes ≡ incomplete → Scans (b ∷ bytes) [] (b ∷ bytes)
  char :
      (b : ℕ) (bytes : List ℕ) (n : ℕ) (text left : List ℕ)
      → start_of b bytes ≡ complete n
      → Scans (drop n (b ∷ bytes)) text left
      → Scans (b ∷ bytes) (take n (b ∷ bytes) ++ text) left
  bad :
      (b : ℕ) (bytes : List ℕ) (n : ℕ) (text left : List ℕ)
      → start_of b bytes ≡ broken n
      → Scans (drop n (b ∷ bytes)) text left
      → Scans (b ∷ bytes) (replacement ++ text) left

-- More bytes behind do not change how bytes start, unless the character was cut off.
abbrev pub IsStable : ℕ → Start → Start → Type 0
IsStable limit (complete n) s = (s ≡ complete n) × (n ≤ limit)
IsStable limit (broken n) s = (s ≡ broken n) × (n ≤ limit)
IsStable limit incomplete s = Unit

if-IsStable :
    (b : Bool) (limit : ℕ) (s t s' t' : Start)
    → IsStable limit s s'
    → IsStable limit t t'
    → IsStable limit (if b then s else t) (if b then s' else t')
if-IsStable true limit s t s' t' h other = h
if-IsStable false limit s t s' t' h other = other

IsStable-mono :
    (limit limit' : ℕ) (s s' : Start) → limit ≤ limit' → IsStable limit s s' → IsStable limit' s s'
IsStable-mono limit limit' (complete n) s' le (q, h) = (q, omega arith)
IsStable-mono limit limit' (broken n) s' le (q, h) = (q, omega arith)
IsStable-mono limit limit' incomplete s' le h = tt

continue_with-IsStable :
    (n seen : ℕ) (bytes more : List ℕ)
    → IsStable
        (seen + length bytes)
        (continue_with n seen bytes)
        (continue_with n seen (bytes ++ more))
unfolding continue_with
continue_with-IsStable zero seen bytes more = (refl, omega arith)
continue_with-IsStable (suc n) seen [] more = tt
continue_with-IsStable (suc n) seen (byte ∷ bytes) more =
    if-IsStable (between 128 191 byte) (seen + suc (length bytes))
      (continue_with n (suc seen) bytes) (broken seen) (continue_with n (suc seen) (bytes ++ more))
      (broken seen)
      (IsStable-mono (suc seen + length bytes) (seen + suc (length bytes)) _ _ (omega arith)
        (continue_with-IsStable n (suc seen) bytes more))
      (refl, omega arith)

second-IsStable :
    (low high n : ℕ) (bytes more : List ℕ)
    → IsStable (suc (length bytes)) (second low high n bytes) (second low high n (bytes ++ more))
unfolding second
second-IsStable low high n [] more = tt
second-IsStable low high n (byte ∷ bytes) more =
    if-IsStable (between low high byte) (suc (suc (length bytes))) (continue_with n 2 bytes)
      (broken 1) (continue_with n 2 (bytes ++ more)) (broken 1)
      (IsStable-mono (2 + length bytes) (suc (suc (length bytes))) _ _ (omega arith)
        (continue_with-IsStable n 2 bytes more))
      (refl, omega arith)

pub start_of-IsStable :
    (first : ℕ) (rest more : List ℕ)
    → IsStable (suc (length rest)) (start_of first rest) (start_of first (rest ++ more))
unfolding start_of
start_of-IsStable first rest more =
    let n = suc (length rest) in
    if-IsStable (ltb first 128) n _ _ _ _ (refl, omega arith)
      (if-IsStable (between 194 223 first) n _ _ _ _ (second-IsStable 128 191 0 rest more) (
        if-IsStable (first == 224) n _ _ _ _ (second-IsStable 160 191 1 rest more) (
          if-IsStable (first == 237) n _ _ _ _ (second-IsStable 128 159 1 rest more) (
            if-IsStable (between 225 239 first) n _ _ _ _ (second-IsStable 128 191 1 rest more) (
              if-IsStable (first == 240) n _ _ _ _ (second-IsStable 144 191 2 rest more) (
                if-IsStable (between 241 243 first) n _ _ _ _ (second-IsStable 128 191 2 rest more)
                  (if-IsStable (first == 244) n _ _ _ _ (second-IsStable 128 143 2 rest more)
                    (refl, omega arith))))))))

-- Bytes that are read in two parts, what the first held back before the second.
pub Scans-append :
    {xs t l : List ℕ} (ys t' l' : List ℕ)
    → Scans xs t l
    → Scans (l ++ ys) t' l'
    → Scans (xs ++ ys) (t ++ t') l'
Scans-append ys t' l' ends s = s
Scans-append ys t' l' (cut b bytes q) s = s
Scans-append ys t' l' (char b bytes n text left q h) s =
    let (same, le) =
      subst (λ x. IsStable (suc (length bytes)) x (start_of b (bytes ++ ys))) q
        (start_of-IsStable b bytes ys) in
    subst (λ x. Scans (b ∷ bytes ++ ys) x l')
      (ap (λ x. x ++ (text ++ t')) (take_le-append n (b ∷ bytes) ys le)
        ∙ sym (append_assoc (take n (b ∷ bytes)) text t'))
      (char b (bytes ++ ys) n (text ++ t') l' same (
        subst (λ x. Scans x (text ++ t') l') (sym (drop_le-append n (b ∷ bytes) ys le))
          (Scans-append ys t' l' h s)))
Scans-append ys t' l' (bad b bytes n text left q h) s =
    let (same, le) =
      subst (λ x. IsStable (suc (length bytes)) x (start_of b (bytes ++ ys))) q
        (start_of-IsStable b bytes ys) in
    subst (λ x. Scans (b ∷ bytes ++ ys) x l') (sym (append_assoc replacement text t'))
      (bad b (bytes ++ ys) n (text ++ t') l' same (
        subst (λ x. Scans x (text ++ t') l') (sym (drop_le-append n (b ∷ bytes) ys le))
          (Scans-append ys t' l' h s)))

-- What bytes make does not depend on how they are read.
pub Scans_unique : {xs t l t' l' : List ℕ} → Scans xs t l → Scans xs t' l' → (t ≡ t') × (l ≡ l')
Scans_unique ends ends = (refl, refl)
Scans_unique (cut b bytes q) (cut b' bytes' q') = (refl, refl)
Scans_unique (cut b bytes q) (char b' bytes' n text left q' h) = cc
Scans_unique (cut b bytes q) (bad b' bytes' n text left q' h) = cc
Scans_unique (char b bytes n text left q h) (cut b' bytes' q') = cc
Scans_unique (char b bytes n text left q h) (char b' bytes' n' text' left' q' h') =
    let len : n' ≡ n = cc in
    let (texts, lefts) =
      Scans_unique h (subst (λ k. Scans (drop k (b ∷ bytes)) text' left') len h') in
    (
      ap (λ x. take n (b ∷ bytes) ++ x) texts ∙ ap (λ k. take k (b ∷ bytes) ++ text') (sym len),
      lefts,
    )
Scans_unique (char b bytes n text left q h) (bad b' bytes' n' text' left' q' h') = cc
Scans_unique (bad b bytes n text left q h) (cut b' bytes' q') = cc
Scans_unique (bad b bytes n text left q h) (char b' bytes' n' text' left' q' h') = cc
Scans_unique (bad b bytes n text left q h) (bad b' bytes' n' text' left' q' h') =
    let len : n' ≡ n = cc in
    let (texts, lefts) =
      Scans_unique h (subst (λ k. Scans (drop k (b ∷ bytes)) text' left') len h') in
    (ap (λ x. replacement ++ x) texts, lefts)
