-- ===== src/Prelude/Parts.antt =====
-- Parts of a list: how `take` and `drop` compose, and lists of lists.
use Prim.Native.Nat.{ℕ, zero, suc, ◌+◌, ◌-◌, ◌≤◌}
use mathlib.Core.Path.{◌≡◌, refl, sym, ap, ◌∙◌}
use mathlib.Core.List.{List, [], ◌∷◌, ◌++◌, append_assoc}
use native.Mathlib.Omega.{arith}
use burn_lm.Prelude.Lists.{length, take, drop, take-append-drop}

module _ {ℓ} {A : Type ℓ} where
  pub take_le-append : (n : ℕ) (xs ys : List A) → n ≤ length xs → take n (xs ++ ys) ≡ take n xs
  take_le-append zero xs ys h = refl
  take_le-append (suc n) [] ys h = absurd (omega arith)
  take_le-append (suc n) (x ∷ xs) ys h = ap (◌∷◌ x) (take_le-append n xs ys (omega arith))

  pub take_all : (xs : List A) → take (length xs) xs ≡ xs
  take_all [] = refl
  take_all (x ∷ xs) = ap (◌∷◌ x) (take_all xs)

  pub drop-nil : (k : ℕ) → drop {A = A} k [] ≡ []
  drop-nil zero = refl
  drop-nil (suc k) = refl

  pub drop-drop : (a k n : ℕ) (xs : List A) → n ≡ a + k → drop k (drop a xs) ≡ drop n xs
  drop-drop zero k n xs q = ap (λ m. drop m xs) (omega arith)
  drop-drop (suc a) k zero xs q = absurd (omega arith)
  drop-drop (suc a) k (suc n) [] q = drop-nil k
  drop-drop (suc a) k (suc n) (x ∷ xs) q = drop-drop a k n xs (omega arith)

  -- A list from `a` on is its part up to `b` and the list from `b` on.
  pub drop_split :
      (a b : ℕ) (xs : List A) → a ≤ b → drop a xs ≡ take (b - a) (drop a xs) ++ drop b xs
  drop_split a b xs h =
      sym (take-append-drop (b - a) (drop a xs))
      ∙ ap (◌++◌ (take (b - a) (drop a xs))) (drop-drop a (b - a) b xs (omega arith))

  pub drop_all : (xs : List A) → drop (length xs) xs ≡ []
  drop_all [] = refl
  drop_all (x ∷ xs) = drop_all xs

  pub take-nil : (k : ℕ) → take {A = A} k [] ≡ []
  take-nil zero = refl
  take-nil (suc k) = refl

  pub take_add : (n k m : ℕ) (xs : List A) → m ≡ n + k → take m xs ≡ take n xs ++ take k (drop n xs)
  take_add zero k m xs q = ap (λ j. take j xs) (omega arith)
  take_add (suc n) k zero xs q = absurd (omega arith)
  take_add (suc n) k (suc m) [] q = sym (take-nil k)
  take_add (suc n) k (suc m) (x ∷ xs) q = ap (◌∷◌ x) (take_add n k m xs (omega arith))

  pub drop_le-append :
      (n : ℕ) (xs ys : List A) → n ≤ length xs → drop n (xs ++ ys) ≡ drop n xs ++ ys
  drop_le-append zero xs ys h = refl
  drop_le-append (suc n) [] ys h = absurd (omega arith)
  drop_le-append (suc n) (x ∷ xs) ys h = drop_le-append n xs ys (omega arith)

abbrev pub concat : List (List ℕ) → List ℕ
concat [] = []
concat (s ∷ texts) = s ++ concat texts

pub concat-append : (xs ys : List (List ℕ)) → concat (xs ++ ys) ≡ concat xs ++ concat ys
concat-append [] ys = refl
concat-append (x ∷ xs) ys =
    ap (λ z. x ++ z) (concat-append xs ys) ∙ sym (append_assoc x (concat xs) (concat ys))
