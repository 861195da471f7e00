-- ===== src/Base/Tails.antt =====
-- The end of a list: Python's `xs[-n:]` and its bounded `deque`.
use local_coding_agent.Base.Lists.{length, drop, sum, length-append, sum-append}
use Prim.Native.Nat.{ℕ, zero, suc, ◌+◌, ◌-◌, ◌≤◌}
use mathlib.Core.Path.{◌≡◌, refl, sym, ap, ◌∙◌}
use mathlib.Core.List.{List, [], ◌∷◌, ◌++◌, reverse, reverse-cons}
use native.Mathlib.Omega.{arith}

module _ {ℓ} {A : Type ℓ} where
  -- `xs[-n:]` for a positive `n`, and what a `deque(maxlen=n)` keeps
  abbrev pub last_of : ℕ → List A → List A
  last_of n xs = drop (length xs - n) xs

  pub length-drop : (n : ℕ) (xs : List A) → length (drop n xs) ≡ length xs - n
  length-drop zero xs = omega arith
  length-drop (suc n) [] = omega arith
  length-drop (suc n) (x ∷ xs) = omega (arith, length-drop n xs)

  pub length-last_of : (n : ℕ) (xs : List A) → length (last_of n xs) ≤ n
  length-last_of n xs = omega (arith, length-drop (length xs - n) xs)

  drop-append-le : (n : ℕ) (xs ys : List A) → n ≤ length xs → drop n (xs ++ ys) ≡ drop n xs ++ ys
  drop-append-le zero xs ys h = refl
  drop-append-le (suc n) [] ys h = absurd (omega (arith, h))
  drop-append-le (suc n) (x ∷ xs) ys h = drop-append-le n xs ys (omega (arith, h))

  pub drop_nil : (n : ℕ) → [] ≡ drop {A = A} n []
  drop_nil zero = refl
  drop_nil (suc n) = refl

  drop_eq : (m n : ℕ) (xs : List A) → m ≡ n → drop m xs ≡ drop n xs
  drop_eq m n xs e = ap (λ k. drop k xs) e

  drop-drop : (m n : ℕ) (xs : List A) → drop m (drop n xs) ≡ drop (n + m) xs
  drop-drop m zero xs = drop_eq m (0 + m) xs (omega arith)
  drop-drop zero (suc n) [] = drop_nil (suc n + 0)
  drop-drop (suc m) (suc n) [] = drop_nil (suc n + suc m)
  drop-drop m (suc n) (x ∷ xs) =
      drop-drop m n xs ∙ drop_eq (suc (n + m)) (suc n + m) (x ∷ xs) (omega arith)

  -- A bounded queue that takes one more keeps what the unbounded one would keep.
  pub last_of-snoc :
      (n : ℕ) (xs : List A) (x : A) → last_of n (last_of n xs ++ x ∷ []) ≡ last_of n (xs ++ x ∷ [])
  last_of-snoc n xs x =
      let l = length xs in
      let kept : last_of n xs ++ x ∷ [] ≡ drop (l - n) (xs ++ x ∷ []) =
        sym (drop-append-le (l - n) xs (x ∷ []) (omega arith)) in
      ap (last_of n) kept
      ∙ drop-drop (length (drop (l - n) (xs ++ x ∷ [])) - n) (l - n) (xs ++ x ∷ [])
      ∙ drop_eq (l - n + (length (drop (l - n) (xs ++ x ∷ [])) - n)) (length (xs ++ x ∷ []) - n)
          (xs ++ x ∷ [])
          (omega (arith, length-drop (l - n) (xs ++ x ∷ []), length-append xs (x ∷ [])))

  pub length-reverse : (xs : List A) → length (reverse xs) ≡ length xs
  length-reverse [] = refl
  length-reverse (x ∷ xs) =
      ap length (reverse-cons x xs)
      ∙ omega (arith, length-append (reverse xs) (x ∷ []), length-reverse xs)

  pub sum-reverse : (f : A → ℕ) (xs : List A) → sum f (reverse xs) ≡ sum f xs
  sum-reverse f [] = refl
  sum-reverse f (x ∷ xs) =
      ap (sum f) (reverse-cons x xs)
      ∙ omega (arith, sum-append f (reverse xs) (x ∷ []), sum-reverse f xs)

  pub drop-append : (xs ys : List A) → drop (length xs) (xs ++ ys) ≡ ys
  drop-append [] ys = refl
  drop-append (x ∷ xs) ys = drop-append xs ys
