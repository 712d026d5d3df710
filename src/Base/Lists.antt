-- ===== src/Base/Lists.antt =====
-- Lists measured and cut by native numbers, under the library's names.
use Prim.Native.Nat.{ℕ, zero, suc, ◌+◌, ◌-◌, ◌≤◌}
use mathlib.Core.Path.{◌≡◌, refl, ap}
use mathlib.Core.List.{List, [], ◌∷◌, ◌++◌}
use native.Mathlib.Omega.{arith}

abbrev pub All {ℓ κ} : {A : Type ℓ} → (A → Type κ) → List A → Type κ
All P [] = Unit
All P (x ∷ xs) = P x × All P xs

module _ {ℓ} {A : Type ℓ} where
  abbrev pub length : List A → ℕ
  length [] = 0
  length (x ∷ xs) = suc (length xs)

  abbrev pub take : ℕ → List A → List A
  take zero xs = []
  take (suc n) [] = []
  take (suc n) (x ∷ xs) = x ∷ take n xs

  abbrev pub drop : ℕ → List A → List A
  drop zero xs = xs
  drop (suc n) [] = []
  drop (suc n) (x ∷ xs) = drop n xs

  pub length-append : (xs ys : List A) → length (xs ++ ys) ≡ length xs + length ys
  length-append [] ys = omega arith
  length-append (x ∷ xs) ys = omega (arith, length-append xs ys)

  pub length-drop : (n : ℕ) (xs : List A) → length (drop n xs) ≡ length xs - n
  length-drop zero xs = omega arith
  length-drop (suc n) [] = omega arith
  length-drop (suc n) (x ∷ xs) = omega (arith, length-drop n xs)

  -- The end `m` is a variable with an equation, since `n + k` is stuck at a variable.
  pub drop-drop : (n k m : ℕ) (xs : List A) → n + k ≡ m → drop k (drop n xs) ≡ drop m xs
  drop-drop zero k m xs e = let e' : k ≡ m = omega arith in rw e'
  drop-drop (suc n) zero zero [] e = refl
  drop-drop (suc n) zero (suc m) [] e = refl
  drop-drop (suc n) (suc k) zero [] e = absurd (omega arith)
  drop-drop (suc n) (suc k) (suc m) [] e = refl
  drop-drop (suc n) k zero (x ∷ xs) e = absurd (omega arith)
  drop-drop (suc n) k (suc m) (x ∷ xs) e = drop-drop n k m xs (omega arith)

  pub take_add : (n k m : ℕ) (xs : List A) → n + k ≡ m → take n xs ++ take k (drop n xs) ≡ take m xs
  take_add zero k m xs e = let e' : k ≡ m = omega arith in rw e'
  take_add (suc n) zero zero [] e = refl
  take_add (suc n) zero (suc m) [] e = refl
  take_add (suc n) (suc k) zero [] e = absurd (omega arith)
  take_add (suc n) (suc k) (suc m) [] e = refl
  take_add (suc n) k zero (x ∷ xs) e = absurd (omega arith)
  take_add (suc n) k (suc m) (x ∷ xs) e = ap (◌∷◌ x) (take_add n k m xs (omega arith))

  pub take-append : (n : ℕ) (xs ys : List A) → n ≤ length xs → take n (xs ++ ys) ≡ take n xs
  take-append zero xs ys h = refl
  take-append (suc n) [] ys h = elim h [ ]
  take-append (suc n) (x ∷ xs) ys h = ap (◌∷◌ x) (take-append n xs ys (omega arith))

  pub drop-append : (n : ℕ) (xs ys : List A) → n ≤ length xs → drop n (xs ++ ys) ≡ drop n xs ++ ys
  drop-append zero xs ys h = refl
  drop-append (suc n) [] ys h = elim h [ ]
  drop-append (suc n) (x ∷ xs) ys h = drop-append n xs ys (omega arith)

  pub take-append-drop : (n : ℕ) (xs : List A) → take n xs ++ drop n xs ≡ xs
  take-append-drop zero xs = refl
  take-append-drop (suc n) [] = refl
  take-append-drop (suc n) (x ∷ xs) = ap (◌∷◌ x) (take-append-drop n xs)

  pub All-drop {κ} : (P : A → Type κ) (n : ℕ) (xs : List A) → All P xs → All P (drop n xs)
  All-drop P zero xs h = h
  All-drop P (suc n) [] h = h
  All-drop P (suc n) (x ∷ xs) h = All-drop P n xs h.1

module _ {ℓ κ} {A : Type ℓ} (P : A → Type κ) where
  pub All-append : (xs ys : List A) → All P xs → All P ys → All P (xs ++ ys)
  All-append [] ys h k = k
  All-append (x ∷ xs) ys h k = (h.0, All-append xs ys h.1 k)
