-- ===== src/Base/Texts.antt =====
-- Go strings as lists of bytes: equality, the order of `<`, and the decimal form of a number.
use Prim.Native.Nat.{ℕ, zero, suc, ◌+◌, ◌/◌, ◌%◌}
use Prim.Native.Char.{code}
use Prim.Native.String.{String}
use mathlib.Core.Path.{◌≡◌, refl}
use mathlib.Core.Logic.{◌↔◌, inl, inr}
use mathlib.Core.Bool.{Bool, true, false, ◌&&◌, ◌||◌}
use mathlib.Core.List.{List, [], ◌∷◌, ◌++◌}
use native.Mathlib.Omega.{arith}
use observability.Base.Tests.{ltb, leb, ◌==◌, if◌then◌else◌, Bool-cases}
use observability.Base.Lists.{All, All-append}

abbrev pub Text : Type 0
Text = List ℕ

-- The bytes of an ASCII literal.
abbrev pub codes : String → Text
codes String.[] = []
codes (String.◌∷◌ c s) = code c ∷ codes s

-- `==` on strings.
unfoldable pub text_eq : Text → Text → Bool
text_eq [] [] = true
text_eq [] (y ∷ ys) = false
text_eq (x ∷ xs) [] = false
text_eq (x ∷ xs) (y ∷ ys) = x == y && text_eq xs ys

-- `<` on strings: bytewise, a proper prefix first.
unfoldable pub text_lt : Text → Text → Bool
text_lt xs [] = false
text_lt [] (y ∷ ys) = true
text_lt (x ∷ xs) (y ∷ ys) = ltb x y || x == y && text_lt xs ys

pub text_eq_iff : (a b : Text) → (text_eq a b ≡ true) ↔ (a ≡ b)
unfolding text_eq
text_eq_iff [] [] = ground arith
text_eq_iff [] (y ∷ b) = ground arith
text_eq_iff (x ∷ a) [] = ground arith
text_eq_iff (x ∷ a) (y ∷ b) = ground (arith, text_eq_iff a b)

pub text_eq_refl : (a : Text) → text_eq a a ≡ true
text_eq_refl a = (text_eq_iff a a).1 refl

-- The digits of `n`; the first argument bounds their number, and `n + 1` is enough.
digits : ℕ → ℕ → Text
digits zero n = []
digits (suc f) n =
    let more = digits f (n / 10) ++ (48 + n % 10) ∷ [] in if ltb n 10 then (48 + n) ∷ [] else more

-- The `%d` of a number that is not negative.
unfoldable pub itoa : ℕ → Text
unfolding digits
itoa n = digits (n + 1) n

-- The decimal form of a number has digits alone.
abbrev is_digit : ℕ → Bool
is_digit c = leb b'0' c && leb c b'9'

digits-is_digit : (f n : ℕ) → All (λ c. is_digit c ≡ true) (digits f n)
unfolding digits
digits-is_digit zero n = tt
digits-is_digit (suc f) n = elim (Bool-cases (ltb n 10)) [
  | inl e ↦ rw e (ground arith, tt)
  | inr e ↦ rw e (
      All-append (λ c. is_digit c ≡ true) (digits f (n / 10)) ((48 + n % 10) ∷ [])
        (digits-is_digit f (n / 10)) (ground arith, tt))
]

pub itoa-digits : (n : ℕ) → All (λ c. (leb b'0' c && leb c b'9') ≡ true) (itoa n)
unfolding itoa
itoa-digits n = digits-is_digit (n + 1) n
