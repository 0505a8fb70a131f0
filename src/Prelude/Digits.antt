-- ===== src/Prelude/Digits.antt =====
-- The binary operations on numbers, one digit at a time: the count of digits to go may be any that
-- is large enough.
use Prim.Native.Nat.{ℕ, zero, suc, ◌+◌, ◌*◌, ◌/◌, ◌%◌, ◌≤◌, digits, bitwise}
use mathlib.Core.Path.{◌≡◌, refl, ap, ◌∙◌}
use native.Mathlib.Decide.{dec_lt}
use native.Mathlib.Omega.{arith}

module _ (z : ℕ → ℕ) (f : ℕ → ℕ → ℕ) where
  one_more : (n a b : ℕ) → a ≤ n → digits z f (suc n) a b ≡ digits z f n a b
  one_more zero zero b h = refl
  one_more zero (suc a) b h = absurd (omega arith)
  one_more (suc n) zero b h = refl
  one_more (suc n) (suc a) b h =
      ap (λ d. d * 2 + f (suc a % 2) (b % 2)) (one_more n (suc a / 2) (b / 2) (omega arith))

  enough : (n a b : ℕ) → a ≤ n → digits z f n a b ≡ bitwise z f a b
  enough zero zero b h = refl
  enough zero (suc a) b h = absurd (omega arith)
  enough (suc n) a b h = elim (dec_lt n a) [
    | no l ↦ one_more n a b (omega arith) ∙ enough n a b (omega arith)
    | yes l ↦ ap (λ k. digits z f k a b) {x = suc n} (omega arith)
  ]

  -- The lowest digit of a number that is not 0, and the others.
  pub lowest_digit :
      (x y : ℕ)
      → bitwise z f (suc x) y ≡ bitwise z f (suc x / 2) (y / 2) * 2 + f (suc x % 2) (y % 2)
  lowest_digit x y =
      ap (λ d. d * 2 + f (suc x % 2) (y % 2)) (enough x (suc x / 2) (y / 2) (omega arith))
