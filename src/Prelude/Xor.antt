-- ===== src/Prelude/Xor.antt =====
-- `bit_xor` at variables: its lowest digit, its range, and words moved up by a byte.
use Prim.Native.Nat.{ℕ, zero, suc, ◌+◌, ◌*◌, ◌/◌, ◌%◌, ◌^◌, ◌<◌, bit_xor, bit_xor-bitwise, differ}
use mathlib.Core.Path.{◌≡◌, refl, sym, ap, ◌∙◌}
use native.Mathlib.Nat.{pow-suc}
use canopen_node.Prelude.Digits.{lowest_digit}
use native.Mathlib.Omega.{arith}

pub zero-bit_xor : (b : ℕ) → bit_xor 0 b ≡ b
zero-bit_xor b = bit_xor-bitwise 0 b

-- The lowest bit of a sum modulo two is that of the lowest bits.
pub bit_xor_halves : (a b : ℕ) → bit_xor a b ≡ bit_xor (a / 2) (b / 2) * 2 + differ (a % 2) (b % 2)
bit_xor_halves zero b = omega (arith, zero-bit_xor b, zero-bit_xor (b / 2))
bit_xor_halves (suc a) b =
    bit_xor-bitwise (suc a) b
    ∙ lowest_digit (λ b. b) differ a b
    ∙ ap (λ d. d * 2 + differ (suc a % 2) (b % 2)) (sym (bit_xor-bitwise (suc a / 2) (b / 2)))

differ-lt : (x y : ℕ) → x < 2 → y < 2 → differ x y < 2
differ-lt zero y p q = q
differ-lt (suc x) zero p q = p
differ-lt (suc x) (suc y) p q = differ-lt x y (omega arith) (omega arith)

differ-zero : (x : ℕ) → differ x 0 ≡ x
differ-zero zero = refl
differ-zero (suc x) = refl

pub bit_xor-lt : (k a b : ℕ) → a < 2 ^ k → b < 2 ^ k → bit_xor a b < 2 ^ k
bit_xor-lt zero a b p q =
    omega (arith, bit_xor_halves a b, bit_xor-bitwise 0 0, zero-bit_xor b, small a b p q)
  where
    small : (a b : ℕ) → a < 1 → b < 1 → bit_xor a b ≡ 0
    small zero zero p q = refl
    small zero (suc b) p q = absurd (omega arith)
    small (suc a) b p q = absurd (omega arith)
bit_xor-lt (suc k) a b p q = omega (
  arith,
  pow-suc 2 k,
  bit_xor_halves a b,
  differ-lt (a % 2) (b % 2) (omega arith) (omega arith),
  bit_xor-lt k (a / 2) (b / 2) (omega (arith, pow-suc 2 k)) (omega (arith, pow-suc 2 k)),
)

xor-double : (a b : ℕ) → bit_xor a (b * 2) ≡ bit_xor (a / 2) b * 2 + a % 2
xor-double a b = rw (bit_xor_halves a (b * 2), halve b, even b) (omega (arith, differ-zero (a % 2)))
  where
    halve : (b : ℕ) → b * 2 / 2 ≡ b
    halve b = omega arith

    even : (b : ℕ) → b * 2 % 2 ≡ 0
    even b = omega arith

-- A byte that is added into the upper half of a word meets only that half.
pub xor-up_by_byte : (a b : ℕ) → bit_xor a (b * 256) ≡ bit_xor (a / 256) b * 256 + a % 256
xor-up_by_byte a b = up_8
  where
    up_2 : (a b : ℕ) → bit_xor a (b * 4) ≡ bit_xor (a / 4) b * 4 + a % 4
    up_2 a b = rw (four b, xor-double a (b * 2), xor-double (a / 2) b, quarter a) (omega arith)
      where
        four : (b : ℕ) → b * 4 ≡ b * 2 * 2
        four b = omega arith

        quarter : (a : ℕ) → a / 2 / 2 ≡ a / 4
        quarter a = omega arith

    up_4 : (a b : ℕ) → bit_xor a (b * 16) ≡ bit_xor (a / 16) b * 16 + a % 16
    up_4 a b = rw (four b, up_2 a (b * 4), up_2 (a / 4) b, quarter a) (omega arith)
      where
        four : (b : ℕ) → b * 16 ≡ b * 4 * 4
        four b = omega arith

        quarter : (a : ℕ) → a / 4 / 4 ≡ a / 16
        quarter a = omega arith

    up_8 : bit_xor a (b * 256) ≡ bit_xor (a / 256) b * 256 + a % 256
    up_8 = rw (four, up_4 a (b * 16), up_4 (a / 16) b, quarter) (omega arith)
      where
        four : b * 256 ≡ b * 16 * 16
        four = omega arith

        quarter : a / 16 / 16 ≡ a / 256
        quarter = omega arith

-- By its lowest digit, for all numbers up to a bound.
bit_xor-zero_up_to : (bound a : ℕ) → a < bound → bit_xor a 0 ≡ a
bit_xor-zero_up_to zero a h = absurd (omega arith)
bit_xor-zero_up_to (suc bound) zero h = zero-bit_xor 0
bit_xor-zero_up_to (suc bound) (suc a) h =
    let rest = bit_xor-zero_up_to bound (suc a / 2) (omega arith) in
    omega (arith, bit_xor_halves (suc a) 0, rest, differ-zero (suc a % 2))

pub bit_xor-zero : (a : ℕ) → bit_xor a 0 ≡ a
bit_xor-zero a = bit_xor-zero_up_to (suc a) a (omega arith)
