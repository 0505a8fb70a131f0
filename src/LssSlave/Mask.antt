-- ===== src/LssSlave/Mask.antt =====
-- `(x & mask) == (y & mask)` for the masks of the fastscan: a comparison of the high bits.
use Prim.Native.Nat.{bit_and-bitwise}
use canopen_node.Prelude.Digits.{lowest_digit}
use native.Mathlib.Nat.{
  pow-suc, pow-succ', mul_assoc, div-div-eq-div-mul, eq_of_mul-eq-mul_right, one-le-pow,
}
use canopen_node.LssSlave.Fastscan.{mask_of}
use canopen_node.Prelude.{
  ℕ, zero, suc, ◌+◌, ◌-◌, ◌*◌, ◌/◌, ◌%◌, ◌^◌, ◌<◌, ◌≡◌, refl, sym, ap, ap₂, ◌∙◌, true, ◌==◌, ==_iff,
  arith, min, bit_and,
}
use canopen_node.Prelude.Bits.{all_below, all_below_at}

-- The lowest bit of a conjunction is that of both numbers.
bit_and_halves : (a b : ℕ) → bit_and a b ≡ bit_and (a / 2) (b / 2) * 2 + min (a % 2) (b % 2)
bit_and_halves zero b =
    let whole = bit_and-bitwise 0 b in
    let rest = bit_and-bitwise 0 (b / 2) in omega (arith, whole, rest)
bit_and_halves (suc a) b =
    bit_and-bitwise (suc a) b
    ∙ lowest_digit (λ b. zero) min a b
    ∙ ap (λ d. d * 2 + min (suc a % 2) (b % 2)) (sym (bit_and-bitwise (suc a / 2) (b / 2)))

-- The word of `n` ones, and `b` zeros behind it.
abbrev ones : ℕ → ℕ
ones zero = 0
ones (suc n) = ones n * 2 + 1

abbrev shifted : ℕ → ℕ → ℕ
shifted n zero = ones n
shifted n (suc b) = shifted n b * 2

-- A number without its lowest `b` bits.
abbrev high : ℕ → ℕ → ℕ
high zero x = x
high (suc b) x = high b (x / 2) * 2

bit_and-ones : (n x : ℕ) → x < 2 ^ n → bit_and x (ones n) ≡ x
bit_and-ones zero x h = omega (arith, bit_and_halves x 0, bit_and-bitwise 0 0, none_left x h)
  where
    none_left : (x : ℕ) → x < 1 → bit_and x 0 ≡ 0
    none_left zero h = bit_and-bitwise 0 0
    none_left (suc x) h = absurd (omega arith)
bit_and-ones (suc n) x h = omega (
  arith,
  bit_and_halves x (ones n * 2 + 1),
  halve,
  bit_and-ones n (x / 2) (omega (arith, pow-suc 2 n)),
)
  where
    halve : bit_and (x / 2) ((ones n * 2 + 1) / 2) ≡ bit_and (x / 2) (ones n)
    halve = ap (bit_and (x / 2)) (omega arith)

bit_and-shifted : (n b x : ℕ) → x < 2 ^ (n + b) → bit_and x (shifted n b) ≡ high b x
bit_and-shifted n zero x h = bit_and-ones n x (rw (sym (plus_zero n)) h)
  where
    plus_zero : (n : ℕ) → n + 0 ≡ n
    plus_zero n = omega arith
bit_and-shifted n (suc b) x h =
    omega (arith, bit_and_halves x (shifted n b * 2), halve, bit_and-shifted n b (x / 2) half_lt)
  where
    halve : bit_and (x / 2) (shifted n b * 2 / 2) ≡ bit_and (x / 2) (shifted n b)
    halve = ap (bit_and (x / 2)) (omega arith)

    half_lt : x / 2 < 2 ^ (n + b)
    half_lt = omega (arith, pow-suc 2 (n + b), ap (λ k. 2 ^ k) (up n b), h)
      where
        up : (n b : ℕ) → n + suc b ≡ suc (n + b)
        up n b = omega arith

high-div : (b x : ℕ) → high b x ≡ x / 2 ^ b * 2 ^ b
high-div zero x = omega arith
high-div (suc b) x =
    ap (λ h. h * 2) (high-div b (x / 2))
    ∙ mul_assoc (x / 2 / 2 ^ b) (2 ^ b) 2
    ∙ ap₂ (λ q p. q * p) (quotient) (sym (pow-suc 2 b))
  where
    quotient : x / 2 / 2 ^ b ≡ x / 2 ^ suc b
    quotient = div-div-eq-div-mul x 2 (2 ^ b) ∙ ap (λ p. x / p) (sym (pow-succ' 2 b))

mask_table : all_below 32 (λ b. mask_of b == shifted (32 - b) b) ≡ true
unfolding all_below
mask_table = refl

-- Masked with `mask_of b`, a word keeps exactly its bits from `b` on.
pub bit_and-mask_of : (b x : ℕ) → b < 32 → x < 2 ^ 32 → bit_and x (mask_of b) ≡ x / 2 ^ b * 2 ^ b
bit_and-mask_of b x h k =
    ap (bit_and x) ((==_iff (mask_of b) (shifted (32 - b) b)).0 (all_below_at 32 _ b mask_table h))
    ∙ bit_and-shifted (32 - b) b x (rw (whole) k)
    ∙ high-div b x
  where
    whole : 32 - b + b ≡ 32
    whole = omega arith

==-equal : {a b c d : ℕ} → (a ≡ b → c ≡ d) → (c ≡ d → a ≡ b) → (a == b) ≡ (c == d)
==-equal {a} {b} {c} {d} f g = ground (arith, f, g)

-- Two words are equal under the mask exactly if their bits from `b` on are equal.
pub mask_of_lem :
    (b x y : ℕ)
    → b < 32
    → x < 2 ^ 32
    → y < 2 ^ 32
    → (bit_and x (mask_of b) == bit_and y (mask_of b)) ≡ (x / 2 ^ b == y / 2 ^ b)
mask_of_lem b x y h k l =
    rw (bit_and-mask_of b x h k, bit_and-mask_of b y h l) (==-equal cancel (ap (λ q. q * 2 ^ b)))
  where
    cancel : x / 2 ^ b * 2 ^ b ≡ y / 2 ^ b * 2 ^ b → x / 2 ^ b ≡ y / 2 ^ b
    cancel = eq_of_mul-eq-mul_right (2 ^ b) (one-le-pow b 2 (omega arith)) (x / 2 ^ b) (y / 2 ^ b)
