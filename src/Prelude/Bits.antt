-- ===== src/Prelude/Bits.antt =====
-- The bits of a byte, and sums of bits modulo two, checked over all values of their range.
use Prim.Native.Nat.{ℕ, zero, suc, ◌-◌, ◌^◌, ◌<◌, bit_and, bit_or}
use mathlib.Core.Path.{◌≡◌, refl}
use mathlib.Core.Bool.{Bool, true, false, ◌&&◌}
use native.Mathlib.Omega.{arith}
use canopen_node.Prelude.Tests.{◌==◌, ltb, if◌then◌else◌}

-- The test `(byte & (1 << k)) != 0`.
abbrev pub has_bit : ℕ → ℕ → Bool
has_bit byte k = if bit_and byte (2 ^ k) == 0 then false else true

-- `byte | (1 << k)` and `byte & ~(1 << k)`.
abbrev pub set_bit : ℕ → ℕ → ℕ
set_bit byte k = bit_or byte (2 ^ k)

abbrev pub clear_bit : ℕ → ℕ → ℕ
clear_bit byte k = bit_and byte (255 - 2 ^ k)

unfoldable pub same : Bool → Bool → Bool
same true b = b
same false true = false
same false false = true

pub same-eq : (a b : Bool) → same a b ≡ true → a ≡ b
unfolding same
same-eq a b h = ground arith

unfoldable pub all_below : ℕ → (ℕ → Bool) → Bool
all_below zero p = true
all_below (suc n) p = p n && all_below n p

-- A test that has been run over all numbers below a bound holds of each of them.
pub all_below_at :
    (bound : ℕ) (test : ℕ → Bool) (k : ℕ) → all_below bound test ≡ true → k < bound → test k ≡ true
unfolding all_below
all_below_at zero test k run below = absurd (omega arith)
all_below_at (suc bound) test k run below =
    let rest = all_below_at bound test k in ground (arith, rest)

-- A law of a byte and two bit numbers holds if it holds in every case.
cube : (ℕ → ℕ → ℕ → Bool) → Bool
unfolding all_below
cube p = all_below 8 (λ k. all_below 8 (λ j. all_below 256 (λ x. p x k j)))

cube_sound :
    (p : ℕ → ℕ → ℕ → Bool) (x k j : ℕ) → cube p ≡ true → x < 256 → k < 8 → j < 8 → p x k j ≡ true
unfolding cube
cube_sound p x k j h hx hk hj =
    all_below_at 256 (λ x. p x k j) x
      (all_below_at 8 (λ j. all_below 256 (λ x. p x k j)) j
        (all_below_at 8 (λ k. all_below 8 (λ j. all_below 256 (λ x. p x k j))) k h hk) hj)
      hx

abbrev set_law : ℕ → ℕ → ℕ → Bool
set_law x k j = same (has_bit (set_bit x k) j) (if k == j then true else has_bit x j)

abbrev clear_law : ℕ → ℕ → ℕ → Bool
clear_law x k j = same (has_bit (clear_bit x k) j) (if k == j then false else has_bit x j)

abbrev range_law : ℕ → ℕ → ℕ → Bool
range_law x k j = ltb (set_bit x k) 256 && ltb (clear_bit x k) 256

set_table : cube set_law ≡ true
unfolding cube same
set_table = refl

clear_table : cube clear_law ≡ true
unfolding cube same
clear_table = refl

range_table : cube range_law ≡ true
unfolding cube
range_table = refl

module _ (x k j : ℕ) (hx : x < 256) (hk : k < 8) where
  pub has_bit-set_bit : j < 8 → has_bit (set_bit x k) j ≡ (if k == j then true else has_bit x j)
  has_bit-set_bit hj = same-eq _ _ (cube_sound set_law x k j set_table hx hk hj)

  pub has_bit-clear_bit :
      j < 8 → has_bit (clear_bit x k) j ≡ (if k == j then false else has_bit x j)
  has_bit-clear_bit hj = same-eq _ _ (cube_sound clear_law x k j clear_table hx hk hj)

module _ (x k : ℕ) (hx : x < 256) (hk : k < 8) where
  pub set_bit-lt : set_bit x k < 256
  set_bit-lt = let t = cube_sound range_law x k 0 range_table hx hk (omega arith) in ground arith

  pub clear_bit-lt : clear_bit x k < 256
  clear_bit-lt = let t = cube_sound range_law x k 0 range_table hx hk (omega arith) in ground arith
