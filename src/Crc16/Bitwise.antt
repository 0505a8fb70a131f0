-- ===== src/Crc16/Bitwise.antt =====
-- crc16-ccitt.c against the division of the message by the polynomial, one bit at a time.
use canopen_node.Crc16.{crc16_ccitt_table, crc16_step, crc16_ccitt, table_init_entry}
use canopen_node.Prelude.{
  ℕ, zero, suc, ◌+◌, ◌-◌, ◌*◌, ◌/◌, ◌%◌, ◌<◌, bit_xor, List, [], ◌∷◌, ◌++◌, ◌==◌, u16, get_or,
  if◌then◌else◌, ltb, ◌≡◌, refl, arith, Bool, true, All, ==_iff,
}
use canopen_node.Prelude.Bits.{all_below, all_below_at}
use canopen_node.Prelude.Xor.{bit_xor-lt, xor-up_by_byte, bit_xor-zero}

-- One bit of the division by x^16 + x^12 + x^5 + 1.
abbrev pub shift_bit : ℕ → ℕ
shift_bit r = if ltb r 32768 then r * 2 else bit_xor (r * 2 - 65536) 0x1021

unfoldable pub shift_bits : ℕ → ℕ → ℕ
shift_bits zero r = r
shift_bits (suc n) r = shift_bits n (shift_bit r)

-- The register takes a byte into its upper half, and eight shifts.
unfoldable pub bitwise_crc : List ℕ → ℕ → ℕ
unfolding shift_bits
bitwise_crc [] r = r
bitwise_crc (b ∷ bs) r = bitwise_crc bs (shift_bits 8 (bit_xor r (b * 256)))

table_check : all_below 256 (λ i. get_or crc16_ccitt_table i 0 == table_init_entry i) ≡ true
unfolding all_below table_init_entry
table_check = refl

-- Every entry of the table is what the algorithm in the comment above the table computes for it.
pub table-eq-init : (i : ℕ) → i < 256 → get_or crc16_ccitt_table i 0 ≡ table_init_entry i
table-eq-init i h =
    (==_iff _ _).0
      (all_below_at 256 (λ i. get_or crc16_ccitt_table i 0 == table_init_entry i) i table_check h)

row : ℕ → ℕ → Bool
unfolding all_below shift_bits
row hi t = all_below 256 (λ lo. shift_bits 8 (hi * 256 + lo) == bit_xor (lo * 256) t)

rows_check : all_below 256 (λ hi. row hi (get_or crc16_ccitt_table hi 0)) ≡ true
unfolding row
rows_check = refl

row_sound :
    (hi lo : ℕ)
    → hi < 256
    → lo < 256
    → shift_bits 8 (hi * 256 + lo) ≡ bit_xor (lo * 256) (get_or crc16_ccitt_table hi 0)
unfolding row
row_sound hi lo p q = (==_iff _ _).0 (
    all_below_at 256
      (λ lo. shift_bits 8 (hi * 256 + lo) == bit_xor (lo * 256) (get_or crc16_ccitt_table hi 0)) lo
      (all_below_at 256 (λ hi. row hi (get_or crc16_ccitt_table hi 0)) hi rows_check p) q)

words_check : all_below 256 (λ i. ltb (get_or crc16_ccitt_table i 0) 65536) ≡ true
unfolding all_below
words_check = refl

table-lt : (i : ℕ) → i < 256 → get_or crc16_ccitt_table i 0 < 65536
table-lt i h =
    let t = all_below_at 256 (λ i. ltb (get_or crc16_ccitt_table i 0) 65536) i words_check h in
    ground arith

-- One round of the loop is eight shifts of the register, after the byte has been added to it.
pub crc16_step-eq-shift_bits :
    (crc b : ℕ) → crc < 65536 → b < 256 → crc16_step crc b ≡ shift_bits 8 (bit_xor crc (b * 256))
unfolding crc16_step
crc16_step-eq-shift_bits crc b h k = rw (
  xor-up_by_byte crc b,
  row_sound (bit_xor (crc / 256) b) (crc % 256) index (omega arith),
  low,
  wrap,
)
  where
    index : bit_xor (crc / 256) b < 256
    index = bit_xor-lt 8 (crc / 256) b (omega arith) k

    low : u16 (crc * 256) ≡ crc % 256 * 256
    low = omega arith

    wrap : u16 (bit_xor (crc / 256) b) ≡ bit_xor (crc / 256) b
    wrap = omega (arith, index)

pub crc16_step-lt : (crc b : ℕ) → crc < 65536 → b < 256 → crc16_step crc b < 65536
unfolding crc16_step
crc16_step-lt crc b h k = bit_xor-lt 16 _ _ (omega arith) (
    table-lt (u16 (bit_xor (crc / 256) b))
      (omega (arith, bit_xor-lt 8 (crc / 256) b (omega arith) k)))

-- The CRC of a block is a 16-bit word.
pub crc16_ccitt-lt :
    (block : List ℕ) (crc : ℕ)
    → All (λ b. b < 256) block
    → crc < 65536
    → crc16_ccitt block crc < 65536
unfolding crc16_ccitt
crc16_ccitt-lt [] crc h k = k
crc16_ccitt-lt (b ∷ block) crc h k =
    crc16_ccitt-lt block (crc16_step crc b) h.1 (crc16_step-lt crc b k h.0)

-- The table-driven CRC of a block of bytes is the bitwise one, from every starting word.
pub crc16_ccitt-eq-bitwise_crc :
    (block : List ℕ) (crc : ℕ)
    → All (λ b. b < 256) block
    → crc < 65536
    → crc16_ccitt block crc ≡ bitwise_crc block crc
unfolding crc16_ccitt bitwise_crc
crc16_ccitt-eq-bitwise_crc [] crc h k = refl
crc16_ccitt-eq-bitwise_crc (b ∷ block) crc h k =
    rw (← crc16_step-eq-shift_bits crc b k h.0)
      (crc16_ccitt-eq-bitwise_crc block (crc16_step crc b) h.1 (crc16_step-lt crc b k h.0))

-- The CRC of a block that arrives in two parts is the CRC of the second part, started from the
-- CRC of the first.
pub crc16_ccitt-append :
    (xs ys : List ℕ) (crc : ℕ) → crc16_ccitt (xs ++ ys) crc ≡ crc16_ccitt ys (crc16_ccitt xs crc)
unfolding crc16_ccitt
crc16_ccitt-append [] ys crc = refl
crc16_ccitt-append (x ∷ xs) ys crc = crc16_ccitt-append xs ys (crc16_step crc x)

self_check : all_below 256 (λ a. bit_xor a a == 0) ≡ true
unfolding all_below
self_check = refl

bit_xor_self : (a : ℕ) → a < 256 → bit_xor a a ≡ 0
bit_xor_self a h = (==_iff _ _).0 (all_below_at 256 (λ a. bit_xor a a == 0) a self_check h)

residue : (c : ℕ) → c < 65536 → crc16_step (crc16_step c (c / 256)) (c % 256) ≡ 0
unfolding crc16_step
residue c h =
    rw
      (
        bit_xor_self (c / 256) (omega arith),
        bit_xor-zero (u16 (c * 256)),
        high,
        bit_xor_self (c % 256) (omega arith),
        bit_xor-zero,
      )
      (omega arith)
  where
    high : u16 (c * 256) / 256 ≡ c % 256
    high = omega arith

-- A block followed by its own CRC, high byte first, has the CRC 0.
pub crc16_ccitt_residue :
    (block : List ℕ) (crc : ℕ)
    → All (λ b. b < 256) block
    → crc < 65536
    → let c = crc16_ccitt block crc in crc16_ccitt (block ++ (c / 256 ∷ c % 256 ∷ [])) crc ≡ 0
unfolding crc16_ccitt
crc16_ccitt_residue block crc h k =
    rw (crc16_ccitt-append block) (residue (crc16_ccitt block crc) (crc16_ccitt-lt block crc h k))
