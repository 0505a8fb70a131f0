-- ===== src/Emergency/Process/Register.antt =====
-- CO_Emergency.c: the error register against the errors that are present.
use canopen_node.Emergency.{Em, status_byte, is_error}
use native.Mathlib.Nat.{zero-add, add-zero, suc-add}
use canopen_node.Emergency.Valid.{IsValid, status_byte-lt}
use canopen_node.Emergency.Process.{any_from, error_mask, calculate_register}
use canopen_node.Prelude.{
  ℕ, zero, suc, ◌+◌, ◌-◌, ◌*◌, ◌/◌, ◌%◌, ◌<◌, ◌≤◌, ◌≡◌, refl, ◌∙◌, ◌==◌, ◌/=◌, ◌||◌, if◌then◌else◌,
  Bool, true, false, arith, ap, ap₂, sym, bit_and, bit_or,
}
use canopen_node.Prelude.Bits.{has_bit, same, same-eq, all_below, all_below_at}

-- Is one of the `n` errors from `b` on present?
unfoldable pub any_error : Em → ℕ → ℕ → Bool
any_error em b zero = false
any_error em b (suc n) = is_error em b || any_error em (b + 1) n

abbrev any_bit : ℕ → Bool
any_bit x =
    has_bit x 0
    || (has_bit x 1
        || (has_bit x 2
            || (has_bit x 3
                || (has_bit x 4 || (has_bit x 5 || (has_bit x 6 || (has_bit x 7 || false)))))))

abbrev byte_law : ℕ → Bool
byte_law x = same (x /= 0) (any_bit x)

byte_table : all_below 256 byte_law ≡ true
unfolding all_below same
byte_table = refl

byte-any_bit : (x : ℕ) → x < 256 → (x /= 0) ≡ any_bit x
byte-any_bit x h = same-eq _ _ (all_below_at 256 byte_law x byte_table h)

-- A status byte is not zero exactly if one of its eight errors is present.
bit_of_byte :
    (em : Em) (i k : ℕ)
    → i < em.error_status_bits_size
    → k < 8
    → is_error em (i * 8 + k) ≡ has_bit (status_byte em i) k
unfolding is_error
bit_of_byte em i k h l = rw (quotient, remainder) (ground arith)
  where
    quotient : (i * 8 + k) / 8 ≡ i
    quotient = omega arith

    remainder : (i * 8 + k) % 8 ≡ k
    remainder = omega arith

any_error_of_byte :
    (em : Em) (i b : ℕ)
    → IsValid em
    → i < em.error_status_bits_size
    → b ≡ i * 8
    → any_error em b 8 ≡ (status_byte em i /= 0)
unfolding any_error
any_error_of_byte em i b v h e = ground (
  arith,
  byte-any_bit (status_byte em i) (status_byte-lt em i v),
  at_bit b 0,
  at_bit (b + 1) 1,
  at_bit (b + 1 + 1) 2,
  at_bit (b + 1 + 1 + 1) 3,
  at_bit (b + 1 + 1 + 1 + 1) 4,
  at_bit (b + 1 + 1 + 1 + 1 + 1) 5,
  at_bit (b + 1 + 1 + 1 + 1 + 1 + 1) 6,
  at_bit (b + 1 + 1 + 1 + 1 + 1 + 1 + 1) 7,
)
  where
    at_bit : (c k : ℕ) → c ≡ b + k → k < 8 → is_error em c ≡ has_bit (status_byte em i) k
    at_bit c k q l = ap (is_error em) (omega (arith, q, e)) ∙ bit_of_byte em i k h l

any_error-add :
    (em : Em) (b m n : ℕ) → any_error em b (m + n) ≡ (any_error em b m || any_error em (b + m) n)
unfolding any_error
any_error-add em b zero n = rw (zero-add, add-zero)
any_error-add em b (suc m) n = rw (suc-add, any_error-add em (b + 1) m n, shift) (ground arith)
  where
    shift : b + 1 + m ≡ b + suc m
    shift = omega arith

any_from-any_error :
    (em : Em) (n i : ℕ)
    → IsValid em
    → i + n ≤ em.error_status_bits_size
    → any_from n i em.error_status_bits ≡ any_error em (i * 8) (n * 8)
unfolding any_from any_error
any_from-any_error em zero i v h = refl
any_from-any_error em (suc n) i v h = rw (
  eights,
  any_error-add em (i * 8) 8 (n * 8),
  any_error_of_byte em i (i * 8) v (omega arith) refl,
  next,
  ← any_from-any_error em n (i + 1) v (omega arith),
)
  where
    eights : suc n * 8 ≡ 8 + n * 8
    eights = omega arith

    next : i * 8 + 8 ≡ (i + 1) * 8
    next = omega arith

-- The bits of the register: three of them are new, and the others stay.
abbrev register : ℕ → Bool → Bool → Bool → ℕ
register old g c m =
    let generic = if g then bit_or 0 1 else 0 in
    let comm = if c then bit_or generic 16 else generic in
    let all = if m then bit_or comm 128 else comm in bit_or (bit_and old error_mask) all

abbrev register_law : Bool → Bool → Bool → ℕ → Bool
register_law g c m old = all_below 8 λ j.
    same (has_bit (register old g c m) j)
      (if j == 0 then g else if j == 4 then c else if j == 7 then m else has_bit old j)

register_table : (g c m : Bool) → all_below 256 (register_law g c m) ≡ true
unfolding all_below same
register_table false false false = refl
register_table false false true = refl
register_table false true false = refl
register_table false true true = refl
register_table true false false = refl
register_table true false true = refl
register_table true true false = refl
register_table true true true = refl

-- The error register shows the errors that are present: its generic bit (0) those of status byte 5,
-- its communication bit (4) those of status bytes 2 and 3, its manufacturer bit (7) those of the
-- status bytes from 6 on. Its other bits stay as they were.
pub calculate_register_lem :
    (em : Em) (old j : ℕ)
    → IsValid em
    → old < 256
    → j < 8
    → has_bit (calculate_register em old) j ≡ (
        if j == 0
        then any_error em 0x28 8
        else if j == 4
        then any_error em 0x10 16
        else if j == 7
        then any_error em 0x30 ((em.error_status_bits_size - 6) * 8)
        else has_bit old j)
unfolding calculate_register
calculate_register_lem em old j v h k =
    same-eq _ _
      (all_below_at 8 _ j (all_below_at 256 (register_law g c m) old (register_table g c m) h) k)
    ∙ rw (generic, comm, manufacturer)
  where
    g : Bool
    g = status_byte em 5 /= 0

    c : Bool
    c = (status_byte em 2 /= 0) || (status_byte em 3 /= 0)

    m : Bool
    m = any_from (em.error_status_bits_size - 6) 6 em.error_status_bits

    generic : any_error em 0x28 8 ≡ g
    generic = any_error_of_byte em 5 0x28 v (omega (arith, v.six)) refl

    comm : any_error em 0x10 16 ≡ c
    comm =
        any_error-add em 0x10 8 8
        ∙ ap₂ ◌||◌ (any_error_of_byte em 2 0x10 v (omega (arith, v.six)) refl)
            (any_error_of_byte em 3 0x18 v (omega (arith, v.six)) refl)

    manufacturer : any_error em 0x30 ((em.error_status_bits_size - 6) * 8) ≡ m
    manufacturer =
        sym (any_from-any_error em (em.error_status_bits_size - 6) 6 v (omega (arith, v.six)))
