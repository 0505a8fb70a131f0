-- ===== src/Emergency/Valid.antt =====
-- The representation invariant of the emergency object, and that reporting keeps it.
use canopen_node.Emergency.{Em, put_message, status_byte, error_report, error_reset}
use canopen_node.Prelude.{
  if_intro, leb, ℕ, ◌/◌, ◌%◌, ◌<◌, ◌≤◌, ◌≡◌, ◌≢◌, List, ◌/=◌, length, All, All-set, All-get_or,
  length-set, set, arith,
}
use canopen_node.Prelude.Bits.{has_bit, set_bit-lt, clear_bit-lt}

-- The status bits are bytes, six at least; the pointers are inside the buffer of ten slots, and
-- meet when it is full.
pub record IsValid (em : Em) : Type 0 where
  pub six : 6 ≤ em.error_status_bits_size
  pub sized : length em.error_status_bits ≡ em.error_status_bits_size
  pub are_bytes : All (λ b. b < 256) em.error_status_bits
  pub slots : length em.buf ≡ 10
  pub write_in : em.buf_write_ptr < 10
  pub read_in : em.buf_read_ptr < 10
  pub full_at_two : em.buf_full ≤ 2
  pub full_meets : em.buf_full ≢ 0 → em.buf_write_ptr ≡ em.buf_read_ptr

pub put_message-IsValid : (em : Em) (msg : List ℕ) → IsValid em → IsValid (put_message em msg)
unfolding put_message
put_message-IsValid em msg v = ground (arith, length-set em.buf em.buf_write_ptr msg)

pub status_byte-lt : (em : Em) (i : ℕ) → IsValid em → status_byte em i < 256
status_byte-lt em i v = All-get_or (λ b. b < 256) em.error_status_bits i 0 v.are_bytes (omega arith)

module _ (em : Em) (i b : ℕ) (lt : b < 256) where
  pub write_bits-IsValid :
      IsValid em → IsValid (record em { error_status_bits = set em.error_status_bits i b })
  write_bits-IsValid v = record {
    six = v.six;
    sized = omega (arith, v.sized, length-set em.error_status_bits i b);
    are_bytes = All-set (λ b. b < 256) em.error_status_bits i b v.are_bytes lt;
    slots = v.slots;
    write_in = v.write_in;
    read_in = v.read_in;
    full_at_two = v.full_at_two;
    full_meets = v.full_meets;
  }

pub wrong_error-IsValid :
    (em : Em) (b : ℕ) → IsValid em → IsValid (record em { wrong_error_report = b })
wrong_error-IsValid em b v = record {
  six = v.six;
  sized = v.sized;
  are_bytes = v.are_bytes;
  slots = v.slots;
  write_in = v.write_in;
  read_in = v.read_in;
  full_at_two = v.full_at_two;
  full_meets = v.full_meets;
}

-- Reporting an error keeps the object well formed, whatever bit and codes are given.
pub error_report-IsValid :
    (em : Em) (b code info : ℕ) → IsValid em → IsValid (error_report em b code info)
unfolding error_report
error_report-IsValid em b code info v =
    if_intro IsValid (leb em.error_status_bits_size (b / 8)) (wrong_error-IsValid em b v) (
      if_intro IsValid (has_bit (status_byte em (b / 8)) (b % 8)) v (
        put_message-IsValid _ _ (
          if_intro IsValid (b /= 0)
            (write_bits-IsValid em (b / 8) _
              (set_bit-lt (status_byte em (b / 8)) (b % 8) (status_byte-lt em (b / 8) v)
                (omega arith))
              v)
            v)))

-- Resetting an error keeps the object well formed, whatever bit and code are given.
pub error_reset-IsValid : (em : Em) (b info : ℕ) → IsValid em → IsValid (error_reset em b info)
unfolding error_reset
error_reset-IsValid em b info v =
    if_intro IsValid (leb em.error_status_bits_size (b / 8)) (wrong_error-IsValid em b v) (
      if_intro IsValid (has_bit (status_byte em (b / 8)) (b % 8))
        (put_message-IsValid _ _ (
          write_bits-IsValid em (b / 8) _
            (clear_bit-lt (status_byte em (b / 8)) (b % 8) (status_byte-lt em (b / 8) v)
              (omega arith))
            v))
        v)
