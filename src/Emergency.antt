-- ===== src/Emergency.antt =====
-- stack/CO_Emergency.c and .h: the emergency object, its error status bits and the buffer of unsent
-- messages. `CO_errorReport`, `CO_errorReset`, `CO_isError` and `CO_EM_init`.
pub mod Codes
pub mod StatusBits
pub mod Valid
pub mod Queue
pub mod Process
pub mod Od
mod Tests
use canopen_node.Prelude.{
  ℕ, zero, suc, ◌+◌, ◌-◌, ◌*◌, ◌/◌, ◌%◌, Bool, true, false, List, [], ◌∷◌, ◌++◌, Option, none, some,
  ltb, leb, ◌==◌, ◌/=◌, if◌then◌else◌, get_or, set, replicate, le16, le32,
}
use canopen_node.Prelude.Bits.{has_bit, set_bit, clear_bit}

-- `CO_EM_t`. `buf` is the array of 80 bytes, which the code reads and writes in slots of 8 bytes
-- only: it is a list of 10 slots, and `bufWritePtr` and `bufReadPtr` are numbers of slots.
-- `pFunctSignal` is known by whether it is set and by how often it has been called.
pub record Em : Type 0 where
  pub error_status_bits : List ℕ
  pub error_status_bits_size : ℕ
  pub buf : List (List ℕ)
  pub buf_write_ptr : ℕ
  pub buf_read_ptr : ℕ
  pub buf_full : ℕ
  pub wrong_error_report : ℕ
  pub has_funct_signal : Bool
  pub signals : ℕ

-- `CO_EM_INTERNAL_BUFFER_SIZE`
abbrev pub em_internal_buffer_size : ℕ
em_internal_buffer_size = 10

-- `ptr += 8; if(ptr == bufEnd) ptr = buf;`
abbrev pub next_slot : ℕ → ℕ
next_slot p = if p + 1 == em_internal_buffer_size then 0 else p + 1

-- The second half of `CO_errorReport` and of `CO_errorReset`, which the source writes twice: verify
-- buffer full; copy the message, move the pointer, and signal.
abbrev pub store_message : Em → List ℕ → Em
store_message em msg = record em {
  buf = set em.buf em.buf_write_ptr msg;
  buf_write_ptr = next_slot em.buf_write_ptr;
  buf_full = if next_slot em.buf_write_ptr == em.buf_read_ptr then 1 else em.buf_full;
  signals = if em.has_funct_signal then em.signals + 1 else em.signals;
}

unfoldable pub put_message : Em → List ℕ → Em
put_message em msg = if em.buf_full /= 0 then record em { buf_full = 2 } else store_message em msg

-- `em->errorStatusBits[index]`
abbrev pub status_byte : Em → ℕ → ℕ
status_byte em index = get_or em.error_status_bits index 0

unfoldable pub error_report : Em → ℕ → ℕ → ℕ → Em
error_report em error_bit error_code info_code =
    let index = error_bit / 8 in
    let byte = status_byte em index in
    let marked =
      if error_bit /= 0
      then record em {
        error_status_bits = set em.error_status_bits index (set_bit byte (error_bit % 8));
      }
      else em in
    if leb em.error_status_bits_size index
    then record em { wrong_error_report = error_bit }
    else if has_bit byte (error_bit % 8)
    then em
    else put_message marked (le16 error_code ++ (0 ∷ error_bit ∷ le32 info_code))

unfoldable pub error_reset : Em → ℕ → ℕ → Em
error_reset em error_bit info_code =
    let index = error_bit / 8 in
    let byte = status_byte em index in
    let erased = record em {
      error_status_bits = set em.error_status_bits index (clear_bit byte (error_bit % 8));
    } in
    if leb em.error_status_bits_size index
    then record em { wrong_error_report = error_bit }
    else if has_bit byte (error_bit % 8)
    then put_message erased (0 ∷ 0 ∷ 0 ∷ error_bit ∷ le32 info_code)
    else em

unfoldable pub is_error : Em → ℕ → Bool
is_error em error_bit =
    if ltb (error_bit / 8) em.error_status_bits_size
    then has_bit (status_byte em (error_bit / 8)) (error_bit % 8)
    else false

-- `CO_EM_initCallback`: the callback is set or removed.
unfoldable pub init_callback : Em → Bool → Em
init_callback em set_function = record em { has_funct_signal = set_function }
