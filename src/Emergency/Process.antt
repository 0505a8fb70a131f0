-- ===== src/Emergency/Process.antt =====
-- stack/CO_Emergency.c: `CO_EM_process`, which calculates the error register and sends the oldest
-- unsent message, and `CO_EM_init`.
pub mod Register
pub mod Sending
pub mod ErrorField
use canopen_node.Driver.{TxBuffer, ReturnError, error_no, error_illegal_argument}
use canopen_node.Emergency.{
  Em, em_internal_buffer_size, next_slot, status_byte, error_report, error_reset,
}
use canopen_node.Emergency.Codes.{
  em_emergency_buffer_full, em_wrong_error_report, emc_generic, emc_software_internal,
  err_reg_generic_err, err_reg_comm_err, err_reg_manufacturer,
}
use canopen_node.Prelude.{
  ℕ, zero, suc, ◌+◌, ◌-◌, ◌*◌, ◌/◌, ◌%◌, Bool, true, false, not, ◌&&◌, ◌||◌, List, [], ◌∷◌, ◌++◌,
  Option, none, some, ltb, leb, ◌==◌, ◌/=◌, if◌then◌else◌, get_or, set, replicate, u8, u16, of_le32,
  bit_and, bit_or, take,
}

-- `CO_EMpr_t`, with the variables of the object dictionary that it points to, and the data bytes
-- of `CANtxBuff`. `has_pre_def_err` says that `preDefErr` is not NULL.
pub record Empr : Type 0 where
  pub em : Em
  pub error_register : ℕ
  pub pre_def_err : List ℕ
  pub has_pre_def_err : Bool
  pub pre_def_err_size : ℕ
  pub pre_def_err_no_of_errors : ℕ
  pub inhibit_em_timer : ℕ
  pub can_tx_buff : TxBuffer

-- `for(i=6; i<errorStatusBitsSize; i++)`: is one of the `n` bytes from `i` on not zero?
unfoldable pub any_from : ℕ → ℕ → List ℕ → Bool
any_from zero i bits = false
any_from (suc n) i bits = (get_or bits i 0 /= 0) || any_from n (i + 1) bits

-- `~(CO_ERR_REG_GENERIC_ERR | CO_ERR_REG_COMM_ERR | CO_ERR_REG_MANUFACTURER)`
abbrev pub error_mask : ℕ
error_mask = 0x6e

unfoldable pub calculate_register : Em → ℕ → ℕ
unfolding any_from
calculate_register em old =
    let generic = if status_byte em 5 /= 0 then bit_or 0 err_reg_generic_err else 0 in
    let comm =
      if (status_byte em 2 /= 0) || (status_byte em 3 /= 0)
      then bit_or generic err_reg_comm_err
      else generic in
    let all =
      if any_from (em.error_status_bits_size - 6) 6 em.error_status_bits
      then bit_or comm err_reg_manufacturer
      else comm in
    bit_or (bit_and old error_mask) all

-- `for(; i>0; i--) preDefErr[i] = preDefErr[i-1]`
unfoldable pub shift_errors : ℕ → List ℕ → List ℕ
shift_errors zero l = l
shift_errors (suc i) l = shift_errors i (set l (suc i) (get_or l i 0))

-- Writing to the 'pre-defined error field'. `i` is a uint8_t that starts at the number less 1.
unfoldable pub add_pre_def_err : Empr → ℕ → Empr
unfolding shift_errors
add_pre_def_err p pre_def =
    let n =
      if ltb p.pre_def_err_no_of_errors p.pre_def_err_size
      then u8 (p.pre_def_err_no_of_errors + 1)
      else p.pre_def_err_no_of_errors in
    if p.has_pre_def_err
    then (record p {
      pre_def_err_no_of_errors = n;
      pre_def_err = set (shift_errors (u8 (n + 255)) p.pre_def_err) 0 pre_def;
    })
    else p

-- The first four bytes of a message as a uint32_t, lowest first.
abbrev pub pre_def_of : List ℕ → ℕ
pre_def_of m = of_le32 (get_or m 0 0) (get_or m 1 0) (get_or m 2 0) (get_or m 3 0)

-- The message that is sent: the oldest one, with the error register in its third byte.
abbrev pub oldest : Em → ℕ → List ℕ
oldest em register = set (get_or em.buf em.buf_read_ptr []) 2 register

-- Its slot is given back.
abbrev pub take_message : Em → ℕ → Em
take_message em register = record em {
  buf = set em.buf em.buf_read_ptr (oldest em register);
  buf_read_ptr = next_slot em.buf_read_ptr;
}

-- The full flag is cleared, and the overflow reported, or reset.
unfoldable pub settle_overflow : Em → Em
settle_overflow em =
    if em.buf_full == 2
    then error_report (record em { buf_full = 0 }) em_emergency_buffer_full emc_generic 0
    else error_reset (record em { buf_full = 0 }) em_emergency_buffer_full 0

-- "inhibit time elapsed, send message": the frame is the argument of `CO_CANsend`.
unfoldable pub send_message : Empr → Empr × TxBuffer
unfolding settle_overflow add_pre_def_err
send_message p =
    let msg = oldest p.em p.error_register in
    let frame = record p.can_tx_buff { bytes = msg } in
    (
      add_pre_def_err
          (record p {
            em = settle_overflow (take_message p.em p.error_register);
            inhibit_em_timer = 0;
            can_tx_buff = frame;
          })
          (pre_def_of msg),
      frame,
    )

-- `*timerNext_ms` is lowered to `diff`; the pointer may be NULL.
abbrev pub lower : Option ℕ → ℕ → Option ℕ
lower none diff = none
lower (some t) diff = some (if ltb diff t then diff else t)

pub record Processed : Type 0 where
  pub empr : Empr
  pub sent : Option TxBuffer
  pub timer_next : Option ℕ

-- A wrong error report is reported as an error of its own.
unfoldable pub report_wrong : Em → Em
report_wrong em =
    if em.wrong_error_report /= 0
    then record (error_report em em_wrong_error_report emc_software_internal
        em.wrong_error_report) { wrong_error_report = 0 }
    else em

-- Everything in front of the sending. `verify_errors` is `CO_CANverifyErrors` of the CAN driver.
unfoldable pub prepare : (Em → Em) → Empr → ℕ → ℕ → Empr
unfolding report_wrong calculate_register
prepare verify_errors p time_difference inhibit_time =
    let em = report_wrong (verify_errors p.em) in
    record p {
      em = em;
      error_register = calculate_register em p.error_register;
      inhibit_em_timer =
          if ltb p.inhibit_em_timer inhibit_time
          then u16 (p.inhibit_em_timer + time_difference)
          else p.inhibit_em_timer;
    }

abbrev pub has_message : Em → Bool
has_message em = not (em.buf_read_ptr == em.buf_write_ptr) || (em.buf_full /= 0)

-- `tx_buffer_full` is the `bufferFull` of `CANtxBuff`.
unfoldable pub process : (Em → Em) → Empr → Bool → ℕ → ℕ → Option ℕ → Bool → Processed
unfolding prepare send_message
process verify_errors p0 pre_or_operational time_difference inhibit_time timer_next tx_buffer_full =
    let p = prepare verify_errors p0 time_difference inhibit_time in
    let (p', frame) = send_message p in
    let elapsed = leb inhibit_time p.inhibit_em_timer in
    if pre_or_operational && not tx_buffer_full && has_message p.em
    then (record {
      empr = if elapsed then p' else p;
      sent = if elapsed then some frame else none;
      timer_next = lower timer_next ((inhibit_time + 9) / 10);
    })
    else (record { empr = p; sent = none; timer_next = timer_next })

-- `CO_EM_init`. `pointers` says that no pointer argument is NULL, `em0` and `p0` are what the
-- structures held, and the array of status bits has `bits_size` bytes. The registration of the two
-- object dictionary functions and of `em` in the CAN module is not part of the state.
unfoldable pub init : Bool → Em → Empr → ℕ → ℕ → List ℕ → ℕ → ℕ → ReturnError × Empr
init pointers em0 p0 bits_size error_register pre_def_err pre_def_err_size ident =
    if not pointers || ltb bits_size 6 then (error_illegal_argument, p0) else (
      error_no,
      record {
        em = record em0 {
          error_status_bits = replicate bits_size 0;
          error_status_bits_size = bits_size;
          buf_write_ptr = 0;
          buf_read_ptr = 0;
          buf_full = 0;
          wrong_error_report = 0;
          has_funct_signal = false;
        };
        error_register = error_register;
        pre_def_err = pre_def_err;
        has_pre_def_err = true;
        pre_def_err_size = pre_def_err_size;
        pre_def_err_no_of_errors = 0;
        inhibit_em_timer = 0;
        can_tx_buff = record p0.can_tx_buff { ident = ident; dlc = 8; sync_flag = false };
      },
    )
