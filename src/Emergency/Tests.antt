-- ===== src/Emergency/Tests.antt =====
-- Runs of CO_Emergency.c, and its theorems at inputs that meet their hypotheses.
use canopen_node.Driver.{TxBuffer, OdfArg, error_no}
use canopen_node.Emergency.{Em, put_message, error_report, is_error}
use canopen_node.Emergency.Valid.{IsValid}
use canopen_node.Emergency.Queue.{pending, queue_of, put, message, error_report_refines}
use canopen_node.Emergency.Process.{Empr, calculate_register, send_message, process, init}
use canopen_node.Emergency.Process.Register.{any_error, calculate_register_lem}
use canopen_node.Emergency.Process.Sending.{overflow_notice, send_message_lem, process-IsValid}
use canopen_node.Emergency.Process.ErrorField.{IsField}
use canopen_node.Prelude.{ℕ, ◌≡◌, refl, List, [], ◌∷◌, true, false, set, replicate, arith, some}
use canopen_node.Prelude.Bits.{has_bit}

-- A fresh object with ten bytes of status bits.
abbrev fresh : Em
fresh = record {
  error_status_bits = replicate 10 0;
  error_status_bits_size = 10;
  buf = replicate 10 (replicate 8 0);
  buf_write_ptr = 0;
  buf_read_ptr = 0;
  buf_full = 0;
  wrong_error_report = 0;
  has_funct_signal = true;
  signals = 0;
}

-- One heartbeat error is waiting.
abbrev waiting : Em
waiting = record fresh {
  error_status_bits = 0 ∷ 0 ∷ 0 ∷ 8 ∷ 0 ∷ 0 ∷ 0 ∷ 0 ∷ 0 ∷ 0 ∷ [];
  buf = (0x30 ∷ 0x81 ∷ 0 ∷ 0x1b ∷ 2 ∷ 0 ∷ 0 ∷ 0 ∷ []) ∷ replicate 9 (replicate 8 0);
  buf_write_ptr = 1;
  signals = 1;
}

report_fresh : error_report fresh 0x1b 0x8130 2 ≡ waiting
unfolding error_report put_message
report_fresh = refl

fresh-IsValid : IsValid fresh
fresh-IsValid = ground arith

waiting-IsValid : IsValid waiting
waiting-IsValid = ground arith

abbrev frame : TxBuffer
frame = record { ident = 0x81; dlc = 8; bytes = replicate 8 0; sync_flag = false }

abbrev empr : Empr
empr = record {
  em = waiting;
  error_register = 0x10;
  pre_def_err = 7 ∷ 6 ∷ 5 ∷ [];
  has_pre_def_err = true;
  pre_def_err_size = 3;
  pre_def_err_no_of_errors = 3;
  inhibit_em_timer = 100;
  can_tx_buff = frame;
}

empr-IsField : IsField empr
empr-IsField = ground arith

init_accepts : (init true fresh empr 10 0 (0 ∷ 0 ∷ []) 2 0x81).0 ≡ error_no
unfolding init
init_accepts = refl

process_sends :
    (process (λ em. em) empr true 10 50 (some 9) false).sent
    ≡ some (record frame { bytes = 0x30 ∷ 0x81 ∷ 0x10 ∷ 0x1b ∷ 2 ∷ 0 ∷ 0 ∷ 0 ∷ [] })
unfolding process
process_sends = refl

error_report_refines_example :
    queue_of (error_report waiting 0x12 0x8140 1) ≡ put (queue_of waiting) (message 0x12 0x8140 1)
unfolding is_error
error_report_refines_example = error_report_refines waiting 0x12 0x8140 1 waiting-IsValid

calculate_register_lem_example :
    has_bit (calculate_register waiting 0x20) 4 ≡ any_error waiting 0x10 16
calculate_register_lem_example =
    calculate_register_lem waiting 0x20 4 waiting-IsValid (omega arith) (omega arith)

send_message_lem_example :
    let (p', sent) = send_message empr in
    (m : List ℕ) × (rest : List (List ℕ)) × (pending waiting ≡ m ∷ rest)
    × (sent.bytes ≡ set m 2 0x10)
    × (queue_of p'.em ≡ overflow_notice waiting (record { items = rest; lost = false }))
send_message_lem_example = send_message_lem empr waiting-IsValid refl

process-IsValid_example : IsValid (process (λ em. em) empr true 10 50 (some 9) false).empr.em
process-IsValid_example =
    process-IsValid (λ em. em) empr true 10 50 (some 9) false (λ em v. v) waiting-IsValid

abbrev write_zero : OdfArg
write_zero = record { bytes = 0 ∷ 0 ∷ 0 ∷ 0 ∷ []; sub_index = 0; reading = false }
