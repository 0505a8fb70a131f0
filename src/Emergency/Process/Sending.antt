-- ===== src/Emergency/Process/Sending.antt =====
-- CO_Emergency.c: `CO_EM_process` sends the messages in the order of their reports.
use canopen_node.Emergency.{Em, next_slot, is_error}
use canopen_node.Emergency.Codes.{
  em_emergency_buffer_full, em_wrong_error_report, emc_generic, emc_software_internal,
}
use canopen_node.Emergency.Valid.{
  IsValid, error_report-IsValid, error_reset-IsValid, wrong_error-IsValid,
}
use canopen_node.Emergency.Queue.{
  slots_from, count, pending, Queue, queue_of, put, message, slots_from-set_ne,
  error_report_refines, error_reset_refines,
}
use canopen_node.Emergency.Process.{
  Empr, Processed, oldest, take_message, settle_overflow, add_pre_def_err, send_message,
  report_wrong, prepare, has_message, process,
}
use canopen_node.Prelude.{
  ℕ, suc, ◌+◌, ◌-◌, ◌%◌, ◌<◌, ◌≡◌, refl, ◌∙◌, sym, List, [], ◌∷◌, ◌==◌, ◌/=◌, leb, ◌&&◌, not,
  if◌then◌else◌, Bool, true, false, get_or, set, length-set, arith, Bool-cases, inl, inr, ap,
  Option, if_intro,
}

-- The object with its full flag cleared, after the oldest message has been taken.
abbrev pub cleared : Em → ℕ → Em
cleared em register = record (take_message em register) { buf_full = 0 }

pub cleared-IsValid : (em : Em) (register : ℕ) → IsValid em → IsValid (cleared em register)
cleared-IsValid em register v = record {
  six = v.six;
  sized = v.sized;
  are_bytes = v.are_bytes;
  slots = omega (arith, v.slots, length-set em.buf em.buf_read_ptr (oldest em register));
  write_in = v.write_in;
  read_in = ground (arith, v.read_in);
  full_at_two = omega arith;
  full_meets = λ n. absurd (n refl);
}

pub settle_overflow-IsValid :
    (em : Em) (register : ℕ) → IsValid em → IsValid (settle_overflow (take_message em register))
unfolding settle_overflow
settle_overflow-IsValid em register v =
    if_intro IsValid (em.buf_full == 2)
      (error_report-IsValid (cleared em register) em_emergency_buffer_full emc_generic 0
        (cleared-IsValid em register v))
      (error_reset-IsValid (cleared em register) em_emergency_buffer_full 0
        (cleared-IsValid em register v))

count-cleared :
    (em : Em) (register : ℕ)
    → IsValid em
    → has_message em ≡ true
    → count em ≡ suc (count (cleared em register))
count-cleared em register v h = ground arith

-- Taking a message removes the oldest one and keeps the others in their order.
pub pending-cleared :
    (em : Em) (register : ℕ)
    → IsValid em
    → has_message em ≡ true
    → pending em ≡ get_or em.buf em.buf_read_ptr [] ∷ pending (cleared em register)
pending-cleared em register v h =
    ap (slots_from em.buf em.buf_read_ptr) (count-cleared em register v h)
    ∙ ap (λ l. get_or em.buf em.buf_read_ptr [] ∷ l)
        (sym (
          slots_from-set_ne em.buf (oldest em register) n (next_slot em.buf_read_ptr)
            em.buf_read_ptr (9 - n) (ground (arith, v.read_in)) (around n below)
            (omega (arith, below))))
  where
    n : ℕ
    n = count (cleared em register)

    below : n < 10
    below = omega arith

    around : (n : ℕ) → n < 10 → em.buf_read_ptr ≡ (next_slot em.buf_read_ptr + n + (9 - n)) % 10
    around n l = ground (arith, v.read_in)

-- What the overflow adds to the queue: the report of a full buffer if messages were lost and this
-- is not reported yet, its reset if none were lost and it is still reported.
abbrev pub overflow_notice : Em → Queue → Queue
overflow_notice em q =
    if em.buf_full == 2
    then if is_error em em_emergency_buffer_full
      then q
      else put q (message em_emergency_buffer_full emc_generic 0)
    else if is_error em em_emergency_buffer_full
    then put q (message em_emergency_buffer_full 0 0)
    else q

is_error-cleared : (em : Em) (register b : ℕ) → is_error (cleared em register) b ≡ is_error em b
unfolding is_error
is_error-cleared em register b = refl

queue-settle_overflow :
    (em : Em) (register : ℕ)
    → IsValid em
    → queue_of (settle_overflow (take_message em register))
      ≡ overflow_notice em (record { items = pending (cleared em register); lost = false })
unfolding settle_overflow
queue-settle_overflow em register v = elim (Bool-cases (em.buf_full == 2)) [
  | inl e ↦
      rw
        (
          e,
          error_report_refines (cleared em register) em_emergency_buffer_full emc_generic 0
              (cleared-IsValid em register v),
          is_error-cleared em register,
        )
        (ground (arith, v.six))
  | inr e ↦
      rw
        (
          e,
          error_reset_refines (cleared em register) em_emergency_buffer_full 0
              (cleared-IsValid em register v),
          is_error-cleared em register,
        )
        (ground arith)
]

pub em-send_message :
    (p : Empr) → (send_message p).0.em ≡ settle_overflow (take_message p.em p.error_register)
unfolding send_message add_pre_def_err
em-send_message p = ground arith

frame-send_message : (p : Empr) → (send_message p).1.bytes ≡ oldest p.em p.error_register
unfolding send_message
frame-send_message p = refl

-- Sending takes the oldest message off the queue of a well-formed object that has one, puts the
-- error register into its third byte and the result into the frame; the queue then holds the other
-- messages in their order, and the notice of an overflow.
pub send_message_lem :
    (p : Empr)
    → IsValid p.em
    → has_message p.em ≡ true
    → let (p', frame) = send_message p in
      (m : List ℕ) × (rest : List (List ℕ)) × (pending p.em ≡ m ∷ rest)
      × (frame.bytes ≡ set m 2 p.error_register)
      × (queue_of p'.em ≡ overflow_notice p.em (record { items = rest; lost = false }))
send_message_lem p v h = (
  get_or p.em.buf p.em.buf_read_ptr [],
  pending (cleared p.em p.error_register),
  pending-cleared p.em p.error_register v h,
  frame-send_message p,
  ap queue_of (em-send_message p) ∙ queue-settle_overflow p.em p.error_register v,
)

report_wrong-IsValid : (em : Em) → IsValid em → IsValid (report_wrong em)
unfolding report_wrong
report_wrong-IsValid em v =
    if_intro IsValid (em.wrong_error_report /= 0)
      (wrong_error-IsValid _ 0 (
        error_report-IsValid em em_wrong_error_report emc_software_internal em.wrong_error_report
          v))
      v

-- The driver's error check keeps the emergency object well formed.
abbrev pub KeepsValid : (Em → Em) → Type 0
KeepsValid verify_errors = (em : Em) → IsValid em → IsValid (verify_errors em)

-- `CO_EM_process` keeps the emergency object well formed, if the error check of the driver does.
pub process-IsValid :
    (verify_errors : Em → Em) (p : Empr) (pre_or_operational : Bool) (diff inhibit : ℕ)
    (next : Option ℕ) (full : Bool)
    → KeepsValid verify_errors
    → IsValid p.em
    → IsValid (process verify_errors p pre_or_operational diff inhibit next full).empr.em
unfolding process
process-IsValid verify_errors p pre diff inhibit next full keep v =
    if_intro {A = Processed} (λ r. IsValid r.empr.em) (pre && not full && has_message q.em)
      (if_intro {A = Empr} (λ r. IsValid r.em) (leb inhibit q.inhibit_em_timer)
        (rw (em-send_message q) (settle_overflow-IsValid q.em q.error_register prepared)) prepared)
      prepared
  where
    q : Empr
    q = prepare verify_errors p diff inhibit

    prepared : IsValid q.em
    prepared = report_wrong-IsValid (verify_errors p.em) (keep p.em v)
