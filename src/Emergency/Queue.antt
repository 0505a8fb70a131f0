-- ===== src/Emergency/Queue.antt =====
-- The ring of unsent messages of CO_Emergency.c as a bounded queue that remembers a loss.
use canopen_node.Emergency.{
  Em, next_slot, store_message, put_message, error_report, error_reset, is_error, status_byte,
}
use canopen_node.Emergency.Valid.{IsValid, write_bits-IsValid, status_byte-lt}
use canopen_node.Prelude.Bits.{has_bit, set_bit-lt, clear_bit-lt}
use native.Mathlib.Decide.{ℕ_discrete}
use canopen_node.Prelude.{
  not, ◌&&◌, ltb, leb, ◌/◌, le16, le32, Bool-cases, inl, inr, ℕ, zero, suc, ◌+◌, ◌-◌, ◌%◌, ◌<◌, ◌≡◌,
  refl, ◌∙◌, List, [], ◌∷◌, ◌++◌, ◌==◌, ◌/=◌, if◌then◌else◌, Bool, true, false, get_or, set, length,
  get_or-set_self, get_or-set_ne, arith, ap, ap₂,
}

-- The messages of `n` slots from slot `r` on, round the end of the buffer.
abbrev pub slots_from : List (List ℕ) → ℕ → ℕ → List (List ℕ)
slots_from buf r zero = []
slots_from buf r (suc n) = get_or buf r [] ∷ slots_from buf (next_slot r) n

abbrev pub count : Em → ℕ
count em = if em.buf_full /= 0 then 10 else (em.buf_write_ptr + 10 - em.buf_read_ptr) % 10

-- The unsent messages, oldest first.
abbrev pub pending : Em → List (List ℕ)
pending em = slots_from em.buf em.buf_read_ptr (count em)

-- The specification: at most ten messages, and whether one has been lost since the last was taken.
pub record Queue : Type 0 where
  pub items : List (List ℕ)
  pub lost : Bool

abbrev pub queue_of : Em → Queue
queue_of em = record { items = pending em; lost = em.buf_full == 2 }

unfoldable pub put : Queue → List ℕ → Queue
put q msg =
    if length q.items == 10
    then record q { lost = true }
    else record { items = q.items ++ (msg ∷ []); lost = false }

pub length-slots_from : (buf : List (List ℕ)) (r n : ℕ) → length (slots_from buf r n) ≡ n
length-slots_from buf r zero = refl
length-slots_from buf r (suc n) = ap suc (length-slots_from buf (next_slot r) n)

-- Writing a slot that is not among the `n` from `r` on leaves these alone: it lies `k` further.
pub slots_from-set_ne :
    (buf : List (List ℕ)) (msg : List ℕ) (n r w k : ℕ)
    → r < 10
    → w ≡ (r + n + k) % 10
    → n + k < 10
    → slots_from (set buf w msg) r n ≡ slots_from buf r n
slots_from-set_ne buf msg zero r w k hr e l = refl
slots_from-set_ne buf msg (suc n) r w k hr e l =
    ap₂ ◌∷◌ (get_or-set_ne buf w r msg [] (omega arith))
      (slots_from-set_ne buf msg n (next_slot r) w k (ground arith) (ground arith) (omega arith))

slots_from-snoc :
    (buf : List (List ℕ)) (n r : ℕ)
    → r < 10
    → slots_from buf r (suc n) ≡ slots_from buf r n ++ (get_or buf ((r + n) % 10) [] ∷ [])
slots_from-snoc buf zero r hr = ap (λ i. get_or buf i [] ∷ []) (omega arith)
slots_from-snoc buf (suc n) r hr =
    ap (λ l. get_or buf r [] ∷ l)
      (slots_from-snoc buf n (next_slot r) (ground arith)
        ∙ ap (λ i. slots_from buf (next_slot r) n ++ (get_or buf i [] ∷ [])) (ground arith))

-- The slot behind the last one extends the messages by the one that is written there.
slots_from-set :
    (buf : List (List ℕ)) (msg : List ℕ) (n r w : ℕ)
    → length buf ≡ 10
    → r < 10
    → n < 10
    → w ≡ (r + n) % 10
    → slots_from (set buf w msg) r (suc n) ≡ slots_from buf r n ++ (msg ∷ [])
slots_from-set buf msg n r w hl hr hn e =
    slots_from-snoc (set buf w msg) n r hr
    ∙ ap₂ (λ l m. l ++ (m ∷ [])) (slots_from-set_ne buf msg n r w 0 hr (omega arith) (omega arith))
        (ap (λ i. get_or (set buf w msg) i []) {y = w} (omega arith)
          ∙ get_or-set_self buf w msg [] (omega arith))

count-lt : (em : Em) → IsValid em → em.buf_full ≡ 0 → count em < 10
count-lt em v h = ground arith

put_room :
    (em : Em) (msg : List ℕ)
    → IsValid em
    → em.buf_full ≡ 0
    → pending (store_message em msg) ≡ pending em ++ (msg ∷ [])
put_room em msg v h =
    ap (slots_from (set em.buf em.buf_write_ptr msg) em.buf_read_ptr)
      {x = count (store_message em msg)} {y = suc (count em)} (ground arith)
    ∙ slots_from-set em.buf msg (count em) em.buf_read_ptr em.buf_write_ptr v.slots v.read_in
        (count-lt em v h) (ground arith)

-- Storing a message in the ring is adding it to the queue: at the end if there is room, and if not
-- only the loss is recorded.
pub put_message_refines :
    (em : Em) (msg : List ℕ) → IsValid em → queue_of (put_message em msg) ≡ put (queue_of em) msg
unfolding put_message put
put_message_refines em msg v = elim (ℕ_discrete em.buf_full 0) [
  | yes e ↦ ground (
    arith,
    put_room em msg v e,
    count-lt em v e,
    length-slots_from em.buf em.buf_read_ptr (count em),
  )
  | no n ↦ ground (arith, length-slots_from em.buf em.buf_read_ptr 10)
]

-- The eight bytes of an emergency message whose error register is not set yet.
abbrev pub message : ℕ → ℕ → ℕ → List ℕ
message b code info = le16 code ++ (0 ∷ b ∷ le32 info)

-- A report to a well-formed object adds its message to the queue if the error bit has a status byte
-- and the error is not present yet, and leaves the queue alone otherwise.
pub error_report_refines :
    (em : Em) (b code info : ℕ)
    → IsValid em
    → queue_of (error_report em b code info) ≡ (
        if ltb (b / 8) em.error_status_bits_size && not (is_error em b)
        then put (queue_of em) (message b code info)
        else queue_of em)
unfolding error_report is_error
error_report_refines em b code info v = elim (Bool-cases (leb em.error_status_bits_size (b / 8))) [
  | inl e ↦ rw e (ground arith)
  | inr e ↦ rw e (elim (Bool-cases (has_bit (status_byte em (b / 8)) (b % 8))) [
    | inl p ↦ rw p (ground arith)
    | inr p ↦ rw p (elim (Bool-cases (b /= 0)) [
      | inl q ↦ rw q (
          put_message_refines _ (message b code info) (
            write_bits-IsValid em (b / 8) _
              (set_bit-lt (status_byte em (b / 8)) (b % 8) (status_byte-lt em (b / 8) v)
                (omega arith))
              v)
          ∙ ground arith)
      | inr q ↦ rw q (put_message_refines em (message b code info) v ∙ ground arith)
    ])
  ])
]

-- A reset of a well-formed object adds a message with the error code 0 to the queue if the error is
-- present, and leaves the queue alone otherwise.
pub error_reset_refines :
    (em : Em) (b info : ℕ)
    → IsValid em
    → queue_of (error_reset em b info)
      ≡ (if is_error em b then put (queue_of em) (message b 0 info) else queue_of em)
unfolding error_reset is_error
error_reset_refines em b info v = elim (Bool-cases (leb em.error_status_bits_size (b / 8))) [
  | inl e ↦ rw e (ground arith)
  | inr e ↦ rw e (elim (Bool-cases (has_bit (status_byte em (b / 8)) (b % 8))) [
    | inl p ↦ rw p (
        put_message_refines _ (message b 0 info) (
          write_bits-IsValid em (b / 8) _
            (clear_bit-lt (status_byte em (b / 8)) (b % 8) (status_byte-lt em (b / 8) v)
              (omega arith))
            v)
        ∙ ground arith)
    | inr p ↦ rw p (ground arith)
  ])
]
