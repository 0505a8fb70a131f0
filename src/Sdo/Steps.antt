-- ===== src/Sdo/Steps.antt =====
-- stack/CO_SDO.c: a request that `CO_SDO_receive` takes and `CO_SDO_process` answers.
use canopen_node.Driver.{RxMsg, data_at}
use canopen_node.Sdo.{SdoState, idle, Sdo}
use canopen_node.Sdo.Outcome.{rx}
use canopen_node.Sdo.Process.{
  Processed, begun, continue_with, process_new, process, conclude, step, start,
}
use canopen_node.Sdo.Receive.{
  is_download_bl_subblock, is_idle, is_upload_bl_subblock, segment_of, receive,
}
use canopen_node.Prelude.{
  ℕ, ◌+◌, ◌<◌, ◌≡◌, ◌≢◌, refl, ap, ap₂, ◌∙◌, true, false, not, ◌&&◌, ◌||◌, ◌∷◌, Option, none, ltb,
  leb, ◌==◌, replicate, arith, u16,
}

-- The state that the state machine gets from `CO_SDO_process`, some time after the request.
abbrev pub timed : Sdo → ℕ → Sdo
timed sdo time = record sdo { timeout_timer = time; can_tx_data = replicate 8 0 }

-- A request for a transfer in progress that is not an abort, in time, with a free transmit buffer and
-- in an NMT state that allows it, is the state machine's.
pub process_steps :
    (sdo : Sdo) (time timeout : ℕ) (next : Option ℕ)
    → is_idle sdo.state ≡ false
    → is_upload_bl_subblock sdo.state ≡ false
    → sdo.can_rx_new ≡ true
    → rx sdo 0 ≢ 0x80
    → time < timeout
    → timeout < 65536
    → process sdo true false time timeout next
      ≡ conclude (step sdo.state false (timed sdo time)) next
unfolding process process_new continue_with
process_steps sdo time timeout next busy other new go soon word =
    let first : (is_idle sdo.state && not sdo.can_rx_new) ≡ false =
      ap (λ b. b && not sdo.can_rx_new) busy in
    let no_abort : (rx sdo 0 == 0x80) ≡ false = ground arith in
    let runs : ltb 0 timeout ≡ true = ground arith in
    let timer : u16 (0 + time) ≡ time = omega arith in
    let soon' : leb timeout time ≡ false = ground arith in
    rw (first, other, new, no_abort, busy, runs, timer, soon')

-- A message is received, and `time` later the server is processed.
abbrev pub answer : Sdo → RxMsg → ℕ → ℕ → Processed
answer sdo msg time timeout = process (receive sdo msg).0 true false time timeout none

abbrev pub requested : Sdo → RxMsg → Sdo
requested sdo msg = record sdo { can_rx_data = data_at msg 0 ∷ segment_of msg; can_rx_new = true }

pub receive_request :
    (sdo : Sdo) (msg : RxMsg)
    → msg.dlc ≡ 8
    → sdo.can_rx_new ≡ false
    → is_download_bl_subblock sdo.state ≡ false
    → (receive sdo msg).0 ≡ requested sdo msg
unfolding receive
receive_request sdo msg dlc old other =
    let wide : (msg.dlc == 8) ≡ true = ground arith in rw (wide, old, other)

pub answer_steps :
    (sdo : Sdo) (msg : RxMsg) (state : SdoState) (time timeout : ℕ)
    → sdo.state ≡ state
    → is_idle state ≡ false
    → is_download_bl_subblock state ≡ false
    → is_upload_bl_subblock state ≡ false
    → sdo.can_rx_new ≡ false
    → msg.dlc ≡ 8
    → data_at msg 0 ≢ 0x80
    → time < timeout
    → timeout < 65536
    → answer sdo msg time timeout
      ≡ conclude (step state false (timed (requested sdo msg) time)) none
answer_steps sdo msg state time timeout st busy no_block no_upload old dlc go soon word =
    let r = receive_request sdo msg dlc old (ap is_download_bl_subblock st ∙ no_block) in
    ap (λ s. process s true false time timeout none) r
    ∙ process_steps (requested sdo msg) time timeout none (ap is_idle st ∙ busy)
        (ap is_upload_bl_subblock st ∙ no_upload) refl go soon word
    ∙ ap (λ s. conclude (step s false (timed (requested sdo msg) time)) none) st

-- A request that begins a transfer.
pub process_begins :
    (sdo sdo' : Sdo) (state : SdoState) (time timeout : ℕ) (next : Option ℕ)
    → is_idle sdo.state ≡ true
    → sdo.can_rx_new ≡ true
    → rx sdo 0 ≢ 0x80
    → start (timed sdo 0) ≡ begun state sdo'
    → is_idle state ≡ false
    → sdo'.timeout_timer ≡ 0
    → time < timeout
    → timeout < 65536
    → process sdo true false time timeout next
      ≡ conclude (step state false (record sdo' { timeout_timer = time })) next
unfolding process process_new continue_with
process_begins sdo sdo' state time timeout next rest new go begins busy fresh soon word =
    let asked : (is_idle sdo.state && not sdo.can_rx_new) ≡ false =
      ap₂ (λ a b. a && not b) rest new in
    let work : (sdo.can_rx_new || is_upload_bl_subblock sdo.state) ≡ true =
      ap (λ b. b || is_upload_bl_subblock sdo.state) new in
    let no_abort : (rx sdo 0 == 0x80) ≡ false = ground arith in
    let no_abort' : (sdo.can_rx_new && (rx sdo 0 == 0x80)) ≡ false =
      ap₂ (λ a b. a && b) new no_abort in
    let runs : ltb 0 timeout ≡ true = ground arith in
    let timer : u16 (0 + time) ≡ time = omega arith in
    let soon' : leb timeout time ≡ false = ground arith in
    rw (
      asked,
      work,
      no_abort',
      idle_other sdo.state rest,
      rest,
      begins,
      fresh,
      runs,
      timer,
      soon',
      busy,
    )
  where
    idle_other : (s : SdoState) → is_idle s ≡ true → is_upload_bl_subblock s ≡ false
    idle_other idle e = refl
    idle_other other e = absurd (cc e)
