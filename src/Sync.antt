-- ===== src/Sync.antt =====
-- stack/CO_SYNC.c and .h: the producer and consumer of SYNC messages.
pub mod Od
pub mod Receive
pub mod Steps
pub mod Timing
pub mod Window
mod Tests
use canopen_node.Driver.{
  RxMsg, data_at, TxBuffer, RxFilter, ReturnError, error_no, error_illegal_argument,
}
use canopen_node.Emergency.{Em, error_report}
use canopen_node.Emergency.Codes.{
  em_sync_time_out, em_sync_length, emc_communication, emc_sync_data_length,
}
use canopen_node.Nmt.{nmt_operational, nmt_pre_operational}
use canopen_node.Prelude.{
  ℕ, ◌+◌, ◌*◌, ◌/◌, ◌%◌, Bool, true, false, not, ◌&&◌, ◌||◌, Option, none, some, ltb, leb, ◌==◌,
  ◌/=◌, if◌then◌else◌, set, u8, u32, bit_and, bit_or,
}

-- `CO_SYNC_t`. The emergency object and the NMT state, which it points to, are arguments.
pub record Sync : Type 0 where
  pub is_producer : Bool
  pub cob_id : ℕ
  pub period_time : ℕ
  pub period_timeout_time : ℕ
  pub counter_overflow_value : ℕ
  pub is_inside_window : Bool
  pub can_rx_new : Bool
  pub can_rx_toggle : Bool
  pub counter : ℕ
  pub timer : ℕ
  pub receive_error : ℕ
  pub can_tx_buff : TxBuffer
  pub can_dev_rx_idx : ℕ

-- `operState == CO_NMT_OPERATIONAL || operState == CO_NMT_PRE_OPERATIONAL`
abbrev pub is_running : ℕ → Bool
is_running state = (state == nmt_operational) || (state == nmt_pre_operational)

-- The length is verified, and the counter stored.
unfoldable pub take_message : Sync → RxMsg → Sync
take_message sync msg =
    if sync.counter_overflow_value == 0
    then if msg.dlc == 0
      then record sync { can_rx_new = true }
      else record sync { receive_error = bit_or msg.dlc 0x100 }
    else if msg.dlc == 1
    then record sync { counter = data_at msg 0; can_rx_new = true }
    else record sync { receive_error = bit_or msg.dlc 0x200 }

-- `CO_SYNC_receive`, in the given NMT state.
unfoldable pub receive : Sync → ℕ → RxMsg → Sync
unfolding take_message
receive sync state msg =
    let sync' = take_message sync msg in
    if is_running state
    then if sync'.can_rx_new
      then record sync' { can_rx_toggle = not sync'.can_rx_toggle }
      else sync'
    else sync

-- The period time times 1.5, or the largest uint32_t where the product has wrapped.
abbrev pub timeout_of : ℕ → ℕ
timeout_of period = if ltb (u32 (period / 2 * 3)) period then 0xffffffff else u32 (period / 2 * 3)

-- `CO_CANtxBufferInit` with the identifier and the number of data bytes.
abbrev pub configured_buffer : Sync → ℕ → ℕ → TxBuffer
configured_buffer sync ident len = record sync.can_tx_buff {
  ident = ident;
  dlc = len;
  sync_flag = false;
}

-- `CO_SYNC_init`. `pointers` says that no pointer argument is NULL, `sync0` is what the structure
-- held.
unfoldable pub init : Bool → Sync → ℕ → ℕ → ℕ → ℕ → ReturnError × Sync × Option RxFilter
init pointers sync0 cob_id_sync_message communication_cycle_period overflow_value rx_idx =
    let cob_id = bit_and cob_id_sync_message 0x7ff in
    if not pointers then (error_illegal_argument, sync0, none) else (
      error_no,
      record {
        is_producer = bit_and cob_id_sync_message 0x40000000 /= 0;
        cob_id = cob_id;
        period_time = communication_cycle_period;
        period_timeout_time = timeout_of communication_cycle_period;
        counter_overflow_value = overflow_value;
        is_inside_window = true;
        can_rx_new = false;
        can_rx_toggle = false;
        timer = 0;
        counter = 0;
        receive_error = 0;
        can_tx_buff = configured_buffer sync0 cob_id (if overflow_value /= 0 then 1 else 0);
        can_dev_rx_idx = rx_idx;
      },
      some (record { index = rx_idx; ident = cob_id; mask = 0x7ff }),
    )

-- "update sync timer, no overflow"
unfoldable pub update_timer : Sync → ℕ → Sync
update_timer sync time_difference =
    let timer_new = u32 (sync.timer + time_difference) in
    if ltb sync.timer timer_new then record sync { timer = timer_new } else sync

-- "was SYNC just received"
unfoldable pub take_new : Sync → Sync × ℕ
take_new sync =
    if sync.can_rx_new then (record sync { timer = 0; can_rx_new = false }, 1) else (sync, 0)

-- "SYNC producer": the frame is the argument of `CO_CANsend`.
unfoldable pub produce : Sync → ℕ → Sync × ℕ × Option TxBuffer
produce sync ret =
    let counter = u8 (sync.counter + 1) in
    let counter' = if ltb sync.counter_overflow_value counter then 1 else counter in
    let frame = record sync.can_tx_buff { bytes = set sync.can_tx_buff.bytes 0 counter' } in
    if (sync.is_producer && (sync.period_time /= 0)) && leb sync.period_time sync.timer
    then (
      record sync {
        counter = counter';
        timer = 0;
        can_rx_toggle = not sync.can_rx_toggle;
        can_tx_buff = frame;
      },
      1,
      some frame,
    )
    else (sync, ret, none)

-- "Synchronous PDOs are allowed only inside time window"
unfoldable pub check_window : Sync → ℕ → ℕ → Sync × ℕ
check_window sync window_length ret =
    if (window_length /= 0) && ltb window_length sync.timer
    then (record sync { is_inside_window = false }, if sync.is_inside_window then 2 else ret)
    else (record sync { is_inside_window = true }, ret)

-- "Verify timeout of SYNC"
unfoldable pub check_timeout : Sync → Em → ℕ → Em
check_timeout sync em state =
    if (sync.period_time /= 0)
      && (ltb sync.period_timeout_time sync.timer && (state == nmt_operational))
    then error_report em em_sync_time_out emc_communication sync.timer
    else em

-- "verify error from receive function"
unfoldable pub check_length : Sync → Em → Sync × Em
check_length sync em =
    if sync.receive_error /= 0
    then (
      record sync { receive_error = 0 },
      error_report em em_sync_length emc_sync_data_length sync.receive_error,
    )
    else (sync, em)

pub record Processed : Type 0 where
  pub sync : Sync
  pub em : Em
  pub sent : Option TxBuffer
  pub result : ℕ

-- `CO_SYNC_process`: the result is 0, 1 (SYNC was received or sent) or 2 (the window has just
-- ended).
unfoldable pub process : Sync → Em → ℕ → ℕ → ℕ → Processed
process sync em state time_difference window_length =
    let (sync1, ret1) = take_new (update_timer sync time_difference) in
    let (sync2, ret2, frame) = produce sync1 ret1 in
    let (sync3, ret3) = check_window sync2 window_length ret2 in
    let (sync4, em4) = check_length sync3 (check_timeout sync3 em state) in
    let (sync5, em5) = check_length (record sync { can_rx_new = false }) em in
    if is_running state
    then (record { sync = sync4; em = em4; sent = frame; result = ret3 })
    else (record { sync = sync5; em = em5; sent = none; result = 0 })
