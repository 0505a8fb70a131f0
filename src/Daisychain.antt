-- ===== src/Daisychain.antt =====
-- stack/CO_Daisychain.c and stack/CO_Daisychain.h.
pub mod Events
mod Tests
use canopen_node.Driver.{
  RxMsg, data_at, TxBuffer, RxFilter, ReturnError, error_no, error_illegal_argument,
  error_wrong_nmt_state,
}
use canopen_node.Prelude.{
  ℕ, ◌+◌, Bool, true, false, not, ◌&&◌, ◌||◌, List, [], ◌∷◌, Option, none, some, leb, ◌==◌,
  if◌then◌else◌, get_or, replicate, set, u16,
}

-- `CO_DaisyProducer_t`: whether there is a CAN device, and the transmit buffer, if it is initialised.
pub record Producer : Type 0 where
  pub can_dev_tx : Bool
  pub tx_buff : Option TxBuffer

-- `CO_DaisyConsumer_return_t`
pub data ConsumerReturn : Type 0 where
  wait ok timeout : ConsumerReturn

-- `CO_DaisyConsumer_t`
pub record Consumer : Type 0 where
  pub timeout_time : ℕ
  pub timeout_timer : ℕ
  pub can_rx_new : Bool
  pub can_rx_data : List ℕ
  pub has_funct_signal : Bool

-- `CO_DaisyProducer_init`; `pointers` says that no pointer argument is NULL.
unfoldable pub producer_init : Bool → Producer → ℕ → ReturnError × Producer
producer_init pointers producer0 can_id =
    if not pointers then (error_illegal_argument, producer0) else (
      error_no,
      record {
        can_dev_tx = true;
        tx_buff =
            some (record { ident = can_id; dlc = 2; bytes = replicate 8 0; sync_flag = false });
      },
    )

abbrev with_event : TxBuffer → ℕ → ℕ → TxBuffer
with_event buff shift_count node_id = record buff {
  bytes = set (set buff.bytes 0 shift_count) 1 node_id;
}

-- `CO_DaisyProducer_sendEvent`, for an object that is not NULL; `send` is the result of `CO_CANsend`.
unfoldable pub send_event :
    (TxBuffer → ReturnError) → Producer → ℕ → ℕ → ReturnError × Producer × Option TxBuffer
send_event send producer shift_count node_id = elim producer.tx_buff [
  | none ↦ (error_wrong_nmt_state, producer, none)
  | some buff ↦
      let event = with_event buff shift_count node_id in
      if producer.can_dev_tx
      then (send event, record producer { tx_buff = some event }, some event)
      else (error_wrong_nmt_state, producer, none)
]

-- `CO_DaisyConsumer_receive`: the second result says whether the callback is called.
unfoldable pub receive : Consumer → RxMsg → Consumer × Bool
receive consumer msg =
    if (msg.dlc == 2) && not consumer.can_rx_new
    then (
      record consumer { can_rx_data = data_at msg 0 ∷ data_at msg 1 ∷ []; can_rx_new = true },
      consumer.has_funct_signal,
    )
    else (consumer, false)

-- `CO_DaisyConsumer_check_timeout`
unfoldable pub check_timeout : Consumer → ℕ → ConsumerReturn × Consumer
check_timeout consumer time_difference =
    let timer = u16 (consumer.timeout_timer + time_difference) in
    if leb consumer.timeout_time timer
    then (timeout, record consumer { timeout_timer = 0 })
    else (wait, record consumer { timeout_timer = timer })

-- `CO_DaisyConsumer_init`
unfoldable consumer_init : Bool → Consumer → ℕ → ℕ → ℕ → ReturnError × Consumer × Option RxFilter
consumer_init pointers consumer0 timeout_ms rx_idx can_id =
    if not pointers then (error_illegal_argument, consumer0, none) else (
      error_no,
      record {
        timeout_time = timeout_ms;
        timeout_timer = 0;
        can_rx_new = false;
        can_rx_data = replicate 2 0;
        has_funct_signal = false;
      },
      some (record { index = rx_idx; ident = can_id; mask = 0x7ff }),
    )

-- `CO_DaisyConsumer_initCallback` and `CO_DaisyConsumer_clear`, for an object that is not NULL.
unfoldable init_callback : Consumer → Bool → Consumer
init_callback consumer given = record consumer { has_funct_signal = given }

unfoldable clear : Consumer → Consumer
clear consumer = record consumer { can_rx_new = false }

-- `CO_DaisyConsumer_waitEvent`, for an object that is not NULL: the third result is what is stored at
-- `shiftCount` and `nodeId`, where they are given.
unfoldable pub wait_event : Consumer → ℕ → ConsumerReturn × Consumer × Option (ℕ × ℕ)
wait_event consumer time_difference =
    let (ret, waited) = check_timeout consumer time_difference in
    if consumer.can_rx_new
    then (
      ok,
      record consumer { can_rx_new = false },
      some (get_or consumer.can_rx_data 0 0, get_or consumer.can_rx_data 1 0),
    )
    else (ret, waited, none)
