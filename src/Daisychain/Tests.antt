-- ===== src/Daisychain/Tests.antt =====
-- Runs of CO_Daisychain.c, and its theorem at an input that meets its hypothesis.
use canopen_node.Daisychain.{Producer, ok, Consumer, producer_init, send_event, wait_event}
use canopen_node.Daisychain.Events.{delivered, wait_event-send_event}
use canopen_node.Driver.{TxBuffer, ReturnError, error_no}
use canopen_node.Prelude.{◌≡◌, refl, true, false, none, some, replicate}

abbrev producer : Producer
producer = record { can_dev_tx = false; tx_buff = none }

abbrev consumer : Consumer
consumer = record {
  timeout_time = 100;
  timeout_timer = 40;
  can_rx_new = false;
  can_rx_data = replicate 2 0;
  has_funct_signal = true;
}

abbrev driver : TxBuffer → ReturnError
driver frame = error_no

wait_event-send_event_example :
    let initialised = (producer_init true producer 0x6df).1 in
    let first = send_event driver initialised 1 5 in
    let second = send_event driver first.1 2 6 in
    let (ret, waited, event) = wait_event (delivered (delivered consumer first) second) 10 in
    (ret ≡ ok)
    × (event ≡ some (1, 5))
    × (waited.can_rx_new ≡ false)
    × ((wait_event waited 10).2 ≡ none)
wait_event-send_event_example =
    wait_event-send_event driver producer consumer 0x6df 1 5 2 6 10 (λ frame. refl) refl
