-- ===== src/Sync/Receive.antt =====
-- CO_SYNC.c: what a received message changes.
use canopen_node.Driver.{RxMsg, data_at}
use canopen_node.Sync.{Sync, is_running, receive}
use canopen_node.Prelude.{ℕ, ◌≡◌, ◌≢◌, true, not, ◌==◌, if◌then◌else◌, arith, bit_or}

-- The length of a SYNC message: one byte if it carries a counter.
abbrev pub expected_length : Sync → ℕ
expected_length sync = if sync.counter_overflow_value == 0 then 0 else 1

-- A running node takes a message of the expected length as a SYNC: it is new, and the toggle of the
-- receive buffers changes; a counter is stored exactly if the SYNC carries one. The receive error
-- stays as it was.
pub receive_sync :
    (sync : Sync) (state : ℕ) (msg : RxMsg)
    → is_running state ≡ true
    → msg.dlc ≡ expected_length sync
    → receive sync state msg ≡ (record sync {
      can_rx_new = true;
      can_rx_toggle = not sync.can_rx_toggle;
      counter = if sync.counter_overflow_value == 0 then sync.counter else data_at msg 0;
    })
unfolding receive
receive_sync sync state msg r h = ground arith

-- A message of another length is no SYNC: a running node only records its length as an error. It
-- still changes the toggle of the receive buffers if the SYNC before it has not been processed yet.
pub receive_wrong_length :
    (sync : Sync) (state : ℕ) (msg : RxMsg)
    → is_running state ≡ true
    → msg.dlc ≢ expected_length sync
    → receive sync state msg ≡ (record sync {
      receive_error = bit_or msg.dlc (if sync.counter_overflow_value == 0 then 0x100 else 0x200);
      can_rx_toggle = if sync.can_rx_new then not sync.can_rx_toggle else sync.can_rx_toggle;
    })
unfolding receive
receive_wrong_length sync state msg r h = ground arith
