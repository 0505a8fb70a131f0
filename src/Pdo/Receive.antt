-- ===== src/Pdo/Receive.antt =====
-- stack/CO_PDO.c: `CO_PDO_receive`.
use canopen_node.Driver.{RxMsg, data_at}
use canopen_node.Nmt.{nmt_operational}
use canopen_node.Pdo.{Rpdo}
use canopen_node.Prelude.{ℕ, Bool, true, ◌&&◌, List, [], ◌∷◌, leb, ◌==◌, if◌then◌else◌}

-- The eight bytes of the message.
abbrev pub message_data : RxMsg → List ℕ
message_data msg =
    data_at msg 0
    ∷ data_at msg 1
    ∷ data_at msg 2
    ∷ data_at msg 3
    ∷ data_at msg 4
    ∷ data_at msg 5
    ∷ data_at msg 6
    ∷ data_at msg 7
    ∷ []

-- `toggle` is `RPDO->SYNC->CANrxToggle`, and `state` the NMT state.
unfoldable pub receive : Rpdo → Bool → ℕ → RxMsg → Rpdo
receive rpdo toggle state msg =
    if rpdo.valid && ((state == nmt_operational) && leb rpdo.data_length msg.dlc)
    then if rpdo.synchronous && toggle
      then record rpdo { can_rx_data_1 = message_data msg; can_rx_new_1 = true }
      else record rpdo { can_rx_data_0 = message_data msg; can_rx_new_0 = true }
    else rpdo
