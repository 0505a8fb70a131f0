-- ===== src/Pdo/Process.antt =====
-- stack/CO_PDO.c: `CO_RPDO_process`, and messages that are received while it copies.
use canopen_node.Driver.{RxMsg}
use canopen_node.Nmt.{nmt_operational}
use canopen_node.Pdo.{Rpdo}
use canopen_node.Pdo.Places.{write_all}
use canopen_node.Pdo.Receive.{receive}
use canopen_node.Sdo.{Entry}
use canopen_node.Prelude.{
  ℕ, Bool, false, not, ◌&&◌, ◌||◌, List, [], ◌∷◌, ◌==◌, if◌then◌else◌, take, drop,
}

-- `RPDO->CANrxNew[bufNo]` and `RPDO->CANrxData[bufNo]`; `second` says that `bufNo` is 1.
abbrev pub rx_new : Rpdo → Bool → Bool
rx_new rpdo second = if second then rpdo.can_rx_new_1 else rpdo.can_rx_new_0

abbrev pub rx_data : Rpdo → Bool → List ℕ
rx_data rpdo second = if second then rpdo.can_rx_data_1 else rpdo.can_rx_data_0

-- `CLEAR_CANrxNew(RPDO->CANrxNew[bufNo]);`
abbrev pub clear_new : Rpdo → Bool → Rpdo
clear_new rpdo second =
    if second then record rpdo { can_rx_new_1 = false } else record rpdo { can_rx_new_0 = false }

-- A message that the receive interrupt brings during a pass of the loop, behind the first bytes.
pub record Arrival : Type 0 where
  pub behind : ℕ
  pub msg : RxMsg

-- The loop `while(IS_CANrxNew(RPDO->CANrxNew[bufNo]))`: in each pass at most one message arrives.
unfoldable pub copy_loop : List Arrival → Rpdo → List Entry → Bool → Bool → ℕ → Rpdo × List Entry
copy_loop [] rpdo od second toggle state =
    if rx_new rpdo second
    then (
      clear_new rpdo second,
      write_all od (take rpdo.data_length rpdo.map_pointer) (rx_data rpdo second),
    )
    else (rpdo, od)
copy_loop (a ∷ arrivals) rpdo od second toggle state =
    let places = take rpdo.data_length rpdo.map_pointer in
    let rpdo' = receive (clear_new rpdo second) toggle state a.msg in
    let od1 = write_all od (take a.behind places) (rx_data rpdo second) in
    let od2 = write_all od1 (drop a.behind places) (drop a.behind (rx_data rpdo' second)) in
    let rest = copy_loop arrivals rpdo' od2 second toggle state in
    if rx_new rpdo second then rest else (rpdo, od)

-- "Determine, which of the two rx buffers, contains relevant message."
abbrev pub is_second : Rpdo → Bool → Bool
is_second rpdo toggle = rpdo.synchronous && not toggle

-- `CO_RPDO_process`: `toggle` is `RPDO->SYNC->CANrxToggle`.
unfoldable pub process : Rpdo → List Entry → Bool → ℕ → Bool → List Arrival → Rpdo × List Entry
process rpdo od toggle state sync_was arrivals =
    if not rpdo.valid || not (state == nmt_operational)
    then (record rpdo { can_rx_new_0 = false; can_rx_new_1 = false }, od)
    else if not rpdo.synchronous || sync_was
    then copy_loop arrivals rpdo od (is_second rpdo toggle) toggle state
    else (rpdo, od)
