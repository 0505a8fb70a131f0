-- ===== src/Pdo/Transmit.antt =====
-- stack/CO_PDO.c: `CO_TPDOisCOS`, `CO_TPDOsend` and `CO_TPDO_process`.
use canopen_node.Driver.{ReturnError, error_no, error_tx_busy, error_wrong_nmt_state, TxBuffer}
use canopen_node.Nmt.{nmt_operational}
use canopen_node.Pdo.{Tpdo, TpdoCommPar, dummy}
use canopen_node.Pdo.Places.{read_place, read_all}
use canopen_node.Sdo.{Entry}
use canopen_node.Sdo.Access.{overwrite}
use canopen_node.Sync.{Sync}
use canopen_node.Prelude.{
  ℕ, zero, suc, ◌+◌, ◌-◌, ◌*◌, Bool, true, false, ◌&&◌, ◌||◌, List, Option, none, some, ltb, leb,
  ◌==◌, ◌/=◌, if◌then◌else◌, get_or, take, u8,
}
use canopen_node.Prelude.Bits.{has_bit}

-- `if(*(--pPDOdataByte) != **(--ppODdataByte) && (TPDO->sendIfCOSFlags & flag))`, of the byte `i`.
abbrev pub is_byte_changed : Tpdo → List Entry → ℕ → Bool
is_byte_changed tpdo od i =
    (get_or tpdo.can_tx_buff.bytes i 0 /= read_place od (get_or tpdo.map_pointer i dummy))
    && has_bit tpdo.send_if_cos_flags i

-- The cases of the switch from `n` on, each of which falls through to the next.
unfoldable pub cases_from : Tpdo → List Entry → ℕ → Bool
cases_from tpdo od zero = false
cases_from tpdo od (suc i) = is_byte_changed tpdo od i || cases_from tpdo od i

unfoldable pub is_cos : Tpdo → List Entry → Bool
is_cos tpdo od = leb tpdo.data_length 8 && cases_from tpdo od tpdo.data_length

-- The transmit buffer with the bytes from the object dictionary.
abbrev pub filled_buffer : Tpdo → List Entry → TxBuffer
filled_buffer tpdo od = record tpdo.can_tx_buff {
  bytes = overwrite tpdo.can_tx_buff.bytes 0 (read_all od (take tpdo.data_length tpdo.map_pointer));
}

-- `CO_TPDOsend`: the buffer is the argument of `CO_CANCheckSend`.
unfoldable pub send : Tpdo → List Entry → Tpdo × TxBuffer
send tpdo od = (
  record tpdo { can_tx_buff = filled_buffer tpdo od; send_request = false },
  filled_buffer tpdo od,
)

-- What a part of `CO_TPDO_process` gives: the PDO, the buffer that is handed to the driver, and
-- `retval`.
pub record Processed : Type 0 where
  pub tpdo : Tpdo
  pub sent : Option TxBuffer
  pub retval : ReturnError

abbrev busy : Tpdo → Processed
busy tpdo = record { tpdo = tpdo; sent = none; retval = error_tx_busy }

-- `retval = CO_TPDOsend(TPDO);`, where `r` is the result of `CO_CANCheckSend`.
abbrev pub send_now : Tpdo → List Entry → ReturnError → Processed
send_now tpdo od r =
    let (tpdo', buffer) = send tpdo od in record { tpdo = tpdo'; sent = some buffer; retval = r }

abbrev pub is_sent : ReturnError → Bool
is_sent error_no = true
is_sent other = false

-- "successfully sent"
abbrev restart_timers : Tpdo → TpdoCommPar → ReturnError → Tpdo
restart_timers tpdo par r =
    if is_sent r
    then record tpdo {
      inhibit_timer = par.inhibit_time * 100;
      event_timer = par.event_timer * 1000;
    }
    else tpdo

-- "Send PDO by application request or by Event timer"
unfoldable pub process_event : Tpdo → TpdoCommPar → List Entry → ReturnError → Processed
process_event tpdo par od r =
    let now = send_now tpdo od r in
    let due = tpdo.send_request || ((par.event_timer /= 0) && (tpdo.event_timer == 0)) in
    if (tpdo.inhibit_timer == 0) && due
    then record now { tpdo = restart_timers now.tpdo par r }
    else busy tpdo

-- "is the start of synchronous TPDO transmission": 254 is for a SYNC start value in use.
abbrev pub started_counter : Tpdo → TpdoCommPar → Sync → ℕ
started_counter tpdo par sync =
    if tpdo.sync_counter == 255
    then if (sync.counter_overflow_value /= 0) && (par.sync_start_value /= 0)
      then 254
      else par.transmission_type
    else tpdo.sync_counter

-- "send synchronous cyclic PDO"
unfoldable pub process_cyclic : Tpdo → TpdoCommPar → List Entry → Sync → ReturnError → Processed
process_cyclic tpdo par od sync r =
    let counter = started_counter tpdo par sync in
    let counter' = u8 (counter + 255) in
    let now = send_now (record tpdo { sync_counter = par.transmission_type }) od r in
    if counter == 254
    then if sync.counter == par.sync_start_value
      then now
      else busy (record tpdo { sync_counter = counter })
    else if counter' == 0
    then now
    else busy (record tpdo { sync_counter = counter' })

-- "Synchronous PDOs", behind a SYNC.
unfoldable pub process_sync : Tpdo → TpdoCommPar → List Entry → Sync → ReturnError → Processed
process_sync tpdo par od sync r =
    if par.transmission_type == 0
    then if tpdo.send_request then send_now tpdo od r else busy tpdo
    else process_cyclic tpdo par od sync r

abbrev lower : ℕ → ℕ → ℕ
lower timer time_difference = if ltb time_difference timer then timer - time_difference else 0

-- "update timers"
abbrev pub update_timers : Tpdo → ℕ → Tpdo
update_timers tpdo time_difference = record tpdo {
  inhibit_timer = lower tpdo.inhibit_timer time_difference;
  event_timer = lower tpdo.event_timer time_difference;
}

-- What `CO_TPDO_process` does before it updates the timers; `sync` is none for a null pointer.
unfoldable pub process_kind :
    Tpdo → TpdoCommPar → List Entry → Option Sync → ℕ → Bool → ReturnError → Processed
process_kind tpdo par od sync state sync_was r =
    if tpdo.valid && (state == nmt_operational)
    then if leb 253 par.transmission_type then process_event tpdo par od r else elim sync [
      | none ↦ busy tpdo
      | some s ↦ if sync_was then process_sync tpdo par od s r else busy tpdo
    ]
    else (record {
      tpdo = record tpdo { send_request = leb 254 par.transmission_type };
      sent = none;
      retval = error_wrong_nmt_state;
    })

-- `CO_TPDO_process`; `r` is the result of `CO_CANCheckSend`, if it is called.
unfoldable pub process :
    Tpdo → TpdoCommPar → List Entry → Option Sync → ℕ → Bool → ℕ → ReturnError → Processed
process tpdo par od sync state sync_was time_difference r =
    let p = process_kind tpdo par od sync state sync_was r in
    record p { tpdo = update_timers p.tpdo time_difference }
