-- ===== src/Nmt.antt =====
-- stack/CO_NMT_Heartbeat.c and .h: the NMT slave and the heartbeat producer.
pub mod Leds
pub mod States
pub mod Heartbeat
pub mod Errors
mod Tests
use canopen_node.Driver.{
  RxMsg, data_at, TxBuffer, RxFilter, ReturnError, error_no, error_illegal_argument,
}
use canopen_node.Emergency.{Em, is_error}
use canopen_node.Emergency.Codes.{
  em_can_bus_warning, em_can_rx_bus_passive, em_can_tx_bus_passive, em_can_tx_bus_off,
  em_sync_time_out, em_heartbeat_consumer, em_hb_consumer_remote_reset, err_reg_generic_err,
  err_reg_comm_err, err_reg_dev_profile, err_reg_manufacturer,
}
use canopen_node.Prelude.{
  ℕ, ◌+◌, ◌-◌, ◌%◌, Bool, true, false, not, ◌&&◌, ◌||◌, List, [], ◌∷◌, Option, none, some, ltb, leb,
  ◌==◌, ◌/=◌, if◌then◌else◌, get_or, set, u8, u16, bit_and, bit_or,
}
use Leds.{LedCounters, init_leds, signed_ge, neg}

-- `CO_NMT_internalState_t`
abbrev pub nmt_initializing : ℕ
nmt_initializing = 0

abbrev pub nmt_pre_operational : ℕ
nmt_pre_operational = 127

abbrev pub nmt_operational : ℕ
nmt_operational = 5

abbrev pub nmt_stopped : ℕ
nmt_stopped = 4

-- `CO_NMT_command_t`
abbrev pub enter_operational : ℕ
enter_operational = 1

abbrev pub enter_stopped : ℕ
enter_stopped = 2

abbrev pub enter_pre_operational : ℕ
enter_pre_operational = 128

abbrev pub reset_node : ℕ
reset_node = 129

abbrev pub reset_communication : ℕ
reset_communication = 130

-- `CO_NMT_reset_cmd_t`
abbrev pub reset_not : ℕ
reset_not = 0

abbrev pub reset_comm : ℕ
reset_comm = 1

abbrev pub reset_app : ℕ
reset_app = 2

-- `CO_NMT_t`. `pFunctNMT` is known by whether it is set; the emergency object is an argument.
pub record Nmt : Type 0 where
  pub operating_state : ℕ
  pub leds : LedCounters
  pub reset_command : ℕ
  pub node_id : ℕ
  pub hb_producer_timer : ℕ
  pub first_hb_time : ℕ
  pub has_funct_nmt : Bool
  pub hb_tx_buff : TxBuffer

-- The call of the callback with the new state, if it is set and the state has changed.
abbrev pub notify : Nmt → ℕ → Option ℕ
notify nmt old =
    if nmt.has_funct_nmt && not (old == nmt.operating_state) then some nmt.operating_state else none

-- The `switch(command)` of `CO_NMT_receive`.
unfoldable pub obey : Nmt → ℕ → Nmt
obey nmt command =
    if command == enter_operational
    then record nmt { operating_state = nmt_operational }
    else if command == enter_stopped
    then record nmt { operating_state = nmt_stopped }
    else if command == enter_pre_operational
    then record nmt { operating_state = nmt_pre_operational }
    else if command == reset_node
    then record nmt { reset_command = reset_app }
    else if command == reset_communication
    then record nmt { reset_command = reset_comm }
    else nmt

-- `CO_NMT_receive`, with the argument of the callback if it is called.
unfoldable pub receive : Nmt → RxMsg → Nmt × Option ℕ
unfolding obey
receive nmt msg =
    let node_id = data_at msg 1 in
    let nmt' = obey nmt (data_at msg 0) in
    if (msg.dlc == 2) && ((node_id == 0) || (node_id == nmt.node_id))
    then (nmt', notify nmt' nmt.operating_state)
    else (nmt, none)

-- `CO_NMT_init`. `pointers` says that no pointer argument is NULL; `nmt0` is what the structure
-- held. The receive buffer's configuration is returned beside the object.
unfoldable pub init : Bool → Nmt → ℕ → ℕ → ℕ → ℕ → ℕ → ReturnError × Nmt × Option RxFilter
init pointers nmt0 node_id first_hb_time rx_idx can_id_rx can_id_tx =
    if not pointers then (error_illegal_argument, nmt0, none) else (
      error_no,
      record {
        operating_state = nmt_initializing;
        leds = init_leds;
        reset_command = reset_not;
        node_id = node_id;
        hb_producer_timer = 0xffff;
        first_hb_time = first_hb_time;
        has_funct_nmt = false;
        hb_tx_buff = record nmt0.hb_tx_buff { ident = can_id_tx; dlc = 1; sync_flag = false };
      },
      some (record { index = rx_idx; ident = can_id_rx; mask = 0x7ff }),
    )

-- `CO_NMT_initCallback` on an object that is not NULL.
unfoldable pub init_callback : Nmt → Bool → Nmt × Option ℕ
init_callback nmt set_function = (
  record nmt { has_funct_nmt = set_function },
  if set_function then some nmt.operating_state else none,
)

-- `CO_NMT_getInternalState`, where the pointer may be NULL.
unfoldable pub get_internal_state : Option Nmt → ℕ
get_internal_state none = nmt_initializing
get_internal_state (some nmt) = nmt.operating_state

-- The first part of `CO_NMT_process`: the timer, the heartbeat or bootup message (the frame is the
-- argument of `CO_CANsend`), and the end of the initialization.
unfoldable pub produce : Nmt → ℕ → ℕ → ℕ → Nmt × Option TxBuffer
produce nmt time_difference hb_time nmt_startup =
    let timer = u16 (nmt.hb_producer_timer + time_difference) in
    let initializing = nmt.operating_state == nmt_initializing in
    let frame = record nmt.hb_tx_buff { bytes = set nmt.hb_tx_buff.bytes 0 nmt.operating_state } in
    if (hb_time /= 0) && leb hb_time timer || initializing
    then (
      if initializing
          then (record nmt {
            hb_tx_buff = frame;
            hb_producer_timer =
                if ltb nmt.first_hb_time hb_time then hb_time - nmt.first_hb_time else 0;
            operating_state =
                if bit_and nmt_startup 0x04 == 0 then nmt_operational else nmt_pre_operational;
          })
          else record nmt { hb_tx_buff = frame; hb_producer_timer = 0 },
      some frame,
    )
    else (record nmt { hb_producer_timer = timer }, none)

-- "Calculate, when next Heartbeat needs to be send and lower timerNext_ms if necessary."
unfoldable pub next_heartbeat : Nmt → ℕ → Option ℕ → Option ℕ
next_heartbeat nmt hb_time none = none
next_heartbeat nmt hb_time (some t) =
    if hb_time /= 0
    then if ltb nmt.hb_producer_timer hb_time
      then if ltb (hb_time - nmt.hb_producer_timer) t
        then some (hb_time - nmt.hb_producer_timer)
        else some t
      else some 0
    else some t

abbrev pub is_can_passive : Em → Bool
is_can_passive em = is_error em em_can_tx_bus_passive || is_error em em_can_rx_bus_passive

-- The green and the red LED.
unfoldable pub show_leds : Nmt → Em → ℕ → Nmt
show_leds nmt em error_register =
    let leds = nmt.leds in
    let green =
      if nmt.operating_state == nmt_stopped
      then leds.single_flash
      else if nmt.operating_state == nmt_pre_operational
      then leds.blinking
      else if nmt.operating_state == nmt_operational
      then 1
      else leds.green_run in
    let red =
      if is_error em em_can_tx_bus_off
      then 1
      else if is_error em em_sync_time_out
      then leds.triple_flash
      else if is_error em em_heartbeat_consumer || is_error em em_hb_consumer_remote_reset
      then leds.double_flash
      else if is_can_passive em || is_error em em_can_bus_warning
      then leds.single_flash
      else if error_register /= 0
      then (if signed_ge leds.blinking 0 then neg 1 else 1)
      else neg 1 in
    record nmt { leds = record leds { green_run = green; red_error = red } }

-- An entry of `errorBehavior`: 0 is pre-operational, 2 is stopped, any other changes nothing.
abbrev pub behave : ℕ → ℕ → ℕ
behave behavior state =
    if behavior == 0 then nmt_pre_operational else if behavior == 2 then nmt_stopped else state

-- `errorRegister |= 0x10` where the CAN bus is passive and `errorBehavior[2]` asks for it.
abbrev pub with_passive : Em → List ℕ → ℕ → ℕ
with_passive em behavior error_register =
    if is_can_passive em && ((get_or behavior 2 0 == 0) || (get_or behavior 2 0 == 2))
    then bit_or error_register 0x10
    else error_register

-- The four kinds of errors, in their order, for a node that is operational.
unfoldable pub error_state : Em → List ℕ → ℕ → ℕ
error_state em behavior register =
    let bus =
      is_error em em_can_tx_bus_off
      || (is_error em em_heartbeat_consumer || is_error em em_hb_consumer_remote_reset) in
    let comm =
      if bit_and register err_reg_comm_err /= 0
      then if get_or behavior 1 0 == 0
        then nmt_pre_operational
        else if get_or behavior 1 0 == 2
        then nmt_stopped
        else if bus
        then behave (get_or behavior 0 0) nmt_operational
        else nmt_operational
      else nmt_operational in
    let generic =
      if bit_and register err_reg_generic_err /= 0
      then behave (get_or behavior 3 0) comm
      else comm in
    let device =
      if bit_and register err_reg_dev_profile /= 0
      then behave (get_or behavior 4 0) generic
      else generic in
    if bit_and register err_reg_manufacturer /= 0
    then behave (get_or behavior 5 0) device
    else device

-- "in case of error enter pre-operational state". `errorBehavior` may be NULL.
unfoldable pub handle_errors : Nmt → Em → ℕ → ℕ → Option (List ℕ) → Nmt
handle_errors nmt em hb_time error_register none = nmt
handle_errors nmt em hb_time error_register (some behavior) =
    let register = with_passive em behavior error_register in
    let state = error_state em behavior register in
    if (nmt.operating_state == nmt_operational) && (register /= 0)
    then (record nmt {
      operating_state = state;
      hb_producer_timer = if state /= nmt_operational then hb_time else nmt.hb_producer_timer;
    })
    else nmt

pub record Processed : Type 0 where
  pub nmt : Nmt
  pub sent : Option TxBuffer
  pub timer_next : Option ℕ
  pub called : Option ℕ
  pub result : ℕ

-- `CO_NMT_process`: `called` is the argument of the callback, `result` the reset command returned.
unfoldable pub process : Nmt → Em → ℕ → ℕ → ℕ → ℕ → Option (List ℕ) → Option ℕ → Processed
unfolding produce next_heartbeat show_leds handle_errors
process nmt em time_difference hb_time nmt_startup error_register error_behavior timer_next =
    let (nmt1, frame) = produce nmt time_difference hb_time nmt_startup in
    let nmt2 =
      handle_errors (show_leds nmt1 em error_register) em hb_time error_register error_behavior in
    record {
      nmt = nmt2;
      sent = frame;
      timer_next = next_heartbeat nmt1 hb_time timer_next;
      called = notify nmt2 nmt.operating_state;
      result = nmt2.reset_command;
    }
