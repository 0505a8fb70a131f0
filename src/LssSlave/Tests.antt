-- ===== src/LssSlave/Tests.antt =====
-- Runs of CO_LSSslave.c, and its theorems at inputs that meet their hypotheses.
use canopen_node.Driver.{RxMsg, TxBuffer}
use canopen_node.Lss.{Address, waiting, configuration, cfg_node_id}
use canopen_node.LssSlave.{Slave}
use canopen_node.LssSlave.Receive.{receive}
use canopen_node.LssSlave.Services.{service_switch_state_selective, service_inquire}
use canopen_node.LssSlave.States.{
  IsValid, receive_keeps_IsValid, IsLocked, receive-IsLocked, message, receive_selects,
}
use canopen_node.LssSlave.Scan.{IsWords, IsUnconfigured, scan_message, receive_finds}
use canopen_node.Prelude.{
  ℕ, ◌==◌, ◌≡◌, ◌↔◌, refl, Bool, true, false, get_or, ltb, replicate, some, none, arith,
}

abbrev address : Address
address = record { vendor_id = 0x1234; product_code = 7; revision_number = 2; serial_number = 99 }

abbrev store : ℕ → ℕ → Bool
store id bit_rate = ltb id 100

abbrev slave : Slave
slave = record {
  lss_address = address;
  lss_state = waiting;
  lss_select = address;
  lss_fastscan = address;
  fastscan_pos = 1;
  pending_bit_rate = 125;
  pending_node_id = 255;
  active_node_id = 255;
  check_bit_rate = none;
  has_activate_bit_rate = false;
  cfg_store_callback = some store;
}

abbrev chosen : Slave
chosen = record slave { lss_state = configuration }

abbrev stranger : Address
stranger = record address { serial_number = 98 }

slave-IsValid : IsValid slave
slave-IsValid = ground arith

slave-IsUnconfigured : IsUnconfigured slave
slave-IsUnconfigured = ground arith

stranger-IsWords : IsWords stranger
stranger-IsWords = ground arith

abbrev request : RxMsg
request = message cfg_node_id 5 0 0 0

receive_keeps_IsValid_example : IsValid (receive chosen request).slave
receive_keeps_IsValid_example = receive_keeps_IsValid chosen request (ground arith)

receive-IsLocked_example : IsLocked slave (receive slave request)
receive-IsLocked_example = receive-IsLocked slave request refl

abbrev tx : TxBuffer
tx = record { ident = 0; dlc = 0; bytes = replicate 8 0; sync_flag = false }

receive_selects_example :
    let r1 = receive slave (message 0x40 0x1234 0 0 0) in
    let r2 = receive r1.slave (message 0x41 7 0 0 0) in
    let r3 = receive r2.slave (message 0x42 2 0 0 0) in
    let r4 = receive r3.slave (message 0x43 98 0 0 0) in
    ((r4.slave.lss_state ≡ configuration) ↔ (stranger ≡ address))
    × (r1.sent ≡ none)
    × (r2.sent ≡ none)
    × (r3.sent ≡ none)
    × ((r4.sent ≡ none) ↔ (r4.slave.lss_state ≡ waiting))
receive_selects_example =
    receive_selects slave stranger refl (omega arith) (omega arith) (omega arith) (omega arith)

receive_finds_example :
    let r0 = receive slave (scan_message 0 0x80 0 0) in
    let r1 = receive r0.slave (scan_message 0x1234 0 0 1) in
    let r2 = receive r1.slave (scan_message 7 0 1 2) in
    let r3 = receive r2.slave (scan_message 2 0 2 3) in
    let r4 = receive r3.slave (scan_message 98 0 3 0) in
    (r4.slave.lss_state ≡ configuration) ↔ (stranger ≡ address)
receive_finds_example = receive_finds slave stranger slave-IsUnconfigured stranger-IsWords

-- A slave that is switched by its address answers with its node-ID.
abbrev switched : Slave
switched = (receive (record slave { lss_select = address }) (message 0x43 99 0 0 0)).slave

unfoldable runs : Bool
unfolding receive service_switch_state_selective service_inquire
runs = elim (receive switched (message 0x5e 0 0 0 0)).sent [
  | none ↦ false
  | some bytes ↦ get_or bytes 1 0 == 255
]

runs_lem : runs ≡ true
unfolding runs
runs_lem = refl
