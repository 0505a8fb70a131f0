-- ===== src/Pdo/Tests.antt =====
-- Runs of CO_PDO.c, and its theorems at inputs that meet their hypotheses.
use canopen_node.Driver.{RxMsg, OdfArg, ab_none, error_no, TxBuffer}
use canopen_node.Emergency.{Em}
use canopen_node.Emergency.Od.{get_uint32}
use canopen_node.Nmt.{nmt_operational}
use canopen_node.Pdo.{Rpdo, RpdoCommPar, Tpdo, TpdoCommPar, PdoMapPar, dummy, od_byte}
use canopen_node.Pdo.CobId.{odf_rpdo_com_read}
use canopen_node.Pdo.Configured.{IsOutcome, rpdo_config_map_safe}
use canopen_node.Pdo.Copies.{places, process_copies}
use canopen_node.Pdo.Cos.{HasChange, is_cos_iff}
use canopen_node.Pdo.Events.{after, called_inhibited, called_event}
use canopen_node.Pdo.Init.{Numbers, rpdo_init}
use canopen_node.Pdo.Map.{rpdo_config_map}
use canopen_node.Pdo.Mapping.{HasMemory, IsMapped, mapable_inside}
use canopen_node.Pdo.Memory.{kept}
use canopen_node.Pdo.Od.{write_rpdo_cob_id, odf_rpdo_com}
use canopen_node.Pdo.Places.{read_all}
use canopen_node.Pdo.Process.{rx_new, rx_data, Arrival, copy_loop, process}
use canopen_node.Pdo.Reach.{IsSound, initialised, stepped, received, Reachable-IsSound}
use canopen_node.Pdo.Receive.{receive}
use canopen_node.Pdo.Schedule.{Call, called, sent_by, count_sent, sent_by_cyclic}
use canopen_node.Pdo.Toggle.{process-receive_sync}
use canopen_node.Pdo.Transfer.{transmitted, process-send}
use canopen_node.Pdo.Transmit.{is_cos, send, process_event, process_kind}
use canopen_node.Sdo.{idle, variable, Entry, at_offset, OdFunction, Sdo}
use canopen_node.Sdo.Od.{get_attribute, no_extension, get_length, get_data_pointer}
use canopen_node.Sync.{Sync}
use canopen_node.Sync
use canopen_node.Prelude.{
  drop, zero, suc, ◌-◌, ◌*◌, ltb, ◌<◌, ◌==◌, ℕ, ◌+◌, ◌%◌, ◌≤◌, ◌≡◌, ◌↔◌, refl, true, false, List,
  [], ◌∷◌, none, some, length, replicate, take, All, if◌then◌else◌, arith,
}

-- An input of two bytes that can be mapped in both directions, and is sent when it changes.
abbrev input : Entry
input = record {
  index = 0x6000;
  max_sub_index = 0;
  attribute = 0x7c;
  length = 2;
  pdata = variable (1 ∷ 2 ∷ []);
}

-- Eight outputs of one byte, and their number, as in the example object dictionary.
abbrev output : Entry
output = record {
  index = 0x6200;
  max_sub_index = 8;
  attribute = 0x3e;
  length = 1;
  pdata = variable (replicate 8 0);
}

abbrev od : List Entry
od = input ∷ output ∷ []

abbrev server : Sdo
server = record {
  buffer_size = 32;
  can_rx_data = replicate 8 0;
  databuffer = replicate 32 0;
  own_od = true;
  od = od;
  extensions = replicate 2 no_extension;
  buffer_offset = 0;
  entry_no = 0;
  arg = record {
    od_data_storage = at_offset 0;
    data_length = 2;
    attribute = 0x7c;
    index = 0x6000;
    sub_index = 0;
    reading = false;
    first_segment = true;
    last_segment = true;
    data_length_total = 2;
    offset = 0;
  };
  node_id = 5;
  state = idle;
  sequence = 0;
  timeout_timer = 0;
  blksize = 0;
  crc_enabled = false;
  crc = 0;
  last_len = 0;
  end_of_transfer = false;
  can_rx_new = false;
  has_funct_signal = false;
  can_tx_data = replicate 8 0;
}

abbrev em : Em
em = record {
  error_status_bits = replicate 6 0;
  error_status_bits_size = 6;
  buf = replicate 10 (replicate 8 0);
  buf_write_ptr = 0;
  buf_read_ptr = 0;
  buf_full = 0;
  wrong_error_report = 0;
  has_funct_signal = false;
  signals = 0;
}

-- An asynchronous RPDO that maps the input.
abbrev rpdo : Rpdo
rpdo = record {
  idx_rpdo_comm_par = 0x1400;
  idx_rpdo_map_par = 0x1600;
  node_id = 5;
  default_cob_id = 0x200;
  restriction_flags = 0;
  valid = true;
  synchronous = false;
  data_length = 2;
  map_pointer = od_byte 0 (at_offset 0) 0 ∷ od_byte 0 (at_offset 0) 1 ∷ replicate 6 dummy;
  can_rx_new_0 = true;
  can_rx_new_1 = false;
  can_rx_data_0 = 7 ∷ 8 ∷ replicate 6 0;
  can_rx_data_1 = replicate 8 0;
  can_dev_rx_idx = 3;
}

abbrev tpdo : Tpdo
tpdo = record {
  idx_tpdo_comm_par = 0x1800;
  idx_tpdo_map_par = 0x1a00;
  node_id = 5;
  default_cob_id = 0x180;
  restriction_flags = 0;
  valid = true;
  data_length = 2;
  send_request = true;
  map_pointer = od_byte 0 (at_offset 0) 0 ∷ od_byte 0 (at_offset 0) 1 ∷ replicate 6 dummy;
  send_if_cos_flags = 3;
  sync_counter = 255;
  inhibit_timer = 0;
  event_timer = 0;
  can_tx_buff = record { ident = 0x185; dlc = 2; bytes = replicate 8 0; sync_flag = false };
  can_dev_tx_idx = 4;
}

abbrev msg : RxMsg
msg = record { dlc = 2; bytes = 9 ∷ 10 ∷ replicate 6 0 }

abbrev sync : Sync
sync = record {
  is_producer = false;
  cob_id = 0x80;
  period_time = 1000;
  period_timeout_time = 1500;
  counter_overflow_value = 0;
  is_inside_window = true;
  can_rx_new = false;
  can_rx_toggle = false;
  counter = 0;
  timer = 900;
  receive_error = 0;
  can_tx_buff = record { ident = 0x80; dlc = 0; bytes = 0 ∷ []; sync_flag = false };
  can_dev_rx_idx = 1;
}

abbrev sync_msg : RxMsg
sync_msg = record { dlc = 0; bytes = replicate 8 0 }

-- A message arrives when the first byte has been copied.
abbrev arrivals : List Arrival
arrivals = record { behind = 1; msg = msg } ∷ []

copied_bytes :
    read_all (process rpdo od false nmt_operational false arrivals).1 (places rpdo) ≡ 9 ∷ 10 ∷ []
unfolding process copy_loop receive
copied_bytes = refl

process_copies_example :
    let (rpdo', od') = process rpdo od false nmt_operational false arrivals in
    (rx_new rpdo' false ≡ false)
    × (read_all od' (places rpdo) ≡ kept (places rpdo) (rx_data rpdo' false))
process_copies_example =
    process_copies rpdo od false nmt_operational false arrivals refl refl refl refl
      (omega arith, refl, refl) ((omega arith, omega arith), ((omega arith, omega arith), tt))
      ((refl, tt), (tt, tt))

abbrev synchronous_rpdo : Rpdo
synchronous_rpdo = record rpdo { synchronous = true; can_rx_new_0 = false }

abbrev later_msg : RxMsg
later_msg = record { dlc = 2; bytes = replicate 8 11 }

process-receive_sync_example :
    let rpdo2 = receive synchronous_rpdo false nmt_operational msg in
    let sync' = Sync.receive sync nmt_operational sync_msg in
    let rpdo3 = receive rpdo2 sync'.can_rx_toggle nmt_operational later_msg in
    read_all (process rpdo3 od sync'.can_rx_toggle nmt_operational true []).1 (places rpdo)
    ≡ 9 ∷ 10 ∷ []
process-receive_sync_example =
    process-receive_sync synchronous_rpdo sync od nmt_operational [] (later_msg ∷ []) msg sync_msg
      [] refl refl refl (omega arith) refl (omega arith, refl, refl)
      ((omega arith, omega arith), ((omega arith, omega arith), tt)) ((refl, tt), (tt, tt))

drop_some : (n : ℕ) (xs : List ℕ) → n < length xs → 1 ≤ length (drop n xs)
drop_some n [] h = absurd (omega arith)
drop_some zero (x ∷ xs) h = omega arith
drop_some (suc n) (x ∷ xs) h = drop_some n xs (omega arith)

server-HasMemory : HasMemory server false
unfolding get_length get_data_pointer get_attribute
server-HasMemory zero i has h = omega arith
server-HasMemory (suc zero) zero has h = absurd (cc h)
server-HasMemory (suc zero) (suc i) has h =
    let inside : ltb 8 (suc i) ≡ false = ground arith in
    let at : (suc i - 1) * 1 ≡ i = omega arith in
    let behind : (suc i == 0) ≡ false = ground arith in
    rw (behind, inside, at) (drop_some i (replicate 8 0) (omega arith))
server-HasMemory (suc (suc e)) i has h =
    absurd (omega (arith, mapable_inside server false (suc (suc e)) i h))

abbrev map_par : PdoMapPar
map_par = record {
  number_of_mapped_objects = 2;
  mapped_objects = 0x60000010 ∷ 0x00050008 ∷ replicate 6 0;
}

rpdo_config_map_safe_example :
    let (code, rpdo', em') = rpdo_config_map rpdo server em map_par 2 in
    (rpdo'.data_length ≤ 8)
    × (length rpdo'.map_pointer ≡ 8)
    × All (IsMapped server false) (take rpdo'.data_length rpdo'.map_pointer)
    × IsOutcome map_par.mapped_objects em code rpdo'.data_length em'
rpdo_config_map_safe_example = rpdo_config_map_safe rpdo server em map_par 2 server-HasMemory refl

process-send_example :
    let rpdo' = receive rpdo false nmt_operational (transmitted (send tpdo od).1) in
    read_all (process rpdo' od false nmt_operational false []).1 (places rpdo) ≡ 1 ∷ 2 ∷ []
process-send_example =
    process-send tpdo od rpdo od false nmt_operational false refl refl refl refl refl refl refl
      (omega arith, refl, refl) ((omega arith, omega arith), ((omega arith, omega arith), tt))
      ((refl, tt), (tt, tt))

is_cos_iff_example : (is_cos tpdo od ≡ true) ↔ HasChange tpdo od 2
is_cos_iff_example = is_cos_iff tpdo od (omega arith)

-- The transmission type is that of the PDO, the inhibit time 10 ms and the event time 50 ms.
abbrev comm_par : ℕ → TpdoCommPar
comm_par type = record {
  cob_id_used_by_tpdo = 0x180;
  transmission_type = type;
  inhibit_time = 100;
  compatibility_entry = 0;
  event_timer = 50;
  sync_start_value = 0;
}

-- Time in microseconds passes, with a SYNC.
abbrev tick : ℕ → Call
tick time = record {
  od = od;
  sync = sync;
  sync_was = true;
  time_difference = time;
  result = error_no;
}

sent_by_cyclic_example :
    count_sent (sent_by tpdo (comm_par 3) (tick 0 ∷ tick 0 ∷ tick 0 ∷ tick 0 ∷ [])) ≡ 1
sent_by_cyclic_example =
    sent_by_cyclic tpdo (comm_par 3) (tick 0 ∷ tick 0 ∷ tick 0 ∷ tick 0 ∷ []) refl
      (omega arith, omega arith, refl) refl

first_sent : (called tpdo (comm_par 255) (tick 1000)).retval ≡ error_no
unfolding process_kind process_event send canopen_node.Pdo.Transmit.process
first_sent = refl

called_inhibited_example :
    let tpdo' =
      after (called tpdo (comm_par 255) (tick 1000)).tpdo (comm_par 255) ((true, tick 8000) ∷ []) in
    (called (record tpdo' { send_request = true }) (comm_par 255) (tick 5000)).sent ≡ none
called_inhibited_example =
    called_inhibited tpdo (comm_par 255) (tick 1000) ((true, tick 8000) ∷ []) true (tick 5000)
      (omega arith) first_sent (omega arith)

called_event_example :
    let tpdo' =
      after
        (called tpdo (comm_par 255) (tick 1000)).tpdo
        (comm_par 255)
        ((false, tick 40000) ∷ []) in
    let behind = called tpdo' (comm_par 255) (tick 9000) in
    (behind.sent ≡ none)
    × (50000 ≤ 1000 + (40000 + 0) + 9000
        → (frame : TxBuffer) × ((called behind.tpdo (comm_par 255) (tick 1)).sent ≡ some frame))
called_event_example =
    called_event tpdo (comm_par 255) (tick 1000) ((false, tick 40000) ∷ []) (tick 9000) (tick 1)
      (omega arith) (refl, tt) first_sent (omega arith) (omega arith)

abbrev rpdo_par : RpdoCommPar
rpdo_par = record { cob_id_used_by_rpdo = 0x200; transmission_type = 255 }

-- The default identifier with the node id, 0x205, and bit 31.
abbrev disable : OdfArg
disable = record { bytes = 5 ∷ 2 ∷ 0 ∷ 0x80 ∷ []; sub_index = 1; reading = false }

disable_accepted : (odf_rpdo_com rpdo rpdo_par nmt_operational disable error_no).0 ≡ ab_none
unfolding odf_rpdo_com write_rpdo_cob_id
disable_accepted = refl

odf_rpdo_com_read_example :
    let (code, rpdo', arg') = odf_rpdo_com rpdo rpdo_par nmt_operational disable error_no in
    get_uint32
      (odf_rpdo_com rpdo' rpdo_par nmt_operational (record arg' { reading = true }) error_no).2
    ≡ (if rpdo'.valid then 0x80000205 else 0x80000205 % 2147483648 + 2147483648)
odf_rpdo_com_read_example =
    odf_rpdo_com_read rpdo rpdo_par nmt_operational disable error_no refl refl (omega arith)
      (λ e. omega (arith, e)) (omega arith) (λ e. omega (arith, e)) disable_accepted

abbrev numbers : Numbers
numbers = record {
  node_id = 5;
  default_cob_id = 0x200;
  restriction_flags = 0;
  idx_comm_par = 0x1400;
  idx_map_par = 0x1600;
  can_dev_idx = 3;
}

-- An object dictionary function that accepts every access.
abbrev accept : OdFunction
accept arg bytes = record {
  code = ab_none;
  bytes = [];
  data_length = arg.data_length;
  last_segment = true;
  data_length_total = 0;
}

abbrev initial : Rpdo
initial = (rpdo_init true rpdo em server numbers rpdo_par map_par accept accept error_no).1

Reachable-IsSound_example : IsSound (receive initial false nmt_operational msg)
Reachable-IsSound_example = Reachable-IsSound (receive initial false nmt_operational msg) (
    stepped initial (receive initial false nmt_operational msg)
      (initialised rpdo em server numbers rpdo_par map_par accept accept error_no refl refl refl)
      (received false nmt_operational msg))
