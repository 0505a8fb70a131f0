-- ===== src/LssSlave/Services.antt =====
-- stack/CO_LSSslave.c: switching the state, configuration and inquiry.
use canopen_node.Driver.{RxMsg, data_at}
use canopen_node.Lss.{
  switch_state_sel_vendor, switch_state_sel_product, switch_state_sel_rev, switch_state_sel_serial,
  switch_state_sel, cfg_node_id, cfg_bit_timing, cfg_activate_bit_timing, cfg_store, inquire_vendor,
  inquire_product, inquire_rev, inquire_serial, inquire_node_id, cfg_ok, cfg_out_of_range,
  cfg_store_not_supported, cfg_store_failed, waiting, configuration, no_address, address_equal,
  bit_timing_table_lookup, is_bit_timing_valid, is_node_id_valid,
}
use canopen_node.LssSlave.{Slave, Served, silently, confirm, value_of}
use canopen_node.Prelude.{
  ℕ, ◌+◌, ◌*◌, ◌&&◌, Option, none, some, [], ◌∷◌, ◌++◌, ◌==◌, if◌then◌else◌, get_or, le32,
}

unfoldable pub service_switch_state_global : Slave → RxMsg → Served
service_switch_state_global slave msg =
    let mode = data_at msg 1 in
    if mode == 0
    then silently (record slave { lss_state = waiting; lss_select = no_address })
    else if mode == 1
    then silently (record slave { lss_state = configuration })
    else silently slave

-- The last part of the address has been received.
abbrev pub select_serial : Slave → ℕ → Served
select_serial slave value =
    let slave' = record slave { lss_select = record slave.lss_select { serial_number = value } } in
    if address_equal slave'.lss_address slave'.lss_select
    then confirm (record slave' { lss_state = configuration }) switch_state_sel 0
    else silently slave'

unfoldable pub service_switch_state_selective : Slave → ℕ → RxMsg → Served
service_switch_state_selective slave service msg =
    let value = value_of msg in
    let select = slave.lss_select in
    elim slave.lss_state [
      | configuration ↦ silently slave
      | waiting ↦
          if service == switch_state_sel_vendor
          then silently (record slave { lss_select = record select { vendor_id = value } })
          else if service == switch_state_sel_product
          then silently (record slave { lss_select = record select { product_code = value } })
          else if service == switch_state_sel_rev
          then silently (record slave { lss_select = record select { revision_number = value } })
          else if service == switch_state_sel_serial
          then select_serial slave value
          else silently slave
    ]

unfoldable pub config_node_id : Slave → RxMsg → Served
config_node_id slave msg =
    let nid = data_at msg 1 in
    if is_node_id_valid nid
    then confirm (record slave { pending_node_id = nid }) cfg_node_id cfg_ok
    else confirm slave cfg_node_id cfg_out_of_range

unfoldable pub config_bit_timing : Slave → RxMsg → Served
config_bit_timing slave msg =
    let table_selector = data_at msg 1 in
    let table_index = data_at msg 2 in
    let bit = get_or bit_timing_table_lookup table_index 0 in
    elim slave.check_bit_rate [
      | none ↦ silently slave
      | some is_supported ↦
          if (table_selector == 0) && is_bit_timing_valid table_index
          then record (if is_supported bit
              then confirm (record slave { pending_bit_rate = bit }) cfg_bit_timing cfg_ok
              else confirm slave cfg_bit_timing cfg_out_of_range) { checked = some bit }
          else confirm slave cfg_bit_timing cfg_out_of_range
    ]

unfoldable pub config_activate_bit_timing : Slave → RxMsg → Served
config_activate_bit_timing slave msg =
    let delay = data_at msg 1 + data_at msg 2 * 256 in
    elim slave.check_bit_rate [
      | none ↦ silently slave
      | some is_supported ↦
          if slave.has_activate_bit_rate
          then record (silently slave) { activated = some delay }
          else silently slave
    ]

unfoldable pub config_store : Slave → Served
config_store slave =
    let id = slave.pending_node_id in
    let bit_rate = slave.pending_bit_rate in
    elim slave.cfg_store_callback [
      | none ↦ confirm slave cfg_store cfg_store_not_supported
      | some store ↦
          record (confirm slave cfg_store
            (if store id bit_rate then cfg_ok else cfg_store_failed)) {
              stored = some (id, bit_rate);
            }
    ]

unfoldable pub service_config : Slave → ℕ → RxMsg → Served
service_config slave service msg = elim slave.lss_state [
  | waiting ↦ silently slave
  | configuration ↦
      if service == cfg_node_id
      then config_node_id slave msg
      else if service == cfg_bit_timing
      then config_bit_timing slave msg
      else if service == cfg_activate_bit_timing
      then config_activate_bit_timing slave msg
      else if service == cfg_store
      then config_store slave
      else silently slave
]

-- The value that is asked for.
abbrev pub inquired : Slave → ℕ → Option ℕ
inquired slave service =
    if service == inquire_vendor
    then some slave.lss_address.vendor_id
    else if service == inquire_product
    then some slave.lss_address.product_code
    else if service == inquire_rev
    then some slave.lss_address.revision_number
    else if service == inquire_serial
    then some slave.lss_address.serial_number
    else if service == inquire_node_id
    then some slave.active_node_id
    else none

-- The response is 8 bytes long. The source clears one byte behind them as well, which is not part
-- of the response and is left out.
unfoldable pub service_inquire : Slave → ℕ → Served
service_inquire slave service = elim slave.lss_state [
  | waiting ↦ silently slave
  | configuration ↦ elim (inquired slave service) [
    | none ↦ silently slave
    | some value ↦ record (silently slave) {
      sent = some (service ∷ le32 value ++ (0 ∷ 0 ∷ 0 ∷ []));
    }
  ]
]
