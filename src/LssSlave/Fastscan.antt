-- ===== src/LssSlave/Fastscan.antt =====
-- stack/CO_LSSslave.c: the identification by fastscan.
use canopen_node.Driver.{RxMsg, data_at}
use canopen_node.Lss.{
  ident_slave, ident_fastscan, fastscan_confirm, is_bitcheck_valid, is_sub_next_valid, waiting,
  configuration, address_at, no_address, node_id_assignment,
}
use canopen_node.LssSlave.{Slave, Served, silently, confirm, value_of}
use canopen_node.Prelude.{ℕ, ◌*◌, ◌^◌, not, ◌&&◌, ◌||◌, ltb, ◌==◌, if◌then◌else◌, u32, bit_and}

-- `0xFFFFFFFF << bitCheck`
abbrev pub mask_of : ℕ → ℕ
mask_of bit_check = u32 (0xffffffff * 2 ^ bit_check)

-- The comparison of one part of the address, and the step to the next one.
unfoldable pub fastscan_part : Slave → ℕ → ℕ → ℕ → ℕ → Served
fastscan_part slave id_number bit_check lss_sub lss_next =
    let mask = mask_of bit_check in
    let state =
      if (bit_check == 0) && ltb lss_next lss_sub then configuration else slave.lss_state in
    if (slave.fastscan_pos == lss_sub)
      && (bit_and (address_at slave.lss_address lss_sub) mask == bit_and id_number mask)
    then confirm (record slave { fastscan_pos = lss_next; lss_state = state }) ident_slave 0
    else silently slave

unfoldable pub fastscan : Slave → RxMsg → Served
fastscan slave msg =
    let bit_check = data_at msg 5 in
    let lss_sub = data_at msg 6 in
    let lss_next = data_at msg 7 in
    if not (is_bitcheck_valid bit_check)
      || (not (is_sub_next_valid lss_sub) || not (is_sub_next_valid lss_next))
    then silently slave
    else if bit_check == fastscan_confirm
    then confirm (record slave { fastscan_pos = 0; lss_fastscan = no_address }) ident_slave 0
    else fastscan_part slave (value_of msg) bit_check lss_sub lss_next

unfoldable pub service_ident : Slave → ℕ → RxMsg → Served
service_ident slave service msg = elim slave.lss_state [
  | configuration ↦ silently slave
  | waiting ↦
      if not (service == ident_fastscan)
      then silently slave
      else if not (slave.pending_node_id == node_id_assignment)
          || not (slave.active_node_id == node_id_assignment)
      then silently slave
      else fastscan slave msg
]
