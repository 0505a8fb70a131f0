-- ===== src/Pdo/Od.antt =====
-- stack/CO_PDO.c: the object dictionary functions of the communication and the mapping parameters.
-- Each gives the abort code, the PDO, and the argument with the bytes that it has changed.
use canopen_node.Driver.{
  OdfArg, AbortCode, ab_none, ab_readonly, ab_data_dev_state, ab_invalid_value, ab_sub_unknown,
  ab_unsupported_access, ab_map_len, ReturnError,
}
use canopen_node.Emergency.{Em}
use canopen_node.Emergency.Od.{get_uint32}
use canopen_node.Nmt.{nmt_operational}
use canopen_node.Pdo.{Rpdo, RpdoCommPar, Tpdo, TpdoCommPar, PdoMapPar}
use canopen_node.Pdo.Com.{rpdo_config_com, tpdo_config_com}
use canopen_node.Pdo.Map.{find_map, rpdo_config_map, tpdo_config_map}
use canopen_node.Sdo.{Sdo}
use canopen_node.Prelude.{
  ℕ, ◌+◌, ◌*◌, ◌/◌, ◌%◌, Bool, true, false, not, ◌&&◌, ◌||◌, ◌++◌, ltb, leb, ◌==◌, ◌/=◌,
  if◌then◌else◌, get_or, set, drop, le32, u16, u32, bit_and,
}

-- The value that is read at sub-index 1: the default identifier with the node id, and bit 31 if the
-- PDO is not valid.
abbrev pub shown_cob_id : ℕ → ℕ → ℕ → Bool → ℕ
shown_cob_id value default_cob_id node_id valid =
    let shifted =
      if (u16 value == default_cob_id) && (default_cob_id /= 0)
      then u32 (value + node_id)
      else value in
    if valid then shifted else shifted % 2147483648 + 2147483648

-- "if default COB-ID is being written, write defaultCOB_ID without nodeId"
abbrev pub stored_cob_id : ℕ → ℕ → ℕ → ℕ
stored_cob_id value default_cob_id node_id =
    if u16 value == default_cob_id + node_id
    then u32 (value / 1073741824 % 4 * 1073741824 + default_cob_id)
    else value

-- `value & 0x3FFF8000L`
abbrev pub has_high_bits : ℕ → Bool
has_high_bits value = value / 32768 % 32768 /= 0

-- `(a ^ b) & 0x3FFFFFFFL`
abbrev pub is_changed : ℕ → ℕ → Bool
is_changed a b = a % 1073741824 /= b % 1073741824

abbrev pub with_uint32 : OdfArg → ℕ → OdfArg
with_uint32 arg value = record arg { bytes = le32 value ++ drop 4 arg.bytes }

-- The restrictions on a write: `RPDO->restrictionFlags & flag`.
abbrev pub is_restricted : ℕ → ℕ → Bool
is_restricted flags flag = bit_and flags flag /= 0

-- "COB_ID" of `CO_ODF_RPDOcom`
unfoldable pub write_rpdo_cob_id :
    Rpdo → RpdoCommPar → OdfArg → ReturnError → AbortCode × Rpdo × OdfArg
write_rpdo_cob_id rpdo par arg r =
    let value = stored_cob_id (get_uint32 arg) rpdo.default_cob_id rpdo.node_id in
    let arg' = with_uint32 arg value in
    if has_high_bits (get_uint32 arg)
    then (ab_invalid_value, rpdo, arg)
    else if rpdo.valid && is_changed value par.cob_id_used_by_rpdo
    then (ab_invalid_value, rpdo, arg')
    else (ab_none, (rpdo_config_com rpdo par value r).0, arg')

-- "Transmission_type" of `CO_ODF_RPDOcom`
unfoldable pub write_rpdo_type : Rpdo → ℕ → AbortCode × Rpdo
write_rpdo_type rpdo value =
    let synchronous = leb value 240 in
    let changed = if synchronous then not rpdo.synchronous else rpdo.synchronous in
    if leb 241 value && leb value 253 then (ab_invalid_value, rpdo) else (
      ab_none,
      record rpdo {
        synchronous = synchronous;
        can_rx_new_1 = if changed then false else rpdo.can_rx_new_1;
      },
    )

-- `CO_ODF_RPDOcom`: `r` is the result of `CO_CANrxBufferInit`, if it is called.
unfoldable pub odf_rpdo_com :
    Rpdo → RpdoCommPar → ℕ → OdfArg → ReturnError → AbortCode × Rpdo × OdfArg
odf_rpdo_com rpdo par state arg r =
    let value = get_uint32 arg in
    let (code, rpdo') = write_rpdo_type rpdo (get_or arg.bytes 0 0) in
    if arg.reading
    then if arg.sub_index == 1
      then (
        ab_none,
        rpdo,
        with_uint32 arg (shown_cob_id value rpdo.default_cob_id rpdo.node_id rpdo.valid),
      )
      else (ab_none, rpdo, arg)
    else if is_restricted rpdo.restriction_flags 0x04
    then (ab_readonly, rpdo, arg)
    else if (state == nmt_operational) && is_restricted rpdo.restriction_flags 0x01
    then (ab_data_dev_state, rpdo, arg)
    else if arg.sub_index == 1
    then write_rpdo_cob_id rpdo par arg r
    else if arg.sub_index == 2
    then (code, rpdo', arg)
    else (ab_none, rpdo, arg)

-- "COB_ID" of `CO_ODF_TPDOcom`
unfoldable pub write_tpdo_cob_id : Tpdo → TpdoCommPar → OdfArg → Bool → AbortCode × Tpdo × OdfArg
write_tpdo_cob_id tpdo par arg available =
    let value = stored_cob_id (get_uint32 arg) tpdo.default_cob_id tpdo.node_id in
    let arg' = with_uint32 arg value in
    if has_high_bits (get_uint32 arg)
    then (ab_invalid_value, tpdo, arg)
    else if tpdo.valid && is_changed value par.cob_id_used_by_tpdo
    then (ab_invalid_value, tpdo, arg')
    else (
      ab_none,
      record (tpdo_config_com tpdo value tpdo.can_tx_buff.sync_flag available) {
        sync_counter = 255;
      },
      arg',
    )

-- The other sub-indexes that are written in `CO_ODF_TPDOcom`: transmission type, inhibit time, event
-- timer and SYNC start value.
unfoldable pub write_tpdo_other : Tpdo → OdfArg → AbortCode × Tpdo
write_tpdo_other tpdo arg =
    let value = get_or arg.bytes 0 0 in
    let value16 = value + get_or arg.bytes 1 0 * 256 in
    if arg.sub_index == 2
    then if leb 241 value && leb value 253 then (ab_invalid_value, tpdo) else (
      ab_none,
      record tpdo {
        can_tx_buff = record tpdo.can_tx_buff { sync_flag = leb value 240 };
        sync_counter = 255;
      },
    )
    else if arg.sub_index == 3
    then if tpdo.valid
      then (ab_invalid_value, tpdo)
      else (ab_none, record tpdo { inhibit_timer = 0 })
    else if arg.sub_index == 5
    then (ab_none, record tpdo { event_timer = value16 * 1000 })
    else if arg.sub_index == 6
    then if tpdo.valid || ltb 240 value then (ab_invalid_value, tpdo) else (ab_none, tpdo)
    else (ab_none, tpdo)

-- `CO_ODF_TPDOcom`: `available` is the result of `CO_CANtxBufferInit`, if it is called.
unfoldable pub odf_tpdo_com : Tpdo → TpdoCommPar → ℕ → OdfArg → Bool → AbortCode × Tpdo × OdfArg
odf_tpdo_com tpdo par state arg available =
    let value = get_uint32 arg in
    let (code, tpdo') = write_tpdo_other tpdo arg in
    if arg.sub_index == 4
    then (ab_sub_unknown, tpdo, arg)
    else if arg.reading
    then if arg.sub_index == 1
      then (
        ab_none,
        tpdo,
        with_uint32 arg (shown_cob_id value tpdo.default_cob_id tpdo.node_id tpdo.valid),
      )
      else (ab_none, tpdo, arg)
    else if is_restricted tpdo.restriction_flags 0x04
    then (ab_readonly, tpdo, arg)
    else if (state == nmt_operational) && is_restricted tpdo.restriction_flags 0x01
    then (ab_data_dev_state, tpdo, arg)
    else if arg.sub_index == 1
    then write_tpdo_cob_id tpdo par arg available
    else (code, tpdo', arg)

-- "If there is error in mapping, dataLength is 0, so numberOfMappedObjects is 0."
abbrev pub shown_count : OdfArg → ℕ → OdfArg
shown_count arg data_length =
    if (arg.sub_index == 0) && (data_length == 0)
    then record arg { bytes = set arg.bytes 0 0 }
    else arg

unfoldable pub odf_rpdo_map :
    Rpdo → Sdo → Em → PdoMapPar → ℕ → OdfArg → AbortCode × Rpdo × Em × OdfArg
odf_rpdo_map rpdo sdo em par state arg =
    let value = get_or arg.bytes 0 0 in
    let (code, rpdo', em') = rpdo_config_map rpdo sdo em par value in
    let found = find_map sdo (get_uint32 arg) false 0 0 in
    if arg.reading
    then (ab_none, rpdo, em, shown_count arg rpdo.data_length)
    else if is_restricted rpdo.restriction_flags 0x08
    then (ab_readonly, rpdo, em, arg)
    else if (state == nmt_operational) && is_restricted rpdo.restriction_flags 0x02
    then (ab_data_dev_state, rpdo, em, arg)
    else if rpdo.valid
    then (ab_unsupported_access, rpdo, em, arg)
    else if arg.sub_index == 0
    then if ltb 8 value then (ab_map_len, rpdo, em, arg) else (code, rpdo', em', arg)
    else if rpdo.data_length /= 0
    then (ab_unsupported_access, rpdo, em, arg)
    else (found.code, rpdo, em, arg)

unfoldable pub odf_tpdo_map :
    Tpdo → Sdo → Em → PdoMapPar → ℕ → OdfArg → AbortCode × Tpdo × Em × OdfArg
odf_tpdo_map tpdo sdo em par state arg =
    let value = get_or arg.bytes 0 0 in
    let (code, tpdo', em') = tpdo_config_map tpdo sdo em par value in
    let found = find_map sdo (get_uint32 arg) true 0 0 in
    if arg.reading
    then (ab_none, tpdo, em, shown_count arg tpdo.data_length)
    else if is_restricted tpdo.restriction_flags 0x08
    then (ab_readonly, tpdo, em, arg)
    else if (state == nmt_operational) && is_restricted tpdo.restriction_flags 0x02
    then (ab_data_dev_state, tpdo, em, arg)
    else if tpdo.valid
    then (ab_unsupported_access, tpdo, em, arg)
    else if arg.sub_index == 0
    then if ltb 8 value then (ab_map_len, tpdo, em, arg) else (code, tpdo', em', arg)
    else if tpdo.data_length /= 0
    then (ab_unsupported_access, tpdo, em, arg)
    else (found.code, tpdo, em, arg)
