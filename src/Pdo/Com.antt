-- ===== src/Pdo/Com.antt =====
-- stack/CO_PDO.c: `CO_RPDOconfigCom` and `CO_TPDOconfigCom`.
use canopen_node.Driver.{ReturnError, error_no, RxFilter}
use canopen_node.Pdo.{Rpdo, RpdoCommPar, Tpdo}
use canopen_node.Prelude.{
  ℕ, ◌+◌, ◌/◌, ◌%◌, Bool, true, false, ◌&&◌, leb, ◌==◌, ◌/=◌, if◌then◌else◌, u16,
}

-- `(COB_ID & 0xBFFFF800L) == 0`, of a 32 bit value: bit 31 and the bits 11 to 29 are zero.
abbrev pub is_used_cob_id : ℕ → Bool
is_used_cob_id cob_id = (cob_id / 2048 % 524288 == 0) && (cob_id / 2147483648 == 0)

-- The condition of both: "is RPDO used?", "is TPDO used?"
abbrev pub is_used : ℕ → ℕ → Bool
is_used cob_id data_length = is_used_cob_id cob_id && ((data_length /= 0) && (u16 cob_id /= 0))

-- "is used default COB-ID?"
abbrev pub identifier : ℕ → ℕ → ℕ → ℕ
identifier cob_id default_cob_id node_id =
    if u16 cob_id == default_cob_id then u16 (u16 cob_id + node_id) else u16 cob_id

abbrev is_error_no : ReturnError → Bool
is_error_no error_no = true
is_error_no other = false

-- `r` is the result of `CO_CANrxBufferInit`, which gets the identifier and the mask.
unfoldable pub rpdo_config_com : Rpdo → RpdoCommPar → ℕ → ReturnError → Rpdo × RxFilter
rpdo_config_com rpdo par cob_id r =
    let used = is_used cob_id rpdo.data_length in
    let id = if used then identifier cob_id rpdo.default_cob_id rpdo.node_id else 0 in
    let cleared = record rpdo { valid = false; can_rx_new_0 = false; can_rx_new_1 = false } in
    let configured = record rpdo { valid = true; synchronous = leb par.transmission_type 240 } in
    let rpdo' = if used then configured else cleared in
    (
      if is_error_no r
          then rpdo'
          else record rpdo' { valid = false; can_rx_new_0 = false; can_rx_new_1 = false },
      record { index = rpdo.can_dev_rx_idx; ident = id; mask = 0x7ff },
    )

-- `available` says whether `CO_CANtxBufferInit` finds a buffer; the buffer then has the identifier, the
-- length and the flag of synchronous messages. Without one the PDO is not valid, and its buffer is as
-- it was.
unfoldable pub tpdo_config_com : Tpdo → ℕ → Bool → Bool → Tpdo
tpdo_config_com tpdo cob_id sync_flag available =
    let used = is_used cob_id tpdo.data_length in
    let id = if used then identifier cob_id tpdo.default_cob_id tpdo.node_id else 0 in
    let buffer = record tpdo.can_tx_buff {
      ident = id;
      dlc = tpdo.data_length;
      sync_flag = sync_flag;
    } in
    if available
    then record tpdo { valid = used; can_tx_buff = buffer }
    else record tpdo { valid = false }
