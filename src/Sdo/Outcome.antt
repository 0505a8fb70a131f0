-- ===== src/Sdo/Outcome.antt =====
-- stack/CO_SDO.c: how a step of the SDO server ends, `CO_SDO_abort`, and the parts that the cases of
-- the state machine share. Bits that are disjoint are combined by a sum.
use canopen_node.Driver.{
  AbortCode, ab_none, ab_toggle_bit, ab_timeout, ab_cmd, ab_block_size, ab_seq_num, ab_crc,
  ab_out_of_mem, ab_unsupported_access, ab_writeonly, ab_readonly, ab_not_exist, ab_no_map,
  ab_map_len, ab_pram_incompat, ab_device_incompat, ab_hw, ab_type_mismatch, ab_data_long,
  ab_data_short, ab_sub_unknown, ab_invalid_value, ab_value_high, ab_value_low, ab_max_less_min,
  ab_no_resource, ab_general, ab_data_transf, ab_data_loc_ctrl, ab_data_dev_state, ab_data_od,
  ab_no_data,
}
use canopen_node.Sdo.{idle, Sdo}
use canopen_node.Sdo.Access.{is_abort, overwrite}
use canopen_node.Prelude.{
  ℕ, zero, suc, ◌+◌, ◌/◌, ◌%◌, Bool, false, List, ◌∷◌, ltb, if◌then◌else◌, get_or, set, le32, u8,
}

-- The values of `CO_SDO_abortCode_t`.
unfoldable pub abort_code : AbortCode → ℕ
abort_code ab_none = 0x00000000
abort_code ab_toggle_bit = 0x05030000
abort_code ab_timeout = 0x05040000
abort_code ab_cmd = 0x05040001
abort_code ab_block_size = 0x05040002
abort_code ab_seq_num = 0x05040003
abort_code ab_crc = 0x05040004
abort_code ab_out_of_mem = 0x05040005
abort_code ab_unsupported_access = 0x06010000
abort_code ab_writeonly = 0x06010001
abort_code ab_readonly = 0x06010002
abort_code ab_not_exist = 0x06020000
abort_code ab_no_map = 0x06040041
abort_code ab_map_len = 0x06040042
abort_code ab_pram_incompat = 0x06040043
abort_code ab_device_incompat = 0x06040047
abort_code ab_hw = 0x06060000
abort_code ab_type_mismatch = 0x06070010
abort_code ab_data_long = 0x06070012
abort_code ab_data_short = 0x06070013
abort_code ab_sub_unknown = 0x06090011
abort_code ab_invalid_value = 0x06090030
abort_code ab_value_high = 0x06090031
abort_code ab_value_low = 0x06090032
abort_code ab_max_less_min = 0x06090036
abort_code ab_no_resource = 0x060a0023
abort_code ab_general = 0x08000000
abort_code ab_data_transf = 0x08000020
abort_code ab_data_loc_ctrl = 0x08000021
abort_code ab_data_dev_state = 0x08000022
abort_code ab_data_od = 0x08000023
abort_code ab_no_data = 0x08000024

-- How a case of the state machine ends: by `CO_SDO_abort`, by `sendResponse = true; break`, by
-- `break` alone, or by `return 1`, with the response sent before or not.
pub data Outcome : Type 0 where
  aborted : AbortCode → Sdo → Outcome
  replied : Sdo → Outcome
  quiet : Sdo → Outcome
  pending : Bool → Sdo → Outcome

-- An access to the object dictionary, and what follows it if it does not fail.
abbrev pub after : AbortCode × Sdo → (Sdo → Outcome) → Outcome
after (code, sdo) k = if is_abort code then aborted code sdo else k sdo

-- `SDO->CANrxData[i]`
abbrev pub rx : Sdo → ℕ → ℕ
rx sdo i = get_or sdo.can_rx_data i 0

-- Bytes written to the response from byte `at` on.
abbrev pub respond : Sdo → ℕ → List ℕ → Sdo
respond sdo at bytes = record sdo { can_tx_data = overwrite sdo.can_tx_data at bytes }

-- The number of segments that fit into `len` bytes, at most 127.
abbrev pub segments_in : ℕ → ℕ
segments_in len = if ltb 889 len then 127 else u8 (len / 7)

-- `for(...) data[to++] = data[from++];` for `n` bytes of one array.
unfoldable pub move_bytes : ℕ → ℕ → ℕ → List ℕ → List ℕ
move_bytes zero from to buf = buf
move_bytes (suc n) from to buf = move_bytes n (from + 1) (to + 1) (set buf to (get_or buf from 0))

abbrev pub abort_frame : Sdo → AbortCode → List ℕ
abort_frame sdo code =
    0x80
    ∷ sdo.arg.index % 256
    ∷ sdo.arg.index / 256 % 256
    ∷ sdo.arg.sub_index
    ∷ le32 (abort_code code)

-- `CO_SDO_abort`: the state behind it; the frame is what is sent.
unfoldable pub abort : Sdo → AbortCode → Sdo
abort sdo code = record sdo { can_tx_data = abort_frame sdo code; state = idle; can_rx_new = false }
