-- ===== src/LssSlave.antt =====
-- stack/CO_LSSslave.c and .h: the slave of the layer setting services.
pub mod Fastscan
pub mod Led
pub mod Mask
pub mod Receive
pub mod Scan
pub mod Services
pub mod States
mod Tests
use canopen_node.Driver.{
  RxMsg, data_at, TxBuffer, RxFilter, ReturnError, error_no, error_illegal_argument,
}
use canopen_node.Lss.{
  switch_state_global, switch_state_sel_vendor, switch_state_sel_product, switch_state_sel_rev,
  switch_state_sel_serial, switch_state_sel, cfg_node_id, cfg_bit_timing, cfg_activate_bit_timing,
  cfg_store, ident_slave, ident_fastscan, inquire_vendor, inquire_product, inquire_rev,
  inquire_serial, inquire_node_id, is_switch_global, is_switch_state_selective, is_config,
  is_inquire, is_ident, cfg_ok, cfg_out_of_range, cfg_store_not_supported, cfg_store_failed,
  fastscan_confirm, is_bitcheck_valid, is_sub_next_valid, LssState, waiting, configuration, Address,
  address_at, no_address, address_equal, bit_timing_table_lookup, is_bit_timing_valid,
  node_id_assignment, is_node_id_valid,
}
use canopen_node.Prelude.{
  ℕ, ◌+◌, ◌*◌, ◌/◌, ◌%◌, ◌^◌, Bool, true, false, not, ◌&&◌, ◌||◌, Option, none, some, List, [], ◌∷◌,
  ◌++◌, ltb, leb, ◌==◌, if◌then◌else◌, get_or, le32, of_le32, u32, bit_and,
}

-- `CO_LSSslave_t`. A callback stands with the object that it is called with. `TXbuff` is left out:
-- each confirmation writes all its 8 bytes, and its identifier and length stay as initialised.
pub record Slave : Type 0 where
  pub lss_address : Address
  pub lss_state : LssState
  pub lss_select : Address
  pub lss_fastscan : Address
  pub fastscan_pos : ℕ
  pub pending_bit_rate : ℕ
  pub pending_node_id : ℕ
  pub active_node_id : ℕ
  pub check_bit_rate : Option (ℕ → Bool)
  pub has_activate_bit_rate : Bool
  pub cfg_store_callback : Option (ℕ → ℕ → Bool)

-- What a service leaves: the state, the 8 bytes of the confirmation that it sends, and for each of the
-- callbacks, which check and activate a bit rate and store, what it is called with, if it is called.
pub record Served : Type 0 where
  pub slave : Slave
  pub sent : Option (List ℕ)
  pub checked : Option ℕ
  pub activated : Option ℕ
  pub stored : Option (ℕ × ℕ)

-- A service that only changes the state.
abbrev pub silently : Slave → Served
silently slave = record {
  slave = slave;
  sent = none;
  checked = none;
  activated = none;
  stored = none;
}

-- A confirmation of two bytes, the others are 0.
abbrev pub confirm : Slave → ℕ → ℕ → Served
confirm slave cs code = record {
  slave = slave;
  sent = some (cs ∷ code ∷ 0 ∷ 0 ∷ 0 ∷ 0 ∷ 0 ∷ 0 ∷ []);
  checked = none;
  activated = none;
  stored = none;
}

-- The four bytes behind the command specifier.
abbrev pub value_of : RxMsg → ℕ
value_of msg = of_le32 (data_at msg 1) (data_at msg 2) (data_at msg 3) (data_at msg 4)

-- `CO_LSSslave_init`: the receive and transmit buffers are configured for the two identifiers.
-- `pointers` says that no pointer argument is NULL, `slave0` and `tx0` are what was held before.
unfoldable pub init :
    Bool
    → Slave
    → TxBuffer
    → Address
    → ℕ
    → ℕ
    → ℕ
    → ℕ
    → ℕ
    → ReturnError × Slave × Option (RxFilter × TxBuffer)
init pointers slave0 tx0 address bit_rate node_id rx_idx master_id slave_id =
    if not pointers || not (is_node_id_valid node_id)
    then (error_illegal_argument, slave0, none)
    else if (address.vendor_id == 0) || (address.serial_number == 0)
    then (error_illegal_argument, slave0, none)
    else (
      error_no,
      record {
        lss_address = address;
        lss_state = waiting;
        lss_select = no_address;
        lss_fastscan = no_address;
        fastscan_pos = 0;
        pending_bit_rate = bit_rate;
        pending_node_id = node_id;
        active_node_id = node_id_assignment;
        check_bit_rate = none;
        has_activate_bit_rate = false;
        cfg_store_callback = none;
      },
      some (
        record { index = rx_idx; ident = master_id; mask = 0x7ff },
        record tx0 { ident = slave_id; dlc = 8; sync_flag = false },
      ),
    )

-- `CO_LSSslave_initCheckBitRateCallback`, `CO_LSSslave_initActivateBitRateCallback` and
-- `CO_LSSslave_initCfgStoreCallback`, for an object that is not NULL.
unfoldable pub init_check_bit_rate_callback : Slave → Option (ℕ → Bool) → Slave
init_check_bit_rate_callback slave f = record slave { check_bit_rate = f }

unfoldable pub init_activate_bit_rate_callback : Slave → Bool → Slave
init_activate_bit_rate_callback slave given = record slave { has_activate_bit_rate = given }

unfoldable pub init_cfg_store_callback : Slave → Option (ℕ → ℕ → Bool) → Slave
init_cfg_store_callback slave f = record slave { cfg_store_callback = f }

-- `CO_LSSslave_process`: the pending bit rate and node-ID are the results.
unfoldable pub process : Slave → ℕ → Slave × ℕ × ℕ
process slave active_node_id = (
  record slave { active_node_id = active_node_id },
  slave.pending_bit_rate,
  slave.pending_node_id,
)

-- `CO_LSSslave_getState`; no object gives the waiting state.
unfoldable pub get_state : Option Slave → LssState
get_state none = waiting
get_state (some slave) = slave.lss_state
