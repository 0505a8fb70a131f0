-- ===== src/Pdo.antt =====
-- stack/CO_PDO.h: the objects of received and transmitted PDOs, as CO_PDO.c keeps them. The switches
-- for manual control and for calls of object dictionary functions are off, as they are by default.
pub mod Places
pub mod Receive
pub mod Com
pub mod Map
pub mod Od
pub mod Init
pub mod Process
pub mod Transmit
pub mod Stored
pub mod Memory
pub mod Copies
pub mod Toggle
pub mod Mapping
pub mod Configured
pub mod Transfer
pub mod Cos
pub mod Schedule
pub mod Events
pub mod CobId
pub mod Reach
mod Tests
use canopen_node.Driver.{TxBuffer}
use canopen_node.Sdo.{Pointer}
use canopen_node.Prelude.{ℕ, Bool, List}

-- What an element of `mapPointer` points to: a byte of a dummy variable, or the byte at an offset from
-- the place of an entry that a pointer gives.
pub data Place : Type 0 where
  dummy : Place
  od_byte : ℕ → Pointer → ℕ → Place

-- `CO_RPDOCommPar_t`
pub record RpdoCommPar : Type 0 where
  pub cob_id_used_by_rpdo : ℕ
  pub transmission_type : ℕ

-- `CO_TPDOCommPar_t`
pub record TpdoCommPar : Type 0 where
  pub cob_id_used_by_tpdo : ℕ
  pub transmission_type : ℕ
  pub inhibit_time : ℕ
  pub compatibility_entry : ℕ
  pub event_timer : ℕ
  pub sync_start_value : ℕ

-- `CO_RPDOMapPar_t` and `CO_TPDOMapPar_t`, which are alike; the list has eight mapped objects.
pub record PdoMapPar : Type 0 where
  pub number_of_mapped_objects : ℕ
  pub mapped_objects : List ℕ

-- `CO_RPDO_t`. What it points to is an argument: the emergency object, the SDO server, the SYNC object,
-- the NMT state and the parameters, which are objects of the dictionary.
pub record Rpdo : Type 0 where
  pub idx_rpdo_comm_par : ℕ
  pub idx_rpdo_map_par : ℕ
  pub node_id : ℕ
  pub default_cob_id : ℕ
  pub restriction_flags : ℕ
  pub valid : Bool
  pub synchronous : Bool
  pub data_length : ℕ
  pub map_pointer : List Place
  pub can_rx_new_0 : Bool
  pub can_rx_new_1 : Bool
  pub can_rx_data_0 : List ℕ
  pub can_rx_data_1 : List ℕ
  pub can_dev_rx_idx : ℕ

-- `CO_TPDO_t`, with the transmit buffer; what else it points to is an argument.
pub record Tpdo : Type 0 where
  pub idx_tpdo_comm_par : ℕ
  pub idx_tpdo_map_par : ℕ
  pub node_id : ℕ
  pub default_cob_id : ℕ
  pub restriction_flags : ℕ
  pub valid : Bool
  pub data_length : ℕ
  pub send_request : Bool
  pub map_pointer : List Place
  pub send_if_cos_flags : ℕ
  pub sync_counter : ℕ
  pub inhibit_timer : ℕ
  pub event_timer : ℕ
  pub can_tx_buff : TxBuffer
  pub can_dev_tx_idx : ℕ
