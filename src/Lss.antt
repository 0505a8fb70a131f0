-- ===== src/Lss.antt =====
-- stack/CO_LSS.h: the command specifiers, states, addresses and validity tests that the LSS slave
-- and the LSS master share.
use canopen_node.Prelude.{ℕ, Bool, not, ◌&&◌, ◌||◌, List, [], ◌∷◌, leb, ◌==◌, get_or}

-- `CO_LSS_cs_t`
abbrev pub switch_state_global : ℕ
switch_state_global = 0x04

abbrev pub switch_state_sel_vendor : ℕ
switch_state_sel_vendor = 0x40

abbrev pub switch_state_sel_product : ℕ
switch_state_sel_product = 0x41

abbrev pub switch_state_sel_rev : ℕ
switch_state_sel_rev = 0x42

abbrev pub switch_state_sel_serial : ℕ
switch_state_sel_serial = 0x43

abbrev pub switch_state_sel : ℕ
switch_state_sel = 0x44

abbrev pub cfg_node_id : ℕ
cfg_node_id = 0x11

abbrev pub cfg_bit_timing : ℕ
cfg_bit_timing = 0x13

abbrev pub cfg_activate_bit_timing : ℕ
cfg_activate_bit_timing = 0x15

abbrev pub cfg_store : ℕ
cfg_store = 0x17

abbrev pub ident_slave : ℕ
ident_slave = 0x4f

abbrev pub ident_fastscan : ℕ
ident_fastscan = 0x51

abbrev pub inquire_vendor : ℕ
inquire_vendor = 0x5a

abbrev pub inquire_product : ℕ
inquire_product = 0x5b

abbrev pub inquire_rev : ℕ
inquire_rev = 0x5c

abbrev pub inquire_serial : ℕ
inquire_serial = 0x5d

abbrev pub inquire_node_id : ℕ
inquire_node_id = 0x5e

-- `CO_LSS_CS_SERVICE_IS_...`
abbrev pub is_switch_global : ℕ → Bool
is_switch_global cs = cs == switch_state_global

abbrev pub is_switch_state_selective : ℕ → Bool
is_switch_state_selective cs = leb switch_state_sel_vendor cs && leb cs switch_state_sel

abbrev pub is_config : ℕ → Bool
is_config cs = leb cfg_node_id cs && leb cs cfg_store

abbrev pub is_inquire : ℕ → Bool
is_inquire cs = leb inquire_vendor cs && leb cs inquire_node_id

abbrev pub is_ident : ℕ → Bool
is_ident cs = (cs == ident_slave) || (cs == ident_fastscan)

-- The error codes of `CO_LSS_cfgNodeId_t`, `CO_LSS_cfgBitTiming_t` and `CO_LSS_cfgStore_t`.
abbrev pub cfg_ok : ℕ
cfg_ok = 0

abbrev pub cfg_out_of_range : ℕ
cfg_out_of_range = 1

abbrev pub cfg_store_not_supported : ℕ
cfg_store_not_supported = 1

abbrev pub cfg_store_failed : ℕ
cfg_store_failed = 2

abbrev pub fastscan_confirm : ℕ
fastscan_confirm = 0x80

-- `CO_LSS_FASTSCAN_BITCHECK_VALID`
abbrev pub is_bitcheck_valid : ℕ → Bool
is_bitcheck_valid bit = leb bit 0x1f || (bit == fastscan_confirm)

-- `CO_LSS_FASTSCAN_LSS_SUB_NEXT_VALID`
abbrev pub is_sub_next_valid : ℕ → Bool
is_sub_next_valid index = leb index 3

-- `CO_LSS_state_t`
pub data LssState : Type 0 where
  waiting configuration : LssState

-- `CO_LSS_address_t`
pub record Address : Type 0 where
  pub vendor_id : ℕ
  pub product_code : ℕ
  pub revision_number : ℕ
  pub serial_number : ℕ

-- `addr[i]` of the union.
abbrev pub address_at : Address → ℕ → ℕ
address_at a i =
    get_or (a.vendor_id ∷ a.product_code ∷ a.revision_number ∷ a.serial_number ∷ []) i 0

abbrev pub no_address : Address
no_address = record { vendor_id = 0; product_code = 0; revision_number = 0; serial_number = 0 }

-- `CO_LSS_ADDRESS_EQUAL`
abbrev pub address_equal : Address → Address → Bool
address_equal a1 a2 =
    ((a1.product_code == a2.product_code) && (a1.revision_number == a2.revision_number))
    && ((a1.serial_number == a2.serial_number) && (a1.vendor_id == a2.vendor_id))

-- `CO_LSS_bitTimingTableLookup`
abbrev pub bit_timing_table_lookup : List ℕ
bit_timing_table_lookup = 1000 ∷ 800 ∷ 500 ∷ 250 ∷ 125 ∷ 0 ∷ 50 ∷ 20 ∷ 10 ∷ 0 ∷ []

-- `CO_LSS_BIT_TIMING_VALID`
abbrev pub is_bit_timing_valid : ℕ → Bool
is_bit_timing_valid index = not (index == 5) && leb index 9

abbrev pub node_id_assignment : ℕ
node_id_assignment = 0xff

-- `CO_LSS_NODE_ID_VALID`
abbrev pub is_node_id_valid : ℕ → Bool
is_node_id_valid nid = (leb 1 nid && leb nid 0x7f) || (nid == node_id_assignment)
