-- ===== src/Emergency/Codes.antt =====
-- stack/CO_Emergency.h: the error bits, error codes and bits of the error register that the stack
-- itself uses.
use canopen_node.Prelude.{ℕ}

abbrev pub em_can_bus_warning : ℕ
em_can_bus_warning = 0x01

abbrev pub em_can_rx_bus_passive : ℕ
em_can_rx_bus_passive = 0x06

abbrev pub em_can_tx_bus_passive : ℕ
em_can_tx_bus_passive = 0x07

abbrev pub em_can_tx_bus_off : ℕ
em_can_tx_bus_off = 0x12

abbrev pub em_sync_time_out : ℕ
em_sync_time_out = 0x18

abbrev pub em_sync_length : ℕ
em_sync_length = 0x19

abbrev pub em_heartbeat_consumer : ℕ
em_heartbeat_consumer = 0x1b

abbrev pub em_hb_consumer_remote_reset : ℕ
em_hb_consumer_remote_reset = 0x1c

abbrev pub em_emergency_buffer_full : ℕ
em_emergency_buffer_full = 0x20

abbrev pub em_wrong_error_report : ℕ
em_wrong_error_report = 0x28

abbrev pub emc_generic : ℕ
emc_generic = 0x1000

abbrev pub emc_software_internal : ℕ
emc_software_internal = 0x6100

abbrev pub emc_communication : ℕ
emc_communication = 0x8100

abbrev pub emc_heartbeat : ℕ
emc_heartbeat = 0x8130

abbrev pub emc_sync_data_length : ℕ
emc_sync_data_length = 0x8240

abbrev pub emc_protocol_error : ℕ
emc_protocol_error = 0x8200

abbrev pub em_pdo_wrong_mapping : ℕ
em_pdo_wrong_mapping = 0x1A

abbrev pub err_reg_generic_err : ℕ
err_reg_generic_err = 0x01

abbrev pub err_reg_comm_err : ℕ
err_reg_comm_err = 0x10

abbrev pub err_reg_dev_profile : ℕ
err_reg_dev_profile = 0x20

abbrev pub err_reg_manufacturer : ℕ
err_reg_manufacturer = 0x80
