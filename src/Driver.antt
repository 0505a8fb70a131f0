-- ===== src/Driver.antt =====
-- The types of stack/drvTemplate/CO_driver.h and stack/CO_SDO.h that the communication objects
-- exchange with the CAN driver and the SDO server. A call of `CO_CANsend` is modelled by the frame
-- that is handed over, one of `CO_CANrxBufferInit` by its arguments.
use canopen_node.Prelude.{ℕ, List, Bool, get_or}

-- `CO_CANrxMsg_t`: the length and the 8 data bytes. The identifier has been matched by the driver.
pub record RxMsg : Type 0 where
  pub dlc : ℕ
  pub bytes : List ℕ

-- `msg->data[i]`
abbrev pub data_at : RxMsg → ℕ → ℕ
data_at msg i = get_or msg.bytes i 0

-- `CO_CANtx_t`: the identifier, the length, the data bytes and the flag of synchronous messages.
-- `bufferFull` belongs to the driver, and is an argument where the stack reads it.
pub record TxBuffer : Type 0 where
  pub ident : ℕ
  pub dlc : ℕ
  pub bytes : List ℕ
  pub sync_flag : Bool

-- The identifier and mask that a receive buffer is configured for.
pub record RxFilter : Type 0 where
  pub index : ℕ
  pub ident : ℕ
  pub mask : ℕ

-- `CO_ReturnError_t`
pub data ReturnError : Type 0 where
  error_no error_illegal_argument error_out_of_memory error_timeout : ReturnError
  error_illegal_baudrate error_rx_overflow error_rx_pdo_overflow error_rx_msg_length : ReturnError
  error_rx_pdo_length error_tx_overflow error_tx_busy error_tx_pdo_window : ReturnError
  error_tx_unconfigured error_parameters error_data_corrupt error_crc : ReturnError
  error_wrong_nmt_state : ReturnError

-- `CO_SDO_abortCode_t`
pub data AbortCode : Type 0 where
  ab_none ab_toggle_bit ab_timeout ab_cmd ab_block_size ab_seq_num ab_crc ab_out_of_mem : AbortCode
  ab_unsupported_access ab_writeonly ab_readonly ab_not_exist ab_no_map ab_map_len : AbortCode
  ab_pram_incompat ab_device_incompat ab_hw ab_type_mismatch ab_data_long ab_data_short : AbortCode
  ab_sub_unknown ab_invalid_value ab_value_high ab_value_low ab_max_less_min : AbortCode
  ab_no_resource ab_general ab_data_transf ab_data_loc_ctrl ab_data_dev_state ab_data_od : AbortCode
  ab_no_data : AbortCode

-- What an object dictionary function sees of `CO_ODF_arg_t`.
pub record OdfArg : Type 0 where
  pub bytes : List ℕ
  pub sub_index : ℕ
  pub reading : Bool
