-- ===== src/Sdo.antt =====
-- stack/CO_SDO.h: the object dictionary and the SDO server, as CO_SDO.c keeps them.
pub mod Od
pub mod Bisection
pub mod Find
pub mod Access
pub mod Receive
pub mod Init
pub mod Download
pub mod Upload
pub mod Outcome
pub mod Process
pub mod Buffer
pub mod Store
pub mod Segment
pub mod Segments
pub mod Steps
pub mod BlockSegment
pub mod Blocks
pub mod BlockEnd
pub mod BlockDownload
pub mod Room
pub mod Sends
pub mod Failures
pub mod Waits
pub mod Variable
pub mod ExpeditedSteps
pub mod Expedited
mod Tests
use canopen_node.Driver.{AbortCode}
use canopen_node.Prelude.{ℕ, Bool, List, Option}

-- `CO_SDO_OD_attributes_t`
abbrev pub oda_readable : ℕ
oda_readable = 0x0004

abbrev pub oda_writeable : ℕ
oda_writeable = 0x0008

abbrev pub oda_rpdo_mapable : ℕ
oda_rpdo_mapable = 0x0010

-- `CO_OD_entryRecord_t`: a member of a record; `none` is the null pointer of a domain.
pub record Member : Type 0 where
  pub pdata : Option (List ℕ)
  pub attribute : ℕ
  pub length : ℕ

-- What `pData` of an entry points to: nothing, the bytes of a variable or of the members of an array,
-- or the members of a record.
pub data Storage : Type 0 where
  domain : Storage
  variable : List ℕ → Storage
  members : List Member → Storage

-- `CO_OD_entry_t`
pub record Entry : Type 0 where
  pub index : ℕ
  pub max_sub_index : ℕ
  pub attribute : ℕ
  pub length : ℕ
  pub pdata : Storage

-- A pointer into the data of an entry: null, into the bytes from an offset on, to `maxSubIndex`, or
-- to the bytes of a member.
pub data Pointer : Type 0 where
  null : Pointer
  at_offset : ℕ → Pointer
  at_max_sub_index : Pointer
  at_member : ℕ → Pointer

-- `CO_ODF_arg_t` without `data` and `object`; `pFlags` is determined by the entry and the sub-index.
pub record Arg : Type 0 where
  pub od_data_storage : Pointer
  pub data_length : ℕ
  pub attribute : ℕ
  pub index : ℕ
  pub sub_index : ℕ
  pub reading : Bool
  pub first_segment : Bool
  pub last_segment : Bool
  pub data_length_total : ℕ
  pub offset : ℕ

-- What an object dictionary function may change of its argument, and its result.
pub record Answer : Type 0 where
  pub code : AbortCode
  pub bytes : List ℕ
  pub data_length : ℕ
  pub last_segment : Bool
  pub data_length_total : ℕ

-- `pODFunc`, with its object: it gets the argument and the bytes from `data` on.
abbrev pub OdFunction : Type 0
OdFunction = Arg → List ℕ → Answer

-- `CO_OD_extension_t`: each field is a null pointer until `CO_OD_configure` sets it.
pub record Extension : Type 0 where
  pub od_function : Option OdFunction
  pub flags : Option (List ℕ)

-- `CO_SDO_state_t`
pub data SdoState : Type 0 where
  idle download_initiate download_segmented download_bl_initiate : SdoState
  download_bl_subblock download_bl_sub_resp download_bl_end upload_initiate : SdoState
  upload_segmented upload_bl_initiate upload_bl_initiate_2 upload_bl_subblock : SdoState
  upload_bl_end : SdoState

-- `CO_SDO_t`, with the bytes of the transmit buffer. `buffer_size` is `CO_SDO_BUFFER_SIZE`, and the
-- size of the object dictionary is the length of its list.
pub record Sdo : Type 0 where
  pub buffer_size : ℕ
  pub can_rx_data : List ℕ
  pub databuffer : List ℕ
  pub own_od : Bool
  pub od : List Entry
  pub extensions : List Extension
  pub buffer_offset : ℕ
  pub entry_no : ℕ
  pub arg : Arg
  pub node_id : ℕ
  pub state : SdoState
  pub sequence : ℕ
  pub timeout_timer : ℕ
  pub blksize : ℕ
  pub crc_enabled : Bool
  pub crc : ℕ
  pub last_len : ℕ
  pub end_of_transfer : Bool
  pub can_rx_new : Bool
  pub has_funct_signal : Bool
  pub can_tx_data : List ℕ
