-- ===== src/SdoClient.antt =====
-- stack/CO_SDOmaster.h and .c: the SDO client, its reception, abort and what its calls give.
pub mod Setup
pub mod Download
pub mod Upload
pub mod Local
pub mod Segmented
pub mod Rounds
pub mod Dialogue
pub mod Expedited
mod Tests
use canopen_node.Driver.{RxMsg, data_at, AbortCode, ab_timeout}
use canopen_node.Sdo.Outcome.{abort_code}
use canopen_node.Prelude.{
  ℕ, ◌+◌, ◌*◌, ◌/◌, ◌%◌, Bool, true, false, not, ◌&&◌, ◌||◌, List, [], ◌∷◌, Option, none, some, ltb,
  leb, ◌==◌, ◌/=◌, if◌then◌else◌, get_or, set, le32, u8, u16,
}

-- The client states `SDO_STATE_...`
pub data ClientState : Type 0 where
  not_defined abort_state : ClientState
  download_initiate download_request download_response : ClientState
  upload_initiated upload_request upload_response : ClientState
  blockdownload_initiate blockdownload_inprogres blockdownload_block_ack : ClientState
  blockdownload_crc blockdownload_crc_ack : ClientState
  blockupload_initiate blockupload_initiate_ack blockupload_inprogres : ClientState
  blockupload_sub_end blockupload_block_ack blockupload_block_ack_last : ClientState
  blockupload_block_crc blockupload_block_end : ClientState

-- `CO_SDOclient_return_t`
pub data ClientReturn : Type 0 where
  transmitt_buffer_full block_downld_in_progress block_upload_in_progress : ClientReturn
  waiting_server_response ok_communication_end wrong_arguments : ClientReturn
  ended_with_client_abort ended_with_server_abort ended_with_timeout : ClientReturn

-- `CO_SDOclient_t`: `buffer` is what it points to. The parameters and the server of its own node, which
-- it points to, are arguments; the frames that it sends are results.
pub record Client : Type 0 where
  pub state : ClientState
  pub buffer : List ℕ
  pub buffer_size : ℕ
  pub buffer_offset : ℕ
  pub buffer_offset_ack : ℕ
  pub data_size : ℕ
  pub data_size_transfered : ℕ
  pub timeout_timer : ℕ
  pub timeout_timer_block : ℕ
  pub index : ℕ
  pub sub_index : ℕ
  pub can_dev_rx_idx : ℕ
  pub can_rx_new : Bool
  pub can_rx_data : List ℕ
  pub has_funct_signal : Bool
  pub toggle : ℕ
  pub pst : ℕ
  pub block_size_max : ℕ
  pub block_seqno : ℕ
  pub block_blksize : ℕ
  pub block_no_data : ℕ
  pub crc_enabled : Bool
  pub cob_id_client_to_server_prev : ℕ
  pub cob_id_server_to_client_prev : ℕ

abbrev is_not_defined : ClientState → Bool
is_not_defined not_defined = true
is_not_defined other = false

abbrev pub is_blockupload_inprogres : ClientState → Bool
is_blockupload_inprogres blockupload_inprogres = true
is_blockupload_inprogres other = false

-- "break reception": the sub-block ends.
abbrev sub_end : Client → Client
sub_end client = record client { state = blockupload_sub_end; can_rx_new = true }

-- "copy data", until the buffer is full.
unfoldable pub copy_segment : List ℕ → Client → Client
copy_segment [] client = client
copy_segment (b ∷ bytes) client =
    let copied = record client {
      buffer = set client.buffer client.data_size_transfered b;
      data_size_transfered = client.data_size_transfered + 1;
    } in
    let rest = copy_segment bytes copied in
    if leb client.buffer_size copied.data_size_transfered then sub_end copied else rest

-- The data bytes of a segment.
abbrev segment_of : RxMsg → List ℕ
segment_of msg =
    data_at msg 1
    ∷ data_at msg 2
    ∷ data_at msg 3
    ∷ data_at msg 4
    ∷ data_at msg 5
    ∷ data_at msg 6
    ∷ data_at msg 7
    ∷ []

-- "block upload, copy data directly"
unfoldable pub receive_segment : Client → RxMsg → Client
receive_segment client0 msg =
    let client = record client0 {
      can_rx_data = set client0.can_rx_data 0 (data_at msg 0);
      timeout_timer = 0;
      timeout_timer_block = 0;
    } in
    let seqno = data_at msg 0 % 128 in
    let copied =
      copy_segment (segment_of msg) (record client { block_seqno = u8 (client.block_seqno + 1) }) in
    if seqno == client.block_seqno + 1
    then if (data_at msg 0 / 128 == 1) || leb copied.block_blksize copied.block_seqno
      then sub_end copied
      else copied
    else if (seqno == client.block_seqno) || (client.block_seqno == 0)
    then client
    else sub_end client

-- `CO_SDOclient_receive`
unfoldable pub receive : Client → RxMsg → Client
receive client msg =
    if (msg.dlc == 8) && (not client.can_rx_new && not (is_not_defined client.state))
    then if is_blockupload_inprogres client.state
      then receive_segment client msg
      else record client { can_rx_data = data_at msg 0 ∷ segment_of msg; can_rx_new = true }
    else client

-- `SDO_C->CANrxData[i]`
abbrev pub rx : Client → ℕ → ℕ
rx client i = get_or client.can_rx_data i 0

-- `CO_SDOclient_abort`: the state behind it, and the frame.
abbrev pub abort : Client → Client
abort client = record client { state = not_defined; can_rx_new = false }

abbrev pub abort_frame : Client → ℕ → List ℕ
abort_frame client code =
    0x80 ∷ client.index % 256 ∷ client.index / 256 % 256 ∷ client.sub_index ∷ le32 code

-- What `CO_SDOclientDownload` and `CO_SDOclientUpload` give: `code` is `*pSDOabortCode`, `size` is
-- `*pDataSize` where it is set.
pub record Progress : Type 0 where
  pub client : Client
  pub result : ClientReturn
  pub code : ℕ
  pub size : Option ℕ
  pub sent : Option (List ℕ)

-- How the part "RX data" ends: by a return, or with what the code behind it gets.
pub data Received : Type 0 where
  returned : Progress → Received
  handled : ℕ → Client → Received

-- `*pSDOabortCode = code; SDO_C->state = SDO_STATE_ABORT;`
abbrev pub aborting : Client → AbortCode → Received
aborting client code = handled (abort_code code) (record client { state = abort_state })

-- `return CO_SDOcli_ok_communicationEnd` behind the last message.
abbrev pub finished : Client → Option ℕ → Received
finished client size = returned (record {
  client = record client { state = not_defined; can_rx_new = false };
  result = ok_communication_end;
  code = 0;
  size = size;
  sent = none;
})

-- "ABORT" by the server
abbrev pub server_abort : Client → Received
server_abort client = returned (record {
  client = record client { state = not_defined; can_rx_new = false };
  result = ended_with_server_abort;
  code = rx client 4 + rx client 5 * 256 + rx client 6 * 65536 + rx client 7 * 16777216;
  size = none;
  sent = none;
})

-- What both return when `CANrxNew` has no message or has been handled.
abbrev pub progress : Client → ClientReturn → ℕ → Option (List ℕ) → Progress
progress client result code sent = record {
  client = client;
  result = result;
  code = code;
  size = none;
  sent = sent;
}

-- "communication TMO"
abbrev pub timed_out : Client → Progress
timed_out client = record {
  client = abort client;
  result = ended_with_timeout;
  code = abort_code ab_timeout;
  size = none;
  sent = some (abort_frame client (abort_code ab_timeout));
}
