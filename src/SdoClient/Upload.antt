-- ===== src/SdoClient/Upload.antt =====
-- stack/CO_SDOmaster.c: `CO_SDOclientUploadInitiate` and `CO_SDOclientUpload`.
use canopen_node.Crc16.{crc16_ccitt}
use canopen_node.Driver.{
  ab_cmd, ab_toggle_bit, ab_pram_incompat, ab_out_of_mem, ab_type_mismatch, ab_crc, ab_general,
}
use canopen_node.SdoClient.{
  ClientState, not_defined, abort_state, upload_initiated, upload_request, upload_response,
  blockupload_initiate, blockupload_initiate_ack, blockupload_inprogres, blockupload_sub_end,
  blockupload_block_ack, blockupload_block_ack_last, blockupload_block_crc, blockupload_block_end,
  is_blockupload_inprogres, ClientReturn, transmitt_buffer_full, block_upload_in_progress,
  waiting_server_response, ok_communication_end, wrong_arguments, ended_with_client_abort, Client,
  rx, abort, abort_frame, Progress, Received, returned, handled, aborting, finished, server_abort,
  progress, timed_out,
}
use canopen_node.SdoClient.Download.{request, cleared}
use canopen_node.Sdo.Access.{overwrite}
use canopen_node.Prelude.{
  ℕ, ◌+◌, ◌-◌, ◌*◌, ◌/◌, ◌%◌, Bool, false, not, ◌&&◌, ◌||◌, List, ◌∷◌, Option, none, some, ltb, leb,
  ◌==◌, ◌/=◌, if◌then◌else◌, take, drop, replicate, u8, u16, u32,
}

-- The message of `CO_SDOclientUploadInitiate`.
abbrev pub upload_frame : Client → Bool → List ℕ
upload_frame client block =
    if block
    then request 0xa4 client.index client.sub_index
        (client.block_size_max ∷ client.pst ∷ replicate 2 0)
    else request 0x40 client.index client.sub_index (replicate 4 0)

-- `CO_SDOclientUploadInitiate`: `given` says that neither the client nor the buffer is NULL, `own` that
-- the server is the one of this node.
unfoldable pub initiate :
    Bool → Bool → Client → ℕ → ℕ → List ℕ → ℕ → Bool → ClientReturn × Client × Option (List ℕ)
initiate given own client0 index sub_index data_rx data_rx_size block =
    let client = record client0 {
      buffer = data_rx;
      buffer_size = data_rx_size;
      index = index;
      sub_index = sub_index;
      state = if block then blockupload_initiate else upload_initiated;
      block_blksize = if block then client0.block_size_max else client0.block_blksize;
    } in
    let ready = record client { block_seqno = if block then 0 else client0.block_seqno } in
    let started = record ready { can_rx_new = false; timeout_timer = 0; timeout_timer_block = 0 } in
    if not given || ltb data_rx_size 4
    then (wrong_arguments, client0, none)
    else if block && ltb data_rx_size (client0.block_size_max * 7)
    then (wrong_arguments, client, none)
    else if own
    then (ok_communication_end, ready, none)
    else (ok_communication_end, started, some (upload_frame client block))

-- "Expedited transfer", or "segmented transfer - prepare first segment"
unfoldable pub upload_answered : Client → Received
upload_answered client =
    let size = if rx client 0 % 2 == 1 then 4 - rx client 0 / 4 % 4 else 4 in
    let bytes = take size (drop 4 client.can_rx_data) in
    if rx client 0 / 2 % 2 == 1
    then finished (record client { buffer = overwrite client.buffer 0 bytes }) (some size)
    else handled 0 (record client { buffer_offset = 0; state = upload_request; toggle = 0 })

unfoldable pub initiated : Client → Received
initiated client = if rx client 0 / 32 == 2 then upload_answered client else aborting client ab_cmd

-- The toggle bit is the bit 4 of `toggle`, which has been inverted behind the request.
unfoldable pub segment_received : Client → Received
segment_received client =
    let size = 7 - rx client 0 / 2 % 8 in
    let offset = client.buffer_offset + size in
    let bytes = take size (drop 1 client.can_rx_data) in
    let copied = record client {
      buffer = overwrite client.buffer client.buffer_offset bytes;
      buffer_offset = offset;
    } in
    if rx client 0 / 32 == 0
    then if rx client 0 / 16 % 2 == client.toggle / 16 % 2
      then aborting client ab_toggle_bit
      else if ltb client.buffer_size offset
      then aborting client ab_out_of_mem
      else if rx client 0 % 2 == 1
      then finished copied (some offset)
      else handled 0 (record copied { state = upload_request })
    else aborting client ab_cmd

-- "block upload initiate response": of two errors the later one is reported.
unfoldable pub block_answered : Client → Received
block_answered client0 =
    let size =
      if rx client0 0 / 2 % 2 == 1
      then rx client0 4 + rx client0 5 * 256 + rx client0 6 * 65536 + rx client0 7 * 16777216
      else 0 in
    let client = record client0 {
      crc_enabled = rx client0 0 / 4 % 2 == 1;
      data_size = size;
      data_size_transfered = 0;
    } in
    if ltb client.buffer_size size
    then aborting client ab_out_of_mem
    else if (rx client 2 * 256 + rx client 1 /= client.index) || (rx client 3 /= client.sub_index)
    then aborting client ab_pram_incompat
    else handled 0 (record client { state = blockupload_initiate_ack })

-- The server answers a block upload with a block, or with an expedited or segmented transfer.
unfoldable pub block_initiated : Client → Received
block_initiated client =
    if rx client 0 / 32 == 6
    then block_answered client
    else if rx client 0 / 32 == 2
    then upload_answered client
    else aborting client ab_cmd

-- "data was copied by receive function, sub-block is finished"
unfoldable pub sub_block_ended : Client → Received
sub_block_ended client =
    if rx client 0 / 128 % 2 == 1
    then if (client.data_size /= 0) && ltb client.data_size_transfered client.data_size
      then aborting client ab_type_mismatch
      else handled 0 (record client { state = blockupload_block_ack_last })
    else if leb client.buffer_size client.data_size_transfered
    then aborting client ab_out_of_mem
    else handled 0 (record client { state = blockupload_block_ack })

unfoldable pub crc_received : Client → Received
crc_received client0 =
    let size = u32 (client0.data_size_transfered + 4294967296 - rx client0 0 / 4 % 8) in
    let client = record client0 { data_size_transfered = size } in
    let crc = crc16_ccitt (take size client.buffer) 0 in
    if rx client 0 / 32 == 6
    then if client.crc_enabled && (rx client 1 + rx client 2 * 256 /= crc)
      then aborting client ab_crc
      else handled 0 (record client { state = blockupload_block_end })
    else aborting client0 ab_general

abbrev pub case_of : ClientState → Client → Received
case_of upload_initiated client = initiated client
case_of upload_response client = segment_received client
case_of blockupload_initiate client = block_initiated client
case_of blockupload_inprogres client = handled 0 client
case_of blockupload_sub_end client = sub_block_ended client
case_of blockupload_block_crc client = crc_received client
case_of other client = aborting client ab_cmd

-- "RX data"
unfoldable pub take_message : Client → Received
take_message client =
    if client.can_rx_new
    then if rx client 0 == 0x80 then server_abort client else cleared (case_of client.state client)
    else handled 0 client

-- "set next block size": the segments that are left, at most the maximum.
abbrev pub next_block_size : Client → ℕ
next_block_size client =
    let left = client.data_size - client.data_size_transfered in
    if leb client.block_size_max (left / 7)
    then client.block_size_max
    else if left % 7 == 0
    then u8 (left / 7)
    else u8 (left / 7 + 1)

-- The state behind the confirmation of a block.
unfoldable pub next_block : Client → Client
next_block client =
    let restarted = record client {
      block_seqno = 0;
      timeout_timer_block = 0;
      state = blockupload_inprogres;
    } in
    if client.data_size == 0
    then restarted
    else if leb client.data_size client.data_size_transfered
    then record client { block_blksize = 0; state = blockupload_block_crc }
    else record restarted { block_blksize = next_block_size client }

abbrev block_confirmation : ℕ → ℕ → List ℕ
block_confirmation seqno blksize = 0xa2 ∷ seqno ∷ blksize ∷ replicate 5 0

abbrev result_of : ClientState → ClientReturn
result_of blockupload_inprogres = block_upload_in_progress
result_of other = waiting_server_response

-- "TX data", with a free transmit buffer.
abbrev pub transmit : ClientState → Client → ℕ → Progress
transmit abort_state client code =
    progress (abort client) ended_with_client_abort code (some (abort_frame client code))
transmit upload_request client code =
    progress (record client { state = upload_response; toggle = 255 - client.toggle })
      waiting_server_response code (some ((0x60 + client.toggle / 16 % 2 * 16) ∷ replicate 7 0))
transmit blockupload_initiate_ack client code =
    progress
      (record client { timeout_timer_block = 0; block_seqno = 0; state = blockupload_inprogres })
      block_upload_in_progress code (some (0xa3 ∷ replicate 7 0))
transmit blockupload_block_ack_last client code =
    progress
      (record client { block_seqno = 0; timeout_timer_block = 0; state = blockupload_block_crc })
      waiting_server_response code
      (some (block_confirmation client.block_seqno client.block_blksize))
transmit blockupload_block_ack client code =
    let client' = next_block client in
    progress client' (result_of client'.state) code
      (some (block_confirmation client.block_seqno client'.block_blksize))
transmit blockupload_block_end client code = record {
  client = record client { state = not_defined };
  result = ok_communication_end;
  code = code;
  size = some client.data_size_transfered;
  sent = some (0xa1 ∷ replicate 7 0);
}
transmit other client code = progress client (result_of client.state) code none

-- "TMO": the timer of the block runs while a block is received.
unfoldable pub timed : Client → ℕ → ℕ → Client
timed client time timeout =
    if ltb client.timeout_timer timeout
    then record client {
      timeout_timer = u16 (client.timeout_timer + time);
      timeout_timer_block =
          if is_blockupload_inprogres client.state
          then u16 (client.timeout_timer_block + time)
          else client.timeout_timer_block;
    }
    else client

-- `CO_SDOclientUpload` behind the part "RX data"; "block TMO" confirms what has come of a block.
unfoldable pub continue_with : Client → ℕ → Bool → ℕ → ℕ → Progress
continue_with client0 code buffer_full time timeout =
    let client = timed client0 time timeout in
    let client' =
      if leb (timeout / 2) client.timeout_timer_block
      then record client { state = blockupload_block_ack }
      else client in
    if leb timeout client.timeout_timer
    then timed_out client
    else if buffer_full
    then progress client' transmitt_buffer_full code none
    else transmit client'.state client' code

-- A return in the part "RX data" skips what is behind it.
abbrev pub resume : Received → Bool → ℕ → ℕ → Progress
resume (returned p) buffer_full time timeout = p
resume (handled code client) buffer_full time timeout =
    continue_with client code buffer_full time timeout

-- `CO_SDOclientUpload`, with a server on another node; `buffer_full` is `CANtxBuff->bufferFull`.
unfoldable pub upload : Client → Bool → ℕ → ℕ → Progress
upload client buffer_full time timeout = resume (take_message client) buffer_full time timeout
