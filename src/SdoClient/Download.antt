-- ===== src/SdoClient/Download.antt =====
-- stack/CO_SDOmaster.c: `CO_SDOclientDownloadInitiate` and `CO_SDOclientDownload`.
use canopen_node.Crc16.{crc16_ccitt}
use canopen_node.Driver.{ab_cmd, ab_toggle_bit, ab_pram_incompat}
use canopen_node.SdoClient.{
  ClientState, abort_state, download_initiate, download_request, download_response,
  blockdownload_initiate, blockdownload_inprogres, blockdownload_block_ack, blockdownload_crc,
  blockdownload_crc_ack, ClientReturn, transmitt_buffer_full, block_downld_in_progress,
  waiting_server_response, ok_communication_end, wrong_arguments, ended_with_client_abort, Client,
  rx, abort, abort_frame, Progress, Received, returned, handled, aborting, finished, server_abort,
  progress, timed_out,
}
use canopen_node.Prelude.{
  ℕ, ◌+◌, ◌-◌, ◌*◌, ◌/◌, ◌%◌, Bool, false, not, ◌&&◌, ◌||◌, List, ◌∷◌, ◌++◌, Option, none, some,
  ltb, leb, ◌==◌, ◌/=◌, if◌then◌else◌, take, drop, replicate, le32, min, u8, u16, u32,
}

-- The first four bytes of a request.
abbrev pub request : ℕ → ℕ → ℕ → List ℕ → List ℕ
request specifier index sub_index tail =
    specifier ∷ index % 256 ∷ index / 256 % 256 ∷ sub_index ∷ tail

-- The message of `CO_SDOclientDownloadInitiate`: expedited, block or segmented.
abbrev pub download_request_frame : Client → Bool → List ℕ
download_request_frame client block =
    let size = client.buffer_size in
    if leb size 4
    then request (0x23 + (4 - size) * 4) client.index client.sub_index
        (take size client.buffer ++ replicate (4 - size) 0)
    else if ltb client.pst size && block
    then request 0xc6 client.index client.sub_index (le32 size)
    else request 0x21 client.index client.sub_index (le32 size)

-- `CO_SDOclientDownloadInitiate`: `given` says that neither the client nor the data is NULL, `own` that
-- the server is the one of this node.
unfoldable pub initiate :
    Bool → Bool → Client → ℕ → ℕ → List ℕ → ℕ → Bool → ClientReturn × Client × Option (List ℕ)
initiate given own client0 index sub_index data_tx data_size block =
    let client = record client0 {
      buffer = data_tx;
      buffer_size = data_size;
      state = download_initiate;
      index = index;
      sub_index = sub_index;
    } in
    let in_blocks = not (leb data_size 4) && (ltb client.pst data_size && block) in
    let started = record client {
      state = if in_blocks then blockdownload_initiate else download_initiate;
      can_rx_new = false;
      timeout_timer = 0;
    } in
    if not given || (data_size == 0)
    then (wrong_arguments, client0, none)
    else if own
    then (ok_communication_end, client, none)
    else (ok_communication_end, started, some (download_request_frame client block))

-- The cases of the state machine behind a message from the server, whose specifier is `rx client 0 / 32`.
unfoldable pub initiated : Client → Received
initiated client =
    if rx client 0 / 32 == 3
    then if leb client.buffer_size 4
      then finished client none
      else handled 0 (record client { buffer_offset = 0; toggle = 0; state = download_request })
    else aborting client ab_cmd

unfoldable pub segment_acknowledged : Client → Received
segment_acknowledged client =
    let toggled = record client { toggle = if client.toggle == 0 then 1 else 0 } in
    if rx client 0 / 32 == 1
    then if rx client 0 / 16 % 2 /= client.toggle
      then aborting client ab_toggle_bit
      else if client.buffer_offset == client.buffer_size
      then finished toggled none
      else handled 0 (record toggled { state = download_request })
    else aborting client ab_cmd

unfoldable pub block_initiated : Client → Received
block_initiated client =
    if rx client 0 / 32 == 5
    then if (rx client 2 * 256 + rx client 1 /= client.index) || (rx client 3 /= client.sub_index)
      then aborting client ab_pram_incompat
      else handled 0 (record client {
        block_blksize = rx client 4;
        block_seqno = 0;
        buffer_offset = 0;
        buffer_offset_ack = 0;
        state = blockdownload_inprogres;
      })
    else aborting client ab_cmd

-- "waiting block ACK"
unfoldable pub block_acknowledged : Client → Received
block_acknowledged client =
    let part = client.buffer_offset_ack + rx client 1 * 7 in
    let offset = if rx client 1 /= client.block_blksize then u32 part else client.buffer_offset in
    if rx client 0 / 32 == 5
    then if rx client 0 / 2 % 2 == 0
      then aborting client ab_cmd
      else handled 0 (record client {
        buffer_offset_ack = offset;
        buffer_offset = offset;
        block_blksize = rx client 2;
        block_seqno = 0;
        state =
            if leb client.buffer_size offset then blockdownload_crc else blockdownload_inprogres;
      })
    else aborting client ab_cmd

unfoldable pub crc_acknowledged : Client → Received
crc_acknowledged client =
    if (rx client 0 / 32 == 5) && (rx client 0 % 2 /= 0)
    then finished (record client { timeout_timer = 0 }) none
    else aborting client ab_cmd

abbrev pub case_of : ClientState → Client → Received
case_of download_initiate client = initiated client
case_of download_response client = segment_acknowledged client
case_of blockdownload_initiate client = block_initiated client
case_of blockdownload_inprogres client = block_acknowledged client
case_of blockdownload_block_ack client = block_acknowledged client
case_of blockdownload_crc_ack client = crc_acknowledged client
case_of other client = aborting client ab_cmd

-- `SDO_C->timeoutTimer = 0; CLEAR_CANrxNew(SDO_C->CANrxNew);` behind the cases.
abbrev pub cleared : Received → Received
cleared (returned p) = returned p
cleared (handled code client) =
    handled code (record client { timeout_timer = 0; can_rx_new = false })

-- "RX data"
unfoldable pub take_message : Client → Received
take_message client =
    if client.can_rx_new
    then if rx client 0 == 0x80 then server_abort client else cleared (case_of client.state client)
    else handled 0 client

-- The length of the next segment: the difference goes through 16 bits.
abbrev pub next_length : Client → ℕ
next_length client = min 7 (u16 (client.buffer_size + 4294967296 - client.buffer_offset))

-- "SEGMENTED"
unfoldable pub send_segment : Client → Client × List ℕ
send_segment client =
    let len = next_length client in
    let offset = client.buffer_offset + len in
    let last = if offset == client.buffer_size then 1 else 0 in
    (
      record client { buffer_offset = offset; state = download_response },
      (client.toggle * 16 + (7 - len) * 2 + last)
            ∷ take len (drop client.buffer_offset client.buffer)
          ++ replicate (7 - len) 0,
    )

-- "BLOCK": the last segments end the block, the other ones are followed by the next.
unfoldable pub send_block_segment : Client → Client × List ℕ
send_block_segment client =
    let seqno = u8 (client.block_seqno + 1) in
    let left = min 7 (client.buffer_size - client.buffer_offset) in
    let offset = client.buffer_offset + 7 in
    let ends = leb client.buffer_size offset in
    (
      record client {
        block_seqno = seqno;
        block_no_data = 7 - left;
        buffer_offset = offset;
        block_blksize = if ends then seqno else client.block_blksize;
        state =
            if ends || leb client.block_blksize seqno
            then blockdownload_block_ack
            else blockdownload_inprogres;
        timeout_timer = 0;
      },
      (if ends then seqno % 128 + 128 else seqno)
            ∷ take left (drop client.buffer_offset client.buffer)
          ++ replicate (7 - left) 0,
    )

abbrev pub crc_frame : Client → List ℕ
crc_frame client =
    let crc = crc16_ccitt (take client.buffer_size client.buffer) 0 in
    (0xc1 + client.block_no_data * 4) ∷ crc % 256 ∷ crc / 256 % 256 ∷ replicate 5 0

-- The result behind the part "TX data".
abbrev result_of : ClientState → ClientReturn
result_of blockdownload_inprogres = block_downld_in_progress
result_of other = waiting_server_response

-- "TX data", with a free transmit buffer.
abbrev pub transmit : ClientState → Client → ℕ → Progress
transmit abort_state client code =
    progress (abort client) ended_with_client_abort code (some (abort_frame client code))
transmit download_request client code =
    let (client', frame) = send_segment client in
    progress client' waiting_server_response code (some frame)
transmit blockdownload_inprogres client code =
    let (client', frame) = send_block_segment client in
    progress client' (result_of client'.state) code (some frame)
transmit blockdownload_crc client code =
    progress (record client { state = blockdownload_crc_ack; timeout_timer = 0 })
      waiting_server_response code (some (crc_frame client))
transmit other client code = progress client waiting_server_response code none

-- `CO_SDOclientDownload` behind the part "RX data".
unfoldable pub continue_with : Client → ℕ → Bool → ℕ → ℕ → Progress
continue_with client0 code buffer_full time timeout =
    let client = record client0 {
      timeout_timer =
          if ltb client0.timeout_timer timeout
          then u16 (client0.timeout_timer + time)
          else client0.timeout_timer;
    } in
    if leb timeout client.timeout_timer
    then timed_out client
    else if buffer_full
    then progress client transmitt_buffer_full code none
    else transmit client.state client code

-- A return in the part "RX data" skips what is behind it.
abbrev pub resume : Received → Bool → ℕ → ℕ → Progress
resume (returned p) buffer_full time timeout = p
resume (handled code client) buffer_full time timeout =
    continue_with client code buffer_full time timeout

-- `CO_SDOclientDownload`, with a server on another node; `buffer_full` is `CANtxBuff->bufferFull`.
unfoldable pub download : Client → Bool → ℕ → ℕ → Progress
download client buffer_full time timeout = resume (take_message client) buffer_full time timeout
