-- ===== src/Sdo/Receive.antt =====
-- stack/CO_SDO.c: `CO_SDO_receive`. A shift and a mask of a byte is a quotient and a remainder.
use canopen_node.Driver.{RxMsg, data_at}
use canopen_node.Sdo.{
  SdoState, idle, download_bl_subblock, download_bl_sub_resp, upload_bl_subblock, Sdo,
}
use canopen_node.Prelude.{
  ℕ, ◌+◌, ◌%◌, Bool, true, false, not, ◌&&◌, ◌||◌, List, [], ◌∷◌, leb, ◌==◌, if◌then◌else◌, set, u8,
  u16,
}

-- `state == CO_SDO_ST_DOWNLOAD_BL_SUBBLOCK`, and the other states that the code compares with.
abbrev pub is_download_bl_subblock : SdoState → Bool
is_download_bl_subblock download_bl_subblock = true
is_download_bl_subblock other = false

abbrev pub is_upload_bl_subblock : SdoState → Bool
is_upload_bl_subblock upload_bl_subblock = true
is_upload_bl_subblock other = false

abbrev pub is_idle : SdoState → Bool
is_idle idle = true
is_idle other = false

-- `state = CO_SDO_ST_DOWNLOAD_BL_SUB_RESP; SET_CANrxNew`
abbrev pub break_reception : Sdo → Sdo
break_reception sdo = record sdo { state = download_bl_sub_resp; can_rx_new = true }

-- "copy data": "buffer full, break reception"
unfoldable pub copy_segment : List ℕ → Sdo → Sdo
copy_segment [] sdo = sdo
copy_segment (b ∷ bs) sdo =
    let sdo' = record sdo {
      databuffer = set sdo.databuffer sdo.buffer_offset b;
      buffer_offset = u16 (sdo.buffer_offset + 1);
    } in
    if leb sdo.buffer_size sdo'.buffer_offset then break_reception sdo' else copy_segment bs sdo'

-- `msg->data[1]` to `msg->data[7]`
abbrev pub segment_of : RxMsg → List ℕ
segment_of msg =
    data_at msg 1
    ∷ data_at msg 2
    ∷ data_at msg 3
    ∷ data_at msg 4
    ∷ data_at msg 5
    ∷ data_at msg 6
    ∷ data_at msg 7
    ∷ []

-- "block download, copy data directly"
unfoldable pub receive_segment : Sdo → RxMsg → Sdo
receive_segment sdo msg =
    let seqno = data_at msg 0 % 128 in
    let started = record sdo {
      can_rx_data = set sdo.can_rx_data 0 (data_at msg 0);
      timeout_timer = 0;
    } in
    let copied =
      copy_segment (segment_of msg) (record started { sequence = u8 (sdo.sequence + 1) }) in
    if seqno == sdo.sequence + 1
    then if leb 128 (data_at msg 0) || leb copied.blksize copied.sequence
      then break_reception copied
      else copied
    else if (seqno == sdo.sequence) || (sdo.sequence == 0)
    then started
    else break_reception started

-- `CO_SDO_receive`: the second result says whether the callback is called.
unfoldable pub receive : Sdo → RxMsg → Sdo × Bool
receive sdo msg =
    let taken =
      if is_download_bl_subblock sdo.state
      then receive_segment sdo msg
      else record sdo { can_rx_data = data_at msg 0 ∷ segment_of msg; can_rx_new = true } in
    if (msg.dlc == 8) && not sdo.can_rx_new
    then (taken, taken.can_rx_new && sdo.has_funct_signal)
    else (sdo, false)
