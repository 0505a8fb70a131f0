-- ===== src/Sdo/Upload.antt =====
-- stack/CO_SDO.c: the cases of `CO_SDO_process` that upload from the object dictionary. A shift and a
-- mask of a byte is a quotient and a remainder, and disjoint bits are combined by a sum.
use canopen_node.Crc16.{crc16_ccitt}
use canopen_node.Driver.{ab_cmd, ab_toggle_bit, ab_block_size, ab_seq_num}
use canopen_node.Sdo.{
  idle, upload_segmented, upload_bl_initiate_2, upload_bl_subblock, upload_bl_end, Sdo,
}
use canopen_node.Sdo.Access.{is_null, read_od}
use canopen_node.Sdo.Od.{get_length}
use canopen_node.Sdo.Download.{respond_to}
use canopen_node.Sdo.Outcome.{
  Outcome, aborted, replied, quiet, pending, after, rx, respond, move_bytes,
}
use canopen_node.Prelude.{
  ℕ, ◌+◌, ◌-◌, ◌*◌, ◌/◌, ◌%◌, Bool, true, false, not, ◌&&◌, ◌||◌, [], ◌∷◌, min, ltb, leb, ◌==◌,
  ◌/=◌, if◌then◌else◌, take, drop, le16, le32, u8, u16, bit_or,
}

-- "indicate data size, if known"
abbrev indicate_size : Sdo → ℕ → ℕ → Sdo
indicate_size sdo known unknown =
    if sdo.arg.data_length_total /= 0
    then respond (respond sdo 4 (le32 sdo.arg.data_length_total)) 0 (known ∷ [])
    else respond sdo 0 (unknown ∷ [])

-- `case CO_SDO_ST_UPLOAD_INITIATE`
unfoldable pub upload_initiate_step : Sdo → Outcome
upload_initiate_step sdo0 =
    let sdo = respond_to sdo0 0 in
    let len = sdo.arg.data_length in
    if leb len 4
    then replied
        (record (respond (respond sdo 4 (take len sdo.databuffer)) 0
          ((0x43 + (4 - len) * 4) ∷ [])) { state = idle })
    else replied (record (indicate_size sdo 0x41 0x40) {
      buffer_offset = 0;
      sequence = 0;
      state = upload_segmented;
    })

-- The length of the next segment.
abbrev pub next_length : Sdo → ℕ
next_length sdo = min 7 (u16 (sdo.arg.data_length + 65536 - sdo.buffer_offset))

-- "read next data from Object dictionary function" behind `len` bytes of the buffer.
abbrev read_next : ℕ → Sdo → (Sdo → Outcome) → Outcome
read_next len sdo k =
    let left = u16 (get_length sdo sdo.entry_no sdo.arg.sub_index + 65536 - len) in
    after (read_od (record sdo { arg = record sdo.arg { data_length = left } }) sdo.buffer_size len)
      k

-- "return to the original data buffer"
abbrev joined : ℕ → Sdo → Sdo
joined len sdo = record sdo {
  arg = record sdo.arg { data_length = u16 (sdo.arg.data_length + len) };
}

-- "fill response data bytes"
abbrev fill_segment : Sdo → ℕ → Sdo
fill_segment sdo len = record (respond sdo 1 (take len (drop sdo.buffer_offset sdo.databuffer))) {
  buffer_offset = u16 (sdo.buffer_offset + len);
}

-- "verify end of transfer"
abbrev is_end : Sdo → Bool
is_end sdo = (sdo.buffer_offset == sdo.arg.data_length) && sdo.arg.last_segment

abbrev send_segment : Sdo → Outcome
send_segment sdo =
    let len = next_length sdo in
    let filled = fill_segment sdo len in
    let toggle = if sdo.sequence == 0 then 0 else 0x10 in
    let cs = toggle + (7 - len) * 2 in
    let toggled = record filled { sequence = if sdo.sequence == 0 then 1 else 0 } in
    if is_end filled
    then replied (record (respond toggled 0 ((cs + 1) ∷ [])) { state = idle })
    else replied (respond toggled 0 (cs ∷ []))

-- `case CO_SDO_ST_UPLOAD_SEGMENTED`
unfoldable pub upload_segment_step : Sdo → Outcome
upload_segment_step sdo =
    let len = next_length sdo in
    let moved = record sdo { databuffer = move_bytes len sdo.buffer_offset 0 sdo.databuffer } in
    if rx sdo 0 / 32 /= 3
    then aborted ab_cmd sdo
    else if rx sdo 0 / 16 % 2 /= sdo.sequence
    then aborted ab_toggle_bit sdo
    else if is_null sdo.arg.od_data_storage && (ltb len 7 && not sdo.arg.last_segment)
    then read_next len moved (λ s. send_segment (record (joined len s) { buffer_offset = 0 }))
    else send_segment sdo

-- `case CO_SDO_ST_UPLOAD_BL_INITIATE`
unfoldable pub upload_bl_initiate_step : Sdo → Outcome
upload_bl_initiate_step sdo0 =
    let enabled = rx sdo0 0 / 4 % 2 == 1 in
    let sdo = record (respond_to sdo0 0) {
      crc_enabled = enabled;
      crc = if enabled then crc16_ccitt (take sdo0.arg.data_length sdo0.databuffer) 0 else 0;
      blksize = rx sdo0 4;
    } in
    if rx sdo 0 % 4 /= 0
    then aborted ab_cmd sdo
    else if (ltb sdo.blksize 1 || ltb 127 sdo.blksize)
        || (ltb sdo.arg.data_length (sdo.blksize * 7) && not sdo.arg.last_segment)
    then aborted ab_block_size sdo
    else replied (record (indicate_size sdo 0xc6 0xc4) { state = upload_bl_initiate_2 })

-- "verify if SDO data buffer is large enough", and the new block.
abbrev new_block : Sdo → (Sdo → Outcome) → Outcome
new_block sdo k =
    if ltb sdo.arg.data_length (sdo.blksize * 7) && not sdo.arg.last_segment
    then aborted ab_block_size sdo
    else k (record sdo {
      buffer_offset = 0;
      sequence = 0;
      end_of_transfer = false;
      can_rx_new = false;
    })

-- "calculate CRC on next bytes, if enabled", for the bytes behind `len` others.
abbrev with_next_crc : ℕ → Sdo → Sdo
with_next_crc len sdo =
    if sdo.crc_enabled
    then record sdo {
      crc = crc16_ccitt (take sdo.arg.data_length (drop len sdo.databuffer)) sdo.crc;
    }
    else sdo

-- The segments that are not confirmed stand at the start of the buffer again.
abbrev confirmed : Sdo → Sdo
confirmed sdo =
    let sent = rx sdo 1 * 7 in
    let left = sdo.arg.data_length - sent in
    record sdo {
      databuffer = move_bytes left sent 0 sdo.databuffer;
      arg = record sdo.arg { data_length = u16 (sdo.arg.data_length + 65536 - sent) };
      blksize = rx sdo 2;
    }

-- "end of transfer"
abbrev end_response : Sdo → Outcome
end_response sdo =
    let sdo' = respond sdo 0 ((0xc1 + (7 - sdo.last_len) * 4) ∷ []) in
    replied (record (if sdo.crc_enabled then respond sdo' 1 (le16 sdo.crc) else sdo') {
      state = upload_bl_end;
    })

-- "is block confirmation received": what is done with it, before the next segment.
abbrev take_confirmation : Sdo → (Sdo → Outcome) → Outcome
take_confirmation sdo k =
    let sdo' = confirmed sdo in
    let len = sdo'.arg.data_length in
    if not ((rx sdo 0 / 32 == 5) && (rx sdo 0 % 4 == 2))
    then aborted ab_cmd sdo
    else if ltb sdo.sequence (rx sdo 1)
    then aborted ab_seq_num sdo
    else if sdo.end_of_transfer && (rx sdo 1 == sdo.blksize)
    then end_response sdo
    else if is_null sdo'.arg.od_data_storage
        && (ltb len (sdo'.blksize * 7) && not sdo'.arg.last_segment)
    then read_next len sdo' (λ s. new_block (joined len (with_next_crc len s)) k)
    else new_block sdo' k

-- The next segment of a block, if there is one.
abbrev send_block_segment : Sdo → Outcome
send_block_segment sdo =
    let len = next_length sdo in
    let seq = u8 (sdo.sequence + 1) in
    let filled = record (fill_segment sdo len) { sequence = seq; timeout_timer = 0 } in
    let last = record (respond filled 0 (bit_or seq 0x80 ∷ [])) {
      last_len = len;
      blksize = seq;
      end_of_transfer = true;
    } in
    if (sdo.sequence == sdo.blksize) || sdo.end_of_transfer
    then pending false sdo
    else if is_end filled
    then pending true last
    else pending true (respond filled 0 (seq ∷ []))

-- `case CO_SDO_ST_UPLOAD_BL_SUBBLOCK`
unfoldable pub upload_bl_subblock_step : Sdo → Outcome
upload_bl_subblock_step sdo =
    if sdo.can_rx_new then take_confirmation sdo send_block_segment else send_block_segment sdo

-- `case CO_SDO_ST_UPLOAD_BL_INITIATE_2`, which continues in the case above.
unfoldable pub upload_bl_initiate_2_step : Sdo → Outcome
upload_bl_initiate_2_step sdo =
    if (rx sdo 0 / 32 == 5) && (rx sdo 0 % 4 == 3)
    then upload_bl_subblock_step (record sdo {
      buffer_offset = 0;
      sequence = 0;
      end_of_transfer = false;
      can_rx_new = false;
      state = upload_bl_subblock;
    })
    else aborted ab_cmd sdo

-- `case CO_SDO_ST_UPLOAD_BL_END`
unfoldable pub upload_bl_end_step : Sdo → Outcome
upload_bl_end_step sdo =
    if (rx sdo 0 / 32 == 5) && (rx sdo 0 % 2 == 1)
    then quiet (record sdo { state = idle })
    else aborted ab_cmd sdo
