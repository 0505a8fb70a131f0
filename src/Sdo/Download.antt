-- ===== src/Sdo/Download.antt =====
-- stack/CO_SDO.c: the cases of `CO_SDO_process` that download to the object dictionary. A shift and a
-- mask of a byte is a quotient and a remainder.
use canopen_node.Crc16.{crc16_ccitt}
use canopen_node.Driver.{
  ab_cmd, ab_toggle_bit, ab_crc, ab_data_long, ab_type_mismatch, ab_device_incompat,
}
use canopen_node.Sdo.{idle, download_segmented, download_bl_subblock, download_bl_end, Sdo}
use canopen_node.Sdo.Access.{is_null, overwrite, write_od}
use canopen_node.Sdo.Outcome.{Outcome, aborted, replied, after, rx, respond, segments_in}
use canopen_node.Prelude.{
  ℕ, ◌+◌, ◌-◌, ◌*◌, ◌/◌, ◌%◌, Bool, true, false, not, ◌&&◌, [], ◌∷◌, ltb, leb, ◌==◌, ◌/=◌,
  if◌then◌else◌, take, drop, of_le32, u16,
}

-- The four bytes of a length or of expedited data.
abbrev length_received : Sdo → ℕ
length_received sdo = of_le32 (rx sdo 4) (rx sdo 5) (rx sdo 6) (rx sdo 7)

-- `0x60` and its kin, with the index and the sub-index of the request.
abbrev pub respond_to : Sdo → ℕ → Sdo
respond_to sdo cs = respond sdo 0 (cs ∷ rx sdo 1 ∷ rx sdo 2 ∷ rx sdo 3 ∷ [])

-- "verify length if size is indicated": what follows if it fits.
abbrev with_size : Bool → Sdo → (Sdo → Outcome) → Outcome
with_size indicated sdo k =
    let len = length_received sdo in
    let sdo' = record sdo { arg = record sdo.arg { data_length_total = len } } in
    if indicated
    then if (len /= sdo.arg.data_length) && not (is_null sdo.arg.od_data_storage)
      then aborted ab_type_mismatch sdo'
      else k sdo'
    else k sdo

abbrev expedited_download : Sdo → Outcome
expedited_download sdo =
    let len = if rx sdo 0 % 2 == 1 then 4 - rx sdo 0 / 4 % 4 else sdo.arg.data_length in
    let data4 = rx sdo 4 ∷ rx sdo 5 ∷ rx sdo 6 ∷ rx sdo 7 ∷ [] in
    after (write_od (record sdo { databuffer = overwrite sdo.databuffer 0 data4 }) len)
      (λ s. replied (record s { state = idle }))

-- `case CO_SDO_ST_DOWNLOAD_INITIATE`
unfoldable pub download_initiate_step : Sdo → Outcome
download_initiate_step sdo0 =
    let sdo = respond_to sdo0 0x60 in
    if rx sdo 0 / 2 % 2 == 1
    then expedited_download sdo
    else with_size (rx sdo 0 % 2 == 1) sdo
        (λ s. replied (record s { buffer_offset = 0; sequence = 0; state = download_segmented }))

-- "empty buffer in domain data type"
abbrev pub empty_buffer : Sdo → (Sdo → Outcome) → Outcome
empty_buffer sdo k =
    after
      (write_od (record sdo { arg = record sdo.arg { last_segment = false } }) sdo.buffer_offset)
      (λ s. k (record s { arg = record s.arg { data_length = s.buffer_size }; buffer_offset = 0 }))

-- "download segment response and alternate toggle bit"
abbrev pub segment_response : Sdo → Outcome
segment_response sdo =
    replied (record (respond sdo 0 ((if sdo.sequence == 0 then 0x20 else 0x30) ∷ [])) {
      sequence = if sdo.sequence == 0 then 1 else 0;
    })

-- "copy data to buffer", and the write to the object dictionary behind the last segment.
abbrev take_segment : ℕ → Sdo → Outcome
take_segment len sdo =
    let copied = record sdo {
      databuffer = overwrite sdo.databuffer sdo.buffer_offset (take len (drop 1 sdo.can_rx_data));
      buffer_offset = u16 (sdo.buffer_offset + len);
    } in
    let finished = record copied { arg = record copied.arg { last_segment = true } } in
    if rx sdo 0 % 2 == 1
    then after (write_od finished finished.buffer_offset)
        (λ s. segment_response (record s { state = idle }))
    else segment_response copied

-- `case CO_SDO_ST_DOWNLOAD_SEGMENTED`
unfoldable pub download_segment_step : Sdo → Outcome
download_segment_step sdo =
    let len = 7 - rx sdo 0 / 2 % 8 in
    if rx sdo 0 / 32 /= 0
    then aborted ab_cmd sdo
    else if rx sdo 0 / 16 % 2 /= sdo.sequence
    then aborted ab_toggle_bit sdo
    else if ltb sdo.arg.data_length (sdo.buffer_offset + len)
    then if is_null sdo.arg.od_data_storage
      then empty_buffer sdo (take_segment len)
      else aborted ab_data_long sdo
    else take_segment len sdo

-- `case CO_SDO_ST_DOWNLOAD_BL_INITIATE`
unfoldable pub download_bl_initiate_step : Sdo → Outcome
download_bl_initiate_step sdo0 =
    let blksize = segments_in sdo0.buffer_size in
    let sdo = record (respond (respond_to sdo0 0xa4) 4 (blksize ∷ [])) {
      blksize = blksize;
      crc_enabled = rx sdo0 0 / 4 % 2 == 1;
      crc = 0;
    } in
    if (rx sdo0 0 / 32 == 6) && (rx sdo0 0 % 2 == 0)
    then with_size (rx sdo 0 / 2 % 2 == 1) sdo
        (λ s. replied (record s { buffer_offset = 0; sequence = 0; state = download_bl_subblock }))
    else aborted ab_cmd sdo0

-- "blksize", "set next state"
abbrev pub subblock_response : Bool → Sdo → Outcome
subblock_response last sdo =
    let blksize = segments_in (u16 (sdo.buffer_size + 65536 - sdo.buffer_offset)) in
    let sdo' = record (respond sdo 2 (blksize ∷ [])) { blksize = blksize } in
    if last
    then replied (record sdo' { state = download_bl_end })
    else if leb sdo.buffer_size sdo.buffer_offset
    then aborted ab_device_incompat sdo'
    else replied (record sdo' { state = download_bl_subblock })

-- `case CO_SDO_ST_DOWNLOAD_BL_SUB_RESP`, after a timeout or not.
unfoldable pub download_bl_response_step : Bool → Sdo → Outcome
download_bl_response_step timed_out sdo0 =
    let last = not timed_out && leb 128 (rx sdo0 0) in
    let sdo = record (respond sdo0 0 (0xa2 ∷ sdo0.sequence ∷ [])) { sequence = 0 } in
    let crc = crc16_ccitt (take sdo.buffer_offset sdo.databuffer) sdo.crc in
    if is_null sdo.arg.od_data_storage && ((sdo.buffer_offset /= 0) && not last)
    then empty_buffer (if sdo.crc_enabled then record sdo { crc = crc } else sdo)
        (subblock_response last)
    else subblock_response last sdo

-- `case CO_SDO_ST_DOWNLOAD_BL_END`
unfoldable pub download_bl_end_step : Sdo → Outcome
download_bl_end_step sdo0 =
    let sdo = record sdo0 {
      buffer_offset = u16 (sdo0.buffer_offset + 65536 - rx sdo0 0 / 4 % 8);
    } in
    let crc = crc16_ccitt (take sdo.buffer_offset sdo.databuffer) sdo.crc in
    let checked = if sdo.crc_enabled then record sdo { crc = crc } else sdo in
    let finished = record checked { arg = record checked.arg { last_segment = true } } in
    if (rx sdo0 0 / 32 == 6) && (rx sdo0 0 % 2 == 1)
    then if sdo.crc_enabled && (crc /= rx sdo 1 + rx sdo 2 * 256)
      then aborted ab_crc checked
      else after (write_od finished finished.buffer_offset)
          (λ s. replied (record (respond s 0 (0xa1 ∷ [])) { state = idle }))
    else aborted ab_cmd sdo0
