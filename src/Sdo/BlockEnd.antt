-- ===== src/Sdo/BlockEnd.antt =====
-- stack/CO_SDO.c: the steps that end a block download.
use canopen_node.Crc16.{crc16_ccitt}
use canopen_node.Driver.{RxMsg, ab_crc}
use canopen_node.Sdo.{idle, download_bl_end, Sdo}
use canopen_node.Sdo.Access.{is_null, write_od}
use canopen_node.Sdo.Download.{
  empty_buffer, subblock_response, download_bl_response_step, download_bl_end_step,
}
use canopen_node.Sdo.Outcome.{Outcome, aborted, replied, rx, respond, segments_in, after}
use canopen_node.Prelude.{
  ℕ, ◌+◌, ◌-◌, ◌*◌, ◌/◌, ◌%◌, ◌<◌, ◌≤◌, ◌≡◌, refl, ap, ap₂, Bool, true, false, not, ◌&&◌, [], ◌∷◌,
  leb, ◌==◌, ◌/=◌, if◌then◌else◌, take, replicate, arith, u16,
}

-- The state behind the response to the last sub-block.
abbrev pub responded : Sdo → Sdo
responded sdo =
    let blksize = segments_in (u16 (sdo.buffer_size + 65536 - sdo.buffer_offset)) in
    record (respond (respond sdo 0 (0xa2 ∷ sdo.sequence ∷ [])) 2 (blksize ∷ [])) {
      sequence = 0;
      blksize = blksize;
      state = download_bl_end;
    }

pub response_step :
    (sdo : Sdo)
    → is_null sdo.arg.od_data_storage ≡ false
    → 128 ≤ rx sdo 0
    → download_bl_response_step false sdo ≡ replied (responded sdo)
unfolding download_bl_response_step
response_step sdo given last =
    let last' : leb 128 (rx sdo 0) ≡ true = ground arith in
    let s = record (respond sdo 0 (0xa2 ∷ sdo.sequence ∷ [])) { sequence = 0 } in
    let crc = crc16_ccitt (take s.buffer_offset s.databuffer) s.crc in
    ap₂
      (λ null last.
        if null && ((s.buffer_offset /= 0) && not last)
        then empty_buffer (if s.crc_enabled then record s { crc = crc } else s)
            (subblock_response last)
        else subblock_response last s)
      given last'

-- The message that ends a block download: the bytes of the last segment that hold no data, and the CRC.
abbrev pub end_msg : ℕ → ℕ → RxMsg
end_msg unused crc = record {
  dlc = 8;
  bytes = (0xc1 + unused * 4) ∷ crc % 256 ∷ crc / 256 ∷ replicate 5 0;
}

-- The state in which the object is written.
abbrev pub shortened : Sdo → ℕ → ℕ → Sdo
shortened sdo len crc = record sdo {
  buffer_offset = len;
  crc = if sdo.crc_enabled then crc else sdo.crc;
  arg = record sdo.arg { last_segment = true };
}

crc_checked :
    (enabled wrong : Bool) (sdo : Sdo) (crc : ℕ) (k : Sdo → Outcome)
    → wrong ≡ false
    → let checked = if enabled then record sdo { crc = crc } else sdo in
      let finished = record checked { arg = record checked.arg { last_segment = true } } in
      (if enabled && wrong
        then aborted ab_crc checked
        else after (write_od finished finished.buffer_offset) k)
      ≡ after
          (write_od
            (record sdo {
              crc = if enabled then crc else sdo.crc;
              arg = record sdo.arg { last_segment = true };
            })
            sdo.buffer_offset)
          k
crc_checked true wrong sdo crc k e =
    ap
      (λ w.
        if w
        then aborted ab_crc (record sdo { crc = crc })
        else after
            (write_od (record sdo { crc = crc; arg = record sdo.arg { last_segment = true } })
              sdo.buffer_offset)
            k)
      e
crc_checked false wrong sdo crc k e = refl

pub end_step :
    (sdo : Sdo) (unused len : ℕ)
    → rx sdo 0 ≡ 0xc1 + unused * 4
    → unused < 8
    → sdo.buffer_offset ≡ len + unused
    → sdo.buffer_offset < 65536
    → crc16_ccitt (take len sdo.databuffer) sdo.crc ≡ rx sdo 1 + rx sdo 2 * 256
    → download_bl_end_step sdo
      ≡ after
          (write_od (shortened sdo len (crc16_ccitt (take len sdo.databuffer) sdo.crc)) len)
          (λ s. replied (record (respond s 0 (0xa1 ∷ [])) { state = idle }))
unfolding download_bl_end_step
end_step sdo unused len e small off word crc =
    let command : (rx sdo 0 / 32 == 6) ≡ true = ground arith in
    let sub : (rx sdo 0 % 2 == 1) ≡ true = ground arith in
    let rest : u16 (sdo.buffer_offset + 65536 - rx sdo 0 / 4 % 8) ≡ len = omega arith in
    let fine : (crc16_ccitt (take len sdo.databuffer) sdo.crc /= rx sdo 1 + rx sdo 2 * 256)
        ≡ false =
      ground arith in
    rw (command, sub, rest)
      (crc_checked sdo.crc_enabled
        (crc16_ccitt (take len sdo.databuffer) sdo.crc /= rx sdo 1 + rx sdo 2 * 256)
        (record sdo { buffer_offset = len }) (crc16_ccitt (take len sdo.databuffer) sdo.crc)
        (λ s. replied (record (respond s 0 (0xa1 ∷ [])) { state = idle })) fine)
