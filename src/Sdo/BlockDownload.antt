-- ===== src/Sdo/BlockDownload.antt =====
-- stack/CO_SDO.c: the end of a block download.
use mathlib.Core.Path.{subst}
use canopen_node.Crc16.{crc16_ccitt}
use canopen_node.Driver.{RxMsg}
use canopen_node.Sdo.{idle, download_bl_subblock, download_bl_sub_resp, download_bl_end, Sdo}
use canopen_node.Sdo.Access.{is_null}
use canopen_node.Sdo.BlockSegment.{IsWithin}
use canopen_node.Sdo.Blocks.{IsSubblock, last_byte, payload, receive_all, receive_subblock}
use canopen_node.Sdo.Outcome.{replied, rx, respond, segments_in, after}
use canopen_node.Sdo.Process.{active, process, conclude, step}
use canopen_node.Sdo.Receive.{is_idle, is_upload_bl_subblock}
use canopen_node.Sdo.Steps.{answer, answer_steps, process_steps, timed, requested}
use canopen_node.Sdo.Buffer.{take-take}
use canopen_node.Sdo.Store.{
  IsSame, same-IsWriteable, same-with_data, IsWriteable, with_data, write_od_writes,
}
use canopen_node.Sdo.BlockEnd.{responded, response_step, end_msg, shortened, end_step}
use canopen_node.Prelude.{
  ℕ, ◌+◌, ◌-◌, u16, ◌*◌, ◌%◌, ◌<◌, ◌≤◌, ◌≡◌, refl, ap, ap₂, sym, ◌∙◌, true, false, List, [], ◌∷◌,
  ◌++◌, none, some, length, get_or, take, replicate, arith, get_or-set_self,
}

last_byte_mod :
    (seq blksize : ℕ) (msgs : List RxMsg)
    → IsSubblock seq blksize msgs
    → (last_byte msgs % 128 ≡ seq + length msgs) × (0 < length msgs)
last_byte_mod seq blksize [] h = absurd h
last_byte_mod seq blksize (msg ∷ []) (dlc, e, end) = (e, omega arith)
last_byte_mod seq blksize (msg ∷ msg' ∷ msgs) (dlc, e, more, rest) =
    let (e', some_msg) = last_byte_mod (seq + 1) blksize (msg' ∷ msgs) rest in
    (omega arith, omega arith)

module _ (time timeout : ℕ) (soon : time < timeout) (word : timeout < 65536) where
  answer_last :
      (sdo : Sdo)
      → sdo.state ≡ download_bl_sub_resp
      → sdo.can_rx_new ≡ true
      → 128 < rx sdo 0
      → is_null sdo.arg.od_data_storage ≡ false
      → process sdo true false time timeout none
        ≡ conclude (replied (responded (timed sdo time))) none
  unfolding step
  answer_last sdo st new last given =
      process_steps sdo time timeout none (ap is_idle st) (ap is_upload_bl_subblock st) new
        (λ e. absurd (omega (arith, e))) soon word
      ∙ ap (λ s. conclude (step s false (timed sdo time)) none) st
      ∙ ap (λ o. conclude o none) (response_step (timed sdo time) given (omega arith))

  answer_end :
      (sdo : Sdo) (unused len : ℕ)
      → sdo.state ≡ download_bl_end
      → sdo.can_rx_new ≡ false
      → IsWriteable sdo
      → unused < 8
      → sdo.buffer_offset ≡ len + unused
      → sdo.buffer_offset < 65536
      → len ≡ sdo.arg.data_length
      → let p =
          answer sdo
            (end_msg unused (crc16_ccitt (take len sdo.databuffer) sdo.crc))
            time
            timeout in
        (p.sent ≡ some (0xa1 ∷ replicate 7 0))
        × (p.sdo.state ≡ idle)
        × (p.sdo.od ≡ with_data sdo (take len sdo.databuffer))
  unfolding step conclude
  answer_end sdo unused len st new writeable small off wide e =
      let crc = crc16_ccitt (take len sdo.databuffer) sdo.crc in
      let msg = end_msg unused crc in
      let sdo' = timed (requested sdo msg) time in
      let whole =
        answer_steps sdo msg download_bl_end time timeout st refl refl refl new refl
          (λ q. absurd (omega (arith, q))) soon word
        ∙ ap (λ o. conclude o none) (end_step sdo' unused len refl small off wide (omega arith))
        ∙ ap
            (λ w.
              conclude (after w (λ s. replied (record (respond s 0 (0xa1 ∷ [])) { state = idle })))
                none)
            (write_od_writes (shortened sdo' len crc) len writeable e) in
      (ap (λ p. p.sent) whole, ap (λ p. p.sdo.state) whole, ap (λ p. p.sdo.od) whole)

  -- A server with room in its data buffer that receives a block download and holds no message, of an
  -- object that may be written, is no domain, has no object dictionary function and is not 1003,00:
  -- behind the messages of a sub-block that ends with the last segment, whose data fits into the
  -- buffer and has, without the unused bytes of that segment, the length of the object, the server,
  -- processed in time, confirms the number of the segments of the sub-block, with the number of those
  -- that fit into the rest of the buffer, at most 127, as the next block size; and the end message with the number of these bytes and the CRC of the data,
  -- processed in time, is acknowledged; then the server is idle and the object has the data.
  pub download_block :
      (sdo : Sdo) (msgs : List RxMsg) (unused : ℕ)
      → IsWithin sdo
      → sdo.state ≡ download_bl_subblock
      → sdo.can_rx_new ≡ false
      → sdo.blksize < 128
      → IsSubblock sdo.sequence sdo.blksize msgs
      → sdo.buffer_offset + 7 * length msgs ≤ sdo.buffer_size
      → 0 < length sdo.can_rx_data
      → 128 ≤ last_byte msgs
      → IsWriteable sdo
      → unused < 8
      → sdo.buffer_offset + 7 * length msgs ≡ sdo.arg.data_length + unused
      → let bytes =
          take sdo.arg.data_length (take sdo.buffer_offset sdo.databuffer ++ payload msgs) in
        let next = segments_in (sdo.buffer_size - (sdo.buffer_offset + 7 * length msgs)) in
        let p = process (receive_all sdo msgs) true false time timeout none in
        let q = answer p.sdo (end_msg unused (crc16_ccitt bytes sdo.crc)) time timeout in
        (p.result ≡ active)
        × (p.sent ≡ some (0xa2 ∷ (sdo.sequence + length msgs) ∷ next ∷ replicate 5 0))
        × (q.sent ≡ some (0xa1 ∷ replicate 7 0))
        × (q.sdo.state ≡ idle)
        × (q.sdo.od ≡ with_data sdo bytes)
  unfolding conclude
  download_block sdo msgs unused within st new few ms fits some_data last writeable small total =
      let r = receive_all sdo msgs in
      let len = sdo.arg.data_length in
      let all = take sdo.buffer_offset sdo.databuffer ++ payload msgs in
      let (st', new', seq, off, have, rx', kept) =
        receive_subblock sdo msgs within st new few ms fits in
      let (eo, ee, ea, ex, ec, en, es) = kept in
      let (len_db, wide, inside, room) = within in
      let (seqno, some_msg) = last_byte_mod sdo.sequence sdo.blksize msgs ms in
      let first : rx r 0 ≡ last_byte msgs =
        ap (λ d. get_or d 0 0) rx'
        ∙ get_or-set_self sdo.can_rx_data 0 (last_byte msgs) 0 some_data in
      let same : IsSame sdo r = (eo, ee, ea, ex) in
      let writeable' = same-IsWriteable sdo r same writeable in
      let total' : r.buffer_offset ≡ len + unused = omega arith in
      let data_len : len ≡ r.arg.data_length = ap (λ a. a.data_length) (sym ea) in
      let held : take len r.databuffer ≡ take len all =
        sym (take-take len r.buffer_offset r.databuffer (omega arith)) ∙ ap (take len) have in
      let crc : crc16_ccitt (take len r.databuffer) r.crc ≡ crc16_ccitt (take len all) sdo.crc =
        ap₂ crc16_ccitt held ec in
      let next = segments_in (sdo.buffer_size - (sdo.buffer_offset + 7 * length msgs)) in
      let rest : u16 (r.buffer_size + 65536 - r.buffer_offset)
          ≡ sdo.buffer_size - (sdo.buffer_offset + 7 * length msgs) =
        omega arith in
      let e1 = answer_last r st' new' (omega arith) writeable'.1 in
      let p' = conclude (replied (responded (timed r time))) none in
      let (sent, state, od) =
        answer_end p'.sdo unused len refl refl writeable' small total' (omega arith) data_len in
      subst
        (λ p.
          let q = answer p.sdo (end_msg unused (crc16_ccitt (take len all) sdo.crc)) time timeout in
          (p.result ≡ active)
          × (p.sent ≡ some (0xa2 ∷ (sdo.sequence + length msgs) ∷ next ∷ replicate 5 0))
          × (q.sent ≡ some (0xa1 ∷ replicate 7 0))
          × (q.sdo.state ≡ idle)
          × (q.sdo.od ≡ with_data sdo (take len all)))
        (sym e1)
        (
          refl,
          ap₂ (λ k n. some (0xa2 ∷ k ∷ segments_in n ∷ replicate 5 0)) seq rest,
          ap (λ c. (answer p'.sdo (end_msg unused c) time timeout).sent) (sym crc) ∙ sent,
          ap (λ c. (answer p'.sdo (end_msg unused c) time timeout).sdo.state) (sym crc) ∙ state,
          ap (λ c. (answer p'.sdo (end_msg unused c) time timeout).sdo.od) (sym crc)
              ∙ od
              ∙ same-with_data sdo r (take len r.databuffer) same
              ∙ ap (with_data sdo) held,
        )
