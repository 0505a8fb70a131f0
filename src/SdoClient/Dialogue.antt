-- ===== src/SdoClient/Dialogue.antt =====
-- stack/CO_SDOmaster.c with stack/CO_SDO.c: a segmented download between the client and the server.
use mathlib.Core.Path.{subst}
use canopen_node.SdoClient.{Client}
use canopen_node.SdoClient.Download.{send_segment}
use canopen_node.Sdo.{Sdo}
use canopen_node.Sdo.Segment.{segment_msg}
use canopen_node.Sdo.Steps.{answer}
use canopen_node.Prelude.{
  ℕ, zero, suc, ◌+◌, ◌*◌, ◌<◌, ◌≤◌, ◌≡◌, ◌≢◌, sym, true, false, ◌==◌, arith, Bool-cases, inl, inr,
}
use canopen_node.SdoClient.Segmented.{sending, piece_of, behind, sent_segment}
use canopen_node.SdoClient.Rounds.{
  dialogue, IsDownloaded, delivered_from, IsInStep, sent, last_round, next_round,
}

module _ (time timeout : ℕ) (soon : time < timeout) (word : timeout < 65536) where
  dialogue_lem :
      (n : ℕ) (client : Client) (sdo : Sdo)
      → IsInStep client sdo
      → client.buffer_size ≤ client.buffer_offset + 7 * suc n
      → IsDownloaded sdo client.buffer (
          dialogue
            (suc n)
            (sent client)
            sdo
            (segment_msg client.toggle
              (behind client == client.buffer_size)
              (piece_of client)).bytes
            time
            timeout)
  dialogue_lem zero client sdo step enough =
      let (len, short, inside) = step.0 in
      let end : (behind client == client.buffer_size) ≡ true = ground arith in
      rw end (last_round time timeout soon word client sdo zero step (omega arith))
  dialogue_lem (suc n) client sdo step enough =
      elim (Bool-cases (behind client == client.buffer_size)) [
        | inl end ↦
            rw end (last_round time timeout soon word client sdo (suc n) step (ground arith))
        | inr more ↦
            let ne : behind client ≢ client.buffer_size = ground arith in
            let (len, short, inside) = step.0 in
            let p = answer sdo (segment_msg client.toggle false (piece_of client)) time timeout in
            let client' = sending (sent client) time in
            let (step', same, run) = next_round time timeout soon word client sdo (suc n) step ne in
            rw more (
              subst (IsDownloaded sdo client.buffer) (sym run) (
                delivered_from sdo p.sdo client.buffer _ same
                  (dialogue_lem n client' p.sdo step' (omega arith))))
      ]

  -- A client that is about to send a segment, and a server in the same segmented download, with a data
  -- buffer for the whole object, which are in step: neither holds a message, they have the same toggle
  -- bit, the server has the bytes up to the client's offset, and the object has the length of the client's
  -- data, less than 65536 bytes, may be written, is no domain, has no object dictionary function and is
  -- not 1003,00. If there are calls for the segments that are left, each in time and with a free transmit
  -- buffer, the client reports the end of the communication, and then the server is idle and the object
  -- has the client's data.
  pub dialogue_downloads :
      (client : Client) (sdo : Sdo) (n : ℕ)
      → IsInStep client sdo
      → client.buffer_size ≤ client.buffer_offset + 7 * suc n
      → let (client', frame) = send_segment client in
        IsDownloaded sdo client.buffer (dialogue (suc n) client' sdo frame time timeout)
  dialogue_downloads client sdo n step enough =
      subst (λ p. IsDownloaded sdo client.buffer (dialogue (suc n) p.0 sdo p.1 time timeout))
        (sym (sent_segment client step.0)) (dialogue_lem n client sdo step enough)
