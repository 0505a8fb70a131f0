-- ===== src/SdoClient/Rounds.antt =====
-- stack/CO_SDOmaster.c with stack/CO_SDO.c: one segment, from the client to the server and back.
use mathlib.Core.Path.{subst}
use canopen_node.SdoClient.{
  Client, waiting_server_response, ok_communication_end, download_response, Progress, progress,
  receive,
}
use canopen_node.SdoClient.Download.{download}
use canopen_node.Sdo.{Sdo}
use canopen_node.Sdo.Buffer.{length-take, take_all}
use canopen_node.Sdo.Segment.{segment_msg, flip, IsReceiving}
use canopen_node.Sdo.Segments.{acknowledgement, IsDelivered, last_segment, more_segment}
use canopen_node.Sdo.Steps.{answer}
use canopen_node.Sdo.Store.{IsSame, IsWriteable, same-IsWriteable, same-with_data, with_data}
use canopen_node.Prelude.{
  ℕ, zero, suc, ◌<◌, ◌≡◌, ◌≢◌, refl, sym, ap, ◌∙◌, true, false, List, ◌∷◌, ◌++◌, Option, none, some,
  ◌==◌, take, replicate, arith,
}
use canopen_node.SdoClient.Segmented.{
  message, ack_byte, acked, IsWaiting, receives, ends, goes_on, sending, IsSending, piece_of,
  behind, length-piece_of, sent_segment, sent_so_far,
}

-- What follows a frame that is sent, and the end without one.
abbrev with_frame :
    Option (List ℕ)
    → Option (Sdo × Progress)
    → (List ℕ → Option (Sdo × Progress))
    → Option (Sdo × Progress)
with_frame none over next = over
with_frame (some frame) over next = next frame

-- The frame of the client is answered by the server, and the client is called with the answer, at most as
-- often as given, until it sends nothing any more.
abbrev pub dialogue : ℕ → Client → Sdo → List ℕ → ℕ → ℕ → Option (Sdo × Progress)
dialogue zero client sdo frame time timeout = none
dialogue (suc n) client sdo frame time timeout =
    let p = answer sdo (message frame) time timeout in
    with_frame p.sent none (λ reply.
      let q = download (receive client (message reply)) false time timeout in
      with_frame q.sent (some (p.sdo, q)) (λ next. dialogue n q.client p.sdo next time timeout))

-- The dialogue has ended well, and the server has the data.
abbrev pub IsDownloaded : Sdo → List ℕ → Option (Sdo × Progress) → Type 0
IsDownloaded sdo bytes none = ⊥
IsDownloaded sdo bytes (some (sdo', q)) =
    (q.result ≡ ok_communication_end) × IsDelivered sdo bytes sdo'

pub delivered_from :
    (sdo sdo1 : Sdo) (bytes : List ℕ) (r : Option (Sdo × Progress))
    → with_data sdo1 bytes ≡ with_data sdo bytes
    → IsDownloaded sdo1 bytes r
    → IsDownloaded sdo bytes r
delivered_from sdo sdo1 bytes none e h = h
delivered_from sdo sdo1 bytes (some (sdo', q)) e (ok, (idle, free, stored)) =
    (ok, (idle, free, stored ∙ e))

-- The client and the server have got as far as each other.
abbrev pub IsInStep : Client → Sdo → Type 0
IsInStep client sdo =
    IsSending client
    × (client.can_rx_new ≡ false)
    × (client.toggle < 2)
    × IsReceiving sdo (take client.buffer_offset client.buffer)
    × IsWriteable sdo
    × (sdo.sequence ≡ client.toggle)
    × (sdo.arg.data_length ≡ client.buffer_size)

flip-lt : (toggle : ℕ) → flip toggle < 2
flip-lt toggle = ground arith

-- The client has sent its next segment.
abbrev pub sent : Client → Client
sent client = record client { buffer_offset = behind client; state = download_response }

module _ (time timeout : ℕ) (soon : time < timeout) (word : timeout < 65536) where
  pub last_round :
      (client : Client) (sdo : Sdo) (n : ℕ)
      → IsInStep client sdo
      → behind client ≡ client.buffer_size
      → IsDownloaded sdo client.buffer (
          dialogue
            (suc n)
            (sent client)
            sdo
            (segment_msg client.toggle true (piece_of client)).bytes
            time
            timeout)
  last_round client sdo n (sends, new, bit, receiving, writeable, seq, total) end =
      let (len, short, inside) = sends in
      let bs = piece_of client in
      let bytes = take client.buffer_offset client.buffer in
      let size = length-piece_of client sends in
      let so_far = length-take client.buffer_offset client.buffer (omega arith) in
      let (delivered, reply) =
        last_segment time timeout soon word sdo bytes bs receiving writeable (omega arith)
          (omega arith) (omega arith) in
      let p = answer sdo (segment_msg client.toggle true bs) time timeout in
      let same : answer sdo (segment_msg sdo.sequence true bs) time timeout ≡ p =
        ap (λ t. answer sdo (segment_msg t true bs) time timeout) seq in
      let reply' : p.sent ≡ acknowledgement client.toggle =
        ap (λ x. x.sent) (sym same) ∙ reply ∙ ap acknowledgement seq in
      let waiting : IsWaiting (sent client) = (refl, new, bit) in
      let q =
        download (receive (sent client) (message (ack_byte client.toggle ∷ replicate 7 0))) false
          time timeout in
      let taken : q ≡ download (acked (sent client)) false time timeout =
        ap (λ c. download c false time timeout) (receives (sent client) waiting) in
      let (ok, none_sent) = ends (sent client) waiting time timeout end in
      let whole : bytes ++ bs ≡ client.buffer =
        sent_so_far client sends
        ∙ ap (λ k. take k client.buffer) (end ∙ sym len)
        ∙ take_all client.buffer in
      let delivered' : IsDelivered sdo client.buffer p.sdo =
        subst (λ t. IsDelivered sdo t p.sdo) whole
          (subst (λ r. IsDelivered sdo (bytes ++ bs) r.sdo) same delivered) in
      let answered =
        ap
          (λ r. with_frame r none (λ reply.
            let q = download (receive (sent client) (message reply)) false time timeout in
            with_frame q.sent (some (p.sdo, q))
              (λ next. dialogue n q.client p.sdo next time timeout)))
          reply' in
      let over =
        ap
          (λ r.
            with_frame r (some (p.sdo, q)) (λ next. dialogue n q.client p.sdo next time timeout))
          (ap (λ x. x.sent) taken ∙ none_sent) in
      subst (IsDownloaded sdo client.buffer) (sym (answered ∙ over))
        (ap (λ x. x.result) taken ∙ ok, delivered')

  pub next_round :
      (client : Client) (sdo : Sdo) (n : ℕ)
      → IsInStep client sdo
      → behind client ≢ client.buffer_size
      → let p = answer sdo (segment_msg client.toggle false (piece_of client)) time timeout in
        let client' = sending (sent client) time in
        IsInStep client' p.sdo
        × (with_data p.sdo client.buffer ≡ with_data sdo client.buffer)
        × (dialogue
              (suc n)
              (sent client)
              sdo
              (segment_msg client.toggle false (piece_of client)).bytes
              time
              timeout
            ≡ dialogue n
                (sent client')
                p.sdo
                (segment_msg client'.toggle
                  (behind client' == client.buffer_size)
                  (piece_of client')).bytes
                time
                timeout)
  next_round client sdo n (sends, new, bit, receiving, writeable, seq, total) ne =
      let (len, short, inside) = sends in
      let bs = piece_of client in
      let bytes = take client.buffer_offset client.buffer in
      let size = length-piece_of client sends in
      let so_far = length-take client.buffer_offset client.buffer (omega arith) in
      let p = answer sdo (segment_msg client.toggle false bs) time timeout in
      let same : answer sdo (segment_msg sdo.sequence false bs) time timeout ≡ p =
        ap (λ t. answer sdo (segment_msg t false bs) time timeout) seq in
      let (receiving1, kept1, seq1, reply1) =
        more_segment time timeout soon word sdo bytes bs receiving (omega arith) (omega arith)
          (omega arith) in
      let receiving' = subst (λ r. IsReceiving r.sdo (bytes ++ bs)) same receiving1 in
      let kept = subst (λ r. IsSame sdo r.sdo) same kept1 in
      let seq' : p.sdo.sequence ≡ flip client.toggle =
        ap (λ r. r.sdo.sequence) (sym same) ∙ seq1 ∙ ap flip seq in
      let reply : p.sent ≡ acknowledgement client.toggle =
        ap (λ x. x.sent) (sym same) ∙ reply1 ∙ ap acknowledgement seq in
      let waiting : IsWaiting (sent client) = (refl, new, bit) in
      let client' = sending (sent client) time in
      let sends' : IsSending client' = (len, short, omega arith) in
      let q =
        download (receive (sent client) (message (ack_byte client.toggle ∷ replicate 7 0))) false
          time timeout in
      let run : q
          ≡ progress (sent client') waiting_server_response 0 (
              some
                (segment_msg client'.toggle (behind client' == client.buffer_size)
                  (piece_of client')).bytes) =
        ap (λ c. download c false time timeout) (receives (sent client) waiting)
        ∙ goes_on (sent client) waiting time timeout soon word ne
        ∙ ap (λ x. progress x.0 waiting_server_response 0 (some x.1))
            (sent_segment client' sends') in
      let answered =
        ap
          (λ r. with_frame r none (λ reply.
            let q = download (receive (sent client) (message reply)) false time timeout in
            with_frame q.sent (some (p.sdo, q))
              (λ next. dialogue n q.client p.sdo next time timeout)))
          reply in
      let over =
        ap
          (λ q.
            with_frame q.sent (some (p.sdo, q))
              (λ next. dialogue n q.client p.sdo next time timeout))
          run in
      let total' : p.sdo.arg.data_length ≡ client.buffer_size =
        ap (λ a. a.data_length) kept.2 ∙ total in
      (
        (
          sends',
          refl,
          flip-lt client.toggle,
          subst (IsReceiving p.sdo) (sent_so_far client sends) receiving',
          same-IsWriteable sdo p.sdo kept writeable,
          seq',
          total',
        ),
        same-with_data sdo p.sdo client.buffer kept,
        answered ∙ over,
      )
