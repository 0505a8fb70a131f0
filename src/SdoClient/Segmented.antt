-- ===== src/SdoClient/Segmented.antt =====
-- stack/CO_SDOmaster.c: the calls of the client in a segmented download.
use canopen_node.Driver.{RxMsg}
use canopen_node.SdoClient.{
  Client, waiting_server_response, ok_communication_end, download_request, download_response,
  is_not_defined, is_blockupload_inprogres, handled, finished, progress, receive,
}
use canopen_node.SdoClient.Download.{
  segment_acknowledged, case_of, cleared, take_message, next_length, send_segment, transmit,
  continue_with, resume, download,
}
use canopen_node.Sdo.Buffer.{length-take}
use canopen_node.Sdo.Segment.{segment_msg, flip}
use canopen_node.Prelude.{
  ℕ, zero, suc, ◌+◌, ◌-◌, ◌/◌, ◌%◌, ◌<◌, ◌≤◌, ◌≡◌, ◌≢◌, refl, sym, ap, ◌∙◌, true, false, List, [],
  ◌∷◌, ◌++◌, none, some, ltb, leb, ◌==◌, ◌/=◌, if◌then◌else◌, length, take, drop, replicate, arith,
  min, u16,
}

abbrev pub message : List ℕ → RxMsg
message bytes = record { dlc = 8; bytes = bytes }

abbrev pub ack_byte : ℕ → ℕ
ack_byte toggle = if toggle == 0 then 0x20 else 0x30

abbrev pub acked : Client → Client
acked client = record client {
  can_rx_data = ack_byte client.toggle ∷ replicate 7 0;
  can_rx_new = true;
}

-- The client has sent a segment, and waits for the answer.
abbrev pub IsWaiting : Client → Type 0
IsWaiting client =
    (client.state ≡ download_response) × (client.can_rx_new ≡ false) × (client.toggle < 2)

-- The client that has taken an acknowledgement, and is about to send.
abbrev pub sending : Client → ℕ → Client
sending client time = record (acked client) {
  toggle = flip client.toggle;
  state = download_request;
  timeout_timer = time;
  can_rx_new = false;
}

module _ (client : Client) (waiting : IsWaiting client) where
  pub receives : receive client (message (ack_byte client.toggle ∷ replicate 7 0)) ≡ acked client
  unfolding receive
  receives =
      let (st, new, bit) = waiting in
      let defined : is_not_defined client.state ≡ false = ap is_not_defined st in
      let plain : is_blockupload_inprogres client.state ≡ false = ap is_blockupload_inprogres st in
      rw (new, defined, plain)

  pub takes : take_message (acked client) ≡ cleared (segment_acknowledged (acked client))
  unfolding take_message
  takes =
      let (st, new, bit) = waiting in
      let no_abort : (ack_byte client.toggle == 0x80) ≡ false = ground arith in
      rw no_abort (ap (λ s. cleared (case_of s (acked client))) st)

  -- The last segment is acknowledged.
  pub ends :
      (time timeout : ℕ)
      → client.buffer_offset ≡ client.buffer_size
      → let q = download (acked client) false time timeout in
        (q.result ≡ ok_communication_end) × (q.sent ≡ none)
  unfolding download segment_acknowledged
  ends time timeout e =
      let (st, new, bit) = waiting in
      let scs : (ack_byte client.toggle / 32 == 1) ≡ true = ground arith in
      let toggled : (ack_byte client.toggle / 16 % 2 /= client.toggle) ≡ false = ground arith in
      let done : (client.buffer_offset == client.buffer_size) ≡ true = ground arith in
      let run : cleared (segment_acknowledged (acked client))
          ≡ finished (record (acked client) { toggle = flip client.toggle }) none =
        rw (scs, toggled, done) in
      let over = ap (λ r. resume r false time timeout) (takes ∙ run) in
      (ap (λ p. p.result) over, ap (λ p. p.sent) over)

  -- Another segment is acknowledged, and the next one is sent.
  pub goes_on :
      (time timeout : ℕ)
      → time < timeout
      → timeout < 65536
      → client.buffer_offset ≢ client.buffer_size
      → download (acked client) false time timeout ≡ (
          let (client', frame) = send_segment (sending client time) in
          progress client' waiting_server_response 0 (some frame))
  unfolding download segment_acknowledged continue_with
  goes_on time timeout soon word ne =
      let (st, new, bit) = waiting in
      let scs : (ack_byte client.toggle / 32 == 1) ≡ true = ground arith in
      let toggled : (ack_byte client.toggle / 16 % 2 /= client.toggle) ≡ false = ground arith in
      let more : (client.buffer_offset == client.buffer_size) ≡ false = ground arith in
      let next = record (sending client time) { timeout_timer = 0 } in
      let run : cleared (segment_acknowledged (acked client)) ≡ handled 0 next =
        rw (scs, toggled, more) in
      let running : ltb 0 timeout ≡ true = ground arith in
      let timer : u16 (0 + time) ≡ time = omega arith in
      let early : leb timeout time ≡ false = ground arith in
      let rest : continue_with next 0 false time timeout
          ≡ transmit download_request (sending client time) 0 =
        rw (running, timer, early) in
      ap (λ r. resume r false time timeout) (takes ∙ run) ∙ rest

length-drop : (n : ℕ) (xs : List ℕ) → n ≤ length xs → n + length (drop n xs) ≡ length xs
length-drop zero xs h = omega arith
length-drop (suc n) [] h = absurd (omega arith)
length-drop (suc n) (x ∷ xs) h = omega (arith, length-drop n xs (omega arith))

take_more : (m o n : ℕ) (xs : List ℕ) → m ≡ o + n → take m xs ≡ take o xs ++ take n (drop o xs)
take_more m zero n xs e = ap (λ k. take k xs) (omega arith)
take_more zero (suc o) n xs e = absurd (omega arith)
take_more (suc m) (suc o) zero [] e = refl
take_more (suc m) (suc o) (suc n) [] e = refl
take_more (suc m) (suc o) n (x ∷ xs) e = ap (λ t. x ∷ t) (take_more m o n xs (omega arith))

-- A client that sends the bytes from its offset on.
abbrev pub IsSending : Client → Type 0
IsSending client =
    (length client.buffer ≡ client.buffer_size)
    × (client.buffer_size < 65536)
    × (client.buffer_offset ≤ client.buffer_size)

abbrev pub piece_of : Client → List ℕ
piece_of client =
    take (min 7 (client.buffer_size - client.buffer_offset))
      (drop client.buffer_offset client.buffer)

abbrev pub behind : Client → ℕ
behind client = client.buffer_offset + min 7 (client.buffer_size - client.buffer_offset)

module _ (client : Client) (sends : IsSending client) where
  pub length-piece_of : length (piece_of client) ≡ min 7 (client.buffer_size - client.buffer_offset)
  length-piece_of =
      let (len, word, inside) = sends in
      let left = length-drop client.buffer_offset client.buffer (omega arith) in
      length-take (min 7 (client.buffer_size - client.buffer_offset))
        (drop client.buffer_offset client.buffer) (omega arith)

  pub sent_segment : send_segment client ≡ (
    record client { buffer_offset = behind client; state = download_response },
    (segment_msg client.toggle (behind client == client.buffer_size) (piece_of client)).bytes,
  )
  unfolding send_segment
  sent_segment =
      let (len, word, inside) = sends in
      let whole : u16 (client.buffer_size + 4294967296 - client.buffer_offset)
          ≡ client.buffer_size - client.buffer_offset =
        omega arith in
      rw (next_length, whole, length-piece_of)

  pub sent_so_far :
      take client.buffer_offset client.buffer ++ piece_of client
      ≡ take (behind client) client.buffer
  sent_so_far = sym (
      take_more (behind client) client.buffer_offset
        (min 7 (client.buffer_size - client.buffer_offset)) client.buffer refl)
