-- ===== src/Sdo/Sends.antt =====
-- stack/CO_SDO.c: a segmented upload, request by request.
use mathlib.Core.Path.{subst}
use canopen_node.Driver.{RxMsg}
use canopen_node.Sdo.{SdoState, idle, upload_segmented, Sdo}
use canopen_node.Sdo.Access.{is_null, overwrite}
use canopen_node.Sdo.Buffer.{piece, append_assoc}
use canopen_node.Sdo.Outcome.{replied, rx}
use canopen_node.Sdo.Process.{conclude, step}
use canopen_node.Sdo.Segment.{segment_msg, flip}
use canopen_node.Sdo.Segments.{answers, segment_msgs, concat}
use canopen_node.Sdo.Steps.{answer, answer_steps, timed, requested}
use canopen_node.Sdo.Upload.{next_length, upload_segment_step}
use canopen_node.Prelude.{
  ℕ, ◌+◌, ◌-◌, ◌*◌, ◌/◌, ◌%◌, ◌<◌, ◌≤◌, ◌≡◌, ◌⊎◌, inl, inr, refl, ap, ap₂, sym, ◌∙◌, Bool, true,
  false, ◌&&◌, List, [], ◌∷◌, ◌++◌, Option, none, some, ◌==◌, ◌/=◌, if◌then◌else◌, length, take,
  drop, replicate, arith, u16, length-append,
}

frame :
    (cs : ℕ) (bs : List ℕ)
    → length bs ≤ 7
    → overwrite (overwrite (replicate 8 0) 1 bs) 0 (cs ∷ [])
      ≡ cs ∷ bs ++ replicate (7 - length bs) 0
frame cs [] h = refl
frame cs (a ∷ []) h = refl
frame cs (a ∷ b ∷ []) h = refl
frame cs (a ∷ b ∷ c ∷ []) h = refl
frame cs (a ∷ b ∷ c ∷ d ∷ []) h = refl
frame cs (a ∷ b ∷ c ∷ d ∷ e ∷ []) h = refl
frame cs (a ∷ b ∷ c ∷ d ∷ e ∷ f ∷ []) h = refl
frame cs (a ∷ b ∷ c ∷ d ∷ e ∷ f ∷ g ∷ []) h = refl
frame cs (a ∷ b ∷ c ∷ d ∷ e ∷ f ∷ g ∷ i ∷ bs) h = absurd (omega arith)

-- The request for the next segment of an upload.
abbrev pub upload_msg : ℕ → RxMsg
upload_msg toggle = record { dlc = 8; bytes = (0x60 + toggle * 16) ∷ replicate 7 0 }

abbrev pub upload_msgs : ℕ → List (List ℕ) → List RxMsg
upload_msgs toggle [] = []
upload_msgs toggle (bs ∷ segments) = upload_msg toggle ∷ upload_msgs (flip toggle) segments

-- The bytes of messages, as they are sent.
abbrev pub sent_bytes : List RxMsg → List (Option (List ℕ))
sent_bytes [] = []
sent_bytes (msg ∷ msgs) = some msg.bytes ∷ sent_bytes msgs

-- All segments but the last are full, and that is not empty.
abbrev AreFull : List (List ℕ) → Type 0
AreFull [] = Unit
AreFull (bs ∷ []) = (0 < length bs) × (length bs ≤ 7)
AreFull (bs ∷ bs' ∷ segments) = (length bs ≡ 7) × AreFull (bs' ∷ segments)

length-full :
    (bs : List ℕ) (segments : List (List ℕ))
    → AreFull (bs ∷ segments)
    → 0 < length (concat (bs ∷ segments))
length-full bs [] (some_byte, short) = omega (arith, length-append bs [])
length-full bs (bs' ∷ segments) (full, fulls) =
    omega (arith, length-append bs (concat (bs' ∷ segments)))

-- A server in a segmented upload: the data that it has sent, and what is left.
abbrev IsSending : Sdo → List ℕ → List ℕ → Type 0
IsSending sdo sent rest =
    (sdo.state ≡ upload_segmented)
    × (sdo.can_rx_new ≡ false)
    × (sdo.arg.data_length < 65536)
    × (is_null sdo.arg.od_data_storage ≡ false)
    × (sdo.arg.last_segment ≡ true)
    × (sdo.buffer_offset ≡ length sent)
    × (sdo.arg.data_length ≡ length sent + length rest)
    × (take sdo.arg.data_length sdo.databuffer ≡ sent ++ rest)

-- The state behind a segment of an upload.
abbrev moved : Sdo → List ℕ → Bool → Sdo
moved sdo bs last = record sdo {
  buffer_offset = sdo.buffer_offset + length bs;
  sequence = flip sdo.sequence;
  can_tx_data = (segment_msg sdo.sequence last bs).bytes;
  state = if last then idle else sdo.state;
}

send_step :
    (sdo : Sdo) (bs : List ℕ) (last : Bool)
    → rx sdo 0 ≡ 0x60 + sdo.sequence * 16
    → sdo.sequence < 2
    → length bs ≤ 7
    → is_null sdo.arg.od_data_storage ≡ false
    → next_length sdo ≡ length bs
    → sdo.buffer_offset + length bs < 65536
    → take (length bs) (drop sdo.buffer_offset sdo.databuffer) ≡ bs
    → ((sdo.buffer_offset + length bs == sdo.arg.data_length) && sdo.arg.last_segment) ≡ last
    → sdo.can_tx_data ≡ replicate 8 0
    → upload_segment_step sdo ≡ replied (moved sdo bs last)
unfolding upload_segment_step
send_step sdo bs last e bit short given len word eb ends clear =
    let command : (rx sdo 0 / 32 /= 3) ≡ false = ground arith in
    let toggled : (rx sdo 0 / 16 % 2 /= sdo.sequence) ≡ false = ground arith in
    let offset : u16 (sdo.buffer_offset + length bs) ≡ sdo.buffer_offset + length bs =
      omega arith in
    let toggle : (if sdo.sequence == 0 then 0 else 0x10) ≡ sdo.sequence * 16 = ground arith in
    rw (command, toggled, given, len, eb, offset, clear, ends, toggle) (respond_last last)
  where
    cs : ℕ
    cs = sdo.sequence * 16 + (7 - length bs) * 2

    next : ℕ → SdoState → Sdo
    next byte state = record sdo {
      buffer_offset = sdo.buffer_offset + length bs;
      sequence = flip sdo.sequence;
      can_tx_data = overwrite (overwrite (replicate 8 0) 1 bs) 0 (byte ∷ []);
      state = state;
    }

    respond_last :
        (b : Bool)
        → (if b then replied (next (cs + 1) idle) else replied (next cs sdo.state))
          ≡ replied (moved sdo bs b)
    respond_last true =
        ap (λ t. replied (record (moved sdo bs true) { can_tx_data = t })) (frame (cs + 1) bs short)
    respond_last false =
        let same : cs ≡ cs + 0 = omega arith in
        ap (λ t. replied (record (moved sdo bs false) { can_tx_data = t })) (frame cs bs short)
        ∙ ap
            (λ n.
              replied (record (moved sdo bs false) {
                can_tx_data = n ∷ bs ++ replicate (7 - length bs) 0;
              }))
            same

and_true : (b : Bool) → (b && true) ≡ b
and_true true = refl
and_true false = refl

-- The server is done with an upload.
abbrev pub IsSent : Sdo → Sdo → Type 0
IsSent sdo sdo' = (sdo'.state ≡ idle) × (sdo'.can_rx_new ≡ false) × (sdo'.od ≡ sdo.od)

module _ (time timeout : ℕ) (soon : time < timeout) (word : timeout < 65536) where
  answer_upload :
      (sdo : Sdo) (sent bs rest : List ℕ) (last : Bool)
      → IsSending sdo sent (bs ++ rest)
      → sdo.sequence < 2
      → length bs ≤ 7
      → (length bs ≡ 7) ⊎ (length rest ≡ 0)
      → (length rest == 0) ≡ last
      → answer sdo (upload_msg sdo.sequence) time timeout
        ≡ conclude
            (replied (moved (timed (requested sdo (upload_msg sdo.sequence)) time) bs last))
            none
  unfolding step
  answer_upload sdo sent bs rest last (st, old, w, given, final, off, sum, have) bit short full
        ends =
      let msg = upload_msg sdo.sequence in
      let lengths = length-append bs rest in
      let left : u16 (sdo.arg.data_length + 65536 - sdo.buffer_offset) ≡ length bs + length rest =
        omega (arith, lengths) in
      let len : next_length sdo ≡ length bs = rw left (omega (arith, full)) in
      let test : (sdo.buffer_offset + length bs == sdo.arg.data_length) ≡ last =
        ground (arith, lengths) in
      let ends' : ((sdo.buffer_offset + length bs == sdo.arg.data_length) && sdo.arg.last_segment)
          ≡ last =
        ap₂ (λ a b. a && b) test final ∙ and_true last in
      let here : take (length bs) (drop sdo.buffer_offset sdo.databuffer) ≡ bs =
        rw off (piece sdo.arg.data_length sdo.databuffer sent bs rest have) in
      answer_steps sdo msg upload_segmented time timeout st refl refl refl old refl
        (λ e. absurd (omega (arith, e))) soon word
      ∙ ap (λ o. conclude o none)
          (send_step (timed (requested sdo msg) time) bs last refl bit short given len
            (omega (arith, lengths)) here ends' refl)

  -- A server in a segmented upload of an object that is no domain, with the whole object of less than
  -- 65536 bytes in its data buffer: the data that is left is asked for with the expected toggle bits,
  -- each request processed in time, as segments of seven bytes and a last one of one to seven. Then the
  -- answers are these segments in their order, each with the toggle bit of its request and the number
  -- of its unused bytes, and the last one, and no other, marked as the last; the server is idle at the
  -- end, and the dictionary is as it was.
  pub upload_segments :
      (sdo : Sdo) (sent bs : List ℕ) (segments : List (List ℕ))
      → IsSending sdo sent (concat (bs ∷ segments))
      → sdo.sequence < 2
      → AreFull (bs ∷ segments)
      → let r = answers sdo (upload_msgs sdo.sequence (bs ∷ segments)) time timeout in
        IsSent sdo r.0 × (r.1 ≡ sent_bytes (segment_msgs sdo.sequence (bs ∷ segments)))
  unfolding conclude
  upload_segments sdo sent bs [] sending bit (some_byte, short) =
      let e = answer_upload sdo sent bs [] true sending bit short (inr refl) refl in
      rw e ((refl, refl, refl), refl)
  upload_segments sdo sent bs (bs' ∷ segments) sending bit (full, fulls) =
      let rest = concat (bs' ∷ segments) in
      let (st, old, w, given, final, off, sum, have) = sending in
      let lengths = length-append bs rest in
      let left = length-full bs' segments fulls in
      let e =
        answer_upload sdo sent bs rest false sending bit (omega arith) (inl full) (ground arith) in
      let sdo' = record (moved (timed (requested sdo (upload_msg sdo.sequence)) time) bs false) {
        can_rx_new = false;
      } in
      let sending' : IsSending sdo' (sent ++ bs) rest = (
        st,
        refl,
        w,
        given,
        final,
        omega (arith, length-append sent bs),
        omega (arith, lengths, length-append sent bs),
        have ∙ sym (append_assoc sent bs rest),
      ) in
      let bit' : flip sdo.sequence < 2 = ground arith in
      let (over, sents) = upload_segments sdo' (sent ++ bs) bs' segments sending' bit' fulls in
      let msgs = upload_msgs (flip sdo.sequence) (bs' ∷ segments) in
      subst
        (λ p.
          IsSent sdo (answers p.sdo msgs time timeout).0
          × ((p.sent ∷ (answers p.sdo msgs time timeout).1)
              ≡ sent_bytes (segment_msgs sdo.sequence (bs ∷ bs' ∷ segments))))
        (sym e) (over, ap (λ xs. some (segment_msg sdo.sequence false bs).bytes ∷ xs) sents)
