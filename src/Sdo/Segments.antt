-- ===== src/Sdo/Segments.antt =====
-- stack/CO_SDO.c: a segmented download, request by request.
use mathlib.Core.Path.{subst}
use canopen_node.Driver.{RxMsg}
use canopen_node.Sdo.{idle, download_segmented, Sdo}
use canopen_node.Sdo.Access.{overwrite}
use canopen_node.Sdo.Buffer.{take-overwrite, length-overwrite, append_assoc, append_nil}
use canopen_node.Sdo.Download.{segment_response}
use canopen_node.Sdo.Process.{conclude, step}
use canopen_node.Sdo.Steps.{answer, answer_steps, timed, requested}
use canopen_node.Sdo.Store.{
  IsSame, same-IsWriteable, same-with_data, IsWriteable, with_data, write_od_writes,
}
use canopen_node.Sdo.Segment.{
  segment_msg, flip, IsReceiving, segment_bytes, copied, bit_of, finish, segment_step,
}
use canopen_node.Prelude.{
  ℕ, ◌+◌, ◌<◌, ◌≤◌, ◌≡◌, refl, ap, ◌∙◌, Bool, true, false, List, [], ◌∷◌, ◌++◌, Option, none, some,
  ◌==◌, if◌then◌else◌, length, take, replicate, arith, length-append, ap₂,
}

-- The state behind the messages of a client, each received and processed, and the answers.
abbrev pub answers : Sdo → List RxMsg → ℕ → ℕ → Sdo × List (Option (List ℕ))
answers sdo [] time timeout = (sdo, [])
answers sdo (msg ∷ msgs) time timeout =
    let p = answer sdo msg time timeout in
    let rest = answers p.sdo msgs time timeout in (rest.0, p.sent ∷ rest.1)

-- The requests of a client with alternating toggle bits.
abbrev pub segment_msgs : ℕ → List (List ℕ) → List RxMsg
segment_msgs toggle [] = []
segment_msgs toggle (bs ∷ []) = segment_msg toggle true bs ∷ []
segment_msgs toggle (bs ∷ bs' ∷ segments) =
    segment_msg toggle false bs ∷ segment_msgs (flip toggle) (bs' ∷ segments)

abbrev pub concat : List (List ℕ) → List ℕ
concat [] = []
concat (bs ∷ segments) = bs ++ concat segments

abbrev AreShort : List (List ℕ) → Type 0
AreShort [] = Unit
AreShort (bs ∷ segments) = (length bs ≤ 7) × AreShort segments

abbrev pub acknowledgement : ℕ → Option (List ℕ)
acknowledgement toggle = some ((if toggle == 0 then 0x20 else 0x30) ∷ replicate 7 0)

abbrev pub acknowledgements : ℕ → List (List ℕ) → List (Option (List ℕ))
acknowledgements toggle [] = []
acknowledgements toggle (bs ∷ segments) =
    acknowledgement toggle ∷ acknowledgements (flip toggle) segments

-- The transfer is over, and the object has the data.
abbrev pub IsDelivered : Sdo → List ℕ → Sdo → Type 0
IsDelivered sdo bytes sdo' =
    (sdo'.state ≡ idle) × (sdo'.can_rx_new ≡ false) × (sdo'.od ≡ with_data sdo bytes)

module _ (time timeout : ℕ) (soon : time < timeout) (word : timeout < 65536) where
  abbrev server : Sdo → RxMsg → Sdo
  server sdo msg = timed (requested sdo msg) time

  answer_segment :
      (sdo : Sdo) (bytes bs : List ℕ) (last : Bool)
      → IsReceiving sdo bytes
      → bit_of last < 2
      → sdo.sequence < 2
      → length bs ≤ 7
      → sdo.buffer_offset + length bs ≤ sdo.arg.data_length
      → let msg = segment_msg sdo.sequence last bs in
        answer sdo msg time timeout
        ≡ conclude
            (if last
              then finish (server sdo msg) bs
              else segment_response (copied (server sdo msg) bs))
            none
  unfolding step
  answer_segment sdo bytes bs last (st, old, size, w, max, off, have) one bit short fits =
      let msg = segment_msg sdo.sequence last bs in
      answer_steps sdo msg download_segmented time timeout st refl refl refl old refl
        (λ e. absurd (omega (arith, e))) soon word
      ∙ ap (λ o. conclude o none)
          (segment_step (server sdo msg) bs last refl one (segment_bytes sdo.sequence last bs short)
            bit short (omega arith) fits)

  pub last_segment :
      (sdo : Sdo) (bytes bs : List ℕ)
      → IsReceiving sdo bytes
      → IsWriteable sdo
      → sdo.sequence < 2
      → length bs ≤ 7
      → length bytes + length bs ≡ sdo.arg.data_length
      → let p = answer sdo (segment_msg sdo.sequence true bs) time timeout in
        IsDelivered sdo (bytes ++ bs) p.sdo × (p.sent ≡ acknowledgement sdo.sequence)
  unfolding conclude
  last_segment sdo bytes bs receiving writeable bit short sum =
      let msg = segment_msg sdo.sequence true bs in
      let (st, old, size, w, max, off, have) = receiving in
      let sdo' = server sdo msg in
      let e = answer_segment sdo bytes bs true receiving (omega arith) bit short (omega arith) in
      let n = sdo.buffer_offset + length bs in
      let write =
        write_od_writes (record (copied sdo' bs) { arg = record sdo.arg { last_segment = true } }) n
          writeable (omega arith) in
      let whole : take n (overwrite sdo.databuffer sdo.buffer_offset bs) ≡ bytes ++ bs =
        take-overwrite sdo.databuffer sdo.buffer_offset n bs refl (omega arith)
        ∙ ap (λ t. t ++ bs) have in
      rw (e, write) ((refl, refl, ap (λ t. with_data sdo t) whole), refl)

  pub more_segment :
      (sdo : Sdo) (bytes bs : List ℕ)
      → IsReceiving sdo bytes
      → sdo.sequence < 2
      → length bs ≤ 7
      → length bytes + length bs ≤ sdo.arg.data_length
      → let p = answer sdo (segment_msg sdo.sequence false bs) time timeout in
        IsReceiving p.sdo (bytes ++ bs)
        × IsSame sdo p.sdo
        × (p.sdo.sequence ≡ flip sdo.sequence)
        × (p.sent ≡ acknowledgement sdo.sequence)
  unfolding conclude
  more_segment sdo bytes bs receiving bit short sum =
      let msg = segment_msg sdo.sequence false bs in
      let (st, old, size, w, max, off, have) = receiving in
      let e = answer_segment sdo bytes bs false receiving (omega arith) bit short (omega arith) in
      let n = sdo.buffer_offset + length bs in
      let whole : take n (overwrite sdo.databuffer sdo.buffer_offset bs) ≡ bytes ++ bs =
        take-overwrite sdo.databuffer sdo.buffer_offset n bs refl (omega arith)
        ∙ ap (λ t. t ++ bs) have in
      rw e (
        (
          st,
          refl,
          length-overwrite sdo.databuffer sdo.buffer_offset bs ∙ size,
          w,
          max,
          omega (arith, length-append bytes bs),
          whole,
        ),
        (refl, refl, refl, refl),
        refl,
        refl,
      )

  -- A server in a segmented download, with a data buffer for the whole object, of an object that may be
  -- written, is no domain, has no object dictionary function and is not 1003,00: the data that is left
  -- comes in one segment or more of at most seven bytes each, with the length of the object in all and
  -- the expected toggle bits, each request processed in time. Then every segment is acknowledged with
  -- its toggle bit, and at the end the server is idle and the object has all bytes in their order.
  pub download_segments :
      (sdo : Sdo) (bytes bs : List ℕ) (segments : List (List ℕ))
      → IsReceiving sdo bytes
      → IsWriteable sdo
      → sdo.sequence < 2
      → AreShort (bs ∷ segments)
      → length bytes + length (concat (bs ∷ segments)) ≡ sdo.arg.data_length
      → let r = answers sdo (segment_msgs sdo.sequence (bs ∷ segments)) time timeout in
        IsDelivered sdo (bytes ++ concat (bs ∷ segments)) r.0
        × (r.1 ≡ acknowledgements sdo.sequence (bs ∷ segments))
  download_segments sdo bytes bs [] receiving writeable bit (short, shorts) sum =
      let (done, sent) =
        last_segment sdo bytes bs receiving writeable bit short
          (omega (arith, length-append bs [])) in
      (rw (append_nil bs) done, rw sent refl)
  download_segments sdo bytes bs (bs' ∷ segments) receiving writeable bit (short, shorts) sum =
      let p = answer sdo (segment_msg sdo.sequence false bs) time timeout in
      let rest = concat (bs' ∷ segments) in
      let lengths = length-append bs rest in
      let (receiving', same, seq, sent) =
        more_segment sdo bytes bs receiving bit short (omega (arith, lengths)) in
      let (eo, ee, ea, ex) = same in
      let total = ap (λ a. a.data_length) ea in
      let bit' : p.sdo.sequence < 2 = ground arith in
      let all =
        download_segments p.sdo (bytes ++ bs) bs' segments receiving'
          (same-IsWriteable sdo p.sdo same writeable) bit' shorts
          (omega (arith, lengths, length-append bytes bs)) in
      let ((over, free, stored), sents) =
        subst
          (λ t.
            let r = answers p.sdo (segment_msgs t (bs' ∷ segments)) time timeout in
            IsDelivered p.sdo ((bytes ++ bs) ++ rest) r.0
            × (r.1 ≡ acknowledgements t (bs' ∷ segments)))
          seq all in
      (
        (
          over,
          free,
          stored
              ∙ same-with_data sdo p.sdo ((bytes ++ bs) ++ rest) same
              ∙ ap (with_data sdo) (append_assoc bytes bs rest),
        ),
        ap₂ (λ x xs. x ∷ xs) sent sents,
      )
