-- ===== src/Sdo/Room.antt =====
-- stack/CO_SDO.c: `CO_SDO_receive` stays inside the data buffer.
use canopen_node.Driver.{RxMsg, data_at}
use canopen_node.Sdo.{SdoState, download_bl_subblock, Sdo}
use canopen_node.Sdo.BlockSegment.{IsWithin}
use canopen_node.Sdo.Receive.{
  is_download_bl_subblock, break_reception, copy_segment, segment_of, receive_segment, receive,
}
use canopen_node.Sdo.Access.{overwrite}
use canopen_node.Prelude.{
  suc, ◌≤◌, length, take, ℕ, ◌+◌, ◌%◌, ◌<◌, ◌≡◌, inl, inr, refl, ◌∙◌, true, not, ◌&&◌, ◌||◌, List,
  [], ◌∷◌, leb, ◌==◌, set, arith, Bool-cases, if_intro, length-set, u16, u8,
}

here_state : (s : SdoState) → is_download_bl_subblock s ≡ true → s ≡ download_bl_subblock
here_state download_bl_subblock e = refl
here_state other e = cc e

-- The buffer has the first bytes of these behind its offset, as many as the offset has advanced by, and
-- is as it was otherwise.
abbrev pub HasCopied : List ℕ → Sdo → Sdo → Type 0
HasCopied bs sdo sdo' =
    (n : ℕ) × (n ≤ length bs)
    × (sdo'.buffer_offset ≡ sdo.buffer_offset + n)
    × (sdo'.databuffer ≡ overwrite sdo.databuffer sdo.buffer_offset (take n bs))

-- This, and the room in the buffer.
abbrev pub IsTaken : List ℕ → Sdo → Sdo → Type 0
IsTaken bs sdo sdo' = IsWithin sdo' × HasCopied bs sdo sdo'

nothing-IsTaken : (bs : List ℕ) (sdo : Sdo) → IsWithin sdo → IsTaken bs sdo sdo
nothing-IsTaken bs sdo within = (within, (0, omega arith, omega arith, refl))

broken-IsTaken :
    (bs : List ℕ) (sdo sdo' : Sdo) → IsTaken bs sdo sdo' → IsTaken bs sdo (break_reception sdo')
broken-IsTaken bs sdo sdo' ((len, word, off, room), copies) = ((len, word, off, λ q. cc q), copies)

copy_segment-IsTaken :
    (bs : List ℕ) (sdo : Sdo)
    → IsWithin sdo
    → sdo.buffer_offset < sdo.buffer_size
    → IsTaken bs sdo (copy_segment bs sdo)
unfolding copy_segment
copy_segment-IsTaken [] sdo within h = nothing-IsTaken [] sdo within
copy_segment-IsTaken (b ∷ bs) sdo (len, word, off, room) h =
    let next : u16 (sdo.buffer_offset + 1) ≡ sdo.buffer_offset + 1 = omega arith in
    let sdo' = record sdo {
      databuffer = set sdo.databuffer sdo.buffer_offset b;
      buffer_offset = sdo.buffer_offset + 1;
    } in
    let len' = length-set sdo.databuffer sdo.buffer_offset b ∙ len in
    elim (Bool-cases (leb sdo.buffer_size (sdo.buffer_offset + 1))) [
      | inl full ↦
          rw (next, full)
            ((len', word, omega arith, λ q. cc q), (1, omega arith, omega arith, refl))
      | inr more ↦
          let (within, (n, small, advanced, copies)) =
            copy_segment-IsTaken bs sdo' (len', word, omega arith, λ q. ground arith)
              (ground arith) in
          rw (next, more) (within, (suc n, omega arith, omega arith, copies))
    ]

receive_segment-IsTaken :
    (sdo : Sdo) (msg : RxMsg)
    → IsWithin sdo
    → sdo.buffer_offset < sdo.buffer_size
    → IsTaken (segment_of msg) sdo (receive_segment sdo msg)
unfolding receive_segment
receive_segment-IsTaken sdo msg within h =
    let bs = segment_of msg in
    let started = record sdo {
      can_rx_data = set sdo.can_rx_data 0 (data_at msg 0);
      timeout_timer = 0;
    } in
    let copied = copy_segment bs (record started { sequence = u8 (sdo.sequence + 1) }) in
    let taken : IsTaken bs sdo copied =
      copy_segment-IsTaken bs (record started { sequence = u8 (sdo.sequence + 1) }) within h in
    let kept : IsTaken bs sdo started = (within, (0, omega arith, omega arith, refl)) in
    if_intro (IsTaken bs sdo) (data_at msg 0 % 128 == sdo.sequence + 1)
      (if_intro (IsTaken bs sdo) (leb 128 (data_at msg 0) || leb copied.blksize copied.sequence)
        (broken-IsTaken bs sdo copied taken) taken)
      (if_intro (IsTaken bs sdo) ((data_at msg 0 % 128 == sdo.sequence) || (sdo.sequence == 0)) kept
        (broken-IsTaken bs sdo started kept))

-- If the data buffer has its size, below 65536, the offset is not behind its end, and while segments of
-- a block are received there is room for a byte, then this holds after any message as well, in
-- whatever state it is received. The data buffer then differs only by the first of the bytes 1 to 7 of
-- the message, as many as the offset has advanced by, which stand from the old offset on: as the new
-- offset is not behind the end of the buffer, there is room for all of them.
pub receive-IsTaken :
    (sdo : Sdo) (msg : RxMsg)
    → IsWithin sdo
    → IsWithin (receive sdo msg).0 × HasCopied (segment_of msg) sdo (receive sdo msg).0
unfolding receive
receive-IsTaken sdo msg (len, word, off, room) =
    let within : IsWithin sdo = (len, word, off, room) in
    let bs = segment_of msg in
    elim (Bool-cases ((msg.dlc == 8) && not sdo.can_rx_new)) [
      | inr refused ↦ rw refused (nothing-IsTaken bs sdo within)
      | inl accepted ↦ rw accepted (elim (Bool-cases (is_download_bl_subblock sdo.state)) [
        | inr other ↦ rw other (within, (0, omega arith, omega arith, refl))
        | inl here ↦
            rw here (receive_segment-IsTaken sdo msg within (room (here_state sdo.state here)))
      ])
    ]
