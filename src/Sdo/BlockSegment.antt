-- ===== src/Sdo/BlockSegment.antt =====
-- stack/CO_SDO.c: one segment of a block download, which `CO_SDO_receive` copies.
use canopen_node.Driver.{RxMsg, data_at}
use canopen_node.Sdo.{download_bl_subblock, Sdo}
use canopen_node.Sdo.Access.{overwrite}
use canopen_node.Sdo.Receive.{
  is_download_bl_subblock, break_reception, copy_segment, segment_of, receive_segment, receive,
}
use canopen_node.Prelude.{
  ℕ, ◌+◌, ◌%◌, ◌<◌, ◌≤◌, ◌≡◌, inl, inr, refl, ap, Bool, true, false, List, [], ◌∷◌, ◌||◌, not, leb,
  ◌==◌, if◌then◌else◌, length, set, arith, Bool-cases, u16, u8,
}

-- The data buffer has its size, and there is room in it while segments are received.
abbrev pub IsWithin : Sdo → Type 0
IsWithin sdo =
    (length sdo.databuffer ≡ sdo.buffer_size)
    × (sdo.buffer_size < 65536)
    × (sdo.buffer_offset ≤ sdo.buffer_size)
    × (sdo.state ≡ download_bl_subblock → sdo.buffer_offset < sdo.buffer_size)

abbrev copied : ℕ → List ℕ → Sdo → Sdo
copied n bs sdo = record sdo {
  databuffer = overwrite sdo.databuffer sdo.buffer_offset bs;
  buffer_offset = n;
}

abbrev pub broken : Bool → Sdo → Sdo
broken b sdo = if b then break_reception sdo else sdo

-- Bytes that fit are copied; reception is broken when they fill the buffer.
copy_segment-eq :
    (bs : List ℕ) (sdo : Sdo) (n : ℕ)
    → sdo.buffer_size < 65536
    → sdo.buffer_offset < sdo.buffer_size
    → n ≤ sdo.buffer_size
    → n ≡ sdo.buffer_offset + length bs
    → copy_segment bs sdo ≡ broken (leb sdo.buffer_size n) (copied n bs sdo)
unfolding copy_segment
copy_segment-eq [] sdo n word room fits e =
    let same : n ≡ sdo.buffer_offset = omega arith in
    let short : leb sdo.buffer_size sdo.buffer_offset ≡ false = ground arith in
    rw (same, short) refl
copy_segment-eq (b ∷ bs) sdo n word room fits e =
    let next : u16 (sdo.buffer_offset + 1) ≡ sdo.buffer_offset + 1 = omega arith in
    elim (Bool-cases (leb sdo.buffer_size (sdo.buffer_offset + 1))) [
      | inl full ↦ last bs n e fits next full
      | inr room' ↦
          rw (next, room')
            (copy_segment-eq bs
              (record sdo {
                databuffer = set sdo.databuffer sdo.buffer_offset b;
                buffer_offset = sdo.buffer_offset + 1;
              })
              n word (ground arith) fits (omega arith))
    ]
  where
    last :
        (bs : List ℕ) (n : ℕ)
        → n ≡ sdo.buffer_offset + length (b ∷ bs)
        → n ≤ sdo.buffer_size
        → u16 (sdo.buffer_offset + 1) ≡ sdo.buffer_offset + 1
        → leb sdo.buffer_size (sdo.buffer_offset + 1) ≡ true
        → copy_segment (b ∷ bs) sdo ≡ broken (leb sdo.buffer_size n) (copied n (b ∷ bs) sdo)
    last [] n e fits next full =
        let same : n ≡ sdo.buffer_offset + 1 = omega arith in rw (next, full, same, full) refl
    last (c ∷ bs) n e fits next full = absurd (ground arith)

-- A reception that is broken twice is broken once.
break_either :
    (last full : Bool) (sdo : Sdo)
    → (if last || leb (broken full sdo).blksize (broken full sdo).sequence
        then break_reception (broken full sdo)
        else broken full sdo)
      ≡ broken ((last || leb sdo.blksize sdo.sequence) || full) sdo
break_either last true sdo = again (last || leb sdo.blksize sdo.sequence)
  where
    again :
        (b : Bool)
        → (if b then break_reception (break_reception sdo) else break_reception sdo)
          ≡ broken (b || true) sdo
    again true = refl
    again false = refl
break_either last false sdo = once (last || leb sdo.blksize sdo.sequence)
  where
    once : (b : Bool) → (if b then break_reception sdo else sdo) ≡ broken (b || false) sdo
    once true = refl
    once false = refl

-- The state behind a segment in sequence, but for the end of the reception.
abbrev pub taken : Sdo → RxMsg → ℕ → ℕ → Sdo
taken sdo msg seq n = copied n (segment_of msg) (record sdo {
  can_rx_data = set sdo.can_rx_data 0 (data_at msg 0);
  timeout_timer = 0;
  sequence = seq;
})

pub receive_in_order :
    (sdo : Sdo) (msg : RxMsg) (seq n : ℕ)
    → IsWithin sdo
    → sdo.state ≡ download_bl_subblock
    → sdo.can_rx_new ≡ false
    → msg.dlc ≡ 8
    → seq ≡ sdo.sequence + 1
    → data_at msg 0 % 128 ≡ seq
    → n ≡ sdo.buffer_offset + 7
    → n ≤ sdo.buffer_size
    → (receive sdo msg).0
      ≡ broken
          ((leb 128 (data_at msg 0) || leb sdo.blksize seq) || leb sdo.buffer_size n)
          (taken sdo msg seq n)
unfolding receive receive_segment
receive_in_order sdo msg seq n (len, word, off, room) st new dlc es e en fits =
    let wide : (msg.dlc == 8) ≡ true = ground arith in
    let wrap : u8 (sdo.sequence + 1) ≡ seq = omega arith in
    let next : (data_at msg 0 % 128 == sdo.sequence + 1) ≡ true = ground arith in
    let here : is_download_bl_subblock sdo.state ≡ true = ap is_download_bl_subblock st in
    let free : not sdo.can_rx_new ≡ true = ap not new in
    let copies =
      copy_segment-eq (segment_of msg)
        (record sdo {
          can_rx_data = set sdo.can_rx_data 0 (data_at msg 0);
          timeout_timer = 0;
          sequence = seq;
        })
        n word (room st) fits en in
    rw (wide, free, here, next, wrap, copies)
      (break_either (leb 128 (data_at msg 0)) (leb sdo.buffer_size n) (taken sdo msg seq n))
