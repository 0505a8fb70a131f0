-- ===== src/Sdo/Blocks.antt =====
-- stack/CO_SDO.c: the segments of a block download, which `CO_SDO_receive` copies.
use mathlib.Core.Path.{subst}
use canopen_node.Driver.{RxMsg, data_at}
use canopen_node.Sdo.{download_bl_subblock, download_bl_sub_resp, Sdo}
use canopen_node.Sdo.Buffer.{take-overwrite, length-overwrite, append_assoc}
use canopen_node.Sdo.Receive.{segment_of, receive}
use canopen_node.Sdo.BlockSegment.{IsWithin, taken, broken, receive_in_order}
use canopen_node.Prelude.{
  ℕ, ◌+◌, ◌*◌, ◌%◌, ◌<◌, ◌≤◌, ◌≡◌, ◌⊎◌, refl, ap, sym, ◌∙◌, true, false, List, [], ◌∷◌, ◌++◌, ◌||◌,
  leb, length, set, take, arith,
}

-- The messages of a sub-block behind `seq` segments: in sequence, and ended by the last segment of
-- the transfer or by the block size.
abbrev pub IsSubblock : ℕ → ℕ → List RxMsg → Type 0
IsSubblock seq blksize [] = ⊥
IsSubblock seq blksize (msg ∷ []) =
    (msg.dlc ≡ 8) × (data_at msg 0 % 128 ≡ seq + 1) × ((128 ≤ data_at msg 0) ⊎ (blksize ≤ seq + 1))
IsSubblock seq blksize (msg ∷ msg' ∷ msgs) =
    (msg.dlc ≡ 8)
    × (data_at msg 0 ≡ seq + 1)
    × (seq + 1 < blksize)
    × IsSubblock (seq + 1) blksize (msg' ∷ msgs)

abbrev pub receive_all : Sdo → List RxMsg → Sdo
receive_all sdo [] = sdo
receive_all sdo (msg ∷ msgs) = receive_all (receive sdo msg).0 msgs

-- The data of segments of seven bytes each.
abbrev pub payload : List RxMsg → List ℕ
payload [] = []
payload (msg ∷ msgs) = segment_of msg ++ payload msgs

-- What the reception of a block leaves as it was.
abbrev IsKept : Sdo → Sdo → Type 0
IsKept sdo sdo' =
    (sdo'.od ≡ sdo.od)
    × (sdo'.entry_no ≡ sdo.entry_no)
    × (sdo'.arg ≡ sdo.arg)
    × (sdo'.extensions ≡ sdo.extensions)
    × (sdo'.crc ≡ sdo.crc)
    × (sdo'.crc_enabled ≡ sdo.crc_enabled)
    × (sdo'.buffer_size ≡ sdo.buffer_size)

-- The first byte of the last message.
abbrev pub last_byte : List RxMsg → ℕ
last_byte [] = 0
last_byte (msg ∷ []) = data_at msg 0
last_byte (msg ∷ msg' ∷ msgs) = last_byte (msg' ∷ msgs)

set-set : (xs : List ℕ) (a b : ℕ) → set (set xs 0 a) 0 b ≡ set xs 0 b
set-set [] a b = refl
set-set (x ∷ xs) a b = refl

-- The state behind a sub-block.
abbrev pub IsTaken : Sdo → List RxMsg → Sdo → Type 0
IsTaken sdo msgs sdo' =
    (sdo'.state ≡ download_bl_sub_resp)
    × (sdo'.can_rx_new ≡ true)
    × (sdo'.sequence ≡ sdo.sequence + length msgs)
    × (sdo'.buffer_offset ≡ sdo.buffer_offset + 7 * length msgs)
    × (take sdo'.buffer_offset sdo'.databuffer
        ≡ take sdo.buffer_offset sdo.databuffer ++ payload msgs)
    × (sdo'.can_rx_data ≡ set sdo.can_rx_data 0 (last_byte msgs))
    × IsKept sdo sdo'

take-taken :
    (sdo : Sdo) (msg : RxMsg) (seq n : ℕ)
    → IsWithin sdo
    → n ≡ sdo.buffer_offset + 7
    → n ≤ sdo.buffer_size
    → take n (taken sdo msg seq n).databuffer
      ≡ take sdo.buffer_offset sdo.databuffer ++ segment_of msg
take-taken sdo msg seq n (len, word, off, room) en fits =
    take-overwrite sdo.databuffer sdo.buffer_offset n (segment_of msg) en (omega arith)

-- While a server with room in its data buffer receives a block download and holds no message, the
-- messages of a sub-block, whose data fits into the buffer, are copied behind the data before them in
-- their order, and the response is due with the number of the segments taken; the dictionary, the
-- object of the transfer and its CRC are as they were.
pub receive_subblock :
    (sdo : Sdo) (msgs : List RxMsg)
    → IsWithin sdo
    → sdo.state ≡ download_bl_subblock
    → sdo.can_rx_new ≡ false
    → sdo.blksize < 128
    → IsSubblock sdo.sequence sdo.blksize msgs
    → sdo.buffer_offset + 7 * length msgs ≤ sdo.buffer_size
    → IsTaken sdo msgs (receive_all sdo msgs)
receive_subblock sdo [] within st new few ms fits = absurd ms
receive_subblock sdo (msg ∷ []) within st new few (dlc, seq, end) fits =
    let n = sdo.buffer_offset + 7 in
    let ends : ((leb 128 (data_at msg 0) || leb sdo.blksize (sdo.sequence + 1))
          || leb sdo.buffer_size n)
        ≡ true =
      ground arith in
    let e =
      receive_in_order sdo msg (sdo.sequence + 1) n within st new dlc refl seq refl (omega arith)
      ∙ ap (λ b. broken b (taken sdo msg (sdo.sequence + 1) n)) ends in
    subst (IsTaken sdo (msg ∷ [])) (sym e) (
      refl,
      refl,
      refl,
      refl,
      take-taken sdo msg (sdo.sequence + 1) n within refl (omega arith),
      refl,
      (refl, refl, refl, refl, refl, refl, refl),
    )
receive_subblock sdo (msg ∷ msg' ∷ msgs) within st new few (dlc, seq, more, ms) fits =
    let n = sdo.buffer_offset + 7 in
    let sdo' = taken sdo msg (sdo.sequence + 1) n in
    let goes : ((leb 128 (data_at msg 0) || leb sdo.blksize (sdo.sequence + 1))
          || leb sdo.buffer_size n)
        ≡ false =
      ground arith in
    let e =
      receive_in_order sdo msg (sdo.sequence + 1) n within st new dlc refl (omega arith) refl
        (omega arith)
      ∙ ap (λ b. broken b sdo') goes in
    let within' : IsWithin sdo' =
      let (len, word, off, room) = within in
      (
        length-overwrite sdo.databuffer sdo.buffer_offset (segment_of msg) ∙ len,
        word,
        omega arith,
        λ q. omega arith,
      ) in
    let (s, r, q, o, t, d, kept) =
      receive_subblock sdo' (msg' ∷ msgs) within' st new few ms (omega arith) in
    subst (λ s. IsTaken sdo (msg ∷ msg' ∷ msgs) (receive_all s (msg' ∷ msgs))) (sym e)
      (
        s,
        r,
        omega arith,
        omega arith,
        t
            ∙ ap (λ bs. bs ++ payload (msg' ∷ msgs))
                (take-taken sdo msg (sdo.sequence + 1) n within refl (omega arith))
            ∙ append_assoc (take sdo.buffer_offset sdo.databuffer) (segment_of msg)
                (payload (msg' ∷ msgs)),
        d ∙ set-set sdo.can_rx_data (data_at msg 0) (last_byte (msg' ∷ msgs)),
        kept,
      )
