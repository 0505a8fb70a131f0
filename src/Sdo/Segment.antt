-- ===== src/Sdo/Segment.antt =====
-- stack/CO_SDO.c: one request of a segmented download.
use canopen_node.Driver.{RxMsg}
use canopen_node.Sdo.{idle, download_segmented, Sdo}
use canopen_node.Sdo.Access.{overwrite, write_od}
use canopen_node.Sdo.Download.{segment_response, download_segment_step}
use canopen_node.Sdo.Outcome.{Outcome, rx, after}
use canopen_node.Sdo.Receive.{segment_of}
use canopen_node.Prelude.{
  ℕ, ◌+◌, ◌-◌, ◌*◌, ◌/◌, ◌%◌, ◌<◌, ◌≤◌, ◌≡◌, refl, Bool, true, false, List, [], ◌∷◌, ◌++◌, ltb,
  ◌==◌, ◌/=◌, if◌then◌else◌, length, take, drop, replicate, arith, u16,
}

-- The request that carries up to seven bytes of a segmented download.
abbrev pub segment_msg : ℕ → Bool → List ℕ → RxMsg
segment_msg toggle last bs = record {
  dlc = 8;
  bytes =
      (toggle * 16 + (7 - length bs) * 2 + (if last then 1 else 0)) ∷ bs
      ++ replicate (7 - length bs) 0;
}

abbrev pub flip : ℕ → ℕ
flip toggle = if toggle == 0 then 1 else 0

-- What a server in a segmented download has received so far.
abbrev pub IsReceiving : Sdo → List ℕ → Type 0
IsReceiving sdo bytes =
    (sdo.state ≡ download_segmented)
    × (sdo.can_rx_new ≡ false)
    × (length sdo.databuffer ≡ sdo.buffer_size)
    × (sdo.buffer_size < 65536)
    × (sdo.arg.data_length ≤ sdo.buffer_size)
    × (sdo.buffer_offset ≡ length bytes)
    × (take sdo.buffer_offset sdo.databuffer ≡ bytes)

pub segment_bytes :
    (toggle : ℕ) (last : Bool) (bs : List ℕ)
    → length bs ≤ 7
    → take (length bs) (segment_of (segment_msg toggle last bs)) ≡ bs
segment_bytes toggle last [] h = refl
segment_bytes toggle last (a ∷ []) h = refl
segment_bytes toggle last (a ∷ b ∷ []) h = refl
segment_bytes toggle last (a ∷ b ∷ c ∷ []) h = refl
segment_bytes toggle last (a ∷ b ∷ c ∷ d ∷ []) h = refl
segment_bytes toggle last (a ∷ b ∷ c ∷ d ∷ e ∷ []) h = refl
segment_bytes toggle last (a ∷ b ∷ c ∷ d ∷ e ∷ f ∷ []) h = refl
segment_bytes toggle last (a ∷ b ∷ c ∷ d ∷ e ∷ f ∷ g ∷ []) h = refl
segment_bytes toggle last (a ∷ b ∷ c ∷ d ∷ e ∷ f ∷ g ∷ i ∷ bs) h = absurd (omega arith)

-- The state behind a segment, but for the response and the end of the transfer.
abbrev pub copied : Sdo → List ℕ → Sdo
copied sdo bs = record sdo {
  databuffer = overwrite sdo.databuffer sdo.buffer_offset bs;
  buffer_offset = sdo.buffer_offset + length bs;
}

abbrev pub bit_of : Bool → ℕ
bit_of last = if last then 1 else 0

-- The write behind the last segment.
abbrev pub finish : Sdo → List ℕ → Outcome
finish sdo bs =
    after
      (write_od (record (copied sdo bs) { arg = record sdo.arg { last_segment = true } })
        (sdo.buffer_offset + length bs))
      (λ s. segment_response (record s { state = idle }))

bit_is : (n : ℕ) (last : Bool) → n % 2 ≡ bit_of last → (n % 2 == 1) ≡ last
bit_is n true e = ground arith
bit_is n false e = ground arith

-- A segment that fits is copied.
pub segment_step :
    (sdo : Sdo) (bs : List ℕ) (last : Bool)
    → rx sdo 0 ≡ sdo.sequence * 16 + (7 - length bs) * 2 + bit_of last
    → bit_of last < 2
    → take (length bs) (drop 1 sdo.can_rx_data) ≡ bs
    → sdo.sequence < 2
    → length bs ≤ 7
    → sdo.arg.data_length < 65536
    → sdo.buffer_offset + length bs ≤ sdo.arg.data_length
    → download_segment_step sdo ≡ (if last then finish sdo bs else segment_response (copied sdo bs))
unfolding download_segment_step
segment_step sdo bs last e one eb bit short word fits =
    let command : (rx sdo 0 / 32 /= 0) ≡ false = ground arith in
    let toggled : (rx sdo 0 / 16 % 2 /= sdo.sequence) ≡ false = ground arith in
    let size : 7 - rx sdo 0 / 2 % 8 ≡ length bs = omega arith in
    let inside : ltb sdo.arg.data_length (sdo.buffer_offset + length bs) ≡ false = ground arith in
    let ends : (rx sdo 0 % 2 == 1) ≡ last = bit_is (rx sdo 0) last (omega arith) in
    let offset : u16 (sdo.buffer_offset + length bs) ≡ sdo.buffer_offset + length bs =
      omega arith in
    rw (command, toggled, size, inside, eb, ends, offset)
