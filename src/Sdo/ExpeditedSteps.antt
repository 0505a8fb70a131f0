-- ===== src/Sdo/ExpeditedSteps.antt =====
-- stack/CO_SDO.c: the steps of expedited transfers.
use canopen_node.Driver.{RxMsg, ab_none}
use canopen_node.Sdo.{oda_writeable, idle, at_offset, Sdo}
use canopen_node.Sdo.Access.{is_null, overwrite}
use canopen_node.Sdo.Buffer.{piece, take-overwrite}
use canopen_node.Sdo.Download.{respond_to, download_initiate_step}
use canopen_node.Sdo.Od.{od_find, extension_at}
use canopen_node.Sdo.Outcome.{replied, rx}
use canopen_node.Sdo.Store.{write_od_writes, with_data, written_arg}
use canopen_node.Sdo.Upload.{upload_initiate_step}
use canopen_node.Sdo.Variable.{IsVariable}
use canopen_node.Prelude.{
  ℕ, ◌+◌, ◌-◌, ◌*◌, ◌/◌, ◌%◌, ◌<◌, ◌≤◌, ◌≡◌, ◌≢◌, refl, ap, ◌∙◌, true, false, ◌&&◌, List, [], ◌∷◌,
  ◌++◌, none, leb, ◌==◌, length, get_or, take, replicate, arith, bit_and, length-append,
  length-replicate,
}

-- One to four bytes, filled up with zeros.
abbrev pub padded : List ℕ → List ℕ
padded bytes = bytes ++ replicate (4 - length bytes) 0

pub four_bytes :
    (bs : List ℕ)
    → 0 < length bs
    → length bs ≤ 4
    → (get_or (padded bs) 0 0
        ∷ get_or (padded bs) 1 0
        ∷ get_or (padded bs) 2 0
        ∷ get_or (padded bs) 3 0
        ∷ [])
      ≡ padded bs
four_bytes [] some_byte short = refl
four_bytes (a ∷ []) some_byte short = refl
four_bytes (a ∷ b ∷ []) some_byte short = refl
four_bytes (a ∷ b ∷ c ∷ []) some_byte short = refl
four_bytes (a ∷ b ∷ c ∷ d ∷ []) some_byte short = refl
four_bytes (a ∷ b ∷ c ∷ d ∷ e ∷ bs) some_byte short = absurd (omega arith)

length-padded : (bs : List ℕ) → length bs ≤ 4 → length (padded bs) ≡ 4
length-padded bs short = omega (
  arith,
  length-append bs (replicate (4 - length bs) 0),
  length-replicate {A = ℕ} (4 - length bs) 0,
)

-- The request of an expedited download, and of an upload, of sub-index 0.
abbrev pub download_msg : ℕ → List ℕ → RxMsg
download_msg index bytes = record {
  dlc = 8;
  bytes = (0x23 + (4 - length bytes) * 4) ∷ index % 256 ∷ index / 256 ∷ 0 ∷ padded bytes;
}

abbrev pub upload_msg : ℕ → RxMsg
upload_msg index = record {
  dlc = 8;
  bytes = 0x40 ∷ index % 256 ∷ index / 256 ∷ 0 ∷ 0 ∷ 0 ∷ 0 ∷ 0 ∷ [];
}

-- A server that waits for a request, with such a variable.
abbrev pub IsReady : Sdo → ℕ → List ℕ → Type 0
IsReady sdo index bytes =
    (sdo.state ≡ idle)
    × (sdo.can_rx_new ≡ false)
    × (length sdo.databuffer ≡ sdo.buffer_size)
    × (4 ≤ sdo.buffer_size)
    × IsVariable sdo (od_find sdo.od index) bytes

-- "copy data to SDO buffer"
abbrev with_bytes : Sdo → Sdo
with_bytes sdo = record sdo {
  databuffer = overwrite sdo.databuffer 0 (rx sdo 4 ∷ rx sdo 5 ∷ rx sdo 6 ∷ rx sdo 7 ∷ []);
}

pub download_step :
    (sdo : Sdo) (bytes : List ℕ)
    → 0 < length bytes
    → length bytes ≤ 4
    → rx sdo 0 ≡ 0x23 + (4 - length bytes) * 4
    → (rx sdo 4 ∷ rx sdo 5 ∷ rx sdo 6 ∷ rx sdo 7 ∷ []) ≡ padded bytes
    → 4 ≤ length sdo.databuffer
    → length bytes ≡ sdo.arg.data_length
    → sdo.arg.od_data_storage ≡ at_offset 0
    → (bit_and sdo.arg.attribute oda_writeable == 0) ≡ false
    → (extension_at sdo sdo.entry_no).od_function ≡ none
    → sdo.arg.index ≢ 0x1003
    → let sdo' = with_bytes (respond_to sdo 0x60) in
      download_initiate_step sdo
      ≡ replied (record sdo' {
        arg = written_arg sdo' (length bytes);
        od = with_data sdo bytes;
        state = idle;
      })
unfolding download_initiate_step
download_step sdo bytes some_byte short e data4 room len pointer w f index =
    let expedited : (rx sdo 0 / 2 % 2 == 1) ≡ true = ground arith in
    let sized : (rx sdo 0 % 2 == 1) ≡ true = ground arith in
    let length_is : 4 - rx sdo 0 / 4 % 4 ≡ length bytes = omega arith in
    let no_list : ((sdo.arg.index == 0x1003) && (sdo.arg.sub_index == 0)) ≡ false = ground arith in
    let sdo' = with_bytes (respond_to sdo 0x60) in
    let first : take 4 sdo'.databuffer ≡ padded bytes =
      ap (λ bs. take 4 (overwrite sdo.databuffer 0 bs)) data4
      ∙ take-overwrite sdo.databuffer 0 4 (padded bytes) (omega (arith, length-padded bytes short))
          room in
    let prefix : take (length bytes) sdo'.databuffer ≡ bytes =
      piece 4 sdo'.databuffer [] bytes (replicate (4 - length bytes) 0) first in
    let write =
      write_od_writes sdo' (length bytes) (w, ap is_null pointer, f, no_list) len
      ∙ ap
          (λ bs.
            (ab_none, record sdo' { arg = written_arg sdo' (length bytes); od = with_data sdo bs }))
          prefix in
    rw (expedited, sized, length_is, write)

upload_frame :
    (cs a b c : ℕ) (bs : List ℕ)
    → 0 < length bs
    → length bs ≤ 4
    → overwrite (overwrite (overwrite (replicate 8 0) 0 (0 ∷ a ∷ b ∷ c ∷ [])) 4 bs) 0 (cs ∷ [])
      ≡ cs ∷ a ∷ b ∷ c ∷ padded bs
upload_frame cs a b c [] some_byte short = absurd (omega arith)
upload_frame cs a b c (d ∷ []) some_byte short = refl
upload_frame cs a b c (d ∷ e ∷ []) some_byte short = refl
upload_frame cs a b c (d ∷ e ∷ f ∷ []) some_byte short = refl
upload_frame cs a b c (d ∷ e ∷ f ∷ g ∷ []) some_byte short = refl
upload_frame cs a b c (d ∷ e ∷ f ∷ g ∷ h ∷ bs) some_byte short = absurd (omega arith)

pub upload_step :
    (sdo : Sdo) (bytes : List ℕ)
    → 0 < length bytes
    → length bytes ≤ 4
    → sdo.arg.data_length ≡ length bytes
    → take (length bytes) sdo.databuffer ≡ bytes
    → sdo.can_tx_data ≡ replicate 8 0
    → upload_initiate_step sdo
      ≡ replied (record sdo {
        can_tx_data =
            (0x43 + (4 - length bytes) * 4) ∷ rx sdo 1 ∷ rx sdo 2 ∷ rx sdo 3 ∷ padded bytes;
        state = idle;
      })
unfolding upload_initiate_step
upload_step sdo bytes some_byte short len at clear =
    let small : leb sdo.arg.data_length 4 ≡ true = ground arith in
    let frame : overwrite
          (overwrite (overwrite sdo.can_tx_data 0 (0 ∷ rx sdo 1 ∷ rx sdo 2 ∷ rx sdo 3 ∷ [])) 4
            (take sdo.arg.data_length sdo.databuffer))
          0 ((0x43 + (4 - sdo.arg.data_length) * 4) ∷ [])
        ≡ (0x43 + (4 - length bytes) * 4) ∷ rx sdo 1 ∷ rx sdo 2 ∷ rx sdo 3 ∷ padded bytes =
      rw (clear, len, at)
        (upload_frame (0x43 + (4 - length bytes) * 4) (rx sdo 1) (rx sdo 2) (rx sdo 3) bytes
          some_byte short) in
    rw small (ap (λ t. replied (record sdo { can_tx_data = t; state = idle })) frame)
