-- ===== src/Sdo/Failures.antt =====
-- stack/CO_SDO.c: how transfers fail.
use canopen_node.Driver.{RxMsg, data_at}
use canopen_node.Sdo.{idle, download_segmented, upload_segmented, Sdo}
use canopen_node.Sdo.Download.{download_segment_step}
use canopen_node.Sdo.Outcome.{abort, abort_code}
use canopen_node.Sdo.Process.{failed, start, step, conclude, process_new, process}
use canopen_node.Sdo.Receive.{is_download_bl_subblock}
use canopen_node.Sdo.Steps.{answer, answer_steps, receive_request}
use canopen_node.Sdo.Upload.{upload_segment_step}
use canopen_node.Prelude.{
  ap, ◌||◌, ℕ, ◌/◌, ◌%◌, ◌<◌, ◌≡◌, ◌≢◌, ◌⊎◌, inl, inr, refl, true, false, [], ◌∷◌, some, ◌==◌, ◌/=◌,
  arith,
}

-- A request of eight bytes to a server that is idle and holds no other, which is no abort message and
-- whose command specifier begins no transfer, is answered by the abort message with the code 0x05040001,
-- in which the index and the sub-index are those of the transfer before it, not those of the request; the
-- server is then idle and holds no request, and the dictionary is not touched.
pub answer_unknown_command :
    (sdo : Sdo) (msg : RxMsg) (time timeout : ℕ)
    → sdo.state ≡ idle
    → sdo.can_rx_new ≡ false
    → msg.dlc ≡ 8
    → data_at msg 0 ≢ 0x80
    → data_at msg 0 / 32 ≢ 1
    → data_at msg 0 / 32 ≢ 2
    → data_at msg 0 / 32 ≢ 5
    → data_at msg 0 / 32 ≢ 6
    → let p = answer sdo msg time timeout in
      (p.result ≡ failed)
      × (p.sent
          ≡ some (
              0x80
              ∷ sdo.arg.index % 256
              ∷ sdo.arg.index / 256 % 256
              ∷ sdo.arg.sub_index
              ∷ 1
              ∷ 0
              ∷ 4
              ∷ 5
              ∷ []))
      × (p.sdo.state ≡ idle)
      × (p.sdo.can_rx_new ≡ false)
      × (p.sdo.od ≡ sdo.od)
unfolding process process_new start conclude abort abort_code
answer_unknown_command sdo msg time timeout st old dlc go download upload block_up block_down =
    let received = receive_request sdo msg dlc old (ap is_download_bl_subblock st) in
    let no_abort : (data_at msg 0 == 0x80) ≡ false = ground arith in
    let unknown : (((data_at msg 0 / 32 == 1) || (data_at msg 0 / 32 == 2))
          || ((data_at msg 0 / 32 == 6) || (data_at msg 0 / 32 == 5)))
        ≡ false =
      ground arith in
    rw (received, st, no_abort, unknown) (refl, refl, refl, refl, refl)

-- A request of eight bytes in a segmented transfer, in either direction, to a server that holds no
-- other, whose toggle bit is not the expected one, is answered, in time, by the abort message with the
-- code 0x05030000; the dictionary is not touched.
pub answer_toggle_bit :
    (sdo : Sdo) (msg : RxMsg) (time timeout : ℕ)
    → ((sdo.state ≡ download_segmented) × (data_at msg 0 / 32 ≡ 0))
      ⊎ ((sdo.state ≡ upload_segmented) × (data_at msg 0 / 32 ≡ 3))
    → data_at msg 0 / 16 % 2 ≢ sdo.sequence
    → sdo.can_rx_new ≡ false
    → msg.dlc ≡ 8
    → time < timeout
    → timeout < 65536
    → let p = answer sdo msg time timeout in
      (p.result ≡ failed)
      × (p.sent
          ≡ some (
              0x80
              ∷ sdo.arg.index % 256
              ∷ sdo.arg.index / 256 % 256
              ∷ sdo.arg.sub_index
              ∷ 0
              ∷ 0
              ∷ 3
              ∷ 5
              ∷ []))
      × (p.sdo.od ≡ sdo.od)
unfolding step download_segment_step upload_segment_step conclude abort abort_code
answer_toggle_bit sdo msg time timeout (inl (st, cs)) wrong old dlc soon word =
    let command : (data_at msg 0 / 32 /= 0) ≡ false = ground arith in
    let toggle : (data_at msg 0 / 16 % 2 /= sdo.sequence) ≡ true = ground arith in
    rw
      (
        answer_steps sdo msg download_segmented time timeout st refl refl refl old dlc
            (λ e. absurd (omega (arith, e))) soon word,
        command,
        toggle,
      )
      (refl, refl, refl)
answer_toggle_bit sdo msg time timeout (inr (st, cs)) wrong old dlc soon word =
    let command : (data_at msg 0 / 32 /= 3) ≡ false = ground arith in
    let toggle : (data_at msg 0 / 16 % 2 /= sdo.sequence) ≡ true = ground arith in
    rw
      (
        answer_steps sdo msg upload_segmented time timeout st refl refl refl old dlc
            (λ e. absurd (omega (arith, e))) soon word,
        command,
        toggle,
      )
      (refl, refl, refl)
