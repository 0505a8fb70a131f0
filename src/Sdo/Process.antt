-- ===== src/Sdo/Process.antt =====
-- stack/CO_SDO.c: `CO_SDO_process`.
use canopen_node.Driver.{AbortCode, ab_cmd, ab_readonly, ab_timeout, ab_device_incompat}
use canopen_node.Sdo.{
  oda_writeable, SdoState, idle, download_initiate, download_segmented, download_bl_initiate,
  download_bl_subblock, download_bl_sub_resp, download_bl_end, upload_initiate, upload_segmented,
  upload_bl_initiate, upload_bl_initiate_2, upload_bl_subblock, upload_bl_end, Sdo,
}
use canopen_node.Sdo.Access.{is_abort, init_transfer, read_od}
use canopen_node.Sdo.Download.{
  download_initiate_step, download_segment_step, download_bl_initiate_step,
  download_bl_response_step, download_bl_end_step,
}
use canopen_node.Sdo.Outcome.{Outcome, aborted, replied, quiet, pending, rx, abort}
use canopen_node.Sdo.Receive.{is_idle, is_download_bl_subblock, is_upload_bl_subblock}
use canopen_node.Sdo.Upload.{
  upload_initiate_step, upload_segment_step, upload_bl_initiate_step, upload_bl_initiate_2_step,
  upload_bl_subblock_step, upload_bl_end_step,
}
use canopen_node.Prelude.{
  ℕ, ◌+◌, ◌*◌, ◌/◌, Bool, true, false, not, ◌&&◌, ◌||◌, List, Option, none, some, ltb, leb, ◌==◌,
  ◌/=◌, if◌then◌else◌, replicate, u16, bit_and,
}

-- The results -1, 0 and 1.
pub data Result : Type 0 where
  failed finished active : Result

pub record Processed : Type 0 where
  pub sdo : Sdo
  pub sent : Option (List ℕ)
  pub result : Result
  pub timer_next : Option ℕ

-- "start new": the state of the transfer that the request begins, or the code that it is refused with.
pub data Start : Type 0 where
  refused : AbortCode → Sdo → Start
  begun : SdoState → Sdo → Start

-- "upload": the data is read at once.
abbrev start_upload : ℕ → Sdo → Start
start_upload ccs sdo0 =
    let (code, sdo) = read_od sdo0 sdo0.buffer_size 0 in
    if is_abort code
    then refused code sdo
    else if (ccs == 5) && ltb (rx sdo 5) sdo.arg.data_length
    then begun upload_bl_initiate sdo
    else begun upload_initiate sdo

abbrev start_download : ℕ → Sdo → Start
start_download ccs sdo =
    if bit_and sdo.arg.attribute oda_writeable == 0
    then refused ab_readonly sdo
    else if ccs == 1
    then begun download_initiate sdo
    else begun download_bl_initiate sdo

unfoldable pub start : Sdo → Start
start sdo0 =
    let ccs = rx sdo0 0 / 32 in
    let (code, sdo) = init_transfer sdo0 (rx sdo0 2 * 256 + rx sdo0 1) (rx sdo0 3) in
    if not (((ccs == 1) || (ccs == 2)) || ((ccs == 6) || (ccs == 5)))
    then refused ab_cmd sdo0
    else if is_abort code
    then refused code sdo
    else if (ccs == 1) || (ccs == 6)
    then start_download ccs sdo
    else start_upload ccs sdo

-- "Is something new to process?"
abbrev pub has_work : Sdo → Bool → Bool
has_work sdo buffer_full = not buffer_full && (sdo.can_rx_new || is_upload_bl_subblock sdo.state)

-- "reset timeout", "clear response buffer"
abbrev pub cleared : Sdo → Sdo
cleared sdo = record sdo {
  timeout_timer = if is_upload_bl_subblock sdo.state then sdo.timeout_timer else 0;
  can_tx_data = replicate 8 0;
}

-- "verify SDO timeout": the timer advances up to the timeout.
abbrev pub advance : Sdo → ℕ → ℕ → Sdo
advance sdo time_difference timeout =
    if ltb sdo.timeout_timer timeout
    then record sdo { timeout_timer = u16 (sdo.timeout_timer + time_difference) }
    else sdo

-- The state machine; `timed_out` is `timeoutSubblockDownolad`. The idle state falls to `default`, and is
-- not reached.
unfoldable pub step : SdoState → Bool → Sdo → Outcome
step idle timed_out sdo = aborted ab_device_incompat sdo
step download_initiate timed_out sdo = download_initiate_step sdo
step download_segmented timed_out sdo = download_segment_step sdo
step download_bl_initiate timed_out sdo = download_bl_initiate_step sdo
step download_bl_subblock timed_out sdo = quiet sdo
step download_bl_sub_resp timed_out sdo = download_bl_response_step timed_out sdo
step download_bl_end timed_out sdo = download_bl_end_step sdo
step upload_initiate timed_out sdo = upload_initiate_step sdo
step upload_segmented timed_out sdo = upload_segment_step sdo
step upload_bl_initiate timed_out sdo = upload_bl_initiate_step sdo
step upload_bl_initiate_2 timed_out sdo = upload_bl_initiate_2_step sdo
step upload_bl_subblock timed_out sdo = upload_bl_subblock_step sdo
step upload_bl_end timed_out sdo = upload_bl_end_step sdo

abbrev pub result_of : Sdo → Result
result_of sdo = if is_idle sdo.state then finished else active

-- "free buffer and send message", and the returns from the cases.
unfoldable pub conclude : Outcome → Option ℕ → Processed
conclude (aborted code sdo) next =
    let sdo' = abort sdo code in
    record { sdo = sdo'; sent = some sdo'.can_tx_data; result = failed; timer_next = next }
conclude (replied sdo) next = record {
  sdo = record sdo { can_rx_new = false };
  sent = some sdo.can_tx_data;
  result = result_of sdo;
  timer_next = next;
}
conclude (quiet sdo) next = record {
  sdo = record sdo { can_rx_new = false };
  sent = none;
  result = result_of sdo;
  timer_next = next;
}
conclude (pending sent sdo) next = record {
  sdo = sdo;
  sent = if sent then some sdo.can_tx_data else none;
  result = active;
  timer_next = if sent then elim next [ none ↦ none | some t ↦ some 0 ] else next;
}

abbrev pub unsent : Sdo → Result → Option ℕ → Processed
unsent sdo result next = record { sdo = sdo; sent = none; result = result; timer_next = next }

-- From "verify SDO timeout" on, in the state that is to be processed; `idle` for none.
unfoldable pub continue_with : SdoState → Sdo → Bool → ℕ → ℕ → Option ℕ → Processed
continue_with state sdo0 buffer_full time_difference timeout next =
    let sdo = advance sdo0 time_difference timeout in
    if leb timeout sdo.timeout_timer
    then if is_download_bl_subblock sdo.state && ((sdo.sequence /= 0) && not buffer_full)
      then conclude (step download_bl_sub_resp true sdo) next
      else conclude (aborted ab_timeout sdo) next
    else if is_idle state
    then unsent sdo finished next
    else conclude (step state false sdo) next

-- "continue with previous SDO communication or start new"
unfoldable pub process_new : Sdo → Bool → ℕ → ℕ → Option ℕ → Processed
process_new sdo buffer_full time_difference timeout next =
    if sdo.can_rx_new && (rx sdo 0 == 0x80)
    then unsent (record sdo { state = idle; can_rx_new = false }) failed next
    else if is_idle sdo.state
    then elim (start sdo) [
      | refused code s ↦ conclude (aborted code s) next
      | begun state s ↦ continue_with state s buffer_full time_difference timeout next
    ]
    else continue_with sdo.state sdo buffer_full time_difference timeout next

-- `CO_SDO_process`; `buffer_full` is that of the transmit buffer.
unfoldable pub process : Sdo → Bool → Bool → ℕ → ℕ → Option ℕ → Processed
process sdo pre_or_operational buffer_full time_difference timeout next =
    if is_idle sdo.state && not sdo.can_rx_new
    then unsent sdo finished next
    else if not pre_or_operational
    then unsent (record sdo { state = idle; can_rx_new = false }) finished next
    else if has_work sdo buffer_full
    then process_new (cleared sdo) buffer_full time_difference timeout next
    else continue_with idle sdo buffer_full time_difference timeout next
