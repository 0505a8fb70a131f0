-- ===== src/Sdo/Waits.antt =====
-- stack/CO_SDO.c: a transfer whose client is silent.
use mathlib.Core.Path.{subst}
use canopen_node.Driver.{ab_timeout}
use canopen_node.Sdo.{idle, Sdo}
use canopen_node.Sdo.Outcome.{aborted, abort_frame, abort}
use canopen_node.Sdo.Process.{failed, finished, conclude, unsent, continue_with, process}
use canopen_node.Sdo.Receive.{is_idle, is_download_bl_subblock, is_upload_bl_subblock}
use canopen_node.Prelude.{
  refl, List, [], ◌∷◌, ℕ, ◌+◌, ◌<◌, ◌≤◌, ◌≡◌, ap, sym, ◌∙◌, true, false, none, some, ltb, leb,
  arith, u16,
}

-- A transfer in which nothing is to be done, and whose timeout ends it.
abbrev IsWaiting : Sdo → Type 0
IsWaiting sdo =
    (is_idle sdo.state ≡ false)
    × (is_download_bl_subblock sdo.state ≡ false)
    × (is_upload_bl_subblock sdo.state ≡ false)
    × (sdo.can_rx_new ≡ false)

-- One call after the other, with the times between them.
abbrev pub calls : List ℕ → Sdo → ℕ → Sdo
calls [] sdo timeout = sdo
calls (time ∷ times) sdo timeout =
    calls times (process sdo true false time timeout none).sdo timeout

-- Each of these calls ends without an error and sends nothing.
abbrev pub IsQuiet : List ℕ → Sdo → ℕ → Type 0
IsQuiet [] sdo timeout = Unit
IsQuiet (time ∷ times) sdo timeout =
    let p = process sdo true false time timeout none in
    (p.result ≡ finished) × (p.sent ≡ none) × IsQuiet times p.sdo timeout

abbrev pub sum : List ℕ → ℕ
sum [] = 0
sum (time ∷ times) = time + sum times

-- Before the call that aborts the transfer only the timer differs, and that call answers with an abort.
abbrev pub IsTimedOut : Sdo → ℕ → Sdo → ℕ → ℕ → Type 0
IsTimedOut sdo timer sdo' time timeout =
    let p = process sdo' true false time timeout none in
    (sdo' ≡ record sdo { timeout_timer = timer })
    × (p.result ≡ failed)
    × (p.sent ≡ some (abort_frame sdo ab_timeout))
    × (p.sdo.state ≡ idle)
    × (p.sdo.od ≡ sdo.od)

waits :
    (sdo : Sdo) (time timeout : ℕ)
    → IsWaiting sdo
    → sdo.timeout_timer + time < timeout
    → timeout < 65536
    → process sdo true false time timeout none
      ≡ unsent (record sdo { timeout_timer = sdo.timeout_timer + time }) finished none
unfolding process continue_with
waits sdo time timeout (busy, no_block, no_upload, new) soon word =
    let runs : ltb sdo.timeout_timer timeout ≡ true = ground arith in
    let timer : u16 (sdo.timeout_timer + time) ≡ sdo.timeout_timer + time = omega arith in
    let early : leb timeout (sdo.timeout_timer + time) ≡ false = ground arith in
    rw (busy, new, no_upload, runs, timer, early)

expires :
    (sdo : Sdo) (time timeout : ℕ)
    → IsWaiting sdo
    → sdo.timeout_timer < timeout
    → timeout ≤ sdo.timeout_timer + time
    → timeout + time ≤ 65536
    → process sdo true false time timeout none
      ≡ conclude (aborted ab_timeout (record sdo { timeout_timer = sdo.timeout_timer + time })) none
unfolding process continue_with
expires sdo time timeout (busy, no_block, no_upload, new) before late word =
    let runs : ltb sdo.timeout_timer timeout ≡ true = ground arith in
    let timer : u16 (sdo.timeout_timer + time) ≡ sdo.timeout_timer + time = omega arith in
    let over : leb timeout (sdo.timeout_timer + time) ≡ true = ground arith in
    rw (busy, new, no_upload, runs, timer, over, no_block)

-- A transfer without a new message, which neither receives nor sends the segments of a block, in an
-- NMT state that allows it and with a free transmit buffer: calls whose times do not add up to the
-- timeout with the timer return 0, send nothing and change only the timer, by their sum, and the call
-- whose time reaches the timeout aborts the transfer with 0x05040000, if the timeout and the time of that
-- call fit into 16 bits together.
pub process_times_out :
    (times : List ℕ) (sdo : Sdo) (time timeout : ℕ)
    → IsWaiting sdo
    → sdo.timeout_timer + sum times < timeout
    → timeout ≤ sdo.timeout_timer + sum times + time
    → timeout + time ≤ 65536
    → timeout < 65536
    → IsQuiet times sdo timeout
      × IsTimedOut sdo (sdo.timeout_timer + sum times) (calls times sdo timeout) time timeout
unfolding conclude abort
process_times_out [] sdo time timeout waiting before late word small =
    let e = expires sdo time timeout waiting (omega arith) (omega arith) word in
    let timer : sdo.timeout_timer ≡ sdo.timeout_timer + 0 = omega arith in
    (
      tt,
      (
        ap (λ t. record sdo { timeout_timer = t }) timer,
        ap (λ p. p.result) e,
        ap (λ p. p.sent) e,
        ap (λ p. p.sdo.state) e,
        ap (λ p. p.sdo.od) e,
      ),
    )
process_times_out (t ∷ times) sdo time timeout waiting before late word small =
    let sdo1 = record sdo { timeout_timer = sdo.timeout_timer + t } in
    let w = waits sdo t timeout waiting (omega arith) small in
    let (quiet, (timed, fails, sent, state, od)) =
      process_times_out times sdo1 time timeout waiting (omega arith) (omega arith) word small in
    let total : sdo.timeout_timer + t + sum times ≡ sdo.timeout_timer + (t + sum times) =
      omega arith in
    subst
      (λ q.
        ((q.result ≡ finished) × (q.sent ≡ none) × IsQuiet times q.sdo timeout)
        × IsTimedOut sdo (sdo.timeout_timer + (t + sum times)) (calls times q.sdo timeout) time
            timeout)
      (sym w)
      (
        (refl, refl, quiet),
        (timed ∙ ap (λ n. record sdo { timeout_timer = n }) total, fails, sent, state, od),
      )
