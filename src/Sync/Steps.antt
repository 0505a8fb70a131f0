-- ===== src/Sync/Steps.antt =====
-- CO_SYNC.c: `CO_SYNC_process` as the sequence of its parts.
use canopen_node.Emergency.{Em}
use canopen_node.Driver.{TxBuffer}
use canopen_node.Sync.{
  Sync, is_running, update_timer, take_new, produce, check_window, check_timeout, check_length,
  process,
}
use canopen_node.Prelude.{ℕ, ◌≡◌, true, false, refl, Option, none, arith}

-- The structure in a running node that the checks of the window and the receive error get.
abbrev pub produced : Sync → ℕ → Sync × ℕ × Option TxBuffer
produced sync diff = let (sync1, ret) = take_new (update_timer sync diff) in produce sync1 ret

pub running_lem :
    (sync : Sync) (em : Em) (state diff window : ℕ)
    → is_running state ≡ true
    → let (sync2, ret, frame) = produced sync diff in
      let (sync3, ret3) = check_window sync2 window ret in
      let r = process sync em state diff window in
      (r.sync ≡ (check_length sync3 (check_timeout sync3 em state)).0)
      × (r.sent ≡ frame)
      × (r.result ≡ ret3)
unfolding process
running_lem sync em state diff window run = (rw run refl, rw run refl, rw run refl)

pub stopped_lem :
    (sync : Sync) (em : Em) (state diff window : ℕ)
    → is_running state ≡ false
    → let r = process sync em state diff window in
      (r.sync ≡ (check_length (record sync { can_rx_new = false }) em).0)
      × (r.sent ≡ none)
      × (r.result ≡ 0)
unfolding process
stopped_lem sync em state diff window run = (rw run refl, rw run refl, rw run refl)

pub length_lem :
    (sync : Sync) (em : Em) → (check_length sync em).0 ≡ record sync { receive_error = 0 }
unfolding check_length
length_lem sync em = ground arith

pub checked_lem :
    (sync : Sync) (em : Em) (window ret : ℕ)
    → let sync' = (check_length (check_window sync window ret).0 em).0 in
      (sync'.counter ≡ sync.counter) × (sync'.timer ≡ sync.timer)
unfolding check_length check_window
checked_lem sync em window ret = ground arith
