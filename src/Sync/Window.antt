-- ===== src/Sync/Window.antt =====
-- CO_SYNC.c: the window of synchronous PDOs, and what happens in the other NMT states.
use canopen_node.Emergency.{Em}
use canopen_node.Sync.{
  Sync, is_running, process, update_timer, take_new, produce, check_window, check_timeout,
}
use canopen_node.Sync.Steps.{produced, running_lem, stopped_lem, length_lem}
use canopen_node.Prelude.{
  ℕ, ◌≡◌, ◌↔◌, ◌<◌, Bool, true, false, not, ◌||◌, ◌==◌, arith, none, ltb, ap, sym, ◌∙◌,
}

produced_lem :
    (sync : Sync) (diff : ℕ)
    → let (sync2, ret, frame) = produced sync diff in
      (sync2.is_inside_window ≡ sync.is_inside_window) × (ret < 2)
unfolding update_timer take_new produce
produced_lem sync diff = ground arith

window_lem :
    (sync : Sync) (window ret : ℕ)
    → ret < 2
    → let (sync', ret') = check_window sync window ret in
      (sync'.timer ≡ sync.timer)
      × (sync'.is_inside_window ≡ ((window == 0) || not (ltb window sync.timer)))
      × ((ret' ≡ 2) ↔ ((sync.is_inside_window ≡ true) × (sync'.is_inside_window ≡ false)))
unfolding check_window
window_lem sync window ret h = (ground arith, ground arith, (λ k. ground arith, λ k. ground arith))

ended_iff :
    {r r' : ℕ} {a a' b b' : Bool}
    → r ≡ r'
    → a' ≡ a
    → b ≡ b'
    → (r' ≡ 2) ↔ ((a' ≡ true) × (b' ≡ false))
    → (r ≡ 2) ↔ ((a ≡ true) × (b ≡ false))
ended_iff e f g h = rw (e, sym f, g) h

-- In a running node the flag tells whether the time since the last SYNC is inside the window, and
-- the result is 2 in exactly that call in which the window ends.
process_window :
    (sync : Sync) (em : Em) (state diff window : ℕ)
    → is_running state ≡ true
    → let r = process sync em state diff window in
      (r.sync.is_inside_window ≡ ((window == 0) || not (ltb window r.sync.timer)))
      × ((r.result ≡ 2) ↔ ((sync.is_inside_window ≡ true) × (r.sync.is_inside_window ≡ false)))
process_window sync em state diff window run =
    let (sync2, ret, frame) = produced sync diff in
    let (sync3, ret3) = check_window sync2 window ret in
    let r = process sync em state diff window in
    let (same_window, small) = produced_lem sync diff in
    let (timer_eq, inside_eq, result_iff) = window_lem sync2 window ret small in
    let (sync_eq, sent_eq, result_eq) = running_lem sync em state diff window run in
    let kept = sync_eq ∙ length_lem sync3 (check_timeout sync3 em state) in
    let inside = ap (λ s. s.is_inside_window) kept in
    let timer = ap (λ s. s.timer) kept ∙ timer_eq in
    (
      inside ∙ inside_eq ∙ ap (λ t. (window == 0) || not (ltb window t)) (sym timer),
      ended_iff result_eq same_window inside result_iff,
    )

-- A node in any other state sends no SYNC, forgets one that it has received, and neither its timer
-- nor its counter runs.
pub process_not_running :
    (sync : Sync) (em : Em) (state diff window : ℕ)
    → is_running state ≡ false
    → let r = process sync em state diff window in
      (r.sent ≡ none)
      × (r.result ≡ 0)
      × (r.sync ≡ record sync { can_rx_new = false; receive_error = 0 })
process_not_running sync em state diff window run =
    let (sync_eq, sent_eq, result_eq) = stopped_lem sync em state diff window run in
    (sent_eq, result_eq, sync_eq ∙ length_lem (record sync { can_rx_new = false }) em)
