-- ===== src/Sync/Timing.antt =====
-- CO_SYNC.c: the timer, the producer and its counter.
use canopen_node.Driver.{OdfArg, ab_none}
use canopen_node.Emergency.{Em}
use canopen_node.Sync.{
  Sync, is_running, timeout_of, init, update_timer, take_new, produce, check_window, check_timeout,
  check_length, process,
}
use canopen_node.Sync.Steps.{produced, running_lem, stopped_lem, checked_lem}
use canopen_node.Sync.Od.{odf_1005, odf_1006, odf_1019}
use canopen_node.Prelude.{
  ℕ, ◌+◌, ◌*◌, ◌/◌, ◌<◌, ◌≤◌, ◌≡◌, ◌≢◌, ◌⊎◌, true, false, ◌&&◌, ◌/=◌, if◌then◌else◌, Bool-cases, ap,
  ◌∙◌, inl, inr, arith, none, some, min, set, ltb, leb,
}

-- The timeout is one and a half periods, rounded down to whole halves, and at most the largest
-- uint32_t, for every period but 1.
pub timeout_of_lem :
    (period : ℕ)
    → period < 4294967296
    → period ≢ 1
    → timeout_of period ≡ min (period / 2 * 3) 0xffffffff
timeout_of_lem period h n = ground arith

-- The timer does not wrap: it advances by the time that has passed, and stays where it is if the
-- sum does not fit.
pub update_timer_lem :
    (sync : Sync) (diff : ℕ)
    → sync.timer < 4294967296
    → diff < 4294967296
    → (update_timer sync diff).timer
      ≡ (if ltb (sync.timer + diff) 4294967296 then sync.timer + diff else sync.timer)
unfolding update_timer
update_timer_lem sync diff h k = ground arith

-- What a SYNC producer is configured to: the counter starts again behind `counter_overflow_value`,
-- which is 0 (no counter) or from 2 to 240, and the length of its frame and the timeout fit.
pub record IsValid (sync : Sync) : Type 0 where
  pub overflow_le : sync.counter_overflow_value ≤ 240
  pub overflow_ne : sync.counter_overflow_value ≢ 1
  pub frame_length : sync.can_tx_buff.dlc ≡ (if sync.counter_overflow_value /= 0 then 1 else 0)
  pub timeout : sync.period_timeout_time ≡ timeout_of sync.period_time

-- `CO_SYNC_init` configures a producer well, if the counter overflow value is allowed.
pub init_configured :
    (sync0 : Sync) (cob_id period overflow rx_idx : ℕ)
    → overflow ≤ 240
    → overflow ≢ 1
    → IsValid (init true sync0 cob_id period overflow rx_idx).1
unfolding init
init_configured sync0 cob_id period overflow rx_idx h n = ground arith

-- Whatever is written to the objects 0x1005, 0x1006 and 0x1019 or read from them, the producer
-- stays well configured; a value that is refused leaves it as it is.
pub odf_configure :
    (sync : Sync) (arg : OdfArg)
    → IsValid sync
    → IsValid (odf_1005 sync arg).1
      × IsValid (odf_1006 sync arg).1
      × IsValid (odf_1019 sync arg).1
      × (((odf_1005 sync arg).0 ≡ ab_none) ⊎ ((odf_1005 sync arg).1 ≡ sync))
      × (((odf_1019 sync arg).0 ≡ ab_none) ⊎ ((odf_1019 sync arg).1 ≡ sync))
unfolding odf_1005 odf_1006 odf_1019
odf_configure sync arg v = (ground arith, ground arith, ground arith, ground arith, ground arith)

-- Two structures that are configured alike.
record IsAlike (sync0 sync : Sync) : Type 0 where
  overflow : sync.counter_overflow_value ≡ sync0.counter_overflow_value
  length : sync.can_tx_buff.dlc ≡ sync0.can_tx_buff.dlc
  timeout : sync.period_timeout_time ≡ sync0.period_timeout_time
  period : sync.period_time ≡ sync0.period_time

IsAlike-IsValid : {sync0 sync : Sync} → IsAlike sync0 sync → IsValid sync0 → IsValid sync
IsAlike-IsValid a v = ground arith

IsAlike-trans : {a b c : Sync} → IsAlike a b → IsAlike b c → IsAlike a c
IsAlike-trans h k = ground arith

received-IsAlike : (sync : Sync) (diff : ℕ) → IsAlike sync (take_new (update_timer sync diff)).0
unfolding update_timer take_new
received-IsAlike sync diff = ground arith

produce-IsAlike : (sync : Sync) (ret : ℕ) → IsAlike sync (produce sync ret).0
unfolding produce
produce-IsAlike sync ret = ground arith

checked-IsAlike :
    (sync : Sync) (em : Em) (window ret : ℕ)
    → IsAlike sync (check_length (check_window sync window ret).0 em).0
unfolding check_length check_window
checked-IsAlike sync em window ret = ground arith

stopped-IsAlike :
    (sync : Sync) (em : Em) → IsAlike sync (check_length (record sync { can_rx_new = false }) em).0
unfolding check_length
stopped-IsAlike sync em = ground arith

running-IsAlike :
    (sync : Sync) (em : Em) (state diff window : ℕ)
    → let (sync2, ret, frame) = produced sync diff in
      let sync3 = (check_window sync2 window ret).0 in
      IsAlike sync (check_length sync3 (check_timeout sync3 em state)).0
running-IsAlike sync em state diff window =
    let (sync1, ret) = take_new (update_timer sync diff) in
    let (sync2, ret2, frame) = produce sync1 ret in
    let em' = check_timeout (check_window sync2 window ret2).0 em state in
    IsAlike-trans (received-IsAlike sync diff)
      (IsAlike-trans (produce-IsAlike sync1 ret) (checked-IsAlike sync2 em' window ret2))

-- `CO_SYNC_process` keeps the configuration.
pub process_configured :
    (sync : Sync) (em : Em) (state diff window : ℕ)
    → IsValid sync
    → IsValid (process sync em state diff window).sync
process_configured sync em state diff window v = elim (Bool-cases (is_running state)) [
  | inl h ↦
      rw ((running_lem sync em state diff window h).0)
        (IsAlike-IsValid (running-IsAlike sync em state diff window) v)
  | inr h ↦
      rw ((stopped_lem sync em state diff window h).0) (IsAlike-IsValid (stopped-IsAlike sync em) v)
]

-- The counter behind `counter`, from 1 to the overflow value and round.
abbrev pub next_counter : Sync → ℕ
next_counter sync = if ltb sync.counter sync.counter_overflow_value then sync.counter + 1 else 1

produce_lem :
    (sync : Sync) (ret : ℕ)
    → sync.counter_overflow_value ≤ 240
    → sync.is_producer ≡ true
    → sync.counter ≤ sync.counter_overflow_value
    → let due = (sync.period_time /= 0) && leb sync.period_time sync.timer in
      let frame = record sync.can_tx_buff {
        bytes = set sync.can_tx_buff.bytes 0 (next_counter sync);
      } in
      ((produce sync ret).1 ≡ (if due then 1 else ret))
      × ((produce sync ret).2 ≡ (if due then some frame else none))
      × ((produce sync ret).0.counter ≡ (if due then next_counter sync else sync.counter))
      × ((produce sync ret).0.timer ≡ (if due then 0 else sync.timer))
unfolding produce
produce_lem sync ret v p c = ground arith

started_lem :
    (sync : Sync) (diff : ℕ)
    → sync.can_rx_new ≡ false
    → sync.timer + diff < 4294967296
    → (take_new (update_timer sync diff)).0 ≡ record sync { timer = sync.timer + diff }
unfolding take_new update_timer
started_lem sync diff n l = ground arith

-- A running producer that is well configured, has received no SYNC and counts no further than its
-- overflow value sends a SYNC exactly if its period is set and has passed
-- since the last one, as long as the timer does not wrap. The frame then carries the next counter,
-- which starts again at 1 behind the overflow value, and the timer starts again.
pub process_produces :
    (sync : Sync) (em : Em) (state diff window : ℕ)
    → IsValid sync
    → is_running state ≡ true
    → sync.is_producer ≡ true
    → sync.can_rx_new ≡ false
    → sync.counter ≤ sync.counter_overflow_value
    → sync.timer + diff < 4294967296
    → let r = process sync em state diff window in
      let due = (sync.period_time /= 0) && leb sync.period_time (sync.timer + diff) in
      let frame = record sync.can_tx_buff {
        bytes = set sync.can_tx_buff.bytes 0 (next_counter sync);
      } in
      (r.sent ≡ (if due then some frame else none))
      × (r.sync.counter ≡ (if due then next_counter sync else sync.counter))
      × (r.sync.timer ≡ (if due then 0 else sync.timer + diff))
process_produces sync em state diff window v run p n c l =
    let (sync1, ret) = take_new (update_timer sync diff) in
    let (sync2, ret2, frame) = produce sync1 ret in
    let em' = check_timeout (check_window sync2 window ret2).0 em state in
    let checked = checked_lem sync2 em' window ret2 in
    let sent = produce_lem (record sync { timer = sync.timer + diff }) ret v.overflow_le p c in
    let (kept, frame_eq, result_eq) = running_lem sync em state diff window run in
    let start = started_lem sync diff n l in
    (
      frame_eq ∙ ap (λ s. (produce s ret).2) start ∙ sent.1,
      ap (λ s. s.counter) kept ∙ checked.0 ∙ ap (λ s. (produce s ret).0.counter) start ∙ sent.2,
      ap (λ s. s.timer) kept ∙ checked.1 ∙ ap (λ s. (produce s ret).0.timer) start ∙ sent.3,
    )
