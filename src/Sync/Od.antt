-- ===== src/Sync/Od.antt =====
-- stack/CO_SYNC.c: the object dictionary functions of the COB-ID (0x1005), the cycle period
-- (0x1006) and the counter overflow value (0x1019).
use canopen_node.Driver.{OdfArg, AbortCode, ab_none, ab_invalid_value, ab_data_dev_state, RxFilter}
use canopen_node.Emergency.Od.{get_uint32}
use canopen_node.Sync.{Sync, timeout_of, configured_buffer}
use canopen_node.Prelude.{
  ℕ, Bool, true, false, ◌&&◌, ◌||◌, Option, none, some, ltb, ◌==◌, ◌/=◌, if◌then◌else◌, get_or,
  bit_and,
}

-- The configuration of the producer and the consumer by an accepted value of object 0x1005.
abbrev pub configure : Sync → ℕ → Bool → Sync
configure sync value producer =
    let cob_id = bit_and value 0x7ff in
    let counted = sync.counter_overflow_value /= 0 in
    if producer
    then (record sync {
      cob_id = cob_id;
      counter = if counted then 0 else sync.counter;
      timer = if counted then 0 else sync.timer;
      can_tx_buff = configured_buffer sync cob_id (if counted then 1 else 0);
      is_producer = true;
    })
    else record sync { cob_id = cob_id; is_producer = false }

unfoldable pub odf_1005 : Sync → OdfArg → AbortCode × Sync × Option RxFilter
odf_1005 sync arg =
    let value = get_uint32 arg in
    let generate = bit_and value 0x40000000 /= 0 in
    if arg.reading
    then (ab_none, sync, none)
    else if bit_and value 0x20000000 /= 0
    then (ab_invalid_value, sync, none)
    else if generate && sync.is_producer
    then (ab_data_dev_state, sync, none)
    else (
      ab_none,
      configure sync value generate,
      some (record { index = sync.can_dev_rx_idx; ident = bit_and value 0x7ff; mask = 0x7ff }),
    )

unfoldable pub odf_1006 : Sync → OdfArg → AbortCode × Sync
odf_1006 sync arg =
    let value = get_uint32 arg in
    if arg.reading then (ab_none, sync) else (
      ab_none,
      record sync {
        counter = if (sync.period_time == 0) && (value /= 0) then 0 else sync.counter;
        period_time = value;
        period_timeout_time = timeout_of value;
        timer = 0;
      },
    )

unfoldable pub odf_1019 : Sync → OdfArg → AbortCode × Sync
odf_1019 sync arg =
    let value = get_or arg.bytes 0 0 in
    if arg.reading
    then (ab_none, sync)
    else if sync.period_time /= 0
    then (ab_data_dev_state, sync)
    else if (value == 1) || ltb 240 value
    then (ab_invalid_value, sync)
    else (
      ab_none,
      record sync {
        counter_overflow_value = value;
        can_tx_buff = configured_buffer sync sync.cob_id (if value /= 0 then 1 else 0);
      },
    )
