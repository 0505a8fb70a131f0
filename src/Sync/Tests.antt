-- ===== src/Sync/Tests.antt =====
-- Runs of CO_SYNC.c, and its theorems at inputs that meet their hypotheses.
use canopen_node.Driver.{RxMsg, OdfArg}
use canopen_node.Emergency.{Em}
use canopen_node.Sync.{Sync, process}
use canopen_node.Sync.Timing.{IsValid, process_produces}
use canopen_node.Prelude.{◌≡◌, refl, true, false, [], ◌∷◌, replicate, some, arith}

abbrev em : Em
em = record {
  error_status_bits = replicate 6 0;
  error_status_bits_size = 6;
  buf = replicate 10 (replicate 8 0);
  buf_write_ptr = 0;
  buf_read_ptr = 0;
  buf_full = 0;
  wrong_error_report = 0;
  has_funct_signal = false;
  signals = 0;
}

-- A producer at the end of its period and of its counter.
abbrev producer : Sync
producer = record {
  is_producer = true;
  cob_id = 0x80;
  period_time = 1000;
  period_timeout_time = 1500;
  counter_overflow_value = 10;
  is_inside_window = true;
  can_rx_new = false;
  can_rx_toggle = false;
  counter = 10;
  timer = 900;
  receive_error = 0;
  can_tx_buff = record { ident = 0x80; dlc = 1; bytes = 10 ∷ []; sync_flag = false };
  can_dev_rx_idx = 1;
}

-- It has received a SYNC that is not processed yet.
abbrev receiver : Sync
receiver = record producer { is_producer = false; can_rx_new = true }

abbrev counted : RxMsg
counted = record { dlc = 1; bytes = 7 ∷ replicate 7 0 }

abbrev too_long : RxMsg
too_long = record counted { dlc = 8 }

producer-IsValid : IsValid producer
producer-IsValid = ground arith

abbrev arg : OdfArg
arg = record { bytes = 12 ∷ 0 ∷ 0 ∷ 0 ∷ []; sub_index = 0; reading = false }

process_produces_example :
    let r = process producer em 5 100 0 in
    (r.sent ≡ some (record producer.can_tx_buff { bytes = 1 ∷ [] }))
    × (r.sync.counter ≡ 1)
    × (r.sync.timer ≡ 0)
process_produces_example =
    process_produces producer em 5 100 0 producer-IsValid refl refl refl (omega arith) (omega arith)
