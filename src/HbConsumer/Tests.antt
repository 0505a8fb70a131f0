-- ===== src/HbConsumer/Tests.antt =====
-- Runs of CO_HBconsumer.c, and its theorems at inputs that meet their hypotheses.
use canopen_node.Driver.{RxMsg}
use canopen_node.Emergency.{Em, is_error, error_report, error_reset, put_message}
use canopen_node.Emergency.Valid
use canopen_node.HbConsumer.{active, Node, Consumer, receive, monitor, process, timed_out}
use canopen_node.HbConsumer.Valid.{IsValid}
use canopen_node.HbConsumer.Transitions.{next_states, states_of, process_states}
use canopen_node.HbConsumer.Alarm.{any_timeout, process_alarm}
use canopen_node.HbConsumer.Frozen.{IsKept, process_freezes}
use canopen_node.Prelude.{◌≡◌, refl, [], ◌∷◌, true, false, arith, replicate, All}

abbrev em : Em
em = record {
  error_status_bits = replicate 6 0;
  error_status_bits_size = 6;
  buf = replicate 10 (replicate 8 0);
  buf_write_ptr = 0;
  buf_read_ptr = 0;
  buf_full = 0;
  wrong_error_report = 0;
  has_funct_signal = false;
  signals = 0;
}

em-IsValid : Valid.IsValid em
em-IsValid = ground arith

-- Two nodes that have been heard of; the second one is 990 ms behind its last heartbeat.
abbrev first_node : Node
first_node = record {
  node_id = 3;
  nmt_state = 5;
  hb_state = active;
  timeout_timer = 10;
  time = 1000;
  can_rx_new = false;
  has_hb_started = true;
  has_timeout = true;
  has_remote_reset = true;
}

abbrev second_node : Node
second_node = record first_node { node_id = 4; timeout_timer = 990 }

abbrev consumer : Consumer
consumer = record {
  hb_cons_time = 0x303e8 ∷ 0x403e8 ∷ 0 ∷ [];
  monitored_nodes = first_node ∷ second_node ∷ [];
  number_of_monitored_nodes = 2;
  all_monitored_operational = 0;
  can_dev_rx_idx_start = 8;
}

nodes-IsValid : All IsValid consumer.monitored_nodes
nodes-IsValid = ground arith

second_times_out : (process consumer em true 20).2 ≡ timed_out 4 1 ∷ []
unfolding process error_report error_reset put_message monitor
second_times_out = refl

process_states_example :
    states_of (process consumer em true 20).0.monitored_nodes
    ≡ next_states 20 consumer.monitored_nodes
process_states_example =
    process_states consumer em 20 nodes-IsValid (omega arith, (omega arith, tt))

process_alarm_example :
    let (c', em', _) = process consumer em true 20 in
    is_error em' 0x1b ≡ any_timeout c'.monitored_nodes
process_alarm_example = process_alarm consumer em true 20 em-IsValid nodes-IsValid

abbrev heartbeat : RxMsg
heartbeat = record { dlc = 1; bytes = 5 ∷ [] }

process_freezes_example :
    IsKept
      (first_node ∷ first_node ∷ [])
      second_node
      (process
        (record consumer {
          monitored_nodes = receive first_node heartbeat ∷ first_node ∷ second_node ∷ [];
        })
        em
        true
        5000).0.monitored_nodes
process_freezes_example =
    process_freezes consumer first_node second_node (first_node ∷ []) [] em heartbeat 5000
      (omega arith) (refl, omega arith) (ground arith)
