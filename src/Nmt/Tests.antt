-- ===== src/Nmt/Tests.antt =====
-- Runs of CO_NMT_Heartbeat.c, and its theorems at inputs that meet their hypotheses.
use canopen_node.Driver.{RxMsg}
use canopen_node.Emergency.{Em, is_error}
use canopen_node.Nmt.{
  nmt_initializing, nmt_pre_operational, nmt_operational, nmt_stopped, Nmt, receive, error_state,
  with_passive, process,
}
use canopen_node.Nmt.Leds.{init_leds}
use canopen_node.Nmt.States.{IsValid}
use canopen_node.Nmt.Heartbeat.{
  state_frame, Call, call, call_all, call_heartbeat, lost_state_heartbeat,
}
use canopen_node.Nmt.Errors.{must_leave, process_stays_operational}
use canopen_node.Prelude.{
  ℕ, ◌≡◌, ◌↔◌, refl, inl, inr, List, [], ◌∷◌, true, false, arith, none, some, replicate,
}

abbrev em : Em
em = record {
  error_status_bits = replicate 6 0;
  error_status_bits_size = 6;
  buf = replicate 10 (replicate 8 0);
  buf_write_ptr = 0;
  buf_read_ptr = 0;
  buf_full = 0;
  wrong_error_report = 0;
  has_funct_signal = false;
  signals = 0;
}

-- Node 5, operational, 900 ms after its last heartbeat.
abbrev node : Nmt
node = record {
  operating_state = nmt_operational;
  leds = init_leds;
  reset_command = 0;
  node_id = 5;
  hb_producer_timer = 900;
  first_hb_time = 500;
  has_funct_nmt = true;
  hb_tx_buff = record { ident = 0x705; dlc = 1; bytes = 0 ∷ []; sync_flag = false };
}

abbrev booting : Nmt
booting = record node { operating_state = nmt_initializing; hb_producer_timer = 0xffff }

abbrev stop : RxMsg
stop = record { dlc = 2; bytes = 2 ∷ 5 ∷ [] }

-- A generic error, and what the object dictionary asks for each kind.
abbrev behavior : List ℕ
behavior = replicate 6 0

node-IsValid : IsValid node
node-IsValid = record { state = inr (inr (inl refl)); reset = omega arith }

received_stop :
    receive node stop ≡ (record node { operating_state = nmt_stopped }, some nmt_stopped)
unfolding receive
received_stop = refl

lost_node :
    (process node em 1 1000 0 1 (some behavior) none).nmt.operating_state ≡ nmt_pre_operational
unfolding process error_state is_error
lost_node = refl

abbrev after : ℕ → Call
after time = record { time = time; em = em; startup = 0; register = 0; next = none }

call_heartbeat_example :
    let (node', any) = call_all node 1000 (after 60 ∷ after 30 ∷ []) in
    let r = call node' 1000 (after 20) in
    (any ≡ false)
    × (r.sent ≡ some (state_frame node nmt_operational))
    × (r.nmt.hb_producer_timer ≡ 0)
call_heartbeat_example =
    call_heartbeat node 1000 (after 60 ∷ after 30 ∷ []) (after 20) (inr (inl refl)) (omega arith)
      (omega arith) (omega arith)

lost_state_heartbeat_example :
    let lost = (process node em 1 1000 0 1 (some behavior) none).nmt in
    (process lost em 1 1000 0 1 (some behavior) none).sent
    ≡ some (state_frame lost lost.operating_state)
lost_state_heartbeat_example =
    lost_state_heartbeat node em 1 1000 0 1 behavior none 1 none refl (rw lost_node (omega arith))
      node-IsValid (omega arith) (omega arith) (omega arith)

process_stays_operational_example :
    ((process node em 1 1000 0 2 (some behavior) none).nmt.operating_state ≡ nmt_operational)
    ↔ (must_leave em behavior (with_passive em behavior 2) ≡ false)
process_stays_operational_example = process_stays_operational node em 1 1000 0 2 behavior none refl
