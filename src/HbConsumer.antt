-- ===== src/HbConsumer.antt =====
-- stack/CO_HBconsumer.c and .h: the heartbeat consumer, which monitors other nodes.
pub mod Config
pub mod Entries
pub mod Valid
pub mod Transitions
pub mod Alarm
pub mod Operational
pub mod Frozen
mod Tests
use canopen_node.Driver.{RxMsg, data_at}
use canopen_node.Emergency.{Em, error_report, error_reset}
use canopen_node.Emergency.Codes.{em_heartbeat_consumer, em_hb_consumer_remote_reset, emc_heartbeat}
use canopen_node.Nmt.{nmt_initializing, nmt_operational}
use canopen_node.Prelude.{
  ℕ, suc, ◌+◌, ◌%◌, Bool, true, false, not, ◌&&◌, ◌||◌, List, [], ◌∷◌, ◌++◌, ltb, leb, ◌==◌, ◌/=◌,
  if◌then◌else◌, u16,
}

-- `CO_HBconsumer_state_t`
pub data HbState : Type 0 where
  unconfigured unknown active timeout : HbState

abbrev pub is_active : HbState → Bool
is_active active = true
is_active _ = false

abbrev pub is_timeout : HbState → Bool
is_timeout timeout = true
is_timeout _ = false

abbrev pub is_unconfigured : HbState → Bool
is_unconfigured unconfigured = true
is_unconfigured _ = false

-- `HBstate != CO_HBconsumer_UNCONFIGURED && HBstate != CO_HBconsumer_UNKNOWN`
abbrev pub is_watched : HbState → Bool
is_watched active = true
is_watched timeout = true
is_watched _ = false

-- `CO_HBconsNode_t`. The NMT state is the byte of the heartbeat message; the three callbacks are
-- known by whether they are set.
pub record Node : Type 0 where
  pub node_id : ℕ
  pub nmt_state : ℕ
  pub hb_state : HbState
  pub timeout_timer : ℕ
  pub time : ℕ
  pub can_rx_new : Bool
  pub has_hb_started : Bool
  pub has_timeout : Bool
  pub has_remote_reset : Bool

-- `CO_HBconsumer_t`, with the arrays that it points to. The emergency object is an argument.
pub record Consumer : Type 0 where
  pub hb_cons_time : List ℕ
  pub monitored_nodes : List Node
  pub number_of_monitored_nodes : ℕ
  pub all_monitored_operational : ℕ
  pub can_dev_rx_idx_start : ℕ

-- A call of one of the callbacks, with the node id and the index that it is given.
pub data Call : Type 0 where
  remote_reset hb_started timed_out : ℕ → ℕ → Call

-- `CO_HBcons_receive`
unfoldable pub receive : Node → RxMsg → Node
receive node msg =
    if msg.dlc == 1 then record node { nmt_state = data_at msg 0; can_rx_new = true } else node

-- The local variables of `CO_HBconsumer_process` in its loop, and what the loop does outside.
pub record Loop : Type 0 where
  pub time_difference : ℕ
  pub em : Em
  pub timeout_active : Bool
  pub remote_reset_active : Bool
  pub all_operational : ℕ
  pub calls : List Call

abbrev pub call_if : Bool → Call → List Call → List Call
call_if true c calls = calls ++ (c ∷ [])
call_if false c calls = calls

-- "Verify if received message is heartbeat or bootup"
unfoldable pub take_message : ℕ → Node → Loop → Node × Loop
take_message i node l =
    if node.can_rx_new
    then if node.nmt_state == nmt_initializing
      then (
        record node { can_rx_new = false },
        record l { calls = call_if node.has_remote_reset (remote_reset node.node_id i) l.calls },
      )
      else (
        record node { can_rx_new = false; hb_state = active; timeout_timer = 0 },
        record l {
          time_difference = 0;
          calls =
              call_if (not (is_active node.hb_state) && node.has_hb_started)
                (hb_started node.node_id i) l.calls;
        },
      )
    else (node, l)

-- "Verify timeout": the timer.
abbrev pub advance : Node → ℕ → Node
advance node diff = record node {
  timeout_timer =
      if ltb node.timeout_timer node.time
      then u16 (node.timeout_timer + diff)
      else node.timeout_timer;
}

-- "Verify timeout": the states and the errors. The info code is the index of the node.
unfoldable pub watch : ℕ → Node → Loop → Node × Loop
watch i node l =
    if is_watched node.hb_state
    then if leb node.time node.timeout_timer
      then (
        record node { nmt_state = nmt_initializing; hb_state = timeout },
        record l {
          em = error_report l.em em_heartbeat_consumer emc_heartbeat i;
          timeout_active = true;
          calls =
              call_if (not (is_timeout node.hb_state) && node.has_timeout)
                (timed_out node.node_id i) l.calls;
        },
      )
      else if node.nmt_state == nmt_initializing
      then (
        record node { hb_state = unknown },
        record l {
          em = error_report l.em em_hb_consumer_remote_reset emc_heartbeat i;
          remote_reset_active = true;
        },
      )
      else (node, l)
    else (node, l)

abbrev pub note_operational : Node → Loop → Node × Loop
note_operational node l = (
  node,
  record l { all_operational = if node.nmt_state == nmt_operational then l.all_operational else 0 },
)

-- The body of the loop for a node that is monitored.
unfoldable pub monitor : ℕ → Node → Loop → Node × Loop
unfolding take_message watch
monitor i node l =
    let (node1, l1) = take_message i node l in
    let (node2, l2) = watch i (advance node1 l1.time_difference) l1 in note_operational node2 l2

-- The loop over the nodes from index `i` on. The list holds `numberOfMonitoredNodes` nodes.
unfoldable pub process_nodes : ℕ → List Node → Loop → List Node × Loop
process_nodes i [] l = ([], l)
process_nodes i (node ∷ nodes) l =
    let (node', l') = if node.time /= 0 then monitor i node l else (node, l) in
    let (nodes', l'') = process_nodes (i + 1) nodes l' in (node' ∷ nodes', l'')

-- The loop that is run when this node is neither pre-operational nor operational.
unfoldable pub forget_nodes : List Node → List Node
forget_nodes [] = []
forget_nodes (node ∷ nodes) =
    record node {
      nmt_state = nmt_initializing;
      can_rx_new = false;
      hb_state = if is_unconfigured node.hb_state then unconfigured else unknown;
    }
    ∷ forget_nodes nodes

-- "clear emergencies"
unfoldable pub clear_emergencies : Loop → Em
clear_emergencies l =
    let em = if l.timeout_active then l.em else error_reset l.em em_heartbeat_consumer 0 in
    if l.remote_reset_active then em else error_reset em em_hb_consumer_remote_reset 0

abbrev pub start : Em → ℕ → Loop
start em time_difference = record {
  time_difference = time_difference;
  em = em;
  timeout_active = false;
  remote_reset_active = false;
  all_operational = 5;
  calls = [];
}

-- `CO_HBconsumer_process`: the consumer, the emergency object and the calls of the callbacks.
unfoldable pub process : Consumer → Em → Bool → ℕ → Consumer × Em × List Call
unfolding process_nodes forget_nodes clear_emergencies
process c em pre_or_operational time_difference =
    let (nodes, l) = process_nodes 0 c.monitored_nodes (start em time_difference) in
    if pre_or_operational
    then (
      record c { monitored_nodes = nodes; all_monitored_operational = l.all_operational },
      clear_emergencies l,
      l.calls,
    )
    else (
      record c { monitored_nodes = forget_nodes c.monitored_nodes; all_monitored_operational = 0 },
      clear_emergencies (start em time_difference),
      [],
    )
