-- ===== src/HbConsumer/Transitions.antt =====
-- CO_HBconsumer.c: the state machine of the monitored nodes.
use canopen_node.HbConsumer.{
  HbState, unknown, active, timeout, is_watched, Node, Loop, monitor, process_nodes, process,
  Consumer, start,
}
use canopen_node.HbConsumer.Valid.{IsValid}
use canopen_node.Nmt.{nmt_initializing}
use canopen_node.Emergency.{Em}
use canopen_node.Prelude.{
  ℕ, ◌+◌, ◌<◌, ◌≤◌, ◌≡◌, Bool, arith, ◌==◌, ◌/=◌, ◌&&◌, leb, if◌then◌else◌, refl, ap, ap₂, ◌∙◌,
  true, List, [], ◌∷◌, All, inl, inr, Bool-cases,
}

-- A new message with another state than initializing is a heartbeat.
abbrev pub is_heard : Node → Bool
is_heard node = node.can_rx_new && (node.nmt_state /= nmt_initializing)

-- The state of a node behind a call of `CO_HBconsumer_process` that gives it the time `diff`.
abbrev pub next_state : Node → ℕ → HbState
next_state node diff =
    if is_heard node
    then active
    else if is_watched node.hb_state
    then if leb node.time (node.timeout_timer + diff)
      then timeout
      else if node.nmt_state == nmt_initializing
      then unknown
      else node.hb_state
    else node.hb_state

-- The time that the nodes behind this one are given.
abbrev pub time_behind : Node → ℕ → ℕ
time_behind node diff = if (node.time /= 0) && is_heard node then 0 else diff

-- The states of all nodes behind the call.
abbrev pub next_states : ℕ → List Node → List HbState
next_states diff [] = []
next_states diff (node ∷ nodes) =
    (if node.time /= 0 then next_state node diff else node.hb_state)
    ∷ next_states (time_behind node diff) nodes

abbrev pub states_of : List Node → List HbState
states_of [] = []
states_of (node ∷ nodes) = node.hb_state ∷ states_of nodes

-- The timer of the node does not wrap in a call with this time.
abbrev pub IsBelow : ℕ → Node → Type 0
IsBelow diff node = node.timeout_timer + diff < 65536

module _ (i : ℕ) (node : Node) (l : Loop) where
  monitor_state :
      IsValid node
      → 0 < node.time
      → node.timeout_timer + l.time_difference < 65536
      → (monitor i node l).0.hb_state ≡ next_state node l.time_difference
  unfolding monitor
  monitor_state v t h = ground arith

  monitor_time :
      (monitor i node l).1.time_difference ≡ (if is_heard node then 0 else l.time_difference)
  unfolding monitor
  monitor_time = ground arith

less-IsBelow : (m n : ℕ) (nodes : List Node) → m ≤ n → All (IsBelow n) nodes → All (IsBelow m) nodes
less-IsBelow m n [] h all = tt
less-IsBelow m n (node ∷ nodes) h (below, all) = (omega arith, less-IsBelow m n nodes h all)

process_nodes_states :
    (i : ℕ) (nodes : List Node) (l : Loop)
    → All IsValid nodes
    → All (IsBelow l.time_difference) nodes
    → states_of (process_nodes i nodes l).0 ≡ next_states l.time_difference nodes
unfolding process_nodes
process_nodes_states i [] l v h = refl
process_nodes_states i (node ∷ nodes) l (v, vs) (h, hs) = elim (Bool-cases (node.time /= 0)) [
  | inr unused ↦
      rw unused (ap (λ ss. node.hb_state ∷ ss) (process_nodes_states (i + 1) nodes l vs hs))
  | inl used ↦
      let l' = (monitor i node l).1 in
      let less : l'.time_difference ≤ l.time_difference = ground (arith, monitor_time i node l) in
      rw used (
        ap₂ (λ s ss. s ∷ ss) (monitor_state i node l v (ground arith) h)
          (process_nodes_states (i + 1) nodes l' vs
              (less-IsBelow l'.time_difference l.time_difference nodes less hs)
            ∙ ap (λ t. next_states t nodes) (monitor_time i node l)))
]

-- In the pre-operational or operational state, if exactly the monitored nodes with a time are configured,
-- those that have timed out have reached their time, and the timer of each and the time since the last
-- call add up to less than 65536: a call of `CO_HBconsumer_process` makes a monitored node active that
-- has sent a heartbeat. Of the others, one that was active or timed out is timed out if its timer and the
-- time that the call gives it reach its time, and if not, it is unknown if its NMT state is
-- initializing, as behind a bootup message; every other node keeps its state. The time that the call
-- gives a node is the time since the last call, and 0 behind a node that has sent a heartbeat.
pub process_states :
    (c : Consumer) (em : Em) (diff : ℕ)
    → All IsValid c.monitored_nodes
    → All (IsBelow diff) c.monitored_nodes
    → states_of (process c em true diff).0.monitored_nodes ≡ next_states diff c.monitored_nodes
unfolding process
process_states c em diff v h = process_nodes_states 0 c.monitored_nodes (start em diff) v h

pub data Edge : HbState → HbState → Type 0 where
  stay : {s : HbState} → Edge s s
  first_heartbeat : Edge unknown active
  recover : Edge timeout active
  expire : Edge active timeout
  bootup : Edge active unknown

-- Every round of a monitored node follows an edge of the state diagram: in particular a node that
-- has timed out leaves that state only to active, and an unknown one never times out.
pub monitor-Edge :
    (i : ℕ) (node : Node) (l : Loop)
    → IsValid node
    → 0 < node.time
    → Edge node.hb_state (monitor i node l).0.hb_state
unfolding monitor
monitor-Edge i node l v t = grind (arith, stay, first_heartbeat, recover, expire, bootup)
