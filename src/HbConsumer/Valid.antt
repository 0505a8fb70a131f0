-- ===== src/HbConsumer/Valid.antt =====
-- CO_HBconsumer.c: what holds of every monitored node between two calls.
use canopen_node.Driver.{RxMsg}
use canopen_node.HbConsumer.{
  unconfigured, unknown, timeout, Node, Loop, receive, monitor, process_nodes, forget_nodes,
  process, Consumer, start, is_unconfigured,
}
use canopen_node.Emergency.{Em}
use canopen_node.Nmt.{nmt_initializing}
use canopen_node.Prelude.{
  ℕ, ◌+◌, ◌<◌, ◌≤◌, ◌≡◌, List, [], ◌∷◌, Bool, All, arith, if◌then◌else◌, ◌/=◌, Bool-cases, inl, inr,
  true, false,
}

-- Exactly the entries with the time 0 are not configured. A node that has timed out has reached its
-- time.
pub record IsValid (node : Node) : Type 0 where
  pub used : node.time ≡ 0 → node.hb_state ≡ unconfigured
  pub configured : node.hb_state ≡ unconfigured → node.time ≡ 0
  pub expired : node.hb_state ≡ timeout → node.time ≤ node.timeout_timer

pub receive-IsValid : (node : Node) (msg : RxMsg) → IsValid node → IsValid (receive node msg)
unfolding receive
receive-IsValid node msg v = ground arith

pub monitor-IsValid :
    (i : ℕ) (node : Node) (l : Loop) → 0 < node.time → IsValid node → IsValid (monitor i node l).0
unfolding monitor
monitor-IsValid i node l h v = ground arith

pub process_nodes-IsValid :
    (i : ℕ) (nodes : List Node) (l : Loop)
    → All IsValid nodes
    → All IsValid (process_nodes i nodes l).0
unfolding process_nodes
process_nodes-IsValid i [] l v = tt
process_nodes-IsValid i (node ∷ nodes) l v = elim (Bool-cases (node.time /= 0)) [
  | inl e ↦ rw e (
    monitor-IsValid i node l (ground arith) v.0,
    process_nodes-IsValid (i + 1) nodes (monitor i node l).1 v.1,
  )
  | inr e ↦ rw e (v.0, process_nodes-IsValid (i + 1) nodes l v.1)
]

forget_IsValid :
    (node : Node)
    → IsValid node
    → IsValid (record node {
      nmt_state = nmt_initializing;
      can_rx_new = false;
      hb_state = if is_unconfigured node.hb_state then unconfigured else unknown;
    })
forget_IsValid node v = ground arith

pub forget_nodes-IsValid :
    (nodes : List Node) → All IsValid nodes → All IsValid (forget_nodes nodes)
unfolding forget_nodes
forget_nodes-IsValid [] v = tt
forget_nodes-IsValid (node ∷ nodes) v =
    let n = v.0 in (forget_IsValid node n, forget_nodes-IsValid nodes v.1)

-- `CO_HBconsumer_process` keeps every monitored node well formed, in any NMT state of this node.
pub process-All :
    (c : Consumer) (em : Em) (pre_or_operational : Bool) (diff : ℕ)
    → All IsValid c.monitored_nodes
    → All IsValid (process c em pre_or_operational diff).0.monitored_nodes
unfolding process
process-All c em true diff v = process_nodes-IsValid 0 c.monitored_nodes (start em diff) v
process-All c em false diff v = forget_nodes-IsValid c.monitored_nodes v
