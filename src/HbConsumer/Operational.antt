-- ===== src/HbConsumer/Operational.antt =====
-- CO_HBconsumer.c: `allMonitoredOperational` against the states of the nodes.
use canopen_node.Emergency.{Em}
use canopen_node.HbConsumer.{Node, Loop, monitor, process_nodes, process, Consumer, start}
use canopen_node.Nmt.{nmt_operational}
use canopen_node.Prelude.{
  ℕ, ◌+◌, ◌<◌, ◌≡◌, refl, ◌∙◌, List, [], ◌∷◌, Bool, arith, ◌==◌, ◌/=◌, ◌&&◌, Bool-cases, inl, inr,
  true, false, if◌then◌else◌, ◌||◌,
}

-- Every node with a consumer time is operational.
unfoldable pub all_operational : List Node → Bool
all_operational [] = true
all_operational (node ∷ nodes) =
    ((node.time == 0) || (node.nmt_state == nmt_operational)) && all_operational nodes

monitor-operational :
    (i : ℕ) (node : Node) (l : Loop)
    → 0 < node.time
    → ((monitor i node l).0.time ≡ node.time)
      × ((monitor i node l).1.all_operational
          ≡ (if (monitor i node l).0.nmt_state == nmt_operational then l.all_operational else 0))
unfolding monitor
monitor-operational i node l h = ground arith

process_nodes-operational :
    (i : ℕ) (nodes : List Node) (l : Loop)
    → (process_nodes i nodes l).1.all_operational
      ≡ (if all_operational (process_nodes i nodes l).0 then l.all_operational else 0)
unfolding process_nodes all_operational
process_nodes-operational i [] l = refl
process_nodes-operational i (node ∷ nodes) l = elim (Bool-cases (node.time /= 0)) [
  | inl e ↦ rw e (
      process_nodes-operational (i + 1) nodes (monitor i node l).1
      ∙ ground (arith, monitor-operational i node l))
  | inr e ↦ rw e (process_nodes-operational (i + 1) nodes l ∙ ground arith)
]

-- After `CO_HBconsumer_process` the object says that all monitored nodes are operational (by the
-- value 5, and 0 otherwise) exactly if this node is pre-operational or operational and every node
-- with a consumer time is in the state operational.
pub process_operational :
    (c : Consumer) (em : Em) (pre_or_operational : Bool) (diff : ℕ)
    → let c' = (process c em pre_or_operational diff).0 in
      c'.all_monitored_operational
      ≡ (if pre_or_operational && all_operational c'.monitored_nodes then 5 else 0)
unfolding process
process_operational c em true diff = process_nodes-operational 0 c.monitored_nodes (start em diff)
process_operational c em false diff = refl
