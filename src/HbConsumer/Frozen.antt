-- ===== src/HbConsumer/Frozen.antt =====
-- CO_HBconsumer.c: the loop sets its own argument `timeDifference_ms` to 0 when it finds a
-- heartbeat, and the nodes behind that one are then given no time.
use canopen_node.Emergency.{Em}
use canopen_node.HbConsumer.{
  active, Node, Loop, monitor, process_nodes, process, Consumer, start, receive,
}
use canopen_node.Nmt.{nmt_initializing}
use canopen_node.Driver.{RxMsg, data_at}
use canopen_node.Prelude.{
  suc, ◌++◌, length, ℕ, ◌+◌, ◌<◌, ◌≡◌, ◌≢◌, refl, List, [], ◌∷◌, arith, ◌/=◌, Bool-cases, inl, inr,
  true, false, ap,
}

-- A node whose heartbeats were seen, that has not reached its time, and that sends nothing.
pub record IsSilent (node : Node) : Type 0 where
  pub seen : node.hb_state ≡ active
  pub state : node.nmt_state ≢ nmt_initializing
  pub early : node.timeout_timer < node.time
  pub small : node.time < 65536
  pub nothing_new : node.can_rx_new ≡ false

monitor-IsSilent :
    (i : ℕ) (node : Node) (l : Loop)
    → IsSilent node
    → l.time_difference ≡ 0
    → ((monitor i node l).0 ≡ node) × ((monitor i node l).1.time_difference ≡ 0)
unfolding monitor
monitor-IsSilent i node l s h = ground arith

monitor_no_time :
    (i : ℕ) (node : Node) (l : Loop)
    → l.time_difference ≡ 0
    → (monitor i node l).1.time_difference ≡ 0
unfolding monitor
monitor_no_time i node l h = ground arith

-- The node behind `before` is as it was.
abbrev pub IsKept : List Node → Node → List Node → Type 0
IsKept before node nodes =
    (before' : List Node) × (after' : List Node) × (length before' ≡ length before)
    × (nodes ≡ before' ++ node ∷ after')

process_nodes-IsKept :
    (i : ℕ) (before after : List Node) (node : Node) (l : Loop)
    → IsSilent node
    → l.time_difference ≡ 0
    → IsKept before node (process_nodes i (before ++ node ∷ after) l).0
unfolding process_nodes
process_nodes-IsKept i [] after node l s h = elim (Bool-cases (node.time /= 0)) [
  | inl e ↦
      let l' = (monitor i node l).1 in
      rw e (
        [],
        (process_nodes (i + 1) after l').0,
        refl,
        ap (λ n. n ∷ (process_nodes (i + 1) after l').0) (monitor-IsSilent i node l s h).0,
      )
  | inr e ↦ rw e ([], (process_nodes (i + 1) after l).0, refl, refl)
]
process_nodes-IsKept i (n ∷ before) after node l s h = elim (Bool-cases (n.time /= 0)) [
  | inl e ↦
      let (n', l') = monitor i n l in
      let (before', after', len, kept) =
        process_nodes-IsKept (i + 1) before after node l' s (monitor_no_time i n l h) in
      rw e (n' ∷ before', after', ap suc len, ap (λ ns. n' ∷ ns) kept)
  | inr e ↦
      let (before', after', len, kept) = process_nodes-IsKept (i + 1) before after node l s h in
      rw e (n ∷ before', after', ap suc len, ap (λ ns. n ∷ ns) kept)
]

abbrev pub IsHeartbeat : RxMsg → Type 0
IsHeartbeat msg = (msg.dlc ≡ 1) × (data_at msg 0 ≢ nmt_initializing)

heartbeat_stops_time :
    (node : Node) (msg : RxMsg) (l : Loop)
    → IsHeartbeat msg
    → (monitor 0 (receive node msg) l).1.time_difference ≡ 0
unfolding monitor receive
heartbeat_stops_time node msg l h = ground arith

time-receive : (node : Node) (msg : RxMsg) → (receive node msg).time ≡ node.time
unfolding receive
time-receive node msg = ground arith

-- In the pre-operational or operational state, when the first monitored node has sent a heartbeat: a node
-- at any place behind it that was active and not initializing, with its timer before its time below
-- 65536, and that has sent nothing, stays exactly as it is in that call of `CO_HBconsumer_process`,
-- however much time has passed and whatever the nodes before and behind it have sent: its timer does not
-- advance, and it does not time out.
pub process_freezes :
    (c : Consumer) (first node : Node) (before after : List Node) (em : Em) (msg : RxMsg) (diff : ℕ)
    → 0 < first.time
    → IsHeartbeat msg
    → IsSilent node
    → IsKept
        (first ∷ before)
        node
        (process
          (record c { monitored_nodes = receive first msg ∷ before ++ node ∷ after })
          em
          true
          diff).0.monitored_nodes
unfolding process process_nodes
process_freezes c first node before after em msg diff t h s =
    let l = start em diff in
    let first1 = receive first msg in
    elim (Bool-cases (first1.time /= 0)) [
      | inl e ↦
          let (first', l') = monitor 0 first1 l in
          let (before', after', len, kept) =
            process_nodes-IsKept 1 before after node l' s (heartbeat_stops_time first msg l h) in
          rw e (first' ∷ before', after', ap suc len, ap (λ ns. first' ∷ ns) kept)
      | inr e ↦ absurd (ground (arith, time-receive first msg))
    ]
