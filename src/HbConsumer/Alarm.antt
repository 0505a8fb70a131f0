-- ===== src/HbConsumer/Alarm.antt =====
-- CO_HBconsumer.c: the emergency of the heartbeat consumer against the states of the nodes.
use canopen_node.Emergency.{Em, error_report, error_reset, is_error}
use canopen_node.Emergency.Valid
use canopen_node.Emergency.Valid.{error_report-IsValid, error_reset-IsValid}
use canopen_node.Emergency.StatusBits.{is_error-error_report, is_error-error_reset}
use canopen_node.HbConsumer.{
  is_timeout, Node, Loop, monitor, process_nodes, forget_nodes, clear_emergencies, process,
  Consumer, start,
}
use canopen_node.HbConsumer.Valid.{IsValid}
use canopen_node.Prelude.{
  ℕ, ◌+◌, ◌<◌, ◌≡◌, refl, ◌∙◌, sym, List, [], ◌∷◌, Bool, All, arith, if_intro, ◌/=◌, ◌||◌,
  Bool-cases, inl, inr, true, false, if◌then◌else◌,
}

-- Has one of the nodes timed out?
unfoldable pub any_timeout : List Node → Bool
any_timeout [] = false
any_timeout (node ∷ nodes) = is_timeout node.hb_state || any_timeout nodes

-- Between the rounds of the loop: the emergency object is well formed, and the error is present if
-- the loop has reported it.
record Reported (l : Loop) : Type 0 where
  sound : Valid.IsValid l.em
  shown : l.timeout_active ≡ true → is_error l.em 0x1b ≡ true

report_timeout :
    (em : Em) (i : ℕ) → Valid.IsValid em → is_error (error_report em 0x1b 0x8130 i) 0x1b ≡ true
report_timeout em i v = is_error-error_report em 0x1b 0x8130 i 0x1b v ∙ ground (arith, v.six)

report_reset :
    (em : Em) (i : ℕ)
    → Valid.IsValid em
    → is_error (error_report em 0x1c 0x8130 i) 0x1b ≡ is_error em 0x1b
report_reset em i v = is_error-error_report em 0x1c 0x8130 i 0x1b v ∙ ground arith

monitor-Reported : (i : ℕ) (node : Node) (l : Loop) → Reported l → Reported (monitor i node l).1
unfolding monitor
monitor-Reported i node l r = ground (
  arith,
  error_report-IsValid l.em 0x1b 0x8130 i r.sound,
  error_report-IsValid l.em 0x1c 0x8130 i r.sound,
  report_timeout l.em i r.sound,
  report_reset l.em i r.sound,
)

-- A monitored node is in the state `timeout` after its round exactly if the round reported it.
monitor-timeout :
    (i : ℕ) (node : Node) (l : Loop)
    → IsValid node
    → 0 < node.time
    → (monitor i node l).1.timeout_active
      ≡ (is_timeout (monitor i node l).0.hb_state || l.timeout_active)
unfolding monitor
monitor-timeout i node l v h = ground arith

process_nodes-Reported :
    (i : ℕ) (nodes : List Node) (l : Loop) → Reported l → Reported (process_nodes i nodes l).1
unfolding process_nodes
process_nodes-Reported i [] l r = r
process_nodes-Reported i (node ∷ nodes) l r = elim (Bool-cases (node.time /= 0)) [
  | inl e ↦
      rw e (process_nodes-Reported (i + 1) nodes (monitor i node l).1 (monitor-Reported i node l r))
  | inr e ↦ rw e (process_nodes-Reported (i + 1) nodes l r)
]

idle_timeout : (node : Node) → IsValid node → node.time ≡ 0 → is_timeout node.hb_state ≡ false
idle_timeout node v h = ground arith

process_nodes-timeout :
    (i : ℕ) (nodes : List Node) (l : Loop)
    → All IsValid nodes
    → (process_nodes i nodes l).1.timeout_active
      ≡ (any_timeout (process_nodes i nodes l).0 || l.timeout_active)
unfolding process_nodes any_timeout
process_nodes-timeout i [] l v = refl
process_nodes-timeout i (node ∷ nodes) l v = elim (Bool-cases (node.time /= 0)) [
  | inl e ↦ rw e (
      process_nodes-timeout (i + 1) nodes (monitor i node l).1 v.1
      ∙ ground (arith, monitor-timeout i node l v.0))
  | inr e ↦ rw e (process_nodes-timeout (i + 1) nodes l v.1 ∙ ground (arith, idle_timeout node v.0))
]

any_timeout-forget_nodes : (nodes : List Node) → any_timeout (forget_nodes nodes) ≡ false
unfolding any_timeout forget_nodes
any_timeout-forget_nodes [] = refl
any_timeout-forget_nodes (node ∷ nodes) = ground (arith, any_timeout-forget_nodes nodes)

clear_emergencies_timeout :
    (l : Loop) → Reported l → is_error (clear_emergencies l) 0x1b ≡ l.timeout_active
unfolding clear_emergencies
clear_emergencies_timeout l r = elim (Bool-cases l.remote_reset_active) [
  | inl e ↦ rw e first
  | inr e ↦ rw e (is_error-error_reset _ 0x1c 0 0x1b sound ∙ first)
]
  where
    first :
        is_error (if l.timeout_active then l.em else error_reset l.em 0x1b 0) 0x1b
        ≡ l.timeout_active
    first = elim (Bool-cases l.timeout_active) [
      | inl e ↦ rw e (r.shown e)
      | inr e ↦ rw e (is_error-error_reset l.em 0x1b 0 0x1b r.sound)
    ]

    sound : Valid.IsValid (if l.timeout_active then l.em else error_reset l.em 0x1b 0)
    sound =
        if_intro Valid.IsValid l.timeout_active r.sound (error_reset-IsValid l.em 0x1b 0 r.sound)

start-Reported : (em : Em) (diff : ℕ) → Valid.IsValid em → Reported (start em diff)
start-Reported em diff v = record { sound = v; shown = λ e. cc }

-- After `CO_HBconsumer_process`, in any NMT state of this node, the heartbeat consumer error is
-- present exactly if one of the monitored nodes has timed out.
pub process_alarm :
    (c : Consumer) (em : Em) (pre_or_operational : Bool) (diff : ℕ)
    → Valid.IsValid em
    → All IsValid c.monitored_nodes
    → let (c', em', _) = process c em pre_or_operational diff in
      is_error em' 0x1b ≡ any_timeout c'.monitored_nodes
unfolding process
process_alarm c em true diff e v =
    clear_emergencies_timeout (process_nodes 0 c.monitored_nodes (start em diff)).1
      (process_nodes-Reported 0 c.monitored_nodes (start em diff) (start-Reported em diff e))
    ∙ process_nodes-timeout 0 c.monitored_nodes (start em diff) v
    ∙ ground arith
process_alarm c em false diff e v =
    clear_emergencies_timeout (start em diff) (start-Reported em diff e)
    ∙ sym (any_timeout-forget_nodes c.monitored_nodes)
