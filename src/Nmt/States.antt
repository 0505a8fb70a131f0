-- ===== src/Nmt/States.antt =====
-- CO_NMT_Heartbeat.c: the NMT states that a node can be in, and what moves it between them.
use canopen_node.Driver.{RxMsg, data_at}
use canopen_node.Emergency.{Em, is_error}
use canopen_node.Nmt.{
  nmt_initializing, nmt_pre_operational, nmt_operational, nmt_stopped, reset_app, Nmt, receive,
  error_state, behave, with_passive, process,
}
use canopen_node.Prelude.{
  ℕ, ◌≤◌, ◌≡◌, ◌≢◌, refl, List, Option, none, some, Bool, true, ◌||◌, ◌==◌, ◌/=◌, if◌then◌else◌,
  ◌⊎◌, ◌↔◌, inl, inr, arith, bit_and, get_or, if_intro,
}

-- The states of a node that is started: all but initializing.
abbrev pub IsStarted : ℕ → Type 0
IsStarted s = (s ≡ nmt_pre_operational) ⊎ ((s ≡ nmt_operational) ⊎ (s ≡ nmt_stopped))

pub record IsValid (nmt : Nmt) : Type 0 where
  pub state : (nmt.operating_state ≡ nmt_initializing) ⊎ IsStarted nmt.operating_state
  pub reset : nmt.reset_command ≤ reset_app

-- A message from the NMT master keeps the state and the reset command among those that are defined.
pub receive-IsValid : (nmt : Nmt) (msg : RxMsg) → IsValid nmt → IsValid (receive nmt msg).0
unfolding receive
receive-IsValid nmt msg v = ground arith

-- The state that a command of the NMT master asks for, if it asks for one.
abbrev pub requested_state : ℕ → Option ℕ
requested_state command =
    if command == 1
    then some 5
    else if command == 2
    then some 4
    else if command == 128
    then some 127
    else none

abbrev pub get_or_else : Option ℕ → ℕ → ℕ
get_or_else none d = d
get_or_else (some x) d = x

-- A message of two bytes to this node or to all nodes puts the node into the state that its command
-- asks for. Any other message leaves the node as it is and calls nobody.
pub receive_lem :
    (nmt : Nmt) (msg : RxMsg)
    → ((msg.dlc ≡ 2)
        × ((data_at msg 1 ≡ 0) ⊎ (data_at msg 1 ≡ nmt.node_id))
        × ((receive nmt msg).0.operating_state
            ≡ get_or_else (requested_state (data_at msg 0)) nmt.operating_state))
      ⊎ (receive nmt msg ≡ (nmt, none))
unfolding receive
receive_lem nmt msg = ground arith

-- The callback is called exactly if it is set and the state has changed, with the new state.
pub receive_notifies :
    (nmt : Nmt) (msg : RxMsg) (s : ℕ)
    → let (nmt', called) = receive nmt msg in
      (called ≡ some s) ↔ (
        (nmt.has_funct_nmt ≡ true)
        × (nmt'.operating_state ≢ nmt.operating_state)
        × (nmt'.operating_state ≡ s))
unfolding receive
receive_notifies nmt msg s = (λ h. ground arith, λ h. ground arith)

behave-IsStarted : (b s : ℕ) → IsStarted s → IsStarted (behave b s)
behave-IsStarted b s h = ground arith

error_state-IsStarted :
    (em : Em) (behavior : List ℕ) (register : ℕ) → IsStarted (error_state em behavior register)
unfolding error_state
error_state-IsStarted em behavior register =
    kind (bit_and register 0x80 /= 0) (get_or behavior 5 0) (
      kind (bit_and register 0x20 /= 0) (get_or behavior 4 0) (
        kind (bit_and register 0x01 /= 0) (get_or behavior 3 0) (
          if_intro IsStarted (bit_and register 0x10 /= 0)
            (if_intro IsStarted (get_or behavior 1 0 == 0) (inl refl) (
              if_intro IsStarted (get_or behavior 1 0 == 2) (inr (inr refl)) (
                kind (is_error em 0x12 || (is_error em 0x1b || is_error em 0x1c))
                  (get_or behavior 0 0) operational)))
            operational)))
  where
    operational : IsStarted nmt_operational
    operational = inr (inl refl)

    kind : (b : Bool) (k : ℕ) {s : ℕ} → IsStarted s → IsStarted (if b then behave k s else s)
    kind b k {s} h = if_intro IsStarted b (behave-IsStarted k s h) h

-- `CO_NMT_process` leaves a node in a state that is defined, and never in initializing.
pub process-IsStarted :
    (nmt : Nmt) (em : Em) (diff hb_time startup register : ℕ) (behavior : Option (List ℕ))
    (next : Option ℕ)
    → IsValid nmt
    → let r = process nmt em diff hb_time startup register behavior next in
      IsValid r.nmt × IsStarted r.nmt.operating_state
unfolding process
process-IsStarted nmt em diff hb_time startup register none next v = ground arith
process-IsStarted nmt em diff hb_time startup register (some behavior) next v =
    ground (arith, error_state-IsStarted em behavior (with_passive em behavior register))
