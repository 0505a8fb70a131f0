-- ===== src/Nmt/Heartbeat.antt =====
-- CO_NMT_Heartbeat.c: when the bootup message and the heartbeats are sent.
use mathlib.Core.Path.{subst}
use canopen_node.Driver.{TxBuffer}
use canopen_node.Emergency.{Em}
use canopen_node.Nmt.{
  nmt_initializing, nmt_pre_operational, nmt_operational, Nmt, next_heartbeat, Processed, process,
}
use canopen_node.Nmt.States.{IsStarted, IsValid, process-IsStarted}
use canopen_node.Prelude.{
  Bool, true, false, ◌||◌, ap₂, sym, ℕ, ◌+◌, ◌-◌, ◌<◌, ◌≤◌, ◌≡◌, ◌≢◌, refl, ◌∙◌, List, [], ◌∷◌,
  Option, none, some, ◌==◌, if◌then◌else◌, inl, inr, arith, bit_and, set, Bool-cases, ltb, max,
}

-- The frame that carries the state of the node.
abbrev pub state_frame : Nmt → ℕ → TxBuffer
state_frame nmt s = record nmt.hb_tx_buff { bytes = set nmt.hb_tx_buff.bytes 0 s }

-- A node that initializes sends the bootup message, with the state 0, whatever the heartbeat time
-- is. With no errors it is then operational, or pre-operational if bit 2 of the startup object asks
-- for it, and the first heartbeat is due in `first_hb_time` milliseconds, or in `hb_time` if that
-- is less.
pub process_bootup :
    (nmt : Nmt) (em : Em) (diff hb_time startup register : ℕ) (next : Option ℕ)
    → nmt.operating_state ≡ nmt_initializing
    → let r = process nmt em diff hb_time startup register none next in
      (r.sent ≡ some (state_frame nmt 0))
      × (r.nmt.operating_state
          ≡ (if bit_and startup 4 == 0 then nmt_operational else nmt_pre_operational))
      × (r.nmt.hb_producer_timer
            + (if ltb nmt.first_hb_time hb_time then nmt.first_hb_time else hb_time)
          ≡ hb_time)
unfolding process
process_bootup nmt em diff hb_time startup register next h = ground arith

-- The answer to the caller's next time, if heartbeats are configured: it is not later than the
-- caller's own, and not later than the next heartbeat is due.
pub next_heartbeat_sound :
    (nmt : Nmt) (hb_time t : ℕ)
    → hb_time ≢ 0
    → (t' : ℕ) × (next_heartbeat nmt hb_time (some t) ≡ some t')
      × (t' ≤ t)
      × (nmt.hb_producer_timer + t' ≤ max hb_time nmt.hb_producer_timer)
unfolding next_heartbeat
next_heartbeat_sound nmt hb_time t h = elim (Bool-cases (ltb nmt.hb_producer_timer hb_time)) [
  | inl e ↦ elim (Bool-cases (ltb (hb_time - nmt.hb_producer_timer) t)) [
    | inl p ↦ (hb_time - nmt.hb_producer_timer, ground arith, ground arith, ground arith)
    | inr p ↦ (t, ground arith, ground arith, ground arith)
  ]
  | inr e ↦ (0, ground arith, ground arith, ground arith)
]

abbrev pub is_some : Option TxBuffer → Bool
is_some none = false
is_some (some frame) = true

-- The arguments of one call.
pub record Call : Type 0 where
  pub time : ℕ
  pub em : Em
  pub startup : ℕ
  pub register : ℕ
  pub next : Option ℕ

-- A call without an error behaviour.
abbrev pub call : Nmt → ℕ → Call → Processed
call nmt hb_time c = process nmt c.em c.time hb_time c.startup c.register none c.next

-- Several calls: the node behind them, and whether one has sent a frame.
abbrev pub call_all : Nmt → ℕ → List Call → Nmt × Bool
call_all nmt hb_time [] = (nmt, false)
call_all nmt hb_time (c ∷ cs) =
    let r = call nmt hb_time c in
    let (nmt', any) = call_all r.nmt hb_time cs in (nmt', is_some r.sent || any)

abbrev pub total : List Call → ℕ
total [] = 0
total (c ∷ cs) = c.time + total cs

quiet_call :
    (nmt : Nmt) (hb_time : ℕ) (c : Call)
    → IsStarted nmt.operating_state
    → nmt.hb_producer_timer + c.time < hb_time
    → hb_time < 65536
    → let r = call nmt hb_time c in
      (r.sent ≡ none)
      × (r.nmt.operating_state ≡ nmt.operating_state)
      × (r.nmt.hb_tx_buff ≡ nmt.hb_tx_buff)
      × (r.nmt.hb_producer_timer ≡ nmt.hb_producer_timer + c.time)
unfolding process
quiet_call nmt hb_time c h l k = ground arith

due_call :
    (nmt : Nmt) (hb_time : ℕ) (c : Call)
    → IsStarted nmt.operating_state
    → hb_time ≢ 0
    → hb_time ≤ nmt.hb_producer_timer + c.time
    → nmt.hb_producer_timer + c.time < 65536
    → let r = call nmt hb_time c in
      (r.sent ≡ some (state_frame nmt nmt.operating_state)) × (r.nmt.hb_producer_timer ≡ 0)
unfolding process
due_call nmt hb_time c h z l k = ground arith

-- A started node without an error behaviour, with a heartbeat time below 65536: calls whose times do not
-- add up to the heartbeat time with the timer, which is 0 behind a heartbeat, send nothing. The call
-- whose time reaches it sends the state of the node, and the timer is 0 again, as long as the sum is
-- below 65536.
pub call_heartbeat :
    (nmt : Nmt) (hb_time : ℕ) (cs : List Call) (c : Call)
    → IsStarted nmt.operating_state
    → nmt.hb_producer_timer + total cs < hb_time
    → hb_time ≤ nmt.hb_producer_timer + total cs + c.time
    → nmt.hb_producer_timer + total cs + c.time < 65536
    → let (nmt', any) = call_all nmt hb_time cs in
      let r = call nmt' hb_time c in
      (any ≡ false)
      × (r.sent ≡ some (state_frame nmt nmt.operating_state))
      × (r.nmt.hb_producer_timer ≡ 0)
call_heartbeat nmt hb_time [] c h before due word =
    let (sent, timer) =
      due_call nmt hb_time c h (λ e. omega (arith, e)) (omega arith) (omega arith) in
    (refl, sent, timer)
call_heartbeat nmt hb_time (c' ∷ cs) c h before due word =
    let r = call nmt hb_time c' in
    let (quiet, state, buff, timer) = quiet_call nmt hb_time c' h (omega arith) (omega arith) in
    let started : IsStarted r.nmt.operating_state = subst IsStarted (sym state) h in
    let (none_sent, sent, timer') =
      call_heartbeat r.nmt hb_time cs c started (omega (arith, timer)) (omega (arith, timer))
        (omega (arith, timer)) in
    (
      ap₂ (λ s b. is_some s || b) quiet none_sent,
      sent
          ∙ ap₂ {A = TxBuffer} {B = ℕ} (λ b s. some (record b { bytes = set b.bytes 0 s })) buff
              state,
      timer',
    )

after_loss :
    (nmt : Nmt) (em : Em) (diff hb_time startup register : ℕ) (behavior : List ℕ) (next : Option ℕ)
    → IsStarted nmt.operating_state
    → nmt.hb_producer_timer ≡ hb_time
    → hb_time ≢ 0
    → hb_time < 65536
    → diff < 65536
    → (process nmt em diff hb_time startup register (some behavior) next).sent
      ≡ (if ltb (hb_time + diff) 65536 then some (state_frame nmt nmt.operating_state) else none)
unfolding process
after_loss nmt em diff hb_time startup register behavior next s e z l k = ground arith

-- The call in which an operational node is taken out of its state by an error.
module _ (nmt : Nmt) (em : Em) (diff hb_time startup register : ℕ) (behavior : List ℕ)
    (next : Option ℕ) where
  abbrev lost : Nmt
  lost = (process nmt em diff hb_time startup register (some behavior) next).nmt

  timer_of_lost :
      nmt.operating_state ≡ nmt_operational
      → lost.operating_state ≢ nmt_operational
      → lost.hb_producer_timer ≡ hb_time
  unfolding process
  timer_of_lost h n = ground arith

  -- A node that errors took out of the operational state sends its new state in the next call, if
  -- heartbeats are configured, unless the sum of the heartbeat time and the time to that call passes
  -- 65535: then nothing is sent in the next call, if that time is at most 65535.
  pub lost_state_heartbeat :
      (diff' : ℕ) (next' : Option ℕ)
      → nmt.operating_state ≡ nmt_operational
      → lost.operating_state ≢ nmt_operational
      → IsValid nmt
      → hb_time ≢ 0
      → hb_time < 65536
      → diff' < 65536
      → (process lost em diff' hb_time startup register (some behavior) next').sent ≡ (
          if ltb (hb_time + diff') 65536
          then some (state_frame lost lost.operating_state)
          else none)
  lost_state_heartbeat diff' next' h n v z l k =
      after_loss lost em diff' hb_time startup register behavior next'
        (process-IsStarted nmt em diff hb_time startup register (some behavior) next v).1
        (timer_of_lost h n) z l k
