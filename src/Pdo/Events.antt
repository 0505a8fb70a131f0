-- ===== src/Pdo/Events.antt =====
-- stack/CO_PDO.c: when `CO_TPDO_process` sends a PDO by request or by the event timer.
use canopen_node.Driver.{error_no, error_tx_busy, error_wrong_nmt_state, TxBuffer}
use canopen_node.Nmt.{nmt_operational}
use canopen_node.Pdo.{Tpdo, TpdoCommPar}
use canopen_node.Pdo.Schedule.{Call, called}
use canopen_node.Pdo.Transmit.{is_sent, send, process_event, process_kind, process}
use canopen_node.Prelude.{
  ℕ, ◌+◌, ◌-◌, ◌*◌, ◌<◌, ◌≤◌, ◌≡◌, ◌≢◌, refl, sym, ap, ◌∙◌, Bool, true, false, ◌&&◌, ◌||◌, List, [],
  ◌∷◌, none, some, leb, ◌==◌, ◌/=◌, if◌then◌else◌, arith, Bool-cases, inl, inr,
}

-- `CO_TPDO_process` behind a possible request of the application, which sets `sendRequest`.
abbrev pub asked : Tpdo → Bool → Tpdo
asked tpdo request = if request then record tpdo { send_request = true } else tpdo

-- The PDO behind calls, each with the request before it.
abbrev pub after : Tpdo → TpdoCommPar → List (Bool × Call) → Tpdo
after tpdo par [] = tpdo
after tpdo par ((request, c) ∷ steps) = after (called (asked tpdo request) par c).tpdo par steps

abbrev pub total : List (Bool × Call) → ℕ
total [] = 0
total ((request, c) ∷ steps) = c.time_difference + total steps

-- A PDO that is sent by events: the transmission types from 253 on.
abbrev pub IsEvent : TpdoCommPar → Type 0
IsEvent par = 253 ≤ par.transmission_type

asked_keeps :
    (tpdo : Tpdo) (request : Bool)
    → ((asked tpdo request).valid ≡ tpdo.valid)
      × ((asked tpdo request).inhibit_timer ≡ tpdo.inhibit_timer)
asked_keeps tpdo true = (refl, refl)
asked_keeps tpdo false = (refl, refl)

event_lem :
    (tpdo : Tpdo) (par : TpdoCommPar) (c : Call)
    → IsEvent par
    → tpdo.valid ≡ true
    → process_kind tpdo par c.od (some c.sync) nmt_operational c.sync_was c.result
      ≡ process_event tpdo par c.od c.result
unfolding process_kind
event_lem tpdo par c event v =
    let going : (tpdo.valid && true) ≡ true = ground arith in
    let kind : leb 253 par.transmission_type ≡ true = ground arith in rw (going, kind)

-- A PDO that the inhibit time holds back is not sent, and the timer goes on.
module _ (tpdo : Tpdo) (par : TpdoCommPar) (c : Call) where
  inhibited :
      IsEvent par
      → tpdo.valid ≡ true
      → 0 < tpdo.inhibit_timer
      → ((called tpdo par c).sent ≡ none)
        × ((called tpdo par c).tpdo.valid ≡ true)
        × ((called tpdo par c).tpdo.inhibit_timer ≡ tpdo.inhibit_timer - c.time_difference)
  unfolding process process_event
  inhibited event v held =
      let wait : (tpdo.inhibit_timer == 0) ≡ false = ground arith in
      rw (event_lem tpdo par c event v, wait) (refl, v, ground arith)

  successful-valid : (called tpdo par c).retval ≡ error_no → tpdo.valid ≡ true
  unfolding process process_kind
  successful-valid good = elim (Bool-cases tpdo.valid) [
    | inl v ↦ v
    | inr bad ↦
        let off : (tpdo.valid && true) ≡ false = ground arith in
        let wrong : (called tpdo par c).retval ≡ error_wrong_nmt_state = rw off in
        absurd (cc (good, wrong))
  ]

  successful_event :
      (process_event tpdo par c.od c.result).retval ≡ error_no
      → (((tpdo.inhibit_timer == 0)
            && (tpdo.send_request || ((par.event_timer /= 0) && (tpdo.event_timer == 0))))
          ≡ true)
        × (is_sent c.result ≡ true)
  unfolding process_event send
  successful_event good =
      let due = tpdo.send_request || ((par.event_timer /= 0) && (tpdo.event_timer == 0)) in
      elim (Bool-cases ((tpdo.inhibit_timer == 0) && due)) [
        | inl now ↦
            let result : (process_event tpdo par c.od c.result).retval ≡ c.result = rw now in
            (now, ap is_sent (sym result ∙ good))
        | inr wait ↦
            let busy : (process_event tpdo par c.od c.result).retval ≡ error_tx_busy = rw wait in
            absurd (cc (good, busy))
      ]

  -- A successful call has sent the PDO, and starts both timers.
  started :
      IsEvent par
      → (called tpdo par c).retval ≡ error_no
      → ((called tpdo par c).tpdo.valid ≡ true)
        × ((called tpdo par c).tpdo.send_request ≡ false)
        × ((called tpdo par c).tpdo.inhibit_timer ≡ par.inhibit_time * 100 - c.time_difference)
        × ((called tpdo par c).tpdo.event_timer ≡ par.event_timer * 1000 - c.time_difference)
  unfolding process process_event send
  started event good =
      let v = successful-valid good in
      let e = event_lem tpdo par c event v in
      let (now, sent) = successful_event (sym (ap (λ p. p.retval) e) ∙ good) in
      rw (e, now, sent) (v, refl, ground arith, ground arith)

  -- Without a request nothing is sent until the event timer has run down.
  unrequested :
      IsEvent par
      → tpdo.valid ≡ true
      → tpdo.send_request ≡ false
      → 0 < tpdo.event_timer
      → ((called tpdo par c).sent ≡ none)
        × ((called tpdo par c).tpdo.valid ≡ true)
        × ((called tpdo par c).tpdo.send_request ≡ false)
        × ((called tpdo par c).tpdo.inhibit_timer ≡ tpdo.inhibit_timer - c.time_difference)
        × ((called tpdo par c).tpdo.event_timer ≡ tpdo.event_timer - c.time_difference)
  unfolding process process_event
  unrequested event v idle early =
      let wait : ((tpdo.inhibit_timer == 0)
            && (tpdo.send_request || ((par.event_timer /= 0) && (tpdo.event_timer == 0))))
          ≡ false =
        ground arith in
      rw (event_lem tpdo par c event v, wait) (refl, v, idle, ground arith, ground arith)

  -- The event timer sends when both timers have run down.
  event_sends :
      IsEvent par
      → tpdo.valid ≡ true
      → par.event_timer ≢ 0
      → tpdo.inhibit_timer ≡ 0
      → tpdo.event_timer ≡ 0
      → (frame : TxBuffer) × ((called tpdo par c).sent ≡ some frame)
  unfolding process process_event send
  event_sends event v used free elapsed =
      let now : ((tpdo.inhibit_timer == 0)
            && (tpdo.send_request || ((par.event_timer /= 0) && (tpdo.event_timer == 0))))
          ≡ true =
        ground arith in
      rw (event_lem tpdo par c event v, now) (_, refl)

after_inhibited :
    (par : TpdoCommPar) (steps : List (Bool × Call)) (tpdo : Tpdo)
    → IsEvent par
    → tpdo.valid ≡ true
    → total steps < tpdo.inhibit_timer
    → ((after tpdo par steps).valid ≡ true) × (0 < (after tpdo par steps).inhibit_timer)
after_inhibited par [] tpdo event v l = (v, l)
after_inhibited par ((request, c) ∷ steps) tpdo event v l =
    let (v', i') = asked_keeps tpdo request in
    let (sent, v2, i2) = inhibited (asked tpdo request) par c event (v' ∙ v) (omega arith) in
    after_inhibited par steps (called (asked tpdo request) par c).tpdo event v2 (omega arith)

-- A TPDO of an operational node with a transmission type of 253 or more: behind a call of
-- `CO_TPDO_process` that sends it successfully, no call sends it again as long as the time that has passed,
-- from that call on and up to the call before, is less than the inhibit time, whatever the application
-- requests, and whatever the dictionary, the SYNC object and the driver do.
pub called_inhibited :
    (tpdo : Tpdo) (par : TpdoCommPar) (first : Call) (steps : List (Bool × Call)) (request : Bool)
    (c : Call)
    → IsEvent par
    → (called tpdo par first).retval ≡ error_no
    → first.time_difference + total steps < par.inhibit_time * 100
    → (called (asked (after (called tpdo par first).tpdo par steps) request) par c).sent ≡ none
called_inhibited tpdo par first steps request c event good early =
    let (v, idle, i, e) = started tpdo par first event good in
    let tpdo1 = (called tpdo par first).tpdo in
    let tpdo2 = after tpdo1 par steps in
    let (v2, held) = after_inhibited par steps tpdo1 event v (omega arith) in
    let (v', i') = asked_keeps tpdo2 request in
    (inhibited (asked tpdo2 request) par c event (v' ∙ v2) (omega arith)).0

-- Calls without a request between them.
abbrev pub IsUnrequested : List (Bool × Call) → Type 0
IsUnrequested [] = Unit
IsUnrequested ((request, c) ∷ steps) = (request ≡ false) × IsUnrequested steps

after_unrequested :
    (par : TpdoCommPar) (steps : List (Bool × Call)) (tpdo : Tpdo)
    → IsEvent par
    → IsUnrequested steps
    → tpdo.valid ≡ true
    → tpdo.send_request ≡ false
    → total steps < tpdo.event_timer
    → let tpdo' = after tpdo par steps in
      (tpdo'.valid ≡ true)
      × (tpdo'.send_request ≡ false)
      × (tpdo'.inhibit_timer ≡ tpdo.inhibit_timer - total steps)
      × (tpdo'.event_timer ≡ tpdo.event_timer - total steps)
after_unrequested par [] tpdo event none_asked v idle l = (v, idle, omega arith, omega arith)
after_unrequested par ((request, c) ∷ steps) tpdo event (no_request, none_asked) v idle l =
    let same : asked tpdo request ≡ tpdo = ap (asked tpdo) no_request in
    let (sent, v2, idle2, i2, e2) = unrequested tpdo par c event v idle (omega arith) in
    let (v3, idle3, i3, e3) =
      after_unrequested par steps (called tpdo par c).tpdo event none_asked v2 idle2
        (omega arith) in
    let run : after tpdo par ((request, c) ∷ steps) ≡ after (called tpdo par c).tpdo par steps =
      ap (λ t. after (called t par c).tpdo par steps) same in
    (
      ap (λ t. t.valid) run ∙ v3,
      ap (λ t. t.send_request) run ∙ idle3,
      ap (λ t. t.inhibit_timer) run ∙ i3 ∙ omega arith,
      ap (λ t. t.event_timer) run ∙ e3 ∙ omega arith,
    )

-- A TPDO of an operational node with a transmission type of 253 or more, whose event time is set and not
-- below its inhibit time, and that is not requested: behind a call that sends it successfully, a call
-- before the event time has passed sends nothing; and if the event time has passed with that call, the
-- next call sends the PDO.
pub called_event :
    (tpdo : Tpdo) (par : TpdoCommPar) (first : Call) (steps : List (Bool × Call)) (c next : Call)
    → IsEvent par
    → IsUnrequested steps
    → (called tpdo par first).retval ≡ error_no
    → par.inhibit_time * 100 ≤ par.event_timer * 1000
    → first.time_difference + total steps < par.event_timer * 1000
    → let tpdo' = after (called tpdo par first).tpdo par steps in
      let behind = called tpdo' par c in
      (behind.sent ≡ none)
      × (par.event_timer * 1000 ≤ first.time_difference + total steps + c.time_difference
          → (frame : TxBuffer) × ((called behind.tpdo par next).sent ≡ some frame))
called_event tpdo par first steps c next event none_asked good free early =
    let (v, idle, i, e) = started tpdo par first event good in
    let tpdo1 = (called tpdo par first).tpdo in
    let (v2, idle2, i2, e2) =
      after_unrequested par steps tpdo1 event none_asked v idle (omega arith) in
    let tpdo2 = after tpdo1 par steps in
    let (sent, v3, idle3, i3, e3) = unrequested tpdo2 par c event v2 idle2 (omega arith) in
    (
      sent,
      λ late.
          event_sends (called tpdo2 par c).tpdo par next event v3 (λ z. omega (arith, z))
            (omega arith) (omega arith),
    )
