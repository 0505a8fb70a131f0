-- ===== src/Daisychain/Events.antt =====
-- stack/CO_Daisychain.c: events on their way from a producer to a consumer.
use mathlib.Core.Path.{subst}
use canopen_node.Daisychain.{Producer, ok, Consumer, producer_init, send_event, receive, wait_event}
use canopen_node.Driver.{TxBuffer, ReturnError, error_no}
use canopen_node.Prelude.{
  ℕ, ◌≡◌, refl, ap, sym, ◌∙◌, true, false, not, Option, none, some, ◌∷◌, replicate,
}

-- The message that a frame is for a receiver, if the driver has accepted it.
abbrev pub delivered : Consumer → ReturnError × Producer × Option TxBuffer → Consumer
delivered consumer (error_no, producer, some frame) =
    (receive consumer (record { dlc = frame.dlc; bytes = frame.bytes })).0
delivered consumer other = consumer

delivered-accepted :
    (consumer : Consumer) (result : ReturnError) (producer : Producer) (frame : TxBuffer)
    → result ≡ error_no
    → delivered consumer (result, producer, some frame)
      ≡ (receive consumer (record { dlc = frame.dlc; bytes = frame.bytes })).0
delivered-accepted consumer result producer frame e =
    ap (λ r. delivered consumer (r, producer, some frame)) e

-- An initialised producer sends two events to a consumer that holds none, and the driver, which accepts
-- every frame, delivers the first one before the second is sent: the first is what the next call of
-- `CO_DaisyConsumer_waitEvent` gives, with its counter and its node-ID, and the second, which came
-- before that call, is lost.
pub wait_event-send_event :
    (send : TxBuffer → ReturnError) (producer0 : Producer) (consumer : Consumer)
    (can_id shift_count node_id shift_count' node_id' time : ℕ)
    → ((frame : TxBuffer) → send frame ≡ error_no)
    → consumer.can_rx_new ≡ false
    → let producer = (producer_init true producer0 can_id).1 in
      let first = send_event send producer shift_count node_id in
      let second = send_event send first.1 shift_count' node_id' in
      let (ret, consumer', event) = wait_event (delivered (delivered consumer first) second) time in
      (ret ≡ ok)
      × (event ≡ some (shift_count, node_id))
      × (consumer'.can_rx_new ≡ false)
      × ((wait_event consumer' time).2 ≡ none)
unfolding send_event producer_init receive wait_event
wait_event-send_event send producer0 consumer can_id a b a' b' time accepts free =
    let frame : TxBuffer = record {
      ident = can_id;
      dlc = 2;
      bytes = a ∷ b ∷ replicate 6 0;
      sync_flag = false;
    } in
    let frame' : TxBuffer = record frame { bytes = a' ∷ b' ∷ replicate 6 0 } in
    let producer = (producer_init true producer0 can_id).1 in
    let first = send_event send producer a b in
    let second = send_event send first.1 a' b' in
    let frame : TxBuffer = record {
      ident = can_id;
      dlc = 2;
      bytes = a ∷ b ∷ replicate 6 0;
      sync_flag = false;
    } in
    let frame' : TxBuffer = record frame { bytes = a' ∷ b' ∷ replicate 6 0 } in
    let both : delivered (delivered consumer first) second
        ≡ (receive (receive consumer (record { dlc = 2; bytes = frame.bytes })).0
            (record { dlc = 2; bytes = frame'.bytes })).0 =
      delivered-accepted (delivered consumer first) (send frame') second.1 frame' (accepts frame')
      ∙ ap (λ c. (receive c (record { dlc = 2; bytes = frame'.bytes })).0)
          (delivered-accepted consumer (send frame) first.1 frame (accepts frame)) in
    let test : not consumer.can_rx_new ≡ true = ap not free in
    subst
      (λ c.
        let (ret, consumer', event) = wait_event c time in
        (ret ≡ ok)
        × (event ≡ some (a, b))
        × (consumer'.can_rx_new ≡ false)
        × ((wait_event consumer' time).2 ≡ none))
      (sym both) (rw test (refl, refl, refl, refl))
