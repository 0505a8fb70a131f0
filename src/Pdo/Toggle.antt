-- ===== src/Pdo/Toggle.antt =====
-- stack/CO_PDO.c with stack/CO_SYNC.c: a synchronous RPDO, whose two buffers the SYNC object toggles.
use mathlib.Core.Path.{subst}
use canopen_node.Driver.{RxMsg}
use canopen_node.Nmt.{nmt_operational}
use canopen_node.Pdo.{Rpdo}
use canopen_node.Pdo.Copies.{places, HasBuffers, process_copies}
use canopen_node.Pdo.Memory.{IsPlace, IsDistinct, kept}
use canopen_node.Pdo.Places.{write_all, read_all}
use canopen_node.Pdo.Process.{rx_new, rx_data, clear_new, Arrival, copy_loop, is_second, process}
use canopen_node.Pdo.Receive.{message_data, receive}
use canopen_node.Sdo.{Entry}
use canopen_node.Sync.{Sync, is_running}
use canopen_node.Sync
use canopen_node.Sync.Receive.{expected_length, receive_sync}
use canopen_node.Prelude.{
  ℕ, ◌≤◌, ◌≡◌, refl, sym, ap, ap₂, ◌∙◌, Bool, true, false, not, ◌&&◌, ◌||◌, List, [], ◌∷◌, ◌==◌,
  All, arith, Bool-cases, inl, inr, take, drop,
}

-- Messages that are received one after the other.
abbrev pub receive_all : Rpdo → Bool → ℕ → List RxMsg → Rpdo
receive_all rpdo toggle state [] = rpdo
receive_all rpdo toggle state (msg ∷ msgs) =
    receive_all (receive rpdo toggle state msg) toggle state msgs

-- What messages of the other half of the toggle leave as it was.
abbrev IsKept : Bool → Rpdo → Rpdo → Type 0
IsKept second rpdo rpdo' =
    (rpdo'.valid ≡ rpdo.valid)
    × (rpdo'.data_length ≡ rpdo.data_length)
    × (rpdo'.synchronous ≡ rpdo.synchronous)
    × (places rpdo' ≡ places rpdo)
    × (rx_new rpdo' second ≡ rx_new rpdo second)
    × (rx_data rpdo' second ≡ rx_data rpdo second)
    × (HasBuffers rpdo → HasBuffers rpdo')

IsKept-trans : (s : Bool) (a b c : Rpdo) → IsKept s a b → IsKept s b c → IsKept s a c
IsKept-trans s a b c (v, l, y, p, n, d, h) (v', l', y', p', n', d', h') =
    (v' ∙ v, l' ∙ l, y' ∙ y, p' ∙ p, n' ∙ n, d' ∙ d, λ x. h' (h x))

abbrev IsStable : Rpdo → Rpdo → Type 0
IsStable rpdo rpdo' =
    (rpdo'.valid ≡ rpdo.valid)
    × (rpdo'.data_length ≡ rpdo.data_length)
    × (rpdo'.synchronous ≡ rpdo.synchronous)
    × (places rpdo' ≡ places rpdo)
    × (HasBuffers rpdo → HasBuffers rpdo')

module _ (toggle : Bool) (state : ℕ) where
  receive_stays : (rpdo : Rpdo) (msg : RxMsg) → IsStable rpdo (receive rpdo toggle state msg)
  unfolding receive
  receive_stays rpdo msg =
      (ground arith, ground arith, ground arith, ground arith, λ (l, l0, l1). ground arith)

  receive-IsKept :
      (rpdo : Rpdo) (msg : RxMsg)
      → rpdo.synchronous ≡ true
      → IsKept (not toggle) rpdo (receive rpdo toggle state msg)
  unfolding receive
  receive-IsKept rpdo msg s = (
    ground arith,
    ground arith,
    ground arith,
    ground arith,
    ground arith,
    ground arith,
    λ (l, l0, l1). ground arith,
  )

  receive_all-IsKept :
      (rpdo : Rpdo) (msgs : List RxMsg)
      → rpdo.synchronous ≡ true
      → IsKept (not toggle) rpdo (receive_all rpdo toggle state msgs)
  receive_all-IsKept rpdo [] s = (refl, refl, refl, refl, refl, refl, λ x. x)
  receive_all-IsKept rpdo (msg ∷ msgs) s =
      let k = receive-IsKept rpdo msg s in
      IsKept-trans (not toggle) rpdo (receive rpdo toggle state msg)
        (receive_all (receive rpdo toggle state msg) toggle state msgs) k
        (receive_all-IsKept (receive rpdo toggle state msg) msgs (k.2 ∙ s))

  -- What no message changes.
  receive_all_stays :
      (rpdo : Rpdo) (msgs : List RxMsg) → IsStable rpdo (receive_all rpdo toggle state msgs)
  receive_all_stays rpdo [] = (refl, refl, refl, refl, λ x. x)
  receive_all_stays rpdo (msg ∷ msgs) =
      let (v, l, s, p, h) = receive_stays rpdo msg in
      let (v', l', s', p', h') = receive_all_stays (receive rpdo toggle state msg) msgs in
      (v' ∙ v, l' ∙ l, s' ∙ s, p' ∙ p, λ x. h' (h x))

  -- A message that is accepted is the one in the buffer of its half of the toggle.
  receive_stores_message :
      (rpdo : Rpdo) (msg : RxMsg)
      → rpdo.valid ≡ true
      → rpdo.synchronous ≡ true
      → (state == nmt_operational) ≡ true
      → rpdo.data_length ≤ msg.dlc
      → let rpdo' = receive rpdo toggle state msg in
        (rx_new rpdo' toggle ≡ true)
        × (rx_data rpdo' toggle ≡ message_data msg)
        × (rpdo'.valid ≡ true)
        × (rpdo'.synchronous ≡ true)
        × (places rpdo' ≡ places rpdo)
        × (HasBuffers rpdo → HasBuffers rpdo')
  unfolding receive
  receive_stores_message rpdo msg v s op l = (
    ground arith,
    ground arith,
    ground arith,
    ground arith,
    ground arith,
    λ (h, l0, l1). ground arith,
  )

clear_new-IsKept :
    (rpdo : Rpdo) (second : Bool)
    → ((clear_new rpdo second).synchronous ≡ rpdo.synchronous)
      × (rx_data (clear_new rpdo second) second ≡ rx_data rpdo second)
clear_new-IsKept rpdo second = (ground arith, ground arith)

-- Messages that arrive while a synchronous PDO is copied go to the other buffer.
copy_loop_data :
    (toggle : Bool) (state : ℕ) (arrivals : List Arrival) (rpdo : Rpdo) (od : List Entry)
    → rpdo.synchronous ≡ true
    → rx_data (copy_loop arrivals rpdo od (not toggle) toggle state).0 (not toggle)
      ≡ rx_data rpdo (not toggle)
unfolding copy_loop
copy_loop_data toggle state [] rpdo od s = elim (Bool-cases (rx_new rpdo (not toggle))) [
  | inl new ↦ rw new ((clear_new-IsKept rpdo (not toggle)).1)
  | inr done ↦ rw done
]
copy_loop_data toggle state (a ∷ arrivals) rpdo od s =
    elim (Bool-cases (rx_new rpdo (not toggle))) [
      | inl new ↦
          let (sync_kept, data_kept) = clear_new-IsKept rpdo (not toggle) in
          let cleared = clear_new rpdo (not toggle) in
          let (v, l, y, p, n, d, h) = receive-IsKept toggle state cleared a.msg (sync_kept ∙ s) in
          let next = receive cleared toggle state a.msg in
          let ps = places rpdo in
          let od1 = write_all od (take a.behind ps) (rx_data rpdo (not toggle)) in
          let od2 = write_all od1 (drop a.behind ps) (drop a.behind (rx_data next (not toggle))) in
          rw new (copy_loop_data toggle state arrivals next od2 (y ∙ sync_kept ∙ s) ∙ d ∙ data_kept)
      | inr done ↦ rw done
    ]

process_data :
    (rpdo : Rpdo) (od : List Entry) (toggle : Bool) (state : ℕ) (arrivals : List Arrival)
    → rpdo.valid ≡ true
    → rpdo.synchronous ≡ true
    → (state == nmt_operational) ≡ true
    → rx_data (process rpdo od toggle state true arrivals).0 (not toggle)
      ≡ rx_data rpdo (not toggle)
unfolding process
process_data rpdo od toggle state arrivals v s op =
    let off : (not rpdo.valid || not (state == nmt_operational)) ≡ false = ground arith in
    let due : (not rpdo.synchronous || true) ≡ true = ground arith in
    let second : is_second rpdo toggle ≡ not toggle = ap (λ b. b && not toggle) s in
    rw (off, due, second) (copy_loop_data toggle state arrivals rpdo od s)

-- The message of the buffer that the toggle has left is copied, whatever comes behind it.
copies_behind :
    (rpdo : Rpdo) (od : List Entry) (second toggle : Bool) (state : ℕ) (later : List RxMsg)
    (arrivals : List Arrival)
    → second ≡ not toggle
    → rpdo.valid ≡ true
    → rpdo.synchronous ≡ true
    → (state == nmt_operational) ≡ true
    → rx_new rpdo second ≡ true
    → HasBuffers rpdo
    → All (IsPlace od) (places rpdo)
    → IsDistinct (places rpdo)
    → read_all
        (process (receive_all rpdo toggle state later) od toggle state true arrivals).1
        (places rpdo)
      ≡ kept (places rpdo) (rx_data rpdo second)
copies_behind rpdo od second toggle state later arrivals e v s op new room inside d =
    let rpdo' = receive_all rpdo toggle state later in
    let (v', l', s', p', n', d', h') = receive_all-IsKept toggle state rpdo later s in
    let buffer : is_second rpdo' toggle ≡ not toggle = ap (λ b. b && not toggle) (s' ∙ s) in
    let new' : rx_new rpdo' (is_second rpdo' toggle) ≡ true =
      ap (rx_new rpdo') buffer ∙ n' ∙ ap (rx_new rpdo) (sym e) ∙ new in
    let due : (not rpdo'.synchronous || true) ≡ true = ground arith in
    let copied =
      (process_copies rpdo' od toggle state true arrivals (v' ∙ v) op due new' (h' room)
        (subst (λ qs. All (IsPlace od) qs) (sym p') inside) (subst IsDistinct (sym p') d)).1 in
    let final = (process rpdo' od toggle state true arrivals).0 in
    let od' = (process rpdo' od toggle state true arrivals).1 in
    ap (read_all od') (sym p')
    ∙ copied
    ∙ ap₂ kept p' (
        ap (rx_data final) buffer
        ∙ process_data rpdo' od toggle state arrivals (v' ∙ v) (s' ∙ s) op
        ∙ d'
        ∙ ap (rx_data rpdo) (sym e))

-- A valid synchronous RPDO of an operational node, for different bytes of the dictionary: of the
-- messages before a SYNC of the expected length the last one, if it is long enough, is what
-- `CO_RPDO_process` copies behind that SYNC, whatever messages come behind the SYNC, before the
-- processing or while it copies.
pub process-receive_sync :
    (rpdo : Rpdo) (sync : Sync) (od : List Entry) (state : ℕ) (earlier later : List RxMsg)
    (msg sync_msg : RxMsg) (arrivals : List Arrival)
    → rpdo.valid ≡ true
    → rpdo.synchronous ≡ true
    → state ≡ nmt_operational
    → rpdo.data_length ≤ msg.dlc
    → sync_msg.dlc ≡ expected_length sync
    → HasBuffers rpdo
    → All (IsPlace od) (places rpdo)
    → IsDistinct (places rpdo)
    → let rpdo1 = receive_all rpdo sync.can_rx_toggle state earlier in
      let rpdo2 = receive rpdo1 sync.can_rx_toggle state msg in
      let sync' = Sync.receive sync state sync_msg in
      let rpdo3 = receive_all rpdo2 sync'.can_rx_toggle state later in
      let (rpdo4, od') = process rpdo3 od sync'.can_rx_toggle state true arrivals in
      read_all od' (places rpdo) ≡ kept (places rpdo) (message_data msg)
process-receive_sync rpdo sync od state earlier later msg sync_msg arrivals v s e l el room inside
      d =
    let t = sync.can_rx_toggle in
    let op : (state == nmt_operational) ≡ true = ground arith in
    let running : is_running state ≡ true = ground arith in
    let rpdo1 = receive_all rpdo t state earlier in
    let rpdo2 = receive rpdo1 t state msg in
    let toggled = ap (λ x. x.can_rx_toggle) (receive_sync sync state sync_msg running el) in
    let (v1, l1, s1, p1, h1) = receive_all_stays t state rpdo earlier in
    let (n2, d2, v2, s2, p2, h2) =
      receive_stores_message t state rpdo1 msg (v1 ∙ v) (s1 ∙ s) op (omega arith) in
    let opposite : t ≡ not (Sync.receive sync state sync_msg).can_rx_toggle = ground arith in
    let ps = p2 ∙ p1 in
    subst
      (λ qs.
        read_all
          (process (receive_all rpdo2 (Sync.receive sync state sync_msg).can_rx_toggle state later)
            od (Sync.receive sync state sync_msg).can_rx_toggle state true arrivals).1
          qs
        ≡ kept qs (message_data msg))
      ps
      (copies_behind rpdo2 od t (Sync.receive sync state sync_msg).can_rx_toggle state later
          arrivals opposite v2 s2 op n2 (h2 (h1 room))
          (subst (λ qs. All (IsPlace od) qs) (sym ps) inside) (subst IsDistinct (sym ps) d)
        ∙ ap (kept (places rpdo2)) d2)
