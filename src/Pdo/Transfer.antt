-- ===== src/Pdo/Transfer.antt =====
-- stack/CO_PDO.c: the bytes of the dictionary of one node are sent to that of another.
use mathlib.Core.Path.{subst}
use canopen_node.Driver.{RxMsg, TxBuffer}
use canopen_node.Nmt.{nmt_operational}
use canopen_node.Pdo.{Rpdo, Tpdo, Place, dummy, od_byte}
use canopen_node.Pdo.Copies.{places, HasBuffers, length-places, process_copies}
use canopen_node.Pdo.Memory.{IsPlace, IsDistinct, kept}
use canopen_node.Pdo.Places.{read_all}
use canopen_node.Pdo.Process.{rx_new, rx_data, is_second, copy_loop, process}
use canopen_node.Pdo.Receive.{message_data, receive}
use canopen_node.Pdo.Transmit.{send}
use canopen_node.Sdo.{Entry}
use canopen_node.Sdo.Buffer.{length-overwrite, take-overwrite}
use canopen_node.Prelude.{
  ℕ, zero, suc, ◌≤◌, ◌≡◌, refl, sym, ap, ◌∙◌, Bool, true, false, not, ◌&&◌, ◌||◌, List, [], ◌∷◌,
  leb, ◌==◌, length, take, All, arith,
}

-- The message that a driver receives of a buffer that another sends.
abbrev pub transmitted : TxBuffer → RxMsg
transmitted buffer = record { dlc = buffer.dlc; bytes = buffer.bytes }

-- Eight bytes are the data of their message.
message_data_all :
    (msg : RxMsg) (bytes : List ℕ) → msg.bytes ≡ bytes → length bytes ≡ 8 → message_data msg ≡ bytes
message_data_all msg (a ∷ b ∷ c ∷ d ∷ e ∷ f ∷ g ∷ h ∷ []) eq l = rw eq refl
message_data_all msg [] eq l = absurd (omega arith)
message_data_all msg (a ∷ []) eq l = absurd (omega arith)
message_data_all msg (a ∷ b ∷ []) eq l = absurd (omega arith)
message_data_all msg (a ∷ b ∷ c ∷ []) eq l = absurd (omega arith)
message_data_all msg (a ∷ b ∷ c ∷ d ∷ []) eq l = absurd (omega arith)
message_data_all msg (a ∷ b ∷ c ∷ d ∷ e ∷ []) eq l = absurd (omega arith)
message_data_all msg (a ∷ b ∷ c ∷ d ∷ e ∷ f ∷ []) eq l = absurd (omega arith)
message_data_all msg (a ∷ b ∷ c ∷ d ∷ e ∷ f ∷ g ∷ []) eq l = absurd (omega arith)
message_data_all msg (a ∷ b ∷ c ∷ d ∷ e ∷ f ∷ g ∷ h ∷ i ∷ bytes) eq l = absurd (omega arith)

-- No byte behind those for the places is used.
kept-take :
    (ps : List Place) (bytes : List ℕ) (n : ℕ)
    → length ps ≤ n
    → kept ps (take n bytes) ≡ kept ps bytes
kept-take [] bytes n l = refl
kept-take (p ∷ ps) bytes zero l = absurd (omega arith)
kept-take (p ∷ ps) [] (suc n) l = refl
kept-take (dummy ∷ ps) (b ∷ bytes) (suc n) l = ap (λ t. 0 ∷ t) (kept-take ps bytes n (omega arith))
kept-take (od_byte e p k ∷ ps) (b ∷ bytes) (suc n) l =
    ap (λ t. b ∷ t) (kept-take ps bytes n (omega arith))

length-read_all : (od : List Entry) (ps : List Place) → length (read_all od ps) ≡ length ps
length-read_all od [] = refl
length-read_all od (p ∷ ps) = ap suc (length-read_all od ps)

length-take_all : (n : ℕ) (ps : List Place) → n ≤ length ps → length (take n ps) ≡ n
length-take_all zero ps h = refl
length-take_all (suc n) [] h = absurd (omega arith)
length-take_all (suc n) (p ∷ ps) h = ap suc (length-take_all n ps (omega arith))

-- An asynchronous RPDO has accepted a message.
received :
    (rpdo : Rpdo) (toggle : Bool) (state : ℕ) (msg : RxMsg)
    → rpdo.valid ≡ true
    → rpdo.synchronous ≡ false
    → (state == nmt_operational) ≡ true
    → rpdo.data_length ≤ msg.dlc
    → receive rpdo toggle state msg
      ≡ (record rpdo { can_rx_data_0 = message_data msg; can_rx_new_0 = true })
unfolding receive
received rpdo toggle state msg v s op l =
    let accepted : (rpdo.valid && ((state == nmt_operational) && leb rpdo.data_length msg.dlc))
        ≡ true =
      ground arith in
    let first : (rpdo.synchronous && toggle) ≡ false = ground arith in rw (accepted, first)

-- Without another message the data stays in its buffer.
undisturbed_data :
    (rpdo : Rpdo) (od : List Entry) (toggle : Bool) (state : ℕ) (sync_was second : Bool)
    → rx_data (process rpdo od toggle state sync_was []).0 second ≡ rx_data rpdo second
unfolding process copy_loop
undisturbed_data rpdo od toggle state sync_was second = ground arith

-- The first bytes of the frame are those of the dictionary.
sent_bytes :
    (tpdo : Tpdo) (od : List Entry) (n : ℕ)
    → length tpdo.can_tx_buff.bytes ≡ 8
    → length tpdo.map_pointer ≡ 8
    → tpdo.data_length ≤ 8
    → n ≡ tpdo.data_length
    → take n (send tpdo od).1.bytes ≡ read_all od (take tpdo.data_length tpdo.map_pointer)
unfolding send
sent_bytes tpdo od n eight pointers short e =
    let ps = take tpdo.data_length tpdo.map_pointer in
    let long =
      length-read_all od ps ∙ length-take_all tpdo.data_length tpdo.map_pointer (omega arith) in
    take-overwrite tpdo.can_tx_buff.bytes 0 n (read_all od ps) (omega arith) (omega arith)

frame_length :
    (tpdo : Tpdo) (od : List Entry)
    → length tpdo.can_tx_buff.bytes ≡ 8
    → length (send tpdo od).1.bytes ≡ 8
unfolding send
frame_length tpdo od eight =
    length-overwrite tpdo.can_tx_buff.bytes 0 (read_all od (take tpdo.data_length tpdo.map_pointer))
    ∙ eight

frame_dlc : (tpdo : Tpdo) (od : List Entry) → (send tpdo od).1.dlc ≡ tpdo.can_tx_buff.dlc
unfolding send
frame_dlc tpdo od = refl

-- `CO_TPDOsend` of one node, with a buffer that is configured for the length of the PDO, whose frame an
-- asynchronous valid RPDO of the same length of another operational node receives and processes: the
-- mapped bytes of that node's dictionary, if they are different ones, are then those of the sender's
-- dictionary, in their order. Dummy entries keep nothing.
pub process-send :
    (tpdo : Tpdo) (od : List Entry) (rpdo : Rpdo) (od' : List Entry) (toggle : Bool) (state : ℕ)
    (sync_was : Bool)
    → length tpdo.can_tx_buff.bytes ≡ 8
    → length tpdo.map_pointer ≡ 8
    → tpdo.can_tx_buff.dlc ≡ tpdo.data_length
    → tpdo.data_length ≡ rpdo.data_length
    → rpdo.valid ≡ true
    → rpdo.synchronous ≡ false
    → (state == nmt_operational) ≡ true
    → HasBuffers rpdo
    → All (IsPlace od') (places rpdo)
    → IsDistinct (places rpdo)
    → let frame = (send tpdo od).1 in
      let rpdo' = receive rpdo toggle state (transmitted frame) in
      read_all (process rpdo' od' toggle state sync_was []).1 (places rpdo)
      ≡ kept (places rpdo) (read_all od (take tpdo.data_length tpdo.map_pointer))
process-send tpdo od rpdo od' toggle state sync_was eight pointers dlc same v s op room inside d =
    let (short, l0, l1) = room in
    let frame = (send tpdo od).1 in
    let msg = transmitted frame in
    let full = frame_length tpdo od eight in
    let len = frame_dlc tpdo od in
    let bytes = message_data_all msg frame.bytes refl full in
    let rpdo' : Rpdo = record rpdo { can_rx_data_0 = message_data msg; can_rx_new_0 = true } in
    let due : (not rpdo'.synchronous || sync_was) ≡ true = ground arith in
    let first : is_second rpdo' toggle ≡ false = ap (λ b. b && not toggle) s in
    let new : rx_new rpdo' (is_second rpdo' toggle) ≡ true = ap (rx_new rpdo') first in
    let copied =
      (process_copies rpdo' od' toggle state sync_was [] v op due new (short, refl, l1) inside
        d).1 in
    let stored : rx_data (process rpdo' od' toggle state sync_was []).0 (is_second rpdo' toggle)
        ≡ frame.bytes =
      undisturbed_data rpdo' od' toggle state sync_was (is_second rpdo' toggle)
      ∙ ap (rx_data rpdo') first
      ∙ bytes in
    let enough = length-places rpdo.data_length rpdo.map_pointer in
    subst
      (λ r.
        read_all (process r od' toggle state sync_was []).1 (places rpdo)
        ≡ kept (places rpdo) (read_all od (take tpdo.data_length tpdo.map_pointer)))
      (sym (received rpdo toggle state msg v s op (omega arith)))
      (copied
        ∙ ap (kept (places rpdo)) stored
        ∙ sym (kept-take (places rpdo) frame.bytes rpdo.data_length enough)
        ∙ ap (kept (places rpdo))
            (sent_bytes tpdo od rpdo.data_length eight pointers (omega arith) (sym same)))
