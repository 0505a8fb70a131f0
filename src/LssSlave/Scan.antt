-- ===== src/LssSlave/Scan.antt =====
-- stack/CO_LSSslave.c: the fastscan finds a slave by its address, bit by bit.
use canopen_node.Driver.{RxMsg}
use canopen_node.Lss.{
  Address, address_at, waiting, configuration, ident_slave, ident_fastscan, node_id_assignment,
  no_address, fastscan_confirm,
}
use canopen_node.LssSlave.{Slave, silently, confirm}
use canopen_node.LssSlave.Fastscan.{fastscan_part, fastscan, service_ident}
use canopen_node.LssSlave.Mask.{mask_of_lem}
use canopen_node.LssSlave.Receive.{receive}
use native.Mathlib.Nat.{div-one}
use canopen_node.Prelude.{
  ℕ, suc, ◌/◌, ◌^◌, ◌<◌, ◌≤◌, ◌≡◌, ◌↔◌, refl, Bool, true, ◌&&◌, ◌==◌, ltb, if◌then◌else◌, [], ◌∷◌,
  ◌++◌, le32, arith, of_le32-le32,
}

-- A fastscan message: the four bytes of the number, the lowest bit that is compared, the part of
-- the address, and the next part.
abbrev pub scan_message : ℕ → ℕ → ℕ → ℕ → RxMsg
scan_message id bit sub next = record {
  dlc = 8;
  bytes = ident_fastscan ∷ le32 id ++ (bit ∷ sub ∷ next ∷ []);
}

-- The numbers of an address are words of 32 bits.
pub record IsWords (a : Address) : Type 0 where
  pub vendor : a.vendor_id < 2 ^ 32
  pub product : a.product_code < 2 ^ 32
  pub revision : a.revision_number < 2 ^ 32
  pub serial : a.serial_number < 2 ^ 32

-- A slave without a node-ID, which waits.
pub record IsUnconfigured (slave : Slave) : Type 0 where
  pub state : slave.lss_state ≡ waiting
  pub pending : slave.pending_node_id ≡ node_id_assignment
  pub active : slave.active_node_id ≡ node_id_assignment
  pub address : IsWords slave.lss_address

address_at-lt : (a : Address) (i : ℕ) → IsWords a → i ≤ 3 → address_at a i < 2 ^ 32
address_at-lt a i w h = ground arith

receive_part :
    (slave : Slave) (id bit sub next : ℕ)
    → IsUnconfigured slave
    → id < 2 ^ 32
    → bit < 32
    → sub ≤ 3
    → next ≤ 3
    → receive slave (scan_message id bit sub next) ≡ fastscan_part slave id bit sub next
unfolding receive service_ident fastscan
receive_part slave id bit sub next u h hb hs hn =
    rw (u.state, u.pending, u.active, of_le32-le32 id h) (ground arith)

-- A waiting slave without a node-ID, with words of 32 bits in its address, confirms a request of
-- the fastscan for one of the four parts, with a bit below 32 and a word of 32 bits, exactly if the
-- request is for the part at which its scan stands, and the number agrees with this part of its
-- address in all bits from the given one on. It then goes on to the next part that the request
-- names, and enters the configuration state if bit 0 has been compared and the next part stands
-- before this one.
pub receive_scans :
    (slave : Slave) (id bit sub next : ℕ)
    → IsUnconfigured slave
    → id < 2 ^ 32
    → bit < 32
    → sub ≤ 3
    → next ≤ 3
    → let agree =
        (slave.fastscan_pos == sub)
        && (address_at slave.lss_address sub / 2 ^ bit == id / 2 ^ bit) in
      let state = if (bit == 0) && ltb next sub then configuration else waiting in
      receive slave (scan_message id bit sub next) ≡ (
        if agree
        then confirm (record slave { fastscan_pos = next; lss_state = state }) ident_slave 0
        else silently slave)
unfolding fastscan_part
receive_scans slave id bit sub next u h hb hs hn =
    rw
      (
        receive_part slave id bit sub next u h hb hs hn,
        mask_of_lem bit (address_at slave.lss_address sub) id hb
            (address_at-lt slave.lss_address sub u.address hs) h,
        u.state,
      )
      refl

-- The request to confirm starts the scan again, and each slave without a node-ID answers it.
pub receive_confirms :
    (slave : Slave)
    → IsUnconfigured slave
    → receive slave (scan_message 0 fastscan_confirm 0 0)
      ≡ confirm (record slave { fastscan_pos = 0; lss_fastscan = no_address }) ident_slave 0
unfolding receive service_ident fastscan
receive_confirms slave u = rw (u.state, u.pending, u.active) refl

-- The slave while a master goes through the parts of an address, each compared in all its bits:
-- `ok` says whether all parts before part `k` have been those of the slave.
record Progress (slave : Slave) (k : ℕ) (ok : Bool) (s : Slave) : Type 0 where
  unconfigured : IsUnconfigured s
  address : s.lss_address ≡ slave.lss_address
  position : (s.fastscan_pos == k) ≡ ok
  bound : s.fastscan_pos ≤ k

abbrev matches : Slave → ℕ → ℕ → Bool
matches slave k id = address_at slave.lss_address k == id

module _ (slave s : Slave) (k id : ℕ) (ok : Bool) (h : Progress slave k ok s)
    (w : id < 2 ^ 32) where
  step_lem :
      (next : ℕ)
      → k ≤ 3
      → next ≤ 3
      → receive s (scan_message id 0 k next) ≡ (
          if ok && matches slave k id
          then confirm
              (record s {
                fastscan_pos = next;
                lss_state = if ltb next k then configuration else waiting;
              })
              ident_slave
              0
          else silently s)
  step_lem next l m =
      rw
        (
          receive_scans s id 0 k next h.unconfigured w (omega arith) l m,
          h.position,
          h.address,
          div-one (address_at slave.lss_address k),
          div-one id,
        )
        refl

  step-Progress :
      k < 3
      → Progress slave
          (suc k)
          (ok && matches slave k id)
          (receive s (scan_message id 0 k (suc k))).slave
  step-Progress l = rw (step_lem (suc k) (omega arith) (omega arith)) (ground arith)

confirm-Progress :
    (slave : Slave)
    → IsUnconfigured slave
    → Progress slave 0 true (receive slave (scan_message 0 fastscan_confirm 0 0)).slave
confirm-Progress slave u = rw (receive_confirms slave u) (ground arith)

equal_addresses :
    (slave : Slave) (a : Address) (s : Slave)
    → s.lss_state ≡ waiting
    → let ok =
        ((((true && matches slave 0 a.vendor_id) && matches slave 1 a.product_code)
            && matches slave 2 a.revision_number)
          && matches slave 3 a.serial_number) in
      (((if ok
          then confirm
              (record s {
                fastscan_pos = 0;
                lss_state = if ltb 0 3 then configuration else waiting;
              })
              ident_slave
              0
          else silently s).slave.lss_state)
        ≡ configuration)
      ↔ (a ≡ slave.lss_address)
equal_addresses slave a s h = ground arith

-- A master that confirms, and then asks for the four parts of an address in their order, each a
-- word of 32 bits and compared as a whole, brings a waiting slave without a node-ID into the
-- configuration state exactly if it is the slave's address.
pub receive_finds :
    (slave : Slave) (a : Address)
    → IsUnconfigured slave
    → IsWords a
    → let r0 = receive slave (scan_message 0 fastscan_confirm 0 0) in
      let r1 = receive r0.slave (scan_message a.vendor_id 0 0 1) in
      let r2 = receive r1.slave (scan_message a.product_code 0 1 2) in
      let r3 = receive r2.slave (scan_message a.revision_number 0 2 3) in
      let r4 = receive r3.slave (scan_message a.serial_number 0 3 0) in
      (r4.slave.lss_state ≡ configuration) ↔ (a ≡ slave.lss_address)
receive_finds slave a u w =
    let r0 = receive slave (scan_message 0 fastscan_confirm 0 0) in
    let r1 = receive r0.slave (scan_message a.vendor_id 0 0 1) in
    let r2 = receive r1.slave (scan_message a.product_code 0 1 2) in
    let r3 = receive r2.slave (scan_message a.revision_number 0 2 3) in
    let p0 = confirm-Progress slave u in
    let p1 = step-Progress slave r0.slave 0 a.vendor_id true p0 w.vendor (omega arith) in
    let p2 = step-Progress slave r1.slave 1 a.product_code _ p1 w.product (omega arith) in
    let p3 = step-Progress slave r2.slave 2 a.revision_number _ p2 w.revision (omega arith) in
    let last =
      step_lem slave r3.slave 3 a.serial_number _ p3 w.serial 0 (omega arith) (omega arith) in
    rw last (equal_addresses slave a r3.slave p3.unconfigured.state)
