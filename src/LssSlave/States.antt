-- ===== src/LssSlave/States.antt =====
-- stack/CO_LSSslave.c: what the messages of each service change, and when.
use canopen_node.Driver.{RxMsg, data_at, TxBuffer, error_illegal_argument}
use canopen_node.Lss.{
  Address, address_at, waiting, configuration, is_node_id_valid, switch_state_sel_vendor,
  switch_state_sel_product, switch_state_sel_rev, switch_state_sel_serial, inquire_vendor,
  is_inquire, is_switch_global, is_switch_state_selective, is_config, is_ident, cfg_node_id,
  cfg_store, inquire_node_id,
}
use canopen_node.LssSlave.{Slave, Served, silently, init, process}
use canopen_node.LssSlave.Services.{
  service_switch_state_global, service_switch_state_selective, service_config, service_inquire,
  config_node_id, config_bit_timing, config_activate_bit_timing, config_store,
}
use canopen_node.LssSlave.Fastscan.{fastscan_part, fastscan, service_ident}
use canopen_node.LssSlave.Receive.{receive}
use canopen_node.Prelude.{
  ℕ, ◌-◌, ◌%◌, ◌<◌, ◌≤◌, ◌≡◌, ◌≢◌, ◌⊎◌, ◌↔◌, Bool, true, ◌==◌, if◌then◌else◌, if_intro, none, some,
  [], ◌∷◌, ◌++◌, le32, replicate, arith, of_le32-le32,
}

-- The node-ID that waits to become active is one of a node, or 255 for none, and the fastscan
-- stands at one of the four parts of the address.
pub record IsValid (slave : Slave) : Type 0 where
  pub node_id : is_node_id_valid slave.pending_node_id ≡ true
  pub position : slave.fastscan_pos ≤ 3

-- A property of the outcome holds of a received message if it holds of each service.
receive_intro :
    (P : Served → Type 0) (slave : Slave) (msg : RxMsg)
    → let cs = data_at msg 0 in
      P (silently slave)
      → P (service_switch_state_global slave msg)
      → P (service_switch_state_selective slave cs msg)
      → P (service_config slave cs msg)
      → P (service_inquire slave cs)
      → P (service_ident slave cs msg)
      → P (receive slave msg)
unfolding receive
receive_intro P slave msg p0 p1 p2 p3 p4 p5 =
    let cs = data_at msg 0 in
    if_intro P (msg.dlc == 8)
      (if_intro P (is_switch_global cs) p1 (
        if_intro P (is_switch_state_selective cs) p2 (
          if_intro P (is_config cs) p3
            (if_intro P (is_inquire cs) p4 (if_intro P (is_ident cs) p5 p0)))))
      p0

-- `CO_LSSslave_init` gives a valid slave, or it refuses its arguments and changes nothing.
pub init-IsValid :
    (pointers : Bool) (slave0 : Slave) (tx0 : TxBuffer) (address : Address)
    (bit_rate node_id rx_idx master_id slave_id : ℕ)
    → let (err, slave, buffers) =
        init pointers slave0 tx0 address bit_rate node_id rx_idx master_id slave_id in
      (IsValid slave
        × (slave.lss_state ≡ waiting)
        × (address.vendor_id ≢ 0)
        × (address.serial_number ≢ 0))
      ⊎ ((err ≡ error_illegal_argument) × (slave ≡ slave0) × (buffers ≡ none))
unfolding init
init-IsValid pointers slave0 tx0 address bit_rate node_id rx_idx master_id slave_id = ground arith

module _ (slave : Slave) (msg : RxMsg) (v : IsValid slave) where
  abbrev cs : ℕ
  cs = data_at msg 0

  global-IsValid : IsValid (service_switch_state_global slave msg).slave
  unfolding service_switch_state_global
  global-IsValid = ground arith

  selective-IsValid : IsValid (service_switch_state_selective slave cs msg).slave
  unfolding service_switch_state_selective
  selective-IsValid = ground arith

  config-IsValid : IsValid (service_config slave cs msg).slave
  unfolding service_config config_node_id config_bit_timing config_activate_bit_timing config_store
  config-IsValid = ground arith

  inquire-IsValid : IsValid (service_inquire slave cs).slave
  unfolding service_inquire
  inquire-IsValid = ground arith

  ident-IsValid : IsValid (service_ident slave cs msg).slave
  unfolding service_ident fastscan fastscan_part
  ident-IsValid = ground arith

-- Each message leaves the slave valid.
pub receive_keeps_IsValid :
    (slave : Slave) (msg : RxMsg) → IsValid slave → IsValid (receive slave msg).slave
receive_keeps_IsValid slave msg v =
    receive_intro (λ r. IsValid r.slave) slave msg v (global-IsValid slave msg v)
      (selective-IsValid slave msg v) (config-IsValid slave msg v) (inquire-IsValid slave msg v)
      (ident-IsValid slave msg v)

-- Nothing that the node is configured with is changed or handed to the application.
pub record IsLocked (slave : Slave) (r : Served) : Type 0 where
  pub address : r.slave.lss_address ≡ slave.lss_address
  pub active_node_id : r.slave.active_node_id ≡ slave.active_node_id
  pub pending_node_id : r.slave.pending_node_id ≡ slave.pending_node_id
  pub pending_bit_rate : r.slave.pending_bit_rate ≡ slave.pending_bit_rate
  pub checked : r.checked ≡ none
  pub activated : r.activated ≡ none
  pub stored : r.stored ≡ none

module _ (slave : Slave) (msg : RxMsg) (w : slave.lss_state ≡ waiting) where
  abbrev code : ℕ
  code = data_at msg 0

  global-IsLocked : IsLocked slave (service_switch_state_global slave msg)
  unfolding service_switch_state_global
  global-IsLocked = ground arith

  selective-IsLocked : IsLocked slave (service_switch_state_selective slave code msg)
  unfolding service_switch_state_selective
  selective-IsLocked = ground arith

  config-IsLocked : IsLocked slave (service_config slave code msg)
  unfolding service_config config_node_id config_bit_timing config_activate_bit_timing config_store
  config-IsLocked = ground arith

  inquire-IsLocked : IsLocked slave (service_inquire slave code)
  unfolding service_inquire
  inquire-IsLocked = ground arith

  ident-IsLocked : IsLocked slave (service_ident slave code msg)
  unfolding service_ident fastscan fastscan_part
  ident-IsLocked = ground arith

-- While the slave waits, no message changes its address, its active node-ID, its pending node-ID or
-- bit rate, and none makes it call one of the callbacks of the application.
pub receive-IsLocked :
    (slave : Slave) (msg : RxMsg) → slave.lss_state ≡ waiting → IsLocked slave (receive slave msg)
receive-IsLocked slave msg w =
    receive_intro (IsLocked slave) slave msg (ground arith) (global-IsLocked slave msg w)
      (selective-IsLocked slave msg w) (config-IsLocked slave msg w) (inquire-IsLocked slave msg w)
      (ident-IsLocked slave msg w)

-- A message of a service: the command specifier, four bytes of a value, and three more.
abbrev pub message : ℕ → ℕ → ℕ → ℕ → ℕ → RxMsg
message cs value a b c = record { dlc = 8; bytes = cs ∷ le32 value ++ (a ∷ b ∷ c ∷ []) }

-- Whatever the slave has received before, a waiting slave that gets the four parts of an address,
-- all words of 32 bits, one after the other enters the configuration state exactly if it is its own
-- address. It confirms the last part exactly then, and it answers none of the others.
pub receive_selects :
    (slave : Slave) (a : Address)
    → slave.lss_state ≡ waiting
    → a.vendor_id < 4294967296
    → a.product_code < 4294967296
    → a.revision_number < 4294967296
    → a.serial_number < 4294967296
    → let r1 = receive slave (message switch_state_sel_vendor a.vendor_id 0 0 0) in
      let r2 = receive r1.slave (message switch_state_sel_product a.product_code 0 0 0) in
      let r3 = receive r2.slave (message switch_state_sel_rev a.revision_number 0 0 0) in
      let r4 = receive r3.slave (message switch_state_sel_serial a.serial_number 0 0 0) in
      ((r4.slave.lss_state ≡ configuration) ↔ (a ≡ slave.lss_address))
      × (r1.sent ≡ none)
      × (r2.sent ≡ none)
      × (r3.sent ≡ none)
      × ((r4.sent ≡ none) ↔ (r4.slave.lss_state ≡ waiting))
unfolding receive service_switch_state_selective
receive_selects slave a w h1 h2 h3 h4 =
    rw
      (
        w,
        of_le32-le32 a.vendor_id h1,
        of_le32-le32 a.product_code h2,
        of_le32-le32 a.revision_number h3,
        of_le32-le32 a.serial_number h4,
      )
      (ground arith)

-- A slave in the configuration state answers a request for a part of its address or its node-ID
-- with the number as four bytes, lowest first, and stays as it is.
pub receive_inquires :
    (slave : Slave) (cs value a b c : ℕ)
    → slave.lss_state ≡ configuration
    → is_inquire cs ≡ true
    → receive slave (message cs value a b c) ≡ (record (silently slave) {
      sent = some (
          cs
            ∷ le32 (
                if cs == inquire_node_id
                then slave.active_node_id
                else address_at slave.lss_address (cs - inquire_vendor))
          ++ (0 ∷ 0 ∷ 0 ∷ []));
    })
unfolding receive service_inquire
receive_inquires slave cs value a b c w i = ground arith

-- In the configuration state of a slave with a callback for storing, a node-ID is confirmed and
-- becomes the pending one exactly if it is valid; a request to store then hands the pending node-ID
-- and bit rate to the application, and its answer is confirmed.
pub receive_stores :
    (slave : Slave) (nid : ℕ) (store : ℕ → ℕ → Bool)
    → slave.lss_state ≡ configuration
    → slave.cfg_store_callback ≡ some store
    → nid < 256
    → let r1 = receive slave (message cfg_node_id nid 0 0 0) in
      let r2 = receive r1.slave (message cfg_store 0 0 0 0) in
      let valid = is_node_id_valid nid in
      let id = if valid then nid else slave.pending_node_id in
      (r1.sent ≡ some (cfg_node_id ∷ (if valid then 0 else 1) ∷ replicate 6 0))
      × ((process r1.slave slave.active_node_id).2 ≡ id)
      × (r2.stored ≡ some (id, slave.pending_bit_rate))
      × (r2.sent
          ≡ some (cfg_store ∷ (if store id slave.pending_bit_rate then 0 else 2) ∷ replicate 6 0))
unfolding receive service_config config_node_id config_store process
receive_stores slave nid store c s h = rw (c, s, small nid h) (ground arith)
  where
    small : (n : ℕ) → n < 256 → n % 256 ≡ n
    small n l = omega arith
