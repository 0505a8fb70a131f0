-- ===== src/Pdo/Reach.antt =====
-- stack/CO_PDO.c: every state of an RPDO that its functions bring about, in any order.
use canopen_node.Driver.{AbortCode, OdfArg, ReturnError, RxMsg}
use canopen_node.Emergency.{Em}
use canopen_node.Emergency.Od.{get_uint32}
use canopen_node.Nmt.{nmt_operational}
use canopen_node.Pdo.{Rpdo, RpdoCommPar, PdoMapPar}
use canopen_node.Pdo.Com.{rpdo_config_com}
use canopen_node.Pdo.Configured.{rpdo_config_map_short}
use canopen_node.Pdo.Init.{Numbers, registered, prepared_rpdo, rpdo_init}
use canopen_node.Pdo.Map.{rpdo_config_map}
use canopen_node.Pdo.Od.{
  stored_cob_id, has_high_bits, is_changed, is_restricted, write_rpdo_cob_id, write_rpdo_type,
  odf_rpdo_com, odf_rpdo_map,
}
use canopen_node.Pdo.Process.{Arrival, rx_new, clear_new, copy_loop, is_second, process}
use canopen_node.Pdo.Receive.{receive}
use canopen_node.Sdo.{Sdo, Entry, OdFunction}
use canopen_node.Prelude.{
  ℕ, ◌≤◌, ◌<◌, ◌≡◌, refl, Bool, true, false, not, ◌==◌, ◌/=◌, ltb, if◌then◌else◌, ◌&&◌, ◌||◌, List,
  [], ◌∷◌, length, get_or, arith, if_intro,
}

-- The arrays have their sizes, a valid RPDO has a mapping of 1 to 8 bytes, and only a valid RPDO has a
-- message that waits.
pub record IsSound (rpdo : Rpdo) : Type 0 where
  pub pointers : length rpdo.map_pointer ≡ 8
  pub data_0 : length rpdo.can_rx_data_0 ≡ 8
  pub data_1 : length rpdo.can_rx_data_1 ≡ 8
  pub short : rpdo.data_length ≤ 8
  pub mapped : rpdo.valid ≡ true → 0 < rpdo.data_length
  pub pending : (rpdo.can_rx_new_0 || rpdo.can_rx_new_1) ≡ true → rpdo.valid ≡ true

receive-IsSound :
    (rpdo : Rpdo) (toggle : Bool) (state : ℕ) (msg : RxMsg)
    → IsSound rpdo
    → IsSound (receive rpdo toggle state msg)
unfolding receive
receive-IsSound rpdo toggle state msg s = record {
  pointers = ground (arith, s.pointers);
  data_0 = ground (arith, s.data_0);
  data_1 = ground (arith, s.data_1);
  short = ground (arith, s.short);
  mapped = let m = s.mapped in λ v. ground arith;
  pending = let p = s.pending in λ n. ground arith;
}

-- What the initialisation needs, and every other step.
abbrev HasArrays : Rpdo → Type 0
HasArrays rpdo =
    (length rpdo.map_pointer ≡ 8)
    × (length rpdo.can_rx_data_0 ≡ 8)
    × (length rpdo.can_rx_data_1 ≡ 8)
    × (rpdo.data_length ≤ 8)

config_com-IsSound :
    (rpdo : Rpdo) (par : RpdoCommPar) (cob_id : ℕ) (r : ReturnError)
    → HasArrays rpdo
    → IsSound (rpdo_config_com rpdo par cob_id r).0
unfolding rpdo_config_com
config_com-IsSound rpdo par cob_id r (pointers, l0, l1, short) = record {
  pointers = ground arith;
  data_0 = ground arith;
  data_1 = ground arith;
  short = ground arith;
  mapped = λ v. ground arith;
  pending = λ n. ground arith;
}

write_type-IsSound :
    (rpdo : Rpdo) (value : ℕ) → IsSound rpdo → IsSound (write_rpdo_type rpdo value).1
unfolding write_rpdo_type
write_type-IsSound rpdo value s = record {
  pointers = ground (arith, s.pointers);
  data_0 = ground (arith, s.data_0);
  data_1 = ground (arith, s.data_1);
  short = ground (arith, s.short);
  mapped = let m = s.mapped in λ v. ground arith;
  pending = let p = s.pending in λ n. ground arith;
}

clear-IsSound : (rpdo : Rpdo) (second : Bool) → IsSound rpdo → IsSound (clear_new rpdo second)
clear-IsSound rpdo second s = record {
  pointers = ground (arith, s.pointers);
  data_0 = ground (arith, s.data_0);
  data_1 = ground (arith, s.data_1);
  short = ground (arith, s.short);
  mapped = let m = s.mapped in λ v. ground arith;
  pending = let p = s.pending in λ n. ground arith;
}

copy_loop-IsSound :
    (arrivals : List Arrival) (rpdo : Rpdo) (od : List Entry) (second toggle : Bool) (state : ℕ)
    → IsSound rpdo
    → IsSound (copy_loop arrivals rpdo od second toggle state).0
unfolding copy_loop
copy_loop-IsSound [] rpdo od second toggle state s =
    if_intro (λ (p : Rpdo × List Entry). IsSound p.0) (rx_new rpdo second)
      (clear-IsSound rpdo second s) s
copy_loop-IsSound (a ∷ arrivals) rpdo od second toggle state s =
    if_intro (λ (p : Rpdo × List Entry). IsSound p.0) (rx_new rpdo second)
      (copy_loop-IsSound arrivals (receive (clear_new rpdo second) toggle state a.msg) _ second
        toggle state
        (receive-IsSound (clear_new rpdo second) toggle state a.msg (clear-IsSound rpdo second s)))
      s

process-IsSound :
    (rpdo : Rpdo) (od : List Entry) (toggle : Bool) (state : ℕ) (sync_was : Bool)
    (arrivals : List Arrival)
    → IsSound rpdo
    → IsSound (process rpdo od toggle state sync_was arrivals).0
unfolding process
process-IsSound rpdo od toggle state sync_was arrivals s =
    if_intro (λ (p : Rpdo × List Entry). IsSound p.0)
      (not rpdo.valid || not (state == nmt_operational))
      (clear-IsSound (clear_new rpdo false) true (clear-IsSound rpdo false s))
      (if_intro (λ (p : Rpdo × List Entry). IsSound p.0) (not rpdo.synchronous || sync_was)
        (copy_loop-IsSound arrivals rpdo od (is_second rpdo toggle) toggle state s) s)

cob_id-IsSound :
    (rpdo : Rpdo) (par : RpdoCommPar) (arg : OdfArg) (r : ReturnError)
    → IsSound rpdo
    → IsSound (write_rpdo_cob_id rpdo par arg r).1
unfolding write_rpdo_cob_id
cob_id-IsSound rpdo par arg r s =
    let value = stored_cob_id (get_uint32 arg) rpdo.default_cob_id rpdo.node_id in
    if_intro (λ (p : AbortCode × Rpdo × OdfArg). IsSound p.1) (has_high_bits (get_uint32 arg)) s
      (if_intro (λ (p : AbortCode × Rpdo × OdfArg). IsSound p.1)
        (rpdo.valid && is_changed value par.cob_id_used_by_rpdo) s
        (config_com-IsSound rpdo par value r (s.pointers, s.data_0, s.data_1, s.short)))

odf_com-IsSound :
    (rpdo : Rpdo) (par : RpdoCommPar) (state : ℕ) (arg : OdfArg) (r : ReturnError)
    → IsSound rpdo
    → IsSound (odf_rpdo_com rpdo par state arg r).1
unfolding odf_rpdo_com
odf_com-IsSound rpdo par state arg r s =
    let P : (AbortCode × Rpdo × OdfArg) → Type 0 = λ p. IsSound p.1 in
    if_intro P arg.reading (if_intro P (arg.sub_index == 1) s s) (
      if_intro P (is_restricted rpdo.restriction_flags 0x04) s (
        if_intro P ((state == nmt_operational) && is_restricted rpdo.restriction_flags 0x01) s (
          if_intro P (arg.sub_index == 1) (cob_id-IsSound rpdo par arg r s) (
            if_intro P (arg.sub_index == 2) (write_type-IsSound rpdo (get_or arg.bytes 0 0) s) s))))

config_map-HasArrays :
    (rpdo : Rpdo) (sdo : Sdo) (em : Em) (par : PdoMapPar) (count : ℕ)
    → length rpdo.map_pointer ≡ 8
    → length rpdo.can_rx_data_0 ≡ 8
    → length rpdo.can_rx_data_1 ≡ 8
    → HasArrays (rpdo_config_map rpdo sdo em par count).1
unfolding rpdo_config_map
config_map-HasArrays rpdo sdo em par count eight l0 l1 =
    let (short, long) = rpdo_config_map_short rpdo sdo em par count eight in (long, l0, l1, short)

config_map-IsSound :
    (rpdo : Rpdo) (sdo : Sdo) (em : Em) (par : PdoMapPar) (count : ℕ)
    → rpdo.valid ≡ false
    → IsSound rpdo
    → IsSound (rpdo_config_map rpdo sdo em par count).1
unfolding rpdo_config_map
config_map-IsSound rpdo sdo em par count off s =
    let (pointers, l0, l1, short) =
      config_map-HasArrays rpdo sdo em par count s.pointers s.data_0 s.data_1 in
    record {
      pointers = pointers;
      data_0 = l0;
      data_1 = l1;
      short = short;
      mapped = λ v. absurd (cc (v, off));
      pending = s.pending;
    }

-- A conditional whose second branch needs that the test fails.
if_not {ℓ κ} :
    {A : Type ℓ} (P : A → Type κ) (b : Bool) {x y : A}
    → P x
    → (b ≡ false → P y)
    → P (if b then x else y)
if_not P true p q = p
if_not P false p q = q refl

odf_map-IsSound :
    (rpdo : Rpdo) (sdo : Sdo) (em : Em) (par : PdoMapPar) (state : ℕ) (arg : OdfArg)
    → IsSound rpdo
    → IsSound (odf_rpdo_map rpdo sdo em par state arg).1
unfolding odf_rpdo_map
odf_map-IsSound rpdo sdo em par state arg s =
    let P : (AbortCode × Rpdo × Em × OdfArg) → Type 0 = λ p. IsSound p.1 in
    let value = get_or arg.bytes 0 0 in
    if_intro P arg.reading s (
      if_intro P (is_restricted rpdo.restriction_flags 0x08) s (
        if_intro P ((state == nmt_operational) && is_restricted rpdo.restriction_flags 0x02) s (
          if_not P rpdo.valid s (λ off.
            if_intro P (arg.sub_index == 0)
              (if_intro P (ltb 8 value) s (config_map-IsSound rpdo sdo em par value off s))
              (if_intro P (rpdo.data_length /= 0) s s)))))

init-IsSound :
    (rpdo0 : Rpdo) (em : Em) (sdo : Sdo) (n : Numbers) (com_par : RpdoCommPar) (map_par : PdoMapPar)
    (com_function map_function : OdFunction) (r : ReturnError)
    → length rpdo0.map_pointer ≡ 8
    → length rpdo0.can_rx_data_0 ≡ 8
    → length rpdo0.can_rx_data_1 ≡ 8
    → IsSound (rpdo_init true rpdo0 em sdo n com_par map_par com_function map_function r).1
unfolding rpdo_init
init-IsSound rpdo0 em sdo n com_par map_par com_function map_function r eight l0 l1 =
    let sdo' = registered sdo n com_function map_function in
    let rpdo1 = prepared_rpdo rpdo0 n in
    let count = map_par.number_of_mapped_objects in
    config_com-IsSound (rpdo_config_map rpdo1 sdo' em map_par count).1 com_par
      com_par.cob_id_used_by_rpdo r (config_map-HasArrays rpdo1 sdo' em map_par count eight l0 l1)

-- What can happen to an RPDO: a message, processing, and accesses to its objects. The dictionary, the SYNC
-- object, the NMT state and the driver do what they like.
pub data Step (rpdo : Rpdo) : Rpdo → Type 0 where
  received : (toggle : Bool) (state : ℕ) (msg : RxMsg) → Step rpdo (receive rpdo toggle state msg)
  processed :
      (od : List Entry) (toggle : Bool) (state : ℕ) (sync_was : Bool) (arrivals : List Arrival)
      → Step rpdo (process rpdo od toggle state sync_was arrivals).0
  com_accessed :
      (par : RpdoCommPar) (state : ℕ) (arg : OdfArg) (r : ReturnError)
      → Step rpdo (odf_rpdo_com rpdo par state arg r).1
  map_accessed :
      (sdo : Sdo) (em : Em) (par : PdoMapPar) (state : ℕ) (arg : OdfArg)
      → Step rpdo (odf_rpdo_map rpdo sdo em par state arg).1

-- The states of an RPDO that has been initialised, with arrays of their sizes.
pub data Reachable : Rpdo → Type 0 where
  initialised :
      (rpdo0 : Rpdo) (em : Em) (sdo : Sdo) (n : Numbers) (com_par : RpdoCommPar)
      (map_par : PdoMapPar) (com_function map_function : OdFunction) (r : ReturnError)
      → length rpdo0.map_pointer ≡ 8
      → length rpdo0.can_rx_data_0 ≡ 8
      → length rpdo0.can_rx_data_1 ≡ 8
      → Reachable (rpdo_init true rpdo0 em sdo n com_par map_par com_function map_function r).1
  stepped : (rpdo rpdo' : Rpdo) → Reachable rpdo → Step rpdo rpdo' → Reachable rpdo'

Step-IsSound : (rpdo rpdo' : Rpdo) → Step rpdo rpdo' → IsSound rpdo → IsSound rpdo'
Step-IsSound rpdo _ (received toggle state msg) s = receive-IsSound rpdo toggle state msg s
Step-IsSound rpdo _ (processed od toggle state sync_was arrivals) s =
    process-IsSound rpdo od toggle state sync_was arrivals s
Step-IsSound rpdo _ (com_accessed par state arg r) s = odf_com-IsSound rpdo par state arg r s
Step-IsSound rpdo _ (map_accessed sdo em par state arg) s =
    odf_map-IsSound rpdo sdo em par state arg s

-- However messages, processing, and reads and writes of its objects follow each other, with whatever
-- values and dictionaries: an RPDO that has been initialised, with arrays of their sizes, never maps more
-- than 8 bytes, is only valid with at least one, holds a message only while it is valid, and keeps the
-- sizes of its arrays.
pub Reachable-IsSound : (rpdo : Rpdo) → Reachable rpdo → IsSound rpdo
Reachable-IsSound _
      (initialised rpdo0 em sdo n com_par map_par com_function map_function r eight l0 l1) =
    init-IsSound rpdo0 em sdo n com_par map_par com_function map_function r eight l0 l1
Reachable-IsSound _ (stepped rpdo rpdo' before step) =
    Step-IsSound rpdo rpdo' step (Reachable-IsSound rpdo before)
