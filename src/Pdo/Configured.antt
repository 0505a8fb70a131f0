-- ===== src/Pdo/Configured.antt =====
-- stack/CO_PDO.c: `CO_RPDOconfigMap` and `CO_TPDOconfigMap`, with every check of the mapped objects.
use canopen_node.Emergency.{Em, error_report}
use canopen_node.Emergency.Codes.{em_pdo_wrong_mapping, emc_protocol_error}
use canopen_node.Driver.{AbortCode, ab_none}
use canopen_node.Pdo.{PdoMapPar, Rpdo, Tpdo}
use canopen_node.Pdo.Map.{
  find_object, find_map, point, Mapping, map_objects, rpdo_config_map, tpdo_config_map,
}
use canopen_node.Pdo.Mapping.{HasMemory, IsMapped, find_map_lem, length-point, point-All}
use canopen_node.Sdo.{Sdo}
use canopen_node.Sdo.Access.{is_abort}
use canopen_node.Prelude.{
  ℕ, zero, suc, ◌+◌, ◌-◌, ◌≤◌, ◌≡◌, ◌⊎◌, inl, inr, refl, ◌∙◌, Bool, true, false, List, length,
  get_or, take, All, arith, Bool-cases,
}

-- The mapping so far: at most 8 bytes, each of an object that can be mapped.
abbrev pub IsBuilt : Sdo → Bool → Mapping → Type 0
IsBuilt sdo transmit m =
    (m.length ≤ 8)
    × (length m.map_pointer ≡ 8)
    × All (IsMapped sdo transmit) (take m.length m.map_pointer)

-- A mapping succeeds without a report, or it fails with length 0 and the report of the mapped object.
abbrev pub IsOutcome : List ℕ → Em → AbortCode → ℕ → Em → Type 0
IsOutcome objects em code len em' =
    ((is_abort code ≡ false) × (em' ≡ em))
    ⊎ ((is_abort code ≡ true)
        × (len ≡ 0)
        × ((i : ℕ) × (em'
              ≡ error_report em em_pdo_wrong_mapping emc_protocol_error (get_or objects i 0))))

map_objects_lem :
    (sdo : Sdo) (objects : List ℕ) (transmit : Bool) (i count : ℕ) (m : Mapping)
    → HasMemory sdo transmit
    → IsBuilt sdo transmit m
    → is_abort m.code ≡ false
    → let m' = map_objects sdo objects transmit i count m in
      IsBuilt sdo transmit m' × IsOutcome objects m.em m'.code m'.length m'.em
unfolding map_objects
map_objects_lem sdo objects transmit i zero m memory built fine = (built, inl (fine, refl))
map_objects_lem sdo objects transmit i (suc count) m memory (short, eight, mapped) fine =
    let map = get_or objects i 0 in
    let found = find_map sdo map transmit m.length m.send_if_cos_flags in
    elim (Bool-cases (is_abort found.code)) [
      | inl bad ↦ rw bad ((omega arith, eight, tt), inr (bad, refl, (i, refl)))
      | inr good ↦
          let (longer, small, all) =
            find_map_lem sdo map transmit m.length m.send_if_cos_flags memory short good in
          let count' = found.length - m.length in
          let next : Mapping = record m {
            code = ab_none;
            length = found.length;
            map_pointer = point m.map_pointer m.length found.pdata count';
            send_if_cos_flags = found.send_if_cos_flags;
          } in
          let built : IsBuilt sdo transmit next = (
            small,
            length-point m.map_pointer m.length found.pdata count' ∙ eight,
            point-All (IsMapped sdo transmit) m.map_pointer m.length found.pdata count' found.length
                (omega arith) (omega arith) mapped all,
          ) in
          rw good (map_objects_lem sdo objects transmit (i + 1) count next memory built refl)
    ]

find_map_short :
    (sdo : Sdo) (map : ℕ) (transmit : Bool) (len flags : ℕ)
    → is_abort (find_map sdo map transmit len flags).code ≡ false
    → (find_map sdo map transmit len flags).length ≤ 8
unfolding find_map find_object
find_map_short sdo map transmit len flags h = ground arith

map_objects_short :
    (sdo : Sdo) (objects : List ℕ) (transmit : Bool) (i count : ℕ) (m : Mapping)
    → m.length ≤ 8
    → length m.map_pointer ≡ 8
    → let m' = map_objects sdo objects transmit i count m in
      (m'.length ≤ 8) × (length m'.map_pointer ≡ 8)
unfolding map_objects
map_objects_short sdo objects transmit i zero m short eight = (short, eight)
map_objects_short sdo objects transmit i (suc count) m short eight =
    let map = get_or objects i 0 in
    let found = find_map sdo map transmit m.length m.send_if_cos_flags in
    elim (Bool-cases (is_abort found.code)) [
      | inl bad ↦ rw bad (omega arith, eight)
      | inr good ↦
          let count' = found.length - m.length in
          let next : Mapping = record m {
            code = ab_none;
            length = found.length;
            map_pointer = point m.map_pointer m.length found.pdata count';
            send_if_cos_flags = found.send_if_cos_flags;
          } in
          rw good (
            map_objects_short sdo objects transmit (i + 1) count next
              (find_map_short sdo map transmit m.length m.send_if_cos_flags good)
              (length-point m.map_pointer m.length found.pdata count' ∙ eight))
    ]

-- Whatever the dictionary is, the mapping has at most 8 bytes and keeps the size of the array.
pub rpdo_config_map_short :
    (rpdo : Rpdo) (sdo : Sdo) (em : Em) (par : PdoMapPar) (count : ℕ)
    → length rpdo.map_pointer ≡ 8
    → let rpdo' = (rpdo_config_map rpdo sdo em par count).1 in
      (rpdo'.data_length ≤ 8) × (length rpdo'.map_pointer ≡ 8)
unfolding rpdo_config_map
rpdo_config_map_short rpdo sdo em par count eight =
    map_objects_short sdo par.mapped_objects false 0 count
      (record {
        code = ab_none;
        length = 0;
        map_pointer = rpdo.map_pointer;
        send_if_cos_flags = 0;
        em = em;
      })
      (omega arith) eight

-- In a dictionary whose sub-objects that can be mapped have their bytes, `CO_RPDOconfigMap` sets at most 8
-- pointers, each to a dummy or to a byte within an object that is mappable for RPDOs and writeable; and
-- it gives no error and reports none, or the length is 0 and a wrong mapping is reported.
pub rpdo_config_map_safe :
    (rpdo : Rpdo) (sdo : Sdo) (em : Em) (par : PdoMapPar) (count : ℕ)
    → HasMemory sdo false
    → length rpdo.map_pointer ≡ 8
    → let (code, rpdo', em') = rpdo_config_map rpdo sdo em par count in
      (rpdo'.data_length ≤ 8)
      × (length rpdo'.map_pointer ≡ 8)
      × All (IsMapped sdo false) (take rpdo'.data_length rpdo'.map_pointer)
      × IsOutcome par.mapped_objects em code rpdo'.data_length em'
unfolding rpdo_config_map
rpdo_config_map_safe rpdo sdo em par count memory eight =
    let start : Mapping = record {
      code = ab_none;
      length = 0;
      map_pointer = rpdo.map_pointer;
      send_if_cos_flags = 0;
      em = em;
    } in
    let ((small, long, mapped), outcome) =
      map_objects_lem sdo par.mapped_objects false 0 count start memory (omega arith, eight, tt)
        refl in
    (small, long, mapped, outcome)

-- In a dictionary whose sub-objects that can be mapped have their bytes, `CO_TPDOconfigMap` sets at most 8
-- pointers, each to a dummy or to a byte within an object that is mappable for TPDOs and readable; and
-- it gives no error and reports none, or the length is 0 and a wrong mapping is reported.
pub tpdo_config_map_safe :
    (tpdo : Tpdo) (sdo : Sdo) (em : Em) (par : PdoMapPar) (count : ℕ)
    → HasMemory sdo true
    → length tpdo.map_pointer ≡ 8
    → let (code, tpdo', em') = tpdo_config_map tpdo sdo em par count in
      (tpdo'.data_length ≤ 8)
      × (length tpdo'.map_pointer ≡ 8)
      × All (IsMapped sdo true) (take tpdo'.data_length tpdo'.map_pointer)
      × IsOutcome par.mapped_objects em code tpdo'.data_length em'
unfolding tpdo_config_map
tpdo_config_map_safe tpdo sdo em par count memory eight =
    let start : Mapping = record {
      code = ab_none;
      length = 0;
      map_pointer = tpdo.map_pointer;
      send_if_cos_flags = 0;
      em = em;
    } in
    let ((small, long, mapped), outcome) =
      map_objects_lem sdo par.mapped_objects true 0 count start memory (omega arith, eight, tt)
        refl in
    (small, long, mapped, outcome)
