-- ===== src/Pdo/Init.antt =====
-- stack/CO_PDO.c: `CO_RPDO_init` and `CO_TPDO_init`.
use canopen_node.Driver.{ReturnError, error_no, error_illegal_argument, RxFilter}
use canopen_node.Emergency.{Em}
use canopen_node.Pdo.{Rpdo, RpdoCommPar, Tpdo, TpdoCommPar, PdoMapPar}
use canopen_node.Pdo.Com.{rpdo_config_com, tpdo_config_com}
use canopen_node.Pdo.Map.{rpdo_config_map, tpdo_config_map}
use canopen_node.Sdo.{Sdo, OdFunction}
use canopen_node.Sdo.Od.{od_configure}
use canopen_node.Prelude.{
  ℕ, ◌*◌, Bool, true, false, ◌&&◌, ◌||◌, Option, none, some, ltb, leb, if◌then◌else◌,
}

-- The arguments that are stored as they are.
pub record Numbers : Type 0 where
  pub node_id : ℕ
  pub default_cob_id : ℕ
  pub restriction_flags : ℕ
  pub idx_comm_par : ℕ
  pub idx_map_par : ℕ
  pub can_dev_idx : ℕ

-- "Configure Object dictionary entry": `com_function` and `map_function` are the two object dictionary functions with
-- the PDO as their object.
abbrev pub registered : Sdo → Numbers → OdFunction → OdFunction → Sdo
registered sdo n com_function map_function =
    od_configure (od_configure sdo n.idx_comm_par (some com_function) none 0) n.idx_map_par
      (some map_function) none 0

abbrev pub prepared_rpdo : Rpdo → Numbers → Rpdo
prepared_rpdo rpdo n = record rpdo {
  node_id = n.node_id;
  default_cob_id = n.default_cob_id;
  restriction_flags = n.restriction_flags;
  idx_rpdo_comm_par = n.idx_comm_par;
  idx_rpdo_map_par = n.idx_map_par;
  can_dev_rx_idx = n.can_dev_idx;
  can_rx_new_0 = false;
  can_rx_new_1 = false;
}

-- `pointers` says that no pointer argument is NULL, `rpdo0` is what the structure held, and `r` the
-- result of `CO_CANrxBufferInit`.
unfoldable pub rpdo_init :
    Bool
    → Rpdo
    → Em
    → Sdo
    → Numbers
    → RpdoCommPar
    → PdoMapPar
    → OdFunction
    → OdFunction
    → ReturnError
    → ReturnError × Rpdo × Em × Sdo × Option RxFilter
rpdo_init pointers rpdo0 em sdo n com_par map_par com_function map_function r =
    let sdo' = registered sdo n com_function map_function in
    let (code, rpdo1, em') =
      rpdo_config_map (prepared_rpdo rpdo0 n) sdo' em map_par map_par.number_of_mapped_objects in
    let (rpdo2, filter) = rpdo_config_com rpdo1 com_par com_par.cob_id_used_by_rpdo r in
    if pointers
    then (error_no, rpdo2, em', sdo', some filter)
    else (error_illegal_argument, rpdo0, em, sdo, none)

abbrev prepared_tpdo : Tpdo → Numbers → TpdoCommPar → Tpdo
prepared_tpdo tpdo n par = record tpdo {
  node_id = n.node_id;
  default_cob_id = n.default_cob_id;
  restriction_flags = n.restriction_flags;
  idx_tpdo_comm_par = n.idx_comm_par;
  idx_tpdo_map_par = n.idx_map_par;
  can_dev_tx_idx = n.can_dev_idx;
  sync_counter = 255;
  inhibit_timer = 0;
  event_timer = par.event_timer * 1000;
  send_request = if leb 254 par.transmission_type then true else tpdo.send_request;
}

-- The parameters that make a PDO invalid in spite of its identifier and mapping.
abbrev is_refused : TpdoCommPar → Bool
is_refused par =
    (ltb 240 par.transmission_type && ltb par.transmission_type 254) || ltb 240 par.sync_start_value

-- `available` is the result of `CO_CANtxBufferInit`.
unfoldable pub tpdo_init :
    Bool
    → Tpdo
    → Em
    → Sdo
    → Numbers
    → TpdoCommPar
    → PdoMapPar
    → OdFunction
    → OdFunction
    → Bool
    → ReturnError × Tpdo × Em × Sdo
tpdo_init pointers tpdo0 em sdo n com_par map_par com_function map_function available =
    let sdo' = registered sdo n com_function map_function in
    let (code, tpdo1, em') =
      tpdo_config_map (prepared_tpdo tpdo0 n com_par) sdo' em map_par
        map_par.number_of_mapped_objects in
    let tpdo2 =
      tpdo_config_com tpdo1 com_par.cob_id_used_by_tpdo (leb com_par.transmission_type 240)
        available in
    let tpdo3 = if is_refused com_par then record tpdo2 { valid = false } else tpdo2 in
    if pointers then (error_no, tpdo3, em', sdo') else (error_illegal_argument, tpdo0, em, sdo)
