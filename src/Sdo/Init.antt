-- ===== src/Sdo/Init.antt =====
-- stack/CO_SDO.c: object 0x1200, and the initialisation of a server.
use canopen_node.Driver.{ab_none, RxFilter, TxBuffer, ReturnError, error_no, error_illegal_argument}
use canopen_node.Sdo.{idle, Entry, OdFunction, Sdo}
use canopen_node.Sdo.Access.{overwrite}
use canopen_node.Sdo.Od.{no_extension, od_configure}
use canopen_node.Prelude.{
  ℕ, ◌+◌, Bool, true, false, not, ◌&&◌, List, Option, none, some, ltb, ◌==◌, if◌then◌else◌, length,
  get_or, replicate, of_le32, le32, u32,
}

-- `CO_ODF_1200`: the node-ID is added to the values that are read.
unfoldable pub odf_1200 : ℕ → OdFunction
odf_1200 node_id arg bytes =
    let value =
      of_le32 (get_or bytes 0 0) (get_or bytes 1 0) (get_or bytes 2 0) (get_or bytes 3 0) in
    record {
      code = ab_none;
      bytes =
          if arg.reading && ltb 0 arg.sub_index
          then overwrite bytes 0 (le32 (u32 (value + node_id)))
          else bytes;
      data_length = arg.data_length;
      last_segment = arg.last_segment;
      data_length_total = arg.data_length_total;
    }

-- "configure own object dictionary", or "copy object dictionary from parent".
abbrev with_dictionary : Sdo → Option Sdo → List Entry → Sdo
with_dictionary sdo none od = record sdo {
  own_od = true;
  od = od;
  extensions = replicate (length od) no_extension;
}
with_dictionary sdo (some parent) od = record sdo {
  own_od = false;
  od = parent.od;
  extensions = parent.extensions;
}

abbrev configured_1200 : Sdo → ℕ → Sdo
configured_1200 sdo parameter_index =
    if parameter_index == 0x1200
    then od_configure sdo parameter_index (some (odf_1200 sdo.node_id)) none 0
    else sdo

-- `CO_SDO_init`. `pointers` says that no pointer argument is NULL that must not be, `sdo0` and `tx0`
-- are what was held before; a COB-ID with its highest bit set is invalid.
unfoldable pub init :
    Bool
    → Sdo
    → TxBuffer
    → ℕ
    → ℕ
    → ℕ
    → Option Sdo
    → List Entry
    → ℕ
    → ℕ
    → ReturnError × Sdo × Option (RxFilter × TxBuffer)
init pointers sdo0 tx0 client_to_server server_to_client parameter_index parent od node_id rx_idx =
    let sdo = record (with_dictionary sdo0 parent od) {
      node_id = node_id;
      state = idle;
      can_rx_new = false;
      has_funct_signal = false;
    } in
    let valid = ltb client_to_server 0x80000000 && ltb server_to_client 0x80000000 in
    if not pointers then (error_illegal_argument, sdo0, none) else (
      error_no,
      configured_1200 sdo parameter_index,
      some (
        record { index = rx_idx; ident = if valid then client_to_server else 0; mask = 0x7ff },
        record tx0 { ident = if valid then server_to_client else 0; dlc = 8; sync_flag = false },
      ),
    )

-- `CO_SDO_initCallback`, for an object that is not NULL.
unfoldable pub init_callback : Sdo → Bool → Sdo
init_callback sdo given = record sdo { has_funct_signal = given }
