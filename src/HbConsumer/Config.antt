-- ===== src/HbConsumer/Config.antt =====
-- stack/CO_HBconsumer.c: the configuration of the monitored nodes, from the object dictionary entry
-- 0x1016, and the functions that read and set up one node.
use canopen_node.Driver.{
  OdfArg, AbortCode, ab_none, ab_pram_incompat, ReturnError, error_no, error_illegal_argument,
  RxFilter,
}
use canopen_node.HbConsumer.{HbState, unconfigured, unknown, is_active, Node, Consumer}
use canopen_node.Nmt.{nmt_initializing}
use canopen_node.Emergency.Od.{get_uint32}
use canopen_node.Prelude.{
  ℕ, zero, suc, ◌+◌, ◌/◌, ◌%◌, List, [], ◌∷◌, Bool, false, not, ◌&&◌, ◌||◌, Option, none, some, ltb,
  leb, ◌==◌, ◌/=◌, if◌then◌else◌, get_or, set, u8, u16,
}

-- The node id and the time in an entry of `HBconsTime`.
abbrev pub node_id_of : ℕ → ℕ
node_id_of value = value / 65536 % 256

abbrev pub time_of : ℕ → ℕ
time_of value = value % 65536

abbrev pub empty_node : Node
empty_node = record {
  node_id = 0;
  nmt_state = nmt_initializing;
  hb_state = unconfigured;
  timeout_timer = 0;
  time = 0;
  can_rx_new = false;
  has_hb_started = false;
  has_timeout = false;
  has_remote_reset = false;
}

-- `monitoredNodes[idx]`
abbrev pub node_at : Consumer → ℕ → Node
node_at c idx = get_or c.monitored_nodes idx empty_node

abbrev pub configured : Node → ℕ → ℕ → Node
configured node node_id time =
    let used = (node_id /= 0) && (time /= 0) in
    record node {
      node_id = node_id;
      time = if used then time else 0;
      nmt_state = nmt_initializing;
      hb_state = if used then unknown else unconfigured;
    }

-- `CO_HBcons_monitoredNodeConfig`: the consumer, and the receive buffer if one is configured. The
-- identifier is CO_CAN_ID_HEARTBEAT plus the node id.
unfoldable pub monitored_node_config : Consumer → ℕ → ℕ → ℕ → Consumer × Option RxFilter
monitored_node_config c idx node_id time =
    if leb c.number_of_monitored_nodes idx then (c, none) else (
      record c {
        monitored_nodes = set c.monitored_nodes idx (configured (node_at c idx) node_id time);
      },
      if (node_id /= 0) && (time /= 0)
          then some (record {
            index = u16 (c.can_dev_rx_idx_start + idx);
            ident = u16 (node_id + 0x700);
            mask = 0x7ff;
          })
          else none,
    )

-- "there must not be more entries with same index and time different than zero": is there another
-- one among the `n` entries from `i` on?
unfoldable pub is_duplicate : List ℕ → ℕ → ℕ → ℕ → ℕ → Bool
is_duplicate times idx node_id zero i = false
is_duplicate times idx node_id (suc n) i =
    let object_copy = get_or times i 0 in
    (not (idx == i) && ((time_of object_copy /= 0) && (node_id == node_id_of object_copy)))
    || is_duplicate times idx node_id n (i + 1)

-- `CO_HBconsumer_initEntry` on an object that is not NULL.
unfoldable pub init_entry : Consumer → ℕ → ℕ → ℕ → ReturnError × Consumer × Option RxFilter
unfolding monitored_node_config is_duplicate
init_entry c idx node_id consumer_time =
    let refused =
      ((consumer_time /= 0) && (node_id /= 0))
      && is_duplicate c.hb_cons_time idx node_id c.number_of_monitored_nodes 0 in
    let (c', filter) = monitored_node_config c idx node_id consumer_time in
    if refused then (error_illegal_argument, c, none) else (error_no, c', filter)

-- `CO_ODF_1016`. The top nine bits of the value must be 0. The index is a uint8_t.
unfoldable pub odf_1016 : Consumer → OdfArg → AbortCode × Consumer × Option RxFilter
unfolding init_entry
odf_1016 c arg =
    let value = get_uint32 arg in
    let (ret, c', filter) =
      init_entry c (u8 (arg.sub_index + 255)) (node_id_of value) (time_of value) in
    if arg.reading
    then (ab_none, c, none)
    else if value / 0x800000 /= 0
    then (ab_pram_incompat, c, none)
    else elim ret [ error_no ↦ (ab_none, c', filter) | _ ↦ (ab_pram_incompat, c', filter) ]

-- The loop of `CO_HBconsumer_init`, with `n` entries left from `i` on.
unfoldable pub init_entries : ℕ → ℕ → Consumer → Consumer
unfolding init_entry
init_entries zero i c = c
init_entries (suc n) i c =
    let value = get_or c.hb_cons_time i 0 in
    init_entries n (i + 1) (init_entry c i (node_id_of value) (time_of value)).1

-- `CO_HBconsumer_init`. `pointers` says that no pointer argument is NULL. The receive buffers that
-- the entries configure are left out here.
unfoldable pub init : Bool → Consumer → List ℕ → List Node → ℕ → ℕ → ReturnError × Consumer
unfolding init_entries
init pointers c0 hb_cons_time monitored_nodes number rx_idx_start =
    if not pointers then (error_illegal_argument, c0) else (
      error_no,
      init_entries number 0 (record {
        hb_cons_time = hb_cons_time;
        monitored_nodes = monitored_nodes;
        number_of_monitored_nodes = number;
        all_monitored_operational = 0;
        can_dev_rx_idx_start = rx_idx_start;
      }),
    )

-- The three functions that set a callback test `idx>numberOfMonitoredNodes`, so that the index just
-- behind the array is let through: the write is then out of range.
unfoldable pub init_callback_heartbeat_started : Consumer → ℕ → Bool → Consumer
init_callback_heartbeat_started c idx f =
    if ltb c.number_of_monitored_nodes idx then c else (record c {
      monitored_nodes = set c.monitored_nodes idx (record (node_at c idx) { has_hb_started = f });
    })

unfoldable pub init_callback_timeout : Consumer → ℕ → Bool → Consumer
init_callback_timeout c idx f = if ltb c.number_of_monitored_nodes idx then c else (record c {
  monitored_nodes = set c.monitored_nodes idx (record (node_at c idx) { has_timeout = f });
})

unfoldable pub init_callback_remote_reset : Consumer → ℕ → Bool → Consumer
init_callback_remote_reset c idx f = if ltb c.number_of_monitored_nodes idx then c else (record c {
  monitored_nodes = set c.monitored_nodes idx (record (node_at c idx) { has_remote_reset = f });
})

-- The loop of `CO_HBconsumer_getIdxByNodeId` over the nodes from index `i` on. The result is an
-- int8_t: `none` is -1, and `some i` an index that has been converted to it.
unfoldable pub find_node : List Node → ℕ → ℕ → Option ℕ
find_node [] i node_id = none
find_node (node ∷ nodes) i node_id =
    if node.node_id == node_id then some i else find_node nodes (i + 1) node_id

-- `CO_HBconsumer_getIdxByNodeId`: `none` is the result -1, and `some i` the int8_t with the bit
-- pattern of the index `i`, which is below 255.
unfoldable pub get_idx_by_node_id : Consumer → ℕ → Option ℕ
unfolding find_node
get_idx_by_node_id c node_id = find_node c.monitored_nodes 0 node_id

-- `CO_HBconsumer_getState` and `CO_HBconsumer_getNmtState`: `none` is the result -1.
unfoldable pub get_state : Consumer → ℕ → HbState
get_state c idx =
    if ltb c.number_of_monitored_nodes idx then unconfigured else (node_at c idx).hb_state

unfoldable pub get_nmt_state : Consumer → ℕ → Option ℕ
get_nmt_state c idx =
    if ltb c.number_of_monitored_nodes idx
    then none
    else if is_active (node_at c idx).hb_state
    then some (node_at c idx).nmt_state
    else none
