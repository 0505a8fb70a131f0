-- ===== src/SdoClient/Setup.antt =====
-- stack/CO_SDOmaster.h and .c: the parameters of the SDO client, its initialisation and set-up, and close.
use canopen_node.Driver.{RxFilter, ReturnError, error_no, error_illegal_argument}
use canopen_node.SdoClient.{
  not_defined, ClientReturn, ok_communication_end, wrong_arguments, Client,
}
use canopen_node.Prelude.{
  ℕ, ◌+◌, ◌/◌, ◌%◌, Bool, false, ◌&&◌, ◌||◌, Option, none, some, ltb, ◌==◌, ◌/=◌, if◌then◌else◌,
  u16,
}

-- `CO_SDOclientPar_t`
record ClientPar : Type 0 where
  max_sub_index : ℕ
  cob_id_client_to_server : ℕ
  cob_id_server_to_client : ℕ
  node_id_of_the_sdo_server : ℕ

-- `COB_ID & 0x7FFFF800L`, and `COB_ID & 0x80000000L`
abbrev has_reserved_bits : ℕ → Bool
has_reserved_bits cob_id = cob_id / 2048 % 1048576 /= 0

abbrev is_unused : ℕ → Bool
is_unused cob_id = cob_id / 2147483648 /= 0

-- "setup Object Dictionary variables"
unfoldable set_par : ClientPar → ℕ → ℕ → ℕ → ClientPar
set_par par to_server to_client node_id =
    if (is_unused to_server || is_unused to_client) || (node_id == 0)
    then (record par {
      cob_id_client_to_server = 0x80000000;
      cob_id_server_to_client = 0x80000000;
      node_id_of_the_sdo_server = 0;
    })
    else if (to_server == 0) || (to_client == 0)
    then (record par {
      cob_id_client_to_server = 0x600 + node_id;
      cob_id_server_to_client = 0x580 + node_id;
      node_id_of_the_sdo_server = node_id;
    })
    else record par {
      cob_id_client_to_server = to_server;
      cob_id_server_to_client = to_client;
      node_id_of_the_sdo_server = node_id;
    }

-- What `CO_SDOclient_setup` gives; if it configures the buffers of the driver: the filter of the received
-- messages and the identifier of the sent ones.
record SetUp : Type 0 where
  result : ClientReturn
  client : Client
  par : ClientPar
  buffers : Option (RxFilter × ℕ)

-- `CO_SDOclient_setup`
unfoldable setup : Client → ClientPar → ℕ → ℕ → ℕ → SetUp
setup client par to_server to_client node_id =
    let par' = set_par par to_server to_client node_id in
    let id_to_server = par'.cob_id_client_to_server in
    let id_to_client = par'.cob_id_server_to_client in
    let ready = record client { state = not_defined; can_rx_new = false } in
    let differs =
      (client.cob_id_client_to_server_prev /= id_to_server)
      || (client.cob_id_server_to_client_prev /= id_to_client) in
    if (has_reserved_bits to_server || has_reserved_bits to_client) || ltb 127 node_id
    then (record { result = wrong_arguments; client = client; par = par; buffers = none })
    else if differs
    then (record {
      result = ok_communication_end;
      client = record ready {
        cob_id_client_to_server_prev = id_to_server;
        cob_id_server_to_client_prev = id_to_client;
      };
      par = par';
      buffers = some (
        record { index = client.can_dev_rx_idx; ident = u16 id_to_client; mask = 0x7ff },
        u16 id_to_server,
      );
    })
    else (record { result = ok_communication_end; client = ready; par = par'; buffers = none })

-- `CO_SDOclient_init`: `pointers` says that no pointer argument is NULL.
unfoldable init : Bool → Client → ClientPar → ℕ → ReturnError × SetUp
init pointers client0 par rx_idx =
    let client = record client0 {
      state = not_defined;
      can_rx_new = false;
      pst = 21;
      block_size_max = 127;
      has_funct_signal = false;
      can_dev_rx_idx = rx_idx;
      cob_id_client_to_server_prev = 0;
      cob_id_server_to_client_prev = 0;
    } in
    if pointers && (par.max_sub_index == 3)
    then (
      error_no,
      setup client par par.cob_id_client_to_server par.cob_id_server_to_client
          par.node_id_of_the_sdo_server,
    )
    else (
      error_illegal_argument,
      record { result = wrong_arguments; client = client0; par = par; buffers = none },
    )

-- `CO_SDOclient_initCallback`
unfoldable init_callback : Client → Bool → Client
init_callback client set_function = record client { has_funct_signal = set_function }

-- `CO_SDOclientClose`
unfoldable close : Client → Client
close client = record client { state = not_defined }
