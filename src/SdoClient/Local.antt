-- ===== src/SdoClient/Local.antt =====
-- stack/CO_SDOmaster.c: a client that accesses the object dictionary of its own node. The data of the
-- server's argument is then the buffer of the client.
use canopen_node.Driver.{AbortCode, ab_none, ab_device_incompat, ab_out_of_mem}
use canopen_node.SdoClient.{
  not_defined, ClientReturn, ok_communication_end, ended_with_client_abort, ended_with_server_abort,
  Client,
}
use canopen_node.Sdo.{Sdo}
use canopen_node.Sdo.Access.{init_transfer, read_od, write_od, is_abort, is_null}
use canopen_node.Sdo.Receive.{is_idle}
use canopen_node.Prelude.{ℕ, false, not, Option, none, some, if◌then◌else◌, u16}

-- What an access gives: the client and the server, and `*pSDOabortCode` and `*pDataSize`.
pub record Accessed : Type 0 where
  pub client : Client
  pub server : Sdo
  pub result : ClientReturn
  pub code : AbortCode
  pub size : Option ℕ

-- The server works on the buffer of the client.
abbrev lent : Sdo → Client → Sdo
lent server client = record server { databuffer = client.buffer }

-- Each has its buffer again.
abbrev access : Client → Sdo → Sdo → ClientReturn → AbortCode → Option ℕ → Accessed
access client server server' result code size = record {
  client = record client { buffer = server'.databuffer };
  server = record server' { databuffer = server.databuffer };
  result = result;
  code = code;
  size = size;
}

-- The first part of `CO_SDOclientDownload`
unfoldable pub local_download : Client → Sdo → Accessed
local_download client0 server =
    let client = record client0 { state = not_defined; can_rx_new = false } in
    let (code, server1) = init_transfer server client.index client.sub_index in
    let (code', server2) = write_od (lent server1 client) (u16 client.buffer_size) in
    if not (is_idle server.state)
    then (record {
      client = client;
      server = server;
      result = ended_with_client_abort;
      code = ab_none;
      size = none;
    })
    else if is_abort code
    then (record {
      client = client;
      server = server1;
      result = ended_with_server_abort;
      code = code;
      size = none;
    })
    else if is_abort code'
    then access client server server2 ended_with_server_abort code' none
    else access client server server2 ok_communication_end ab_none none

-- The first part of `CO_SDOclientUpload`; a domain may fill the buffer.
unfoldable pub local_upload : Client → Sdo → Accessed
local_upload client0 server =
    let client = record client0 { state = not_defined; can_rx_new = false } in
    let (code, server1) = init_transfer server client.index client.sub_index in
    let sized =
      if is_null server1.arg.od_data_storage
      then record server1 { arg = record server1.arg { data_length = u16 client.buffer_size } }
      else server1 in
    let (code', server2) = read_od (lent sized client) (u16 client.buffer_size) 0 in
    if not (is_idle server.state)
    then (record {
      client = client;
      server = server;
      result = ended_with_client_abort;
      code = ab_device_incompat;
      size = none;
    })
    else if is_abort code
    then (record {
      client = client;
      server = server1;
      result = ended_with_server_abort;
      code = code;
      size = none;
    })
    else if is_abort code'
    then access client server server2 ended_with_server_abort code' none
    else if server2.arg.last_segment
    then access client server server2 ok_communication_end ab_none (some server2.arg.data_length)
    else access client server server2 ended_with_server_abort ab_out_of_mem
        (some server2.arg.data_length)
