-- ===== src/SdoClient/Tests.antt =====
-- Runs of CO_SDOmaster.c with CO_SDO.c, and the theorems about them at inputs that meet their hypotheses.
use canopen_node.SdoClient.{not_defined, download_request, Client, ok_communication_end}
use canopen_node.SdoClient.Download
use canopen_node.SdoClient.Upload
use canopen_node.SdoClient.Download.{send_segment}
use canopen_node.SdoClient.Rounds.{IsDownloaded, dialogue}
use canopen_node.SdoClient.Dialogue.{dialogue_downloads}
use canopen_node.SdoClient.Expedited.{
  IsUploaded, download_exchange, upload_exchange, uploads_downloaded,
}
use canopen_node.Sdo.{idle, download_segmented, variable, Entry, at_offset, Sdo}
use canopen_node.Sdo.Od.{no_extension, find_loop, od_find}
use canopen_node.Prelude.{ℕ, ◌≡◌, refl, true, false, List, [], ◌∷◌, replicate, arith}

abbrev short_object : Entry
short_object = record {
  index = 0x2000;
  max_sub_index = 0;
  attribute = 0x0c;
  length = 2;
  pdata = variable (1 ∷ 2 ∷ []);
}

abbrev long_object : Entry
long_object = record {
  index = 0x2001;
  max_sub_index = 0;
  attribute = 0x0c;
  length = 10;
  pdata = variable (replicate 10 0);
}

-- A server in a segmented download of the long object.
abbrev server : Sdo
server = record {
  buffer_size = 32;
  can_rx_data = replicate 8 0;
  databuffer = replicate 32 0;
  own_od = true;
  od = short_object ∷ long_object ∷ [];
  extensions = replicate 2 no_extension;
  buffer_offset = 0;
  entry_no = 1;
  arg = record {
    od_data_storage = at_offset 0;
    data_length = 10;
    attribute = 0x0c;
    index = 0x2001;
    sub_index = 0;
    reading = false;
    first_segment = true;
    last_segment = true;
    data_length_total = 10;
    offset = 0;
  };
  node_id = 5;
  state = download_segmented;
  sequence = 0;
  timeout_timer = 0;
  blksize = 0;
  crc_enabled = false;
  crc = 0;
  last_len = 0;
  end_of_transfer = false;
  can_rx_new = false;
  has_funct_signal = false;
  can_tx_data = replicate 8 0;
}

abbrev waiting_server : Sdo
waiting_server = record server { state = idle }

abbrev ten_bytes : List ℕ
ten_bytes = 1 ∷ 2 ∷ 3 ∷ 4 ∷ 5 ∷ 6 ∷ 7 ∷ 8 ∷ 9 ∷ 10 ∷ []

-- A client that is about to send the first segment of them.
abbrev client : Client
client = record {
  state = download_request;
  buffer = ten_bytes;
  buffer_size = 10;
  buffer_offset = 0;
  buffer_offset_ack = 0;
  data_size = 0;
  data_size_transfered = 0;
  timeout_timer = 0;
  timeout_timer_block = 0;
  index = 0x2001;
  sub_index = 0;
  can_dev_rx_idx = 0;
  can_rx_new = false;
  can_rx_data = replicate 8 0;
  has_funct_signal = false;
  toggle = 0;
  pst = 21;
  block_size_max = 127;
  block_seqno = 0;
  block_blksize = 0;
  block_no_data = 0;
  crc_enabled = false;
  cob_id_client_to_server_prev = 0;
  cob_id_server_to_client_prev = 0;
}

abbrev ready_client : Client
ready_client = record client { state = not_defined }

dialogue_downloads_example :
    let (client', frame) = send_segment client in
    IsDownloaded server ten_bytes (dialogue 2 client' server frame 10 500)
dialogue_downloads_example =
    dialogue_downloads 10 500 (omega arith) (omega arith) client server 1
      (
        (refl, omega arith, omega arith),
        refl,
        omega arith,
        (refl, refl, refl, omega arith, omega arith, refl, refl),
        (refl, refl, refl, refl),
        refl,
        refl,
      )
      (omega arith)

uploads_downloaded_example :
    let d =
      download_exchange waiting_server
        (Download.initiate true false ready_client 0x2000 0 (7 ∷ 8 ∷ []) 2 false)
        10
        500 in
    let u =
      upload_exchange d.0
        (Upload.initiate true false d.1.client 0x2000 0 (replicate 8 0) 8 false)
        10
        500 in
    (d.1.result ≡ ok_communication_end) × IsUploaded (7 ∷ 8 ∷ []) u.1
unfolding od_find find_loop
uploads_downloaded_example =
    uploads_downloaded 10 500 0x2000 (omega arith) (omega arith) ready_client waiting_server
      (1 ∷ 2 ∷ []) (7 ∷ 8 ∷ []) (replicate 8 0) (omega arith) (λ e. absurd (omega (arith, e)))
      (
        refl,
        refl,
        refl,
        omega arith,
        (omega arith, omega arith, refl, refl, refl, refl, refl, omega arith, omega arith, refl),
      )
      refl (omega arith)
