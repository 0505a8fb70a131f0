-- ===== src/SdoClient/Expedited.antt =====
-- stack/CO_SDOmaster.c with stack/CO_SDO.c: expedited transfers between the client and the server.
use mathlib.Core.Path.{subst}
use canopen_node.Driver.{RxMsg}
use canopen_node.SdoClient.{
  Client, ClientReturn, ok_communication_end, download_initiate, upload_initiated, Progress,
  receive,
}
use canopen_node.SdoClient.Download
use canopen_node.SdoClient.Upload
use canopen_node.SdoClient.Download.{initiated, case_of, cleared, take_message, resume, download}
use canopen_node.SdoClient.Segmented.{message}
use canopen_node.SdoClient.Upload.{upload_answered, upload}
use canopen_node.Sdo.{Sdo}
use canopen_node.Sdo.Access.{overwrite}
use canopen_node.Sdo.Buffer.{take_all, take-overwrite}
use canopen_node.Sdo.Expedited.{download_answer, upload_answer, answer_download, answer_upload}
use canopen_node.Sdo.ExpeditedSteps.{padded, four_bytes, download_msg, upload_msg, IsReady}
use canopen_node.Sdo.Steps.{answer}
use canopen_node.Prelude.{
  ℕ, ◌+◌, ◌-◌, ◌*◌, ◌/◌, ◌%◌, ◌<◌, ◌≤◌, ◌≡◌, ◌≢◌, refl, sym, ap, ◌∙◌, true, false, List, [], ◌∷◌,
  ◌++◌, Option, none, some, ltb, leb, ◌==◌, length, take, replicate, arith,
}

-- The message of a frame that is sent.
abbrev sent_msg : Option (List ℕ) → RxMsg
sent_msg none = message []
sent_msg (some frame) = message frame

take-append : (xs ys : List ℕ) → take (length xs) (xs ++ ys) ≡ xs
take-append [] ys = refl
take-append (x ∷ xs) ys = ap (λ t. x ∷ t) (take-append xs ys)

-- The client behind `CO_SDOclientDownloadInitiate`.
abbrev downloading : Client → ℕ → List ℕ → Client
downloading client index bytes = record client {
  buffer = bytes;
  buffer_size = length bytes;
  state = download_initiate;
  index = index;
  sub_index = 0;
  can_rx_new = false;
  timeout_timer = 0;
}

starts_download :
    (client : Client) (index : ℕ) (bytes : List ℕ)
    → index < 65536
    → 0 < length bytes
    → length bytes ≤ 4
    → Download.initiate true false client index 0 bytes (length bytes) false ≡ (
      ok_communication_end,
      downloading client index bytes,
      some (download_msg index bytes).bytes,
    )
unfolding Download.initiate
starts_download client index bytes word some_byte short =
    let given : (length bytes == 0) ≡ false = ground arith in
    let small : leb (length bytes) 4 ≡ true = ground arith in
    let high : index / 256 % 256 ≡ index / 256 = omega arith in
    rw (given, small, high, take_all bytes)

download_ends :
    (client : Client) (index : ℕ) (bytes : List ℕ) (time timeout : ℕ)
    → length bytes ≤ 4
    → (download
        (receive (downloading client index bytes) (message (download_answer index)))
        false
        time
        timeout).result
      ≡ ok_communication_end
unfolding receive download take_message initiated
download_ends client index bytes time timeout short =
    let small : leb (length bytes) 4 ≡ true = ground arith in rw small

-- The client behind `CO_SDOclientUploadInitiate`.
abbrev uploading : Client → ℕ → List ℕ → Client
uploading client index buffer = record client {
  buffer = buffer;
  buffer_size = length buffer;
  state = upload_initiated;
  index = index;
  sub_index = 0;
  can_rx_new = false;
  timeout_timer = 0;
  timeout_timer_block = 0;
}

starts_upload :
    (client : Client) (index : ℕ) (buffer : List ℕ)
    → index < 65536
    → 4 ≤ length buffer
    → Upload.initiate true false client index 0 buffer (length buffer) false
      ≡ (ok_communication_end, uploading client index buffer, some (upload_msg index).bytes)
unfolding Upload.initiate
starts_upload client index buffer word room =
    let given : ltb (length buffer) 4 ≡ false = ground arith in
    let high : index / 256 % 256 ≡ index / 256 = omega arith in rw (given, high)

-- The answer of the server is taken.
upload_ends :
    (client : Client) (index : ℕ) (buffer bytes : List ℕ) (time timeout : ℕ)
    → 0 < length bytes
    → length bytes ≤ 4
    → 4 ≤ length buffer
    → let q =
        upload
          (receive (uploading client index buffer) (message (upload_answer index bytes)))
          false
          time
          timeout in
      (q.result ≡ ok_communication_end)
      × (q.size ≡ some (length bytes))
      × (take (length bytes) q.client.buffer ≡ bytes)
unfolding receive upload Upload.take_message Upload.initiated upload_answered
upload_ends client index buffer bytes time timeout some_byte short room =
    let cs = 0x43 + (4 - length bytes) * 4 in
    let no_abort : (cs == 0x80) ≡ false = ground arith in
    let scs : (cs / 32 == 2) ≡ true = ground arith in
    let expedited : (cs / 2 % 2 == 1) ≡ true = ground arith in
    let sized : (cs % 2 == 1) ≡ true = ground arith in
    let size : 4 - cs / 4 % 4 ≡ length bytes = omega arith in
    let copied : take (length bytes) (overwrite buffer 0 (take (length bytes) (padded bytes)))
        ≡ bytes =
      ap (λ t. take (length bytes) (overwrite buffer 0 t))
        (take-append bytes (replicate (4 - length bytes) 0))
      ∙ take-overwrite buffer 0 (length bytes) bytes (omega arith) (omega arith) in
    rw (no_abort, scs, expedited, sized, size, four_bytes bytes some_byte short)
      (refl, refl, copied)

-- The request of the client that has been started is answered by the server, and the client is called
-- with the answer.
abbrev pub download_exchange :
    Sdo → ClientReturn × Client × Option (List ℕ) → ℕ → ℕ → Sdo × Progress
download_exchange sdo (result, client, frame) time timeout =
    let p = answer sdo (sent_msg frame) time timeout in
    (p.sdo, download (receive client (sent_msg p.sent)) false time timeout)

abbrev pub upload_exchange : Sdo → ClientReturn × Client × Option (List ℕ) → ℕ → ℕ → Sdo × Progress
upload_exchange sdo (result, client, frame) time timeout =
    let p = answer sdo (sent_msg frame) time timeout in
    (p.sdo, upload (receive client (sent_msg p.sent)) false time timeout)

-- The upload has ended well, and the client has the bytes.
abbrev pub IsUploaded : List ℕ → Progress → Type 0
IsUploaded bytes q =
    (q.result ≡ ok_communication_end)
    × (q.size ≡ some (length bytes))
    × (take (length bytes) q.client.buffer ≡ bytes)

module _ (time timeout index : ℕ) (soon : time < timeout) (word : timeout < 65536) where
  uploads_ready :
      (client : Client) (sdo : Sdo) (bytes buffer : List ℕ)
      → index < 65536
      → IsReady sdo index bytes
      → 4 ≤ length buffer
      → IsUploaded bytes
          (upload_exchange sdo
            (Upload.initiate true false client index 0 buffer (length buffer) false)
            time
            timeout).1
  uploads_ready client sdo bytes buffer index_word ready enough =
      let (st, new, len, room, var) = ready in
      let (inside, found, plain, w, r, at, size, some_byte, short, f) = var in
      subst (λ s. IsUploaded bytes (upload_exchange sdo s time timeout).1)
        (sym (starts_upload client index buffer index_word enough))
        (subst
          (λ m.
            IsUploaded bytes
              (upload (receive (uploading client index buffer) (sent_msg m)) false time timeout))
          (sym (answer_upload time timeout index soon word sdo bytes ready))
          (upload_ends client index buffer bytes time timeout some_byte short enough))

  -- A client, and a server on another node that waits for a request, with a data buffer of four bytes at
  -- least and a variable of one to four bytes, found by its index, that can be read and written and has
  -- no object dictionary function, other than object 0x1003. The client starts a download of as many
  -- bytes, and then an upload into a buffer of four bytes at least, neither with a block transfer; each
  -- request is answered by the server and the answer taken by the client, in time and with free transmit
  -- buffers. Both transfers end with the end of the communication, and the upload gives the number of the
  -- bytes and leaves the bytes of the download at the start of the buffer.
  pub uploads_downloaded :
      (client : Client) (sdo : Sdo) (old bytes buffer : List ℕ)
      → index < 65536
      → index ≢ 0x1003
      → IsReady sdo index old
      → length bytes ≡ length old
      → 4 ≤ length buffer
      → let d =
          download_exchange sdo
            (Download.initiate true false client index 0 bytes (length bytes) false)
            time
            timeout in
        let u =
          upload_exchange d.0
            (Upload.initiate true false d.1.client index 0 buffer (length buffer) false)
            time
            timeout in
        (d.1.result ≡ ok_communication_end) × IsUploaded bytes u.1
  uploads_downloaded client sdo old bytes buffer index_word other ready e enough =
      let (st, new, len, room, var) = ready in
      let (inside, found, plain, w, r, at, size, some_byte, short, f) = var in
      let started = starts_download client index bytes index_word (omega arith) (omega arith) in
      let (ready', sent) =
        answer_download time timeout index soon word sdo old bytes other ready e in
      let ended =
        subst
          (λ m.
            (download (receive (downloading client index bytes) (sent_msg m)) false time
              timeout).result
            ≡ ok_communication_end)
          (sym sent) (download_ends client index bytes time timeout (omega arith)) in
      let d =
        download_exchange sdo
          (
            ok_communication_end,
            downloading client index bytes,
            some (download_msg index bytes).bytes,
          )
          time timeout in
      subst
        (λ s.
          let d = download_exchange sdo s time timeout in
          (d.1.result ≡ ok_communication_end)
          × IsUploaded bytes
              (upload_exchange d.0
                (Upload.initiate true false d.1.client index 0 buffer (length buffer) false) time
                timeout).1)
        (sym started) (ended, uploads_ready d.1.client d.0 bytes buffer index_word ready' enough)
