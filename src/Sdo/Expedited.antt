-- ===== src/Sdo/Expedited.antt =====
-- stack/CO_SDO.c: expedited transfers of a variable, from the request to the answer.
use mathlib.Core.Path.{subst}
use canopen_node.Driver.{RxMsg, data_at}
use canopen_node.Sdo.{SdoState, idle, download_initiate, upload_initiate, at_offset, Sdo}
use canopen_node.Sdo.Access.{overwrite, stored, store_at, advanced, load_buffer}
use canopen_node.Sdo.Buffer.{length-overwrite, take-overwrite, take_all}
use canopen_node.Sdo.Find.{od_find-same}
use canopen_node.Sdo.Od.{entry_at, od_find}
use canopen_node.Sdo.Outcome.{rx}
use canopen_node.Sdo.Process.{process, begun, start, conclude, step}
use canopen_node.Sdo.Receive.{is_idle, is_download_bl_subblock}
use canopen_node.Sdo.Segments.{answers}
use canopen_node.Sdo.Steps.{answer, timed, requested, receive_request, process_begins}
use canopen_node.Sdo.Variable.{
  IsVariable, variable_arg, starts_download, starts_upload, replaced, replaced_indexes,
  replaced-IsVariable,
}
use canopen_node.Sdo.ExpeditedSteps.{
  padded, four_bytes, download_msg, upload_msg, IsReady, download_step, upload_step,
}
use canopen_node.Prelude.{
  ℕ, ◌+◌, ◌-◌, ◌*◌, ◌/◌, ◌%◌, ◌<◌, ◌≡◌, ◌≢◌, refl, ap, ap₂, sym, ◌∙◌, true, false, List, [], ◌∷◌,
  none, some, length, take, arith, length-set,
}

-- The answers to the two requests.
abbrev pub download_answer : ℕ → List ℕ
download_answer index = 0x60 ∷ index % 256 ∷ index / 256 ∷ 0 ∷ 0 ∷ 0 ∷ 0 ∷ 0 ∷ []

abbrev pub upload_answer : ℕ → List ℕ → List ℕ
upload_answer index bytes =
    (0x43 + (4 - length bytes) * 4) ∷ index % 256 ∷ index / 256 ∷ 0 ∷ padded bytes

module _ (time timeout index : ℕ) (soon : time < timeout) (word : timeout < 65536) where
  answer_begins :
      (sdo sdo' : Sdo) (state : SdoState) (msg : RxMsg)
      → sdo.state ≡ idle
      → sdo.can_rx_new ≡ false
      → msg.dlc ≡ 8
      → data_at msg 0 ≢ 0x80
      → start (timed (requested sdo msg) 0) ≡ begun state sdo'
      → is_idle state ≡ false
      → sdo'.timeout_timer ≡ 0
      → answer sdo msg time timeout
        ≡ conclude (step state false (record sdo' { timeout_timer = time })) none
  answer_begins sdo sdo' state msg st old dlc go begins busy fresh =
      ap (λ s. process s true false time timeout none)
        (receive_request sdo msg dlc old (ap is_download_bl_subblock st))
      ∙ process_begins (requested sdo msg) sdo' state time timeout none (ap is_idle st) refl go
          begins busy fresh soon word

  -- An expedited download of as many bytes as the variable has is answered, and the variable has them.
  pub answer_download :
      (sdo : Sdo) (old bytes : List ℕ)
      → index ≢ 0x1003
      → IsReady sdo index old
      → length bytes ≡ length old
      → let p = answer sdo (download_msg index bytes) time timeout in
        IsReady p.sdo index bytes × (p.sent ≡ some (download_answer index))
  unfolding step conclude
  answer_download sdo old bytes other (st, new, len, room, var) e =
      let n = od_find sdo.od index in
      let (inside, found, plain, w, r, at, size, some_byte, short, f) = var in
      let msg = download_msg index bytes in
      let sdo1 = timed (requested sdo msg) 0 in
      let sdo2 = record sdo1 { entry_no = n; arg = variable_arg sdo index; timeout_timer = time } in
      let begins = starts_download sdo1 index old var room (omega arith) (omega arith) refl in
      let e1 =
        answer_begins sdo (record sdo2 { timeout_timer = 0 }) download_initiate msg st new refl
          (λ q. absurd (omega (arith, q))) begins refl refl in
      let e2 =
        download_step sdo2 bytes (omega arith) (omega arith) refl
          (four_bytes bytes (omega arith) (omega arith)) (omega arith) (omega arith) refl w f
          other in
      let var' = replaced-IsVariable sdo n old bytes var e in
      let same =
        od_find-same sdo.od (replaced sdo n bytes) index (replaced_indexes sdo n old bytes var)
          (length-set sdo.od n (store_at (entry_at sdo.od n) (at_offset 0) bytes)) in
      let e' = e1 ∙ ap (λ o. conclude o none) e2 in
      subst (λ p. IsReady p.sdo index bytes × (p.sent ≡ some (download_answer index))) (sym e')
        (
          (
            refl,
            refl,
            length-overwrite sdo.databuffer 0 (rx sdo2 4 ∷ rx sdo2 5 ∷ rx sdo2 6 ∷ rx sdo2 7 ∷ [])
                ∙ len,
            room,
            subst (λ k. IsVariable (record sdo { od = replaced sdo n bytes }) k bytes) (sym same)
                var',
          ),
          refl,
        )

  -- An upload is answered with the bytes of the variable.
  pub answer_upload :
      (sdo : Sdo) (bytes : List ℕ)
      → IsReady sdo index bytes
      → (answer sdo (upload_msg index) time timeout).sent ≡ some (upload_answer index bytes)
  unfolding step conclude
  answer_upload sdo bytes (st, new, len, room, var) =
      let n = od_find sdo.od index in
      let (inside, found, plain, w, r, at, size, some_byte, short, f) = var in
      let msg = upload_msg index in
      let sdo1 = timed (requested sdo msg) 0 in
      let sdo2 = record sdo1 { entry_no = n; arg = variable_arg sdo index } in
      let begins = starts_upload sdo1 index bytes var room refl (omega arith) refl in
      let e1 =
        answer_begins sdo (advanced (load_buffer sdo2 0)) upload_initiate msg st new refl
          (λ q. absurd (omega (arith, q))) begins refl refl in
      let start_of : take (entry_at sdo.od n).length (stored (entry_at sdo.od n) (at_offset 0))
          ≡ bytes =
        rw (at, size) (take_all bytes) in
      let loaded : take (length bytes) (advanced (load_buffer sdo2 0)).databuffer ≡ bytes =
        ap (λ bs. take (length bytes) (overwrite sdo.databuffer 0 bs)) start_of
        ∙ take-overwrite sdo.databuffer 0 (length bytes) bytes (omega arith) (omega arith) in
      let e2 =
        upload_step (record (advanced (load_buffer sdo2 0)) { timeout_timer = time }) bytes
          some_byte short size loaded refl in
      ap (λ p. p.sent) (e1 ∙ ap (λ o. conclude o none) e2)

  -- A server that waits for a request, with a data buffer of four bytes at least and a variable of one
  -- to four bytes, found by its index, that can be read and written and has no object dictionary
  -- function, other than object 0x1003: an expedited download of as many bytes, with the size
  -- indicated, and the upload after it, each processed in time, are both answered, and the answer to
  -- the upload carries the bytes of the download.
  pub answers_expedited :
      (sdo : Sdo) (old bytes : List ℕ)
      → index ≢ 0x1003
      → IsReady sdo index old
      → length bytes ≡ length old
      → (answers sdo (download_msg index bytes ∷ upload_msg index ∷ []) time timeout).1
        ≡ some (download_answer index) ∷ some (upload_answer index bytes) ∷ []
  answers_expedited sdo old bytes other ready e =
      let (ready', sent) = answer_download sdo old bytes other ready e in
      ap₂ (λ a b. a ∷ b ∷ []) sent
        (answer_upload (answer sdo (download_msg index bytes) time timeout).sdo bytes ready')
