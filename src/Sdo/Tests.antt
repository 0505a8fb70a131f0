-- ===== src/Sdo/Tests.antt =====
-- Runs of CO_SDO.c, and its theorems at inputs that meet their hypotheses.
use canopen_node.Driver.{RxMsg, ab_none}
use canopen_node.Sdo.{
  idle, download_segmented, download_bl_subblock, upload_segmented, variable, Entry, at_offset, Arg,
  Sdo,
}
use canopen_node.Sdo.Access.{read_od, write_od}
use canopen_node.Sdo.Bisection.{IsOrdered}
use canopen_node.Crc16.{crc16_ccitt}
use canopen_node.Sdo.BlockDownload.{download_block}
use canopen_node.Sdo.BlockEnd.{end_msg}
use canopen_node.Sdo.BlockSegment.{IsWithin}
use canopen_node.Sdo.Blocks.{receive_all}
use canopen_node.Sdo.Expedited.{download_answer, upload_answer, answers_expedited}
use canopen_node.Sdo.ExpeditedSteps.{download_msg, upload_msg}
use canopen_node.Sdo.Failures.{answer_unknown_command, answer_toggle_bit}
use canopen_node.Sdo.Find.{find_loop_passes, od_find_lem}
use canopen_node.Sdo.Od.{no_extension, entry_at, find_loop, od_find}
use canopen_node.Sdo.Process.{active, failed, process}
use canopen_node.Sdo.Receive.{receive}
use canopen_node.Sdo.Room.{HasCopied, receive-IsTaken}
use canopen_node.Sdo.Segment.{segment_msg}
use canopen_node.Sdo.Segments.{
  IsDelivered, answers, segment_msgs, acknowledgements, download_segments,
}
use canopen_node.Sdo.Sends.{upload_msgs, IsSent, sent_bytes, upload_segments}
use canopen_node.Sdo.Steps.{answer}
use canopen_node.Sdo.Store.{with_data, read_od-write_od}
use canopen_node.Sdo.Waits.{IsQuiet, IsTimedOut, calls, process_times_out}
use canopen_node.Prelude.{
  ℕ, zero, suc, ◌<◌, ◌≡◌, ◌≢◌, ◌⊎◌, inl, refl, true, false, List, [], ◌∷◌, ◌++◌, none, some,
  replicate, take, arith,
}

abbrev device_type : Entry
device_type = record {
  index = 0x1000;
  max_sub_index = 0;
  attribute = 0x04;
  length = 4;
  pdata = variable (0x91 ∷ 1 ∷ 0 ∷ 0 ∷ []);
}

abbrev short_object : Entry
short_object = record {
  index = 0x2000;
  max_sub_index = 0;
  attribute = 0x0c;
  length = 2;
  pdata = variable (1 ∷ 2 ∷ []);
}

abbrev long_object : Entry
long_object = record {
  index = 0x2001;
  max_sub_index = 0;
  attribute = 0x0c;
  length = 10;
  pdata = variable (replicate 10 0);
}

abbrev od : List Entry
od = device_type ∷ short_object ∷ long_object ∷ []

-- The argument of a transfer of the long object.
abbrev long_arg : Arg
long_arg = record {
  od_data_storage = at_offset 0;
  data_length = 10;
  attribute = 0x0c;
  index = 0x2001;
  sub_index = 0;
  reading = false;
  first_segment = true;
  last_segment = true;
  data_length_total = 10;
  offset = 0;
}

abbrev ready : Sdo
ready = record {
  buffer_size = 32;
  can_rx_data = replicate 8 0;
  databuffer = replicate 32 0;
  own_od = true;
  od = od;
  extensions = replicate 3 no_extension;
  buffer_offset = 0;
  entry_no = 2;
  arg = long_arg;
  node_id = 5;
  state = idle;
  sequence = 0;
  timeout_timer = 0;
  blksize = 0;
  crc_enabled = false;
  crc = 0;
  last_len = 0;
  end_of_transfer = false;
  can_rx_new = false;
  has_funct_signal = false;
  can_tx_data = replicate 8 0;
}

abbrev downloading : Sdo
downloading = record ready { state = download_segmented }

-- It holds what it has read from the long object.
abbrev uploading : Sdo
uploading = record ready {
  state = upload_segmented;
  databuffer = 1 ∷ 2 ∷ 3 ∷ 4 ∷ 5 ∷ 6 ∷ 7 ∷ 8 ∷ 9 ∷ 10 ∷ replicate 22 0;
}

abbrev receiving_block : Sdo
receiving_block = record ready { state = download_bl_subblock; blksize = 4 }

abbrev seven : List ℕ
seven = 1 ∷ 2 ∷ 3 ∷ 4 ∷ 5 ∷ 6 ∷ 7 ∷ []

abbrev three : List ℕ
three = 8 ∷ 9 ∷ 10 ∷ []

abbrev block_segment : ℕ → RxMsg
block_segment n = record { dlc = 8; bytes = n ∷ seven }

od-IsOrdered : IsOrdered od
od-IsOrdered zero zero l h = absurd (omega arith)
od-IsOrdered zero (suc zero) l h = omega arith
od-IsOrdered zero (suc (suc zero)) l h = omega arith
od-IsOrdered (suc zero) (suc (suc zero)) l h = omega arith
od-IsOrdered (suc i) zero l h = absurd (omega arith)
od-IsOrdered (suc i) (suc zero) l h = absurd (omega arith)
od-IsOrdered (suc (suc i)) (suc (suc zero)) l h = absurd (omega arith)
od-IsOrdered i (suc (suc (suc j))) l h = absurd (omega arith)

od_find_finds : od_find od 0x2001 ≡ 2
unfolding od_find find_loop
od_find_finds = refl

od_find_misses : od_find od 0x1fff ≡ 0xffff
unfolding od_find find_loop
od_find_misses = refl

od_find_lem_example :
    ((od_find od 0x2000 < 3) × ((entry_at od (od_find od 0x2000)).index ≡ 0x2000))
    ⊎ ((od_find od 0x2000 ≡ 0xffff) × ((i : ℕ) → i < 3 → (entry_at od i).index ≢ 0x2000))
od_find_lem_example = od_find_lem od 0x2000 od-IsOrdered (omega arith) (omega arith)

find_loop_passes_example : find_loop 2 od 0x2000 0 2 ≡ some (od_find od 0x2000)
find_loop_passes_example = find_loop_passes od 0x2000 2 (omega arith) (omega arith) (omega arith)

receive-IsTaken_example :
    let sdo = (receive receiving_block (block_segment 1)).0 in
    IsWithin sdo × HasCopied seven receiving_block sdo
receive-IsTaken_example =
    receive-IsTaken receiving_block (block_segment 1)
      (refl, omega arith, omega arith, λ e. omega arith)

read_od-write_od_example :
    let written = write_od uploading 10 in
    let read = read_od (record written.1 { databuffer = replicate 32 0 }) 32 0 in
    (written.0 ≡ ab_none) × (read.0 ≡ ab_none) × (take 10 read.1.databuffer ≡ seven ++ three)
read_od-write_od_example =
    read_od-write_od uploading 10 32 (replicate 32 0) (refl, refl, refl, refl) (refl, refl, refl)
      refl (omega arith) (omega arith) (omega arith) (replicate 10 0, refl, omega arith)

download_segments_example :
    let r = answers downloading (segment_msgs 0 (seven ∷ three ∷ [])) 10 500 in
    IsDelivered downloading (seven ++ three) r.0 × (r.1 ≡ acknowledgements 0 (seven ∷ three ∷ []))
download_segments_example =
    download_segments 10 500 (omega arith) (omega arith) downloading [] seven (three ∷ [])
      (refl, refl, refl, omega arith, omega arith, refl, refl) (refl, refl, refl, refl)
      (omega arith) (omega arith, (omega arith, tt)) refl

upload_segments_example :
    let r = answers uploading (upload_msgs 0 (seven ∷ three ∷ [])) 10 500 in
    IsSent uploading r.0 × (r.1 ≡ sent_bytes (segment_msgs 0 (seven ∷ three ∷ [])))
upload_segments_example =
    upload_segments 10 500 (omega arith) (omega arith) uploading [] seven (three ∷ [])
      (refl, refl, omega arith, refl, refl, refl, refl, refl) (omega arith)
      (refl, (omega arith, omega arith))

-- A request with a command specifier that the server does not know, for the short object.
abbrev unknown_msg : RxMsg
unknown_msg = record { dlc = 8; bytes = 0xe0 ∷ 0 ∷ 0x20 ∷ 0 ∷ replicate 4 0 }

answer_unknown_command_example :
    let p = answer ready unknown_msg 10 500 in
    (p.result ≡ failed)
    × (p.sent ≡ some (0x80 ∷ 1 ∷ 0x20 ∷ 0 ∷ 1 ∷ 0 ∷ 4 ∷ 5 ∷ []))
    × (p.sdo.state ≡ idle)
    × (p.sdo.can_rx_new ≡ false)
    × (p.sdo.od ≡ od)
answer_unknown_command_example =
    answer_unknown_command ready unknown_msg 10 500 refl refl refl (λ e. absurd (omega (arith, e)))
      (λ e. absurd (omega (arith, e))) (λ e. absurd (omega (arith, e)))
      (λ e. absurd (omega (arith, e))) (λ e. absurd (omega (arith, e)))

answer_toggle_bit_example :
    let p = answer downloading (segment_msg 1 false seven) 10 500 in
    (p.result ≡ failed)
    × (p.sent ≡ some (0x80 ∷ 1 ∷ 0x20 ∷ 0 ∷ 0 ∷ 0 ∷ 3 ∷ 5 ∷ []))
    × (p.sdo.od ≡ od)
answer_toggle_bit_example =
    answer_toggle_bit downloading (segment_msg 1 false seven) 10 500 (inl (refl, refl))
      (λ e. absurd (omega (arith, e))) refl refl (omega arith) (omega arith)

process_times_out_example :
    IsQuiet (100 ∷ 0 ∷ 350 ∷ []) downloading 500
    × IsTimedOut downloading 450 (calls (100 ∷ 0 ∷ 350 ∷ []) downloading 500) 70 500
process_times_out_example =
    process_times_out (100 ∷ 0 ∷ 350 ∷ []) downloading 70 500 (refl, refl, refl, refl) (omega arith)
      (omega arith) (omega arith) (omega arith)

answers_expedited_example :
    (answers ready (download_msg 0x2000 (7 ∷ 8 ∷ []) ∷ upload_msg 0x2000 ∷ []) 10 500).1
    ≡ some (download_answer 0x2000) ∷ some (upload_answer 0x2000 (7 ∷ 8 ∷ [])) ∷ []
unfolding od_find find_loop
answers_expedited_example =
    answers_expedited 10 500 0x2000 (omega arith) (omega arith) ready (1 ∷ 2 ∷ []) (7 ∷ 8 ∷ [])
      (λ e. absurd (omega (arith, e)))
      (
        refl,
        refl,
        refl,
        omega arith,
        (omega arith, omega arith, refl, refl, refl, refl, refl, omega arith, omega arith, refl),
      )
      refl

download_block_example :
    let msgs = block_segment 1 ∷ block_segment 0x82 ∷ [] in
    let bytes = seven ++ (1 ∷ 2 ∷ 3 ∷ []) in
    let p = process (receive_all receiving_block msgs) true false 10 500 none in
    let q = answer p.sdo (end_msg 4 (crc16_ccitt bytes 0)) 10 500 in
    (p.result ≡ active)
    × (p.sent ≡ some (0xa2 ∷ 2 ∷ 2 ∷ replicate 5 0))
    × (q.sent ≡ some (0xa1 ∷ replicate 7 0))
    × (q.sdo.state ≡ idle)
    × (q.sdo.od ≡ with_data receiving_block bytes)
download_block_example =
    download_block 10 500 (omega arith) (omega arith) receiving_block
      (block_segment 1 ∷ block_segment 0x82 ∷ []) 4
      (refl, omega arith, omega arith, λ e. omega arith) refl refl (omega arith)
      (refl, refl, omega arith, (refl, refl, inl (omega arith))) (omega arith) (omega arith)
      (omega arith) (refl, refl, refl, refl) (omega arith) refl
