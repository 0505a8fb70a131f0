-- ===== src/Sdo/Store.antt =====
-- stack/CO_SDO.c: an object of the dictionary is written and read.
use canopen_node.Driver.{ab_none}
use canopen_node.Sdo.{
  oda_readable, oda_writeable, Member, variable, members, Entry, Pointer, null, at_max_sub_index,
  at_offset, at_member, Arg, Sdo,
}
use canopen_node.Sdo.Access.{
  is_null, stored, store_at, load_buffer, save_buffer, advanced, write_checked, read_od, write_od,
  overwrite, bytes_of,
}
use canopen_node.Sdo.Buffer.{take-overwrite, take-drop-overwrite, length-take}
use canopen_node.Sdo.Od.{no_extension, no_entry, no_member, entry_at, extension_at}
use canopen_node.Prelude.{
  ap₂, get_or, ℕ, ◌+◌, ◌<◌, ◌≤◌, ◌≡◌, ap, sym, ◌∙◌, false, ◌&&◌, List, none, some, ◌==◌, ◌/=◌,
  length, get_or, set, take, arith, u32, bit_and, get_or-set_self,
}

-- Data that the server may write without an object dictionary function.
abbrev pub IsWriteable : Sdo → Type 0
IsWriteable sdo =
    ((bit_and sdo.arg.attribute oda_writeable == 0) ≡ false)
    × (is_null sdo.arg.od_data_storage ≡ false)
    × ((extension_at sdo sdo.entry_no).od_function ≡ none)
    × (((sdo.arg.index == 0x1003) && (sdo.arg.sub_index == 0)) ≡ false)

abbrev pub written_arg : Sdo → ℕ → Arg
written_arg sdo len = record sdo.arg {
  data_length = len;
  reading = false;
  offset = u32 (sdo.arg.offset + len);
  first_segment = false;
}

-- The bytes that are written where the pointer of the transfer points.
abbrev pub with_data : Sdo → List ℕ → List Entry
with_data sdo bytes =
    set sdo.od sdo.entry_no (store_at (entry_at sdo.od sdo.entry_no) sdo.arg.od_data_storage bytes)

-- What stays as it was in the dictionary and the object of a transfer.
abbrev pub IsSame : Sdo → Sdo → Type 0
IsSame sdo sdo' =
    (sdo'.od ≡ sdo.od)
    × (sdo'.entry_no ≡ sdo.entry_no)
    × (sdo'.arg ≡ sdo.arg)
    × (sdo'.extensions ≡ sdo.extensions)

pub same-IsWriteable : (sdo sdo' : Sdo) → IsSame sdo sdo' → IsWriteable sdo → IsWriteable sdo'
same-IsWriteable sdo sdo' (eo, ee, ea, ex) (writeable, given, plain, no_list) = (
  ap (λ a. bit_and a.attribute oda_writeable == 0) ea ∙ writeable,
  ap (λ a. is_null a.od_data_storage) ea ∙ given,
  ap₂ (λ xs n. (get_or xs n no_extension).od_function) ex ee ∙ plain,
  ap (λ a. (a.index == 0x1003) && (a.sub_index == 0)) ea ∙ no_list,
)

pub same-with_data :
    (sdo sdo' : Sdo) (bytes : List ℕ) → IsSame sdo sdo' → with_data sdo' bytes ≡ with_data sdo bytes
same-with_data sdo sdo' bytes (eo, ee, ea, ex) = rw (eo, ee, ea)

pub write_od_writes :
    (sdo : Sdo) (len : ℕ)
    → IsWriteable sdo
    → len ≡ sdo.arg.data_length
    → write_od sdo len ≡ (
      ab_none,
      record sdo { arg = written_arg sdo len; od = with_data sdo (take len sdo.databuffer) },
    )
unfolding write_od
write_od_writes sdo len (writeable, given, plain, no_list) e =
    let same : (sdo.arg.data_length /= len) ≡ false = ground arith in
    rw (writeable, given, same, write_checked, plain, save_buffer, no_list, given, e)

-- Data that the server may read without an object dictionary function.
abbrev IsReadable : Sdo → Type 0
IsReadable sdo =
    ((bit_and sdo.arg.attribute oda_readable == 0) ≡ false)
    × (is_null sdo.arg.od_data_storage ≡ false)
    × ((extension_at sdo sdo.entry_no).od_function ≡ none)

pub read_od_reads :
    (sdo : Sdo) (size base : ℕ)
    → IsReadable sdo
    → read_od sdo size base ≡ (ab_none, advanced (load_buffer sdo base))
unfolding read_od
read_od_reads sdo size base (readable, given, plain) = rw (readable, plain, given)

-- The object has the bytes of the transfer where the pointer points.
abbrev HasRoom : Entry → Pointer → ℕ → Type 0
HasRoom object (at_offset n) len =
    (bytes : List ℕ) × (object.pdata ≡ variable bytes) × (n + len ≤ length bytes)
HasRoom object (at_member i) len =
    (ms : List Member) × (object.pdata ≡ members ms)
    × (i < length ms)
    × (len ≤ length (bytes_of (get_or ms i no_member).pdata))
HasRoom object other len = ⊥

stored-store_at :
    (object : Entry) (pointer : Pointer) (len : ℕ) (bytes : List ℕ)
    → len ≡ length bytes
    → HasRoom object pointer len
    → take len (stored (store_at object pointer bytes) pointer) ≡ bytes
stored-store_at object null len bytes el h = absurd h
stored-store_at object at_max_sub_index len bytes el h = absurd h
stored-store_at object (at_offset n) len bytes el (old, e, fits) =
    rw e (take-drop-overwrite old n len bytes el fits)
stored-store_at object (at_member i) len bytes el (ms, e, inside, fits) =
    let m = get_or ms i no_member in
    let m' = record m { pdata = some (overwrite (bytes_of m.pdata) 0 bytes) } in
    rw (e, get_or-set_self ms i m' no_member inside)
      (take-drop-overwrite (bytes_of m.pdata) 0 len bytes el (omega arith))

-- `CO_SDO_readOD` behind `CO_SDO_writeOD`, of the length of the object, for data of the dictionary
-- that has no object dictionary function, may be written and read, and is not 1003,00: both succeed,
-- and whatever the data buffer holds in between, if it has that length, it holds the written bytes at
-- its start afterwards.
pub read_od-write_od :
    (sdo : Sdo) (len size : ℕ) (buffer : List ℕ)
    → IsWriteable sdo
    → IsReadable sdo
    → len ≡ sdo.arg.data_length
    → len ≤ length sdo.databuffer
    → len ≤ length buffer
    → sdo.entry_no < length sdo.od
    → HasRoom (entry_at sdo.od sdo.entry_no) sdo.arg.od_data_storage len
    → let written = write_od sdo len in
      let read = read_od (record written.1 { databuffer = buffer }) size 0 in
      (written.0 ≡ ab_none)
      × (read.0 ≡ ab_none)
      × (take len read.1.databuffer ≡ take len sdo.databuffer)
read_od-write_od sdo len size buffer writeable (readable, given, plain) e have have' inside room =
    let bytes = take len sdo.databuffer in
    let long : length bytes ≡ len = length-take len sdo.databuffer have in
    let sdo' = record sdo {
      arg = written_arg sdo len;
      od = with_data sdo bytes;
      databuffer = buffer;
    } in
    let w = write_od_writes sdo len writeable e in
    let r = read_od_reads sdo' size 0 (readable, given, plain) in
    let found =
      get_or-set_self sdo.od sdo.entry_no
        (store_at (entry_at sdo.od sdo.entry_no) sdo.arg.od_data_storage bytes) no_entry inside in
    let object = entry_at sdo.od sdo.entry_no in
    let pointer = sdo.arg.od_data_storage in
    let back : take len (stored (entry_at (with_data sdo bytes) sdo.entry_no) pointer) ≡ bytes =
      ap (λ o. take len (stored o pointer)) found
      ∙ stored-store_at object pointer len bytes (sym long) room in
    let loaded : take len (
          overwrite buffer 0
            (take len (stored (entry_at (with_data sdo bytes) sdo.entry_no) pointer)))
        ≡ bytes =
      ap (λ bs. take len (overwrite buffer 0 bs)) back
      ∙ take-overwrite buffer 0 len bytes (omega arith) have' in
    (
      ap (λ p. p.0) w,
      ap (λ p. (read_od (record p.1 { databuffer = buffer }) size 0).0) w ∙ ap (λ p. p.0) r,
      ap (λ p. take len (read_od (record p.1 { databuffer = buffer }) size 0).1.databuffer) w
          ∙ ap (λ p. take len p.1.databuffer) r
          ∙ loaded,
    )
