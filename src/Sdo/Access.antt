-- ===== src/Sdo/Access.antt =====
-- stack/CO_SDO.c: `CO_SDO_initTransfer`, `CO_SDO_readOD` and `CO_SDO_writeOD`, the three accesses of a
-- transfer to the object dictionary.
use canopen_node.Driver.{
  AbortCode, ab_none, ab_writeonly, ab_readonly, ab_not_exist, ab_device_incompat, ab_type_mismatch,
  ab_sub_unknown,
}
use canopen_node.Sdo.{
  oda_readable, oda_writeable, Storage, domain, variable, members, Entry, Pointer, null, at_offset,
  at_max_sub_index, at_member, Arg, Answer, OdFunction, Sdo,
}
use canopen_node.Sdo.Od.{
  entry_at, member_at, no_member, is_domain, od_find, get_length, get_attribute, get_data_pointer,
  extension_at,
}
use canopen_node.Prelude.{
  ℕ, ◌+◌, Bool, true, false, not, ◌&&◌, ◌||◌, List, [], ◌∷◌, Option, none, some, ltb, ◌==◌, ◌/=◌,
  if◌then◌else◌, get_or, set, take, drop, u32, bit_and,
}

-- `SDO->ODF_arg.ODdataStorage == 0`
abbrev pub is_null : Pointer → Bool
is_null null = true
is_null (at_offset n) = false
is_null at_max_sub_index = false
is_null (at_member n) = false

-- Bytes that are copied over those of an array from an offset on; a write out of range is none.
abbrev pub overwrite : List ℕ → ℕ → List ℕ → List ℕ
overwrite bytes at [] = bytes
overwrite bytes at (b ∷ bs) = overwrite (set bytes at b) (at + 1) bs

abbrev pub bytes_of : Option (List ℕ) → List ℕ
bytes_of none = []
bytes_of (some bytes) = bytes

abbrev pub variable_of : Storage → List ℕ
variable_of domain = []
variable_of (variable bytes) = bytes
variable_of (members ms) = []

-- The bytes that a pointer points to.
abbrev pub stored : Entry → Pointer → List ℕ
stored object null = []
stored object (at_offset n) = drop n (variable_of object.pdata)
stored object at_max_sub_index = object.max_sub_index ∷ []
stored object (at_member i) = bytes_of (member_at object.pdata i).pdata

abbrev store_member : Storage → ℕ → List ℕ → Storage
store_member domain i bytes = domain
store_member (variable old) i bytes = variable old
store_member (members ms) i bytes =
    let m = get_or ms i no_member in
    members (set ms i (record m { pdata = some (overwrite (bytes_of m.pdata) 0 bytes) }))

abbrev store_variable : Storage → ℕ → List ℕ → Storage
store_variable domain n bytes = domain
store_variable (variable old) n bytes = variable (overwrite old n bytes)
store_variable (members ms) n bytes = members ms

-- The entry after bytes have been copied to where a pointer points.
abbrev pub store_at : Entry → Pointer → List ℕ → Entry
store_at object null bytes = object
store_at object (at_offset n) bytes = record object { pdata = store_variable object.pdata n bytes }
store_at object at_max_sub_index bytes = record object {
  max_sub_index = get_or bytes 0 object.max_sub_index;
}
store_at object (at_member i) bytes = record object { pdata = store_member object.pdata i bytes }

-- "fill ODF_arg"
abbrev filled_arg : Sdo → ℕ → ℕ → ℕ → Arg
filled_arg sdo entry_no index sub_index =
    let pointer = get_data_pointer sdo entry_no sub_index in
    let len = get_length sdo entry_no sub_index in
    record sdo.arg {
      index = index;
      sub_index = sub_index;
      od_data_storage = pointer;
      data_length = len;
      attribute = get_attribute sdo entry_no sub_index;
      first_segment = true;
      last_segment = true;
      data_length_total = if is_null pointer then 0 else len;
      offset = 0;
    }

unfoldable pub init_transfer : Sdo → ℕ → ℕ → AbortCode × Sdo
init_transfer sdo0 index sub_index =
    let entry_no = od_find sdo0.od index in
    let sdo = record sdo0 {
      entry_no = entry_no;
      arg = record sdo0.arg { index = index; sub_index = sub_index };
    } in
    let object = entry_at sdo.od entry_no in
    let arg = filled_arg sdo entry_no index sub_index in
    if entry_no == 0xffff
    then (ab_not_exist, sdo)
    else if ltb object.max_sub_index sub_index && not (is_domain object.pdata)
    then (ab_sub_unknown, sdo)
    else (
      if ltb sdo.buffer_size arg.data_length then ab_device_incompat else ab_none,
      record sdo { arg = arg },
    )

-- `abortCode != 0U`
abbrev pub is_abort : AbortCode → Bool
is_abort ab_none = false
is_abort other = true

-- The call of an object dictionary function, whose `data` is the buffer from `base` on.
abbrev pub called : Sdo → ℕ → Answer → Sdo
called sdo base answer = record sdo {
  arg = record sdo.arg {
    data_length = answer.data_length;
    last_segment = answer.last_segment;
    data_length_total = answer.data_length_total;
  };
  databuffer = overwrite sdo.databuffer base answer.bytes;
}

-- "copy data from OD to SDO buffer if not domain"
abbrev pub load_buffer : Sdo → ℕ → Sdo
load_buffer sdo base =
    let bytes = stored (entry_at sdo.od sdo.entry_no) sdo.arg.od_data_storage in
    record sdo {
      databuffer = overwrite sdo.databuffer base (take sdo.arg.data_length bytes);
      arg = record sdo.arg { reading = true };
    }

-- `offset` and `firstSegment` behind an access.
abbrev pub advanced : Sdo → Sdo
advanced sdo = record sdo {
  arg = record sdo.arg {
    offset = u32 (sdo.arg.offset + sdo.arg.data_length);
    first_segment = false;
  };
}

-- "call Object dictionary function if registered", and the check of the length that it gives.
abbrev read_function : Sdo → ℕ → ℕ → OdFunction → AbortCode × Sdo
read_function sdo size base f =
    let answer = f sdo.arg (drop base sdo.databuffer) in
    let sdo' = called sdo base answer in
    if is_abort answer.code
    then (answer.code, sdo')
    else if (answer.data_length == 0) || ltb size answer.data_length
    then (ab_device_incompat, sdo')
    else (ab_none, advanced sdo')

-- `CO_SDO_readOD`, with the pointer `data` of the argument at `base`. No byte is swapped: the processor
-- is taken to be little endian.
unfoldable pub read_od : Sdo → ℕ → ℕ → AbortCode × Sdo
read_od sdo size base =
    if bit_and sdo.arg.attribute oda_readable == 0
    then (ab_writeonly, sdo)
    else elim (extension_at sdo sdo.entry_no).od_function [
      | none ↦
          if is_null sdo.arg.od_data_storage
          then (ab_device_incompat, sdo)
          else (ab_none, advanced (load_buffer sdo base))
      | some f ↦
          read_function
            (if is_null sdo.arg.od_data_storage
              then record sdo { arg = record sdo.arg { reading = true } }
              else load_buffer sdo base)
            size base f
    ]

-- "copy data from SDO buffer to OD if not domain"; object 1003,00 is not written.
abbrev pub save_buffer : Sdo → ℕ → Sdo
save_buffer sdo len =
    let object = entry_at sdo.od sdo.entry_no in
    let object' = store_at object sdo.arg.od_data_storage (take len sdo.databuffer) in
    if (sdo.arg.index == 0x1003) && (sdo.arg.sub_index == 0)
    then sdo
    else record sdo { od = set sdo.od sdo.entry_no object' }

abbrev pub write_checked : Sdo → ℕ → AbortCode × Sdo
write_checked sdo len = elim (extension_at sdo sdo.entry_no).od_function [
  | none ↦ (ab_none, save_buffer (advanced sdo) len)
  | some f ↦
      let answer = f sdo.arg sdo.databuffer in
      let sdo' = called sdo 0 answer in
      if is_abort answer.code
      then (answer.code, sdo')
      else (ab_none, save_buffer (advanced sdo') len)
]

-- `CO_SDO_writeOD`; the pointer `data` stands at the start of the buffer.
unfoldable pub write_od : Sdo → ℕ → AbortCode × Sdo
write_od sdo len =
    let is_dom = is_null sdo.arg.od_data_storage in
    let data_length = if is_dom then len else sdo.arg.data_length in
    let sdo' = record sdo { arg = record sdo.arg { data_length = data_length; reading = false } } in
    if bit_and sdo.arg.attribute oda_writeable == 0
    then (ab_readonly, sdo)
    else if not is_dom && (sdo.arg.data_length /= len)
    then (ab_type_mismatch, sdo)
    else write_checked sdo' len
