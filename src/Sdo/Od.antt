-- ===== src/Sdo/Od.antt =====
-- stack/CO_SDO.c: the search in the object dictionary, and what it says of an object.
use canopen_node.Sdo.{
  oda_readable, oda_writeable, oda_rpdo_mapable, Member, Storage, domain, variable, members, Entry,
  Pointer, null, at_offset, at_max_sub_index, at_member, OdFunction, Extension, Sdo,
}
use canopen_node.Prelude.{
  ℕ, zero, suc, ◌+◌, ◌-◌, ◌*◌, ◌/◌, Bool, true, false, not, ◌&&◌, List, Option, none, some, ltb,
  ◌==◌, ◌/=◌, if◌then◌else◌, length, get_or, set, replicate, bit_and, bit_or,
}

abbrev pub no_entry : Entry
no_entry = record { index = 0; max_sub_index = 0; attribute = 0; length = 0; pdata = domain }

-- `SDO->OD[entryNo]`
abbrev pub entry_at : List Entry → ℕ → Entry
entry_at od n = get_or od n no_entry

-- `max = cur; if(max) max--;`
abbrev pub below : ℕ → ℕ
below cur = cur - 1

-- The end of `CO_OD_find`: "Is object matched"
abbrev pub find_last : List Entry → ℕ → ℕ → ℕ → ℕ
find_last od index min max =
    if min == max then (if (entry_at od min).index == index then min else 0xffff) else 0xffff

-- The loop of `CO_OD_find` and what follows it. `none` is a loop that needs more passes than given.
unfoldable pub find_loop : ℕ → List Entry → ℕ → ℕ → ℕ → Option ℕ
find_loop zero od index min max = if ltb min max then none else some (find_last od index min max)
find_loop (suc passes) od index min max =
    let cur = (min + max) / 2 in
    let key = (entry_at od cur).index in
    let rest =
      find_loop passes od index (if ltb index key then min else cur + 1)
        (if ltb index key then below cur else max) in
    if ltb min max
    then if index == key then some cur else rest
    else some (find_last od index min max)

-- `CO_OD_find` in a dictionary of at most 65535 entries: 16 passes.
unfoldable pub od_find : List Entry → ℕ → ℕ
od_find od index = elim (find_loop 16 od index 0 (length od - 1)) [ none ↦ 0xffff | some n ↦ n ]

abbrev pub no_member : Member
no_member = record { pdata = none; attribute = 0; length = 0 }

-- `((const CO_OD_entryRecord_t*)(object->pData))[subIndex]`
abbrev pub member_at : Storage → ℕ → Member
member_at domain i = no_member
member_at (variable bytes) i = no_member
member_at (members ms) i = get_or ms i no_member

-- `object->pData == 0`
abbrev pub is_domain : Storage → Bool
is_domain domain = true
is_domain (variable bytes) = false
is_domain (members ms) = false

abbrev is_none {ℓ} : {A : Type ℓ} → Option A → Bool
is_none none = true
is_none (some a) = false

unfoldable pub get_length : Sdo → ℕ → ℕ → ℕ
get_length sdo entry_no sub_index =
    let object = entry_at sdo.od entry_no in
    let own = if is_domain object.pdata then sdo.buffer_size else object.length in
    let member = member_at object.pdata sub_index in
    if entry_no == 0xffff
    then 0
    else if object.max_sub_index == 0
    then own
    else if object.attribute /= 0
    then if sub_index == 0 then 1 else own
    else if is_none member.pdata
    then sdo.buffer_size
    else member.length

-- "Special exception: Object 1003,00 should be writable", "First subIndex is readonly"
abbrev array_attribute : Entry → ℕ → ℕ
array_attribute object sub_index =
    if sub_index == 0
    then if object.index == 0x1003
      then bit_or object.attribute oda_writeable
      else bit_or (bit_and object.attribute (0xffff - (oda_writeable + oda_rpdo_mapable)))
          oda_readable
    else object.attribute

unfoldable pub get_attribute : Sdo → ℕ → ℕ → ℕ
get_attribute sdo entry_no sub_index =
    let object = entry_at sdo.od entry_no in
    if entry_no == 0xffff
    then 0
    else if object.max_sub_index == 0
    then object.attribute
    else if object.attribute /= 0
    then array_attribute object sub_index
    else (member_at object.pdata sub_index).attribute

unfoldable pub get_data_pointer : Sdo → ℕ → ℕ → Pointer
get_data_pointer sdo entry_no sub_index =
    let object = entry_at sdo.od entry_no in
    if entry_no == 0xffff
    then null
    else if object.max_sub_index == 0
    then if is_domain object.pdata then null else at_offset 0
    else if ltb object.max_sub_index sub_index
    then null
    else if object.attribute /= 0
    then if sub_index == 0
      then at_max_sub_index
      else if is_domain object.pdata
      then null
      else at_offset ((sub_index - 1) * object.length)
    else if is_none (member_at object.pdata sub_index).pdata
    then null
    else at_member sub_index

abbrev pub no_extension : Extension
no_extension = record { od_function = none; flags = none }

-- `SDO->ODExtensions[entryNo]`
abbrev pub extension_at : Sdo → ℕ → Extension
extension_at sdo entry_no = get_or sdo.extensions entry_no no_extension

-- `CO_OD_getFlagsPointer`: the flags of the entry and the index into them.
unfoldable get_flags_pointer : Sdo → ℕ → ℕ → Option (List ℕ × ℕ)
get_flags_pointer sdo entry_no sub_index =
    if entry_no == 0xffff then none else elim (extension_at sdo entry_no).flags [
      | none ↦ none
      | some flags ↦ some (flags, sub_index)
    ]

-- `CO_OD_configure`: `flags` is the array that is passed, of `flagsSize` bytes, or the null pointer.
unfoldable pub od_configure : Sdo → ℕ → Option OdFunction → Option (List ℕ) → ℕ → Sdo
od_configure sdo index f flags flags_size =
    let entry_no = od_find sdo.od index in
    let max_sub_index = (entry_at sdo.od entry_no).max_sub_index in
    let given = not (is_none flags) && ((flags_size /= 0) && (flags_size == max_sub_index)) in
    let cleared = if given then some (replicate (max_sub_index + 1) 0) else none in
    if ltb entry_no 0xffff
    then record sdo {
      extensions = set sdo.extensions entry_no (record { od_function = f; flags = cleared });
    }
    else sdo
