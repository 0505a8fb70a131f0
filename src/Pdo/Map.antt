-- ===== src/Pdo/Map.antt =====
-- stack/CO_PDO.c: `CO_PDOfindMap`, `CO_RPDOconfigMap` and `CO_TPDOconfigMap`.
use canopen_node.Driver.{AbortCode, ab_none, ab_no_map, ab_map_len, ab_not_exist}
use canopen_node.Emergency.{Em, error_report}
use canopen_node.Emergency.Codes.{em_pdo_wrong_mapping, emc_protocol_error}
use canopen_node.Pdo.{Place, dummy, od_byte, PdoMapPar, Rpdo, Tpdo}
use canopen_node.Sdo.{Sdo, oda_readable, oda_writeable, oda_rpdo_mapable}
use canopen_node.Sdo.Access.{is_abort}
use canopen_node.Sdo.Od.{entry_at, od_find, get_length, get_attribute, get_data_pointer}
use canopen_node.Prelude.{
  ℕ, zero, suc, ◌+◌, ◌-◌, ◌/◌, ◌%◌, Bool, true, false, not, ◌&&◌, ◌||◌, List, ltb, leb, ◌==◌, ◌/=◌,
  if◌then◌else◌, get_or, set, u8, u16, bit_and,
}
use canopen_node.Prelude.Bits.{set_bit}

-- `CO_SDO_OD_attributes_t`
abbrev pub oda_tpdo_mapable : ℕ
oda_tpdo_mapable = 0x0020

abbrev pub oda_tpdo_detect_cos : ℕ
oda_tpdo_detect_cos = 0x0040

-- The result of `CO_PDOfindMap`, with what it returns in the pointers that it is given. The mark of a
-- multibyte variable is used by a big endian processor only.
pub record Found : Type 0 where
  pub code : AbortCode
  pub pdata : Place
  pub length : ℕ
  pub send_if_cos_flags : ℕ

-- A result without an object of the dictionary: an error, or a dummy entry.
abbrev pub no_object : ℕ → ℕ → AbortCode → Found
no_object length flags code = record {
  code = code;
  pdata = dummy;
  length = length;
  send_if_cos_flags = flags;
}

-- "is there a reference to dummy entries"
abbrev pub dummy_size : ℕ → ℕ
dummy_size index =
    if ltb index 2
    then 0
    else if (index == 2) || (index == 5)
    then 1
    else if (index == 3) || (index == 6)
    then 2
    else 4

-- "setup change of state flags": `n` flags from bit `i` on.
abbrev pub mark_bits : ℕ → ℕ → ℕ → ℕ
mark_bits flags i zero = flags
mark_bits flags i (suc n) = mark_bits (set_bit flags i) (i + 1) n

-- "Is object Mappable for RPDO?", "Is object Mappable for TPDO?"
abbrev pub is_mapable : Bool → ℕ → Bool
is_mapable transmit attr =
    if transmit
    then (bit_and attr oda_tpdo_mapable /= 0) && (bit_and attr oda_readable /= 0)
    else (bit_and attr oda_rpdo_mapable /= 0) && (bit_and attr oda_writeable /= 0)

-- The second part of `CO_PDOfindMap`: "find object in Object Dictionary"
unfoldable pub find_object : Sdo → ℕ → ℕ → ℕ → Bool → ℕ → ℕ → Found
find_object sdo index sub_index data_len transmit length flags =
    let entry_no = od_find sdo.od index in
    let attr = get_attribute sdo entry_no sub_index in
    let object_len = u8 (get_length sdo entry_no sub_index) in
    if (entry_no == 0xffff) || ltb (entry_at sdo.od entry_no).max_sub_index sub_index
    then no_object length flags ab_not_exist
    else if not (is_mapable transmit attr)
    then no_object length flags ab_no_map
    else if ltb object_len data_len
    then no_object length flags ab_no_map
    else (record {
      code = ab_none;
      pdata = od_byte entry_no (get_data_pointer sdo entry_no sub_index) 0;
      length = length;
      send_if_cos_flags =
          if bit_and attr oda_tpdo_detect_cos /= 0
          then mark_bits flags (length - data_len) data_len
          else flags;
    })

-- `CO_PDOfindMap`: `transmit` is `R_T`, `length` and `flags` what the pointers point to.
unfoldable pub find_map : Sdo → ℕ → Bool → ℕ → ℕ → Found
find_map sdo map transmit length flags =
    let index = u16 (map / 65536) in
    let sub_index = u8 (map / 256) in
    let data_len = u8 map / 8 in
    let length' = u8 (length + data_len) in
    if u8 map % 8 /= 0
    then no_object length flags ab_no_map
    else if ltb 8 length'
    then no_object length' flags ab_map_len
    else if leb index 7 && (sub_index == 0)
    then if ltb (dummy_size index) data_len
      then no_object length' flags ab_no_map
      else no_object length' flags ab_none
    else find_object sdo index sub_index data_len transmit length' flags

-- `pData++`
abbrev pub next_byte : Place → Place
next_byte dummy = dummy
next_byte (od_byte e p k) = od_byte e p (k + 1)

-- "write PDO data pointers": `n` of them from `j` on.
abbrev pub point : List Place → ℕ → Place → ℕ → List Place
point places j place zero = places
point places j place (suc n) = point (set places j place) (j + 1) (next_byte place) n

-- What the loop of the two functions works on.
pub record Mapping : Type 0 where
  pub code : AbortCode
  pub length : ℕ
  pub map_pointer : List Place
  pub send_if_cos_flags : ℕ
  pub em : Em

-- The loop of `CO_RPDOconfigMap` and `CO_TPDOconfigMap` over the mapped objects from the `i`-th on,
-- `count` of them. One that the parameter does not have is read as 0. The flags are those of a
-- transmitted PDO; a received one has no use for them.
unfoldable pub map_objects : Sdo → List ℕ → Bool → ℕ → ℕ → Mapping → Mapping
map_objects sdo objects transmit i zero m = m
map_objects sdo objects transmit i (suc count) m =
    let map = get_or objects i 0 in
    let found = find_map sdo map transmit m.length m.send_if_cos_flags in
    let rest = map_objects sdo objects transmit (i + 1) count (record m {
      code = ab_none;
      length = found.length;
      map_pointer = point m.map_pointer m.length found.pdata (found.length - m.length);
      send_if_cos_flags = found.send_if_cos_flags;
    }) in
    if is_abort found.code
    then (record m {
      code = found.code;
      length = 0;
      send_if_cos_flags = found.send_if_cos_flags;
      em = error_report m.em em_pdo_wrong_mapping emc_protocol_error map;
    })
    else rest

unfoldable pub rpdo_config_map : Rpdo → Sdo → Em → PdoMapPar → ℕ → AbortCode × Rpdo × Em
rpdo_config_map rpdo sdo em par no_of_mapped_objects =
    let m = map_objects sdo par.mapped_objects false 0 no_of_mapped_objects (record {
      code = ab_none;
      length = 0;
      map_pointer = rpdo.map_pointer;
      send_if_cos_flags = 0;
      em = em;
    }) in
    (m.code, record rpdo { data_length = m.length; map_pointer = m.map_pointer }, m.em)

unfoldable pub tpdo_config_map : Tpdo → Sdo → Em → PdoMapPar → ℕ → AbortCode × Tpdo × Em
tpdo_config_map tpdo sdo em par no_of_mapped_objects =
    let m = map_objects sdo par.mapped_objects true 0 no_of_mapped_objects (record {
      code = ab_none;
      length = 0;
      map_pointer = tpdo.map_pointer;
      send_if_cos_flags = 0;
      em = em;
    }) in
    (
      m.code,
      record tpdo {
        data_length = m.length;
        map_pointer = m.map_pointer;
        send_if_cos_flags = m.send_if_cos_flags;
      },
      m.em,
    )
