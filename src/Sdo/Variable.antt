-- ===== src/Sdo/Variable.antt =====
-- stack/CO_SDO.c: a variable as the object of a transfer.
use mathlib.Core.Path.{subst}
use native.Mathlib.Decide.{ℕ_discrete}
use canopen_node.Driver.{ab_none}
use canopen_node.Sdo.{
  oda_readable, oda_writeable, download_initiate, upload_initiate, variable, Entry, at_offset, Arg,
  Sdo,
}
use canopen_node.Sdo.Access.{store_at, init_transfer, advanced, load_buffer}
use canopen_node.Sdo.Buffer.{overwrite_all}
use canopen_node.Sdo.Od.{
  entry_at, no_entry, od_find, get_length, get_attribute, get_data_pointer, extension_at,
}
use canopen_node.Sdo.Outcome.{rx}
use canopen_node.Sdo.Process.{begun, start}
use canopen_node.Sdo.Store.{read_od_reads}
use canopen_node.Prelude.{
  ℕ, ◌+◌, ◌*◌, ◌/◌, ◌<◌, ◌≤◌, ◌≡◌, refl, ap, sym, ◌∙◌, true, false, List, none, ltb, ◌==◌, length,
  set, arith, bit_and, length-set, get_or-set_self, get_or-set_ne,
}

-- The object is a variable of one to four bytes that can be read and written, without an object
-- dictionary function.
abbrev pub IsVariable : Sdo → ℕ → List ℕ → Type 0
IsVariable sdo n bytes =
    let object = entry_at sdo.od n in
    (n < length sdo.od)
    × (n < 0xffff)
    × (object.max_sub_index ≡ 0)
    × ((bit_and object.attribute oda_writeable == 0) ≡ false)
    × ((bit_and object.attribute oda_readable == 0) ≡ false)
    × (object.pdata ≡ variable bytes)
    × (object.length ≡ length bytes)
    × (0 < length bytes)
    × (length bytes ≤ 4)
    × ((extension_at sdo n).od_function ≡ none)

-- The argument that is filled for such an object.
abbrev pub variable_arg : Sdo → ℕ → Arg
variable_arg sdo index =
    let object = entry_at sdo.od (od_find sdo.od index) in
    record sdo.arg {
      index = index;
      sub_index = 0;
      od_data_storage = at_offset 0;
      data_length = object.length;
      attribute = object.attribute;
      first_segment = true;
      last_segment = true;
      data_length_total = object.length;
      offset = 0;
    }

init_variable :
    (sdo : Sdo) (index : ℕ) (bytes : List ℕ)
    → IsVariable sdo (od_find sdo.od index) bytes
    → 4 ≤ sdo.buffer_size
    → init_transfer sdo index 0
      ≡ (ab_none, record sdo { entry_no = od_find sdo.od index; arg = variable_arg sdo index })
unfolding init_transfer get_length get_attribute get_data_pointer
init_variable sdo index bytes (inside, found, plain, w, r, at, len, some_byte, short, f) size =
    let n = od_find sdo.od index in
    let there : (n == 0xffff) ≡ false = ground arith in
    let object = entry_at sdo.od n in
    let single : (object.max_sub_index == 0) ≡ true = ground arith in
    let fits : ltb sdo.buffer_size object.length ≡ false = ground arith in
    let sub : ltb object.max_sub_index 0 ≡ false = ground arith in rw (there, single, sub, at, fits)

pub starts_download :
    (sdo : Sdo) (index : ℕ) (bytes : List ℕ)
    → IsVariable sdo (od_find sdo.od index) bytes
    → 4 ≤ sdo.buffer_size
    → rx sdo 0 / 32 ≡ 1
    → rx sdo 2 * 256 + rx sdo 1 ≡ index
    → rx sdo 3 ≡ 0
    → start sdo
      ≡ begun download_initiate
          (record sdo { entry_no = od_find sdo.od index; arg = variable_arg sdo index })
unfolding start
starts_download sdo index bytes var size cs ei es =
    let (inside, found, plain, w, r, at, len, some_byte, short, f) = var in
    rw (cs, ei, es, init_variable sdo index bytes var size, w)

pub starts_upload :
    (sdo : Sdo) (index : ℕ) (bytes : List ℕ)
    → IsVariable sdo (od_find sdo.od index) bytes
    → 4 ≤ sdo.buffer_size
    → rx sdo 0 / 32 ≡ 2
    → rx sdo 2 * 256 + rx sdo 1 ≡ index
    → rx sdo 3 ≡ 0
    → start sdo
      ≡ begun upload_initiate (
          advanced (
            load_buffer
              (record sdo { entry_no = od_find sdo.od index; arg = variable_arg sdo index })
              0))
unfolding start
starts_upload sdo index bytes var size cs ei es =
    let (inside, found, plain, w, r, at, len, some_byte, short, f) = var in
    let sdo' = record sdo { entry_no = od_find sdo.od index; arg = variable_arg sdo index } in
    rw (
      cs,
      ei,
      es,
      init_variable sdo index bytes var size,
      read_od_reads sdo' sdo.buffer_size 0 (r, refl, f),
    )

-- The dictionary with the bytes of the variable replaced.
abbrev pub replaced : Sdo → ℕ → List ℕ → List Entry
replaced sdo n bytes = set sdo.od n (store_at (entry_at sdo.od n) (at_offset 0) bytes)

module _ (sdo : Sdo) (n : ℕ) (old bytes : List ℕ) (var : IsVariable sdo n old) where
  replaced_entry :
      entry_at (replaced sdo n bytes) n ≡ store_at (entry_at sdo.od n) (at_offset 0) bytes
  replaced_entry =
      let (inside, found, plain, w, r, at, len, some_byte, short, f) = var in
      get_or-set_self sdo.od n (store_at (entry_at sdo.od n) (at_offset 0) bytes) no_entry inside

  pub replaced_indexes :
      (i : ℕ) → (entry_at (replaced sdo n bytes) i).index ≡ (entry_at sdo.od i).index
  replaced_indexes i = elim (ℕ_discrete n i) [
    | yes e ↦
        subst (λ k. (entry_at (replaced sdo n bytes) k).index ≡ (entry_at sdo.od k).index) e
          (ap (λ o. o.index) replaced_entry)
    | no ne ↦
        ap (λ o. o.index)
          (get_or-set_ne sdo.od n i (store_at (entry_at sdo.od n) (at_offset 0) bytes) no_entry ne)
  ]

  pub replaced-IsVariable :
      length bytes ≡ length old → IsVariable (record sdo { od = replaced sdo n bytes }) n bytes
  replaced-IsVariable e =
      let (inside, found, plain, w, r, at, len, some_byte, short, f) = var in
      let o = replaced_entry in
      (
        omega (arith, length-set sdo.od n (store_at (entry_at sdo.od n) (at_offset 0) bytes)),
        found,
        ap (λ x. x.max_sub_index) o ∙ plain,
        ap (λ x. bit_and x.attribute oda_writeable == 0) o ∙ w,
        ap (λ x. bit_and x.attribute oda_readable == 0) o ∙ r,
        ap (λ x. x.pdata) o ∙ rw at (ap variable (overwrite_all old bytes e)),
        ap (λ x. x.length) o ∙ len ∙ sym e,
        omega arith,
        omega arith,
        f,
      )
