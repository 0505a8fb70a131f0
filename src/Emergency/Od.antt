-- ===== src/Emergency/Od.antt =====
-- stack/CO_Emergency.c: the object dictionary functions of the pre-defined error field (0x1003) and
-- of the COB-ID of emergency messages (0x1014).
use canopen_node.Driver.{OdfArg, AbortCode, ab_none, ab_no_data, ab_invalid_value, ab_readonly}
use canopen_node.Emergency.Process.{Empr}
use canopen_node.Emergency.Process.ErrorField.{errors, IsField}
use canopen_node.Prelude.{
  ℕ, ◌+◌, ◌<◌, ◌≤◌, ◌≡◌, refl, true, false, List, [], ◌∷◌, ltb, ◌==◌, if◌then◌else◌, get_or, set,
  zero, suc, of_le32-le32, ◌⊎◌, ◌≢◌, ◌↔◌, drop, le32, of_le32, u32, arith, ◌++◌, take, length,
}

unfoldable pub odf_1003 : Empr → OdfArg → Empr × OdfArg × AbortCode
odf_1003 p arg =
    let value = get_or arg.bytes 0 0 in
    let no_of_errors = p.pre_def_err_no_of_errors in
    if arg.reading
    then if arg.sub_index == 0
      then (p, record arg { bytes = set arg.bytes 0 no_of_errors }, ab_none)
      else if ltb no_of_errors arg.sub_index
      then (p, arg, ab_no_data)
      else (p, arg, ab_none)
    else if arg.sub_index == 0
    then if value == 0
      then (record p { pre_def_err_no_of_errors = 0 }, arg, ab_none)
      else (p, arg, ab_invalid_value)
    else (p, arg, ab_readonly)

-- `CO_getUint32(ODF_arg->data)`
abbrev pub get_uint32 : OdfArg → ℕ
get_uint32 arg =
    of_le32 (get_or arg.bytes 0 0) (get_or arg.bytes 1 0) (get_or arg.bytes 2 0)
      (get_or arg.bytes 3 0)

-- `CO_ODF_1014`: the identifier that is read is the stored one plus the node id.
unfoldable pub odf_1014 : ℕ → OdfArg → OdfArg × AbortCode
odf_1014 node_id arg =
    if arg.reading
    then (record arg { bytes = le32 (u32 (get_uint32 arg + node_id)) ++ drop 4 arg.bytes }, ab_none)
    else (arg, ab_none)

-- The sub-index `i` of object 0x1003 can be read.
abbrev pub Readable : Empr → OdfArg → ℕ → Type 0
Readable p arg i = (odf_1003 p (record arg { sub_index = i; reading = true })).2 ≡ ab_none

-- The only write to object 0x1003 that is accepted is that of 0 to its sub-index 0. It empties the
-- history, and what is refused leaves the object as it is.
pub odf_1003_write :
    (p : Empr) (arg : OdfArg)
    → arg.reading ≡ false
    → let (p', _, code) = odf_1003 p arg in
      ((code ≡ ab_none) × (arg.sub_index ≡ 0) × (get_or arg.bytes 0 0 ≡ 0) × (errors p' ≡ []))
      ⊎ ((code ≢ ab_none) × (p' ≡ p))
unfolding odf_1003
odf_1003_write p arg h = ground arith

length-take_le : (n : ℕ) (l : List ℕ) → n ≤ length l → length (take n l) ≡ n
length-take_le zero l h = refl
length-take_le (suc n) [] h = absurd (omega arith)
length-take_le (suc n) (x ∷ l) h = omega (arith, length-take_le n l (omega arith))

length-errors : (p : Empr) → IsField p → length (errors p) ≡ p.pre_def_err_no_of_errors
length-errors p f =
    length-take_le p.pre_def_err_no_of_errors p.pre_def_err (omega (arith, f.within, f.fits))

-- Of object 0x1003 exactly the sub-indexes up to the number of errors in the history can be read.
pub odf_1003_read :
    (p : Empr) (arg : OdfArg) (i : ℕ) → IsField p → Readable p arg i ↔ (i ≤ length (errors p))
unfolding odf_1003
odf_1003_read p arg i f =
    (λ h. ground (arith, length-errors p f), λ h. ground (arith, length-errors p f))

-- An identifier that fits a uint32_t with the node id added is read as that sum.
pub odf_1014_read :
    (node_id value : ℕ) (arg : OdfArg)
    → arg.reading ≡ true
    → arg.bytes ≡ le32 value
    → value + node_id < 4294967296
    → get_uint32 (odf_1014 node_id arg).0 ≡ value + node_id
unfolding odf_1014
odf_1014_read node_id value arg h e l = rw (h, e, of_le32-le32 value (omega arith)) (omega arith)
