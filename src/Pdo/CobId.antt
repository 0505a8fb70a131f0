-- ===== src/Pdo/CobId.antt =====
-- stack/CO_PDO.c: the COB-ID of a PDO in its communication parameter.
use mathlib.Core.Path.{subst}
use canopen_node.Driver.{OdfArg, ab_none, ab_invalid_value, ReturnError}
use canopen_node.Emergency.Od.{get_uint32}
use canopen_node.Nmt.{nmt_operational}
use canopen_node.Pdo.{Rpdo, RpdoCommPar}
use canopen_node.Pdo.Com.{rpdo_config_com}
use canopen_node.Pdo.Od.{
  shown_cob_id, stored_cob_id, has_high_bits, is_changed, is_restricted, with_uint32,
  write_rpdo_cob_id, odf_rpdo_com,
}
use canopen_node.Prelude.{
  ℕ, ◌+◌, ◌*◌, ◌/◌, ◌%◌, ◌<◌, ◌≡◌, ◌≢◌, ◌⊎◌, refl, sym, ap, ap₂, ◌∙◌, Bool, true, false, ◌&&◌, ◌==◌,
  ◌/=◌, if◌then◌else◌, arith, Bool-cases, inl, inr, u16, u32, of_le32-le32,
}

value-with_uint32 : (arg : OdfArg) (n : ℕ) → n < 4294967296 → get_uint32 (with_uint32 arg n) ≡ n
value-with_uint32 arg n h = of_le32-le32 n h

-- The value that is stored is shown as it was written.
shown-stored :
    (value default node : ℕ) (valid : Bool)
    → value < 4294967296
    → default ≢ 0
    → default + node < 65536
    → has_high_bits value ≡ false
    → u16 value ≢ default
    → shown_cob_id (stored_cob_id value default node) default node valid
      ≡ (if valid then value else value % 2147483648 + 2147483648)
shown-stored value default node valid small used low high other =
    elim (Bool-cases (u16 value == default + node)) [
      | inl standard ↦
          let same : u16 value ≡ default + node = ground arith in
          let stored : u32 (value / 1073741824 % 4 * 1073741824 + default)
              ≡ value / 1073741824 * 1073741824 + default =
            omega arith in
          let zeros : value / 32768 % 32768 ≡ 0 = ground arith in
          let found : u16 (value / 1073741824 * 1073741824 + default) ≡ default = omega arith in
          let back : u32 (value / 1073741824 * 1073741824 + default + node) ≡ value = omega arith in
          let test : ((u16 (value / 1073741824 * 1073741824 + default) == default)
                && (default /= 0))
              ≡ true =
            ground arith in
          rw (standard, stored, test, back)
      | inr custom ↦
          let test : ((u16 value == default) && (default /= 0)) ≡ false = ground arith in
          rw (custom, test)
    ]

stored_cob_id-lt :
    (value default node : ℕ) → value < 4294967296 → stored_cob_id value default node < 4294967296
stored_cob_id-lt value default node small = ground arith

config_com_keeps :
    (rpdo : Rpdo) (par : RpdoCommPar) (cob_id : ℕ) (r : ReturnError)
    → ((rpdo_config_com rpdo par cob_id r).0.default_cob_id ≡ rpdo.default_cob_id)
      × ((rpdo_config_com rpdo par cob_id r).0.node_id ≡ rpdo.node_id)
unfolding rpdo_config_com
config_com_keeps rpdo par cob_id r = (ground arith, ground arith)

module _ (rpdo : Rpdo) (par : RpdoCommPar) (state : ℕ) (arg : OdfArg) (r : ReturnError) where
  -- The write to the COB-ID is refused before the value is looked at, or handled.
  write_lem :
      arg.reading ≡ false
      → arg.sub_index ≡ 1
      → let result = odf_rpdo_com rpdo par state arg r in
        ((result.0 ≢ ab_none) × (result.1 ≡ rpdo)) ⊎ (result ≡ write_rpdo_cob_id rpdo par arg r)
  unfolding odf_rpdo_com
  write_lem writing sub =
      let first : (arg.sub_index == 1) ≡ true = ground arith in
      elim (Bool-cases (is_restricted rpdo.restriction_flags 0x04)) [
        | inl locked ↦ rw (writing, locked) (inl (λ e. cc e, refl))
        | inr unlocked ↦
            elim (Bool-cases
              ((state == nmt_operational) && is_restricted rpdo.restriction_flags 0x01)) [
                | inl locked ↦ rw (writing, unlocked, locked) (inl (λ e. cc e, refl))
                | inr allowed ↦ rw (writing, unlocked, allowed, first) (inr refl)
              ]
      ]

  accepted :
      (write_rpdo_cob_id rpdo par arg r).0 ≡ ab_none
      → let value = stored_cob_id (get_uint32 arg) rpdo.default_cob_id rpdo.node_id in
        (has_high_bits (get_uint32 arg) ≡ false)
        × ((rpdo.valid && is_changed value par.cob_id_used_by_rpdo) ≡ false)
        × (write_rpdo_cob_id rpdo par arg r
            ≡ (ab_none, (rpdo_config_com rpdo par value r).0, with_uint32 arg value))
  unfolding write_rpdo_cob_id
  accepted good =
      let value = stored_cob_id (get_uint32 arg) rpdo.default_cob_id rpdo.node_id in
      elim (Bool-cases (has_high_bits (get_uint32 arg))) [
        | inl high ↦
            let refused : (write_rpdo_cob_id rpdo par arg r).0 ≡ ab_invalid_value = rw high in
            absurd (cc (good, refused))
        | inr low ↦ elim (Bool-cases (rpdo.valid && is_changed value par.cob_id_used_by_rpdo)) [
          | inl frozen ↦
              let refused : (write_rpdo_cob_id rpdo par arg r).0 ≡ ab_invalid_value =
                rw (low, frozen) in
              absurd (cc (good, refused))
          | inr free ↦ (low, free, rw (low, free))
        ]
      ]

  read_lem :
      arg.sub_index ≡ 1
      → get_uint32 (odf_rpdo_com rpdo par state (record arg { reading = true }) r).2
        ≡ get_uint32 (
            with_uint32 arg
              (shown_cob_id (get_uint32 arg) rpdo.default_cob_id rpdo.node_id rpdo.valid))
  unfolding odf_rpdo_com
  read_lem sub = let first : (arg.sub_index == 1) ≡ true = ground arith in rw first

  -- While an RPDO is valid, a write to its COB-ID that would change the bits 0 to 29 of what the dictionary
  -- has, with the default identifier without the node id, is refused, and the RPDO stays as it is.
  pub odf_rpdo_com_frozen :
      arg.reading ≡ false
      → arg.sub_index ≡ 1
      → rpdo.valid ≡ true
      → stored_cob_id (get_uint32 arg) rpdo.default_cob_id rpdo.node_id % 1073741824
        ≢ par.cob_id_used_by_rpdo % 1073741824
      → let result = odf_rpdo_com rpdo par state arg r in (result.0 ≢ ab_none) × (result.1 ≡ rpdo)
  unfolding write_rpdo_cob_id
  odf_rpdo_com_frozen writing sub valid differs = elim (write_lem writing sub) [
    | inl refused ↦ refused
    | inr handled ↦
        let value = stored_cob_id (get_uint32 arg) rpdo.default_cob_id rpdo.node_id in
        let changed : (rpdo.valid && is_changed value par.cob_id_used_by_rpdo) ≡ true =
          ground arith in
        subst (λ p. (p.0 ≢ ab_none) × (p.1 ≡ rpdo)) (sym handled)
          (elim (Bool-cases (has_high_bits (get_uint32 arg))) [
            | inl high ↦ rw high (λ e. cc e, refl)
            | inr low ↦ rw (low, changed) (λ e. cc e, refl)
          ])
  ]

shown_cob_id-lt :
    (value default node : ℕ) (valid : Bool)
    → value < 4294967296
    → shown_cob_id value default node valid < 4294967296
shown_cob_id-lt value default node valid small = ground arith

-- What is read behind the configuration.
shown_again :
    (rpdo : Rpdo) (par : RpdoCommPar) (state : ℕ) (arg : OdfArg) (r : ReturnError)
    → get_uint32 arg < 4294967296
    → rpdo.default_cob_id ≢ 0
    → rpdo.default_cob_id + rpdo.node_id < 65536
    → has_high_bits (get_uint32 arg) ≡ false
    → u16 (get_uint32 arg) ≢ rpdo.default_cob_id
    → arg.sub_index ≡ 1
    → let value = stored_cob_id (get_uint32 arg) rpdo.default_cob_id rpdo.node_id in
      let rpdo' = (rpdo_config_com rpdo par value r).0 in
      get_uint32
        (odf_rpdo_com rpdo' par state (record (with_uint32 arg value) { reading = true }) r).2
      ≡ (if rpdo'.valid then get_uint32 arg else get_uint32 arg % 2147483648 + 2147483648)
shown_again rpdo par state arg r small used low flags other sub =
    let value = stored_cob_id (get_uint32 arg) rpdo.default_cob_id rpdo.node_id in
    let rpdo' = (rpdo_config_com rpdo par value r).0 in
    let arg' = with_uint32 arg value in
    let (same_default, same_node) = config_com_keeps rpdo par value r in
    let below = stored_cob_id-lt (get_uint32 arg) rpdo.default_cob_id rpdo.node_id small in
    let kept = value-with_uint32 arg value below in
    let shown = shown_cob_id value rpdo.default_cob_id rpdo.node_id rpdo'.valid in
    let fields : shown_cob_id (get_uint32 arg') rpdo'.default_cob_id rpdo'.node_id rpdo'.valid
        ≡ shown =
      ap (λ v. shown_cob_id v rpdo'.default_cob_id rpdo'.node_id rpdo'.valid) kept
      ∙ ap₂ (λ d n. shown_cob_id value d n rpdo'.valid) same_default same_node in
    read_lem rpdo' par state arg' r sub
    ∙ ap (λ v. get_uint32 (with_uint32 arg' v)) fields
    ∙ value-with_uint32 arg' shown
        (shown_cob_id-lt value rpdo.default_cob_id rpdo.node_id rpdo'.valid below)
    ∙ shown-stored (get_uint32 arg) rpdo.default_cob_id rpdo.node_id rpdo'.valid small used low
        flags other

-- A COB-ID that `CO_ODF_RPDOcom` accepts, other than the default identifier itself, is read as it was written, with bit 31 set if the RPDO is not
-- valid then. This holds of a value of 32 bits, if the default identifier is not 0 and with the node id
-- fits into 16 bits.
pub odf_rpdo_com_read :
    (rpdo : Rpdo) (par : RpdoCommPar) (state : ℕ) (arg : OdfArg) (r : ReturnError)
    → arg.reading ≡ false
    → arg.sub_index ≡ 1
    → get_uint32 arg < 4294967296
    → rpdo.default_cob_id ≢ 0
    → rpdo.default_cob_id + rpdo.node_id < 65536
    → u16 (get_uint32 arg) ≢ rpdo.default_cob_id
    → (odf_rpdo_com rpdo par state arg r).0 ≡ ab_none
    → let (code, rpdo', arg') = odf_rpdo_com rpdo par state arg r in
      get_uint32 (odf_rpdo_com rpdo' par state (record arg' { reading = true }) r).2
      ≡ (if rpdo'.valid then get_uint32 arg else get_uint32 arg % 2147483648 + 2147483648)
odf_rpdo_com_read rpdo par state arg r writing sub small used low other good =
    elim (write_lem rpdo par state arg r writing sub) [
      | inl (refused, same) ↦ absurd (refused good)
      | inr handled ↦
          let (flags, free, run) =
            accepted rpdo par state arg r (sym (ap (λ p. p.0) handled) ∙ good) in
          subst
            (λ p.
              get_uint32 (odf_rpdo_com p.1 par state (record p.2 { reading = true }) r).2
              ≡ (if p.1.valid then get_uint32 arg else get_uint32 arg % 2147483648 + 2147483648))
            (sym (handled ∙ run)) (shown_again rpdo par state arg r small used low flags other sub)
    ]
