-- ===== src/Pdo/Cos.antt =====
-- stack/CO_PDO.c: `CO_TPDOisCOS` decides whether a byte that is to be watched has changed.
use canopen_node.Pdo.{Tpdo, dummy}
use canopen_node.Pdo.Places.{read_place}
use canopen_node.Pdo.Transmit.{is_byte_changed, cases_from, is_cos}
use canopen_node.Sdo.{Entry}
use canopen_node.Prelude.{
  ℕ, zero, suc, ◌<◌, ◌≤◌, ◌≡◌, ◌≢◌, ◌↔◌, true, ◌==◌, sym, ◌||◌, List, leb, get_or, arith,
  Bool-cases, inl, inr, ap, ◌∙◌,
}
use canopen_node.Prelude.Bits.{has_bit}

-- A mapped byte that asks for sending differs from the one that was sent last.
abbrev pub HasChange : Tpdo → List Entry → ℕ → Type 0
HasChange tpdo od n =
    (i : ℕ) × (i < n)
    × (has_bit tpdo.send_if_cos_flags i ≡ true)
    × (get_or tpdo.can_tx_buff.bytes i 0 ≢ read_place od (get_or tpdo.map_pointer i dummy))

found_change :
    (tpdo : Tpdo) (od : List Entry) (n : ℕ) → cases_from tpdo od n ≡ true → HasChange tpdo od n
unfolding cases_from
found_change tpdo od zero h = absurd (cc h)
found_change tpdo od (suc i) h = elim (Bool-cases (is_byte_changed tpdo od i)) [
  | inl now ↦ (i, omega arith, ground arith, ground arith)
  | inr not_now ↦
      let rest : cases_from tpdo od i ≡ true = ground arith in
      let (j, l, f, d) = found_change tpdo od i rest in (j, omega arith, f, d)
]

change_found :
    (tpdo : Tpdo) (od : List Entry) (n i : ℕ)
    → i < n
    → is_byte_changed tpdo od i ≡ true
    → cases_from tpdo od n ≡ true
unfolding cases_from
change_found tpdo od zero i l h = absurd (omega arith)
change_found tpdo od (suc n) i l h = elim (Bool-cases (i == n)) [
  | inl same ↦
      let e : i ≡ n = ground arith in
      ap (λ j. is_byte_changed tpdo od j || cases_from tpdo od n) (sym e)
      ∙ ap (λ b. b || cases_from tpdo od n) h
  | inr other ↦ let rest = change_found tpdo od n i (ground arith) h in ground arith
]

-- `CO_TPDOisCOS` of a PDO of at most 8 bytes is 1 exactly if a mapped byte with its flag for a change of
-- state differs in the object dictionary from what the transmit buffer holds.
pub is_cos_iff :
    (tpdo : Tpdo) (od : List Entry)
    → tpdo.data_length ≤ 8
    → (is_cos tpdo od ≡ true) ↔ HasChange tpdo od tpdo.data_length
unfolding is_cos
is_cos_iff tpdo od short =
    let small : leb tpdo.data_length 8 ≡ true = ground arith in
    (
      λ h. found_change tpdo od tpdo.data_length (ground arith),
      λ (i, l, f, d).
          let changed : is_byte_changed tpdo od i ≡ true = ground arith in
          let found = change_found tpdo od tpdo.data_length i l changed in ground arith,
    )
