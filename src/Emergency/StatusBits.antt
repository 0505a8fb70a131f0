-- ===== src/Emergency/StatusBits.antt =====
-- CO_Emergency.c: what reporting and resetting do to every error status bit.
use canopen_node.Emergency.{Em, status_byte, put_message, error_report, error_reset, is_error}
use canopen_node.Emergency.Valid.{IsValid, status_byte-lt}
use canopen_node.Prelude.{
  ℕ, ◌/◌, ◌%◌, ◌<◌, ◌≡◌, ◌≢◌, ◌∙◌, List, ◌==◌, ◌/=◌, ltb, leb, ◌&&◌, if◌then◌else◌, Bool, true,
  false, set, get_or-set_self, get_or-set_ne, arith, Bool-cases, inl, inr, ap,
}
use canopen_node.Prelude.Bits.{has_bit, set_bit, clear_bit, has_bit-set_bit, has_bit-clear_bit}
use native.Mathlib.Decide.{ℕ_discrete}

pub is_error-put_message :
    (em : Em) (msg : List ℕ) (c : ℕ) → is_error (put_message em msg) c ≡ is_error em c
unfolding is_error put_message
is_error-put_message em msg c = ground arith

-- The object with one status byte written.
abbrev with_byte : Em → ℕ → ℕ → Em
with_byte em i x = record em { error_status_bits = set em.error_status_bits i x }

-- Two error bits are equal if their bytes and their places in the byte are.
bit-eq : (b c : ℕ) → b / 8 ≡ c / 8 → (b % 8 == c % 8) ≡ (b == c)
bit-eq b c h = ground arith

bit-ne : (b c : ℕ) → b / 8 ≢ c / 8 → (b == c) ≡ false
bit-ne b c h = ground arith

module _ (em : Em) (v : IsValid em) (b : ℕ) (lt : b / 8 < em.error_status_bits_size) (c : ℕ) where
  own_byte : (x : ℕ) → b / 8 ≡ c / 8 → status_byte (with_byte em (b / 8) x) (c / 8) ≡ x
  own_byte x e = rw e (get_or-set_self em.error_status_bits (c / 8) x 0 (omega (arith, v.sized)))

  other_byte :
      (x : ℕ)
      → b / 8 ≢ c / 8
      → status_byte (with_byte em (b / 8) x) (c / 8) ≡ status_byte em (c / 8)
  other_byte x n = get_or-set_ne em.error_status_bits (b / 8) (c / 8) x 0 n

  is_error-set_bit :
      is_error (with_byte em (b / 8) (set_bit (status_byte em (b / 8)) (b % 8))) c
      ≡ (if b == c then true else is_error em c)
  unfolding is_error
  is_error-set_bit = elim (ℕ_discrete (b / 8) (c / 8)) [
    | yes e ↦ ground (
      arith,
      own_byte (set_bit (status_byte em (b / 8)) (b % 8)) e,
      bit-eq b c e,
      has_bit-set_bit (status_byte em (b / 8)) (b % 8) (c % 8) (status_byte-lt em (b / 8) v)
          (omega arith) (omega arith),
      ap (status_byte em) e,
    )
    | no n ↦ ground (arith, other_byte (set_bit (status_byte em (b / 8)) (b % 8)) n, bit-ne b c n)
  ]

  is_error-clear_bit :
      is_error (with_byte em (b / 8) (clear_bit (status_byte em (b / 8)) (b % 8))) c
      ≡ (if b == c then false else is_error em c)
  unfolding is_error
  is_error-clear_bit = elim (ℕ_discrete (b / 8) (c / 8)) [
    | yes e ↦ ground (
      arith,
      own_byte (clear_bit (status_byte em (b / 8)) (b % 8)) e,
      bit-eq b c e,
      has_bit-clear_bit (status_byte em (b / 8)) (b % 8) (c % 8) (status_byte-lt em (b / 8) v)
          (omega arith) (omega arith),
      ap (status_byte em) e,
    )
    | no n ↦ ground (arith, other_byte (clear_bit (status_byte em (b / 8)) (b % 8)) n, bit-ne b c n)
  ]

-- The error bit `b` can be reported: it is no `CO_EM_NO_ERROR` and has a status byte.
abbrev pub can_report : Em → ℕ → Bool
can_report em b = (b /= 0) && ltb (b / 8) em.error_status_bits_size

-- After an error has been reported, that error is present, if its bit has a status byte and is not
-- CO_EM_NO_ERROR, and every other error is present exactly if it was before.
pub is_error-error_report :
    (em : Em) (b code info c : ℕ)
    → IsValid em
    → is_error (error_report em b code info) c
      ≡ (if (b == c) && can_report em b then true else is_error em c)
unfolding error_report
is_error-error_report em b code info c v =
    elim (Bool-cases (leb em.error_status_bits_size (b / 8))) [
      | inl e ↦ rw e (unfold is_error in ground arith)
      | inr e ↦ rw e (elim (Bool-cases (has_bit (status_byte em (b / 8)) (b % 8))) [
        | inl p ↦ rw p (unfold is_error in ground (arith, ap (is_error em) {x = b} {y = c}))
        | inr p ↦ rw p (elim (Bool-cases (b /= 0)) [
          | inl q ↦
              rw q (
                is_error-put_message _ _ c
                ∙ is_error-set_bit em v b (ground arith) c
                ∙ ground arith)
          | inr q ↦ rw q (is_error-put_message em _ c ∙ ground arith)
        ])
      ])
    ]

-- After an error has been reset, that error is absent and every other error is present exactly if
-- it was before.
pub is_error-error_reset :
    (em : Em) (b info c : ℕ)
    → IsValid em
    → is_error (error_reset em b info) c ≡ (if b == c then false else is_error em c)
unfolding error_reset
is_error-error_reset em b info c v = elim (Bool-cases (leb em.error_status_bits_size (b / 8))) [
  | inl e ↦ rw e (unfold is_error in ground arith)
  | inr e ↦ rw e (elim (Bool-cases (has_bit (status_byte em (b / 8)) (b % 8))) [
    | inl p ↦ rw p (is_error-put_message _ _ c ∙ is_error-clear_bit em v b (ground arith) c)
    | inr p ↦ rw p (unfold is_error in ground arith)
  ])
]
