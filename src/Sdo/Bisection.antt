-- ===== src/Sdo/Bisection.antt =====
-- stack/CO_SDO.c: the passes of the loop of `CO_OD_find`.
use native.Mathlib.Nat.{pow-suc, one-le-pow}
use native.Mathlib.Decide.{dec_lt}
use canopen_node.Sdo.{Entry}
use canopen_node.Sdo.Od.{entry_at, below, find_last, find_loop}
use canopen_node.Prelude.{
  ℕ, zero, suc, ◌+◌, ◌-◌, ◌/◌, ◌^◌, ◌<◌, ◌≤◌, ◌≡◌, ◌≢◌, ◌⊎◌, inl, inr, refl, false, List, some, ltb,
  ap, ◌==◌, if◌then◌else◌, length, arith, Bool-cases,
}

-- The indexes ascend, as the comment on the search asks for.
abbrev pub IsOrdered : List Entry → Type 0
IsOrdered od = (i j : ℕ) → i < j → j < length od → (entry_at od i).index < (entry_at od j).index

-- An entry with the index, or none from `min` to `max`.
abbrev pub Locates : List Entry → ℕ → ℕ → ℕ → ℕ → Type 0
Locates od index min max n =
    ((n < length od) × ((entry_at od n).index ≡ index))
    ⊎ ((n ≡ 0xffff) × ((i : ℕ) → min ≤ i → i ≤ max → (entry_at od i).index ≢ index))

module _ (od : List Entry) (index : ℕ) (ordered : IsOrdered od) where
  find_last-Locates :
      (min max : ℕ)
      → max < length od
      → ltb min max ≡ false
      → Locates od index min max (find_last od index min max)
  find_last-Locates min max inside ended = elim (Bool-cases (min == max)) [
    | inl e ↦ elim (Bool-cases ((entry_at od min).index == index)) [
      | inl hit ↦ rw (e, hit) (inl (ground arith, ground arith))
      | inr miss ↦
          rw (e, miss)
            (inr (
              refl,
              λ i l h q.
                  let same : i ≡ min = ground arith in
                  absurd (ground (arith, ap (λ k. (entry_at od k).index) same)),
            ))
    ]
    | inr e ↦ rw e (inr (refl, λ i l h. absurd (ground arith)))
  ]

  -- What is left out of the range holds no such entry.
  widen :
      (min max min' max' n : ℕ)
      → Locates od index min' max' n
      → ((i : ℕ) → min ≤ i → i ≤ max → (entry_at od i).index ≡ index → (min' ≤ i) × (i ≤ max'))
      → Locates od index min max n
  widen min max min' max' n (inl found) out = inl found
  widen min max min' max' n (inr (e, missing)) out =
      inr (e, λ i l h q. let (l', h') = out i l h q in missing i l' h' q)

  module _ (cur min max : ℕ) (inside : max < length od) where
    -- Above `cur` and at it the indexes are greater than one that is less than that of `cur`.
    left_part :
        index < (entry_at od cur).index
        → cur < length od
        → (i : ℕ) → min ≤ i
        → i ≤ max
        → (entry_at od i).index ≡ index
        → (min ≤ i) × (i ≤ below cur)
    left_part less fits i l h q = elim (dec_lt i cur) [
      | yes b ↦ (l, omega arith)
      | no b ↦ elim (dec_lt cur i) [
        | yes c ↦ absurd (omega (arith, ordered cur i c (omega arith)))
        | no c ↦
            let same : i ≡ cur = omega arith in
            absurd (omega (arith, ap (λ k. (entry_at od k).index) same))
      ]
    ]

    right_part :
        (entry_at od cur).index < index
        → cur ≤ max
        → (i : ℕ) → min ≤ i
        → i ≤ max
        → (entry_at od i).index ≡ index
        → (cur + 1 ≤ i) × (i ≤ max)
    right_part more fits i l h q = elim (dec_lt cur i) [
      | yes b ↦ (omega arith, h)
      | no b ↦ elim (dec_lt i cur) [
        | yes c ↦ absurd (omega (arith, ordered i cur c (omega arith)))
        | no c ↦
            let same : i ≡ cur = omega arith in
            absurd (omega (arith, ap (λ k. (entry_at od k).index) same))
      ]
    ]

  pub find_loop-Locates :
      (passes min max : ℕ)
      → max < length od
      → min ≤ max + 1
      → max + 1 - min ≤ 2 ^ passes
      → (n : ℕ) × (find_loop passes od index min max ≡ some n) × Locates od index min max n
  unfolding find_loop
  find_loop-Locates zero min max inside close small =
      let ended : ltb min max ≡ false = ground arith in
      (find_last od index min max, rw ended, find_last-Locates min max inside ended)
  find_loop-Locates (suc passes) min max inside close small =
      let cur = (min + max) / 2 in
      elim (Bool-cases (ltb min max)) [
        | inr ended ↦ (find_last od index min max, rw ended, find_last-Locates min max inside ended)
        | inl more ↦ elim (Bool-cases (index == (entry_at od cur).index)) [
          | inl hit ↦ (cur, rw (more, hit), inl (ground arith, ground arith))
          | inr miss ↦ elim (Bool-cases (ltb index (entry_at od cur).index)) [
            | inl less ↦
                let (n, e, found) =
                  find_loop-Locates passes min (below cur) (ground arith) (ground arith)
                    (ground (arith, pow-suc 2 passes, one-le-pow passes 2 (omega arith))) in
                (
                  n,
                  rw (more, miss, less) e,
                  widen min max min (below cur) n found
                      (left_part cur min max inside (ground arith) (ground arith)),
                )
            | inr not_less ↦
                let (n, e, found) =
                  find_loop-Locates passes (cur + 1) max inside (ground arith)
                    (ground (arith, pow-suc 2 passes)) in
                (
                  n,
                  rw (more, miss, not_less) e,
                  widen min max (cur + 1) max n found
                      (right_part cur min max inside (ground arith) (ground arith)),
                )
          ]
        ]
      ]

-- Whether the dictionary is ordered or not, the loop ends in a number of passes that halves the range
-- to one entry, and more passes change nothing.
module _ (od : List Entry) (index : ℕ) where
  pub find_loop_ends :
      (passes min max : ℕ)
      → max + 1 - min ≤ 2 ^ passes
      → (n : ℕ) × (find_loop passes od index min max ≡ some n)
  unfolding find_loop
  find_loop_ends zero min max small = (find_last od index min max, ground arith)
  find_loop_ends (suc passes) min max small = elim (Bool-cases (ltb min max)) [
    | inr ended ↦ (find_last od index min max, rw ended)
    | inl more ↦
        let cur = (min + max) / 2 in
        elim (Bool-cases (index == (entry_at od cur).index)) [
          | inl hit ↦ (cur, rw (more, hit))
          | inr miss ↦ elim (Bool-cases (ltb index (entry_at od cur).index)) [
            | inl less ↦
                let (n, e) =
                  find_loop_ends passes min (below cur)
                    (ground (arith, pow-suc 2 passes, one-le-pow passes 2 (omega arith))) in
                (n, rw (more, miss, less) e)
            | inr not_less ↦
                let (n, e) =
                  find_loop_ends passes (cur + 1) max (ground (arith, pow-suc 2 passes)) in
                (n, rw (more, miss, not_less) e)
          ]
        ]
  ]

  pub more_passes :
      (p q min max n : ℕ)
      → p ≤ q
      → find_loop p od index min max ≡ some n
      → find_loop q od index min max ≡ some n
  unfolding find_loop
  more_passes zero zero min max n l e = e
  more_passes zero (suc q) min max n l e = ground arith
  more_passes (suc p) zero min max n l e = absurd (omega arith)
  more_passes (suc p) (suc q) min max n l e =
      let cur = (min + max) / 2 in
      let less = ltb index (entry_at od cur).index in
      ground (
        arith,
        more_passes p q (if less then min else cur + 1) (if less then below cur else max) n
            (omega arith),
      )
