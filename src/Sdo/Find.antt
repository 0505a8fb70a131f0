-- ===== src/Sdo/Find.antt =====
-- stack/CO_SDO.c: `CO_OD_find` in an ordered dictionary.
use native.Mathlib.Decide.{dec_lt}
use canopen_node.Sdo.{Entry}
use canopen_node.Sdo.Od.{entry_at, below, find_last, find_loop, od_find}
use canopen_node.Sdo.Bisection.{IsOrdered, Locates, find_loop-Locates, find_loop_ends, more_passes}
use canopen_node.Prelude.{
  ◌∙◌, ℕ, zero, suc, ◌+◌, ◌-◌, ◌/◌, ◌^◌, ◌<◌, ◌≤◌, ◌≡◌, ◌≢◌, ◌⊎◌, inl, inr, refl, List, none, some,
  ltb, ap, if◌then◌else◌, length, arith,
}

od_find_eq :
    (od : List Entry) (index n : ℕ)
    → find_loop 16 od index 0 (length od - 1) ≡ some n
    → od_find od index ≡ n
unfolding od_find
od_find_eq od index n e = rw (e, od_find)

-- "If Object Dictionary has up to 2^N entries, then N is max number of loop passes": with `passes`
-- passes the loop over a dictionary of up to 2^`passes` entries, at least one and at most 65535, ends
-- with the result of `CO_OD_find`.
pub find_loop_passes :
    (od : List Entry) (index passes : ℕ)
    → 0 < length od
    → length od < 65536
    → length od ≤ 2 ^ passes
    → find_loop passes od index 0 (length od - 1) ≡ some (od_find od index)
find_loop_passes od index passes some_entry few small =
    let max = length od - 1 in
    let (n, e) = find_loop_ends od index 16 0 max (omega arith) in
    let (m, e') = find_loop_ends od index passes 0 max (omega arith) in
    elim (dec_lt passes 16) [
      | yes l ↦
          let same : some m ≡ some n =
            cc (more_passes od index passes 16 0 max m (omega arith) e', e) in
          cc (e', same, ap some (od_find_eq od index n e))
      | no l ↦
          let same : some n ≡ some m =
            cc (more_passes od index 16 passes 0 max n (omega arith) e, e') in
          cc (e', same, ap some (od_find_eq od index n e))
    ]

-- In an ordered dictionary of 1 to 65535 entries `CO_OD_find` gives the number of the entry with the
-- index, and 65535 exactly if there is none.
pub od_find_lem :
    (od : List Entry) (index : ℕ)
    → IsOrdered od
    → 0 < length od
    → length od < 65536
    → ((od_find od index < length od) × ((entry_at od (od_find od index)).index ≡ index))
      ⊎ ((od_find od index ≡ 0xffff) × ((i : ℕ) → i < length od → (entry_at od i).index ≢ index))
od_find_lem od index ordered some_entry few =
    let (n, e, found) =
      find_loop-Locates od index ordered 16 0 (length od - 1) (omega arith) (omega arith)
        (omega arith) in
    rw (od_find_eq od index n e) (whole found)
  where
    whole :
        {n : ℕ}
        → Locates od index 0 (length od - 1) n
        → ((n < length od) × ((entry_at od n).index ≡ index))
          ⊎ ((n ≡ 0xffff) × ((i : ℕ) → i < length od → (entry_at od i).index ≢ index))
    whole (inl h) = inl h
    whole (inr (e, missing)) = inr (e, λ i h. missing i (omega arith) (omega arith))

-- The search reads nothing but the indexes.
module _ (od od' : List Entry) (index : ℕ)
    (same : (i : ℕ) → (entry_at od' i).index ≡ (entry_at od i).index) where
  find_last-same : (min max : ℕ) → find_last od' index min max ≡ find_last od index min max
  find_last-same min max = rw (same min) refl

  find_loop-same :
      (passes min max : ℕ) → find_loop passes od' index min max ≡ find_loop passes od index min max
  unfolding find_loop
  find_loop-same zero min max = rw (same min) refl
  find_loop-same (suc passes) min max =
      let cur = (min + max) / 2 in
      let less = ltb index (entry_at od cur).index in
      let rest =
        find_loop-same passes (if less then min else cur + 1) (if less then below cur else max) in
      rw (same cur, same min, rest) refl

  pub od_find-same : length od' ≡ length od → od_find od' index ≡ od_find od index
  unfolding od_find
  od_find-same len =
      ap (λ o. elim o as (λ x. ℕ) [ none ↦ 0xffff | some n ↦ n ])
        (find_loop-same 16 0 (length od' - 1) ∙ ap (λ m. find_loop 16 od index 0 (m - 1)) len)
