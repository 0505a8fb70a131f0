-- ===== src/Pdo/Mapping.antt =====
-- stack/CO_PDO.c: what the map pointers point to behind `CO_RPDOconfigMap` and `CO_TPDOconfigMap`.
use mathlib.Core.Path.{subst}
use canopen_node.Pdo.{Place, dummy, od_byte}
use canopen_node.Pdo.Map.{dummy_size, is_mapable, find_object, find_map, next_byte, point}
use canopen_node.Pdo.Memory.{IsPlace}
use canopen_node.Sdo.{Sdo}
use canopen_node.Sdo.Access.{is_abort, stored}
use canopen_node.Sdo.Od.{entry_at, no_entry, od_find, get_length, get_attribute, get_data_pointer}
use canopen_node.Prelude.{
  ℕ, zero, suc, ◌+◌, ◌-◌, ◌<◌, ◌≤◌, ◌≡◌, ◌≢◌, inl, inr, refl, sym, ap, ◌∙◌, Bool, true, false, ◌||◌,
  ◌&&◌, ◌/◌, ◌%◌, ◌/=◌, leb, u16, List, [], ◌∷◌, ltb, ◌==◌, length, get_or, set, take, All, arith,
  Bool-cases, u8, length-set,
}

-- The data of a sub-object that an entry has and that can be mapped is as long as its length says, so it
-- is no domain.
abbrev pub HasMemory : Sdo → Bool → Type 0
HasMemory sdo transmit =
    (e i : ℕ)
    → i ≤ (entry_at sdo.od e).max_sub_index
    → is_mapable transmit (get_attribute sdo e i) ≡ true
    → get_length sdo e i ≤ length (stored (entry_at sdo.od e) (get_data_pointer sdo e i))

-- A place is a dummy, or a byte of an object that can be mapped in this direction.
abbrev pub IsMapped : Sdo → Bool → Place → Type 0
IsMapped sdo transmit dummy = Unit
IsMapped sdo transmit (od_byte e p k) =
    IsPlace sdo.od (od_byte e p k)
    × ((i : ℕ) × (p ≡ get_data_pointer sdo e i)
        × (is_mapable transmit (get_attribute sdo e i) ≡ true)
        × (k < get_length sdo e i))

-- The place of the byte `k` behind the first one.
abbrev pub advance : Place → ℕ → Place
advance dummy k = dummy
advance (od_byte e p j) k = od_byte e p (j + k)

get_or-out {ℓ} : {A : Type ℓ} (xs : List A) (i : ℕ) (d : A) → length xs ≤ i → get_or xs i d ≡ d
get_or-out [] i d h = refl
get_or-out (x ∷ xs) zero d h = absurd (omega arith)
get_or-out (x ∷ xs) (suc i) d h = get_or-out xs i d (omega arith)

zero_not : (transmit : Bool) → is_mapable transmit 0 ≢ true
zero_not true h = cc h
zero_not false h = cc h

outside-get_attribute : (sdo : Sdo) (e i : ℕ) → length sdo.od ≤ e → get_attribute sdo e i ≡ 0
unfolding get_attribute
outside-get_attribute sdo e i h = elim (Bool-cases (e == 0xffff)) [
  | inl none_found ↦ rw none_found
  | inr found ↦ rw (found, get_or-out sdo.od e no_entry h)
]

-- An entry that the dictionary does not have cannot be mapped.
pub mapable_inside :
    (sdo : Sdo) (transmit : Bool) (e i : ℕ)
    → is_mapable transmit (get_attribute sdo e i) ≡ true
    → e < length sdo.od
mapable_inside sdo transmit e i h = elim (Bool-cases (ltb e (length sdo.od))) [
  | inl inside ↦ ground arith
  | inr outside ↦
      let zero_attr = ap (is_mapable transmit) (outside-get_attribute sdo e i (ground arith)) in
      absurd (zero_not transmit (sym zero_attr ∙ h))
]

find_object_lem :
    (sdo : Sdo) (index sub_index data_len : ℕ) (transmit : Bool) (len flags : ℕ)
    → HasMemory sdo transmit
    → let found = find_object sdo index sub_index data_len transmit len flags in
      is_abort found.code ≡ false
      → (found.length ≡ len)
        × ((k : ℕ) → k < data_len → IsMapped sdo transmit (advance found.pdata k))
unfolding find_object
find_object_lem sdo index sub_index data_len transmit len flags memory h =
    let e = od_find sdo.od index in
    let there : ((e == 0xffff) || ltb (entry_at sdo.od e).max_sub_index sub_index) ≡ false =
      ground arith in
    let mapable : is_mapable transmit (get_attribute sdo e sub_index) ≡ true = ground arith in
    let fits : ltb (u8 (get_length sdo e sub_index)) data_len ≡ false = ground arith in
    let p = get_data_pointer sdo e sub_index in
    rw (there, mapable, fits)
      (
        refl,
        λ k below.
            let has : sub_index ≤ (entry_at sdo.od e).max_sub_index = ground arith in
            let enough = memory e sub_index has mapable in
            let short : 0 + k < get_length sdo e sub_index = ground arith in
            (
              (mapable_inside sdo transmit e sub_index mapable, omega arith),
              (sub_index, refl, mapable, short),
            ),
      )

pub find_map_lem :
    (sdo : Sdo) (map : ℕ) (transmit : Bool) (len flags : ℕ)
    → HasMemory sdo transmit
    → len ≤ 8
    → let found = find_map sdo map transmit len flags in
      is_abort found.code ≡ false
      → (len ≤ found.length)
        × (found.length ≤ 8)
        × ((k : ℕ) → k < found.length - len → IsMapped sdo transmit (advance found.pdata k))
unfolding find_map
find_map_lem sdo map transmit len flags memory short h =
    let index = u16 (map / 65536) in
    let sub_index = u8 (map / 256) in
    let data_len = u8 map / 8 in
    let len' = u8 (len + data_len) in
    let whole : (u8 map % 8 /= 0) ≡ false = ground arith in
    let fits : ltb 8 len' ≡ false = ground arith in
    let longer : len ≤ len' = ground arith in
    elim (Bool-cases (leb index 7 && (sub_index == 0))) [
      | inl empty ↦
          let size : ltb (dummy_size index) data_len ≡ false = ground arith in
          rw (whole, fits, empty, size) (longer, ground arith, λ k below. tt)
      | inr object ↦
          let good : is_abort (find_object sdo index sub_index data_len transmit len' flags).code
              ≡ false =
            ground arith in
          let (same, mapped) =
            find_object_lem sdo index sub_index data_len transmit len' flags memory good in
          rw (whole, fits, object) (omega arith, ground arith, λ k below. mapped k (ground arith))
    ]

pub length-point :
    (ps : List Place) (j : ℕ) (place : Place) (n : ℕ) → length (point ps j place n) ≡ length ps
length-point ps j place zero = refl
length-point ps j place (suc n) =
    length-point (set ps j place) (j + 1) (next_byte place) n ∙ length-set ps j place

All-take-set {κ} :
    (P : Place → Type κ) (ps : List Place) (j : ℕ) (place : Place)
    → j < length ps
    → All P (take j ps)
    → P place
    → All P (take (suc j) (set ps j place))
All-take-set P [] j place l h here = absurd (omega arith)
All-take-set P (p ∷ ps) zero place l h here = (here, tt)
All-take-set P (p ∷ ps) (suc j) place l (h, hs) here =
    (h, All-take-set P ps j place (omega arith) hs here)

advance-next : (place : Place) (k : ℕ) → advance (next_byte place) k ≡ advance place (suc k)
advance-next dummy k = refl
advance-next (od_byte e p j) k = ap (od_byte e p) (omega arith)

advance-zero : (place : Place) → advance place 0 ≡ place
advance-zero dummy = refl
advance-zero (od_byte e p j) = ap (od_byte e p) (omega arith)

-- The pointers that are written, and those before them.
pub point-All {κ} :
    (P : Place → Type κ) (ps : List Place) (j : ℕ) (place : Place) (n m : ℕ)
    → m ≡ j + n
    → m ≤ length ps
    → All P (take j ps)
    → ((k : ℕ) → k < n → P (advance place k))
    → All P (take m (point ps j place n))
point-All P ps j place zero m e l h all =
    let same : j ≡ m = omega arith in subst (λ i. All P (take i ps)) same h
point-All P ps j place (suc n) m e l h all =
    let here = subst P (advance-zero place) (all 0 (omega arith)) in
    let next : suc j ≡ j + 1 = omega arith in
    let before = All-take-set P ps j place (omega arith) h here in
    point-All P (set ps j place) (j + 1) (next_byte place) n m (omega arith)
      (omega (arith, length-set ps j place))
      (subst (λ i. All P (take i (set ps j place))) next before)
      (λ k below. subst P (sym (advance-next place k)) (all (suc k) (omega arith)))
