-- ===== src/Pdo/Copies.antt =====
-- stack/CO_PDO.c: what `CO_RPDO_process` copies to the object dictionary, with messages that arrive
-- while it copies.
use mathlib.Core.Path.{subst}
use canopen_node.Driver.{RxMsg}
use canopen_node.Nmt.{nmt_operational}
use canopen_node.Pdo.{Rpdo, Place}
use canopen_node.Pdo.Memory.{
  IsPlace, IsDistinct, kept, write_all-All, read_all-write_all, write_all-split,
}
use canopen_node.Pdo.Places.{write_all, read_all}
use canopen_node.Pdo.Process.{rx_new, rx_data, clear_new, Arrival, copy_loop, is_second, process}
use canopen_node.Pdo.Receive.{receive}
use canopen_node.Sdo.{Entry}
use canopen_node.Prelude.{
  ℕ, zero, suc, ◌≤◌, ◌≡◌, refl, sym, ap, ◌∙◌, Bool, true, false, not, ◌||◌, List, [], ◌∷◌, ◌==◌,
  length, take, drop, All, arith, Bool-cases, inl, inr,
}

-- The pointers that the mapping has set.
abbrev pub places : Rpdo → List Place
places rpdo = take rpdo.data_length rpdo.map_pointer

-- The sizes of the two buffers and of the mapping.
abbrev pub HasBuffers : Rpdo → Type 0
HasBuffers rpdo =
    (rpdo.data_length ≤ 8) × (length rpdo.can_rx_data_0 ≡ 8) × (length rpdo.can_rx_data_1 ≡ 8)

All-take {ℓ κ} : {A : Type ℓ} (P : A → Type κ) (n : ℕ) (xs : List A) → All P xs → All P (take n xs)
All-take P zero xs h = tt
All-take P (suc n) [] h = tt
All-take P (suc n) (x ∷ xs) h = (h.0, All-take P n xs h.1)

All-drop {ℓ κ} : {A : Type ℓ} (P : A → Type κ) (n : ℕ) (xs : List A) → All P xs → All P (drop n xs)
All-drop P zero xs h = h
All-drop P (suc n) [] h = tt
All-drop P (suc n) (x ∷ xs) h = All-drop P n xs h.1

pub length-places : {A : Type 0} (n : ℕ) (xs : List A) → length (take n xs) ≤ n
length-places zero xs = omega arith
length-places (suc n) [] = omega arith
length-places (suc n) (x ∷ xs) = omega (arith, length-places n xs)

-- A message leaves the mapping alone, and a buffer without a mark as it was.
module _ (rpdo : Rpdo) (second toggle : Bool) (state : ℕ) (msg : RxMsg) where
  abbrev next : Rpdo
  next = receive (clear_new rpdo second) toggle state msg

  places_kept : places next ≡ places rpdo
  unfolding receive
  places_kept = ground arith

  buffers_kept : HasBuffers rpdo → HasBuffers next
  unfolding receive
  buffers_kept (l, l0, l1) = ground arith

  unmarked_data : rx_new next second ≡ false → rx_data next second ≡ rx_data rpdo second
  unfolding receive
  unmarked_data h = ground arith

-- The loop ends with the mark cleared, and the places of the dictionary have the bytes of the buffer.
abbrev IsCopied : Rpdo × List Entry → List Place → Bool → Type 0
IsCopied (rpdo, od) ps second =
    (rx_new rpdo second ≡ false) × (read_all od ps ≡ kept ps (rx_data rpdo second))

cleared_data :
    (rpdo : Rpdo) (second : Bool) → rx_data (clear_new rpdo second) second ≡ rx_data rpdo second
cleared_data rpdo second = ground arith

cleared_new : (rpdo : Rpdo) (second : Bool) → rx_new (clear_new rpdo second) second ≡ false
cleared_new rpdo second = ground arith

enough_data :
    (rpdo : Rpdo) (second : Bool)
    → HasBuffers rpdo
    → length (places rpdo) ≤ length (rx_data rpdo second)
enough_data rpdo second (l, l0, l1) =
    let short = length-places rpdo.data_length rpdo.map_pointer in ground arith

module _ (second toggle : Bool) (state : ℕ) (ps : List Place) (distinct : IsDistinct ps) where
  copies_bytes :
      (rpdo : Rpdo) (od : List Entry)
      → HasBuffers rpdo
      → places rpdo ≡ ps
      → All (IsPlace od) ps
      → read_all (write_all od ps (rx_data rpdo second)) ps ≡ kept ps (rx_data rpdo second)
  copies_bytes rpdo od room e inside =
      let long = enough_data rpdo second room in
      let same : length (places rpdo) ≡ length ps = ap length e in
      read_all-write_all od ps (rx_data rpdo second) inside distinct (omega arith)

  copy_loop_lem :
      (arrivals : List Arrival) (rpdo : Rpdo) (od : List Entry)
      → HasBuffers rpdo
      → places rpdo ≡ ps
      → All (IsPlace od) ps
      → (rx_new rpdo second ≡ false → read_all od ps ≡ kept ps (rx_data rpdo second))
      → IsCopied (copy_loop arrivals rpdo od second toggle state) ps second
  unfolding copy_loop
  copy_loop_lem [] rpdo od room e inside old = elim (Bool-cases (rx_new rpdo second)) [
    | inl new ↦
        rw (new, cleared_new rpdo second, cleared_data rpdo second, e)
          (refl, copies_bytes rpdo od room e inside)
    | inr done ↦ rw done (done, old done)
  ]
  copy_loop_lem (a ∷ arrivals) rpdo od room e inside old =
      let rpdo' = next rpdo second toggle state a.msg in
      let bytes = rx_data rpdo second in
      let bytes' = rx_data rpdo' second in
      let od1 = write_all od (take a.behind (places rpdo)) bytes in
      let od2 = write_all od1 (drop a.behind (places rpdo)) (drop a.behind bytes') in
      elim (Bool-cases (rx_new rpdo second)) [
        | inl new ↦
            let all = subst (λ t. All (IsPlace od) t) (sym e) inside in
            let first =
              write_all-All od (take a.behind (places rpdo)) bytes (places rpdo)
                (All-take (IsPlace od) a.behind (places rpdo) all) all in
            let second_part =
              write_all-All od1 (drop a.behind (places rpdo)) (drop a.behind bytes') (places rpdo)
                (All-drop (IsPlace od1) a.behind (places rpdo) first) first in
            let unmarked : rx_new rpdo' second ≡ false → read_all od2 ps ≡ kept ps bytes' =
              λ none_new.
                let same = unmarked_data rpdo second toggle state a.msg none_new in
                ap
                  (λ t. read_all (write_all od1 (drop a.behind (places rpdo)) (drop a.behind t)) ps)
                  same
                ∙ ap (λ t. read_all t ps) (write_all-split od (places rpdo) bytes a.behind)
                ∙ ap (λ t. read_all (write_all od t bytes) ps) e
                ∙ copies_bytes rpdo od room e inside
                ∙ ap (λ t. kept ps t) (sym same) in
            rw new (
              copy_loop_lem arrivals rpdo' od2 (buffers_kept rpdo second toggle state a.msg room)
                (places_kept rpdo second toggle state a.msg ∙ e)
                (subst (λ t. All (IsPlace od2) t) e second_part) unmarked)
        | inr done ↦ rw done (done, old done)
      ]

-- A valid RPDO of an operational node, which is asynchronous or processed behind a SYNC, with a message
-- in its buffer, for different bytes of the dictionary: whatever messages arrive while it is copied,
-- at most one in each pass and behind any number of bytes, the mark of the buffer is cleared at the end,
-- and the bytes of the dictionary are those of one message, the last one in that buffer. Dummy entries
-- keep nothing.
pub process_copies :
    (rpdo : Rpdo) (od : List Entry) (toggle : Bool) (state : ℕ) (sync_was : Bool)
    (arrivals : List Arrival)
    → rpdo.valid ≡ true
    → (state == nmt_operational) ≡ true
    → (not rpdo.synchronous || sync_was) ≡ true
    → rx_new rpdo (is_second rpdo toggle) ≡ true
    → HasBuffers rpdo
    → All (IsPlace od) (places rpdo)
    → IsDistinct (places rpdo)
    → let second = is_second rpdo toggle in
      let (rpdo', od') = process rpdo od toggle state sync_was arrivals in
      (rx_new rpdo' second ≡ false)
      × (read_all od' (places rpdo) ≡ kept (places rpdo) (rx_data rpdo' second))
unfolding process
process_copies rpdo od toggle state sync_was arrivals valid op due new room inside distinct =
    let second = is_second rpdo toggle in
    let none_old : rx_new rpdo second ≡ false
        → read_all od (places rpdo) ≡ kept (places rpdo) (rx_data rpdo second) =
      λ old. cc (new, old) in
    let r =
      copy_loop_lem second toggle state (places rpdo) distinct arrivals rpdo od room refl inside
        none_old in
    let off : (not rpdo.valid || not (state == nmt_operational)) ≡ false = ground arith in
    let run : process rpdo od toggle state sync_was arrivals
        ≡ copy_loop arrivals rpdo od second toggle state =
      rw (off, due) in
    subst (λ p. IsCopied p (places rpdo) second) (sym run) r
