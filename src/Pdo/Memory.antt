-- ===== src/Pdo/Memory.antt =====
-- stack/CO_PDO.c: bytes of the object dictionary that are written through map pointers and read back.
use mathlib.Core.Path.{subst}
use native.Mathlib.Decide.{ℕ_discrete}
use canopen_node.Pdo.{Place, dummy, od_byte}
use canopen_node.Pdo.Places.{put_byte, write_place, read_place, write_all, read_all}
use canopen_node.Sdo.{Entry, Pointer}
use canopen_node.Sdo.Access.{stored}
use canopen_node.Sdo.Od.{entry_at, no_entry}
use canopen_node.Prelude.{
  ℕ, zero, suc, ◌<◌, ◌≤◌, ◌≡◌, ◌≢◌, refl, ap, ap₂, ◌∙◌, Bool, false, ◌&&◌, List, [], ◌∷◌, ◌==◌,
  length, get_or, take, drop, All, arith, length-set, get_or-set_self, get_or-set_ne,
}
use canopen_node.Pdo.Stored.{is_same_byte, stored_length, stored_self, stored_other}

abbrev pub is_same : Place → Place → Bool
is_same (od_byte e p k) (od_byte f q j) = (e == f) && is_same_byte p k q j
is_same p q = false

-- No byte of the dictionary is mapped twice.
abbrev pub IsDistinct : List Place → Type 0
IsDistinct [] = Unit
IsDistinct (p ∷ ps) = All (λ q. is_same q p ≡ false) ps × IsDistinct ps

-- A place is a dummy, or a byte that the dictionary has.
abbrev pub IsPlace : List Entry → Place → Type 0
IsPlace od dummy = Unit
IsPlace od (od_byte e p k) = (e < length od) × (k < length (stored (entry_at od e) p))

module _ (od : List Entry) (e : ℕ) (p : Pointer) (k b : ℕ) where
  -- The dictionary behind the write.
  abbrev written : List Entry
  written = write_place od (od_byte e p k) b

  entry_written : e < length od → entry_at written e ≡ put_byte (entry_at od e) p k b
  entry_written h = get_or-set_self od e (put_byte (entry_at od e) p k b) no_entry h

  entry_kept : (f : ℕ) → e ≢ f → entry_at written f ≡ entry_at od f
  entry_kept f ne = get_or-set_ne od e f (put_byte (entry_at od e) p k b) no_entry ne

  byte-IsPlace : (q : Place) → e < length od → IsPlace od q → IsPlace written q
  byte-IsPlace dummy h q = tt
  byte-IsPlace (od_byte f q j) h (inside, here) = (
    omega (arith, length-set od e (put_byte (entry_at od e) p k b)),
    elim (ℕ_discrete e f) [
      | yes ef ↦
          let same : length (stored (entry_at written e) q) ≡ length (stored (entry_at od e) q) =
            ap (λ o. length (stored o q)) (entry_written h)
            ∙ stored_length (entry_at od e) k b p q in
          subst
            (λ n.
              (j < length (stored (entry_at od n) q)) → j < length (stored (entry_at written n) q))
            ef (λ l. omega (arith, same)) here
      | no ne ↦ let same = ap (λ o. length (stored o q)) (entry_kept f ne) in omega (arith, same)
    ],
  )

  byte_self :
      e < length od → k < length (stored (entry_at od e) p) → read_place written (od_byte e p k) ≡ b
  byte_self h here =
      ap (λ o. get_or (stored o p) k 0) (entry_written h) ∙ stored_self (entry_at od e) k b p here

  byte_other :
      (q : Place)
      → e < length od
      → IsPlace od q
      → is_same (od_byte e p k) q ≡ false
      → read_place written q ≡ read_place od q
  byte_other dummy h q d = refl
  byte_other (od_byte f q j) h (inside, here) d = elim (ℕ_discrete e f) [
    | yes ef ↦
        let apart : is_same_byte p k q j ≡ false = ground arith in
        subst
          (λ n.
            (j < length (stored (entry_at od n) q))
            → get_or (stored (entry_at written n) q) j 0 ≡ get_or (stored (entry_at od n) q) j 0)
          ef
          (λ l.
            ap (λ o. get_or (stored o q) j 0) (entry_written h)
            ∙ stored_other (entry_at od e) k b p q j l apart)
          here
    | no ne ↦ ap (λ o. get_or (stored o q) j 0) (entry_kept f ne)
  ]

-- What stays in the dictionary of the bytes that are copied to the places: none for a dummy.
abbrev pub kept : List Place → List ℕ → List ℕ
kept [] bytes = []
kept (p ∷ ps) [] = []
kept (dummy ∷ ps) (b ∷ bytes) = 0 ∷ kept ps bytes
kept (od_byte e p k ∷ ps) (b ∷ bytes) = b ∷ kept ps bytes

write-IsPlace :
    (od : List Entry) (p q : Place) (b : ℕ)
    → IsPlace od p
    → IsPlace od q
    → IsPlace (write_place od p b) q
write-IsPlace od dummy q b h g = g
write-IsPlace od (od_byte e p k) q b (inside, here) g = byte-IsPlace od e p k b q inside g

write_other :
    (od : List Entry) (p q : Place) (b : ℕ)
    → IsPlace od p
    → IsPlace od q
    → is_same p q ≡ false
    → read_place (write_place od p b) q ≡ read_place od q
write_other od dummy q b h g d = refl
write_other od (od_byte e p k) q b (inside, here) g d = byte_other od e p k b q inside g d

write-All :
    (od : List Entry) (p : Place) (b : ℕ) (qs : List Place)
    → IsPlace od p
    → All (IsPlace od) qs
    → All (IsPlace (write_place od p b)) qs
write-All od p b [] h g = tt
write-All od p b (q ∷ qs) h (g, gs) = (write-IsPlace od p q b h g, write-All od p b qs h gs)

-- A byte is not changed by writes to other places.
write_all_other :
    (od : List Entry) (p : Place) (ps : List Place) (bytes : List ℕ)
    → IsPlace od p
    → All (IsPlace od) ps
    → All (λ q. is_same q p ≡ false) ps
    → read_place (write_all od ps bytes) p ≡ read_place od p
write_all_other od p [] bytes h g d = refl
write_all_other od p (q ∷ ps) [] h g d = refl
write_all_other od p (q ∷ ps) (b ∷ bytes) h (g, gs) (d, ds) =
    write_all_other (write_place od q b) p ps bytes (write-IsPlace od q p b g h)
      (write-All od q b ps g gs) ds
    ∙ write_other od q p b g h d

pub write_all-All :
    (od : List Entry) (ps : List Place) (bytes : List ℕ) (qs : List Place)
    → All (IsPlace od) ps
    → All (IsPlace od) qs
    → All (IsPlace (write_all od ps bytes)) qs
write_all-All od [] bytes qs h g = g
write_all-All od (p ∷ ps) [] qs h g = g
write_all-All od (p ∷ ps) (b ∷ bytes) qs (h, hs) g =
    write_all-All (write_place od p b) ps bytes qs (write-All od p b ps h hs)
      (write-All od p b qs h g)

-- What is copied to distinct places of the dictionary is read there.
pub read_all-write_all :
    (od : List Entry) (ps : List Place) (bytes : List ℕ)
    → All (IsPlace od) ps
    → IsDistinct ps
    → length ps ≤ length bytes
    → read_all (write_all od ps bytes) ps ≡ kept ps bytes
read_all-write_all od [] bytes h d l = refl
read_all-write_all od (p ∷ ps) [] h d l = absurd (omega arith)
read_all-write_all od (dummy ∷ ps) (b ∷ bytes) (h, hs) (d, ds) l =
    ap (λ t. 0 ∷ t) (read_all-write_all od ps bytes hs ds (omega arith))
read_all-write_all od (od_byte e p k ∷ ps) (b ∷ bytes) (h, hs) (d, ds) l =
    let q = od_byte e p k in
    let od' = write_place od q b in
    let hs' = write-All od q b ps h hs in
    ap₂ (λ x xs. x ∷ xs)
      (write_all_other od' q ps bytes (write-IsPlace od q q b h h) hs' d
        ∙ byte_self od e p k b h.0 h.1)
      (read_all-write_all od' ps bytes hs' ds (omega arith))

write_all-nil : (od : List Entry) (ps : List Place) → write_all od ps [] ≡ od
write_all-nil od [] = refl
write_all-nil od (p ∷ ps) = refl

-- Copying in two parts is copying all.
pub write_all-split :
    (od : List Entry) (ps : List Place) (bytes : List ℕ) (n : ℕ)
    → write_all (write_all od (take n ps) bytes) (drop n ps) (drop n bytes) ≡ write_all od ps bytes
write_all-split od ps bytes zero = refl
write_all-split od [] bytes (suc n) = refl
write_all-split od (p ∷ ps) [] (suc n) = write_all-nil od (drop n ps)
write_all-split od (p ∷ ps) (b ∷ bytes) (suc n) = write_all-split (write_place od p b) ps bytes n
