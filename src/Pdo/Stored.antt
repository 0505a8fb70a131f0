-- ===== src/Pdo/Stored.antt =====
-- stack/CO_PDO.c: a byte of an entry of the object dictionary that is written, and its other bytes.
use mathlib.Core.Path.{subst}
use native.Mathlib.Decide.{ℕ_discrete}
use canopen_node.Pdo.Places.{put_bytes, put_variable, put_member, put_byte}
use canopen_node.Sdo.{
  Storage, domain, variable, members, Member, Entry, Pointer, null, at_offset, at_max_sub_index,
  at_member,
}
use canopen_node.Sdo.Access.{stored, variable_of, bytes_of}
use canopen_node.Sdo.Od.{member_at, no_member}
use canopen_node.Prelude.{
  ℕ, zero, suc, ◌+◌, ◌<◌, ◌≡◌, ◌≢◌, refl, sym, ap, ◌∙◌, Bool, false, ◌&&◌, List, [], ◌∷◌, Option,
  none, some, ◌==◌, if◌then◌else◌, length, get_or, set, drop, arith, length-set, get_or-set_self,
  get_or-set_ne,
}

-- Two places in one entry are the same byte.
abbrev pub is_same_byte : Pointer → ℕ → Pointer → ℕ → Bool
is_same_byte (at_offset n) k (at_offset m) j = n + k == m + j
is_same_byte at_max_sub_index k at_max_sub_index j = k == j
is_same_byte (at_member i) k (at_member l) j = (i == l) && (k == j)
is_same_byte p k q j = false

get_or-drop : (n : ℕ) (xs : List ℕ) (j : ℕ) → get_or (drop n xs) j 0 ≡ get_or xs (n + j) 0
get_or-drop zero xs j = ap (λ i. get_or xs i 0) (omega arith)
get_or-drop (suc n) [] j = refl
get_or-drop (suc n) (x ∷ xs) j =
    let e : suc n + j ≡ suc (n + j) = omega arith in
    get_or-drop n xs j ∙ sym (ap (λ i. get_or (x ∷ xs) i 0) e)

length-drop :
    (n : ℕ) (xs ys : List ℕ) → length xs ≡ length ys → length (drop n xs) ≡ length (drop n ys)
length-drop zero xs ys e = e
length-drop (suc n) [] [] e = refl
length-drop (suc n) [] (y ∷ ys) e = absurd (omega arith)
length-drop (suc n) (x ∷ xs) [] e = absurd (omega arith)
length-drop (suc n) (x ∷ xs) (y ∷ ys) e = length-drop n xs ys (omega arith)

inside-drop : (n : ℕ) (xs : List ℕ) (k : ℕ) → k < length (drop n xs) → n + k < length xs
inside-drop zero xs k h = omega arith
inside-drop (suc n) [] k h = absurd (omega arith)
inside-drop (suc n) (x ∷ xs) k h = omega (arith, inside-drop n xs k h)

variable-put_variable :
    (s : Storage) (k b : ℕ) → variable_of (put_variable s k b) ≡ set (variable_of s) k b
variable-put_variable domain k b = refl
variable-put_variable (variable bytes) k b = refl
variable-put_variable (members ms) k b = refl

variable-put_member : (s : Storage) (i k b : ℕ) → variable_of (put_member s i k b) ≡ variable_of s
variable-put_member domain i k b = refl
variable-put_member (variable bytes) i k b = refl
variable-put_member (members ms) i k b = refl

member-put_variable : (s : Storage) (k b i : ℕ) → member_at (put_variable s k b) i ≡ member_at s i
member-put_variable domain k b i = refl
member-put_variable (variable bytes) k b i = refl
member-put_variable (members ms) k b i = refl

-- The bytes of a member.
abbrev member_bytes : Storage → ℕ → List ℕ
member_bytes s i = bytes_of (member_at s i).pdata

member_other :
    (s : Storage) (i k b l : ℕ) → i ≢ l → member_bytes (put_member s i k b) l ≡ member_bytes s l
member_other domain i k b l ne = refl
member_other (variable bytes) i k b l ne = refl
member_other (members ms) i k b l ne =
    let m = get_or ms i no_member in
    ap (λ m. bytes_of m.pdata)
      (get_or-set_ne ms i l (record m { pdata = put_bytes m.pdata k b }) no_member ne)

bytes-put_bytes :
    (bytes : Option (List ℕ)) (k b : ℕ) → bytes_of (put_bytes bytes k b) ≡ set (bytes_of bytes) k b
bytes-put_bytes none k b = refl
bytes-put_bytes (some bytes) k b = refl

changed_member :
    (ms : List Member) (i k b : ℕ) (m : Member)
    → get_or ms i no_member ≡ m
    → bytes_of (get_or (set ms i (record m { pdata = put_bytes m.pdata k b })) i no_member).pdata
      ≡ set (bytes_of (get_or ms i no_member).pdata) k b
changed_member [] i k b m e = refl
changed_member (x ∷ ms) zero k b m e =
    bytes-put_bytes m.pdata k b ∙ ap (λ m. set (bytes_of m.pdata) k b) (sym e)
changed_member (x ∷ ms) (suc i) k b m e = changed_member ms i k b m e

member_self :
    (s : Storage) (i k b : ℕ) → member_bytes (put_member s i k b) i ≡ set (member_bytes s i) k b
member_self domain i k b = refl
member_self (variable bytes) i k b = refl
member_self (members ms) i k b = changed_member ms i k b (get_or ms i no_member) refl

-- The bytes of a place in an entry, behind a write to the same or to another place.
module _ (object : Entry) (k b : ℕ) where
  pub stored_length :
      (p q : Pointer) → length (stored (put_byte object p k b) q) ≡ length (stored object q)
  stored_length p null = refl
  stored_length p at_max_sub_index = refl
  stored_length null (at_offset m) = refl
  stored_length (at_offset n) (at_offset m) =
      let xs = variable_of object.pdata in
      ap (λ t. length (drop m t)) (variable-put_variable object.pdata (n + k) b)
      ∙ length-drop m (set xs (n + k) b) xs (length-set xs (n + k) b)
  stored_length at_max_sub_index (at_offset m) = refl
  stored_length (at_member i) (at_offset m) =
      ap (λ t. length (drop m t)) (variable-put_member object.pdata i k b)
  stored_length null (at_member l) = refl
  stored_length (at_offset n) (at_member l) =
      ap (λ m. length (bytes_of m.pdata)) (member-put_variable object.pdata (n + k) b l)
  stored_length at_max_sub_index (at_member l) = refl
  stored_length (at_member i) (at_member l) = elim (ℕ_discrete i l) [
    | yes e ↦
        subst
          (λ j.
            length (member_bytes (put_member object.pdata i k b) j)
            ≡ length (member_bytes object.pdata j))
          e
          (ap length (member_self object.pdata i k b)
            ∙ length-set (member_bytes object.pdata i) k b)
    | no ne ↦ ap length (member_other object.pdata i k b l ne)
  ]

  pub stored_self :
      (p : Pointer)
      → k < length (stored object p)
      → get_or (stored (put_byte object p k b) p) k 0 ≡ b
  stored_self null h = absurd (omega arith)
  stored_self at_max_sub_index h =
      let e : k ≡ 0 = omega arith in
      subst (λ x. get_or ((if x == 0 then b else object.max_sub_index) ∷ []) x 0 ≡ b) (sym e) refl
  stored_self (at_offset n) h =
      let xs = variable_of object.pdata in
      ap (λ t. get_or (drop n t) k 0) (variable-put_variable object.pdata (n + k) b)
      ∙ get_or-drop n (set xs (n + k) b) k
      ∙ get_or-set_self xs (n + k) b 0 (inside-drop n xs k h)
  stored_self (at_member i) h =
      ap (λ t. get_or t k 0) (member_self object.pdata i k b)
      ∙ get_or-set_self (member_bytes object.pdata i) k b 0 h

  pub stored_other :
      (p q : Pointer) (j : ℕ)
      → j < length (stored object q)
      → is_same_byte p k q j ≡ false
      → get_or (stored (put_byte object p k b) q) j 0 ≡ get_or (stored object q) j 0
  stored_other p null j h d = refl
  stored_other null at_max_sub_index j h d = refl
  stored_other (at_offset n) at_max_sub_index j h d = refl
  stored_other at_max_sub_index at_max_sub_index j h d =
      let e : j ≡ 0 = omega arith in let ne : (k == 0) ≡ false = ground arith in rw (e, ne)
  stored_other (at_member i) at_max_sub_index j h d = refl
  stored_other null (at_offset m) j h d = refl
  stored_other (at_offset n) (at_offset m) j h d =
      let xs = variable_of object.pdata in
      let ne : n + k ≢ m + j = ground arith in
      ap (λ t. get_or (drop m t) j 0) (variable-put_variable object.pdata (n + k) b)
      ∙ get_or-drop m (set xs (n + k) b) j
      ∙ get_or-set_ne xs (n + k) (m + j) b 0 ne
      ∙ sym (get_or-drop m xs j)
  stored_other at_max_sub_index (at_offset m) j h d = refl
  stored_other (at_member i) (at_offset m) j h d =
      ap (λ t. get_or (drop m t) j 0) (variable-put_member object.pdata i k b)
  stored_other null (at_member l) j h d = refl
  stored_other (at_offset n) (at_member l) j h d =
      ap (λ m. get_or (bytes_of m.pdata) j 0) (member-put_variable object.pdata (n + k) b l)
  stored_other at_max_sub_index (at_member l) j h d = refl
  stored_other (at_member i) (at_member l) j h d = elim (ℕ_discrete i l) [
    | yes e ↦
        let ne : k ≢ j = ground arith in
        subst
          (λ x.
            get_or (member_bytes (put_member object.pdata i k b) x) j 0
            ≡ get_or (member_bytes object.pdata x) j 0)
          e
          (ap (λ t. get_or t j 0) (member_self object.pdata i k b)
            ∙ get_or-set_ne (member_bytes object.pdata i) k j b 0 ne)
    | no ne ↦ ap (λ t. get_or t j 0) (member_other object.pdata i k b l ne)
  ]
