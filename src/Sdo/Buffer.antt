-- ===== src/Sdo/Buffer.antt =====
-- stack/CO_SDO.c: bytes that are copied into the data buffer and out of it.
use canopen_node.Sdo.Access.{overwrite}
use canopen_node.Prelude.{
  ap₂, get_or, ℕ, zero, suc, ◌+◌, ◌<◌, ◌≤◌, ◌≡◌, refl, sym, ap, ◌∙◌, List, [], ◌∷◌, ◌++◌, length,
  set, take, drop, arith, length-set,
}

pub length-overwrite :
    (buf : List ℕ) (at : ℕ) (bs : List ℕ) → length (overwrite buf at bs) ≡ length buf
length-overwrite buf at [] = refl
length-overwrite buf at (b ∷ bs) = length-overwrite (set buf at b) (at + 1) bs ∙ length-set buf at b

pub append_assoc : (xs ys zs : List ℕ) → (xs ++ ys) ++ zs ≡ xs ++ (ys ++ zs)
append_assoc [] ys zs = refl
append_assoc (x ∷ xs) ys zs = ap (λ t. x ∷ t) (append_assoc xs ys zs)

pub append_nil : (xs : List ℕ) → xs ++ [] ≡ xs
append_nil [] = refl
append_nil (x ∷ xs) = ap (λ t. x ∷ t) (append_nil xs)

take-set :
    (buf : List ℕ) (at b : ℕ)
    → at < length buf
    → take (suc at) (set buf at b) ≡ take at buf ++ (b ∷ [])
take-set [] at b h = absurd (omega arith)
take-set (x ∷ buf) zero b h = refl
take-set (x ∷ buf) (suc at) b h = ap (λ t. x ∷ t) (take-set buf at b (omega arith))

-- Bytes that fit are behind those that stood before them.
pub take-overwrite :
    (buf : List ℕ) (at n : ℕ) (bs : List ℕ)
    → n ≡ at + length bs
    → n ≤ length buf
    → take n (overwrite buf at bs) ≡ take at buf ++ bs
take-overwrite buf at n [] e h =
    let same : n ≡ at = omega arith in ap (λ m. take m buf) same ∙ sym (append_nil (take at buf))
take-overwrite buf at n (b ∷ bs) e h =
    let next : at + 1 ≡ suc at = omega arith in
    take-overwrite (set buf at b) (at + 1) n bs (omega arith) (omega (arith, length-set buf at b))
    ∙ ap (λ m. take m (set buf at b) ++ bs) next
    ∙ ap (λ t. t ++ bs) (take-set buf at b (omega arith))
    ∙ append_assoc (take at buf) (b ∷ []) bs

pub take_all : (xs : List ℕ) → take (length xs) xs ≡ xs
take_all [] = refl
take_all (x ∷ xs) = ap (λ t. x ∷ t) (take_all xs)

-- Bytes that fill an array replace it.
pub overwrite_all : (buf bs : List ℕ) → length bs ≡ length buf → overwrite buf 0 bs ≡ bs
overwrite_all buf bs e =
    let same : length (overwrite buf 0 bs) ≡ length bs = omega (arith, length-overwrite buf 0 bs) in
    sym (take_all (overwrite buf 0 bs))
    ∙ ap (λ n. take n (overwrite buf 0 bs)) same
    ∙ take-overwrite buf 0 (length bs) bs (omega arith) (omega arith)

pub length-take : (n : ℕ) (xs : List ℕ) → n ≤ length xs → length (take n xs) ≡ n
length-take zero xs h = refl
length-take (suc n) [] h = absurd (omega arith)
length-take (suc n) (x ∷ xs) h = ap suc (length-take n xs (omega arith))

overwrite_behind :
    (x : ℕ) (buf : List ℕ) (at : ℕ) (bs : List ℕ)
    → overwrite (x ∷ buf) (suc at) bs ≡ x ∷ overwrite buf at bs
overwrite_behind x buf at [] = refl
overwrite_behind x buf at (b ∷ bs) =
    let next : suc at + 1 ≡ suc (at + 1) = omega arith in
    ap (λ i. overwrite (x ∷ set buf at b) i bs) next ∙ overwrite_behind x (set buf at b) (at + 1) bs

-- Bytes that are written at an offset are found there.
pub take-drop-overwrite :
    (buf : List ℕ) (at n : ℕ) (bs : List ℕ)
    → n ≡ length bs
    → at + n ≤ length buf
    → take n (drop at (overwrite buf at bs)) ≡ bs
take-drop-overwrite buf zero n bs e h = take-overwrite buf 0 n bs (omega arith) (omega arith)
take-drop-overwrite [] (suc at) zero [] e h = refl
take-drop-overwrite [] (suc at) n (b ∷ bs) e h = absurd (omega arith)
take-drop-overwrite [] (suc at) (suc n) [] e h = absurd (omega arith)
take-drop-overwrite (x ∷ buf) (suc at) n bs e h =
    ap (λ t. take n (drop (suc at) t)) (overwrite_behind x buf at bs)
    ∙ take-drop-overwrite buf at n bs e (omega arith)

-- A piece of an array, from what the array begins with.
pub piece :
    (n : ℕ) (xs os bs cs : List ℕ)
    → take n xs ≡ os ++ (bs ++ cs)
    → take (length bs) (drop (length os) xs) ≡ bs
piece n xs [] [] cs e = refl
piece zero xs [] (b ∷ bs) cs e = absurd (cc e)
piece (suc n) [] [] (b ∷ bs) cs e = absurd (cc e)
piece (suc n) (x ∷ xs) [] (b ∷ bs) cs e =
    ap₂ (λ y ys. y ∷ ys) (ap (λ t. get_or t 0 0) e) (piece n xs [] bs cs (ap (drop 1) e))
piece zero xs (o ∷ os) bs cs e = absurd (cc e)
piece (suc n) [] (o ∷ os) bs cs e = absurd (cc e)
piece (suc n) (x ∷ xs) (o ∷ os) bs cs e = piece n xs os bs cs (ap (drop 1) e)

pub take-take : (m n : ℕ) (xs : List ℕ) → m ≤ n → take m (take n xs) ≡ take m xs
take-take zero n xs h = refl
take-take (suc m) zero xs h = absurd (omega arith)
take-take (suc m) (suc n) [] h = refl
take-take (suc m) (suc n) (x ∷ xs) h = ap (λ t. x ∷ t) (take-take m n xs (omega arith))
