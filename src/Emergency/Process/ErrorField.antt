-- ===== src/Emergency/Process/ErrorField.antt =====
-- CO_Emergency.c: the pre-defined error field (object 0x1003) is the history of the messages sent.
use canopen_node.Emergency.Process.{Empr, shift_errors, add_pre_def_err}
use canopen_node.Prelude.{
  ℕ, zero, suc, ◌+◌, ◌-◌, ◌<◌, ◌≤◌, ◌≡◌, refl, ◌∙◌, sym, List, [], ◌∷◌, ◌++◌, ltb, if◌then◌else◌,
  true, get_or, set, take, length, length-set, get_or-set_self, get_or-set_ne, arith, ap, ap₂, u8,
  Bool-cases, inl, inr,
}

take-snoc : (l : List ℕ) (n : ℕ) → n < length l → take (suc n) l ≡ take n l ++ (get_or l n 0 ∷ [])
take-snoc [] n h = absurd (omega arith)
take-snoc (x ∷ l) zero h = refl
take-snoc (x ∷ l) (suc n) h = ap (λ t. x ∷ t) (take-snoc l n (omega arith))

take-set_ge : (l : List ℕ) (n i v : ℕ) → n ≤ i → take n (set l i v) ≡ take n l
take-set_ge l zero i v h = refl
take-set_ge [] (suc n) i v h = refl
take-set_ge (x ∷ l) (suc n) zero v h = absurd (omega arith)
take-set_ge (x ∷ l) (suc n) (suc i) v h = ap (λ t. x ∷ t) (take-set_ge l n i v (omega arith))

take_all : (l : List ℕ) (n m : ℕ) → n ≤ m → take n (take m l) ≡ take n l
take_all l zero m h = refl
take_all [] (suc n) zero h = absurd (omega arith)
take_all [] (suc n) (suc m) h = refl
take_all (x ∷ l) (suc n) zero h = absurd (omega arith)
take_all (x ∷ l) (suc n) (suc m) h = ap (λ t. x ∷ t) (take_all l n m (omega arith))

take_past : (l : List ℕ) (n m : ℕ) → m ≤ n → take n (take m l) ≡ take m l
take_past l zero zero h = refl
take_past l (suc n) zero h = refl
take_past l zero (suc m) h = absurd (omega arith)
take_past [] (suc n) (suc m) h = refl
take_past (x ∷ l) (suc n) (suc m) h = ap (λ t. x ∷ t) (take_past l n m (omega arith))

length-shift_errors : (i : ℕ) (l : List ℕ) → length (shift_errors i l) ≡ length l
unfolding shift_errors
length-shift_errors zero l = refl
length-shift_errors (suc i) l =
    length-shift_errors i (set l (suc i) (get_or l i 0)) ∙ length-set l (suc i) (get_or l i 0)

shift_errors_above : (i j : ℕ) (l : List ℕ) → i < j → get_or (shift_errors i l) j 0 ≡ get_or l j 0
unfolding shift_errors
shift_errors_above zero j l h = refl
shift_errors_above (suc i) j l h =
    shift_errors_above i j (set l (suc i) (get_or l i 0)) (omega arith)
    ∙ get_or-set_ne l (suc i) j (get_or l i 0) 0 (omega arith)

first_set : (l : List ℕ) (x : ℕ) → 0 < length l → take 1 (set l 0 x) ≡ x ∷ []
first_set [] x h = absurd (omega arith)
first_set (y ∷ l) x h = refl

shift_errors_lem :
    (i x : ℕ) (l : List ℕ) → i < length l → take (suc i) (set (shift_errors i l) 0 x) ≡ x ∷ take i l
unfolding shift_errors
shift_errors_lem zero x l h = first_set l x h
shift_errors_lem (suc i) x l h =
    take-snoc (set moved 0 x) (suc i) (
      omega (
        arith,
        length-set moved 0 x,
        length-shift_errors i l',
        length-set l (suc i) (get_or l i 0),
      ))
    ∙ ap₂ (λ t y. t ++ (y ∷ []))
        (shift_errors_lem i x l' (omega (arith, length-set l (suc i) (get_or l i 0))))
        (get_or-set_ne moved 0 (suc i) x 0 (omega arith)
          ∙ shift_errors_above i (suc i) l' (omega arith)
          ∙ get_or-set_self l (suc i) (get_or l i 0) 0 h)
    ∙ ap₂ (λ t u. x ∷ (t ++ u)) (take-set_ge l i (suc i) (get_or l i 0) (omega arith)) refl
    ∙ ap (λ t. x ∷ t) (sym (take-snoc l i (omega arith)))
  where
    l' : List ℕ
    l' = set l (suc i) (get_or l i 0)

    moved : List ℕ
    moved = shift_errors i l'

-- The errors of object 0x1003, newest first.
abbrev pub errors : Empr → List ℕ
errors p = take p.pre_def_err_no_of_errors p.pre_def_err

pub record IsField (p : Empr) : Type 0 where
  pub present : p.has_pre_def_err ≡ true
  pub fits : p.pre_def_err_size ≤ length p.pre_def_err
  pub is_byte : p.pre_def_err_size < 256
  pub some_room : 0 < p.pre_def_err_size
  pub within : p.pre_def_err_no_of_errors ≤ p.pre_def_err_size

add_at :
    (l : List ℕ) (x n size m : ℕ)
    → size ≤ length l
    → n ≤ size
    → 0 < size
    → m ≡ (if ltb n size then n + 1 else n)
    → take m (set (shift_errors (m - 1) l) 0 x) ≡ x ∷ take (size - 1) (take n l)
add_at l x n size m f w r e =
    ap (λ k. take k (set (shift_errors (m - 1) l) 0 x)) {x = m} {y = suc (m - 1)} (ground arith)
    ∙ shift_errors_lem (m - 1) x l (ground arith)
    ∙ ap (λ t. x ∷ t)
        (elim (Bool-cases (ltb n size)) [
          | inl p ↦
              ap (λ k. take k l) {x = m - 1} {y = n} (ground arith)
              ∙ sym (take_past l (size - 1) n (ground arith))
          | inr p ↦
              ap (λ k. take k l) {x = m - 1} {y = size - 1} (ground arith)
              ∙ sym (take_all l (size - 1) n (ground arith))
        ])

added : Empr → ℕ → Empr
added p x =
    let m =
      if ltb p.pre_def_err_no_of_errors p.pre_def_err_size
      then p.pre_def_err_no_of_errors + 1
      else p.pre_def_err_no_of_errors in
    record p {
      pre_def_err_no_of_errors = m;
      pre_def_err = set (shift_errors (m - 1) p.pre_def_err) 0 x;
    }

-- No uint8_t wraps.
adds : (p : Empr) (x : ℕ) → IsField p → add_pre_def_err p x ≡ added p x
unfolding add_pre_def_err added
adds p x f = elim (Bool-cases (ltb p.pre_def_err_no_of_errors p.pre_def_err_size)) [
  | inl e ↦ rw (
    e,
    f.present,
    wrap (p.pre_def_err_no_of_errors + 1) (ground (arith, f.within, f.is_byte)),
    last (p.pre_def_err_no_of_errors + 1) (omega arith) (ground (arith, f.within, f.is_byte)),
  )
  | inr e ↦ rw (
    e,
    f.present,
    last p.pre_def_err_no_of_errors (ground (arith, f.some_room))
        (omega (arith, f.within, f.is_byte)),
  )
]
  where
    wrap : (n : ℕ) → n < 256 → u8 n ≡ n
    wrap n h = omega arith

    last : (n : ℕ) → 0 < n → n < 256 → u8 (n + 255) ≡ n - 1
    last n h k = omega arith

-- Sending a message with the error code and register `x` puts `x` in front of the history, of which
-- the newest entries stay, as many as the field can hold.
pub add_pre_def_err_lem :
    (p : Empr) (x : ℕ)
    → IsField p
    → (errors (add_pre_def_err p x) ≡ x ∷ take (p.pre_def_err_size - 1) (errors p))
      × IsField (add_pre_def_err p x)
add_pre_def_err_lem p x f =
    let s = p.pre_def_err_size in
    let n = p.pre_def_err_no_of_errors in
    let m = if ltb n s then n + 1 else n in
    rw (adds p x f) (
      unfold added in
      (
        add_at p.pre_def_err x n s m f.fits f.within f.some_room refl,
        record {
          present = f.present;
          fits = omega (
            arith,
            f.fits,
            length-set (shift_errors (m - 1) p.pre_def_err) 0 x,
            length-shift_errors (m - 1) p.pre_def_err,
          );
          is_byte = f.is_byte;
          some_room = f.some_room;
          within = ground (arith, f.within);
        },
      ))
