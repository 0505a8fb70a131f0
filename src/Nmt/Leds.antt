-- ===== src/Nmt/Leds.antt =====
-- stack/CO_NMT_Heartbeat.c: `CO_NMT_blinkingProcess50ms`, and the status LED macros of the header.
use mathlib.Core.Path.{subst}
use native.Mathlib.Decide.{dec_lt}
use native.Mathlib.Nat.{add-zero, suc-add}
use canopen_node.Prelude.Bits.{same, same-eq}
use canopen_node.Prelude.{
  ℕ, zero, suc, ◌+◌, ◌-◌, ◌*◌, ◌%◌, ◌<◌, ◌≡◌, refl, ◌∙◌, Bool, true, ◌&&◌, ltb, leb, ◌==◌,
  if◌then◌else◌, arith, ap,
}

-- The LED variables of `CO_NMT_t`. Each is an int8_t, held as its bit pattern: `neg n` is -n.
pub record LedCounters : Type 0 where
  pub flickering : ℕ
  pub blinking : ℕ
  pub single_flash : ℕ
  pub double_flash : ℕ
  pub triple_flash : ℕ
  pub quadruple_flash : ℕ
  pub green_run : ℕ
  pub red_error : ℕ

abbrev pub neg : ℕ → ℕ
neg n = 256 - n

-- `x >= k` on int8_t, for a constant that is not negative.
abbrev pub signed_ge : ℕ → ℕ → Bool
signed_ge x k = ltb x 128 && leb k x

-- `++x` on int8_t.
abbrev pub increment : ℕ → ℕ
increment x = (x + 1) % 256

abbrev pub init_leds : LedCounters
init_leds = record {
  flickering = 0;
  blinking = 0;
  single_flash = 0;
  double_flash = 0;
  triple_flash = 0;
  quadruple_flash = 0;
  green_run = neg 1;
  red_error = 1;
}

-- `case k: x = v; break;`, with the later cases in `other`.
abbrev pub case_of : ℕ → ℕ → ℕ → ℕ → ℕ
case_of x k v other = if x == k then v else other

abbrev double_step : ℕ → ℕ
double_step y = case_of y 4 (neg 104) (case_of y (neg 100) 100 (case_of y 104 (neg 20) y))

abbrev triple_step : ℕ → ℕ
triple_step y = case_of y 4 (neg 104) (
    case_of y (neg 100) 100
      (case_of y 104 (neg 114) (case_of y (neg 110) 110 (case_of y 114 (neg 20) y))))

abbrev quadruple_step : ℕ → ℕ
quadruple_step y = case_of y 4 (neg 104) (
    case_of y (neg 100) 100 (
      case_of y 104 (neg 114) (
        case_of y (neg 110) 110
          (case_of y 114 (neg 124) (case_of y (neg 120) 120 (case_of y 124 (neg 20) y))))))

unfoldable pub blinking_process_50ms : LedCounters → LedCounters
blinking_process_50ms l = record l {
  flickering = if signed_ge (increment l.flickering) 1 then neg 1 else increment l.flickering;
  blinking = if signed_ge (increment l.blinking) 4 then neg 4 else increment l.blinking;
  single_flash =
      if signed_ge (increment l.single_flash) 4 then neg 20 else increment l.single_flash;
  double_flash = double_step (increment l.double_flash);
  triple_flash = triple_step (increment l.triple_flash);
  quadruple_flash = quadruple_step (increment l.quadruple_flash);
}

-- `LED_DOUBLE_FLASH` and its kin: the LED is on while its variable is not negative.
abbrev pub is_on : ℕ → Bool
is_on x = signed_ge x 0

-- The LEDs after `n` calls from the state that `CO_NMT_init` leaves.
unfoldable pub blink : ℕ → LedCounters
blink zero = init_leds
blink (suc n) = blinking_process_50ms (blink n)

-- What the header promises, in steps of 50 ms: on for 4 steps at the start of each of the first
-- `flashes` groups of 8 steps, off in between, and off for the 20 steps at the end.
unfoldable pub pattern_at : ℕ → ℕ → Bool
pattern_at flashes step = ltb step (flashes * 8) && ltb (step % 8) 4

-- What the six variables show at step `n`.
abbrev pub Shows : ℕ → LedCounters → Type 0
Shows n l =
    (is_on l.flickering ≡ (n % 2 == 0))
    × (is_on l.blinking ≡ ltb (n % 8) 4)
    × (is_on l.single_flash ≡ pattern_at 1 (n % 24))
    × (is_on l.double_flash ≡ pattern_at 2 (n % 32))
    × (is_on l.triple_flash ≡ pattern_at 3 (n % 40))
    × (is_on l.quadruple_flash ≡ pattern_at 4 (n % 48))

agrees : ℕ → LedCounters → Bool
unfolding same
agrees n l =
    same (is_on l.flickering) (n % 2 == 0)
    && (same (is_on l.blinking) (ltb (n % 8) 4)
        && (same (is_on l.single_flash) (pattern_at 1 (n % 24))
            && (same (is_on l.double_flash) (pattern_at 2 (n % 32))
                && (same (is_on l.triple_flash) (pattern_at 3 (n % 40))
                    && same (is_on l.quadruple_flash) (pattern_at 4 (n % 48))))))

&&-true : (a b : Bool) → (a && b) ≡ true → (a ≡ true) × (b ≡ true)
&&-true a b h = ground arith

agrees-Shows : (n : ℕ) (l : LedCounters) → agrees n l ≡ true → Shows n l
agrees-Shows n l h =
    unfold agrees in
    let a = &&-true _ _ h in
    let b = &&-true _ _ a.1 in
    let c = &&-true _ _ b.1 in
    let d = &&-true _ _ c.1 in
    let e = &&-true _ _ d.1 in
    (
      same-eq _ _ a.0,
      same-eq _ _ b.0,
      same-eq _ _ c.0,
      same-eq _ _ d.0,
      same-eq _ _ e.0,
      same-eq _ _ e.1,
    )

-- Do the `k` states from `l` on, which is the state of step `n`, agree?
walk : ℕ → ℕ → LedCounters → Bool
walk zero n l = true
walk (suc k) n l = agrees n l && walk k (suc n) (blinking_process_50ms l)

walk_sound :
    (k n i j : ℕ) → walk k n (blink n) ≡ true → i < k → j ≡ n + i → agrees j (blink j) ≡ true
unfolding walk blink
walk_sound zero n i j h l e = absurd (omega arith)
walk_sound (suc k) n zero j h l e = rw (e ∙ add-zero n) ((&&-true _ _ h).0)
walk_sound (suc k) n (suc i) j h l e =
    walk_sound k (suc n) i j (&&-true _ _ h).1 (omega arith) (omega arith)

table : walk 480 0 init_leds ≡ true
unfolding walk agrees blinking_process_50ms pattern_at
table = refl

-- After 480 steps all variables are back where they were.
cycle : blink 480 ≡ init_leds
unfolding blink blinking_process_50ms
cycle = refl

blink-add : (n : ℕ) → blink (n + 480) ≡ blink n
unfolding blink
blink-add zero = cycle
blink-add (suc n) = rw suc-add (ap blinking_process_50ms (blink-add n))

Shows-below : (n : ℕ) → n < 480 → Shows n (blink n)
Shows-below n h =
    agrees-Shows n (blink n) (walk_sound 480 0 n n (unfold blink in table) h (omega arith))

Shows-add : (n : ℕ) → Shows n (blink n) → Shows (n + 480) (blink (n + 480))
Shows-add n s = rw (blink-add n, in_2, in_8, in_24, in_32, in_40, in_48) s
  where
    in_2 : (n + 480) % 2 ≡ n % 2
    in_2 = omega arith

    in_8 : (n + 480) % 8 ≡ n % 8
    in_8 = omega arith

    in_24 : (n + 480) % 24 ≡ n % 24
    in_24 = omega arith

    in_32 : (n + 480) % 32 ≡ n % 32
    in_32 = omega arith

    in_40 : (n + 480) % 40 ≡ n % 40
    in_40 = omega arith

    in_48 : (n + 480) % 48 ≡ n % 48
    in_48 = omega arith

Shows-blocks : (k n : ℕ) → n < k * 480 → Shows n (blink n)
Shows-blocks zero n h = absurd (omega arith)
Shows-blocks (suc k) n h = elim (dec_lt n 480) [
  | yes l ↦ Shows-below n l
  | no l ↦
      subst (λ m. Shows m (blink m)) {x = n - 480 + 480} {y = n} (omega arith)
        (Shows-add (n - 480) (Shows-blocks k (n - 480) (omega arith)))
]

-- After any number of steps every LED variable shows its pattern: flickering alternates, blinking
-- is on for 4 steps and off for 4, and the single, double, triple and quadruple flash are on for 4
-- steps once, twice, three and four times, 8 steps apart, and then off for 20 steps.
blink-Shows : (n : ℕ) → Shows n (blink n)
blink-Shows n = Shows-blocks (suc n) n (omega arith)
