-- ===== src/LssSlave/Led.antt =====
-- stack/CO_LSSslave.c: `CO_LSSslave_LEDprocess`.
use canopen_node.Lss.{waiting, configuration, node_id_assignment}
use canopen_node.LssSlave.{Slave}
use canopen_node.Nmt.Leds.{neg, signed_ge, increment, case_of, is_on}
use canopen_node.Prelude.{
  ℕ, zero, suc, ◌+◌, ◌%◌, ◌-◌, ◌≡◌, refl, Bool, ◌&&◌, ◌||◌, ltb, leb, ◌==◌, if◌then◌else◌, arith,
  ap, ap₂, ◌∙◌, Option, none, some, u16,
}

-- The static variables of the function. `flash1` and `flash2` are int8_t, held as bit patterns.
pub record LedState : Type 0 where
  pub ms50 : ℕ
  pub flash1 : ℕ
  pub flash2 : ℕ

abbrev pub initial : LedState
initial = record { ms50 = 0; flash1 = 0; flash2 = 0 }

abbrev flash1_step : ℕ → ℕ
flash1_step x = if signed_ge (increment x) 4 then neg 50 else increment x

abbrev flash2_step : ℕ → ℕ
flash2_step y =
    let x = increment y in
    case_of x 4 (neg 104) (case_of x (neg 100) 100 (case_of x 104 (neg 50) x))

-- One step of 50 ms.
unfoldable pub led_step : LedState → LedState
led_step l = record l { flash1 = flash1_step l.flash1; flash2 = flash2_step l.flash2 }

-- What `*LEDon` is set to, where the result is true.
abbrev shown : Slave → LedState → Option Bool
shown slave l = elim slave.lss_state [
  | configuration ↦ some (is_on l.flash2)
  | waiting ↦ if slave.active_node_id == node_id_assignment then some (is_on l.flash1) else none
]

-- `CO_LSSslave_LEDprocess` for pointers that are not NULL: what `*LEDon` is set to, where the
-- result is true.
unfoldable pub led_process : LedState → Slave → ℕ → LedState × Option Bool
led_process l slave time_difference =
    let ms50 = u16 (l.ms50 + time_difference) in
    let stepped = led_step (record l { ms50 = u16 (ms50 + 65536 - 50) }) in
    let l' = if leb 50 ms50 then stepped else record l { ms50 = ms50 } in (l', shown slave l')

-- The variables after `n` calls, 50 ms apart.
unfoldable pub led_run : Slave → ℕ → LedState
led_run slave zero = initial
led_run slave (suc n) = (led_process (led_run slave n) slave 50).0

-- What the two comments promise, `n` steps of 50 ms from the start: 4 steps on and 50 off, and 4
-- on, 4 off, 4 on and 50 off.
abbrev pub flash_pattern : ℕ → Bool
flash_pattern n = ltb (n % 54) 4

abbrev pub double_flash_pattern : ℕ → Bool
double_flash_pattern n = ltb (n % 62) 4 || (leb 8 (n % 62) && ltb (n % 62) 12)

abbrev pub shown_pattern : Slave → ℕ → Option Bool
shown_pattern slave n = elim slave.lss_state [
  | configuration ↦ some (double_flash_pattern n)
  | waiting ↦ if slave.active_node_id == node_id_assignment then some (flash_pattern n) else none
]

abbrev flash1_at : ℕ → ℕ
flash1_at m = if ltb m 4 then m else 202 + m

abbrev flash2_at : ℕ → ℕ
flash2_at m =
    if ltb m 4 then m else if ltb m 8 then m + 148 else if ltb m 12 then m + 92 else m + 194

abbrev at_step : ℕ → LedState
at_step n = record { ms50 = 0; flash1 = flash1_at (n % 54); flash2 = flash2_at (n % 62) }

next_flash1 : (n : ℕ) → flash1_step (flash1_at (n % 54)) ≡ flash1_at (suc n % 54)
next_flash1 n = ground arith

next_flash2 : (n : ℕ) → flash2_step (flash2_at (n % 62)) ≡ flash2_at (suc n % 62)
next_flash2 n = ground arith

led_run_lem : (slave : Slave) (n : ℕ) → led_run slave n ≡ at_step n
unfolding led_run led_process led_step
led_run_lem slave zero = refl
led_run_lem slave (suc n) =
    rw (led_run_lem slave n)
      (ap₂ (λ a b. record { ms50 = 0; flash1 = a; flash2 = b }) (next_flash1 n) (next_flash2 n))

run_suc :
    (slave : Slave) (n : ℕ) → (led_process (led_run slave n) slave 50).0 ≡ led_run slave (suc n)
unfolding led_run
run_suc slave n = refl

-- The LED shows the variables as the call leaves them.
led_shown :
    (slave : Slave) (l : LedState)
    → (led_process l slave 50).1 ≡ shown slave (led_process l slave 50).0
unfolding led_process
led_shown slave l = refl

shown_at : (slave : Slave) (n : ℕ) → shown slave (at_step n) ≡ shown_pattern slave n
shown_at slave n = ground arith

-- In calls 50 ms apart from the start, each call sets the LED of a slave in the configuration state
-- to the pattern of two flashes, that of a waiting slave without a node-ID to the pattern of one
-- flash, and leaves it to others in every other case.
pub led_process_shows :
    (slave : Slave) (n : ℕ)
    → (led_process (led_run slave n) slave 50).1 ≡ shown_pattern slave (n + 1)
led_process_shows slave n =
    led_shown slave (led_run slave n)
    ∙ ap (shown slave) (run_suc slave n ∙ led_run_lem slave (suc n))
    ∙ shown_at slave (suc n)
    ∙ ap (shown_pattern slave) (omega arith)
