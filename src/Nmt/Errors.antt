-- ===== src/Nmt/Errors.antt =====
-- CO_NMT_Heartbeat.c: when errors take an operational node out of its state.
use canopen_node.Emergency.{Em, is_error}
use canopen_node.Nmt.{
  nmt_pre_operational, nmt_operational, nmt_stopped, Nmt, error_state, behave, with_passive,
  process,
}
use canopen_node.Prelude.{
  ℕ, ◌≡◌, refl, List, Option, some, Bool, true, false, ◌&&◌, ◌||◌, ◌==◌, ◌/=◌, if◌then◌else◌, ◌↔◌,
  arith, bit_and, get_or,
}

-- A behavior entry that takes the node out of the operational state.
abbrev pub leaves : ℕ → Bool
leaves behavior = (behavior == 0) || (behavior == 2)

-- The bus is off, or a monitored node is lost or was reset.
abbrev pub is_bus_error : Em → Bool
is_bus_error em = is_error em 0x12 || (is_error em 0x1b || is_error em 0x1c)

-- One kind of error is in the register, and the object dictionary asks to leave because of it.
abbrev pub must_leave : Em → List ℕ → ℕ → Bool
must_leave em behavior register =
    ((bit_and register 0x10 /= 0)
      && (leaves (get_or behavior 1 0) || (is_bus_error em && leaves (get_or behavior 0 0))))
    || (((bit_and register 0x01 /= 0) && leaves (get_or behavior 3 0))
        || (((bit_and register 0x20 /= 0) && leaves (get_or behavior 4 0))
            || ((bit_and register 0x80 /= 0) && leaves (get_or behavior 5 0))))

behave-operational :
    (b s : ℕ) → (behave b s == nmt_operational) ≡ (if leaves b then false else s == nmt_operational)
behave-operational b s = ground arith

kind-operational :
    (p : Bool) (b s : ℕ)
    → ((if p then behave b s else s) == nmt_operational)
      ≡ (if p && leaves b then false else s == nmt_operational)
kind-operational p b s = ground arith

comm-operational :
    (p bus : Bool) (b0 b1 : ℕ)
    → ((if p
          then if b1 == 0
            then nmt_pre_operational
            else if b1 == 2
            then nmt_stopped
            else if bus
            then behave b0 nmt_operational
            else nmt_operational
          else nmt_operational)
        == nmt_operational)
      ≡ (if p && (leaves b1 || (bus && leaves b0)) then false else true)
comm-operational p bus b0 b1 = ground arith

join :
    (a b c d : Bool)
    → (if d then false else if c then false else if b then false else if a then false else true)
      ≡ (if a || (b || (c || d)) then false else true)
join a b c d = ground arith

error_state-operational :
    (em : Em) (behavior : List ℕ) (register : ℕ)
    → (error_state em behavior register == nmt_operational)
      ≡ (if must_leave em behavior register then false else true)
unfolding error_state
error_state-operational em behavior register =
    rw
      (
        kind-operational (bit_and register 0x80 /= 0) (get_or behavior 5 0),
        kind-operational (bit_and register 0x20 /= 0) (get_or behavior 4 0),
        kind-operational (bit_and register 0x01 /= 0) (get_or behavior 3 0),
        comm-operational (bit_and register 0x10 /= 0) (is_bus_error em) (get_or behavior 0 0)
            (get_or behavior 1 0),
      )
      (join
        ((bit_and register 0x10 /= 0)
          && (leaves (get_or behavior 1 0) || (is_bus_error em && leaves (get_or behavior 0 0))))
        ((bit_and register 0x01 /= 0) && leaves (get_or behavior 3 0))
        ((bit_and register 0x20 /= 0) && leaves (get_or behavior 4 0))
        ((bit_and register 0x80 /= 0) && leaves (get_or behavior 5 0)))

must_leave-zero :
    (em : Em) (behavior : List ℕ) (register : ℕ)
    → register ≡ 0
    → must_leave em behavior register ≡ false
must_leave-zero em behavior register e = rw e refl

-- An operational node stays operational through `CO_NMT_process` exactly if no kind of error in the
-- register must leave, with the communication bit added to the register for a passive bus where the
-- behavior asks for it.
pub process_stays_operational :
    (nmt : Nmt) (em : Em) (diff hb_time startup register : ℕ) (behavior : List ℕ) (next : Option ℕ)
    → nmt.operating_state ≡ nmt_operational
    → ((process nmt em diff hb_time startup register (some behavior) next).nmt.operating_state
        ≡ nmt_operational)
      ↔ (must_leave em behavior (with_passive em behavior register) ≡ false)
unfolding process
process_stays_operational nmt em diff hb_time startup register behavior next h = (
  λ e. ground (
    arith,
    error_state-operational em behavior (with_passive em behavior register),
    must_leave-zero em behavior (with_passive em behavior register),
  ),
  λ e. ground (
    arith,
    error_state-operational em behavior (with_passive em behavior register),
    must_leave-zero em behavior (with_passive em behavior register),
  ),
)
