-- ===== src/Pdo/Schedule.antt =====
-- stack/CO_PDO.c: which calls of `CO_TPDO_process` send a synchronous cyclic PDO.
use native.Mathlib.Nat.{div-eq_of_lt, add-div_left}
use canopen_node.Driver.{ReturnError, TxBuffer}
use canopen_node.Nmt.{nmt_operational}
use canopen_node.Pdo.{Tpdo, TpdoCommPar}
use canopen_node.Pdo.Transmit.{
  Processed, started_counter, send, process_cyclic, process_sync, process_kind, process,
}
use canopen_node.Sdo.{Entry}
use canopen_node.Sync.{Sync}
use canopen_node.Prelude.{
  ℕ, suc, ◌+◌, ◌/◌, ◌<◌, ◌≤◌, ◌≡◌, ◌⊎◌, inl, inr, refl, sym, ap, ◌∙◌, ltb, Bool, true, false, ◌&&◌,
  List, [], ◌∷◌, Option, none, some, leb, ◌==◌, if◌then◌else◌, arith, Bool-cases, u8,
}

-- A call of `CO_TPDO_process`, with what it finds: the object dictionary, the SYNC object, whether a SYNC
-- was received, the time that has passed and the result of `CO_CANCheckSend`.
pub record Call : Type 0 where
  pub od : List Entry
  pub sync : Sync
  pub sync_was : Bool
  pub time_difference : ℕ
  pub result : ReturnError

abbrev pub called : Tpdo → TpdoCommPar → Call → Processed
called tpdo par c =
    process tpdo par c.od (some c.sync) nmt_operational c.sync_was c.time_difference c.result

-- What the calls hand to the driver, one after the other.
abbrev pub sent_by : Tpdo → TpdoCommPar → List Call → List (Option TxBuffer)
sent_by tpdo par [] = []
sent_by tpdo par (c ∷ calls) = (called tpdo par c).sent ∷ sent_by (called tpdo par c).tpdo par calls

abbrev pub count_sent : List (Option TxBuffer) → ℕ
count_sent [] = 0
count_sent (none ∷ sent) = count_sent sent
count_sent (some frame ∷ sent) = suc (count_sent sent)

abbrev pub count_syncs : List Call → ℕ
count_syncs [] = 0
count_syncs (c ∷ calls) = if c.sync_was then suc (count_syncs calls) else count_syncs calls

-- The transmission type is a number of SYNCs, and no SYNC start value is in use.
abbrev pub IsCyclic : TpdoCommPar → Type 0
IsCyclic par =
    (0 < par.transmission_type) × (par.transmission_type ≤ 240) × (par.sync_start_value ≡ 0)

-- `passed` SYNCs have come since the last PDO, or since the counter was set to start.
abbrev pub IsPhase : Tpdo → TpdoCommPar → ℕ → Type 0
IsPhase tpdo par passed =
    (tpdo.valid ≡ true)
    × (passed < par.transmission_type)
    × (((tpdo.sync_counter ≡ 255) × (passed ≡ 0))
        ⊎ (tpdo.sync_counter + passed ≡ par.transmission_type))

module _ (tpdo : Tpdo) (par : TpdoCommPar) (c : Call) (passed : ℕ) where
  no_sync :
      IsCyclic par
      → c.sync_was ≡ false
      → IsPhase tpdo par passed
      → IsPhase (called tpdo par c).tpdo par passed × ((called tpdo par c).sent ≡ none)
  unfolding process process_kind
  no_sync (some_syncs, few, no_start) was (v, l, p) =
      let going : (tpdo.valid && true) ≡ true = ground arith in
      let cyclic : leb 253 par.transmission_type ≡ false = ground arith in
      rw (going, cyclic, was) ((v, l, p), refl)

  next_sync :
      IsCyclic par
      → c.sync_was ≡ true
      → IsPhase tpdo par passed
      → process_kind tpdo par c.od (some c.sync) nmt_operational c.sync_was c.result
        ≡ process_cyclic tpdo par c.od c.sync c.result
  unfolding process_kind process_sync
  next_sync (some_syncs, few, no_start) was (v, l, p) =
      let going : (tpdo.valid && true) ≡ true = ground arith in
      let cyclic : leb 253 par.transmission_type ≡ false = ground arith in
      let numbered : (par.transmission_type == 0) ≡ false = ground arith in
      rw (going, cyclic, was, numbered)

  started_lem :
      IsCyclic par
      → IsPhase tpdo par passed
      → started_counter tpdo par c.sync + passed ≡ par.transmission_type
  started_lem (some_syncs, few, no_start) (v, l, inl (restart, none_passed)) = ground arith
  started_lem (some_syncs, few, no_start) (v, l, inr running) = ground arith

  waiting_sync :
      IsCyclic par
      → c.sync_was ≡ true
      → suc passed < par.transmission_type
      → IsPhase tpdo par passed
      → IsPhase (called tpdo par c).tpdo par (suc passed) × ((called tpdo par c).sent ≡ none)
  unfolding process process_cyclic
  waiting_sync cyclic was more phase =
      let (some_syncs, few, no_start) = cyclic in
      let (v, l, p) = phase in
      let start = started_lem cyclic phase in
      let counter = started_counter tpdo par c.sync in
      let used : (counter == 254) ≡ false = ground arith in
      let left : (u8 (counter + 255) == 0) ≡ false = ground arith in
      let rest : u8 (counter + 255) + suc passed ≡ par.transmission_type = omega arith in
      rw (next_sync cyclic was phase, used, left) ((v, more, inr rest), refl)

  sending_sync :
      IsCyclic par
      → c.sync_was ≡ true
      → suc passed ≡ par.transmission_type
      → IsPhase tpdo par passed
      → IsPhase (called tpdo par c).tpdo par 0
        × (((frame : TxBuffer) × ((called tpdo par c).sent ≡ some frame)))
  unfolding process process_cyclic send
  sending_sync cyclic was last phase =
      let (some_syncs, few, no_start) = cyclic in
      let (v, l, p) = phase in
      let start = started_lem cyclic phase in
      let counter = started_counter tpdo par c.sync in
      let used : (counter == 254) ≡ false = ground arith in
      let left : (u8 (counter + 255) == 0) ≡ true = ground arith in
      let again : par.transmission_type + 0 ≡ par.transmission_type = omega arith in
      rw (next_sync cyclic was phase, used, left) ((v, some_syncs, inr again), (_, refl))

-- The number of PDOs that a phase and the SYNCs that follow make.
count_lem :
    (par : TpdoCommPar)
    → IsCyclic par
    → (calls : List Call) (tpdo : Tpdo) (passed : ℕ) → IsPhase tpdo par passed
    → count_sent (sent_by tpdo par calls) ≡ (passed + count_syncs calls) / par.transmission_type
count_lem par cyclic [] tpdo passed phase =
    let (v, l, p) = phase in
    sym (ap (λ n. n / par.transmission_type) (omega arith) ∙ div-eq_of_lt l)
count_lem par cyclic (c ∷ calls) tpdo passed phase =
    let n = par.transmission_type in
    let next = (called tpdo par c).tpdo in
    let rest = sent_by next par calls in
    let more = count_syncs calls in
    elim (Bool-cases c.sync_was) [
      | inr none_was ↦
          let (phase', none_sent) = no_sync tpdo par c passed cyclic none_was phase in
          ap (λ x. count_sent (x ∷ rest)) none_sent
          ∙ count_lem par cyclic calls next passed phase'
          ∙ ap (λ b. (passed + (if b then suc more else more)) / n) (sym none_was)
      | inl was ↦ elim (Bool-cases (ltb (suc passed) n)) [
        | inl waits ↦
            let (phase', none_sent) =
              waiting_sync tpdo par c passed cyclic was (ground arith) phase in
            let shift : suc passed + more ≡ passed + suc more = omega arith in
            ap (λ x. count_sent (x ∷ rest)) none_sent
            ∙ count_lem par cyclic calls next (suc passed) phase'
            ∙ ap (λ x. x / n) shift
            ∙ ap (λ b. (passed + (if b then suc more else more)) / n) (sym was)
        | inr last ↦
            let (v, l, p) = phase in
            let whole : suc passed ≡ n = ground arith in
            let (phase', (frame, sent)) = sending_sync tpdo par c passed cyclic was whole phase in
            let shift : n + more ≡ passed + suc more = omega arith in
            let one_more : suc (more / n) ≡ more / n + 1 = omega arith in
            ap (λ x. count_sent (x ∷ rest)) sent
            ∙ ap suc (count_lem par cyclic calls next 0 phase' ∙ ap (λ x. x / n) (omega arith))
            ∙ one_more
            ∙ sym (add-div_left more cyclic.0)
            ∙ ap (λ x. x / n) shift
            ∙ ap (λ b. (passed + (if b then suc more else more)) / n) (sym was)
      ]
    ]

-- A valid synchronous cyclic TPDO of an operational node, with the transmission type `n` from 1 to 240 and
-- no SYNC start value, whose counter is set to start: whatever the times, the dictionary, the SYNC counters
-- and the results of the driver are, a sequence of calls with a SYNC object hands over as many PDOs as
-- the number of SYNCs among them divided by `n`, so exactly every `n`-th SYNC sends.
pub sent_by_cyclic :
    (tpdo : Tpdo) (par : TpdoCommPar) (calls : List Call)
    → tpdo.valid ≡ true
    → IsCyclic par
    → tpdo.sync_counter ≡ 255
    → count_sent (sent_by tpdo par calls) ≡ count_syncs calls / par.transmission_type
sent_by_cyclic tpdo par calls v cyclic start =
    count_lem par cyclic calls tpdo 0 (v, cyclic.0, inl (start, refl))
    ∙ ap (λ n. n / par.transmission_type) (omega arith)
