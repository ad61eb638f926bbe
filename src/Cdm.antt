-- ===== src/Cdm.antt =====
-- packages/xfs-devices/src/cdm/cdm.service.ts, with the data of packages/xfs-core/src/cdm.ts: the
-- cash dispenser. The map of cassettes is a list in the map's insertion order. A mix, an object
-- with denominations as keys, is a list of pairs in the order in which JavaScript enumerates it.
pub mod Error
pub mod Units
pub mod Notes
pub mod Conservation
pub mod Dispense
pub mod Funded
pub mod Status
pub mod Limits
pub mod Timer
mod Tests
use atm_xfs_simulator.Common.{
  ℕ, zero, suc, ◌+◌, String, Bool, true, false, Option, none, some, List, [], ◌∷◌, ◌++◌, Result, ok,
  err, ◌>>=◌, ◌>>◌, ◌==◌, ltb, leb, if◌then◌else◌,
}
use atm_xfs_simulator.Common.Int.{ℤ, pos, negsuc}
use atm_xfs_simulator.Common.Number.{Number, natural}
use atm_xfs_simulator.Xfs.{XfsResult}
use atm_xfs_simulator.Xfs.Device.{Device}
use atm_xfs_simulator.Xfs.Device
use Error.{
  CdmError, injected, unsupported_command, unknown_cassette, replenish_out_of_range, invalid_amount,
  no_active_cassette, insufficient_notes, no_cash_to_present, nothing_to_retract,
}
use Units.{
  CashUnit, CashUnitStatus, is_ok, status_for, get_unit, update_unit, set_unit,
  find_spendable_unit_by_denom, take_from, total_amount, total_notes, total_dispensed,
}
use Notes.{Mix, CustomMix, mix_notes, min_notes_mix, validate_custom_mix}

pub data CdmMixType : Type 0 where
  min_notes max_notes custom : CdmMixType

pub record CdmDispensePayload : Type 0 where
  pub amount : Number
  pub mix_type : CdmMixType
  pub custom_mix : Option CustomMix
  pub present : Bool

pub data CdmCommand : Type 0 where
  dispense : CdmDispensePayload → CdmCommand
  present retract reject cash_unit_info count start_exchange end_exchange reset other : CdmCommand

pub data CdmAnswer : Type 0 where
  dispensed : (mix : Mix) → (total_dispensed : ℕ) → CdmAnswer
  presented : (amount : ℕ) → CdmAnswer
  units_info : List CashUnit → (total_dispensed : ℕ) → CdmAnswer
  counted : (total_amount total_notes : ℕ) → CdmAnswer
  acknowledged done : CdmAnswer

pub data CdmEvent : Type 0 where
  cash_unit_threshold : CashUnit → CdmEvent
  notes_presented : (amount : ℕ) → CdmEvent
  notes_taken : (amount : ℕ) → CdmEvent
  jam : (unit_id : String) → CdmEvent

pub record PresentedCash : Type 0 where
  pub amount : ℕ
  pub notes : Mix

-- `take_timer` says whether the timer is armed; `emitted` lists the events, the oldest first.
pub record Cdm : Type 0 where
  pub device : Device
  pub cash_units : List CashUnit
  pub presented_cash : Option PresentedCash
  pub take_timer : Bool
  pub emitted : List CdmEvent

abbrev pub emit : CdmEvent → Cdm → Cdm
emit e c = record c { emitted = c.emitted ++ e ∷ [] }

abbrev pub cassette : String → (denomination count minimum maximum : ℕ) → CashUnit
cassette id denomination n minimum maximum = record {
  unit_id = id;
  denomination = denomination;
  currency = "IDR";
  status = CashUnitStatus.ok;
  count = n;
  initial_count = n;
  maximum = maximum;
  minimum = minimum;
  reject_count = 0;
}

-- `initializeCassettes`
abbrev pub default_cassettes : List CashUnit
default_cassettes =
    cassette "CASS1" 100000 500 50 2500
    ∷ cassette "CASS2" 50000 1000 100 2500
    ∷ cassette "CASS3" 20000 500 50 2500
    ∷ cassette "REJECT" 0 0 0 300
    ∷ []

-- The constructor.
unfoldable pub new : Cdm
unfolding Device.open_service Device.initial
new = record {
  device = Device.open_service Device.initial;
  cash_units = default_cassettes;
  presented_cash = none;
  take_timer = false;
  emitted = [];
}

-- Pre-flight: every cassette has enough.
unfoldable pub preflight : Mix → List CashUnit → Result CdmError (Unit {0})
preflight [] units = ok tt
preflight ((denom, needed) ∷ mix) units =
    let rest = preflight mix units in
    elim (find_spendable_unit_by_denom denom units) [
      | none ↦ err (no_active_cassette denom)
      | some u ↦
          if ltb u.count needed then err (insufficient_notes u.unit_id needed u.count) else rest
    ]

-- The event of one round, for the unit after it was charged.
abbrev pub threshold : Option CashUnit → Cdm → Cdm
threshold none c = c
threshold (some u) c = if is_ok u.status then c else emit (cash_unit_threshold u) c

abbrev pub charged : ℕ → ℕ → List CashUnit → Option CashUnit
charged denom n units = elim (find_spendable_unit_by_denom denom units) [
  | none ↦ none
  | some u ↦ some (Units.take_notes n u)
]

unfoldable pub deduct_one : ℕ → ℕ → Cdm → Cdm
deduct_one denom n c =
    threshold (charged denom n c.cash_units)
      (record c { cash_units = take_from denom n c.cash_units })

unfoldable pub deduct : Mix → Cdm → Cdm
deduct [] c = c
deduct ((denom, n) ∷ mix) c = deduct mix (deduct_one denom n c)

-- The private method `present`; the timer is cancelled and armed again.
abbrev pub present_held : Option PresentedCash → Cdm → Result CdmError CdmAnswer × Cdm
present_held none c = (err no_cash_to_present, c)
present_held (some p) c =
    (ok (presented p.amount), record (emit (notes_presented p.amount) c) { take_timer = true })

unfoldable pub present_cash : Cdm → Result CdmError CdmAnswer × Cdm
present_cash c = present_held c.presented_cash c

-- Which mix: `mixType === 'CUSTOM' && customMix`, and greedy in every other case.
abbrev pub choose_mix : CdmMixType → Option CustomMix → ℕ → List CashUnit → Result CdmError Mix
choose_mix CdmMixType.custom (some m) amount units = validate_custom_mix amount m.entries
choose_mix _ _ amount units = min_notes_mix units amount

abbrev pub checked_amount : Number → Option ℕ → Result CdmError ℕ
checked_amount n none = err (invalid_amount n)
checked_amount n (some zero) = err (invalid_amount n)
checked_amount n (some (suc k)) = ok (suc k)

-- What `dispense` computes before it changes anything.
unfoldable pub plan : CdmDispensePayload → List CashUnit → Result CdmError (ℕ × Mix)
plan p units = do
  amount ← checked_amount p.amount (natural p.amount)
  mix ← choose_mix p.mix_type p.custom_mix amount units
  preflight mix units
  ok (amount, mix)

abbrev pub hold : ℕ → Mix → Cdm → Cdm
hold amount mix c = record (deduct mix c) {
  presented_cash = some (record { amount = amount; notes = mix });
}

unfoldable pub dispense_cash : CdmDispensePayload → Cdm → Result CdmError CdmAnswer × Cdm
dispense_cash p c = elim (plan p c.cash_units) [
  | err e ↦ (err e, c)
  | ok (amount, mix) ↦ (
    ok (dispensed mix amount),
    if p.present then (present_cash (hold amount mix c)).1 else hold amount mix c,
  )
]

-- The timer's callback, three seconds after the notes were presented.
abbrev pub take_held : Option PresentedCash → Cdm → Cdm
take_held none c = c
take_held (some p) c = record (emit (notes_taken p.amount) c) { presented_cash = none }

unfoldable pub take_timeout : Cdm → Cdm
take_timeout c = record (take_held c.presented_cash c) { take_timer = false }

abbrev pub add_notes : ℕ → CashUnit → CashUnit
add_notes n u = record u { count = u.count + n }

abbrev pub retract_held : Option PresentedCash → Cdm → Result CdmError CdmAnswer × Cdm
retract_held none c = (err nothing_to_retract, c)
retract_held (some p) c = (
  ok done,
  record c {
    take_timer = false;
    cash_units = update_unit "REJECT" (add_notes (mix_notes p.notes)) c.cash_units;
    presented_cash = none;
  },
)

unfoldable pub retract_cash : Cdm → Result CdmError CdmAnswer × Cdm
retract_cash c = retract_held c.presented_cash c

-- The `switch` of `executeCommand`.
unfoldable pub dispatch : CdmCommand → Cdm → Result CdmError CdmAnswer × Cdm
dispatch (CdmCommand.dispense p) c = dispense_cash p c
dispatch CdmCommand.present c = present_cash c
dispatch CdmCommand.retract c = retract_cash c
dispatch CdmCommand.reject c = retract_cash c
dispatch CdmCommand.cash_unit_info c =
    (ok (units_info c.cash_units (total_dispensed c.cash_units)), c)
dispatch CdmCommand.count c =
    (ok (counted (total_amount c.cash_units) (total_notes c.cash_units)), c)
dispatch CdmCommand.start_exchange c = (ok acknowledged, c)
dispatch CdmCommand.end_exchange c = (ok acknowledged, c)
dispatch _ c = (err unsupported_command, c)

abbrev pub dispatch_checked :
    Option XfsResult × Device → CdmCommand → Cdm → Result CdmError CdmAnswer × Cdm
dispatch_checked (none, d) cmd c = dispatch cmd (record c { device = d })
dispatch_checked (some r, d) cmd c = (err (injected r), record c { device = d })

-- RESET runs before the injected error is looked at.
unfoldable pub execute_command : CdmCommand → Cdm → Result CdmError CdmAnswer × Cdm
execute_command CdmCommand.reset c = (
  ok done,
  record c { take_timer = false; presented_cash = none; device = Device.reset c.device },
)
execute_command cmd c = dispatch_checked (Device.check_injected_error c.device) cmd c

abbrev pub refill : ℕ → CashUnit → CashUnit
refill n u = record u { count = n; status = status_for u.minimum n }

abbrev pub replenish_found : String → ℤ → Option CashUnit → Cdm → Result CdmError CashUnit × Cdm
replenish_found id n none c = (err (unknown_cassette id), c)
replenish_found id (negsuc n) (some u) c = (err (replenish_out_of_range u.maximum), c)
replenish_found id (pos n) (some u) c =
    if ltb u.maximum n
    then (err (replenish_out_of_range u.maximum), c)
    else (ok (refill n u), record c { cash_units = update_unit id (refill n) c.cash_units })

unfoldable pub replenish_cassette : String → ℤ → Cdm → Result CdmError CashUnit × Cdm
replenish_cassette id n c = replenish_found id n (get_unit id c.cash_units) c

abbrev pub set_jammed : CashUnit → CashUnit
set_jammed u = record u { status = CashUnitStatus.jammed }

unfoldable pub simulate_jam : String → Cdm → Result CdmError (Unit {0}) × Cdm
simulate_jam id c = elim (get_unit id c.cash_units) [
  | none ↦ (err (unknown_cassette id), c)
  | some u ↦
      (ok tt, emit (jam id) (record c { cash_units = update_unit id set_jammed c.cash_units }))
]

abbrev pub restore_status : CashUnit → CashUnit
restore_status u = record u { status = status_for u.minimum u.count }

unfoldable pub clear_jam : String → Cdm → Result CdmError (Unit {0}) × Cdm
clear_jam id c = elim (get_unit id c.cash_units) [
  | none ↦ (err (unknown_cassette id), c)
  | some u ↦ (ok tt, record c { cash_units = update_unit id restore_status c.cash_units })
]

abbrev pub set_units : List CashUnit → List CashUnit → List CashUnit
set_units [] units = units
set_units (u ∷ us) units = set_units us (set_unit u units)

unfoldable pub load_cassettes : List CashUnit → Cdm → Cdm
load_cassettes us c = record c { cash_units = set_units us [] }

-- What the manager, the operator console and the timer can call.
pub data CdmCall : Type 0 where
  execute : CdmCommand → CdmCall
  replenish : String → ℤ → CdmCall
  jam clear : String → CdmCall
  inject : XfsResult → CdmCall
  timeout : CdmCall

unfoldable pub apply : CdmCall → Cdm → Cdm
apply (CdmCall.execute cmd) c = (execute_command cmd c).1
apply (CdmCall.replenish id n) c = (replenish_cassette id n c).1
apply (CdmCall.jam id) c = (simulate_jam id c).1
apply (CdmCall.clear id) c = (clear_jam id c).1
apply (CdmCall.inject r) c = record c { device = Device.inject_error r c.device }
apply CdmCall.timeout c = take_timeout c

unfoldable pub run : List CdmCall → Cdm → Cdm
run [] c = c
run (call ∷ calls) c = run calls (apply call c)
