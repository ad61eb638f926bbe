-- ===== src/Cdm/Units.antt =====
-- Cassettes, and the map of cassettes by unit id.
use atm_xfs_simulator.Common.{
  ℕ, ◌+◌, ◌-◌, ◌*◌, String, Bool, true, false, not, ◌&&◌, Option, none, some, List, [], ◌∷◌, ◌==◌,
  leb, str_eq, if◌then◌else◌,
}

pub data CashUnitStatus : Type 0 where
  ok low empty jammed inoperative : CashUnitStatus

pub record CashUnit : Type 0 where
  pub unit_id : String
  pub denomination : ℕ
  pub currency : String
  pub status : CashUnitStatus
  pub count : ℕ
  pub initial_count : ℕ
  pub maximum : ℕ
  pub minimum : ℕ
  pub reject_count : ℕ

abbrev pub is_jammed : CashUnitStatus → Bool
is_jammed CashUnitStatus.jammed = true
is_jammed _ = false

abbrev pub is_inoperative : CashUnitStatus → Bool
is_inoperative CashUnitStatus.inoperative = true
is_inoperative _ = false

abbrev pub is_ok : CashUnitStatus → Bool
is_ok CashUnitStatus.ok = true
is_ok _ = false

abbrev pub is_reject : CashUnit → Bool
is_reject u = str_eq u.unit_id "REJECT"

-- `n === 0 ? 'EMPTY' : n <= minimum ? 'LOW' : 'OK'`
abbrev pub status_for : ℕ → ℕ → CashUnitStatus
status_for minimum n =
    if n == 0
    then CashUnitStatus.empty
    else if leb n minimum
    then CashUnitStatus.low
    else CashUnitStatus.ok

-- `cashUnits.get(unitId)`
unfoldable pub get_unit : String → List CashUnit → Option CashUnit
get_unit id [] = none
get_unit id (u ∷ us) = if str_eq u.unit_id id then some u else get_unit id us

-- A write to the object that `get_unit` finds.
unfoldable pub update_unit : String → (CashUnit → CashUnit) → List CashUnit → List CashUnit
update_unit id f [] = []
update_unit id f (u ∷ us) = if str_eq u.unit_id id then f u ∷ us else u ∷ update_unit id f us

-- `cashUnits.set(u.unitId, u)`: a key that is there keeps its place.
unfoldable pub set_unit : CashUnit → List CashUnit → List CashUnit
set_unit v [] = v ∷ []
set_unit v (u ∷ us) = if str_eq u.unit_id v.unit_id then v ∷ us else u ∷ set_unit v us

-- The test of `findSpendableUnitByDenom`.
abbrev pub is_spendable : ℕ → CashUnit → Bool
is_spendable denom u = u.denomination == denom && not (is_reject u) && not (is_jammed u.status)

unfoldable pub find_spendable_unit_by_denom : ℕ → List CashUnit → Option CashUnit
find_spendable_unit_by_denom denom [] = none
find_spendable_unit_by_denom denom (u ∷ us) =
    if is_spendable denom u then some u else find_spendable_unit_by_denom denom us

-- `unit.count -= count` and the change of status after it, for a count that is there: `deduct` is its only
-- caller, after the pre-flight check, and Cdm/Funded is about that.
abbrev pub take_notes : ℕ → CashUnit → CashUnit
take_notes n u =
    let left = u.count - n in
    record u {
      count = left;
      status =
          if left == 0
          then CashUnitStatus.empty
          else if leb left u.minimum
          then CashUnitStatus.low
          else u.status;
    }

-- The same, at the unit that `find_spendable_unit_by_denom` finds.
unfoldable pub take_from : ℕ → ℕ → List CashUnit → List CashUnit
take_from denom n [] = []
take_from denom n (u ∷ us) =
    if is_spendable denom u then take_notes n u ∷ us else u ∷ take_from denom n us

-- `count()`: the money, and the notes, outside the reject bin.
unfoldable pub total_amount : List CashUnit → ℕ
total_amount [] = 0
total_amount (u ∷ us) = (if is_reject u then 0 else u.count * u.denomination) + total_amount us

unfoldable pub total_notes : List CashUnit → ℕ
total_notes [] = 0
total_notes (u ∷ us) = (if is_reject u then 0 else u.count) + total_notes us

-- The sum of `getCashUnitInfo`.
unfoldable pub total_dispensed : List CashUnit → ℕ
total_dispensed [] = 0
total_dispensed (u ∷ us) = (u.initial_count - u.count) * u.denomination + total_dispensed us
