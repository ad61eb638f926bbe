-- ===== src/Cdm/Tests.antt =====
-- Runs of the cash dispenser, and each of its theorems at an input that meets the conditions.
use atm_xfs_simulator.Common.{
  ◌+◌, ◌≡◌, ◌≢◌, String, refl, true, false, none, some, List, [], ◌∷◌, ◌++◌, ok, err, arith, All,
}
use atm_xfs_simulator.Common.Int.{pos}
use atm_xfs_simulator.Common.Number.{int}
use atm_xfs_simulator.Xfs.Device
use atm_xfs_simulator.Cdm.Error.{cannot_dispense_exact}
use atm_xfs_simulator.Cdm.Units.{total_amount, find_spendable_unit_by_denom, take_from, get_unit}
use atm_xfs_simulator.Cdm.Notes.{
  Mix, min_notes_mix, sort_desc, candidates, insert_desc, greedy, put_taken, put, mix_value,
  mix_notes,
}
use atm_xfs_simulator.Cdm.{
  Cdm, cassette, CdmCall, CdmCommand, CdmDispensePayload, new, dispense_cash, present_cash, plan,
  preflight, deduct, deduct_one, dispensed, done, notes_taken, retract_cash, take_timeout, run,
}
use atm_xfs_simulator.Cdm.Conservation.{all_notes}
use atm_xfs_simulator.Cdm.Dispense.{dispense-conserves}
use atm_xfs_simulator.Cdm.Status.{IsSound, run-IsSound}
use atm_xfs_simulator.Cdm.Limits.{
  three_cassettes, two_cassettes, plain_payload, min_notes_mix_misses, dispense_shared_denomination,
}
use atm_xfs_simulator.Cdm.Funded.{IsFunded, plan-IsFunded}
use atm_xfs_simulator.Cdm.Timer.{retract-dispense, take_timeout-dispense}

-- What a run of `dispense_cash` computes with.
machine : Unit {0}
unfolding dispense_cash present_cash plan preflight deduct deduct_one find_spendable_unit_by_denom
    take_from min_notes_mix sort_desc candidates insert_desc greedy put_taken put mix_value
    mix_notes new
machine = tt

abbrev request : CdmDispensePayload
request = plain_payload 170000 true

abbrev request_mix : Mix
request_mix = (20000, 1) ∷ (50000, 1) ∷ (100000, 1) ∷ []

dispensed_170000 : (dispense_cash request new).0 ≡ ok (dispensed request_mix 170000)
unfolding machine
dispensed_170000 = refl

refused_60000 : (dispense_cash (plain_payload 60000 true) new).0 ≡ err (cannot_dispense_exact 10000)
unfolding machine
refused_60000 = refl

dispense-conserves_example :
    (mix_value request_mix ≡ 170000)
    × (total_amount (dispense_cash request new).1.cash_units + 170000 ≡ total_amount new.cash_units)
    × (int (pos 170000) ≡ int (pos 170000))
unfolding new
dispense-conserves_example =
    dispense-conserves request new 170000 request_mix (omega arith) dispensed_170000

abbrev calls : List CdmCall
calls =
    CdmCall.execute (CdmCommand.dispense request)
    ∷ CdmCall.jam "CASS1"
    ∷ CdmCall.replenish "CASS2" (pos 40)
    ∷ CdmCall.execute CdmCommand.retract
    ∷ []

new-IsSound : All IsSound new.cash_units
unfolding new
new-IsSound = ground arith

run-IsSound_example : All IsSound (run calls new).cash_units
run-IsSound_example = run-IsSound calls new new-IsSound

min_notes_mix_misses_example :
    (min_notes_mix (three_cassettes 5 5 5) 260000 ≡ err (cannot_dispense_exact 10000))
    × (preflight ((20000, 3) ∷ (100000, 2) ∷ []) (three_cassettes 5 5 5) ≡ ok tt)
    × (mix_value ((20000, 3) ∷ (100000, 2) ∷ []) ≡ 260000)
min_notes_mix_misses_example =
    min_notes_mix_misses 5 5 5 2 (omega arith) (omega arith) (omega arith) (omega arith)

abbrev paired : Cdm
paired = record {
  device = Device.initial;
  cash_units = two_cassettes 50000 3 9;
  presented_cash = none;
  take_timer = true;
  emitted = [];
}

dispense_shared_denomination_example :
    let (answer, c') = dispense_cash (plain_payload 250000 true) paired in
    (answer ≡ ok (dispensed ((50000, 2) ∷ []) 250000))
    × (total_amount c'.cash_units + 100000 ≡ total_amount paired.cash_units)
dispense_shared_denomination_example =
    dispense_shared_denomination 50000 3 9 2 true paired (omega arith) (omega arith) (omega arith)
      (omega arith) refl

retract-dispense_example :
    let held = (dispense_cash request new).1 in
    let (answer, c') = retract_cash held in
    (answer ≡ ok done)
    × (get_unit "REJECT" c'.cash_units
        ≡ some (record (cassette "REJECT" 0 0 0 300) { count = mix_notes request_mix }))
    × ((id : String) → id ≢ "REJECT" → get_unit id c'.cash_units ≡ get_unit id held.cash_units)
    × (all_notes c'.cash_units ≡ all_notes new.cash_units)
    × (c'.presented_cash ≡ none)
    × (c'.take_timer ≡ false)
unfolding new get_unit mix_notes
retract-dispense_example =
    retract-dispense request new 170000 request_mix (cassette "REJECT" 0 0 0 300) (omega arith) refl
      dispensed_170000

planned_170000 : plan request new.cash_units ≡ ok (170000, request_mix)
unfolding machine
planned_170000 = refl

plan-IsFunded_example : IsFunded request_mix new.cash_units
plan-IsFunded_example = plan-IsFunded request new.cash_units 170000 request_mix planned_170000

quiet_50000 :
    (dispense_cash (plain_payload 50000 false) paired).0 ≡ ok (dispensed ((50000, 1) ∷ []) 50000)
unfolding machine
quiet_50000 = refl

take_timeout-dispense_example :
    let c' = (dispense_cash (plain_payload 50000 false) paired).1 in
    (c'.take_timer ≡ true)
    × (c'.presented_cash ≡ some (record { amount = 50000; notes = (50000, 1) ∷ [] }))
    × ((take_timeout c').emitted ≡ c'.emitted ++ notes_taken 50000 ∷ [])
    × ((take_timeout c').presented_cash ≡ none)
take_timeout-dispense_example =
    take_timeout-dispense (plain_payload 50000 false) paired 50000 ((50000, 1) ∷ []) refl refl
      quiet_50000
