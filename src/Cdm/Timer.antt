-- ===== src/Cdm/Timer.antt =====
-- packages/xfs-devices/src/cdm/cdm.service.ts: cash that is held out, the timer, and RETRACT.
use atm_xfs_simulator.Common.{
  ℕ, ◌+◌, ◌≡◌, refl, true, false, String, none, some, List, [], ◌∷◌, ◌++◌, ok, arith, ap, eq_iff,
  ◌≢◌, ◌∙◌,
}
use atm_xfs_simulator.Cdm.Units.{CashUnit, get_unit, update_unit, take_from}
use atm_xfs_simulator.Cdm.Notes.{Mix, mix_notes}
use atm_xfs_simulator.Cdm.{
  Cdm, CdmDispensePayload, PresentedCash, dispensed, done, notes_taken, plan, deduct_one, deduct,
  dispense_cash, present_cash, retract_cash, take_timeout, add_notes,
}
use atm_xfs_simulator.Cdm.Conservation.{IsDistinctUnits, all_notes, deduct-notes, deduct_one-units}
use atm_xfs_simulator.Cdm.Dispense.{plan_lem, dispense-plan, hold-units}

update_unit-notes :
    (id : String) (n : ℕ) (us : List CashUnit) (u : CashUnit)
    → get_unit id us ≡ some u
    → all_notes (update_unit id (add_notes n) us) ≡ all_notes us + n
unfolding get_unit update_unit all_notes
update_unit-notes id n [] u e = cc
update_unit-notes id n (v ∷ us) u e = ground (arith, update_unit-notes id n us u)

held_after :
    (p : CdmDispensePayload) (amount : ℕ) (mix : Mix) (c : Cdm)
    → plan p c.cash_units ≡ ok (amount, mix)
    → (dispense_cash p c).1.presented_cash ≡ some (record { amount = amount; notes = mix })
unfolding dispense_cash present_cash
held_after p amount mix c h = ground arith

retract-notes :
    (c : Cdm) (p : PresentedCash) (u : CashUnit)
    → c.presented_cash ≡ some p
    → get_unit "REJECT" c.cash_units ≡ some u
    → let (answer, c') = retract_cash c in
      (answer ≡ ok done)
      × (all_notes c'.cash_units ≡ all_notes c.cash_units + mix_notes p.notes)
      × (c'.presented_cash ≡ none)
      × (c'.take_timer ≡ false)
unfolding retract_cash
retract-notes c p u held found =
    rw (held, retract_cash)
      (refl, update_unit-notes "REJECT" (mix_notes p.notes) c.cash_units u found, refl, refl)

deduct-take_timer : (mix : Mix) (c : Cdm) → (deduct mix c).take_timer ≡ c.take_timer
unfolding deduct deduct_one
deduct-take_timer [] c = refl
deduct-take_timer ((d, n) ∷ mix) c = ground (arith, deduct-take_timer mix (deduct_one d n c))

get_unit-update_unit :
    (id : String) (f : CashUnit → CashUnit) (us : List CashUnit) (u : CashUnit)
    → ((v : CashUnit) → (f v).unit_id ≡ v.unit_id)
    → get_unit id us ≡ some u
    → get_unit id (update_unit id f us) ≡ some (f u)
unfolding get_unit update_unit
get_unit-update_unit id f [] u same e = cc
get_unit-update_unit id f (v ∷ us) u same e =
    ground (arith, same v, get_unit-update_unit id f us u same)

get_unit-other :
    (id j : String) (f : CashUnit → CashUnit) (us : List CashUnit)
    → j ≢ id
    → ((v : CashUnit) → (f v).unit_id ≡ v.unit_id)
    → get_unit j (update_unit id f us) ≡ get_unit j us
unfolding get_unit update_unit
get_unit-other id j f [] ne same = refl
get_unit-other id j f (v ∷ us) ne same =
    ground
      (arith, eq_iff v.unit_id id, eq_iff v.unit_id j, same v, get_unit-other id j f us ne same)

-- A dispense takes no note from the reject bin.
take_from-reject :
    (d n : ℕ) (us : List CashUnit) → get_unit "REJECT" (take_from d n us) ≡ get_unit "REJECT" us
unfolding get_unit take_from
take_from-reject d n [] = refl
take_from-reject d n (u ∷ us) = ground (arith, take_from-reject d n us)

deduct-reject :
    (mix : Mix) (c : Cdm)
    → get_unit "REJECT" (deduct mix c).cash_units ≡ get_unit "REJECT" c.cash_units
unfolding deduct
deduct-reject [] c = refl
deduct-reject ((d, n) ∷ mix) c =
    deduct-reject mix (deduct_one d n c)
    ∙ ap (get_unit "REJECT") (deduct_one-units d n c)
    ∙ take_from-reject d n c.cash_units

retract-units :
    (c : Cdm) (p : PresentedCash)
    → c.presented_cash ≡ some p
    → (retract_cash c).1.cash_units
      ≡ update_unit "REJECT" (add_notes (mix_notes p.notes)) c.cash_units
unfolding retract_cash
retract-units c p held = rw (held, retract_cash) refl

-- Cash that is dispensed and then retracted is in the reject bin: its count goes up by the notes of the
-- mix, every other cassette stays as the dispense has left it, no note is lost or made up, the timer is
-- off and nothing is held out any more. For cassettes of pairwise different denominations with a reject
-- bin, and a custom mix in which no two keys stand for one number.
pub retract-dispense :
    (p : CdmDispensePayload) (c : Cdm) (amount : ℕ) (mix : Mix) (bin : CashUnit)
    → IsDistinctUnits c.cash_units
    → get_unit "REJECT" c.cash_units ≡ some bin
    → (dispense_cash p c).0 ≡ ok (dispensed mix amount)
    → let held = (dispense_cash p c).1 in
      let (answer, c') = retract_cash held in
      (answer ≡ ok done)
      × (get_unit "REJECT" c'.cash_units ≡ some (record bin { count = bin.count + mix_notes mix }))
      × ((id : String) → id ≢ "REJECT" → get_unit id c'.cash_units ≡ get_unit id held.cash_units)
      × (all_notes c'.cash_units ≡ all_notes c.cash_units)
      × (c'.presented_cash ≡ none)
      × (c'.take_timer ≡ false)
retract-dispense p c amount mix bin du there h =
    let planned = dispense-plan p c amount mix h in
    let (_, distinct, enough) = plan_lem p c.cash_units amount mix du planned in
    let units = hold-units p amount mix c planned in
    let cash : PresentedCash = record { amount = amount; notes = mix } in
    let held = held_after p amount mix c planned in
    let found = ap (get_unit "REJECT") units ∙ deduct-reject mix c ∙ there in
    let moved = retract-units (dispense_cash p c).1 cash held in
    let (answer, notes, gone, off) = retract-notes (dispense_cash p c).1 cash bin held found in
    (
      answer,
      ap (get_unit "REJECT") moved
          ∙ get_unit-update_unit "REJECT" (add_notes (mix_notes mix))
              (dispense_cash p c).1.cash_units bin (λ _. refl) found,
      λ id ne.
          ap (get_unit id) moved
          ∙ get_unit-other "REJECT" id (add_notes (mix_notes mix)) (dispense_cash p c).1.cash_units
              ne (λ _. refl),
      omega (arith, notes, ap all_notes units, deduct-notes mix c distinct enough),
      gone,
      off,
    )

-- A second dispense that succeeds, not presented, while the timer of a first one runs: it
-- replaces the cash that is held out, the timer runs on, and when it fires it reports the second
-- amount as taken and holds nothing any more.
pub take_timeout-dispense :
    (p : CdmDispensePayload) (c : Cdm) (amount : ℕ) (mix : Mix)
    → c.take_timer ≡ true
    → p.present ≡ false
    → (dispense_cash p c).0 ≡ ok (dispensed mix amount)
    → let c' = (dispense_cash p c).1 in
      (c'.take_timer ≡ true)
      × (c'.presented_cash ≡ some (record { amount = amount; notes = mix }))
      × ((take_timeout c').emitted ≡ c'.emitted ++ notes_taken amount ∷ [])
      × ((take_timeout c').presented_cash ≡ none)
unfolding dispense_cash take_timeout
take_timeout-dispense p c amount mix armed hidden h =
    ground (arith, dispense-plan p c amount mix h, deduct-take_timer mix c)
