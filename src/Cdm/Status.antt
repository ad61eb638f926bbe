-- ===== src/Cdm/Status.antt =====
-- packages/xfs-devices/src/cdm/cdm.service.ts: the status of a cassette agrees with its count.
use atm_xfs_simulator.Common.{
  ℕ, ◌≤◌, ◌<◌, ◌≡◌, refl, String, Option, none, some, List, [], ◌∷◌, arith, inl, inr, false, All,
  Option-cases, Result-cases, Bool-cases, str_eq, eq_iff, ltb,
}
use atm_xfs_simulator.Common.Int.{ℤ, pos, negsuc}
use atm_xfs_simulator.Xfs.{XfsResult}
use atm_xfs_simulator.Xfs.Device.{Device}
use atm_xfs_simulator.Xfs.Device
use atm_xfs_simulator.Cdm.Units.{
  CashUnit, CashUnitStatus, is_reject, take_notes, take_from, update_unit, get_unit,
}
use atm_xfs_simulator.Cdm.Notes.{Mix, mix_notes}
use atm_xfs_simulator.Cdm.{
  Cdm, CdmCommand, CdmCall, CdmDispensePayload, deduct_one, deduct, plan, dispense_cash,
  retract_cash, present_cash, take_timeout, execute_command, dispatch, dispatch_checked,
  replenish_found, replenish_cassette, simulate_jam, clear_jam, apply, run, add_notes, refill,
  set_jammed, restore_status,
}
use atm_xfs_simulator.Cdm.Conservation.{deduct_one-units}

-- What a status says of the count. A jammed or inoperative cassette may hold any number.
abbrev pub Fits : CashUnitStatus → (minimum count : ℕ) → Type 0
Fits CashUnitStatus.ok minimum count = minimum < count
Fits CashUnitStatus.low minimum count = (0 < count) × (count ≤ minimum)
Fits CashUnitStatus.empty minimum count = count ≡ 0
Fits _ minimum count = Unit

-- A cassette other than the reject bin has a fitting status, and holds no more than its maximum.
abbrev pub IsSound : CashUnit → Type 0
IsSound u = is_reject u ≡ false → Fits u.status u.minimum u.count × (u.count ≤ u.maximum)

take_notes-Fits :
    (s : CashUnitStatus) (n : ℕ) (u : CashUnit)
    → u.status ≡ s
    → Fits s u.minimum u.count
    → let v = take_notes n u in Fits v.status v.minimum v.count × (v.count ≤ u.count)
take_notes-Fits CashUnitStatus.ok n u e h = ground arith
take_notes-Fits _ n u e h = ground arith

take_notes-IsSound : (n : ℕ) (u : CashUnit) → IsSound u → IsSound (take_notes n u)
take_notes-IsSound n u h r =
    let (fits, bounded) = h r in
    let (fits', less) = take_notes-Fits u.status n u refl fits in (fits', omega arith)

take_from-IsSound : (d n : ℕ) (us : List CashUnit) → All IsSound us → All IsSound (take_from d n us)
unfolding take_from
take_from-IsSound d n [] h = tt
take_from-IsSound d n (u ∷ us) h =
    ground (arith, take_notes-IsSound n u h.0, take_from-IsSound d n us h.1)

deduct-IsSound :
    (mix : Mix) (c : Cdm) → All IsSound c.cash_units → All IsSound (deduct mix c).cash_units
unfolding deduct
deduct-IsSound [] c h = h
deduct-IsSound ((d, n) ∷ mix) c h =
    deduct-IsSound mix (deduct_one d n c)
      (rw (deduct_one-units d n c) (take_from-IsSound d n c.cash_units h))

update_unit-IsSound :
    (id : String) (f : CashUnit → CashUnit) (us : List CashUnit)
    → ((u : CashUnit) → get_unit id us ≡ some u → u.unit_id ≡ id → IsSound u → IsSound (f u))
    → All IsSound us
    → All IsSound (update_unit id f us)
unfolding update_unit get_unit
update_unit-IsSound id f [] keep h = tt
update_unit-IsSound id f (u ∷ us) keep (now, later) = elim (Bool-cases (str_eq u.unit_id id)) [
  | inl e ↦ rw (e, update_unit) (keep u (ground arith) ((eq_iff u.unit_id id).0 e) now, later)
  | inr e ↦
      rw (e, update_unit) (now, update_unit-IsSound id f us (λ v g. keep v (ground arith)) later)
]

dispense-IsSound :
    (p : CdmDispensePayload) (c : Cdm)
    → All IsSound c.cash_units
    → All IsSound (dispense_cash p c).1.cash_units
unfolding dispense_cash present_cash
dispense-IsSound p c h = elim (Result-cases (plan p c.cash_units)) [
  | inr (e, failed) ↦ rw (failed, dispense_cash) h
  | inl (a, passed) ↦ ground (arith, deduct-IsSound a.1 c h)
]

reject_only : (n : ℕ) (u : CashUnit) → u.unit_id ≡ "REJECT" → IsSound (add_notes n u)
reject_only n u e r = absurd (ground (arith, (eq_iff u.unit_id "REJECT").1 e))

retract-IsSound : (c : Cdm) → All IsSound c.cash_units → All IsSound (retract_cash c).1.cash_units
unfolding retract_cash
retract-IsSound c h = elim (Option-cases c.presented_cash) [
  | inl nothing ↦ rw (nothing, retract_cash) h
  | inr (p, held) ↦
      rw (held, retract_cash)
        (update_unit-IsSound "REJECT" (add_notes (mix_notes p.notes)) c.cash_units
          (λ u _ e _. reject_only (mix_notes p.notes) u e) h)
]

present-units : (c : Cdm) → (present_cash c).1.cash_units ≡ c.cash_units
unfolding present_cash
present-units c = ground arith

dispatch-IsSound :
    (cmd : CdmCommand) (c : Cdm)
    → All IsSound c.cash_units
    → All IsSound (dispatch cmd c).1.cash_units
unfolding dispatch
dispatch-IsSound (CdmCommand.dispense p) c h = dispense-IsSound p c h
dispatch-IsSound CdmCommand.retract c h = retract-IsSound c h
dispatch-IsSound CdmCommand.reject c h = retract-IsSound c h
dispatch-IsSound CdmCommand.present c h = rw (present-units c) h
dispatch-IsSound _ c h = h

dispatch_checked-IsSound :
    (x : Option XfsResult × Device) (cmd : CdmCommand) (c : Cdm)
    → All IsSound c.cash_units
    → All IsSound (dispatch_checked x cmd c).1.cash_units
dispatch_checked-IsSound (none, d) cmd c h = dispatch-IsSound cmd (record c { device = d }) h
dispatch_checked-IsSound (some r, d) cmd c h = h

execute-IsSound :
    (cmd : CdmCommand) (c : Cdm)
    → All IsSound c.cash_units
    → All IsSound (execute_command cmd c).1.cash_units
unfolding execute_command
execute-IsSound CdmCommand.reset c h = h
execute-IsSound cmd c h = dispatch_checked-IsSound (Device.check_injected_error c.device) cmd c h

refill-IsSound : (n : ℕ) (u : CashUnit) → n ≤ u.maximum → IsSound (refill n u)
refill-IsSound n u h r = ground arith

replenish_found-IsSound :
    (id : String) (n : ℤ) (o : Option CashUnit) (c : Cdm)
    → get_unit id c.cash_units ≡ o
    → All IsSound c.cash_units
    → All IsSound (replenish_found id n o c).1.cash_units
replenish_found-IsSound id n none c e h = h
replenish_found-IsSound id (negsuc n) (some u) c e h = h
replenish_found-IsSound id (pos n) (some u) c e h = elim (Bool-cases (ltb u.maximum n)) [
  | inl over ↦ rw over h
  | inr within ↦ rw within (
      update_unit-IsSound id (refill n) c.cash_units (λ v g _ _. refill-IsSound n v (ground arith))
        h)
]

jam-IsSound :
    (id : String) (c : Cdm)
    → All IsSound c.cash_units
    → All IsSound (simulate_jam id c).1.cash_units
unfolding simulate_jam
jam-IsSound id c h = elim (Option-cases (get_unit id c.cash_units)) [
  | inl missing ↦ rw (missing, simulate_jam) h
  | inr (u, found) ↦
      rw (found, simulate_jam)
        (update_unit-IsSound id set_jammed c.cash_units (λ v _ _ s r. (tt, (s r).1)) h)
]

clear_jam-IsSound :
    (id : String) (c : Cdm) → All IsSound c.cash_units → All IsSound (clear_jam id c).1.cash_units
unfolding clear_jam
clear_jam-IsSound id c h = elim (Option-cases (get_unit id c.cash_units)) [
  | inl missing ↦ rw (missing, clear_jam) h
  | inr (u, found) ↦
      rw (found, clear_jam)
        (update_unit-IsSound id restore_status c.cash_units (λ v _ _ s r. (ground arith, (s r).1))
          h)
]

apply-IsSound :
    (call : CdmCall) (c : Cdm) → All IsSound c.cash_units → All IsSound (apply call c).cash_units
unfolding apply replenish_cassette take_timeout
apply-IsSound (CdmCall.execute cmd) c h = execute-IsSound cmd c h
apply-IsSound (CdmCall.replenish id n) c h =
    replenish_found-IsSound id n (get_unit id c.cash_units) c refl h
apply-IsSound (CdmCall.jam id) c h = jam-IsSound id c h
apply-IsSound (CdmCall.clear id) c h = clear_jam-IsSound id c h
apply-IsSound (CdmCall.inject r) c h = h
apply-IsSound CdmCall.timeout c h = ground arith

-- When every cassette other than the reject bin has a status that agrees with its count, and a
-- count within its maximum, then this stays so whatever is called, in whatever order, with custom mixes
-- in which no two keys stand for one number.
pub run-IsSound :
    (calls : List CdmCall) (c : Cdm)
    → All IsSound c.cash_units
    → All IsSound (run calls c).cash_units
unfolding run
run-IsSound [] c h = h
run-IsSound (call ∷ calls) c h = run-IsSound calls (apply call c) (apply-IsSound call c h)
