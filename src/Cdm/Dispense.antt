-- ===== src/Cdm/Dispense.antt =====
-- packages/xfs-devices/src/cdm/cdm.service.ts, `dispense`: to the rupiah.
use atm_xfs_simulator.Common.{
  ℕ, ◌+◌, ◌≡◌, ◌≢◌, Option, none, some, List, [], ◌∷◌, ok, err, arith, inl, inr, zero, suc, All,
  Result-cases,
}
use atm_xfs_simulator.Common.Int.{pos, negsuc}
use atm_xfs_simulator.Common.Number.{Number, natural, int, non_integer}
use atm_xfs_simulator.Cdm.Error.{CdmError}
use atm_xfs_simulator.Cdm.Units.{CashUnit, total_amount}
use atm_xfs_simulator.Cdm.Notes.{
  Mix, CustomMix, HasDistinctKeys, candidates, sort_desc, mix_value, min_notes_mix, check_entries,
  check_entry, validate_custom_mix,
}
use atm_xfs_simulator.Cdm.{
  Cdm, CdmMixType, CdmDispensePayload, dispensed, plan, preflight, deduct, dispense_cash,
  choose_mix, checked_amount, present_cash,
}
use atm_xfs_simulator.Cdm.Conservation.{
  IsFresh, IsDistinct, IsDistinctUnits, deduct-total, greedy-value, sort_desc-IsDistinctUnits,
  candidates-IsDistinctUnits,
}

check_entry-key : (e : Number × Number) (d n : ℕ) → check_entry e ≡ ok (d, n) → e.0 ≡ int (pos d)
check_entry-key (int (pos zero), n) d m h = cc
check_entry-key (int (pos (suc k)), n) d m h = ground arith
check_entry-key (int (negsuc k), n) d m h = cc
check_entry-key (non_integer, n) d m h = cc

check_entries-IsFresh :
    (k : Number) (d : ℕ) (es : List (Number × Number)) (mix : Mix)
    → k ≡ int (pos d)
    → All (λ f. f.0 ≢ k) es
    → check_entries es ≡ ok mix
    → IsFresh d mix
unfolding check_entries
check_entries-IsFresh k d [] mix same ne h = ground arith
check_entries-IsFresh k d (e ∷ es) mix same ne h = elim (Result-cases (check_entry e)) [
  | inr (x, failed) ↦ ground arith
  | inl (entry, passed) ↦ elim (Result-cases (check_entries es)) [
    | inr (x, failed) ↦ ground arith
    | inl (rest, more) ↦
        ground (
          arith,
          check_entry-key e entry.0 entry.1,
          check_entries-IsFresh k d es rest same ne.1 more,
        )
  ]
]

check_entries-IsDistinct :
    (es : List (Number × Number)) (mix : Mix)
    → HasDistinctKeys es
    → check_entries es ≡ ok mix
    → IsDistinct mix
unfolding check_entries
check_entries-IsDistinct [] mix d h = ground arith
check_entries-IsDistinct (e ∷ es) mix d h = elim (Result-cases (check_entry e)) [
  | inr (x, failed) ↦ ground arith
  | inl (entry, passed) ↦ elim (Result-cases (check_entries es)) [
    | inr (x, failed) ↦ ground arith
    | inl (rest, more) ↦ ground (
      arith,
      check_entries-IsFresh e.0 entry.0 es rest (check_entry-key e entry.0 entry.1 passed) d.0 more,
      check_entries-IsDistinct es rest d.1 more,
    )
  ]
]

pub validate_custom_mix_lem :
    (amount : ℕ) (es : List (Number × Number)) (mix : Mix)
    → HasDistinctKeys es
    → validate_custom_mix amount es ≡ ok mix
    → (mix_value mix ≡ amount) × IsDistinct mix
unfolding validate_custom_mix
validate_custom_mix_lem amount es mix d h = ground (arith, check_entries-IsDistinct es mix d)

All-IsFresh_nil : (us : List CashUnit) → All (λ u. IsFresh u.denomination []) us
All-IsFresh_nil [] = tt
All-IsFresh_nil (u ∷ us) = (tt, All-IsFresh_nil us)

min_notes_mix_lem :
    (units : List CashUnit) (amount : ℕ) (mix : Mix)
    → IsDistinctUnits units
    → min_notes_mix units amount ≡ ok mix
    → (mix_value mix ≡ amount) × IsDistinct mix
unfolding min_notes_mix mix_value
min_notes_mix_lem units amount mix d h =
    let us = sort_desc (candidates units) in
    let (value, distinct) =
      greedy-value us amount [] (sort_desc-IsDistinctUnits _ (candidates-IsDistinctUnits units d))
        tt (All-IsFresh_nil us) in
    ground arith

choose_mix_lem :
    (t : CdmMixType) (o : Option CustomMix) (amount : ℕ) (units : List CashUnit) (mix : Mix)
    → IsDistinctUnits units
    → choose_mix t o amount units ≡ ok mix
    → (mix_value mix ≡ amount) × IsDistinct mix
choose_mix_lem CdmMixType.custom (some m) amount units mix du h =
    validate_custom_mix_lem amount m.entries mix m.distinct h
choose_mix_lem CdmMixType.custom none amount units mix du h =
    min_notes_mix_lem units amount mix du h
choose_mix_lem _ o amount units mix du h = min_notes_mix_lem units amount mix du h

checked_amount_lem : (n : Number) (a : ℕ) → checked_amount n (natural n) ≡ ok a → n ≡ int (pos a)
checked_amount_lem (int (pos zero)) a h = cc
checked_amount_lem (int (pos (suc k))) a h = ground arith
checked_amount_lem (int (negsuc k)) a h = cc
checked_amount_lem non_integer a h = cc

pub plan_cases :
    (p : CdmDispensePayload) (units : List CashUnit) (amount : ℕ) (mix : Mix)
    → plan p units ≡ ok (amount, mix)
    → (checked_amount p.amount (natural p.amount) ≡ ok amount)
      × (choose_mix p.mix_type p.custom_mix amount units ≡ ok mix)
      × (preflight mix units ≡ ok tt)
unfolding plan
plan_cases p units amount mix h = elim (Result-cases (checked_amount p.amount (natural p.amount))) [
  | inr (x, failed) ↦ ground arith
  | inl (a, passed) ↦ elim (Result-cases (choose_mix p.mix_type p.custom_mix a units)) [
    | inr (x, failed) ↦ ground arith
    | inl (m, chosen) ↦ elim (Result-cases (preflight m units)) [
      | inr (x, failed) ↦ ground arith
      | inl (_, enough) ↦ ground arith
    ]
  ]
]

-- What `plan` gives: the amount asked for, a mix of that value, and notes for it.
pub plan_lem :
    (p : CdmDispensePayload) (units : List CashUnit) (amount : ℕ) (mix : Mix)
    → IsDistinctUnits units
    → plan p units ≡ ok (amount, mix)
    → (mix_value mix ≡ amount) × IsDistinct mix × (preflight mix units ≡ ok tt)
plan_lem p units amount mix du h =
    let (_, chosen, enough) = plan_cases p units amount mix h in
    let (value, distinct) = choose_mix_lem p.mix_type p.custom_mix amount units mix du chosen in
    (value, distinct, enough)

pub dispense-plan :
    (p : CdmDispensePayload) (c : Cdm) (amount : ℕ) (mix : Mix)
    → (dispense_cash p c).0 ≡ ok (dispensed mix amount)
    → plan p c.cash_units ≡ ok (amount, mix)
unfolding dispense_cash
dispense-plan p c amount mix h = elim (Result-cases (plan p c.cash_units)) [
  | inl (a, passed) ↦ ground arith
  | inr (x, failed) ↦ ground arith
]

pub hold-units :
    (p : CdmDispensePayload) (amount : ℕ) (mix : Mix) (c : Cdm)
    → plan p c.cash_units ≡ ok (amount, mix)
    → (dispense_cash p c).1.cash_units ≡ (deduct mix c).cash_units
unfolding dispense_cash present_cash
hold-units p amount mix c h = ground arith

-- A dispense that succeeds reports a mix worth exactly the amount, and the cassettes lose exactly
-- that amount: with cassettes of pairwise different denominations. A custom mix has no two keys for one
-- number.
pub dispense-conserves :
    (p : CdmDispensePayload) (c : Cdm) (amount : ℕ) (mix : Mix)
    → IsDistinctUnits c.cash_units
    → (dispense_cash p c).0 ≡ ok (dispensed mix amount)
    → (mix_value mix ≡ amount)
      × (total_amount (dispense_cash p c).1.cash_units + amount ≡ total_amount c.cash_units)
      × (p.amount ≡ int (pos amount))
dispense-conserves p c amount mix du h =
    let planned = dispense-plan p c amount mix h in
    let (value, distinct, enough) = plan_lem p c.cash_units amount mix du planned in
    let lost = deduct-total mix c distinct enough in
    let checked = (plan_cases p c.cash_units amount mix planned).0 in
    (
      value,
      rw (hold-units p amount mix c planned) (omega arith),
      checked_amount_lem p.amount amount checked,
    )

-- A dispense that fails leaves the dispenser alone.
pub dispense_atomic :
    (p : CdmDispensePayload) (c : Cdm) (e : CdmError)
    → (dispense_cash p c).0 ≡ err e
    → (dispense_cash p c).1 ≡ c
unfolding dispense_cash
dispense_atomic p c e h = elim (Result-cases (plan p c.cash_units)) [
  | inl (a, passed) ↦ ground arith
  | inr (x, failed) ↦ ground arith
]
