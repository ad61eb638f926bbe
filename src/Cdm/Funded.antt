-- ===== src/Cdm/Funded.antt =====
-- packages/xfs-devices/src/cdm/cdm.service.ts, `dispense`: the pre-flight check and the deductions.
use atm_xfs_simulator.Common.{
  ℕ, ◌-◌, ◌*◌, ◌≤◌, ◌<◌, ◌≡◌, ◌∙◌, ◌==◌, ltb, Bool-cases, Option, none, some, List, [], ◌∷◌, ok,
  arith, inl, inr, All,
}
use atm_xfs_simulator.Cdm.Units.{CashUnit, find_spendable_unit_by_denom, take_from}
use atm_xfs_simulator.Cdm.Notes.{
  Mix, CustomMix, put, put_taken, greedy, notes_to_take, sort_desc, candidates, min_notes_mix,
}
use atm_xfs_simulator.Cdm.{CdmMixType, CdmDispensePayload, choose_mix, plan, preflight}
use atm_xfs_simulator.Cdm.Conservation.{IsFresh, IsDistinct, preflight-take_from, preflight_cases}
use atm_xfs_simulator.Cdm.Dispense.{plan_cases, validate_custom_mix_lem}

abbrev IsAbove : ℕ → Mix → Type 0
IsAbove d mix = All (λ e. d < e.0) mix

abbrev IsAscending : Mix → Type 0
IsAscending [] = Unit
IsAscending ((d, n) ∷ mix) = IsAbove d mix × IsAscending mix

IsAbove-less : (d e : ℕ) (mix : Mix) → d < e → IsAbove e mix → IsAbove d mix
IsAbove-less d e [] h above = tt
IsAbove-less d e ((f, n) ∷ mix) h (now, later) = (omega arith, IsAbove-less d e mix h later)

put-IsAbove : (b d n : ℕ) (mix : Mix) → b < d → IsAbove b mix → IsAbove b (put d n mix)
unfolding put
put-IsAbove b d n [] h above = (h, tt)
put-IsAbove b d n ((e, m) ∷ mix) h (now, later) = ground (arith, put-IsAbove b d n mix h later)

put-IsAscending : (d n : ℕ) (mix : Mix) → IsAscending mix → IsAscending (put d n mix)
unfolding put
put-IsAscending d n [] h = (tt, tt)
put-IsAscending d n ((e, m) ∷ mix) (above, h) = elim (Bool-cases (d == e)) [
  | inl same ↦ let here : d ≡ e = ground arith in rw (same, put) (rw here above, h)
  | inr other ↦ elim (Bool-cases (ltb d e)) [
    | inl less ↦
        rw (other, less) ((ground arith, IsAbove-less d e mix (ground arith) above), (above, h))
    | inr more ↦
        rw (other, more) (put-IsAbove e d n mix (ground arith) above, put-IsAscending d n mix h)
  ]
]

put_taken-IsAscending : (d n : ℕ) (mix : Mix) → IsAscending mix → IsAscending (put_taken d n mix)
unfolding put_taken
put_taken-IsAscending d n mix h = ground (arith, put-IsAscending d n mix h)

greedy-IsAscending :
    (us : List CashUnit) (remaining : ℕ) (mix : Mix)
    → IsAscending mix
    → IsAscending (greedy us remaining mix).1
unfolding greedy
greedy-IsAscending [] remaining mix h = h
greedy-IsAscending (u ∷ us) remaining mix h =
    let take = notes_to_take u remaining in
    let left = remaining - take * u.denomination in
    let taken = put_taken-IsAscending u.denomination take mix h in
    ground (arith, taken, greedy-IsAscending us left (put_taken u.denomination take mix) taken)

IsAbove-IsFresh : (d : ℕ) (mix : Mix) → IsAbove d mix → IsFresh d mix
IsAbove-IsFresh d [] h = tt
IsAbove-IsFresh d ((e, n) ∷ mix) (now, later) = (λ same. omega arith, IsAbove-IsFresh d mix later)

IsAscending-IsDistinct : (mix : Mix) → IsAscending mix → IsDistinct mix
IsAscending-IsDistinct [] h = tt
IsAscending-IsDistinct ((d, n) ∷ mix) (above, h) =
    (IsAbove-IsFresh d mix above, IsAscending-IsDistinct mix h)

min_notes_mix-IsDistinct :
    (units : List CashUnit) (amount : ℕ) (mix : Mix)
    → min_notes_mix units amount ≡ ok mix
    → IsDistinct mix
unfolding min_notes_mix
min_notes_mix-IsDistinct units amount mix h =
    let ascending = greedy-IsAscending (sort_desc (candidates units)) amount [] tt in
    let distinct = IsAscending-IsDistinct _ ascending in ground (arith, distinct)

choose_mix-IsDistinct :
    (t : CdmMixType) (o : Option CustomMix) (amount : ℕ) (units : List CashUnit) (mix : Mix)
    → choose_mix t o amount units ≡ ok mix
    → IsDistinct mix
choose_mix-IsDistinct CdmMixType.custom (some m) amount units mix h =
    (validate_custom_mix_lem amount m.entries mix m.distinct h).1
choose_mix-IsDistinct CdmMixType.custom none amount units mix h =
    min_notes_mix-IsDistinct units amount mix h
choose_mix-IsDistinct _ o amount units mix h = min_notes_mix-IsDistinct units amount mix h

-- Taken off one after the other, each entry finds a cassette with enough notes.
abbrev pub IsFunded : Mix → List CashUnit → Type 0
IsFunded [] us = Unit
IsFunded ((d, n) ∷ mix) us =
    ((u : CashUnit) × (find_spendable_unit_by_denom d us ≡ some u) × (n ≤ u.count))
    × IsFunded mix (take_from d n us)

preflight-IsFunded :
    (mix : Mix) (us : List CashUnit) → IsDistinct mix → preflight mix us ≡ ok tt → IsFunded mix us
preflight-IsFunded [] us distinct h = tt
preflight-IsFunded ((d, n) ∷ mix) us (fresh, distinct) h =
    let (u, found, enough, rest) = preflight_cases d n mix us h in
    (
      (u, found, enough),
      preflight-IsFunded mix (take_from d n us) distinct
          (preflight-take_from d n mix us fresh ∙ rest),
    )

-- When a dispense goes through, each of its deductions in turn finds a cassette of its denomination that
-- holds the notes, those before it taken off: no count goes below 0, whether or not cassettes share a
-- denomination. A custom mix has no two keys for one number.
pub plan-IsFunded :
    (p : CdmDispensePayload) (units : List CashUnit) (amount : ℕ) (mix : Mix)
    → plan p units ≡ ok (amount, mix)
    → IsFunded mix units
plan-IsFunded p units amount mix h =
    let (_, chosen, enough) = plan_cases p units amount mix h in
    preflight-IsFunded mix units
      (choose_mix-IsDistinct p.mix_type p.custom_mix amount units mix chosen) enough
