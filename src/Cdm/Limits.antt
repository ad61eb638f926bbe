-- ===== src/Cdm/Limits.antt =====
-- packages/xfs-devices/src/cdm/cdm.service.ts, `calculateMinNotesMix`: amounts that the greedy
-- choice refuses though the cassettes could pay them, and cassettes that share a denomination.
use native.Mathlib.Nat.{mul-div_cancel}
use atm_xfs_simulator.Common.Int.{pos}
use atm_xfs_simulator.Common.Number.{Number, int}
use atm_xfs_simulator.Common.{Bool, none, some, zero, suc, ◌-◌}
use atm_xfs_simulator.Common.{ℕ, ◌+◌, ◌*◌, ◌≤◌, ◌<◌, ◌≡◌, refl, List, [], ◌∷◌, ok, err, arith}
use atm_xfs_simulator.Cdm.Error.{cannot_dispense_exact}
use atm_xfs_simulator.Cdm.Units.{CashUnit, total_amount, find_spendable_unit_by_denom}
use atm_xfs_simulator.Cdm.Notes.{
  min_notes_mix, candidates, sort_desc, insert_desc, greedy, notes_to_take, put_taken, put,
  mix_value,
}
use atm_xfs_simulator.Cdm.{
  Cdm, CdmMixType, CdmDispensePayload, cassette, preflight, checked_amount, dispense_cash,
  dispensed, plan,
}
use atm_xfs_simulator.Cdm.Conservation.{deduct-total}
use atm_xfs_simulator.Cdm.Dispense.{hold-units}

-- The default denominations, with any number of notes.
abbrev pub three_cassettes : (hundreds fifties twenties : ℕ) → List CashUnit
three_cassettes hundreds fifties twenties =
    cassette "CASS1" 100000 hundreds 50 2500
    ∷ cassette "CASS2" 50000 fifties 100 2500
    ∷ cassette "CASS3" 20000 twenties 50 2500
    ∷ []

sorted_three :
    (h f t : ℕ)
    → 0 < h
    → 0 < f
    → 0 < t
    → sort_desc (candidates (three_cassettes h f t)) ≡ three_cassettes h f t
unfolding sort_desc candidates insert_desc
sorted_three h f t p q r = ground arith

greedy_three :
    (h f t k : ℕ)
    → 0 < f
    → k ≤ h
    → (greedy (three_cassettes h f t) (100000 * k + 60000) []).0 ≡ 10000
unfolding greedy put_taken put
greedy_three h f t k q s = ground arith

-- With at least one note of 100000, one of 50000 and three of 20000, an amount of 60000 above k
-- times 100000, for no larger k than there are notes of 100000, is refused as 10000 short,
-- although three notes of 20000 and k of 100000 are worth it and are there.
pub min_notes_mix_misses :
    (h f t k : ℕ)
    → 0 < h
    → 0 < f
    → 3 ≤ t
    → k ≤ h
    → (min_notes_mix (three_cassettes h f t) (100000 * k + 60000)
        ≡ err (cannot_dispense_exact 10000))
      × (preflight ((20000, 3) ∷ (100000, k) ∷ []) (three_cassettes h f t) ≡ ok tt)
      × (mix_value ((20000, 3) ∷ (100000, k) ∷ []) ≡ 100000 * k + 60000)
unfolding min_notes_mix preflight find_spendable_unit_by_denom mix_value
min_notes_mix_misses h f t k p q r s = (
  rw (min_notes_mix, sorted_three h f t p q (omega arith), greedy_three h f t k q s),
  ground arith,
  omega arith,
)

-- Two cassettes of one denomination.
abbrev pub two_cassettes : (d a b : ℕ) → List CashUnit
two_cassettes d a b = cassette "CASS1" d a 50 2500 ∷ cassette "CASS2" d b 50 2500 ∷ []

sorted_two :
    (d a b : ℕ) → 0 < a → 0 < b → sort_desc (candidates (two_cassettes d a b)) ≡ two_cassettes d a b
unfolding sort_desc candidates insert_desc
sorted_two d a b p q = ground arith

take_all : (d a n : ℕ) → 0 < d → notes_to_take (cassette "CASS1" d a 50 2500) ((a + n) * d) ≡ a
take_all d a n p = ground (arith, mul-div_cancel (a + n) p)

take_rest : (d b n : ℕ) → 0 < d → n ≤ b → notes_to_take (cassette "CASS2" d b 50 2500) (n * d) ≡ n
take_rest d b n p q = ground (arith, mul-div_cancel n p)

left_after : (d a n : ℕ) → (a + n) * d - a * d ≡ n * d
left_after d a n = omega arith

product_pos : (a b : ℕ) → 0 < a → 0 < b → 0 < a * b
product_pos a b h k = grind arith

greedy_two :
    (d a b n : ℕ)
    → 0 < d
    → 0 < a
    → 0 < n
    → n ≤ b
    → greedy (two_cassettes d a b) ((a + n) * d) [] ≡ (0, (d, n) ∷ [])
unfolding greedy put_taken put
greedy_two d a b n p q r s =
    rw (greedy, take_all d a n p, left_after d a n, take_rest d b n p s)
      (ground (arith, product_pos n d r p))

checked_positive : (x : Number) (k : ℕ) → 0 < k → checked_amount x (some k) ≡ ok k
checked_positive x zero h = elim h [ ]
checked_positive x (suc k) h = refl

abbrev pub plain_payload : ℕ → Bool → CdmDispensePayload
plain_payload amount present = record {
  amount = int (pos amount);
  mix_type = CdmMixType.min_notes;
  custom_mix = none;
  present = present;
}

preflight_two : (d a b n : ℕ) → n ≤ a → preflight ((d, n) ∷ []) (two_cassettes d a b) ≡ ok tt
unfolding preflight find_spendable_unit_by_denom
preflight_two d a b n h = ground arith

plan_two :
    (d a b n : ℕ) (present : Bool)
    → 0 < d
    → 0 < n
    → n ≤ a
    → n ≤ b
    → plan (plain_payload ((a + n) * d) present) (two_cassettes d a b)
      ≡ ok ((a + n) * d, (d, n) ∷ [])
unfolding plan min_notes_mix
plan_two d a b n present p q r s = rw (
  plan,
  checked_positive _ _ (product_pos (a + n) d (omega arith) p),
  min_notes_mix,
  sorted_two d a b (omega arith) (omega arith),
  greedy_two d a b n p (omega arith) q s,
  preflight_two d a b n r,
)

-- With just two cassettes of one denomination d, of a and of b notes, and a plain request for (a
-- + n) * d with 0 < n, n no more than a and no more than b: the second write to the mix replaces
-- the first, so the call reports the whole amount as dispensed, and only n notes leave the
-- cassettes.
pub dispense_shared_denomination :
    (d a b n : ℕ) (present : Bool) (c : Cdm)
    → 0 < d
    → 0 < n
    → n ≤ a
    → n ≤ b
    → c.cash_units ≡ two_cassettes d a b
    → let (answer, c') = dispense_cash (plain_payload ((a + n) * d) present) c in
      (answer ≡ ok (dispensed ((d, n) ∷ []) ((a + n) * d)))
      × (total_amount c'.cash_units + d * n ≡ total_amount c.cash_units)
unfolding dispense_cash mix_value
dispense_shared_denomination d a b n present c p q r s e =
    let pay = plain_payload ((a + n) * d) present in
    let planned : plan pay c.cash_units ≡ ok ((a + n) * d, (d, n) ∷ []) =
      rw e (plan_two d a b n present p q r s) in
    let lost = deduct-total ((d, n) ∷ []) c (tt, tt) (rw e (preflight_two d a b n r)) in
    (
      rw (planned, dispense_cash),
      rw (hold-units pay ((a + n) * d) ((d, n) ∷ []) c planned) (omega (arith, lost)),
    )
