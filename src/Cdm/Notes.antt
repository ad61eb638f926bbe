-- ===== src/Cdm/Notes.antt =====
-- How notes are chosen: `calculateMinNotesMix` and `validateCustomMix`.
use atm_xfs_simulator.Common.{
  ℕ, ◌+◌, ◌-◌, ◌*◌, ◌/◌, min, Bool, not, ◌&&◌, List, [], ◌∷◌, Result, ok, err, ◌==◌, ltb,
  if◌then◌else◌, zero, suc, ◌≢◌, All,
}
use atm_xfs_simulator.Common.{Option, none, some, ◌>>=◌}
use atm_xfs_simulator.Common.Number.{Number, natural}
use atm_xfs_simulator.Cdm.Units.{CashUnit, is_jammed, is_inoperative, is_reject}
use atm_xfs_simulator.Cdm.Error.{
  CdmError, cannot_dispense_exact, invalid_denom, invalid_count, custom_mix_sum,
}

abbrev pub Mix : Type 0
Mix = List (ℕ × ℕ)

-- The denominations of a mix are below 2^32 - 1, so that an object enumerates them in ascending
-- order; a second write to a key replaces its value.
unfoldable pub put : ℕ → ℕ → Mix → Mix
put denom n [] = (denom, n) ∷ []
put denom n ((d, m) ∷ mix) =
    if denom == d
    then (denom, n) ∷ mix
    else if ltb denom d
    then (denom, n) ∷ (d, m) ∷ mix
    else (d, m) ∷ put denom n mix

abbrev pub is_candidate : CashUnit → Bool
is_candidate u =
    not (is_reject u) && not (is_jammed u.status) && not (is_inoperative u.status) && ltb 0 u.count

unfoldable pub candidates : List CashUnit → List CashUnit
candidates [] = []
candidates (u ∷ us) = let rest = candidates us in if is_candidate u then u ∷ rest else rest

-- `sort` by falling denomination, which keeps the order of equal ones.
unfoldable pub insert_desc : CashUnit → List CashUnit → List CashUnit
insert_desc u [] = u ∷ []
insert_desc u (v ∷ vs) =
    if ltb u.denomination v.denomination then v ∷ insert_desc u vs else u ∷ v ∷ vs

unfoldable pub sort_desc : List CashUnit → List CashUnit
sort_desc [] = []
sort_desc (u ∷ us) = insert_desc u (sort_desc us)

-- `Math.min(u.count, Math.floor(remaining / u.denomination))`, where the quotient is infinite at
-- the denomination 0.
abbrev pub notes_to_take : CashUnit → ℕ → ℕ
notes_to_take u remaining =
    if u.denomination == 0 then u.count else min u.count (remaining / u.denomination)

-- `if (take > 0) mix[String(u.denomination)] = take`
unfoldable pub put_taken : ℕ → ℕ → Mix → Mix
put_taken denom take mix = if ltb 0 take then put denom take mix else mix

-- The loop, on what remains and the mix so far.
unfoldable pub greedy : List CashUnit → ℕ → Mix → ℕ × Mix
greedy [] remaining mix = (remaining, mix)
greedy (u ∷ us) remaining mix =
    let take = notes_to_take u remaining in
    let left = remaining - take * u.denomination in
    let taken = put_taken u.denomination take mix in
    let rest = greedy us left taken in if left == 0 then (left, taken) else rest

unfoldable pub mix_value : Mix → ℕ
mix_value [] = 0
mix_value ((d, n) ∷ mix) = d * n + mix_value mix

unfoldable pub mix_notes : Mix → ℕ
mix_notes [] = 0
mix_notes ((d, n) ∷ mix) = n + mix_notes mix

-- `calculateMinNotesMix`
unfoldable pub min_notes_mix : List CashUnit → ℕ → Result CdmError Mix
min_notes_mix units amount =
    let (remaining, mix) = greedy (sort_desc (candidates units)) amount [] in
    if ltb 0 remaining then err (cannot_dispense_exact remaining) else ok mix

-- The keys are pairwise different numbers.
abbrev pub HasDistinctKeys : List (Number × Number) → Type 0
HasDistinctKeys [] = Unit
HasDistinctKeys (e ∷ es) = All (λ f. f.0 ≢ e.0) es × HasDistinctKeys es

-- `customMix`, its keys read as numbers. An object in which two keys are texts of one number, such as
-- "100000" and "1e5", is left out: its counts would go below 0.
pub record CustomMix : Type 0 where
  pub entries : List (Number × Number)
  pub distinct : HasDistinctKeys entries

-- The checks of one entry of a custom mix, its key read as a number.
abbrev pub check_count : ℕ → Option ℕ → Result CdmError (ℕ × ℕ)
check_count denom none = err (invalid_count denom)
check_count denom (some n) = ok (denom, n)

abbrev pub check_denom : Number × Number → Option ℕ → Result CdmError (ℕ × ℕ)
check_denom (denom, n) none = err (invalid_denom denom)
check_denom (denom, n) (some zero) = err (invalid_denom denom)
check_denom (denom, n) (some (suc d)) = check_count (suc d) (natural n)

abbrev pub check_entry : Number × Number → Result CdmError (ℕ × ℕ)
check_entry (denom, n) = check_denom (denom, n) (natural denom)

unfoldable pub check_entries : List (Number × Number) → Result CdmError Mix
check_entries [] = ok []
check_entries (e ∷ es) = do entry ← check_entry e; rest ← check_entries es; ok (entry ∷ rest)

unfoldable pub validate_custom_mix : ℕ → List (Number × Number) → Result CdmError Mix
unfolding check_entries mix_value
validate_custom_mix amount es = do
  mix ← check_entries es
  if mix_value mix == amount then ok mix else err (custom_mix_sum (mix_value mix) amount)
