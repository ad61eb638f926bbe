-- ===== src/Cdm/Conservation.antt =====
-- packages/xfs-devices/src/cdm/cdm.service.ts, `dispense`: what the cassettes lose.
use atm_xfs_simulator.Common.{
  ℕ, ◌+◌, ◌-◌, ◌*◌, ◌/◌, min, ◌≤◌, ◌≡◌, refl, sym, ap, ◌≢◌, some, List, [], ◌∷◌, ok, arith, inl,
  inr, All, Option-cases,
}
use native.Mathlib.Nat.{div-mul-le_self}
use atm_xfs_simulator.Cdm.Units.{CashUnit, find_spendable_unit_by_denom, take_from, total_amount}
use atm_xfs_simulator.Cdm.Notes.{
  Mix, put, candidates, insert_desc, sort_desc, notes_to_take, put_taken, greedy, mix_value,
  mix_notes,
}
use atm_xfs_simulator.Cdm.{Cdm, preflight, deduct_one, deduct}

split_product : (count n d : ℕ) → n ≤ count → (count - n) * d + d * n ≡ count * d
split_product count n d h = grind arith

take_from-total :
    (d n : ℕ) (us : List CashUnit) (u : CashUnit)
    → find_spendable_unit_by_denom d us ≡ some u
    → n ≤ u.count
    → total_amount (take_from d n us) + d * n ≡ total_amount us
unfolding find_spendable_unit_by_denom take_from total_amount
take_from-total d n [] u e h = cc
take_from-total d n (v ∷ us) u e h =
    ground (arith, split_product v.count n v.denomination, take_from-total d n us u)

find-take_from :
    (d e n : ℕ) (us : List CashUnit)
    → d ≢ e
    → find_spendable_unit_by_denom d (take_from e n us) ≡ find_spendable_unit_by_denom d us
unfolding find_spendable_unit_by_denom take_from
find-take_from d e n [] h = refl
find-take_from d e n (v ∷ us) h = ground (arith, find-take_from d e n us h)

-- No entry has the denomination.
abbrev pub IsFresh : ℕ → Mix → Type 0
IsFresh d mix = All (λ e. e.0 ≢ d) mix

-- No denomination stands twice.
abbrev pub IsDistinct : Mix → Type 0
IsDistinct [] = Unit
IsDistinct ((d, n) ∷ mix) = IsFresh d mix × IsDistinct mix

pub preflight-take_from :
    (d n : ℕ) (mix : Mix) (us : List CashUnit)
    → IsFresh d mix
    → preflight mix (take_from d n us) ≡ preflight mix us
unfolding preflight
preflight-take_from d n [] us h = refl
preflight-take_from d n ((e, m) ∷ mix) us (ne, h) =
    ground (arith, find-take_from e d n us ne, preflight-take_from d n mix us h)

pub preflight_cases :
    (d n : ℕ) (mix : Mix) (us : List CashUnit)
    → preflight ((d, n) ∷ mix) us ≡ ok tt
    → (u : CashUnit) × (find_spendable_unit_by_denom d us ≡ some u)
      × (n ≤ u.count)
      × (preflight mix us ≡ ok tt)
unfolding preflight
preflight_cases d n mix us e = elim (Option-cases (find_spendable_unit_by_denom d us)) [
  | inl missing ↦ ground arith
  | inr (u, found) ↦ (u, found, ground arith, ground arith)
]

pub deduct_one-units :
    (d n : ℕ) (c : Cdm) → (deduct_one d n c).cash_units ≡ take_from d n c.cash_units
unfolding deduct_one
deduct_one-units d n c = ground arith

pub deduct-total :
    (mix : Mix) (c : Cdm)
    → IsDistinct mix
    → preflight mix c.cash_units ≡ ok tt
    → total_amount (deduct mix c).cash_units + mix_value mix ≡ total_amount c.cash_units
unfolding deduct mix_value
deduct-total [] c h e = omega arith
deduct-total ((d, n) ∷ mix) c (fresh, h) e =
    let (u, found, enough, rest) = preflight_cases d n mix c.cash_units e in
    let still : preflight mix (deduct_one d n c).cash_units ≡ ok tt =
      rw (deduct_one-units d n c, preflight-take_from d n mix c.cash_units fresh) rest in
    omega (
      arith,
      deduct-total mix (deduct_one d n c) h still,
      ap total_amount (deduct_one-units d n c),
      take_from-total d n c.cash_units u found enough,
    )

-- All the notes in the machine, the reject bin's too.
unfoldable pub all_notes : List CashUnit → ℕ
all_notes [] = 0
all_notes (u ∷ us) = u.count + all_notes us

take_from-notes :
    (d n : ℕ) (us : List CashUnit) (u : CashUnit)
    → find_spendable_unit_by_denom d us ≡ some u
    → n ≤ u.count
    → all_notes (take_from d n us) + n ≡ all_notes us
unfolding find_spendable_unit_by_denom take_from all_notes
take_from-notes d n [] u e h = cc
take_from-notes d n (v ∷ us) u e h = ground (arith, take_from-notes d n us u)

pub deduct-notes :
    (mix : Mix) (c : Cdm)
    → IsDistinct mix
    → preflight mix c.cash_units ≡ ok tt
    → all_notes (deduct mix c).cash_units + mix_notes mix ≡ all_notes c.cash_units
unfolding deduct mix_notes
deduct-notes [] c h e = omega arith
deduct-notes ((d, n) ∷ mix) c (fresh, h) e =
    let (u, found, enough, rest) = preflight_cases d n mix c.cash_units e in
    let still : preflight mix (deduct_one d n c).cash_units ≡ ok tt =
      rw (deduct_one-units d n c, preflight-take_from d n mix c.cash_units fresh) rest in
    omega (
      arith,
      deduct-notes mix (deduct_one d n c) h still,
      ap all_notes (deduct_one-units d n c),
      take_from-notes d n c.cash_units u found enough,
    )

-- The denominations of the cassettes, pairwise different.
abbrev pub IsDistinctUnits : List CashUnit → Type 0
IsDistinctUnits [] = Unit
IsDistinctUnits (u ∷ us) = All (λ v. v.denomination ≢ u.denomination) us × IsDistinctUnits us

module _ (P : CashUnit → Type 0) where
  All-insert_desc : (u : CashUnit) (us : List CashUnit) → P u → All P us → All P (insert_desc u us)
  unfolding insert_desc
  All-insert_desc u [] p h = (p, tt)
  All-insert_desc u (v ∷ vs) p h = ground (arith, All-insert_desc u vs p h.1)

  All-sort_desc : (us : List CashUnit) → All P us → All P (sort_desc us)
  unfolding sort_desc
  All-sort_desc [] h = tt
  All-sort_desc (u ∷ us) h = All-insert_desc u (sort_desc us) h.0 (All-sort_desc us h.1)

  All-candidates : (us : List CashUnit) → All P us → All P (candidates us)
  unfolding candidates
  All-candidates [] h = tt
  All-candidates (u ∷ us) h = ground (arith, All-candidates us h.1)

insert_desc-IsDistinctUnits :
    (u : CashUnit) (us : List CashUnit)
    → All (λ v. v.denomination ≢ u.denomination) us
    → IsDistinctUnits us
    → IsDistinctUnits (insert_desc u us)
unfolding insert_desc
insert_desc-IsDistinctUnits u [] ne h = (tt, tt)
insert_desc-IsDistinctUnits u (v ∷ vs) ne h = ground (
  arith,
  insert_desc-IsDistinctUnits u vs ne.1 h.1,
  All-insert_desc (λ w. w.denomination ≢ v.denomination) u vs (λ e. ne.0 (sym e)) h.0,
)

pub sort_desc-IsDistinctUnits :
    (us : List CashUnit) → IsDistinctUnits us → IsDistinctUnits (sort_desc us)
unfolding sort_desc
sort_desc-IsDistinctUnits [] h = tt
sort_desc-IsDistinctUnits (u ∷ us) h =
    insert_desc-IsDistinctUnits u (sort_desc us) (All-sort_desc _ us h.0)
      (sort_desc-IsDistinctUnits us h.1)

pub candidates-IsDistinctUnits :
    (us : List CashUnit) → IsDistinctUnits us → IsDistinctUnits (candidates us)
unfolding candidates
candidates-IsDistinctUnits [] h = tt
candidates-IsDistinctUnits (u ∷ us) h =
    ground (arith, candidates-IsDistinctUnits us h.1, All-candidates _ us h.0)

mix_value-put :
    (d n : ℕ) (mix : Mix) → IsFresh d mix → mix_value (put d n mix) ≡ d * n + mix_value mix
unfolding mix_value put
mix_value-put d n [] h = refl
mix_value-put d n ((e, m) ∷ mix) h = ground (arith, mix_value-put d n mix h.1)

put-IsFresh : (d n e : ℕ) (mix : Mix) → d ≢ e → IsFresh e mix → IsFresh e (put d n mix)
unfolding put
put-IsFresh d n e [] ne h = (ne, tt)
put-IsFresh d n e ((k, m) ∷ mix) ne h = ground (arith, put-IsFresh d n e mix ne h.1)

put-IsDistinct : (d n : ℕ) (mix : Mix) → IsFresh d mix → IsDistinct mix → IsDistinct (put d n mix)
unfolding put
put-IsDistinct d n [] f h = (tt, tt)
put-IsDistinct d n ((k, m) ∷ mix) f h =
    ground (arith, put-IsDistinct d n mix f.1 h.1, put-IsFresh d n k mix (λ e. f.0 (sym e)) h.0)

put_taken-value :
    (d n : ℕ) (mix : Mix) → IsFresh d mix → mix_value (put_taken d n mix) ≡ n * d + mix_value mix
unfolding put_taken
put_taken-value d n mix h = ground (arith, mix_value-put d n mix h)

put_taken-IsDistinct :
    (d n : ℕ) (mix : Mix) → IsFresh d mix → IsDistinct mix → IsDistinct (put_taken d n mix)
unfolding put_taken
put_taken-IsDistinct d n mix f h = ground (arith, put-IsDistinct d n mix f h)

put_taken-IsFresh :
    (d n : ℕ) (mix : Mix) (us : List CashUnit)
    → All (λ u. u.denomination ≢ d) us
    → All (λ u. IsFresh u.denomination mix) us
    → All (λ u. IsFresh u.denomination (put_taken d n mix)) us
unfolding put_taken
put_taken-IsFresh d n mix [] ne h = tt
put_taken-IsFresh d n mix (u ∷ us) ne h = (
  ground (arith, put-IsFresh d n u.denomination mix (λ e. ne.0 (sym e)) h.0),
  put_taken-IsFresh d n mix us ne.1 h.1,
)

min_mul-le : (a b d : ℕ) → min a b * d ≤ b * d
min_mul-le a b d = grind arith

pub notes_to_take-fits : (u : CashUnit) (r : ℕ) → notes_to_take u r * u.denomination ≤ r
notes_to_take-fits u r = ground (
  arith,
  div-mul-le_self r u.denomination,
  min_mul-le u.count (r / u.denomination) u.denomination,
)

-- What the loop has put into the mix, and what it leaves, make up the amount.
pub greedy-value :
    (us : List CashUnit) (r : ℕ) (mix : Mix)
    → IsDistinctUnits us
    → IsDistinct mix
    → All (λ u. IsFresh u.denomination mix) us
    → let (left, out) = greedy us r mix in
      (mix_value out + left ≡ mix_value mix + r) × IsDistinct out
unfolding greedy
greedy-value [] r mix du dm fresh = (refl, dm)
greedy-value (u ∷ us) r mix (ne, du) dm (f, fs) =
    let n = notes_to_take u r in
    ground (
      arith,
      notes_to_take-fits u r,
      put_taken-value u.denomination n mix f,
      put_taken-IsDistinct u.denomination n mix f dm,
      greedy-value us (r - n * u.denomination) (put_taken u.denomination n mix) du
          (put_taken-IsDistinct u.denomination n mix f dm)
          (put_taken-IsFresh u.denomination n mix us ne fs),
    )
