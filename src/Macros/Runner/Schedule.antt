-- ===== src/Macros/Runner/Schedule.antt =====
-- apps/xfs-server/src/macros/macro-runner.service.ts, `run`: which steps of a macro are run, and in which
-- order.
use atm_xfs_simulator.Common.{
  ◌≡◌, ◌≤◌, Bool, true, false, Bool-cases, inl, inr, List, [], ◌∷◌, ◌++◌, All, arith, leb, subst,
  sym, if◌then◌else◌,
}
use mathlib.Core.List.{Perm, perm_middle}
use mathlib.Core.List.Perm
use atm_xfs_simulator.Macros.{MacroStep}
use atm_xfs_simulator.Macros.Recorder.{insert_step, sort_steps}
use atm_xfs_simulator.Macros.Runner.Run.{enabled_steps}

abbrev pub IsEnabled : MacroStep → Type 0
IsEnabled s = s.enabled ≡ true

abbrev pub IsDisabled : MacroStep → Type 0
IsDisabled s = s.enabled ≡ false

abbrev pub IsOrdered : List MacroStep → Type 0
IsOrdered [] = Unit
IsOrdered (s ∷ ss) = All (λ t. s.order ≤ t.order) ss × IsOrdered ss

-- The steps are all those of the macro but disabled ones, each as often, by their numbers.
pub record IsSchedule (all steps : List MacroStep) : Type 0 where
  pub left_out : List MacroStep
  pub same : Perm (steps ++ left_out) all
  pub enabled : All IsEnabled steps
  pub disabled : All IsDisabled left_out
  pub ordered : IsOrdered steps

insert_step-perm : (s : MacroStep) (ts : List MacroStep) → Perm (insert_step s ts) (s ∷ ts)
insert_step-perm s [] = Perm.refl (s ∷ [])
insert_step-perm s (t ∷ ts) = elim (Bool-cases (leb s.order t.order)) [
  | inl first ↦ rw first (Perm.refl (s ∷ t ∷ ts))
  | inr later ↦ rw later (Perm.trans (Perm.cons t (insert_step-perm s ts)) (Perm.swap s t ts))
]

sort_steps-perm : (ss : List MacroStep) → Perm (sort_steps ss) ss
unfolding sort_steps
sort_steps-perm [] = Perm.refl []
sort_steps-perm (s ∷ ss) =
    Perm.trans (insert_step-perm s (sort_steps ss)) (Perm.cons s (sort_steps-perm ss))

insert_step-All :
    (P : MacroStep → Type 0) (s : MacroStep) (ts : List MacroStep)
    → P s
    → All P ts
    → All P (insert_step s ts)
insert_step-All P s [] h hs = (h, tt)
insert_step-All P s (t ∷ ts) h (ht, hs) = elim (Bool-cases (leb s.order t.order)) [
  | inl first ↦ rw first (h, (ht, hs))
  | inr later ↦ rw later (ht, insert_step-All P s ts h hs)
]

sort_steps-All : (P : MacroStep → Type 0) (ss : List MacroStep) → All P ss → All P (sort_steps ss)
unfolding sort_steps
sort_steps-All P [] h = tt
sort_steps-All P (s ∷ ss) (h, hs) = insert_step-All P s (sort_steps ss) h (sort_steps-All P ss hs)

All-below :
    (s t : MacroStep) (ts : List MacroStep)
    → s.order ≤ t.order
    → All (λ u. t.order ≤ u.order) ts
    → All (λ u. s.order ≤ u.order) ts
All-below s t [] h hs = tt
All-below s t (u ∷ ts) h (hu, hs) = (omega arith, All-below s t ts h hs)

insert_step-IsOrdered :
    (s : MacroStep) (ts : List MacroStep) → IsOrdered ts → IsOrdered (insert_step s ts)
insert_step-IsOrdered s [] h = (tt, tt)
insert_step-IsOrdered s (t ∷ ts) (above, h) = elim (Bool-cases (leb s.order t.order)) [
  | inl first ↦
      let less : s.order ≤ t.order = ground arith in
      rw first ((less, All-below s t ts less above), (above, h))
  | inr later ↦ rw later (
    insert_step-All (λ u. t.order ≤ u.order) s ts (ground arith) above,
    insert_step-IsOrdered s ts h,
  )
]

sort_steps-IsOrdered : (ss : List MacroStep) → IsOrdered (sort_steps ss)
unfolding sort_steps
sort_steps-IsOrdered [] = tt
sort_steps-IsOrdered (s ∷ ss) = insert_step-IsOrdered s (sort_steps ss) (sort_steps-IsOrdered ss)

-- The enabled steps, and the others.
parts :
    (ss : List MacroStep)
    → (rest : List MacroStep) × Perm (enabled_steps ss ++ rest) ss
      × All IsEnabled (enabled_steps ss)
      × All IsDisabled rest
parts [] = ([], Perm.refl [], tt, tt)
parts (s ∷ ss) =
    let (rest, perm, on, off) = parts ss in
    let es = enabled_steps ss in
    let part = λ (b : Bool).
      (rest : List MacroStep) × Perm ((if b then s ∷ es else es) ++ rest) (s ∷ ss)
      × All IsEnabled (if b then s ∷ es else es)
      × All IsDisabled rest in
    elim (Bool-cases s.enabled) [
      | inl yes_on ↦ subst part (sym yes_on) (rest, Perm.cons s perm, (yes_on, on), off)
      | inr not_on ↦
          subst part (sym not_on)
            (s ∷ rest, Perm.trans (perm_middle es rest) (Perm.cons s perm), on, (not_on, off))
    ]

pub sort_steps-IsSchedule : (ss : List MacroStep) → IsSchedule ss (sort_steps (enabled_steps ss))
sort_steps-IsSchedule ss =
    let (rest, perm, on, off) = parts ss in
    record {
      left_out = rest;
      same = Perm.trans (Perm.append_right rest (sort_steps-perm (enabled_steps ss))) perm;
      enabled = sort_steps-All IsEnabled (enabled_steps ss) on;
      disabled = off;
      ordered = sort_steps-IsOrdered (enabled_steps ss);
    }
