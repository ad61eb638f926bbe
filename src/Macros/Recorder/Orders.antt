-- ===== src/Macros/Recorder/Orders.antt =====
-- apps/xfs-server/src/macros/macro-recorder.service.ts: the numbers of the recorded steps.
use atm_xfs_simulator.Common.{
  ℕ, suc, ◌+◌, ◌≡◌, refl, ap, ◌∙◌, String, Bool, true, none, some, List, [], ◌∷◌, ◌++◌, arith,
  length, leb, if◌then◌else◌,
}
use atm_xfs_simulator.Macros.{MacroStep, MacroStepKind, MacroDevice, MacroParameter}
use atm_xfs_simulator.Macros.Recorder.Keeps.{Input, record_all, record_all-keeps, flush-keeps}
use atm_xfs_simulator.Macros.Recorder.{
  Recording, new_recording, push_step, flush_digit_buffer, stop_recording, sort_steps, insert_step,
}

-- Steps numbered from `k` on.
abbrev pub IsNumbered : ℕ → List MacroStep → Type 0
IsNumbered k [] = Unit
IsNumbered k (s ∷ ss) = (s.order ≡ k) × IsNumbered (suc k) ss

-- The next number is one more than that of the last step.
abbrev IsCounted : Recording → Type 0
IsCounted r = IsNumbered 1 r.steps × (r.counter ≡ suc (length r.steps))

IsNumbered-append :
    (k : ℕ) (ss : List MacroStep) (s : MacroStep)
    → IsNumbered k ss
    → s.order ≡ k + length ss
    → IsNumbered k (ss ++ (s ∷ [])) × (length (ss ++ (s ∷ [])) ≡ suc (length ss))
IsNumbered-append k [] s h e = ((omega (arith, e), tt), refl)
IsNumbered-append k (t ∷ ss) s (ht, h) e =
    let r = IsNumbered-append (suc k) ss s h (omega (arith, e)) in ((ht, r.0), ap suc (r.1))

insert_step-first :
    (k : ℕ) (s : MacroStep) (ss : List MacroStep)
    → s.order ≡ k
    → IsNumbered (suc k) ss
    → insert_step s ss ≡ s ∷ ss
insert_step-first k s [] e h = refl
insert_step-first k s (t ∷ ts) e (ht, h) =
    let test : leb s.order t.order ≡ true = ground (arith, e, ht) in
    ap (λ (b : Bool). if b then s ∷ t ∷ ts else t ∷ insert_step s ts) test

sort_steps-numbered : (k : ℕ) (ss : List MacroStep) → IsNumbered k ss → sort_steps ss ≡ ss
unfolding sort_steps
sort_steps-numbered k [] h = refl
sort_steps-numbered k (s ∷ ss) (e, h) =
    ap (insert_step s) (sort_steps-numbered (suc k) ss h) ∙ insert_step-first k s ss e h

module _ (uuid : ℕ → String) where
  push_step-IsCounted :
      (kind : MacroStepKind) (device : MacroDevice) (operation : String) (ps : List MacroParameter)
      (r : Recording)
      → IsCounted r
      → IsCounted (push_step uuid kind device operation ps r)
  push_step-IsCounted kind device operation ps r (h, c) =
      let n =
        IsNumbered-append 1 r.steps
          (record {
            id = uuid r.counter;
            order = r.counter;
            kind = kind;
            device = device;
            operation = operation;
            parameters = ps;
            enabled = true;
          })
          h (omega (arith, c)) in
      (n.0, omega (arith, c, n.1))

  record_all-IsCounted :
      (is : List Input) (r : Recording)
      → IsCounted r
      → (r' : Recording) × (record_all uuid (some r) is ≡ some r') × IsCounted r'
  record_all-IsCounted is r h =
      record_all-keeps uuid IsCounted (λ (bs : List ℕ) (r : Recording) h. h)
        (λ (b : Bool) (r : Recording) h. h) push_step-IsCounted is r h

  -- Whatever actions and events follow the start of a recording, it goes on until it is stopped; stopping
  -- saves the steps in the order in which they came, the digits still to come included, numbered 1, 2, 3
  -- and so on, and ends the recording. The sort by number changes nothing.
  pub stop_recording-IsNumbered :
      (macro_id : String) (is : List Input)
      → (r : Recording) × (record_all uuid (some (new_recording macro_id)) is ≡ some r)
        × (stop_recording uuid true (some r) ≡ (some (flush_digit_buffer uuid r).steps, none))
        × IsNumbered 1 (flush_digit_buffer uuid r).steps
  unfolding stop_recording
  stop_recording-IsNumbered macro_id is =
      let (r, e, h) = record_all-IsCounted is (new_recording macro_id) (tt, refl) in
      let counted =
        flush-keeps uuid IsCounted (λ (bs : List ℕ) (r : Recording) h. h)
          (λ (b : Bool) (r : Recording) h. h) push_step-IsCounted r h in
      (
        r,
        e,
        ap (λ (ss : List MacroStep). (some ss, none))
            (sort_steps-numbered 1 (flush_digit_buffer uuid r).steps (counted.0)),
        counted.0,
      )
