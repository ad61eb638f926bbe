-- ===== src/Macros/Tests.antt =====
-- Tests and witnesses for apps/xfs-server/src/macros.
use atm_xfs_simulator.Common.{
  ℕ, ◌≡◌, ◌++◌, refl, String, true, none, some, List, [], ◌∷◌, arith, ok, inl,
}
use atm_xfs_simulator.Macros.Fixtures.{env, db, two_steps}
use atm_xfs_simulator.Macros.{MacroStep, confirm, digit, key_press}
use atm_xfs_simulator.Macros.Runner.Schedule.{IsSchedule}
use atm_xfs_simulator.Macros.Recorder.{
  Recording, flush_digit_buffer, new_recording, sort_steps, stop_recording,
}
use atm_xfs_simulator.Macros.Recorder.Keeps.{event, record_all, user}
use atm_xfs_simulator.Macros.Recorder.Orders.{IsNumbered, stop_recording-IsNumbered}
use atm_xfs_simulator.Macros.Recorder.Pin.{record_all-pin, typed, with_pin}
use atm_xfs_simulator.Macros.Runner.Steps.{World}
use atm_xfs_simulator.Macros.Runner.Run.{MacroRun, enabled_steps, failed, run, run_steps}
use atm_xfs_simulator.Macros.Runner.Results.{IsRun, run-IsRun}
use atm_xfs_simulator.Macros.Runner.Replay.{run_steps-unplayable, saved_steps}

abbrev uuid : ℕ → String
uuid n = "id"

stop_recording-IsNumbered_example :
    (r : Recording) × (record_all uuid
        (some (new_recording "m"))
        (user confirm ∷ user (key_press (digit 5)) ∷ [])
      ≡ some r)
    × (stop_recording uuid true (some r) ≡ (some (flush_digit_buffer uuid r).steps, none))
    × IsNumbered 1 (flush_digit_buffer uuid r).steps
stop_recording-IsNumbered_example =
    stop_recording-IsNumbered uuid "m" (user confirm ∷ user (key_press (digit 5)) ∷ [])

abbrev pin : List ℕ
pin = 1 ∷ 2 ∷ 3 ∷ 4 ∷ []

abbrev other_pin : List ℕ
other_pin = 9 ∷ 8 ∷ 7 ∷ 6 ∷ []

record_all-pin_example :
    (record_all uuid (some (new_recording "m")) (typed pin)
      ≡ some (with_pin uuid pin (new_recording "m")))
    × (record_all uuid (some (new_recording "m")) (typed other_pin)
        ≡ record_all uuid (some (new_recording "m")) (typed pin))
record_all-pin_example =
    record_all-pin uuid pin (new_recording "m") refl (omega arith) (omega arith) other_pin refl

abbrev start : World env
start = (record { selected_pan = none; selected_card_pin = none; variables = [] }, 0)

run-IsRun_example :
    (r : MacroRun) × (s' : ℕ) × (run env db "m" 0 ≡ (ok r, s'))
    × (r.macro_id ≡ "m")
    × ((steps : List MacroStep) × IsSchedule two_steps.steps steps
        × ((t : World env) × IsRun env db "run" r.status steps start r.step_results t))
run-IsRun_example =
    run-IsRun env db "m" "run" two_steps 0 0 0 refl refl (λ id status rs t. (t, refl))

run_steps-unplayable_example :
    (run_steps env db "run"
      (sort_steps (
        enabled_steps (
          saved_steps uuid (
            record_all uuid
              (some (new_recording "m"))
              ((user confirm ∷ []) ++ (event "WFS_SRVE_CDM_ITEMSTAKEN" ∷ user confirm ∷ []))))))
      start).0.0
    ≡ failed
run_steps-unplayable_example =
    run_steps-unplayable env db uuid "run" "m" "WFS_SRVE_CDM_ITEMSTAKEN" (user confirm ∷ [])
      (user confirm ∷ []) start (inl refl)
