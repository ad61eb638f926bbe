-- ===== src/Pinpad/Tests.antt =====
-- The PIN pad's theorems at concrete inputs.
use atm_xfs_simulator.Common.{
  ℕ, ◌≡◌, ◌≤◌, ◌<◌, ◌⊎◌, refl, false, some, none, List, [], ◌∷◌, arith, length, All,
}
use atm_xfs_simulator.Pinpad.{
  Key, EntrySpec, PinGetPinPayload, PinCommand, Mode, digit, new, begin_entry, press_key,
  cancel_entry,
}
use atm_xfs_simulator.Pinpad.Block.{build_iso0_pin_block}
use atm_xfs_simulator.Pinpad.Entry.{PinCall, run, IsAnswered, run-IsAnswered}
use atm_xfs_simulator.Pinpad.Keys.{KeyOutcome, press_key-KeyOutcome}
use atm_xfs_simulator.Pinpad.Decode.{IsDigit, pin_of, build_iso0_pin_block-pin_of}

-- The entry that the application asks for.
abbrev payload : PinGetPinPayload
payload = record { min_len = 4; max_len = 6; auto_end = false; terminate_keys = Key.enter ∷ [] }

abbrev entry : EntrySpec
entry = record { spec = payload; mode = Mode.pin }

abbrev des : List ℕ → List ℕ → List ℕ
des block key = block

abbrev calls : List PinCall
calls =
    PinCall.execute (PinCommand.get_pin payload)
    ∷ PinCall.press (digit 1)
    ∷ PinCall.press (digit 2)
    ∷ PinCall.press (digit 3)
    ∷ PinCall.press Key.enter
    ∷ PinCall.press (digit 4)
    ∷ PinCall.press Key.enter
    ∷ PinCall.execute (PinCommand.get_pinblock "TPK" (52 ∷ 48 ∷ []))
    ∷ PinCall.execute (PinCommand.get_data payload)
    ∷ PinCall.time_out
    ∷ []

run-IsAnswered_example : IsAnswered (run des calls new)
unfolding new
run-IsAnswered_example = run-IsAnswered des calls new (refl, tt, tt)

press_key-KeyOutcome_example :
    KeyOutcome
      (digit 7)
      entry
      (begin_entry Mode.pin payload new)
      (press_key (digit 7) (begin_entry Mode.pin payload new))
unfolding begin_entry cancel_entry new
press_key-KeyOutcome_example =
    press_key-KeyOutcome (digit 7) entry (begin_entry Mode.pin payload new) refl

-- "1234"
abbrev pin : List ℕ
pin = 49 ∷ 50 ∷ 51 ∷ 52 ∷ []

-- "4097123412341234"
abbrev pan : List ℕ
pan = 52 ∷ 48 ∷ 57 ∷ 55 ∷ 49 ∷ 50 ∷ 51 ∷ 52 ∷ 49 ∷ 50 ∷ 51 ∷ 52 ∷ 49 ∷ 50 ∷ 51 ∷ 52 ∷ []

digits : All IsDigit pin
digits = (
  (omega arith, omega arith),
  ((omega arith, omega arith), ((omega arith, omega arith), ((omega arith, omega arith), tt))),
)

build_iso0_pin_block-pin_of_example :
    ((4 ≤ length pin)
      × (length pin ≤ 12)
      × ((block : List ℕ) × (build_iso0_pin_block pin pan ≡ some block)
          × (length block ≡ 16)
          × (pin_of block pan ≡ pin)))
    ⊎ (((length pin < 4) ⊎ (12 < length pin)) × (build_iso0_pin_block pin pan ≡ none))
build_iso0_pin_block-pin_of_example = build_iso0_pin_block-pin_of pin pan digits
