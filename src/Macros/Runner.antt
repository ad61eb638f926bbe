-- ===== src/Macros/Runner.antt =====
-- apps/xfs-server/src/macros/macro-runner.service.ts: one step of a macro. The ATM, the devices and the
-- database are what an `Environment` says of them, with `text_of` and `number_of` for the language's
-- `String` and `Number` of a value.
pub mod Steps
pub mod Run
pub mod Replay
pub mod Checkpoints
pub mod Results
pub mod Schedule
use atm_xfs_simulator.Common.{
  ℕ, ◌==◌, String, str_eq, Bool, true, false, ◌&&◌, not, Option, none, some, List, [], ◌∷◌, Result,
  ok, err, if◌then◌else◌, ltb, length,
}
use Prim.Native.String.{◌++◌}
unfoldable use package.text.Mathlib.Text.{starts_with}
use atm_xfs_simulator.Common.Int.{negsuc}
use atm_xfs_simulator.Common.Number.{Number, int}
use atm_xfs_simulator.Macros.{
  MacroStep, MacroStepKind, MacroDevice, MacroParameter, Value, action, checkpoint, wait, card,
  pin_pad, cash, receipt, screen, system, text, number, assertion,
}
use atm_xfs_simulator.Macros.Op.{Op, ◌>>=◌, pure, throw, change, look}

pub record VirtualCard : Type 0 where
  pub pan : String
  pub cardholder_name : String
  pub expiry_date : String
  pub track1 : String
  pub track2 : String
  pub pin : String
  pub issuer : String

pub data Device : Type 0 where
  idc pin cdm ptr : Device

pub record LastTransaction : Type 0 where
  pub status : String
  pub error_reason : Option String
  pub stan_no : Option String

pub record Environment (W : Type 0) : Type 0 where
  pub find_card : String → Op W (Option VirtualCard)
  pub on_card_inserted : VirtualCard → Op W Unit
  pub has_card : W → Bool
  pub has_current_card : W → Bool
  pub begin_pin_entry : Op W Unit
  -- The call whose end is awaited later, whether the keypad is armed in time, and the result.
  pub start_pin_entry : W → W
  pub wait_armed : W → Bool × W
  pub finish_pin_entry : Op W (Bool × Option String)
  pub press_key : String → W → W
  pub cash_unit_info : Op W Unit
  pub receipts : W → ℕ
  pub select_transaction : String → Op W Unit
  pub submit_amount : Number → Op W Unit
  pub confirm_transaction : Op W Unit
  pub cancel_transaction : String → Op W Unit
  pub wait_ms : Number → W → W
  pub inject_error : Device → Number → W → W
  pub clear_error : Device → W → W
  pub session_state : W → Option String
  pub last_transaction : Op W (Option LastTransaction)
  pub text_of : Value → String
  pub number_of : Value → Number
  pub not_a_number : Number
  pub upper_case : String → String
  pub characters : String → List String

pub record MacroRunContext : Type 0 where
  pub selected_pan : Option String
  pub selected_card_pin : Option String
  pub variables : List (String × Value)

-- The value of a name: the last that was written.
abbrev pub or_later : Option Value → Option Value → Option Value
or_later none first = first
or_later (some v) first = some v

abbrev pub find_value : String → List (String × Value) → Option Value
find_value name [] = none
find_value name ((key, v) ∷ vs) =
    let later = find_value name vs in or_later later (if str_eq key name then some v else none)

-- `paramMap`
abbrev pub param_map : List MacroParameter → List (String × Value)
param_map [] = []
param_map (p ∷ ps) = (p.name, p.value) ∷ param_map ps

abbrev pub or_text : (Value → String) → Option Value → String → String
or_text text_of none default = default
or_text text_of (some v) default = text_of v

abbrev pub or_value : Option Value → Option Value → Option Value
or_value (some v) other = some v
or_value none other = other

abbrev pub or_number : (Value → Number) → Option Value → Number → Number
or_number number_of none default = default
or_number number_of (some v) default = number_of v

abbrev pub or_string : Option String → String → String
or_string none default = default
or_string (some s) default = s

abbrev pub is_digit_text : String → Bool
is_digit_text s =
    if str_eq s "0"
    then true
    else if str_eq s "1"
    then true
    else if str_eq s "2"
    then true
    else if str_eq s "3"
    then true
    else if str_eq s "4"
    then true
    else if str_eq s "5"
    then true
    else if str_eq s "6"
    then true
    else if str_eq s "7"
    then true
    else if str_eq s "8"
    then true
    else str_eq s "9"

abbrev pub are_digits : List String → Bool
are_digits [] = true
are_digits (c ∷ cs) = is_digit_text c && are_digits cs

abbrev pub device_for : String → Option Device
device_for name =
    if str_eq name "IDC"
    then some idc
    else if str_eq name "PIN"
    then some pin
    else if str_eq name "CDM"
    then some cdm
    else if str_eq name "PTR"
    then some ptr
    else none
