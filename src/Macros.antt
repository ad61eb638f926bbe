-- ===== src/Macros.antt =====
-- apps/xfs-server/src/macros/macro.types.ts and apps/xfs-server/src/atm/user-action.types.ts: the steps of
-- a macro, and the actions of a user that the recorder turns into steps. A key is a digit, ENTER or
-- another one; a value of digits is the text of them.
pub mod Fixtures
pub mod Op
pub mod Recorder
pub mod Runner
mod Tests
use atm_xfs_simulator.Common.{ℕ, String, Bool, Option, List}
use atm_xfs_simulator.Common.Number.{Number}

pub data MacroStepKind : Type 0 where
  action checkpoint assertion wait : MacroStepKind

pub data MacroDevice : Type 0 where
  card pin_pad cash receipt screen system : MacroDevice

pub data ParameterType : Type 0 where
  string_type number_type boolean_type variable_type : ParameterType

pub data Value : Type 0 where
  text : String → Value
  digits : List ℕ → Value
  number : Number → Value
  boolean : Bool → Value

-- `digit_count n` is the label "Card.pin (n digits)".
pub data Label : Type 0 where
  plain : String → Label
  digit_count : ℕ → Label

pub record MacroParameter : Type 0 where
  pub name : String
  pub type : ParameterType
  pub value : Value
  pub display_label : Option Label

pub record MacroStep : Type 0 where
  pub id : String
  pub order : ℕ
  pub kind : MacroStepKind
  pub device : MacroDevice
  pub operation : String
  pub parameters : List MacroParameter
  pub enabled : Bool

pub data Key : Type 0 where
  digit : ℕ → Key
  enter : Key
  control : String → Key

pub data UserAction : Type 0 where
  card_insert : (pan : String) → UserAction
  key_press : Key → UserAction
  select_transaction : (txn_type : String) → UserAction
  submit_amount : Number → UserAction
  confirm : UserAction
  cancel : (reason : Option String) → UserAction
