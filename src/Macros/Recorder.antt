-- ===== src/Macros/Recorder.antt =====
-- apps/xfs-server/src/macros/macro-recorder.service.ts: the recorder. `random_uuid n` stands for
-- the identifier that node makes for the n-th step.
pub mod Keeps
pub mod Orders
pub mod Pin
use atm_xfs_simulator.Common.{
  ℕ, zero, suc, ◌+◌, String, str_eq, Bool, true, false, ◌&&◌, Option, none, some, List, [], ◌∷◌,
  ◌++◌, Result, ok, err, if◌then◌else◌, ltb, leb, ◌==◌, length,
}
use atm_xfs_simulator.Macros.{
  MacroStep, MacroStepKind, MacroDevice, MacroParameter, ParameterType, Value, Label, UserAction,
  Key, action, checkpoint, card, pin_pad, cash, receipt, system, string_type, number_type,
  variable_type, text, digits, number, plain, digit_count, digit, enter, control, card_insert,
  key_press, select_transaction, submit_amount, confirm, cancel,
}

pub record Recording : Type 0 where
  pub macro_id : String
  pub steps : List MacroStep
  pub counter : ℕ
  pub digit_buffer : List ℕ
  pub absorb_next_enter : Bool

-- `active`, or null.
abbrev pub Recorder : Type 0
Recorder = Option Recording

pub data RecorderError : Type 0 where
  already_recording : String → RecorderError
  macro_not_found : String → RecorderError

abbrev pub new_recording : String → Recording
new_recording macro_id = record {
  macro_id = macro_id;
  steps = [];
  counter = 1;
  digit_buffer = [];
  absorb_next_enter = false;
}

-- `exists` is what the database finds.
unfoldable pub start_recording : String → Bool → Recorder → Result RecorderError String × Recorder
start_recording macro_id exists (some r) = (err (already_recording r.macro_id), some r)
start_recording macro_id true none = (ok macro_id, some (new_recording macro_id))
start_recording macro_id false none = (err (macro_not_found macro_id), none)

abbrev pub parameter : String → ParameterType → Value → MacroParameter
parameter name type value = record { name = name; type = type; value = value; display_label = none }

-- `EVENT_TO_CHECKPOINT`
abbrev pub event_to_checkpoint : String → Option (MacroDevice × String)
event_to_checkpoint code =
    if str_eq code "WFS_SRVE_IDC_MEDIAINSERTED"
    then some (card, "Checkpoint(Insert)")
    else if str_eq code "WFS_SRVE_IDC_MEDIAREMOVED"
    then some (card, "Checkpoint(Ejected)")
    else if str_eq code "WFS_SRVE_IDC_MEDIARETAINED"
    then some (card, "Checkpoint(Retained)")
    else if str_eq code "WFS_EXEE_CDM_NOTESPRESENTED"
    then some (cash, "Checkpoint(NotesPresented)")
    else if str_eq code "WFS_SRVE_CDM_ITEMSTAKEN"
    then some (cash, "Checkpoint(Taken)")
    else if str_eq code "WFS_SRVE_PTR_MEDIAPRESENTED"
    then some (receipt, "Checkpoint(Printed)")
    else none

-- `n <= m` of the lengths of a PIN.
abbrev pub is_pin_shape : List ℕ → Bool
is_pin_shape ds = leb 4 (length ds) && leb (length ds) 12

abbrev pub insert_step : MacroStep → List MacroStep → List MacroStep
insert_step s [] = s ∷ []
insert_step s (t ∷ ts) =
    let rest = insert_step s ts in if leb s.order t.order then s ∷ t ∷ ts else t ∷ rest

-- A stable sort by order.
unfoldable pub sort_steps : List MacroStep → List MacroStep
sort_steps [] = []
sort_steps (s ∷ ss) = insert_step s (sort_steps ss)

abbrev pub with_buffer : List ℕ → Recording → Recording
with_buffer ds r = record {
  macro_id = r.macro_id;
  steps = r.steps;
  counter = r.counter;
  digit_buffer = ds;
  absorb_next_enter = r.absorb_next_enter;
}

abbrev pub with_absorb : Bool → Recording → Recording
with_absorb b r = record {
  macro_id = r.macro_id;
  steps = r.steps;
  counter = r.counter;
  digit_buffer = r.digit_buffer;
  absorb_next_enter = b;
}

abbrev pub pin_label : ℕ → MacroParameter
pin_label n = record {
  name = "pin";
  type = variable_type;
  value = text "Card.pin";
  display_label = some (digit_count n);
}

abbrev pub pin_parameter : List ℕ → MacroParameter
pin_parameter ds = pin_label (length ds)

abbrev pub reason_parameters : Option String → List MacroParameter
reason_parameters none = []
reason_parameters (some reason) =
    if str_eq reason "" then [] else parameter "reason" string_type (text reason) ∷ []

abbrev pub card_parameter : String → MacroParameter
card_parameter pan = record {
  name = "pan";
  type = string_type;
  value = text pan;
  display_label = some (plain pan);
}

module _ (random_uuid : ℕ → String) where
  abbrev pub push_step :
      MacroStepKind → MacroDevice → String → List MacroParameter → Recording → Recording
  push_step kind device operation parameters r = record {
    macro_id = r.macro_id;
    steps =
        r.steps
        ++ (record {
          id = random_uuid r.counter;
          order = r.counter;
          kind = kind;
          device = device;
          operation = operation;
          parameters = parameters;
          enabled = true;
        }
            ∷ []);
    counter = suc r.counter;
    digit_buffer = r.digit_buffer;
    absorb_next_enter = r.absorb_next_enter;
  }

  abbrev pub flush_digits : List ℕ → Recording → Recording
  flush_digits [] r = r
  flush_digits (d ∷ ds) r =
      if is_pin_shape (d ∷ ds)
      then with_absorb true
          (push_step action pin_pad "EnterPin" (pin_parameter (d ∷ ds) ∷ []) (with_buffer [] r))
      else push_step action pin_pad "KeyPressed"
          (parameter "key" string_type (digits (d ∷ ds)) ∷ []) (with_buffer [] r)

  unfoldable pub flush_digit_buffer : Recording → Recording
  flush_digit_buffer r = flush_digits r.digit_buffer r

  abbrev pub press_control : String → Recording → Recording
  press_control key r =
      push_step action pin_pad "KeyPressed" (parameter "key" string_type (text key) ∷ [])
        (with_absorb false r)

  abbrev pub press_enter : Recording → Recording
  press_enter r = if r.absorb_next_enter then with_absorb false r else press_control "ENTER" r

  abbrev pub press : Key → Recording → Recording
  press (digit d) r = with_buffer (r.digit_buffer ++ (d ∷ [])) r
  press enter r = press_enter (flush_digit_buffer r)
  press (control key) r = press_control key (flush_digit_buffer r)

  unfoldable pub on_action : UserAction → Recording → Recording
  on_action (card_insert pan) r =
      push_step action card "Insert" []
        (push_step action card "Select" (card_parameter pan ∷ []) (flush_digit_buffer r))
  on_action (key_press key) r = press key r
  on_action (select_transaction txn) r =
      push_step action system "SelectTransaction" (parameter "txnType" string_type (text txn) ∷ [])
        (flush_digit_buffer r)
  on_action (submit_amount n) r =
      push_step action system "SubmitAmount" (parameter "amount" number_type (number n) ∷ [])
        (flush_digit_buffer r)
  on_action confirm r = push_step action system "Confirm" [] (flush_digit_buffer r)
  on_action (cancel reason) r =
      push_step action system "Cancel" (reason_parameters reason) (flush_digit_buffer r)

  abbrev pub add_checkpoint : Option (MacroDevice × String) → Recording → Recording
  add_checkpoint none r = r
  add_checkpoint (some (device, operation)) r =
      push_step checkpoint device operation [] (flush_digit_buffer r)

  -- `onUserAction` and `onXfsEvent`
  unfoldable pub on_user_action : UserAction → Recorder → Recorder
  on_user_action a none = none
  on_user_action a (some r) = some (on_action a r)

  unfoldable pub on_xfs_event : String → Recorder → Recorder
  on_xfs_event code none = none
  on_xfs_event code (some r) = some (add_checkpoint (event_to_checkpoint code) r)

  -- The steps that are written to the macro; `saved` is whether the database takes them.
  unfoldable pub stop_recording : Bool → Recorder → Option (List MacroStep) × Recorder
  stop_recording saved none = (none, none)
  stop_recording true (some r) = (some (sort_steps (flush_digit_buffer r).steps), none)
  stop_recording false (some r) = (none, some (flush_digit_buffer r))

-- `status`: the macro, and the number of steps with the digits to come as one.
abbrev pub status : Recorder → Option (String × ℕ)
status none = none
status (some r) =
    some (r.macro_id, length r.steps + (if ltb 0 (length r.digit_buffer) then 1 else 0))
