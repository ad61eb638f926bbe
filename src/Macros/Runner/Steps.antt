-- ===== src/Macros/Runner/Steps.antt =====
-- apps/xfs-server/src/macros/macro-runner.service.ts: `executeStep` and `resolveKey`. A world is the
-- context of the run and the state of the environment.
use atm_xfs_simulator.Common.{
  String, str_eq, Bool, true, false, ◌&&◌, not, Option, none, some, List, [], ◌∷◌, Result, ok, err,
  if◌then◌else◌, ltb, length,
}
use Prim.Native.String.{◌++◌, slice, len}
use mathlib.Core.List.{◌++◌ as append_list}
unfoldable use package.text.Mathlib.Text.{starts_with}
use atm_xfs_simulator.Common.Int.{negsuc, pos}
use atm_xfs_simulator.Common.Number.{int}
use atm_xfs_simulator.Macros.{
  MacroStep, MacroStepKind, MacroDevice, Value, action, checkpoint, assertion, wait, card, pin_pad,
  cash, receipt, screen, system, text, number,
}
use atm_xfs_simulator.Macros.Op.{Op, ◌>>=◌, pure, throw, change, look}
use atm_xfs_simulator.Macros.Runner.{
  VirtualCard, Device, Environment, MacroRunContext, find_value, param_map, or_text, or_value,
  or_number, or_string, are_digits, device_for,
}

abbrev pub is_action : MacroStep → String → Bool
is_action step name = elim step.kind [ action ↦ str_eq step.operation name | _ ↦ false ]

abbrev pub is_checkpoint : MacroStep → String → Bool
is_checkpoint step name = elim step.kind [
  | checkpoint ↦ starts_with step.operation name
  | _ ↦ false
]

abbrev pub is_wait : MacroStep → Bool
is_wait step = elim step.kind [ wait ↦ true | _ ↦ false ]

abbrev pub device_name : MacroDevice → String
device_name card = "Card"
device_name pin_pad = "PinPad"
device_name cash = "Cash"
device_name receipt = "Receipt"
device_name screen = "Screen"
device_name system = "System"

abbrev pub kind_name : MacroStepKind → String
kind_name action = "ACTION"
kind_name checkpoint = "CHECKPOINT"
kind_name assertion = "ASSERTION"
kind_name wait = "WAIT"

abbrev pub resolve_variable : (Value → String) → String → Option Value → Result String String
resolve_variable text_of name none = err ("variable " ++ name ++ " is unset")
resolve_variable text_of name (some v) = ok (text_of v)

module _ {S : Type 0} (env : Environment S) where
  abbrev pub World : Type 0
  World = MacroRunContext × S

  -- An operation of the environment, which leaves the context alone.
  abbrev pub lift : {A : Type 0} → Op S A → Op World A
  lift m w = let (r, s) = m (w.1) in (r, (w.0, s))

  abbrev pub resolve_key : String → Op World String
  resolve_key raw w =
      if str_eq raw "Card.pin"
      then (ok "111111", w)
      else if starts_with raw "$"
      then (
        resolve_variable env.text_of (slice raw 1 (len raw))
            (find_value (slice raw 1 (len raw)) w.0.variables),
        w,
      )
      else (ok raw, w)

  abbrev pub remember_card : VirtualCard → MacroRunContext → MacroRunContext
  remember_card c ctx = record {
    selected_pan = some c.pan;
    selected_card_pin = some c.pin;
    variables =
        append_list ctx.variables
          (("Card.pan", text c.pan) ∷ ("Card.cardholderName", text c.cardholder_name) ∷ []);
  }

  abbrev pub missing : {A : Type 0} → String → Option A → Op World A
  missing message none = throw message
  missing message (some a) = pure a

  abbrev pub check : Bool → String → String → Op World String
  check true message answer = pure answer
  check false message answer = throw message

  abbrev pub select_card : List (String × Value) → Op World String
  select_card params =
      let pan =
        or_text env.text_of (or_value (find_value "pan" params) (find_value "cardId" params)) "" in
      if str_eq pan "" then throw "Card: Select requires parameter \"pan\"" else do
        found ← lift (env.find_card pan)
        c ← missing ("no virtual card with pan " ++ pan) found
        change (λ w. (remember_card c (w.0), w.1)) ("selected " ++ c.pan)

  abbrev pub insert_card : Op World String
  insert_card = do
    selected ← look (λ w. w.0.selected_pan)
    pan ← missing "Card: Insert requires prior Card: Select" selected
    found ← lift (env.find_card pan)
    c ← missing "selected card disappeared" found
    _ ← lift (env.on_card_inserted c)
    pure ("inserted " ++ c.pan)

  abbrev pub press_all : List String → S → S
  press_all [] s = s
  press_all (c ∷ cs) s = press_all cs (env.press_key c s)

  -- Two digits or more are pressed one by one.
  abbrev pub is_many : List String → Bool
  is_many cs = ltb 1 (length cs) && are_digits cs

  abbrev pub press_keys : String → Op World String
  press_keys resolved =
      if is_many (env.characters resolved)
      then change (λ w. (w.0, press_all (env.characters resolved) (w.1)))
          ("pressed "
            ++ env.text_of (number (int (pos (length (env.characters resolved)))))
            ++ " digits")
      else change (λ w. (w.0, env.press_key resolved (w.1))) ("pressed " ++ resolved)

  abbrev pub key_pressed : List (String × Value) → Op World String
  key_pressed params = do
    resolved ← resolve_key (or_text env.text_of (find_value "key" params) "")
    press_keys resolved

  abbrev pub verified : String → Bool × Option String → Op World String
  verified resolved (true, reason) = pure (
      "pin "
      ++ env.text_of (number (int (pos (length (env.characters resolved)))))
      ++ "-digit verified")
  verified resolved (false, reason) = throw ("pin rejected: " ++ or_string reason "unknown")

  abbrev pub arm : Op World Bool
  arm w = let (armed, s) = env.wait_armed (env.start_pin_entry (w.1)) in (ok armed, (w.0, s))

  abbrev pub press_pin : String → Op World Unit
  press_pin resolved w =
      (ok tt, (w.0, env.press_key "ENTER" (press_all (env.characters resolved) (w.1))))

  abbrev pub enter_pin : List (String × Value) → Op World String
  enter_pin params = do
    resolved ← resolve_key (or_text env.text_of (find_value "pin" params) "Card.pin")
    armed ← arm
    _ ← check armed "pin device did not arm within 2s" ""
    _ ← press_pin resolved
    r ← lift env.finish_pin_entry
    verified resolved r

  abbrev pub on_device :
      (Device → S → S) → List (String × Value) → (String → String) → Op World String
  on_device f params message =
      let name = env.upper_case (or_text env.text_of (find_value "device" params) "") in
      do
        device ←
            missing ("unknown device for InjectError: " ++ name ++ " (use IDC|PIN|CDM|PTR)")
              (device_for name)
        change (λ w. (w.0, f device (w.1))) (message name)

  abbrev pub inject_xfs_error : List (String × Value) → Op World String
  inject_xfs_error params =
      let code = or_number env.number_of (find_value "errorCode" params) (int (negsuc 2)) in
      on_device (λ d. env.inject_error d code) params
        (λ name. "injected " ++ env.text_of (number code) ++ " on " ++ name)

  abbrev pub clear_xfs_error : List (String × Value) → Op World String
  clear_xfs_error params = on_device env.clear_error params (λ name. "cleared error on " ++ name)

  abbrev pub check_session : List (String × Value) → Op World String
  check_session params =
      let expected = env.upper_case (or_text env.text_of (find_value "expected" params) "") in
      do
        state ← look (λ w. env.session_state (w.1))
        let actual = env.upper_case (or_string state "ENDED")
        check (str_eq actual expected) ("expected session state=" ++ expected ++ ", got " ++ actual)
            ("state=" ++ actual)

  abbrev pub check_transaction : List (String × Value) → Op World String
  check_transaction params =
      let expected = env.upper_case (or_text env.text_of (find_value "status" params) "") in
      do
        found ← lift env.last_transaction
        tx ← missing "no transactions found" found
        check (str_eq (env.upper_case tx.status) expected)
            ("expected last txn status="
              ++ expected
              ++ ", got "
              ++ tx.status
              ++ " (reason: "
              ++ or_string tx.error_reason "n/a"
              ++ ")")
            ("last txn=" ++ tx.status ++ " stan=" ++ or_string tx.stan_no "-")

  abbrev pub unsupported : MacroStep → Op World String
  unsupported step = throw (
      "unsupported step: "
      ++ device_name step.device
      ++ ":"
      ++ kind_name step.kind
      ++ ":"
      ++ step.operation)

  abbrev pub card_step : MacroStep → List (String × Value) → Op World String
  card_step step params =
      if is_action step "Select"
      then select_card params
      else if is_action step "Insert"
      then insert_card
      else if is_checkpoint step "Checkpoint(Insert"
      then (λ w. check (env.has_card (w.1)) "no card in reader" "card inserted" w)
      else if is_checkpoint step "Checkpoint(ReadTracks"
      then (λ w.
          check (env.has_current_card (w.1)) "no card to read tracks from" "tracks readable" w)
      else if is_checkpoint step "Checkpoint(Ejected"
      then (λ w. check (not (env.has_card (w.1))) "card still in reader" "card ejected" w)
      else unsupported step

  abbrev pub pin_step : MacroStep → List (String × Value) → Op World String
  pin_step step params =
      if is_action step "BeginPin"
      then (lift env.begin_pin_entry >>= λ u. pure "pin entry started")
      else if is_action step "KeyPressed"
      then key_pressed params
      else if is_action step "EnterPin"
      then enter_pin params
      else unsupported step

  abbrev pub cash_step : MacroStep → Op World String
  cash_step step =
      if is_checkpoint step "Checkpoint(NotesPresented"
      then (lift env.cash_unit_info >>= λ u. pure "notes presented")
      else unsupported step

  abbrev pub receipt_step : MacroStep → Op World String
  receipt_step step =
      if is_checkpoint step "Checkpoint(Printed"
      then (λ w.
          check (ltb 0 (env.receipts (w.1))) "no receipts printed"
            (env.text_of (number (int (pos (env.receipts (w.1))))) ++ " receipts in history") w)
      else unsupported step

  abbrev pub system_step : MacroStep → List (String × Value) → Op World String
  system_step step params =
      if is_action step "SelectTransaction"
      then (lift (
            env.select_transaction (or_text env.text_of (find_value "txnType" params) "WITHDRAWAL"))
          >>= λ u.
              pure ("selected " ++ or_text env.text_of (find_value "txnType" params) "undefined"))
      else if is_action step "SubmitAmount"
      then (let amount = or_number env.number_of (find_value "amount" params) env.not_a_number in
          lift (env.submit_amount amount) >>= λ u. pure ("amount " ++ env.text_of (number amount)))
      else if is_action step "Confirm"
      then (lift env.confirm_transaction >>= λ u. pure "confirmed")
      else if is_action step "Cancel"
      then (lift (
            env.cancel_transaction
              (or_text env.text_of (find_value "reason" params) "macro cancel"))
          >>= λ u. pure "cancelled")
      else if is_wait step
      then (let ms = or_number env.number_of (find_value "ms" params) (int (pos 500)) in
          change (λ w. (w.0, env.wait_ms ms (w.1))) ("waited " ++ env.text_of (number ms) ++ "ms"))
      else if is_action step "InjectError"
      then inject_xfs_error params
      else if is_action step "ClearError"
      then clear_xfs_error params
      else if is_checkpoint step "Checkpoint(SessionState"
      then check_session params
      else if is_checkpoint step "Checkpoint(LastTransaction"
      then check_transaction params
      else unsupported step

  abbrev pub device_step : MacroDevice → MacroStep → List (String × Value) → Op World String
  device_step card step params = card_step step params
  device_step pin_pad step params = pin_step step params
  device_step cash step params = cash_step step
  device_step receipt step params = receipt_step step
  device_step screen step params = unsupported step
  device_step system step params = system_step step params

  unfoldable pub execute_step : MacroStep → Op World String
  execute_step step = device_step step.device step (param_map step.parameters)
