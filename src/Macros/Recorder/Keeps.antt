-- ===== src/Macros/Recorder/Keeps.antt =====
-- apps/xfs-server/src/macros/macro-recorder.service.ts: what every action and event keeps of a recording.
use atm_xfs_simulator.Common.{
  ℕ, ◌≡◌, refl, String, Bool, true, false, Option, none, some, List, [], ◌∷◌, ◌++◌, if_cases,
}
use atm_xfs_simulator.Macros.{
  MacroStepKind, MacroDevice, MacroParameter, UserAction, Key, digit, enter, control, card_insert,
  key_press, select_transaction, submit_amount, confirm, cancel, action, pin_pad, card, digits,
  string_type,
}
use atm_xfs_simulator.Macros.Recorder.{
  Recording, Recorder, push_step, with_buffer, with_absorb, flush_digits, flush_digit_buffer, press,
  press_control, on_action, on_user_action, on_xfs_event, add_checkpoint, event_to_checkpoint,
  is_pin_shape, pin_parameter, parameter, card_parameter,
}

-- What reaches the recorder while it records.
pub data Input : Type 0 where
  user : UserAction → Input
  event : (code : String) → Input

abbrev pub receive : (ℕ → String) → Recorder → Input → Recorder
receive uuid r (user a) = on_user_action uuid a r
receive uuid r (event code) = on_xfs_event uuid code r

abbrev pub record_all : (ℕ → String) → Recorder → List Input → Recorder
record_all uuid r [] = r
record_all uuid r (i ∷ is) = record_all uuid (receive uuid r i) is

-- A property that survives a new step and any change of the two flags survives all inputs.
module _ (uuid : ℕ → String) (P : Recording → Type 0)
    (buffer_keeps : (ds : List ℕ) (r : Recording) → P r → P (with_buffer ds r))
    (absorb_keeps : (b : Bool) (r : Recording) → P r → P (with_absorb b r))
    (push_step-keeps : (kind : MacroStepKind) (device : MacroDevice) (operation : String)
        (ps : List MacroParameter) (r : Recording)
      → P r
      → P (push_step uuid kind device operation ps r)) where
  flush_digits-keeps : (ds : List ℕ) (r : Recording) → P r → P (flush_digits uuid ds r)
  flush_digits-keeps [] r h = h
  flush_digits-keeps (d ∷ ds) r h =
      let pin =
        push_step uuid action pin_pad "EnterPin" (pin_parameter (d ∷ ds) ∷ []) (with_buffer [] r) in
      let keys =
        push_step uuid action pin_pad "KeyPressed"
          (parameter "key" string_type (digits (d ∷ ds)) ∷ []) (with_buffer [] r) in
      if_cases P (is_pin_shape (d ∷ ds)) (with_absorb true pin) keys
        (λ short.
          absorb_keeps true pin (push_step-keeps _ _ _ _ (with_buffer [] r) (buffer_keeps [] r h)))
        (λ long. push_step-keeps _ _ _ _ (with_buffer [] r) (buffer_keeps [] r h))

  pub flush-keeps : (r : Recording) → P r → P (flush_digit_buffer uuid r)
  unfolding flush_digit_buffer
  flush-keeps r h = flush_digits-keeps r.digit_buffer r h

  flush_push-keeps :
      (kind : MacroStepKind) (device : MacroDevice) (operation : String) (ps : List MacroParameter)
      (r : Recording)
      → P r
      → P (push_step uuid kind device operation ps (flush_digit_buffer uuid r))
  flush_push-keeps kind device operation ps r h =
      push_step-keeps kind device operation ps (flush_digit_buffer uuid r) (flush-keeps r h)

  press-keeps : (key : Key) (r : Recording) → P r → P (press uuid key r)
  press-keeps (digit d) r h = buffer_keeps (r.digit_buffer ++ (d ∷ [])) r h
  press-keeps enter r h =
      let f = flush_digit_buffer uuid r in
      let kept = absorb_keeps false f (flush-keeps r h) in
      if_cases P f.absorb_next_enter (with_absorb false f) (press_control uuid "ENTER" f)
        (λ absorbed. kept) (λ sent. push_step-keeps _ _ _ _ (with_absorb false f) kept)
  press-keeps (control key) r h =
      let f = flush_digit_buffer uuid r in
      push_step-keeps _ _ _ _ (with_absorb false f) (absorb_keeps false f (flush-keeps r h))

  on_action-keeps : (a : UserAction) (r : Recording) → P r → P (on_action uuid a r)
  unfolding on_action
  on_action-keeps (card_insert pan) r h =
      push_step-keeps _ _ _ _
        (push_step uuid action card "Select" (card_parameter pan ∷ []) (flush_digit_buffer uuid r))
        (flush_push-keeps _ _ _ _ r h)
  on_action-keeps (key_press key) r h = press-keeps key r h
  on_action-keeps (select_transaction txn) r h = flush_push-keeps _ _ _ _ r h
  on_action-keeps (submit_amount n) r h = flush_push-keeps _ _ _ _ r h
  on_action-keeps confirm r h = flush_push-keeps _ _ _ _ r h
  on_action-keeps (cancel reason) r h = flush_push-keeps _ _ _ _ r h

  pub add_checkpoint-keeps :
      (o : Option (MacroDevice × String)) (r : Recording) → P r → P (add_checkpoint uuid o r)
  add_checkpoint-keeps none r h = h
  add_checkpoint-keeps (some (device, operation)) r h = flush_push-keeps _ _ _ _ r h

  pub record_all-keeps :
      (is : List Input) (r : Recording)
      → P r
      → (r' : Recording) × (record_all uuid (some r) is ≡ some r') × P r'
  unfolding on_user_action on_xfs_event
  record_all-keeps [] r h = (r, refl, h)
  record_all-keeps (user a ∷ is) r h =
      record_all-keeps is (on_action uuid a r) (on_action-keeps a r h)
  record_all-keeps (event code ∷ is) r h =
      record_all-keeps is (add_checkpoint uuid (event_to_checkpoint code) r)
        (add_checkpoint-keeps (event_to_checkpoint code) r h)
