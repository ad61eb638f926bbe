-- ===== src/Macros/Runner/Checkpoints.antt =====
-- apps/xfs-server/src/macros/macro-runner.service.ts, `executeStep`: what a checkpoint that passes says of
-- the ATM.
use atm_xfs_simulator.Common.{
  ℕ, ◌≡◌, refl, subst, sym, ◌<◌, String, str_eq, eq_iff, Bool, true, false, Option, none, some,
  List, Result, ok, err, inl, inr, arith, ltb, ◌⊎◌, not, if◌then◌else◌,
}
unfoldable use package.text.Mathlib.Text.{starts_with}
use atm_xfs_simulator.Macros.{
  MacroStep, MacroStepKind, MacroDevice, MacroParameter, checkpoint, card, pin_pad, cash, receipt,
  screen, system,
}
use atm_xfs_simulator.Macros.Op.{Op, and_then, pure, ◌>>=◌}
use atm_xfs_simulator.Macros.Runner.{
  Environment, LastTransaction, find_value, param_map, or_text, or_string,
}
use atm_xfs_simulator.Macros.Runner.Steps.{
  World, execute_step, device_step, card_step, cash_step, receipt_step, system_step, check, missing,
}

-- The upper case of a parameter's text, which may be missing.
abbrev pub expected_text : {S : Type 0} → Environment S → String → List MacroParameter → String
expected_text env name ps = env.upper_case (or_text env.text_of (find_value name (param_map ps)) "")

-- What the checkpoint of a device and an operation looks at, found in the state `s`.
pub data IsHeld {S : Type 0} (env : Environment S) (step : MacroStep) (s : S) : Type 0 where
  card_is_in :
      step.device ≡ card
      → starts_with step.operation "Checkpoint(Insert" ≡ true
      → env.has_card s ≡ true
      → IsHeld env step s
  card_is_readable :
      step.device ≡ card
      → starts_with step.operation "Checkpoint(ReadTracks" ≡ true
      → env.has_current_card s ≡ true
      → IsHeld env step s
  card_is_out :
      step.device ≡ card
      → starts_with step.operation "Checkpoint(Ejected" ≡ true
      → env.has_card s ≡ false
      → IsHeld env step s
  cash_answers :
      (s' : S)
      → step.device ≡ cash
      → starts_with step.operation "Checkpoint(NotesPresented" ≡ true
      → env.cash_unit_info s ≡ (ok tt, s')
      → IsHeld env step s
  receipt_is_printed :
      step.device ≡ receipt
      → starts_with step.operation "Checkpoint(Printed" ≡ true
      → 0 < env.receipts s
      → IsHeld env step s
  session_is_in :
      step.device ≡ system
      → starts_with step.operation "Checkpoint(SessionState" ≡ true
      → env.upper_case (or_string (env.session_state s) "ENDED")
        ≡ expected_text env "expected" step.parameters
      → IsHeld env step s
  transaction_is :
      (t : LastTransaction) (s' : S)
      → step.device ≡ system
      → starts_with step.operation "Checkpoint(LastTransaction" ≡ true
      → env.last_transaction s ≡ (ok (some t), s')
      → env.upper_case t.status ≡ expected_text env "status" step.parameters
      → IsHeld env step s

-- The branch that was taken.
taken :
    {W A : Type 0} (m n : Op W A) (b : Bool) (w : W) (r : Result String A × W)
    → (if b then m else n) w ≡ r
    → ((b ≡ true) × (m w ≡ r)) ⊎ (n w ≡ r)
taken m n true w r e = inl (refl, e)
taken m n false w r e = inr e

not-true : (b : Bool) → not b ≡ true → b ≡ false
not-true true e = cc
not-true false e = refl

module _ {S : Type 0} (env : Environment S) (w : World env) (message : String)
    (w' : World env) where
  not_thrown :
      {e : String} {w'' : World env}
      → ◌≡◌ {A = Result String String × World env} (err e, w'') (ok message, w')
      → ⊥
  not_thrown {e} {w''} h = cc

  check-passed :
      (v : World env) (b : Bool) (e m : String) → check env b e m v ≡ (ok message, w') → b ≡ true
  check-passed v true e m h = refl
  check-passed v false e m h = absurd (not_thrown h)

  module _ (id : String) (order : ℕ) (operation : String) (parameters : List MacroParameter)
      (enabled : Bool) where
    abbrev at : MacroDevice → MacroStep
    at device = record {
      id = id;
      order = order;
      kind = checkpoint;
      device = device;
      operation = operation;
      parameters = parameters;
      enabled = enabled;
    }

    cash_answered :
        starts_with operation "Checkpoint(NotesPresented" ≡ true
        → (x : Result {0, 0} String Unit × S) → env.cash_unit_info (w.1) ≡ x
        → and_then {B = String} (x.0, (w.0, x.1)) (λ u. pure "notes presented") ≡ (ok message, w')
        → IsHeld env (at cash) (w.1)
    cash_answered here (ok u, s) same c = cash_answers s refl here same
    cash_answered here (err e, s) same c = absurd (not_thrown c)

    card-IsHeld :
        card_step env (at card) (param_map parameters) w ≡ (ok message, w')
        → IsHeld env (at card) (w.1)
    card-IsHeld e =
        elim (taken _ _ (starts_with operation "Checkpoint(Insert") w (ok message, w') e) [
          | inl (here, c) ↦
              card_is_in refl here
                (check-passed w (env.has_card (w.1)) "no card in reader" "card inserted" c)
          | inr e2 ↦
              elim (taken _ _ (starts_with operation "Checkpoint(ReadTracks") w (ok message, w')
                e2) [
                  | inl (here, c) ↦ card_is_readable refl here (
                      check-passed w (env.has_current_card (w.1)) "no card to read tracks from"
                        "tracks readable" c)
                  | inr e3 ↦
                      elim (taken _ _ (starts_with operation "Checkpoint(Ejected") w
                        (ok message, w') e3) [
                          | inl (here, c) ↦ card_is_out refl here (
                              not-true (env.has_card (w.1)) (
                                check-passed w (not (env.has_card (w.1))) "card still in reader"
                                  "card ejected" c))
                          | inr thrown ↦ absurd (not_thrown thrown)
                        ]
                ]
        ]

    cash-IsHeld : cash_step env (at cash) w ≡ (ok message, w') → IsHeld env (at cash) (w.1)
    cash-IsHeld e =
        elim (taken _ _ (starts_with operation "Checkpoint(NotesPresented") w (ok message, w') e) [
          | inl (here, c) ↦ cash_answered here (env.cash_unit_info (w.1)) refl c
          | inr thrown ↦ absurd (not_thrown thrown)
        ]

    receipt-IsHeld :
        receipt_step env (at receipt) w ≡ (ok message, w') → IsHeld env (at receipt) (w.1)
    receipt-IsHeld e =
        elim (taken _ _ (starts_with operation "Checkpoint(Printed") w (ok message, w') e) [
          | inl (here, c) ↦
              let some_printed = check-passed w (ltb 0 (env.receipts (w.1))) _ _ c in
              receipt_is_printed refl here (ground arith)
          | inr thrown ↦ absurd (not_thrown thrown)
        ]

    transaction_found :
        (f : LastTransaction → Op (World env) String)
        (x : Result String (Option LastTransaction) × S)
        → env.last_transaction (w.1) ≡ x
        → and_then (x.0, (w.0, x.1)) (λ found. missing env "no transactions found" found >>= f)
          ≡ (ok message, w')
        → (t : LastTransaction) × (s' : S) × (env.last_transaction (w.1) ≡ (ok (some t), s'))
          × (f t (w.0, s') ≡ (ok message, w'))
    transaction_found f (ok (some t), s) same c = (t, s, same, c)
    transaction_found f (ok none, s) same c = absurd (not_thrown c)
    transaction_found f (err e, s) same c = absurd (not_thrown c)

    system-IsHeld :
        system_step env (at system) (param_map parameters) w ≡ (ok message, w')
        → IsHeld env (at system) (w.1)
    system-IsHeld e =
        let wanted = expected_text env "expected" parameters in
        let status = expected_text env "status" parameters in
        let actual = env.upper_case (or_string (env.session_state (w.1)) "ENDED") in
        elim (taken _ _ (starts_with operation "Checkpoint(SessionState") w (ok message, w') e) [
          | inl (here, c) ↦
              session_is_in refl here
                ((eq_iff actual wanted).0 (check-passed w (str_eq actual wanted) _ _ c))
          | inr e2 ↦
              elim (taken _ _ (starts_with operation "Checkpoint(LastTransaction") w
                (ok message, w') e2) [
                  | inl (here, c) ↦
                      let (t, s', found, passed_check) =
                        transaction_found _ (env.last_transaction (w.1)) refl c in
                      transaction_is t s' refl here found (
                        (eq_iff (env.upper_case t.status) status).0 (
                          check-passed (w.0, s') (str_eq (env.upper_case t.status) status) _ _
                            passed_check))
                  | inr thrown ↦ absurd (not_thrown thrown)
                ]
        ]

    device-IsHeld :
        (device : MacroDevice)
        → device_step env device (at device) (param_map parameters) w ≡ (ok message, w')
        → IsHeld env (at device) (w.1)
    device-IsHeld card e = card-IsHeld e
    device-IsHeld pin_pad e = absurd (not_thrown e)
    device-IsHeld cash e = cash-IsHeld e
    device-IsHeld receipt e = receipt-IsHeld e
    device-IsHeld screen e = absurd (not_thrown e)
    device-IsHeld system e = system-IsHeld e

  -- A checkpoint that passes has found what it looks at.
  pub execute_step-IsHeld :
      (step : MacroStep)
      → step.kind ≡ checkpoint
      → execute_step env step w ≡ (ok message, w')
      → IsHeld env step (w.1)
  unfolding execute_step
  execute_step-IsHeld step kind =
      let as_kind = λ (k : MacroStepKind). record step { kind = k } in
      subst
        (λ (k : MacroStepKind).
          execute_step env (as_kind k) w ≡ (ok message, w') → IsHeld env (as_kind k) (w.1))
        (sym kind)
        (device-IsHeld step.id step.order step.operation step.parameters step.enabled step.device)
