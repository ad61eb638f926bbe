-- ===== src/Atm/Flow.antt =====
-- apps/xfs-server/src/atm/atm-app.service.ts: the handlers of a card, a PIN, a choice and an amount,
-- and the withdrawal and the balance that follow. `execute` of the manager answers an exception of a
-- device by an error code, so a device's error is a value here.
use atm_xfs_simulator.Common.{
  ℕ, ◌+◌, ◌%◌, String, Bool, true, false, ◌&&◌, ◌||◌, Option, none, some, List, [], ◌∷◌, Result, ok,
  err, if◌then◌else◌, leb, ◌==◌, not,
}
use atm_xfs_simulator.Common.Number.{Number, natural}
use atm_xfs_simulator.Iso.{IsoResponseCode, is_approved}
use atm_xfs_simulator.Shared.Pin.{Crypto}
use atm_xfs_simulator.Idc.{VirtualCard, IdcCommand, IdcAnswer, IdcError}
use atm_xfs_simulator.Idc
use atm_xfs_simulator.Pinpad.{PinCommand, PinGetPinPayload, Key}
use atm_xfs_simulator.Pinpad
use atm_xfs_simulator.Ptr.{PtrCommand, PtrFormName, PtrPrintFormPayload}
use atm_xfs_simulator.Ptr
use atm_xfs_simulator.Host.{
  HostError, AuthResult, AuthorizationResult, BalanceResult, WithdrawalRequest, Reversal,
}
use atm_xfs_simulator.Host
use atm_xfs_simulator.Atm.{
  Atm, AtmSession, AtmState, AtmTxnType, AtmError, EndReason, Env, state_changed, session_active,
  wrong_state, bad_amount, db_lost, emit, armed, transition_to, safe_eject, end_session, mark_error,
}

abbrev pub new_session : String → String → AtmSession
new_session id pan = record {
  id = id;
  state = AtmState.card_inserted;
  card_pan = pan;
  account_id = none;
  selected_txn = none;
  amount = none;
  stan_no = none;
  failed_pin_attempts = 0;
  end_reason = none;
}

-- `notifyState('IDLE')` for the new session.
abbrev pub notify : AtmSession → Atm → Atm
notify s a =
    emit (state_changed AtmState.idle s.state) (record a { idle_timer = armed s.state s.id })

abbrev pub set_account : Option String → Option AtmSession → Option AtmSession
set_account account none = none
set_account account (some s) = some (record s { account_id = account })

abbrev pub card_checked : Env → Result HostError AuthResult → Atm → Result AtmError (Unit {0}) × Atm
card_checked env (err e) a = (err db_lost, a)
card_checked env (ok auth) a =
    if auth.success
    then (
      ok tt,
      transition_to AtmState.pin_entry
          (record a { session = set_account auth.account_id a.session }),
    )
    else mark_error env a

abbrev pub card_read :
    Env → String → Result IdcError IdcAnswer → Atm → Result AtmError (Unit {0}) × Atm
card_read env pan (err e) a = mark_error env a
card_read env pan (ok answer) a = card_checked env (Host.authenticate env.host_env pan a.host) a

abbrev pub card_taken : Env → String → Bool → Atm → Result AtmError (Unit {0}) × Atm
card_taken env pan false a = mark_error env a
card_taken env pan true a =
    let (answer, idc) = Idc.execute_command IdcCommand.read_track a.idc in
    card_read env pan answer (record a { idc = idc })

-- `id` is the new session's. When its row cannot be created, the session is there all the same.
abbrev pub insert_in :
    Option AtmSession
    → Env
    → (id pan : String) → VirtualCard
    → Atm
    → Result AtmError (Unit {0}) × Atm
insert_in (some s) env id pan card a = (err session_active, a)
insert_in none env id pan card a =
    let s = new_session id pan in
    let opened = record a { session = some s } in
    if env.host_env.db_up
    then (let noted = notify s opened in
        let (taken, idc) = Idc.insert_card card noted.idc in
        card_taken env pan taken (record noted { idc = idc }))
    else (err db_lost, opened)

unfoldable pub on_card_inserted :
    Env → (id pan : String) → VirtualCard → Atm → Result AtmError (Unit {0}) × Atm
on_card_inserted env id pan card a = insert_in a.session env id pan card a

abbrev pub in_pin_entry : AtmState → Bool
in_pin_entry AtmState.pin_entry = true
in_pin_entry _ = false

abbrev pub in_main_menu : AtmState → Bool
in_main_menu AtmState.main_menu = true
in_main_menu _ = false

abbrev pub in_amount_entry : AtmState → Bool
in_amount_entry AtmState.amount_entry = true
in_amount_entry _ = false

abbrev pub in_confirming : AtmState → Bool
in_confirming AtmState.confirming = true
in_confirming _ = false

abbrev pub pin_payload : PinGetPinPayload
pin_payload = record { min_len = 4; max_len = 6; auto_end = false; terminate_keys = Key.enter ∷ [] }

-- Up to the await: the answer of the pad comes by its keys, and `verify_pin_buffer` goes on from it,
-- whatever it was, since `execute` of the manager throws no exception.
abbrev pub begin_in :
    (List ℕ → List ℕ → List ℕ) → Option AtmSession → Atm → Result AtmError (Unit {0}) × Atm
begin_in des none a = (err wrong_state, a)
begin_in des (some s) a =
    if in_pin_entry s.state
    then (
      ok tt,
      record a {
        pinpad = (Pinpad.execute_command des (PinCommand.get_pin pin_payload) a.pinpad).1;
      },
    )
    else (err wrong_state, a)

unfoldable pub begin_pin_entry : (List ℕ → List ℕ → List ℕ) → Atm → Result AtmError (Unit {0}) × Atm
begin_pin_entry des a = begin_in des a.session a

abbrev pub retained : Env → Result HostError (Unit {0}) → Atm → Result AtmError (Unit {0}) × Atm
retained env (err e) a = (err db_lost, a)
retained env (ok done) a = end_session env EndReason.in_error (transition_to AtmState.failed a)

unfoldable pub retain_card : Env → AtmSession → Atm → Result AtmError (Unit {0}) × Atm
retain_card env s a =
    let idc = (Idc.execute_command IdcCommand.retain_card a.idc).1 in
    let (answer, host) = Host.retain_card env.host_env s.card_pan a.host in
    retained env answer (record a { idc = idc; host = host })

abbrev pub is_exceeded : IsoResponseCode → Bool
is_exceeded IsoResponseCode.pin_tries_exceeded = true
is_exceeded _ = false

abbrev pub not_verified : Result AtmError (Unit {0}) × Atm → Result AtmError Bool × Atm
not_verified (err e, a) = (err e, a)
not_verified (ok done, a) = (ok false, a)

abbrev pub pin_checked :
    Env → AtmSession → Result HostError AuthResult → Atm → Result AtmError Bool × Atm
pin_checked env s (err e) a = (err db_lost, a)
pin_checked env s (ok result) a =
    let s' = record s { failed_pin_attempts = s.failed_pin_attempts + 1 } in
    let counted = record a { session = some s' } in
    if result.success
    then (ok true, transition_to AtmState.main_menu (transition_to AtmState.pin_verified a))
    else if leb 3 s'.failed_pin_attempts || is_exceeded result.response_code
    then not_verified (retain_card env s' counted)
    else (ok false, counted)

module _ (k : Crypto) where
  abbrev pub check_buffer : Env → AtmSession → List ℕ → Atm → Result AtmError Bool × Atm
  check_buffer env s [] a = (ok false, a)
  check_buffer env s (c ∷ pin) a =
      let (result, host) = Host.verify_card_pin k env.host_env s.card_pan (c ∷ pin) a.host in
      pin_checked env s result (record a { host = host })

  abbrev pub verify_in : Option AtmSession → Env → Atm → Result AtmError Bool × Atm
  verify_in none env a = (ok false, a)
  verify_in (some s) env a =
      let (entered, pinpad) = Pinpad.extract_entered_pin a.pinpad in
      check_buffer env s entered (record a { pinpad = pinpad })

  -- In any state. The answer says whether the PIN was verified.
  unfoldable pub verify_pin_buffer : Env → Atm → Result AtmError Bool × Atm
  verify_pin_buffer env a = verify_in a.session env a

-- A receipt that is not printed is no error.
abbrev pub print_receipt : Env → AtmSession → Option ℕ → Option ℕ → Atm → Atm
print_receipt env s stan amount a = record a {
  ptr =
      (Ptr.execute_command env.ptr_env
        (PtrCommand.form (record {
          form_name = PtrFormName.receipt;
          fields = env.receipt_fields s.card_pan stan amount;
        }))
        a.ptr).1;
}

-- The receipt, the card, and the end.
abbrev pub finish : Env → AtmSession → Option ℕ → Option ℕ → Atm → Result AtmError (Unit {0}) × Atm
finish env s stan amount a = end_session env EndReason.completed (
    safe_eject (
      transition_to AtmState.ejecting
        (print_receipt env s stan amount (transition_to AtmState.printing a))))

abbrev pub balance_read :
    Env → AtmSession → Result HostError BalanceResult → Atm → Result AtmError (Unit {0}) × Atm
balance_read env s (err e) a = (err db_lost, a)
balance_read env s (ok answer) a =
    if is_approved answer.response_code then finish env s none none a else mark_error env a

unfoldable pub process_balance : Env → AtmSession → Atm → Result AtmError (Unit {0}) × Atm
process_balance env s a =
    balance_read env s (Host.get_balance env.host_env s.card_pan a.host)
      (transition_to AtmState.processing a)

abbrev pub chosen : Env → AtmTxnType → AtmSession → Atm → Result AtmError (Unit {0}) × Atm
chosen env AtmTxnType.balance s a = process_balance env s a
chosen env AtmTxnType.withdrawal s a = (ok tt, transition_to AtmState.amount_entry a)
chosen env _ s a = mark_error env a

abbrev pub select_in : Option AtmSession → Env → AtmTxnType → Atm → Result AtmError (Unit {0}) × Atm
select_in none env txn a = (err wrong_state, a)
select_in (some s) env txn a =
    if in_main_menu s.state
    then (let s' = record s { selected_txn = some txn } in
        chosen env txn s' (record a { session = some s' }))
    else (err wrong_state, a)

unfoldable pub select_transaction : Env → AtmTxnType → Atm → Result AtmError (Unit {0}) × Atm
select_transaction env txn a = select_in a.session env txn a

-- A positive multiple of 20000.
abbrev pub accepted_amount : Number → Option ℕ
accepted_amount x = elim (natural x) [
  | none ↦ none
  | some n ↦ if not (n == 0) && n % 20000 == 0 then some n else none
]

abbrev pub amount_in : AtmSession → Option ℕ → Atm → Result AtmError (Unit {0}) × Atm
amount_in s none a = (err bad_amount, a)
amount_in s (some n) a = (
  ok tt,
  transition_to AtmState.confirming (record a { session = some (record s { amount = some n }) }),
)

abbrev pub submit_in : Option AtmSession → Number → Atm → Result AtmError (Unit {0}) × Atm
submit_in none x a = (err wrong_state, a)
submit_in (some s) x a =
    if in_amount_entry s.state then amount_in s (accepted_amount x) a else (err wrong_state, a)

unfoldable pub submit_amount : Number → Atm → Result AtmError (Unit {0}) × Atm
submit_amount x a = submit_in a.session x a
