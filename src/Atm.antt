-- ===== src/Atm.antt =====
-- apps/xfs-server/src/atm/atm-app.service.ts: the session, over the devices and the host. A handler
-- runs to its end in one call, but for a withdrawal, which is cut at its two awaits: `confirm` ends
-- before the host is asked, `authorized` before the dispenser is asked, and other calls may come in
-- between. An exception of the database leaves the state as it was when it was thrown.
mod Tests
pub mod Flow
pub mod Withdrawal
pub mod Cancel
pub mod Reversal
pub mod Entry
use atm_xfs_simulator.Common.{
  ℕ, ◌+◌, ◌%◌, String, Bool, true, false, ◌&&◌, ◌||◌, Option, none, some, List, [], ◌∷◌, ◌++◌,
  Result, ok, err, if◌then◌else◌, ltb, leb, ◌==◌, str_eq,
}
use atm_xfs_simulator.Iso.{IsoResponseCode, is_approved}
use atm_xfs_simulator.Shared.Pin.{Crypto}
use atm_xfs_simulator.Idc.{Idc, VirtualCard, IdcCommand, IdcAnswer, IdcError}
use atm_xfs_simulator.Idc
use atm_xfs_simulator.Pinpad.{Pinpad}
use atm_xfs_simulator.Pinpad
use atm_xfs_simulator.Cdm.{Cdm, CdmCommand, CdmMixType, CdmDispensePayload, CdmAnswer}
use atm_xfs_simulator.Cdm
use atm_xfs_simulator.Cdm.Error.{CdmError}
use atm_xfs_simulator.Ptr.{Ptr, PtrCommand, PtrFormName, Fields}
use atm_xfs_simulator.Ptr
use atm_xfs_simulator.Host.{Host, HostError, AuthResult, AuthorizationResult, BalanceResult}
use atm_xfs_simulator.Host

pub data AtmState : Type 0 where
  idle card_inserted pin_entry pin_verified main_menu amount_entry confirming processing dispensing
        printing ejecting failed ended :
      AtmState

pub data AtmTxnType : Type 0 where
  withdrawal balance transfer deposit : AtmTxnType

pub data EndReason : Type 0 where
  completed cancelled timed_out in_error : EndReason

pub record AtmSession : Type 0 where
  pub id : String
  pub state : AtmState
  pub card_pan : String
  pub account_id : Option String
  pub selected_txn : Option AtmTxnType
  pub amount : Option ℕ
  pub stan_no : Option ℕ
  pub failed_pin_attempts : ℕ
  pub end_reason : Option EndReason

pub data AtmEvent : Type 0 where
  state_changed : (previous next : AtmState) → AtmEvent
  session_ended : String → EndReason → AtmEvent

-- `idle_timer` has the session for which the watchdog is armed.
pub record Atm : Type 0 where
  pub session : Option AtmSession
  pub idle_timer : Option String
  pub idc : Idc
  pub pinpad : Pinpad
  pub cdm : Cdm
  pub ptr : Ptr
  pub host : Host
  pub emitted : List AtmEvent

-- `db_lost` is an exception of the database, and `no_session` a field of `null`.
pub data AtmError : Type 0 where
  session_active wrong_state bad_amount db_lost no_session : AtmError

-- `receipt_fields` gives the fields of a form from the PAN, the STAN and the two amounts.
pub record Env : Type 0 where
  pub host_env : Host.Env
  pub ptr_env : Ptr.Env
  pub receipt_fields : String → Option ℕ → Option ℕ → Fields

abbrev pub waits_for_user : AtmState → Bool
waits_for_user AtmState.card_inserted = true
waits_for_user AtmState.pin_entry = true
waits_for_user AtmState.pin_verified = true
waits_for_user AtmState.main_menu = true
waits_for_user AtmState.amount_entry = true
waits_for_user AtmState.confirming = true
waits_for_user _ = false

abbrev pub emit : AtmEvent → Atm → Atm
emit e a = record a { emitted = a.emitted ++ e ∷ [] }

abbrev pub armed : AtmState → String → Option String
armed state id = if waits_for_user state then some id else none

-- `transitionTo` in the session `s`.
abbrev pub move : AtmState → AtmSession → Atm → Atm
move next s a =
    emit (state_changed s.state next)
      (record a { session = some (record s { state = next }); idle_timer = armed next s.id })

abbrev pub transition_in : Option AtmSession → AtmState → Atm → Atm
transition_in none next a = a
transition_in (some s) next a = move next s a

unfoldable pub transition_to : AtmState → Atm → Atm
transition_to next a = transition_in a.session next a

-- The answer of EJECT_CARD is not looked at.
unfoldable pub safe_eject : Atm → Atm
safe_eject a =
    if Idc.has_card a.idc
    then record a { idc = (Idc.execute_command IdcCommand.eject_card a.idc).1 }
    else a

-- When the update of the row fails, the session stays, with its reason and no timer.
abbrev pub end_in : Option AtmSession → Bool → EndReason → Atm → Result AtmError (Unit {0}) × Atm
end_in none up reason a = (ok tt, a)
end_in (some s) up reason a =
    let s' = record s { end_reason = some reason } in
    let a' = record a { session = some s'; idle_timer = none } in
    if up
    then (
      ok tt,
      emit (session_ended s.id reason) (record (move AtmState.ended s' a') { session = none }),
    )
    else (err db_lost, a')

unfoldable pub end_session : Env → EndReason → Atm → Result AtmError (Unit {0}) × Atm
end_session env reason a = end_in a.session env.host_env.db_up reason a

abbrev pub error_in : Option AtmSession → Env → EndReason → Atm → Result AtmError (Unit {0}) × Atm
error_in none env reason a = (ok tt, a)
error_in (some s) env reason a =
    end_session env reason (safe_eject (transition_to AtmState.failed a))

unfoldable pub mark_error : Env → Atm → Result AtmError (Unit {0}) × Atm
mark_error env a = error_in a.session env EndReason.in_error a

-- The watchdog does nothing for a session that is over.
abbrev pub timeout_in :
    Option AtmSession → Option String → Env → Atm → Result AtmError (Unit {0}) × Atm
timeout_in (some s) (some id) env a =
    if str_eq s.id id then error_in (some s) env EndReason.timed_out a else (ok tt, a)
timeout_in _ _ env a = (ok tt, a)

unfoldable pub idle_timeout : Env → Atm → Result AtmError (Unit {0}) × Atm
idle_timeout env a = timeout_in a.session a.idle_timer env a

abbrev pub cancel_in : Option AtmSession → Env → Atm → Result AtmError (Unit {0}) × Atm
cancel_in none env a = (ok tt, a)
cancel_in (some s) env a = end_session env EndReason.cancelled (safe_eject a)

-- In any state.
unfoldable pub cancel_transaction : Env → Atm → Result AtmError (Unit {0}) × Atm
cancel_transaction env a = cancel_in a.session env a
