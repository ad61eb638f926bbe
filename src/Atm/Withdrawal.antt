-- ===== src/Atm/Withdrawal.antt =====
-- apps/xfs-server/src/atm/atm-app.service.ts, `confirmTransaction` and `processWithdrawal`, cut at the
-- two awaits: after each the code reads `this.session` again, whatever came in between.
use atm_xfs_simulator.Common.{
  ◌==◌, ℕ, String, true, Option, none, some, Result, ok, err, if◌then◌else◌,
}
use atm_xfs_simulator.Common.Int.{pos}
use atm_xfs_simulator.Common.Number.{Number, int, non_integer}
use atm_xfs_simulator.Cdm.{CdmCommand, CdmMixType, CdmDispensePayload, CdmAnswer}
use atm_xfs_simulator.Cdm
use atm_xfs_simulator.Cdm.Error.{CdmError}
use atm_xfs_simulator.Host.{HostError, AuthorizationResult, WithdrawalRequest}
use atm_xfs_simulator.Host
use atm_xfs_simulator.Atm.{
  Atm, AtmSession, AtmState, AtmTxnType, AtmError, Env, wrong_state, db_lost, no_session,
  transition_to, mark_error,
}
use atm_xfs_simulator.Atm.Flow.{in_confirming, finish}

abbrev pub request_of : AtmSession → ℕ → WithdrawalRequest
request_of s amount = record {
  pan = s.card_pan;
  amount = pos amount;
  session_id = s.id;
  switch_profile = none;
}

abbrev pub unsupported :
    Result AtmError (Unit {0}) × Atm → Result AtmError (Option WithdrawalRequest) × Atm
unsupported (err e, a) = (err e, a)
unsupported (ok done, a) = (ok none, a)

-- A withdrawal with an amount other than 0 goes on with a request to the host.
abbrev pub started :
    Env
    → AtmSession
    → Option AtmTxnType
    → Option ℕ
    → Atm
    → Result AtmError (Option WithdrawalRequest) × Atm
started env s (some AtmTxnType.withdrawal) (some amount) a =
    if amount == 0 then (ok none, a) else (ok (some (request_of s amount)), a)
started env s (some AtmTxnType.withdrawal) none a = (ok none, a)
started env s txn amount a = unsupported (mark_error env a)

abbrev pub confirm_in :
    Option AtmSession → Env → Atm → Result AtmError (Option WithdrawalRequest) × Atm
confirm_in none env a = (err wrong_state, a)
confirm_in (some s) env a =
    if in_confirming s.state
    then started env s s.selected_txn s.amount (transition_to AtmState.processing a)
    else (err wrong_state, a)

unfoldable pub confirm_transaction : Env → Atm → Result AtmError (Option WithdrawalRequest) × Atm
confirm_transaction env a = confirm_in a.session env a

unfoldable pub ask_host : Env → WithdrawalRequest → Atm → AuthorizationResult × Atm
ask_host env req a =
    let (auth, host) = Host.authorize_withdrawal env.host_env req a.host in
    (auth, record a { host = host })

-- `amount: this.session.amount`, which may be undefined.
abbrev pub number_of : Option ℕ → Number
number_of none = non_integer
number_of (some n) = int (pos n)

-- The answer is the amount to dispense, or `none` when there is nothing more to do.
abbrev pub approved_in :
    Option AtmSession → AuthorizationResult → Atm → Result AtmError (Option Number) × Atm
approved_in none auth a = (err no_session, a)
approved_in (some s) auth a = (
  ok (some (number_of s.amount)),
  transition_to AtmState.dispensing
      (record a { session = some (record s { stan_no = some auth.stan_no }) }),
)

abbrev pub declined_in : Result AtmError (Unit {0}) × Atm → Result AtmError (Option Number) × Atm
declined_in (err e, a) = (err e, a)
declined_in (ok done, a) = (ok none, a)

unfoldable pub authorized : Env → AuthorizationResult → Atm → Result AtmError (Option Number) × Atm
authorized env auth a =
    if auth.approved then approved_in a.session auth a else declined_in (mark_error env a)

abbrev pub payload_of : Number → CdmDispensePayload
payload_of amount = record {
  amount = amount;
  mix_type = CdmMixType.min_notes;
  custom_mix = none;
  present = true;
}

unfoldable pub ask_dispenser : Number → Atm → Result CdmError CdmAnswer × Atm
ask_dispenser amount a =
    let (answer, cdm) = Cdm.execute_command (CdmCommand.dispense (payload_of amount)) a.cdm in
    (answer, record a { cdm = cdm })

abbrev pub reversed : Env → Result HostError (Unit {0}) → Atm → Result AtmError (Unit {0}) × Atm
reversed env (err e) a = (err db_lost, a)
reversed env (ok done) a = mark_error env a

-- A missing account or amount makes the host throw, as a failure of the database does.
abbrev pub reversal_in :
    Env
    → AtmSession
    → Option String
    → Option ℕ
    → AuthorizationResult
    → Atm
    → Result AtmError (Unit {0}) × Atm
reversal_in env s (some account) (some amount) auth a =
    let (answer, host) =
      Host.reverse_transaction env.host_env
        (record {
          stan_no = auth.stan_no;
          session_id = s.id;
          pan = s.card_pan;
          account_id = account;
          amount = pos amount;
        })
        a.host in
    reversed env answer (record a { host = host })
reversal_in env s _ _ auth a = (err db_lost, a)

abbrev pub dispensed_in :
    Option AtmSession
    → Env
    → AuthorizationResult
    → Result CdmError CdmAnswer
    → Atm
    → Result AtmError (Unit {0}) × Atm
dispensed_in none env auth answer a = (err no_session, a)
dispensed_in (some s) env auth (err e) a = reversal_in env s s.account_id s.amount auth a
dispensed_in (some s) env auth (ok answer) a = finish env s (some auth.stan_no) s.amount a

unfoldable pub dispensed :
    Env → AuthorizationResult → Result CdmError CdmAnswer → Atm → Result AtmError (Unit {0}) × Atm
dispensed env auth answer a = dispensed_in a.session env auth answer a

abbrev pub go_on :
    Env
    → AuthorizationResult
    → Result AtmError (Option Number) × Atm
    → Result AtmError (Unit {0}) × Atm
go_on env auth (err e, a) = (err e, a)
go_on env auth (ok none, a) = (ok tt, a)
go_on env auth (ok (some amount), a) =
    let (answer, a') = ask_dispenser amount a in dispensed env auth answer a'

-- The whole of it when no other call comes in.
unfoldable pub process_withdrawal : Env → WithdrawalRequest → Atm → Result AtmError (Unit {0}) × Atm
process_withdrawal env req a =
    let (auth, a') = ask_host env req a in go_on env auth (authorized env auth a')
