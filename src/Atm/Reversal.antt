-- ===== src/Atm/Reversal.antt =====
-- apps/xfs-server/src/atm/atm-app.service.ts, `processWithdrawal`: a dispense that fails.
use atm_xfs_simulator.Common.{
  ℕ, ◌≡◌, refl, sym, ap, ◌∙◌, subst, String, Bool, true, Option, none, some, Result, ok, err,
  if◌then◌else◌, arith,
}
use atm_xfs_simulator.Common.Int.{pos}
use atm_xfs_simulator.Common.Number.{int}
use atm_xfs_simulator.Xfs.{XfsResult}
use atm_xfs_simulator.Xfs.Device.{Device}
use atm_xfs_simulator.Xfs.Device
use atm_xfs_simulator.Shared.{format_stan}
use atm_xfs_simulator.Cdm.{Cdm, CdmCommand, CdmDispensePayload, dispense_cash}
use atm_xfs_simulator.Cdm
use atm_xfs_simulator.Cdm.Error.{CdmError}
use atm_xfs_simulator.Cdm.Dispense.{dispense_atomic}
use atm_xfs_simulator.Host.{WithdrawalRequest, AuthorizationResult, Host, HostError}
use atm_xfs_simulator.Host
use atm_xfs_simulator.Host.Tables.{CardRow, find_card, daily_total}
use atm_xfs_simulator.Host.Reverse.{IsFreshStan, reversal_of}
use atm_xfs_simulator.Host.Undo.{reverse-authorize}
use atm_xfs_simulator.Atm.{
  Atm, AtmSession, AtmState, AtmError, EndReason, Env, safe_eject, end_session, transition_to,
  mark_error, error_in, move, transition_in,
}
use atm_xfs_simulator.Atm.Withdrawal.{
  request_of, ask_host, authorized, approved_in, declined_in, number_of, payload_of, ask_dispenser,
  dispensed, dispensed_in, reversal_in, reversed, go_on, process_withdrawal,
}
use atm_xfs_simulator.Atm.Cancel.{
  IsFree, EndsFree, safe_eject-session, safe_eject-held, end_session-EndsFree,
}

dispense_units :
    (x : Option XfsResult × Device) (p : CdmDispensePayload) (c : Cdm) (e : CdmError)
    → (Cdm.dispatch_checked x (CdmCommand.dispense p) c).0 ≡ err e
    → (Cdm.dispatch_checked x (CdmCommand.dispense p) c).1.cash_units ≡ c.cash_units
unfolding Cdm.dispatch
dispense_units (none, d) p c e h =
    ap (λ (y : Cdm). y.cash_units) (dispense_atomic p (record c { device = d }) e h)
dispense_units (some r, d) p c e h = refl

execute_units :
    (p : CdmDispensePayload) (c : Cdm) (e : CdmError)
    → (Cdm.execute_command (CdmCommand.dispense p) c).0 ≡ err e
    → (Cdm.execute_command (CdmCommand.dispense p) c).1.cash_units ≡ c.cash_units
unfolding Cdm.execute_command
execute_units p c e h = dispense_units (Device.check_injected_error c.device) p c e h

-- What holds after a reversal: the host is `host` and the cassettes are those of `c`.
abbrev pub IsSettled : Host → Cdm → Result AtmError (Unit {0}) × Atm → Type 0
IsSettled host c x = (x.1.host ≡ host) × (x.1.cdm.cash_units ≡ c.cash_units) × EndsFree x

ended-host :
    (env : Env) (reason : EndReason) (a : Atm)
    → (end_session env reason (safe_eject a)).1.host ≡ a.host
unfolding end_session safe_eject
ended-host env reason a = ground arith

ended-cdm :
    (env : Env) (reason : EndReason) (a : Atm)
    → (end_session env reason (safe_eject a)).1.cdm ≡ a.cdm
unfolding end_session safe_eject
ended-cdm env reason a = ground arith

transition_to-move :
    (next : AtmState) (s : AtmSession) (a : Atm)
    → a.session ≡ some s
    → transition_to next a ≡ move next s a
unfolding transition_to
transition_to-move next s a at = ap (λ (x : Option AtmSession). transition_in x next a) at

mark_error-end :
    (env : Env) (a : Atm) (s : AtmSession)
    → a.session ≡ some s
    → mark_error env a ≡ end_session env EndReason.in_error (safe_eject (move AtmState.failed s a))
unfolding mark_error
mark_error-end env a s at =
    ap (λ (x : Option AtmSession). error_in x env EndReason.in_error a) at
    ∙ ap (λ b. end_session env EndReason.in_error (safe_eject b))
        (transition_to-move AtmState.failed s a at)

mark_error-IsSettled :
    (env : Env) (a : Atm) (s : AtmSession) (c : Cdm)
    → env.host_env.db_up ≡ true
    → a.session ≡ some s
    → a.idc.device.injected_error ≡ none
    → a.cdm.cash_units ≡ c.cash_units
    → IsSettled a.host c (mark_error env a)
mark_error-IsSettled env a s c up at calm units =
    let b = move AtmState.failed s a in
    subst (IsSettled a.host c) (sym (mark_error-end env a s at)) (
      ended-host env EndReason.in_error b,
      ap (λ (y : Cdm). y.cash_units) (ended-cdm env EndReason.in_error b) ∙ units,
      end_session-EndsFree env EndReason.in_error (safe_eject b)
          (record s { state = AtmState.failed }) up (safe_eject-session b) (safe_eject-held b calm),
    )

-- The reversal that the handler asks for, when the host carries it out.
reversal_in-IsSettled :
    (env : Env) (s : AtmSession) (account : String) (n : ℕ) (auth : AuthorizationResult) (a : Atm)
    (c : Cdm)
    → env.host_env.db_up ≡ true
    → a.session ≡ some s
    → a.idc.device.injected_error ≡ none
    → a.cdm.cash_units ≡ c.cash_units
    → let (answer, host) =
        Host.reverse_transaction env.host_env
          (reversal_of (request_of s n) auth.stan_no account)
          a.host in
      answer ≡ ok tt → IsSettled host c (reversal_in env s (some account) (some n) auth a)
reversal_in-IsSettled env s account n auth a c up at calm units done =
    let (answer, host) =
      Host.reverse_transaction env.host_env (reversal_of (request_of s n) auth.stan_no account)
        a.host in
    let b = record a { host = host } in
    subst (λ (r : Result HostError (Unit {0})). IsSettled host c (reversed env r b)) (sym done)
      (mark_error-IsSettled env b s c up at calm units)

granted_move :
    (env : Env) (auth : AuthorizationResult) (s : AtmSession) (a : Atm)
    → auth.approved ≡ true
    → a.session ≡ some s
    → let s' = record s { stan_no = some auth.stan_no } in
      authorized env auth a ≡ (
        ok (some (number_of s.amount)),
        move AtmState.dispensing s' (record a { session = some s' }),
      )
unfolding authorized
granted_move env auth s a granted at =
    let s' = record s { stan_no = some auth.stan_no } in
    ap (λ (b : Bool). if b then approved_in a.session auth a else declined_in (mark_error env a))
      granted
    ∙ ap (λ (x : Option AtmSession). approved_in x auth a) at
    ∙ ap (λ (b : Atm). (ok (some (number_of s.amount)), b))
        (transition_to-move AtmState.dispensing s' (record a { session = some s' }) refl)

-- The dispenser refuses the amount, and the host carries out the reversal.
refused-IsSettled :
    (env : Env) (s : AtmSession) (account : String) (n : ℕ) (auth : AuthorizationResult) (a : Atm)
    (e : CdmError)
    → env.host_env.db_up ≡ true
    → a.session ≡ some s
    → s.amount ≡ some n
    → s.account_id ≡ some account
    → a.idc.device.injected_error ≡ none
    → (Cdm.execute_command (CdmCommand.dispense (payload_of (int (pos n)))) a.cdm).0 ≡ err e
    → let (answer, host) =
        Host.reverse_transaction env.host_env
          (reversal_of (request_of s n) auth.stan_no account)
          a.host in
      answer ≡ ok tt → IsSettled host a.cdm (go_on env auth (ok (some (number_of s.amount)), a))
unfolding ask_dispenser dispensed
refused-IsSettled env s account n auth a e up at amount owner calm refused done =
    let host =
      (Host.reverse_transaction env.host_env (reversal_of (request_of s n) auth.stan_no account)
        a.host).1 in
    let (answer, cdm) =
      Cdm.execute_command (CdmCommand.dispense (payload_of (int (pos n)))) a.cdm in
    let b = record a { cdm = cdm } in
    let settled =
      reversal_in-IsSettled env s account n auth b a.cdm up at calm
        (execute_units (payload_of (int (pos n))) a.cdm e refused) done in
    let one : IsSettled host a.cdm (reversal_in env s s.account_id s.amount auth b) =
      subst (λ (x : Option String). IsSettled host a.cdm (reversal_in env s x s.amount auth b))
        (sym owner)
        (subst (λ (x : Option ℕ). IsSettled host a.cdm (reversal_in env s (some account) x auth b))
          (sym amount) settled) in
    let two : IsSettled host a.cdm (dispensed_in a.session env auth answer b) =
      subst (λ (x : Option AtmSession). IsSettled host a.cdm (dispensed_in x env auth answer b))
        (sym at)
        (subst (λ r. IsSettled host a.cdm (dispensed_in (some s) env auth r b)) (sym refused)
          one) in
    subst (λ (x : Option ℕ). IsSettled host a.cdm (go_on env auth (ok (some (number_of x)), a)))
      (sym amount) two

-- A withdrawal that the host approves and the dispenser refuses, run without another call in between:
-- the handler ends without an error, every account is as it was before, and so is the total of every
-- account on every day; the cassettes are untouched; and the ATM is free. For a session with the
-- amount and the account of its card, a database that is up, a reader without an error waiting, and a
-- STAN that no completed transaction has.
pub process_withdrawal-reversed :
    (env : Env) (a : Atm) (s : AtmSession) (card : CardRow) (n : ℕ) (e : CdmError)
    → a.session ≡ some s
    → s.amount ≡ some n
    → s.account_id ≡ some card.account_id
    → find_card s.card_pan a.host.db ≡ some card
    → env.host_env.db_up ≡ true
    → a.idc.device.injected_error ≡ none
    → IsFreshStan (format_stan a.host.stan_counter) a.host.db.transactions
    → (ask_host env (request_of s n) a).0.approved ≡ true
    → (Cdm.execute_command (CdmCommand.dispense (payload_of (int (pos n)))) a.cdm).0 ≡ err e
    → let (answer, a') = process_withdrawal env (request_of s n) a in
      (answer ≡ ok tt)
      × (a'.host.db.accounts ≡ a.host.db.accounts)
      × ((since : ℕ) (id : String)
          → daily_total since id a'.host.db.transactions
            ≡ daily_total since id a.host.db.transactions)
      × (a'.cdm.cash_units ≡ a.cdm.cash_units)
      × IsFree a'
unfolding process_withdrawal ask_host
process_withdrawal-reversed env a s card n e at amount owner known up calm fresh granted refused =
    let (auth, a1) = ask_host env (request_of s n) a in
    let s1 = record s { stan_no = some auth.stan_no } in
    let a2 = move AtmState.dispensing s1 (record a1 { session = some s1 }) in
    let (undone, accounts, totals) =
      reverse-authorize env.host_env env.host_env (request_of s n) card a.host granted known up
        fresh in
    let host =
      (Host.reverse_transaction env.host_env
        (reversal_of (request_of s n) auth.stan_no card.account_id) a1.host).1 in
    let settled : IsSettled host a.cdm (go_on env auth (ok (some (number_of s.amount)), a2)) =
      refused-IsSettled env (record s1 { state = AtmState.dispensing }) card.account_id n auth a2 e
        up refl amount owner calm refused undone in
    let (same, units, (done, free)) =
      subst (λ x. IsSettled host a.cdm (go_on env auth x))
        (sym (granted_move env auth s a1 granted at)) settled in
    (
      done,
      ap (λ (h : Host). h.db.accounts) same ∙ accounts,
      λ since id. ap (λ (h : Host). daily_total since id h.db.transactions) same ∙ totals since id,
      units,
      free,
    )
