-- ===== src/Atm/Cancel.antt =====
-- apps/xfs-server/src/atm/atm-app.service.ts: how a session ends, and what a cancel does while the
-- host is being asked.
use atm_xfs_simulator.Common.{
  ◌≡◌, refl, sym, ap, ◌∙◌, subst, Bool, true, false, Option, none, some, Result, ok, err,
  if◌then◌else◌, arith,
}
use atm_xfs_simulator.Idc.{Idc, IdcCommand}
use atm_xfs_simulator.Idc
use atm_xfs_simulator.Xfs.Device
use atm_xfs_simulator.Host.{WithdrawalRequest, AuthorizationResult}
use atm_xfs_simulator.Host
use atm_xfs_simulator.Atm.{
  Atm, AtmSession, AtmError, EndReason, Env, no_session, cancel_transaction, safe_eject,
  end_session, mark_error, end_in, cancel_in,
}
use atm_xfs_simulator.Atm.Withdrawal.{ask_host, authorized, approved_in, declined_in}

-- Nobody is served, no watchdog runs, and the reader is free.
abbrev pub IsFree : Atm → Type 0
IsFree a = (a.session ≡ none) × (a.idle_timer ≡ none) × (a.idc.card_held ≡ false)

pub safe_eject-session : (a : Atm) → (safe_eject a).session ≡ a.session
unfolding safe_eject
safe_eject-session a = ground arith

pub safe_eject-held :
    (a : Atm) → a.idc.device.injected_error ≡ none → (safe_eject a).idc.card_held ≡ false
unfolding safe_eject Idc.execute_command Idc.dispatch Idc.eject Idc.has_card
    Device.check_injected_error
safe_eject-held a calm = ground (arith, calm)

-- The answer is no error, and the ATM is free.
abbrev pub EndsFree : Result AtmError (Unit {0}) × Atm → Type 0
EndsFree x = (x.0 ≡ ok tt) × IsFree x.1

pub end_session-EndsFree :
    (env : Env) (reason : EndReason) (a : Atm) (s : AtmSession)
    → env.host_env.db_up ≡ true
    → a.session ≡ some s
    → a.idc.card_held ≡ false
    → EndsFree (end_session env reason a)
unfolding end_session
end_session-EndsFree env reason a s up at free =
    let one : EndsFree (end_in (some s) true reason a) = (refl, (refl, refl, free)) in
    let two : EndsFree (end_in (some s) env.host_env.db_up reason a) =
      subst (λ (b : Bool). EndsFree (end_in (some s) b reason a)) (sym up) one in
    subst (λ (x : Option AtmSession). EndsFree (end_in x env.host_env.db_up reason a)) (sym at) two

-- A cancel of a session in any state, with the database up and a reader without an error waiting,
-- ends it without an error: there is no session, no watchdog, and no card in the reader.
pub cancel_transaction-EndsFree :
    (env : Env) (a : Atm) (s : AtmSession)
    → env.host_env.db_up ≡ true
    → a.session ≡ some s
    → a.idc.device.injected_error ≡ none
    → EndsFree (cancel_transaction env a)
unfolding cancel_transaction
cancel_transaction-EndsFree env a s up at calm =
    subst (λ (x : Option AtmSession). EndsFree (cancel_in x env a)) (sym at)
      (end_session-EndsFree env EndReason.cancelled (safe_eject a) s up (safe_eject-session a ∙ at)
        (safe_eject-held a calm))

-- A cancel touches neither the dispenser nor the host.
cancel-cdm : (env : Env) (a : Atm) → (cancel_transaction env a).1.cdm ≡ a.cdm
unfolding cancel_transaction end_session safe_eject
cancel-cdm env a = ground arith

cancel-host : (env : Env) (a : Atm) → (cancel_transaction env a).1.host ≡ a.host
unfolding cancel_transaction end_session safe_eject
cancel-host env a = ground arith

authorized_lost :
    (env : Env) (auth : AuthorizationResult) (a : Atm)
    → auth.approved ≡ true
    → a.session ≡ none
    → authorized env auth a ≡ (err no_session, a)
unfolding authorized
authorized_lost env auth a granted over =
    ap (λ (b : Bool). if b then approved_in a.session auth a else declined_in (mark_error env a))
      granted
    ∙ ap (λ (x : Option AtmSession). approved_in x auth a) over

-- The host approves a withdrawal and the customer cancels before the answer is in, with a
-- session, a database that is up and a reader without an error waiting. Then the handler fails on
-- the missing session, the host is as after the authorisation, with nothing reversed, and the
-- dispenser is as it was, with nothing given out.
pub authorized-cancel :
    (env : Env) (req : WithdrawalRequest) (a : Atm) (s : AtmSession)
    → env.host_env.db_up ≡ true
    → a.session ≡ some s
    → a.idc.device.injected_error ≡ none
    → (ask_host env req a).0.approved ≡ true
    → let (auth, a1) = ask_host env req a in
      let a2 = (cancel_transaction env a1).1 in
      let (answer, a3) = authorized env auth a2 in
      (answer ≡ err no_session)
      × (a3.host ≡ (Host.authorize_withdrawal env.host_env req a.host).1)
      × (a3.cdm ≡ a.cdm)
unfolding ask_host
authorized-cancel env req a s up at calm granted =
    let (auth, a1) = ask_host env req a in
    let a2 = (cancel_transaction env a1).1 in
    let (done, (over, timer, free)) = cancel_transaction-EndsFree env a1 s up at calm in
    let lost = authorized_lost env auth a2 granted over in
    (
      ap (λ x. x.0) lost,
      ap (λ x. x.1.host) lost ∙ cancel-host env a1,
      ap (λ x. x.1.cdm) lost ∙ cancel-cdm env a1,
    )
