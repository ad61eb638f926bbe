-- ===== src/Host/Day.antt =====
-- apps/xfs-server/src/host/host-emulator.service.ts: what every sequence of calls of one day keeps true of
-- the accounts and of the money that is debited.
use atm_xfs_simulator.Common.{
  ℕ, ◌≡◌, refl, ◌≢◌, String, none, some, List, [], ◌∷◌, arith, All, inl, inr, Option, Bool-cases,
  str_eq, eq_iff, sym, subst,
}
use atm_xfs_simulator.Common.Int.{ℤ, pos, ◌+ℤ◌, ◌-ℤ◌, int_laws}
use atm_xfs_simulator.Host.Tables.{Db, AccountRow, TxnRow, find_account, daily_total}
use atm_xfs_simulator.Host.Card.{start_of_day}
use atm_xfs_simulator.Shared.{format_stan}
use atm_xfs_simulator.Shared.Pin.{Crypto}
use atm_xfs_simulator.Iso.Switches.{IsoSwitchProfile}
use atm_xfs_simulator.Host.{
  Host, Env, WithdrawalRequest, authorize_withdrawal, approve, debit, withdrawal_row, HostCall,
  env_of, apply, run, chosen_switch,
}
use atm_xfs_simulator.Host.Ledger.{
  IsLedger, IsAmount, authorize_cases, apply-IsLedger, total-row_other,
}
use atm_xfs_simulator.Host.Accounts.{found_after, account_in-other}

abbrev pub balance_in : Option AccountRow → ℤ
balance_in none = pos 0
balance_in (some a) = a.balance

-- What is left on an account, and what was withdrawn from it on the day.
abbrev pub worth : ℕ → String → Db → ℤ
worth since id db = balance_in (find_account id db) +ℤ daily_total since id db.transactions

-- Over the calls, each authorisation leaves every account's worth as it was.
abbrev pub IsExact : Crypto → ℕ → List HostCall → Host → Type 0
IsExact k since [] h = Unit
IsExact k since (HostCall.authorize env req ∷ calls) h =
    ((id : String)
      → worth since id (apply k (HostCall.authorize env req) h).db ≡ worth since id h.db)
    × IsExact k since calls (apply k (HostCall.authorize env req) h)
IsExact k since (call ∷ calls) h = IsExact k since calls (apply k call h)

move_worth : (b n total : ℤ) → (b -ℤ n) +ℤ (n +ℤ total) ≡ b +ℤ total
move_worth b n total = omega int_laws

total-withdrawal_row :
    (env : Env) (req : WithdrawalRequest) (id : String) (stan : ℕ) (ts : List TxnRow)
    → daily_total (start_of_day env.now) id (withdrawal_row env req id stan ∷ ts)
      ≡ req.amount +ℤ daily_total (start_of_day env.now) id ts
unfolding daily_total
total-withdrawal_row env req id stan ts = ground (arith, eq_iff id id)

approve-worth :
    (env : Env) (req : WithdrawalRequest) (account : String) (a : AccountRow) (stan : ℕ)
    (sw : IsoSwitchProfile) (db : Db) (id : String)
    → find_account account db ≡ some a
    → worth (start_of_day env.now) id (approve env req account a stan sw db).1
      ≡ worth (start_of_day env.now) id db
approve-worth env req account a stan sw db id found =
    let since = start_of_day env.now in
    let row = withdrawal_row env req account stan in
    elim (Bool-cases (str_eq account id)) [
      | inl same ↦
          let here : account ≡ id = (eq_iff account id).0 same in
          subst
            (λ (i : String).
              worth since i (approve env req account a stan sw db).1 ≡ worth since i db)
            here
            (rw
              (
                found_after account (debit req.amount) db.accounts a (λ _. refl) found,
                found,
                total-withdrawal_row env req account stan db.transactions,
              )
              (move_worth a.balance req.amount (daily_total since account db.transactions)))
      | inr miss ↦
          let apart : id ≢ account = λ e. cc ((eq_iff account id).1 (sym e)) in
          rw
            (
              account_in-other id account (debit req.amount) db.accounts apart (λ _. refl),
              total-row_other since id row db.transactions apart,
            )
            refl
    ]

authorize-worth :
    (env : Env) (req : WithdrawalRequest) (h : Host) (id : String)
    → worth (start_of_day env.now) id (authorize_withdrawal env req h).1.db
      ≡ worth (start_of_day env.now) id h.db
unfolding authorize_withdrawal
authorize-worth env req h id = elim (Bool-cases env.db_up) [
  | inr down ↦ rw (down, authorize_withdrawal) refl
  | inl up ↦
      rw (up, authorize_withdrawal)
        (authorize_cases
          (λ x. worth (start_of_day env.now) id x.1 ≡ worth (start_of_day env.now) id h.db) env req
          (format_stan h.stan_counter) (chosen_switch req) h.db (λ _ _. refl)
          (λ card a _ found _ funds limit.
            approve-worth env req card.account_id a (format_stan h.stan_counter) (chosen_switch req)
              h.db id found))
]

module _ (k : Crypto) (since : ℕ) where
  run-IsExact :
      (calls : List HostCall) (h : Host)
      → All (λ call. start_of_day (env_of call).now ≡ since) calls
      → IsExact k since calls h
  unfolding apply
  run-IsExact [] h days = tt
  run-IsExact (HostCall.authorize env req ∷ calls) h (day, days) = (
    λ id.
        subst (λ x. worth x id (authorize_withdrawal env req h).1.db ≡ worth x id h.db) day
          (authorize-worth env req h id),
    run-IsExact calls (apply k (HostCall.authorize env req) h) days,
  )
  run-IsExact (HostCall.reverse env r ∷ calls) h (day, days) =
      run-IsExact calls (apply k (HostCall.reverse env r) h) days
  run-IsExact (HostCall.verify env pan pin ∷ calls) h (day, days) =
      run-IsExact calls (apply k (HostCall.verify env pan pin) h) days
  run-IsExact (HostCall.retain env pan ∷ calls) h (day, days) =
      run-IsExact calls (apply k (HostCall.retain env pan) h) days

  IsLedger-run :
      (calls : List HostCall) (h : Host)
      → All (λ call. start_of_day (env_of call).now ≡ since) calls
      → All IsAmount calls
      → IsLedger since h.db
      → IsLedger since (run k calls h).db
  unfolding run
  IsLedger-run [] h days amounts v = v
  IsLedger-run (call ∷ calls) h (day, days) (amount, amounts) v =
      IsLedger-run calls (apply k call h) days amounts (apply-IsLedger k since call h day amount v)

  -- From a database where account identifiers are unique, no transaction has a negative amount, no
  -- account is overdrawn and the completed withdrawals of the day stay within each account's daily
  -- limit: over the calls of that one day, none with a negative amount, in any order and with any
  -- failures of the database, all this stays so. Each authorisation among them lowers an account's
  -- balance by exactly what it adds to the account's completed withdrawals of the day.
  pub run-IsLedger :
      (calls : List HostCall) (h : Host)
      → All (λ call. start_of_day (env_of call).now ≡ since) calls
      → All IsAmount calls
      → IsLedger since h.db
      → IsLedger since (run k calls h).db × IsExact k since calls h
  run-IsLedger calls h days amounts v =
      (IsLedger-run calls h days amounts v, run-IsExact calls h days)
