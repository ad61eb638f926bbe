-- ===== src/Host/Undo.antt =====
-- apps/xfs-server/src/host/host-emulator.service.ts: what an authorisation answers and changes, and
-- what a reversal gives back.
use atm_xfs_simulator.Common.{
  ℕ, ◌+◌, ◌≡◌, refl, ◌≢◌, ◌⊎◌, String, true, false, some, List, [], ◌∷◌, ok, arith, inl, inr,
  Bool-cases, sym, subst,
}
use atm_xfs_simulator.Common.Int.{ℤ, pos, ◌≤ℤ◌, ◌+ℤ◌, ◌-ℤ◌, +ℤ_parts}
use atm_xfs_simulator.Iso.{IsoResponseCode}
use atm_xfs_simulator.Shared.{format_stan}
use atm_xfs_simulator.Host.Tables.{
  Db, CardRow, AccountRow, TxnRow, TxnType, TxnStatus, find_card, account_in, find_account,
  daily_total, mark_reversed, counts_today,
}
use atm_xfs_simulator.Host.Card.{start_of_day}
use atm_xfs_simulator.Host.{
  Host, Env, WithdrawalRequest, AuthorizationResult, authorize_withdrawal, approve, debit, credit,
  Reversal, reverse_transaction, chosen_switch,
}
use atm_xfs_simulator.Host.Ledger.{IsCounted, authorize_cases, total-mark_reversed}
use atm_xfs_simulator.Host.Accounts.{found_after, account_in-other}
use atm_xfs_simulator.Host.Reverse.{IsFreshStan, reversal_of, Undoes, approve-Undoes}

-- The account, debited by an amount.
abbrev pub IsDebited : ℤ → AccountRow → AccountRow → Type 0
IsDebited amount a b = b ≡ record {
  id = a.id;
  balance = a.balance -ℤ amount;
  currency = a.currency;
  daily_limit = a.daily_limit;
  daily_withdrawn = a.daily_withdrawn +ℤ amount;
  status = a.status;
}

-- An authorisation is refused with an unchanged database, or it is approved within the switch's
-- cap, the balance and the daily limit of the card's account. Then that account is debited, the others
-- are as before, and one row is added.
abbrev pub Outcome : Env → WithdrawalRequest → ℕ → Db → AuthorizationResult × Db → Type 0
Outcome env req stan db (answer, db') =
    ((answer.approved ≡ false) × (db' ≡ db) × (answer.response_code ≢ IsoResponseCode.approved))
    ⊎ ((card : CardRow) × (a : AccountRow) × (find_card req.pan db ≡ some card)
        × (find_account card.account_id db ≡ some a)
        × (req.amount ≤ℤ pos (chosen_switch req).max_withdrawal_idr)
        × (req.amount ≤ℤ a.balance)
        × (daily_total (start_of_day env.now) card.account_id db.transactions +ℤ req.amount
            ≤ℤ pos a.daily_limit)
        × (answer ≡ record {
          approved = true;
          response_code = IsoResponseCode.approved;
          auth_code = some env.auth_code;
          stan_no = stan;
          balance_after = some (a.balance -ℤ req.amount);
          switch_id = (chosen_switch req).id;
        })
        × ((b : AccountRow) × (find_account card.account_id db' ≡ some b)
            × IsDebited req.amount a b)
        × ((id : String) → id ≢ card.account_id → find_account id db' ≡ find_account id db)
        × (db'.cards ≡ db.cards)
        × (db'.transactions
            ≡ record {
              session_id = req.session_id;
              pan = req.pan;
              account_id = card.account_id;
              txn_type = TxnType.withdrawal;
              amount = req.amount;
              currency = "IDR";
              status = TxnStatus.completed;
              stan_no = stan;
              auth_code = some env.auth_code;
              response_code = some IsoResponseCode.approved;
              created_at = env.now.ms;
            }
              ∷ db.transactions))

approve-Outcome :
    (env : Env) (req : WithdrawalRequest) (card : CardRow) (a : AccountRow) (stan : ℕ) (db : Db)
    → find_card req.pan db ≡ some card
    → find_account card.account_id db ≡ some a
    → req.amount ≤ℤ pos (chosen_switch req).max_withdrawal_idr
    → req.amount ≤ℤ a.balance
    → daily_total (start_of_day env.now) card.account_id db.transactions +ℤ req.amount
      ≤ℤ pos a.daily_limit
    → Outcome env req stan db (approve env req card.account_id a stan (chosen_switch req) db)
approve-Outcome env req card a stan db found account fits funds limit = inr (
  card,
  a,
  found,
  account,
  fits,
  funds,
  limit,
  refl,
  (
    debit req.amount a,
    found_after card.account_id (debit req.amount) db.accounts a (λ _. refl) account,
    refl,
  ),
  λ id ne. account_in-other id card.account_id (debit req.amount) db.accounts ne (λ _. refl),
  refl,
  refl,
)

-- Every authorisation is either refused, with the database unchanged and a response code other
-- than approved, or approved within the switch's cap, the balance and the daily limit of the
-- card's account. An approval gives the balance that is left; the account's balance goes down by the
-- amount, its withdrawn total goes up by it, no other account and no card changes, and the transactions
-- get one completed withdrawal of that amount, with the request's session and PAN, the account and the
-- time. Either way its STAN is the counter's six digits, and the counter goes up by one.
pub authorize_withdrawal-Outcome :
    (env : Env) (req : WithdrawalRequest) (h : Host)
    → let (answer, h') = authorize_withdrawal env req h in
      Outcome env req (format_stan h.stan_counter) h.db (answer, h'.db)
      × (answer.stan_no ≡ format_stan h.stan_counter)
      × (h'.stan_counter ≡ h.stan_counter + 1)
unfolding authorize_withdrawal
authorize_withdrawal-Outcome env req h = elim (Bool-cases env.db_up) [
  | inr down ↦ rw (down, authorize_withdrawal) (inl (refl, refl, λ e. cc), refl, refl)
  | inl up ↦
      rw (up, authorize_withdrawal)
        (authorize_cases
          (λ x.
            Outcome env req (format_stan h.stan_counter) h.db x
            × (x.0.stan_no ≡ format_stan h.stan_counter)
            × (h.stan_counter + 1 ≡ h.stan_counter + 1))
          env req (format_stan h.stan_counter) (chosen_switch req) h.db
          (λ code ne. (inl (refl, refl, ne), refl, refl))
          (λ card a found account fits funds limit. (
            approve-Outcome env req card a (format_stan h.stan_counter) h.db found account fits
                funds limit,
            refl,
            refl,
          )))
]

-- An authorisation that is approved is `approve`.
approved-approve :
    (env : Env) (req : WithdrawalRequest) (h : Host)
    → (authorize_withdrawal env req h).0.approved ≡ true
    → let (answer, h') = authorize_withdrawal env req h in
      (card : CardRow) × (a : AccountRow) × (find_card req.pan h.db ≡ some card)
      × (find_account card.account_id h.db ≡ some a)
      × ((answer, h'.db)
          ≡ approve env req card.account_id a (format_stan h.stan_counter) (chosen_switch req) h.db)
unfolding authorize_withdrawal
approved-approve env req h = elim (Bool-cases env.db_up) [
  | inr down ↦ rw (down, authorize_withdrawal) (λ e. cc)
  | inl up ↦
      rw (up, authorize_withdrawal)
        (authorize_cases
          (λ x.
            x.0.approved ≡ true
            → (card : CardRow) × (a : AccountRow) × (find_card req.pan h.db ≡ some card)
              × (find_account card.account_id h.db ≡ some a)
              × (x
                  ≡ approve env req card.account_id a (format_stan h.stan_counter)
                      (chosen_switch req) h.db))
          env req (format_stan h.stan_counter) (chosen_switch req) h.db (λ code ne e. cc)
          (λ card a found account fits funds limit e. (card, a, found, account, refl)))
]

-- A reversal undoes an approved withdrawal, for a card in the database, a database that answers
-- the reversal, and a STAN that no completed transaction had before: every account is as it was
-- before, and so is the total of every account on every day.
pub reverse-authorize :
    (env env' : Env) (req : WithdrawalRequest) (card : CardRow) (h : Host)
    → (authorize_withdrawal env req h).0.approved ≡ true
    → find_card req.pan h.db ≡ some card
    → env'.db_up ≡ true
    → IsFreshStan (format_stan h.stan_counter) h.db.transactions
    → let (answer, h') = authorize_withdrawal env req h in
      let (undone, h'') =
        reverse_transaction env' (reversal_of req answer.stan_no card.account_id) h' in
      (undone ≡ ok tt)
      × (h''.db.accounts ≡ h.db.accounts)
      × ((since : ℕ) (id : String)
          → daily_total since id h''.db.transactions ≡ daily_total since id h.db.transactions)
reverse-authorize env env' req card h yes_answer known up fresh =
    let (card', a, found, account, same) = approved-approve env req h yes_answer in
    let one : card' ≡ card = cc in
    subst (Undoes env' req card.account_id h (authorize_withdrawal env req h).1.stan_counter)
      (sym same)
      (subst
        (λ c. Undoes env' req c.account_id h (authorize_withdrawal env req h).1.stan_counter (
          approve env req card'.account_id a (format_stan h.stan_counter) (chosen_switch req) h.db))
        one
        (approve-Undoes env env' req card'.account_id a (format_stan h.stan_counter)
          (chosen_switch req) h _ up account fresh))

-- The transaction is in the table.
abbrev pub Has : TxnRow → List TxnRow → Type 0
Has t [] = ⊥
Has t (x ∷ xs) = (x ≡ t) ⊎ Has t xs

forgotten :
    (since : ℕ) (id : String) (stan : ℕ) (t : TxnRow) (ts : List TxnRow)
    → IsCounted ts
    → Has t ts
    → counts_today since id t ≡ true
    → t.stan_no ≡ stan
    → daily_total since id (mark_reversed stan ts) +ℤ t.amount ≤ℤ daily_total since id ts
unfolding daily_total mark_reversed
forgotten since id stan t [] n h c e = absurd h
forgotten since id stan t (x ∷ ts) (now, n) (inl same) c e =
    let rest = daily_total since id ts in
    let marked = daily_total since id (mark_reversed stan ts) in
    ground (
      arith,
      total-mark_reversed since id stan ts n,
      +ℤ_parts t.amount rest,
      +ℤ_parts marked t.amount,
      +ℤ_parts x.amount rest,
    )
forgotten since id stan t (x ∷ ts) (now, n) (inr later) c e =
    let rest = daily_total since id ts in
    let marked = daily_total since id (mark_reversed stan ts) in
    ground (
      arith,
      forgotten since id stan t ts n later c e,
      +ℤ_parts x.amount rest,
      +ℤ_parts x.amount marked,
      +ℤ_parts (x.amount +ℤ marked) t.amount,
      +ℤ_parts marked t.amount,
    )

-- The reversal looks for its STAN alone. With a database that answers, an account to credit and
-- transactions whose amounts are not negative, a
-- completed withdrawal of another account that has the same STAN no longer counts toward that
-- account's daily limit, and that account's row, its balance included, does not change.
pub reverse_forgets :
    (env : Env) (r : Reversal) (h : Host) (a : AccountRow) (since : ℕ) (id : String) (t : TxnRow)
    → env.db_up ≡ true
    → find_account r.account_id h.db ≡ some a
    → IsCounted h.db.transactions
    → Has t h.db.transactions
    → counts_today since id t ≡ true
    → t.stan_no ≡ r.stan_no
    → id ≢ r.account_id
    → let h' = (reverse_transaction env r h).1 in
      (daily_total since id h'.db.transactions +ℤ t.amount
        ≤ℤ daily_total since id h.db.transactions)
      × (account_in id h'.db.accounts ≡ account_in id h.db.accounts)
unfolding reverse_transaction daily_total
reverse_forgets env r h a since id t up found counted has today same ne =
    rw (up, reverse_transaction, found)
      (
        ground (arith, forgotten since id r.stan_no t h.db.transactions counted has today same),
        account_in-other id r.account_id (credit r.amount) h.db.accounts ne (λ _. refl),
      )
