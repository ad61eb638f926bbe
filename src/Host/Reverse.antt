-- ===== src/Host/Reverse.antt =====
-- apps/xfs-server/src/host/host-emulator.service.ts: the reversal of what an approval has changed.
use atm_xfs_simulator.Common.{
  ℕ, ◌≡◌, refl, ◌≢◌, String, true, some, List, [], ◌∷◌, ok, arith, All, inl, inr, Bool-cases,
  str_eq, ap,
}
use atm_xfs_simulator.Common.Int.{ℤ, ◌+ℤ◌, ◌-ℤ◌, int_laws}
use atm_xfs_simulator.Iso.Switches.{IsoSwitchProfile}
use atm_xfs_simulator.Host.Tables.{
  Db, AccountRow, TxnRow, find_account, update_account, daily_total, mark_reversed, is_completed,
}
use atm_xfs_simulator.Host.{
  Host, Env, WithdrawalRequest, AuthorizationResult, approve, debit, credit, withdrawal_row,
  reversal_row, Reversal, reverse_transaction,
}
use atm_xfs_simulator.Host.Accounts.{found_after}

undo_balance : (b n : ℤ) → b -ℤ n +ℤ n ≡ b
undo_balance b n = omega int_laws

undo_withdrawn : (b n : ℤ) → b +ℤ n -ℤ n ≡ b
undo_withdrawn b n = omega int_laws

pub undo_account : (n : ℤ) (a : AccountRow) → credit n (debit n a) ≡ a
undo_account n a = cc (undo_balance a.balance n, undo_withdrawn a.daily_withdrawn n)

undo_update :
    (id : String) (n : ℤ) (rows : List AccountRow)
    → update_account id (credit n) (update_account id (debit n) rows) ≡ rows
unfolding update_account
undo_update id n [] = refl
undo_update id n (a ∷ rows) = elim (Bool-cases (str_eq a.id id)) [
  | inl hit ↦ rw (hit, update_account, hit) (ap (λ (x : AccountRow). x ∷ rows) (undo_account n a))
  | inr miss ↦
      rw (miss, update_account, miss) (ap (λ (x : List AccountRow). a ∷ x) (undo_update id n rows))
]

-- No completed transaction has the STAN.
abbrev pub IsFreshStan : ℕ → List TxnRow → Type 0
IsFreshStan stan ts = All (λ t. is_completed t.status ≡ true → t.stan_no ≢ stan) ts

mark_reversed-fresh :
    (stan : ℕ) (ts : List TxnRow) → IsFreshStan stan ts → mark_reversed stan ts ≡ ts
unfolding mark_reversed
mark_reversed-fresh stan [] h = refl
mark_reversed-fresh stan (t ∷ ts) (ne, h) = ground (arith, mark_reversed-fresh stan ts h)

-- What is there after an approval and a reversal under the same STAN.
undo_total :
    (since : ℕ) (id : String) (env env' : Env) (req : WithdrawalRequest) (r : Reversal)
    (account : String) (ts : List TxnRow)
    → IsFreshStan r.stan_no ts
    → daily_total since id (
        reversal_row env' r
        ∷ mark_reversed r.stan_no (withdrawal_row env req account r.stan_no ∷ ts))
      ≡ daily_total since id ts
unfolding daily_total mark_reversed
undo_total since id env env' req r account ts fresh =
    ground (arith, mark_reversed-fresh r.stan_no ts fresh)

-- The reversal that the service is asked for after an answer.
abbrev pub reversal_of : WithdrawalRequest → ℕ → String → Reversal
reversal_of req stan account = record {
  stan_no = stan;
  session_id = req.session_id;
  pan = req.pan;
  account_id = account;
  amount = req.amount;
}

-- The state before is given back by the reversal of the answer `x` under the counter `n`.
abbrev pub Undoes : Env → WithdrawalRequest → String → Host → ℕ → AuthorizationResult × Db → Type 0
Undoes env' req account h n x =
    let h' : Host = record { stan_counter = n; db = x.1 } in
    let (answer, h'') = reverse_transaction env' (reversal_of req x.0.stan_no account) h' in
    (answer ≡ ok tt)
    × (h''.db.accounts ≡ h.db.accounts)
    × ((since : ℕ) (id : String)
        → daily_total since id h''.db.transactions ≡ daily_total since id h.db.transactions)

pub approve-Undoes :
    (env env' : Env) (req : WithdrawalRequest) (account : String) (a : AccountRow) (stan : ℕ)
    (sw : IsoSwitchProfile) (h : Host) (n : ℕ)
    → env'.db_up ≡ true
    → find_account account h.db ≡ some a
    → IsFreshStan stan h.db.transactions
    → Undoes env' req account h n (approve env req account a stan sw h.db)
unfolding reverse_transaction
approve-Undoes env env' req account a stan sw h n up found fresh =
    rw
      (
        up,
        reverse_transaction,
        found_after account (debit req.amount) h.db.accounts a (λ _. refl) found,
      )
      (
        refl,
        undo_update account req.amount h.db.accounts,
        λ since id.
            undo_total since id env env' req (reversal_of req stan account) account
              h.db.transactions fresh,
      )
