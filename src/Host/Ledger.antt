-- ===== src/Host/Ledger.antt =====
-- apps/xfs-server/src/host/host-emulator.service.ts: what each call keeps true of the
-- accounts.
use atm_xfs_simulator.Common.{
  ℕ, ◌≡◌, refl, ◌≢◌, String, some, List, [], ◌∷◌, arith, All, inl, inr, Option-cases, Bool-cases,
  eq_iff, sym, subst,
}
use atm_xfs_simulator.Common.Int.{ℤ, pos, ◌≤ℤ◌, ◌+ℤ◌, ◌-ℤ◌, int_laws, ltb_ℤ, +ℤ_parts}
use atm_xfs_simulator.Host.Tables.{
  Db, CardRow, AccountRow, TxnRow, find_card, find_account, daily_total, mark_reversed,
  counts_today,
}
use atm_xfs_simulator.Host.Accounts.{IsUnique, update_account-All, update_account-IsUnique}
use atm_xfs_simulator.Host.Card.{start_of_day}
use atm_xfs_simulator.Iso.{IsoResponseCode}
use atm_xfs_simulator.Shared.{format_stan}
use atm_xfs_simulator.Shared.Pin.{Crypto}
use atm_xfs_simulator.Iso.Switches.{IsoSwitchProfile}
use atm_xfs_simulator.Host.{
  Host, Env, WithdrawalRequest, AuthorizationResult, authorize_withdrawal, authorize_card, declined,
  approve, debit, credit, withdrawal_row, reversal_row, Reversal, reverse_transaction,
  verify_card_pin, retain_card, HostCall, env_of, apply, chosen_switch,
}

-- The two ways in which an authorisation ends.
module _ {ℓ} (P : AuthorizationResult × Db → Type ℓ) (env : Env) (req : WithdrawalRequest)
    (stan : ℕ) (sw : IsoSwitchProfile) (db : Db) where
  pub authorize_cases :
      ((code : IsoResponseCode) → code ≢ IsoResponseCode.approved → P (declined stan sw code, db))
      → ((card : CardRow) (a : AccountRow)
          → find_card req.pan db ≡ some card
          → find_account card.account_id db ≡ some a
          → req.amount ≤ℤ pos sw.max_withdrawal_idr
          → req.amount ≤ℤ a.balance
          → daily_total (start_of_day env.now) card.account_id db.transactions +ℤ req.amount
            ≤ℤ pos a.daily_limit
          → P (approve env req card.account_id a stan sw db))
      → P (authorize_card env req (find_card req.pan db) stan sw db)
  authorize_cases decline accept = elim (Option-cases (find_card req.pan db)) [
    | inl e ↦ rw e (decline IsoResponseCode.invalid_card (λ x. cc))
    | inr (card, e) ↦ rw e (elim (Option-cases (find_account card.account_id db)) [
      | inl f ↦ rw f (decline IsoResponseCode.invalid_card (λ x. cc))
      | inr (a, f) ↦ rw f (elim (Bool-cases (ltb_ℤ (pos sw.max_withdrawal_idr) req.amount)) [
        | inl large ↦ rw large (decline IsoResponseCode.exceeds_withdrawal_limit (λ x. cc))
        | inr fits ↦
            rw (fits, f)
              (elim (Bool-cases (ltb_ℤ a.balance req.amount)) [
                | inl short ↦ rw short (decline IsoResponseCode.not_sufficient_funds (λ x. cc))
                | inr covered ↦
                    rw covered
                      (elim (Bool-cases (
                        ltb_ℤ (pos a.daily_limit) (
                          daily_total (start_of_day env.now) card.account_id db.transactions
                          +ℤ req.amount))) [
                            | inl over ↦
                                rw over (decline IsoResponseCode.exceeds_withdrawal_limit (λ x. cc))
                            | inr within ↦
                                rw within
                                  (accept card a e f (ground arith) (ground arith) (ground arith))
                          ])
              ])
      ])
    ])
  ]

-- What holds of an account on a day: it is not overdrawn, and the withdrawals of the day stay
-- within its limit. The amounts of the transactions are not negative.
abbrev pub IsCovered : ℕ → List TxnRow → AccountRow → Type 0
IsCovered since ts a = (pos 0 ≤ℤ a.balance) × (daily_total since a.id ts ≤ℤ pos a.daily_limit)

abbrev pub IsCounted : List TxnRow → Type 0
IsCounted ts = All (λ (t : TxnRow). pos 0 ≤ℤ t.amount) ts

pub record IsLedger (since : ℕ) (db : Db) : Type 0 where
  pub unique : IsUnique db.accounts
  pub covered : All (IsCovered since db.transactions) db.accounts
  pub counted : IsCounted db.transactions

debit_covers : (b n : ℤ) → n ≤ℤ b → pos 0 ≤ℤ b -ℤ n
debit_covers b n h = omega int_laws

credit_covers : (b n : ℤ) → pos 0 ≤ℤ n → pos 0 ≤ℤ b → pos 0 ≤ℤ b +ℤ n
credit_covers b n amount h = omega int_laws

pub total-row_other :
    (since : ℕ) (id : String) (t : TxnRow) (ts : List TxnRow)
    → id ≢ t.account_id
    → daily_total since id (t ∷ ts) ≡ daily_total since id ts
unfolding daily_total
total-row_other since id t ts ne = ground (arith, eq_iff t.account_id id)

le_add_left : (a b : ℤ) → pos 0 ≤ℤ a → b ≤ℤ a +ℤ b
le_add_left a b h = omega int_laws

le_trans : (a b c : ℤ) → a ≤ℤ b → b ≤ℤ c → a ≤ℤ c
le_trans a b c h k = omega int_laws

le_add : (a b c : ℤ) → b ≤ℤ c → a +ℤ b ≤ℤ a +ℤ c
le_add a b c h = omega int_laws

add_comm : (a b : ℤ) → a +ℤ b ≡ b +ℤ a
add_comm a b = omega int_laws

total-row :
    (since : ℕ) (id : String) (t : TxnRow) (ts : List TxnRow)
    → pos 0 ≤ℤ t.amount
    → daily_total since id (t ∷ ts) ≤ℤ t.amount +ℤ daily_total since id ts
unfolding daily_total
total-row since id t ts h = elim (Bool-cases (counts_today since id t)) [
  | inl yes_today ↦ rw yes_today (omega arith)
  | inr miss ↦ rw miss (le_add_left t.amount (daily_total since id ts) h)
]

approved-IsCovered :
    (env : Env) (req : WithdrawalRequest) (account : String) (a b : AccountRow) (stan : ℕ) (db : Db)
    → find_account account db ≡ some a
    → find_account account db ≡ some b
    → b.id ≡ account
    → pos 0 ≤ℤ req.amount
    → req.amount ≤ℤ a.balance
    → daily_total (start_of_day env.now) account db.transactions +ℤ req.amount ≤ℤ pos a.daily_limit
    → IsCovered
        (start_of_day env.now)
        (withdrawal_row env req account stan ∷ db.transactions)
        (debit req.amount b)
approved-IsCovered env req account a b stan db found here same amount funds limit =
    let since = start_of_day env.now in
    let row = withdrawal_row env req account stan in
    let one : b ≡ a = cc in
    (
      rw one (debit_covers a.balance req.amount funds),
      le_trans (daily_total since b.id (row ∷ db.transactions))
          (req.amount +ℤ daily_total since b.id db.transactions) (pos b.daily_limit)
          (total-row since b.id row db.transactions amount)
          (rw (same, one, add_comm req.amount (daily_total since account db.transactions)) limit),
    )

approve-IsLedger :
    (env : Env) (req : WithdrawalRequest) (account : String) (a : AccountRow) (stan : ℕ)
    (sw : IsoSwitchProfile) (db : Db)
    → IsLedger (start_of_day env.now) db
    → find_account account db ≡ some a
    → pos 0 ≤ℤ req.amount
    → req.amount ≤ℤ a.balance
    → daily_total (start_of_day env.now) account db.transactions +ℤ req.amount ≤ℤ pos a.daily_limit
    → IsLedger (start_of_day env.now) (approve env req account a stan sw db).1
approve-IsLedger env req account a stan sw db v found amount funds limit =
    let since = start_of_day env.now in
    let row = withdrawal_row env req account stan in
    record {
      unique = update_account-IsUnique account (debit req.amount) db.accounts (λ _. refl) v.unique;
      covered =
          update_account-All (IsCovered since db.transactions)
            (IsCovered since (row ∷ db.transactions)) account (debit req.amount) db.accounts
            v.unique v.covered
            (λ b ne c. (c.0, rw (total-row_other since b.id row db.transactions ne) c.1))
            (λ b here same c.
              approved-IsCovered env req account a b stan db found here same amount funds limit);
      counted = (amount, v.counted);
    }

mark_reversed-IsCounted :
    (stan : ℕ) (ts : List TxnRow) → IsCounted ts → IsCounted (mark_reversed stan ts)
unfolding mark_reversed
mark_reversed-IsCounted stan [] h = tt
mark_reversed-IsCounted stan (t ∷ ts) (now, later) =
    (ground arith, mark_reversed-IsCounted stan ts later)

pub total-mark_reversed :
    (since : ℕ) (id : String) (stan : ℕ) (ts : List TxnRow)
    → IsCounted ts
    → daily_total since id (mark_reversed stan ts) ≤ℤ daily_total since id ts
unfolding daily_total mark_reversed
total-mark_reversed since id stan [] h = omega arith
total-mark_reversed since id stan (t ∷ ts) (now, later) =
    let rest = daily_total since id ts in
    let marked = daily_total since id (mark_reversed stan ts) in
    ground (
      arith,
      total-mark_reversed since id stan ts later,
      +ℤ_parts t.amount rest,
      +ℤ_parts t.amount marked,
    )

reversal_total :
    (since : ℕ) (id : String) (env : Env) (r : Reversal) (ts : List TxnRow)
    → IsCounted ts
    → daily_total since id (reversal_row env r ∷ mark_reversed r.stan_no ts)
      ≤ℤ daily_total since id ts
unfolding daily_total
reversal_total since id env r ts h = ground (arith, total-mark_reversed since id r.stan_no ts h)

reverse-IsLedger :
    (since : ℕ) (env : Env) (r : Reversal) (h : Host)
    → pos 0 ≤ℤ r.amount
    → IsLedger since h.db
    → IsLedger since (reverse_transaction env r h).1.db
unfolding reverse_transaction
reverse-IsLedger since env r h amount v =
    let ts = h.db.transactions in
    let less = λ (b : AccountRow) (limit : daily_total since b.id ts ≤ℤ pos b.daily_limit).
      le_trans (daily_total since b.id (reversal_row env r ∷ mark_reversed r.stan_no ts))
        (daily_total since b.id ts) (pos b.daily_limit)
        (reversal_total since b.id env r ts v.counted) limit in
    elim (Bool-cases env.db_up) [
      | inr down ↦ rw (down, reverse_transaction) v
      | inl up ↦
          rw (up, reverse_transaction)
            (elim (Option-cases (find_account r.account_id h.db)) [
              | inl missing ↦ rw missing v
              | inr (a, found) ↦ rw found (record {
                unique =
                    update_account-IsUnique r.account_id (credit r.amount) h.db.accounts (λ _. refl)
                      v.unique;
                covered =
                    update_account-All (IsCovered since h.db.transactions)
                      (IsCovered since
                        (reversal_row env r ∷ mark_reversed r.stan_no h.db.transactions))
                      r.account_id (credit r.amount) h.db.accounts v.unique v.covered
                      (λ b _ c. (c.0, less b c.1))
                      (λ b _ _ c. (credit_covers b.balance r.amount amount c.0, less b c.1));
                counted = (amount, mark_reversed-IsCounted r.stan_no h.db.transactions v.counted);
              })
            ])
    ]

authorize-IsLedger :
    (env : Env) (req : WithdrawalRequest) (h : Host)
    → pos 0 ≤ℤ req.amount
    → IsLedger (start_of_day env.now) h.db
    → IsLedger (start_of_day env.now) (authorize_withdrawal env req h).1.db
unfolding authorize_withdrawal
authorize-IsLedger env req h amount v = elim (Bool-cases env.db_up) [
  | inr down ↦ rw (down, authorize_withdrawal) v
  | inl up ↦
      rw (up, authorize_withdrawal)
        (authorize_cases (λ x. IsLedger (start_of_day env.now) x.1) env req
          (format_stan h.stan_counter) (chosen_switch req) h.db (λ _ _. v)
          (λ card a _ found _ funds limit.
            approve-IsLedger env req card.account_id a (format_stan h.stan_counter)
              (chosen_switch req) h.db v found amount funds limit))
]

verify-accounts :
    (k : Crypto) (env : Env) (pan : String) (pin : List ℕ) (h : Host)
    → ((verify_card_pin k env pan pin h).1.db.accounts ≡ h.db.accounts)
      × ((verify_card_pin k env pan pin h).1.db.transactions ≡ h.db.transactions)
unfolding verify_card_pin
verify-accounts k env pan pin h = elim (Option-cases (find_card pan h.db)) [
  | inl e ↦ ground arith
  | inr (card, e) ↦ ground arith
]

retain-accounts :
    (env : Env) (pan : String) (h : Host)
    → ((retain_card env pan h).1.db.accounts ≡ h.db.accounts)
      × ((retain_card env pan h).1.db.transactions ≡ h.db.transactions)
unfolding retain_card
retain-accounts env pan h = elim (Option-cases (find_card pan h.db)) [
  | inl e ↦ ground arith
  | inr (card, e) ↦ ground arith
]

-- The amount of a call is not negative.
abbrev pub IsAmount : HostCall → Type 0
IsAmount (HostCall.authorize env req) = pos 0 ≤ℤ req.amount
IsAmount (HostCall.reverse env r) = pos 0 ≤ℤ r.amount
IsAmount (HostCall.verify env pan pin) = Unit
IsAmount (HostCall.retain env pan) = Unit

module _ (k : Crypto) (since : ℕ) where
  pub apply-IsLedger :
      (call : HostCall) (h : Host)
      → start_of_day (env_of call).now ≡ since
      → IsAmount call
      → IsLedger since h.db
      → IsLedger since (apply k call h).db
  unfolding apply
  apply-IsLedger (HostCall.authorize env req) h day amount v =
      subst (λ x. IsLedger x (authorize_withdrawal env req h).1.db) day
        (authorize-IsLedger env req h amount (subst (λ x. IsLedger x h.db) (sym day) v))
  apply-IsLedger (HostCall.reverse env r) h day amount v = reverse-IsLedger since env r h amount v
  apply-IsLedger (HostCall.verify env pan pin) h day amount v =
      let (accounts, rows) = verify-accounts k env pan pin h in
      record {
        unique = rw accounts v.unique;
        covered = rw (accounts, rows) v.covered;
        counted = rw rows v.counted;
      }
  apply-IsLedger (HostCall.retain env pan) h day amount v =
      let (accounts, rows) = retain-accounts env pan h in
      record {
        unique = rw accounts v.unique;
        covered = rw (accounts, rows) v.covered;
        counted = rw rows v.counted;
      }
