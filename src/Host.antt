-- ===== src/Host.antt =====
-- apps/xfs-server/src/host/host-emulator.service.ts: the mock ISO 8583 host over its database. The
-- rows of prisma/schema.prisma that it reads and writes are lists; one call of the service is one
-- step, since a withdrawal and a reversal each run under the account's lock. The texts of reasons
-- are left out, and a STAN is the number that its digits show.
pub mod Tables
pub mod Card
pub mod Accounts
pub mod Ledger
pub mod Reverse
pub mod Day
pub mod Undo
pub mod Pins
mod Tests
use atm_xfs_simulator.Common.{
  ℕ, ◌+◌, ◌-◌, ◌%◌, ◌≡◌, refl, String, Bool, true, false, not, ◌&&◌, Option, none, some, List, [],
  ◌∷◌, Result, ok, err, ltb, leb, if◌then◌else◌, str_eq,
}
use atm_xfs_simulator.Common.Int.{ℤ, pos, ◌+ℤ◌, ◌-ℤ◌, ltb_ℤ}
use atm_xfs_simulator.Iso.{IsoResponseCode}
use atm_xfs_simulator.Iso.Switches.{IsoSwitchId, IsoSwitchProfile, get_switch_by_pan}
use atm_xfs_simulator.Shared.{format_stan}
use atm_xfs_simulator.Shared.Pin.{Crypto, verify_pin}
use Tables.{
  Db, CardRow, CardStatus, AccountRow, AccountStatus, TxnRow, TxnStatus, TxnType, is_active,
  find_card, find_account, update_card, update_account, daily_total, mark_reversed,
}
use Card.{Now, is_expired, start_of_day}

pub record Host : Type 0 where
  pub stan_counter : ℕ
  pub db : Db

-- What the outside decides: the clock, the random authorisation code, and whether the database
-- answers; when it does not, a transaction has no effect.
pub record Env : Type 0 where
  pub now : Now
  pub auth_code : ℕ
  pub db_up : Bool

pub data HostError : Type 0 where
  db_failure : HostError

pub record AuthResult : Type 0 where
  pub success : Bool
  pub account_id : Option String
  pub response_code : IsoResponseCode

pub record AuthorizationResult : Type 0 where
  pub approved : Bool
  pub response_code : IsoResponseCode
  pub auth_code : Option ℕ
  pub stan_no : ℕ
  pub balance_after : Option ℤ
  pub switch_id : IsoSwitchId

pub record BalanceResult : Type 0 where
  pub amount : ℤ
  pub currency : String
  pub response_code : IsoResponseCode

abbrev pub refused : IsoResponseCode → AuthResult
refused code = record { success = false; account_id = none; response_code = code }

abbrev pub accepted : Option String → AuthResult
accepted account = record {
  success = true;
  account_id = account;
  response_code = IsoResponseCode.approved;
}

-- The account of a card that has passed the tests on the card itself.
abbrev pub check_account : CardRow → Option AccountRow → AuthResult
check_account card none = refused IsoResponseCode.no_card_record
check_account card (some a) =
    if is_active a.status
    then accepted (some card.account_id)
    else refused IsoResponseCode.no_card_record

abbrev pub check_status : CardStatus → AuthResult → AuthResult
check_status CardStatus.blocked other = refused IsoResponseCode.card_blocked
check_status CardStatus.retained other = refused IsoResponseCode.restricted_card
check_status _ other = other

abbrev pub check_card : Now → Db → Option CardRow → AuthResult
check_card now db none = refused IsoResponseCode.invalid_card
check_card now db (some card) = check_status card.status (
    if is_expired now card.expiry_date
    then refused IsoResponseCode.expired_card
    else check_account card (find_account card.account_id db))

unfoldable pub authenticate : Env → String → Host → Result HostError AuthResult
authenticate env pan h =
    if env.db_up then ok (check_card env.now h.db (find_card pan h.db)) else err db_failure

abbrev pub count_failure : CardRow → CardRow
count_failure card = record card { failed_pin_count = card.failed_pin_count + 1 }

abbrev pub clear_failures : CardRow → CardRow
clear_failures card = record card { failed_pin_count = 0 }

abbrev pub set_db : Host → Db → Host
set_db h db = record h { db = db }

-- The code after a wrong PIN, from the count before it.
abbrev pub failure_code : ℕ → IsoResponseCode
failure_code before =
    if leb 3 (before + 1) then IsoResponseCode.pin_tries_exceeded else IsoResponseCode.incorrect_pin

module _ (k : Crypto) where
  abbrev pub verify_found : String → List ℕ → Option CardRow → Host → AuthResult × Host
  verify_found pan pin none h = (refused IsoResponseCode.invalid_card, h)
  verify_found pan pin (some card) h =
      if verify_pin k pin card.pin
      then (accepted none, set_db h (update_card pan clear_failures h.db))
      else (
        refused (failure_code card.failed_pin_count),
        set_db h (update_card pan count_failure h.db),
      )

  -- `verifyPin`
  unfoldable pub verify_card_pin : Env → String → List ℕ → Host → Result HostError AuthResult × Host
  verify_card_pin env pan pin h =
      if env.db_up
      then (let (answer, h') = verify_found pan pin (find_card pan h.db) h in (ok answer, h'))
      else (err db_failure, h)

-- The amount may be negative. Of the numbers of the source, fractions and NaN are left out.
pub record WithdrawalRequest : Type 0 where
  pub pan : String
  pub amount : ℤ
  pub session_id : String
  pub switch_profile : Option IsoSwitchProfile

abbrev pub chosen_switch : WithdrawalRequest → IsoSwitchProfile
chosen_switch req = elim req.switch_profile [ some sw ↦ sw | none ↦ get_switch_by_pan req.pan ]

abbrev pub declined : ℕ → IsoSwitchProfile → IsoResponseCode → AuthorizationResult
declined stan sw code = record {
  approved = false;
  response_code = code;
  auth_code = none;
  stan_no = stan;
  balance_after = none;
  switch_id = sw.id;
}

abbrev pub debit : ℤ → AccountRow → AccountRow
debit amount a = record a {
  balance = a.balance -ℤ amount;
  daily_withdrawn = a.daily_withdrawn +ℤ amount;
}

abbrev pub withdrawal_row : Env → WithdrawalRequest → String → ℕ → TxnRow
withdrawal_row env req account stan = record {
  session_id = req.session_id;
  pan = req.pan;
  account_id = account;
  txn_type = TxnType.withdrawal;
  amount = req.amount;
  currency = "IDR";
  status = TxnStatus.completed;
  stan_no = stan;
  auth_code = some env.auth_code;
  response_code = some IsoResponseCode.approved;
  created_at = env.now.ms;
}

abbrev pub approve :
    Env
    → WithdrawalRequest
    → String
    → AccountRow
    → ℕ
    → IsoSwitchProfile
    → Db
    → AuthorizationResult × Db
approve env req account a stan sw db = (
  record {
    approved = true;
    response_code = IsoResponseCode.approved;
    auth_code = some env.auth_code;
    stan_no = stan;
    balance_after = some (debit req.amount a).balance;
    switch_id = sw.id;
  },
  record db {
    accounts = update_account account (debit req.amount) db.accounts;
    transactions = withdrawal_row env req account stan ∷ db.transactions;
  },
)

-- After the lock: `daily_limit` was read before it, the account `locked` is read again.
abbrev pub authorize_locked :
    Env
    → WithdrawalRequest
    → (account : String) → (daily_limit : ℕ) → Option AccountRow
    → ℕ
    → IsoSwitchProfile
    → Db
    → AuthorizationResult × Db
authorize_locked env req account daily_limit none stan sw db =
    (declined stan sw IsoResponseCode.no_card_record, db)
authorize_locked env req account daily_limit (some locked) stan sw db =
    if ltb_ℤ locked.balance req.amount
    then (declined stan sw IsoResponseCode.not_sufficient_funds, db)
    else if ltb_ℤ (pos daily_limit)
        (daily_total (start_of_day env.now) account db.transactions +ℤ req.amount)
    then (declined stan sw IsoResponseCode.exceeds_withdrawal_limit, db)
    else approve env req account locked stan sw db

abbrev pub authorize_account :
    Env
    → WithdrawalRequest
    → String
    → Option AccountRow
    → ℕ
    → IsoSwitchProfile
    → Db
    → AuthorizationResult × Db
authorize_account env req account none stan sw db =
    (declined stan sw IsoResponseCode.invalid_card, db)
authorize_account env req account (some a) stan sw db =
    if ltb_ℤ (pos sw.max_withdrawal_idr) req.amount
    then (declined stan sw IsoResponseCode.exceeds_withdrawal_limit, db)
    else authorize_locked env req account a.daily_limit (find_account account db) stan sw db

abbrev pub authorize_card :
    Env → WithdrawalRequest → Option CardRow → ℕ → IsoSwitchProfile → Db → AuthorizationResult × Db
authorize_card env req none stan sw db = (declined stan sw IsoResponseCode.invalid_card, db)
authorize_card env req (some card) stan sw db =
    authorize_account env req card.account_id (find_account card.account_id db) stan sw db

-- A failure of the database is caught and reported as a malfunction. The STAN is used up first.
unfoldable pub authorize_withdrawal : Env → WithdrawalRequest → Host → AuthorizationResult × Host
authorize_withdrawal env req h =
    let stan = format_stan h.stan_counter in
    let sw = chosen_switch req in
    let h' = record h { stan_counter = h.stan_counter + 1 } in
    if env.db_up
    then (let (answer, db) = authorize_card env req (find_card req.pan h.db) stan sw h.db in
        (answer, set_db h' db))
    else (declined stan sw IsoResponseCode.system_malfunction, h')

abbrev pub balance_of : Option AccountRow → BalanceResult
balance_of none = record {
  amount = pos 0;
  currency = "IDR";
  response_code = IsoResponseCode.invalid_card;
}
balance_of (some a) = record {
  amount = a.balance;
  currency = a.currency;
  response_code = IsoResponseCode.approved;
}

abbrev pub account_of : Db → Option CardRow → Option AccountRow
account_of db none = none
account_of db (some card) = find_account card.account_id db

unfoldable pub get_balance : Env → String → Host → Result HostError BalanceResult
get_balance env pan h =
    if env.db_up then ok (balance_of (account_of h.db (find_card pan h.db))) else err db_failure

pub record Reversal : Type 0 where
  pub stan_no : ℕ
  pub session_id : String
  pub pan : String
  pub account_id : String
  pub amount : ℤ

abbrev pub credit : ℤ → AccountRow → AccountRow
credit amount a = record a {
  balance = a.balance +ℤ amount;
  daily_withdrawn = a.daily_withdrawn -ℤ amount;
}

abbrev pub reversal_row : Env → Reversal → TxnRow
reversal_row env r = record {
  session_id = r.session_id;
  pan = r.pan;
  account_id = r.account_id;
  txn_type = TxnType.withdrawal;
  amount = r.amount;
  currency = "IDR";
  status = TxnStatus.reversed;
  stan_no = r.stan_no;
  auth_code = none;
  response_code = none;
  created_at = env.now.ms;
}

abbrev pub reverse_found :
    Env → Reversal → Option AccountRow → Host → Result HostError (Unit {0}) × Host
reverse_found env r none h = (err db_failure, h)
reverse_found env r (some a) h = (
  ok tt,
  set_db h (record h.db {
    accounts = update_account r.account_id (credit r.amount) h.db.accounts;
    transactions = reversal_row env r ∷ mark_reversed r.stan_no h.db.transactions;
  }),
)

-- An update of an account that is not there fails, and so does a database that is down; neither is
-- caught.
unfoldable pub reverse_transaction : Env → Reversal → Host → Result HostError (Unit {0}) × Host
reverse_transaction env r h =
    if env.db_up
    then reverse_found env r (find_account r.account_id h.db) h
    else (err db_failure, h)

abbrev pub set_retained : CardRow → CardRow
set_retained card = record card { status = CardStatus.retained }

abbrev pub retain_found : String → Option CardRow → Host → Result HostError (Unit {0}) × Host
retain_found pan none h = (err db_failure, h)
retain_found pan (some card) h = (ok tt, set_db h (update_card pan set_retained h.db))

unfoldable pub retain_card : Env → String → Host → Result HostError (Unit {0}) × Host
retain_card env pan h =
    if env.db_up then retain_found pan (find_card pan h.db) h else (err db_failure, h)

-- One call of the service, with what the outside decided during it.
pub data HostCall : Type 0 where
  authorize : Env → WithdrawalRequest → HostCall
  reverse : Env → Reversal → HostCall
  verify : Env → String → List ℕ → HostCall
  retain : Env → String → HostCall

module _ (k : Crypto) where
  unfoldable pub apply : HostCall → Host → Host
  apply (HostCall.authorize env req) h = (authorize_withdrawal env req h).1
  apply (HostCall.reverse env r) h = (reverse_transaction env r h).1
  apply (HostCall.verify env pan pin) h = (verify_card_pin k env pan pin h).1
  apply (HostCall.retain env pan) h = (retain_card env pan h).1

  unfoldable pub run : List HostCall → Host → Host
  run [] h = h
  run (call ∷ calls) h = run calls (apply call h)

-- The environment of a call.
abbrev pub env_of : HostCall → Env
env_of (HostCall.authorize env req) = env
env_of (HostCall.reverse env r) = env
env_of (HostCall.verify env pan pin) = env
env_of (HostCall.retain env pan) = env
