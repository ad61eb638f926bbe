-- ===== src/Host/Tests.antt =====
-- The host's theorems at concrete inputs.
use atm_xfs_simulator.Common.{
  ℕ, ◌+◌, ◌-◌, ◌++◌, ◌≤◌, ◌≡◌, refl, ◌≢◌, ◌↔◌, ◌⊎◌, String, true, false, none, some, List, [], ◌∷◌,
  ok, All, arith, inl, eq_iff,
}
use atm_xfs_simulator.Common.Int.{pos, ◌-ℤ◌, ◌+ℤ◌, ◌≤ℤ◌}
use atm_xfs_simulator.Iso.{IsoResponseCode}
use atm_xfs_simulator.Iso.Switches.{get_switch_by_pan}
use atm_xfs_simulator.Shared.{format_stan}
use atm_xfs_simulator.Shared.Pin.{Crypto, codes, hash_pin, verify_pin, list_eq}
use atm_xfs_simulator.Host.Tables.{
  Db, CardRow, CardStatus, AccountRow, AccountStatus, TxnRow, TxnType, TxnStatus, find_card,
  card_in, account_in, daily_total,
}
use atm_xfs_simulator.Host.Card.{is_expired}
use atm_xfs_simulator.Host.{
  Host, Env, HostCall, WithdrawalRequest, Reversal, accepted, authenticate, authorize_withdrawal,
  reverse_transaction, run, verify_card_pin, refused,
}
use atm_xfs_simulator.Host.Ledger.{IsLedger}
use atm_xfs_simulator.Host.Day.{IsExact, run-IsLedger}
use atm_xfs_simulator.Host.Reverse.{IsFreshStan, reversal_of}
use atm_xfs_simulator.Host.Undo.{
  Outcome, authorize_withdrawal-Outcome, reverse-authorize, reverse_forgets,
}
use atm_xfs_simulator.Host.Pins.{
  IsHexCodec, verify_pin-hash_pin, authenticate_iff, IsAccepted, verify_card_pin-failures, failures,
}

-- A digest and a codec to run with: the digest is the PIN after its salt, and a byte is written as
-- itself above `$`.
abbrev shift : List ℕ → List ℕ
shift [] = []
shift (x ∷ xs) = (x + 37) ∷ shift xs

abbrev unshift : List ℕ → List ℕ
unshift [] = []
unshift (x ∷ xs) = (x - 37) ∷ unshift xs

abbrev plain_crypto : Crypto
plain_crypto = record { sha256 = λ salt pin. salt ++ pin; from_hex = unshift; to_hex = shift }

unshift-shift : (xs : List ℕ) → unshift (shift xs) ≡ xs
unshift-shift [] = refl
unshift-shift (x ∷ xs) = ground (arith, unshift-shift xs)

shift-plain : (xs : List ℕ) → All (λ c. c ≢ 36) (shift xs)
shift-plain [] = tt
shift-plain (x ∷ xs) = (omega arith, shift-plain xs)

shift-ne-nil : (xs : List ℕ) → xs ≢ [] → shift xs ≢ []
shift-ne-nil [] h e = h refl
shift-ne-nil (x ∷ xs) h e = cc

plain_crypto-IsHexCodec : IsHexCodec plain_crypto
plain_crypto-IsHexCodec = record {
  decodes = unshift-shift;
  plain = shift-plain;
  inhabited = shift-ne-nil;
}

verify_pin-hash_pin_example :
    verify_pin plain_crypto (codes "1235") (hash_pin plain_crypto (7 ∷ []) (codes "1234"))
    ≡ list_eq (7 ∷ codes "1235") (7 ∷ codes "1234")
verify_pin-hash_pin_example =
    verify_pin-hash_pin plain_crypto (7 ∷ []) (codes "1234") (codes "1235") plain_crypto-IsHexCodec
      (λ e. cc) (λ e. cc)

abbrev card : CardRow
card = record {
  pan = "4097000000000001";
  expiry_date = codes "3012";
  pin = codes "sha256$X$XYZ";
  status = CardStatus.active;
  failed_pin_count = 2;
  account_id = "acc1";
}

abbrev account : String → ℕ → AccountRow
account id n = record {
  id = id;
  balance = pos n;
  currency = "IDR";
  daily_limit = 10000000;
  daily_withdrawn = pos 0;
  status = AccountStatus.active;
}

-- A withdrawal of another account under the STAN 1, before the server was started again.
abbrev earlier : TxnRow
earlier = record {
  session_id = "SESS_1";
  pan = "4577000000000002";
  account_id = "acc2";
  txn_type = TxnType.withdrawal;
  amount = pos 9000000;
  currency = "IDR";
  status = TxnStatus.completed;
  stan_no = 1;
  auth_code = some 123456;
  response_code = some IsoResponseCode.approved;
  created_at = 1000;
}

abbrev tables : Db
tables = record {
  cards = card ∷ [];
  accounts = account "acc1" 500000 ∷ account "acc2" 500000 ∷ [];
  transactions = earlier ∷ [];
}

abbrev host : Host
host = record { stan_counter = 7; db = tables }

abbrev env : Env
env = record {
  now = record { ms = 5000; year = 2026; month = 4 };
  auth_code = 654321;
  db_up = true;
}

abbrev request : ℕ → WithdrawalRequest
request amount = record {
  pan = "4097000000000001";
  amount = pos amount;
  session_id = "SESS_2";
  switch_profile = none;
}

abbrev undo : Reversal
undo = record {
  stan_no = 1;
  session_id = "SESS_2";
  pan = "4097000000000001";
  account_id = "acc1";
  amount = pos 100000;
}

-- What a run computes with.
host_runs : Unit {0}
unfolding authorize_withdrawal card_in account_in daily_total format_stan get_switch_by_pan ◌-ℤ◌
    ◌+ℤ◌ is_expired authenticate
host_runs = tt

two_ids : ◌≢◌ {A = String} "acc2" "acc1"
two_ids = ground (arith, eq_iff "acc2" "acc1")

tables-IsLedger : IsLedger 0 tables
unfolding daily_total ◌+ℤ◌
tables-IsLedger = record {
  unique = ((two_ids, tt), (tt, tt));
  covered = ((omega arith, omega arith), ((omega arith, omega arith), tt));
  counted = (omega arith, tt);
}

approved_100000 : (authorize_withdrawal env (request 100000) host).0.approved ≡ true
unfolding host_runs
approved_100000 = refl

abbrev day : List HostCall
day =
    HostCall.authorize env (request 400000)
    ∷ HostCall.authorize env (request 400000)
    ∷ HostCall.reverse env undo
    ∷ HostCall.verify env "4097000000000001" (codes "1234")
    ∷ HostCall.retain env "4097000000000001"
    ∷ []

run-IsLedger_example : IsLedger 0 (run plain_crypto day host).db × IsExact plain_crypto 0 day host
run-IsLedger_example =
    run-IsLedger plain_crypto 0 day host (refl, (refl, (refl, (refl, (refl, tt)))))
      (omega arith, (omega arith, (omega arith, (tt, (tt, tt))))) tables-IsLedger

authorize_withdrawal-Outcome_example :
    let (answer, h') = authorize_withdrawal env (request 100000) host in
    Outcome env (request 100000) (format_stan 7) tables (answer, h'.db)
    × (answer.stan_no ≡ format_stan 7)
    × (h'.stan_counter ≡ 8)
authorize_withdrawal-Outcome_example = authorize_withdrawal-Outcome env (request 100000) host

fresh_stan : IsFreshStan (format_stan 7) tables.transactions
unfolding format_stan
fresh_stan = (λ _. omega arith, tt)

reverse-authorize_example :
    let (answer, h') = authorize_withdrawal env (request 100000) host in
    let (undone, h'') =
      reverse_transaction env (reversal_of (request 100000) answer.stan_no "acc1") h' in
    (undone ≡ ok tt)
    × (h''.db.accounts ≡ tables.accounts)
    × ((since : ℕ) (id : String)
        → daily_total since id h''.db.transactions ≡ daily_total since id tables.transactions)
unfolding card_in
reverse-authorize_example =
    reverse-authorize env env (request 100000) card host approved_100000 refl refl fresh_stan

reverse_forgets_example :
    let h' = (reverse_transaction env undo host).1 in
    (daily_total 0 "acc2" h'.db.transactions +ℤ pos 9000000
      ≤ℤ daily_total 0 "acc2" tables.transactions)
    × (account_in "acc2" h'.db.accounts ≡ account_in "acc2" tables.accounts)
unfolding account_in
reverse_forgets_example =
    reverse_forgets env undo host (account "acc1" 500000) 0 "acc2" earlier refl refl
      (omega arith, tt) (inl refl) refl refl two_ids

authenticate_iff_example :
    (authenticate env "4097000000000001" host ≡ ok (accepted (some "acc1"))) ↔ (
      (c : CardRow) × (a : AccountRow) × (env.db_up ≡ true)
      × (find_card "4097000000000001" tables ≡ some c)
      × IsAccepted env tables c a "acc1")
authenticate_iff_example = authenticate_iff env "4097000000000001" host "acc1"

verify_card_pin-failures_example :
    let (answer, h') = verify_card_pin plain_crypto env "4097000000000001" (codes "9999") host in
    ((verify_pin plain_crypto (codes "9999") card.pin ≡ true)
      × (answer ≡ ok (accepted none))
      × (failures "4097000000000001" h'.db ≡ some 0))
    ⊎ ((verify_pin plain_crypto (codes "9999") card.pin ≡ false)
        × (failures "4097000000000001" h'.db ≡ some 3)
        × (((3 ≤ 2) × (answer ≡ ok (refused IsoResponseCode.incorrect_pin)))
            ⊎ ((3 ≤ 3) × (answer ≡ ok (refused IsoResponseCode.pin_tries_exceeded)))))
unfolding card_in
verify_card_pin-failures_example =
    verify_card_pin-failures plain_crypto env "4097000000000001" (codes "9999") card host refl refl
