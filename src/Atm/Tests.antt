-- ===== src/Atm/Tests.antt =====
-- The application's theorems at concrete inputs.
use atm_xfs_simulator.Common.{
  List, ℕ, ◌≡◌, refl, String, true, none, some, [], ◌∷◌, ok, err, Option,
}
use atm_xfs_simulator.Common.Int.{pos, ◌-ℤ◌, ◌+ℤ◌}
use atm_xfs_simulator.Common.Number.{int}
use atm_xfs_simulator.Xfs.{XfsResult}
use atm_xfs_simulator.Xfs.Device
use atm_xfs_simulator.Iso.Switches.{get_switch_by_pan}
use atm_xfs_simulator.Shared.{format_stan}
use atm_xfs_simulator.Shared.Pin.{codes}
use atm_xfs_simulator.Idc.{VirtualCard}
use atm_xfs_simulator.Idc
use atm_xfs_simulator.Pinpad
use atm_xfs_simulator.Cdm.{CdmCommand}
use atm_xfs_simulator.Cdm
use atm_xfs_simulator.Cdm.Error.{CdmError}
use atm_xfs_simulator.Ptr.{PtrFormName, Fields}
use atm_xfs_simulator.Ptr
use atm_xfs_simulator.Host.Tables.{
  CardRow, CardStatus, AccountRow, AccountStatus, card_in, account_in, daily_total,
}
use atm_xfs_simulator.Host.{authorize_withdrawal}
use atm_xfs_simulator.Host
use atm_xfs_simulator.Host.Reverse.{IsFreshStan}
use atm_xfs_simulator.Atm.{
  Atm, AtmSession, AtmState, AtmTxnType, Env, no_session, cancel_transaction,
}
use atm_xfs_simulator.Atm.Withdrawal.{
  request_of, ask_host, authorized, payload_of, process_withdrawal,
}
use atm_xfs_simulator.Pinpad.{Key}
use atm_xfs_simulator.Shared.Pin.{Crypto}
use atm_xfs_simulator.Atm.Flow.{begin_pin_entry, verify_pin_buffer}
use atm_xfs_simulator.Atm.Entry.{IsUnverified, begin_pin_entry-cancel}
use atm_xfs_simulator.Atm.Cancel.{IsFree, EndsFree, cancel_transaction-EndsFree, authorized-cancel}
use atm_xfs_simulator.Atm.Reversal.{process_withdrawal-reversed}

abbrev card_row : CardRow
card_row = record {
  pan = "4097000000000001";
  expiry_date = codes "3012";
  pin = codes "sha256$X$XYZ";
  status = CardStatus.active;
  failed_pin_count = 0;
  account_id = "acc1";
}

abbrev account : AccountRow
account = record {
  id = "acc1";
  balance = pos 500000;
  currency = "IDR";
  daily_limit = 10000000;
  daily_withdrawn = pos 0;
  status = AccountStatus.active;
}

abbrev host : Host.Host
host = record {
  stan_counter = 1;
  db = record { cards = card_row ∷ []; accounts = account ∷ []; transactions = [] };
}

abbrev virtual_card : VirtualCard
virtual_card = record {
  pan = "4097000000000001";
  cardholder_name = "A";
  expiry_date = "3012";
  track1 = "t1";
  track2 = "t2";
  pin_hash = "h";
  chip_data = none;
  issuer = "ZEGEN";
}

abbrev session : AtmSession
session = record {
  id = "SESS_1";
  state = AtmState.processing;
  card_pan = "4097000000000001";
  account_id = some "acc1";
  selected_txn = some AtmTxnType.withdrawal;
  amount = some 100000;
  stan_no = none;
  failed_pin_attempts = 0;
  end_reason = none;
}

-- The dispenser has a hardware error waiting.
abbrev atm : Atm
atm = record {
  session = some session;
  idle_timer = none;
  idc = record Idc.new { current_card = some virtual_card; card_held = true };
  pinpad = Pinpad.new;
  cdm = record Cdm.new { device = Device.inject_error XfsResult.err_hardware_error Cdm.new.device };
  ptr = Ptr.new;
  host = host;
  emitted = [];
}

abbrev fields : String → Option ℕ → Option ℕ → Fields
fields pan stan amount = ("cardLast4", pan) ∷ []

abbrev json_form : PtrFormName → String → Fields → String
json_form name at fields = at

abbrev env : Env
env = record {
  host_env = record {
    now = record { ms = 5000; year = 2026; month = 4 };
    auth_code = 654321;
    db_up = true;
  };
  ptr_env = record { id = "M1"; iso = "2026"; local = "24/4/2026"; stringify_form = json_form };
  receipt_fields = fields;
}

cancel_transaction-EndsFree_example : EndsFree (cancel_transaction env atm)
unfolding Idc.new Device.open_service Device.initial
cancel_transaction-EndsFree_example = cancel_transaction-EndsFree env atm session refl refl refl

-- What a run computes with.
host_runs : Unit {0}
unfolding authorize_withdrawal card_in account_in daily_total format_stan get_switch_by_pan ◌-ℤ◌
    ◌+ℤ◌
host_runs = tt

approved_100000 : (ask_host env (request_of session 100000) atm).0.approved ≡ true
unfolding host_runs ask_host
approved_100000 = refl

authorized-cancel_example :
    let (auth, a1) = ask_host env (request_of session 100000) atm in
    let a2 = (cancel_transaction env a1).1 in
    let (answer, a3) = authorized env auth a2 in
    (answer ≡ err no_session)
    × (a3.host ≡ (authorize_withdrawal env.host_env (request_of session 100000) host).1)
    × (a3.cdm ≡ atm.cdm)
unfolding Idc.new Device.open_service Device.initial
authorized-cancel_example =
    authorized-cancel env (request_of session 100000) atm session refl refl refl approved_100000

fresh_stan : IsFreshStan (format_stan 1) host.db.transactions
fresh_stan = tt

refusal :
    (Cdm.execute_command (CdmCommand.dispense (payload_of (int (pos 100000)))) atm.cdm).0
    ≡ err (CdmError.injected XfsResult.err_hardware_error)
unfolding Cdm.execute_command Device.inject_error Device.check_injected_error
refusal = refl

process_withdrawal-reversed_example :
    let (answer, a') = process_withdrawal env (request_of session 100000) atm in
    (answer ≡ ok tt)
    × (a'.host.db.accounts ≡ host.db.accounts)
    × ((since : ℕ) (id : String)
        → daily_total since id a'.host.db.transactions ≡ daily_total since id host.db.transactions)
    × (a'.cdm.cash_units ≡ atm.cdm.cash_units)
    × IsFree a'
unfolding Idc.new Device.open_service Device.initial card_in
process_withdrawal-reversed_example =
    process_withdrawal-reversed env atm session card_row 100000
      (CdmError.injected XfsResult.err_hardware_error) refl refl refl refl refl refl fresh_stan
      approved_100000 refusal

abbrev crypto : Crypto
crypto = record { sha256 = λ salt pin. pin; from_hex = λ text. text; to_hex = λ bytes. bytes }

abbrev des : List ℕ → List ℕ → List ℕ
des block key = block

abbrev entering : AtmSession
entering = record session { state = AtmState.pin_entry }

abbrev atm_entering : Atm
atm_entering = record atm { session = some entering }

begin_pin_entry-cancel_example :
    let (begun, a1) = begin_pin_entry des atm_entering in
    let a2 = record a1 { pinpad = Pinpad.press_key Key.cancel a1.pinpad } in
    (begun ≡ ok tt) × IsUnverified entering atm_entering (verify_pin_buffer crypto env a2)
unfolding Pinpad.new Device.open_service Device.initial
begin_pin_entry-cancel_example =
    begin_pin_entry-cancel crypto des env atm_entering entering refl refl refl
