-- ===== src/Host/Tables.antt =====
-- The tables of prisma/schema.prisma that apps/xfs-server/src/host/host-emulator.service.ts uses,
-- and its queries. `findUnique` and `update` by a unique key act on the first row that has it.
use atm_xfs_simulator.Common.{
  ℕ, String, Bool, true, false, ◌&&◌, Option, none, some, List, [], ◌∷◌, leb, ◌==◌, str_eq,
  if◌then◌else◌,
}
use atm_xfs_simulator.Common.Int.{ℤ, pos, ◌+ℤ◌}
use atm_xfs_simulator.Iso.{IsoResponseCode}

pub data CardStatus : Type 0 where
  active blocked expired retained : CardStatus

pub data AccountStatus : Type 0 where
  active blocked closed : AccountStatus

pub data TxnType : Type 0 where
  withdrawal balance transfer deposit : TxnType

pub data TxnStatus : Type 0 where
  pending completed failed reversed : TxnStatus

pub record CardRow : Type 0 where
  pub pan : String
  pub expiry_date : List ℕ
  pub pin : List ℕ
  pub status : CardStatus
  pub failed_pin_count : ℕ
  pub account_id : String

pub record AccountRow : Type 0 where
  pub id : String
  pub balance : ℤ
  pub currency : String
  pub daily_limit : ℕ
  pub daily_withdrawn : ℤ
  pub status : AccountStatus

pub record TxnRow : Type 0 where
  pub session_id : String
  pub pan : String
  pub account_id : String
  pub txn_type : TxnType
  pub amount : ℤ
  pub currency : String
  pub status : TxnStatus
  pub stan_no : ℕ
  pub auth_code : Option ℕ
  pub response_code : Option IsoResponseCode
  pub created_at : ℕ

pub record Db : Type 0 where
  pub cards : List CardRow
  pub accounts : List AccountRow
  pub transactions : List TxnRow

abbrev pub is_active : AccountStatus → Bool
is_active AccountStatus.active = true
is_active _ = false

abbrev pub is_completed : TxnStatus → Bool
is_completed TxnStatus.completed = true
is_completed _ = false

abbrev pub is_withdrawal : TxnType → Bool
is_withdrawal TxnType.withdrawal = true
is_withdrawal _ = false

unfoldable pub card_in : String → List CardRow → Option CardRow
card_in pan [] = none
card_in pan (c ∷ cs) = if str_eq c.pan pan then some c else card_in pan cs

abbrev pub find_card : String → Db → Option CardRow
find_card pan db = card_in pan db.cards

unfoldable pub account_in : String → List AccountRow → Option AccountRow
account_in id [] = none
account_in id (a ∷ rows) = if str_eq a.id id then some a else account_in id rows

abbrev pub find_account : String → Db → Option AccountRow
find_account id db = account_in id db.accounts

unfoldable pub update_in : String → (CardRow → CardRow) → List CardRow → List CardRow
update_in pan f [] = []
update_in pan f (c ∷ cs) = if str_eq c.pan pan then f c ∷ cs else c ∷ update_in pan f cs

abbrev pub update_card : String → (CardRow → CardRow) → Db → Db
update_card pan f db = record db { cards = update_in pan f db.cards }

unfoldable pub update_account :
    String → (AccountRow → AccountRow) → List AccountRow → List AccountRow
update_account id f [] = []
update_account id f (a ∷ rows) = if str_eq a.id id then f a ∷ rows else a ∷ update_account id f rows

-- The filter of the aggregate over the transactions table.
abbrev pub counts_today : ℕ → String → TxnRow → Bool
counts_today since account t =
    str_eq t.account_id account
    && is_completed t.status
    && is_withdrawal t.txn_type
    && leb since t.created_at

unfoldable pub daily_total : ℕ → String → List TxnRow → ℤ
daily_total since account [] = pos 0
daily_total since account (t ∷ ts) =
    let rest = daily_total since account ts in
    if counts_today since account t then t.amount +ℤ rest else rest

-- `updateMany` where the STAN matches and the status is COMPLETED.
abbrev pub reverse_row : ℕ → TxnRow → TxnRow
reverse_row stan t =
    if t.stan_no == stan && is_completed t.status
    then record t { status = TxnStatus.reversed }
    else t

unfoldable pub mark_reversed : ℕ → List TxnRow → List TxnRow
mark_reversed stan [] = []
mark_reversed stan (t ∷ ts) = reverse_row stan t ∷ mark_reversed stan ts
