-- ===== src/Ptr.antt =====
-- packages/xfs-devices/src/ptr/ptr.service.ts: the receipt printer. The clock and `JSON.stringify` are
-- the parameters of `Env`; the fields of a form are an association list.
mod Tests
pub mod Paper
use Prim.Native.String.{◌++◌ as str_append}
use atm_xfs_simulator.Common.{
  ℕ, ◌+◌, ◌-◌, String, Bool, true, false, Option, none, some, List, [], ◌∷◌, ◌++◌, Result, ok, err,
  if◌then◌else◌, ltb, leb, ◌==◌, str_eq, length, drop,
}
use atm_xfs_simulator.Xfs.{XfsResult}
use atm_xfs_simulator.Xfs.Device.{Device}
use atm_xfs_simulator.Xfs.Device

pub data PtrFormName : Type 0 where
  receipt journal statement : PtrFormName

abbrev pub Fields : Type 0
Fields = List (String × String)

pub record PtrPrintFormPayload : Type 0 where
  pub form_name : PtrFormName
  pub fields : Fields

-- `id` is the milliseconds in base 36, `iso` and `local` two texts of the same time.
pub record Env : Type 0 where
  pub id : String
  pub iso : String
  pub local : String
  pub stringify_form : PtrFormName → String → Fields → String

pub record PrintedReceipt : Type 0 where
  pub receipt_id : String
  pub timestamp : String
  pub content : String

pub data PtrEvent : Type 0 where
  paper_threshold : (level : ℕ) → PtrEvent
  media_presented : (receipt_id content : String) → PtrEvent
  media_taken : (receipt_id : String) → PtrEvent

-- `timers` has the receipts whose MEDIA_TAKEN is still to come.
pub record Ptr : Type 0 where
  pub device : Device
  pub paper_level : ℕ
  pub history : List PrintedReceipt
  pub timers : List String
  pub emitted : List PtrEvent

abbrev pub history_limit : ℕ
history_limit = 200

abbrev pub paper_limit : ℕ
paper_limit = 50

abbrev pub full_roll : ℕ
full_roll = 1000

unfoldable pub new : Ptr
unfolding Device.open_service Device.initial
new = record {
  device = Device.open_service Device.initial;
  paper_level = full_roll;
  history = [];
  timers = [];
  emitted = [];
}

abbrev pub emit : PtrEvent → Ptr → Ptr
emit e p = record p { emitted = p.emitted ++ e ∷ [] }

-- `fields[name] ?? fallback`
abbrev pub field_or : String → String → Fields → String
field_or name fallback [] = fallback
field_or name fallback ((k, v) ∷ fields) =
    let rest = field_or name fallback fields in if str_eq k name then v else rest

abbrev pub join_lines : List String → String
join_lines [] = ""
join_lines (l ∷ []) = l
join_lines (l ∷ m ∷ ls) = str_append l (str_append "\n" (join_lines (m ∷ ls)))

abbrev pub receipt_lines : String → Fields → List String
receipt_lines now f =
    "===================================="
    ∷ str_append "    " (field_or "bankName" "ZEGEN BANK" f)
    ∷ "===================================="
    ∷ now
    ∷ str_append "ATM:   " (field_or "atmId" "ATM001" f)
    ∷ str_append "Trace: " (field_or "traceNo" "000000" f)
    ∷ ""
    ∷ str_append "Transaction: " (field_or "txnType" "WITHDRAWAL" f)
    ∷ str_append "Card:        ****" (field_or "cardLast4" "0000" f)
    ∷ str_append "Account:     " (field_or "account" "-" f)
    ∷ ""
    ∷ str_append "Amount:      Rp " (field_or "amount" "0" f)
    ∷ str_append "Fee:         Rp " (field_or "fee" "0" f)
    ∷ "------------------------------------"
    ∷ str_append "Total:       Rp " (field_or "total" "0" f)
    ∷ ""
    ∷ str_append "Balance:     Rp " (field_or "balance" "***" f)
    ∷ ""
    ∷ "Thank you for banking with us."
    ∷ "===================================="
    ∷ []

-- A form name of another kind, which the payload's type does not allow, is left out.
unfoldable pub render_form : Env → PtrPrintFormPayload → String
render_form env payload = elim payload.form_name [
  | receipt ↦ join_lines (receipt_lines env.local payload.fields)
  | journal ↦ env.stringify_form PtrFormName.journal env.local payload.fields
  | statement ↦ env.stringify_form PtrFormName.statement env.local payload.fields
]

unfoldable pub record_receipt : PrintedReceipt → List PrintedReceipt → List PrintedReceipt
record_receipt r history =
    let pushed = history ++ r ∷ [] in
    if ltb history_limit (length pushed) then drop 1 pushed else pushed

unfoldable pub receipt_of : Env → PtrPrintFormPayload → PrintedReceipt
receipt_of env payload = record {
  receipt_id = str_append "RCPT" env.id;
  timestamp = env.iso;
  content = render_form env payload;
}

pub data PtrError : Type 0 where
  injected : XfsResult → PtrError
  out_of_paper unsupported_command : PtrError

pub data PtrAnswer : Type 0 where
  printed : (receipt_id : String) → PtrAnswer
  printed_raw : PtrAnswer
  done : PtrAnswer

abbrev pub warn_threshold : Ptr → Ptr
warn_threshold p =
    if leb p.paper_level paper_limit then emit (paper_threshold p.paper_level) p else p

abbrev pub present : PrintedReceipt → Ptr → Ptr
present r p =
    let q = emit (media_presented r.receipt_id r.content) p in
    record q { timers = q.timers ++ r.receipt_id ∷ [] }

unfoldable pub print_form : Env → PtrPrintFormPayload → Ptr → Result PtrError PtrAnswer × Ptr
print_form env payload p =
    if p.paper_level == 0
    then (err out_of_paper, p)
    else (let r = receipt_of env payload in
        (
          ok (printed r.receipt_id),
          present r (
              warn_threshold (record p {
                history = record_receipt r p.history;
                paper_level = p.paper_level - 1;
              })),
        ))

unfoldable pub print_raw : Env → String → Ptr → Result PtrError PtrAnswer × Ptr
print_raw env data_text p =
    if p.paper_level == 0
    then (err out_of_paper, p)
    else (let r : PrintedReceipt = record {
      receipt_id = str_append "RAW" env.id;
      timestamp = env.iso;
      content = data_text;
    } in
        (
          ok printed_raw,
          record p { history = record_receipt r p.history; paper_level = p.paper_level - 1 },
        ))

unfoldable pub replenish_paper : Ptr → Ptr
replenish_paper p = record p { paper_level = full_roll }

-- The callback of the oldest timer.
abbrev pub take_oldest : List String → Ptr → Ptr
take_oldest [] p = p
take_oldest (id ∷ ids) p = emit (media_taken id) (record p { timers = ids })

unfoldable pub take_timeout : Ptr → Ptr
take_timeout p = take_oldest p.timers p

pub data PtrCommand : Type 0 where
  form : PtrPrintFormPayload → PtrCommand
  raw_data : String → PtrCommand
  cut_paper reset other : PtrCommand

unfoldable pub dispatch : Env → PtrCommand → Ptr → Result PtrError PtrAnswer × Ptr
dispatch env (PtrCommand.form payload) p = print_form env payload p
dispatch env (PtrCommand.raw_data text) p = print_raw env text p
dispatch env PtrCommand.cut_paper p = (ok done, p)
dispatch env _ p = (err unsupported_command, p)

abbrev pub dispatch_checked :
    Env → Option XfsResult × Device → PtrCommand → Ptr → Result PtrError PtrAnswer × Ptr
dispatch_checked env (none, d) cmd p = dispatch env cmd (record p { device = d })
dispatch_checked env (some r, d) cmd p = (err (injected r), record p { device = d })

unfoldable pub execute_command : Env → PtrCommand → Ptr → Result PtrError PtrAnswer × Ptr
execute_command env PtrCommand.reset p = (ok done, record p { device = Device.reset p.device })
execute_command env cmd p = dispatch_checked env (Device.check_injected_error p.device) cmd p
