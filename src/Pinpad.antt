-- ===== src/Pinpad.antt =====
-- packages/xfs-devices/src/pin/pin.service.ts: the PIN pad. Keys are the texts that it tells apart;
-- the promise of an entry is settled once, and the log `settled` says how. Node's 3DES is the
-- parameter of `get_pin_block`; hexadecimal texts are lists of the values of their digits.
pub mod Block
pub mod Entry
pub mod Keys
pub mod Decode
mod Tests
use Prim.Native.Nat.{bit_xor}
use atm_xfs_simulator.Common.{
  ℕ, zero, suc, ◌+◌, ◌-◌, ◌≡◌, String, Bool, true, false, ◌&&◌, ◌||◌, Option, none, some, List, [],
  ◌∷◌, ◌++◌, Result, ok, err, if◌then◌else◌, ltb, leb, ◌==◌, str_eq, length,
}
use atm_xfs_simulator.Xfs.{XfsResult}
use atm_xfs_simulator.Xfs.Device.{Device}
use atm_xfs_simulator.Xfs.Device
use Block.{build_iso0_pin_block}

-- `digit d` is the text of the digit `d`; `text` is any other key.
pub data Key : Type 0 where
  digit : ℕ → Key
  cancel clear enter : Key
  text : String → Key

abbrev pub is_cancel : Key → Bool
is_cancel Key.cancel = true
is_cancel _ = false

abbrev pub key_eq : Key → Key → Bool
key_eq (digit a) (digit b) = a == b
key_eq Key.cancel Key.cancel = true
key_eq Key.clear Key.clear = true
key_eq Key.enter Key.enter = true
key_eq (text a) (text b) = str_eq a b
key_eq _ _ = false

-- `terminateKeys.includes(key)`
unfoldable pub includes : List Key → Key → Bool
includes [] k = false
includes (x ∷ xs) k = key_eq x k || includes xs k

pub record PinGetPinPayload : Type 0 where
  pub min_len : ℕ
  pub max_len : ℕ
  pub auto_end : Bool
  pub terminate_keys : List Key

pub data Mode : Type 0 where
  pin data_entry : Mode

pub record EntrySpec : Type 0 where
  pub spec : PinGetPinPayload
  pub mode : Mode

pub data Reason : Type 0 where
  device_reset superseded user_cancelled entry_timeout : Reason

pub data Settled : Type 0 where
  pin_length : ℕ → Settled
  entered_data : List ℕ → Settled
  rejected : Reason → Settled

pub data PinEvent : Type 0 where
  key : Key → PinEvent
  enter_data : Mode → (min_len max_len : ℕ) → PinEvent
  data_ready : (length : ℕ) → PinEvent

pub record Pinpad : Type 0 where
  pub device : Device
  pub pin_buffer : List ℕ
  pub active : Option EntrySpec
  pub emitted : List PinEvent
  pub settled : List Settled

abbrev pub emit : PinEvent → Pinpad → Pinpad
emit e p = record p { emitted = p.emitted ++ e ∷ [] }

abbrev pub settle : Settled → Pinpad → Pinpad
settle s p = record p { settled = p.settled ++ s ∷ [] }

unfoldable pub new : Pinpad
unfolding Device.open_service Device.initial
new = record {
  device = Device.open_service Device.initial;
  pin_buffer = [];
  active = none;
  emitted = [];
  settled = [];
}

abbrev pub cancel_active : Option EntrySpec → Reason → Pinpad → Pinpad
cancel_active none reason p = p
cancel_active (some e) reason p =
    settle (rejected reason) (record p { active = none; pin_buffer = [] })

unfoldable pub cancel_entry : Reason → Pinpad → Pinpad
cancel_entry reason p = cancel_active p.active reason p

abbrev pub finish : Mode → Pinpad → Pinpad
finish Mode.pin p = settle (pin_length (length p.pin_buffer)) p
finish Mode.data_entry p = settle (entered_data p.pin_buffer) (record p { pin_buffer = [] })

-- The buffer of a PIN entry stays, for the application to read.
abbrev pub terminate_active : Option EntrySpec → Pinpad → Pinpad
terminate_active none p = p
terminate_active (some e) p =
    finish e.mode (emit (data_ready (length p.pin_buffer)) (record p { active = none }))

unfoldable pub terminate_entry : Pinpad → Pinpad
terminate_entry p = terminate_active p.active p

-- `beginPinEntry` and `beginDataEntry`, which differ in the mode alone.
unfoldable pub begin_entry : Mode → PinGetPinPayload → Pinpad → Pinpad
begin_entry mode spec p =
    emit (enter_data mode spec.min_len spec.max_len) (record (cancel_entry superseded p) {
      pin_buffer = [];
      active = some (record { spec = spec; mode = mode });
    })

abbrev pub push : Key → PinGetPinPayload → Pinpad → Pinpad
push (digit d) spec p =
    if leb d 9 && ltb (length p.pin_buffer) spec.max_len
    then (let p' = record p { pin_buffer = p.pin_buffer ++ (48 + d) ∷ [] } in
        if spec.auto_end && length p'.pin_buffer == spec.max_len then terminate_entry p' else p')
    else p
push _ spec p = p

abbrev pub ends : Key → PinGetPinPayload → Bool
ends Key.enter spec = true
ends k spec = includes spec.terminate_keys k

abbrev pub handle : Key → PinGetPinPayload → Pinpad → Pinpad
handle Key.cancel spec p = cancel_entry user_cancelled p
handle Key.clear spec p = record p { pin_buffer = [] }
handle k spec p =
    if ends k spec
    then (if ltb (length p.pin_buffer) spec.min_len then p else terminate_entry p)
    else push k spec p

abbrev pub press_active : Option EntrySpec → Key → Pinpad → Pinpad
press_active none k p = p
press_active (some e) k p = handle k e.spec (emit (key k) p)

unfoldable pub press_key : Key → Pinpad → Pinpad
press_key k p = press_active p.active k p

-- The buffer, which is emptied.
unfoldable pub extract_entered_pin : Pinpad → List ℕ × Pinpad
extract_entered_pin p = (p.pin_buffer, record p { pin_buffer = [] })

-- The callback of the timer of an entry.
unfoldable pub entry_timed_out : Pinpad → Pinpad
entry_timed_out p = cancel_entry entry_timeout p

pub data PinError : Type 0 where
  injected : XfsResult → PinError
  no_pin_buffered : PinError
  key_not_found : String → PinError
  invalid_pin_length : ℕ → PinError
  unsupported_command : PinError

-- GET_PIN and GET_DATA have no answer of their own: their promise is settled later.
pub data PinAnswer : Type 0 where
  waiting : PinAnswer
  pin_block : (block : List ℕ) → (key_name : String) → PinAnswer
  keys : List String → PinAnswer
  done : PinAnswer

pub data PinCommand : Type 0 where
  get_pin get_data : PinGetPinPayload → PinCommand
  get_pinblock : (key_name : String) → (pan : List ℕ) → PinCommand
  get_key_detail reset other : PinCommand

-- `keyStore.get`: the two keys, by the values of their hexadecimal digits.
abbrev pub key_store : String → Option (List ℕ)
key_store name =
    if str_eq name "TPK"
    then some (
        0 ∷ 1 ∷ 2 ∷ 3 ∷ 4 ∷ 5 ∷ 6 ∷ 7 ∷ 8 ∷ 9 ∷ 10 ∷ 11 ∷ 12 ∷ 13 ∷ 14 ∷ 15 ∷ 0 ∷ 1 ∷ 2 ∷ 3 ∷ 4 ∷ 5
        ∷ 6 ∷ 7 ∷ 8 ∷ 9 ∷ 10 ∷ 11 ∷ 12 ∷ 13 ∷ 14 ∷ 15 ∷ [])
    else if str_eq name "TMK"
    then some (
        15 ∷ 14 ∷ 13 ∷ 12 ∷ 11 ∷ 10 ∷ 9 ∷ 8 ∷ 7 ∷ 6 ∷ 5 ∷ 4 ∷ 3 ∷ 2 ∷ 1 ∷ 0 ∷ 15 ∷ 14 ∷ 13 ∷ 12 ∷ 11
        ∷ 10 ∷ 9 ∷ 8 ∷ 7 ∷ 6 ∷ 5 ∷ 4 ∷ 3 ∷ 2 ∷ 1 ∷ 0 ∷ [])
    else none

module _ (des : List ℕ → List ℕ → List ℕ) where
  abbrev pub block_with :
      String → Option (List ℕ) → Option (List ℕ) → Pinpad → Result PinError PinAnswer × Pinpad
  block_with name none block p = (err (key_not_found name), p)
  block_with name (some k) none p = (err (invalid_pin_length (length p.pin_buffer)), p)
  block_with name (some k) (some block) p =
      (ok (pin_block (des block k) name), record p { pin_buffer = [] })

  abbrev pub block_of : List ℕ → String → List ℕ → Pinpad → Result PinError PinAnswer × Pinpad
  block_of [] name pan p = (err no_pin_buffered, p)
  block_of (c ∷ cs) name pan p =
      block_with name (key_store name) (build_iso0_pin_block (c ∷ cs) pan) p

  unfoldable pub get_pin_block : String → List ℕ → Pinpad → Result PinError PinAnswer × Pinpad
  get_pin_block name pan p = block_of p.pin_buffer name pan p

  unfoldable pub dispatch : PinCommand → Pinpad → Result PinError PinAnswer × Pinpad
  dispatch (PinCommand.get_pin spec) p = (ok waiting, begin_entry Mode.pin spec p)
  dispatch (PinCommand.get_data spec) p = (ok waiting, begin_entry Mode.data_entry spec p)
  dispatch (PinCommand.get_pinblock name pan) p = get_pin_block name pan p
  dispatch PinCommand.get_key_detail p = (ok (keys ("TPK" ∷ "TMK" ∷ [])), p)
  dispatch _ p = (err unsupported_command, p)

  abbrev pub dispatch_checked :
      Option XfsResult × Device → PinCommand → Pinpad → Result PinError PinAnswer × Pinpad
  dispatch_checked (none, d) cmd p = dispatch cmd (record p { device = d })
  dispatch_checked (some r, d) cmd p = (err (injected r), record p { device = d })

  unfoldable pub execute_command : PinCommand → Pinpad → Result PinError PinAnswer × Pinpad
  execute_command PinCommand.reset p = (
    ok done,
    record (cancel_entry device_reset p) { pin_buffer = []; device = Device.reset p.device },
  )
  execute_command cmd p = dispatch_checked (Device.check_injected_error p.device) cmd p
