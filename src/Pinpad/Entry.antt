-- ===== src/Pinpad/Entry.antt =====
-- packages/xfs-devices/src/pin/pin.service.ts: the entries, from GET_PIN and GET_DATA to the answer of
-- their promise, over the key presses, the commands and the timer.
use atm_xfs_simulator.Common.{
  ℕ, suc, ◌+◌, ◌≡◌, ◌≤◌, refl, Bool, true, false, Option, none, some, List, [], ◌∷◌, ◌++◌, arith,
  ltb, leb, ◌==◌, length, length-append, All, if◌then◌else◌, String, ◌&&◌,
}
use atm_xfs_simulator.Pinpad.Block.{build_iso0_pin_block}
use atm_xfs_simulator.Xfs.{XfsResult}
use atm_xfs_simulator.Xfs.Device.{Device}
use atm_xfs_simulator.Xfs.Device
use atm_xfs_simulator.Pinpad.{
  Pinpad, Key, PinEvent, PinCommand, PinGetPinPayload, EntrySpec, Mode, Reason, digit, key,
  enter_data, data_ready, pin_length, entered_data, rejected, superseded, user_cancelled,
  entry_timeout, press_key, press_active, handle, push, cancel_entry, terminate_entry, begin_entry,
  extract_entered_pin, entry_timed_out, execute_command, dispatch, dispatch_checked, get_pin_block,
  block_with, block_of, key_store, device_reset, ends, emit, cancel_active, terminate_active,
  finish,
}

pub data PinCall : Type 0 where
  press : Key → PinCall
  execute : PinCommand → PinCall
  extract time_out : PinCall
  inject : XfsResult → PinCall

module _ (des : List ℕ → List ℕ → List ℕ) where
  unfoldable pub apply : PinCall → Pinpad → Pinpad
  apply (PinCall.press k) p = press_key k p
  apply (PinCall.execute cmd) p = (execute_command des cmd p).1
  apply PinCall.extract p = (extract_entered_pin p).1
  apply PinCall.time_out p = entry_timed_out p
  apply (PinCall.inject r) p = record p { device = Device.inject_error r p.device }

  unfoldable pub run : List PinCall → Pinpad → Pinpad
  run [] p = p
  run (call ∷ calls) p = run calls (apply call p)

-- The entries that were begun.
abbrev pub begun : List PinEvent → ℕ
begun [] = 0
begun (enter_data mode min_len max_len ∷ events) = suc (begun events)
begun (_ ∷ events) = begun events

abbrev pub pending : Option EntrySpec → ℕ
pending none = 0
pending (some e) = 1

abbrev pub Fits : Option EntrySpec → List ℕ → Type 0
Fits none buffer = Unit
Fits (some e) buffer = length buffer ≤ e.spec.max_len

emptied-Fits : (a : Option EntrySpec) → Fits a []
emptied-Fits none = tt
emptied-Fits (some e) = omega arith

abbrev pub IsDigit : ℕ → Type 0
IsDigit c = (48 ≤ c) × (c ≤ 57)

abbrev pub IsAnswered : Pinpad → Type 0
IsAnswered p =
    (begun p.emitted ≡ length p.settled + pending p.active)
    × All IsDigit p.pin_buffer
    × Fits p.active p.pin_buffer

pub begun-append : (xs ys : List PinEvent) → begun (xs ++ ys) ≡ begun xs + begun ys
begun-append [] ys = omega arith
begun-append (enter_data mode min_len max_len ∷ xs) ys = omega (arith, begun-append xs ys)
begun-append (key k ∷ xs) ys = begun-append xs ys
begun-append (data_ready n ∷ xs) ys = begun-append xs ys

All-append : (xs : List ℕ) (y : ℕ) → All IsDigit xs → IsDigit y → All IsDigit (xs ++ y ∷ [])
All-append [] y h hy = (hy, tt)
All-append (x ∷ xs) y (hx, h) hy = (hx, All-append xs y h hy)

emit-IsAnswered :
    (e : PinEvent) (p : Pinpad) → begun (e ∷ []) ≡ 0 → IsAnswered p → IsAnswered (emit e p)
emit-IsAnswered e p quiet (n, digits, fits) =
    (omega (arith, begun-append p.emitted (e ∷ [])), digits, fits)

cancel_active-IsAnswered :
    (a : Option EntrySpec) (reason : Reason) (p : Pinpad)
    → p.active ≡ a
    → IsAnswered p
    → IsAnswered (cancel_active a reason p)
cancel_active-IsAnswered none reason p e h = h
cancel_active-IsAnswered (some a) reason p e (n, digits, fits) =
    (ground (arith, e, n, length-append p.settled (rejected reason ∷ [])), tt, tt)

cancel-IsAnswered :
    (reason : Reason) (p : Pinpad) → IsAnswered p → IsAnswered (cancel_entry reason p)
unfolding cancel_entry
cancel-IsAnswered reason p h = cancel_active-IsAnswered p.active reason p refl h

-- No entry is open once one was cancelled.
cancel_active-none :
    (a : Option EntrySpec) (reason : Reason) (p : Pinpad)
    → p.active ≡ a
    → (cancel_active a reason p).active ≡ none
cancel_active-none none reason p e = e
cancel_active-none (some a) reason p e = refl

cancel-none : (reason : Reason) (p : Pinpad) → (cancel_entry reason p).active ≡ none
unfolding cancel_entry
cancel-none reason p = cancel_active-none p.active reason p refl

finish-IsAnswered :
    (mode : Mode) (p : Pinpad)
    → begun p.emitted ≡ suc (length p.settled)
    → All IsDigit p.pin_buffer
    → p.active ≡ none
    → IsAnswered (finish mode p)
finish-IsAnswered Mode.pin p n digits idle = (
  ground (arith, idle, n, length-append p.settled (pin_length (length p.pin_buffer) ∷ [])),
  digits,
  ground (arith, idle),
)
finish-IsAnswered Mode.data_entry p n digits idle = (
  ground (arith, idle, n, length-append p.settled (entered_data p.pin_buffer ∷ [])),
  tt,
  ground (arith, idle),
)

terminate_active-IsAnswered :
    (a : Option EntrySpec) (p : Pinpad)
    → p.active ≡ a
    → IsAnswered p
    → IsAnswered (terminate_active a p)
terminate_active-IsAnswered none p e h = h
terminate_active-IsAnswered (some a) p e (n, digits, fits) =
    finish-IsAnswered a.mode (emit (data_ready (length p.pin_buffer)) (record p { active = none }))
      (ground (arith, e, n, begun-append p.emitted (data_ready (length p.pin_buffer) ∷ []))) digits
      refl

terminate-IsAnswered : (p : Pinpad) → IsAnswered p → IsAnswered (terminate_entry p)
unfolding terminate_entry
terminate-IsAnswered p h = terminate_active-IsAnswered p.active p refl h

begin-IsAnswered :
    (mode : Mode) (spec : PinGetPinPayload) (p : Pinpad)
    → IsAnswered p
    → IsAnswered (begin_entry mode spec p)
unfolding begin_entry
begin-IsAnswered mode spec p h =
    let q = cancel_entry superseded p in
    (
      ground (
        arith,
        cancel-none superseded p,
        (cancel-IsAnswered superseded p h).0,
        begun-append q.emitted (enter_data mode spec.min_len spec.max_len ∷ []),
      ),
      tt,
      omega arith,
    )

if-IsAnswered :
    (b : Bool) (p q : Pinpad)
    → (b ≡ true → IsAnswered p)
    → (b ≡ false → IsAnswered q)
    → IsAnswered (if b then p else q)
if-IsAnswered true p q on off = on refl
if-IsAnswered false p q on off = off refl

type-IsAnswered :
    (d : ℕ) (e : EntrySpec) (p : Pinpad)
    → p.active ≡ some e
    → IsAnswered p
    → (leb d 9 && ltb (length p.pin_buffer) e.spec.max_len) ≡ true
    → IsAnswered (record p { pin_buffer = p.pin_buffer ++ (48 + d) ∷ [] })
type-IsAnswered d e p a (n, digits, fits) room = (
  n,
  All-append p.pin_buffer (48 + d) digits (ground arith, ground arith),
  rw (a, length-append p.pin_buffer ((48 + d) ∷ [])) (ground arith),
)

push-IsAnswered :
    (k : Key) (e : EntrySpec) (p : Pinpad)
    → p.active ≡ some e
    → IsAnswered p
    → IsAnswered (push k e.spec p)
push-IsAnswered (digit d) e p a h =
    let q = record p { pin_buffer = p.pin_buffer ++ (48 + d) ∷ [] } in
    if-IsAnswered (leb d 9 && ltb (length p.pin_buffer) e.spec.max_len)
      (if e.spec.auto_end && length q.pin_buffer == e.spec.max_len then terminate_entry q else q) p
      (λ room.
        let sound = type-IsAnswered d e p a h room in
        if-IsAnswered (e.spec.auto_end && length q.pin_buffer == e.spec.max_len) (terminate_entry q)
          q (λ full. terminate-IsAnswered q sound) (λ rest. sound))
      (λ refused. h)
push-IsAnswered _ e p a h = h

handle-IsAnswered :
    (k : Key) (e : EntrySpec) (p : Pinpad)
    → p.active ≡ some e
    → IsAnswered p
    → IsAnswered (handle k e.spec p)
handle-IsAnswered Key.cancel e p a h = cancel-IsAnswered user_cancelled p h
handle-IsAnswered Key.clear e p a (n, digits, fits) = (n, tt, rw a (omega arith))
handle-IsAnswered k e p a h =
    if-IsAnswered (ends k e.spec)
      (if ltb (length p.pin_buffer) e.spec.min_len then p else terminate_entry p) (push k e.spec p)
      (λ final.
        if-IsAnswered (ltb (length p.pin_buffer) e.spec.min_len) p (terminate_entry p) (λ short. h)
          (λ enough. terminate-IsAnswered p h))
      (λ typed. push-IsAnswered k e p a h)

press_active-IsAnswered :
    (a : Option EntrySpec) (k : Key) (p : Pinpad)
    → p.active ≡ a
    → IsAnswered p
    → IsAnswered (press_active a k p)
press_active-IsAnswered none k p a h = h
press_active-IsAnswered (some e) k p a h =
    handle-IsAnswered k e (emit (key k) p) a (emit-IsAnswered (key k) p refl h)

press-IsAnswered : (k : Key) (p : Pinpad) → IsAnswered p → IsAnswered (press_key k p)
unfolding press_key
press-IsAnswered k p h = press_active-IsAnswered p.active k p refl h

emptied-IsAnswered : (p : Pinpad) → IsAnswered p → IsAnswered (record p { pin_buffer = [] })
emptied-IsAnswered p (n, digits, fits) = (n, tt, emptied-Fits p.active)

module _ (des : List ℕ → List ℕ → List ℕ) where
  block_with-IsAnswered :
      (name : String) (k block : Option (List ℕ)) (p : Pinpad)
      → IsAnswered p
      → IsAnswered (block_with des name k block p).1
  block_with-IsAnswered name none block p h = h
  block_with-IsAnswered name (some k) none p h = h
  block_with-IsAnswered name (some k) (some block) p h = emptied-IsAnswered p h

  block_of-IsAnswered :
      (buffer : List ℕ) (name : String) (pan : List ℕ) (p : Pinpad)
      → IsAnswered p
      → IsAnswered (block_of des buffer name pan p).1
  block_of-IsAnswered [] name pan p h = h
  block_of-IsAnswered (c ∷ cs) name pan p h =
      block_with-IsAnswered name (key_store name) (build_iso0_pin_block (c ∷ cs) pan) p h

  dispatch-IsAnswered :
      (cmd : PinCommand) (p : Pinpad) → IsAnswered p → IsAnswered (dispatch des cmd p).1
  unfolding dispatch get_pin_block
  dispatch-IsAnswered (PinCommand.get_pin spec) p h = begin-IsAnswered Mode.pin spec p h
  dispatch-IsAnswered (PinCommand.get_data spec) p h = begin-IsAnswered Mode.data_entry spec p h
  dispatch-IsAnswered (PinCommand.get_pinblock name pan) p h =
      block_of-IsAnswered p.pin_buffer name pan p h
  dispatch-IsAnswered _ p h = h

  checked-IsAnswered :
      (x : Option XfsResult × Device) (cmd : PinCommand) (p : Pinpad)
      → IsAnswered p
      → IsAnswered (dispatch_checked des x cmd p).1
  checked-IsAnswered (none, d) cmd p h = dispatch-IsAnswered cmd (record p { device = d }) h
  checked-IsAnswered (some r, d) cmd p h = h

  execute-IsAnswered :
      (cmd : PinCommand) (p : Pinpad) → IsAnswered p → IsAnswered (execute_command des cmd p).1
  unfolding execute_command
  execute-IsAnswered PinCommand.reset p h =
      emptied-IsAnswered (cancel_entry device_reset p) (cancel-IsAnswered device_reset p h)
  execute-IsAnswered cmd p h = checked-IsAnswered (Device.check_injected_error p.device) cmd p h

  apply-IsAnswered : (call : PinCall) (p : Pinpad) → IsAnswered p → IsAnswered (apply des call p)
  unfolding apply extract_entered_pin entry_timed_out
  apply-IsAnswered (PinCall.press k) p h = press-IsAnswered k p h
  apply-IsAnswered (PinCall.execute cmd) p h = execute-IsAnswered cmd p h
  apply-IsAnswered PinCall.extract p h = emptied-IsAnswered p h
  apply-IsAnswered PinCall.time_out p h = cancel-IsAnswered entry_timeout p h
  apply-IsAnswered (PinCall.inject r) p h = h

  -- When every entry that was begun has been answered exactly once or is the one that is open,
  -- the buffer holds digits only, and of an open entry no more than its `max_len` of them, then
  -- this stays so over any presses, commands, timers and errors that are injected.
  pub run-IsAnswered :
      (calls : List PinCall) (p : Pinpad) → IsAnswered p → IsAnswered (run des calls p)
  unfolding run
  run-IsAnswered [] p h = h
  run-IsAnswered (call ∷ calls) p h =
      run-IsAnswered calls (apply des call p) (apply-IsAnswered call p h)
