-- ===== src/Atm/Entry.antt =====
-- apps/xfs-server/src/atm/atm-app.service.ts, `beginPinEntry`: a PIN entry that the customer cancels.
use atm_xfs_simulator.Common.{
  ℕ, ◌≡◌, refl, sym, ap, ◌∙◌, subst, Bool, false, Option, none, some, List, [], Result, ok, err,
  if◌then◌else◌, arith,
}
use atm_xfs_simulator.Xfs.Device
use atm_xfs_simulator.Shared.Pin.{Crypto}
use atm_xfs_simulator.Pinpad.{Pinpad, Key, PinCommand}
use atm_xfs_simulator.Pinpad
use atm_xfs_simulator.Atm.{Atm, AtmSession, AtmState, AtmError, Env}
use atm_xfs_simulator.Atm.Flow.{
  begin_pin_entry, begin_in, verify_pin_buffer, verify_in, check_buffer, pin_payload, in_pin_entry,
}

-- The buffer is empty after GET_PIN and CANCEL.
cancelled_buffer :
    (des : List ℕ → List ℕ → List ℕ) (p : Pinpad)
    → p.device.injected_error ≡ none
    → let q =
        Pinpad.press_key Key.cancel
          (Pinpad.execute_command des (PinCommand.get_pin pin_payload) p).1 in
      q.pin_buffer ≡ []
unfolding Pinpad.execute_command Pinpad.dispatch Pinpad.begin_entry Pinpad.press_key
    Pinpad.cancel_entry Device.check_injected_error
cancelled_buffer des p calm = ground (arith, calm)

begun_entry :
    (des : List ℕ → List ℕ → List ℕ) (a : Atm) (s : AtmSession)
    → a.session ≡ some s
    → s.state ≡ AtmState.pin_entry
    → begin_pin_entry des a ≡ (
      ok tt,
      record a {
        pinpad = (Pinpad.execute_command des (PinCommand.get_pin pin_payload) a.pinpad).1;
      },
    )
unfolding begin_pin_entry
begun_entry des a s at entry =
    let begun = record a {
      pinpad = (Pinpad.execute_command des (PinCommand.get_pin pin_payload) a.pinpad).1;
    } in
    ap (λ (x : Option AtmSession). begin_in des x a) at
    ∙ ap
        (λ (x : AtmState). if in_pin_entry x then (ok tt, begun) else (err AtmError.wrong_state, a))
        entry

-- No PIN was verified, and the session and the host are those of before.
abbrev pub IsUnverified : AtmSession → Atm → Result AtmError Bool × Atm → Type 0
IsUnverified s a x = (x.0 ≡ ok false) × (x.1.session ≡ some s) × (x.1.host ≡ a.host)

module _ (k : Crypto) where
  unbuffered :
      (env : Env) (a : Atm) (s : AtmSession)
      → a.session ≡ some s
      → a.pinpad.pin_buffer ≡ []
      → IsUnverified s a (verify_pin_buffer k env a)
  unfolding verify_pin_buffer Pinpad.extract_entered_pin
  unbuffered env a s at empty =
      let b = record a { pinpad = record a.pinpad { pin_buffer = [] } } in
      let one : IsUnverified s a (check_buffer k env s [] b) = (refl, at, refl) in
      let two : IsUnverified s a (verify_in k (some s) env a) =
        subst (λ (x : List ℕ). IsUnverified s a (check_buffer k env s x b)) (sym empty) one in
      subst (λ (x : Option AtmSession). IsUnverified s a (verify_in k x env a)) (sym at) two

-- A customer who cancels the PIN entry does not end the session: the PIN pad drops the entry and its
-- digits, and the check that follows finds no PIN, asks the host nothing, and leaves the session in
-- PIN_ENTRY as it was. For a session in PIN_ENTRY and a PIN pad without an error waiting.
pub begin_pin_entry-cancel :
    (k : Crypto) (des : List ℕ → List ℕ → List ℕ) (env : Env) (a : Atm) (s : AtmSession)
    → a.session ≡ some s
    → s.state ≡ AtmState.pin_entry
    → a.pinpad.device.injected_error ≡ none
    → let (begun, a1) = begin_pin_entry des a in
      let a2 = record a1 { pinpad = Pinpad.press_key Key.cancel a1.pinpad } in
      (begun ≡ ok tt) × IsUnverified s a (verify_pin_buffer k env a2)
begin_pin_entry-cancel k des env a s at entry calm =
    let p = (Pinpad.execute_command des (PinCommand.get_pin pin_payload) a.pinpad).1 in
    let checked =
      unbuffered k env (record a { pinpad = Pinpad.press_key Key.cancel p }) s at
        (cancelled_buffer des a.pinpad calm) in
    subst
      (λ x.
        (x.0 ≡ ok tt)
        × IsUnverified s a (
            verify_pin_buffer k env
              (record x.1 { pinpad = Pinpad.press_key Key.cancel x.1.pinpad })))
      (sym (begun_entry des a s at entry)) (refl, checked)
