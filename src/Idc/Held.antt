-- ===== src/Idc/Held.antt =====
-- packages/xfs-devices/src/idc/idc.service.ts: the two fields that say whether a card is held.
use atm_xfs_simulator.Common.{
  ◌≡◌, ◌≢◌, refl, sym, ap, Bool, true, false, Option, none, some, List, [], ◌∷◌, ◌++◌, ok, err,
  arith,
}
use atm_xfs_simulator.Xfs.{XfsResult}
use atm_xfs_simulator.Xfs.Device.{Device}
use atm_xfs_simulator.Xfs.Device
use atm_xfs_simulator.Idc.{
  Idc, IdcCommand, VirtualCard, insert_card, execute_command, dispatch, eject, retain, done,
  media_inserted, media_removed, injected, dispatch_checked, tracks,
}

pub data IdcCall : Type 0 where
  insert : VirtualCard → IdcCall
  execute : IdcCommand → IdcCall
  inject : XfsResult → IdcCall

unfoldable pub apply : IdcCall → Idc → Idc
apply (IdcCall.insert card) s = (insert_card card s).1
apply (IdcCall.execute cmd) s = (execute_command cmd s).1
apply (IdcCall.inject r) s = record s { device = Device.inject_error r s.device }

unfoldable pub run : List IdcCall → Idc → Idc
run [] s = s
run (call ∷ calls) s = run calls (apply call s)

-- The flag is set exactly when there is a card.
abbrev pub Agree : Bool → Option VirtualCard → Type 0
Agree true none = ⊥
Agree false (some card) = ⊥
Agree _ _ = Unit

abbrev pub IsConsistent : Idc → Type 0
IsConsistent s = Agree s.card_held s.current_card

dispatch-IsConsistent :
    (cmd : IdcCommand) (s : Idc) → IsConsistent s → IsConsistent (dispatch cmd s).1
unfolding dispatch eject retain
dispatch-IsConsistent IdcCommand.eject_card s h = ground arith
dispatch-IsConsistent IdcCommand.retain_card s h = ground arith
dispatch-IsConsistent _ s h = h

dispatch_checked-IsConsistent :
    (x : Option XfsResult × Device) (cmd : IdcCommand) (s : Idc)
    → IsConsistent s
    → IsConsistent (dispatch_checked x cmd s).1
dispatch_checked-IsConsistent (none, d) cmd s h =
    dispatch-IsConsistent cmd (record s { device = d }) h
dispatch_checked-IsConsistent (some r, d) cmd s h = h

execute-IsConsistent :
    (cmd : IdcCommand) (s : Idc) → IsConsistent s → IsConsistent (execute_command cmd s).1
unfolding execute_command
execute-IsConsistent IdcCommand.reset s h = tt
execute-IsConsistent cmd s h =
    dispatch_checked-IsConsistent (Device.check_injected_error s.device) cmd s h

apply-IsConsistent : (call : IdcCall) (s : Idc) → IsConsistent s → IsConsistent (apply call s)
unfolding apply insert_card
apply-IsConsistent (IdcCall.insert card) s h = ground arith
apply-IsConsistent (IdcCall.execute cmd) s h = execute-IsConsistent cmd s h
apply-IsConsistent (IdcCall.inject r) s h = h

-- A reader that says it holds a card exactly when it has a card's data goes on so over any calls,
-- errors that are injected included.
pub run-IsConsistent :
    (calls : List IdcCall) (s : Idc) → IsConsistent s → IsConsistent (run calls s)
unfolding run
run-IsConsistent [] s h = h
run-IsConsistent (call ∷ calls) s h =
    run-IsConsistent calls (apply call s) (apply-IsConsistent call s h)

-- A reader that is free and has no error waiting takes a card, gives back on READ_TRACK
-- its two tracks, PAN, holder, expiry date and chip data, each in its field,
-- refuses a second card, and on EJECT is free again, with one event for each way.
pub insert-read-eject :
    (card second : VirtualCard) (s : Idc)
    → s.card_held ≡ false
    → s.device.injected_error ≡ none
    → let (taken, s1) = insert_card card s in
      let (answer, s2) = execute_command IdcCommand.read_track s1 in
      let (again, s3) = insert_card second s2 in
      let (out, s4) = execute_command IdcCommand.eject_card s3 in
      (taken ≡ true)
      × (answer
          ≡ ok (
              tracks card.track1 card.track2 card.pan card.cardholder_name card.expiry_date
                card.chip_data))
      × (again ≡ false)
      × (out ≡ ok done)
      × (s4.card_held ≡ false)
      × (s4.current_card ≡ none)
      × (s4.emitted
          ≡ (s.emitted ++ media_inserted card.pan ∷ []) ++ media_removed (some card.pan) ∷ [])
unfolding insert_card execute_command dispatch eject Device.check_injected_error
insert-read-eject card second s free calm = ground arith

-- An error that was injected fails the next command, whatever it is but RESET, and that command
-- alone: the card stays where it is, and the command after it runs as if there had been none.
pub injected_once :
    (r : XfsResult) (first second : IdcCommand) (s : Idc)
    → first ≢ IdcCommand.reset
    → s.device.injected_error ≡ none
    → let (answer, s') = execute_command first (apply (IdcCall.inject r) s) in
      (answer ≡ err (injected r))
      × (s'.current_card ≡ s.current_card)
      × (execute_command second s' ≡ execute_command second s)
unfolding apply execute_command Device.check_injected_error Device.inject_error
injected_once r IdcCommand.reset second s ne calm = absurd (ne refl)
injected_once r first second s ne calm = (
  refl,
  refl,
  ap
      (λ (x : Option XfsResult).
        execute_command second (record s { device = record s.device { injected_error = x } }))
      (sym calm),
)
