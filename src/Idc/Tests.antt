-- ===== src/Idc/Tests.antt =====
-- The card reader's theorems at concrete inputs.
use atm_xfs_simulator.Common.{◌≡◌, refl, true, false, none, some, List, [], ◌∷◌, ◌++◌, ok, err}
use atm_xfs_simulator.Xfs.{XfsResult}
use atm_xfs_simulator.Idc.{
  IdcCommand, VirtualCard, new, insert_card, execute_command, tracks, done, media_inserted,
  media_removed, injected,
}
use atm_xfs_simulator.Idc.Held.{
  IdcCall, apply, run, IsConsistent, run-IsConsistent, insert-read-eject, injected_once,
}

abbrev card : VirtualCard
card = record {
  pan = "4097000000000001";
  cardholder_name = "A";
  expiry_date = "3012";
  track1 = "t1";
  track2 = "t2";
  pin_hash = "h";
  chip_data = none;
  issuer = "ZEGEN";
}

abbrev calls : List IdcCall
calls =
    IdcCall.insert card
    ∷ IdcCall.inject XfsResult.err_hardware_error
    ∷ IdcCall.execute IdcCommand.eject_card
    ∷ IdcCall.execute IdcCommand.retain_card
    ∷ []

run-IsConsistent_example : IsConsistent (run calls new)
unfolding new
run-IsConsistent_example = run-IsConsistent calls new tt

insert-read-eject_example :
    let (taken, s1) = insert_card card new in
    let (answer, s2) = execute_command IdcCommand.read_track s1 in
    let (again, s3) = insert_card card s2 in
    let (out, s4) = execute_command IdcCommand.eject_card s3 in
    (taken ≡ true)
    × (answer
        ≡ ok (
            tracks card.track1 card.track2 card.pan card.cardholder_name card.expiry_date
              card.chip_data))
    × (again ≡ false)
    × (out ≡ ok done)
    × (s4.card_held ≡ false)
    × (s4.current_card ≡ none)
    × (s4.emitted
        ≡ (new.emitted ++ media_inserted card.pan ∷ []) ++ media_removed (some card.pan) ∷ [])
unfolding new
insert-read-eject_example = insert-read-eject card card new refl refl

injected_once_example :
    let (answer, s') =
      execute_command IdcCommand.eject_card (apply (IdcCall.inject XfsResult.err_timeout) new) in
    (answer ≡ err (injected XfsResult.err_timeout))
    × (s'.current_card ≡ new.current_card)
    × (execute_command IdcCommand.read_track s' ≡ execute_command IdcCommand.read_track new)
unfolding new
injected_once_example =
    injected_once XfsResult.err_timeout IdcCommand.eject_card IdcCommand.read_track new (λ e. cc)
      refl
