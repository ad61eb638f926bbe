-- ===== src/Siu/Tests.antt =====
-- The sensors' theorems at concrete inputs.
use atm_xfs_simulator.Common.{refl, List, [], ◌∷◌}
use atm_xfs_simulator.Xfs.{XfsResult}
use atm_xfs_simulator.Siu.{SiuSensorId, SiuSensorState, SiuOperatorMode, SiuCommand, new}
use atm_xfs_simulator.Siu.Switch.{
  SiuCall, run, IsFollowed, IsAligned, run-IsFollowed, run-IsAligned,
}

abbrev calls : List SiuCall
calls =
    SiuCall.set SiuSensorId.operator_switch SiuSensorState.opened
    ∷ SiuCall.set SiuSensorId.safe_door SiuSensorState.opened
    ∷ SiuCall.mode SiuOperatorMode.maintenance
    ∷ SiuCall.inject XfsResult.err_hardware_error
    ∷ SiuCall.execute SiuCommand.get_sensor_status
    ∷ SiuCall.set SiuSensorId.safe_door SiuSensorState.closed
    ∷ []

run-IsFollowed_example : IsFollowed (run calls new)
unfolding new
run-IsFollowed_example = run-IsFollowed calls new tt (refl, refl)

abbrev moves : List SiuCall
moves =
    SiuCall.set SiuSensorId.operator_switch SiuSensorState.opened
    ∷ SiuCall.execute SiuCommand.disable_events
    ∷ SiuCall.set SiuSensorId.operator_switch SiuSensorState.tampered
    ∷ []

run-IsAligned_example : IsAligned (run moves new)
unfolding new
run-IsAligned_example = run-IsAligned moves new tt refl
