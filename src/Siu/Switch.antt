-- ===== src/Siu/Switch.antt =====
-- packages/xfs-devices/src/siu/siu.service.ts: what the events and the operator's mode say of the sensors.
use atm_xfs_simulator.Common.{
  ◌≡◌, refl, ap, Bool, true, false, List, [], ◌∷◌, ◌++◌, if◌then◌else◌, Bool-cases, ◌∙◌, inl, inr,
  arith, Option, none, some,
}
use atm_xfs_simulator.Xfs.{XfsResult}
use atm_xfs_simulator.Xfs.Device.{Device}
use atm_xfs_simulator.Xfs.Device
use atm_xfs_simulator.Siu.{
  Siu, Sensors, SiuSensorId, SiuSensorState, SiuOperatorMode, SiuCommand, SiuEvent, port_status,
  sensor_changed, mode_changed, sensor, put_sensor, default_sensors, state_eq, mode_of, set_sensor,
  set_operator_mode, execute_command, dispatch, dispatch_checked, emit, mode_after,
}

pub data SiuCall : Type 0 where
  set : SiuSensorId → SiuSensorState → SiuCall
  mode : SiuOperatorMode → SiuCall
  execute : SiuCommand → SiuCall
  inject : XfsResult → SiuCall

unfoldable pub apply : SiuCall → Siu → Siu
apply (SiuCall.set id x) s = (set_sensor id x s).1
apply (SiuCall.mode m) s = set_operator_mode m s
apply (SiuCall.execute cmd) s = (execute_command cmd s).1
apply (SiuCall.inject r) s = record s { device = Device.inject_error r s.device }

unfoldable pub run : List SiuCall → Siu → Siu
run [] s = s
run (call ∷ calls) s = run calls (apply call s)

-- A reader that follows the port status alone.
abbrev pub follow : List SiuEvent → Sensors → Sensors
follow [] s = s
follow (port_status id x previous ∷ events) s = follow events (put_sensor id x s)
follow (_ ∷ events) s = follow events s

-- The calls that neither turn the events off nor reset the device.
abbrev pub KeepsEvents : List SiuCall → Type 0
KeepsEvents [] = Unit
KeepsEvents (SiuCall.execute SiuCommand.disable_events ∷ calls) = ⊥
KeepsEvents (SiuCall.execute SiuCommand.reset ∷ calls) = ⊥
KeepsEvents (call ∷ calls) = KeepsEvents calls

abbrev pub IsFollowed : Siu → Type 0
IsFollowed s = (s.events_enabled ≡ true) × (follow s.emitted default_sensors ≡ s.sensors)

follow-append :
    (xs ys : List SiuEvent) (s : Sensors) → follow (xs ++ ys) s ≡ follow ys (follow xs s)
follow-append [] ys s = refl
follow-append (port_status id x previous ∷ xs) ys s = follow-append xs ys (put_sensor id x s)
follow-append (sensor_changed id x previous ∷ xs) ys s = follow-append xs ys s
follow-append (mode_changed m ∷ xs) ys s = follow-append xs ys s

if-IsFollowed : (b : Bool) (p q : Siu) → b ≡ true → IsFollowed p → IsFollowed (if b then p else q)
if-IsFollowed true p q e h = h
if-IsFollowed false p q e h = absurd (ground (arith, e))

emit-IsFollowed :
    (events : List SiuEvent) (s : Siu) (before : Sensors)
    → s.events_enabled ≡ true
    → follow s.emitted default_sensors ≡ before
    → follow events before ≡ s.sensors
    → IsFollowed (emit events s)
emit-IsFollowed events s before e h k =
    if-IsFollowed s.events_enabled (record s { emitted = s.emitted ++ events }) s e
      (e, follow-append s.emitted events default_sensors ∙ ap (follow events) h ∙ k)

set-IsFollowed :
    (id : SiuSensorId) (x : SiuSensorState) (s : Siu)
    → IsFollowed s
    → IsFollowed (set_sensor id x s).1
unfolding set_sensor
set-IsFollowed id x s (e, h) = elim (Bool-cases (state_eq (sensor id s.sensors) x)) [
  | inl same ↦ rw same (e, h)
  | inr other ↦ rw other (
      emit-IsFollowed
        (port_status id x (sensor id s.sensors) ∷ sensor_changed id x (sensor id s.sensors) ∷ [])
        (record s {
          sensors = put_sensor id x s.sensors;
          operator_mode = mode_after id x s.operator_mode;
        })
        s.sensors e h refl)
]

dispatch-IsFollowed :
    (cmd : SiuCommand) (s : Siu)
    → KeepsEvents (SiuCall.execute cmd ∷ [])
    → IsFollowed s
    → IsFollowed (dispatch cmd s).1
unfolding dispatch
dispatch-IsFollowed SiuCommand.enable_events s keeps (e, h) = (refl, h)
dispatch-IsFollowed SiuCommand.disable_events s keeps h = absurd keeps
dispatch-IsFollowed _ s keeps h = h

checked-IsFollowed :
    (x : Option XfsResult × Device) (cmd : SiuCommand) (s : Siu)
    → KeepsEvents (SiuCall.execute cmd ∷ [])
    → IsFollowed s
    → IsFollowed (dispatch_checked x cmd s).1
checked-IsFollowed (none, d) cmd s keeps h =
    dispatch-IsFollowed cmd (record s { device = d }) keeps h
checked-IsFollowed (some r, d) cmd s keeps h = h

mode-IsFollowed :
    (m : SiuOperatorMode) (s : Siu) → IsFollowed s → IsFollowed (set_operator_mode m s)
unfolding set_operator_mode
mode-IsFollowed m s (e, h) =
    emit-IsFollowed (mode_changed m ∷ []) (record s { operator_mode = m }) s.sensors e h refl

execute-IsFollowed :
    (cmd : SiuCommand) (s : Siu)
    → KeepsEvents (SiuCall.execute cmd ∷ [])
    → IsFollowed s
    → IsFollowed (execute_command cmd s).1
unfolding execute_command
execute-IsFollowed SiuCommand.reset s keeps h = absurd keeps
execute-IsFollowed SiuCommand.disable_events s keeps h = absurd keeps
execute-IsFollowed cmd s keeps h =
    checked-IsFollowed (Device.check_injected_error s.device) cmd s keeps h

-- While the events are on, and no call turns them off or resets the device, the port status
-- events alone tell every sensor's state: a reader that has followed them from the defaults, and
-- has the sensors of the device, still has them after any such calls and any errors that are
-- injected.
pub run-IsFollowed :
    (calls : List SiuCall) (s : Siu) → KeepsEvents calls → IsFollowed s → IsFollowed (run calls s)
unfolding run apply
run-IsFollowed [] s keeps h = h
run-IsFollowed (SiuCall.set id x ∷ calls) s keeps h =
    run-IsFollowed calls (set_sensor id x s).1 keeps (set-IsFollowed id x s h)
run-IsFollowed (SiuCall.mode m ∷ calls) s keeps h =
    run-IsFollowed calls (set_operator_mode m s) keeps (mode-IsFollowed m s h)
run-IsFollowed (SiuCall.inject r ∷ calls) s keeps h =
    run-IsFollowed calls (record s { device = Device.inject_error r s.device }) keeps h
run-IsFollowed (SiuCall.execute SiuCommand.reset ∷ calls) s keeps h = absurd keeps
run-IsFollowed (SiuCall.execute SiuCommand.disable_events ∷ calls) s keeps h = absurd keeps
run-IsFollowed (SiuCall.execute cmd ∷ calls) s keeps h =
    run-IsFollowed calls (execute_command cmd s).1 keeps (execute-IsFollowed cmd s tt h)

-- The calls that leave the mode to the switch.
abbrev pub LeavesMode : List SiuCall → Type 0
LeavesMode [] = Unit
LeavesMode (SiuCall.mode m ∷ calls) = ⊥
LeavesMode (call ∷ calls) = LeavesMode calls

-- The mode that goes with a state of the switch.
abbrev pub GoesWith : SiuSensorState → SiuOperatorMode → Type 0
GoesWith SiuSensorState.opened m = m ≡ SiuOperatorMode.supervisor
GoesWith SiuSensorState.closed m = m ≡ SiuOperatorMode.normal
GoesWith SiuSensorState.tampered m = m ≡ SiuOperatorMode.normal
GoesWith SiuSensorState.unknown m = m ≡ SiuOperatorMode.normal

abbrev pub IsAligned : Siu → Type 0
IsAligned s = GoesWith s.sensors.operator_switch_state s.operator_mode

mode_of-GoesWith : (x : SiuSensorState) → GoesWith x (mode_of x)
mode_of-GoesWith SiuSensorState.opened = refl
mode_of-GoesWith SiuSensorState.closed = refl
mode_of-GoesWith SiuSensorState.tampered = refl
mode_of-GoesWith SiuSensorState.unknown = refl

if-IsAligned : (b : Bool) (p q : Siu) → IsAligned p → IsAligned q → IsAligned (if b then p else q)
if-IsAligned true p q h k = h
if-IsAligned false p q h k = k

moved-IsAligned :
    (id : SiuSensorId) (x : SiuSensorState) (s : Siu)
    → IsAligned s
    → IsAligned (record s {
      sensors = put_sensor id x s.sensors;
      operator_mode = mode_after id x s.operator_mode;
    })
moved-IsAligned SiuSensorId.operator_switch x s h = mode_of-GoesWith x
moved-IsAligned SiuSensorId.cabinet_door x s h = h
moved-IsAligned SiuSensorId.safe_door x s h = h
moved-IsAligned SiuSensorId.tamper x s h = h

set-IsAligned :
    (id : SiuSensorId) (x : SiuSensorState) (s : Siu)
    → IsAligned s
    → IsAligned (set_sensor id x s).1
unfolding set_sensor
set-IsAligned id x s h =
    let moved = record s {
      sensors = put_sensor id x s.sensors;
      operator_mode = mode_after id x s.operator_mode;
    } in
    elim (Bool-cases (state_eq (sensor id s.sensors) x)) [
      | inl same ↦ rw same h
      | inr other ↦ rw other (
          if-IsAligned s.events_enabled
            (record moved {
              emitted =
                  s.emitted
                  ++ port_status id x (sensor id s.sensors)
                    ∷ sensor_changed id x (sensor id s.sensors)
                    ∷ [];
            })
            moved (moved-IsAligned id x s h) (moved-IsAligned id x s h))
    ]

dispatch-IsAligned : (cmd : SiuCommand) (s : Siu) → IsAligned s → IsAligned (dispatch cmd s).1
unfolding dispatch
dispatch-IsAligned SiuCommand.enable_events s h = h
dispatch-IsAligned _ s h = h

checked-IsAligned :
    (x : Option XfsResult × Device) (cmd : SiuCommand) (s : Siu)
    → IsAligned s
    → IsAligned (dispatch_checked x cmd s).1
checked-IsAligned (none, d) cmd s h = dispatch-IsAligned cmd (record s { device = d }) h
checked-IsAligned (some r, d) cmd s h = h

execute-IsAligned : (cmd : SiuCommand) (s : Siu) → IsAligned s → IsAligned (execute_command cmd s).1
unfolding execute_command
execute-IsAligned SiuCommand.reset s h = refl
execute-IsAligned cmd s h = checked-IsAligned (Device.check_injected_error s.device) cmd s h

-- As long as nobody sets the mode by hand, a machine that is in supervisor mode while the
-- operator's switch is open, and in normal mode otherwise, stays so, over sensors, commands,
-- resets and errors.
pub run-IsAligned :
    (calls : List SiuCall) (s : Siu) → LeavesMode calls → IsAligned s → IsAligned (run calls s)
unfolding run apply
run-IsAligned [] s leaves h = h
run-IsAligned (SiuCall.set id x ∷ calls) s leaves h =
    run-IsAligned calls (set_sensor id x s).1 leaves (set-IsAligned id x s h)
run-IsAligned (SiuCall.mode m ∷ calls) s leaves h = absurd leaves
run-IsAligned (SiuCall.inject r ∷ calls) s leaves h =
    run-IsAligned calls (record s { device = Device.inject_error r s.device }) leaves h
run-IsAligned (SiuCall.execute cmd ∷ calls) s leaves h =
    run-IsAligned calls (execute_command cmd s).1 leaves (execute-IsAligned cmd s h)
