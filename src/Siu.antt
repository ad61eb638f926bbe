-- ===== src/Siu.antt =====
-- packages/xfs-devices/src/siu/siu.service.ts: the sensors, the indicators and the operator's switch.
mod Tests
pub mod Switch
use atm_xfs_simulator.Common.{
  Bool, true, false, Option, none, some, List, [], ◌∷◌, ◌++◌, Result, ok, err, if◌then◌else◌,
}
use atm_xfs_simulator.Xfs.{XfsResult}
use atm_xfs_simulator.Xfs.Device.{Device}
use atm_xfs_simulator.Xfs.Device

pub data SiuSensorId : Type 0 where
  cabinet_door safe_door tamper operator_switch : SiuSensorId

pub data SiuSensorState : Type 0 where
  closed opened tampered unknown : SiuSensorState

pub data SiuIndicatorId : Type 0 where
  power ready fault service : SiuIndicatorId

pub data SiuIndicatorState : Type 0 where
  off on blinking : SiuIndicatorState

pub data SiuOperatorMode : Type 0 where
  normal supervisor maintenance : SiuOperatorMode

pub data SiuEvent : Type 0 where
  port_status : SiuSensorId → (state previous : SiuSensorState) → SiuEvent
  sensor_changed : SiuSensorId → (state previous : SiuSensorState) → SiuEvent
  mode_changed : SiuOperatorMode → SiuEvent

abbrev pub state_eq : SiuSensorState → SiuSensorState → Bool
state_eq SiuSensorState.closed SiuSensorState.closed = true
state_eq SiuSensorState.opened SiuSensorState.opened = true
state_eq SiuSensorState.tampered SiuSensorState.tampered = true
state_eq SiuSensorState.unknown SiuSensorState.unknown = true
state_eq _ _ = false

pub record Sensors : Type 0 where
  pub cabinet_door_state : SiuSensorState
  pub safe_door_state : SiuSensorState
  pub tamper_state : SiuSensorState
  pub operator_switch_state : SiuSensorState

pub record Indicators : Type 0 where
  pub power_state : SiuIndicatorState
  pub ready_state : SiuIndicatorState
  pub fault_state : SiuIndicatorState
  pub service_state : SiuIndicatorState

abbrev pub sensor : SiuSensorId → Sensors → SiuSensorState
sensor SiuSensorId.cabinet_door s = s.cabinet_door_state
sensor SiuSensorId.safe_door s = s.safe_door_state
sensor SiuSensorId.tamper s = s.tamper_state
sensor SiuSensorId.operator_switch s = s.operator_switch_state

abbrev pub put_sensor : SiuSensorId → SiuSensorState → Sensors → Sensors
put_sensor SiuSensorId.cabinet_door x s = record s { cabinet_door_state = x }
put_sensor SiuSensorId.safe_door x s = record s { safe_door_state = x }
put_sensor SiuSensorId.tamper x s = record s { tamper_state = x }
put_sensor SiuSensorId.operator_switch x s = record s { operator_switch_state = x }

abbrev pub put_indicator : SiuIndicatorId → SiuIndicatorState → Indicators → Indicators
put_indicator SiuIndicatorId.power x s = record s { power_state = x }
put_indicator SiuIndicatorId.ready x s = record s { ready_state = x }
put_indicator SiuIndicatorId.fault x s = record s { fault_state = x }
put_indicator SiuIndicatorId.service x s = record s { service_state = x }

abbrev pub default_sensors : Sensors
default_sensors = record {
  cabinet_door_state = SiuSensorState.closed;
  safe_door_state = SiuSensorState.closed;
  tamper_state = SiuSensorState.closed;
  operator_switch_state = SiuSensorState.closed;
}

abbrev pub default_indicators : Indicators
default_indicators = record {
  power_state = SiuIndicatorState.on;
  ready_state = SiuIndicatorState.on;
  fault_state = SiuIndicatorState.off;
  service_state = SiuIndicatorState.off;
}

pub record Siu : Type 0 where
  pub device : Device
  pub sensors : Sensors
  pub indicators : Indicators
  pub operator_mode : SiuOperatorMode
  pub events_enabled : Bool
  pub emitted : List SiuEvent

unfoldable pub new : Siu
unfolding Device.open_service Device.initial
new = record {
  device = Device.open_service Device.initial;
  sensors = default_sensors;
  indicators = default_indicators;
  operator_mode = SiuOperatorMode.normal;
  events_enabled = true;
  emitted = [];
}

-- `emitEvent` under `if (this.eventsEnabled)`.
abbrev pub emit : List SiuEvent → Siu → Siu
emit events s = if s.events_enabled then record s { emitted = s.emitted ++ events } else s

abbrev pub mode_of : SiuSensorState → SiuOperatorMode
mode_of SiuSensorState.opened = SiuOperatorMode.supervisor
mode_of _ = SiuOperatorMode.normal

abbrev pub mode_after : SiuSensorId → SiuSensorState → SiuOperatorMode → SiuOperatorMode
mode_after SiuSensorId.operator_switch x mode = mode_of x
mode_after _ x mode = mode

-- The answer says whether the sensor changed.
unfoldable pub set_sensor : SiuSensorId → SiuSensorState → Siu → Bool × Siu
set_sensor id x s =
    let previous = sensor id s.sensors in
    if state_eq previous x then (false, s) else (
      true,
      emit (port_status id x previous ∷ sensor_changed id x previous ∷ []) (record s {
        sensors = put_sensor id x s.sensors;
        operator_mode = mode_after id x s.operator_mode;
      }),
    )

unfoldable pub set_operator_mode : SiuOperatorMode → Siu → Siu
set_operator_mode mode s = emit (mode_changed mode ∷ []) (record s { operator_mode = mode })

-- `invalid_indicator` has a payload that names no indicator or no state of one.
pub data SiuCommand : Type 0 where
  enable_events disable_events : SiuCommand
  set_indicator : SiuIndicatorId → SiuIndicatorState → SiuCommand
  invalid_indicator get_sensor_status reset other : SiuCommand

pub data SiuAnswer : Type 0 where
  done : SiuAnswer
  status : Sensors → Indicators → SiuOperatorMode → SiuAnswer

pub data SiuError : Type 0 where
  injected : XfsResult → SiuError
  invalid_payload unsupported_command : SiuError

unfoldable pub dispatch : SiuCommand → Siu → Result SiuError SiuAnswer × Siu
dispatch SiuCommand.enable_events s = (ok done, record s { events_enabled = true })
dispatch SiuCommand.disable_events s = (ok done, record s { events_enabled = false })
dispatch (SiuCommand.set_indicator id x) s =
    (ok done, record s { indicators = put_indicator id x s.indicators })
dispatch SiuCommand.invalid_indicator s = (err invalid_payload, s)
dispatch SiuCommand.get_sensor_status s = (ok (status s.sensors s.indicators s.operator_mode), s)
dispatch _ s = (err unsupported_command, s)

abbrev pub dispatch_checked :
    Option XfsResult × Device → SiuCommand → Siu → Result SiuError SiuAnswer × Siu
dispatch_checked (none, d) cmd s = dispatch cmd (record s { device = d })
dispatch_checked (some r, d) cmd s = (err (injected r), record s { device = d })

unfoldable pub execute_command : SiuCommand → Siu → Result SiuError SiuAnswer × Siu
execute_command SiuCommand.reset s = (
  ok done,
  record s {
    device = Device.reset s.device;
    sensors = default_sensors;
    indicators = default_indicators;
    operator_mode = SiuOperatorMode.normal;
    events_enabled = true;
  },
)
execute_command cmd s = dispatch_checked (Device.check_injected_error s.device) cmd s
