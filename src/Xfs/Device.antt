-- ===== src/Xfs/Device.antt =====
-- packages/xfs-devices/src/base/virtual-device.base.ts: the state that every device has.
use atm_xfs_simulator.Common.{ℕ, Option, none, some, min}
use atm_xfs_simulator.Common.Int.{ℤ, pos_part}
use atm_xfs_simulator.Xfs.{XfsResult, XfsServiceState, closed, opened}

-- The logger, the event bus and the class names are left out: each device keeps its own log of
-- the events that it has emitted.
pub record Device : Type 0 where
  pub state : XfsServiceState
  pub injected_error : Option XfsResult
  pub response_delay_ms : ℕ

-- The fields as the class initialises them, before a subclass calls `open`.
unfoldable pub initial : Device
initial = record { state = closed; injected_error = none; response_delay_ms = 200 }

unfoldable pub open_service : Device → Device
open_service d = record d { state = opened }

unfoldable pub close_service : Device → Device
close_service d = record d { state = closed }

unfoldable pub reset : Device → Device
reset d = record d { state = opened; injected_error = none }

unfoldable pub inject_error : XfsResult → Device → Device
inject_error r d = record d { injected_error = some r }

unfoldable pub clear_error : Device → Device
clear_error d = record d { injected_error = none }

-- A whole number of milliseconds, cut to 0 .. 30000.
unfoldable pub set_response_delay : ℤ → Device → Device
set_response_delay ms d = record d { response_delay_ms = min (pos_part ms) 30000 }

-- One shot: gives the injected error, and clears it.
unfoldable pub check_injected_error : Device → Option XfsResult × Device
check_injected_error d = (d.injected_error, record d { injected_error = none })
