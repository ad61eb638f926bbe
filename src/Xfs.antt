-- ===== src/Xfs.antt =====
-- packages/xfs-core/src/types.ts: result codes and the life cycle of a service.
pub mod Device
pub mod Manager
use atm_xfs_simulator.Common.{ℕ}
use atm_xfs_simulator.Common.Int.{ℤ, pos, negsuc}

pub data XfsResult : Type 0 where
  success err_cancel err_dev_not_ready err_hardware_error err_invalid_hservice : XfsResult
  err_internal_error err_timeout err_user_error err_unsupp_command : XfsResult
  err_service_not_found err_locked err_not_started : XfsResult

pub data XfsServiceState : Type 0 where
  closed opened locked busy error : XfsServiceState
