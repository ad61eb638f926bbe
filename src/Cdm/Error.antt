-- ===== src/Cdm/Error.antt =====
-- The errors that the cash dispenser throws, a constructor for each message.
use atm_xfs_simulator.Common.{ℕ, String}
use atm_xfs_simulator.Common.Number.{Number}
use atm_xfs_simulator.Xfs.{XfsResult}

pub data CdmError : Type 0 where
  injected : XfsResult → CdmError
  unsupported_command : CdmError
  unknown_cassette : String → CdmError
  replenish_out_of_range : ℕ → CdmError
  invalid_amount : Number → CdmError
  no_active_cassette : ℕ → CdmError
  insufficient_notes : String → (needed have : ℕ) → CdmError
  no_cash_to_present nothing_to_retract : CdmError
  cannot_dispense_exact : ℕ → CdmError
  invalid_denom : Number → CdmError
  invalid_count : ℕ → CdmError
  custom_mix_sum : (sum amount : ℕ) → CdmError
