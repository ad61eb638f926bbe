-- ===== src/Shared.antt =====
-- packages/shared/src: the helpers that the server and the devices share.
pub mod Pin
use atm_xfs_simulator.Common.{ℕ, ◌%◌}

-- `formatStan` of ids.ts: the number that the six digits show.
unfoldable pub format_stan : ℕ → ℕ
format_stan n = n % 1000000
