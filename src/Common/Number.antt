-- ===== src/Common/Number.antt =====
-- JavaScript numbers as the program tests them: the integers, and all that `Number.isInteger`
-- refuses (fractions, infinities, NaN).
use atm_xfs_simulator.Common.Int.{ℤ, pos, negsuc}
use Prim.Native.Nat.{ℕ}
use mathlib.Core.Option.{Option, none, some}

pub data Number : Type 0 where
  int : ℤ → Number
  non_integer : Number

-- The value, if `Number.isInteger(x) && x >= 0`.
abbrev pub natural : Number → Option ℕ
natural (int (pos n)) = some n
natural (int (negsuc n)) = none
natural non_integer = none
