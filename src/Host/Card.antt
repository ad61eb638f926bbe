-- ===== src/Host/Card.antt =====
-- apps/xfs-server/src/host/host-emulator.service.ts: the clock, and the expiry date of a card.
use atm_xfs_simulator.Common.{
  ℕ, ◌+◌, ◌-◌, ◌*◌, ◌%◌, Bool, true, ◌&&◌, List, [], ◌∷◌, ltb, leb, ◌==◌, if◌then◌else◌,
}

-- The time in milliseconds, with the UTC year and month that it falls into.
pub record Now : Type 0 where
  pub ms : ℕ
  pub year : ℕ
  pub month : ℕ

-- Midnight UTC.
abbrev pub start_of_day : Now → ℕ
start_of_day now = now.ms - now.ms % 86400000

abbrev pub is_digit : ℕ → Bool
is_digit c = leb 48 c && leb c 57

abbrev pub two_digits : ℕ → ℕ → ℕ
two_digits a b = 10 * (a - 48) + (b - 48)

-- `isExpired`: the date is a text of four digits, YYMM.
unfoldable pub is_expired : Now → List ℕ → Bool
is_expired now (a ∷ b ∷ c ∷ d ∷ []) =
    if is_digit a && is_digit b && is_digit c && is_digit d
    then (let year = 2000 + two_digits a b in
        if ltb year now.year then true else year == now.year && ltb (two_digits c d) now.month)
    else true
is_expired now _ = true
