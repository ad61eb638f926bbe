-- ===== src/Pinpad/Block.antt =====
-- packages/xfs-devices/src/pin/pin.service.ts, `buildIso0PinBlock` and `xorHex`: the clear PIN block.
use Prim.Native.Nat.{bit_xor}
use atm_xfs_simulator.Common.{
  ℕ, ◌-◌, Bool, ◌&&◌, ◌||◌, Option, none, some, List, [], ◌∷◌, ◌++◌, if◌then◌else◌, ltb, leb,
  length, take, drop, replicate,
}

abbrev pub is_digit : ℕ → Bool
is_digit c = leb 48 c && leb c 57

-- `replace(/\D/g, '')`
unfoldable pub digits_only : List ℕ → List ℕ
digits_only [] = []
digits_only (c ∷ s) = let rest = digits_only s in if is_digit c then c ∷ rest else rest

-- The value of each digit character.
abbrev pub values : List ℕ → List ℕ
values [] = []
values (c ∷ s) = (c - 48) ∷ values s

-- `slice(-13, -1)`
abbrev pub rightmost_twelve : List ℕ → List ℕ
rightmost_twelve s = take (length s - 1 - (length s - 13)) (drop (length s - 13) s)

-- `padStart(12, '0')`
abbrev pub pad_start : ℕ → List ℕ → List ℕ
pad_start n s = replicate (n - length s) 0 ++ s

unfoldable pub xor_hex : List ℕ → List ℕ → List ℕ
xor_hex (a ∷ s) (b ∷ t) = bit_xor a b ∷ xor_hex s t
xor_hex _ _ = []

unfoldable pub pin_field : List ℕ → List ℕ
pin_field pin = 0 ∷ length pin ∷ values pin ++ replicate (14 - length pin) 15

unfoldable pub pan_field : List ℕ → List ℕ
pan_field pan = replicate 4 0 ++ pad_start 12 (values (rightmost_twelve (digits_only pan)))

-- A PIN of fewer than 4 or more than 12 digits is refused. The fields have one length.
unfoldable pub build_iso0_pin_block : List ℕ → List ℕ → Option (List ℕ)
build_iso0_pin_block pin pan =
    if ltb (length pin) 4 || ltb 12 (length pin)
    then none
    else some (xor_hex (pin_field pin) (pan_field pan))
