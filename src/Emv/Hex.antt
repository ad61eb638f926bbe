-- ===== src/Emv/Hex.antt =====
-- packages/emv/src/apdu.ts, `hexToBytes` and `bytesToHex`.
pub mod Upper
use atm_xfs_simulator.Common.{
  ℕ, zero, suc, ◌+◌, ◌-◌, ◌*◌, ◌/◌, ◌%◌, ◌≡◌, ◌≤◌, ◌<◌, refl, Bool, true, false, ◌&&◌, ◌||◌, Option,
  none, some, List, [], ◌∷◌, ◌++◌, Result, ok, err, if◌then◌else◌, ltb, leb, ◌==◌, length, All,
  arith, Bool-cases, inl, inr, ap,
}
use atm_xfs_simulator.Common.Chars.{hex_digit, is_space}

pub data HexError : Type 0 where
  odd_length : ℕ → HexError
  invalid_hex : (a b : ℕ) → HexError

abbrev pub IsByte : ℕ → Type 0
IsByte b = b < 256

unfoldable pub bytes_to_hex : List ℕ → List ℕ
bytes_to_hex [] = []
bytes_to_hex (b ∷ bs) = hex_digit (b / 16) ∷ hex_digit (b % 16) ∷ bytes_to_hex bs

unfoldable pub remove_spaces : List ℕ → List ℕ
remove_spaces [] = []
remove_spaces (c ∷ s) = let rest = remove_spaces s in if is_space c then rest else c ∷ rest

abbrev pub hex_value : ℕ → Option ℕ
hex_value c =
    if leb 48 c && leb c 57
    then some (c - 48)
    else if leb 65 c && leb c 70
    then some (c - 55)
    else if leb 97 c && leb c 102
    then some (c - 87)
    else none

abbrev pub is_x : ℕ → Bool
is_x c = c == 88 || c == 120

-- After a sign there must be a digit; a byte array keeps -n as 256 - n.
abbrev pub signed_digit : ℕ → Option ℕ → Option ℕ
signed_digit a none = none
signed_digit a (some y) =
    if a == 43 then some y else if a == 45 then some ((256 - y) % 256) else none

abbrev pub parse_digits : (a b : ℕ) → (x y : Option ℕ) → Option ℕ
parse_digits a b none y = signed_digit a y
parse_digits a b (some x) none = if a == 48 && is_x b then none else some x
parse_digits a b (some x) (some y) = some (16 * x + y)

-- `parseInt` of two characters, which reads as much as is a number; `none` is NaN.
abbrev pub parse_byte : ℕ → ℕ → Option ℕ
parse_byte a b = parse_digits a b (hex_value a) (hex_value b)

abbrev pub add_byte : (a b : ℕ) → Option ℕ → Result HexError (List ℕ) → Result HexError (List ℕ)
add_byte a b none rest = err (invalid_hex a b)
add_byte a b (some x) (err e) = err e
add_byte a b (some x) (ok bs) = ok (x ∷ bs)

-- A last odd character is never reached.
unfoldable pub parse_pairs : List ℕ → Result HexError (List ℕ)
parse_pairs (a ∷ b ∷ s) = add_byte a b (parse_byte a b) (parse_pairs s)
parse_pairs _ = ok []

unfoldable pub hex_to_bytes : List ℕ → Result HexError (List ℕ)
hex_to_bytes hex =
    let cleaned = remove_spaces hex in
    if length cleaned % 2 == 0 then parse_pairs cleaned else err (odd_length (length cleaned))

hex_digit-space : (n : ℕ) → n < 16 → is_space (hex_digit n) ≡ false
hex_digit-space n h = ground arith

remove_spaces-bytes_to_hex :
    (bs : List ℕ) → All IsByte bs → remove_spaces (bytes_to_hex bs) ≡ bytes_to_hex bs
unfolding remove_spaces bytes_to_hex
remove_spaces-bytes_to_hex [] h = refl
remove_spaces-bytes_to_hex (b ∷ bs) (hb, h) =
    rw
      (
        hex_digit-space (b / 16) (omega arith),
        hex_digit-space (b % 16) (omega arith),
        remove_spaces-bytes_to_hex bs h,
      )
      refl

pub length-bytes_to_hex : (bs : List ℕ) → length (bytes_to_hex bs) ≡ 2 * length bs
unfolding bytes_to_hex
length-bytes_to_hex [] = refl
length-bytes_to_hex (b ∷ bs) = omega (arith, length-bytes_to_hex bs)

pub hex_value-hex_digit : (n : ℕ) → n < 16 → hex_value (hex_digit n) ≡ some n
hex_value-hex_digit n h = ground arith

parse_pairs-bytes_to_hex : (bs : List ℕ) → All IsByte bs → parse_pairs (bytes_to_hex bs) ≡ ok bs
unfolding parse_pairs bytes_to_hex
parse_pairs-bytes_to_hex [] h = refl
parse_pairs-bytes_to_hex (b ∷ bs) (hb, h) =
    let back : 16 * (b / 16) + b % 16 ≡ b = omega arith in
    rw
      (
        hex_value-hex_digit (b / 16) (omega arith),
        hex_value-hex_digit (b % 16) (omega arith),
        parse_pairs-bytes_to_hex bs h,
        back,
      )
      refl

pub hex_to_bytes-bytes_to_hex :
    (bs : List ℕ) → All IsByte bs → hex_to_bytes (bytes_to_hex bs) ≡ ok bs
unfolding hex_to_bytes
hex_to_bytes-bytes_to_hex bs h =
    let even : 2 * length bs % 2 ≡ 0 = omega arith in
    rw (remove_spaces-bytes_to_hex bs h, length-bytes_to_hex bs, even)
      (parse_pairs-bytes_to_hex bs h)
