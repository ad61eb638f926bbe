-- ===== src/Pinpad/Decode.antt =====
-- packages/xfs-devices/src/pin/pin.service.ts, `buildIso0PinBlock`: the block gives the PIN back to who
-- knows the card's number.
use Prim.Native.Nat.{bit_xor}
use atm_xfs_simulator.Common.{
  ℕ, zero, suc, ◌+◌, ◌-◌, ◌≡◌, ◌≤◌, ◌<◌, refl, ap, subst, Bool, true, ◌||◌, none, some, List, [],
  ◌∷◌, ◌++◌, arith, length, take, drop, replicate, length-append, length-take, length-drop,
  length-replicate, All, ltb, ◌&&◌, ◌==◌, Bool-cases, ◌⊎◌, inl, inr, map,
}
use atm_xfs_simulator.Pinpad.Block.{
  build_iso0_pin_block, is_digit, xor_hex, pin_field, pan_field, values, rightmost_twelve,
  digits_only, pad_start,
}

length-values : (s : List ℕ) → length (values s) ≡ length s
length-values [] = refl
length-values (c ∷ s) = ap suc (length-values s)

length-pin_field : (pin : List ℕ) → length pin ≤ 12 → length (pin_field pin) ≡ 16
unfolding pin_field
length-pin_field pin h = omega (
  arith,
  length-append (values pin) (replicate (14 - length pin) 15),
  length-values pin,
  length-replicate {A = ℕ} (14 - length pin) 15,
)

length-rightmost : (s : List ℕ) → length (rightmost_twelve s) ≤ 12
length-rightmost s = omega (
  arith,
  length-take (length s - 1 - (length s - 13)) (drop (length s - 13) s),
  length-drop (length s - 13) s,
)

length-pan_field : (pan : List ℕ) → length (pan_field pan) ≡ 16
unfolding pan_field
length-pan_field pan =
    let s = values (rightmost_twelve (digits_only pan)) in
    omega (
      arith,
      length-append (replicate 4 0) (pad_start 12 s),
      length-append (replicate (12 - length s) 0) s,
      length-replicate {A = ℕ} (12 - length s) 0,
      length-rightmost (digits_only pan),
      length-values (rightmost_twelve (digits_only pan)),
    )

length-xor_hex : (s t : List ℕ) → length s ≡ length t → length (xor_hex s t) ≡ length s
unfolding xor_hex
length-xor_hex [] t e = refl
length-xor_hex (a ∷ s) [] e = absurd (omega (arith, e))
length-xor_hex (a ∷ s) (b ∷ t) e = ap suc (length-xor_hex s t (omega (arith, e)))

-- A test of every number below a bound.
abbrev all_below : ℕ → (ℕ → Bool) → Bool
all_below zero t = true
all_below (suc n) t = t n && all_below n t

all_below_at : (n : ℕ) (t : ℕ → Bool) (a : ℕ) → all_below n t ≡ true → a < n → t a ≡ true
all_below_at zero t a h low = elim low [ ]
all_below_at (suc n) t a h low = elim (Bool-cases (a == n)) [
  | inl same ↦ let e : n ≡ a = ground (arith, same) in subst (λ x. t x ≡ true) e (ground arith)
  | inr other ↦ all_below_at n t a (ground arith) (ground arith)
]

abbrev nibbles_cancel : Bool
nibbles_cancel = all_below 16 (λ a. all_below 16 (λ b. bit_xor (bit_xor a b) b == a))

nibbles_cancel_all : nibbles_cancel ≡ true
nibbles_cancel_all = refl

xor_nibble : (a b : ℕ) → a < 16 → b < 16 → bit_xor (bit_xor a b) b ≡ a
xor_nibble a b ha hb =
    let row =
      all_below_at 16 (λ x. all_below 16 (λ y. bit_xor (bit_xor x y) y == x)) a nibbles_cancel_all
        ha in
    let cell = all_below_at 16 (λ y. bit_xor (bit_xor a y) y == a) b row hb in ground (arith, cell)

abbrev IsNibble : ℕ → Type 0
IsNibble a = a < 16

xor_hex_twice :
    (s t : List ℕ)
    → All IsNibble s
    → All IsNibble t
    → length s ≡ length t
    → xor_hex (xor_hex s t) t ≡ s
unfolding xor_hex
xor_hex_twice [] t hs ht e = refl
xor_hex_twice (a ∷ s) [] hs ht e = absurd (omega (arith, e))
xor_hex_twice (a ∷ s) (b ∷ t) (ha, hs) (hb, ht) e =
    rw (xor_nibble a b ha hb, xor_hex_twice s t hs ht (omega (arith, e)))

All-append : (s t : List ℕ) → All IsNibble s → All IsNibble t → All IsNibble (s ++ t)
All-append [] t hs ht = ht
All-append (a ∷ s) t (ha, hs) ht = (ha, All-append s t hs ht)

abbrev pub IsDigit : ℕ → Type 0
IsDigit c = (48 ≤ c) × (c ≤ 57)

All-take : (n : ℕ) (s : List ℕ) → All IsDigit s → All IsDigit (take n s)
All-take zero s h = tt
All-take (suc n) [] h = tt
All-take (suc n) (a ∷ s) (ha, h) = (ha, All-take n s h)

All-drop : (n : ℕ) (s : List ℕ) → All IsDigit s → All IsDigit (drop n s)
All-drop zero s h = h
All-drop (suc n) [] h = tt
All-drop (suc n) (a ∷ s) (ha, h) = All-drop n s h

All-replicate : (n a : ℕ) → a < 16 → All IsNibble (replicate n a)
All-replicate zero a h = tt
All-replicate (suc n) a h = (h, All-replicate n a h)

values-nibbles : (s : List ℕ) → All IsDigit s → All IsNibble (values s)
values-nibbles [] h = tt
values-nibbles (c ∷ s) ((low, high), h) = (omega arith, values-nibbles s h)

digits_only-digits : (s : List ℕ) → All IsDigit (digits_only s)
unfolding digits_only
digits_only-digits [] = tt
digits_only-digits (c ∷ s) = elim (Bool-cases (is_digit c)) [
  | inl digit ↦ rw digit ((ground arith, ground arith), digits_only-digits s)
  | inr other ↦ rw other (digits_only-digits s)
]

pin_field-nibbles :
    (pin : List ℕ) → All IsDigit pin → length pin ≤ 12 → All IsNibble (pin_field pin)
unfolding pin_field
pin_field-nibbles pin h short = (
  omega arith,
  (
    omega arith,
    All-append (values pin) (replicate (14 - length pin) 15) (values-nibbles pin h)
        (All-replicate (14 - length pin) 15 (omega arith)),
  ),
)

pan_field-nibbles : (pan : List ℕ) → All IsNibble (pan_field pan)
unfolding pan_field
pan_field-nibbles pan =
    let s = digits_only pan in
    let last = values (rightmost_twelve s) in
    let nibbles = values-nibbles (rightmost_twelve s) (
      All-take (length s - 1 - (length s - 13)) (drop (length s - 13) s)
        (All-drop (length s - 13) s (digits_only-digits pan))) in
    All-append (replicate 4 0) (pad_start 12 last) (All-replicate 4 0 (omega arith)) (
      All-append (replicate (12 - length last) 0) last
        (All-replicate (12 - length last) 0 (omega arith)) nibbles)

-- The digit characters of a PIN field.
abbrev pub pin_of_field : List ℕ → List ℕ
pin_of_field (a ∷ n ∷ s) = map (λ v. 48 + v) (take n s)
pin_of_field _ = []

-- What a host that has the clear block and the card's number does.
unfoldable pub pin_of : List ℕ → List ℕ → List ℕ
pin_of block pan = pin_of_field (xor_hex block (pan_field pan))

take-values :
    (pin rest : List ℕ)
    → All IsDigit pin
    → map (λ v. 48 + v) (take (length pin) (values pin ++ rest)) ≡ pin
take-values [] rest h = refl
take-values (c ∷ pin) rest ((low, high), h) =
    let back : 48 + (c - 48) ≡ c = omega arith in rw (take-values pin rest h, back)

pin_of_field-pin_field : (pin : List ℕ) → All IsDigit pin → pin_of_field (pin_field pin) ≡ pin
unfolding pin_field
pin_of_field-pin_field pin h = take-values pin (replicate (14 - length pin) 15) h

-- A PIN of 4 to 12 digits has a block, of 16 nibbles, for the number of any card, and from the block
-- and the card's number the PIN comes back. A PIN of another length has none.
pub build_iso0_pin_block-pin_of :
    (pin pan : List ℕ)
    → All IsDigit pin
    → ((4 ≤ length pin)
        × (length pin ≤ 12)
        × ((block : List ℕ) × (build_iso0_pin_block pin pan ≡ some block)
            × (length block ≡ 16)
            × (pin_of block pan ≡ pin)))
      ⊎ (((length pin < 4) ⊎ (12 < length pin)) × (build_iso0_pin_block pin pan ≡ none))
unfolding build_iso0_pin_block pin_of
build_iso0_pin_block-pin_of pin pan h =
    elim (Bool-cases (ltb (length pin) 4 || ltb 12 (length pin))) [
      | inl bad ↦ inr (ground arith, rw bad refl)
      | inr good ↦
          let low : 4 ≤ length pin = ground arith in
          let high : length pin ≤ 12 = ground arith in
          let same : length (pin_field pin) ≡ length (pan_field pan) =
            omega (arith, length-pin_field pin high, length-pan_field pan) in
          inl (
            low,
            high,
            (
              xor_hex (pin_field pin) (pan_field pan),
              rw good refl,
              omega (
                arith,
                length-xor_hex (pin_field pin) (pan_field pan) same,
                length-pin_field pin high,
              ),
              rw
                  (xor_hex_twice (pin_field pin) (pan_field pan) (pin_field-nibbles pin h high)
                    (pan_field-nibbles pan) same)
                  (pin_of_field-pin_field pin h),
            ),
          )
    ]
