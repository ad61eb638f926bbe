-- ===== src/Emv/Hex/Upper.antt =====
-- packages/emv/src/apdu.ts: `hexToBytes` on upper-case digits, which `bytesToHex` gives back, and the
-- bytes that it yields on any text.
use atm_xfs_simulator.Common.{
  ℕ, ◌+◌, ◌-◌, ◌*◌, ◌/◌, ◌%◌, ◌≡◌, ◌<◌, refl, sym, ap, ◌∙◌, Bool, true, false, ◌&&◌, ◌||◌, Option,
  none, some, List, [], ◌∷◌, Result, ok, err, arith, length, All, if◌then◌else◌, leb, ◌==◌, subst,
  Bool-cases, inl, inr,
}
use atm_xfs_simulator.Common.Chars.{hex_digit, is_space}
use atm_xfs_simulator.Emv.Hex.{
  HexError, odd_length, IsByte, hex_value, remove_spaces, parse_byte, parse_digits, add_byte,
  parse_pairs, hex_to_bytes, bytes_to_hex,
}

abbrev pub IsUpperHex : ℕ → Type 0
IsUpperHex c = ((leb 48 c && leb c 57) || (leb 65 c && leb c 70)) ≡ true

abbrev digit_of : ℕ → ℕ
digit_of c = if leb c 57 then c - 48 else c - 55

IsUpperHex-digit : (c : ℕ) → IsUpperHex c → digit_of c < 16
IsUpperHex-digit c h = ground (arith, h)

IsUpperHex-hex_value : (c : ℕ) → IsUpperHex c → hex_value c ≡ some (digit_of c)
IsUpperHex-hex_value c h = ground (arith, h)

IsUpperHex-back : (c : ℕ) → IsUpperHex c → hex_digit (digit_of c) ≡ c
IsUpperHex-back c h = ground (arith, h)

IsUpperHex-space : (c : ℕ) → IsUpperHex c → is_space c ≡ false
IsUpperHex-space c h = ground (arith, h)

remove_spaces-IsUpperHex : (s : List ℕ) → All IsUpperHex s → remove_spaces s ≡ s
unfolding remove_spaces
remove_spaces-IsUpperHex [] h = refl
remove_spaces-IsUpperHex (c ∷ s) (hc, h) =
    rw (IsUpperHex-space c hc, remove_spaces-IsUpperHex s h) refl

-- The bytes of upper-case digits.
abbrev pub pairs : List ℕ → List ℕ
pairs (a ∷ b ∷ s) = (16 * digit_of a + digit_of b) ∷ pairs s
pairs _ = []

parse_pairs-pairs : (s : List ℕ) → All IsUpperHex s → parse_pairs s ≡ ok (pairs s)
unfolding parse_pairs
parse_pairs-pairs [] h = refl
parse_pairs-pairs (a ∷ []) h = refl
parse_pairs-pairs (a ∷ b ∷ s) (ha, (hb, h)) =
    rw (IsUpperHex-hex_value a ha, IsUpperHex-hex_value b hb, parse_pairs-pairs s h) refl

pub pairs-IsByte : (s : List ℕ) → All IsUpperHex s → All IsByte (pairs s)
pairs-IsByte [] h = tt
pairs-IsByte (a ∷ []) h = tt
pairs-IsByte (a ∷ b ∷ s) (ha, (hb, h)) =
    (omega (arith, IsUpperHex-digit a ha, IsUpperHex-digit b hb), pairs-IsByte s h)

pub length-pairs : (s : List ℕ) → length s % 2 ≡ 0 → 2 * length (pairs s) ≡ length s
length-pairs [] h = refl
length-pairs (a ∷ []) h = omega arith
length-pairs (a ∷ b ∷ s) h = let ih = length-pairs s (omega arith) in omega (arith, ih)

ok-inj : {E A : Type 0} {x y : A} → ◌≡◌ {A = Result E A} (ok x) (ok y) → x ≡ y
ok-inj {E} {A} {x} {y} e = cc

pub bytes_to_hex-pairs :
    (s : List ℕ) → All IsUpperHex s → length s % 2 ≡ 0 → bytes_to_hex (pairs s) ≡ s
unfolding bytes_to_hex
bytes_to_hex-pairs [] h even = refl
bytes_to_hex-pairs (a ∷ []) h even = absurd (omega arith)
bytes_to_hex-pairs (a ∷ b ∷ s) (ha, (hb, h)) even =
    let high : (16 * digit_of a + digit_of b) / 16 ≡ digit_of a =
      omega (arith, IsUpperHex-digit b hb) in
    let low : (16 * digit_of a + digit_of b) % 16 ≡ digit_of b =
      omega (arith, IsUpperHex-digit b hb) in
    let first = ap hex_digit high ∙ IsUpperHex-back a ha in
    let second = ap hex_digit low ∙ IsUpperHex-back b hb in
    let rest = bytes_to_hex-pairs s h (omega arith) in λ i. first i ∷ second i ∷ rest i

pub hex_to_bytes-pairs :
    (s : List ℕ) → All IsUpperHex s → length s % 2 ≡ 0 → hex_to_bytes s ≡ ok (pairs s)
unfolding hex_to_bytes
hex_to_bytes-pairs s h even = rw (remove_spaces-IsUpperHex s h, even) (parse_pairs-pairs s h)

hex_value-bound : (c x : ℕ) → hex_value c ≡ some x → x < 16
hex_value-bound c x e = ground (arith, e)

parse_digits-bound :
    (a b : ℕ) (x y : Option ℕ) (n : ℕ)
    → ((d : ℕ) → x ≡ some d → d < 16)
    → ((d : ℕ) → y ≡ some d → d < 16)
    → parse_digits a b x y ≡ some n
    → n < 256
parse_digits-bound a b none none n hx hy e = ground (arith, e)
parse_digits-bound a b none (some y) n hx hy e = ground (arith, e, hy y refl)
parse_digits-bound a b (some x) none n hx hy e = ground (arith, e, hx x refl)
parse_digits-bound a b (some x) (some y) n hx hy e = ground (arith, e, hx x refl, hy y refl)

add_byte-IsByte :
    (a b : ℕ) (x : Option ℕ) (rest : Result HexError (List ℕ)) (bs : List ℕ)
    → ((n : ℕ) → x ≡ some n → n < 256)
    → ((r : List ℕ) → rest ≡ ok r → All IsByte r)
    → add_byte a b x rest ≡ ok bs
    → All IsByte bs
add_byte-IsByte a b none rest bs hx hr e = cc
add_byte-IsByte a b (some x) (err z) bs hx hr e = cc
add_byte-IsByte a b (some x) (ok r) bs hx hr e =
    subst (All IsByte) (ok-inj e) (hx x refl, hr r refl)

parse_pairs-IsByte : (s bs : List ℕ) → parse_pairs s ≡ ok bs → All IsByte bs
unfolding parse_pairs
parse_pairs-IsByte [] bs e = subst (All IsByte) (ok-inj e) tt
parse_pairs-IsByte (a ∷ []) bs e = subst (All IsByte) (ok-inj e) tt
parse_pairs-IsByte (a ∷ b ∷ s) bs e =
    add_byte-IsByte a b (parse_byte a b) (parse_pairs s) bs
      (λ n.
        parse_digits-bound a b (hex_value a) (hex_value b) n (hex_value-bound a)
          (hex_value-bound b))
      (λ r. parse_pairs-IsByte s r) e

pub hex_to_bytes-IsByte : (s bs : List ℕ) → hex_to_bytes s ≡ ok bs → All IsByte bs
unfolding hex_to_bytes
hex_to_bytes-IsByte s bs e =
    let cleaned = remove_spaces s in
    elim (Bool-cases (length cleaned % 2 == 0)) [
      | inl even ↦ parse_pairs-IsByte cleaned bs (
          sym (
            ap (λ (b : Bool). if b then parse_pairs cleaned else err (odd_length (length cleaned)))
              even)
          ∙ e)
      | inr odd ↦ cc
    ]
