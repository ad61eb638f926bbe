-- ===== src/Iso/Bitmap.antt =====
-- packages/iso8583/src/bitmap.ts: reading a bitmap that was written.
use atm_xfs_simulator.Common.{
  ℕ, zero, suc, ◌+◌, ◌-◌, ◌*◌, ◌/◌, ◌%◌, ◌≡◌, ◌<◌, ◌≤◌, refl, sym, ap, ◌∙◌, false, inl, inr, List,
  [], ◌∷◌, ok, ◌==◌, length, set, replicate, arith, All, Bool-cases, length-set, length-replicate,
}
use atm_xfs_simulator.Common.Chars.{hex_digit}
use atm_xfs_simulator.Iso.Fields.{
  set_bits, pack, packed, push, nibble, nibble_fields, fields_from, fields_to_bitmap,
  bitmap_to_fields, hex_or_zero, is_outside,
}

-- Rising numbers from `low` on and below `high`.
abbrev pub IsRising : (low high : ℕ) → List ℕ → Type 0
IsRising low high [] = Unit
IsRising low high (f ∷ fs) = (low ≤ f) × (f < high) × IsRising (suc f) high fs

abbrev IsBit : ℕ → Type 0
IsBit b = b < 2

-- The fields of the bits from field `base` on.
abbrev ones : ℕ → List ℕ → List ℕ
ones base [] = []
ones base (b ∷ bits) = push b base (ones (suc base) bits)

-- Bits set in a list that starts at field `base`.
abbrev mark : ℕ → List ℕ → List ℕ → List ℕ
mark base [] bits = bits
mark base (f ∷ fs) bits = mark base fs (set bits (f - base) 1)

IsRising-weaken :
    (low low' high : ℕ) (fs : List ℕ) → low' ≤ low → IsRising low high fs → IsRising low' high fs
IsRising-weaken low low' high [] h r = tt
IsRising-weaken low low' high (f ∷ fs) h (l, u, r) = (omega (arith, h, l), u, r)

mark-suc :
    (base high : ℕ) (fs bits : List ℕ) (b : ℕ)
    → IsRising (suc base) high fs
    → mark base fs (b ∷ bits) ≡ b ∷ mark (suc base) fs bits
mark-suc base high [] bits b h = refl
mark-suc base high (f ∷ fs) bits b (l, u, h) =
    let e : f - base ≡ suc (f - suc base) = omega (arith, l) in
    ap (λ k. mark base fs (set (b ∷ bits) k 1)) e
    ∙ mark-suc base high fs (set bits (f - suc base) 1) b
        (IsRising-weaken (suc f) (suc base) high fs (omega (arith, l)) h)

ones_none : (n base : ℕ) → ones base (replicate n 0) ≡ []
ones_none zero base = refl
ones_none (suc n) base = ones_none n (suc base)

ones-mark :
    (n base high : ℕ) (fs : List ℕ)
    → high ≤ base + n
    → IsRising base high fs
    → ones base (mark base fs (replicate n 0)) ≡ fs
ones-mark n base high [] room h = ones_none n base
ones-mark zero base high (f ∷ fs) room (l, u, h) = absurd (omega (arith, l, u))
ones-mark (suc n) base high (f ∷ fs) room (l, u, h) = elim (Bool-cases (f == base)) [
  | inl same ↦
      let e : f ≡ base = ground (arith, same) in
      let at_once : f - base ≡ 0 = omega (arith, e) in
      let later = IsRising-weaken (suc f) (suc base) high fs (omega (arith, e)) h in
      ap (λ k. ones base (mark base fs (set (0 ∷ replicate n 0) k 1))) at_once
      ∙ ap (ones base) (mark-suc base high fs (replicate n 0) 1 later)
      ∙ ap (λ z. base ∷ z) (ones-mark n (suc base) high fs (omega arith) later)
      ∙ ap (λ z. z ∷ fs) (sym e)
  | inr other ↦
      let later : suc base ≤ f = ground (arith, other, l) in
      ap (ones base) (mark-suc base high (f ∷ fs) (replicate n 0) 0 (later, u, h))
      ∙ ones-mark n (suc base) high (f ∷ fs) (omega arith) (later, u, h)
]

set_bits-mark :
    (low : ℕ) (fs bits : List ℕ)
    → 1 ≤ low
    → IsRising low 65 fs
    → set_bits fs bits ≡ ok (mark 1 fs bits)
unfolding set_bits
set_bits-mark low [] bits h r = refl
set_bits-mark low (f ∷ fs) bits h (l, u, r) =
    let inside : is_outside f ≡ false = ground (arith, l, u, h) in
    rw inside (set_bits-mark (suc f) fs (set bits (f - 1) 1) (omega arith) r)

set-IsBit : (bits : List ℕ) (k : ℕ) → All IsBit bits → All IsBit (set bits k 1)
set-IsBit [] k h = tt
set-IsBit (b ∷ bits) zero (hb, h) = (omega arith, h)
set-IsBit (b ∷ bits) (suc k) (hb, h) = (hb, set-IsBit bits k h)

mark-IsBit : (fs bits : List ℕ) → All IsBit bits → All IsBit (mark 1 fs bits)
mark-IsBit [] bits h = h
mark-IsBit (f ∷ fs) bits h = mark-IsBit fs (set bits (f - 1) 1) (set-IsBit bits (f - 1) h)

length-mark : (fs bits : List ℕ) → length (mark 1 fs bits) ≡ length bits
length-mark [] bits = refl
length-mark (f ∷ fs) bits = length-mark fs (set bits (f - 1) 1) ∙ length-set bits (f - 1) 1

hex_or_zero-hex_digit : (n : ℕ) → n < 16 → hex_or_zero (hex_digit n) ≡ n
hex_or_zero-hex_digit n h = ground (arith, h)

length-pack : (k : ℕ) (bits : List ℕ) → length bits ≡ 4 * k → length (pack bits) ≡ k
unfolding pack
length-pack zero [] e = refl
length-pack zero (b ∷ bits) e = absurd (omega arith)
length-pack (suc k) (a ∷ b ∷ c ∷ d ∷ bits) e = ap suc (length-pack k bits (omega arith))
length-pack (suc k) [] e = absurd (omega arith)
length-pack (suc k) (a ∷ []) e = absurd (omega arith)
length-pack (suc k) (a ∷ b ∷ []) e = absurd (omega arith)
length-pack (suc k) (a ∷ b ∷ c ∷ []) e = absurd (omega arith)

fields_from-pack :
    (k i : ℕ) (bits : List ℕ)
    → length bits ≡ 4 * k
    → All IsBit bits
    → fields_from i (pack bits) ≡ ones (i * 4 + 1) bits
unfolding pack fields_from
fields_from-pack zero i [] e h = refl
fields_from-pack zero i (b ∷ bits) e h = absurd (omega arith)
fields_from-pack (suc k) i [] e h = absurd (omega arith)
fields_from-pack (suc k) i (a ∷ []) e h = absurd (omega arith)
fields_from-pack (suc k) i (a ∷ b ∷ []) e h = absurd (omega arith)
fields_from-pack (suc k) i (a ∷ b ∷ c ∷ []) e h = absurd (omega arith)
fields_from-pack (suc k) i (a ∷ b ∷ c ∷ d ∷ bits) e (ha, (hb, (hc, (hd, h)))) =
    let n = nibble a b c d in
    let back = hex_or_zero-hex_digit n (omega arith) in
    let bit8 : n / 8 % 2 ≡ a = omega arith in
    let bit4 : n / 4 % 2 ≡ b = omega arith in
    let bit2 : n / 2 % 2 ≡ c = omega arith in
    let bit1 : n % 2 ≡ d = omega arith in
    let f2 : i * 4 + 2 ≡ suc (i * 4 + 1) = omega arith in
    let f3 : i * 4 + 3 ≡ suc (suc (i * 4 + 1)) = omega arith in
    let f4 : i * 4 + 4 ≡ suc (suc (suc (i * 4 + 1))) = omega arith in
    let f5 : suc i * 4 + 1 ≡ suc (suc (suc (suc (i * 4 + 1)))) = omega arith in
    let rest = fields_from-pack k (suc i) bits (omega arith) h ∙ ap (λ (j : ℕ). ones j bits) f5 in
    ap (λ (m : ℕ). nibble_fields i m (fields_from (suc i) (pack bits))) back ∙ (λ j.
      push (bit8 j) (i * 4 + 1)
        (push (bit4 j) (f2 j) (push (bit2 j) (f3 j) (push (bit1 j) (f4 j) (rest j)))))

zeros-IsBit : (n : ℕ) → All IsBit (replicate n 0)
zeros-IsBit zero = tt
zeros-IsBit (suc n) = (omega arith, zeros-IsBit n)

-- Fields of 1 to 64 in rising order are written as sixteen digits, from which the same fields are read.
pub bitmap_to_fields-fields_to_bitmap :
    (fs : List ℕ)
    → IsRising 1 65 fs
    → (hex : List ℕ) × (fields_to_bitmap fs ≡ ok hex)
      × (length hex ≡ 16)
      × (bitmap_to_fields hex ≡ ok fs)
unfolding fields_to_bitmap bitmap_to_fields
bitmap_to_fields-fields_to_bitmap fs h =
    let zeros = replicate {A = ℕ} 64 0 in
    let bits = mark 1 fs zeros in
    let size : length bits ≡ 64 = length-mark fs zeros ∙ length-replicate {A = ℕ} 64 0 in
    let digits = length-pack 16 bits size in
    let read =
      fields_from-pack 16 0 bits size (mark-IsBit fs zeros (zeros-IsBit 64))
      ∙ ones-mark 64 1 65 fs (omega arith) h in
    (
      pack bits,
      ap packed (set_bits-mark 1 fs zeros (omega arith) h),
      digits,
      rw digits (ap ok read),
    )
