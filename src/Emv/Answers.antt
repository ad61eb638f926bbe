-- ===== src/Emv/Answers.antt =====
-- packages/emv/src/emv-simulator.ts: what the templates of the answers encode, as trees of tags.
use atm_xfs_simulator.Common.{
  ℕ, ◌+◌, ◌-◌, ◌/◌, ◌%◌, ◌≡◌, ◌<◌, ◌≤◌, refl, sym, ap, ◌∙◌, true, false, List, [], ◌∷◌, ◌++◌,
  Result, ok, arith, length, All, ◌==◌, map, subst, ◌>>=◌, length-append, All-append, if_cases,
  take, replicate, length-map, length-take, length-replicate,
}
use atm_xfs_simulator.Common.Chars.{is_digit}
use atm_xfs_simulator.Emv.Hex.{IsByte, hex_to_bytes, bytes_to_hex, hex_to_bytes-bytes_to_hex}
use atm_xfs_simulator.Emv.Hex.Upper.{
  IsUpperHex, pairs, pairs-IsByte, length-pairs, hex_to_bytes-pairs,
}
use atm_xfs_simulator.Emv.Tlv.{TlvError, encode_tlv, encode_template}
use atm_xfs_simulator.Emv.Tlv.Tree.{
  Tree, Trees, leaf, template, none_left, next, size_bytes, length-size_bytes, wire, wires, IsTag,
  IsValid, encode_tlv-wire, wire-IsByte, parts_of, concat-parts_of,
}
use atm_xfs_simulator.Emv.Chip.{
  EmvCardData, encode_hex, encode_read, tag_1, record_template, pad_hex, name_bytes, is_pan,
  is_expiry, all_chars, upper,
}

encode_hex-leaf :
    (tag value v : List ℕ)
    → IsTag false tag
    → hex_to_bytes value ≡ ok v
    → length v < 0x10000
    → encode_hex (bytes_to_hex tag) value ≡ ok (wire (leaf tag v))
encode_hex-leaf tag value v h e small =
    ap (encode_read (bytes_to_hex tag)) e ∙ encode_tlv-wire false tag v h small

encode_template-parts_of :
    (tag : List ℕ) (ts : Trees)
    → IsTag true tag
    → length (wires ts) < 0x10000
    → encode_template (bytes_to_hex tag) (parts_of ts) ≡ ok (wire (template tag ts))
unfolding encode_template
encode_template-parts_of tag ts h small =
    ap (encode_tlv (bytes_to_hex tag)) (concat-parts_of ts)
    ∙ encode_tlv-wire true tag (wires ts) h small

length-wire : (tag v : List ℕ) → length (wire (leaf tag v)) ≤ length tag + 3 + length v
length-wire tag v = omega (
  arith,
  length-append tag (size_bytes (length v) ++ v),
  length-append (size_bytes (length v)) v,
  length-size_bytes (length v),
)

-- READ RECORD.
abbrev pub IsCard : EmvCardData → Type 0
IsCard card = (is_pan card.pan ≡ true) × (is_expiry card.expiry_date ≡ true)

abbrev pub record_trees : EmvCardData → Trees
record_trees card = next (leaf (0x5a ∷ []) (pairs (pad_hex card.pan))) (
    next (leaf (0x5f ∷ 0x24 ∷ []) (pairs (card.expiry_date ++ (48 ∷ 48 ∷ []))))
      (next (leaf (0x5f ∷ 0x20 ∷ []) (name_bytes card.cardholder_name)) none_left))

abbrev pub record_tree : EmvCardData → Tree
record_tree card = template (0x70 ∷ []) (record_trees card)

all_chars-digits : (s : List ℕ) → all_chars is_digit s ≡ true → All IsUpperHex s
all_chars-digits [] h = tt
all_chars-digits (c ∷ s) h = (ground (arith, h), all_chars-digits s (ground (arith, h)))

map-upper : (s : List ℕ) → All IsUpperHex s → map upper s ≡ s
map-upper [] h = refl
map-upper (c ∷ s) (hc, h) =
    let same : upper c ≡ c = ground (arith, hc) in λ i. same i ∷ map-upper s h i

abbrev pub IsPaddedHex : List ℕ → Type 0
IsPaddedHex s = All IsUpperHex s × (length s % 2 ≡ 0) × (length s ≤ 20)

-- The same of the characters before they are put in upper case.
abbrev IsPadded : List ℕ → Type 0
IsPadded s = IsPaddedHex (map upper s)

IsPadded-upper : (s : List ℕ) → IsPaddedHex s → IsPadded s
IsPadded-upper s h = subst IsPaddedHex (sym (map-upper s (h.0))) h

pub pad_hex_lem : (pan : List ℕ) → is_pan pan ≡ true → IsPaddedHex (pad_hex pan)
unfolding pad_hex
pad_hex_lem pan h =
    let chars = all_chars-digits pan (ground (arith, h)) in
    let more = length-append pan (70 ∷ []) in
    if_cases IsPadded (length pan % 2 == 0) pan (pan ++ (70 ∷ []))
      (λ even. IsPadded-upper pan (chars, ground (arith, even), ground (arith, h)))
      (λ odd. IsPadded-upper (pan ++ (70 ∷ [])) (
        All-append IsUpperHex pan (70 ∷ []) chars (refl, tt),
        ground (arith, odd, more),
        ground (arith, h, more),
      ))

pub expiry_lem :
    (expiry : List ℕ)
    → is_expiry expiry ≡ true
    → All IsUpperHex (expiry ++ (48 ∷ 48 ∷ [])) × (length (expiry ++ (48 ∷ 48 ∷ [])) ≡ 6)
expiry_lem expiry h = (
  All-append IsUpperHex expiry (48 ∷ 48 ∷ []) (all_chars-digits expiry (ground (arith, h)))
      (refl, (refl, tt)),
  ground (arith, h, length-append expiry (48 ∷ 48 ∷ [])),
)

low_bytes_IsByte : (s : List ℕ) → All IsByte (map (λ c. c % 256) s)
low_bytes_IsByte [] = tt
low_bytes_IsByte (c ∷ s) = (omega arith, low_bytes_IsByte s)

pub name_lem : (name : List ℕ) → All IsByte (name_bytes name) × (length (name_bytes name) ≡ 26)
unfolding name_bytes
name_lem name =
    let padded = name ++ replicate (26 - length name) 32 in
    (
      low_bytes_IsByte (take 26 padded),
      omega (
        arith,
        length-map (take 26 padded) (λ c. c % 256),
        length-take 26 padded,
        length-append name (replicate (26 - length name) 32),
        length-replicate {A = ℕ} (26 - length name) 32,
      ),
    )

pub record_size : (card : EmvCardData) → IsCard card → length (wires (record_trees card)) ≤ 53
record_size card (pan_ok, exp_ok) =
    let pan = pad_hex_lem card.pan pan_ok in
    let exp = expiry_lem card.expiry_date exp_ok in
    let name = name_lem card.cardholder_name in
    let p = pairs (pad_hex card.pan) in
    let e = pairs (card.expiry_date ++ (48 ∷ 48 ∷ [])) in
    let n = name_bytes card.cardholder_name in
    let name_wire = wire (leaf (0x5f ∷ 0x20 ∷ []) n) ++ [] in
    omega (
      arith,
      length-append (wire (leaf (0x5a ∷ []) p)) (wire (leaf (0x5f ∷ 0x24 ∷ []) e) ++ name_wire),
      length-append (wire (leaf (0x5f ∷ 0x24 ∷ []) e)) name_wire,
      length-append (wire (leaf (0x5f ∷ 0x20 ∷ []) n)) [],
      length-wire (0x5a ∷ []) p,
      length-wire (0x5f ∷ 0x24 ∷ []) e,
      length-wire (0x5f ∷ 0x20 ∷ []) n,
      length-pairs (pad_hex card.pan) (pan.1),
      length-pairs (card.expiry_date ++ (48 ∷ 48 ∷ [])) (omega (arith, exp.1)),
      pan.2,
      exp.1,
      name.1,
    )

one_byte-IsTag :
    (b : ℕ) → IsByte b → (b % 32 == 31) ≡ false → (b / 32 % 2 == 1) ≡ false → IsTag false (b ∷ [])
one_byte-IsTag b byte short plain = ((byte, tt), short, plain)

two_byte-IsTag :
    (a b : ℕ)
    → IsByte a
    → b < 0x80
    → (a % 32 == 31) ≡ true
    → (a / 32 % 2 == 1) ≡ false
    → IsTag false (a ∷ b ∷ [])
two_byte-IsTag a b byte low long plain = ((byte, (omega arith, tt)), (long, low), plain)

pub record-AreValid : (card : EmvCardData) → IsCard card → IsValid (record_tree card)
record-AreValid card (pan_ok, exp_ok) =
    let pan = pad_hex_lem card.pan pan_ok in
    let exp = expiry_lem card.expiry_date exp_ok in
    let name = name_lem card.cardholder_name in
    (
      ((omega arith, tt), refl, refl),
      omega (arith, record_size card (pan_ok, exp_ok)),
      (
        (
          one_byte-IsTag 0x5a (omega arith) refl refl,
          omega (arith, length-pairs (pad_hex card.pan) (pan.1), pan.2),
        ),
        (
          (
            two_byte-IsTag 0x5f 0x24 (omega arith) (omega arith) refl refl,
            omega (
              arith,
              length-pairs (card.expiry_date ++ (48 ∷ 48 ∷ [])) (omega (arith, exp.1)),
              exp.1,
            ),
          ),
          (
            (two_byte-IsTag 0x5f 0x20 (omega arith) (omega arith) refl refl, omega (arith, name.1)),
            tt,
          ),
        ),
      ),
    )

pub record_template-wire :
    (card : EmvCardData) → IsCard card → record_template card ≡ ok (wire (record_tree card))
unfolding record_template
record_template-wire card (pan_ok, exp_ok) =
    let pan = pad_hex_lem card.pan pan_ok in
    let exp = expiry_lem card.expiry_date exp_ok in
    let name = name_lem card.cardholder_name in
    let valid = record-AreValid card (pan_ok, exp_ok) in
    let pan_sent =
      encode_hex-leaf (0x5a ∷ []) (pad_hex card.pan) (pairs (pad_hex card.pan)) (valid.2.0.0)
        (hex_to_bytes-pairs (pad_hex card.pan) (pan.0) (pan.1)) (valid.2.0.1) in
    let exp_sent =
      encode_hex-leaf (0x5f ∷ 0x24 ∷ []) (card.expiry_date ++ (48 ∷ 48 ∷ []))
        (pairs (card.expiry_date ++ (48 ∷ 48 ∷ []))) (valid.2.1.0.0)
        (hex_to_bytes-pairs (card.expiry_date ++ (48 ∷ 48 ∷ [])) (exp.0) (omega (arith, exp.1)))
        (valid.2.1.0.1) in
    let name_sent =
      encode_hex-leaf (0x5f ∷ 0x20 ∷ []) (bytes_to_hex (name_bytes card.cardholder_name))
        (name_bytes card.cardholder_name) (valid.2.1.1.0.0)
        (hex_to_bytes-bytes_to_hex (name_bytes card.cardholder_name) (name.0)) (valid.2.1.1.0.1) in
    let build = λ (a b c : Result TlvError (List ℕ)). a >>= λ pan.
    b >>= λ expiry. c >>= λ name. encode_template (tag_1 0x70) (pan ∷ expiry ∷ name ∷ []) in
    (λ i. build (pan_sent i) (exp_sent i) (name_sent i))
    ∙ encode_template-parts_of (0x70 ∷ []) (record_trees card) (valid.0) (valid.1)

pub record-IsByte : (card : EmvCardData) → IsCard card → All IsByte (wire (record_tree card))
record-IsByte card (pan_ok, exp_ok) =
    let pan = pad_hex_lem card.pan pan_ok in
    let exp = expiry_lem card.expiry_date exp_ok in
    let name = name_lem card.cardholder_name in
    let valid = record-AreValid card (pan_ok, exp_ok) in
    let p = pairs (pad_hex card.pan) in
    let e = pairs (card.expiry_date ++ (48 ∷ 48 ∷ [])) in
    let n = name_bytes card.cardholder_name in
    wire-IsByte (0x70 ∷ []) (wires (record_trees card)) (omega arith, tt)
      (All-append IsByte (wire (leaf (0x5a ∷ []) p))
        (wires (next (leaf (0x5f ∷ 0x24 ∷ []) e) (next (leaf (0x5f ∷ 0x20 ∷ []) n) none_left)))
        (wire-IsByte (0x5a ∷ []) p (omega arith, tt) (pairs-IsByte (pad_hex card.pan) (pan.0))
          (valid.2.0.1))
        (All-append IsByte (wire (leaf (0x5f ∷ 0x24 ∷ []) e))
          (wires (next (leaf (0x5f ∷ 0x20 ∷ []) n) none_left))
          (wire-IsByte (0x5f ∷ 0x24 ∷ []) e (omega arith, (omega arith, tt))
            (pairs-IsByte (card.expiry_date ++ (48 ∷ 48 ∷ [])) (exp.0)) (valid.2.1.0.1))
          (All-append IsByte (wire (leaf (0x5f ∷ 0x20 ∷ []) n)) []
            (wire-IsByte (0x5f ∷ 0x20 ∷ []) n (omega arith, (omega arith, tt)) (name.0)
              (valid.2.1.1.0.1))
            tt)))
      (valid.1)
