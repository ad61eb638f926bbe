-- ===== src/Emv/Tlv/Endless.antt =====
-- packages/emv/src/tlv.ts, `decodeTlv`: a length of four bytes that is negative as an `int32`.
use atm_xfs_simulator.Common.{
  ℕ, zero, suc, ◌+◌, ◌%◌, ◌≡◌, ◌≢◌, refl, Bool, true, false, none, some, List, [], ◌∷◌, arith,
  length, inl, inr, ok, ◌⊎◌, ltb,
}
use atm_xfs_simulator.Emv.Tlv.{
  Decoded, decode_tlv, decode_from, decode_length, read_length, add_node, is_constructed,
  decode_children, tag_size, nil,
}
use atm_xfs_simulator.Common.Int.{ℤ, negsuc}
use atm_xfs_simulator.Emv.Hex.{bytes_to_hex}

-- The length is -6, which is the size of what was read.
abbrev pub endless : ℕ → List ℕ → List ℕ
endless tag rest = tag ∷ 0x84 ∷ 0xff ∷ 0xff ∷ 0xff ∷ 0xfa ∷ rest

decode_from-nil :
    (fuel : ℕ) → (decode_from fuel [] 0 ≡ none) ⊎ (decode_from fuel [] 0 ≡ some (ok nil))
unfolding decode_from
decode_from-nil zero = inl refl
decode_from-nil (suc fuel) = inr refl

children-nil :
    (fuel : ℕ) (c : Bool)
    → (decode_children (decode_from fuel) c [] ≡ none)
      ⊎ (decode_children (decode_from fuel) c [] ≡ some (ok nil))
children-nil fuel true = decode_from-nil fuel
children-nil fuel false = inr refl

-- The rest is endless, and the children are not an error.
add_node-none :
    (tag value : List ℕ) (n : ℤ) (c : Bool) (children : Decoded)
    → (children ≡ none) ⊎ (children ≡ some (ok nil))
    → add_node tag n value c children none ≡ none
add_node-none tag value n c children (inl e) = rw e refl
add_node-none tag value n c children (inr e) = rw e refl

endless_again :
    (fuel tag : ℕ) (rest : List ℕ) → tag % 32 ≢ 31 → decode_from fuel (endless tag rest) 0 ≡ none
unfolding decode_from decode_length read_length
endless_again zero tag rest h = refl
endless_again (suc fuel) tag rest h =
    let one : tag_size tag (0x84 ∷ 0xff ∷ 0xff ∷ 0xff ∷ 0xfa ∷ rest) ≡ 1 = ground (arith, h) in
    let fits : ltb (length (endless tag rest) + 6) 6 ≡ false = ground arith in
    rw (one, fits, endless_again fuel tag rest h)
      (add_node-none (bytes_to_hex (tag ∷ [])) [] (negsuc 5) (is_constructed tag)
        (decode_children (decode_from fuel) (is_constructed tag) [])
        (children-nil fuel (is_constructed tag)))

-- Six bytes keep the decoder busy for ever: a tag of one byte and a length of four bytes that is -6 as an
-- `int32` take the offset back to where it was. Whatever follows them, no number of rounds is enough.
pub decode_tlv-endless :
    (fuel tag : ℕ) (rest : List ℕ) → tag % 32 ≢ 31 → decode_tlv fuel (endless tag rest) ≡ none
unfolding decode_tlv
decode_tlv-endless fuel tag rest h = endless_again fuel tag rest h
