-- ===== src/Emv/Tests.antt =====
-- Tests and witnesses for packages/emv.
use atm_xfs_simulator.Common.{
  ℕ, ◌≡◌, ◌≢◌, ◌%◌, refl, true, none, some, List, [], ◌∷◌, ◌++◌, ok, arith, replicate,
}
use atm_xfs_simulator.Emv.Hex.{hex_to_bytes, bytes_to_hex, remove_spaces, parse_pairs}
use atm_xfs_simulator.Emv.Apdu.{parse_apdu}
use atm_xfs_simulator.Emv.Tlv.{TlvNodes, decode_tlv, concat}
use atm_xfs_simulator.Emv.Tlv.Bounded.{Ends, decode_tlv-Ends}
use atm_xfs_simulator.Emv.Tlv.Endless.{decode_tlv-endless, endless}
use atm_xfs_simulator.Emv.Tlv.Tree.{Trees, leaf, template, next, none_left, nodes_of, encode_trees}
use atm_xfs_simulator.Emv.Tlv.RoundTrip.{decode_tlv-encode_trees}
use atm_xfs_simulator.Emv.Chip.{
  EmvCardData, EmvSimulator, at_record, pad_hex, name_bytes, tag_1, tag_2, sw_ok,
}
use atm_xfs_simulator.Emv.Transmit.{transmit_apdu}
use atm_xfs_simulator.Emv.Record.{Holds, read_answer, transmit_apdu-decode_tlv}

abbrev two_trees : Trees
two_trees =
    next (template (0x6f ∷ []) (next (leaf (0x84 ∷ []) (1 ∷ 2 ∷ [])) none_left))
      (next (leaf (0x5f ∷ 0x24 ∷ []) (0x99 ∷ [])) none_left)

decode_tlv-encode_trees_example :
    (parts : List (List ℕ)) × (encode_trees two_trees ≡ ok parts)
    × (decode_tlv 20 (concat parts) ≡ some (ok (nodes_of two_trees)))
decode_tlv-encode_trees_example =
    decode_tlv-encode_trees two_trees 20
      ((
        (
          ((omega arith, tt), refl, refl),
          omega arith,
          ((((omega arith, tt), refl, refl), omega arith), tt),
        ),
        ((((omega arith, (omega arith, tt)), (refl, omega arith), refl), omega arith), tt),
      ))
      (omega arith)

decode_tlv-Ends_example : Ends (decode_tlv 10 (0x5a ∷ 2 ∷ 0x12 ∷ 0x34 ∷ []))
decode_tlv-Ends_example =
    decode_tlv-Ends (0x5a ∷ 2 ∷ 0x12 ∷ 0x34 ∷ []) 10 (omega arith) (omega arith)

-- The PAN 4111111111111, the expiry date 3012 and the name "AB".
abbrev card : EmvCardData
card = record {
  pan = 52 ∷ replicate {A = ℕ} 12 49;
  expiry_date = 51 ∷ 48 ∷ 49 ∷ 50 ∷ [];
  cardholder_name = 65 ∷ 66 ∷ [];
}

abbrev chip : EmvSimulator
chip = record {
  powered = true;
  selected_aid = some (bytes_to_hex (0xa0 ∷ 0 ∷ 0 ∷ 0 ∷ 3 ∷ []));
  atc = 2;
  current_record = 1;
}

abbrev read_record : List ℕ
read_record = bytes_to_hex (0 ∷ 0xb2 ∷ 3 ∷ 0x0c ∷ 0 ∷ [])

transmit_apdu-decode_tlv_example :
    (digits : List ℕ) × (nodes : TlvNodes) × (transmit_apdu card chip read_record
      ≡ (ok (record { answer = digits; sw = sw_ok }), at_record chip 3))
    × (read_answer 58 (hex_to_bytes digits) ≡ some (ok nodes))
    × Holds nodes (tag_1 0x5a) (pad_hex card.pan)
    × Holds nodes (tag_2 0x5f 0x24) (card.expiry_date ++ (48 ∷ 48 ∷ []))
    × Holds nodes (tag_2 0x5f 0x20) (bytes_to_hex (name_bytes card.cardholder_name))
unfolding bytes_to_hex hex_to_bytes remove_spaces parse_pairs parse_apdu
transmit_apdu-decode_tlv_example =
    transmit_apdu-decode_tlv card chip read_record (0 ∷ 0xb2 ∷ 3 ∷ 0x0c ∷ 0 ∷ []) 3 58 (refl, refl)
      refl refl refl (refl, refl, refl) (omega arith)

four : ◌≢◌ {A = ℕ} (4 % 32) 31
four = omega arith

decode_tlv-endless_example : decode_tlv 100 (endless 4 []) ≡ none
decode_tlv-endless_example = decode_tlv-endless 100 4 [] four
