-- ===== src/Emv/Record.antt =====
-- packages/emv/src/emv-simulator.ts, READ RECORD: what a terminal that uses `decodeTlv` and `findTag`
-- of packages/emv/src/tlv.ts reads of the card.
use atm_xfs_simulator.Common.{
  ℕ, ◌≡◌, ◌<◌, refl, sym, ap, ◌∙◌, if◌then◌else◌, true, none, some, List, [], ◌∷◌, ◌++◌, Result, ok,
  err, arith, length, length-append,
}
use atm_xfs_simulator.Emv.Hex.{HexError, hex_to_bytes, bytes_to_hex, hex_to_bytes-bytes_to_hex}
use mathlib.Core.List.{append-nil}
use atm_xfs_simulator.Emv.Hex.Upper.{bytes_to_hex-pairs}
use atm_xfs_simulator.Emv.Apdu.{ParsedApdu, ApduError, parse_apdu}
use atm_xfs_simulator.Emv.Tlv.{TlvError, TlvNode, TlvNodes, Decoded, decode_tlv}
use atm_xfs_simulator.Emv.Tlv.Find.{find_tag, find_in, value_of}
use atm_xfs_simulator.Emv.Tlv.Tree.{
  next, none_left, wire, wires, nodes_of, size_bytes, length-size_bytes,
}
use atm_xfs_simulator.Emv.Tlv.RoundTrip.{decode_tlv-wires}
use atm_xfs_simulator.Emv.Chip.{
  EmvCardData, EmvSimulator, not_powered, answer_with, at_record, has_aid, handle_read_record,
  name_bytes, pad_hex, record_template, sw_ok, tag_1, tag_2,
}
use atm_xfs_simulator.Emv.Transmit.{transmit_apdu, route, route_bytes, route_parsed}
use atm_xfs_simulator.Emv.Answers.{
  IsCard, record_tree, record_trees, record_template-wire, record-AreValid, pad_hex_lem, expiry_lem,
  record_size, record-IsByte,
}

-- The node of a tag has a value with these digits.
abbrev pub Holds : TlvNodes → List ℕ → List ℕ → Type 0
Holds nodes tag hex =
    (n : TlvNode) × (find_tag nodes tag ≡ some n) × (bytes_to_hex (value_of n) ≡ hex)

abbrev record_nodes : EmvCardData → TlvNodes
record_nodes card = nodes_of (next (record_tree card) none_left)

-- The three values of the record.
record_nodes-Holds :
    (card : EmvCardData)
    → IsCard card
    → Holds (record_nodes card) (tag_1 0x5a) (pad_hex card.pan)
      × Holds (record_nodes card) (tag_2 0x5f 0x24) (card.expiry_date ++ (48 ∷ 48 ∷ []))
      × Holds (record_nodes card) (tag_2 0x5f 0x20) (bytes_to_hex (name_bytes card.cardholder_name))
unfolding find_tag find_in bytes_to_hex
record_nodes-Holds card (h, e) =
    let pan = pad_hex_lem card.pan h in
    let exp = expiry_lem card.expiry_date e in
    (
      (_, refl, bytes_to_hex-pairs (pad_hex card.pan) (pan.0) (pan.1)),
      (
        _,
        refl,
        bytes_to_hex-pairs (card.expiry_date ++ (48 ∷ 48 ∷ [])) (exp.0) (omega (arith, exp.1)),
      ),
      (_, refl, refl),
    )

abbrev IsReadRecord : Result ApduError ParsedApdu → ℕ → Type 0
IsReadRecord (ok apdu) n = (apdu.cla ≡ 0) × (apdu.ins ≡ 0xb2) × (apdu.p1 ≡ n)
IsReadRecord (err e) n = ⊥

route-read_record :
    (card : EmvCardData) (chip : EmvSimulator) (r : Result ApduError ParsedApdu) (n : ℕ)
    → IsReadRecord r n
    → has_aid chip.selected_aid ≡ true
    → route_parsed card chip r ≡ (answer_with (record_template card), at_record chip n)
unfolding route handle_read_record
route-read_record card chip (err e) n h s = absurd h
route-read_record card chip (ok apdu) n (c, k, p) s = rw (c, k, p, s) refl

-- The terminal reads the digits of an answer.
abbrev pub read_answer : ℕ → Result HexError (List ℕ) → Decoded
read_answer fuel (ok bytes) = decode_tlv fuel bytes
read_answer fuel (err e) = none

-- READ RECORD on a chip that is powered and has an application selected, with a PAN of 12 to 19 digits
-- and an expiry date of four, always answers 9000 and only sets the record number. From the answer's
-- digits the decoder makes nodes in which `findTag` finds, under 5A, the digits of the PAN with an F to
-- make them even, under 5F24 the expiry date and 00, and under 5F20 the name in 26 bytes.
pub transmit_apdu-decode_tlv :
    (card : EmvCardData) (chip : EmvSimulator) (hex bytes : List ℕ) (n fuel : ℕ)
    → IsCard card
    → chip.powered ≡ true
    → has_aid chip.selected_aid ≡ true
    → hex_to_bytes hex ≡ ok bytes
    → IsReadRecord (parse_apdu bytes) n
    → 57 < fuel
    → (digits : List ℕ) × (nodes : TlvNodes) × (transmit_apdu card chip hex
        ≡ (ok (record { answer = digits; sw = sw_ok }), at_record chip n))
      × (read_answer fuel (hex_to_bytes digits) ≡ some (ok nodes))
      × Holds nodes (tag_1 0x5a) (pad_hex card.pan)
      × Holds nodes (tag_2 0x5f 0x24) (card.expiry_date ++ (48 ∷ 48 ∷ []))
      × Holds nodes (tag_2 0x5f 0x20) (bytes_to_hex (name_bytes card.cardholder_name))
unfolding transmit_apdu
transmit_apdu-decode_tlv card chip hex bytes n fuel valid on selected read is_read room =
    let sent = wire (record_tree card) in
    let ts = next (record_tree card) none_left in
    let inner = wires (record_trees card) in
    let size = length-append (size_bytes (length inner)) inner in
    let decoded : decode_tlv fuel (sent ++ []) ≡ some (ok (record_nodes card)) =
      decode_tlv-wires ts fuel (record-AreValid card valid, tt)
        (omega (
          arith,
          length-append sent [],
          size,
          length-size_bytes (length inner),
          record_size card valid,
        )) in
    let held = record_nodes-Holds card valid in
    (
      bytes_to_hex sent,
      record_nodes card,
      (λ i. if on i then route_bytes card chip (read i) else (err not_powered, chip))
          ∙ (route-read_record card chip (parse_apdu bytes) n is_read selected
              ∙ ap (λ (r : Result TlvError (List ℕ)). (answer_with r, at_record chip n))
                  (record_template-wire card valid)),
      ap (read_answer fuel) (hex_to_bytes-bytes_to_hex sent (record-IsByte card valid))
          ∙ ap (decode_tlv fuel) (sym (append-nil sent))
          ∙ decoded,
      held.0,
      held.1,
      held.2,
    )
