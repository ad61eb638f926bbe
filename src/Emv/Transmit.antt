-- ===== src/Emv/Transmit.antt =====
-- packages/emv/src/emv-simulator.ts: the cryptogram, and the routing of a command.
use atm_xfs_simulator.Common.{
  ℕ, zero, suc, ◌*◌, ◌/◌, ◌%◌, ◌^◌, ◌&&◌, Option, none, some, List, [], ◌∷◌, ◌++◌, Result, ok, err,
  ◌>>=◌, if◌then◌else◌, ◌==◌,
}
use Prim.Native.Nat.{bit_xor}
use atm_xfs_simulator.Common.Chars.{digits, decimal, pad_start}
use atm_xfs_simulator.Emv.Hex.{HexError, hex_to_bytes, bytes_to_hex}
use atm_xfs_simulator.Emv.Apdu.{ParsedApdu, ApduError, parse_apdu}
use atm_xfs_simulator.Emv.Tlv.{TlvError, encode_template}
use atm_xfs_simulator.Emv.Chip.{
  EmvCardData, EmvSimulator, ChipResult, not_powered, apdu_hex, apdu_form, has_aid, answer_with,
  refuse, conditions_not_satisfied, ins_not_supported, encode_hex, tag_1, tag_2, handle_select,
  handle_gpo, handle_read_record,
}

-- `toString(16).padStart(4, '0')`; an integer of JavaScript has 14 such digits at most.
unfoldable pub atc_hex : ℕ → List ℕ
atc_hex atc = pad_start 4 48 (digits 16 14 atc)

-- FNV-1a on 64 bits.
unfoldable pub fnv : ℕ → List ℕ → ℕ
fnv hash [] = hash
fnv hash (c ∷ s) = fnv ((bit_xor hash c * 0x100000001b3) % 2 ^ 64) s

-- The `n` low bytes of a number, the highest first.
unfoldable pub low_bytes : (n x : ℕ) → List ℕ
low_bytes zero x = []
low_bytes (suc n) x = low_bytes n (x / 256) ++ (x % 256 ∷ [])

abbrev pub aid_text : Option (List ℕ) → List ℕ
aid_text none = []
aid_text (some aid) = aid

-- `deterministicArqc`; 124 is `|`.
unfoldable pub deterministic_arqc : EmvCardData → EmvSimulator → List ℕ
deterministic_arqc card chip = bytes_to_hex (
    low_bytes 8 (
      fnv 0xcbf29ce484222325
        (card.pan ++ (124 ∷ (decimal chip.atc ++ (124 ∷ aid_text chip.selected_aid))))))

unfoldable pub ac_template : EmvCardData → EmvSimulator → Result TlvError (List ℕ)
ac_template card chip = do
  cid ← encode_hex (tag_2 0x9f 0x27) (tag_1 0x80)
  counter ← encode_hex (tag_2 0x9f 0x36) (atc_hex chip.atc)
  arqc ← encode_hex (tag_2 0x9f 0x26) (deterministic_arqc card chip)
  iad ← encode_hex (tag_2 0x9f 0x10) (
      bytes_to_hex (
        0x01 ∷ 0x10 ∷ 0xa0 ∷ 0x40 ∷ 0x03 ∷ 0x24 ∷ 0x00 ∷ 0x00 ∷ 0x00 ∷ 0x00 ∷ 0x00 ∷ 0x00 ∷ 0x00
        ∷ 0x00 ∷ 0x00 ∷ 0x00 ∷ 0x00 ∷ 0xff ∷ []))
  encode_template (tag_1 0x77) (cid ∷ counter ∷ arqc ∷ iad ∷ [])

abbrev pub count_up : EmvSimulator → EmvSimulator
count_up chip = record {
  powered = chip.powered;
  selected_aid = chip.selected_aid;
  atc = suc chip.atc;
  current_record = chip.current_record;
}

-- The counter goes up before anything can throw.
unfoldable pub handle_generate_ac : EmvCardData → EmvSimulator → ChipResult
handle_generate_ac card chip =
    if has_aid chip.selected_aid
    then (answer_with (ac_template card (count_up chip)), count_up chip)
    else refuse conditions_not_satisfied chip

unfoldable pub route : EmvCardData → EmvSimulator → ParsedApdu → ChipResult
route card chip apdu =
    if apdu.cla == 0 && apdu.ins == 0xa4
    then handle_select chip (bytes_to_hex apdu.data_bytes)
    else if apdu.cla == 0x80 && apdu.ins == 0xa8
    then handle_gpo chip
    else if apdu.cla == 0 && apdu.ins == 0xb2
    then handle_read_record card chip apdu.p1
    else if apdu.cla == 0x80 && apdu.ins == 0xae
    then handle_generate_ac card chip
    else refuse ins_not_supported chip

abbrev pub route_parsed : EmvCardData → EmvSimulator → Result ApduError ParsedApdu → ChipResult
route_parsed card chip (ok apdu) = route card chip apdu
route_parsed card chip (err e) = (err (apdu_form e), chip)

abbrev pub route_bytes : EmvCardData → EmvSimulator → Result HexError (List ℕ) → ChipResult
route_bytes card chip (ok bytes) = route_parsed card chip (parse_apdu bytes)
route_bytes card chip (err e) = (err (apdu_hex e), chip)

unfoldable pub transmit_apdu : EmvCardData → EmvSimulator → List ℕ → ChipResult
transmit_apdu card chip hex =
    if chip.powered then route_bytes card chip (hex_to_bytes hex) else (err not_powered, chip)
