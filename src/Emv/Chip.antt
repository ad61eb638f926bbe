-- ===== src/Emv/Chip.antt =====
-- packages/emv/src/emv-simulator.ts: the chip, `EmvSimulator`. Texts are lists of character codes; the
-- chip is carried along, also where a call throws.
use atm_xfs_simulator.Common.{
  ℕ, ◌-◌, ◌%◌, Bool, true, false, ◌&&◌, ◌||◌, Option, none, some, List, [], ◌∷◌, ◌++◌, Result, ok,
  err, ◌>>=◌, if◌then◌else◌, leb, ◌==◌, length, take, map,
}
use atm_xfs_simulator.Common.Chars.{is_digit, pad_end}
use atm_xfs_simulator.Emv.Hex.{HexError, hex_to_bytes, bytes_to_hex}
use atm_xfs_simulator.Emv.Apdu.{ApduError}
use atm_xfs_simulator.Emv.Tlv.{TlvError, bad_hex, encode_tlv, encode_template}

-- `SW`
pub data StatusWord : Type 0 where
  sw_ok warning_file_not_found conditions_not_satisfied ins_not_supported : StatusWord

pub record ApduResponse : Type 0 where
  pub answer : List ℕ
  pub sw : StatusWord

pub record EmvCardData : Type 0 where
  pub pan : List ℕ
  pub expiry_date : List ℕ
  pub cardholder_name : List ℕ

pub record EmvSimulator : Type 0 where
  pub powered : Bool
  pub selected_aid : Option (List ℕ)
  pub atc : ℕ
  pub current_record : ℕ

pub data ChipError : Type 0 where
  invalid_pan invalid_expiry not_powered : ChipError
  apdu_hex : HexError → ChipError
  apdu_form : ApduError → ChipError
  tlv_form : TlvError → ChipError

abbrev pub ChipResult : Type 0
ChipResult = Result ChipError ApduResponse × EmvSimulator

abbrev pub all_chars : (ℕ → Bool) → List ℕ → Bool
all_chars test [] = true
all_chars test (c ∷ s) = test c && all_chars test s

abbrev pub is_pan : List ℕ → Bool
is_pan s = all_chars is_digit s && leb 12 (length s) && leb (length s) 19

abbrev pub is_expiry : List ℕ → Bool
is_expiry s = all_chars is_digit s && length s == 4

-- The constructor.
unfoldable pub new_simulator : EmvCardData → Result ChipError EmvSimulator
new_simulator card =
    if is_pan card.pan
    then (if is_expiry card.expiry_date
        then ok (record { powered = false; selected_aid = none; atc = 0; current_record = 1 })
        else err invalid_expiry)
    else err invalid_pan

abbrev pub power_on : EmvSimulator → EmvSimulator
power_on chip = record {
  powered = true;
  selected_aid = none;
  atc = 0;
  current_record = chip.current_record;
}

abbrev pub power_off : EmvSimulator → EmvSimulator
power_off chip = record {
  powered = false;
  selected_aid = none;
  atc = chip.atc;
  current_record = chip.current_record;
}

-- "1PAY.SYS.DDF01" in hexadecimal.
unfoldable pub pse_name : List ℕ
pse_name = bytes_to_hex (
    0x31 ∷ 0x50 ∷ 0x41 ∷ 0x59 ∷ 0x2e ∷ 0x53 ∷ 0x59 ∷ 0x53 ∷ 0x2e ∷ 0x44 ∷ 0x44 ∷ 0x46 ∷ 0x30 ∷ 0x31
    ∷ [])

abbrev pub encode_read : List ℕ → Result HexError (List ℕ) → Result TlvError (List ℕ)
encode_read tag (ok bytes) = encode_tlv tag bytes
encode_read tag (err e) = err (bad_hex e)

-- `encodeTlv` with a value in hexadecimal, which is read before the tag.
abbrev pub encode_hex : List ℕ → List ℕ → Result TlvError (List ℕ)
encode_hex tag value = encode_read tag (hex_to_bytes value)

abbrev pub answer_with : Result TlvError (List ℕ) → Result ChipError ApduResponse
answer_with (ok bytes) = ok (record { answer = bytes_to_hex bytes; sw = sw_ok })
answer_with (err e) = err (tlv_form e)

abbrev pub refuse : StatusWord → EmvSimulator → ChipResult
refuse sw chip = (ok (record { answer = []; sw = sw }), chip)

-- `toUpperCase`, and the class `[0-9A-F]`.
abbrev pub upper : ℕ → ℕ
upper c = if leb 97 c && leb c 122 then c - 32 else c

abbrev pub is_hex_char : ℕ → Bool
is_hex_char c = is_digit c || (leb 65 c && leb c 70)

abbrev pub is_aid : List ℕ → Bool
is_aid s = all_chars is_hex_char s && leb 10 (length s) && leb (length s) 32

abbrev pub is_same : List ℕ → List ℕ → Bool
is_same [] [] = true
is_same (a ∷ s) (b ∷ t) = a == b && is_same s t
is_same s t = false

-- Tags and short values, as pairs of digits.
abbrev pub tag_1 : ℕ → List ℕ
tag_1 a = bytes_to_hex (a ∷ [])

abbrev pub tag_2 : ℕ → ℕ → List ℕ
tag_2 a b = bytes_to_hex (a ∷ b ∷ [])

unfoldable pub pse_fci : Result TlvError (List ℕ)
pse_fci = do
  name ← encode_hex (tag_1 0x84) pse_name
  sfi ← encode_hex (tag_1 0x88) (tag_1 1)
  fci ← encode_template (tag_1 0xa5) (sfi ∷ [])
  encode_template (tag_1 0x6f) (name ∷ fci ∷ [])

-- "VISA DEBIT" in hexadecimal.
unfoldable pub app_label : List ℕ
app_label = bytes_to_hex (0x56 ∷ 0x49 ∷ 0x53 ∷ 0x41 ∷ 0x20 ∷ 0x44 ∷ 0x45 ∷ 0x42 ∷ 0x49 ∷ 0x54 ∷ [])

unfoldable pub app_fci : List ℕ → Result TlvError (List ℕ)
app_fci aid = do
  name ← encode_hex (tag_1 0x84) aid
  label ← encode_hex (tag_1 0x50) app_label
  priority ← encode_hex (tag_1 0x87) (tag_1 1)
  fci ← encode_template (tag_1 0xa5) (label ∷ priority ∷ [])
  encode_template (tag_1 0x6f) (name ∷ fci ∷ [])

abbrev pub select_aid : EmvSimulator → List ℕ → EmvSimulator
select_aid chip aid = record {
  powered = chip.powered;
  selected_aid = some aid;
  atc = chip.atc;
  current_record = chip.current_record;
}

unfoldable pub handle_select : EmvSimulator → List ℕ → ChipResult
handle_select chip payload =
    let aid = map upper payload in
    if is_same aid pse_name
    then (answer_with pse_fci, chip)
    else if is_aid aid
    then (answer_with (app_fci aid), select_aid chip aid)
    else refuse warning_file_not_found chip

-- `this.selectedAid` as a test: `null` and the empty text fail.
abbrev pub has_aid : Option (List ℕ) → Bool
has_aid none = false
has_aid (some []) = false
has_aid (some (c ∷ s)) = true

unfoldable pub gpo_template : Result TlvError (List ℕ)
gpo_template = do
  aip ← encode_hex (tag_1 0x82) (tag_2 0x5c 0)
  afl ← encode_hex (tag_1 0x94) (
      bytes_to_hex (
        0x08 ∷ 0x01 ∷ 0x01 ∷ 0x00 ∷ 0x10 ∷ 0x01 ∷ 0x01 ∷ 0x01 ∷ 0x18 ∷ 0x01 ∷ 0x01 ∷ 0x00 ∷ 0x20
        ∷ 0x01 ∷ 0x01 ∷ 0x00 ∷ []))
  encode_template (tag_1 0x77) (aip ∷ afl ∷ [])

unfoldable pub handle_gpo : EmvSimulator → ChipResult
handle_gpo chip =
    if has_aid chip.selected_aid
    then (answer_with gpo_template, chip)
    else refuse conditions_not_satisfied chip

unfoldable pub pad_hex : List ℕ → List ℕ
pad_hex pan = map upper (if length pan % 2 == 0 then pan else pan ++ (70 ∷ []))

-- The name in 26 characters, a byte each.
unfoldable pub name_bytes : List ℕ → List ℕ
name_bytes name = map (λ c. c % 256) (take 26 (pad_end 26 32 name))

unfoldable pub record_template : EmvCardData → Result TlvError (List ℕ)
record_template card = do
  pan ← encode_hex (tag_1 0x5a) (pad_hex card.pan)
  expiry ← encode_hex (tag_2 0x5f 0x24) (card.expiry_date ++ (48 ∷ 48 ∷ []))
  name ← encode_hex (tag_2 0x5f 0x20) (bytes_to_hex (name_bytes card.cardholder_name))
  encode_template (tag_1 0x70) (pan ∷ expiry ∷ name ∷ [])

abbrev pub at_record : EmvSimulator → ℕ → EmvSimulator
at_record chip n = record {
  powered = chip.powered;
  selected_aid = chip.selected_aid;
  atc = chip.atc;
  current_record = n;
}

unfoldable pub handle_read_record : EmvCardData → EmvSimulator → ℕ → ChipResult
handle_read_record card chip n =
    if has_aid chip.selected_aid
    then (answer_with (record_template card), at_record chip n)
    else refuse conditions_not_satisfied chip
