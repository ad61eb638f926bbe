-- ===== src/Iso/Fields.antt =====
-- packages/iso8583/src/fields.ts and bitmap.ts: the fields of a message and the primary bitmap. Texts are
-- lists of character codes.
use atm_xfs_simulator.Common.{
  ℕ, suc, ◌+◌, ◌-◌, ◌*◌, ◌/◌, ◌%◌, String, Bool, ◌&&◌, ◌||◌, Option, none, some, List, [], ◌∷◌,
  Result, ok, err, if◌then◌else◌, ltb, leb, ◌==◌, length, set, replicate,
}
use atm_xfs_simulator.Common.Chars.{hex_digit}

pub data FieldKind : Type 0 where
  fixed numeric llvar lllvar : FieldKind

pub record FieldDef : Type 0 where
  pub field : ℕ
  pub kind : FieldKind
  pub size : ℕ
  pub description : String

abbrev pub field_def : ℕ → FieldKind → ℕ → String → FieldDef
field_def f kind n text = record { field = f; kind = kind; size = n; description = text }

-- `FIELDS`
abbrev pub fields : List FieldDef
fields =
    field_def 2 llvar 19 "Primary Account Number"
    ∷ field_def 3 numeric 6 "Processing Code"
    ∷ field_def 4 numeric 12 "Transaction Amount"
    ∷ field_def 7 numeric 10 "Transmission Date & Time (MMDDhhmmss)"
    ∷ field_def 11 numeric 6 "STAN"
    ∷ field_def 12 numeric 6 "Time, Local (hhmmss)"
    ∷ field_def 13 numeric 4 "Date, Local (MMDD)"
    ∷ field_def 14 numeric 4 "Expiry Date (YYMM)"
    ∷ field_def 22 numeric 3 "POS Entry Mode"
    ∷ field_def 37 fixed 12 "Retrieval Reference Number"
    ∷ field_def 38 fixed 6 "Authorisation ID"
    ∷ field_def 39 fixed 2 "Response Code"
    ∷ field_def 41 fixed 8 "Terminal ID"
    ∷ field_def 42 fixed 15 "Card Acceptor ID"
    ∷ field_def 49 numeric 3 "Currency Code"
    ∷ field_def 52 fixed 16 "PIN Data (hex)"
    ∷ field_def 54 lllvar 120 "Additional Amounts"
    ∷ field_def 70 numeric 3 "Network Management Info Code"
    ∷ []

abbrev pub find_field : List FieldDef → ℕ → Option FieldDef
find_field [] f = none
find_field (d ∷ ds) f = if d.field == f then some d else find_field ds f

unfoldable pub lookup_field : ℕ → Option FieldDef
lookup_field f = find_field fields f

pub data IsoError : Type 0 where
  outside_bitmap : ℕ → IsoError
  bitmap_length : ℕ → IsoError
  unknown_field : ℕ → IsoError
  value_too_long : ℕ → IsoError
  message_too_short trailing_bytes : IsoError

abbrev pub is_outside : ℕ → Bool
is_outside f = ltb f 1 || ltb 64 f

-- `bits[f - 1] = 1` for each field.
unfoldable pub set_bits : List ℕ → List ℕ → Result IsoError (List ℕ)
set_bits [] bits = ok bits
set_bits (f ∷ fs) bits =
    let rest = set_bits fs (set bits (f - 1) 1) in
    if is_outside f then err (outside_bitmap f) else rest

abbrev pub nibble : (a b c d : ℕ) → ℕ
nibble a b c d = ((a * 2 + b) * 2 + c) * 2 + d

-- Four bits a digit.
unfoldable pub pack : List ℕ → List ℕ
pack (a ∷ b ∷ c ∷ d ∷ bits) = hex_digit (nibble a b c d) ∷ pack bits
pack bits = []

abbrev pub packed : Result IsoError (List ℕ) → Result IsoError (List ℕ)
packed (ok bits) = ok (pack bits)
packed (err e) = err e

unfoldable pub fields_to_bitmap : List ℕ → Result IsoError (List ℕ)
fields_to_bitmap fs = packed (set_bits fs (replicate 64 0))

-- `parseInt` of one character; NaN counts as zero under `>>`.
abbrev pub hex_or_zero : ℕ → ℕ
hex_or_zero c =
    if leb 48 c && leb c 57
    then c - 48
    else if leb 65 c && leb c 70
    then c - 55
    else if leb 97 c && leb c 102
    then c - 87
    else 0

abbrev pub push : (bit f : ℕ) → List ℕ → List ℕ
push bit f out = if bit == 1 then f ∷ out else out

abbrev pub nibble_fields : (i n : ℕ) → List ℕ → List ℕ
nibble_fields i n out =
    push (n / 8 % 2) (i * 4 + 1)
      (push (n / 4 % 2) (i * 4 + 2) (push (n / 2 % 2) (i * 4 + 3) (push (n % 2) (i * 4 + 4) out)))

unfoldable pub fields_from : ℕ → List ℕ → List ℕ
fields_from i [] = []
fields_from i (c ∷ hex) = nibble_fields i (hex_or_zero c) (fields_from (suc i) hex)

unfoldable pub bitmap_to_fields : List ℕ → Result IsoError (List ℕ)
bitmap_to_fields hex =
    if length hex == 16 then ok (fields_from 0 hex) else err (bitmap_length (length hex))
