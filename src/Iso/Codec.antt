-- ===== src/Iso/Codec.antt =====
-- packages/iso8583/src/codec.ts: messages as text. The fields of a message come in rising order, as the
-- language lists the keys of an object that are numbers. A position in the text is an integer or NaN,
-- since `parseInt` of a length may be negative or NaN.
use atm_xfs_simulator.Common.{
  ℕ, zero, suc, ◌+◌, ◌-◌, ◌*◌, Bool, false, Option, none, some, List, [], ◌∷◌, ◌++◌, Result, ok,
  err, ◌>>=◌, if◌then◌else◌, ltb, ◌==◌, length, take, drop, min,
}
use atm_xfs_simulator.Common.Int.{ℤ, pos, negsuc, ◌+ℤ◌}
use atm_xfs_simulator.Common.Chars.{is_digit, is_space, decimal, pad_start, pad_end, trim_end}
use atm_xfs_simulator.Iso.Fields.{
  FieldDef, FieldKind, fixed, numeric, llvar, lllvar, IsoError, unknown_field, value_too_long,
  message_too_short, trailing_bytes, lookup_field, fields_to_bitmap, bitmap_to_fields,
}

abbrev pub FieldValues : Type 0
FieldValues = List (ℕ × List ℕ)

pub record IsoMessage : Type 0 where
  pub mti : List ℕ
  pub field_values : FieldValues

-- `replace(/\D/g, '')`
abbrev pub keep_digits : List ℕ → List ℕ
keep_digits [] = []
keep_digits (c ∷ s) = let rest = keep_digits s in if is_digit c then c ∷ rest else rest

-- `slice(-n)` for a positive `n`.
abbrev pub last_chars : ℕ → List ℕ → List ℕ
last_chars n s = drop (length s - n) s

abbrev pub with_length : ℕ → FieldDef → List ℕ → Result IsoError (List ℕ)
with_length n def raw =
    if ltb def.size (length raw)
    then err (value_too_long def.field)
    else ok (pad_start n 48 (decimal (length raw)) ++ raw)

abbrev pub encode_kind : FieldKind → FieldDef → List ℕ → Result IsoError (List ℕ)
encode_kind fixed def raw = ok (take def.size (pad_end def.size 32 raw))
encode_kind numeric def raw = ok (last_chars def.size (pad_start def.size 48 (keep_digits raw)))
encode_kind llvar def raw = with_length 2 def raw
encode_kind lllvar def raw = with_length 3 def raw

unfoldable pub encode_field : FieldDef → List ℕ → Result IsoError (List ℕ)
encode_field def raw = encode_kind def.kind def raw

abbrev pub encode_known : ℕ → Option FieldDef → List ℕ → Result IsoError (List ℕ)
encode_known f none raw = err (unknown_field f)
encode_known f (some def) raw = encode_field def raw

abbrev pub join : Result IsoError (List ℕ) → Result IsoError (List ℕ) → Result IsoError (List ℕ)
join (err e) rest = err e
join (ok part) (err e) = err e
join (ok part) (ok parts) = ok (part ++ parts)

unfoldable pub encode_fields : FieldValues → Result IsoError (List ℕ)
encode_fields [] = ok []
encode_fields ((f, raw) ∷ fs) = join (encode_known f (lookup_field f) raw) (encode_fields fs)

abbrev pub numbers : FieldValues → List ℕ
numbers [] = []
numbers ((f, raw) ∷ fs) = f ∷ numbers fs

-- The bitmap is made before any field is looked up.
unfoldable pub encode_message : IsoMessage → Result IsoError (List ℕ)
encode_message msg =
    join (ok msg.mti)
      (join (fields_to_bitmap (numbers msg.field_values)) (encode_fields msg.field_values))

pub data Position : Type 0 where
  at : ℤ → Position
  not_a_number : Position

infixl 65 ◌+p◌
abbrev pub ◌+p◌ : Position → Position → Position
at a +p at b = at (a +ℤ b)
at a +p not_a_number = not_a_number
not_a_number +p b = not_a_number

-- An index of `slice` in a text of `size` characters.
abbrev pub index_in : ℕ → Position → ℕ
index_in size not_a_number = 0
index_in size (at (pos n)) = min n size
index_in size (at (negsuc k)) = size - suc k

abbrev pub slice_text : List ℕ → Position → Position → List ℕ
slice_text s from until =
    let start = index_in (length s) from in take (index_in (length s) until - start) (drop start s)

-- The digits that a text starts with, if there is one, put after those of `acc`.
unfoldable pub digits_from : ℕ → List ℕ → ℕ
digits_from acc [] = acc
digits_from acc (c ∷ s) =
    let rest = digits_from (acc * 10 + (c - 48)) s in if is_digit c then rest else acc

abbrev pub starts_number : List ℕ → Bool
starts_number [] = false
starts_number (c ∷ s) = is_digit c

abbrev pub negate : ℕ → ℤ
negate zero = pos 0
negate (suc n) = negsuc n

abbrev pub signed_number : List ℕ → Position
signed_number [] = not_a_number
signed_number (c ∷ s) =
    if c == 45
    then (if starts_number s then at (negate (digits_from 0 s)) else not_a_number)
    else if c == 43
    then (if starts_number s then at (pos (digits_from 0 s)) else not_a_number)
    else if is_digit c
    then at (pos (digits_from 0 (c ∷ s)))
    else not_a_number

-- `parseInt(s, 10)`; -0 and 0 make the same positions.
abbrev pub parse_int : List ℕ → Position
parse_int [] = not_a_number
parse_int (c ∷ s) = let rest = parse_int s in if is_space c then rest else signed_number (c ∷ s)

abbrev pub decode_var : ℕ → List ℕ → Position → List ℕ × Position
decode_var n wire start =
    let len = parse_int (slice_text wire start (start +p at (pos n))) in
    let from = start +p at (pos n) in (slice_text wire from (from +p len), from +p len)

abbrev pub decode_kind : FieldKind → FieldDef → List ℕ → Position → List ℕ × Position
decode_kind fixed def wire start =
    let end = start +p at (pos def.size) in (trim_end (slice_text wire start end), end)
decode_kind numeric def wire start =
    let end = start +p at (pos def.size) in (slice_text wire start end, end)
decode_kind llvar def wire start = decode_var 2 wire start
decode_kind lllvar def wire start = decode_var 3 wire start

unfoldable pub decode_field : FieldDef → List ℕ → Position → List ℕ × Position
decode_field def wire start = decode_kind def.kind def wire start

abbrev pub add_value :
    (f : ℕ) (value : List ℕ)
    → Result IsoError (FieldValues × Position)
    → Result IsoError (FieldValues × Position)
add_value f value (err e) = err e
add_value f value (ok (fs, cursor)) = ok ((f, value) ∷ fs, cursor)

-- One round: `again` reads the fields that follow.
abbrev pub decode_known :
    (f : ℕ)
    → Option FieldDef
    → List ℕ
    → Position
    → (Position → Result IsoError (FieldValues × Position))
    → Result IsoError (FieldValues × Position)
decode_known f none wire cursor again = err (unknown_field f)
decode_known f (some def) wire cursor again =
    let (value, following) = decode_field def wire cursor in add_value f value (again following)

unfoldable pub decode_fields : List ℕ → List ℕ → Position → Result IsoError (FieldValues × Position)
decode_fields [] wire cursor = ok ([], cursor)
decode_fields (f ∷ fs) wire cursor =
    decode_known f (lookup_field f) wire cursor (decode_fields fs wire)

abbrev pub is_end : ℕ → Position → Bool
is_end size (at (pos n)) = n == size
is_end size (at (negsuc k)) = false
is_end size not_a_number = false

abbrev pub finish : (mti wire : List ℕ) → FieldValues × Position → Result IsoError IsoMessage
finish mti wire (fs, cursor) =
    if is_end (length wire) cursor
    then ok (record { mti = mti; field_values = fs })
    else err trailing_bytes

unfoldable pub decode_message : List ℕ → Result IsoError IsoMessage
decode_message wire =
    if ltb (length wire) 20
    then err message_too_short
    else (bitmap_to_fields (take 16 (drop 4 wire)) >>= λ fs.
        decode_fields fs wire (at (pos 20)) >>= λ out. finish (take 4 wire) wire out)
