-- ===== src/Iso/RoundTrip.antt =====
-- packages/iso8583/src/codec.ts: `decodeMessage` of what `encodeMessage` writes.
use atm_xfs_simulator.Common.{
  ℕ, ◌+◌, ◌-◌, ◌≡◌, ◌<◌, ◌≤◌, refl, sym, ap, ◌∙◌, subst, Bool, true, false, Option, none, some, inl,
  inr, List, [], ◌∷◌, ◌++◌, Result, ok, err, ◌>>=◌, if◌then◌else◌, ltb, ◌==◌, length, take, drop,
  replicate, arith, All, Bool-cases, take-append, drop-append, drop-drop, length-append,
  length-drop, length-replicate,
}
use mathlib.Core.List.{append_assoc, append-nil}
use atm_xfs_simulator.Common.Int.{pos}
use atm_xfs_simulator.Common.Chars.{
  is_digit, decimal, pad_start, pad_end, trim_end, trim_end-append,
}
use atm_xfs_simulator.Iso.Fields.{
  FieldDef, FieldKind, fixed, numeric, llvar, lllvar, fields, find_field, IsoError,
  message_too_short, trailing_bytes, lookup_field, bitmap_to_fields,
}
use atm_xfs_simulator.Iso.Bitmap.{IsRising, bitmap_to_fields-fields_to_bitmap}
use atm_xfs_simulator.Iso.Parts.{
  IsPrefix-two, IsPrefix-three, drop-next, part-inside, slice_text-part, decode_var-prefix,
  position_add,
}
use atm_xfs_simulator.Iso.Codec.{
  FieldValues, IsoMessage, Position, at, ◌+p◌, slice_text, decode_kind, decode_field, decode_known,
  decode_fields, decode_message, encode_kind, encode_field, encode_known, encode_fields,
  encode_message, keep_digits, last_chars, numbers, join, add_value, finish, is_end,
}

-- A value that its field keeps as it is.
abbrev pub IsValue : FieldKind → ℕ → List ℕ → Type 0
IsValue fixed n v = (length v ≤ n) × (trim_end v ≡ v)
IsValue numeric n v = (length v ≡ n) × All (λ c. is_digit c ≡ true) v
IsValue llvar n v = length v ≤ n
IsValue lllvar n v = length v ≤ n

-- The lengths that two and three digits can tell.
abbrev IsSizedKind : FieldKind → ℕ → Type 0
IsSizedKind fixed n = Unit
IsSizedKind numeric n = Unit
IsSizedKind llvar n = n < 100
IsSizedKind lllvar n = n < 1000

abbrev IsSizedDef : FieldDef → Type 0
IsSizedDef d = IsSizedKind d.kind d.size

fields-IsSized : All IsSizedDef fields
fields-IsSized = omega arith

some-inj : {A : Type 0} {x y : A} → some x ≡ some y → x ≡ y
some-inj {A} {x} {y} e = cc

find_field-IsSized :
    (ds : List FieldDef) (f : ℕ) (d : FieldDef)
    → All IsSizedDef ds
    → find_field ds f ≡ some d
    → IsSizedDef d
find_field-IsSized [] f d h e = cc
find_field-IsSized (x ∷ ds) f d (hx, h) e = elim (Bool-cases (x.field == f)) [
  | inl found ↦
      subst IsSizedDef
        (some-inj (sym (ap (λ (b : Bool). if b then some x else find_field ds f) found) ∙ e)) hx
  | inr other ↦
      find_field-IsSized ds f d h
        (sym (ap (λ (b : Bool). if b then some x else find_field ds f) other) ∙ e)
]

keep_digits-all : (v : List ℕ) → All (λ c. is_digit c ≡ true) v → keep_digits v ≡ v
keep_digits-all [] h = refl
keep_digits-all (c ∷ v) (hc, h) = rw (hc, keep_digits-all v h) refl

-- One field, written and read at its position.
abbrev IsRead : FieldKind → FieldDef → List ℕ → ℕ → List ℕ → List ℕ → Type 0
IsRead kind def v c wire part =
    decode_kind kind def wire (at (pos c)) ≡ (v, at (pos (c + length part)))

-- A part of a known length, and what is made of it.
read_part :
    (g : List ℕ → List ℕ) (n c : ℕ) (wire part rest : List ℕ)
    → length part ≡ n
    → c ≤ length wire
    → drop c wire ≡ part ++ rest
    → ◌≡◌ {A = List ℕ × Position}
        (g (slice_text wire (at (pos c)) (at (pos c) +p at (pos n))), at (pos c) +p at (pos n))
        (g part, at (pos (c + length part)))
read_part g n c wire part rest size h e =
    let read = slice_text-part c wire part rest h e in
    subst
      (λ (k : ℕ).
        ◌≡◌ {A = List ℕ × Position}
          (g (slice_text wire (at (pos c)) (at (pos c) +p at (pos k))), at (pos c) +p at (pos k))
          (g part, at (pos (c + length part))))
      size (λ i. (g (read i), position_add c (length part) i))

encode_kind-IsRead :
    (kind : FieldKind) (def : FieldDef) (v : List ℕ)
    → IsSizedKind kind def.size
    → IsValue kind def.size v
    → (part : List ℕ) × (encode_kind kind def v ≡ ok part)
      × ((c : ℕ) (wire rest : List ℕ)
          → c ≤ length wire
          → drop c wire ≡ part ++ rest
          → IsRead kind def v c wire part)
encode_kind-IsRead fixed def v sized (small, trimmed) =
    let padded = pad_end def.size 32 v in
    let size : length padded ≡ def.size = omega (
      arith,
      small,
      length-append v (replicate (def.size - length v) 32),
      length-replicate {A = ℕ} (def.size - length v) 32,
    ) in
    let all : take def.size padded ≡ padded =
      subst (λ k. take k padded ≡ padded) size
        (ap (take (length padded)) (sym (append-nil padded)) ∙ take-append padded []) in
    (
      padded,
      ap ok all,
      λ (c : ℕ) (wire rest : List ℕ) h e.
          read_part trim_end def.size c wire padded rest size h e
          ∙ ap (λ (x : List ℕ). (x, at (pos (c + length padded))))
              (trim_end-append v (def.size - length v) ∙ trimmed),
    )
encode_kind-IsRead numeric def v sized (size, digits) =
    let kept = keep_digits-all v digits in
    let none_missing : def.size - length v ≡ 0 = omega (arith, size) in
    let none_cut : length v - def.size ≡ 0 = omega (arith, size) in
    (
      v,
      ap ok (
          (λ i. last_chars def.size (replicate (def.size - length (kept i)) 48 ++ kept i))
          ∙ (λ i. last_chars def.size (replicate (none_missing i) 48 ++ v))
          ∙ ap (λ (k : ℕ). drop k v) none_cut),
      λ (c : ℕ) (wire rest : List ℕ) h e. read_part (λ x. x) def.size c wire v rest size h e,
    )
encode_kind-IsRead llvar def v sized small =
    let short : ltb def.size (length v) ≡ false = ground (arith, small) in
    let prefix = pad_start 2 48 (decimal (length v)) in
    (
      prefix ++ v,
      rw short refl,
      λ (c : ℕ) (wire rest : List ℕ) h e.
          decode_var-prefix 2 c wire prefix v rest
            (IsPrefix-two (length v) (omega (arith, sized, small))) h
            (e ∙ append_assoc prefix v rest),
    )
encode_kind-IsRead lllvar def v sized small =
    let short : ltb def.size (length v) ≡ false = ground (arith, small) in
    let prefix = pad_start 3 48 (decimal (length v)) in
    (
      prefix ++ v,
      rw short refl,
      λ (c : ℕ) (wire rest : List ℕ) h e.
          decode_var-prefix 3 c wire prefix v rest
            (IsPrefix-three (length v) (omega (arith, sized, small))) h
            (e ∙ append_assoc prefix v rest),
    )

-- The values of a message: each under a field that is known.
abbrev pub AreKnown : Option FieldDef → List ℕ → Type 0
AreKnown none v = ⊥
AreKnown (some def) v = IsValue def.kind def.size v

abbrev pub AreValues : FieldValues → Type 0
AreValues [] = Unit
AreValues ((f, v) ∷ fs) = AreKnown (lookup_field f) v × AreValues fs

encode_known_read :
    (f : ℕ) (o : Option FieldDef) (v : List ℕ)
    → ((def : FieldDef) → o ≡ some def → IsSizedDef def)
    → AreKnown o v
    → (part : List ℕ) × (encode_known f o v ≡ ok part)
      × ((c : ℕ) (wire rest : List ℕ) (again : Position → Result IsoError (FieldValues × Position))
          → c ≤ length wire
          → drop c wire ≡ part ++ rest
          → decode_known f o wire (at (pos c)) again
            ≡ add_value f v (again (at (pos (c + length part)))))
unfolding encode_field decode_field
encode_known_read f none v sized h = absurd h
encode_known_read f (some def) v sized h =
    let r = encode_kind-IsRead def.kind def v (sized def refl) h in
    (
      r.0,
      r.1,
      λ (c : ℕ) (wire rest : List ℕ) (again : Position → Result IsoError (FieldValues × Position))
            inside e.
          ap (λ (p : List ℕ × Position). add_value f (p.0) (again (p.1)))
            (r.2 c wire rest inside e),
    )

lookup_field-IsSized : (f : ℕ) (def : FieldDef) → lookup_field f ≡ some def → IsSizedDef def
unfolding lookup_field
lookup_field-IsSized f def e = find_field-IsSized fields f def fields-IsSized e

decode_fields-encode_fields :
    (fs : FieldValues)
    → AreValues fs
    → (parts : List ℕ) × (encode_fields fs ≡ ok parts)
      × ((c : ℕ) (wire : List ℕ)
          → c ≤ length wire
          → drop c wire ≡ parts
          → decode_fields (numbers fs) wire (at (pos c)) ≡ ok (fs, at (pos (length wire))))
unfolding encode_fields decode_fields
decode_fields-encode_fields [] h = (
  [],
  refl,
  λ (c : ℕ) (wire : List ℕ) inside e.
      let all : c ≡ length wire = omega (arith, inside, ap length e, length-drop c wire) in
      ap (λ (k : ℕ). ok ([], at (pos k))) all,
)
decode_fields-encode_fields ((f, v) ∷ fs) (hv, h) =
    let r = encode_known_read f (lookup_field f) v (lookup_field-IsSized f) hv in
    let ih = decode_fields-encode_fields fs h in
    (
      r.0 ++ ih.0,
      (λ i. join (r.1 i) (ih.1 i)),
      λ (c : ℕ) (wire : List ℕ) inside e.
          r.2 c wire (ih.0) (decode_fields (numbers fs) wire) inside e
          ∙ ap (add_value f v) (
              ih.2 (c + length (r.0)) wire (part-inside c wire (r.0) (ih.0) inside e)
                (drop-next c wire (r.0) (ih.0) e)),
    )

abbrev pub IsValid : IsoMessage → Type 0
IsValid msg =
    (length msg.mti ≡ 4) × IsRising 1 65 (numbers msg.field_values) × AreValues msg.field_values

-- A message with a type of four characters, known fields of the primary bitmap in rising order, and
-- values that suit them (a fixed field: at most its length, no space at its end; a numeric one: as many
-- digits; a variable one: at most its length) is encoded without an error, and decoding the text gives
-- the message back.
pub decode_message-encode_message :
    (msg : IsoMessage)
    → IsValid msg
    → (wire : List ℕ) × (encode_message msg ≡ ok wire) × (decode_message wire ≡ ok msg)
unfolding encode_message decode_message
decode_message-encode_message msg (mti_ok, rising, values) =
    let fs = numbers msg.field_values in
    let b = bitmap_to_fields-fields_to_bitmap fs rising in
    let r = decode_fields-encode_fields msg.field_values values in
    let hex = b.0 in
    let body = hex ++ r.0 in
    let wire = msg.mti ++ body in
    let size : length wire ≡ 4 + (16 + length (r.0)) =
      omega (arith, length-append (msg.mti) body, length-append hex (r.0), mti_ok, b.2) in
    let long : ltb (length wire) 20 ≡ false = ground (arith, size) in
    let first : take 4 wire ≡ msg.mti =
      subst (λ k. take k wire ≡ msg.mti) mti_ok (take-append (msg.mti) body) in
    let after : drop 4 wire ≡ body =
      subst (λ k. drop k wire ≡ body) mti_ok (drop-append (msg.mti) body) in
    let bits : take 16 (drop 4 wire) ≡ hex =
      ap (take 16) after ∙ subst (λ k. take k body ≡ hex) (b.2) (take-append hex (r.0)) in
    let fields_at : drop 20 wire ≡ r.0 =
      sym (drop-drop 16 4 wire)
      ∙ ap (drop 16) after
      ∙ subst (λ k. drop k body ≡ r.0) (b.2) (drop-append hex (r.0)) in
    let read = ap bitmap_to_fields bits ∙ b.3 in
    let values_read = r.2 20 wire (omega (arith, size)) fields_at in
    let at_end : is_end (length wire) (at (pos (length wire))) ≡ true = ground arith in
    let decode =
      λ (x : List ℕ). decode_fields x wire (at (pos 20)) >>= λ out. finish (take 4 wire) wire out in
    (
      wire,
      (λ i. join (ok msg.mti) (join (b.1 i) (r.1 i))),
      (λ i. if long i then err message_too_short else read i >>= decode)
          ∙ (λ i. values_read i >>= λ out. finish (take 4 wire) wire out)
          ∙ (λ i.
              if at_end i
              then ok (record { mti = first i; field_values = msg.field_values })
              else err trailing_bytes),
    )
