-- ===== src/Emv/Tlv.antt =====
-- packages/emv/src/tlv.ts: the BER-TLV codec. A length is an `int32`, as `<<` and `|` make it, so four
-- length bytes may give a negative one, and the offset may go back.
pub mod Bounded
pub mod Endless
pub mod Find
pub mod RoundTrip
pub mod Tree
use atm_xfs_simulator.Common.{
  ℕ, zero, suc, ◌+◌, ◌-◌, ◌*◌, ◌/◌, ◌%◌, ◌^◌, Bool, true, false, Option, none, some, List, [], ◌∷◌,
  ◌++◌, Result, ok, err, if◌then◌else◌, ltb, leb, ◌==◌, length, take, drop,
}
use atm_xfs_simulator.Common.Int.{ℤ, pos, negsuc}
use atm_xfs_simulator.Emv.Hex.{HexError, hex_to_bytes, bytes_to_hex}

pub data TlvError : Type 0 where
  bad_hex : HexError → TlvError
  length_exceeds : ℕ → TlvError
  truncated_tag truncated_length unsupported_length out_of_range : TlvError

mutual
  pub data TlvNode : Type 0 where
    node :
        (tag : List ℕ) (length : ℤ) (value : List ℕ) (is_constructed : Bool) (children : TlvNodes)
        → TlvNode

  pub data TlvNodes : Type 0 where
    nil : TlvNodes
    cons : TlvNode → TlvNodes → TlvNodes

-- `encodeLength`
unfoldable pub encode_length : ℕ → Result TlvError (List ℕ)
encode_length n =
    if ltb n 0x80
    then ok (n ∷ [])
    else if ltb n 0x100
    then ok (0x81 ∷ n ∷ [])
    else if ltb n 0x10000
    then ok (0x82 ∷ n / 256 % 256 ∷ n % 256 ∷ [])
    else err (length_exceeds n)

abbrev pub join_tlv :
    Result HexError (List ℕ) → Result TlvError (List ℕ) → List ℕ → Result TlvError (List ℕ)
join_tlv (err e) size value = err (bad_hex e)
join_tlv (ok tag) (err e) value = err e
join_tlv (ok tag) (ok size) value = ok (tag ++ size ++ value)

-- `encodeTlv` with the bytes of the value.
unfoldable pub encode_tlv : List ℕ → List ℕ → Result TlvError (List ℕ)
encode_tlv tag_hex value = join_tlv (hex_to_bytes tag_hex) (encode_length (length value)) value

abbrev pub concat : List (List ℕ) → List ℕ
concat [] = []
concat (c ∷ cs) = c ++ concat cs

unfoldable pub encode_template : List ℕ → List (List ℕ) → Result TlvError (List ℕ)
encode_template tag_hex children = encode_tlv tag_hex (concat children)

-- The bytes of a tag after the first, up to the one whose top bit is clear. At the end of the input
-- the offset goes one past it.
unfoldable pub tag_rest : List ℕ → ℕ
tag_rest [] = 1
tag_rest (c ∷ cs) = let rest = tag_rest cs in if leb 0x80 c then suc rest else 1

abbrev pub tag_size : ℕ → List ℕ → ℕ
tag_size first more = if first % 32 == 31 then suc (tag_rest more) else 1

-- `(length << 8) | lenByte` on the bit pattern of the `int32`, for each of the `n` length bytes.
unfoldable pub read_length : ℕ → ℕ → List ℕ → Option ℕ
read_length zero acc bytes = some acc
read_length (suc n) acc [] = none
read_length (suc n) acc (b ∷ bytes) = read_length n ((acc * 256 + b) % 2 ^ 32) bytes

abbrev pub signed32 : ℕ → ℤ
signed32 w = if ltb w (2 ^ 31) then pos w else negsuc (2 ^ 32 - w - 1)

abbrev pub long_length : ℕ → Option ℕ → Result TlvError (ℤ × ℕ)
long_length n none = err truncated_length
long_length n (some w) = ok (signed32 w, suc n)

-- The length and the number of bytes that it takes.
unfoldable pub decode_length : List ℕ → Result TlvError (ℤ × ℕ)
decode_length [] = err truncated_length
decode_length (first ∷ more) =
    if ltb first 0x80
    then ok (pos first, 1)
    else (let n = first % 128 in
        if n == 0
        then err unsupported_length
        else if ltb 4 n
        then err unsupported_length
        else long_length n (read_length n 0 more))

-- `slice(from, from + length)`: an end below zero counts from the end of the bytes.
abbrev pub stop_at : (from size : ℕ) → ℤ → ℕ
stop_at from size (pos n) = from + n
stop_at from size (negsuc k) = if leb (suc k) from then from - suc k else size + from - suc k

abbrev pub slice : ℕ → ℤ → List ℕ → List ℕ
slice from n bytes = take (stop_at from (length bytes) n - from) (drop from bytes)

-- `offset + length > bytes.length`
abbrev pub exceeds : (from size : ℕ) → ℤ → Bool
exceeds from size (pos n) = ltb size (from + n)
exceeds from size (negsuc k) = ltb (size + suc k) from

abbrev pub is_constructed : ℕ → Bool
is_constructed first = first / 32 % 2 == 1

-- The end of fuel is `none`.
abbrev pub Decoded : Type 0
Decoded = Option (Result TlvError TlvNodes)

abbrev pub add_node : List ℕ → ℤ → List ℕ → Bool → Decoded → Decoded → Decoded
add_node tag n value constructed none rest = none
add_node tag n value constructed (some (err e)) rest = some (err e)
add_node tag n value constructed (some (ok children)) none = none
add_node tag n value constructed (some (ok children)) (some (err e)) = some (err e)
add_node tag n value constructed (some (ok children)) (some (ok rest)) =
    some (ok (cons (node tag n value constructed children) rest))

-- What follows one node: `again` decodes bytes from an offset on. An offset below zero reads nothing.
abbrev pub decode_next : (List ℕ → ℕ → Decoded) → List ℕ → ℕ → ℤ → Decoded
decode_next again bytes from (pos n) = again bytes (from + n)
decode_next again bytes from (negsuc k) =
    if leb (suc k) from then again bytes (from - suc k) else some (err truncated_tag)

abbrev pub decode_children : (List ℕ → ℕ → Decoded) → Bool → List ℕ → Decoded
decode_children again true value = again value 0
decode_children again false value = some (ok nil)

abbrev pub decode_value :
    (List ℕ → ℕ → Decoded)
    → List ℕ
    → (first : ℕ) (tag : List ℕ) (offset : ℕ) → Result TlvError (ℤ × ℕ)
    → Decoded
decode_value again bytes first tag offset (err e) = some (err e)
decode_value again bytes first tag offset (ok (n, used)) =
    if exceeds (offset + used) (length bytes) n
    then some (err out_of_range)
    else add_node (bytes_to_hex tag) n (slice (offset + used) n bytes) (is_constructed first)
        (decode_children again (is_constructed first) (slice (offset + used) n bytes))
        (decode_next again bytes (offset + used) n)

abbrev pub decode_node : (List ℕ → ℕ → Decoded) → List ℕ → ℕ → List ℕ → Decoded
decode_node again bytes offset [] = some (ok nil)
decode_node again bytes offset (first ∷ more) =
    decode_value again bytes first (take (tag_size first more) (first ∷ more))
      (offset + tag_size first more) (decode_length (drop (tag_size first more) (first ∷ more)))

-- A round of the loop and a level of the recursion use one unit of fuel each.
unfoldable pub decode_from : ℕ → List ℕ → ℕ → Decoded
decode_from zero bytes offset = none
decode_from (suc fuel) bytes offset =
    decode_node (decode_from fuel) bytes offset (drop offset bytes)

-- `decodeTlv`
unfoldable pub decode_tlv : ℕ → List ℕ → Decoded
decode_tlv fuel bytes = decode_from fuel bytes 0
