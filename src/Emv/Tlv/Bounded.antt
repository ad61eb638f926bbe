-- ===== src/Emv/Tlv/Bounded.antt =====
-- packages/emv/src/tlv.ts, `decodeTlv`: its end.
use atm_xfs_simulator.Common.{
  ℕ, zero, suc, ◌+◌, ◌-◌, ◌*◌, ◌%◌, ◌^◌, ◌≡◌, ◌≢◌, ◌≤◌, ◌<◌, refl, Bool, true, false, some, List,
  [], ◌∷◌, arith, length, ◌==◌, inl, inr, take, drop, All, ok, err, Result, Option-cases,
  length-take, length-drop, if◌then◌else◌, ltb, if_cases, sym, subst, All-take, All-drop,
}
use atm_xfs_simulator.Common.Int.{ℤ, pos, negsuc}
use atm_xfs_simulator.Emv.Tlv.{
  Decoded, TlvError, TlvNodes, decode_tlv, decode_from, decode_length, read_length, add_node,
  is_constructed, decode_node, decode_children, decode_value, decode_next, exceeds, slice, tag_size,
  long_length, node, nil, cons, out_of_range, unsupported_length,
}
use atm_xfs_simulator.Emv.Hex.{bytes_to_hex}

abbrev pub IsPlain : ℕ → Type 0
IsPlain b = (b < 256) × (b ≢ 0x84)

-- The decoder has an answer, nodes or an error.
abbrev pub Ends : Decoded → Type 0
Ends d = (r : Result TlvError TlvNodes) × (d ≡ some r)

abbrev IsShort : Result TlvError (ℤ × ℕ) → Type 0
IsShort (err e) = Unit
IsShort (ok (negsuc k, used)) = ⊥
IsShort (ok (pos n, used)) = 0 < used

-- What the bytes so far stay below, with `n` of three to come.
abbrev room : ℕ → ℕ
room zero = 2 ^ 24
room (suc zero) = 2 ^ 16
room (suc (suc zero)) = 2 ^ 8
room (suc (suc (suc n))) = 1

room_pos : (n : ℕ) → 0 < room n
room_pos zero = omega arith
room_pos (suc zero) = omega arith
room_pos (suc (suc zero)) = omega arith
room_pos (suc (suc (suc n))) = omega arith

read_length_bound :
    (n acc w : ℕ) (bytes : List ℕ)
    → n ≤ 3
    → All IsPlain bytes
    → acc < room n
    → read_length n acc bytes ≡ some w
    → w < 2 ^ 24
unfolding read_length
read_length_bound zero acc w bytes small h a e = ground (arith, e)
read_length_bound (suc n) acc w [] small h a e = cc
read_length_bound (suc zero) acc w (b ∷ bytes) small ((hb, ne), h) a e =
    read_length_bound zero ((acc * 256 + b) % 2 ^ 32) w bytes (omega arith) h (omega arith) e
read_length_bound (suc (suc zero)) acc w (b ∷ bytes) small ((hb, ne), h) a e =
    read_length_bound 1 ((acc * 256 + b) % 2 ^ 32) w bytes (omega arith) h (omega arith) e
read_length_bound (suc (suc (suc zero))) acc w (b ∷ bytes) small ((hb, ne), h) a e =
    read_length_bound 2 ((acc * 256 + b) % 2 ^ 32) w bytes (omega arith) h (omega arith) e
read_length_bound (suc (suc (suc (suc n)))) acc w (b ∷ bytes) small h a e = absurd (omega arith)

long_length-IsShort :
    (n : ℕ) (more : List ℕ)
    → n ≤ 3
    → All IsPlain more
    → IsShort (long_length n (read_length n 0 more))
long_length-IsShort n more small h = elim (Option-cases (read_length n 0 more)) [
  | inl short ↦ subst (λ x. IsShort (long_length n x)) (sym short) tt
  | inr (w, e) ↦
      let bound = read_length_bound n 0 w more small h (room_pos n) e in
      let positive : IsShort (long_length n (some w)) =
        if_cases (λ (x : ℤ). IsShort (ok (x, suc n))) (ltb w (2 ^ 31)) (pos w)
          (negsuc (2 ^ 32 - w - 1)) (λ low. omega arith)
          (λ high. absurd (ground (arith, high, bound))) in
      subst (λ x. IsShort (long_length n x)) (sym e) positive
]

decode_length-IsShort : (bytes : List ℕ) → All IsPlain bytes → IsShort (decode_length bytes)
unfolding decode_length
decode_length-IsShort [] h = tt
decode_length-IsShort (first ∷ more) ((hb, ne), h) =
    let n = first % 128 in
    let long = long_length n (read_length n 0 more) in
    let checked = if ltb 4 n then err unsupported_length else long in
    if_cases IsShort (ltb first 0x80) (ok (pos first, 1))
      (if n == 0 then err unsupported_length else checked) (λ short. omega arith)
      (λ wide.
        if_cases IsShort (n == 0) (err unsupported_length) checked (λ empty. tt)
          (λ some_bytes.
            if_cases IsShort (ltb 4 n) (err unsupported_length) long (λ many. tt)
              (λ few. long_length-IsShort n more (ground (arith, wide, few)) h)))

tag_size-pos : (first : ℕ) (more : List ℕ) → 0 < tag_size first more
tag_size-pos first more = ground arith

add_node-Ends :
    (tag value : List ℕ) (n : ℤ) (c : Bool) (children rest : Decoded)
    → Ends children
    → Ends rest
    → Ends (add_node tag n value c children rest)
add_node-Ends tag value n c children rest (ok x, e) (ok y, e') =
    rw (e, e') (ok (cons (node tag n value c x) y), refl)
add_node-Ends tag value n c children rest (ok x, e) (err y, e') = rw (e, e') (err y, refl)
add_node-Ends tag value n c children rest (err x, e) (r, e') = rw e (err x, refl)

-- `again` ends on every input of less than `m` bytes from its offset on.
module _ (again : List ℕ → ℕ → Decoded) (m : ℕ)
    (shorter : (bytes : List ℕ) (offset : ℕ)
      → All IsPlain bytes
      → offset ≤ length bytes
      → length bytes < m + offset
      → Ends (again bytes offset)) where
  children-Ends :
      (c : Bool) (value : List ℕ)
      → All IsPlain value
      → length value < m
      → Ends (decode_children again c value)
  children-Ends true value h small = shorter value 0 h (omega arith) (omega arith)
  children-Ends false value h small = (ok nil, refl)

  value-Ends :
      (bytes : List ℕ) (first : ℕ) (tag : List ℕ) (offset : ℕ) (r : Result TlvError (ℤ × ℕ))
      → All IsPlain bytes
      → IsShort r
      → length bytes ≤ m + offset
      → 0 < offset
      → Ends (decode_value again bytes first tag offset r)
  value-Ends bytes first tag offset (err e) h s room pos_offset = (err e, refl)
  value-Ends bytes first tag offset (ok (negsuc k, used)) h s room pos_offset = absurd s
  value-Ends bytes first tag offset (ok (pos n, used)) h s room pos_offset =
      let from = offset + used in
      let value = slice from (pos n) bytes in
      let size = length-take (from + n - from) (drop from bytes) in
      let left = length-drop from bytes in
      if_cases Ends (exceeds from (length bytes) (pos n)) (some (err out_of_range))
        (add_node (bytes_to_hex tag) (pos n) value (is_constructed first)
          (decode_children again (is_constructed first) value)
          (decode_next again bytes from (pos n)))
        (λ over. (err out_of_range, refl))
        (λ inside.
          add_node-Ends (bytes_to_hex tag) value (pos n) (is_constructed first)
            (decode_children again (is_constructed first) value)
            (decode_next again bytes from (pos n))
            (children-Ends (is_constructed first) value
              (All-take IsPlain (from + n - from) (drop from bytes) (All-drop IsPlain from bytes h))
              (ground (arith, inside, size, left)))
            (shorter bytes (from + n) h (ground (arith, inside)) (ground (arith, inside))))

  node-Ends :
      (bytes rest : List ℕ) (offset : ℕ)
      → All IsPlain bytes
      → All IsPlain rest
      → length bytes ≤ m + offset
      → Ends (decode_node again bytes offset rest)
  node-Ends bytes [] offset h hr room = (ok nil, refl)
  node-Ends bytes (first ∷ more) offset h hr room =
      let size = tag_size first more in
      value-Ends bytes first (take size (first ∷ more)) (offset + size)
        (decode_length (drop size (first ∷ more))) h
        (decode_length-IsShort (drop size (first ∷ more)) (All-drop IsPlain size (first ∷ more) hr))
        (omega arith) (omega (arith, tag_size-pos first more))

decode_from-Ends :
    (fuel : ℕ) (bytes : List ℕ) (offset : ℕ)
    → All IsPlain bytes
    → offset ≤ length bytes
    → length bytes < fuel + offset
    → Ends (decode_from fuel bytes offset)
unfolding decode_from
decode_from-Ends zero bytes offset h inside room = absurd (omega arith)
decode_from-Ends (suc fuel) bytes offset h inside room =
    node-Ends (decode_from fuel) fuel (λ bs o. decode_from-Ends fuel bs o) bytes (drop offset bytes)
      offset h (All-drop IsPlain offset bytes h) (omega arith)

-- Bytes none of which is 0x84 are decoded to an end, to nodes or an error, in no more rounds and levels
-- than there are bytes and one.
pub decode_tlv-Ends :
    (bytes : List ℕ) (fuel : ℕ)
    → All IsPlain bytes
    → length bytes < fuel
    → Ends (decode_tlv fuel bytes)
unfolding decode_tlv
decode_tlv-Ends bytes fuel h room = decode_from-Ends fuel bytes 0 h (omega arith) (omega arith)
