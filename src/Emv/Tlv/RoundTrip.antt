-- ===== src/Emv/Tlv/RoundTrip.antt =====
-- packages/emv/src/tlv.ts: `decodeTlv` of the bytes of trees, which `encodeTlv` and `encodeTemplate` write.
use atm_xfs_simulator.Common.{
  ℕ, zero, suc, ◌+◌, ◌-◌, ◌*◌, ◌/◌, ◌%◌, ◌^◌, ◌≡◌, ◌≤◌, ◌<◌, refl, sym, ap, ◌∙◌, Bool, true, false,
  some, List, [], ◌∷◌, ◌++◌, arith, length, ltb, take, drop, ok, err, if◌then◌else◌, if_cases,
  length-append, length-drop, drop-append, take-append, drop-drop,
}
use atm_xfs_simulator.Emv.Tlv.Tree.{
  Trees, leaf, template, none_left, next, size_bytes, wires, nodes_of, IsTail, IsTagBytes, AreValid,
  encode_trees, parts_of, concat-parts_of, encode_trees-parts_of,
}
use mathlib.Core.List.{append_assoc}
use atm_xfs_simulator.Common.Int.{pos}
use atm_xfs_simulator.Emv.Hex.{bytes_to_hex}
use atm_xfs_simulator.Emv.Tlv.{
  Decoded, out_of_range, TlvNodes, node, nil, cons, decode_tlv, decode_from, decode_length,
  read_length, add_node, is_constructed, decode_node, decode_children, decode_value, exceeds, slice,
  tag_size, tag_rest, concat,
}

tag_rest-append :
    (c : ℕ) (cs rest : List ℕ) → IsTail (c ∷ cs) → tag_rest ((c ∷ cs) ++ rest) ≡ length (c ∷ cs)
unfolding tag_rest
tag_rest-append c [] rest h = ground arith
tag_rest-append c (d ∷ cs) rest (hc, h) = ground (arith, tag_rest-append d cs rest h)

tag_size-append :
    (first : ℕ) (more rest : List ℕ)
    → IsTagBytes first more
    → tag_size first (more ++ rest) ≡ length (first ∷ more)
tag_size-append first [] rest h = rw h refl
tag_size-append first (c ∷ cs) rest (h, t) = rw h (ap suc (tag_rest-append c cs rest t))

decode_length-size_bytes :
    (n : ℕ) (rest : List ℕ)
    → n < 0x10000
    → decode_length (size_bytes n ++ rest) ≡ ok (pos n, length (size_bytes n))
unfolding decode_length read_length
decode_length-size_bytes n rest h =
    if_cases (λ (z : List ℕ). decode_length (z ++ rest) ≡ ok (pos n, length z)) (ltb n 0x80)
      (n ∷ []) (if ltb n 0x100 then 0x81 ∷ n ∷ [] else 0x82 ∷ n / 256 % 256 ∷ n % 256 ∷ [])
      (λ short. rw short refl)
      (λ long.
        if_cases (λ (z : List ℕ). decode_length (z ++ rest) ≡ ok (pos n, length z)) (ltb n 0x100)
          (0x81 ∷ n ∷ []) (0x82 ∷ n / 256 % 256 ∷ n % 256 ∷ [])
          (λ one.
            let low : (0 * 256 + n) % 2 ^ 32 ≡ n = ground (arith, one) in
            let small : ltb n (2 ^ 31) ≡ true = ground (arith, one) in rw (low, small) refl)
          (λ two.
            let low : ((0 * 256 + n / 256 % 256) % 2 ^ 32 * 256 + n % 256) % 2 ^ 32 ≡ n =
              omega (arith, h) in
            let small : ltb n (2 ^ 31) ≡ true = ground (arith, h) in rw (low, small) refl))

-- The value of a node that stands at `from`.
slice-drop :
    (from : ℕ) (bytes v rest : List ℕ)
    → drop from bytes ≡ v ++ rest
    → slice from (pos (length v)) bytes ≡ v
slice-drop from bytes v rest e =
    let n : from + length v - from ≡ length v = omega arith in rw (e, n) (take-append v rest)

exceeds-drop :
    (from : ℕ) (bytes v rest : List ℕ)
    → from ≤ length bytes
    → drop from bytes ≡ v ++ rest
    → exceeds from (length bytes) (pos (length v)) ≡ false
exceeds-drop from bytes v rest h e =
    ground (arith, ap length e, length-drop from bytes, length-append v rest)

drop-next :
    (from : ℕ) (bytes v rest : List ℕ)
    → drop from bytes ≡ v ++ rest
    → drop (from + length v) bytes ≡ rest
drop-next from bytes v rest e =
    sym (drop-drop (length v) from bytes) ∙ ap (drop (length v)) e ∙ drop-append v rest

-- One node of the input, read at its offset.
module _ (again : List ℕ → ℕ → Decoded) (bytes : List ℕ) (offset first : ℕ) (more v rest : List ℕ)
    (inside : offset ≤ length bytes) (tag_ok : IsTagBytes first more) (small : length v < 0x10000)
    (here : drop offset bytes ≡ (first ∷ more) ++ (size_bytes (length v) ++ (v ++ rest))) where
  abbrev at_value : ℕ
  at_value = offset + length (first ∷ more) + length (size_bytes (length v))

  abbrev node_end : ℕ
  node_end = at_value + length v

  value_at : drop at_value bytes ≡ v ++ rest
  value_at =
      drop-next (offset + length (first ∷ more)) bytes (size_bytes (length v)) (v ++ rest)
        (drop-next offset bytes (first ∷ more) (size_bytes (length v) ++ (v ++ rest)) here)

  value_inside : at_value ≤ length bytes
  value_inside = omega (
    arith,
    ap length here,
    length-drop offset bytes,
    length-append (first ∷ more) (size_bytes (length v) ++ (v ++ rest)),
    length-append (size_bytes (length v)) (v ++ rest),
  )

  decode_node-wire :
      decode_node again bytes offset (drop offset bytes)
      ≡ add_node
          (bytes_to_hex (first ∷ more))
          (pos (length v))
          v
          (is_constructed first)
          (decode_children again (is_constructed first) v)
          (again bytes node_end)
  decode_node-wire =
      let after = size_bytes (length v) ++ (v ++ rest) in
      let tag_length = tag_size-append first more after tag_ok in
      let tag_taken : take (tag_size first (more ++ after)) (first ∷ (more ++ after))
          ≡ first ∷ more =
        rw tag_length (take-append (first ∷ more) after) in
      let size_read : decode_length
            (drop (tag_size first (more ++ after)) (first ∷ (more ++ after)))
          ≡ ok (pos (length v), length (size_bytes (length v))) =
        rw tag_length (
          ap decode_length (drop-append (first ∷ more) after)
          ∙ decode_length-size_bytes (length v) (v ++ rest) small) in
      let at_tag = ap (decode_node again bytes offset) here in
      let read : decode_node again bytes offset (first ∷ (more ++ after))
          ≡ decode_value again bytes first (first ∷ more) (offset + length (first ∷ more))
              (ok (pos (length v), length (size_bytes (length v)))) =
        λ i. decode_value again bytes first (tag_taken i) (offset + tag_length i) (size_read i) in
      let within = exceeds-drop at_value bytes v rest value_inside value_at in
      let cut = slice-drop at_value bytes v rest value_at in
      let build = λ (b : Bool) (x : List ℕ).
        if b
        then some (err out_of_range)
        else add_node (bytes_to_hex (first ∷ more)) (pos (length v)) x (is_constructed first)
            (decode_children again (is_constructed first) x) (again bytes node_end) in
      at_tag ∙ read ∙ (λ i. build (within i) (cut i))

  node_inside : node_end ≤ length bytes
  node_inside =
      omega
        (arith, ap length value_at, value_inside, length-drop at_value bytes, length-append v rest)

  rest_at : drop node_end bytes ≡ rest
  rest_at = drop-next at_value bytes v rest value_at

  decode_node-cons :
      (constructed : Bool) (kids others : TlvNodes)
      → is_constructed first ≡ constructed
      → decode_children again constructed v ≡ some (ok kids)
      → again bytes node_end ≡ some (ok others)
      → decode_node again bytes offset (drop offset bytes)
        ≡ some (
            ok (
              cons (node (bytes_to_hex (first ∷ more)) (pos (length v)) v constructed kids) others))
  decode_node-cons constructed kids others e below after =
      let tag = bytes_to_hex (first ∷ more) in
      decode_node-wire
      ∙ (λ i.
          add_node tag (pos (length v)) v (e i) (decode_children again (e i) v)
            (again bytes node_end))
      ∙ (λ i. add_node tag (pos (length v)) v constructed (below i) (after i))

node_bytes : (tag sz v rest : List ℕ) → (tag ++ (sz ++ v)) ++ rest ≡ tag ++ (sz ++ (v ++ rest))
node_bytes tag sz v rest = simp append_assoc refl

decode_from-wires :
    (fuel : ℕ) (bytes : List ℕ) (offset : ℕ) (ts : Trees)
    → AreValid ts
    → drop offset bytes ≡ wires ts
    → offset ≤ length bytes
    → length bytes < fuel + offset
    → decode_from fuel bytes offset ≡ some (ok (nodes_of ts))
unfolding decode_from
decode_from-wires zero bytes offset ts h here inside room = absurd (omega arith)
decode_from-wires (suc fuel) bytes offset none_left h here inside room =
    ap (decode_node (decode_from fuel) bytes offset) here
decode_from-wires (suc fuel) bytes offset (next (leaf [] v) ts) h here inside room = absurd (h.0.0)
decode_from-wires (suc fuel) bytes offset (next (template [] cs) ts) h here inside room =
    absurd (h.0.0)
decode_from-wires (suc fuel) bytes offset (next (leaf (first ∷ more) v) ts) (((b, t, e), small), h)
      here inside room =
    let here' = here ∙ node_bytes (first ∷ more) (size_bytes (length v)) v (wires ts) in
    decode_node-cons (decode_from fuel) bytes offset first more v (wires ts) inside t small here'
      false nil (nodes_of ts) e refl
      (decode_from-wires fuel bytes
        (node_end (decode_from fuel) bytes offset first more v (wires ts) inside t small here') ts h
        (rest_at (decode_from fuel) bytes offset first more v (wires ts) inside t small here')
        (node_inside (decode_from fuel) bytes offset first more v (wires ts) inside t small here')
        (omega arith))
decode_from-wires (suc fuel) bytes offset (next (template (first ∷ more) cs) ts)
      (((b, t, e), small, hc), h) here inside room =
    let v = wires cs in
    let here' = here ∙ node_bytes (first ∷ more) (size_bytes (length v)) v (wires ts) in
    let ends =
      node_inside (decode_from fuel) bytes offset first more v (wires ts) inside t small here' in
    decode_node-cons (decode_from fuel) bytes offset first more v (wires ts) inside t small here'
      true (nodes_of cs) (nodes_of ts) e
      (decode_from-wires fuel v 0 cs hc refl (omega arith) (omega arith))
      (decode_from-wires fuel bytes
        (node_end (decode_from fuel) bytes offset first more v (wires ts) inside t small here') ts h
        (rest_at (decode_from fuel) bytes offset first more v (wires ts) inside t small here') ends
        (omega arith))

pub decode_tlv-wires :
    (ts : Trees) (fuel : ℕ)
    → AreValid ts
    → length (wires ts) < fuel
    → decode_tlv fuel (wires ts) ≡ some (ok (nodes_of ts))
unfolding decode_tlv
decode_tlv-wires ts fuel h room =
    decode_from-wires fuel (wires ts) 0 ts h refl (omega arith) (omega arith)

-- Trees whose tags are in the form of BER, the third top bit of the first byte set on a template and
-- clear on a leaf, and whose values are below 65,536 bytes, are encoded without an error, and the
-- decoder reads their parts, one after the other, back as the same nodes: tags, lengths, values and
-- children.
pub decode_tlv-encode_trees :
    (ts : Trees) (fuel : ℕ)
    → AreValid ts
    → length (wires ts) < fuel
    → (parts : List (List ℕ)) × (encode_trees ts ≡ ok parts)
      × (decode_tlv fuel (concat parts) ≡ some (ok (nodes_of ts)))
decode_tlv-encode_trees ts fuel h room = (
  parts_of ts,
  encode_trees-parts_of ts h,
  ap (decode_tlv fuel) (concat-parts_of ts) ∙ decode_tlv-wires ts fuel h room,
)
