-- ===== src/Emv/Tlv/Tree.antt =====
-- packages/emv/src/tlv.ts: what a caller builds with `encodeTlv` and `encodeTemplate`, a value under a
-- tag or a template of trees, its bytes and the nodes that they stand for.
use atm_xfs_simulator.Common.{
  ℕ, ◌/◌, ◌%◌, ◌≡◌, ◌≤◌, ◌<◌, refl, ap, ◌∙◌, Bool, true, false, List, [], ◌∷◌, ◌++◌, arith, length,
  ◌==◌, ltb, All, ok, err, Result, if◌then◌else◌, All-append, if_cases,
}
use mathlib.Core.List.{append_assoc}
use atm_xfs_simulator.Common.Int.{pos}
use atm_xfs_simulator.Emv.Hex.{IsByte, bytes_to_hex, hex_to_bytes-bytes_to_hex}
use atm_xfs_simulator.Emv.Tlv.{
  TlvError, TlvNode, TlvNodes, node, nil, cons, is_constructed, encode_length, encode_tlv,
  encode_template, join_tlv, concat,
}

mutual
  pub data Tree : Type 0 where
    leaf : (tag value : List ℕ) → Tree
    template : (tag : List ℕ) → Trees → Tree

  pub data Trees : Type 0 where
    none_left : Trees
    next : Tree → Trees → Trees

-- The bytes of a length.
abbrev pub size_bytes : ℕ → List ℕ
size_bytes n =
    if ltb n 0x80
    then n ∷ []
    else if ltb n 0x100
    then 0x81 ∷ n ∷ []
    else 0x82 ∷ n / 256 % 256 ∷ n % 256 ∷ []

abbrev mutual
  pub wire : Tree → List ℕ
  wire (leaf tag value) = tag ++ (size_bytes (length value) ++ value)
  wire (template tag children) = tag ++ (size_bytes (length (wires children)) ++ wires children)

  pub wires : Trees → List ℕ
  wires none_left = []
  wires (next t ts) = wire t ++ wires ts

abbrev mutual
  pub node_of : Tree → TlvNode
  node_of (leaf tag value) = node (bytes_to_hex tag) (pos (length value)) value false nil
  node_of (template tag children) =
      node (bytes_to_hex tag) (pos (length (wires children))) (wires children) true
        (nodes_of children)

  pub nodes_of : Trees → TlvNodes
  nodes_of none_left = nil
  nodes_of (next t ts) = cons (node_of t) (nodes_of ts)

-- The further bytes of a tag: all but the last have their top bit set.
abbrev pub IsTail : List ℕ → Type 0
IsTail [] = ⊥
IsTail (c ∷ []) = c < 0x80
IsTail (c ∷ d ∷ cs) = (0x80 ≤ c) × IsTail (d ∷ cs)

-- A tag in the form of BER, and whether it is one of a template.
abbrev pub IsTagBytes : ℕ → List ℕ → Type 0
IsTagBytes first [] = (first % 32 == 31) ≡ false
IsTagBytes first (c ∷ cs) = ((first % 32 == 31) ≡ true) × IsTail (c ∷ cs)

abbrev pub IsTag : Bool → List ℕ → Type 0
IsTag constructed [] = ⊥
IsTag constructed (first ∷ more) =
    All IsByte (first ∷ more) × IsTagBytes first more × (is_constructed first ≡ constructed)

abbrev mutual
  pub IsValid : Tree → Type 0
  IsValid (leaf tag value) = IsTag false tag × (length value < 0x10000)
  IsValid (template tag children) =
      IsTag true tag × (length (wires children) < 0x10000) × AreValid children

  pub AreValid : Trees → Type 0
  AreValid none_left = Unit
  AreValid (next t ts) = IsValid t × AreValid ts

-- A leaf is one call of `encodeTlv`, a template one of `encodeTemplate` on the bytes of its children.
abbrev pub add_part :
    Result TlvError (List ℕ) → Result TlvError (List (List ℕ)) → Result TlvError (List (List ℕ))
add_part (err e) parts = err e
add_part (ok bytes) (err e) = err e
add_part (ok bytes) (ok parts) = ok (bytes ∷ parts)

abbrev pub wrap : List ℕ → Result TlvError (List (List ℕ)) → Result TlvError (List ℕ)
wrap tag (err e) = err e
wrap tag (ok parts) = encode_template (bytes_to_hex tag) parts

abbrev mutual
  pub encode_tree : Tree → Result TlvError (List ℕ)
  encode_tree (leaf tag value) = encode_tlv (bytes_to_hex tag) value
  encode_tree (template tag children) = wrap tag (encode_trees children)

  pub encode_trees : Trees → Result TlvError (List (List ℕ))
  encode_trees none_left = ok []
  encode_trees (next t ts) = add_part (encode_tree t) (encode_trees ts)

encode_length-size_bytes : (n : ℕ) → n < 0x10000 → encode_length n ≡ ok (size_bytes n)
unfolding encode_length
encode_length-size_bytes n h = ground (arith, h)

pub IsTag-bytes : (c : Bool) (tag : List ℕ) → IsTag c tag → All IsByte tag
IsTag-bytes c [] h = tt
IsTag-bytes c (first ∷ more) (b, t, e) = b

pub encode_tlv-wire :
    (c : Bool) (tag v : List ℕ)
    → IsTag c tag
    → length v < 0x10000
    → encode_tlv (bytes_to_hex tag) v ≡ ok (tag ++ (size_bytes (length v) ++ v))
unfolding encode_tlv
encode_tlv-wire c tag v h small =
    (λ i.
      join_tlv (hex_to_bytes-bytes_to_hex tag (IsTag-bytes c tag h) i)
        (encode_length-size_bytes (length v) small i) v)
    ∙ ap ok (append_assoc tag (size_bytes (length v)) v)

-- The parts of the trees, one after the other.
abbrev pub parts_of : Trees → List (List ℕ)
parts_of none_left = []
parts_of (next t ts) = wire t ∷ parts_of ts

pub concat-parts_of : (ts : Trees) → concat (parts_of ts) ≡ wires ts
concat-parts_of none_left = refl
concat-parts_of (next t ts) = ap (λ z. wire t ++ z) (concat-parts_of ts)

mutual
  unfolding encode_template

  encode_tree-wire : (t : Tree) → IsValid t → encode_tree t ≡ ok (wire t)
  encode_tree-wire (leaf tag value) (h, small) = encode_tlv-wire false tag value h small
  encode_tree-wire (template tag children) (h, small, hc) =
      ap (wrap tag) (encode_trees-parts_of children hc)
      ∙ ap (encode_tlv (bytes_to_hex tag)) (concat-parts_of children)
      ∙ encode_tlv-wire true tag (wires children) h small

  pub encode_trees-parts_of : (ts : Trees) → AreValid ts → encode_trees ts ≡ ok (parts_of ts)
  encode_trees-parts_of none_left h = refl
  encode_trees-parts_of (next t ts) (ht, h) =
      λ i. add_part (encode_tree-wire t ht i) (encode_trees-parts_of ts h i)

pub length-size_bytes : (n : ℕ) → length (size_bytes n) ≤ 3
length-size_bytes n = ground arith

size_bytes-IsByte : (n : ℕ) → n < 0x10000 → All IsByte (size_bytes n)
size_bytes-IsByte n h =
    if_cases (All IsByte) (ltb n 0x80) (n ∷ [])
      (if ltb n 0x100 then 0x81 ∷ n ∷ [] else 0x82 ∷ n / 256 % 256 ∷ n % 256 ∷ [])
      (λ short. (ground (arith, short), tt))
      (λ long.
        if_cases (All IsByte) (ltb n 0x100) (0x81 ∷ n ∷ []) (0x82 ∷ n / 256 % 256 ∷ n % 256 ∷ [])
          (λ one. (omega arith, (ground (arith, one), tt)))
          (λ two. (omega arith, (omega arith, (omega arith, tt)))))

pub wire-IsByte :
    (tag v : List ℕ)
    → All IsByte tag
    → All IsByte v
    → length v < 0x10000
    → All IsByte (tag ++ (size_bytes (length v) ++ v))
wire-IsByte tag v ht hv small =
    All-append IsByte tag (size_bytes (length v) ++ v) ht
      (All-append IsByte (size_bytes (length v)) v (size_bytes-IsByte (length v) small) hv)
