-- ===== src/Emv/Tlv/Find.antt =====
-- packages/emv/src/tlv.ts: `findTag`.
use atm_xfs_simulator.Common.{ℕ, Option, none, some, List, if◌then◌else◌, map}
use atm_xfs_simulator.Emv.Tlv.{TlvNode, TlvNodes, node, nil, cons}
use atm_xfs_simulator.Emv.Chip.{upper, is_same}

-- The first that is there; a `TlvNode` is never falsy.
abbrev pub or_else : Option TlvNode → Option TlvNode → Option TlvNode
or_else (some n) other = some n
or_else none other = other

unfoldable mutual
  pub find_in : TlvNode → List ℕ → Option TlvNode
  find_in (node tag length value constructed children) wanted =
      let below = find_tag children wanted in
      if is_same tag (map upper wanted)
      then some (node tag length value constructed children)
      else if constructed
      then below
      else none

  pub find_tag : TlvNodes → List ℕ → Option TlvNode
  find_tag nil wanted = none
  find_tag (cons n ns) wanted = or_else (find_in n wanted) (find_tag ns wanted)

abbrev pub value_of : TlvNode → List ℕ
value_of (node tag length value constructed children) = value
