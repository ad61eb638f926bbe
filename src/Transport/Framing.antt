-- ===== src/Transport/Framing.antt =====
-- apps/xfs-server/src/host-transport/iso8583-tcp.transport.ts: the messages of a socket. Each is its
-- length in two bytes and its bytes. A text is a list of character codes, seven bits of each byte.
use atm_xfs_simulator.Common.{
  ◌==◌, ℕ, zero, suc, ◌+◌, ◌*◌, ◌/◌, ◌%◌, Option, none, some, List, [], ◌∷◌, ◌++◌, if◌then◌else◌,
  ltb, length, take, drop, map,
}

-- The first message that is complete, as text, and the bytes after it.
unfoldable pub read_frame : List ℕ → Option (List ℕ × List ℕ)
read_frame [] = none
read_frame (a ∷ []) = none
read_frame (a ∷ b ∷ rest) =
    let n = a * 256 + b in
    if ltb (length rest) n then none else some (map (λ c. c % 128) (take n rest), drop n rest)

-- The messages so far, and the bytes that are kept.
abbrev pub Received : Type 0
Received = List (List ℕ) × List ℕ

abbrev pub add_message : List ℕ → Received → Received
add_message m (ms, buf) = (m ∷ ms, buf)

abbrev pub after_frame : (List ℕ → Received) → List ℕ → Option (List ℕ × List ℕ) → Received
after_frame again buf none = ([], buf)
after_frame again buf (some (m, rest)) = add_message m (again rest)

-- The loop over the bytes; a round takes two bytes at least.
unfoldable pub drain : ℕ → List ℕ → Received
drain zero buf = ([], buf)
drain (suc fuel) buf = after_frame (drain fuel) buf (read_frame buf)

-- One `data` event.
unfoldable pub on_data : List ℕ → List ℕ → Received
on_data buf chunk = drain (length (buf ++ chunk)) (buf ++ chunk)

abbrev pub join_messages : List (List ℕ) → Received → Received
join_messages ms (ns, buf) = (ms ++ ns, buf)

unfoldable pub receive : List ℕ → List (List ℕ) → Received
receive buf [] = ([], buf)
receive buf (chunk ∷ chunks) =
    let (ms, rest) = on_data buf chunk in join_messages ms (receive rest chunks)

-- `writeUInt16BE` and the body of an answer.
abbrev pub write_frame : List ℕ → List ℕ
write_frame body = (length body / 256) ∷ (length body % 256) ∷ body

-- `split('|')`
abbrev pub onto_first : ℕ → List (List ℕ) → List (List ℕ)
onto_first c [] = (c ∷ []) ∷ []
onto_first c (p ∷ ps) = (c ∷ p) ∷ ps

unfoldable pub split : ℕ → List ℕ → List (List ℕ)
split sep [] = [] ∷ []
split sep (c ∷ s) = let rest = split sep s in if c == sep then [] ∷ rest else onto_first c rest

-- A text before and after its first `=`.
abbrev pub onto_key : ℕ → Option (List ℕ × List ℕ) → Option (List ℕ × List ℕ)
onto_key c none = none
onto_key c (some (key, value)) = some (c ∷ key, value)

unfoldable pub at_equals : List ℕ → Option (List ℕ × List ℕ)
at_equals [] = none
at_equals (c ∷ s) = let rest = at_equals s in if c == 61 then some ([], s) else onto_key c rest

-- A pair with an empty key, or without `=`, is passed over.
abbrev pub add_field : Option (List ℕ × List ℕ) → List (List ℕ × List ℕ) → List (List ℕ × List ℕ)
add_field none out = out
add_field (some ([], value)) out = out
add_field (some (c ∷ key, value)) out = (c ∷ key, value) ∷ out

abbrev pub fields_of : List (List ℕ) → List (List ℕ × List ℕ)
fields_of [] = []
fields_of (p ∷ ps) = add_field (at_equals p) (fields_of ps)

-- `parseSimpleFields`, its pairs in order; of a key that comes twice the last one counts.
unfoldable pub parse_simple_fields : List ℕ → List (List ℕ × List ℕ)
parse_simple_fields s = fields_of (split 124 s)
