-- ===== src/Iso/Tests.antt =====
-- Tests and witnesses for packages/iso8583.
use atm_xfs_simulator.Common.{ℕ, ◌≡◌, refl, List, [], ◌∷◌, ok, arith, replicate}
use atm_xfs_simulator.Iso.Fields.{lookup_field}
use atm_xfs_simulator.Iso.Codec.{IsoMessage, encode_message, decode_message}
use atm_xfs_simulator.Iso.RoundTrip.{decode_message-encode_message}

-- An authorisation request "0200": a PAN of sixteen digits, the processing code 010000, a response code.
abbrev request : IsoMessage
request = record {
  mti = 48 ∷ 50 ∷ 48 ∷ 48 ∷ [];
  field_values =
      (2, replicate 16 52) ∷ (3, 48 ∷ 49 ∷ 48 ∷ 48 ∷ 48 ∷ 48 ∷ []) ∷ (39, 48 ∷ 48 ∷ []) ∷ [];
}

decode_message-encode_message_example :
    (wire : List ℕ) × (encode_message request ≡ ok wire) × (decode_message wire ≡ ok request)
unfolding lookup_field
decode_message-encode_message_example = decode_message-encode_message request (
  refl,
  (omega arith, omega arith, (omega arith, omega arith, (omega arith, omega arith, tt))),
  (
    omega arith,
    ((refl, (refl, (refl, (refl, (refl, (refl, (refl, tt))))))), (((omega arith, refl)), tt)),
  ),
)
