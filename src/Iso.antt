-- ===== src/Iso.antt =====
-- packages/iso8583/src/index.ts: response codes (field 39). A code stands for its two digits.
pub mod Bitmap
pub mod Codec
pub mod Fields
pub mod Parts
pub mod RoundTrip
mod Tests
pub mod Switches
use atm_xfs_simulator.Common.{String, Bool, true, false}

pub data IsoResponseCode : Type 0 where
  approved refer_to_issuer invalid_transaction invalid_amount invalid_card : IsoResponseCode
  no_such_issuer format_error suspect_fraud restricted_card pin_tries_exceeded : IsoResponseCode
  no_investment_account lost_card stolen_card not_sufficient_funds expired_card : IsoResponseCode
  incorrect_pin no_card_record exceeds_withdrawal_limit card_blocked : IsoResponseCode
  security_violation issuer_unavailable system_malfunction : IsoResponseCode

unfoldable pub digits : IsoResponseCode → String
digits IsoResponseCode.approved = "00"
digits IsoResponseCode.refer_to_issuer = "01"
digits IsoResponseCode.invalid_transaction = "12"
digits IsoResponseCode.invalid_amount = "13"
digits IsoResponseCode.invalid_card = "14"
digits IsoResponseCode.no_such_issuer = "15"
digits IsoResponseCode.format_error = "30"
digits IsoResponseCode.suspect_fraud = "34"
digits IsoResponseCode.restricted_card = "36"
digits IsoResponseCode.pin_tries_exceeded = "38"
digits IsoResponseCode.no_investment_account = "39"
digits IsoResponseCode.lost_card = "41"
digits IsoResponseCode.stolen_card = "43"
digits IsoResponseCode.not_sufficient_funds = "51"
digits IsoResponseCode.expired_card = "54"
digits IsoResponseCode.incorrect_pin = "55"
digits IsoResponseCode.no_card_record = "56"
digits IsoResponseCode.exceeds_withdrawal_limit = "61"
digits IsoResponseCode.card_blocked = "62"
digits IsoResponseCode.security_violation = "63"
digits IsoResponseCode.issuer_unavailable = "91"
digits IsoResponseCode.system_malfunction = "96"

abbrev pub is_approved : IsoResponseCode → Bool
is_approved IsoResponseCode.approved = true
is_approved _ = false
