-- ===== src/Iso/Switches.antt =====
-- packages/iso8583/src/switches.ts: the Indonesian switch profiles and how a card number is routed
-- to one. Notes and the descriptions of private response codes are left out.
use Prim.Native.String.{count}
use text.Mathlib.Text.{starts_with}
use atm_xfs_simulator.Common.{ℕ, String, Bool, false, ◌||◌, List, [], ◌∷◌, if◌then◌else◌, ltb}

pub data IsoSwitchId : Type 0 where
  jalin atm_bersama prima bifast : IsoSwitchId

pub data MtiVariant : Type 0 where
  v1987 v1993 bifast_variant : MtiVariant

pub record IsoSwitchProfile : Type 0 where
  pub id : IsoSwitchId
  pub name : String
  pub bin_prefixes : List String
  pub mti_variant : MtiVariant
  pub terminal_id_prefix : String
  pub card_acceptor_id : String
  pub currency_code : String
  pub echo_interval_sec : ℕ
  pub default_daily_limit_idr : ℕ
  pub max_withdrawal_idr : ℕ

abbrev pub jalin_profile : IsoSwitchProfile
jalin_profile = record {
  id = jalin;
  name = "Jalin";
  bin_prefixes = "4097" ∷ "4339" ∷ "4567" ∷ "5436" ∷ "5520" ∷ [];
  mti_variant = v1987;
  terminal_id_prefix = "JLN";
  card_acceptor_id = "JALIN ATM IDN";
  currency_code = "360";
  echo_interval_sec = 60;
  default_daily_limit_idr = 10000000;
  max_withdrawal_idr = 5000000;
}

abbrev pub atm_bersama_profile : IsoSwitchProfile
atm_bersama_profile = record {
  id = atm_bersama;
  name = "ATM Bersama";
  bin_prefixes = "4577" ∷ "4585" ∷ "4365" ∷ [];
  mti_variant = v1987;
  terminal_id_prefix = "ATB";
  card_acceptor_id = "ATM BERSAMA IDN";
  currency_code = "360";
  echo_interval_sec = 30;
  default_daily_limit_idr = 10000000;
  max_withdrawal_idr = 3000000;
}

abbrev pub prima_profile : IsoSwitchProfile
prima_profile = record {
  id = prima;
  name = "Prima";
  bin_prefixes = "4263" ∷ "5264" ∷ [];
  mti_variant = v1987;
  terminal_id_prefix = "PRM";
  card_acceptor_id = "PRIMA NETWORK ID";
  currency_code = "360";
  echo_interval_sec = 45;
  default_daily_limit_idr = 10000000;
  max_withdrawal_idr = 5000000;
}

abbrev pub bifast_profile : IsoSwitchProfile
bifast_profile = record {
  id = bifast;
  name = "BI-FAST";
  bin_prefixes = "4368" ∷ "5263" ∷ [];
  mti_variant = bifast_variant;
  terminal_id_prefix = "BIF";
  card_acceptor_id = "BI-FAST ID";
  currency_code = "360";
  echo_interval_sec = 15;
  default_daily_limit_idr = 250000000;
  max_withdrawal_idr = 250000000;
}

abbrev pub all_switch_profiles : List IsoSwitchProfile
all_switch_profiles = jalin_profile ∷ atm_bersama_profile ∷ prima_profile ∷ bifast_profile ∷ []

abbrev pub default_switch : IsoSwitchProfile
default_switch = jalin_profile

abbrev pub routes : String → List String → Bool
routes pan [] = false
routes pan (prefix ∷ prefixes) = starts_with pan prefix || routes pan prefixes

unfoldable pub first_route : String → List IsoSwitchProfile → IsoSwitchProfile
first_route pan [] = default_switch
first_route pan (p ∷ ps) = if routes pan p.bin_prefixes then p else first_route pan ps

unfoldable pub get_switch_by_pan : String → IsoSwitchProfile
unfolding first_route
get_switch_by_pan pan =
    if ltb (count pan) 4 then default_switch else first_route pan all_switch_profiles
