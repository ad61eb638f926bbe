-- ===== src/Idc.antt =====
-- packages/xfs-devices/src/idc/idc.service.ts: the card reader.
mod Tests
pub mod Held
use atm_xfs_simulator.Common.{
  String, Bool, true, false, Option, none, some, List, [], ◌∷◌, ◌++◌, Result, ok, err,
  if◌then◌else◌,
}
use atm_xfs_simulator.Xfs.{XfsResult}
use atm_xfs_simulator.Xfs.Device.{Device}
use atm_xfs_simulator.Xfs.Device

pub record VirtualCard : Type 0 where
  pub pan : String
  pub cardholder_name : String
  pub expiry_date : String
  pub track1 : String
  pub track2 : String
  pub pin_hash : String
  pub chip_data : Option String
  pub issuer : String

pub data IdcEvent : Type 0 where
  media_inserted : (pan : String) → IdcEvent
  media_removed media_retained : (pan : Option String) → IdcEvent

pub data IdcCommand : Type 0 where
  read_track read_raw_data eject_card retain_card chip_io chip_power reset other : IdcCommand

-- The raw tracks are given before node encodes them in base64.
pub data IdcAnswer : Type 0 where
  tracks : (track1 track2 pan cardholder_name expiry_date : String) → Option String → IdcAnswer
  raw_tracks : (track1 track2 : String) → IdcAnswer
  chip_success : (apdu : String) → IdcAnswer
  done : IdcAnswer

pub data IdcError : Type 0 where
  injected : XfsResult → IdcError
  no_card_in_reader no_card_to_eject no_card_to_retain unsupported_command : IdcError

pub record Idc : Type 0 where
  pub device : Device
  pub current_card : Option VirtualCard
  pub card_held : Bool
  pub emitted : List IdcEvent

abbrev pub emit : IdcEvent → Idc → Idc
emit e s = record s { emitted = s.emitted ++ e ∷ [] }

unfoldable pub new : Idc
unfolding Device.open_service Device.initial
new = record {
  device = Device.open_service Device.initial;
  current_card = none;
  card_held = false;
  emitted = [];
}

-- The answer says whether the card went in.
unfoldable pub insert_card : VirtualCard → Idc → Bool × Idc
insert_card card s = if s.card_held then (false, s) else (
  true,
  emit (media_inserted card.pan) (record s { current_card = some card; card_held = true }),
)

unfoldable pub has_card : Idc → Bool
has_card s = s.card_held

abbrev pub track_data : Option VirtualCard → Result IdcError IdcAnswer
track_data none = err no_card_in_reader
track_data (some c) =
    ok (tracks c.track1 c.track2 c.pan c.cardholder_name c.expiry_date c.chip_data)

abbrev pub raw_data : Option VirtualCard → Result IdcError IdcAnswer
raw_data none = err no_card_in_reader
raw_data (some c) = ok (raw_tracks c.track1 c.track2)

abbrev pub pan_of : Option VirtualCard → Option String
pan_of none = none
pan_of (some c) = some c.pan

abbrev pub release : (Option String → IdcEvent) → Idc → Idc
release event s =
    emit (event (pan_of s.current_card)) (record s { current_card = none; card_held = false })

unfoldable pub eject : Idc → Result IdcError IdcAnswer × Idc
eject s = if s.card_held then (ok done, release media_removed s) else (err no_card_to_eject, s)

unfoldable pub retain : Idc → Result IdcError IdcAnswer × Idc
retain s = if s.card_held then (ok done, release media_retained s) else (err no_card_to_retain, s)

unfoldable pub dispatch : IdcCommand → Idc → Result IdcError IdcAnswer × Idc
dispatch IdcCommand.read_track s = (track_data s.current_card, s)
dispatch IdcCommand.read_raw_data s = (raw_data s.current_card, s)
dispatch IdcCommand.eject_card s = eject s
dispatch IdcCommand.retain_card s = retain s
dispatch IdcCommand.chip_io s = (ok (chip_success "9000"), s)
dispatch IdcCommand.chip_power s = (ok (chip_success "9000"), s)
dispatch _ s = (err unsupported_command, s)

abbrev pub dispatch_checked :
    Option XfsResult × Device → IdcCommand → Idc → Result IdcError IdcAnswer × Idc
dispatch_checked (none, d) cmd s = dispatch cmd (record s { device = d })
dispatch_checked (some r, d) cmd s = (err (injected r), record s { device = d })

unfoldable pub execute_command : IdcCommand → Idc → Result IdcError IdcAnswer × Idc
execute_command IdcCommand.reset s =
    (ok done, record s { device = Device.reset s.device; current_card = none; card_held = false })
execute_command cmd s = dispatch_checked (Device.check_injected_error s.device) cmd s
