-- ===== src/Xfs/Manager.antt =====
-- apps/xfs-server/src/xfs/xfs-manager.service.ts, with the envelopes of packages/xfs-core/src/types.ts:
-- the router of commands. A device and the payloads are parameters. Times are left out.
pub mod Refines
mod Tests
use atm_xfs_simulator.Common.{
  String, str_eq, Bool, true, false, Option, none, some, List, [], ◌∷◌, ◌++◌, Result, ok, err,
  if◌then◌else◌,
}
use Prim.Native.String.{◌++◌ as append_text}
use atm_xfs_simulator.Xfs.{
  XfsResult, XfsServiceState, success, err_service_not_found, err_internal_error,
}

pub data XfsServiceClass : Type 0 where
  idc pin cdm ptr siu ttu : XfsServiceClass

pub record XfsCommand (P : Type 0) : Type 0 where
  pub h_service : String
  pub service_class : XfsServiceClass
  pub command_code : String
  pub request_id : String
  pub payload : P
  pub session_id : Option String

pub record XfsResponse (P : Type 0) : Type 0 where
  pub request_id : String
  pub h_service : String
  pub result : XfsResult
  pub payload : Option P
  pub error_detail : Option String

-- What the manager asks of a device. A thrown error is its message.
pub record Service (D P : Type 0) : Type 0 where
  pub service_class : D → XfsServiceClass
  pub get_state : D → XfsServiceState
  pub execute_command : String → P → D → Result String P × D

abbrev pub LogRow : Type 0 → Type 0
LogRow P = XfsCommand P × XfsResponse P

-- `services` is a Map: a key keeps its place when its value is replaced.
pub record Manager (D P : Type 0) : Type 0 where
  pub services : List (String × D)
  pub log : List (LogRow P)

abbrev pub new_manager : {D P : Type 0} → Manager D P
new_manager = record { services = []; log = [] }

unfoldable pub set_service : {D : Type 0} → String → D → List (String × D) → List (String × D)
set_service h d [] = (h, d) ∷ []
set_service h d ((k, e) ∷ rest) =
    let later = set_service h d rest in if str_eq k h then (k, d) ∷ rest else (k, e) ∷ later

unfoldable pub get_service : {D : Type 0} → String → List (String × D) → Option D
get_service h [] = none
get_service h ((k, e) ∷ rest) =
    let later = get_service h rest in if str_eq k h then some e else later

abbrev pub xfs_success : {P : Type 0} → XfsCommand P → P → XfsResponse P
xfs_success c payload = record {
  request_id = c.request_id;
  h_service = c.h_service;
  result = success;
  payload = some payload;
  error_detail = none;
}

abbrev pub xfs_error : {P : Type 0} → XfsCommand P → XfsResult → String → XfsResponse P
xfs_error c result detail = record {
  request_id = c.request_id;
  h_service = c.h_service;
  result = result;
  payload = none;
  error_detail = some detail;
}

abbrev pub register_service : {D P : Type 0} → String → D → Manager D P → Manager D P
register_service h d m = record { services = set_service h d m.services; log = m.log }

module _ {D P : Type 0} (service : Service D P) where
  abbrev pub describe : List (String × D) → List (String × XfsServiceClass × XfsServiceState)
  describe [] = []
  describe ((h, d) ∷ rest) = (h, service.service_class d, service.get_state d) ∷ describe rest

  abbrev pub list_services : Manager D P → List (String × XfsServiceClass × XfsServiceState)
  list_services m = describe m.services

  -- `logged` is whether the database takes the row; if not, the failure is ignored.
  abbrev pub persist_command_log : Bool → XfsCommand P → XfsResponse P → Manager D P → Manager D P
  persist_command_log true c r m = record { services = m.services; log = m.log ++ ((c, r) ∷ []) }
  persist_command_log false c r m = m

  abbrev pub respond : XfsCommand P → Result String P → XfsResponse P
  respond c (ok payload) = xfs_success c payload
  respond c (err message) = xfs_error c err_internal_error message

  abbrev pub execute_on : Bool → XfsCommand P → Manager D P → Option D → XfsResponse P × Manager D P
  execute_on logged c m none =
      let r = xfs_error c err_service_not_found (append_text "Unknown hService: " c.h_service) in
      (r, persist_command_log logged c r m)
  execute_on logged c m (some d) =
      let (answer, d') = service.execute_command c.command_code c.payload d in
      let r = respond c answer in
      (
        r,
        persist_command_log logged c r
            (record { services = set_service c.h_service d' m.services; log = m.log }),
      )

  unfoldable pub execute : Bool → XfsCommand P → Manager D P → XfsResponse P × Manager D P
  execute logged c m = execute_on logged c m (get_service c.h_service m.services)
