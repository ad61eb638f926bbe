-- ===== src/Transport/Manager.antt =====
-- apps/xfs-server/src/host-transport/host-transport-manager.service.ts: the rows of the database and the
-- listeners that run. `Outside` says which listeners bind their port; stopping one does not fail, and
-- neither does the database. A row has a valid kind and switch, as `create` and `update` see to.
pub mod Active
pub mod Edit
pub mod Peers
use atm_xfs_simulator.Common.{
  ℕ, String, str_eq, Bool, true, false, ◌&&◌, ◌||◌, not, Option, none, some, List, [], ◌∷◌, Result,
  ok, err, if◌then◌else◌, ltb,
}
use atm_xfs_simulator.Common.Number.{Number, natural}

pub data HostTransportKind : Type 0 where
  in_process iso8583_tcp iso20022_http : HostTransportKind

abbrev pub kind_eq : HostTransportKind → HostTransportKind → Bool
kind_eq in_process in_process = true
kind_eq iso8583_tcp iso8583_tcp = true
kind_eq iso20022_http iso20022_http = true
kind_eq a b = false

pub record HostTransportConfig : Type 0 where
  pub id : String
  pub name : String
  pub kind : HostTransportKind
  pub bind_address : String
  pub port : ℕ
  pub switch_profile : String
  pub tls_enabled : Bool
  pub enabled : Bool
  pub is_primary : Bool
  pub notes : Option String

pub data TransportError : Type 0 where
  not_found must_stop bad_kind bad_port bad_switch bind_failed : TransportError

-- `rows` in the order of the database, `running` the keys of the map of listeners.
pub record TransportManager : Type 0 where
  pub rows : List HostTransportConfig
  pub running : List String

abbrev pub Outside : Type 0
Outside = HostTransportConfig → Bool

abbrev pub Answer : Type 0
Answer = Result TransportError HostTransportConfig × TransportManager

unfoldable pub find_row : String → List HostTransportConfig → Option HostTransportConfig
find_row id [] = none
find_row id (r ∷ rs) = let later = find_row id rs in if str_eq r.id id then some r else later

unfoldable pub is_running : String → List String → Bool
is_running id [] = false
is_running id (x ∷ xs) = str_eq x id || is_running id xs

unfoldable pub remove_id : String → List String → List String
remove_id id [] = []
remove_id id (x ∷ xs) = let rest = remove_id id xs in if str_eq x id then rest else x ∷ rest

abbrev pub with_enabled : Bool → HostTransportConfig → HostTransportConfig
with_enabled b r = record r { enabled = b }

unfoldable pub set_enabled : Bool → String → List HostTransportConfig → List HostTransportConfig
set_enabled b id [] = []
set_enabled b id (r ∷ rs) =
    let rest = set_enabled b id rs in if str_eq r.id id then with_enabled b r ∷ rs else r ∷ rest

abbrev pub start_row : Outside → TransportManager → Option HostTransportConfig → Answer
start_row outside m none = (err not_found, m)
start_row outside m (some r) =
    if is_running r.id m.running
    then (ok r, m)
    else if outside r
    then (
      ok (with_enabled true r),
      record { rows = set_enabled true r.id m.rows; running = r.id ∷ m.running },
    )
    else (err bind_failed, m)

unfoldable pub start_config : Outside → String → TransportManager → Answer
start_config outside id m = start_row outside m (find_row id m.rows)

abbrev pub stopped : String → TransportManager → TransportManager
stopped id m = record { rows = set_enabled false id m.rows; running = remove_id id m.running }

abbrev pub stop_row : TransportManager → Option HostTransportConfig → Answer
stop_row m none = (err not_found, m)
stop_row m (some r) = (ok (with_enabled false r), stopped r.id m)

unfoldable pub stop_config : String → TransportManager → Answer
stop_config id m = stop_row m (find_row id m.rows)

abbrev pub is_peer : HostTransportConfig → HostTransportConfig → Bool
is_peer target r = kind_eq r.kind target.kind && not (str_eq r.id target.id)

-- The peers are read once, before any is stopped; each is a row, so that stopping it finds it.
unfoldable pub stop_peers :
    HostTransportConfig → List HostTransportConfig → TransportManager → TransportManager
stop_peers target [] m = m
stop_peers target (r ∷ rs) m =
    stop_peers target rs
      (if is_peer target r && is_running r.id m.running then (stop_config r.id m).1 else m)

abbrev pub activate : Outside → TransportManager → Option HostTransportConfig → Answer
activate outside m none = (err not_found, m)
activate outside m (some target) = start_config outside target.id (stop_peers target m.rows m)

unfoldable pub set_active : Outside → String → TransportManager → Answer
set_active outside id m = activate outside m (find_row id m.rows)

unfoldable pub remove_row : String → List HostTransportConfig → List HostTransportConfig
remove_row id [] = []
remove_row id (r ∷ rs) = let rest = remove_row id rs in if str_eq r.id id then rs else r ∷ rest

abbrev pub without : String → TransportManager → TransportManager
without id m = record { rows = remove_row id m.rows; running = m.running }

abbrev pub delete_row :
    TransportManager
    → String
    → Option HostTransportConfig
    → Result {0, 0} TransportError Unit × TransportManager
delete_row m id none = (err not_found, m)
delete_row m id (some r) =
    (ok tt, without id (if is_running id m.running then (stop_config id m).1 else m))

unfoldable pub delete :
    String → TransportManager → Result {0, 0} TransportError Unit × TransportManager
delete id m = delete_row m id (find_row id m.rows)

abbrev pub start_all : Outside → List HostTransportConfig → TransportManager → TransportManager
start_all outside [] m = m
start_all outside (r ∷ rs) m =
    start_all outside rs (if r.enabled then (start_config outside r.id m).1 else m)

-- `onModuleInit` after the seed, and `onModuleDestroy`.
unfoldable pub init : Outside → TransportManager → TransportManager
init outside m = start_all outside m.rows m

abbrev pub destroy : TransportManager → TransportManager
destroy m = record { rows = m.rows; running = [] }

abbrev pub port_in : Option ℕ → Result TransportError ℕ
port_in none = err bad_port
port_in (some p) = if ltb p 1 || ltb 65535 p then err bad_port else ok p

-- `normalizePort`
abbrev pub normalize_port : HostTransportKind → Number → Result TransportError ℕ
normalize_port in_process port = ok 0
normalize_port iso8583_tcp port = port_in (natural port)
normalize_port iso20022_http port = port_in (natural port)
