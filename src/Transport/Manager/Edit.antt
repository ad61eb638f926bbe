-- ===== src/Transport/Manager/Edit.antt =====
-- apps/xfs-server/src/host-transport/host-transport-manager.service.ts: `create` and `update`. The database
-- makes the identifier of a row, and the default name is what the language makes of a kind and a port.
use atm_xfs_simulator.Common.{
  ℕ, String, str_eq, Bool, false, ◌||◌, Option, none, some, List, [], ◌∷◌, ◌++◌, Result, ok, err,
  ◌>>=◌, if◌then◌else◌,
}
use atm_xfs_simulator.Common.Number.{Number, non_integer}
use atm_xfs_simulator.Transport.Manager.{
  HostTransportKind, HostTransportConfig, TransportError, TransportManager, Answer, bad_kind,
  bad_switch, must_stop, not_found, find_row, in_process, iso8583_tcp, iso20022_http,
  normalize_port,
}

-- `kind` and `switch_profile` are any text; an empty one is no text.
pub record TransportInput : Type 0 where
  pub name : Option String
  pub kind : Option String
  pub bind_address : Option String
  pub port : Option Number
  pub switch_profile : Option String
  pub tls_enabled : Option Bool
  pub is_primary : Option Bool
  pub notes : Option String

abbrev pub kind_of : String → Result TransportError HostTransportKind
kind_of s =
    if str_eq s "IN_PROCESS"
    then ok in_process
    else if str_eq s "ISO8583_TCP"
    then ok iso8583_tcp
    else if str_eq s "ISO20022_HTTP"
    then ok iso20022_http
    else err bad_kind

abbrev pub require_kind : Option String → Result TransportError HostTransportKind
require_kind none = err bad_kind
require_kind (some s) = kind_of s

abbrev pub require_switch : String → Result TransportError String
require_switch s =
    if str_eq s "JALIN" || str_eq s "ATM_BERSAMA" || str_eq s "PRIMA" || str_eq s "BIFAST"
    then ok s
    else err bad_switch

abbrev pub or_else : {A : Type 0} → Option A → A → A
or_else none default = default
or_else (some a) default = a

abbrev pub or_old : Option String → Option String → Option String
or_old none old = old
or_old (some s) old = some s

-- `kind` and `switchProfile` keep their values where the input has none.
abbrev pub new_kind : Option String → HostTransportKind → Result TransportError HostTransportKind
new_kind none old = ok old
new_kind (some s) old = if str_eq s "" then ok old else kind_of s

abbrev pub new_switch : Option String → String → Result TransportError String
new_switch none old = ok old
new_switch (some s) old = if str_eq s "" then ok old else require_switch s

abbrev pub new_port : HostTransportKind → Option Number → ℕ → Result TransportError ℕ
new_port kind none old = ok old
new_port kind (some p) old = normalize_port kind p

abbrev pub add_row : TransportManager → HostTransportConfig → TransportManager
add_row m r = record { rows = m.rows ++ (r ∷ []); running = m.running }

abbrev pub answer_with :
    TransportManager
    → (HostTransportConfig → TransportManager)
    → Result TransportError HostTransportConfig
    → Answer
answer_with m save (err e) = (err e, m)
answer_with m save (ok r) = (ok r, save r)

abbrev pub created :
    (id : String)
    → (HostTransportKind → ℕ → String)
    → TransportInput
    → Result TransportError HostTransportConfig
created id default_name input = require_kind input.kind >>= λ kind.
    require_switch (or_else input.switch_profile "JALIN") >>= λ switch.
    normalize_port kind (or_else input.port non_integer) >>= λ port. ok (record {
      id = id;
      name = or_else input.name (default_name kind port);
      kind = kind;
      bind_address = or_else input.bind_address "127.0.0.1";
      port = port;
      switch_profile = switch;
      tls_enabled = or_else input.tls_enabled false;
      enabled = false;
      is_primary = or_else input.is_primary false;
      notes = input.notes;
    })

unfoldable pub create :
    (id : String) → (HostTransportKind → ℕ → String) → TransportInput → TransportManager → Answer
create id default_name input m = answer_with m (add_row m) (created id default_name input)

abbrev pub edited : HostTransportConfig → TransportInput → Result TransportError HostTransportConfig
edited old input =
    if old.enabled
    then err must_stop
    else (new_kind input.kind old.kind >>= λ kind.
        new_switch input.switch_profile old.switch_profile >>= λ switch.
        new_port kind input.port old.port >>= λ port. ok (record {
          id = old.id;
          name = or_else input.name old.name;
          kind = kind;
          bind_address = or_else input.bind_address old.bind_address;
          port = port;
          switch_profile = switch;
          tls_enabled = or_else input.tls_enabled old.tls_enabled;
          enabled = old.enabled;
          is_primary = or_else input.is_primary old.is_primary;
          notes = or_old input.notes old.notes;
        }))

unfoldable pub put_row : HostTransportConfig → List HostTransportConfig → List HostTransportConfig
put_row r [] = []
put_row r (q ∷ rs) = let rest = put_row r rs in if str_eq q.id r.id then r ∷ rs else q ∷ rest

abbrev pub save_row : TransportManager → HostTransportConfig → TransportManager
save_row m r = record { rows = put_row r m.rows; running = m.running }

abbrev pub update_row : TransportManager → TransportInput → Option HostTransportConfig → Answer
update_row m input none = (err not_found, m)
update_row m input (some old) = answer_with m (save_row m) (edited old input)

unfoldable pub update : (id : String) → TransportInput → TransportManager → Answer
update id input m = update_row m input (find_row id m.rows)
