-- ===== src/Transport/Tests.antt =====
-- Tests and witnesses for apps/xfs-server/src/host-transport.
use atm_xfs_simulator.Common.{
  ◌≢◌, eq_iff, ℕ, ◌≡◌, ◌↔◌, refl, String, true, false, none, List, [], ◌∷◌, arith,
}
use atm_xfs_simulator.Transport.Framing.{receive}
use atm_xfs_simulator.Transport.Chunks.{receive-write_frame}
use atm_xfs_simulator.Transport.Manager.{
  HostTransportConfig, TransportManager, find_row, is_running, iso8583_tcp, set_active,
}
use atm_xfs_simulator.Transport.Manager.Active.{IsOk, HasKind, set_active-HasKind}

abbrev sent : List (List ℕ)
sent = (65 ∷ 66 ∷ []) ∷ (67 ∷ []) ∷ []

abbrev chunks : List (List ℕ)
chunks = (0 ∷ []) ∷ (2 ∷ 65 ∷ []) ∷ (66 ∷ 0 ∷ 1 ∷ 67 ∷ []) ∷ []

receive-write_frame_example : receive [] chunks ≡ (sent, [])
receive-write_frame_example = receive-write_frame sent chunks (omega arith) refl

abbrev listener : String → HostTransportConfig
listener id = record {
  id = id;
  name = id;
  kind = iso8583_tcp;
  bind_address = "127.0.0.1";
  port = 8583;
  switch_profile = "JALIN";
  tls_enabled = false;
  enabled = false;
  is_primary = false;
  notes = none;
}

abbrev manager : TransportManager
manager = record { rows = listener "a" ∷ listener "b" ∷ []; running = "a" ∷ [] }

other_name : ◌≢◌ {A = String} "b" "a"
other_name = ground (arith, eq_iff "b" "a")

set_active-HasKind_example :
    ((is_running "a" (set_active (λ r. true) "b" manager).1.running ≡ true)
      ↔ ((is_running "a" manager.running ≡ true) × ¬ HasKind iso8583_tcp "a" manager.rows))
    × (IsOk (set_active (λ r. true) "b" manager).0
        ↔ (is_running "b" (set_active (λ r. true) "b" manager).1.running ≡ true))
unfolding find_row
set_active-HasKind_example =
    set_active-HasKind (λ r. true) "b" "a" manager (listener "b") refl other_name
