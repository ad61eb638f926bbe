-- ===== src/Xfs/Manager/Tests.antt =====
-- Tests and witnesses for apps/xfs-server/src/xfs/xfs-manager.service.ts.
use atm_xfs_simulator.Common.{ℕ, ◌+◌, ◌≡◌, String, true, false, none, List, [], ◌∷◌, ok}
use atm_xfs_simulator.Xfs.{opened}
use atm_xfs_simulator.Xfs.Manager.{Service, XfsCommand, cdm, new_manager}
use atm_xfs_simulator.Xfs.Manager.Refines.{
  Request, command, register, serve, serve-Refines, spec_serve,
}

-- A device that adds up the payloads.
abbrev adder : Service ℕ ℕ
adder = record {
  service_class = λ d. cdm;
  get_state = λ d. opened;
  execute_command = λ code n d. (ok (n + d), n + d);
}

abbrev add : String → ℕ → XfsCommand ℕ
add h n = record {
  h_service = h;
  service_class = cdm;
  command_code = "ADD";
  request_id = "r";
  payload = n;
  session_id = none;
}

abbrev requests : List (Request ℕ ℕ)
requests =
    command true (add "CDM1" 1)
    ∷ register "CDM1" 5
    ∷ command true (add "CDM1" 2)
    ∷ command false (add "CDM1" 3)
    ∷ []

serve-Refines_example : serve adder requests new_manager ≡ spec_serve adder requests (λ h. none)
serve-Refines_example = serve-Refines adder requests
