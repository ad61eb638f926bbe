-- ===== src/Macros/Fixtures.antt =====
-- Test data for apps/xfs-server/src/macros and apps/xfs-server/src/suites.
use atm_xfs_simulator.Common.{ℕ, true, false, none, some, [], ◌∷◌, suc, ok}
use atm_xfs_simulator.Common.Int.{pos}
use atm_xfs_simulator.Common.Number.{int}
use atm_xfs_simulator.Macros.{MacroStep, action, card, checkpoint, system}
use atm_xfs_simulator.Macros.Runner.{Environment}
use atm_xfs_simulator.Macros.Runner.Run.{Database, Macro}

-- An ATM that takes everything; its state counts the keys.
abbrev pub env : Environment ℕ
env = record {
  find_card = λ pan s. (ok none, s);
  on_card_inserted = λ c s. (ok tt, s);
  has_card = λ s. false;
  has_current_card = λ s. false;
  begin_pin_entry = λ s. (ok tt, s);
  start_pin_entry = λ s. s;
  wait_armed = λ s. (true, s);
  finish_pin_entry = λ s. (ok (true, none), s);
  press_key = λ key s. suc s;
  cash_unit_info = λ s. (ok tt, s);
  receipts = λ s. 0;
  select_transaction = λ t s. (ok tt, s);
  submit_amount = λ n s. (ok tt, s);
  confirm_transaction = λ s. (ok tt, s);
  cancel_transaction = λ r s. (ok tt, s);
  wait_ms = λ n s. s;
  inject_error = λ d n s. s;
  clear_error = λ d s. s;
  session_state = λ s. none;
  last_transaction = λ s. (ok none, s);
  text_of = λ v. "v";
  number_of = λ v. int (pos 0);
  not_a_number = int (pos 0);
  upper_case = λ s. s;
  characters = λ s. s ∷ [];
}

abbrev pub step : ℕ → MacroStep
step n = record {
  id = "s";
  order = n;
  kind = action;
  device = system;
  operation = "Confirm";
  parameters = [];
  enabled = true;
}

-- The second step is the card's, which is not there.
abbrev pub two_steps : Macro
two_steps = record {
  steps =
      record {
        id = "t";
        order = 2;
        kind = checkpoint;
        device = card;
        operation = "Checkpoint(Insert)";
        parameters = [];
        enabled = true;
      }
      ∷ step 1
      ∷ [];
  variables = [];
}

abbrev pub db : Database ℕ
db = record {
  find_macro = λ id s. (ok (some two_steps), s);
  create_run = λ id s. (ok "run", s);
  update_current_step = λ id n s. (ok tt, s);
  finish_run = λ id status rs s. (ok tt, s);
}
