-- ===== src/Macros/Runner/Run.antt =====
-- apps/xfs-server/src/macros/macro-runner.service.ts: `run`. `Database` stands for the database; a write
-- that fails throws.
use atm_xfs_simulator.Common.{
  ℕ, String, Option, none, some, List, [], ◌∷◌, Result, ok, err, if◌then◌else◌,
}
use atm_xfs_simulator.Macros.{MacroStep, Value}
use Prim.Native.String.{◌++◌}
use atm_xfs_simulator.Macros.Op.{Op, ◌>>=◌, and_then, pure, throw}
use atm_xfs_simulator.Macros.Recorder.{sort_steps}
use atm_xfs_simulator.Macros.Runner.{Environment, MacroRunContext}
use atm_xfs_simulator.Macros.Runner.Steps.{World, lift, execute_step}

pub data Status : Type 0 where
  passed failed : Status

pub record MacroStepResult : Type 0 where
  pub id : String
  pub order : ℕ
  pub status : Status
  -- The message of a step that passed, the error of one that failed.
  pub detail : String

pub record Macro : Type 0 where
  pub steps : List MacroStep
  pub variables : List (String × Value)

pub record Database (S : Type 0) : Type 0 where
  pub find_macro : String → Op S (Option Macro)
  pub create_run : String → Op S String
  pub update_current_step : String → ℕ → Op S Unit
  pub finish_run : String → Status → List MacroStepResult → Op S Unit

pub record MacroRun : Type 0 where
  pub id : String
  pub macro_id : String
  pub status : Status
  pub step_results : List MacroStepResult

abbrev pub enabled_steps : List MacroStep → List MacroStep
enabled_steps [] = []
enabled_steps (s ∷ ss) = let rest = enabled_steps ss in if s.enabled then s ∷ rest else rest

abbrev pub result_of : MacroStep → Status → String → MacroStepResult
result_of step status detail = record {
  id = step.id;
  order = step.order;
  status = status;
  detail = detail;
}

-- The steps that were run, and what is left of the world.
abbrev pub Ran : Type 0 → Type 0
Ran W = (Status × List MacroStepResult) × W

abbrev pub add_result : {W : Type 0} → MacroStepResult → Ran W → Ran W
add_result r ((status, rs), w) = ((status, r ∷ rs), w)

module _ {S : Type 0} (env : Environment S) (db : Database S) where
  abbrev pub try_step : String → MacroStep → Op (World env) String
  try_step run_id step =
      lift env (db.update_current_step run_id step.order) >>= λ u. execute_step env step

  abbrev pub after_step :
      MacroStep → Result String String × World env → (World env → Ran (World env)) → Ran (World env)
  after_step step (ok message, w) again = add_result (result_of step passed message) (again w)
  after_step step (err e, w) again = ((failed, result_of step failed e ∷ []), w)

  unfoldable pub run_steps : String → List MacroStep → World env → Ran (World env)
  run_steps run_id [] w = ((passed, []), w)
  run_steps run_id (step ∷ steps) w =
      after_step step (try_step run_id step w) (run_steps run_id steps)

  abbrev pub finish :
      (run_id macro_id : String) → Ran (World env) → Result String MacroRun × World env
  finish run_id macro_id ((status, results), w) =
      and_then (lift env (db.finish_run run_id status results) w) (λ u.
        pure (record { id = run_id; macro_id = macro_id; status = status; step_results = results }))

  abbrev pub initial : Macro → MacroRunContext
  initial m = record { selected_pan = none; selected_card_pin = none; variables = m.variables }

  abbrev pub run_found : String → Option Macro → Op S MacroRun
  run_found macro_id none = throw ("macro " ++ macro_id ++ " not found")
  run_found macro_id (some m) = db.create_run macro_id >>= λ run_id s.
      let (r, w) =
        finish run_id macro_id
          (run_steps run_id (sort_steps (enabled_steps m.steps)) (initial m, s)) in
      (r, w.1)

  unfoldable pub run : String → Op S MacroRun
  run macro_id = db.find_macro macro_id >>= run_found macro_id
