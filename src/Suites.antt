-- ===== src/Suites.antt =====
-- apps/xfs-server/src/suites/suite-runner.service.ts: a suite runs its macros one after the other, on the
-- same ATM and database as the runner of macros.
pub mod Results
mod Tests
use atm_xfs_simulator.Common.{
  String, Bool, true, false, Option, none, some, List, [], ◌∷◌, Result, ok, err,
}
use Prim.Native.String.{◌++◌}
use atm_xfs_simulator.Macros.Op.{Op, ◌>>=◌, and_then, pure, throw}
use atm_xfs_simulator.Macros.Runner.{Environment}
use atm_xfs_simulator.Macros.Runner.Run.{Database, MacroRun, Status, passed, failed, run}

pub record SuiteMacroRun : Type 0 where
  pub macro_id : String
  pub macro_run_id : String
  pub status : Status

pub record SuiteRunSummary : Type 0 where
  pub id : String
  pub suite_id : String
  pub status : Status
  pub macro_runs : List SuiteMacroRun

-- `find_suite` gives the macros of a suite.
pub record SuiteDatabase (S : Type 0) : Type 0 where
  pub find_suite : String → Op S (Option (List String))
  pub create_suite_run : String → Op S String
  pub attach_run : (macro_run_id suite_run_id : String) → Op S Unit
  pub finish_suite_run : String → Status → Op S Unit

abbrev pub worse : Status → Status → Status
worse passed rest = rest
worse failed rest = failed

abbrev pub row : String → String → Status → SuiteMacroRun
row macro_id run_id status = record { macro_id = macro_id; macro_run_id = run_id; status = status }

module _ {S : Type 0} (env : Environment S) (db : Database S) (suites : SuiteDatabase S) where
  abbrev pub cancel_session : Option String → S → S
  cancel_session none s = s
  cancel_session (some state) s = (env.cancel_transaction "suite runner reset" s).1

  -- `safeCancel`: an error of the cancellation is ignored.
  unfoldable pub safe_cancel : S → S
  safe_cancel s = cancel_session (env.session_state s) s

  -- The run of one macro and its attachment to the run of the suite.
  abbrev pub run_attached : String → String → Op S MacroRun
  run_attached suite_run_id macro_id =
      run env db macro_id >>= λ r. suites.attach_run r.id suite_run_id >>= λ u. pure r

  abbrev pub row_of : String → Result String MacroRun × S → SuiteMacroRun × S
  row_of macro_id (ok r, s) = (row macro_id r.id r.status, s)
  row_of macro_id (err e, s) = (row macro_id "" failed, s)

  unfoldable pub run_macro : String → String → S → SuiteMacroRun × S
  run_macro suite_run_id macro_id s =
      row_of macro_id (run_attached suite_run_id macro_id (safe_cancel s))

  abbrev pub add_row :
      SuiteMacroRun → (Status × List SuiteMacroRun) × S → (Status × List SuiteMacroRun) × S
  add_row r ((overall, rows), s) = ((worse r.status overall, r ∷ rows), s)

  unfoldable pub run_macros : String → List String → S → (Status × List SuiteMacroRun) × S
  run_macros suite_run_id [] s = ((passed, []), s)
  run_macros suite_run_id (m ∷ ms) s =
      let (r, s') = run_macro suite_run_id m s in add_row r (run_macros suite_run_id ms s')

  abbrev pub summarise :
      (suite_id suite_run_id : String)
      → (Status × List SuiteMacroRun) × S
      → Result String SuiteRunSummary × S
  summarise suite_id suite_run_id ((overall, rows), s) =
      and_then (suites.finish_suite_run suite_run_id overall (safe_cancel s)) (λ u.
        pure
          (record { id = suite_run_id; suite_id = suite_id; status = overall; macro_runs = rows }))

  abbrev pub run_found : String → Option (List String) → Op S SuiteRunSummary
  run_found suite_id none = throw ("suite " ++ suite_id ++ " not found")
  run_found suite_id (some macro_ids) = suites.create_suite_run suite_id >>= λ suite_run_id s.
      summarise suite_id suite_run_id (run_macros suite_run_id macro_ids s)

  unfoldable pub run_suite : String → Op S SuiteRunSummary
  run_suite suite_id = suites.find_suite suite_id >>= run_found suite_id
