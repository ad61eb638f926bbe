-- ===== src/Suites/Results.antt =====
-- apps/xfs-server/src/suites/suite-runner.service.ts: what the summary of a run says.
use atm_xfs_simulator.Common.{
  ◌≡◌, refl, ap, ◌∙◌, ◌↔◌, ◌≢◌, String, Option, none, some, List, [], ◌∷◌, Result, ok, err, All,
}
use atm_xfs_simulator.Macros.Op.{and_then, pure, ◌>>=◌}
use atm_xfs_simulator.Macros.Runner.{Environment}
use atm_xfs_simulator.Macros.Runner.Run.{Database, MacroRun, Status, passed, failed, run}
use atm_xfs_simulator.Suites.{
  SuiteMacroRun, SuiteRunSummary, SuiteDatabase, worse, row_of, cancel_session, run_macro,
  run_macros, summarise, run_found, run_suite, safe_cancel,
}

abbrev pub HasPassed : SuiteMacroRun → Type 0
HasPassed r = r.status ≡ passed

module _ {S : Type 0} (env : Environment S) (db : Database S) (suites : SuiteDatabase S) where
  -- The world `w` after a session that may be there has been cancelled in `s`.
  pub data IsFreed (s w : S) : Type 0 where
    no_session : env.session_state s ≡ none → w ≡ s → IsFreed s w
    cancelled :
        (state : String)
        → env.session_state s ≡ some state
        → w ≡ (env.cancel_transaction "suite runner reset" s).1
        → IsFreed s w

  -- The row of a macro that was run in `w`, and the world `t` that this has left: the runner's run, whose
  -- status the row takes; a run that was not attached to the suite's; or an error of the runner.
  pub data IsRow (suite_run_id macro_id : String) (w : S) (row : SuiteMacroRun) (t : S)
      : Type 0 where
    ran :
        (q : MacroRun) (u : S)
        → run env db macro_id w ≡ (ok q, u)
        → suites.attach_run q.id suite_run_id u ≡ (ok tt, t)
        → row ≡ record { macro_id = macro_id; macro_run_id = q.id; status = q.status }
        → IsRow suite_run_id macro_id w row t
    not_attached :
        (q : MacroRun) (u : S) (e : String)
        → run env db macro_id w ≡ (ok q, u)
        → suites.attach_run q.id suite_run_id u ≡ (err e, t)
        → row ≡ record { macro_id = macro_id; macro_run_id = ""; status = failed }
        → IsRow suite_run_id macro_id w row t
    threw :
        (e : String)
        → run env db macro_id w ≡ (err e, t)
        → row ≡ record { macro_id = macro_id; macro_run_id = ""; status = failed }
        → IsRow suite_run_id macro_id w row t

  -- One row for each macro, in order, each in the world that those before it have left.
  abbrev pub AreRows : String → List String → S → List SuiteMacroRun → S → Type 0
  AreRows suite_run_id [] s [] t = t ≡ s
  AreRows suite_run_id (m ∷ ms) s (r ∷ rs) t =
      (w : S) × (u : S) × IsFreed s w × IsRow suite_run_id m w r u × AreRows suite_run_id ms u rs t
  AreRows suite_run_id ms s rs t = ⊥

-- The whole has passed exactly when each row has.
abbrev pub IsVerdict : Status → List SuiteMacroRun → Type 0
IsVerdict status rows = (status ≡ passed) ↔ All HasPassed rows

failed-passed : failed ≢ passed
failed-passed e = cc

worse_iff :
    (status overall : Status) (A : Type 0)
    → ((overall ≡ passed) ↔ A)
    → (worse status overall ≡ passed) ↔ ((status ≡ passed) × A)
worse_iff passed overall A h = (λ e. (refl, h.0 e), λ both. h.1 (both.1))
worse_iff failed overall A h = (λ e. absurd (failed-passed e), λ both. both.0)

module _ {S : Type 0} (env : Environment S) (db : Database S) (suites : SuiteDatabase S) where
  cancel_session-IsFreed :
      (s : S) (o : Option String)
      → env.session_state s ≡ o
      → IsFreed env db suites s (cancel_session env db suites o s)
  cancel_session-IsFreed s none e = no_session e refl
  cancel_session-IsFreed s (some state) e = cancelled state e refl

  attached-IsRow :
      (run_id m : String) (w : S) (q : MacroRun) (u : S) (x : Result {0, 0} String Unit × S)
      → run env db m w ≡ (ok q, u)
      → suites.attach_run q.id run_id u ≡ x
      → let (row, t) = row_of env db suites m (and_then x (λ v. pure q)) in
        IsRow env db suites run_id m w row t
  attached-IsRow run_id m w q u (ok v, t) e f = ran q u e f refl
  attached-IsRow run_id m w q u (err x, t) e f = not_attached q u x e f refl

  result-IsRow :
      (run_id m : String) (w : S) (x : Result String MacroRun × S)
      → run env db m w ≡ x
      → let (row, t) =
          row_of env db suites m
            (and_then x (λ r. suites.attach_run r.id run_id >>= λ u. pure r)) in
        IsRow env db suites run_id m w row t
  result-IsRow run_id m w (ok q, u) e =
      attached-IsRow run_id m w q u (suites.attach_run q.id run_id u) e refl
  result-IsRow run_id m w (err x, t) e = threw x e refl

  run_macros-AreRows :
      (run_id : String) (ms : List String) (s : S)
      → let ((overall, rows), t) = run_macros env db suites run_id ms s in
        AreRows env db suites run_id ms s rows t × IsVerdict overall rows
  unfolding run_macros run_macro safe_cancel
  run_macros-AreRows run_id [] s = (refl, (λ e. tt, λ u. refl))
  run_macros-AreRows run_id (m ∷ ms) s =
      let w = safe_cancel env db suites s in
      let (r, s') = run_macro env db suites run_id m s in
      let (rows, verdict) = run_macros-AreRows run_id ms s' in
      (
        (
          w,
          s',
          cancel_session-IsFreed s (env.session_state s) refl,
          result-IsRow run_id m w (run env db m w) refl,
          rows,
        ),
        worse_iff r.status (run_macros env db suites run_id ms s').0.0
            (All HasPassed (run_macros env db suites run_id ms s').0.1) verdict,
      )

-- When the database finds the suite, makes the row of its run and does not refuse the final write, the
-- run of a suite comes to an end without an error, whatever its macros do. The summary has one row for
-- each macro of the suite, in their order. Before each macro a session that is there is cancelled; then
-- the row has the status of what the runner of macros returns in the world it is run in, when that can be
-- attached to the suite's run, and has failed when the runner throws or the attachment does. The suite
-- has passed exactly when each of its rows has.
pub run_suite-IsSummary :
    {S : Type 0} (env : Environment S) (db : Database S) (suites : SuiteDatabase S)
    (suite_id run_id : String) (ids : List String) (s s₁ s₂ : S)
    → suites.find_suite suite_id s ≡ (ok (some ids), s₁)
    → suites.create_suite_run suite_id s₁ ≡ (ok run_id, s₂)
    → ((status : Status) (t : S)
        → (t' : S) × (suites.finish_suite_run run_id status t ≡ (ok tt, t')))
    → (r : SuiteRunSummary) × (s' : S) × (run_suite env db suites suite_id s ≡ (ok r, s'))
      × (r.id ≡ run_id)
      × (r.suite_id ≡ suite_id)
      × ((t : S) × AreRows env db suites run_id ids s₂ r.macro_runs t)
      × IsVerdict r.status r.macro_runs
unfolding run_suite
run_suite-IsSummary {S} env db suites suite_id run_id ids s s₁ s₂ found created writes =
    let ran = run_macros env db suites run_id ids s₂ in
    let ((overall, rows), t) = ran in
    let (t', written) = writes overall (safe_cancel env db suites t) in
    let r : SuiteRunSummary = record {
      id = run_id;
      suite_id = suite_id;
      status = overall;
      macro_runs = rows;
    } in
    (
      r,
      t',
      ap
            (λ (x : Result String (Option (List String)) × S).
              and_then x (run_found env db suites suite_id))
            found
          ∙ ap
              (λ (x : Result String String × S). and_then x (λ (id : String) (t : S).
                summarise env db suites suite_id id (run_macros env db suites id ids t)))
              created
          ∙ ap (λ (x : Result {0, 0} String Unit × S). and_then x (λ u. pure r)) written,
      refl,
      refl,
      (t, (run_macros-AreRows env db suites run_id ids s₂).0),
      (run_macros-AreRows env db suites run_id ids s₂).1,
    )
