-- ===== src/Macros/Runner/Results.antt =====
-- apps/xfs-server/src/macros/macro-runner.service.ts: what the results of a run say.
use atm_xfs_simulator.Common.{
  ◌≡◌, refl, ap, ◌∙◌, ◌⊎◌, inl, inr, String, Option, some, List, [], ◌∷◌, Result, ok, err,
}
use atm_xfs_simulator.Macros.{MacroStep, MacroStepKind, action, checkpoint, assertion, wait}
use atm_xfs_simulator.Macros.Op.{and_then, pure}
use atm_xfs_simulator.Macros.Recorder.{sort_steps}
use atm_xfs_simulator.Macros.Runner.{Environment}
use atm_xfs_simulator.Macros.Runner.Steps.{World, execute_step}
use atm_xfs_simulator.Macros.Runner.Checkpoints.{IsHeld, execute_step-IsHeld}
use atm_xfs_simulator.Macros.Runner.Schedule.{IsSchedule, sort_steps-IsSchedule}
use atm_xfs_simulator.Macros.Runner.Run.{
  Status, passed, failed, MacroStepResult, Macro, MacroRun, Database, Ran, enabled_steps, result_of,
  after_step, run_steps, run_found, finish, initial, run,
}

module _ {S : Type 0} (env : Environment S) (db : Database S) (run_id : String) where
  -- What a passed step has found, if it is a checkpoint.
  abbrev pub Found : MacroStepKind → MacroStep → S → Type 0
  Found checkpoint step s = IsHeld env step s
  Found _ step s = Unit

  -- The result of a step that was tried in `w`, and the world `w'` that this has left. The number of the
  -- step is written first; it has passed when neither that nor the step itself throws.
  pub data IsStep (step : MacroStep) (w : World env) (r : MacroStepResult) (w' : World env)
      : Type 0 where
    step_passed :
        (s : S) (message : String)
        → db.update_current_step run_id step.order (w.1) ≡ (ok tt, s)
        → execute_step env step (w.0, s) ≡ (ok message, w')
        → Found step.kind step s
        → r ≡ record { id = step.id; order = step.order; status = passed; detail = message }
        → IsStep step w r w'
    step_threw :
        (s : S) (e : String)
        → db.update_current_step run_id step.order (w.1) ≡ (ok tt, s)
        → execute_step env step (w.0, s) ≡ (err e, w')
        → r ≡ record { id = step.id; order = step.order; status = failed; detail = e }
        → IsStep step w r w'
    write_threw :
        (s : S) (e : String)
        → db.update_current_step run_id step.order (w.1) ≡ (err e, s)
        → w' ≡ (w.0, s)
        → r ≡ record { id = step.id; order = step.order; status = failed; detail = e }
        → IsStep step w r w'

  -- Each step is tried in the world that those before it have left. A run passed when each step has; it
  -- failed when one has, which is the last to be tried.
  abbrev pub IsRun : Status → List MacroStep → World env → List MacroStepResult → World env → Type 0
  IsRun passed [] w [] t = t ≡ w
  IsRun passed (s ∷ ss) w (r ∷ rs) t =
      (u : World env) × IsStep s w r u × (r.status ≡ passed) × IsRun passed ss u rs t
  IsRun failed (s ∷ ss) w (r ∷ rs) t =
      ((u : World env) × IsStep s w r u × (r.status ≡ passed) × IsRun failed ss u rs t)
      ⊎ (IsStep s w r t × (r.status ≡ failed) × (rs ≡ []))
  IsRun status ss w rs t = ⊥

  IsRun-passed :
      (status : Status) (s : MacroStep) (r : MacroStepResult) (ss : List MacroStep)
      (rs : List MacroStepResult) (w u t : World env)
      → IsStep s w r u
      → r.status ≡ passed
      → IsRun status ss u rs t
      → IsRun status (s ∷ ss) w (r ∷ rs) t
  IsRun-passed passed s r ss rs w u t h e hs = (u, h, e, hs)
  IsRun-passed failed s r ss rs w u t h e hs = inl (u, h, e, hs)

  step-Found :
      (step : MacroStep) (kind : MacroStepKind) (v : World env) (message : String) (w' : World env)
      → step.kind ≡ kind
      → execute_step env step v ≡ (ok message, w')
      → Found kind step (v.1)
  step-Found step checkpoint v message w' k e = execute_step-IsHeld env v message w' step k e
  step-Found step action v message w' k e = tt
  step-Found step assertion v message w' k e = tt
  step-Found step wait v message w' k e = tt

  abbrev IsRan : List MacroStep → World env → Ran (World env) → Type 0
  IsRan steps w ((status, results), t) = IsRun status steps w results t

  executed-IsRan :
      (step : MacroStep) (steps : List MacroStep) (w : World env) (s : S)
      (x : Result String String × World env)
      → db.update_current_step run_id step.order (w.1) ≡ (ok tt, s)
      → execute_step env step (w.0, s) ≡ x
      → ((v : World env) → IsRan steps v (run_steps env db run_id steps v))
      → IsRan (step ∷ steps) w (after_step env db step x (run_steps env db run_id steps))
  executed-IsRan step steps w s (ok message, u) written e again =
      let ((status, results), t) = run_steps env db run_id steps u in
      IsRun-passed status step (result_of step passed message) steps results w u t
        (step_passed s message written e (step-Found step step.kind (w.0, s) message u refl e) refl)
        refl (again u)
  executed-IsRan step steps w s (err x, u) written e again =
      inr (step_threw s x written e refl, refl, refl)

  tried-IsRan :
      (step : MacroStep) (steps : List MacroStep) (w : World env)
      (x : Result {0, 0} String Unit × S)
      → db.update_current_step run_id step.order (w.1) ≡ x
      → ((v : World env) → IsRan steps v (run_steps env db run_id steps v))
      → IsRan (step ∷ steps) w (
          after_step env db step
            (and_then (x.0, (w.0, x.1)) (λ u. execute_step env step))
            (run_steps env db run_id steps))
  tried-IsRan step steps w (ok u, s) e again =
      executed-IsRan step steps w s (execute_step env step (w.0, s)) e refl again
  tried-IsRan step steps w (err x, s) e again = inr (write_threw s x e refl refl, refl, refl)

  run_steps-IsRan :
      (steps : List MacroStep) (w : World env) → IsRan steps w (run_steps env db run_id steps w)
  unfolding run_steps
  run_steps-IsRan [] w = refl
  run_steps-IsRan (step ∷ steps) w =
      tried-IsRan step steps w (db.update_current_step run_id step.order (w.1)) refl
        (λ v. run_steps-IsRan steps v)

-- The end of a run, when the last write has been tried.
abbrev close :
    {C S : Type 0} → MacroRun → C → Result {0, 0} String Unit × S → Result String MacroRun × S
close {C} {S} r c (answer, s) =
    let tried : Result String Unit × (C × S) = (answer, (c, s)) in
    let (q, w) = and_then tried (λ u. pure r) in (q, w.1)

-- When the database finds the macro, makes the run's row and never refuses its final write, the run comes
-- to an end without an error. The steps it goes through are those of the macro but disabled ones, each as
-- often, by their numbers. Each is tried in the world that those before it have left, after its number
-- was written, and has passed exactly when neither throws; a checkpoint that has passed has found the
-- card, the tracks, the receipt, the session's state or the transaction that it looks at. All of them
-- passed, or the run failed and stopped at the first step that failed.
pub run-IsRun :
    {S : Type 0} (env : Environment S) (db : Database S) (macro_id run_id : String) (m : Macro)
    (s s₁ s₂ : S)
    → db.find_macro macro_id s ≡ (ok (some m), s₁)
    → db.create_run macro_id s₁ ≡ (ok run_id, s₂)
    → ((id : String) (status : Status) (rs : List MacroStepResult) (t : S)
        → (t' : S) × (db.finish_run id status rs t ≡ (ok tt, t')))
    → (r : MacroRun) × (s' : S) × (run env db macro_id s ≡ (ok r, s'))
      × (r.macro_id ≡ macro_id)
      × ((steps : List MacroStep) × IsSchedule m.steps steps
          × ((t : World env) × IsRun env db run_id r.status steps
                (initial env db m, s₂)
                r.step_results
                t))
unfolding run
run-IsRun {S} env db macro_id run_id m s s₁ s₂ found created writes =
    let steps = sort_steps (enabled_steps m.steps) in
    let ran = run_steps env db run_id steps (initial env db m, s₂) in
    let ((status, results), w) = ran in
    let (t', written) = writes run_id status results (w.1) in
    let r : MacroRun = record {
      id = run_id;
      macro_id = macro_id;
      status = status;
      step_results = results;
    } in
    (
      r,
      t',
      ap (λ (x : Result String (Option Macro) × S). and_then x (run_found env db macro_id)) found
          ∙ ap
              (λ (x : Result String String × S). and_then x (λ (id : String) (t : S).
                let (r, w) =
                  finish env db id macro_id (run_steps env db id steps (initial env db m, t)) in
                (r, w.1)))
              created
          ∙ ap (λ (x : Result String Unit × S). close r (w.0) x) written,
      refl,
      (
        steps,
        sort_steps-IsSchedule m.steps,
        (w, run_steps-IsRan env db run_id steps (initial env db m, s₂)),
      ),
    )
