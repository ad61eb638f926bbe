-- ===== src/Suites/Tests.antt =====
-- Tests and witnesses for apps/xfs-server/src/suites.
use atm_xfs_simulator.Common.{ℕ, ◌≡◌, refl, some, [], ◌∷◌, ok}
use atm_xfs_simulator.Macros.Fixtures.{env, db}
use atm_xfs_simulator.Suites.{SuiteDatabase, SuiteRunSummary, run_suite}
use atm_xfs_simulator.Suites.Results.{AreRows, IsVerdict, run_suite-IsSummary}

abbrev suites : SuiteDatabase ℕ
suites = record {
  find_suite = λ id s. (ok (some ("a" ∷ "b" ∷ [])), s);
  create_suite_run = λ id s. (ok "run", s);
  attach_run = λ m id s. (ok tt, s);
  finish_suite_run = λ id status s. (ok tt, s);
}

run_suite-IsSummary_example :
    (r : SuiteRunSummary) × (s' : ℕ) × (run_suite env db suites "s" 0 ≡ (ok r, s'))
    × (r.id ≡ "run")
    × (r.suite_id ≡ "s")
    × ((t : ℕ) × AreRows env db suites "run" ("a" ∷ "b" ∷ []) 0 r.macro_runs t)
    × IsVerdict r.status r.macro_runs
run_suite-IsSummary_example =
    run_suite-IsSummary env db suites "s" "run" ("a" ∷ "b" ∷ []) 0 0 0 refl refl
      (λ status t. (t, refl))
