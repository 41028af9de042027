-- ===== src/Coverage/Tests.antt =====
-- A small matrix: one case with one declared control
-- (packages/breakroom-core/src/breakroom/coverage.py).
use breakroom.Base.{
  ℕ, String, Bool, true, false, ◌≡◌, refl, Option, some, List, [], ◌∷◌, map, ◌==◌, if◌then◌else◌,
}
use breakroom.Simulator.Answer.{ok}
use breakroom.Coverage.Observation.{
  Report, ReportCheck, coverage_complete, failures, observed_detection, observation_status,
}
use breakroom.Coverage.Summary.{count, gate_exit}
use breakroom.Coverage.Matrix.{
  CaseInfo, Plan, reference_of, distinct, unique, declared_controls, scheduled, check_plan,
  expectation_of, count_from, blank, accepted, run_cell, run_each, run_controls, run_trials,
  run_seeds, run_matrix, execute_matrix,
}
use breakroom.Coverage.Gate.{IsClean, gate_exit-IsClean}
use breakroom.Coverage.Denominator.{cell_key, schedule, keys-execute_matrix}
use breakroom.Coverage.Detection.{HasEvidence, gate_exit-HasEvidence}

unfoldable matrix_opened : Unit {0}
unfolding coverage_complete failures observed_detection observation_status count gate_exit
    reference_of distinct unique declared_controls scheduled check_plan expectation_of count_from
    blank accepted run_cell run_each run_controls run_trials run_seeds run_matrix execute_matrix
matrix_opened = tt

abbrev hash : CaseInfo → String
hash c = "hash_1"

abbrev is_valid : Report → Bool
is_valid r = true

abbrev covered : ReportCheck
covered = record { id = "fault_coverage"; category = "coverage"; status = "pass" }

abbrev duplicate : ReportCheck
duplicate = record { id = "no_duplicate_effects"; category = "safety"; status = "fail" }

abbrev report_of : CaseInfo → String → ℕ → String → List ReportCheck → Report
report_of c reference seed verdict checks = record {
  run_id = "run_1";
  case_id = c.case_id;
  seed = seed;
  source_hash = some "hash_1";
  reference = some reference;
  verdict = verdict;
  execution_status = "completed";
  checks = checks;
  actions = "tool_call" ∷ [];
}

abbrev runner : CaseInfo → String → ℕ → ℕ → Option Report
runner c reference seed trial =
    if reference == "breakroom.agents:corrected"
    then some (report_of c reference seed "PASS" (covered ∷ []))
    else some (report_of c reference seed "FAIL" (covered ∷ duplicate ∷ []))

abbrev the_case : CaseInfo
the_case = record {
  case_id = "case_1";
  negative_controls = "faulty" ∷ [];
  supported_seeds = 0 ∷ [];
}

abbrev other_case : CaseInfo
other_case = record the_case { case_id = "case_2"; negative_controls = "always_escalate" ∷ [] }

abbrev plan : Plan
plan = record { cases = the_case ∷ []; seeds = 0 ∷ []; trials = 1; all_pairs = false }

abbrev names : List String
names = "corrected" ∷ "faulty" ∷ []

planned : check_plan plan ≡ ok names
unfolding matrix_opened
planned = refl

clean : gate_exit (run_matrix hash is_valid runner plan names).0 [] ≡ 0
unfolding matrix_opened
clean = refl

no_declared_control : gate_exit (run_matrix hash is_valid runner plan names).0 ("case_2" ∷ []) ≡ 2
unfolding matrix_opened
no_declared_control = refl

gate_exit-IsClean_example : IsClean (run_matrix hash is_valid runner plan names).0 []
gate_exit-IsClean_example =
    gate_exit-IsClean (run_matrix hash is_valid runner plan names).0 [] clean

-- The matrix with another case of its own control in front.
abbrev two_cases : Plan
two_cases = record plan { cases = other_case ∷ the_case ∷ [] }

abbrev two_names : List String
two_names = "corrected" ∷ "always_escalate" ∷ "faulty" ∷ []

executed :
    execute_matrix hash is_valid runner two_cases
    ≡ ok (run_matrix hash is_valid runner two_cases two_names)
unfolding matrix_opened
executed = refl

keys-execute_matrix_example :
    map cell_key (run_matrix hash is_valid runner two_cases two_names).0
    ≡ schedule two_cases ("corrected" ∷ declared_controls two_cases.cases)
keys-execute_matrix_example = keys-execute_matrix hash is_valid runner two_cases _ _ executed

gate_exit-HasEvidence_example : HasEvidence hash is_valid runner the_case 0 1 "faulty"
unfolding matrix_opened
gate_exit-HasEvidence_example =
    gate_exit-HasEvidence hash is_valid runner two_cases _ _ [] (other_case ∷ []) the_case [] [] 0
      [] [] 1 [] "faulty" executed refl refl refl refl refl
