-- ===== src/Coverage/Matrix.antt =====
-- `execute_matrix`: the limits of a matrix, its controls, and one cell for every pair
-- (packages/breakroom-core/src/breakroom/coverage.py). The runner is an argument of the source too;
-- `is_valid` is `validate_report`, and `content_hash` hashes a manifest.
use breakroom.Base.{
  member, ℕ, zero, suc, ◌+◌, ◌*◌, String, Bool, true, false, not, ◌&&◌, ◌||◌, Option, none, some,
  List, [], ◌∷◌, ◌++◌, map, any, all, length, leb, order_by, same_option, ◌==◌, ◌=ℕ=◌,
  if◌then◌else◌,
}
use Prim.Native.String.{◌++◌ as join}
use breakroom.Simulator.Answer.{Outcome, ok, value_error, ◌>>=◌, ◌>>◌, guard}
use breakroom.Coverage.Observation.{
  Report, Expectation, expects_pass, expects_fail, CellStatus, incomplete, not_scheduled,
  observation_status, failures,
}
use breakroom.Coverage.Summary.{Cell}

-- A validated case, as coverage reads it.
pub record CaseInfo : Type 0 where
  pub case_id : String
  pub negative_controls : List String
  pub supported_seeds : List ℕ

-- `CONTROL_NAMES`, the maintained registry.
abbrev pub control_names : List String
control_names =
    "corrected" ∷ "faulty" ∷ "always_escalate" ∷ "success_without_evidence" ∷ "repeat_workflow"
    ∷ "first_name_only" ∷ "ignore_parameter_conflict" ∷ "suppress_same_order_refunds"
    ∷ "fresh_key_per_worker" ∷ "pending_as_succeeded" ∷ "ignore_terminal_failure"
    ∷ "ignore_retry_after" ∷ "unbounded_retry" ∷ "claim_despite_permission_denial"
    ∷ "assume_prior_permission" ∷ "overwrite_after_version_conflict" ∷ "clamp_to_balance"
    ∷ "force_order_currency" ∷ "fresh_key_per_delivery" ∷ "first_order_guess"
    ∷ "invent_missing_fields" ∷ "fresh_key_on_empty_lookup" ∷ "handle_event_twice"
    ∷ "trust_last_event_payload" ∷ "skip_ticket_ownership" ∷ "claim_unknown_success"
    ∷ "no_retry_after_transient" ∷ []

-- `CONTROL_REGISTRY.get(control)`; every name of the registry is a function of breakroom.agents.
unfoldable pub reference_of : String → Option String
reference_of control =
    if member control control_names then some (join "breakroom.agents:" control) else none

-- `len(set(xs)) == len(xs)`
unfoldable pub distinct {ℓ} : {A : Type ℓ} → (A → A → Bool) → List A → Bool
distinct same [] = true
distinct same (x ∷ xs) = not (any (same x) xs) && distinct same xs

unfoldable pub unique : List String → List String
unique [] = []
unique (x ∷ xs) = let rest = unique xs in if member x rest then rest else x ∷ rest

abbrev pub concat_controls : List CaseInfo → List String
concat_controls [] = []
concat_controls (c ∷ cs) = c.negative_controls ++ concat_controls cs

-- `sorted({control for case in cases for control in case["negative_controls"]})`
unfoldable pub declared_controls : List CaseInfo → List String
unfolding unique
declared_controls cases = order_by (λ x. x) (unique (concat_controls cases))

pub record Plan : Type 0 where
  pub cases : List CaseInfo
  pub seeds : List ℕ
  pub trials : ℕ
  pub all_pairs : Bool

abbrev sum : List ℕ → ℕ
sum [] = 0
sum (n ∷ ns) = n + sum ns

-- The number of executions that the plan asks for.
unfoldable pub scheduled : Plan → List String → ℕ
scheduled plan names =
    sum (
      map (λ c. if plan.all_pairs then length names else 1 + length c.negative_controls) plan.cases)
    * length plan.seeds
    * plan.trials

-- The refusals, and the controls with the corrected reference in front.
unfoldable pub check_plan : Plan → Outcome (List String)
unfolding distinct declared_controls scheduled
check_plan plan = do
  guard (leb 1 (length plan.cases) && leb (length plan.cases) 128) value_error
  guard (distinct (λ a b. a == b) (map (λ c. c.case_id) plan.cases)) value_error
  guard (leb 1 plan.trials && leb plan.trials 20) value_error
  guard (leb 1 (length plan.seeds) && leb (length plan.seeds) 20) value_error
  guard (all (λ s. leb s 2147483647) plan.seeds) value_error
  guard (distinct (λ a b. a =ℕ= b) plan.seeds) value_error
  guard (not (member "corrected" (declared_controls plan.cases))) value_error
  guard (leb (length (declared_controls plan.cases)) 64) value_error
  guard
      (all
        (λ c.
          distinct (λ a b. a == b) c.negative_controls
          && all (λ s. any (λ t. t =ℕ= s) c.supported_seeds) plan.seeds)
        plan.cases)
      value_error
  guard (leb (scheduled plan ("corrected" ∷ declared_controls plan.cases)) 500) value_error
  ok ("corrected" ∷ declared_controls plan.cases)

unfoldable pub expectation_of : CaseInfo → String → Option Expectation
expectation_of c control =
    if control == "corrected"
    then some expects_pass
    else if member control c.negative_controls
    then some expects_fail
    else none

abbrev pub is_some {ℓ} : {A : Type ℓ} → Option A → Bool
is_some none = false
is_some (some _) = true

-- `range(1, trials + 1)`
unfoldable pub count_from : ℕ → ℕ → List ℕ
count_from start zero = []
count_from start (suc n) = start ∷ count_from (start + 1) n

module _ (content_hash : CaseInfo → String) (is_valid : Report → Bool)
    (runner : CaseInfo → String → ℕ → ℕ → Option Report) where
  unfoldable pub blank : CaseInfo → ℕ → ℕ → String → CellStatus → Cell
  unfolding expectation_of
  blank c seed trial control status = record {
    case_id = c.case_id;
    seed = seed;
    trial_index = trial;
    control = control;
    expectation = expectation_of c control;
    status = status;
    observed_verdict = none;
    report_index = none;
    failed_checks = [];
  }

  -- The runner's answer to a trial is its argument at that trial: every trial is run once.
  -- The report of a run, where it is valid and of the case, seed and adapter that were asked for.
  unfoldable pub accepted : CaseInfo → ℕ → ℕ → String → Option Report
  accepted c seed trial reference = elim (runner c reference seed trial) [
    | none ↦ none
    | some r ↦
        if is_valid r
          && r.case_id == c.case_id
          && r.seed =ℕ= seed
          && same_option r.source_hash (some (content_hash c))
          && same_option r.reference (some reference)
        then some r
        else none
  ]

  -- One cell, with the reports so far.
  unfoldable pub run_cell : Bool → CaseInfo → ℕ → ℕ → String → List Report → Cell × List Report
  unfolding blank accepted reference_of expectation_of observation_status failures
  run_cell all_pairs c seed trial control reports =
      if is_some (expectation_of c control) || all_pairs
      then (elim (reference_of control) [
        | none ↦ (blank c seed trial control incomplete, reports)
        | some reference ↦ elim (accepted c seed trial reference) [
          | none ↦ (blank c seed trial control incomplete, reports)
          | some r ↦ (
            record (blank c seed trial control incomplete) {
              status = observation_status r (expectation_of c control);
              observed_verdict = some r.verdict;
              report_index = some (length reports);
              failed_checks = map (λ f. f.id) (failures r);
            },
            reports ++ r ∷ [],
          )
        ]
      ])
      else (blank c seed trial control not_scheduled, reports)

  -- A `for` loop that appends cells and reports.
  unfoldable pub run_each {ℓ} :
      {A : Type ℓ}
      → (A → List Report → List Cell × List Report)
      → List A
      → List Report
      → List Cell × List Report
  run_each body [] reports = ([], reports)
  run_each body (x ∷ xs) reports =
      let (cells, after) = body x reports in
      let (rest, end) = run_each body xs after in (cells ++ rest, end)

  -- The four loops, from the inside.
  unfoldable pub run_controls :
      Plan → List String → CaseInfo → ℕ → ℕ → List Report → List Cell × List Report
  unfolding run_cell run_each
  run_controls plan names c seed trial reports =
      run_each
        (λ control before.
          let (cell, after) = run_cell plan.all_pairs c seed trial control before in
          (cell ∷ [], after))
        names reports

  unfoldable pub run_trials :
      Plan → List String → CaseInfo → ℕ → List Report → List Cell × List Report
  unfolding run_controls count_from
  run_trials plan names c seed reports =
      run_each (run_controls plan names c seed) (count_from 1 plan.trials) reports

  unfoldable pub run_seeds : Plan → List String → CaseInfo → List Report → List Cell × List Report
  unfolding run_trials
  run_seeds plan names c reports = run_each (run_trials plan names c) plan.seeds reports

  unfoldable pub run_matrix : Plan → List String → List Cell × List Report
  unfolding run_seeds
  run_matrix plan names = run_each (run_seeds plan names) plan.cases []

  -- `execute_matrix`
  unfoldable pub execute_matrix : Plan → Outcome (List Cell × List Report)
  unfolding check_plan run_matrix
  execute_matrix plan = do names ← check_plan plan; ok (run_matrix plan names)
