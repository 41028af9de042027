-- ===== src/Coverage/Observation.antt =====
-- `_coverage_complete` and `classify_observation`: what one trial's report shows of a control
-- (packages/breakroom-core/src/breakroom/coverage.py).
use breakroom.Base.{
  ℕ, String, Bool, not, ◌&&◌, ◌||◌, Option, none, some, List, filter, any, all, length, ◌==◌, ◌=ℕ=◌,
  if◌then◌else◌,
}

pub record ReportCheck : Type 0 where
  pub id : String
  pub category : String
  pub status : String

-- The fields of a trial's report that coverage reads; `actions` are the kinds of its events, and
-- `source_hash` is what `_source_manifest_hash` returns, missing where it raises.
pub record Report : Type 0 where
  pub run_id : String
  pub case_id : String
  pub seed : ℕ
  pub source_hash : Option String
  pub reference : Option String
  pub verdict : String
  pub execution_status : String
  pub checks : List ReportCheck
  pub actions : List String

pub data Expectation : Type 0 where
  expects_pass expects_fail : Expectation

pub data CellStatus : Type 0 where
  control_pass control_failed incomplete detected missed observed not_scheduled : CellStatus

abbrev coverage_of : Report → List ReportCheck
coverage_of r = filter (λ c. c.category == "coverage") r.checks

-- `_coverage_complete`
unfoldable pub coverage_complete : Report → Bool
coverage_complete r =
    not (length (coverage_of r) =ℕ= 0)
    && all (λ c. c.status == "pass" || c.status == "not_applicable") (coverage_of r)

unfoldable pub failures : Report → List ReportCheck
failures r =
    filter
      (λ c.
        c.status == "fail"
        && (c.category == "safety"
            || c.category == "outcome"
            || c.category == "evidence"
            || c.category == "liveness"))
      r.checks

unfoldable pub observed_detection : Report → Bool
unfolding coverage_complete failures
observed_detection r =
    r.verdict == "FAIL"
    && coverage_complete r
    && not (length (failures r) =ℕ= 0)
    && (r.execution_status == "completed"
        || (any (λ c. c.category == "liveness") (failures r)
            && any (λ a. a == "tool_call" || a == "invocation_started") r.actions))

-- `classify_observation`, the status.
unfoldable pub observation_status : Report → Option Expectation → CellStatus
unfolding observed_detection coverage_complete
observation_status r none = observed
observation_status r (some expects_pass) =
    if r.verdict == "PASS" && coverage_complete r
    then control_pass
    else if r.verdict == "FAIL"
    then control_failed
    else incomplete
observation_status r (some expects_fail) =
    if observed_detection r then detected else if r.verdict == "PASS" then missed else incomplete
