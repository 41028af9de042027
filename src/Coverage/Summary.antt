-- ===== src/Coverage/Summary.antt =====
-- `summarize_cells`: the counts of a matrix and its gate
-- (packages/breakroom-core/src/breakroom/coverage.py).
use breakroom.Base.{
  ℕ, suc, String, Bool, true, false, not, ◌||◌, Option, none, some, List, [], ◌∷◌, filter, length,
  ◌=ℕ=◌, if◌then◌else◌,
}
use breakroom.Coverage.Observation.{
  Expectation, expects_pass, expects_fail, CellStatus, control_pass, control_failed, incomplete,
  detected, missed, not_scheduled,
}

pub record Cell : Type 0 where
  pub case_id : String
  pub seed : ℕ
  pub trial_index : ℕ
  pub control : String
  pub expectation : Option Expectation
  pub status : CellStatus
  pub observed_verdict : Option String
  pub report_index : Option ℕ
  pub failed_checks : List String

abbrev pub is_negative : Cell → Bool
is_negative c = elim c.expectation [ some expects_fail ↦ true | _ ↦ false ]

abbrev pub is_control : Cell → Bool
is_control c = elim c.expectation [ some expects_pass ↦ true | _ ↦ false ]

abbrev pub is_expected : Cell → Bool
is_expected c = elim c.expectation [ none ↦ false | some _ ↦ true ]

abbrev pub is_detected : Cell → Bool
is_detected c = elim c.status [ detected ↦ true | _ ↦ false ]

abbrev pub is_missed : Cell → Bool
is_missed c = elim c.status [ missed ↦ true | _ ↦ false ]

abbrev pub is_incomplete : Cell → Bool
is_incomplete c = elim c.status [ incomplete ↦ true | _ ↦ false ]

abbrev pub is_passing : Cell → Bool
is_passing c = elim c.status [ control_pass ↦ true | _ ↦ false ]

abbrev pub is_control_failure : Cell → Bool
is_control_failure c = elim c.status [ control_failed ↦ true | _ ↦ false ]

-- `sum(p(cell) for cell in cells)`
unfoldable pub count : (Cell → Bool) → List Cell → ℕ
count p [] = 0
count p (c ∷ cs) = let rest = count p cs in if p c then suc rest else rest

pub record Summary : Type 0 where
  pub expected_negative_trials : ℕ
  pub detected_negative_trials : ℕ
  pub missed_negative_trials : ℕ
  pub incomplete_negative_trials : ℕ
  pub expected_corrected_trials : ℕ
  pub passing_corrected_trials : ℕ
  pub failed_corrected_trials : ℕ
  pub incomplete_corrected_trials : ℕ
  pub not_scheduled_cells : ℕ
  pub gate_exit : ℕ

abbrev pub negatives : List Cell → List Cell
negatives cells = filter is_negative cells

abbrev pub controls : List Cell → List Cell
controls cells = filter is_control cells

unfoldable pub gate_exit : List Cell → List String → ℕ
unfolding count
gate_exit cells missing_negative_control_cases =
    if not (count is_missed (negatives cells) =ℕ= 0)
      || not (count is_control_failure (controls cells) =ℕ= 0)
    then 1
    else if length (negatives cells) =ℕ= 0
        || length (controls cells) =ℕ= 0
        || not (count is_incomplete (filter is_expected cells) =ℕ= 0)
        || not (length missing_negative_control_cases =ℕ= 0)
        || not (count is_detected (negatives cells) =ℕ= length (negatives cells))
        || not (count is_passing (controls cells) =ℕ= length (controls cells))
    then 2
    else 0

abbrev is_unscheduled : Cell → Bool
is_unscheduled c = elim c.status [ not_scheduled ↦ true | _ ↦ false ]

-- `summarize_cells`, without the counts of verdicts and of reports.
unfoldable pub summarize_cells : List Cell → List String → Summary
unfolding count gate_exit
summarize_cells cells missing = record {
  expected_negative_trials = length (negatives cells);
  detected_negative_trials = count is_detected (negatives cells);
  missed_negative_trials = count is_missed (negatives cells);
  incomplete_negative_trials = count is_incomplete (negatives cells);
  expected_corrected_trials = length (controls cells);
  passing_corrected_trials = count is_passing (controls cells);
  failed_corrected_trials = count is_control_failure (controls cells);
  incomplete_corrected_trials = count is_incomplete (controls cells);
  not_scheduled_cells = count is_unscheduled cells;
  gate_exit = gate_exit cells missing;
}
