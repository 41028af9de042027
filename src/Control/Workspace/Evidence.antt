-- ===== src/Control/Workspace/Evidence.antt =====
-- What a suite that passes rests on (apps/api/breakroom_api/team_workspace.py).
use breakroom.Base.{
  ◌≡◌, refl, sym, ap, ◌∙◌, String, Bool, true, false, not, ◌&&◌, ◌||◌, Option, none, some, List, [],
  ◌∷◌, map, all, any, filter, first, length, ◌==◌, eq_of_test, ◌=ℕ=◌, suc, if◌then◌else◌,
}
use breakroom.Control.Workspace.Readiness.{
  EvidenceRow, SuiteCase, compatible, last_check, has_status, is_covered, evidence_status, Entry,
  entry_of, suite_status, suite_readiness, missing_status, entry_for, same_case, matching,
}

-- The report on which the entry of a case rests, and what it says.
pub record HasEvidence (rows : List EvidenceRow) (case : SuiteCase) : Type 0 where
  pub row : EvidenceRow
  pub found :
      first (λ r. compatible r case) (filter (λ r. r.case_id == case.case_id) rows) ≡ some row
  pub is_pass : row.verdict ≡ "PASS"
  pub is_completed : row.execution_status ≡ "completed"
  pub no_failure : any (has_status "fail") row.checks ≡ false
  pub no_unknown : any (has_status "unknown") row.checks ≡ false
  pub is_exercised : is_covered (last_check "fault_coverage" row.checks) ≡ true

pub data EachHasEvidence (rows : List EvidenceRow) : List SuiteCase → Type 0 where
  no_case : EachHasEvidence rows []
  next_case :
      {case : SuiteCase} {cases : List SuiteCase}
      → HasEvidence rows case
      → EachHasEvidence rows cases
      → EachHasEvidence rows (case ∷ cases)

status_tests :
    (f g u v w x y : Bool)
    → ((if f || g
          then "FAIL"
          else if u
          then "UNSUPPORTED"
          else if not v || not w || x || not y
          then "INCONCLUSIVE"
          else "PASS")
        == "PASS")
      ≡ true
    → (g ≡ false) × (v ≡ true) × (w ≡ true) × (x ≡ false) × (y ≡ true)
status_tests false false false true true false true h = (refl, refl, refl, refl, refl)
status_tests true g u v w x y h = cc
status_tests false true u v w x y h = cc
status_tests false false true v w x y h = cc
status_tests false false false false w x y h = cc
status_tests false false false true false x y h = cc
status_tests false false false true true true y h = cc
status_tests false false false true true false false h = cc

both_true : (a b : Bool) → (a && b) ≡ true → (a ≡ true) × (b ≡ true)
both_true true true h = (refl, refl)
both_true true false h = cc
both_true false b h = cc

not_pass : {A : Type 0} {s : String} → s ≡ "PASS" → (s == "PASS") ≡ false → A
not_pass h k = cc

length-map : (f : SuiteCase → Entry) (xs : List SuiteCase) → length (map f xs) ≡ length xs
length-map f [] = refl
length-map f (x ∷ xs) = ap suc (length-map f xs)

no_report : {A : Type 0} (xs : List EvidenceRow) → (missing_status xs == "PASS") ≡ true → A
no_report [] h = cc
no_report (x ∷ xs) h = cc

entry-HasEvidence :
    (rows same : List EvidenceRow) (case : SuiteCase) (r : Option EvidenceRow)
    → matching rows case ≡ r
    → ((entry_for same case r).status == "PASS") ≡ true
    → HasEvidence rows case
unfolding entry_for evidence_status
entry-HasEvidence rows same case none e h = no_report same h
entry-HasEvidence rows same case (some row) e h =
    let (fails, v, w, x, y) =
      status_tests (row.verdict == "FAIL") _ (row.verdict == "UNSUPPORTED") _ _ _ _ h in
    record {
      row = row;
      found = e;
      is_pass = eq_of_test row.verdict "PASS" v;
      is_completed = eq_of_test row.execution_status "completed" w;
      no_failure = fails;
      no_unknown = x;
      is_exercised = y;
    }

entries-HasEvidence :
    (rows : List EvidenceRow) (cases : List SuiteCase)
    → all (λ e. e.status == "PASS") (map (entry_of rows) cases) ≡ true
    → EachHasEvidence rows cases
unfolding entry_of
entries-HasEvidence rows [] h = no_case
entries-HasEvidence rows (case ∷ cases) h =
    let (k, l) = both_true _ _ h in
    next_case (entry-HasEvidence rows (same_case rows case) case (matching rows case) refl k)
      (entries-HasEvidence rows cases l)

passed :
    (f n a : Bool) (status : String)
    → status ≡ (if not f then "FAIL" else if not n && a then "PASS" else "INCONCLUSIVE")
    → status ≡ "PASS"
    → (n ≡ false) × (a ≡ true)
passed true false true s e h = (refl, refl)
passed true true a s e h = not_pass (sym e ∙ h) refl
passed true false false s e h = not_pass (sym e ∙ h) refl
passed false n a s e h = not_pass (sym e ∙ h) refl

-- A suite passes only where it has a case and, for each of its cases, the first compatible report is
-- a completed PASS without a failed or unknown check, whose faults were exercised.
pub suite_readiness-HasEvidence :
    (cases : List SuiteCase) (rows : List EvidenceRow)
    → (suite_readiness cases rows).status ≡ "PASS"
    → ((length cases =ℕ= 0) ≡ false) × EachHasEvidence rows cases
unfolding suite_readiness suite_status
suite_readiness-HasEvidence cases rows h =
    let (n, a) = passed _ _ _ (suite_readiness cases rows).status refl h in
    (
      ap (λ k. k =ℕ= 0) (sym (length-map (entry_of rows) cases)) ∙ n,
      entries-HasEvidence rows cases a,
    )
