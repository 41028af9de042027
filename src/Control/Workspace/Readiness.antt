-- ===== src/Control/Workspace/Readiness.antt =====
-- What imported reports say of a suite (apps/api/breakroom_api/team_workspace.py).
use breakroom.Base.{
  ℕ, String, Bool, false, not, ◌&&◌, ◌||◌, Option, none, some, List, [], ◌∷◌, map, all, any, filter,
  first, length, same_option, ◌==◌, ◌=ℕ=◌, if◌then◌else◌,
}

pub record CheckRow : Type 0 where
  pub id : String
  pub status : String

-- A retained report, with the fields of its upload that are read here.
pub record EvidenceRow : Type 0 where
  pub id : String
  pub case_id : String
  pub verdict : String
  pub case_version : String
  pub execution_status : String
  pub checks : List CheckRow
  pub original_case_manifest_hash : String
  pub original_source_manifest_hash : Option String

-- A case that a suite expects.
pub record SuiteCase : Type 0 where
  pub case_id : String
  pub case_version : String
  pub manifest_hash : String

-- `compatible`
unfoldable pub compatible : EvidenceRow → SuiteCase → Bool
compatible row expected =
    row.case_id == expected.case_id
    && row.case_version == expected.case_version
    && (row.original_case_manifest_hash == expected.manifest_hash
        || same_option row.original_source_manifest_hash (some expected.manifest_hash))

-- `by_id.get(id)`: a later check replaces an earlier one.
unfoldable pub last_check : String → List CheckRow → Option CheckRow
last_check id [] = none
last_check id (k ∷ ks) =
    let rest = last_check id ks in
    elim rest [ some c ↦ some c | none ↦ if k.id == id then some k else none ]

abbrev pub has_status : String → CheckRow → Bool
has_status status k = k.status == status

abbrev pub is_covered : Option CheckRow → Bool
is_covered none = false
is_covered (some k) = k.status == "pass"

-- `evidence_status`
unfoldable pub evidence_status : EvidenceRow → String
unfolding last_check
evidence_status row =
    if row.verdict == "FAIL" || any (has_status "fail") row.checks
    then "FAIL"
    else if row.verdict == "UNSUPPORTED"
    then "UNSUPPORTED"
    else if not (row.verdict == "PASS")
        || not (row.execution_status == "completed")
        || any (has_status "unknown") row.checks
        || not (is_covered (last_check "fault_coverage" row.checks))
    then "INCONCLUSIVE"
    else "PASS"

pub record Entry : Type 0 where
  pub case : SuiteCase
  pub status : String
  pub report_id : Option String

abbrev pub missing_status : List EvidenceRow → String
missing_status [] = "MISSING"
missing_status (_ ∷ _) = "INCOMPATIBLE"

-- The entry of a case, where there is a report that is compatible.
unfoldable pub entry_for : List EvidenceRow → SuiteCase → Option EvidenceRow → Entry
unfolding evidence_status
entry_for same case (some row) = record {
  case = case;
  status = evidence_status row;
  report_id = some row.id;
}
entry_for same case none = record { case = case; status = missing_status same; report_id = none }

abbrev pub same_case : List EvidenceRow → SuiteCase → List EvidenceRow
same_case rows case = filter (λ r. r.case_id == case.case_id) rows

abbrev pub matching : List EvidenceRow → SuiteCase → Option EvidenceRow
matching rows case = first (λ r. compatible r case) (same_case rows case)

-- One entry of `suite_readiness`.
unfoldable pub entry_of : List EvidenceRow → SuiteCase → Entry
unfolding entry_for
entry_of rows case = entry_for (same_case rows case) case (matching rows case)

-- The field of `counts` for a status.
unfoldable pub count_status : String → List Entry → ℕ
count_status status entries = length (filter (λ e. e.status == status) entries)

unfoldable pub suite_status : List Entry → String
unfolding count_status
suite_status entries =
    if not (count_status "FAIL" entries =ℕ= 0)
    then "FAIL"
    else if not (length entries =ℕ= 0) && all (λ e. e.status == "PASS") entries
    then "PASS"
    else "INCONCLUSIVE"

pub record Readiness : Type 0 where
  pub status : String
  pub entries : List Entry

-- `suite_readiness`
unfoldable pub suite_readiness : List SuiteCase → List EvidenceRow → Readiness
unfolding entry_of suite_status
suite_readiness cases rows = record {
  status = suite_status (map (entry_of rows) cases);
  entries = map (entry_of rows) cases;
}
