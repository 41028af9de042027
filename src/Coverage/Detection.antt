-- ===== src/Coverage/Detection.antt =====
-- A gate of zero rests on a report for every declared pair
-- (packages/breakroom-core/src/breakroom/coverage.py).
use breakroom.Base.{
  ℕ, ◌≡◌, refl, subst, String, Bool, true, false, not, ◌&&◌, ◌||◌, Option, some, List, [], ◌∷◌,
  ◌++◌, all, arith, member, ◌==◌, Option-cases, inl, inr,
}
use breakroom.Coverage.Observation.{
  Report, expects_fail, CellStatus, detected, coverage_complete, observation_status,
  observed_detection,
}
use breakroom.Coverage.Summary.{Cell, is_negative, is_detected, gate_exit}
use breakroom.Coverage.Matrix.{
  CaseInfo, Plan, run_cell, run_each, run_controls, run_trials, run_seeds, run_matrix, count_from,
  execute_matrix, accepted, blank, expectation_of, reference_of,
}
use breakroom.Coverage.Planned.{execute_matrix-IsRun}
use breakroom.Simulator.Answer.{ok}
use breakroom.Coverage.Gate.{gate_exit-IsClean}

all-append :
    (p : Cell → Bool) (xs ys : List Cell)
    → all p (xs ++ ys) ≡ true
    → (all p xs ≡ true) × (all p ys ≡ true)
all-append p [] ys h = (refl, h)
all-append p (x ∷ xs) ys h = ground (arith, all-append p xs ys)

head_of_all : (b c : Bool) → (b && c) ≡ true → b ≡ true
head_of_all true c h = refl
head_of_all false c h = h

abbrev negative_is_detected : Cell → Bool
negative_is_detected c = not (is_negative c) || is_detected c

detected_of :
    (s : CellStatus) → ◌≡◌ {A = Bool} (elim s [ detected ↦ true | _ ↦ false ]) true → s ≡ detected
detected_of s h = ground arith

observed_fail :
    (r : Report)
    → observation_status r (some expects_fail) ≡ detected
    → ((r.verdict == "FAIL") ≡ true) × (coverage_complete r ≡ true)
unfolding observation_status observed_detection
observed_fail r h = ground arith

module _ (content_hash : CaseInfo → String) (is_valid : Report → Bool)
    (runner : CaseInfo → String → ℕ → ℕ → Option Report) where
  -- What holds of every cell of a loop holds of the cells of each round.
  all-run_each {ℓ} :
      {A : Type ℓ} (body : A → List Report → List Cell × List Report) (p : Cell → Bool)
      (before : List A) (x : A) (after : List A) (reports : List Report)
      → all p (run_each content_hash is_valid runner body (before ++ x ∷ after) reports).0 ≡ true
      → (r : List Report) × (all p (body x r).0 ≡ true)
  unfolding run_each
  all-run_each body p [] x after reports h = (reports, (all-append p (body x reports).0 _ h).0)
  all-run_each body p (y ∷ ys) x after reports h =
      all-run_each body p ys x after (body y reports).1 (all-append p (body y reports).0 _ h).1

  round_of_all {ℓ} :
      {A : Type ℓ} (body : A → List Report → List Cell × List Report) (p : Cell → Bool)
      (xs before : List A) (x : A) (after : List A) (reports : List Report)
      → xs ≡ before ++ x ∷ after
      → all p (run_each content_hash is_valid runner body xs reports).0 ≡ true
      → (r : List Report) × (all p (body x r).0 ≡ true)
  round_of_all body p xs before x after reports split h =
      all-run_each body p before x after reports (
        subst (λ ys. all p (run_each content_hash is_valid runner body ys reports).0 ≡ true) split
          h)

  -- The evidence for a detection.
  pub record HasEvidence (c : CaseInfo) (seed trial : ℕ) (control : String) : Type 0 where
    pub reference : String
    pub registered : reference_of control ≡ some reference
    pub report : Report
    pub is_accepted : accepted content_hash is_valid runner c seed trial reference ≡ some report
    pub failed : (report.verdict == "FAIL") ≡ true
    pub covered : coverage_complete report ≡ true

  cell-HasEvidence :
      (all_pairs : Bool) (c : CaseInfo) (seed trial : ℕ) (control : String) (reports : List Report)
      → expectation_of c control ≡ some expects_fail
      → (let cell =
            (run_cell content_hash is_valid runner all_pairs c seed trial control reports).0 in
          (not (is_negative cell) || is_detected cell) ≡ true)
      → HasEvidence c seed trial control
  unfolding run_cell blank
  cell-HasEvidence all_pairs c seed trial control reports expected h =
      elim (Option-cases (reference_of control)) [
        | inl missing ↦ cc (rw (expected, missing) at h)
        | inr (reference, registered) ↦
            elim (Option-cases (accepted content_hash is_valid runner c seed trial reference)) [
              | inl refused ↦ cc (rw (expected, registered, refused) at h)
              | inr (r, is_accepted) ↦
                  let seen =
                    observed_fail r
                      (detected_of _ (rw (expected, registered, is_accepted, expected) at h)) in
                  record {
                    reference = reference;
                    registered = registered;
                    report = r;
                    is_accepted = is_accepted;
                    failed = seen.0;
                    covered = seen.1;
                  }
            ]
      ]

  run_matrix-HasEvidence :
      (plan : Plan) (names missing : List String) (cases_before : List CaseInfo) (c : CaseInfo)
      (cases_after : List CaseInfo) (seeds_before : List ℕ) (seed : ℕ) (seeds_after : List ℕ)
      (trials_before : List ℕ) (trial : ℕ) (trials_after : List ℕ) (names_before : List String)
      (control : String) (names_after : List String)
      → plan.cases ≡ cases_before ++ c ∷ cases_after
      → plan.seeds ≡ seeds_before ++ seed ∷ seeds_after
      → count_from 1 plan.trials ≡ trials_before ++ trial ∷ trials_after
      → names ≡ names_before ++ control ∷ names_after
      → expectation_of c control ≡ some expects_fail
      → gate_exit (run_matrix content_hash is_valid runner plan names).0 missing ≡ 0
      → HasEvidence c seed trial control
  unfolding run_matrix run_seeds run_trials run_controls
  run_matrix-HasEvidence plan names missing ca c cz sa seed sz ta trial tz na control nz cs ss ts ns
        expected z =
      let clean = (gate_exit-IsClean _ missing z).all_detected in
      let (r1, of_case) =
        round_of_all (run_seeds content_hash is_valid runner plan names) negative_is_detected _ ca c
          cz [] cs clean in
      let (r2, of_seed) =
        round_of_all (run_trials content_hash is_valid runner plan names c) negative_is_detected _
          sa seed sz r1 ss of_case in
      let (r3, of_trial) =
        round_of_all (run_controls content_hash is_valid runner plan names c seed)
          negative_is_detected _ ta trial tz r2 ts of_seed in
      let (r4, of_control) =
        round_of_all
          (λ x before.
            let (cell, after) =
              run_cell content_hash is_valid runner plan.all_pairs c seed trial x before in
            (cell ∷ [], after))
          negative_is_detected names na control nz r3 ns of_trial in
      cell-HasEvidence plan.all_pairs c seed trial control r4 expected (head_of_all _ _ of_control)

  -- If `execute_matrix` runs a plan and its gate exits with zero, then every repeat of every seed of
  -- every case with every control that the case declares has a report that the runner gave for that
  -- trial, that was accepted for the case, the seed and the control's own adapter, whose verdict is
  -- FAIL and whose coverage is complete.
  pub gate_exit-HasEvidence :
      (plan : Plan) (cells : List Cell) (reports : List Report) (missing : List String)
      (cases_before : List CaseInfo) (c : CaseInfo) (cases_after : List CaseInfo)
      (seeds_before : List ℕ) (seed : ℕ) (seeds_after : List ℕ) (trials_before : List ℕ) (trial : ℕ)
      (trials_after : List ℕ) (control : String)
      → execute_matrix content_hash is_valid runner plan ≡ ok (cells, reports)
      → gate_exit cells missing ≡ 0
      → plan.cases ≡ cases_before ++ c ∷ cases_after
      → plan.seeds ≡ seeds_before ++ seed ∷ seeds_after
      → count_from 1 plan.trials ≡ trials_before ++ trial ∷ trials_after
      → member control c.negative_controls ≡ true
      → HasEvidence c seed trial control
  gate_exit-HasEvidence plan cells reports missing ca c cz sa seed sz ta trial tz control run z cs
        ss ts declared =
      let r =
        execute_matrix-IsRun content_hash is_valid runner plan cells reports ca c cz control run cs
          declared in
      run_matrix-HasEvidence plan r.names missing ca c cz sa seed sz ta trial tz r.before control
        r.after cs ss ts r.split r.expected (subst (λ xs. gate_exit xs missing ≡ 0) r.cells_of z)
