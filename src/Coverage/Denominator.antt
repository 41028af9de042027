-- ===== src/Coverage/Denominator.antt =====
-- A matrix keeps exactly the cells of its plan
-- (packages/breakroom-core/src/breakroom/coverage.py).
use breakroom.Base.{
  sym, ℕ, ◌≡◌, refl, ap, ◌∙◌, String, Bool, ◌||◌, Option, List, [], ◌∷◌, ◌++◌, map, Option-cases,
  Bool-cases, inl, inr,
}
use breakroom.Coverage.Observation.{Report}
use breakroom.Coverage.Summary.{Cell}
use breakroom.Simulator.Answer.{ok, >>=-eq-ok}
use breakroom.Coverage.Planned.{check_plan-names, same_of_ok}
use breakroom.Coverage.Matrix.{
  declared_controls, check_plan, execute_matrix, CaseInfo, Plan, run_cell, run_each, run_controls,
  run_trials, run_seeds, run_matrix, count_from, accepted, blank, expectation_of, reference_of,
  is_some,
}

-- What a cell is about: its case, its seed, its repeat and its control.
pub record CellKey : Type 0 where
  pub case_id : String
  pub seed : ℕ
  pub trial_index : ℕ
  pub control : String

abbrev pub cell_key : Cell → CellKey
cell_key cell = record {
  case_id = cell.case_id;
  seed = cell.seed;
  trial_index = cell.trial_index;
  control = cell.control;
}

abbrev pub concat_map {ℓ κ} : {A : Type ℓ} {B : Type κ} → (A → List B) → List A → List B
concat_map f [] = []
concat_map f (x ∷ xs) = f x ++ concat_map f xs

-- The cells that a plan asks for: every control of every repeat of every seed of every case, in
-- this order.
abbrev pub schedule : Plan → List String → List CellKey
schedule plan names =
    concat_map
      (λ c.
        concat_map
          (λ seed.
            concat_map
              (λ trial.
                map
                  (λ control. record {
                    case_id = c.case_id;
                    seed = seed;
                    trial_index = trial;
                    control = control;
                  })
                  names)
              (count_from 1 plan.trials))
          plan.seeds)
      plan.cases

map-append {ℓ κ} :
    {A : Type ℓ} {B : Type κ} (f : A → B) (xs ys : List A) → map f (xs ++ ys) ≡ map f xs ++ map f ys
map-append f [] ys = refl
map-append f (x ∷ xs) ys = ap (λ zs. f x ∷ zs) (map-append f xs ys)

concat_map-one {ℓ κ} :
    {A : Type ℓ} {B : Type κ} (f : A → B) (xs : List A) → concat_map (λ x. f x ∷ []) xs ≡ map f xs
concat_map-one f [] = refl
concat_map-one f (x ∷ xs) = ap (λ ys. f x ∷ ys) (concat_map-one f xs)

module _ (content_hash : CaseInfo → String) (is_valid : Report → Bool)
    (runner : CaseInfo → String → ℕ → ℕ → Option Report) where
  -- A loop whose body appends cells of keys that do not depend on the reports.
  keys-run_each {ℓ} :
      {A : Type ℓ} (body : A → List Report → List Cell × List Report) (keys : A → List CellKey)
      → ((x : A) (reports : List Report) → map cell_key (body x reports).0 ≡ keys x)
      → (xs : List A) (reports : List Report)
      → map cell_key (run_each content_hash is_valid runner body xs reports).0 ≡ concat_map keys xs
  unfolding run_each
  keys-run_each body keys each [] reports = refl
  keys-run_each body keys each (x ∷ xs) reports =
      map-append cell_key (body x reports).0 _
      ∙ ap
          (λ a.
            a ++ map cell_key (run_each content_hash is_valid runner body xs (body x reports).1).0)
          (each x reports)
      ∙ ap (λ b. keys x ++ b) (keys-run_each body keys each xs (body x reports).1)

  key-run_cell :
      (all_pairs : Bool) (c : CaseInfo) (seed trial : ℕ) (control : String) (reports : List Report)
      → cell_key (run_cell content_hash is_valid runner all_pairs c seed trial control reports).0
        ≡ record { case_id = c.case_id; seed = seed; trial_index = trial; control = control }
  unfolding run_cell blank
  key-run_cell all_pairs c seed trial control reports =
      elim (Bool-cases (is_some (expectation_of c control) || all_pairs)) [
        | inr skipped ↦ rw skipped refl
        | inl planned ↦ elim (Option-cases (reference_of control)) [
          | inl missing ↦ rw (planned, missing) refl
          | inr (reference, registered) ↦
              elim (Option-cases (accepted content_hash is_valid runner c seed trial reference)) [
                | inl refused ↦ rw (planned, registered, refused) refl
                | inr (r, is_accepted) ↦ rw (planned, registered, is_accepted) refl
              ]
        ]
      ]

  keys-run_matrix :
      (plan : Plan) (names : List String)
      → map cell_key (run_matrix content_hash is_valid runner plan names).0 ≡ schedule plan names
  unfolding run_matrix run_seeds run_trials run_controls
  keys-run_matrix plan names =
      keys-run_each (run_seeds content_hash is_valid runner plan names) _
        (λ c.
          keys-run_each (run_trials content_hash is_valid runner plan names c) _
            (λ seed.
              keys-run_each (run_controls content_hash is_valid runner plan names c seed) _
                (λ trial reports.
                  keys-run_each
                    (λ control before.
                      let (cell, after) =
                        run_cell content_hash is_valid runner plan.all_pairs c seed trial control
                          before in
                      (cell ∷ [], after))
                    (λ control.
                      record {
                        case_id = c.case_id;
                        seed = seed;
                        trial_index = trial;
                        control = control;
                      }
                      ∷ [])
                    (λ control before.
                      ap (λ k. k ∷ []) (key-run_cell plan.all_pairs c seed trial control before))
                    names reports
                  ∙ concat_map-one _ names)
                (count_from 1 plan.trials))
            plan.seeds)
        plan.cases []

  -- The cells of a matrix that `execute_matrix` returns are exactly one for each case, seed, repeat
  -- and control of its plan, in this order and whatever the runner returns; the controls are the
  -- corrected reference and all that some case declares.
  pub keys-execute_matrix :
      (plan : Plan) (cells : List Cell) (reports : List Report)
      → execute_matrix content_hash is_valid runner plan ≡ ok (cells, reports)
      → map cell_key cells ≡ schedule plan ("corrected" ∷ declared_controls plan.cases)
  unfolding execute_matrix
  keys-execute_matrix plan cells reports run =
      let (names, checked, ran) = >>=-eq-ok (check_plan plan) _ run in
      ap (λ x. map cell_key x.0) (sym (same_of_ok ran))
      ∙ keys-run_matrix plan names
      ∙ ap (schedule plan) (sym (check_plan-names plan names checked).0)
