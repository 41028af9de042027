-- ===== src/Coverage/Planned.antt =====
-- The controls of a plan that `execute_matrix` accepts
-- (packages/breakroom-core/src/breakroom/coverage.py).
use breakroom.Base.{
  ◌≡◌, refl, ap, sym, ◌∙◌, String, Bool, true, false, ◌||◌, List, [], ◌∷◌, ◌++◌, member, some,
  Option, ℕ, insert_by, order_by, Bool-cases, inl, inr, eq_of_test, ◌==◌, arith,
}
use breakroom.Coverage.Observation.{Report, expects_fail}
use breakroom.Coverage.Summary.{Cell}
use breakroom.Coverage.Matrix.{
  CaseInfo, Plan, execute_matrix, run_matrix, unique, declared_controls, concat_controls,
  check_plan, expectation_of,
}
use breakroom.Simulator.Answer.{Outcome, ok, >>=-eq-ok}

member-append_left :
    (x : String) (xs ys : List String) → member x xs ≡ true → member x (xs ++ ys) ≡ true
member-append_left x [] ys h = cc
member-append_left x (z ∷ zs) ys h = ground (arith, member-append_left x zs ys)

member-append_right :
    (x : String) (xs ys : List String) → member x ys ≡ true → member x (xs ++ ys) ≡ true
member-append_right x [] ys h = h
member-append_right x (z ∷ zs) ys h = ground (arith, member-append_right x zs ys)

concat_controls-member :
    (x : String) (before : List CaseInfo) (c : CaseInfo) (after : List CaseInfo)
    → member x c.negative_controls ≡ true
    → member x (concat_controls (before ++ c ∷ after)) ≡ true
concat_controls-member x [] c after h =
    member-append_left x c.negative_controls (concat_controls after) h
concat_controls-member x (d ∷ ds) c after h =
    member-append_right x d.negative_controls _ (concat_controls-member x ds c after h)

unique-member : (x : String) (xs : List String) → member x xs ≡ true → member x (unique xs) ≡ true
unfolding unique
unique-member x [] h = h
unique-member x (y ∷ ys) h = elim (Bool-cases (y == x)) [
  | inl same ↦ elim (Bool-cases (member y (unique ys))) [
    | inl there ↦ rw there (ap (λ z. member z (unique ys)) (sym (eq_of_test y x same)) ∙ there)
    | inr new ↦ rw (new, same) refl
  ]
  | inr differ ↦ elim (Bool-cases (member y (unique ys))) [
    | inl there ↦ rw there (unique-member x ys (rw differ at h))
    | inr new ↦ rw (new, differ) (unique-member x ys (rw differ at h))
  ]
]

-- A test on every member does not see the order.
insert_by-member :
    (x y : String) (ys : List String) → member x (insert_by (λ z. z) y ys) ≡ (y == x || member x ys)
insert_by-member x y [] = refl
insert_by-member x y (z ∷ zs) = ground (arith, insert_by-member x y zs)

order_by-member : (x : String) (xs : List String) → member x (order_by (λ z. z) xs) ≡ member x xs
order_by-member x [] = refl
order_by-member x (y ∷ ys) =
    insert_by-member x y (order_by (λ z. z) ys) ∙ ap (λ b. y == x || b) (order_by-member x ys)

-- A control that a case of the list declares is among the controls.
pub declared_controls-member :
    (x : String) (before : List CaseInfo) (c : CaseInfo) (after : List CaseInfo)
    → member x c.negative_controls ≡ true
    → member x (declared_controls (before ++ c ∷ after)) ≡ true
unfolding declared_controls
declared_controls-member x before c after h =
    order_by-member x (unique (concat_controls (before ++ c ∷ after)))
    ∙ unique-member x _ (concat_controls-member x before c after h)

pub member-split :
    (x : String) (xs : List String)
    → member x xs ≡ true
    → (before : List String) × (after : List String) × (xs ≡ before ++ x ∷ after)
member-split x [] h = cc
member-split x (y ∷ ys) h = elim (Bool-cases (y == x)) [
  | inl same ↦ ([], ys, ap (λ z. z ∷ ys) (eq_of_test y x same))
  | inr differ ↦
      let (before, after, e) = member-split x ys (rw differ at h) in
      (y ∷ before, after, ap (λ zs. y ∷ zs) e)
]

pub same_of_ok : {A : Type 0} {a b : A} → ◌≡◌ {A = Outcome A} (ok a) (ok b) → a ≡ b
same_of_ok h = cc

-- The controls of a plan that passes, and the refusal of the corrected reference as one of them.
pub check_plan-names :
    (plan : Plan) (names : List String)
    → check_plan plan ≡ ok names
    → ("corrected" ∷ declared_controls plan.cases ≡ names)
      × (member "corrected" (declared_controls plan.cases) ≡ false)
unfolding check_plan
check_plan-names plan names h = (ground arith, ground arith)

pub expectation_of-declared :
    (c : CaseInfo) (x : String)
    → member x c.negative_controls ≡ true
    → (x == "corrected") ≡ false
    → expectation_of c x ≡ some expects_fail
unfolding expectation_of
expectation_of-declared c x h differ = rw (differ, h) refl

-- What the matrix that `execute_matrix` returns ran with, for a control that a case declares.
pub record IsRun (plan : Plan) (c : CaseInfo) (control : String) (run : List String → List Cell)
    (cells : List Cell) : Type 0 where
  pub names : List String
  pub cells_of : cells ≡ run names
  pub before : List String
  pub after : List String
  pub split : names ≡ before ++ control ∷ after
  pub expected : expectation_of c control ≡ some expects_fail

not_corrected :
    (x : String) (xs : List String)
    → member x xs ≡ true
    → member "corrected" xs ≡ false
    → (x == "corrected") ≡ false
not_corrected x xs h k = elim (Bool-cases (x == "corrected")) [
  | inl same ↦ cc (ap (λ z. member z xs) (eq_of_test x "corrected" same), h, k)
  | inr differ ↦ differ
]

module _ (content_hash : CaseInfo → String) (is_valid : Report → Bool)
    (runner : CaseInfo → String → ℕ → ℕ → Option Report) where
  pub execute_matrix-IsRun :
      (plan : Plan) (cells : List Cell) (reports : List Report) (before : List CaseInfo)
      (c : CaseInfo) (after : List CaseInfo) (control : String)
      → execute_matrix content_hash is_valid runner plan ≡ ok (cells, reports)
      → plan.cases ≡ before ++ c ∷ after
      → member control c.negative_controls ≡ true
      → IsRun plan c control (λ names. (run_matrix content_hash is_valid runner plan names).0) cells
  unfolding execute_matrix
  execute_matrix-IsRun plan cells reports before c after control run cases declared =
      let (names, checked, ran) = >>=-eq-ok (check_plan plan) _ run in
      let (all_names, corrected) = check_plan-names plan names checked in
      let there : member control (declared_controls plan.cases) ≡ true =
        ap (λ cs. member control (declared_controls cs)) cases
        ∙ declared_controls-member control before c after declared in
      let (first, rest, split) = member-split control (declared_controls plan.cases) there in
      record {
        names = names;
        cells_of = sym (ap (λ x. x.0) (same_of_ok ran));
        before = "corrected" ∷ first;
        after = rest;
        split = sym all_names ∙ ap (λ xs. "corrected" ∷ xs) split;
        expected =
            expectation_of-declared c control declared
              (not_corrected control (declared_controls plan.cases) there corrected);
      }
