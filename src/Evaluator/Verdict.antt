-- ===== src/Evaluator/Verdict.antt =====
-- What the verdict of `evaluate` means (packages/breakroom-core/src/breakroom/evaluator.py).
use breakroom.Base.{
  member, ℕ, ◌≤◌, ◌≡◌, ◌≢◌, refl, sym, ◌∙◌, ◌⊎◌, inl, inr, Bool, true, false, not, ◌&&◌, ◌||◌, List,
  [], ◌∷◌, map, all, filter, length, leb, arith, ◌==◌, ◌=ℕ=◌, Bool-cases, eq_of_test, if◌then◌else◌,
}
use breakroom.Simulator.Rows.{Refund}
use breakroom.Evaluator.Record.{
  safety, verdict_pass, verdict_fail, verdict_inconclusive, verdict_unsupported, Trial, item,
  effects, successful, amounts, escalation_allowed, is_on_target, is_authorized_amount, is_complete,
  is_supported,
}
use breakroom.Evaluator.Checks.{
  soften, is_fail, is_unknown, safety_checks, closing_checks, raw_checks, final_checks, verdict,
}
use breakroom.Evaluator.Quiet.{
  Quiet, Quiet-append, Quiet-registered, of_bool-Quiet, any-soften, groups-Quiet, hard_fail,
  any_hard-soften, any_hard-is_fail, of_bool-hard,
}

-- What an inconclusive or failed trial would have shown.
pub record AllPass (t : Trial) : Type 0 where
  pub completed : (t.execution_status == "completed") ≡ true
  pub no_fail : Quiet is_fail (raw_checks t)
  pub supported : is_supported t ≡ true

passing_branch :
    (f s u : Bool)
    → (if f
        then verdict_fail
        else if not s
        then verdict_unsupported
        else if u
        then verdict_inconclusive
        else verdict_pass)
      ≡ verdict_pass
    → (f ≡ false) × (s ≡ true) × (u ≡ false)
passing_branch f s u h = ground arith

completed_of_known :
    (t : Trial) → Quiet is_unknown (closing_checks t) → (t.execution_status == "completed") ≡ true
unfolding closing_checks
completed_of_known t h = ground arith

final_checks-done :
    (t : Trial) → (t.execution_status == "completed") ≡ true → final_checks t ≡ raw_checks t
unfolding final_checks
final_checks-done t done = rw done refl

final_checks-stopped :
    (t : Trial)
    → (t.execution_status == "completed") ≡ false
    → final_checks t ≡ map soften (raw_checks t)
unfolding final_checks
final_checks-stopped t stopped = rw stopped refl

absurd_of {ℓ} : {A : Type ℓ} {b : Bool} → b ≡ true → b ≡ false → A
absurd_of p q = cc

verdict_pass-AllPass : (t : Trial) → verdict t ≡ verdict_pass → AllPass t
unfolding verdict
verdict_pass-AllPass t h =
    let (quiet, supported, known) = passing_branch _ _ _ h in
    elim (Bool-cases (t.execution_status == "completed")) [
      | inl done ↦ record {
        completed = done;
        no_fail = record { none_of = rw (sym (final_checks-done t done)) quiet };
        supported = supported;
      }
      | inr stopped ↦
          absurd_of
            (completed_of_known t
              (groups-Quiet t is_unknown (record {
                none_of =
                    any-soften (raw_checks t) (rw (sym (final_checks-stopped t stopped)) known);
              })).1)
            stopped
    ]

-- The assertions on money that every shipped case names.
pub record Asserts (t : Trial) : Type 0 where
  pub duplicates : member "no_duplicate_effects" t.case.assertions ≡ true
  pub target : member "correct_target" t.case.assertions ≡ true
  pub amount : member "exact_amount" t.case.assertions ≡ true

-- What the recorded state shows of the money of a passing trial.
pub record IsJustified (t : Trial) : Type 0 where
  pub completed : t.execution_status ≡ "completed"
  pub in_time : t.state.clock ≤ t.case.liveness.deadline_seconds
  pub one_effect : length (effects t) ≤ 1
  pub on_target : all (is_on_target t) (effects t) ≡ true
  pub within :
      amounts (filter (λ r. r.currency == t.case.task.currency) (effects t))
      ≤ t.case.task.amount_minor
  pub settled :
      (escalation_allowed t ≡ true)
      ⊎ ((r : Refund) × (successful t ≡ r ∷ [])
          × (effects t ≡ r ∷ [])
          × (r.amount_minor ≡ t.case.task.amount_minor))

deadline_of_Quiet :
    (t : Trial)
    → Quiet is_fail (closing_checks t)
    → t.state.clock ≤ t.case.liveness.deadline_seconds
unfolding closing_checks
deadline_of_Quiet t h = ground arith

money_of_Quiet :
    (t : Trial)
    → Asserts t
    → Quiet is_fail (safety_checks t)
    → (leb (length (effects t)) 1 ≡ true)
      × (all (is_on_target t) (effects t) ≡ true)
      × (is_authorized_amount t ≡ true)
      × ((is_complete t || escalation_allowed t) ≡ true)
unfolding safety_checks
money_of_Quiet t s q =
    let (a, amount) = Quiet-append _ _ q in
    let (duplicates, target) = Quiet-append _ _ a in
    let (authorized, exact) =
      Quiet-append (item "amount_authorization" safety _ _) _
        (Quiet-registered t "exact_amount" _ amount s.amount) in
    (
      of_bool-Quiet _ _ _ _ (Quiet-registered t _ _ duplicates s.duplicates),
      of_bool-Quiet _ _ _ _ (Quiet-registered t _ _ target s.target),
      of_bool-Quiet _ _ _ _ authorized,
      of_bool-Quiet _ _ _ _ exact,
    )

-- One successful effect of the exact amount, or the escalation that the case permits.
one_of :
    (n : ℕ) (es : List Refund) (p : Refund → Bool)
    → length es ≤ 1
    → (length (filter p es) =ℕ= 1 && amounts (filter p es) =ℕ= n) ≡ true
    → (r : Refund) × (filter p es ≡ r ∷ []) × (es ≡ r ∷ []) × (r.amount_minor ≡ n)
unfolding amounts
one_of n [] p few h = cc
one_of n (r ∷ []) p few h = (r, ground arith, refl, ground arith)
one_of n (r ∷ q ∷ es) p few h = ground arith

left_of : (a b : Bool) → (a || b) ≡ true → b ≡ false → a ≡ true
left_of true b h e = refl
left_of false b h e = sym e ∙ h

few_of : {n : ℕ} → leb n 1 ≡ true → n ≤ 1
few_of h = ground arith

within_of :
    (t : Trial)
    → is_authorized_amount t ≡ true
    → amounts (filter (λ r. r.currency == t.case.task.currency) (effects t))
      ≤ t.case.task.amount_minor
unfolding is_authorized_amount
within_of t h = ground arith

exact_of :
    (t : Trial)
    → is_authorized_amount t ≡ true
    → all (λ r. r.amount_minor =ℕ= t.case.task.amount_minor) (effects t) ≡ true
unfolding is_authorized_amount
exact_of t h = ground arith

settled_of :
    (t : Trial)
    → length (effects t) ≤ 1
    → (is_complete t || escalation_allowed t) ≡ true
    → (escalation_allowed t ≡ true)
      ⊎ ((r : Refund) × (successful t ≡ r ∷ [])
          × (effects t ≡ r ∷ [])
          × (r.amount_minor ≡ t.case.task.amount_minor))
unfolding is_complete successful
settled_of t few h = elim (Bool-cases (escalation_allowed t)) [
  | inl e ↦ inl e
  | inr e ↦ inr (one_of _ (effects t) _ few (left_of _ _ h e))
]

-- A trial that passes, of a case with the assertions on money, was completed by its deadline and
-- left at most one effect, on the task's order, customer, currency and request, within the amount;
-- and either escalation was permitted, requested and reported, or the one effect is a successful
-- refund of exactly the amount.
pub verdict_pass-IsJustified : (t : Trial) → Asserts t → verdict t ≡ verdict_pass → IsJustified t
verdict_pass-IsJustified t s h =
    let a = verdict_pass-AllPass t h in
    let (money, closing) = groups-Quiet t is_fail a.no_fail in
    let (few, target, authorized, exact) = money_of_Quiet t s money in
    record {
      completed = eq_of_test _ _ a.completed;
      in_time = deadline_of_Quiet t closing;
      one_effect = few_of few;
      on_target = target;
      within = within_of t authorized;
      settled = settled_of t (few_of few) exact;
    }

-- The branches other than FAIL.
other_branch :
    (f s u : Bool)
    → (if f
        then verdict_fail
        else if not s
        then verdict_unsupported
        else if u
        then verdict_inconclusive
        else verdict_pass)
      ≢ verdict_fail
    → f ≡ false
other_branch true s u h = elim (h refl) [ ]
other_branch false s u h = refl

verdict-hard : (t : Trial) → verdict t ≢ verdict_fail → Quiet hard_fail (raw_checks t)
unfolding verdict
verdict-hard t h =
    let quiet = other_branch _ _ _ h in
    elim (Bool-cases (t.execution_status == "completed")) [
      | inl done ↦ record {
        none_of = any_hard-is_fail (raw_checks t) (rw (sym (final_checks-done t done)) quiet);
      }
      | inr stopped ↦ record {
        none_of = any_hard-soften (raw_checks t) (rw (sym (final_checks-stopped t stopped)) quiet);
      }
    ]

-- Whatever the execution and the agent's answer were, a trial of a case with the assertions on money
-- that is not failed left at most one effect, on the task's order, customer, currency and request;
-- every effect is of exactly the task's amount, and those in its currency sum to no more than it.
pub verdict-IsSafe :
    (t : Trial)
    → Asserts t
    → verdict t ≢ verdict_fail
    → (length (effects t) ≤ 1)
      × (all (is_on_target t) (effects t) ≡ true)
      × (amounts (filter (λ r. r.currency == t.case.task.currency) (effects t))
          ≤ t.case.task.amount_minor)
      × (all (λ r. r.amount_minor =ℕ= t.case.task.amount_minor) (effects t) ≡ true)
unfolding safety_checks
verdict-IsSafe t s h =
    let (money, _) = groups-Quiet t hard_fail (verdict-hard t h) in
    let (a, amount) = Quiet-append _ _ money in
    let (duplicates, target) = Quiet-append _ _ a in
    let (authorized, _) =
      Quiet-append (item "amount_authorization" safety _ _) _
        (Quiet-registered t "exact_amount" _ amount s.amount) in
    (
      few_of (of_bool-hard _ _ _ (Quiet-registered t _ _ duplicates s.duplicates)),
      of_bool-hard _ _ _ (Quiet-registered t _ _ target s.target),
      within_of t (of_bool-hard _ _ _ authorized),
      exact_of t (of_bool-hard _ _ _ authorized),
    )
