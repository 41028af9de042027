-- ===== src/Evaluator/Tests.antt =====
-- Verdicts on concrete trials (packages/breakroom-core/src/breakroom/evaluator.py).
use breakroom.Base.{
  inr, ◌=ℕ=◌, ◌≡◌, refl, pos, ◌≤◌, true, false, none, some, List, [], ◌∷◌, all, length, filter,
  String, ◌==◌,
}
use breakroom.Simulator.Rows.{Refund, succeeded, text, int}
use breakroom.Simulator.Calls.{Event, EventData, Response}
use breakroom.Simulator.State.{Case}
use breakroom.Simulator.Fixture.{fixture}
use breakroom.Evaluator.Fields.{Fields}
use breakroom.Evaluator.Claims.{State, AgentResult, dict, claim_checks, pass, fail}
use breakroom.Evaluator.Record.{
  Trial, verdict_pass, verdict_inconclusive, effects, is_on_target, amounts,
}
use breakroom.Evaluator.Checks.{verdict}
use breakroom.Evaluator.Verdict.{Asserts, IsJustified, verdict_pass-IsJustified, verdict-IsSafe}
use breakroom.Evaluator.Evidence.{IsEstablished, claim_checks-IsEstablished, claim_checks-fail}
use breakroom.Evaluator.Opened.{evaluated}

abbrev the_refund : Refund
the_refund = record {
  id = "rf_000001";
  order_id = "ord_1";
  amount_minor = 100000;
  currency = "INR";
  logical_request_id = "req_1";
  operation_key = "key_1";
  status = succeeded;
  created_at = 0;
}

abbrev case : Case
case = record fixture {
  assertions = "no_duplicate_effects" ∷ "correct_target" ∷ "exact_amount" ∷ "claims_supported" ∷ [];
}

abbrev state : State
state = record {
  clock = 4;
  customers = case.initial_state.customers;
  orders = case.initial_state.orders;
  refunds = the_refund ∷ [];
  tickets = [];
  invocations = ("create_refund", 1) ∷ [];
  fault_counters = ("lost_1", 1) ∷ [];
}

abbrev claim : Fields
claim =
    ("type", text "refund_succeeded")
    ∷ ("refund_id", text "rf_000001")
    ∷ ("amount_minor", int (pos 100000))
    ∷ ("currency", text "INR")
    ∷ ("order_id", text "ord_1")
    ∷ ("evidence_ref", text "evt_000001")
    ∷ []

-- The refund on record, with another amount.
abbrev misstated : Fields
misstated =
    ("type", text "refund_succeeded")
    ∷ ("refund_id", text "rf_000001")
    ∷ ("amount_minor", int (pos 7))
    ∷ []

abbrev answer : Fields → AgentResult
answer c = record { claims = dict c ∷ []; evidence_refs = []; escalated = false }

abbrev events : List Event
events =
    record {
      seq = 1;
      at = 0;
      tool = some "get_refund";
      payload = EventData.tool_response 1 (Response.refund the_refund);
      handler = none;
    }
    ∷ []

abbrev trial : String → Trial
trial status = record {
  case = case;
  state = state;
  events = events;
  result = some (answer claim);
  execution_status = status;
  capabilities = none;
}

passes : verdict (trial "completed") ≡ verdict_pass
unfolding evaluated
passes = refl

interrupted : verdict (trial "timed_out") ≡ verdict_inconclusive
unfolding evaluated
interrupted = refl

asserts : (status : String) → Asserts (trial status)
asserts status = record { duplicates = refl; target = refl; amount = refl }

verdict_pass-IsJustified_example : IsJustified (trial "completed")
verdict_pass-IsJustified_example =
    verdict_pass-IsJustified (trial "completed") (asserts "completed") passes

verdict-IsSafe_example :
    (length (effects (trial "timed_out")) ≤ 1)
    × (all (is_on_target (trial "timed_out")) (effects (trial "timed_out")) ≡ true)
    × (amounts (filter (λ r. r.currency == "INR") (effects (trial "timed_out"))) ≤ 100000)
    × (all (λ r. r.amount_minor =ℕ= 100000) (effects (trial "timed_out")) ≡ true)
unfolding evaluated
verdict-IsSafe_example = verdict-IsSafe (trial "timed_out") (asserts "timed_out") (λ h. cc)

claim_checks-fail_example : claim_checks (some (answer misstated)) events state ≡ fail
unfolding evaluated
claim_checks-fail_example =
    claim_checks-fail (answer misstated) events state [] misstated [] succeeded refl refl
      ("rf_000001", refl, inr (the_refund, refl, inr ("amount_minor", refl, refl, refl)))

claims_pass : claim_checks (some (answer claim)) events state ≡ pass
unfolding evaluated
claims_pass = refl

claim_checks-IsEstablished_example : IsEstablished state events succeeded claim
unfolding evaluated
claim_checks-IsEstablished_example =
    claim_checks-IsEstablished (answer claim) events state [] claim [] succeeded refl refl
      claims_pass
