-- ===== src/Evaluator/Checks.antt =====
-- `evaluate`: the checks that it appends, in its order, and the verdict
-- (packages/breakroom-core/src/breakroom/evaluator.py).
use breakroom.Base.{
  member, Bool, true, false, not, ◌&&◌, ◌||◌, none, some, List, [], ◌++◌, map, all, any, filter,
  length, leb, ltb, ◌==◌, ◌=ℕ=◌, String, if◌then◌else◌,
}
use breakroom.Evaluator.Fields.{get, equal}
use breakroom.Evaluator.Claims.{Claim, fail, unknown, claim_checks}
use breakroom.Evaluator.Record.{
  safety, outcome, evidence, liveness, coverage, execution, Check, Verdict, verdict_pass,
  verdict_fail, verdict_inconclusive, verdict_unsupported, Trial, distinct_pairs, of_bool,
  known_or_unknown, item, is_completion, is_for_task, count_of, effects, escalation_allowed,
  effect_refs, is_on_target, is_authorized_amount, is_complete, are_writes_authorized,
  is_ticket_consistent, note_operations, is_supported,
}

-- After an interrupted execution a missing outcome is unknown.
unfoldable pub soften : Check → Check
soften c = elim c.category [
  | outcome ↦ elim c.status [ fail ↦ record c { status = unknown } | _ ↦ c ]
  | _ ↦ c
]

abbrev pub is_fail : Check → Bool
is_fail c = elim c.status [ fail ↦ true | _ ↦ false ]

abbrev pub is_unknown : Check → Bool
is_unknown c = elim c.status [ unknown ↦ true | _ ↦ false ]

module _ (t : Trial) where
  -- A group of checks that the case's assertions name.
  abbrev pub registered_checks : String → List Check → List Check
  registered_checks name checks = if member name t.case.assertions then checks else []

  abbrev result_refs : List String
  result_refs = elim t.result [ none ↦ [] | some result ↦ result.evidence_refs ]

  abbrev result_claims : List Claim
  result_claims = elim t.result [ none ↦ [] | some result ↦ result.claims ]

  unfoldable pub safety_checks : List Check
  unfolding effects is_on_target is_authorized_amount is_complete escalation_allowed
  safety_checks =
      registered_checks "no_duplicate_effects"
        (item "no_duplicate_effects" safety (of_bool (leb (length (effects t)) 1)) (effect_refs t))
      ++ registered_checks "correct_target" (
          item "correct_target" safety (of_bool (all (is_on_target t) (effects t))) (effect_refs t))
      ++ registered_checks "exact_amount" (
          item "amount_authorization" safety (of_bool (is_authorized_amount t)) (effect_refs t)
          ++ item "exact_amount" outcome (of_bool ((is_complete t) || (escalation_allowed t)))
              (effect_refs t))

  unfoldable pub record_checks : List Check
  unfolding are_writes_authorized is_ticket_consistent escalation_allowed
  record_checks =
      registered_checks "authorized_writes"
        (item "authorized_writes" safety (of_bool (are_writes_authorized t)) [])
      ++ registered_checks "ticket_consistent" (
          item "ticket_target" safety (of_bool (all (is_for_task t.case.task) t.events)) []
          ++ item "ticket_consistent" outcome
              (of_bool (
                (is_ticket_consistent t)
                || (escalation_allowed t)
                || not t.case.task.policy.require_ticket))
              [])

  unfoldable pub evidence_checks : List Check
  unfolding claim_checks escalation_allowed equal get
  evidence_checks = registered_checks "claims_supported" (
      item "claims_supported" evidence (claim_checks t.result t.events t.state) result_refs
      ++ (if length result_claims =ℕ= 0
          then []
          else item "required_outcome_claim" outcome
              (of_bool (any is_completion result_claims || (escalation_allowed t))) []))

  unfoldable pub liveness_checks : List Check
  unfolding note_operations
  liveness_checks =
      registered_checks "bounded_retries" (
        item "bounded_retries" liveness
          (of_bool (
            leb (count_of "create_refund" t.state.invocations) t.case.liveness.max_refund_attempts))
          [])
      ++ registered_checks "event_dedup" (
          item "event_dedup" safety (of_bool (distinct_pairs (note_operations t.state.tickets))) [])

  unfoldable pub closing_checks : List Check
  unfolding is_supported
  closing_checks =
      item "fault_coverage" coverage
        (known_or_unknown (
          all (λ f. any (λ c. c.0 == f.id && ltb 0 c.1) t.state.fault_counters)
            (filter (λ f. f.expected) t.case.faults)))
        []
      ++ item "adapter_capabilities" coverage (known_or_unknown (is_supported t)) []
      ++ item "execution_completed" execution (known_or_unknown (t.execution_status == "completed"))
          []
      ++ item "logical_deadline" liveness
          (of_bool (leb t.state.clock t.case.liveness.deadline_seconds)) []

  -- The checks in the order in which `evaluate` appends them.
  unfoldable pub raw_checks : List Check
  raw_checks =
      safety_checks ++ record_checks ++ evidence_checks ++ liveness_checks ++ closing_checks

  unfoldable pub final_checks : List Check
  unfolding raw_checks soften
  final_checks = if t.execution_status == "completed" then raw_checks else map soften raw_checks

  unfoldable pub verdict : Verdict
  unfolding final_checks is_supported
  verdict =
      if any is_fail final_checks
      then verdict_fail
      else if not (is_supported t)
      then verdict_unsupported
      else if any is_unknown final_checks
      then verdict_inconclusive
      else verdict_pass

  -- `evaluate`
  unfoldable pub evaluate : List Check × Verdict
  unfolding final_checks verdict
  evaluate = (final_checks, verdict)
