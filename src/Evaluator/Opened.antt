-- ===== src/Evaluator/Opened.antt =====
-- One name that opens every definition of the evaluator, for runs on concrete trials.
use breakroom.Simulator.Dispatch.{evidence_ref}
use breakroom.Simulator.Queries.{find_refund, find_order}
use breakroom.Evaluator.Fields.{
  get, has, equal, status_name, refund_fields, response_fields, evidence_records,
}
use breakroom.Evaluator.Claims.{
  claim_kind, response_of, cited, refund_against_state, refund_against_response, ticket_claim,
  escalation_claim, check_claim, check_each, claim_checks,
}
use breakroom.Evaluator.Record.{
  amounts, effects, successful, escalation_allowed, is_on_target, is_authorized_amount, is_complete,
  are_writes_authorized, is_ticket_consistent, note_operations, is_supported,
}
use breakroom.Evaluator.Checks.{
  soften, safety_checks, record_checks, evidence_checks, liveness_checks, closing_checks,
  raw_checks, final_checks, verdict,
}

unfoldable pub evaluated : Unit {0}
unfolding evidence_ref find_refund find_order get has equal status_name refund_fields
    response_fields evidence_records claim_kind response_of cited refund_against_state
    refund_against_response ticket_claim escalation_claim check_claim check_each claim_checks
    amounts effects successful escalation_allowed is_on_target is_authorized_amount is_complete
    are_writes_authorized is_ticket_consistent note_operations is_supported soften safety_checks
    record_checks evidence_checks liveness_checks closing_checks raw_checks final_checks verdict
evaluated = tt
