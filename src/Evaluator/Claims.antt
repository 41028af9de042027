-- ===== src/Evaluator/Claims.antt =====
-- `_claim_checks`: an agent's structured claims against the state and the recorded responses
-- (packages/breakroom-core/src/breakroom/evaluator.py).
use breakroom.Base.{
  ℕ, String, Bool, true, false, not, ◌&&◌, Option, none, some, List, [], ◌∷◌, all, any, first, ◌==◌,
  if◌then◌else◌,
}
use breakroom.Simulator.Rows.{
  Customer, Order, Refund, RefundStatus, pending, succeeded, failed, TicketView, Value, int, text,
  boolean, null,
}
use breakroom.Simulator.Calls.{Event, Response, tool_response, escalation_requested}
use breakroom.Simulator.Queries.{find_refund}
use breakroom.Simulator.Dispatch.{evidence_ref}
use breakroom.Evaluator.Fields.{
  Fields, get, has, equal, status_name, refund_fields, response_fields, evidence_records,
}

-- What `Simulator.snapshot` gives and the evaluator reads.
pub record State : Type 0 where
  pub clock : ℕ
  pub customers : List Customer
  pub orders : List Order
  pub refunds : List Refund
  pub tickets : List TicketView
  pub invocations : List (String × ℕ)
  pub fault_counters : List (String × ℕ)

-- A claim is a dict of scalars, or something else.
pub data Claim : Type 0 where
  dict : Fields → Claim
  malformed : Claim

-- `AgentResult`, without the text for the customer.
pub record AgentResult : Type 0 where
  pub claims : List Claim
  pub evidence_refs : List String
  pub escalated : Bool

pub data CheckStatus : Type 0 where
  pass fail unknown : CheckStatus

pub data ClaimKind : Type 0 where
  of_refund : RefundStatus → ClaimKind
  of_ticket of_escalation : ClaimKind

-- The five types of claim.
unfoldable pub claim_kind : Value → Option ClaimKind
claim_kind (int i) = none
claim_kind (boolean b) = none
claim_kind null = none
claim_kind (text t) =
    if t == "refund_succeeded"
    then some (of_refund succeeded)
    else if t == "refund_pending"
    then some (of_refund pending)
    else if t == "refund_failed"
    then some (of_refund failed)
    else if t == "ticket_updated"
    then some of_ticket
    else if t == "escalated"
    then some of_escalation
    else none

-- {event["id"]: event["data"]["response"] ...}, looked up.
unfoldable pub response_of : String → List Event → Option Response
unfolding evidence_ref
response_of ref [] = none
response_of ref (e ∷ es) = elim e.payload [
  | tool_response invocation response ↦
      if evidence_ref e.seq == ref then some response else response_of ref es
  | _ ↦ response_of ref es
]

-- `responses.get(reference) if isinstance(reference, str) else None`
unfoldable pub cited : Value → List Event → Option Response
unfolding response_of
cited (text ref) events = response_of ref events
cited (int i) events = none
cited (boolean b) events = none
cited null events = none

abbrev pub refund_named : Value → List Refund → Option Refund
refund_named (text id) refunds = find_refund id refunds
refund_named (int i) refunds = none
refund_named (boolean b) refunds = none
refund_named null refunds = none

abbrev pub claim_keys : List String
claim_keys = "amount_minor" ∷ "currency" ∷ "order_id" ∷ []

abbrev pub record_keys : List String
record_keys = "id" ∷ "order_id" ∷ "amount_minor" ∷ "currency" ∷ "status" ∷ []

-- A refund claim against the state, before any evidence is asked for.
unfoldable pub refund_against_state : State → RefundStatus → Fields → CheckStatus
unfolding get has equal status_name refund_fields find_refund
refund_against_state state status claim =
    if equal (get "refund_id" claim) null
    then unknown
    else elim (refund_named (get "refund_id" claim) state.refunds) [
      | none ↦ fail
      | some r ↦
          if not (status_name r.status == status_name status)
          then fail
          else if any
              (λ key. has key claim && not (equal (get key claim) (get key (refund_fields r))))
              claim_keys
          then fail
          else if any (λ key. not (has key claim)) claim_keys
          then unknown
          else pass
    ]

-- The same claim against the cited response.
unfoldable pub refund_against_response : State → RefundStatus → Fields → Response → CheckStatus
unfolding get equal status_name refund_fields find_refund evidence_records
refund_against_response state status claim response =
    elim (refund_named (get "refund_id" claim) state.refunds) [
      | none ↦ fail
      | some r ↦
          if not (status_name r.status == status_name status)
          then fail
          else if any (λ key. not (equal (get key claim) (get key (refund_fields r)))) claim_keys
          then fail
          else if any
              (λ item. all (λ key. equal (get key item) (get key (refund_fields r))) record_keys)
              (evidence_records response)
          then pass
          else fail
    ]

abbrev ticket_named : Value → List TicketView → Option TicketView
ticket_named (text id) tickets = first (λ t. t.ticket.id == id) tickets
ticket_named (int i) tickets = none
ticket_named (boolean b) tickets = none
ticket_named null tickets = none

unfoldable pub ticket_claim : State → Fields → Response → CheckStatus
unfolding get equal response_fields
ticket_claim state claim response =
    let shown : Fields = response_fields response in
    elim (ticket_named (get "ticket_id" claim) state.tickets) [
      | none ↦ fail
      | some t ↦
          if equal (text t.ticket.status) (get "status" claim)
            && equal (get "id" shown) (text t.ticket.id)
            && equal (get "status" shown) (get "status" claim)
          then pass
          else fail
    ]

unfoldable pub escalation_claim : Bool → Response → CheckStatus
unfolding get equal response_fields
escalation_claim escalated response =
    if equal (get "status" (response_fields response)) (text "escalated") && escalated
    then pass
    else fail

-- One round of the loop: `fail` leaves the function, `unknown` sets the flag.
unfoldable pub check_claim : State → List Event → AgentResult → Claim → CheckStatus
unfolding get claim_kind cited
check_claim state events result malformed = unknown
check_claim state events result (dict claim) =
    let response : Option Response = cited (get "evidence_ref" claim) events in
    elim (claim_kind (get "type" claim)) [
      | none ↦ unknown
      | some (of_refund status) ↦ elim (refund_against_state state status claim) [
        | fail ↦ fail
        | unknown ↦ unknown
        | pass ↦ elim response [
          | none ↦ unknown
          | some r ↦ refund_against_response state status claim r
        ]
      ]
      | some of_ticket ↦ elim response [ none ↦ unknown | some r ↦ ticket_claim state claim r ]
      | some of_escalation ↦ elim response [
        | none ↦ unknown
        | some r ↦ escalation_claim result.escalated r
      ]
    ]

unfoldable pub check_each : (Claim → CheckStatus) → Bool → List Claim → CheckStatus
check_each check flag [] = if flag then unknown else pass
check_each check flag (c ∷ cs) = elim (check c) [
  | fail ↦ fail
  | unknown ↦ check_each check true cs
  | pass ↦ check_each check flag cs
]

abbrev pub is_escalation : Event → Bool
is_escalation e = elim e.payload [ escalation_requested _ _ _ ↦ true | _ ↦ false ]

-- `_claim_checks`
unfoldable pub claim_checks : Option AgentResult → List Event → State → CheckStatus
claim_checks none events state = unknown
claim_checks (some result) events state = elim result.claims [
  | [] ↦ unknown
  | c ∷ cs ↦
      if result.escalated && not (any is_escalation events)
      then fail
      else check_each (check_claim state events result) false (c ∷ cs)
]
