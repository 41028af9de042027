-- ===== src/Simulator/Calls.antt =====
-- The calls of the tool facade (class SupportTools, packages/breakroom-core/src/breakroom/models.py),
-- what the fake services answer, and the rows of the event log
-- (packages/breakroom-core/src/breakroom/simulator.py).
use breakroom.Base.{ℕ, String, ℤ, Bool, Option, List}
use breakroom.Simulator.Rows.{
  Customer, Order, Refund, RefundStatus, TicketView, Value, Notification,
}

pub record RefundArguments : Type 0 where
  pub order_id : String
  pub amount_minor : Value
  pub currency : String
  pub operation_key : Value
  pub logical_request_id : Value
  pub customer_id : Option String

-- One constructor for each method of `SupportTools`; `dispatch` can be handed any other name too.
pub data Call : Type 0 where
  find_customers : (query : String) → Call
  get_customer : (customer_id : String) → Call
  get_order : (order_id : String) → Call
  list_refunds : (order_id : String) → (logical_request_id : Option String) → Call
  create_refund : RefundArguments → Call
  get_refund : (refund_id : String) → Call
  get_ticket : (ticket_id : String) → Call
  append_note :
      (ticket_id : String)
      → (text : Value) → (operation_id : Value) → (expected_version : Option ℕ) → Call
  update_ticket :
      (ticket_id : String)
      → (status : String) → (operation_id : Value) → (expected_version : Option ℕ) → Call
  escalate : (ticket_id : Option String) → (reason : String) → (operation_id : String) → Call
  receive_events : (limit : Value) → Call
  ack_event : (event_id : String) → (consumer_operation_id : String) → Call
  other_tool : (tool : String) → Call

unfoldable pub tool_name : Call → String
tool_name (find_customers _) = "find_customers"
tool_name (get_customer _) = "get_customer"
tool_name (get_order _) = "get_order"
tool_name (list_refunds _ _) = "list_refunds"
tool_name (create_refund _) = "create_refund"
tool_name (get_refund _) = "get_refund"
tool_name (get_ticket _) = "get_ticket"
tool_name (append_note _ _ _ _) = "append_note"
tool_name (update_ticket _ _ _ _) = "update_ticket"
tool_name (escalate _ _ _) = "escalate"
tool_name (receive_events _) = "receive_events"
tool_name (ack_event _ _) = "ack_event"
tool_name (other_tool tool) = tool

-- A customer with the identifiers of its orders.
pub record CustomerView : Type 0 where
  pub customer : Customer
  pub order_ids : List String

pub record Delivery : Type 0 where
  pub payload : Notification
  pub delivery_id : ℕ

pub data Response : Type 0 where
  customers : List CustomerView → Response
  customer : Customer → Response
  order : Order → (remaining_minor : ℤ) → Response
  refunds : List Refund → Response
  refund : Refund → Response
  ticket : TicketView → Response
  escalated : (ticket_id : Option String) → (operation_id : String) → Response
  events : List Delivery → Response
  acknowledged : (event_id : String) → Response
  -- `{"items": []}`
  no_items : Response
  -- a response without its `id` and `status`
  incomplete : Response → Response

-- The kind of an event with its data.
pub data EventData : Type 0 where
  clock_advanced : (seconds : ℕ) → EventData
  refund_transition : Refund → Option RefundStatus → EventData
  event_delivered : (event_id refund_id : String) → Option RefundStatus → EventData
  event_queued : Notification → EventData
  fault_triggered : (fault_id phase action : String) → (invocation : ℕ) → EventData
  tool_call : (invocation : ℕ) → Call → EventData
  tool_response : (invocation : ℕ) → Response → EventData
  tool_error : (invocation : ℕ) → (code : String) → (retry_after : ℕ) → EventData
  barrier_arrived : EventData
  rate_limited : (retry_at : ℕ) → EventData
  stale_read : (visible_after : ℕ) → EventData
  hidden_response : EventData
  currency_observed : (currency : String) → EventData
  ticket_mismatch_observed : (ticket_id : String) → EventData
  permission_revoked : (operation : String) → EventData
  system_ticket_edit : TicketView → EventData
  escalation_requested : (ticket_id : Option String) → (reason operation_id : String) → EventData
  event_received : Delivery → EventData
  event_acknowledged : (event_id consumer_operation_id : String) → EventData
  idempotency_reused : (operation_key refund_id : String) → EventData
  refund_committed : Refund → (permission_allowed : Bool) → EventData
  ticket_committed : TicketView → (operation_id : String) → (permission_allowed : Bool) → EventData
  adapter_capabilities : List String → EventData
  concurrency_barrier_registered : (handlers : ℕ) → EventData
  invocation_started : (handler_id request_id : String) → EventData
  invocation_returned : (handler_id request_id : String) → (returned_at : ℕ) → EventData

pub record Handler : Type 0 where
  pub handler_id : String
  pub request_id : String

pub record Event : Type 0 where
  pub seq : ℕ
  pub at : ℕ
  pub tool : Option String
  pub payload : EventData
  pub handler : Option Handler
