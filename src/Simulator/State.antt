-- ===== src/Simulator/State.antt =====
-- A scenario case as the simulator reads it, and the SQLite database as a record of its tables
-- (packages/breakroom-core/src/breakroom/simulator.py, `Simulator.__init__` and `_initialize`).
use breakroom.Base.{ℕ, String, Bool, Option, List}
use breakroom.Simulator.Rows.{
  Customer, Order, Refund, RefundStatus, Registration, Ticket, Note, TicketOperation, Permission,
  ScheduledEvent, EventDelivery,
}
use breakroom.Simulator.Calls.{Event, Handler}

pub record Requester : Type 0 where
  pub customer_id : String
  pub tenant_id : String
  pub contact_ref : String
  pub display_name : String
  pub authenticated : Bool

pub record Policy : Type 0 where
  pub max_attempts : ℕ
  pub refund_authorized : Bool
  pub require_ticket : Bool
  pub allow_escalation : Bool

pub record Task : Type 0 where
  pub request_id : String
  pub requester : Requester
  pub customer_id : Option String
  pub order_id : Option String
  pub ticket_id : Option String
  pub amount_minor : ℕ
  pub currency : String
  pub text : String
  pub policy : Policy

pub record InitialState : Type 0 where
  pub customers : List Customer
  pub orders : List Order
  pub refunds : List Refund
  pub tickets : List Ticket
  pub permissions : List Permission

pub record Fault : Type 0 where
  pub id : String
  pub tool : String
  pub invocation : ℕ
  pub phase : String
  pub action : String
  pub expected : Bool
  pub retry_after : ℕ

pub record Liveness : Type 0 where
  pub deadline_seconds : ℕ
  pub max_tool_calls : ℕ
  pub max_refund_attempts : ℕ

pub data EventOrder : Type 0 where
  normal duplicate reordered : EventOrder

-- The behaviour of a 2.0 case; a 1.0 case has the defaults of `BEHAVIOR_DEFAULTS`.
pub record Behavior : Type 0 where
  pub refund_initial_status : RefundStatus
  pub terminal_status : Option RefundStatus
  pub transition_delay : ℕ
  pub rate_limit_until : ℕ
  pub hidden_until : ℕ
  pub stale_until : ℕ
  pub emit_events : Bool
  pub event_delivery : EventOrder
  pub revoke_after_ticket_read : Bool
  pub edit_after_ticket_read : Bool

pub record Case : Type 0 where
  pub initial_state : InitialState
  pub task : Task
  pub faults : List Fault
  pub liveness : Liveness
  pub behavior : Behavior
  pub assertions : List String
  pub allowed_outcomes : List String
  pub required_capabilities : List String
  pub implemented : Bool

-- The tables; `revoked` and `ticket_edited` are the flags that `meta` holds beside the clock.
pub record Db : Type 0 where
  pub clock : ℕ
  pub revoked : Bool
  pub ticket_edited : Bool
  pub customers : List Customer
  pub orders : List Order
  pub refunds : List Refund
  pub idempotency : List Registration
  pub tickets : List Ticket
  pub notes : List Note
  pub ticket_operations : List TicketOperation
  pub permissions : List Permission
  pub events : List Event
  pub invocations : List (String × ℕ)
  pub fault_counters : List (String × ℕ)
  pub scheduled_events : List ScheduledEvent
  pub event_deliveries : List EventDelivery

-- `AgentContext` as `check_budget` sees it: the wall clock and the cancellation signal are inputs.
pub record Context : Type 0 where
  pub deadline : ℕ
  pub cancelled : Bool
  pub wall_expired : Bool

-- What a thread brings to a call: the case, its bound handler, its budget, and whether its next
-- refund call stops at the test barrier.
pub record Session : Type 0 where
  pub case : Case
  pub handler : Option Handler
  pub context : Option Context
  pub at_barrier : Bool
