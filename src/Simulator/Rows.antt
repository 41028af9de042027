-- ===== src/Simulator/Rows.antt =====
-- The rows of the tables that `Simulator._initialize` creates, and the values that Python calls
-- bring (packages/breakroom-core/src/breakroom/simulator.py). JSON columns hold the value itself.
use breakroom.Base.{ℕ, String, ℤ, Bool, Option, List}

pub record Customer : Type 0 where
  pub id : String
  pub display_name : String
  pub contact_ref : String
  pub tenant_id : String

pub record Order : Type 0 where
  pub id : String
  pub customer_id : String
  pub amount_minor : ℕ
  pub currency : String
  pub status : String

-- CHECK(status IN ('pending','succeeded','failed'))
pub data RefundStatus : Type 0 where
  pending succeeded failed : RefundStatus

pub record Refund : Type 0 where
  pub id : String
  pub order_id : String
  pub amount_minor : ℕ
  pub currency : String
  pub logical_request_id : String
  pub operation_key : String
  pub status : RefundStatus
  pub created_at : ℕ

-- What `_parameters` encodes as a JSON array of the four.
pub record Parameters : Type 0 where
  pub order_id : String
  pub amount_minor : ℕ
  pub currency : String
  pub logical_request_id : String

-- A row of `idempotency`.
pub record Registration : Type 0 where
  pub operation_key : String
  pub parameters : Parameters
  pub refund_id : String

pub record Ticket : Type 0 where
  pub id : String
  pub customer_id : String
  pub order_id : String
  pub version : ℕ
  pub status : String

pub record Note : Type 0 where
  pub id : String
  pub ticket_id : String
  pub text : String
  pub operation_id : String

-- A ticket with its messages, as `_ticket` returns it.
pub record TicketView : Type 0 where
  pub ticket : Ticket
  pub messages : List Note

-- A Python value where the code tests the type of an argument.
pub data Value : Type 0 where
  int : ℤ → Value
  text : String → Value
  boolean : Bool → Value
  null : Value

-- What `_ticket_write` encodes as JSON: the tool, and the two arguments that may be missing.
pub record TicketParameters : Type 0 where
  pub tool : String
  pub text : Value
  pub status : Option String

pub record TicketOperation : Type 0 where
  pub operation_id : String
  pub ticket_id : String
  pub parameters : TicketParameters

pub record Permission : Type 0 where
  pub operation : String
  pub allowed : Bool

-- A terminal status is NULL where the behaviour leaves it out.
pub record ScheduledEvent : Type 0 where
  pub id : String
  pub due_at : ℕ
  pub refund_id : String
  pub status : Option RefundStatus
  pub delivered : Bool

-- The payload of a webhook event.
pub record Notification : Type 0 where
  pub event_id : String
  pub refund_id : String
  pub logical_request_id : String
  pub status : RefundStatus
  pub created_at : ℕ
  pub order_id : String

pub record EventDelivery : Type 0 where
  pub delivery_id : ℕ
  pub event_id : String
  pub payload : Notification
  pub delivered : Bool
  pub acked : Bool
