-- ===== src/Simulator/Queries.antt =====
-- The SELECT helpers of `Simulator`: `_visible_customer`, `_order`, `_ticket`, `_permission`, the
-- reserved balance and `_parameters` (packages/breakroom-core/src/breakroom/simulator.py).
use breakroom.Base.{
  ℕ, ◌+◌, String, Bool, true, false, ◌&&◌, Option, none, some, List, [], ◌∷◌, first, filter,
  order_by, ◌==◌, if◌then◌else◌,
}
use breakroom.Simulator.Rows.{
  Customer, Order, Refund, RefundStatus, pending, succeeded, failed, Parameters, Registration,
  Ticket, TicketView,
}
use breakroom.Simulator.State.{Case, Db}
use breakroom.Simulator.Answer.{Outcome, ok, raised, tool_error, ◌>>=◌, ◌>>◌, found}

-- WHERE id = ?
unfoldable pub find_order : String → List Order → Option Order
find_order id = first (λ o. o.id == id)

unfoldable pub find_refund : String → List Refund → Option Refund
find_refund id = first (λ r. r.id == id)

unfoldable pub find_ticket : String → List Ticket → Option Ticket
find_ticket id = first (λ t. t.id == id)

unfoldable pub find_registration : String → List Registration → Option Registration
find_registration key = first (λ g. g.operation_key == key)

-- status IN ('pending','succeeded')
abbrev pub reserves : RefundStatus → Bool
reserves pending = true
reserves succeeded = true
reserves failed = false

-- SELECT COALESCE(SUM(amount_minor),0) FROM refunds
-- WHERE order_id=? AND status IN ('pending','succeeded')
unfoldable pub reserved : String → List Refund → ℕ
reserved order_id [] = 0
reserved order_id (r ∷ rs) =
    (if r.order_id == order_id && reserves r.status then r.amount_minor else 0)
    + reserved order_id rs

abbrev pub parameters_of : String → ℕ → String → String → Parameters
parameters_of order_id amount currency request = record {
  order_id = order_id;
  amount_minor = amount;
  currency = currency;
  logical_request_id = request;
}

module _ (c : Case) where
  unfoldable pub visible_customer : String → Db → Outcome Customer
  visible_customer customer_id db =
      found
        (first (λ r. r.id == customer_id && r.tenant_id == c.task.requester.tenant_id) db.customers)
        (tool_error "not_found" 0)

  unfoldable pub order_row : String → Db → Outcome Order
  unfolding find_order
  order_row order_id db = do
    row ← found (find_order order_id db.orders) (tool_error "not_found" 0)
    visible_customer row.customer_id db
    ok row

  unfoldable pub ticket_row : String → Db → Outcome TicketView
  unfolding find_ticket
  ticket_row ticket_id db = do
    row ← found (find_ticket ticket_id db.tickets) (tool_error "not_found" 0)
    visible_customer row.customer_id db
    ok (record {
      ticket = row;
      messages = order_by (λ n. n.id) (filter (λ n. n.ticket_id == ticket_id) db.notes);
    })

-- row is None or not row[0]
unfoldable pub permission : String → Db → Outcome (Unit {0})
permission operation db = elim (first (λ p. p.operation == operation) db.permissions) [
  | none ↦ raised (tool_error "permission_denied" 0)
  | some p ↦ if p.allowed then ok tt else raised (tool_error "permission_denied" 0)
]
