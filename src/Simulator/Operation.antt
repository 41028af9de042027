-- ===== src/Simulator/Operation.antt =====
-- `Simulator._operation`: one branch for each tool
-- (packages/breakroom-core/src/breakroom/simulator.py).
use breakroom.Base.{
  ℕ, String, pos, sub_ℕ, Bool, true, false, not, ◌&&◌, ◌||◌, Option, none, some, List, [], ◌∷◌, map,
  leb, any, filter, take, order_by, update_where, ◌==◌, ◌=ℕ=◌, same_option, if◌then◌else◌,
}
use breakroom.Base.Fold.{casefold, strip, contains}
use breakroom.Simulator.Rows.{Refund, Value, EventDelivery}
use breakroom.Simulator.Calls.{Call, Response, CustomerView, Delivery, EventData}
use breakroom.Simulator.State.{Case, Db, Session}
use breakroom.Simulator.Answer.{found}
use breakroom.Simulator.Queries.{find_refund, reserved, visible_customer, order_row, ticket_row}
use breakroom.Simulator.Log.{event}
use breakroom.Simulator.Refund.{refund}
use breakroom.Simulator.Ticket.{Change, ticket_write, insert_note, update_tickets, bump_to}
use breakroom.Simulator.Monad.{
  Tx, tool_error, query, modify, gets, pure, refuse, guard, when, ◌>>=◌, ◌>>◌,
}

unfoldable pub find_customers : Case → String → Db → List CustomerView
unfolding casefold strip contains
find_customers c text db =
    let query_text = strip (casefold text) in
    map
      (λ r. record {
        customer = r;
        order_ids =
            map (λ o. o.id) (order_by (λ o. o.id) (filter (λ o. o.customer_id == r.id) db.orders));
      })
      (order_by (λ r. r.id)
        (filter
          (λ r.
            r.tenant_id == c.task.requester.tenant_id
            && (contains (casefold r.display_name) query_text
                || contains (casefold r.contact_ref) query_text))
          db.customers))

unfoldable pub get_order : Session → String → Tx Response
unfolding reserved
get_order s order_id = do
  order ← query (order_row s.case order_id)
  refunded ← gets (λ db. reserved order.id db.refunds)
  when (not (order.currency == s.case.task.currency))
      (event s (some "get_order") (EventData.currency_observed order.currency))
  pure (Response.order order (sub_ℕ order.amount_minor refunded))

abbrev for_request : Option String → Refund → Bool
for_request none r = true
for_request (some request) r = r.logical_request_id == request

unfoldable pub list_refunds : Session → String → Option String → Tx Response
list_refunds s order_id request = do
  query (order_row s.case order_id)
  gets λ db. Response.refunds (
      order_by (λ r. r.id)
        (filter (λ r. r.order_id == order_id && for_request request r) db.refunds))

unfoldable pub get_refund : Session → String → Tx Response
unfolding find_refund
get_refund s refund_id = do
  r ← query (λ db. found (find_refund refund_id db.refunds) (tool_error "not_found" 0))
  query (order_row s.case r.order_id)
  pure (Response.refund r)

-- UPDATE permissions SET allowed=0 WHERE operation='refund', once
unfoldable pub revoke : Session → Tx (Unit {0})
revoke s = do
  modify λ db. record db {
    permissions =
        update_where (λ p. p.operation == "refund") (λ p. record p { allowed = false })
          db.permissions;
    revoked = true;
  }
  event s (some "get_ticket") (EventData.permission_revoked "refund")

-- The concurrent edit by the system, once
unfoldable pub edit_ticket : Session → String → Tx (Unit {0})
edit_ticket s ticket_id = do
  insert_note (record {
    id = "system_note_1";
    ticket_id = ticket_id;
    text = "Customer requested the ticket remain open for a delivery-address review.";
    operation_id = "system_edit";
  })
  modify λ db. record db {
    tickets = update_tickets ticket_id (bump_to "open") db.tickets;
    ticket_edited = true;
  }
  after ← query (ticket_row s.case ticket_id)
  event s (some "get_ticket") (EventData.system_ticket_edit after)

unfoldable pub invocation_count : String → List (String × ℕ) → ℕ
invocation_count tool [] = 0
invocation_count tool ((name, n) ∷ rest) = if name == tool then n else invocation_count tool rest

-- The ticket as it was read first is returned.
unfoldable pub get_ticket : Session → String → Tx Response
unfolding invocation_count
get_ticket s ticket_id = do
  view ← query (ticket_row s.case ticket_id)
  when
      (not (
        view.ticket.customer_id == s.case.task.requester.customer_id
        && same_option (some view.ticket.order_id) s.case.task.order_id))
      (event s (some "get_ticket") (EventData.ticket_mismatch_observed view.ticket.id))
  done ← gets (λ db. db.revoked)
  when (s.case.behavior.revoke_after_ticket_read && not done) (revoke s)
  reads ← gets (λ db. invocation_count "get_ticket" db.invocations)
  edited ← gets (λ db. db.ticket_edited)
  when (s.case.behavior.edit_after_ticket_read && reads =ℕ= 2 && not edited)
      (edit_ticket s view.ticket.id)
  pure (Response.ticket view)

unfoldable pub escalate : Session → Option String → String → String → Tx Response
escalate s none reason operation_id = do
  event s (some "escalate") (EventData.escalation_requested none reason operation_id)
  pure (Response.escalated none operation_id)
escalate s (some ticket_id) reason operation_id = do
  query (ticket_row s.case ticket_id)
  event s (some "escalate") (EventData.escalation_requested (some ticket_id) reason operation_id)
  pure (Response.escalated (some ticket_id) operation_id)

-- WHERE delivered=0 ORDER BY delivery_id LIMIT ?
unfoldable pub undelivered : ℕ → Db → List EventDelivery
undelivered limit db = take limit (filter (λ d. not d.delivered) db.event_deliveries)

-- The loop body of `receive_events`
unfoldable pub receive_one : Session → EventDelivery → Tx Delivery
receive_one s row = do
  modify λ db. record db {
    event_deliveries =
        update_where (λ d. d.delivery_id =ℕ= row.delivery_id) (λ d. record d { delivered = true })
          db.event_deliveries;
  }
  event s (some "receive_events")
      (EventData.event_received (record { payload = row.payload; delivery_id = row.delivery_id }))
  pure (record { payload = row.payload; delivery_id = row.delivery_id })

unfoldable pub receive_all : Session → List EventDelivery → Tx (List Delivery)
receive_all s [] = pure []
receive_all s (row ∷ rows) = do
  item ← receive_one s row
  items ← receive_all s rows
  pure (item ∷ items)

-- type(limit) is int and 1 <= limit <= 16
unfoldable pub receive_events : Session → Value → Tx Response
unfolding undelivered
receive_events s (Value.int (pos limit)) = do
  guard (leb 1 limit && leb limit 16) (tool_error "invalid_request" 0)
  rows ← gets (undelivered limit)
  items ← receive_all s rows
  pure (Response.events items)
receive_events s _ = refuse "invalid_request"

unfoldable pub ack_event : Session → String → String → Tx Response
ack_event s event_id consumer = do
  rows ← gets (λ db. any (λ d. d.event_id == event_id && d.delivered) db.event_deliveries)
  guard rows (tool_error "not_found" 0)
  modify λ db. record db {
    event_deliveries =
        update_where (λ d. d.event_id == event_id && d.delivered) (λ d. record d { acked = true })
          db.event_deliveries;
  }
  event s (some "ack_event") (EventData.event_acknowledged event_id consumer)
  pure (Response.acknowledged event_id)

-- `_operation`
unfoldable pub operation : Session → Call → Tx Response
unfolding find_customers
operation s (Call.find_customers text) =
    gets (λ db. Response.customers (find_customers s.case text db))
operation s (Call.get_customer customer_id) = do
  c ← query (visible_customer s.case customer_id)
  pure (Response.customer c)
operation s (Call.get_order order_id) = get_order s order_id
operation s (Call.list_refunds order_id request) = list_refunds s order_id request
operation s (Call.create_refund args) = do r ← refund s args; pure (Response.refund r)
operation s (Call.get_refund refund_id) = get_refund s refund_id
operation s (Call.get_ticket ticket_id) = get_ticket s ticket_id
operation s (Call.append_note ticket_id body operation_id version) = do
  view ← ticket_write s (Change.append_note body) ticket_id operation_id version
  pure (Response.ticket view)
operation s (Call.update_ticket ticket_id status operation_id version) = do
  view ← ticket_write s (Change.update_ticket status) ticket_id operation_id version
  pure (Response.ticket view)
operation s (Call.escalate ticket_id reason operation_id) = escalate s ticket_id reason operation_id
operation s (Call.receive_events limit) = receive_events s limit
operation s (Call.ack_event event_id consumer) = ack_event s event_id consumer
operation s (Call.other_tool tool) = refuse "unsupported_tool"
