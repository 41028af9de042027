-- ===== src/Simulator/Opened.antt =====
-- One name that opens every action of the simulator, for runs on concrete inputs.
use breakroom.Simulator.Queries.{visible_customer, order_row, ticket_row, permission}
use breakroom.Simulator.Log.{event, record_event}
use breakroom.Simulator.Clock.{
  queue_one, queue_all, queue_notifications, settle_row, deliver, deliver_all, sleep, schedule,
  schedule_refund_transition,
}
use breakroom.Simulator.Refund.Checks.{checked_amount, checked_text, refund_checks}
use breakroom.Simulator.Refund.{
  insert_refund, insert_registration, insert_both, reuse, announce, create, refund,
}
use breakroom.Simulator.Ticket.{
  update_tickets, insert_note, apply_change, write_ticket, repeat_ticket, ticket_write,
}
use breakroom.Simulator.Operation.{
  get_order, list_refunds, get_refund, revoke, edit_ticket, get_ticket, escalate, receive_one,
  receive_all, receive_events, ack_event, operation,
}
use breakroom.Simulator.Dispatch.{
  check_budget, context_budget, admit, trigger, fault, rate_limit, before_operation, withhold,
  after_operation, serve, log_error, dispatch,
}
use breakroom.Simulator.Monad.{transaction, ◌>>=◌}
use breakroom.Simulator.Initialize.{initialize}

unfoldable pub opened : Unit {0}
unfolding update_tickets visible_customer order_row ticket_row permission event record_event
    queue_one queue_all queue_notifications settle_row deliver deliver_all sleep schedule
    schedule_refund_transition checked_amount checked_text refund_checks insert_refund
    insert_registration insert_both reuse announce create refund insert_note apply_change
    write_ticket repeat_ticket ticket_write get_order list_refunds get_refund revoke edit_ticket
    get_ticket escalate receive_one receive_all receive_events ack_event operation check_budget
    context_budget admit trigger fault rate_limit before_operation withhold after_operation serve
    log_error dispatch transaction initialize ◌>>=◌
opened = tt
