-- ===== src/Simulator/Initialize.antt =====
-- `Simulator._initialize`: the tables of a fresh database
-- (packages/breakroom-core/src/breakroom/simulator.py).
use breakroom.Base.{false, [], map}
use breakroom.Simulator.Rows.{Refund, Registration}
use breakroom.Simulator.State.{Case, Db}
use breakroom.Simulator.Queries.{parameters_of}

abbrev pub registration_of : Refund → Registration
registration_of r = record {
  operation_key = r.operation_key;
  parameters = parameters_of r.order_id r.amount_minor r.currency r.logical_request_id;
  refund_id = r.id;
}

-- The inserts of a validated case break no constraint.
unfoldable pub initialize : Case → Db
initialize c = record {
  clock = 0;
  revoked = false;
  ticket_edited = false;
  customers = c.initial_state.customers;
  orders = c.initial_state.orders;
  refunds = c.initial_state.refunds;
  idempotency = map registration_of c.initial_state.refunds;
  tickets = c.initial_state.tickets;
  notes = [];
  ticket_operations = [];
  permissions = c.initial_state.permissions;
  events = [];
  invocations = [];
  fault_counters = map (λ f. (f.id, 0)) c.faults;
  scheduled_events = [];
  event_deliveries = [];
}
