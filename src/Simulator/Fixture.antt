-- ===== src/Simulator/Fixture.antt =====
-- A small case for tests: a paid order of 500000 minor units, an authorized refund of 100000, and a
-- response that is lost after the first refund commits.
use breakroom.Base.{String, pos, true, false, none, some, [], ◌∷◌}
use breakroom.Simulator.Rows.{Value, succeeded}
use breakroom.Simulator.Calls.{Call, RefundArguments}
use breakroom.Simulator.State.{Case, Task, Behavior, Fault, Session, normal}

abbrev pub task : Task
task = record {
  request_id = "req_1";
  requester = record {
    customer_id = "cus_1";
    tenant_id = "tenant_1";
    contact_ref = "mira@example.invalid";
    display_name = "Mira Shah";
    authenticated = true;
  };
  customer_id = some "cus_1";
  order_id = some "ord_1";
  ticket_id = some "tic_1";
  amount_minor = 100000;
  currency = "INR";
  text = "Please refund part of my order.";
  policy = record {
    max_attempts = 3;
    refund_authorized = true;
    require_ticket = true;
    allow_escalation = false;
  };
}

abbrev pub behavior : Behavior
behavior = record {
  refund_initial_status = succeeded;
  terminal_status = none;
  transition_delay = 2;
  rate_limit_until = 0;
  hidden_until = 0;
  stale_until = 0;
  emit_events = false;
  event_delivery = normal;
  revoke_after_ticket_read = false;
  edit_after_ticket_read = false;
}

abbrev pub lost_response : Fault
lost_response = record {
  id = "lost_1";
  tool = "create_refund";
  invocation = 1;
  phase = "after_commit";
  action = "response_lost";
  expected = true;
  retry_after = 0;
}

abbrev pub fixture : Case
fixture = record {
  initial_state = record {
    customers =
        record {
          id = "cus_1";
          display_name = "Mira Shah";
          contact_ref = "mira@example.invalid";
          tenant_id = "tenant_1";
        }
        ∷ [];
    orders =
        record {
          id = "ord_1";
          customer_id = "cus_1";
          amount_minor = 500000;
          currency = "INR";
          status = "paid";
        }
        ∷ [];
    refunds = [];
    tickets =
        record {
          id = "tic_1";
          customer_id = "cus_1";
          order_id = "ord_1";
          version = 1;
          status = "open";
        }
        ∷ [];
    permissions =
        record { operation = "refund"; allowed = true }
        ∷ record { operation = "ticket_write"; allowed = true }
        ∷ [];
  };
  task = task;
  faults = lost_response ∷ [];
  liveness = record { deadline_seconds = 60; max_tool_calls = 20; max_refund_attempts = 2 };
  behavior = behavior;
  assertions = "no_duplicate_effects" ∷ "exact_amount" ∷ [];
  allowed_outcomes = "completed" ∷ [];
  required_capabilities = [];
  implemented = true;
}

abbrev pub session : Session
session = record { case = fixture; handler = none; context = none; at_barrier = false }

abbrev pub refund_arguments : String → RefundArguments
refund_arguments key = record {
  order_id = "ord_1";
  amount_minor = Value.int (pos 100000);
  currency = "INR";
  operation_key = Value.text key;
  logical_request_id = Value.text "req_1";
  customer_id = some "cus_1";
}

abbrev pub refund_call : String → Call
refund_call key = Call.create_refund (refund_arguments key)
