-- ===== src/Evaluator/Snapshot.antt =====
-- `Simulator.snapshot`: the state that a trial's report holds
-- (packages/breakroom-core/src/breakroom/simulator.py).
use breakroom.Base.{map, filter, order_by, ◌==◌}
use breakroom.Simulator.State.{Db}
use breakroom.Evaluator.Claims.{State}

-- `snapshot`, the tables that the evaluator reads.
unfoldable pub snapshot : Db → State
snapshot db = record {
  clock = db.clock;
  customers = order_by (λ c. c.id) db.customers;
  orders = order_by (λ o. o.id) db.orders;
  refunds = order_by (λ r. r.id) db.refunds;
  tickets =
      map
        (λ t. record {
          ticket = t;
          messages = order_by (λ n. n.id) (filter (λ n. n.ticket_id == t.id) db.notes);
        })
        (order_by (λ t. t.id) db.tickets);
  invocations = db.invocations;
  fault_counters = order_by (λ f. f.0) db.fault_counters;
}
