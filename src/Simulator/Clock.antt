-- ===== src/Simulator/Clock.antt =====
-- Virtual time: `now`, `sleep`, `_queue_notifications` and `schedule_refund_transition`
-- (packages/breakroom-core/src/breakroom/simulator.py). Seconds are naturals.
use breakroom.Base.{
  ℕ, suc, ◌+◌, String, Bool, true, false, not, ◌&&◌, Option, none, some, List, [], ◌∷◌, ◌++◌,
  length, leb, ltb, ◌=ℕ=◌, ◌==◌, first, any, update_where, text_le, if◌then◌else◌,
}
use Prim.Native.String.{◌++◌ as join}
use breakroom.Simulator.Rows.{
  Refund, RefundStatus, pending, succeeded, failed, ScheduledEvent, Notification,
}
use breakroom.Simulator.Calls.{EventData}
use breakroom.Simulator.State.{Session, EventOrder, normal, duplicate, reordered}
use breakroom.Simulator.Queries.{find_refund}
use breakroom.Simulator.Log.{event}
use breakroom.Simulator.Answer.{found}
use breakroom.Simulator.Monad.{
  Tx, ok, raised, integrity_error, type_error, value_error, transaction, query, modify, gets, pure,
  guard, when, ◌>>=◌, ◌>>◌,
}

abbrev pub status_text : RefundStatus → String
status_text pending = "pending"
status_text succeeded = "succeeded"
status_text failed = "failed"

abbrev pub is_pending : RefundStatus → Bool
is_pending pending = true
is_pending _ = false

abbrev pub notification : Refund → String → RefundStatus → ℕ → Notification
notification r id status at = record {
  event_id = id;
  refund_id = r.id;
  logical_request_id = r.logical_request_id;
  status = status;
  created_at = at;
  order_id = r.order_id;
}

-- INSERT INTO event_deliveries, and the log entry
unfoldable pub queue_one : Session → Notification → Tx (Unit {0})
queue_one s n = do
  modify λ db. record db {
    event_deliveries =
        db.event_deliveries
        ++ record {
          delivery_id = suc (length db.event_deliveries);
          event_id = n.event_id;
          payload = n;
          delivered = false;
          acked = false;
        }
          ∷ [];
  }
  event s none (EventData.event_queued n)

unfoldable pub queue_all : Session → List Notification → Tx (Unit {0})
queue_all s [] = pure tt
queue_all s (n ∷ ns) = do queue_one s n; queue_all s ns

-- f"event_{id}_{status}"
abbrev pub event_name : Refund → String → String
event_name r status = join (join (join "event_" r.id) "_") status

abbrev pub terminal : Refund → ℕ → Notification
terminal r now = notification r (event_name r (status_text r.status)) r.status now

unfoldable pub deliveries : EventOrder → Refund → ℕ → List Notification
deliveries normal r now = terminal r now ∷ []
deliveries duplicate r now = terminal r now ∷ terminal r now ∷ []
deliveries reordered r now =
    terminal r now ∷ notification r (event_name r "pending") pending r.created_at ∷ []

-- `_queue_notifications`
unfoldable pub queue_notifications : Session → Refund → Tx (Unit {0})
unfolding deliveries
queue_notifications s r = do
  now ← gets (λ db. db.clock)
  queue_all s (deliveries s.case.behavior.event_delivery r now)

-- WHERE due_at<=? AND delivered=0 ORDER BY due_at,id
abbrev before : ScheduledEvent → ScheduledEvent → Bool
before a b = if a.due_at =ℕ= b.due_at then text_le a.id b.id else ltb a.due_at b.due_at

abbrev insert_due : ScheduledEvent → List ScheduledEvent → List ScheduledEvent
insert_due e [] = e ∷ []
insert_due e (x ∷ xs) = let rest = insert_due e xs in if before e x then e ∷ x ∷ xs else x ∷ rest

unfoldable pub due : ℕ → List ScheduledEvent → List ScheduledEvent
due now [] = []
due now (e ∷ es) =
    let rest = due now es in if leb e.due_at now && not e.delivered then insert_due e rest else rest

-- UPDATE refunds SET status=? WHERE id=? AND status='pending'
unfoldable pub settle : String → RefundStatus → List Refund → List Refund
settle id status =
    update_where (λ r. r.id == id && is_pending r.status) (λ r. record r { status = status })

-- The UPDATE of the loop body; a NULL status breaks NOT NULL where a row matches.
unfoldable pub settle_row : String → Option RefundStatus → Tx (Unit {0})
unfolding settle
settle_row id none db = (
  if any (λ r. r.id == id && is_pending r.status) db.refunds then raised integrity_error else ok tt,
  db,
)
settle_row id (some status) db = (ok tt, record db { refunds = settle id status db.refunds })

-- The loop body of `sleep`; `dict(None)` raises where the refund is gone.
unfoldable pub deliver : Session → ScheduledEvent → Tx (Unit {0})
unfolding find_refund
deliver s e = do
  settle_row e.refund_id e.status
  r ← query (λ db. found (find_refund e.refund_id db.refunds) type_error)
  event s none (EventData.refund_transition r e.status)
  when s.case.behavior.emit_events (queue_notifications s r)
  modify λ db. record db {
    scheduled_events =
        update_where (λ x. x.id == e.id) (λ x. record x { delivered = true }) db.scheduled_events;
  }
  event s none (EventData.event_delivered e.id e.refund_id e.status)

unfoldable pub deliver_all : Session → List ScheduledEvent → Tx (Unit {0})
deliver_all s [] = pure tt
deliver_all s (e ∷ es) = do deliver s e; deliver_all s es

-- `Simulator.sleep`
unfoldable pub sleep : Session → ℕ → Tx (Unit {0})
unfolding due
sleep s seconds = transaction (do
  modify λ db. record db { clock = db.clock + seconds }
  event s none (EventData.clock_advanced seconds)
  pending_rows ← gets (λ db. due db.clock db.scheduled_events)
  deliver_all s pending_rows)

abbrev pub transition_id : String → String
transition_id refund_id = join "transition_" refund_id

-- INSERT INTO scheduled_events, whose id is a primary key
unfoldable pub schedule : String → ℕ → Option RefundStatus → Tx (Unit {0})
schedule refund_id due_at status db =
    elim (first (λ e. e.id == transition_id refund_id) db.scheduled_events) [
      | some _ ↦ (raised integrity_error, db)
      | none ↦ (
        ok tt,
        record db {
          scheduled_events =
              db.scheduled_events
              ++ record {
                id = transition_id refund_id;
                due_at = due_at;
                refund_id = refund_id;
                status = status;
                delivered = false;
              }
                ∷ [];
        },
      )
    ]

-- `schedule_refund_transition`: test setup, which forces the refund to be pending.
unfoldable pub schedule_refund_transition : String → RefundStatus → ℕ → Tx (Unit {0})
schedule_refund_transition refund_id status delay = do
  guard (not (is_pending status)) value_error
  transaction (do
    modify λ db. record db {
      refunds =
          update_where (λ r. r.id == refund_id) (λ r. record r { status = pending }) db.refunds;
    }
    now ← gets (λ db. db.clock)
    schedule refund_id (now + delay) (some status))
