-- ===== src/Simulator/Refund.antt =====
-- `Simulator._refund` (packages/breakroom-core/src/breakroom/simulator.py): the checks in their
-- order, the idempotency registry, and the inserts of a new refund.
pub mod Checks
use breakroom.Base.{
  ℕ, zero, suc, ◌+◌, ◌-◌, String, Bool, true, false, not, ◌&&◌, ◌||◌, Option, none, some, List, [],
  ◌∷◌, ◌++◌, length, leb, ltb, any, ◌==◌, ◌=ℕ=◌, if◌then◌else◌,
}
use breakroom.Base.Decimal.{format_06d}
use Prim.Native.String.{◌++◌ as join}
use breakroom.Simulator.Rows.{Order, Refund, RefundStatus, Parameters, Registration}
use breakroom.Simulator.Calls.{RefundArguments, EventData}
use breakroom.Simulator.State.{Case, Db, Session}
use breakroom.Simulator.Answer.{found}
use breakroom.Simulator.Queries.{
  find_order, find_refund, find_registration, reserved, order_row, permission,
}
use breakroom.Simulator.Log.{event}
use breakroom.Simulator.Clock.{queue_notifications, schedule, is_pending}
use breakroom.Simulator.Monad.{
  Tx, ok, raised, tool_error, integrity_error, type_error, query, modify, gets, pure, raise, guard,
  when, ◌>>=◌, ◌>>◌,
}
use Checks.{Checked, refund_checks, same_parameters}

-- f"rf_{index:06d}"
unfoldable pub refund_id : ℕ → String
unfolding format_06d
refund_id index = join "rf_" (format_06d index)

-- `while con.execute("SELECT 1 FROM refunds WHERE id=?", ...)`: `none` is the end of the fuel.
unfoldable pub fresh_id : ℕ → ℕ → List Refund → Option String
unfolding refund_id find_refund
fresh_id zero index refunds = none
fresh_id (suc fuel) index refunds =
    let rest = fresh_id fuel (index + 1) refunds in
    elim (find_refund (refund_id index) refunds) [ none ↦ some (refund_id index) | some _ ↦ rest ]

-- One more round than there are refunds.
unfoldable pub next_refund_id : Db → Option String
unfolding fresh_id
next_refund_id db = fresh_id (length db.refunds + 1) (length db.refunds + 1) db.refunds

-- INSERT INTO refunds: the primary key, UNIQUE, CHECK and the foreign key.
unfoldable pub insert_refund : Refund → Tx (Unit {0})
unfolding find_refund find_order
insert_refund r db = elim (find_refund r.id db.refunds) [
  | some _ ↦ (raised integrity_error, db)
  | none ↦ elim (find_order r.order_id db.orders) [
    | none ↦ (raised integrity_error, db)
    | some _ ↦
        if any (λ x. x.operation_key == r.operation_key) db.refunds || r.amount_minor =ℕ= 0
        then (raised integrity_error, db)
        else (ok tt, record db { refunds = db.refunds ++ r ∷ [] })
  ]
]

-- INSERT INTO idempotency
unfoldable pub insert_registration : Registration → Tx (Unit {0})
unfolding find_refund find_registration
insert_registration g db = elim (find_registration g.operation_key db.idempotency) [
  | some _ ↦ (raised integrity_error, db)
  | none ↦ elim (find_refund g.refund_id db.refunds) [
    | none ↦ (raised integrity_error, db)
    | some _ ↦ (ok tt, record db { idempotency = db.idempotency ++ g ∷ [] })
  ]
]

-- The branch of a known operation key.
unfoldable pub reuse : Session → Registration → Checked → Tx Refund
unfolding find_refund
reuse s g c = do
  guard (same_parameters g.parameters c.parameters) (tool_error "idempotency_conflict" 0)
  event s (some "create_refund") (EventData.idempotency_reused c.operation_key g.refund_id)
  query (λ db. found (find_refund g.refund_id db.refunds) type_error)

abbrev pub new_refund : Session → Checked → String → ℕ → Refund
new_refund s c id now = record {
  id = id;
  order_id = c.order.id;
  amount_minor = c.parameters.amount_minor;
  currency = c.parameters.currency;
  logical_request_id = c.parameters.logical_request_id;
  operation_key = c.operation_key;
  status = s.case.behavior.refund_initial_status;
  created_at = now;
}

-- Both inserts of a new refund.
unfoldable pub insert_both : Refund → Registration → Tx (Unit {0})
insert_both r g = do insert_refund r; insert_registration g

-- What follows the inserts: a scheduled transition, or notifications.
unfoldable pub announce : Session → Refund → Tx (Unit {0})
announce s r =
    if is_pending r.status
    then (do
      now ← gets (λ db. db.clock)
      schedule r.id (now + s.case.behavior.transition_delay) s.case.behavior.terminal_status)
    else when s.case.behavior.emit_events (queue_notifications s r)

-- The branch of a new operation key.
unfoldable pub create : Session → Checked → Tx Refund
unfolding reserved next_refund_id
create s c = do
  taken ← gets (λ db. reserved c.order.id db.refunds)
  guard (c.order.status == "paid" && leb (c.parameters.amount_minor + taken) c.order.amount_minor)
      (tool_error "insufficient_refundable_balance" 0)
  id ← query (λ db. found (next_refund_id db) type_error)
  now ← gets (λ db. db.clock)
  insert_both (new_refund s c id now)
      (record { operation_key = c.operation_key; parameters = c.parameters; refund_id = id })
  event s (some "create_refund") (EventData.refund_committed (new_refund s c id now) true)
  announce s (new_refund s c id now)
  pure (new_refund s c id now)

-- `if registry:`
abbrev pub registered : Session → Checked → Option Registration → Tx Refund
registered s c (some g) = reuse s g c
registered s c none = create s c

-- `_refund`
unfoldable pub refund : Session → RefundArguments → Tx Refund
unfolding find_registration
refund s args = do
  c ← query (refund_checks s.case args)
  registry ← gets (λ db. find_registration c.operation_key db.idempotency)
  registered s c registry
