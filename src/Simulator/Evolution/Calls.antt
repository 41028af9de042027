-- ===== src/Simulator/Evolution/Calls.antt =====
-- Every call of the facade evolves the database
-- (packages/breakroom-core/src/breakroom/simulator.py, `_operation` and `dispatch`).
use breakroom.Base.{
  pos, negsuc, ℕ, ◌≡◌, refl, String, true, false, Option, none, some, List, [], ◌∷◌, arith, ◌==◌,
  update_where, Extends-refl,
}
use breakroom.Simulator.Rows.{Permission, Value, EventDelivery}
use breakroom.Simulator.Calls.{Call, EventData}
use breakroom.Simulator.State.{Session, Fault}
use breakroom.Simulator.Log.{record_event}
use breakroom.Simulator.Operation.{
  get_order, list_refunds, get_refund, revoke, get_ticket, escalate, receive_one, receive_all,
  receive_events, ack_event, operation,
}
use breakroom.Simulator.Dispatch.{trigger, fault}
use breakroom.Simulator.Effects.{Commits, Moves, move_rules, Commits-modify, Commits-bind}
use breakroom.Simulator.Monad.{modify}
use breakroom.Ledger.Machine.{here}
use breakroom.Simulator.Evolution.{Evolves, Evolves-preorder, Later-refl, granted}
use breakroom.Simulator.Evolution.Clock.{frame_rules}
use breakroom.Simulator.Evolution.Payments.{Commits-refund}
use breakroom.Simulator.Evolution.Tickets.{Commits-ticket_write, Commits-edit_ticket}

abbrev revoked_all : List Permission → List Permission
revoked_all = update_where (λ p. p.operation == "refund") (λ p. record p { allowed = false })

granted-revoked_all :
    (operation : String) (ps : List Permission)
    → granted operation (revoked_all ps) ≡ true
    → granted operation ps ≡ true
granted-revoked_all operation [] h = h
granted-revoked_all operation (p ∷ ps) h = ground (arith, granted-revoked_all operation ps)

Commits-revoke : (s : Session) → Commits Evolves (revoke s)
unfolding revoke
Commits-revoke s = search (frame_rules, revoking)
  where
    revoking :
        Commits Evolves
          (modify (λ db. record db { permissions = revoked_all db.permissions; revoked = true }))
    revoking = Commits-modify _ λ db. record {
      pays = here;
      customers = refl;
      clock = omega arith;
      log = Extends-refl db.events;
      notes = Extends-refl db.notes;
      operations = Extends-refl db.ticket_operations;
      tickets = Later-refl db.tickets;
      permissions = λ o h. granted-revoked_all o db.permissions h;
    }

Commits-get_order : (s : Session) (id : String) → Commits Evolves (get_order s id)
unfolding get_order
Commits-get_order s id = search frame_rules depth 12

Commits-list_refunds :
    (s : Session) (id : String) (request : Option String)
    → Commits Evolves (list_refunds s id request)
unfolding list_refunds
Commits-list_refunds s id request = search frame_rules depth 12

Commits-get_refund : (s : Session) (id : String) → Commits Evolves (get_refund s id)
unfolding get_refund
Commits-get_refund s id = search frame_rules depth 12

Commits-get_ticket : (s : Session) (id : String) → Commits Evolves (get_ticket s id)
unfolding get_ticket
Commits-get_ticket s id = search (frame_rules, Commits-revoke, Commits-edit_ticket) depth 20

Commits-escalate :
    (s : Session) (id : Option String) (reason operation_id : String)
    → Commits Evolves (escalate s id reason operation_id)
unfolding escalate
Commits-escalate s none reason operation_id = search frame_rules depth 12
Commits-escalate s (some id) reason operation_id = search frame_rules depth 12

Commits-receive_one : (s : Session) (row : EventDelivery) → Commits Evolves (receive_one s row)
unfolding receive_one
Commits-receive_one s row = search frame_rules depth 12

Commits-receive_all :
    (s : Session) (rows : List EventDelivery) → Commits Evolves (receive_all s rows)
unfolding receive_all
Commits-receive_all s [] = search frame_rules
Commits-receive_all s (row ∷ rows) =
    let rest = Commits-receive_all s rows in
    Commits-bind Evolves-preorder (receive_one s row) _ (Commits-receive_one s row)
      λ item. Commits-bind Evolves-preorder (receive_all s rows) _ rest λ items. search frame_rules

Commits-receive_events : (s : Session) (limit : Value) → Commits Evolves (receive_events s limit)
unfolding receive_events
Commits-receive_events s (Value.int (pos n)) = search (frame_rules, Commits-receive_all) depth 12
Commits-receive_events s (Value.int (negsuc n)) = search frame_rules
Commits-receive_events s (Value.text n) = search frame_rules
Commits-receive_events s (Value.boolean n) = search frame_rules
Commits-receive_events s Value.null = search frame_rules

Commits-ack_event : (s : Session) (id consumer : String) → Commits Evolves (ack_event s id consumer)
unfolding ack_event
Commits-ack_event s id consumer = search frame_rules depth 12

ruleset call_rules = (
  frame_rules, Commits-get_order, Commits-list_refunds, Commits-get_refund, Commits-get_ticket,
  Commits-escalate, Commits-receive_events, Commits-ack_event, Commits-refund, Commits-ticket_write,
)

-- Every operation, when it commits, evolves the database.
pub Commits-operation : (s : Session) (call : Call) → Commits Evolves (operation s call)
unfolding operation
Commits-operation s (Call.find_customers text) = search call_rules
Commits-operation s _ = search call_rules

pub Moves-record_event :
    (s : Session) (payload : EventData) → Moves Evolves (record_event s payload)
unfolding record_event
Moves-record_event s payload = search (move_rules, frame_rules)

Moves-trigger :
    (s : Session) (tool : String) (invocation : ℕ) (phase : String) (f : Option Fault)
    → Moves Evolves (trigger s tool invocation phase f)
unfolding trigger
Moves-trigger s tool invocation phase none = search (move_rules, frame_rules)
Moves-trigger s tool invocation phase (some f) = search (move_rules, frame_rules) depth 12

pub Moves-fault :
    (s : Session) (tool : String) (invocation : ℕ) (phase : String)
    → Moves Evolves (fault s tool invocation phase)
unfolding fault
Moves-fault s tool invocation phase = Moves-trigger s tool invocation phase _
