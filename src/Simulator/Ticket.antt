-- ===== src/Simulator/Ticket.antt =====
-- `Simulator._ticket_write`, the writes of `append_note` and `update_ticket`
-- (packages/breakroom-core/src/breakroom/simulator.py).
use breakroom.Base.{
  same_bool, ℕ, ◌+◌, String, Bool, true, false, ◌&&◌, ◌||◌, Option, none, some, List, [], ◌∷◌, ◌++◌,
  length, leb, any, first, update_where, ◌==◌, ◌=ℕ=◌, same_option, if◌then◌else◌, pos, negsuc,
}
use breakroom.Base.Decimal.{format_06d}
use Prim.Native.String.{◌++◌ as join, count}
use breakroom.Simulator.Rows.{Ticket, TicketView, Note, TicketOperation, TicketParameters, Value}
use breakroom.Simulator.Calls.{EventData}
use breakroom.Simulator.State.{Session}
use breakroom.Simulator.Queries.{ticket_row, permission}
use breakroom.Simulator.Log.{event}
use breakroom.Simulator.Refund.Checks.{checked_text}
use breakroom.Simulator.Monad.{
  Tx, ok, raised, tool_error, integrity_error, query, modify, gets, raise, guard, ◌>>=◌, ◌>>◌,
}

-- The two tools: the text of a note, or a new status.
pub data Change : Type 0 where
  append_note : Value → Change
  update_ticket : String → Change

abbrev pub change_tool : Change → String
change_tool (append_note _) = "append_note"
change_tool (update_ticket _) = "update_ticket"

abbrev pub change_parameters : Change → TicketParameters
change_parameters (append_note body) = record { tool = "append_note"; text = body; status = none }
change_parameters (update_ticket status) = record {
  tool = "update_ticket";
  text = Value.null;
  status = some status;
}

-- Equality of the JSON text of two arguments.
unfoldable pub same_value : Value → Value → Bool
same_value (Value.int (pos a)) (Value.int (pos b)) = a =ℕ= b
same_value (Value.int (negsuc a)) (Value.int (negsuc b)) = a =ℕ= b
same_value (Value.text s) (Value.text t) = s == t
same_value (Value.boolean a) (Value.boolean b) = same_bool a b
same_value Value.null Value.null = true
same_value _ _ = false

abbrev pub same_change : TicketParameters → TicketParameters → Bool
same_change p q = p.tool == q.tool && same_value p.text q.text && same_option p.status q.status

-- f"{tool}:{args['operation_id']}"
unfoldable pub operation_key : Change → String → String
operation_key change operation_id = join (change_tool change) (join ":" operation_id)

unfoldable pub find_operation : String → String → List TicketOperation → Option TicketOperation
find_operation ticket_id key = first (λ o. o.ticket_id == ticket_id && o.operation_id == key)

-- UPDATE tickets ... WHERE id=?
unfoldable pub update_tickets : String → (Ticket → Ticket) → List Ticket → List Ticket
update_tickets id f = update_where (λ t. t.id == id) f

abbrev pub bump : Ticket → Ticket
bump t = record t { version = t.version + 1 }

abbrev pub bump_to : String → Ticket → Ticket
bump_to status t = record t { status = status; version = t.version + 1 }

-- INSERT INTO notes: the primary key and UNIQUE(ticket_id,operation_id).
unfoldable pub insert_note : Note → Tx (Unit {0})
insert_note n db =
    if any (λ x. x.id == n.id || (x.ticket_id == n.ticket_id && x.operation_id == n.operation_id))
      db.notes
    then (raised integrity_error, db)
    else (ok tt, record db { notes = db.notes ++ n ∷ [] })

abbrev known_status : String → Bool
known_status s = s == "open" || s == "resolved" || s == "escalated"

-- The branch of one tool after the shared checks.
unfoldable pub apply_change : Change → String → String → Tx (Unit {0})
unfolding format_06d
apply_change (append_note (Value.text body)) ticket_id operation_id = do
  guard (leb (count body) 4000) (tool_error "invalid_request" 0)
  index ← gets (λ db. length db.notes + 1)
  insert_note (record {
    id = join "note_" (format_06d index);
    ticket_id = ticket_id;
    text = body;
    operation_id = operation_id;
  })
  modify λ db. record db { tickets = update_tickets ticket_id bump db.tickets }
apply_change (append_note _) ticket_id operation_id = raise (tool_error "invalid_request" 0)
apply_change (update_ticket status) ticket_id operation_id = do
  guard (known_status status) (tool_error "invalid_request" 0)
  modify λ db. record db { tickets = update_tickets ticket_id (bump_to status) db.tickets }

abbrev pub version_matches : Option ℕ → ℕ → Bool
version_matches none version = true
version_matches (some expected) version = expected =ℕ= version

-- The branch of a new operation.
unfoldable pub write_ticket : Session → Change → TicketView → String → Option ℕ → Tx TicketView
unfolding operation_key
write_ticket s change view operation_id expected_version = do
  guard (version_matches expected_version view.ticket.version) (tool_error "version_conflict" 0)
  apply_change change view.ticket.id operation_id
  modify λ db. record db {
    ticket_operations =
        db.ticket_operations
        ++ record {
          operation_id = operation_key change operation_id;
          ticket_id = view.ticket.id;
          parameters = change_parameters change;
        }
          ∷ [];
  }
  after ← query (ticket_row s.case view.ticket.id)
  event s (some (change_tool change)) (EventData.ticket_committed after operation_id true)
  query (ticket_row s.case view.ticket.id)

-- `if previous:`
unfoldable pub repeat_ticket :
    Session → Change → TicketView → String → Option ℕ → Option TicketOperation → Tx TicketView
repeat_ticket s change view operation_id version none =
    write_ticket s change view operation_id version
repeat_ticket s change view operation_id version (some o) = do
  guard (same_change o.parameters (change_parameters change)) (tool_error "idempotency_conflict" 0)
  query (ticket_row s.case view.ticket.id)

-- `_ticket_write`
unfoldable pub ticket_write : Session → Change → String → Value → Option ℕ → Tx TicketView
unfolding operation_key find_operation
ticket_write s change ticket_id operation_id expected_version = do
  query (permission "ticket_write")
  view ← query (ticket_row s.case ticket_id)
  operation ← query (λ _. checked_text operation_id)
  previous ←
      gets
        (λ db. find_operation view.ticket.id (operation_key change operation) db.ticket_operations)
  repeat_ticket s change view operation expected_version previous
