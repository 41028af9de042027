-- ===== src/Simulator/Evolution/Tickets.antt =====
-- `_ticket_write` and the concurrent edit: versions grow, notes and operations are only added
-- (packages/breakroom-core/src/breakroom/simulator.py).
use breakroom.Base.{
  ℕ, refl, String, true, Option, none, some, [], ◌∷◌, ◌++◌, Bool-cases, arith, any, inl, inr, ◌==◌,
  ◌&&◌, ◌||◌, Extends-append, Extends-refl,
}
use breakroom.Simulator.Rows.{Ticket, TicketView, Note, TicketOperation, Value}
use breakroom.Simulator.State.{Db, Session}
use breakroom.Simulator.Ticket.{
  Change, append_note, update_ticket, ticket_write, repeat_ticket, write_ticket, apply_change,
  insert_note, update_tickets, bump, bump_to,
}
use breakroom.Simulator.Operation.{edit_ticket}
use breakroom.Simulator.Effects.{Commits, Commits-modify, Commits-bind}
use breakroom.Simulator.Monad.{modify}
use breakroom.Ledger.Machine.{here}
use breakroom.Simulator.Evolution.{Evolves, Evolves-preorder, Later-refl, Later-update, Grown}
use breakroom.Simulator.Evolution.Clock.{frame_rules}

abbrev with_note : Note → Db → Db
with_note n db = record db { notes = db.notes ++ n ∷ [] }

Commits-insert_note : (n : Note) → Commits Evolves (insert_note n)
unfolding insert_note
Commits-insert_note n = record {
  at = λ db.
      elim (Bool-cases (
        any (λ x. x.id == n.id || x.ticket_id == n.ticket_id && x.operation_id == n.operation_id)
          db.notes)) [
            | inl taken ↦ rw (taken, insert_note) tt
            | inr free ↦
                rw (free, insert_note)
                  (record {
                    pays = here;
                    customers = refl;
                    clock = omega arith;
                    log = Extends-refl db.events;
                    notes = Extends-append db.notes _;
                    operations = Extends-refl db.ticket_operations;
                    tickets = Later-refl db.tickets;
                    permissions = λ o h. h;
                  })
          ];
}

module _ (f : Ticket → Ticket) (grows : (t : Ticket) → Grown t (f t)) (id : String) where
  Commits-update_tickets :
      Commits Evolves (modify (λ db. record db { tickets = update_tickets id f db.tickets }))
  Commits-update_tickets = Commits-modify _ λ db. record {
    pays = here;
    customers = refl;
    clock = omega arith;
    log = Extends-refl db.events;
    notes = Extends-refl db.notes;
    operations = Extends-refl db.ticket_operations;
    tickets = Later-update f id grows db.tickets;
    permissions = λ o h. h;
  }

bump-Grown : (t : Ticket) → Grown t (bump t)
bump-Grown t = (refl, omega arith, refl, refl)

bump_to-Grown : (status : String) (t : Ticket) → Grown t (bump_to status t)
bump_to-Grown status t = (refl, omega arith, refl, refl)

Commits-bump :
    (id : String)
    → Commits Evolves (modify (λ db. record db { tickets = update_tickets id bump db.tickets }))
Commits-bump id = Commits-update_tickets bump bump-Grown id

Commits-bump_to :
    (status id : String)
    → Commits Evolves
        (modify (λ db. record db { tickets = update_tickets id (bump_to status) db.tickets }))
Commits-bump_to status id = Commits-update_tickets (bump_to status) (bump_to-Grown status) id

Commits-apply_change :
    (change : Change) (ticket_id operation_id : String)
    → Commits Evolves (apply_change change ticket_id operation_id)
unfolding apply_change
Commits-apply_change (append_note (Value.text body)) ticket_id operation_id =
    search (frame_rules, Commits-insert_note, Commits-bump)
Commits-apply_change (append_note (Value.int n)) ticket_id operation_id = search frame_rules
Commits-apply_change (append_note (Value.boolean n)) ticket_id operation_id = search frame_rules
Commits-apply_change (append_note Value.null) ticket_id operation_id = search frame_rules
Commits-apply_change (update_ticket status) ticket_id operation_id =
    search (frame_rules, Commits-bump_to)

Commits-add_operation :
    (o : TicketOperation)
    → Commits Evolves
        (modify (λ db. record db { ticket_operations = db.ticket_operations ++ o ∷ [] }))
Commits-add_operation o = Commits-modify _ λ db. record {
  pays = here;
  customers = refl;
  clock = omega arith;
  log = Extends-refl db.events;
  notes = Extends-refl db.notes;
  operations = Extends-append db.ticket_operations _;
  tickets = Later-refl db.tickets;
  permissions = λ o h. h;
}

Commits-write_ticket :
    (s : Session) (change : Change) (view : TicketView) (operation_id : String) (version : Option ℕ)
    → Commits Evolves (write_ticket s change view operation_id version)
unfolding write_ticket
Commits-write_ticket s change view operation_id version =
    search (frame_rules, Commits-apply_change, Commits-add_operation) depth 16

Commits-repeat_ticket :
    (s : Session) (change : Change) (view : TicketView) (operation_id : String) (version : Option ℕ)
    (previous : Option TicketOperation)
    → Commits Evolves (repeat_ticket s change view operation_id version previous)
unfolding repeat_ticket
Commits-repeat_ticket s change view operation_id version none =
    Commits-write_ticket s change view operation_id version
Commits-repeat_ticket s change view operation_id version (some o) = search frame_rules

pub Commits-ticket_write :
    (s : Session) (change : Change) (ticket_id : String) (operation_id : Value) (version : Option ℕ)
    → Commits Evolves (ticket_write s change ticket_id operation_id version)
unfolding ticket_write
Commits-ticket_write s change ticket_id operation_id version =
    search (frame_rules, Commits-repeat_ticket) depth 16

abbrev reopened : String → Db → Db
reopened id db = record db {
  tickets = update_tickets id (bump_to "open") db.tickets;
  ticket_edited = true;
}

-- The concurrent edit reopens the ticket at a later version.
pub Commits-edit_ticket : (s : Session) (id : String) → Commits Evolves (edit_ticket s id)
unfolding edit_ticket
Commits-edit_ticket s id =
    Commits-bind Evolves-preorder _ _ (Commits-insert_note _)
      λ _. Commits-bind Evolves-preorder _ _ reopening (λ _. search frame_rules)
  where
    reopening : Commits Evolves (modify (reopened id))
    reopening = Commits-modify (reopened id) λ db. record {
      pays = here;
      customers = refl;
      clock = omega arith;
      log = Extends-refl db.events;
      notes = Extends-refl db.notes;
      operations = Extends-refl db.ticket_operations;
      tickets = Later-update (bump_to "open") id (bump_to-Grown "open") db.tickets;
      permissions = λ o h. h;
    }
