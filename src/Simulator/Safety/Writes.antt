-- ===== src/Simulator/Safety/Writes.antt =====
-- What a ticket write that returned leaves on record
-- (packages/breakroom-core/src/breakroom/simulator.py, `_ticket_write`).
use breakroom.Base.{
  ℕ, ◌≡◌, refl, ap, ◌∙◌, subst, sym, String, Option, none, some, List, [], ◌∷◌, ◌++◌, true, ◌&&◌,
  ◌||◌, ◌==◌, any, arith, pos, negsuc, eq_refl, eq_of_test, inl, inr, Bool-cases, Option-cases,
  first_test, first-append_missing,
}
use breakroom.Simulator.Rows.{TicketView, TicketOperation, Note, Value, int, text, boolean, null}
use breakroom.Simulator.Calls.{EventData}
use breakroom.Simulator.State.{Db, Session, Case}
use breakroom.Simulator.Queries.{ticket_row, find_ticket}
use breakroom.Simulator.Log.{event}
use breakroom.Simulator.Refund.Checks.{checked_text}
use breakroom.Simulator.Ticket.{
  Change, append_note, update_ticket, change_parameters, same_change, same_value, operation_key,
  find_operation, insert_note, apply_change, write_ticket, repeat_ticket, ticket_write,
}
use breakroom.Simulator.Monad.{Tx, Outcome, ok, raised, query, modify, ◌>>=◌}
use breakroom.Simulator.Effects.{Preorder, Committed, Commits, commit_rules, Commits-modify}
use breakroom.Simulator.Ensures.{Ensures, Ensures-bind, Ensures-gets, Ensures-query, Ensures-guard}

-- The operations on record stay as they were.
abbrev SameOperations : Db → Db → Type 0
SameOperations a b = b.ticket_operations ≡ a.ticket_operations

SameOperations-preorder : Preorder SameOperations
SameOperations-preorder = record { same = λ db. refl; chain = λ a b c h k. k ∙ h }

Commits-same :
    (f : Db → Db)
    → ((db : Db) → (f db).ticket_operations ≡ db.ticket_operations)
    → Commits SameOperations (modify f)
Commits-same f same = Commits-modify f same

Commits-insert_note : (n : Note) → Commits SameOperations (insert_note n)
unfolding insert_note
Commits-insert_note n = record {
  at = λ db.
      elim (Bool-cases (
        any (λ x. x.id == n.id || x.ticket_id == n.ticket_id && x.operation_id == n.operation_id)
          db.notes)) [
            | inl taken ↦ rw (taken, insert_note) tt
            | inr free ↦ rw (free, insert_note) refl
          ];
}

ruleset operation_rules =
    (commit_rules, SameOperations-preorder, Commits-same, Commits-insert_note, refl)

Commits-apply_change :
    (change : Change) (ticket_id operation_id : String)
    → Commits SameOperations (apply_change change ticket_id operation_id)
unfolding apply_change
Commits-apply_change (append_note (Value.text body)) ticket_id operation_id =
    search operation_rules depth 16
Commits-apply_change (append_note (Value.int n)) ticket_id operation_id = search operation_rules
Commits-apply_change (append_note (Value.boolean n)) ticket_id operation_id = search operation_rules
Commits-apply_change (append_note Value.null) ticket_id operation_id = search operation_rules
Commits-apply_change (update_ticket status) ticket_id operation_id = search operation_rules depth 12

same_value_refl : (v : Value) → same_value v v ≡ true
unfolding same_value
same_value_refl (int (pos n)) = ground arith
same_value_refl (int (negsuc n)) = ground arith
same_value_refl (text s) = eq_refl s
same_value_refl (boolean b) = ground arith
same_value_refl null = refl

same_change_refl :
    (change : Change) → same_change (change_parameters change) (change_parameters change) ≡ true
same_change_refl (append_note body) = rw (same_value_refl body) refl
same_change_refl (update_ticket status) = rw (same_value_refl null, eq_refl status) refl

-- The operation is on record with these parameters.
pub record IsRegistered (change : Change) (ticket_id operation : String)
    (ops : List TicketOperation) : Type 0 where
  pub row : TicketOperation
  pub registered : find_operation ticket_id (operation_key change operation) ops ≡ some row
  pub same_parameters : same_change row.parameters (change_parameters change) ≡ true

-- What a write that returned leaves behind: its operation, and the ticket that it returned.
pub record Writes (change : Change) (ticket_id operation : String) (view : TicketView) (d : Db)
    : Type 0 where
  pub on_record : IsRegistered change ticket_id operation d.ticket_operations
  pub shown : find_ticket ticket_id d.tickets ≡ some view.ticket
  pub named : checked_text (Value.text operation) ≡ ok operation

find_operation-new :
    (change : Change) (ticket_id operation : String) (ops : List TicketOperation)
    → find_operation ticket_id (operation_key change operation) ops ≡ none
    → IsRegistered change ticket_id operation (
        ops
        ++ record {
          operation_id = operation_key change operation;
          ticket_id = ticket_id;
          parameters = change_parameters change;
        }
          ∷ [])
unfolding find_operation
find_operation-new change ticket_id operation ops missing = record {
  row = record {
    operation_id = operation_key change operation;
    ticket_id = ticket_id;
    parameters = change_parameters change;
  };
  registered =
      first-append_missing
        (λ o. o.ticket_id == ticket_id && o.operation_id == operation_key change operation) ops _
        missing
      ∙ rw (eq_refl ticket_id, eq_refl (operation_key change operation)) refl;
  same_parameters = same_change_refl change;
}

-- The row that a read of a ticket answers.
pub ticket_row-found :
    (c : Case) (id : String) (db : Db) (view : TicketView)
    → ticket_row c id db ≡ ok view
    → find_ticket id db.tickets ≡ some view.ticket
unfolding ticket_row
ticket_row-found c id db view h = elim (Option-cases (find_ticket id db.tickets)) [
  | inl missing ↦ cc (rw missing at h)
  | inr (row, there) ↦ there ∙ ap some (ground (arith, rw there at h))
]

event_keeps :
    (s : Session) (tool : Option String) (db : Db) (payload : EventData)
    → Ensures (λ _ d. d.ticket_operations ≡ db.ticket_operations) (event s tool payload db)
unfolding event
event_keeps s tool db payload = refl

query_last :
    {A : Type 0} (Q : A → Db → Type 0) (q : Db → Outcome A) (db : Db)
    → ((a : A) → q db ≡ ok a → Q a db)
    → Ensures Q (query q db)
unfolding ◌>>=◌
query_last {A = A} Q q db k = go (q db) refl
  where
    go : (r : Outcome A) → q db ≡ r → Ensures Q (r, db)
    go (ok a) e = k a e
    go (raised p) e = tt

modified :
    (Q : Unit {0} → Db → Type 0) (f : Db → Db) (db : Db) → Q tt (f db) → Ensures Q (modify f db)
unfolding ◌>>=◌
modified Q f db h = h

Ensures-SameOperations :
    (m : Tx (Unit {0})) (db : Db)
    → Commits SameOperations m
    → Ensures (λ _ d. d.ticket_operations ≡ db.ticket_operations) (m db)
Ensures-SameOperations m db k = go (m db) (k.at db)
  where
    go :
        (x : Outcome (Unit {0}) × Db)
        → Committed SameOperations db x
        → Ensures (λ _ d. d.ticket_operations ≡ db.ticket_operations) x
    go (ok a, d) h = h
    go (raised r, d) h = tt

-- The answer of a write is a read of the ticket, with the operation on record.
read_last :
    (s : Session) (change : Change) (id operation : String) (db : Db)
    → checked_text (Value.text operation) ≡ ok operation
    → IsRegistered change id operation db.ticket_operations
    → Ensures (Writes change id operation) (query (ticket_row s.case id) db)
read_last s change id operation db named kept =
    query_last (Writes change id operation) (ticket_row s.case id) db λ view read. record {
      on_record = kept;
      shown = ticket_row-found s.case id db view read;
      named = named;
    }

module _ (s : Session) (change : Change) (view : TicketView) (operation : String)
    (expected : Option ℕ) (named : checked_text (Value.text operation) ≡ ok operation) where
  write_ticket-Writes :
      (db : Db)
      → find_operation view.ticket.id (operation_key change operation) db.ticket_operations ≡ none
      → Ensures
          (Writes change view.ticket.id operation)
          (write_ticket s change view operation expected db)
  unfolding write_ticket
  write_ticket-Writes db new =
      let id = view.ticket.id in
      let Q : TicketView → Db → Type 0 = Writes change id operation in
      Ensures-guard Q _ _ _ db λ _.
        Ensures-bind Q (λ _ d. d.ticket_operations ≡ db.ticket_operations) _ _ db
          (Ensures-SameOperations _ db (Commits-apply_change change id operation))
          λ _ d same.
            Ensures-bind Q (λ _ e. IsRegistered change id operation e.ticket_operations) _ _ d
              (modified _ _ d (
                find_operation-new change id operation d.ticket_operations
                  (ap (find_operation id (operation_key change operation)) same ∙ new)))
              λ _ e kept. Ensures-query Q _ _ e λ after _.
                Ensures-bind Q (λ _ f. f.ticket_operations ≡ e.ticket_operations) _ _ e
                  (event_keeps s _ e _)
                  λ _ f h.
                    read_last s change id operation f named
                      (subst (IsRegistered change id operation) (sym h) kept)

  repeat_ticket-Writes :
      (db : Db) (previous : Option TicketOperation)
      → find_operation view.ticket.id (operation_key change operation) db.ticket_operations
        ≡ previous
      → Ensures
          (Writes change view.ticket.id operation)
          (repeat_ticket s change view operation expected previous db)
  unfolding repeat_ticket
  repeat_ticket-Writes db none new = write_ticket-Writes db new
  repeat_ticket-Writes db (some o) known =
      Ensures-guard (Writes change view.ticket.id operation) _ _ _ db λ same.
        read_last s change view.ticket.id operation db named
          (record { row = o; registered = known; same_parameters = same })

checked_text-same :
    (operation name : String) → checked_text (Value.text operation) ≡ ok name → name ≡ operation
unfolding checked_text
checked_text-same operation name h = ground arith

pub find_ticket-id :
    (c : Case) (id : String) (db : Db) (view : TicketView)
    → ticket_row c id db ≡ ok view
    → view.ticket.id ≡ id
unfolding find_ticket
find_ticket-id c id db view h =
    eq_of_test view.ticket.id id
      (first_test _ db.tickets view.ticket (ticket_row-found c id db view h))

renamed :
    (change : Change) {id other name operation : String} (x : Outcome TicketView × Db)
    → id ≡ other
    → name ≡ operation
    → Ensures (Writes change id name) x
    → Ensures (Writes change other operation) x
renamed change {id} {operation = operation} x p q h =
    subst (λ i. Ensures (Writes change i operation) x) p
      (subst (λ n. Ensures (Writes change id n) x) q h)

pub ticket_write-Writes :
    (s : Session) (change : Change) (ticket_id operation : String) (expected : Option ℕ) (db : Db)
    → Ensures
        (Writes change ticket_id operation)
        (ticket_write s change ticket_id (Value.text operation) expected db)
unfolding ticket_write
ticket_write-Writes s change ticket_id operation expected db =
    let Q : TicketView → Db → Type 0 = Writes change ticket_id operation in
    Ensures-query Q _ _ db λ _ _. Ensures-query Q _ _ db λ view read.
      Ensures-query Q _ _ db λ name checked. Ensures-gets Q _ _ db (
        let same = checked_text-same operation name checked in
        let previous =
          find_operation view.ticket.id (operation_key change name) db.ticket_operations in
        renamed change (repeat_ticket s change view name expected previous db)
          (find_ticket-id s.case ticket_id db view read) same
          (repeat_ticket-Writes s change view name expected
            (ap (λ x. checked_text (Value.text x)) same ∙ checked) db previous refl))
