-- ===== src/Simulator/Safety/Tickets.antt =====
-- A ticket write that is made again after any run
-- (packages/breakroom-core/src/breakroom/simulator.py, `_ticket_write`).
use breakroom.Base.{
  ℕ, ◌≤◌, ◌≡◌, ap, ◌∙◌, subst, sym, String, Option, some, true, arith, first-append_found,
}
use breakroom.Simulator.Rows.{Ticket, TicketView, TicketOperation, Value}
use breakroom.Simulator.State.{Db, Session}
use breakroom.Simulator.Queries.{ticket_row, permission}
use breakroom.Simulator.Refund.Checks.{checked_text}
use breakroom.Simulator.Ticket.{
  Change, change_parameters, same_change, operation_key, find_operation, repeat_ticket,
  ticket_write,
}
use breakroom.Simulator.Monad.{ok, ◌>>=◌}
use breakroom.Simulator.Ensures.{Ensures}
use breakroom.Simulator.Safety.Interleaving.{Run, Run-Evolves}
use breakroom.Simulator.Safety.Writes.{
  Writes, ticket_write-Writes, ticket_row-found, find_ticket-id,
}

module _ (s : Session) (change : Change) (ticket_id operation : String) (db : Db)
    (view : TicketView) (allowed : permission "ticket_write" db ≡ ok tt)
    (read : ticket_row s.case ticket_id db ≡ ok view)
    (named : checked_text (Value.text operation) ≡ ok operation) where
  repeated_write :
      (o : TicketOperation) (expected : Option ℕ)
      → find_operation view.ticket.id (operation_key change operation) db.ticket_operations ≡ some o
      → same_change o.parameters (change_parameters change) ≡ true
      → ticket_row s.case view.ticket.id db ≡ ok view
      → ticket_write s change ticket_id (Value.text operation) expected db ≡ (ok view, db)
  unfolding ticket_write repeat_ticket ◌>>=◌
  repeated_write o expected known same again =
      ground (arith, allowed, read, named, known, same, again)

-- Suppose a ticket write returned a ticket, and any threads then ran any transactions. If writes are
-- still permitted and the ticket is readable, then the same change under the same operation, made
-- again by any session and whatever version it expects, returns the ticket as it is now, at the
-- version that was returned or a later one, and changes nothing.
pub ticket_retry :
    (s t : Session) (change : Change) (ticket_id operation : String) (expected again : Option ℕ)
    (a b d : Db) (view now : TicketView)
    → ticket_write s change ticket_id (Value.text operation) expected a ≡ (ok view, b)
    → Run b d
    → permission "ticket_write" d ≡ ok tt
    → ticket_row t.case ticket_id d ≡ ok now
    → (ticket_write t change ticket_id (Value.text operation) again d ≡ (ok now, d))
      × (view.ticket.version ≤ now.ticket.version)
unfolding find_operation
ticket_retry s t change ticket_id operation expected again a b d view now returned run allowed
      read =
    let w =
      subst (Ensures (Writes change ticket_id operation)) returned
        (ticket_write-Writes s change ticket_id operation expected a) in
    let e = Run-Evolves run in
    let (later, longer) = e.operations in
    let (u, found_now, older, _, _) = e.tickets ticket_id view.ticket w.shown in
    let id = find_ticket-id t.case ticket_id d now read in
    let known =
      ap (find_operation ticket_id (operation_key change operation)) longer
      ∙ first-append_found _ b.ticket_operations later w.on_record.row w.on_record.registered in
    let present = ticket_row-found t.case ticket_id d now read in
    (
      repeated_write t change ticket_id operation d now allowed read w.named w.on_record.row again
          (ap (λ i. find_operation i (operation_key change operation) d.ticket_operations) id
            ∙ known)
          w.on_record.same_parameters (ap (λ i. ticket_row t.case i d) id ∙ read),
      newer u.version now.ticket.version older (same_version (sym found_now ∙ present)),
    )
  where
    same_version : {x y : Ticket} → some x ≡ some y → x.version ≡ y.version
    same_version h = cc

    newer : (m n : ℕ) {k : ℕ} → k ≤ m → m ≡ n → k ≤ n
    newer m n h e = omega (arith, h, e)
