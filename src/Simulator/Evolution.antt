-- ===== src/Simulator/Evolution.antt =====
-- What no call of the simulator can undo: the order in which its tables may change
-- (packages/breakroom-core/src/breakroom/simulator.py).
pub mod Clock
pub mod Inserts
pub mod Payments
pub mod Tickets
pub mod Calls
pub mod Dispatch
use breakroom.Base.{
  ℕ, ◌+◌, ◌≤◌, ◌≡◌, refl, sym, ap, ◌∙◌, String, Bool, true, false, ◌==◌, eq_iff, Option, none, some,
  List, [], ◌∷◌, first, update_where, arith, Extends, Extends-refl, Extends-trans, Extends-append,
  Bool-cases, inl, inr, if◌then◌else◌,
}
use breakroom.Simulator.Rows.{Customer, Note, TicketOperation, Ticket, Permission}
use breakroom.Simulator.Calls.{Event}
use breakroom.Simulator.State.{Db}
use breakroom.Simulator.Queries.{find_ticket}
use breakroom.Simulator.Ticket.{update_tickets}
use breakroom.Simulator.Effects.{Preorder}
use breakroom.Ledger.Machine.{Ledger, Reach, here, Reach-trans}

abbrev pub ledger : Db → Ledger
ledger db = record { orders = db.orders; refunds = db.refunds; registry = db.idempotency }

abbrev pub granted : String → List Permission → Bool
granted operation permissions = elim (first (λ p. p.operation == operation) permissions) [
  | none ↦ false
  | some p ↦ p.allowed
]

-- The ticket is still there, for the same customer and order, at the same version or a later one.
abbrev pub Later : List Ticket → List Ticket → Type 0
Later a b =
    (id : String) (t : Ticket)
    → find_ticket id a ≡ some t
    → (u : Ticket) × (find_ticket id b ≡ some u)
      × (t.version ≤ u.version)
      × (u.customer_id ≡ t.customer_id)
      × (u.order_id ≡ t.order_id)

pub record Evolves (a b : Db) : Type 0 where
  pub pays : Reach (ledger a) (ledger b)
  pub customers : b.customers ≡ a.customers
  pub clock : a.clock ≤ b.clock
  pub log : Extends a.events b.events
  pub notes : Extends a.notes b.notes
  pub operations : Extends a.ticket_operations b.ticket_operations
  pub tickets : Later a.tickets b.tickets
  pub permissions :
      (operation : String)
      → granted operation b.permissions ≡ true
      → granted operation a.permissions ≡ true

pub Later-refl : (a : List Ticket) → Later a a
Later-refl a id t e = (t, e, omega arith, refl, refl)

Later-trans : (a b c : List Ticket) → Later a b → Later b c → Later a c
Later-trans a b c p q id t e =
    let (u, found, older, customer, order) = p id t e in
    let (v, found', older', customer', order') = q id u found in
    (v, found', omega arith, customer' ∙ customer, order' ∙ order)

abbrev pub Grown : Ticket → Ticket → Type 0
Grown t u =
    (u.id ≡ t.id)
    × (t.version ≤ u.version)
    × (u.customer_id ≡ t.customer_id)
    × (u.order_id ≡ t.order_id)

Grown-if : (b : Bool) (t u : Ticket) → Grown t u → Grown t (if b then u else t)
Grown-if true t u g = g
Grown-if false t u g = (refl, omega arith, refl, refl)

-- An update that keeps identifiers and does not lower versions.
pub Later-update :
    (f : Ticket → Ticket) (id : String)
    → ((t : Ticket) → Grown t (f t))
    → (a : List Ticket) → Later a (update_tickets id f a)
unfolding update_tickets find_ticket
Later-update f id keeps [] k t e = cc
Later-update f id keeps (x ∷ xs) k t e =
    let y : Ticket = if x.id == id then f x else x in
    let (same, older, customer, order) = Grown-if (x.id == id) x (f x) (keeps x) in
    elim (Bool-cases (x.id == k)) [
      | inl hit ↦
          let now : x ≡ t = ground (arith, hit) in
          (y, rw (same, hit), rw (← now) older, rw (← now) customer, rw (← now) order)
      | inr miss ↦
          let (u, found, later, owner, target) =
            Later-update f id keeps xs k t (ground (arith, miss)) in
          (u, rw (same, miss) found, later, owner, target)
    ]

pub Evolves-refl : (db : Db) → Evolves db db
Evolves-refl db = record {
  pays = here;
  customers = refl;
  clock = omega arith;
  log = Extends-refl db.events;
  notes = Extends-refl db.notes;
  operations = Extends-refl db.ticket_operations;
  tickets = Later-refl db.tickets;
  permissions = λ o h. h;
}

pub Evolves-preorder : Preorder Evolves
Evolves-preorder = record {
  same = Evolves-refl;
  chain = λ a b c p q. record {
    pays = Reach-trans p.pays q.pays;
    customers = q.customers ∙ p.customers;
    clock = omega arith;
    log = Extends-trans a.events b.events c.events p.log q.log;
    notes = Extends-trans a.notes b.notes c.notes p.notes q.notes;
    operations =
        Extends-trans a.ticket_operations b.ticket_operations c.ticket_operations p.operations
          q.operations;
    tickets = Later-trans a.tickets b.tickets c.tickets p.tickets q.tickets;
    permissions = λ o h. p.permissions o (q.permissions o h);
  };
}

-- The fields that the relation reads.
abbrev Core : Type 0
Core =
    Ledger
    × List Customer
    × ℕ
    × List Event
    × List Note
    × List TicketOperation
    × List Ticket
    × List Permission

abbrev pub core : Db → Core
core db = (
  ledger db,
  db.customers,
  db.clock,
  db.events,
  db.notes,
  db.ticket_operations,
  db.tickets,
  db.permissions,
)

pub Evolves-frame : (a b : Db) → core b ≡ core a → Evolves a b
Evolves-frame a b e = record {
  pays = rw (ap (λ c. c.0) e) here;
  customers = ap (λ c. c.1) e;
  clock = rw (ap (λ c. c.2) e) (omega arith);
  log = rw (ap (λ c. c.3) e) (Extends-refl a.events);
  notes = rw (ap (λ c. c.4) e) (Extends-refl a.notes);
  operations = rw (ap (λ c. c.5) e) (Extends-refl a.ticket_operations);
  tickets = rw (ap (λ c. c.6) e) (Later-refl a.tickets);
  permissions = rw (ap (λ c. c.7) e) (λ o h. h);
}
