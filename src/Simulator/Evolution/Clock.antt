-- ===== src/Simulator/Evolution/Clock.antt =====
-- `sleep`, the notifications and the log keep the relation
-- (packages/breakroom-core/src/breakroom/simulator.py).
use breakroom.Base.{
  ℕ, zero, suc, pos, negsuc, ◌+◌, ◌≤◌, ◌<◌, ◌≡◌, refl, sym, ap, ◌∙◌, subst, String, ◌⊎◌, inl, inr,
  Bool, true, false, ◌&&◌, ◌||◌, ◌=ℕ=◌, not, leb, ltb, ◌==◌, eq_iff, eq_of_test, Option, none, some,
  List, [], ◌∷◌, ◌++◌, Bool-cases, Option-cases, arith, any, first, first_test, Extends-append,
  Extends-refl, if◌then◌else◌,
}
use breakroom.Simulator.Rows.{Refund, RefundStatus, ScheduledEvent, Notification}
use breakroom.Simulator.Calls.{EventData}
use breakroom.Simulator.State.{Db, Session}
use breakroom.Simulator.Log.{event}
use breakroom.Simulator.Clock.{
  settle_row, deliver, deliver_all, sleep, queue_one, queue_all, queue_notifications, schedule,
  transition_id, is_pending,
}
use breakroom.Simulator.Refund.{announce}
use breakroom.Simulator.Effects.{
  Preorder, Committed, Commits, Moves, commit_rules, move_rules, Commits-modify, Commits-bind,
  Commits-gets, Commits-query, Commits-pure, Commits-when, Commits-guard, Commits-raise, Commits-if,
  Committed-query, Committed-gets, Committed-guard, Committed-bind, Moves-transaction, Moves-bind,
}
use breakroom.Simulator.Monad.{modify}
use breakroom.Ledger.Machine.{settling, here, Reach-one}
use breakroom.Simulator.Evolution.{
  Evolves, Evolves-refl, Evolves-preorder, Evolves-frame, Later-refl, core, ledger,
}

-- A write that leaves the fields alone that the relation reads.
pub Commits-frame : (f : Db → Db) → ((db : Db) → core (f db) ≡ core db) → Commits Evolves (modify f)
Commits-frame f same = Commits-modify f (λ db. Evolves-frame db (f db) (same db))

pub Commits-event :
    (s : Session) (tool : Option String) (payload : EventData)
    → Commits Evolves (event s tool payload)
unfolding event
Commits-event s tool payload = record {
  at = λ db. record {
    pays = here;
    customers = refl;
    clock = omega arith;
    log = Extends-append db.events _;
    notes = Extends-refl db.notes;
    operations = Extends-refl db.ticket_operations;
    tickets = Later-refl db.tickets;
    permissions = λ o h. h;
  };
}

pub ruleset frame_rules = (commit_rules, Evolves-preorder, Commits-event, Commits-frame, refl)

pub Commits-queue_one : (s : Session) (n : Notification) → Commits Evolves (queue_one s n)
unfolding queue_one
Commits-queue_one s n = search frame_rules

Commits-queue_all : (s : Session) (ns : List Notification) → Commits Evolves (queue_all s ns)
unfolding queue_all
Commits-queue_all s [] = search frame_rules
Commits-queue_all s (n ∷ ns) =
    Commits-bind Evolves-preorder (queue_one s n) _ (Commits-queue_one s n)
      (λ _. Commits-queue_all s ns)

pub Commits-queue_notifications :
    (s : Session) (r : Refund) → Commits Evolves (queue_notifications s r)
unfolding queue_notifications
Commits-queue_notifications s r = search (frame_rules, Commits-queue_all)

pub Commits-schedule :
    (id : String) (at : ℕ) (status : Option RefundStatus) → Commits Evolves (schedule id at status)
unfolding schedule
Commits-schedule id at status = record {
  at = λ db. elim (Option-cases (first (λ e. e.id == transition_id id) db.scheduled_events)) [
    | inl e ↦ rw (e, schedule) (Evolves-frame db _ refl)
    | inr (x, e) ↦ rw (e, schedule) tt
  ];
}

-- A settled refund is a step of the machine.
Commits-settle_row :
    (id : String) (status : Option RefundStatus) → Commits Evolves (settle_row id status)
unfolding settle_row
Commits-settle_row id none = record {
  at = λ db. elim (Bool-cases (any (λ r. r.id == id && is_pending r.status) db.refunds)) [
    | inl e ↦ rw (e, settle_row) tt
    | inr e ↦ rw (e, settle_row) (Evolves-refl db)
  ];
}
Commits-settle_row id (some status) = record {
  at = λ db. record {
    pays = Reach-one (settling id status refl);
    customers = refl;
    clock = omega arith;
    log = Extends-refl db.events;
    notes = Extends-refl db.notes;
    operations = Extends-refl db.ticket_operations;
    tickets = Later-refl db.tickets;
    permissions = λ o h. h;
  };
}

Commits-deliver : (s : Session) (e : ScheduledEvent) → Commits Evolves (deliver s e)
unfolding deliver
Commits-deliver s e = search (frame_rules, Commits-settle_row, Commits-queue_notifications) depth 12

Commits-deliver_all : (s : Session) (es : List ScheduledEvent) → Commits Evolves (deliver_all s es)
unfolding deliver_all
Commits-deliver_all s [] = search frame_rules
Commits-deliver_all s (e ∷ es) =
    Commits-bind Evolves-preorder (deliver s e) _ (Commits-deliver s e)
      (λ _. Commits-deliver_all s es)

abbrev advance : ℕ → Db → Db
advance seconds db = record db { clock = db.clock + seconds }

Commits-advance : (seconds : ℕ) → Commits Evolves (modify (advance seconds))
Commits-advance seconds = Commits-modify (advance seconds) λ db. record {
  pays = here;
  customers = refl;
  clock = omega arith;
  log = Extends-refl db.events;
  notes = Extends-refl db.notes;
  operations = Extends-refl db.ticket_operations;
  tickets = Later-refl db.tickets;
  permissions = λ o h. h;
}

pub Moves-sleep : (s : Session) (seconds : ℕ) → Moves Evolves (sleep s seconds)
unfolding sleep
Moves-sleep s seconds =
    search (frame_rules, Moves-transaction, Commits-advance, Commits-deliver_all) depth 12

pub Commits-announce : (s : Session) (r : Refund) → Commits Evolves (announce s r)
unfolding announce
Commits-announce s r = search (frame_rules, Commits-schedule, Commits-queue_notifications) depth 12
