-- ===== src/Simulator/Safety/Interleaving.antt =====
-- Threads share the database only through transactions, so a run of any number of handlers is a
-- sequence of the transactions below (packages/breakroom-core/src/breakroom/simulator.py and
-- execution.py).
use breakroom.Base.{ℕ, ◌≤◌, ◌≡◌, subst, sym, String, Option, some}
use breakroom.Simulator.Rows.{Order}
use breakroom.Simulator.Calls.{Call, EventData}
use breakroom.Simulator.State.{Db, Session, Case}
use breakroom.Simulator.Queries.{find_order, reserved}
use breakroom.Simulator.Log.{event}
use breakroom.Simulator.Clock.{sleep}
use breakroom.Simulator.Operation.{operation}
use breakroom.Simulator.Dispatch.{admit, fault}
use breakroom.Simulator.Monad.{transaction}
use breakroom.Simulator.Initialize.{initialize}
use breakroom.Simulator.Effects.{Moves-transaction}
use breakroom.Simulator.Evolution.{Evolves, Evolves-preorder, Evolves-refl}
use breakroom.Simulator.Evolution.Clock.{Commits-event, Moves-sleep}
use breakroom.Simulator.Evolution.Calls.{Commits-operation, Moves-fault}
use breakroom.Simulator.Evolution.Dispatch.{Moves-admit}
use breakroom.Simulator.Safety.Fresh.{IsValidFixture, initialize-IsSound}
use breakroom.Ledger.Invariant.{key_count, Reach-IsSound}

-- One transaction of some thread.
pub data Transaction (a b : Db) : Type 0 where
  admitted : (s : Session) (call : Call) → b ≡ (admit s call a).1 → Transaction a b
  faulted :
      (s : Session) (tool : String) (invocation : ℕ) (phase : String)
      → b ≡ (fault s tool invocation phase a).1
      → Transaction a b
  operated :
      (s : Session) (call : Call) → b ≡ (transaction (operation s call) a).1 → Transaction a b
  logged :
      (s : Session) (tool : Option String) (payload : EventData)
      → b ≡ (transaction (event s tool payload) a).1
      → Transaction a b
  slept : (s : Session) (seconds : ℕ) → b ≡ (sleep s seconds a).1 → Transaction a b

pub data Run (a : Db) : Db → Type 0 where
  start : Run a a
  step : {b c : Db} → Run a b → Transaction b c → Run a c

Transaction-Evolves : {a b : Db} → Transaction a b → Evolves a b
Transaction-Evolves {a} (admitted s call e) = subst (Evolves a) (sym e) ((Moves-admit s call).at a)
Transaction-Evolves {a} (faulted s tool n phase e) =
    subst (Evolves a) (sym e) ((Moves-fault s tool n phase).at a)
Transaction-Evolves {a} (operated s call e) =
    subst (Evolves a) (sym e)
      ((Moves-transaction Evolves-preorder (operation s call) (Commits-operation s call)).at a)
Transaction-Evolves {a} (logged s tool payload e) = subst (Evolves a) (sym e) (
    (Moves-transaction Evolves-preorder (event s tool payload) (Commits-event s tool payload)).at a)
Transaction-Evolves {a} (slept s seconds e) =
    subst (Evolves a) (sym e) ((Moves-sleep s seconds).at a)

-- However the transactions of the threads interleave, the ledger moves by steps of the payment
-- machine, the log, the notes and the ticket operations are only appended to, the clock does not go
-- back, tickets stay with versions that do not fall, and no permission is granted.
pub Run-Evolves : {a b : Db} → Run a b → Evolves a b
Run-Evolves {a} start = Evolves-refl a
Run-Evolves {a} (step {b} {c} r t) =
    Evolves-preorder.chain a b c (Run-Evolves r) (Transaction-Evolves t)

-- In every run from a fresh database of a valid fixture, whatever the threads call and in whatever
-- order their transactions commit, the pending and succeeded refunds of an order never add up to
-- more than the order's amount.
pub no_over_refund :
    (c : Case) (db : Db) (id : String) (o : Order)
    → IsValidFixture c
    → Run (initialize c) db
    → find_order id db.orders ≡ some o
    → reserved id db.refunds ≤ o.amount_minor
no_over_refund c db id o v r found =
    (Reach-IsSound (Run-Evolves r).pays (initialize-IsSound c v)).balanced id o found

-- In every run from a fresh database of a valid fixture, at most one refund carries any given
-- operation key.
pub refund_once :
    (c : Case) (db : Db) (key : String)
    → IsValidFixture c
    → Run (initialize c) db
    → key_count key db.refunds ≤ 1
refund_once c db key v r = (Reach-IsSound (Run-Evolves r).pays (initialize-IsSound c v)).once key
