-- ===== src/Simulator/Evolution/Dispatch.antt =====
-- `dispatch` as a whole, and any number of calls and sleeps by any sessions
-- (packages/breakroom-core/src/breakroom/simulator.py).
use breakroom.Base.{ℕ, String, Bool, true, false, Option, none, some}
use breakroom.Simulator.Calls.{Call, Response, EventData}
use breakroom.Simulator.State.{Db, Session, Fault, Context}
use breakroom.Simulator.Log.{event}
use breakroom.Simulator.Dispatch.{
  context_budget, admit, rate_limit, before_operation, withhold, after_operation, serve, log_error,
  dispatch, refuse_fault, lose_response,
}
use breakroom.Simulator.Effects.{Moves, move_rules}
use breakroom.Simulator.Monad.{
  Tx, Outcome, ok, raised, tool_error, budget_exceeded, agent_cancelled, value_error,
  integrity_error, type_error, raise, transaction, ◌>>=◌,
}
use breakroom.Simulator.Evolution.{Evolves, Evolves-preorder}
use breakroom.Simulator.Evolution.Clock.{frame_rules, Commits-event}
use breakroom.Simulator.Evolution.Calls.{Commits-operation, Moves-record_event, Moves-fault}

Moves-refuse_fault : (f : Option Fault) → Moves Evolves (refuse_fault f)
Moves-refuse_fault none = search (move_rules, Evolves-preorder)
Moves-refuse_fault (some f) = search (move_rules, Evolves-preorder)

Moves-lose_response : (f : Option Fault) → Moves Evolves (lose_response f)
Moves-lose_response none = search (move_rules, Evolves-preorder)
Moves-lose_response (some f) = search (move_rules, Evolves-preorder)

ruleset dispatch_rules = (
  move_rules, Evolves-preorder, Moves-record_event, Moves-fault, Moves-refuse_fault,
  Moves-lose_response,
)

Moves-rate_limit : (s : Session) (now : ℕ) → Moves Evolves (rate_limit s now)
unfolding rate_limit
Moves-rate_limit s now = search dispatch_rules

Moves-before_operation :
    (s : Session) (call : Call) (invocation : ℕ)
    → Moves Evolves (before_operation s call invocation)
unfolding before_operation
Moves-before_operation s call invocation = search (dispatch_rules, Moves-rate_limit) depth 20

Moves-withhold : (s : Session) (stale : Bool) → Moves Evolves (withhold s stale)
unfolding withhold
Moves-withhold s true = search dispatch_rules
Moves-withhold s false = search dispatch_rules

Moves-after_operation :
    (s : Session) (call : Call) (invocation : ℕ) (response : Response)
    → Moves Evolves (after_operation s call invocation response)
unfolding after_operation
Moves-after_operation s call invocation response = search (dispatch_rules, Moves-withhold) depth 20

Moves-serve : (s : Session) (call : Call) (invocation : ℕ) → Moves Evolves (serve s call invocation)
unfolding serve
Moves-serve s call invocation =
    search
      (
        dispatch_rules, Moves-before_operation, Moves-after_operation, Commits-operation,
        Commits-event,
      )
      depth 20

pub Moves-admit : (s : Session) (call : Call) → Moves Evolves (admit s call)
unfolding admit
Moves-admit s call = search (move_rules, frame_rules) depth 20

Moves-context_budget : (c : Option Context) → Moves Evolves (context_budget c)
unfolding context_budget
Moves-context_budget none = search dispatch_rules
Moves-context_budget (some c) = search dispatch_rules

-- The handler of `ToolError` appends to the log where the body ended.
Moves-log_error :
    (s : Session) (tool : String) (invocation : ℕ) (m : Tx (Response × String))
    → Moves Evolves m
    → Moves Evolves (log_error s tool invocation m)
unfolding log_error
Moves-log_error s tool invocation m h = record { at = λ db. go db (m db) (h.at db) }
  where
    again :
        (code : String) (retry : ℕ)
        → Moves Evolves (
            transaction (event s (some tool) (EventData.tool_error invocation code retry)) >>= λ _.
            raise {A = Response × String} (tool_error code retry))
    again code retry = search (dispatch_rules, Commits-event)

    go :
        (db : Db) (x : Outcome (Response × String) × Db)
        → Evolves db x.1
        → Evolves db (log_error s tool invocation (λ _. x) db).1
    go db (ok a, d) e = e
    go db (raised (tool_error code retry), d) e =
        Evolves-preorder.chain db d _ e ((again code retry).at d)
    go db (raised budget_exceeded, d) e = e
    go db (raised agent_cancelled, d) e = e
    go db (raised value_error, d) e = e
    go db (raised integrity_error, d) e = e
    go db (raised type_error, d) e = e

-- A call evolves the database, whether it returns, is refused or loses its response.
pub Moves-dispatch : (s : Session) (call : Call) → Moves Evolves (dispatch s call)
unfolding dispatch
Moves-dispatch s call =
    search (dispatch_rules, Moves-context_budget, Moves-admit, Moves-log_error, Moves-serve) depth
      20
