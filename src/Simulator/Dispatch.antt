-- ===== src/Simulator/Dispatch.antt =====
-- `Simulator.dispatch` and `_fault`, with `AgentContext.check_budget`
-- (packages/breakroom-core/src/breakroom/simulator.py and models.py).
use breakroom.Base.{
  ℕ, ◌+◌, ◌-◌, String, Bool, true, false, not, ◌&&◌, ◌||◌, Option, none, some, List, [], ◌∷◌,
  length, leb, ltb, first, update_where, ◌==◌, ◌=ℕ=◌, if◌then◌else◌,
}
use breakroom.Base.Decimal.{format_06d}
use Prim.Native.String.{◌++◌ as join}
use breakroom.Simulator.Calls.{Call, Response, EventData, tool_name}
use breakroom.Simulator.State.{Db, Session, Context, Fault}
use breakroom.Simulator.Log.{event, record_event}
use breakroom.Simulator.Operation.{operation, invocation_count}
use breakroom.Simulator.Monad.{
  Tx, Outcome, ok, raised, tool_error, budget_exceeded, agent_cancelled, query, modify, gets, pure,
  raise, refuse, guard, when, transaction, ◌>>=◌, ◌>>◌,
}

-- `AgentContext.check_budget`
unfoldable pub check_budget : Context → Db → Outcome (Unit {0})
check_budget c db =
    if c.cancelled
    then raised agent_cancelled
    else if c.wall_expired || ltb c.deadline db.clock
    then raised budget_exceeded
    else ok tt

-- `if self.context: self.context.check_budget()`
unfoldable pub context_budget : Option Context → Tx (Unit {0})
context_budget none = pure tt
context_budget (some c) = query (check_budget c)

-- SELECT COALESCE(SUM(count),0) FROM invocations
unfoldable pub total_calls : List (String × ℕ) → ℕ
total_calls [] = 0
total_calls ((name, n) ∷ rest) = n + total_calls rest

-- INSERT ... ON CONFLICT(tool) DO UPDATE SET count=count+1
unfoldable pub count_call : String → List (String × ℕ) → List (String × ℕ)
count_call tool [] = (tool, 1) ∷ []
count_call tool ((name, n) ∷ rest) =
    if name == tool then (name, n + 1) ∷ rest else (name, n) ∷ count_call tool rest

-- The first transaction of `dispatch`: the budget of calls, the count, and the log entry.
unfoldable pub admit : Session → Call → Tx ℕ
unfolding total_calls count_call invocation_count tool_name
admit s call = transaction (do
  total ← gets (λ db. total_calls db.invocations)
  guard (not (leb s.case.liveness.max_tool_calls total)) budget_exceeded
  modify λ db. record db { invocations = count_call (tool_name call) db.invocations }
  invocation ← gets (λ db. invocation_count (tool_name call) db.invocations)
  event s (some (tool_name call)) (EventData.tool_call invocation call)
  pure invocation)

unfoldable pub find_fault : Session → String → ℕ → String → Option Fault
find_fault s tool invocation phase =
    first (λ f. f.tool == tool && f.invocation =ℕ= invocation && f.phase == phase) s.case.faults

abbrev count_fault : String → List (String × ℕ) → List (String × ℕ)
count_fault id = update_where (λ c. c.0 == id) (λ c. (c.0, c.1 + 1))

-- The counter and the log entry of a fault that is due.
unfoldable pub trigger : Session → String → ℕ → String → Option Fault → Tx (Option Fault)
trigger s tool invocation phase none = pure none
trigger s tool invocation phase (some f) = transaction (do
  modify λ db. record db { fault_counters = count_fault f.id db.fault_counters }
  event s (some tool) (EventData.fault_triggered f.id phase f.action invocation)
  pure (some f))

-- `_fault`
unfoldable pub fault : Session → String → ℕ → String → Tx (Option Fault)
unfolding find_fault
fault s tool invocation phase = trigger s tool invocation phase (find_fault s tool invocation phase)

abbrev pub is_create : Call → Bool
is_create (Call.create_refund _) = true
is_create _ = false

-- The tools whose answers `hidden_until` withholds.
abbrev pub is_refund_call : Call → Bool
is_refund_call (Call.create_refund _) = true
is_refund_call (Call.list_refunds _ _) = true
is_refund_call (Call.get_refund _) = true
is_refund_call _ = false

abbrev pub is_list : Call → Bool
is_list (Call.list_refunds _ _) = true
is_list _ = false

abbrev pub refuse_fault : Option Fault → Tx (Unit {0})
refuse_fault none = pure tt
refuse_fault (some f) = raise (tool_error f.action f.retry_after)

abbrev pub lose_response : Option Fault → Tx (Unit {0})
lose_response none = pure tt
lose_response (some f) = refuse "transport_timeout"

unfoldable pub rate_limit : Session → ℕ → Tx (Unit {0})
rate_limit s now = do
  record_event s (EventData.rate_limited s.case.behavior.rate_limit_until)
  raise (tool_error "rate_limit" (s.case.behavior.rate_limit_until - now))

-- The refusals that precede the operation's transaction.
unfoldable pub before_operation : Session → Call → ℕ → Tx (Unit {0})
unfolding tool_name
before_operation s call invocation = do
  f ← fault s (tool_name call) invocation "before"
  refuse_fault f
  when (is_create call && s.at_barrier) (record_event s EventData.barrier_arrived)
  now ← gets (λ db. db.clock)
  when (is_create call && ltb now s.case.behavior.rate_limit_until) (rate_limit s now)

-- A stale empty list, or no answer at all.
unfoldable pub withhold : Session → Bool → Tx Response
withhold s true = do
  record_event s (EventData.stale_read s.case.behavior.stale_until)
  pure Response.no_items
withhold s false = do record_event s EventData.hidden_response; refuse "transport_timeout"

-- What the service shows of a committed answer.
unfoldable pub after_operation : Session → Call → ℕ → Response → Tx Response
unfolding tool_name
after_operation s call invocation response = do
  lost ← fault s (tool_name call) invocation "after_commit"
  lose_response lost
  now ← gets (λ db. db.clock)
  shown ←
      if is_refund_call call && ltb now s.case.behavior.hidden_until
      then withhold s (is_list call && ltb now s.case.behavior.stale_until)
      else pure response
  f ← fault s (tool_name call) invocation "read_response"
  pure (elim f [
    | none ↦ shown
    | some g ↦ if g.action == "stale" then Response.no_items else Response.incomplete shown
  ])

-- f"evt_{seq:06d}"
unfoldable pub evidence_ref : ℕ → String
unfolding format_06d
evidence_ref seq = join "evt_" (format_06d seq)

-- The `try` block of `dispatch`.
unfoldable pub serve : Session → Call → ℕ → Tx (Response × String)
unfolding evidence_ref tool_name
serve s call invocation = do
  before_operation s call invocation
  response ← transaction (operation s call)
  shown ← after_operation s call invocation response
  transaction (event s (some (tool_name call)) (EventData.tool_response invocation shown))
  gets λ db. (shown, evidence_ref (length db.events))

-- `except ToolError`: log and raise again.
unfoldable pub log_error {ℓ} : {A : Type ℓ} → Session → String → ℕ → Tx A → Tx A
log_error s tool invocation m db =
    let (r, db') = m db in
    elim r [
      | ok a ↦ (ok a, db')
      | raised e ↦ elim e [
        | tool_error code retry ↦
            (transaction (event s (some tool) (EventData.tool_error invocation code retry))
                >> raise (tool_error code retry))
              db'
        | other ↦ (raised other, db')
      ]
    ]

-- `dispatch`
unfoldable pub dispatch : Session → Call → Tx (Response × String)
unfolding tool_name
dispatch s call = do
  context_budget s.context
  invocation ← admit s call
  log_error s (tool_name call) invocation (serve s call invocation)
