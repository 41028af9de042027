-- ===== src/Simulator/Safety/Budget.antt =====
-- The budget of tool calls in `dispatch` (packages/breakroom-core/src/breakroom/simulator.py).
use breakroom.Base.{
  ℕ, suc, ◌≤◌, ◌≡◌, refl, ap, ◌∙◌, ◌⊎◌, inl, inr, String, true, false, List, [], ◌∷◌, arith, leb,
  Bool-cases,
}
use breakroom.Simulator.Calls.{Call, tool_name}
use breakroom.Simulator.State.{Db, Session}
use breakroom.Simulator.Monad.{ok, raised, budget_exceeded, ◌>>=◌, transaction}
use breakroom.Simulator.Log.{event}
use breakroom.Simulator.Operation.{invocation_count}
use breakroom.Simulator.Dispatch.{admit, count_call, total_calls}

total_calls-count_call :
    (tool : String) (counters : List (String × ℕ))
    → total_calls (count_call tool counters) ≡ suc (total_calls counters)
unfolding total_calls count_call
total_calls-count_call tool [] = refl
total_calls-count_call tool (x ∷ xs) = ground (arith, total_calls-count_call tool xs)

module _ (s : Session) (call : Call) (db : Db) where
  admit-full :
      leb s.case.liveness.max_tool_calls (total_calls db.invocations) ≡ true
      → admit s call db ≡ (raised budget_exceeded, db)
  unfolding admit ◌>>=◌ transaction event
  admit-full full = ground (arith, full)

  admit-room :
      leb s.case.liveness.max_tool_calls (total_calls db.invocations) ≡ false
      → ((n : ℕ) × ((admit s call db).0 ≡ ok n))
        × ((admit s call db).1.invocations ≡ count_call (tool_name call) db.invocations)
  unfolding admit ◌>>=◌ transaction event
  admit-room room = (
    (
      invocation_count (tool_name call) (count_call (tool_name call) db.invocations),
      ground (arith, room),
    ),
    ground (arith, room),
  )

at_most : (after total limit : ℕ) → after ≡ suc total → leb limit total ≡ false → after ≤ limit
at_most after total limit e h = ground arith

-- A call either enters the budget, and then the database counts one call more and no more than the
-- case allows; or the budget was used up, and then the call raises `BudgetExceeded` and nothing is
-- written.
pub admit-budget :
    (s : Session) (call : Call) (db : Db)
    → ((n : ℕ) × ((admit s call db).0 ≡ ok n)
        × (total_calls (admit s call db).1.invocations ≡ suc (total_calls db.invocations))
        × (total_calls (admit s call db).1.invocations ≤ s.case.liveness.max_tool_calls))
      ⊎ ((admit s call db ≡ (raised budget_exceeded, db))
          × (s.case.liveness.max_tool_calls ≤ total_calls db.invocations))
admit-budget s call db =
    elim (Bool-cases (leb s.case.liveness.max_tool_calls (total_calls db.invocations))) [
      | inl full ↦ inr (admit-full s call db full, ground arith)
      | inr room ↦
          let ((n, answer), counted) = admit-room s call db room in
          let one_more =
            ap total_calls counted ∙ total_calls-count_call (tool_name call) db.invocations in
          inl (n, answer, one_more, at_most _ _ _ one_more room)
    ]
