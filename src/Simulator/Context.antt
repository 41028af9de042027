-- ===== src/Simulator/Context.antt =====
-- `AgentContext.sleep`, the clock that an adapter sees
-- (packages/breakroom-core/src/breakroom/models.py). Seconds are naturals, hence finite and not
-- negative. It is the sequence of its database accesses with no other thread between them.
use breakroom.Base.{ℕ, ◌+◌, leb}
use breakroom.Simulator.State.{Context, Session}
use breakroom.Simulator.Clock.{sleep}
use breakroom.Simulator.Dispatch.{check_budget}
use breakroom.Simulator.Monad.{Tx, budget_exceeded, query, gets, guard, ◌>>=◌, ◌>>◌}

unfoldable pub context_sleep : Session → Context → ℕ → Tx (Unit {0})
context_sleep s c seconds = do
  query (check_budget c)
  now ← gets (λ db. db.clock)
  guard (leb (now + seconds) c.deadline) budget_exceeded
  sleep s seconds
  query (check_budget c)
