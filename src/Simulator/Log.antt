-- ===== src/Simulator/Log.antt =====
-- `Simulator._event` and the calls that only append to the log
-- (packages/breakroom-core/src/breakroom/simulator.py).
use breakroom.Base.{suc, String, true, Option, none, some, [], ◌∷◌, ◌++◌, length}
use breakroom.Simulator.Calls.{EventData, Handler}
use breakroom.Simulator.State.{Session}
use breakroom.Simulator.Monad.{Tx, ok, transaction}

-- INSERT INTO events; `seq` counts from one, and the bound handler is merged into the data.
unfoldable pub event : Session → Option String → EventData → Tx (Unit {0})
event s tool payload db = (
  ok tt,
  record db {
    events =
        db.events
        ++ record {
          seq = suc (length db.events);
          at = db.clock;
          tool = tool;
          payload = payload;
          handler = s.handler;
        }
          ∷ [];
  },
)

-- `record_event`, a transaction of its own.
unfoldable pub record_event : Session → EventData → Tx (Unit {0})
record_event s payload = transaction (event s none payload)

-- `bind_handler`: the thread's next refund call is its first.
unfoldable pub bind_handler : Session → Handler → Session
bind_handler s h = record s { handler = some h; at_barrier = true }
