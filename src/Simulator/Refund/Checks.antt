-- ===== src/Simulator/Refund/Checks.antt =====
-- The checks of `Simulator._refund` before the registry is read
-- (packages/breakroom-core/src/breakroom/simulator.py).
use breakroom.Base.{
  ℕ, ◌^◌, String, pos, Bool, false, not, ◌&&◌, Option, none, some, leb, ltb, ◌==◌, ◌=ℕ=◌,
  if◌then◌else◌,
}
use Prim.Native.String.{count}
use breakroom.Simulator.Rows.{Order, Parameters, Value}
use breakroom.Simulator.Calls.{RefundArguments}
use breakroom.Simulator.State.{Case, Db}
use breakroom.Simulator.Answer.{Outcome, ok, raised, tool_error, ◌>>=◌, ◌>>◌, guard}
use breakroom.Simulator.Queries.{parameters_of, order_row, permission}

abbrev pub max_amount : ℕ
max_amount = 10 ^ 12

-- type(amount) is int and 0 < amount <= 10**12
unfoldable pub checked_amount : Value → Outcome ℕ
checked_amount (Value.int (pos n)) =
    if ltb 0 n && leb n max_amount then ok n else raised (tool_error "invalid_amount" 0)
checked_amount _ = raised (tool_error "invalid_amount" 0)

-- isinstance(text, str) and 0 < len(text) <= 200
unfoldable pub checked_text : Value → Outcome String
checked_text (Value.text s) =
    if ltb 0 (count s) && leb (count s) 200 then ok s else raised (tool_error "invalid_request" 0)
checked_text _ = raised (tool_error "invalid_request" 0)

-- args.get("customer_id") is not None, and it is another customer than the order's
abbrev pub names_other : Option String → String → Bool
names_other none owner = false
names_other (some c) owner = not (c == owner)

abbrev pub same_parameters : Parameters → Parameters → Bool
same_parameters p q =
    p.order_id == q.order_id
    && p.amount_minor =ℕ= q.amount_minor
    && p.currency == q.currency
    && p.logical_request_id == q.logical_request_id

-- What is established before the registry is read.
pub record Checked : Type 0 where
  pub order : Order
  pub parameters : Parameters
  pub operation_key : String

unfoldable pub refund_checks : Case → RefundArguments → Db → Outcome Checked
refund_checks c args db = do
  permission "refund" db
  amount ← checked_amount args.amount_minor
  key ← checked_text args.operation_key
  request ← checked_text args.logical_request_id
  order ← order_row c args.order_id db
  guard (not (names_other args.customer_id order.customer_id)) (tool_error "ownership_mismatch" 0)
  guard (args.currency == order.currency) (tool_error "currency_mismatch" 0)
  ok (record {
    order = order;
    parameters = parameters_of order.id amount args.currency request;
    operation_key = key;
  })
