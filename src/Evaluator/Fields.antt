-- ===== src/Evaluator/Fields.antt =====
-- JSON objects as the evaluator reads them: the scalar fields of the responses in the event log
-- (packages/breakroom-core/src/breakroom/simulator.py, `_operation`) and of an agent's claims
-- (packages/breakroom-core/src/breakroom/evaluator.py, `_claim_checks`).
use breakroom.Base.{
  same_bool, String, ℤ, pos, negsuc, Bool, true, false, not, ◌||◌, Option, none, some, List, [],
  ◌∷◌, map, first, filter, ◌==◌, ◌=ℕ=◌,
}
use breakroom.Simulator.Rows.{
  Customer, Order, Refund, RefundStatus, pending, succeeded, failed, TicketView, Value, int, text,
  boolean, null,
}
use breakroom.Simulator.Calls.{Response, Delivery}

abbrev pub Fields : Type 0
Fields = List (String × Value)

-- `fields.get(key)` with None for a missing key, and `key in fields`.
unfoldable pub get : String → Fields → Value
get key fields = elim (first (λ f. f.0 == key) fields) [ none ↦ null | some f ↦ f.1 ]

unfoldable pub has : String → Fields → Bool
has key fields = elim (first (λ f. f.0 == key) fields) [ none ↦ false | some _ ↦ true ]

abbrev pub same_int : ℤ → ℤ → Bool
same_int (pos a) (pos b) = a =ℕ= b
same_int (pos a) (negsuc b) = false
same_int (negsuc a) (pos b) = false
same_int (negsuc a) (negsuc b) = a =ℕ= b

abbrev pub bool_int : Bool → ℤ
bool_int true = pos 1
bool_int false = pos 0

-- Python's `==`, in which True is 1 and False is 0.
unfoldable pub equal : Value → Value → Bool
equal (int a) (int b) = same_int a b
equal (int a) (boolean b) = same_int a (bool_int b)
equal (int a) (text b) = false
equal (int a) null = false
equal (text a) (text b) = a == b
equal (text a) (int b) = false
equal (text a) (boolean b) = false
equal (text a) null = false
equal (boolean a) (boolean b) = same_bool a b
equal (boolean a) (int b) = same_int (bool_int a) b
equal (boolean a) (text b) = false
equal (boolean a) null = false
equal null null = true
equal null (int b) = false
equal null (text b) = false
equal null (boolean b) = false

unfoldable pub status_name : RefundStatus → String
status_name pending = "pending"
status_name succeeded = "succeeded"
status_name failed = "failed"

abbrev optional_text : Option String → Value
optional_text none = null
optional_text (some t) = text t

-- dict(row) of each table.
abbrev customer_fields : Customer → Fields
customer_fields c =
    ("id", text c.id)
    ∷ ("display_name", text c.display_name)
    ∷ ("contact_ref", text c.contact_ref)
    ∷ ("tenant_id", text c.tenant_id)
    ∷ []

abbrev order_fields : Order → ℤ → Fields
order_fields o remaining =
    ("id", text o.id)
    ∷ ("customer_id", text o.customer_id)
    ∷ ("amount_minor", int (pos o.amount_minor))
    ∷ ("currency", text o.currency)
    ∷ ("status", text o.status)
    ∷ ("remaining_minor", int remaining)
    ∷ []

unfoldable pub refund_fields : Refund → Fields
unfolding status_name
refund_fields r =
    ("id", text r.id)
    ∷ ("order_id", text r.order_id)
    ∷ ("amount_minor", int (pos r.amount_minor))
    ∷ ("currency", text r.currency)
    ∷ ("logical_request_id", text r.logical_request_id)
    ∷ ("operation_key", text r.operation_key)
    ∷ ("status", text (status_name r.status))
    ∷ ("created_at", int (pos r.created_at))
    ∷ []

abbrev ticket_fields : TicketView → Fields
ticket_fields t =
    ("id", text t.ticket.id)
    ∷ ("customer_id", text t.ticket.customer_id)
    ∷ ("order_id", text t.ticket.order_id)
    ∷ ("version", int (pos t.ticket.version))
    ∷ ("status", text t.ticket.status)
    ∷ []

abbrev delivery_fields : Delivery → Fields
delivery_fields d =
    ("event_id", text d.payload.event_id)
    ∷ ("refund_id", text d.payload.refund_id)
    ∷ ("logical_request_id", text d.payload.logical_request_id)
    ∷ ("status", text (status_name d.payload.status))
    ∷ ("created_at", int (pos d.payload.created_at))
    ∷ ("order_id", text d.payload.order_id)
    ∷ ("delivery_id", int (pos d.delivery_id))
    ∷ []

-- The scalar fields of a response; one with `items` has no other field.
unfoldable pub response_fields : Response → Fields
unfolding refund_fields
response_fields (Response.customers _) = []
response_fields (Response.customer c) = customer_fields c
response_fields (Response.order o remaining) = order_fields o remaining
response_fields (Response.refunds _) = []
response_fields (Response.refund r) = refund_fields r
response_fields (Response.ticket t) = ticket_fields t
response_fields (Response.escalated ticket_id operation_id) =
    ("status", text "escalated")
    ∷ ("ticket_id", optional_text ticket_id)
    ∷ ("operation_id", text operation_id)
    ∷ []
response_fields (Response.events _) = []
response_fields (Response.acknowledged event_id) =
    ("event_id", text event_id) ∷ ("status", text "acknowledged") ∷ []
response_fields Response.no_items = []
response_fields (Response.incomplete r) =
    filter (λ f. not (f.0 == "id" || f.0 == "status")) (response_fields r)

abbrev response_items : Response → Option (List Fields)
response_items (Response.customers cs) = some (map (λ c. customer_fields c.customer) cs)
response_items (Response.customer c) = none
response_items (Response.order o remaining) = none
response_items (Response.refunds rs) = some (map refund_fields rs)
response_items (Response.refund r) = none
response_items (Response.ticket t) = none
response_items (Response.escalated ticket_id operation_id) = none
response_items (Response.events ds) = some (map delivery_fields ds)
response_items (Response.acknowledged event_id) = none
response_items Response.no_items = some []
response_items (Response.incomplete r) = response_items r

-- `response.get("items", [response])`
unfoldable pub evidence_records : Response → List Fields
unfolding response_fields
evidence_records response = elim (response_items response) [
  | none ↦ response_fields response ∷ []
  | some items ↦ items
]
