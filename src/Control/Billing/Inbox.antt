-- ===== src/Control/Billing/Inbox.antt =====
-- The webhook inbox: `accept_event`
-- (apps/api/breakroom_api/team_billing.py).
use breakroom.Base.{
  ℕ, String, Bool, true, false, not, ◌||◌, Option, none, some, List, [], ◌∷◌, ◌++◌, any, filter,
  first, member, length, ltb, same_option, ◌==◌, if◌then◌else◌,
}
use text.Mathlib.Text.{starts_with}
use breakroom.Control.Rows.{
  Account, BillingEvent, EventStatus, waiting, TargetKind, checkout_target, subscription_target,
  Store,
}
use breakroom.Control.Monad.{Act, http, gets, modify, pure, fail, require, transaction, ◌>>=◌, ◌>>◌}
use breakroom.Control.Billing.Provider.{BillingCall, is_identifier, identifier}
use breakroom.Control.Billing.Operation.{is_checkout_of, checkout_of}

-- A verified event, its digest, and the target that its object names.
pub record WebhookEvent : Type 0 where
  pub id : String
  pub kind : String
  pub created : ℕ
  pub payload_hash : String
  pub customer : Option String
  pub object_id : Option String
  pub parent_subscription : Option String

-- `EVENT_TYPES`
unfoldable pub is_event_type : String → Bool
is_event_type kind = member kind (
    "checkout.session.completed" ∷ "checkout.session.expired" ∷ "customer.subscription.created"
    ∷ "customer.subscription.updated" ∷ "customer.subscription.deleted" ∷ "invoice.paid"
    ∷ "invoice.payment_failed" ∷ "invoice.finalization_failed" ∷ [])

unfoldable pub target_kind_of : String → TargetKind
target_kind_of kind = if starts_with kind "checkout." then checkout_target else subscription_target

unfoldable pub target_of : WebhookEvent → Option String
target_of e =
    if starts_with e.kind "checkout." || starts_with e.kind "customer.subscription."
    then e.object_id
    else e.parent_subscription

abbrev pub prefix_of : TargetKind → String
prefix_of checkout_target = "cs"
prefix_of subscription_target = "sub"

pub data Accepted : Type 0 where
  not_accepted : (reason : String) → Accepted
  accepted : (duplicate : Bool) → EventStatus → Accepted

unfoldable pub find_event : String → List BillingEvent → Option BillingEvent
find_event id = first (λ e. e.event_id == id)

unfoldable pub customer_account : Option String → Store → Option Account
customer_account customer db = first (λ a. same_option a.customer_id customer) db.accounts

-- A known checkout, where the target is one.
unfoldable pub is_known_target : TargetKind → String → String → Store → Bool
is_known_target subscription_target project_id target db = true
is_known_target checkout_target project_id target db =
    any (λ o. elim (checkout_of o) [ none ↦ false | some r ↦ r.checkout_id == target ])
      (filter (is_checkout_of project_id) db.operations)

abbrev pub new_event : BillingCall → WebhookEvent → String → String → BillingEvent
new_event c e project_id target = record {
  event_id = e.id;
  project_id = project_id;
  payload_hash = e.payload_hash;
  event_type = e.kind;
  target_id = target;
  target_kind = target_kind_of e.kind;
  provider_created = e.created;
  status = waiting;
  attempts = 0;
  lease_token = none;
  lease_until = none;
  retry_at = c.now;
  created_at = c.now;
}

-- The event of an account of the project, the first time that it comes.
unfoldable pub insert_event : BillingCall → WebhookEvent → String → String → Act Accepted
unfolding is_known_target
insert_event c e project_id target = do
  known ← gets (is_known_target (target_kind_of e.kind) project_id target)
  if known
      then (do
        total ← gets (λ db. length (filter (λ x. x.project_id == project_id) db.events))
        require (ltb total 10000) (http 503)
        modify (λ db. record db { events = db.events ++ new_event c e project_id target ∷ [] })
        pure (accepted false waiting))
      else pure (not_accepted "unknown_checkout")

-- `if prior:`
unfoldable pub repeated_event : WebhookEvent → BillingEvent → Act Accepted
repeated_event e prior = do
  require (prior.payload_hash == e.payload_hash) (http 409)
  pure (accepted true prior.status)

-- The transaction of `accept_event`.
unfoldable pub store_event : BillingCall → WebhookEvent → String → Act Accepted
unfolding find_event customer_account repeated_event insert_event
store_event c e target = do
  prior ← gets (λ db. find_event e.id db.events)
  elim prior [
    | some p ↦ repeated_event e p
    | none ↦ do
      account ← gets (customer_account e.customer)
      elim account [
        | none ↦ pure (not_accepted "unrelated")
        | some a ↦ insert_event c e a.project_id target
      ]
  ]

-- `accept_event`
unfoldable pub accept_event : BillingCall → WebhookEvent → Act Accepted
unfolding is_event_type identifier target_of target_kind_of store_event
accept_event c e = do
  require (ltb e.created 32503680000) (http 400)
  if not (is_event_type e.kind)
      then pure (not_accepted "event_not_used")
      else if not (is_identifier e.customer "cus")
      then pure (not_accepted "unrelated")
      else (elim (target_of e) [
        | none ↦ fail (http 400)
        | some target ↦ do
          require (identifier (prefix_of (target_kind_of e.kind)) target) (http 400)
          transaction (store_event c e target)
      ])
