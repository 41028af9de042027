-- ===== src/Control/Billing/Worker.antt =====
-- `process_one`: the worker behind the webhook inbox
-- (apps/api/breakroom_api/team_billing.py).
use breakroom.Base.{
  ℕ, ◌+◌, String, Bool, true, false, not, ◌&&◌, Option, none, some, List, [], ◌∷◌, filter,
  update_where, member, leb, ltb, same_option, ◌==◌, if◌then◌else◌,
}
use breakroom.Control.Rows.{
  BillingEvent, EventStatus, waiting, processing, retrying, processed, ignored, failed,
  checkout_target, subscription_target, ready, resyncing, unsure, Store,
}
use breakroom.Control.Monad.{
  Act, Problem, unavailable, invalid_request, gets, reply, modify, pure, require, handle,
  transaction, ◌>>=◌, ◌>>◌,
}
use breakroom.Control.Billing.Provider.{BillingCall, is_identifier, is_false, is_text, identifier}
use breakroom.Control.Billing.Account.{account_of, update_account, has_text}
use breakroom.Control.Billing.Snapshot.{apply_snapshot, selected_id}
use breakroom.Control.Billing.Inbox.{find_event}

-- The rows that `process_one` may claim.
unfoldable pub is_due : ℕ → BillingEvent → Bool
is_due now e = elim e.status [
  | waiting ↦ leb e.retry_at now
  | retrying ↦ leb e.retry_at now
  | processing ↦ elim e.lease_until [ none ↦ false | some t ↦ ltb t now ]
  | processed ↦ false
  | ignored ↦ false
  | failed ↦ false
]

-- ORDER BY created_at LIMIT 1
unfoldable pub earliest : List BillingEvent → Option BillingEvent
earliest [] = none
earliest (e ∷ es) = elim (earliest es) [
  | none ↦ some e
  | some f ↦ if leb e.created_at f.created_at then some e else some f
]

unfoldable pub update_event : String → (BillingEvent → BillingEvent) → Store → Store
update_event id f db = record db { events = update_where (λ e. e.event_id == id) f db.events }

pub data ClaimedEvent : Type 0 where
  nothing_due : ClaimedEvent
  exhausted : ClaimedEvent
  claimed : BillingEvent → ClaimedEvent

-- The first transaction of `process_one`; `opaque_id` is the lease.
unfoldable pub claim_event : BillingCall → Act ClaimedEvent
unfolding is_due earliest
claim_event c = do
  row ← gets (λ db. earliest (filter (is_due c.now) db.events))
  elim row [
    | none ↦ pure nothing_due
    | some e ↦
        if leb 5 e.attempts
        then modify (update_event e.event_id (λ x. record x { status = failed })) >> pure exhausted
        else (do
          modify (
              update_event e.event_id (λ x. record x {
                status = processing;
                attempts = e.attempts + 1;
                lease_token = some c.opaque_id;
                lease_until = some (c.now + 120);
              }))
          pure (claimed e))
  ]

-- The subscription that a checkout names now; a checkout that expired names none.
unfoldable pub checkout_subscription : BillingCall → BillingEvent → Act (Option String)
unfolding identifier
checkout_subscription c e = do
  checkout ← reply (c.provider.retrieve_checkout e.target_id)
  account ← gets (λ db. account_of db e.project_id)
  require (same_option checkout.customer account.customer_id && is_false checkout.livemode)
      invalid_request
  if is_text checkout.status "expired"
      then (do
        modify (
            update_account e.project_id (λ a.
              if has_text a.subscription_id
              then a
              else record a { status = "none"; sync_state = ready }))
        pure none)
      else (do
        require (is_identifier (selected_id checkout.subscription) "sub") unavailable
        pure (selected_id checkout.subscription))

unfoldable pub subscription_of : BillingCall → BillingEvent → Act (Option String)
unfolding checkout_subscription
subscription_of c e = elim e.target_kind [
  | subscription_target ↦ pure (some e.target_id)
  | checkout_target ↦ checkout_subscription c e
]

-- The `try` block of `process_one`: the status that the event gets.
unfoldable pub reconcile_event : BillingCall → BillingEvent → Act EventStatus
unfolding subscription_of apply_snapshot
reconcile_event c e = do
  subscription ← subscription_of c e
  elim subscription [
    | none ↦ pure processed
    | some id ↦ do
      snapshot ← reply (c.provider.retrieve_subscription id)
      applied ← apply_snapshot c e.project_id snapshot
      pure (if applied then processed else ignored)
  ]

-- The two `except` clauses.
unfoldable pub event_problem : BillingEvent → Problem → Act EventStatus
event_problem e invalid_request = do
  modify (update_account e.project_id (λ a. record a { sync_state = unsure }))
  pure failed
event_problem e _ = do
  modify (update_account e.project_id (λ a. record a { sync_state = resyncing }))
  pure (if ltb e.attempts 4 then retrying else failed)

abbrev pub holds_lease : BillingCall → BillingEvent → Bool
holds_lease c e = same_option e.lease_token (some c.opaque_id)

-- The second transaction of `process_one`.
unfoldable pub settle_event : BillingCall → BillingEvent → Act (Unit {0})
unfolding find_event reconcile_event event_problem
settle_event c e = do
  project ← gets (λ db. member e.project_id db.projects)
  current ← gets (λ db. find_event e.event_id db.events)
  if project && (elim current [ none ↦ false | some x ↦ holds_lease c x ])
      then (do
        status ← handle (reconcile_event c e) (event_problem e)
        modify (
            update_event e.event_id (λ x.
              if holds_lease c x
              then record x {
                status = status;
                lease_token = none;
                lease_until = none;
                retry_at = c.now + 30;
              }
              else x)))
      else pure tt

unfoldable pub after_claim : BillingCall → ClaimedEvent → Act Bool
unfolding settle_event
after_claim c nothing_due = pure false
after_claim c exhausted = pure true
after_claim c (claimed e) = do transaction (settle_event c e); pure true

-- `process_one`
unfoldable pub process_one : BillingCall → Act Bool
unfolding claim_event after_claim
process_one c =
    if not c.settings.billing_enabled
    then pure false
    else (do claim ← transaction (claim_event c); after_claim c claim)
