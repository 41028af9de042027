-- ===== src/Control/Billing/Handlers.antt =====
-- `checkout`, in two transactions around the provider
-- (apps/api/breakroom_api/team_billing.py). `guard` is the authorization that the caller passes.
use breakroom.Base.{
  String, Bool, true, false, not, ◌&&◌, Option, none, some, first, ltb, ◌==◌, if◌then◌else◌,
}
use Prim.Native.String.{◌++◌ as join}
use text.Mathlib.Text.{starts_with}
use breakroom.Control.Rows.{
  Account, Operation, checkout_kind, completed, unknown, checkout_result, Checkout, syncing,
  resyncing, Store,
}
use breakroom.Control.Monad.{
  Act, Answer, ok, problem, http, invalid_request, unexpected, gets, query, reply, modify, pure,
  fail, require, handle, transaction, ◌>>=◌, ◌>>◌,
}
use breakroom.Control.Billing.Provider.{
  BillingCall, plan_team, CheckoutObject, is_identifier, is_false, is_text, stamp, identifier,
}
use breakroom.Control.Billing.Account.{
  account_of, with_account, update_account, has_live_subscription,
}
use breakroom.Control.Billing.Operation.{
  reserve_operation, update_operation, is_completed, checkout_of,
}

unfoldable pub operation_by_id : String → Store → Answer Operation
operation_by_id id db = elim (first (λ o. o.id == id) db.operations) [
  | none ↦ problem unexpected
  | some o ↦ ok o
]

-- The account waits for a retry.
abbrev pub mark_resyncing : String → Act (Unit {0})
mark_resyncing project_id =
    modify (update_account project_id (λ a. record a { sync_state = resyncing }))

abbrev pub mark_unknown : String → String → Act (Unit {0})
mark_unknown project_id operation_id = do
  modify (update_operation operation_id (λ o. record o { status = unknown }))
  mark_resyncing project_id

-- `account["customer_id"]`, created at the provider where it is missing.
unfoldable pub customer_of : BillingCall → String → String → Account → Act String
unfolding identifier
customer_of c project_id operation_id account = elim account.customer_id [
  | some id ↦ pure id
  | none ↦ do
    customer ← reply (c.provider.create_customer project_id (join "customer:" operation_id))
    require (is_identifier customer.id "cus" && is_false customer.livemode) invalid_request
    elim customer.id [
      | none ↦ fail invalid_request
      | some id ↦ do
        modify (update_account project_id (λ a. record a { customer_id = some id }))
        pure id
    ]
]

abbrev is_checkout_url : Option String → Bool
is_checkout_url none = false
is_checkout_url (some url) = starts_with url "https://checkout.stripe.com/"

-- The session that the provider answers, as an operation keeps it.
unfoldable pub checkout_session : String → CheckoutObject → Answer Checkout
unfolding identifier stamp
checkout_session customer_id session =
    if is_identifier session.id "cs"
      && is_false session.livemode
      && is_text session.mode "subscription"
      && is_text session.customer customer_id
      && is_checkout_url session.url
    then elim (stamp session.expires_at) [
      | problem e ↦ problem e
      | ok expires ↦ elim session.id [
        | none ↦ problem invalid_request
        | some id ↦ elim session.url [
          | none ↦ problem invalid_request
          | some url ↦ ok (record {
            checkout_id = id;
            url = url;
            expires_at = expires;
            confirmed_expired = false;
          })
        ]
      ]
    ]
    else problem invalid_request

-- What a request learns of its operation: the result of an earlier call, one of its own, or that
-- the outcome is uncertain.
pub data CheckoutOutcome : Type 0 where
  reused : Checkout → CheckoutOutcome
  fresh : Checkout → CheckoutOutcome
  uncertain : CheckoutOutcome
  reserved : Operation → CheckoutOutcome

-- The first transaction of `checkout`.
unfoldable pub reserve_checkout :
    BillingCall → String → String → (Store → Answer (Unit {0})) → Act CheckoutOutcome
unfolding reserve_operation has_live_subscription
reserve_checkout c project_id key guard = do
  query guard
  modify (with_account project_id)
  account ← gets (λ db. account_of db project_id)
  require (not (has_live_subscription account)) (http 409)
  o ← reserve_operation c project_id checkout_kind key plan_team
  if is_completed o
      then (elim (checkout_of o) [
        | none ↦ fail unexpected
        | some result ↦ do require (ltb c.now result.expires_at) (http 410); pure (reused result)
      ])
      else pure (reserved o)

-- The provider's part of `checkout`.
unfoldable pub open_checkout : BillingCall → String → Operation → Account → Act CheckoutOutcome
unfolding customer_of checkout_session
open_checkout c project_id o account = do
  customer_id ← customer_of c project_id o.id account
  session ← reply (c.provider.create_checkout customer_id project_id (join "checkout:" o.id))
  result ← reply (checkout_session customer_id session)
  modify (
      update_operation o.id
        (λ x. record x { status = completed; result = some (checkout_result result) }))
  modify (
      update_account project_id (λ a. record a {
        status = "pending";
        sync_state = syncing;
        subscription_id = none;
        paid_through = none;
        current_period_end = none;
        cancel_at_period_end = false;
      }))
  pure (fresh result)

-- The second transaction of `checkout`.
unfoldable pub complete_checkout :
    BillingCall → String → Operation → (Store → Answer (Unit {0})) → Act CheckoutOutcome
unfolding operation_by_id open_checkout has_live_subscription
complete_checkout c project_id o guard = do
  query guard
  current ← query (operation_by_id o.id)
  if is_completed current
      then (elim (checkout_of current) [
        | none ↦ fail unexpected
        | some result ↦ pure (reused result)
      ])
      else (do
        account ← gets (λ db. account_of db project_id)
        require (not (has_live_subscription account)) (http 409)
        handle (open_checkout c project_id current account)
            (λ _. mark_unknown project_id o.id >> pure uncertain))

-- `{**result, "reused": ...}`
unfoldable pub finish_checkout : CheckoutOutcome → Act (Checkout × Bool)
finish_checkout (reused result) = pure (result, true)
finish_checkout (fresh result) = pure (result, false)
finish_checkout uncertain = fail (http 503)
finish_checkout (reserved o) = fail unexpected

-- What follows the reservation.
unfoldable pub after_reserve :
    BillingCall → String → (Store → Answer (Unit {0})) → CheckoutOutcome → Act (Checkout × Bool)
unfolding finish_checkout complete_checkout
after_reserve c project_id guard (reserved o) = do
  outcome ← transaction (complete_checkout c project_id o guard)
  finish_checkout outcome
after_reserve c project_id guard (reused result) = pure (result, true)
after_reserve c project_id guard (fresh result) = pure (result, false)
after_reserve c project_id guard uncertain = fail (http 503)

-- `checkout`
unfoldable pub checkout :
    BillingCall → String → String → (Store → Answer (Unit {0})) → Act (Checkout × Bool)
unfolding reserve_checkout after_reserve
checkout c project_id key guard = do
  outcome ← transaction (reserve_checkout c project_id key guard)
  after_reserve c project_id guard outcome
