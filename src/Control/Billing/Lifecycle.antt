-- ===== src/Control/Billing/Lifecycle.antt =====
-- `cancel`, `reconcile` and `check_deletion` (apps/api/breakroom_api/team_billing.py). `guard` is
-- the authorization that the caller passes.
use breakroom.Base.{
  String, Bool, true, false, not, ◌&&◌, ◌||◌, Option, none, some, any, filter, same_option, ◌==◌,
  if◌then◌else◌,
}
use Prim.Native.String.{◌++◌ as join}
use breakroom.Control.Rows.{
  Account, Operation, cancel_kind, completed, checkout_result, cancel_result, Checkout, ready,
  Store,
}
use breakroom.Control.Monad.{
  Act, Answer, http, unavailable, invalid_request, unexpected, gets, query, reply, modify, pure,
  fail, require, handle, transaction, ◌>>=◌, ◌>>◌,
}
use breakroom.Control.Billing.Provider.{
  BillingCall, at_period_end, Snapshot, is_identifier, is_false, is_text, identifier,
}
use breakroom.Control.Billing.Account.{
  account_of, update_account, has_live_subscription, has_text, View, billing_view,
}
use breakroom.Control.Billing.Operation.{
  reserve_operation, update_operation, is_completed, is_checkout_of, latest, checkout_of,
}
use breakroom.Control.Billing.Snapshot.{apply_snapshot, selected_id}
use breakroom.Control.Billing.Handlers.{operation_by_id, mark_unknown, mark_resyncing}

-- The target of a cancellation, as its operation keeps it.
abbrev pub cancel_target : Operation → Option String
cancel_target o = elim o.result [ some (cancel_result target at_end) ↦ some target | _ ↦ none ]

-- The first transaction of `cancel`: `none` where the operation was completed before.
unfoldable pub reserve_cancel :
    BillingCall → String → String → Bool → (Store → Answer (Unit {0})) → Act (Option Operation)
unfolding reserve_operation
reserve_cancel c project_id key at_end guard = do
  query guard
  o ← reserve_operation c project_id cancel_kind key (at_period_end at_end)
  if is_completed o then pure none else (do
    account ← gets (λ db. account_of db project_id)
    elim account.subscription_id [
      | none ↦ fail (http 409)
      | some id ↦ do
        modify (
            update_operation o.id (λ x.
              if has_text (cancel_target x)
              then x
              else record x { result = some (cancel_result id at_end) }))
        pure (some o)
    ])

abbrev is_true : Option Bool → Bool
is_true (some true) = true
is_true _ = false

-- The provider shows what was asked for.
abbrev pub is_canceled : Bool → Snapshot → Bool
is_canceled at_end snapshot =
    is_text snapshot.status "canceled" || (at_end && is_true snapshot.cancel_at_period_end)

-- The provider's part of `cancel`; the answer says whether it was confirmed.
unfoldable pub confirm_cancel : BillingCall → String → Operation → String → Bool → Act Bool
unfolding apply_snapshot
confirm_cancel c project_id o target at_end = do
  reply (c.provider.cancel_subscription target (join "cancel:" o.id) at_end)
  snapshot ← reply (c.provider.retrieve_subscription target)
  apply_snapshot c project_id snapshot
  require (is_canceled at_end snapshot) invalid_request
  modify (update_operation o.id (λ x. record x { status = completed }))
  pure true

-- The second transaction of `cancel`.
unfoldable pub complete_cancel :
    BillingCall → String → Bool → (Store → Answer (Unit {0})) → Operation → Act (Bool × View)
unfolding operation_by_id confirm_cancel billing_view
complete_cancel c project_id at_end guard o = do
  query guard
  current ← query (operation_by_id o.id)
  confirmed ← if is_completed current then pure true else (do
    account ← gets (λ db. account_of db project_id)
    elim (cancel_target current) [
      | none ↦ fail unexpected
      | some target ↦ do
        require (same_option account.subscription_id (some target)) (http 409)
        handle (confirm_cancel c project_id current target at_end)
            (λ _. mark_unknown project_id o.id >> pure false)
    ])
  shown ← gets (billing_view c project_id)
  pure (confirmed, shown)

-- 503 where the provider's answer is uncertain.
unfoldable pub confirmed_view : Bool × View → Act View
confirmed_view (confirmed, shown) = do require confirmed (http 503); pure shown

-- `cancel`
unfoldable pub cancel :
    BillingCall → String → String → Bool → (Store → Answer (Unit {0})) → Act View
unfolding reserve_cancel complete_cancel confirmed_view billing_view
cancel c project_id key at_end guard = do
  reservation ← transaction (reserve_cancel c project_id key at_end guard)
  elim reservation [
    | none ↦ gets (billing_view c project_id)
    | some o ↦ transaction (complete_cancel c project_id at_end guard o) >>= confirmed_view
  ]

-- The subscription that the latest checkout names; an expired checkout settles the account.
unfoldable pub subscription_of_checkout :
    BillingCall → String → Account → Operation → Checkout → Act (Option String)
unfolding identifier
subscription_of_checkout c project_id account o result = do
  checkout ← reply (c.provider.retrieve_checkout result.checkout_id)
  require (same_option checkout.customer account.customer_id && is_false checkout.livemode)
      invalid_request
  if is_text checkout.status "expired" && not (has_text (selected_id checkout.subscription))
      then (do
        modify (
            update_operation o.id (λ x. record x {
              result = some (checkout_result (record result { confirmed_expired = true }));
            }))
        modify (update_account project_id (λ a. record a { status = "none"; sync_state = ready }))
        pure none)
      else (do
        require (is_identifier (selected_id checkout.subscription) "sub") unavailable
        pure (selected_id checkout.subscription))

-- The target of `reconcile`; `none` where there is nothing to reconcile.
unfoldable pub reconcile_target : BillingCall → String → Account → Act (Option String)
unfolding subscription_of_checkout latest
reconcile_target c project_id account = elim account.subscription_id [
  | some id ↦ pure (some id)
  | none ↦ do
    found ←
        gets
          (λ db. latest (filter (λ o. is_checkout_of project_id o && is_completed o) db.operations))
    any_operation ← gets (λ db. any (λ o. o.project_id == project_id) db.operations)
    elim found [
      | none ↦ require (not any_operation) (http 409) >> pure none
      | some o ↦ elim (checkout_of o) [
        | none ↦ require (not any_operation) (http 409) >> pure none
        | some result ↦ subscription_of_checkout c project_id account o result
      ]
    ]
]

-- The `try` block of `reconcile`.
unfoldable pub reconcile_account : BillingCall → String → Act Bool
unfolding reconcile_target apply_snapshot
reconcile_account c project_id = do
  account ← gets (λ db. account_of db project_id)
  target ← reconcile_target c project_id account
  elim target [
    | none ↦ pure true
    | some id ↦ do
      snapshot ← reply (c.provider.retrieve_subscription id)
      apply_snapshot c project_id snapshot
      pure true
  ]

-- The transaction of `reconcile`.
unfoldable pub reconcile_transaction :
    BillingCall → String → (Store → Answer (Unit {0})) → Act (Bool × View)
unfolding reconcile_account billing_view
reconcile_transaction c project_id guard = do
  query guard
  confirmed ← handle (reconcile_account c project_id) (λ _. mark_resyncing project_id >> pure false)
  shown ← gets (billing_view c project_id)
  pure (confirmed, shown)

-- `reconcile`
unfoldable pub reconcile : BillingCall → String → (Store → Answer (Unit {0})) → Act View
unfolding reconcile_transaction confirmed_view
reconcile c project_id guard =
    transaction (reconcile_transaction c project_id guard) >>= confirmed_view

-- A checkout that may still become a subscription.
unfoldable pub is_open_checkout : Account → Operation → Bool
is_open_checkout account o = not (is_completed o) || elim (checkout_of o) [
  | none ↦ false
  | some r ↦ not r.confirmed_expired && not (has_text account.subscription_id)
]

-- `check_deletion`
unfoldable pub check_deletion : String → Act (Unit {0})
unfolding has_live_subscription is_open_checkout
check_deletion project_id = do
  account ← gets (λ db. account_of db project_id)
  require (not (has_live_subscription account)) (http 409)
  open_one ←
      gets (λ db. any (is_open_checkout account) (filter (is_checkout_of project_id) db.operations))
  require (not open_one) (http 409)
