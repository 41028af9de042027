-- ===== src/Control/Billing/Operation.antt =====
-- `operation`: the reservation of a checkout or a cancellation under its idempotency key
-- (apps/api/breakroom_api/team_billing.py).
use breakroom.Base.{
  ◌+◌, String, Bool, true, false, ◌&&◌, ◌||◌, Option, none, some, List, [], ◌∷◌, ◌++◌, first,
  filter, update_where, leb, same_option, ◌==◌, if◌then◌else◌,
}
use breakroom.Control.Rows.{
  Account, Operation, OperationKind, checkout_kind, cancel_kind, pending, completed,
  checkout_result, Checkout, Store,
}
use breakroom.Control.Monad.{
  Act, http, gets, reply, modify, pure, fail, require, handle, ◌>>=◌, ◌>>◌,
}
use breakroom.Control.Billing.Provider.{
  BillingCall, Request, CheckoutObject, Expandable, plain, is_key, is_false, is_text,
}
use breakroom.Control.Billing.Account.{account_of, has_ended_subscription}

abbrev pub same_kind : OperationKind → OperationKind → Bool
same_kind checkout_kind checkout_kind = true
same_kind cancel_kind cancel_kind = true
same_kind checkout_kind cancel_kind = false
same_kind cancel_kind checkout_kind = false

abbrev pub is_completed : Operation → Bool
is_completed o = elim o.status [ completed ↦ true | _ ↦ false ]

-- WHERE project_id = ? AND kind = ? AND idempotency_key = ?
unfoldable pub find_reservation :
    String → OperationKind → String → List Operation → Option Operation
find_reservation project_id kind key =
    first (λ o. o.project_id == project_id && same_kind o.kind kind && o.idempotency_key == key)

abbrev pub is_checkout_of : String → Operation → Bool
is_checkout_of project_id o = o.project_id == project_id && same_kind o.kind checkout_kind

-- ORDER BY created_at DESC LIMIT 1
unfoldable pub latest : List Operation → Option Operation
latest [] = none
latest (o ∷ os) = elim (latest os) [
  | none ↦ some o
  | some p ↦ if leb o.created_at p.created_at then some p else some o
]

-- UPDATE team_billing_operations ... WHERE id = ?
unfoldable pub update_operation : String → (Operation → Operation) → Store → Store
update_operation id f db = record db { operations = update_where (λ o. o.id == id) f db.operations }

-- The checkout that an operation's result holds.
abbrev pub checkout_of : Operation → Option Checkout
checkout_of o = elim o.result [ some (checkout_result c) ↦ some c | _ ↦ none ]

-- `previous.get("subscription") == account["subscription_id"]`
abbrev same_subscription : Option Expandable → Option String → Bool
same_subscription none none = true
same_subscription (some (plain t)) (some u) = t == u
same_subscription _ _ = false

abbrev is_missing : Option Expandable → Bool
is_missing none = true
is_missing (some _) = false

-- The checkout of an earlier request no longer stands in the way.
unfoldable pub is_settled : Account → CheckoutObject → Bool
unfolding has_ended_subscription
is_settled account previous =
    ((has_ended_subscription account
        && same_subscription previous.subscription account.subscription_id)
      || (is_text previous.status "expired" && is_missing previous.subscription))
    && same_option previous.customer account.customer_id
    && is_false previous.livemode

-- The loop over the latest checkout of the project.
unfoldable pub check_previous : BillingCall → Account → Option Operation → Act (Unit {0})
unfolding is_settled has_ended_subscription
check_previous c account none = pure tt
check_previous c account (some item) = elim (checkout_of item) [
  | none ↦ fail (http 409)
  | some result ↦ do
    require
        (is_completed item
          && (leb result.expires_at c.now
              || has_ended_subscription account
              || result.confirmed_expired))
        (http 409)
    previous ←
        handle (reply (c.provider.retrieve_checkout result.checkout_id)) (λ _. fail (http 503))
    require (is_settled account previous) (http 409)
]

-- An operation that the key already names.
unfoldable pub known_operation : BillingCall → Request → Operation → Act Operation
known_operation c request o = do
  require (o.request_hash == c.digest request) (http 409)
  require (is_completed o || leb c.now (o.created_at + 82800)) (http 409)
  pure o

unfoldable pub new_operation :
    BillingCall → String → OperationKind → String → Request → Act Operation
new_operation c project_id kind key request =
    let row : Operation = record {
      id = c.opaque_id;
      project_id = project_id;
      kind = kind;
      idempotency_key = key;
      request_hash = c.digest request;
      status = pending;
      result = none;
      created_at = c.now;
    } in
    do modify λ db. record db { operations = db.operations ++ row ∷ [] }; pure row

-- `if kind == "checkout"`
unfoldable pub check_kind : BillingCall → String → OperationKind → Act (Unit {0})
unfolding check_previous latest
check_kind c project_id cancel_kind = pure tt
check_kind c project_id checkout_kind = do
  old ← gets (λ db. latest (filter (is_checkout_of project_id) db.operations))
  account ← gets (λ db. account_of db project_id)
  check_previous c account old

-- `operation`
unfoldable pub reserve_operation :
    BillingCall → String → OperationKind → String → Request → Act Operation
unfolding find_reservation is_key
reserve_operation c project_id kind key request = do
  require (is_key key) (http 422)
  row ← gets (λ db. find_reservation project_id kind key db.operations)
  elim row [
    | some o ↦ known_operation c request o
    | none ↦ check_kind c project_id kind >> new_operation c project_id kind key request
  ]
