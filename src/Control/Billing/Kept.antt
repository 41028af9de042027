-- ===== src/Control/Billing/Kept.antt =====
-- What the handlers keep that change accounts and operations, for any relation between databases
-- (apps/api/breakroom_api/team_billing.py).
pub mod Cancel
pub mod Events
pub mod Inbox
use breakroom.Base.{
  ◌≡◌, refl, ◌⊎◌, inl, inr, String, Bool, true, false, not, ◌&&◌, Option, none, some, List,
  if◌then◌else◌,
}
use breakroom.Control.Rows.{
  Account, Store, Operation, OperationKind, checkout_kind, cancel_kind, Checkout, syncing,
}
use breakroom.Control.Monad.{
  Act, Answer, ok, problem, Problem, http, unexpected, gets, query, reply, modify, pure, fail,
  handle, require, when, transaction, ◌>>=◌, ◌>>◌,
}
use breakroom.Control.Effects.{
  Preorder, Keeps, Keeps-option, Keeps-ask, Keeps-modify, Keeps-bind, Keeps-gets, Keeps-pure,
  Keeps-fail, Keeps-require, Keeps-query, Keeps-if, Keeps-handle, Keeps-reply, keep_rules,
}
use breakroom.Control.Billing.Provider.{BillingCall, Request, plan_team, Snapshot}
use breakroom.Control.Billing.Account.{find_account, account_of, update_account, with_account}
use breakroom.Control.Billing.Operation.{
  reserve_operation, check_previous, known_operation, new_operation, check_kind, update_operation,
  is_completed, checkout_of,
}
use breakroom.Control.Billing.Snapshot.{apply_snapshot}
use breakroom.Control.Billing.Handlers.{
  mark_resyncing, mark_unknown, customer_of, reserve_checkout, open_checkout, complete_checkout,
  finish_checkout, after_reserve, CheckoutOutcome, reserved, reused, fresh, uncertain, checkout,
}

-- An update of an account that names the project still and adds no paid period.
pub record IsQuiet (f : Account → Account) : Type 0 where
  pub same_project : (x : Account) → (f x).project_id ≡ x.project_id
  pub no_period :
      (x : Account) → ((f x).paid_through ≡ x.paid_through) ⊎ ((f x).paid_through ≡ none)

-- A relation that the quiet updates and a projection keep.
pub record IsFrame (c : BillingCall) (R : Store → Store → Type 0) : Type 0 where
  pub order : Preorder R
  pub quiet :
      (p : String) (f : Account → Account) (db : Store) → IsQuiet f → R db (update_account p f db)
  pub blank : (p : String) (db : Store) → R db (with_account p db)
  pub operations : (xs : List Operation) (db : Store) → R db (record db { operations = xs })
  pub applied :
      (p named : String) (snapshot : Snapshot)
      → c.provider.retrieve_subscription named ≡ ok snapshot
      → Keeps R (apply_snapshot c p snapshot)

IsQuiet-customer : {name : String} → IsQuiet (λ a. record a { customer_id = some name })
IsQuiet-customer = record { same_project = λ x. refl; no_period = λ x. inl refl }

IsQuiet-pending : IsQuiet (λ a. record a {
  status = "pending";
  sync_state = syncing;
  subscription_id = none;
  paid_through = none;
  current_period_end = none;
  cancel_at_period_end = false;
})
IsQuiet-pending = record { same_project = λ x. refl; no_period = λ x. inr refl }

module _ {c : BillingCall} {R : Store → Store → Type 0} (frame : IsFrame c R) where
  o : Preorder R
  o = frame.order

  pub Keeps-quiet :
      (p : String) (f : Account → Account) → IsQuiet f → Keeps R (modify (update_account p f))
  Keeps-quiet p f h = Keeps-modify _ λ db. frame.quiet p f db h

  pub Keeps-update_operation :
      (id : String) (f : Operation → Operation) → Keeps R (modify (update_operation id f))
  unfolding update_operation
  Keeps-update_operation id f = Keeps-modify _ λ db. frame.operations _ db

  Keeps-with_account : (p : String) → Keeps R (modify (with_account p))
  Keeps-with_account p = Keeps-modify _ λ db. frame.blank p db

  Keeps-check_previous : (a : Account) (r : Option Operation) → Keeps R (check_previous c a r)
  unfolding check_previous
  Keeps-check_previous a none = search (keep_rules, o)
  Keeps-check_previous a (some item) =
      Keeps-option (checkout_of item) _ _ (search (keep_rules, o))
        (λ result. search (keep_rules, o) depth 12)

  Keeps-new_operation :
      (p : String) (kind : OperationKind) (key : String) (request : Request)
      → Keeps R (new_operation c p kind key request)
  unfolding new_operation
  Keeps-new_operation p kind key request =
      Keeps-bind o _ _ (Keeps-modify _ λ db. frame.operations _ db) λ _. Keeps-pure o _

  Keeps-check_kind : (p : String) (kind : OperationKind) → Keeps R (check_kind c p kind)
  unfolding check_kind
  Keeps-check_kind p checkout_kind = search (keep_rules, o, Keeps-check_previous) depth 12
  Keeps-check_kind p cancel_kind = Keeps-pure o _

  Keeps-known_operation :
      (request : Request) (op : Operation) → Keeps R (known_operation c request op)
  unfolding known_operation
  Keeps-known_operation request op = search (keep_rules, o) depth 12

  pub Keeps-reserve_operation :
      (p : String) (kind : OperationKind) (key : String) (request : Request)
      → Keeps R (reserve_operation c p kind key request)
  unfolding reserve_operation
  Keeps-reserve_operation p kind key request = Keeps-bind o _ _ (Keeps-require o _ _) λ _.
      Keeps-bind o _ _ (Keeps-gets o _) λ row.
        Keeps-option row _ _ (search (keep_rules, o, Keeps-check_kind, Keeps-new_operation))
          (Keeps-known_operation request)

  pub Keeps-mark_resyncing : (p : String) → Keeps R (mark_resyncing p)
  Keeps-mark_resyncing p =
      Keeps-quiet p _ (record { same_project = λ x. refl; no_period = λ x. inl refl })

  pub Keeps-mark_unknown : (p id : String) → Keeps R (mark_unknown p id)
  Keeps-mark_unknown p id =
      Keeps-bind o _ _ (Keeps-update_operation id _) λ _. Keeps-mark_resyncing p

  Keeps-customer_of : (p id : String) (a : Account) → Keeps R (customer_of c p id a)
  unfolding customer_of
  Keeps-customer_of p id a =
      Keeps-option a.customer_id _ _
        (Keeps-bind o _ _ (Keeps-reply o _) λ customer. Keeps-bind o _ _ (Keeps-require o _ _) λ _.
          Keeps-option customer.id _ _ (Keeps-fail o _)
            λ name. Keeps-bind o _ _ (Keeps-quiet p _ IsQuiet-customer) λ _. Keeps-pure o _)
        (λ name. Keeps-pure o _)

  Keeps-reserve_checkout :
      (p key : String) (guard : Store → Answer (Unit {0}))
      → Keeps R (reserve_checkout c p key guard)
  unfolding reserve_checkout
  Keeps-reserve_checkout p key guard = Keeps-bind o _ _ (Keeps-query o _) λ _.
      Keeps-bind o _ _ (Keeps-with_account p) λ _. Keeps-bind o _ _ (Keeps-gets o _) λ account.
        Keeps-bind o _ _ (Keeps-require o _ _) λ _.
          Keeps-bind o _ _ (Keeps-reserve_operation p checkout_kind key plan_team) λ op.
            Keeps-if (is_completed op) _ _
              (Keeps-option (checkout_of op) _ _ (Keeps-fail o _) λ result. search (keep_rules, o))
              (Keeps-pure o _)

  Keeps-open_checkout :
      (p : String) (op : Operation) (a : Account) → Keeps R (open_checkout c p op a)
  unfolding open_checkout
  Keeps-open_checkout p op a = Keeps-bind o _ _ (Keeps-customer_of p op.id a) λ name.
      Keeps-bind o _ _ (Keeps-reply o _) λ session. Keeps-bind o _ _ (Keeps-reply o _) λ result.
        Keeps-bind o _ _ (Keeps-update_operation op.id _)
          λ _. Keeps-bind o _ _ (Keeps-quiet p _ IsQuiet-pending) λ _. Keeps-pure o _

  Keeps-complete_checkout :
      (p : String) (op : Operation) (guard : Store → Answer (Unit {0}))
      → Keeps R (complete_checkout c p op guard)
  unfolding complete_checkout
  Keeps-complete_checkout p op guard = Keeps-bind o _ _ (Keeps-query o _) λ _.
      Keeps-bind o _ _ (Keeps-query o _) λ current.
        Keeps-if (is_completed current) _ _
          (Keeps-option (checkout_of current) _ _ (Keeps-fail o _) λ result. Keeps-pure o _)
          (Keeps-bind o _ _ (Keeps-gets o _) λ account. Keeps-bind o _ _ (Keeps-require o _ _) λ _.
            Keeps-handle o _ _ (Keeps-open_checkout p current account)
              λ e. Keeps-bind o _ _ (Keeps-mark_unknown p op.id) λ _. Keeps-pure o _)

  Keeps-finish_checkout : (r : CheckoutOutcome) → Keeps R (finish_checkout r)
  unfolding finish_checkout
  Keeps-finish_checkout (reused x) = Keeps-pure o _
  Keeps-finish_checkout (fresh x) = Keeps-pure o _
  Keeps-finish_checkout uncertain = Keeps-fail o _
  Keeps-finish_checkout (reserved x) = Keeps-fail o _

  Keeps-after_reserve :
      (p : String) (guard : Store → Answer (Unit {0})) (r : CheckoutOutcome)
      → Keeps R (after_reserve c p guard r)
  unfolding after_reserve
  Keeps-after_reserve p guard (reserved op) =
      search (keep_rules, o, Keeps-finish_checkout, Keeps-complete_checkout)
  Keeps-after_reserve p guard (reused x) = Keeps-pure o _
  Keeps-after_reserve p guard (fresh x) = Keeps-pure o _
  Keeps-after_reserve p guard uncertain = Keeps-fail o _

  pub Keeps-checkout :
      (p key : String) (guard : Store → Answer (Unit {0})) → Keeps R (checkout c p key guard)
  unfolding checkout
  Keeps-checkout p key guard = search (keep_rules, o, Keeps-reserve_checkout, Keeps-after_reserve)
