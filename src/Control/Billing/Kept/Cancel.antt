-- ===== src/Control/Billing/Kept/Cancel.antt =====
-- What `cancel` and `reconcile` keep (apps/api/breakroom_api/team_billing.py).
use breakroom.Base.{refl, inl, String, Bool}
use breakroom.Control.Rows.{Account, Store, Operation, cancel_kind, Checkout}
use breakroom.Control.Monad.{Answer}
use breakroom.Control.Effects.{
  Preorder, Keeps, Keeps-option, Keeps-ask, Keeps-bind, Keeps-gets, Keeps-pure, Keeps-fail,
  Keeps-require, Keeps-query, Keeps-if, Keeps-handle, Keeps-reply, Keeps-transaction, keep_rules,
}
use breakroom.Control.Billing.Provider.{BillingCall, at_period_end}
use breakroom.Control.Billing.Account.{View}
use breakroom.Control.Billing.Operation.{is_completed, checkout_of}
use breakroom.Control.Billing.Lifecycle.{
  cancel_target, reserve_cancel, confirm_cancel, complete_cancel, confirmed_view, cancel,
  subscription_of_checkout, reconcile_target, reconcile_account, reconcile_transaction, reconcile,
}
use breakroom.Control.Billing.Kept.{
  IsFrame, Keeps-quiet, Keeps-update_operation, Keeps-reserve_operation, Keeps-mark_resyncing,
  Keeps-mark_unknown,
}

module _ {c : BillingCall} {R : Store → Store → Type 0} (frame : IsFrame c R) where
  o : Preorder R
  o = frame.order

  Keeps-reserve_cancel :
      (p key : String) (at_end : Bool) (guard : Store → Answer (Unit {0}))
      → Keeps R (reserve_cancel c p key at_end guard)
  unfolding reserve_cancel
  Keeps-reserve_cancel p key at_end guard = Keeps-bind o _ _ (Keeps-query o _) λ _.
      Keeps-bind o _ _ (Keeps-reserve_operation frame p cancel_kind key (at_period_end at_end))
        λ op. Keeps-if (is_completed op) _ _ (Keeps-pure o _) (
          Keeps-bind o _ _ (Keeps-gets o _) λ account.
            Keeps-option account.subscription_id _ _ (Keeps-fail o _)
              λ id. Keeps-bind o _ _ (Keeps-update_operation frame op.id _) λ _. Keeps-pure o _)

  Keeps-confirm_cancel :
      (p : String) (op : Operation) (target : String) (at_end : Bool)
      → Keeps R (confirm_cancel c p op target at_end)
  unfolding confirm_cancel
  Keeps-confirm_cancel p op target at_end = Keeps-bind o _ _ (Keeps-reply o _) λ _.
      Keeps-ask o _ _ λ snapshot e. Keeps-bind o _ _ (frame.applied p target snapshot e) λ _.
        Keeps-bind o _ _ (Keeps-require o _ _)
          λ _. Keeps-bind o _ _ (Keeps-update_operation frame op.id _) λ _. Keeps-pure o _

  Keeps-complete_cancel :
      (p : String) (at_end : Bool) (guard : Store → Answer (Unit {0})) (op : Operation)
      → Keeps R (complete_cancel c p at_end guard op)
  unfolding complete_cancel
  Keeps-complete_cancel p at_end guard op = Keeps-bind o _ _ (Keeps-query o _) λ _.
      Keeps-bind o _ _ (Keeps-query o _) λ current.
        Keeps-bind o _ _
          (Keeps-if (is_completed current) _ _ (Keeps-pure o _) (
            Keeps-bind o _ _ (Keeps-gets o _) λ account.
              Keeps-option (cancel_target current) _ _ (Keeps-fail o _) λ target.
                Keeps-bind o _ _ (Keeps-require o _ _) λ _.
                  Keeps-handle o _ _ (Keeps-confirm_cancel p current target at_end)
                    λ e. Keeps-bind o _ _ (Keeps-mark_unknown frame p op.id) λ _. Keeps-pure o _))
          λ confirmed. Keeps-bind o _ _ (Keeps-gets o _) λ shown. Keeps-pure o _

  Keeps-confirmed_view : (r : Bool × View) → Keeps R (confirmed_view r)
  unfolding confirmed_view
  Keeps-confirmed_view (b, v) = search (keep_rules, o)

  pub Keeps-cancel :
      (p key : String) (at_end : Bool) (guard : Store → Answer (Unit {0}))
      → Keeps R (cancel c p key at_end guard)
  unfolding cancel
  Keeps-cancel p key at_end guard =
      Keeps-bind o _ _ (Keeps-transaction o _ (Keeps-reserve_cancel p key at_end guard)) λ r.
        Keeps-option r _ _ (Keeps-gets o _) λ op.
          Keeps-bind o _ _ (Keeps-transaction o _ (Keeps-complete_cancel p at_end guard op))
            Keeps-confirmed_view

  Keeps-subscription_of_checkout :
      (p : String) (a : Account) (op : Operation) (result : Checkout)
      → Keeps R (subscription_of_checkout c p a op result)
  unfolding subscription_of_checkout
  Keeps-subscription_of_checkout p a op result = Keeps-bind o _ _ (Keeps-reply o _) λ checkout.
      Keeps-bind o _ _ (Keeps-require o _ _) λ _.
        Keeps-if _ _ _
          (Keeps-bind o _ _ (Keeps-update_operation frame op.id _) λ _.
            Keeps-bind o _ _
              (Keeps-quiet frame p _
                (record { same_project = λ x. refl; no_period = λ x. inl refl }))
              λ _. Keeps-pure o _)
          (Keeps-bind o _ _ (Keeps-require o _ _) λ _. Keeps-pure o _)

  Keeps-reconcile_target : (p : String) (a : Account) → Keeps R (reconcile_target c p a)
  unfolding reconcile_target
  Keeps-reconcile_target p a =
      Keeps-option a.subscription_id _ _
        (Keeps-bind o _ _ (Keeps-gets o _) λ found. Keeps-bind o _ _ (Keeps-gets o _) λ some_one.
          Keeps-option found _ _ (search (keep_rules, o)) λ op.
            Keeps-option (checkout_of op) _ _ (search (keep_rules, o))
              (Keeps-subscription_of_checkout p a op))
        λ id. Keeps-pure o _

  Keeps-reconcile_account : (p : String) → Keeps R (reconcile_account c p)
  unfolding reconcile_account
  Keeps-reconcile_account p = Keeps-bind o _ _ (Keeps-gets o _) λ account.
      Keeps-bind o _ _ (Keeps-reconcile_target p account) λ r.
        Keeps-option r _ _ (Keeps-pure o _) λ id.
          Keeps-ask o _ _
            λ snapshot e. Keeps-bind o _ _ (frame.applied p id snapshot e) λ _. Keeps-pure o _

  Keeps-reconcile_transaction :
      (p : String) (guard : Store → Answer (Unit {0})) → Keeps R (reconcile_transaction c p guard)
  unfolding reconcile_transaction
  Keeps-reconcile_transaction p guard = Keeps-bind o _ _ (Keeps-query o _) λ _.
      Keeps-bind o _ _
        (Keeps-handle o _ _ (Keeps-reconcile_account p)
          λ e. Keeps-bind o _ _ (Keeps-mark_resyncing frame p) λ _. Keeps-pure o _)
        λ confirmed. Keeps-bind o _ _ (Keeps-gets o _) λ shown. Keeps-pure o _

  pub Keeps-reconcile :
      (p : String) (guard : Store → Answer (Unit {0})) → Keeps R (reconcile c p guard)
  unfolding reconcile
  Keeps-reconcile p guard =
      Keeps-bind o _ _ (Keeps-transaction o _ (Keeps-reconcile_transaction p guard))
        Keeps-confirmed_view
