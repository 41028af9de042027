-- ===== src/Control/Billing/Kept/Inbox.antt =====
-- What `accept_event` and `process_one` keep (apps/api/breakroom_api/team_billing.py).
use breakroom.Base.{
  ℕ, ◌+◌, ap, ◌∙◌, eq_refl, filter, none, ◌==◌, leb, update_where, ◌≡◌, refl, arith, inl, String,
  true, not, some, List, if◌then◌else◌,
}
use breakroom.Control.Rows.{Store, BillingEvent, checkout_target, subscription_target, ready}
use breakroom.Control.Monad.{Problem, http, unexpected, unavailable, invalid_request, pure}
use breakroom.Control.Effects.{
  Preorder, Keeps, Keeps-option, Keeps-ask, Keeps-bind, Keeps-gets, Keeps-pure, Keeps-fail,
  Keeps-require, Keeps-if, Keeps-handle, Keeps-reply, Keeps-transaction, Keeps-modify, keep_rules,
  at-gets, at-if, at-option, at-require, at-modify,
}
use breakroom.Control.Billing.Provider.{BillingCall, is_identifier}
use breakroom.Control.Billing.Account.{has_text}
use breakroom.Control.Billing.Inbox.{
  find_event, customer_account, new_event, is_known_target, target_kind_of, WebhookEvent,
  insert_event, repeated_event, store_event, accept_event, target_of, is_event_type,
}
use breakroom.Control.Billing.Worker.{
  is_due, earliest, ClaimedEvent, nothing_due, exhausted, claimed, claim_event,
  checkout_subscription, subscription_of, reconcile_event, event_problem, settle_event, after_claim,
  process_one, update_event,
}
use breakroom.Control.Billing.Kept.Events.{
  Advances, Advances-append, Advances-update, claimed-all, is_tried, claimed_row,
}
use breakroom.Control.Billing.Kept.{IsQuiet, IsFrame, Keeps-quiet, Keeps-mark_resyncing}

IsQuiet-expired : IsQuiet (λ a.
    if has_text a.subscription_id then a else record a { status = "none"; sync_state = ready })
IsQuiet-expired = record { same_project = λ x. ground arith; no_period = λ x. inl (ground arith) }

-- A status that the worker writes leaves identifier, digest and attempts alone.
pub settled :
    (id : String) (f : BillingEvent → BillingEvent) (xs : List BillingEvent)
    → ((x : BillingEvent) → (f x).event_id ≡ x.event_id)
    → ((x : BillingEvent) → (f x).payload_hash ≡ x.payload_hash)
    → ((x : BillingEvent) → (f x).attempts ≡ x.attempts)
    → Advances xs (update_where (λ e. e.event_id == id) f xs)
settled id f xs same_id same_hash same_attempts = Advances-update id f xs (record {
  same_id = same_id;
  same_hash = same_hash;
  no_fall = λ n x _ h. ap (leb n) (same_attempts x) ∙ h;
})

-- A claim of the earliest row that is due.
pub claims_row :
    (c : BillingCall) (e : BillingEvent) (xs : List BillingEvent)
    → earliest (filter (is_due c.now) xs) ≡ some e
    → Advances xs (update_where (λ x. x.event_id == e.event_id) (claimed_row c e) xs)
claims_row c e xs found = Advances-update e.event_id (claimed_row c e) xs (record {
  same_id = λ x. refl;
  same_hash = λ x. refl;
  no_fall =
      λ n x all_tried _. one_more n e (claimed-all (is_tried e.event_id n) _ xs e found all_tried);
})
  where
    small : (n m : ℕ) → leb n m ≡ true → leb n (m + 1) ≡ true
    small n m h = ground arith

    one_more :
        (n : ℕ) (e : BillingEvent) → is_tried e.event_id n e ≡ true → leb n (e.attempts + 1) ≡ true
    one_more n e h = small n e.attempts (rw (eq_refl e.event_id) at h)

module _ {c : BillingCall} {R : Store → Store → Type 0} (frame : IsFrame c R) where
  o : Preorder R
  o = frame.order

  Keeps-checkout_subscription : (e : BillingEvent) → Keeps R (checkout_subscription c e)
  unfolding checkout_subscription
  Keeps-checkout_subscription e = Keeps-bind o _ _ (Keeps-reply o _) λ checkout.
      Keeps-bind o _ _ (Keeps-gets o _) λ account. Keeps-bind o _ _ (Keeps-require o _ _) λ _.
        Keeps-if _ _ _
          (Keeps-bind o _ _ (Keeps-quiet frame e.project_id _ IsQuiet-expired) λ _. Keeps-pure o _)
          (Keeps-bind o _ _ (Keeps-require o _ _) λ _. Keeps-pure o _)

  Keeps-subscription_of : (e : BillingEvent) → Keeps R (subscription_of c e)
  unfolding subscription_of
  Keeps-subscription_of e =
      elim e.target_kind
        as (λ k. Keeps R (elim k [
          | subscription_target ↦ pure (some e.target_id)
          | checkout_target ↦ checkout_subscription c e
        ])) [
          | subscription_target ↦ Keeps-pure o _
          | checkout_target ↦ Keeps-checkout_subscription e
        ]

  pub Keeps-reconcile_event : (e : BillingEvent) → Keeps R (reconcile_event c e)
  unfolding reconcile_event
  Keeps-reconcile_event e = Keeps-bind o _ _ (Keeps-subscription_of e) λ r.
      Keeps-option r _ _ (Keeps-pure o _) λ id. Keeps-ask o _ _ λ snapshot h.
        Keeps-bind o _ _ (frame.applied e.project_id id snapshot h) λ applied. Keeps-pure o _

  Keeps-retried : (e : BillingEvent) → Keeps R (event_problem e unavailable)
  unfolding event_problem
  Keeps-retried e = Keeps-bind o _ _ (Keeps-mark_resyncing frame e.project_id) λ _. Keeps-pure o _

  pub Keeps-event_problem : (e : BillingEvent) (x : Problem) → Keeps R (event_problem e x)
  unfolding event_problem
  Keeps-event_problem e invalid_request =
      Keeps-bind o _ _
        (Keeps-quiet frame e.project_id _
          (record { same_project = λ x. refl; no_period = λ x. inl refl }))
        λ _. Keeps-pure o _
  Keeps-event_problem e unavailable = Keeps-retried e
  Keeps-event_problem e unexpected = Keeps-retried e
  Keeps-event_problem e (http n) = Keeps-retried e

module _ {c : BillingCall} {R : Store → Store → Type 0} (frame : IsFrame c R)
    (events : (xs : List BillingEvent) (db : Store)
      → Advances db.events xs
      → R db (record db { events = xs })) where
  r : Preorder R
  r = frame.order

  at-insert_event :
      (e : WebhookEvent) (project_id target : String) (db : Store)
      → find_event e.id db.events ≡ none
      → R db (insert_event c e project_id target db).1
  unfolding insert_event
  at-insert_event e project_id target db new = at-gets r db _ _ (
      at-if r db (is_known_target (target_kind_of e.kind) project_id target db) _ _
        (at-gets r db _ _ (
          at-require r db _ _ _ λ _.
            at-modify r db _ _
              (events _ db (Advances-append db.events (new_event c e project_id target) new))))
        ((Keeps-pure r _).at db))

  Keeps-repeated_event :
      (e : WebhookEvent) (prior : BillingEvent) → Keeps R (repeated_event e prior)
  unfolding repeated_event
  Keeps-repeated_event e prior = search (keep_rules, r)

  Keeps-store_event : (e : WebhookEvent) (target : String) → Keeps R (store_event c e target)
  unfolding store_event
  Keeps-store_event e target = record {
    at = λ db. at-gets r db _ _ (
        at-option r db (find_event e.id db.events) _ _
          (λ new. at-gets r db _ _ (
            at-option r db (customer_account e.customer db) _ _ (λ _. (Keeps-pure r _).at db)
              (λ a _. at-insert_event e a.project_id target db new)))
          (λ prior _. (Keeps-repeated_event e prior).at db));
  }

  pub Keeps-accept_event : (e : WebhookEvent) → Keeps R (accept_event c e)
  unfolding accept_event
  Keeps-accept_event e = Keeps-bind r _ _ (Keeps-require r _ _) λ _.
      Keeps-if (not (is_event_type e.kind)) _ _ (Keeps-pure r _) (
        Keeps-if (not (is_identifier e.customer "cus")) _ _ (Keeps-pure r _) (
          Keeps-option (target_of e) _ _ (Keeps-fail r _) λ target.
            Keeps-bind r _ _ (Keeps-require r _ _)
              λ _. Keeps-transaction r _ (Keeps-store_event e target)))

  pub Keeps-claim_event : Keeps R (claim_event c)
  unfolding claim_event update_event
  Keeps-claim_event = record {
    at = λ db. at-gets r db _ _ (
        at-option r db (earliest (filter (is_due c.now) db.events)) _ _
          (λ _. (Keeps-pure r _).at db)
          (λ e found.
            at-if r db (leb 5 e.attempts) _ _
              (at-modify r db _ _
                (events _ db (settled e.event_id _ db.events (λ x. refl) (λ x. refl) (λ x. refl))))
              (at-modify r db _ _ (events _ db (claims_row c e db.events found)))));
  }

  Keeps-settle_event : (e : BillingEvent) → Keeps R (settle_event c e)
  unfolding settle_event update_event
  Keeps-settle_event e = Keeps-bind r _ _ (Keeps-gets r _) λ project.
      Keeps-bind r _ _ (Keeps-gets r _) λ current.
        Keeps-if _ _ _
          (Keeps-bind r _ _
            (Keeps-handle r _ _ (Keeps-reconcile_event frame e) (Keeps-event_problem frame e))
            λ status. Keeps-modify _ λ db. events _ db (
              settled e.event_id _ db.events (λ x. ground arith) (λ x. ground arith)
                (λ x. ground arith)))
          (Keeps-pure r _)

  pub Keeps-after_claim : (x : ClaimedEvent) → Keeps R (after_claim c x)
  unfolding after_claim
  Keeps-after_claim nothing_due = Keeps-pure r _
  Keeps-after_claim exhausted = Keeps-pure r _
  Keeps-after_claim (claimed e) =
      Keeps-bind r _ _ (Keeps-transaction r _ (Keeps-settle_event e)) λ _. Keeps-pure r _

  pub Keeps-process_one : Keeps R (process_one c)
  unfolding process_one
  Keeps-process_one =
      Keeps-if _ _ _ (Keeps-pure r _)
        (Keeps-bind r _ _ (Keeps-transaction r _ Keeps-claim_event) Keeps-after_claim)
