-- ===== src/Control/Billing/Repeats.antt =====
-- Requests that come again (apps/api/breakroom_api/team_billing.py).
use breakroom.Base.{
  ltb, ◌≡◌, refl, ap, ◌∙◌, inl, inr, String, true, false, not, none, some, List, [], ◌∷◌, ◌++◌,
  ◌==◌, eq_refl, first-append_missing, if◌then◌else◌,
}
use breakroom.Control.Rows.{Store, BillingEvent, EventStatus, waiting}
use breakroom.Control.Monad.{Answer, ok, problem, http}
use breakroom.Control.Answers.{
  if_run, require_pass, fail_run, option_run, require_run, gets_run, gets_pass, modify_run,
  pure_run, require_answer, transaction_run, transaction_same,
}
use breakroom.Control.Billing.Provider.{BillingCall, is_identifier, identifier}
use breakroom.Control.Billing.Kept.Events.{IsRecorded}
use breakroom.Control.Billing.Runs.{BillingRun}
use breakroom.Control.Billing.Attempts.{BillingRun-IsRecorded}
use breakroom.Control.Billing.Inbox.{
  WebhookEvent, Accepted, not_accepted, accepted, find_event, customer_account, is_known_target,
  prefix_of, target_kind_of, target_of, is_event_type, new_event, insert_event, repeated_event,
  store_event, accept_event,
}

-- An event that `accept_event` does not turn down before it looks for a row.
pub record IsUsable (e : WebhookEvent) : Type 0 where
  pub in_time : ltb e.created 32503680000 ≡ true
  pub is_used : is_event_type e.kind ≡ true
  pub of_customer : is_identifier e.customer "cus" ≡ true
  pub target : String
  pub targets : target_of e ≡ some target
  pub names_target : identifier (prefix_of (target_kind_of e.kind)) target ≡ true

-- What the inbox answers for an event that is on record.
abbrev pub repeated_answer : WebhookEvent → BillingEvent → Store → Answer Accepted × Store
repeated_answer e row db = (
  if row.payload_hash == e.payload_hash then ok (accepted true row.status) else problem (http 409),
  db,
)

not_recorded : {A : Type 0} {r : String} → not_accepted r ≡ accepted false waiting → A
not_recorded h = cc

not_again : {A : Type 0} {s : EventStatus} → accepted true s ≡ accepted false waiting → A
not_again h = cc

insert_event-added :
    (c : BillingCall) (e : WebhookEvent) (project_id target : String) (db after : Store)
    → insert_event c e project_id target db ≡ (ok (accepted false waiting), after)
    → after ≡ record db { events = db.events ++ new_event c e project_id target ∷ [] }
unfolding insert_event
insert_event-added c e project_id target db after h =
    elim (if_run (is_known_target (target_kind_of e.kind) project_id target db) _ _ db _
      (gets_run _ _ db _ h)) [
        | inl (_, k) ↦
            (pure_run _ _ _ after
              (modify_run _ _ db _ (require_run _ _ _ db after _ (gets_run _ _ db _ k)).1)).1
        | inr (_, k) ↦ not_recorded (pure_run _ _ db after k).0
      ]

found_new :
    (c : BillingCall) (e : WebhookEvent) (project_id target : String) (xs : List BillingEvent)
    → find_event e.id xs ≡ none
    → find_event e.id (xs ++ new_event c e project_id target ∷ [])
      ≡ some (new_event c e project_id target)
unfolding find_event
found_new c e project_id target xs h =
    first-append_missing (λ x. x.event_id == e.id) xs _ h ∙ rw (eq_refl e.id) refl

store_event-IsRecorded :
    (c : BillingCall) (e : WebhookEvent) (target : String) (db after : Store)
    → store_event c e target db ≡ (ok (accepted false waiting), after)
    → IsRecorded e.id e.payload_hash after.events
unfolding store_event repeated_event
store_event-IsRecorded c e target db after h =
    elim (option_run (find_event e.id db.events) _ _ db _ (gets_run _ _ db _ h)) [
      | inl (missing, k) ↦
          elim (option_run (customer_account e.customer db) _ _ db _ (gets_run _ _ db _ k)) [
            | inl (_, m) ↦ not_recorded (pure_run _ _ db after m).0
            | inr (a, _, m) ↦ record {
              row = new_event c e a.project_id target;
              found =
                  ap (λ s. find_event e.id s.events)
                    (insert_event-added c e a.project_id target db after m)
                  ∙ found_new c e a.project_id target db.events missing;
              same_digest = refl;
            }
          ]
      | inr (prior, _, k) ↦ not_again (pure_run _ _ db after (require_run _ _ _ db after _ k).1).0
    ]

accept_event-IsRecorded :
    (c : BillingCall) (e : WebhookEvent) (db after : Store)
    → accept_event c e db ≡ (ok (accepted false waiting), after)
    → IsRecorded e.id e.payload_hash after.events
unfolding accept_event
accept_event-IsRecorded c e db after h =
    let (_, k) = require_run _ _ _ db after _ h in
    elim (if_run (not (is_event_type e.kind)) _ _ db _ k) [
      | inl (_, l) ↦ not_recorded (pure_run _ _ db after l).0
      | inr (_, l) ↦ elim (if_run (not (is_identifier e.customer "cus")) _ _ db _ l) [
        | inl (_, m) ↦ not_recorded (pure_run _ _ db after m).0
        | inr (_, m) ↦ elim (option_run (target_of e) _ _ db _ m) [
          | inl (_, n) ↦ fail_run _ db after _ n
          | inr (target, _, n) ↦
              store_event-IsRecorded c e target db after
                (transaction_run _ db after _ (require_run _ _ _ db after _ n).1)
        ]
      ]
    ]

store_event-again :
    (d : BillingCall) (e : WebhookEvent) (target : String) (row : BillingEvent) (after : Store)
    → find_event e.id after.events ≡ some row
    → store_event d e target after ≡ repeated_answer e row after
unfolding store_event repeated_event
store_event-again d e target row after found = gets_pass _ _ after _ (
    rw found (
      require_answer (row.payload_hash == e.payload_hash) (http 409) (accepted true row.status)
        after))

accept_event-again :
    (d : BillingCall) (e : WebhookEvent) (row : BillingEvent) (after : Store)
    → IsUsable e
    → find_event e.id after.events ≡ some row
    → accept_event d e after ≡ repeated_answer e row after
unfolding accept_event
accept_event-again d e row after u found =
    require_pass (ltb e.created 32503680000) _ _ after u.in_time
    ∙ rw (u.is_used, u.of_customer, u.targets)
        (require_pass (identifier (prefix_of (target_kind_of e.kind)) u.target) _ _ after
            u.names_target
          ∙ transaction_same _ after _ (store_event-again d e u.target row after found))

-- After an event was accepted as new and any calls of the handlers, its row is on record with the
-- digest of its payload, and any event of the same identifier that passes the tests in front of the
-- store is answered as a duplicate with the row's status where its digest is the same, and refused
-- with 409 where it is another; the database stays as it is either way.
pub accept_event-repeated :
    (c d : BillingCall) (cs : List BillingCall) (e again : WebhookEvent) (db mid after : Store)
    → accept_event c e db ≡ (ok (accepted false waiting), mid)
    → BillingRun cs mid after
    → again.id ≡ e.id
    → IsUsable again
    → (row : BillingEvent) × (find_event e.id after.events ≡ some row)
      × (row.payload_hash ≡ e.payload_hash)
      × (accept_event d again after ≡ repeated_answer again row after)
accept_event-repeated c d cs e again db mid after h run same usable =
    let r =
      BillingRun-IsRecorded cs mid after e.id e.payload_hash run
        (accept_event-IsRecorded c e db mid h) in
    (
      r.row,
      r.found,
      r.same_digest,
      accept_event-again d again r.row after usable
          (ap (λ i. find_event i after.events) same ∙ r.found),
    )
