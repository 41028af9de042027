-- ===== src/Control/Billing/Tests.antt =====
-- The billing handlers on concrete requests (apps/api/breakroom_api/team_billing.py).
use breakroom.Base.{◌≤◌, ◌≡◌, ◌⊎◌, refl, true, false, none, some, [], ◌∷◌}
use breakroom.Control.Rows.{
  BillingEvent, Account, syncing, Store, Settings, waiting, subscription_target,
}
use breakroom.Control.Monad.{Answer, ok, problem, unavailable, transaction, handle, ◌>>=◌}
use breakroom.Control.Billing.Provider.{
  identifier, BillingCall, Provider, Snapshot, Item, Invoice, Line,
}
use breakroom.Control.Billing.Account.{find_account, account_of, update_account}
use breakroom.Control.Billing.Snapshot.{project_snapshot}
use breakroom.Control.Billing.Inbox.{
  is_event_type, target_of, target_kind_of, WebhookEvent, accepted, find_event, accept_event,
}
use breakroom.Control.Billing.Worker.{process_one, claim_event, update_event}
use breakroom.Control.Billing.Paid.{PaidUntil}
use breakroom.Control.Billing.Runs.{
  stop, call, process_step, BillingRun, IsProved, BillingRun-IsProved,
}
use breakroom.Control.Billing.Attempts.{attempts_of}
use breakroom.Control.Billing.Attempts.Bound.{attempts_of-few}
use breakroom.Control.Billing.Repeats.{accept_event-repeated, repeated_answer}

abbrev test_settings : Settings
test_settings = record {
  environment = "test";
  dev_login = true;
  password_enabled = true;
  mail_available = true;
  session_ttl_seconds = 3600;
  public_origin = "https://breakroom.test";
  billing_enabled = true;
  price_id = "price_a";
  unit_amount = 5000;
  currency = "usd";
  seat_limit = 5;
  report_limit = 100;
  storage_limit = 1000000;
}

abbrev test_item : Item
test_item = record {
  id = some "si_a";
  price = record {
    id = some "price_a";
    unit_amount = some 5000;
    currency = some "usd";
    interval = some "month";
    interval_count = some 1;
  };
  quantity = some 1;
  current_period_start = some 1000000;
  current_period_end = some 2000000;
}

abbrev test_line : Line
test_line = record {
  period_start = some 1000000;
  period_end = some 2000000;
  parent_type = some "subscription_item_details";
  subscription = some "sub_a";
  subscription_item = some "si_a";
  proration = some false;
  pricing_type = some "price_details";
  price = some "price_a";
  quantity = some 1;
  amount = some 5000;
  currency = some "usd";
}

abbrev test_invoice : Invoice
test_invoice = record {
  status = some "paid";
  parent = some "sub_a";
  lines = test_line ∷ [];
  has_more = false;
  customer = some "cus_a";
  currency = some "usd";
  livemode = some false;
  amount_paid = some 5000;
  amount_due = some 5000;
  amount_remaining = some 0;
}

abbrev test_snapshot : Snapshot
test_snapshot = record {
  id = some "sub_a";
  customer = some "cus_a";
  livemode = some false;
  status = some "active";
  items = some (test_item ∷ []);
  has_more = false;
  cancel_at_period_end = some false;
  latest_invoice = some test_invoice;
  pause_collection = false;
}

abbrev test_provider : Provider
test_provider = record {
  create_customer = λ p k. problem unavailable;
  create_checkout = λ customer p k. problem unavailable;
  retrieve_checkout = λ id. problem unavailable;
  retrieve_subscription = λ id. ok test_snapshot;
  cancel_subscription = λ id k b. problem unavailable;
}

abbrev test_call : BillingCall
test_call = record {
  settings = test_settings;
  now = 1500000;
  opaque_id = "lease";
  digest = λ r. "digest";
  provider = test_provider;
}

abbrev test_account : Account
test_account = record {
  project_id = "p";
  customer_id = some "cus_a";
  subscription_id = some "sub_a";
  status = "pending";
  sync_state = syncing;
  cancel_at_period_end = false;
  current_period_end = none;
  paid_through = none;
}

abbrev test_store : Store
test_store = record {
  users = [];
  sessions = [];
  credentials = [];
  account_tokens = [];
  auth_limits = [];
  projects = "p" ∷ [];
  memberships = [];
  invitations = [];
  reports = [];
  accounts = test_account ∷ [];
  operations = [];
  events = [];
}

-- An invoice that was paid, as a webhook tells.
abbrev test_event : WebhookEvent
test_event = record {
  id = "evt_a";
  kind = "invoice.paid";
  created = 1400000;
  payload_hash = "hash_a";
  customer = some "cus_a";
  object_id = none;
  parent_subscription = some "sub_a";
}

abbrev accepted_store : Store
accepted_store = record test_store {
  events =
      record {
        event_id = "evt_a";
        project_id = "p";
        payload_hash = "hash_a";
        event_type = "invoice.paid";
        target_id = "sub_a";
        target_kind = subscription_target;
        provider_created = 1400000;
        status = waiting;
        attempts = 0;
        lease_token = none;
        lease_until = none;
        retry_at = 1500000;
        created_at = 1500000;
      }
      ∷ [];
}

allowed : Store → Answer (Unit {0})
allowed db = ok tt

accepts_test :
    accept_event test_call test_event test_store ≡ (ok (accepted false waiting), accepted_store)
unfolding accept_event ◌>>=◌ transaction
accepts_test = refl

abbrev processed_run :
    BillingRun (test_call ∷ []) accepted_store (process_one test_call accepted_store).1
processed_run = call (process_step accepted_store) stop

abbrev other_payload : WebhookEvent
other_payload = record test_event { payload_hash = "hash_b" }

accept_event-repeated_example :
    (row : BillingEvent) × (find_event "evt_a" (process_one test_call accepted_store).1.events
      ≡ some row)
    × (row.payload_hash ≡ "hash_a")
    × (accept_event test_call other_payload (process_one test_call accepted_store).1
        ≡ repeated_answer other_payload row (process_one test_call accepted_store).1)
unfolding is_event_type identifier target_of target_kind_of
accept_event-repeated_example =
    accept_event-repeated test_call test_call (test_call ∷ []) test_event other_payload test_store
      accepted_store _ accepts_test processed_run refl
      (record {
        in_time = refl;
        is_used = refl;
        of_customer = refl;
        target = "sub_a";
        targets = refl;
        names_target = refl;
      })

-- The worker reads the subscription again and records its period.
worker_paid : PaidUntil (process_one test_call accepted_store).1 "p" 2000000
unfolding process_one ◌>>=◌ transaction handle find_account update_account update_event account_of
    project_snapshot
worker_paid = (_, refl, refl)

BillingRun-IsProved_example :
    PaidUntil accepted_store "p" 2000000 ⊎ IsProved "p" 2000000 (test_call ∷ [])
BillingRun-IsProved_example =
    BillingRun-IsProved (test_call ∷ []) accepted_store _ "p" 2000000 processed_run worker_paid

one_attempt : attempts_of "evt_a" processed_run ≡ 1
unfolding process_one claim_event ◌>>=◌ transaction
one_attempt = refl

attempts_of-few_example : attempts_of "evt_a" processed_run ≤ 5
attempts_of-few_example = attempts_of-few (test_call ∷ []) accepted_store _ "evt_a" processed_run
