-- ===== src/Control/Billing/Attempts/Bound.antt =====
-- How often the worker attempts a webhook event (apps/api/breakroom_api/team_billing.py).
use breakroom.Base.{
  ℕ, ◌+◌, ◌≤◌, ◌≡◌, refl, subst, inl, String, Bool, true, false, not, List, arith, if◌then◌else◌,
}
use breakroom.Control.Rows.{Store}
use breakroom.Control.Monad.{Act, Answer, ok, problem, pure, transaction, ◌>>=◌}
use breakroom.Control.Billing.Provider.{BillingCall}
use breakroom.Control.Billing.Worker.{ClaimedEvent, claim_event, after_claim, process_one}
use breakroom.Control.Billing.Kept.Inbox.{Keeps-after_claim}
use breakroom.Control.Billing.Runs.{
  BillingStep, checkout_step, cancel_step, reconcile_step, accept_step, process_step, BillingRun,
  stop, call,
}
use breakroom.Control.Billing.Attempts.{
  frame, hands_out, Tried, Advances-Tried, BillingStep-EventsAdvance, attempts_of_step, attempts_of,
}
use breakroom.Control.Billing.Attempts.Claims.{Hands, claim_event-Hands, transaction-Hands}

-- `n` attempts before a step, and those of the step.
abbrev Counted : String → ℕ → ℕ → Store → Type 0
Counted id n step after = (n + step ≤ 5) × Tried id (n + step) after.events

Counted-none :
    (id : String) (n : ℕ) (after : Store) → n ≤ 5 → Tried id n after.events → Counted id n 0 after
Counted-none id n after few t =
    let e : n ≡ n + 0 = omega arith in
    (omega (arith, few), subst (λ m. Tried id m after.events) e t)

settles :
    (c : BillingCall) (id : String) (n : ℕ) (db : Store) (x : Answer ClaimedEvent × Store)
    → Hands id n x
    → Counted id n (hands_out id x.0) (((λ _. x) >>= after_claim c) db).1
unfolding ◌>>=◌
settles c id n db (problem p, d) h = h
settles c id n db (ok a, d) (few, t) = (
  few,
  Advances-Tried id (n + hands_out id (ok a)) d.events _
      ((Keeps-after_claim (frame c) (λ xs s k. k) a).at d) t,
)

worker :
    (c : BillingCall) (id : String) (n : ℕ) (db : Store)
    → n ≤ 5
    → Tried id n db.events
    → Counted id n
        (hands_out id (transaction (claim_event c) db).0)
        ((transaction (claim_event c) >>= after_claim c) db).1
unfolding ◌>>=◌ transaction
worker c id n db few t =
    settles c id n db (transaction (claim_event c) db)
      (transaction-Hands id n db (claim_event c db) few t (claim_event-Hands c id n db few t))

process_one-Counted :
    (c : BillingCall) (id : String) (n : ℕ) (db : Store)
    → n ≤ 5
    → Tried id n db.events
    → Counted id n
        (if c.settings.billing_enabled then hands_out id (transaction (claim_event c) db).0 else 0)
        (process_one c db).1
unfolding process_one ◌>>=◌
process_one-Counted c id n db few t =
    where_enabled c.settings.billing_enabled (transaction (claim_event c) >>= after_claim c) _
      (worker c id n db few t)
  where
    where_enabled :
        (b : Bool) (m : Act Bool) (k : ℕ)
        → Counted id n k (m db).1
        → Counted id n (if b then k else 0) ((if not b then pure false else m) db).1
    where_enabled true m k h = h
    where_enabled false m k h = Counted-none id n db few t

BillingStep-Counted :
    (c : BillingCall) (a b : Store) (id : String) (n : ℕ) (s : BillingStep c a b)
    → n ≤ 5
    → Tried id n a.events
    → Counted id n (attempts_of_step id s) b
BillingStep-Counted c a b id n (process_step db) few t = process_one-Counted c id n db few t
BillingStep-Counted c a b id n (checkout_step db p key guard) few t = Counted-none id n b few (
    Advances-Tried id n a.events b.events
      (BillingStep-EventsAdvance c a b (checkout_step db p key guard)) t)
BillingStep-Counted c a b id n (cancel_step db p key at_end guard) few t = Counted-none id n b few (
    Advances-Tried id n a.events b.events
      (BillingStep-EventsAdvance c a b (cancel_step db p key at_end guard)) t)
BillingStep-Counted c a b id n (reconcile_step db p guard) few t = Counted-none id n b few (
    Advances-Tried id n a.events b.events
      (BillingStep-EventsAdvance c a b (reconcile_step db p guard)) t)
BillingStep-Counted c a b id n (accept_step db e) few t =
    Counted-none id n b few
      (Advances-Tried id n a.events b.events (BillingStep-EventsAdvance c a b (accept_step db e)) t)

attempts_of-bound :
    (cs : List BillingCall) (a b : Store) (id : String) (n : ℕ) (run : BillingRun cs a b)
    → n ≤ 5
    → Tried id n a.events
    → n + attempts_of id run ≤ 5
attempts_of-bound cs a b id n stop few t = omega (arith, few)
attempts_of-bound cs a b id n (call {c = c} {cs = cs'} {b = y} s r) few t =
    let (small, t') = BillingStep-Counted c a y id n s few t in
    omega (arith, attempts_of-bound cs' y b id (n + attempts_of_step id s) r small t')

-- In any run of the handlers, from any database, the worker claims an event five times or less.
pub attempts_of-few :
    (cs : List BillingCall) (a b : Store) (id : String) (run : BillingRun cs a b)
    → attempts_of id run ≤ 5
attempts_of-few cs a b id run =
    omega (arith, attempts_of-bound cs a b id 0 run (omega arith) (inl refl))
