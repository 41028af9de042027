-- ===== src/Control/Billing/Attempts.antt =====
-- What a run of the billing handlers does to the webhook events on record
-- (apps/api/breakroom_api/team_billing.py).
pub mod Claims
pub mod Bound
use breakroom.Base.{
  ℕ, ◌+◌, ◌≤◌, ◌≡◌, refl, ap, sym, ◌∙◌, subst, ◌⊎◌, inl, inr, String, Bool, true, false, not,
  Option, none, some, List, [], ◌∷◌, ◌++◌, ◌==◌, all, leb, filter, arith, Bool-cases, Option-cases,
  eq_of_test, eq_refl, if◌then◌else◌,
}
use breakroom.Control.Rows.{Account, Store, BillingEvent, failed}
use breakroom.Control.Monad.{Act, Answer, ok, problem, transaction, modify, pure, ◌>>=◌, ◌>>◌}
use breakroom.Control.Effects.{
  Preorder, Keeps, Keeps-bind, Keeps-gets, Keeps-reply, Keeps-if, Keeps-pure, Keeps-modify,
  Keeps-require,
}
use breakroom.Control.Billing.Provider.{BillingCall, Snapshot}
use breakroom.Control.Billing.Account.{update_account, blank_account, find_account}
use breakroom.Control.Billing.Snapshot.{apply_snapshot, project_snapshot}
use breakroom.Control.Billing.Inbox.{find_event}
use breakroom.Control.Billing.Worker.{
  ClaimedEvent, nothing_due, exhausted, claimed, is_due, earliest, update_event, claim_event,
  after_claim, process_one,
}
use breakroom.Control.Billing.Paid.{Keeps-is_own}
use breakroom.Control.Billing.Kept.{IsFrame, Keeps-checkout}
use breakroom.Control.Billing.Kept.Cancel.{Keeps-cancel, Keeps-reconcile}
use breakroom.Control.Billing.Kept.Events.{
  Advances, Advances-refl, Advances-trans, IsRecorded, is_tried, claimed-all, claimed_row,
}
use breakroom.Control.Billing.Kept.Inbox.{
  Keeps-accept_event, Keeps-process_one, Keeps-claim_event, Keeps-after_claim,
}
use breakroom.Control.Billing.Runs.{
  BillingStep, checkout_step, cancel_step, reconcile_step, accept_step, process_step, BillingRun,
  stop, call,
}

abbrev pub EventsAdvance : Store → Store → Type 0
EventsAdvance a b = Advances a.events b.events

o : Preorder EventsAdvance
o = record {
  same = λ a. Advances-refl a.events;
  chain = λ a b c f g. Advances-trans a.events b.events c.events f g;
}

Keeps-project_snapshot :
    (c : BillingCall) (p : String) (a : Account) (snapshot : Snapshot) (id status : String)
    → Keeps EventsAdvance (project_snapshot c p a snapshot id status)
unfolding project_snapshot update_account
Keeps-project_snapshot c p a snapshot id status = Keeps-bind o _ _ (Keeps-reply o _) λ i.
    Keeps-bind o _ _ (Keeps-require o _ _) λ _. Keeps-bind o _ _ (Keeps-reply o _) λ bounds.
      Keeps-bind o _ _ (Keeps-reply o _) λ cancels. Keeps-bind o _ _ (Keeps-reply o _) λ through.
        Keeps-bind o _ _ (Keeps-modify _ λ db. Advances-refl db.events) λ _. Keeps-pure o _

blank-EventsAdvance :
    (db : Store) (p : String) (r : Option Account)
    → EventsAdvance db (elim r as (λ _. Store) [
      | none ↦ record db { accounts = db.accounts ++ blank_account p ∷ [] }
      | some _ ↦ db
    ])
blank-EventsAdvance db p none = Advances-refl db.events
blank-EventsAdvance db p (some a) = Advances-refl db.events

Keeps-apply_snapshot :
    (c : BillingCall) (p : String) (snapshot : Snapshot)
    → Keeps EventsAdvance (apply_snapshot c p snapshot)
unfolding apply_snapshot
Keeps-apply_snapshot c p snapshot = Keeps-bind o _ _ (Keeps-gets o _) λ account.
    Keeps-bind o _ _ (Keeps-reply o _) λ named.
      Keeps-bind o _ _ (Keeps-is_own o c p account named.0) λ own.
        Keeps-if own _ _ (Keeps-project_snapshot c p account snapshot named.0 named.1)
          (Keeps-pure o _)

pub frame : (c : BillingCall) → IsFrame c EventsAdvance
unfolding update_account
frame c = record {
  order = o;
  quiet = λ p f db h. Advances-refl db.events;
  blank = λ p db. blank-EventsAdvance db p (find_account p db.accounts);
  operations = λ xs db. Advances-refl db.events;
  applied = λ p named snapshot _. Keeps-apply_snapshot c p snapshot;
}

pub BillingStep-EventsAdvance :
    (c : BillingCall) (a b : Store) → BillingStep c a b → EventsAdvance a b
BillingStep-EventsAdvance c a b (checkout_step db p key guard) =
    (Keeps-checkout (frame c) p key guard).at db
BillingStep-EventsAdvance c a b (cancel_step db p key at_end guard) =
    (Keeps-cancel (frame c) p key at_end guard).at db
BillingStep-EventsAdvance c a b (reconcile_step db p guard) =
    (Keeps-reconcile (frame c) p guard).at db
BillingStep-EventsAdvance c a b (accept_step db e) =
    (Keeps-accept_event (frame c) (λ xs d k. k) e).at db
BillingStep-EventsAdvance c a b (process_step db) =
    (Keeps-process_one (frame c) (λ xs d k. k)).at db

-- A run of any handlers loses no event.
pub BillingRun-IsRecorded :
    (cs : List BillingCall) (a b : Store) (id digest : String)
    → BillingRun cs a b
    → IsRecorded id digest a.events
    → IsRecorded id digest b.events
BillingRun-IsRecorded cs a b id digest stop h = h
BillingRun-IsRecorded cs a b id digest (call {c = c} {cs = cs'} {b = y} s r) h =
    BillingRun-IsRecorded cs' y b id digest r
      ((BillingStep-EventsAdvance c a y s).recorded id digest h)

-- Whether the answer of `claim_event` hands out an event of this identifier.
abbrev pub hands_out : String → Answer ClaimedEvent → ℕ
hands_out id (ok (claimed e)) = if e.event_id == id then 1 else 0
hands_out id (ok nothing_due) = 0
hands_out id (ok exhausted) = 0
hands_out id (problem p) = 0

-- The attempts at an event that a step makes: the worker claims it once or not at all.
abbrev pub attempts_of_step : {c : BillingCall} {a b : Store} → String → BillingStep c a b → ℕ
attempts_of_step {c = c} id (process_step db) =
    if c.settings.billing_enabled then hands_out id (transaction (claim_event c) db).0 else 0
attempts_of_step id (checkout_step db p key guard) = 0
attempts_of_step id (cancel_step db p key at_end guard) = 0
attempts_of_step id (reconcile_step db p guard) = 0
attempts_of_step id (accept_step db e) = 0

-- The attempts that a run makes.
abbrev pub attempts_of : {cs : List BillingCall} {a b : Store} → String → BillingRun cs a b → ℕ
attempts_of id stop = 0
attempts_of id (call s r) = attempts_of_step id s + attempts_of id r

-- The event was attempted `n` times or more: a row of it is on record, and each counts them.
pub record IsTried (id : String) (n : ℕ) (xs : List BillingEvent) : Type 0 where
  pub digest : String
  pub recorded : IsRecorded id digest xs
  pub tried : all (is_tried id n) xs ≡ true

abbrev pub Tried : String → ℕ → List BillingEvent → Type 0
Tried id n xs = n ≡ 0 ⊎ IsTried id n xs

pub Advances-Tried :
    (id : String) (n : ℕ) (xs ys : List BillingEvent)
    → Advances xs ys
    → Tried id n xs
    → Tried id n ys
Advances-Tried id n xs ys a (inl zero_tries) = inl zero_tries
Advances-Tried id n xs ys a (inr t) = inr (record {
  digest = t.digest;
  recorded = a.recorded id t.digest t.recorded;
  tried = a.tried id t.digest n t.recorded t.tried;
})
