-- ===== src/Control/Billing/Runs.antt =====
-- Calls of the billing handlers in any order (apps/api/breakroom_api/team_billing.py).
use breakroom.Base.{ℕ, ◌≡◌, sym, ◌∙◌, none, some, ◌⊎◌, inl, inr, String, Bool, List, [], ◌∷◌}
use breakroom.Control.Rows.{Account, Store}
use breakroom.Control.Monad.{Answer}
use breakroom.Control.Billing.Provider.{BillingCall}
use breakroom.Control.Billing.Handlers.{checkout}
use breakroom.Control.Billing.Lifecycle.{cancel, reconcile}
use breakroom.Control.Billing.Inbox.{WebhookEvent, accept_event}
use breakroom.Control.Billing.Worker.{process_one}
use breakroom.Control.Billing.Paid.{
  PaidUntil, IsProof, Grants, Grants-order, Grants-update, Grants-with_account,
}
use breakroom.Control.Billing.Granted.{Keeps-apply_snapshot}
use breakroom.Control.Billing.Kept.{IsFrame, Keeps-checkout}
use breakroom.Control.Billing.Kept.Cancel.{Keeps-cancel, Keeps-reconcile}
use breakroom.Control.Billing.Kept.Inbox.{Keeps-accept_event, Keeps-process_one}

-- One call of a handler, whatever it answers.
pub data BillingStep (c : BillingCall) : Store → Store → Type 0 where
  checkout_step :
      (db : Store) (project_id key : String) (guard : Store → Answer (Unit {0}))
      → BillingStep c db (checkout c project_id key guard db).1
  cancel_step :
      (db : Store) (project_id key : String) (at_end : Bool) (guard : Store → Answer (Unit {0}))
      → BillingStep c db (cancel c project_id key at_end guard db).1
  reconcile_step :
      (db : Store) (project_id : String) (guard : Store → Answer (Unit {0}))
      → BillingStep c db (reconcile c project_id guard db).1
  accept_step : (db : Store) (e : WebhookEvent) → BillingStep c db (accept_event c e db).1
  process_step : (db : Store) → BillingStep c db (process_one c db).1

-- The calls in their order, each with its own clock and its own answers of the provider.
pub data BillingRun : List BillingCall → Store → Store → Type 0 where
  stop : {a : Store} → BillingRun [] a a
  call :
      {c : BillingCall} {cs : List BillingCall} {a b d : Store}
      → BillingStep c a b
      → BillingRun cs b d
      → BillingRun (c ∷ cs) a d

-- One of the calls was given the proof.
pub data IsProved (project_id : String) (t : ℕ) : List BillingCall → Type 0 where
  here :
      {c : BillingCall} {cs : List BillingCall}
      → IsProof c project_id t
      → IsProved project_id t (c ∷ cs)
  there :
      {c : BillingCall} {cs : List BillingCall}
      → IsProved project_id t cs
      → IsProved project_id t (c ∷ cs)

no_period :
    (c : BillingCall) (p : String) (f : Account → Account) (x : Account) (t : ℕ)
    → ((f x).paid_through ≡ x.paid_through) ⊎ ((f x).paid_through ≡ none)
    → (f x).paid_through ≡ some t
    → x.paid_through ≡ some t ⊎ IsProof c p t
no_period c p f x t (inl e) h = inl (sym e ∙ h)
no_period c p f x t (inr e) h = cc

grant_frame : (c : BillingCall) → IsFrame c (Grants c)
grant_frame c = record {
  order = Grants-order c;
  quiet = λ p f db h.
      Grants-update c db p f h.same_project (λ x t found. no_period c p f x t (h.no_period x));
  blank = λ p db. Grants-with_account c db p;
  operations = λ xs db. record { from = λ p t h. inl h };
  applied = Keeps-apply_snapshot c;
}

BillingStep-Grants : (c : BillingCall) (a b : Store) → BillingStep c a b → Grants c a b
BillingStep-Grants c a b (checkout_step db p key guard) =
    (Keeps-checkout (grant_frame c) p key guard).at db
BillingStep-Grants c a b (cancel_step db p key at_end guard) =
    (Keeps-cancel (grant_frame c) p key at_end guard).at db
BillingStep-Grants c a b (reconcile_step db p guard) =
    (Keeps-reconcile (grant_frame c) p guard).at db
BillingStep-Grants c a b (accept_step db e) =
    (Keeps-accept_event (grant_frame c) (λ xs d _. record { from = λ p t h. inl h }) e).at db
BillingStep-Grants c a b (process_step db) =
    (Keeps-process_one (grant_frame c) (λ xs d _. record { from = λ p t h. inl h })).at db

-- After any calls of checkout, cancel, reconcile, accept_event and process_one in any order, a paid
-- period on record was there before, or one of the calls was answered by the provider with a
-- subscription of one item of the configured price and a fully paid invoice for exactly that period.
pub BillingRun-IsProved :
    (cs : List BillingCall) (a b : Store) (project_id : String) (t : ℕ)
    → BillingRun cs a b
    → PaidUntil b project_id t
    → PaidUntil a project_id t ⊎ IsProved project_id t cs
BillingRun-IsProved cs a b p t stop h = inl h
BillingRun-IsProved cs a b p t (call {c = c} {cs = cs'} {b = y} s r) h =
    elim (BillingRun-IsProved cs' y b p t r h) [
      | inl k ↦ (elim ((BillingStep-Grants c a y s).from p t k) [
        | inl m ↦ inl m
        | inr m ↦ inr (here m)
      ])
      | inr k ↦ inr (there k)
    ]
