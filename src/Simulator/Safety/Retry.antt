-- ===== src/Simulator/Safety/Retry.antt =====
-- What a refund call that returned leaves in the registry, and a retry after any run
-- (packages/breakroom-core/src/breakroom/simulator.py, `_refund`).
use breakroom.Base.{
  ◌≢◌, Bool-cases, ◌≡◌, refl, ap, ◌∙◌, subst, sym, String, Option, none, some, List, [], ◌∷◌, ◌++◌,
  true, arith, eq_refl, eq_of_test, inl, inr, Option-cases, first_test, first-append_missing,
}
use breakroom.Simulator.Rows.{Refund, Registration}
use breakroom.Simulator.Calls.{RefundArguments, EventData}
use breakroom.Simulator.State.{Db, Session}
use breakroom.Simulator.Queries.{find_refund, find_registration}
use breakroom.Simulator.Log.{event}
use breakroom.Simulator.Refund.Checks.{Checked, refund_checks, same_parameters}
use breakroom.Simulator.Refund.{refund, reuse, create, registered, insert_both, new_refund}
use breakroom.Simulator.Answer.{found}
use breakroom.Ledger.Machine.{Allowed, Reach-trans}
use breakroom.Simulator.Monad.{Outcome, ok, raised, tool_error, type_error, query, pure, ◌>>=◌}
use breakroom.Simulator.Initialize.{registration_of}
use breakroom.Simulator.Ensures.{Ensures, Ensures-bind, Ensures-gets, Ensures-query, Ensures-guard}
use breakroom.Simulator.Effects.{Committed}
use breakroom.Simulator.Evolution.{Evolves, ledger}
use breakroom.Simulator.Evolution.Clock.{Commits-event, Commits-announce}
use breakroom.Simulator.Evolution.Inserts.{
  IsChecked, refund_checks-IsChecked, insert_both-eq, new_refund-Allowed, registration-eq,
}
use breakroom.Simulator.Evolution.Payments.{Commits-refund}
use breakroom.Ledger.Invariant.{IsSound, Reach-IsSound, Reach-registry}
use breakroom.Simulator.Safety.Interleaving.{Run, Run-Evolves}
use breakroom.Simulator.Safety.Replay.{
  refund_checks-agree, refund_replays, same_parameters_eq, find_refund-id,
}

-- What a refund call that returned has left in the registry.
abbrev Registers : Checked → Refund → Db → Type 0
Registers c r d =
    find_registration c.operation_key d.idempotency
    ≡ some (record { operation_key = c.operation_key; parameters = c.parameters; refund_id = r.id })

find_registration-new :
    (k : String) (gs : List Registration) (g : Registration)
    → find_registration k gs ≡ none
    → g.operation_key ≡ k
    → find_registration k (gs ++ g ∷ []) ≡ some g
unfolding find_registration
find_registration-new k gs g missing same =
    first-append_missing _ gs (g ∷ []) missing ∙ rw (← same) (rw eq_refl refl)

Registers-later :
    (c : Checked) (r : Refund) (a b : Db) → Evolves a b → Registers c r a → Registers c r b
Registers-later c r a b e h = Reach-registry c.operation_key _ e.pays h

pure-Registers :
    (c : Checked) (r : Refund) (d : Db) → Registers c r d → Ensures (Registers c) (pure r d)
unfolding ◌>>=◌
pure-Registers c r d h = h

Committed-Registers :
    {A : Type 0} (c : Checked) (r : Refund) (db : Db) (x : Outcome A × Db)
    → Registers c r db
    → Committed Evolves db x
    → Ensures (λ _ d. Registers c r d) x
Committed-Registers c r db (ok a, d) h e = Registers-later c r db d e h
Committed-Registers c r db (raised e, d) h _ = tt

insert_both-Registers :
    (r : Refund) (db : Db)
    → Allowed (ledger db) r
    → Ensures
        (λ _ d. find_registration r.operation_key d.idempotency ≡ some (registration_of r))
        (insert_both r (registration_of r) db)
insert_both-Registers r db a = elim (insert_both-eq r db a) [
  | inl (e, d, stop) ↦ subst (Ensures _) (sym stop) tt
  | inr done ↦
      subst (Ensures _) (sym done)
        (find_registration-new r.operation_key db.idempotency (registration_of r) a.fresh_key refl)
]

create-Registers :
    (s : Session) (c : Checked) (db : Db)
    → IsChecked db c
    → find_registration c.operation_key db.idempotency ≡ none
    → Ensures (Registers c) (create s c db)
unfolding create
create-Registers s c db k unused = Ensures-gets _ _ _ db (
    Ensures-guard _ _ _ _ db λ fits. Ensures-query _ _ _ db λ id fresh.
      let r = new_refund s c id db.clock in
      let same = registration-eq s c id db.clock k.target in
      let allowed = new_refund-Allowed s c db id k unused fits (ground (arith, fresh)) in
      Ensures-gets _ _ _ db (
        Ensures-bind (Registers c) (λ _ d. Registers c r d) _ _ db
          (subst
            (λ g.
              Ensures (λ _ d. find_registration c.operation_key d.idempotency ≡ some g)
                (insert_both r g db))
            same (insert_both-Registers r db allowed))
          λ _ d h.
            Ensures-bind (Registers c) (λ _ d'. Registers c r d') _ _ d
              (Committed-Registers c r d _ h ((Commits-event s _ _).at d))
              λ _ d' h'.
                Ensures-bind (Registers c) (λ _ e. Registers c r e) _ _ d'
                  (Committed-Registers c r d' _ h' ((Commits-announce s r).at d'))
                  (λ _ e last. pure-Registers c r e last)))

-- The last query of `reuse`.
found-Registers :
    (g : Registration) (c : Checked) (d : Db)
    → same_parameters g.parameters c.parameters ≡ true
    → find_registration c.operation_key d.idempotency ≡ some g
    → Ensures (Registers c) (query (λ db. found (find_refund g.refund_id db.refunds) type_error) d)
unfolding ◌>>=◌ find_registration
found-Registers g c d same known = elim (Option-cases (find_refund g.refund_id d.refunds)) [
  | inl missing ↦ rw missing tt
  | inr (r, there) ↦
      let key = eq_of_test g.operation_key c.operation_key (first_test _ d.idempotency g known) in
      let parameters = same_parameters_eq g.parameters c.parameters same in
      let id = find_refund-id g.refund_id d.refunds r there in rw there (known ∙ cc)
]

event_keeps :
    (s : Session) (tool : Option String) (payload : EventData) (db : Db)
    → Ensures (λ _ d. d.idempotency ≡ db.idempotency) (event s tool payload db)
unfolding event
event_keeps s tool payload db = refl

reuse-Registers :
    (s : Session) (g : Registration) (c : Checked) (db : Db)
    → find_registration c.operation_key db.idempotency ≡ some g
    → Ensures (Registers c) (reuse s g c db)
unfolding reuse
reuse-Registers s g c db known = Ensures-guard _ _ _ _ db λ same.
    Ensures-bind (Registers c) (λ _ d. d.idempotency ≡ db.idempotency) _ _ db (event_keeps s _ _ db)
      λ _ d h. found-Registers g c d same (ap (find_registration c.operation_key) h ∙ known)

after_lookup-Registers :
    (s : Session) (c : Checked) (db : Db)
    → IsChecked db c
    → Ensures (Registers c) (registered s c (find_registration c.operation_key db.idempotency) db)
after_lookup-Registers s c db k = go (find_registration c.operation_key db.idempotency) refl
  where
    go :
        (o : Option Registration)
        → find_registration c.operation_key db.idempotency ≡ o
        → Ensures (Registers c) (registered s c o db)
    go none e = create-Registers s c db k e
    go (some g) e = reuse-Registers s g c db e

refund-Registers :
    (s : Session) (args : RefundArguments) (db : Db)
    → Ensures
        (λ r d. (c : Checked) × (refund_checks s.case args db ≡ ok c) × Registers c r d)
        (refund s args db)
unfolding refund
refund-Registers s args db = Ensures-query _ _ _ db λ c passed. Ensures-gets _ _ _ db (
    with_checks c passed _
      (after_lookup-Registers s c db (refund_checks-IsChecked s.case args db c passed)))
  where
    with_checks :
        (c : Checked)
        → refund_checks s.case args db ≡ ok c
        → (x : Outcome Refund × Db) → Ensures (Registers c) x
        → Ensures (λ r d. (k : Checked) × (refund_checks s.case args db ≡ ok k) × Registers k r d) x
    with_checks c passed (ok r, d) h = (c, passed, h)
    with_checks c passed (raised e, d) h = tt

-- Suppose a refund call returned `r` from a sound ledger, and any threads then ran any transactions.
-- If the same arguments still pass the checks, then the call, made again by any session, returns the
-- refund with the identifier of `r` and leaves orders, refunds and registry as they were.
pub refund_retry :
    (s t : Session) (args : RefundArguments) (a b d : Db) (r : Refund) (c : Checked)
    → IsSound (ledger a)
    → refund s args a ≡ (ok r, b)
    → Run b d
    → refund_checks t.case args d ≡ ok c
    → (again : Refund) × ((refund t args d).0 ≡ ok again)
      × (again.id ≡ r.id)
      × (ledger (refund t args d).1 ≡ ledger d)
refund_retry s t args a b d r c sound returned run passed =
    let (k, checked, kept) = subst (Ensures _) returned (refund-Registers s args a) in
    let first_step : Evolves a b =
      subst (Committed Evolves a) returned ((Commits-refund s args).at a) in
    let later = Registers-later k r b d (Run-Evolves run) kept in
    let (key, parameters) = refund_checks-agree s.case t.case args a d k c checked passed in
    let (again, answered, id, _, same) =
      refund_replays t args d c _
        (Reach-IsSound (Reach-trans first_step.pays (Run-Evolves run).pays) sound) passed
        (ap (λ j. find_registration j d.idempotency) (sym key) ∙ later) parameters in
    (again, answered, id, same)

-- A key that is registered with other parameters refuses a call.
refused_by :
    (s : Session) (args : RefundArguments) (db : Db) (c : Checked) (g : Registration)
    → refund_checks s.case args db ≡ ok c
    → find_registration c.operation_key db.idempotency ≡ some g
    → g.parameters ≢ c.parameters
    → refund s args db ≡ (raised (tool_error "idempotency_conflict" 0), db)
unfolding refund reuse ◌>>=◌
refused_by s args db c g passed known other =
    elim (Bool-cases (same_parameters g.parameters c.parameters)) [
      | inl same ↦ absurd (other (same_parameters_eq g.parameters c.parameters same))
      | inr differ ↦ ground (arith, passed, known, differ)
    ]

-- Suppose a refund call returned, and any threads then ran any transactions. A call of any session
-- with the same operation key that passes the checks with another order, amount, currency or request
-- is refused as an idempotency conflict, and changes nothing.
pub refund_conflict :
    (s t : Session) (args other : RefundArguments) (a b d : Db) (r : Refund) (k c : Checked)
    → refund s args a ≡ (ok r, b)
    → Run b d
    → refund_checks s.case args a ≡ ok k
    → refund_checks t.case other d ≡ ok c
    → c.operation_key ≡ k.operation_key
    → c.parameters ≢ k.parameters
    → refund t other d ≡ (raised (tool_error "idempotency_conflict" 0), d)
refund_conflict s t args other a b d r k c returned run first passed same differ =
    let (k', checked, kept) = subst (Ensures _) returned (refund-Registers s args a) in
    let later = Registers-later k' r b d (Run-Evolves run) kept in
    let (key, parameters) = refund_checks-agree s.case s.case args a a k' k checked first in
    refused_by t other d c _ passed
      (ap (λ j. find_registration j d.idempotency) (same ∙ sym key) ∙ later)
      (λ e. differ (sym e ∙ parameters))
