-- ===== src/Simulator/Safety/Replay.antt =====
-- Retries of a refund under its operation key
-- (packages/breakroom-core/src/breakroom/simulator.py, `_refund`).
use breakroom.Base.{
  ◌≡◌, ◌∙◌, String, some, List, true, arith, eq_iff, eq_refl, eq_of_test, first_test,
}
use breakroom.Simulator.Rows.{Refund, Parameters, Registration}
use breakroom.Simulator.Calls.{RefundArguments}
use breakroom.Simulator.State.{Db, Session, Case}
use breakroom.Simulator.Answer.{>>=-eq-ok}
use breakroom.Simulator.Queries.{find_refund, find_registration, order_row, permission}
use breakroom.Simulator.Log.{event}
use breakroom.Simulator.Refund.Checks.{
  Checked, refund_checks, checked_amount, checked_text, same_parameters,
}
use breakroom.Simulator.Refund.{refund, reuse}
use breakroom.Simulator.Answer.{found}
use breakroom.Simulator.Monad.{ok, ◌>>=◌}
use breakroom.Simulator.Evolution.{ledger}
use breakroom.Simulator.Evolution.Inserts.{order_row-id}
use breakroom.Ledger.Invariant.{IsSound, refund_parameters}

-- What the checks read off the arguments alone.
refund_checks-arguments :
    (c : Case) (args : RefundArguments) (db : Db) (k : Checked)
    → refund_checks c args db ≡ ok k
    → (checked_text args.operation_key ≡ ok k.operation_key)
      × (checked_amount args.amount_minor ≡ ok k.parameters.amount_minor)
      × (checked_text args.logical_request_id ≡ ok k.parameters.logical_request_id)
      × (k.parameters.order_id ≡ args.order_id)
      × (k.parameters.currency ≡ args.currency)
unfolding refund_checks
refund_checks-arguments c args db k h =
    let (_, _, h₁) = >>=-eq-ok (permission "refund" db) _ h in
    let (amount, good, h₂) = >>=-eq-ok (checked_amount args.amount_minor) _ h₁ in
    let (key, keyed, h₃) = >>=-eq-ok (checked_text args.operation_key) _ h₂ in
    let (request, asked, h₄) = >>=-eq-ok (checked_text args.logical_request_id) _ h₃ in
    let (order, row, h₅) = >>=-eq-ok (order_row c args.order_id db) _ h₄ in
    let target = order_row-id c args.order_id db order row in
    ground (arith, eq_iff args.currency order.currency)

-- Two passes of the checks over the same arguments establish the same key and parameters.
pub refund_checks-agree :
    (c c' : Case) (args : RefundArguments) (a b : Db) (k l : Checked)
    → refund_checks c args a ≡ ok k
    → refund_checks c' args b ≡ ok l
    → (k.operation_key ≡ l.operation_key) × (k.parameters ≡ l.parameters)
refund_checks-agree c c' args a b k l p q =
    let (key, amount, request, order, currency) = refund_checks-arguments c args a k p in
    let (key', amount', request', order', currency') = refund_checks-arguments c' args b l q in
    ground
      (arith, key, amount, request, order, currency, key', amount', request', order', currency')

pub same_parameters_eq : (p q : Parameters) → same_parameters p q ≡ true → p ≡ q
same_parameters_eq p q h = ground (
  arith,
  eq_iff p.order_id q.order_id,
  eq_iff p.currency q.currency,
  eq_iff p.logical_request_id q.logical_request_id,
)

pub same_parameters_refl : (p : Parameters) → same_parameters p p ≡ true
same_parameters_refl p =
    ground (arith, eq_refl p.order_id, eq_refl p.currency, eq_refl p.logical_request_id)

-- A known key with the same parameters: the refund that it names comes back, and nothing moves.
reuse-replays :
    (s : Session) (g : Registration) (c : Checked) (db : Db) (r : Refund)
    → same_parameters g.parameters c.parameters ≡ true
    → find_refund g.refund_id db.refunds ≡ some r
    → ((reuse s g c db).0 ≡ ok r) × (ledger (reuse s g c db).1 ≡ ledger db)
unfolding reuse event ◌>>=◌
reuse-replays s g c db r same found = (ground (arith, same, found), ground (arith, same, found))

pub find_refund-id :
    (id : String) (rs : List Refund) (r : Refund) → find_refund id rs ≡ some r → r.id ≡ id
unfolding find_refund
find_refund-id id rs r h = eq_of_test r.id id (first_test _ rs r h)

-- If the checks of a refund call pass and its operation key is registered with the same parameters,
-- the call returns the refund that the registration names, with the registered parameters, and
-- leaves orders, refunds and registry as they were.
pub refund_replays :
    (s : Session) (args : RefundArguments) (db : Db) (c : Checked) (g : Registration)
    → IsSound (ledger db)
    → refund_checks s.case args db ≡ ok c
    → find_registration c.operation_key db.idempotency ≡ some g
    → g.parameters ≡ c.parameters
    → (r : Refund) × ((refund s args db).0 ≡ ok r)
      × (r.id ≡ g.refund_id)
      × (refund_parameters r ≡ c.parameters)
      × (ledger (refund s args db).1 ≡ ledger db)
unfolding refund ◌>>=◌
refund_replays s args db c g sound passed known same =
    let (r, found, _, parameters) = sound.named c.operation_key g known in
    let replay = reuse-replays s g c db r (rw same (same_parameters_refl c.parameters)) found in
    (
      r,
      ground (arith, passed, known, replay.0),
      find_refund-id g.refund_id db.refunds r found,
      parameters ∙ same,
      ground (arith, passed, known, replay.1),
    )
