-- ===== src/Simulator/Evolution/Payments.antt =====
-- `_refund` moves the ledger by steps of the payment machine only
-- (packages/breakroom-core/src/breakroom/simulator.py).
use breakroom.Base.{◌≡◌, refl, subst, Option, none, some, arith}
use breakroom.Simulator.Rows.{Registration}
use breakroom.Simulator.Calls.{RefundArguments}
use breakroom.Simulator.State.{Db, Session}
use breakroom.Simulator.Queries.{find_registration}
use breakroom.Simulator.Refund.Checks.{Checked}
use breakroom.Simulator.Refund.{insert_both, reuse, registered, create, new_refund, refund}
use breakroom.Simulator.Effects.{
  Committed, Commits, Committed-query, Committed-gets, Committed-guard, Committed-bind,
}
use breakroom.Simulator.Evolution.{Evolves, Evolves-preorder}
use breakroom.Simulator.Evolution.Clock.{frame_rules, Commits-announce}
use breakroom.Simulator.Evolution.Inserts.{
  IsChecked, refund_checks-IsChecked, insert_both-Evolves, new_refund-Allowed, registration-eq,
}

Commits-reuse : (s : Session) (g : Registration) (c : Checked) → Commits Evolves (reuse s g c)
unfolding reuse
Commits-reuse s g c = search frame_rules depth 12

-- What the branch of a new key may commit, where the checks passed and the key is new.
create-Evolves :
    (s : Session) (c : Checked) (db : Db)
    → IsChecked db c
    → find_registration c.operation_key db.idempotency ≡ none
    → Committed Evolves db (create s c db)
unfolding create
create-Evolves s c db k unused = Committed-gets Evolves _ _ db (
    Committed-guard Evolves _ _ _ db λ fits. Committed-query Evolves _ _ db λ id fresh.
      Committed-gets Evolves _ _ db (
        Committed-bind Evolves-preorder _ _ db
          (subst (λ g. Committed Evolves db (insert_both (new_refund s c id db.clock) g db))
            (registration-eq s c id db.clock k.target)
            (insert_both-Evolves _ db
              (new_refund-Allowed s c db id k unused fits (ground (arith, fresh)))))
          (λ _. search (frame_rules, Commits-announce) depth 12)))

after_lookup-Evolves :
    (s : Session) (c : Checked) (db : Db)
    → IsChecked db c
    → Committed Evolves db (registered s c (find_registration c.operation_key db.idempotency) db)
after_lookup-Evolves s c db k = go (find_registration c.operation_key db.idempotency) refl
  where
    go :
        (o : Option Registration)
        → find_registration c.operation_key db.idempotency ≡ o
        → Committed Evolves db (registered s c o db)
    go none e = create-Evolves s c db k e
    go (some g) e = (Commits-reuse s g c).at db

-- `_refund` commits at most one allowed refund.
pub Commits-refund : (s : Session) (args : RefundArguments) → Commits Evolves (refund s args)
unfolding refund
Commits-refund s args = record {
  at = λ db. Committed-query Evolves _ _ db λ c passed.
      Committed-gets Evolves _ _ db
        (after_lookup-Evolves s c db (refund_checks-IsChecked s.case args db c passed));
}
