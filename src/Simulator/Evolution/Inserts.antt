-- ===== src/Simulator/Evolution/Inserts.antt =====
-- The checks and the inserts of `_refund` are one allowed step of the payment machine
-- (packages/breakroom-core/src/breakroom/simulator.py).
use breakroom.Base.{
  ℕ, zero, suc, pos, negsuc, ◌+◌, ◌≤◌, ◌<◌, ◌≡◌, refl, sym, ap, ◌∙◌, subst, String, ◌⊎◌, inl, inr,
  true, ◌&&◌, ◌||◌, ◌=ℕ=◌, leb, ◌==◌, eq_iff, eq_of_test, none, some, List, [], ◌∷◌, ◌++◌,
  Bool-cases, Option-cases, arith, any, first_test, Extends-refl,
}
use breakroom.Simulator.Rows.{Order, Refund, Value}
use breakroom.Simulator.Calls.{RefundArguments}
use breakroom.Simulator.State.{Db, Session, Case}
use breakroom.Simulator.Queries.{
  find_order, find_refund, find_registration, reserved, order_row, permission,
}
use breakroom.Simulator.Refund.Checks.{
  Checked, refund_checks, checked_amount, checked_text, max_amount,
}
use breakroom.Simulator.Refund.{
  insert_both, insert_refund, insert_registration, new_refund, fresh_id, refund_id, next_refund_id,
}
use breakroom.Simulator.Initialize.{registration_of}
use breakroom.Simulator.Answer.{>>=-eq-ok}
use breakroom.Simulator.Effects.{Committed}
use breakroom.Simulator.Monad.{Raised, integrity_error, ok, raised, ◌>>=◌}
use breakroom.Ledger.Machine.{Allowed, commit, Reach-one}
use breakroom.Simulator.Evolution.{Evolves, Later-refl, ledger}

-- What the checks establish about the database that they read.
pub record IsChecked (db : Db) (c : Checked) : Type 0 where
  pub owned : find_order c.order.id db.orders ≡ some c.order
  pub target : c.parameters.order_id ≡ c.order.id
  pub positive : 0 < c.parameters.amount_minor
  pub bounded : c.parameters.amount_minor ≤ max_amount
  pub currency : c.parameters.currency ≡ c.order.currency

checked_amount_bounds : (v : Value) (n : ℕ) → checked_amount v ≡ ok n → (0 < n) × (n ≤ max_amount)
unfolding checked_amount
checked_amount_bounds (Value.int (pos k)) n h = ground arith
checked_amount_bounds (Value.int (negsuc k)) n h = cc
checked_amount_bounds (Value.text k) n h = cc
checked_amount_bounds (Value.boolean k) n h = cc
checked_amount_bounds Value.null n h = cc

find_order-id : (id : String) (os : List Order) (o : Order) → find_order id os ≡ some o → o.id ≡ id
unfolding find_order
find_order-id id os o h = eq_of_test o.id id (first_test _ os o h)

pub order_row-id :
    (c : Case) (id : String) (db : Db) (o : Order) → order_row c id db ≡ ok o → o.id ≡ id
unfolding order_row
order_row-id c id db o h = find_order-id id db.orders o (ground arith)

order_row-owned :
    (c : Case) (id : String) (db : Db) (o : Order)
    → order_row c id db ≡ ok o
    → find_order o.id db.orders ≡ some o
unfolding order_row
order_row-owned c id db o h =
    let there : find_order id db.orders ≡ some o = ground arith in
    ap (λ k. find_order k db.orders) (find_order-id id db.orders o there) ∙ there

pub refund_checks-IsChecked :
    (c : Case) (args : RefundArguments) (db : Db) (k : Checked)
    → refund_checks c args db ≡ ok k
    → IsChecked db k
unfolding refund_checks
refund_checks-IsChecked c args db k h =
    let (_, _, h₁) = >>=-eq-ok (permission "refund" db) _ h in
    let (amount, good, h₂) = >>=-eq-ok (checked_amount args.amount_minor) _ h₁ in
    let (key, _, h₃) = >>=-eq-ok (checked_text args.operation_key) _ h₂ in
    let (request, _, h₄) = >>=-eq-ok (checked_text args.logical_request_id) _ h₃ in
    let (order, row, h₅) = >>=-eq-ok (order_row c args.order_id db) _ h₄ in
    let bounds = checked_amount_bounds args.amount_minor amount good in
    let owned = order_row-owned c args.order_id db order row in
    ground (arith, eq_iff args.currency order.currency)

fresh_id-fresh :
    (fuel index : ℕ) (rs : List Refund) (id : String)
    → fresh_id fuel index rs ≡ some id
    → find_refund id rs ≡ none
unfolding fresh_id
fresh_id-fresh zero index rs id h = cc
fresh_id-fresh (suc fuel) index rs id h = elim (Option-cases (find_refund (refund_id index) rs)) [
  | inl e ↦ let same : refund_id index ≡ id = ground (arith, e) in rw same at e
  | inr (x, e) ↦ fresh_id-fresh fuel (index + 1) rs id (ground (arith, e))
]

abbrev with_refund : Refund → Db → Db
with_refund r db = record db { refunds = db.refunds ++ r ∷ [] }

insert_refund-eq :
    (r : Refund) (db : Db)
    → Allowed (ledger db) r
    → ((e : Raised) × (insert_refund r db ≡ (raised e, db)))
      ⊎ (insert_refund r db ≡ (ok tt, with_refund r db))
unfolding insert_refund
insert_refund-eq r db a =
    elim (Bool-cases
      (any (λ x. x.operation_key == r.operation_key) db.refunds || r.amount_minor =ℕ= 0)) [
        | inl taken ↦ inl (integrity_error, ground (arith, a.fresh_id, a.owned, taken))
        | inr free ↦ inr (ground (arith, a.fresh_id, a.owned, free))
      ]

insert_registration-eq :
    (r : Refund) (db : Db)
    → find_registration r.operation_key db.idempotency ≡ none
    → ((e : Raised) × (insert_registration (registration_of r) db ≡ (raised e, db)))
      ⊎ (insert_registration (registration_of r) db
          ≡ (ok tt, record db { idempotency = db.idempotency ++ registration_of r ∷ [] }))
unfolding insert_registration
insert_registration-eq r db fresh = elim (Option-cases (find_refund r.id db.refunds)) [
  | inl missing ↦ inl (integrity_error, ground (arith, fresh, missing))
  | inr (x, there) ↦ inr (ground (arith, fresh, there))
]

abbrev pub with_both : Refund → Db → Db
with_both r db = record db {
  refunds = db.refunds ++ r ∷ [];
  idempotency = db.idempotency ++ registration_of r ∷ [];
}

pub insert_both-eq :
    (r : Refund) (db : Db)
    → Allowed (ledger db) r
    → ((e : Raised) × (d : Db) × (insert_both r (registration_of r) db ≡ (raised e, d)))
      ⊎ (insert_both r (registration_of r) db ≡ (ok tt, with_both r db))
unfolding insert_both ◌>>=◌
insert_both-eq r db a = elim (insert_refund-eq r db a) [
  | inl (e, stop) ↦ inl (e, db, ground (arith, stop))
  | inr added ↦ elim (insert_registration-eq r (with_refund r db) a.fresh_key) [
    | inl (e, stop) ↦ inl (e, with_refund r db, ground (arith, added, stop))
    | inr registered_too ↦ inr (ground (arith, added, registered_too))
  ]
]

-- Both inserts are one step of the machine, if the refund is allowed.
pub insert_both-Evolves :
    (r : Refund) (db : Db)
    → Allowed (ledger db) r
    → Committed Evolves db (insert_both r (registration_of r) db)
insert_both-Evolves r db a = elim (insert_both-eq r db a) [
  | inl (e, d, stop) ↦ subst (Committed Evolves db) (sym stop) tt
  | inr done ↦ subst (Committed Evolves db) (sym done) (record {
    pays = Reach-one (commit r a refl);
    customers = refl;
    clock = omega arith;
    log = Extends-refl db.events;
    notes = Extends-refl db.notes;
    operations = Extends-refl db.ticket_operations;
    tickets = Later-refl db.tickets;
    permissions = λ o h. h;
  })
]

-- The refund that the checks and the balance test let through.
pub new_refund-Allowed :
    (s : Session) (c : Checked) (db : Db) (id : String)
    → IsChecked db c
    → find_registration c.operation_key db.idempotency ≡ none
    → (c.order.status == "paid"
        && leb (c.parameters.amount_minor + reserved c.order.id db.refunds) c.order.amount_minor)
      ≡ true
    → next_refund_id db ≡ some id
    → Allowed (ledger db) (new_refund s c id db.clock)
unfolding next_refund_id
new_refund-Allowed s c db id k unused fits fresh = record {
  order = c.order;
  owned = k.owned;
  paid = eq_of_test c.order.status "paid" (ground (arith, fits));
  positive = k.positive;
  covered = ground (arith, fits);
  currency = k.currency;
  fresh_id = fresh_id-fresh _ _ db.refunds id fresh;
  fresh_key = unused;
}

pub registration-eq :
    (s : Session) (c : Checked) (id : String) (now : ℕ)
    → c.parameters.order_id ≡ c.order.id
    → registration_of (new_refund s c id now)
      ≡ record { operation_key = c.operation_key; parameters = c.parameters; refund_id = id }
registration-eq s c id now e = cc
