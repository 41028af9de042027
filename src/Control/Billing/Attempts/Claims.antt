-- ===== src/Control/Billing/Attempts/Claims.antt =====
-- What `claim_event` does to the count of attempts (apps/api/breakroom_api/team_billing.py).
use breakroom.Base.{
  ℕ, ◌+◌, ◌≤◌, ◌≡◌, refl, sym, subst, inl, inr, String, Bool, true, false, not, none, some, List,
  [], ◌∷◌, ◌==◌, all, leb, filter, update_where, arith, Bool-cases, Option-cases, eq_of_test,
  eq_refl,
}
use breakroom.Control.Rows.{Store, BillingEvent, failed}
use breakroom.Control.Monad.{ok, problem, Answer, transaction}
use breakroom.Control.Answers.{gets_pass, pure_pass, modify_pass}
use breakroom.Control.Billing.Provider.{BillingCall}
use breakroom.Control.Billing.Inbox.{find_event}
use breakroom.Control.Billing.Worker.{
  ClaimedEvent, nothing_due, exhausted, claimed, is_due, earliest, update_event, claim_event,
}
use breakroom.Control.Billing.Kept.Events.{IsRecorded, is_tried, claimed-all, claimed_row}
use breakroom.Control.Billing.Kept.Inbox.{claims_row, settled}
use breakroom.Control.Billing.Attempts.{hands_out, Tried, Advances-Tried}

claim_event-none :
    (c : BillingCall) (db : Store)
    → earliest (filter (is_due c.now) db.events) ≡ none
    → claim_event c db ≡ (ok nothing_due, db)
unfolding claim_event
claim_event-none c db h = gets_pass _ _ db _ (rw h (pure_pass nothing_due db))

claim_event-full :
    (c : BillingCall) (db : Store) (e : BillingEvent)
    → earliest (filter (is_due c.now) db.events) ≡ some e
    → leb 5 e.attempts ≡ true
    → claim_event c db
      ≡ (ok exhausted, update_event e.event_id (λ x. record x { status = failed }) db)
unfolding claim_event
claim_event-full c db e h full = gets_pass _ _ db _ (rw (h, full) (modify_pass _ exhausted db))

claim_event-taken :
    (c : BillingCall) (db : Store) (e : BillingEvent)
    → earliest (filter (is_due c.now) db.events) ≡ some e
    → leb 5 e.attempts ≡ false
    → claim_event c db ≡ (ok (claimed e), update_event e.event_id (claimed_row c e) db)
unfolding claim_event
claim_event-taken c db e h few =
    gets_pass _ _ db _
      (rw (h, few) (modify_pass (update_event e.event_id (claimed_row c e)) (claimed e) db))

-- The row that is claimed is found by its identifier.
none-all :
    (id : String) (xs : List BillingEvent)
    → find_event id xs ≡ none
    → all (λ x. not (x.event_id == id)) xs ≡ true
unfolding find_event
none-all id [] h = refl
none-all id (x ∷ xs) h = ground (arith, none-all id xs)

claimed-IsRecorded :
    (q : BillingEvent → Bool) (xs : List BillingEvent) (e : BillingEvent)
    → earliest (filter q xs) ≡ some e
    → (digest : String) × IsRecorded e.event_id digest xs
claimed-IsRecorded q xs e h = elim (Option-cases (find_event e.event_id xs)) [
  | inl missing ↦ cc (
    claimed-all (λ x. not (x.event_id == e.event_id)) q xs e h (none-all e.event_id xs missing),
    eq_refl e.event_id,
  )
  | inr (row, found) ↦ (row.payload_hash, record { row = row; found = found; same_digest = refl })
]

all-claimed :
    (c : BillingCall) (e : BillingEvent) (id : String) (n : ℕ) (xs : List BillingEvent)
    → e.event_id ≡ id
    → leb n e.attempts ≡ true
    → all (is_tried id (n + 1)) (update_where (λ x. x.event_id == e.event_id) (claimed_row c e) xs)
      ≡ true
all-claimed c e id n [] same h = refl
all-claimed c e id n (x ∷ xs) same h = elim (Bool-cases (x.event_id == e.event_id)) [
  | inl own ↦ ground (arith, own, h, all-claimed c e id n xs same h)
  | inr other ↦ ground (arith, other, same, all-claimed c e id n xs same h)
]

-- After `n` attempts at an event, what an answer of `claim_event` makes of their number.
abbrev pub Hands : String → ℕ → Answer ClaimedEvent × Store → Type 0
Hands id n x = (n + hands_out id x.0 ≤ 5) × Tried id (n + hands_out id x.0) x.1.events

Hands-nothing :
    (id : String) (n : ℕ) (x : Answer ClaimedEvent × Store)
    → n ≤ 5
    → hands_out id x.0 ≡ 0
    → Tried id n x.1.events
    → Hands id n x
Hands-nothing id n x few nothing t =
    let e : n ≡ n + hands_out id x.0 = omega (arith, nothing) in
    (omega (arith, nothing, few), subst (λ m. Tried id m x.1.events) e t)

Tried-few :
    (id : String) (n : ℕ) (q : BillingEvent → Bool) (xs : List BillingEvent) (e : BillingEvent)
    → earliest (filter q xs) ≡ some e
    → (e.event_id == id) ≡ true
    → Tried id n xs
    → leb n e.attempts ≡ true
Tried-few id n q xs e found same (inl zero_tries) = ground arith
Tried-few id n q xs e found same (inr t) =
    rw same at (claimed-all (is_tried id n) q xs e found t.tried)

Hands-taken :
    (c : BillingCall) (id : String) (n : ℕ) (db : Store) (e : BillingEvent)
    → earliest (filter (is_due c.now) db.events) ≡ some e
    → leb 5 e.attempts ≡ false
    → n ≤ 5
    → Tried id n db.events
    → Hands id n (ok (claimed e), update_event e.event_id (claimed_row c e) db)
unfolding update_event
Hands-taken c id n db e found few small t = elim (Bool-cases (e.event_id == id)) [
  | inr other ↦
      Hands-nothing id n (ok (claimed e), update_event e.event_id (claimed_row c e) db) small
        (rw other refl) (Advances-Tried id n db.events _ (claims_row c e db.events found) t)
  | inl same ↦
      let enough = Tried-few id n (is_due c.now) db.events e found same t in
      let this = eq_of_test e.event_id id same in
      let (digest, r) = claimed-IsRecorded (is_due c.now) db.events e found in
      (
        rw same (below n e.attempts enough few),
        inr (record {
          digest = digest;
          recorded =
              (claims_row c e db.events found).recorded id digest
                (subst (λ i. IsRecorded i digest db.events) this r);
          tried = rw same (all-claimed c e id n db.events this enough);
        }),
      )
]
  where
    below : (n m : ℕ) → leb n m ≡ true → leb 5 m ≡ false → n + 1 ≤ 5
    below n m h k = ground arith

-- A claim is one attempt more at its event, of at most five.
pub claim_event-Hands :
    (c : BillingCall) (id : String) (n : ℕ) (db : Store)
    → n ≤ 5
    → Tried id n db.events
    → Hands id n (claim_event c db)
unfolding update_event
claim_event-Hands c id n db small t =
    elim (Option-cases (earliest (filter (is_due c.now) db.events))) [
      | inl missing ↦
          subst (Hands id n) (sym (claim_event-none c db missing))
            (Hands-nothing id n (ok nothing_due, db) small refl t)
      | inr (e, found) ↦ elim (Bool-cases (leb 5 e.attempts)) [
        | inl full ↦ subst (Hands id n) (sym (claim_event-full c db e found full)) (
            Hands-nothing id n
              (ok exhausted, update_event e.event_id (λ x. record x { status = failed }) db) small
              refl
              (Advances-Tried id n db.events _
                (settled e.event_id (λ x. record x { status = failed }) db.events (λ x. refl)
                  (λ x. refl) (λ x. refl))
                t))
        | inr few ↦
            subst (Hands id n) (sym (claim_event-taken c db e found few))
              (Hands-taken c id n db e found few small t)
      ]
    ]

-- The transaction of a claim keeps what it does, for a claim raises nothing.
pub transaction-Hands :
    (id : String) (n : ℕ) (db : Store) (x : Answer ClaimedEvent × Store)
    → n ≤ 5
    → Tried id n db.events
    → Hands id n x
    → Hands id n (transaction (λ _. x) db)
unfolding transaction
transaction-Hands id n db (ok a, d) small t h = h
transaction-Hands id n db (problem p, d) small t h = Hands-nothing id n (problem p, db) small refl t
