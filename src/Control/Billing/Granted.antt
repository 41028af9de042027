-- ===== src/Control/Billing/Granted.antt =====
-- What the handlers grant (apps/api/breakroom_api/team_billing.py).
use breakroom.Base.{
  ℕ, ◌≡◌, refl, sym, ap, ◌∙◌, subst, ◌⊎◌, inl, inr, String, Bool, true, false, Option, none, some,
  List, leb, arith, eq_of_test, first_test, ◌==◌, Bool-cases, if◌then◌else◌,
}
use breakroom.Control.Rows.{Account, Store, Settings}
use breakroom.Control.Monad.{ok, problem, invalid_request}
use breakroom.Control.Effects.{
  Keeps, Keeps-pure, at-ask, at-modify, at-if, at-gets, at-require, at-Reads,
}
use breakroom.Control.Billing.Provider.{BillingCall, Snapshot, Item, Invoice}
use breakroom.Control.Billing.Account.{find_account, account_of, blank_account}
use breakroom.Control.Billing.Snapshot.{
  only_item, is_price, period, is_invoice, later_of, paid_through, project_snapshot, apply_snapshot,
}
use breakroom.Control.Billing.Paid.{IsProof, Grants, Grants-order, Grants-update, is_own_reads}

kept_case : (old r : Option ℕ) (t : ℕ) → ok old ≡ ok r → r ≡ some t → old ≡ some t
kept_case old r t h q = cc

later_case : (end t : ℕ) (old : Option ℕ) → later_of end old ≡ t → (old ≡ some t) ⊎ (t ≡ end)
later_case end t none h = inr (sym h)
later_case end t (some u) h = elim (Bool-cases (leb end u)) [
  | inl e ↦ inl (ground arith)
  | inr e ↦ inr (ground arith)
]

paid_case :
    (b d : Bool) (end : ℕ) (old r : Option ℕ) (t : ℕ)
    → (if b then (if d then ok (some (later_of end old)) else problem invalid_request) else ok old)
      ≡ ok r
    → r ≡ some t
    → (old ≡ some t) ⊎ ((d ≡ true) × (t ≡ end))
paid_case true true end old r t h q = elim (later_case end t old (cc)) [
  | inl e ↦ inl e
  | inr e ↦ inr (refl, e)
]
paid_case true false end old r t h q = cc
paid_case false d end old r t h q = inl (kept_case old r t h q)

-- What the projection puts on record was there before, or an invoice pays for this very period.
paid_through_case :
    (s : Settings) (a : Account) (id : String) (i : Item) (start end : ℕ) (v : Option Invoice)
    (r : Option ℕ) (t : ℕ)
    → paid_through s a id i start end v ≡ ok r
    → r ≡ some t
    → (a.paid_through ≡ some t)
      ⊎ ((w : Invoice) × (v ≡ some w) × (is_invoice s a id i start end w ≡ true) × (t ≡ end))
unfolding paid_through
paid_through_case s a id i start end none r t h q = inl (kept_case a.paid_through r t h q)
paid_through_case s a id i start end (some v) r t h q =
    elim (paid_case _ _ end a.paid_through r t h q) [
      | inl e ↦ inl e
      | inr (y, e) ↦ inr (v, refl, y, e)
    ]

account_found :
    (db : Store) (p : String) (x : Account)
    → find_account p db.accounts ≡ some x
    → account_of db p ≡ x
unfolding account_of
account_found db p x h = ground arith

proved :
    (c : BillingCall) (p : String) (account : Account) (named id : String) (snapshot : Snapshot)
    (i : Item) (start end : ℕ) (through : Option ℕ) (t : ℕ)
    → account.project_id ≡ p
    → c.provider.retrieve_subscription named ≡ ok snapshot
    → only_item snapshot ≡ ok i
    → is_price c.settings i ≡ true
    → period i ≡ ok (start, end)
    → paid_through c.settings account id i start end snapshot.latest_invoice ≡ ok through
    → through ≡ some t
    → (account.paid_through ≡ some t) ⊎ IsProof c p t
proved c p account named id snapshot i start end through t m h e price b g r =
    elim (paid_through_case c.settings account id i start end snapshot.latest_invoice through t g
      r) [
        | inl k ↦ inl k
        | inr (w, has, pays, u) ↦ inr (record {
          subscription_id = named;
          snapshot = snapshot;
          is_answer = h;
          item = i;
          has_item = e;
          is_priced = price;
          start = start;
          has_period = subst (λ n. period i ≡ ok (start, n)) (sym u) b;
          account = account;
          is_account = m;
          id = id;
          invoice = w;
          has_invoice = has;
          is_paid = subst (λ n. is_invoice c.settings account id i start n w ≡ true) (sym u) pays;
        })
      ]

project_of :
    (p : String) (xs : List Account) (r : Option Account) (a : Account)
    → find_account p xs ≡ r
    → a ≡ (elim r as (λ _. Account) [ none ↦ blank_account p | some x ↦ x ])
    → a.project_id ≡ p
unfolding find_account
project_of p xs none a h e = ap (λ x. x.project_id) e
project_of p xs (some x) a h e =
    ap (λ y. y.project_id) e
    ∙ eq_of_test x.project_id p (first_test (λ y. y.project_id == p) xs x h)

account_project : (db : Store) (p : String) → (account_of db p).project_id ≡ p
unfolding account_of
account_project db p =
    project_of p db.accounts (find_account p db.accounts) (account_of db p) refl refl

project_snapshot-Grants :
    (c : BillingCall) (db : Store) (p named id status : String) (snapshot : Snapshot)
    → c.provider.retrieve_subscription named ≡ ok snapshot
    → Grants c db (project_snapshot c p (account_of db p) snapshot id status db).1
unfolding project_snapshot
project_snapshot-Grants c db p named id status snapshot h =
    let o = Grants-order c in
    at-ask o db _ _ λ i e. at-require o db _ _ _ λ price. at-ask o db _ _ λ bounds b.
      at-ask o db _ _ λ cancels _. at-ask o db _ _ λ through g. at-modify o db _ _ (
        Grants-update c db p _ (λ x. refl)
          λ x t found r.
            subst (λ a. (a.paid_through ≡ some t) ⊎ IsProof c p t) (account_found db p x found)
              (proved c p (account_of db p) named id snapshot i bounds.0 bounds.1 through t
                (account_project db p) h e price b g r))

pub Keeps-apply_snapshot :
    (c : BillingCall) (p named : String) (snapshot : Snapshot)
    → c.provider.retrieve_subscription named ≡ ok snapshot
    → Keeps (Grants c) (apply_snapshot c p snapshot)
unfolding apply_snapshot
Keeps-apply_snapshot c p named snapshot h = record {
  at = λ db.
      let o = Grants-order c in
      at-gets o db _ _ (
        at-ask o db _ _ λ names e.
          at-Reads o db _ _ (is_own_reads c p (account_of db p) names.0 db) λ own.
            at-if o db own _ _ (project_snapshot-Grants c db p named names.0 names.1 snapshot h)
              ((Keeps-pure o false).at db));
}
