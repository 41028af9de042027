-- ===== src/Control/Billing/Paid.antt =====
-- Where a paid period comes from (apps/api/breakroom_api/team_billing.py).
use breakroom.Base.{
  ℕ, ◌≡◌, refl, sym, ap, ◌∙◌, subst, ◌⊎◌, inl, inr, String, Bool, true, false, Option, none, some,
  [], ◌∷◌, ◌++◌, first, map_found, updated, first-update_where, first_test, first-append_found,
  first-append_missing, arith, ◌==◌, eq_of_test, if◌then◌else◌,
}
use breakroom.Control.Rows.{Account, Store}
use breakroom.Control.Monad.{ok}
use breakroom.Control.Effects.{
  Preorder, Keeps, Keeps-option, Keeps-bind, Keeps-gets, keep_rules, Unchanged-order,
}
use breakroom.Control.Billing.Provider.{BillingCall, Snapshot, Item, Invoice}
use breakroom.Control.Billing.Account.{find_account, blank_account, update_account, with_account}
use breakroom.Control.Billing.Snapshot.{only_item, is_price, period, is_invoice, is_own}

-- The project's account records the paid period.
abbrev pub PaidUntil : Store → String → ℕ → Type 0
PaidUntil db project_id t =
    (a : Account) × (find_account project_id db.accounts ≡ some a) × (a.paid_through ≡ some t)

-- A snapshot of the provider with one item of the configured price, whose period ends at `t`, and
-- a paid invoice of the full amount for that period.
pub record IsProof (c : BillingCall) (project_id : String) (t : ℕ) : Type 0 where
  pub subscription_id : String
  pub snapshot : Snapshot
  pub is_answer : c.provider.retrieve_subscription subscription_id ≡ ok snapshot
  pub item : Item
  pub has_item : only_item snapshot ≡ ok item
  pub is_priced : is_price c.settings item ≡ true
  pub start : ℕ
  pub has_period : period item ≡ ok (start, t)
  pub account : Account
  pub is_account : account.project_id ≡ project_id
  pub id : String
  pub invoice : Invoice
  pub has_invoice : snapshot.latest_invoice ≡ some invoice
  pub is_paid : is_invoice c.settings account id item start t invoice ≡ true

-- Every paid period was there before, or is proved by an answer of the provider in this call.
pub record Grants (c : BillingCall) (a b : Store) : Type 0 where
  pub from :
      (project_id : String) (t : ℕ)
      → PaidUntil b project_id t
      → PaidUntil a project_id t ⊎ IsProof c project_id t

pub Grants-order : (c : BillingCall) → Preorder (Grants c)
Grants-order c = record {
  same = λ a. record { from = λ p t h. inl h };
  chain = λ a b d h k. record {
    from = λ p t q. elim (k.from p t q) [ inl r ↦ h.from p t r | inr r ↦ inr r ];
  };
}

same_project :
    (p id : String) (x : Account)
    → (x.project_id == p) ≡ true
    → (x.project_id == id) ≡ true
    → p ≡ id
same_project p id x h k = sym (eq_of_test x.project_id p h) ∙ eq_of_test x.project_id id k

updated_paid :
    (c : BillingCall) (db : Store) (p id : String) (t : ℕ) (b : Bool) (f : Account → Account)
    (x y : Account)
    → (x.project_id == p) ≡ b
    → find_account id db.accounts ≡ some x
    → (find_account p db.accounts ≡ some x
        → (f x).paid_through ≡ some t
        → x.paid_through ≡ some t ⊎ IsProof c p t)
    → (if b then f x else x).paid_through ≡ some t
    → PaidUntil db id t ⊎ IsProof c id t
unfolding find_account
updated_paid c db p id t true f x y e h k q =
    elim (k
      (subst (λ n. find_account n db.accounts ≡ some x)
        (sym (same_project p id x e (first_test (λ a. a.project_id == id) db.accounts x h))) h)
      q) [
        | inl r ↦ inl (x, h, r)
        | inr r ↦ inr (
            subst (λ n. IsProof c n t)
              (same_project p id x e (first_test (λ a. a.project_id == id) db.accounts x h)) r)
      ]
updated_paid c db p id t false f x y e h k q = inl (x, h, q)

some_eq : {x y : Account} → some x ≡ some y → y ≡ x
some_eq h = cc

-- A lookup after an update that keeps the projects.
found_updated :
    (c : BillingCall) (db : Store) (p id : String) (t : ℕ) (f : Account → Account)
    (r : Option Account) (y : Account)
    → find_account id db.accounts ≡ r
    → ((x : Account)
        → find_account p db.accounts ≡ some x
        → (f x).paid_through ≡ some t
        → x.paid_through ≡ some t ⊎ IsProof c p t)
    → map_found (updated (λ a. a.project_id == p) f) r ≡ some y
    → y.paid_through ≡ some t
    → PaidUntil db id t ⊎ IsProof c id t
found_updated c db p id t f none y e k h q = cc
found_updated c db p id t f (some x) y e k h q =
    updated_paid c db p id t (x.project_id == p) f x y refl e (k x)
      (subst (λ z. z.paid_through ≡ some t) (some_eq h) q)

pub Grants-update :
    (c : BillingCall) (db : Store) (p : String) (f : Account → Account)
    → ((x : Account) → (f x).project_id ≡ x.project_id)
    → ((x : Account) (t : ℕ)
        → find_account p db.accounts ≡ some x
        → (f x).paid_through ≡ some t
        → x.paid_through ≡ some t ⊎ IsProof c p t)
    → Grants c db (update_account p f db)
unfolding find_account update_account
Grants-update c db p f keeps k = record {
  from = λ id t (y, found, paid).
      found_updated c db p id t f (find_account id db.accounts) y refl (λ x. k x t)
        (sym (
            first-update_where (λ a. a.project_id == p) (λ a. a.project_id == id) f db.accounts
              (λ x. ap (λ n. n == id) (keeps x)))
          ∙ found)
        paid;
}

blank_unpaid :
    {A : Type 0} (p id : String) (t : ℕ) (y : Account)
    → first (λ a. a.project_id == id) (blank_account p ∷ []) ≡ some y
    → y.paid_through ≡ some t
    → A
blank_unpaid p id t y h q = grind arith

found_with_blank :
    (db : Store) (id p : String) (t : ℕ) (r : Option Account) (y : Account)
    → find_account id db.accounts ≡ r
    → find_account id (db.accounts ++ blank_account p ∷ []) ≡ some y
    → y.paid_through ≡ some t
    → PaidUntil db id t
unfolding find_account
found_with_blank db id p t (some x) y e h q = (
  x,
  e,
  subst (λ z. z.paid_through ≡ some t)
      (some_eq (sym (first-append_found (λ a. a.project_id == id) db.accounts _ x e) ∙ h)) q,
)
found_with_blank db id p t none y e h q =
    blank_unpaid p id t y (sym (first-append_missing (λ a. a.project_id == id) db.accounts _ e) ∙ h)
      q

Grants-added :
    (c : BillingCall) (db : Store) (p : String) (r : Option Account)
    → Grants c db (elim r [
      | none ↦ record db { accounts = db.accounts ++ blank_account p ∷ [] }
      | some _ ↦ db
    ])
Grants-added c db p (some a) = (Grants-order c).same db
Grants-added c db p none = record {
  from =
      λ id t (y, h, q). inl (found_with_blank db id p t (find_account id db.accounts) y refl h q);
}

-- Nor does a new row pay for anything.
pub Grants-with_account :
    (c : BillingCall) (db : Store) (p : String) → Grants c db (with_account p db)
unfolding find_account
Grants-with_account c db p = Grants-added c db p (find_account p db.accounts)

pub Keeps-is_own :
    {R : Store → Store → Type 0} (o : Preorder R) (c : BillingCall) (p : String) (a : Account)
    (id : String)
    → Keeps R (is_own c p a id)
unfolding is_own
Keeps-is_own o c p a id =
    Keeps-option a.subscription_id _ _
      (Keeps-bind o _ _ (Keeps-gets o _)
        (λ r. Keeps-option r _ _ (search (keep_rules, o)) (λ s. search (keep_rules, o) depth 12)))
      (λ current. search (keep_rules, o))

pub is_own_reads :
    (c : BillingCall) (p : String) (a : Account) (id : String) (db : Store)
    → (is_own c p a id db).1 ≡ db
is_own_reads c p a id = (Keeps-is_own Unchanged-order c p a id).at
