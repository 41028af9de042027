-- ===== src/Ledger/Invariant.antt =====
-- The invariant of the payment machine: balances are covered, and every registered key names one
-- refund with the registered parameters (packages/breakroom-core/src/breakroom/simulator.py).
use breakroom.Base.{
  ℕ, ◌+◌, ◌≤◌, ◌≡◌, refl, sym, ap, ◌∙◌, String, ◌⊎◌, inl, inr, Bool, true, false, ◌&&◌, ◌==◌,
  eq_refl, eq_of_test, none, some, List, [], ◌∷◌, ◌++◌, Bool-cases, arith, if◌then◌else◌,
  first-append_found, first-append_missing,
}
use breakroom.Simulator.Rows.{Order, Refund, RefundStatus, Parameters, Registration}
use breakroom.Simulator.Queries.{
  find_order, find_refund, find_registration, reserved, reserves, parameters_of,
}
use breakroom.Simulator.Clock.{settle, is_pending}
use breakroom.Simulator.Initialize.{registration_of}
use breakroom.Ledger.Machine.{Ledger, Allowed, Step, commit, settling, Reach, here, next}

-- How many refunds carry an operation key.
abbrev pub key_count : String → List Refund → ℕ
key_count k [] = 0
key_count k (r ∷ rs) = (if r.operation_key == k then 1 else 0) + key_count k rs

-- The parameters that a refund was created with.
abbrev pub refund_parameters : Refund → Parameters
refund_parameters r = parameters_of r.order_id r.amount_minor r.currency r.logical_request_id

-- A registration names a refund with its key and parameters.
abbrev pub Names : List Refund → Registration → Type 0
Names refunds g =
    (r : Refund) × (find_refund g.refund_id refunds ≡ some r)
    × (r.operation_key ≡ g.operation_key)
    × (refund_parameters r ≡ g.parameters)

pub record IsSound (l : Ledger) : Type 0 where
  pub balanced :
      (id : String) (o : Order)
      → find_order id l.orders ≡ some o
      → reserved id l.refunds ≤ o.amount_minor
  pub named :
      (k : String) (g : Registration) → find_registration k l.registry ≡ some g → Names l.refunds g
  pub unused : (k : String) → find_registration k l.registry ≡ none → key_count k l.refunds ≡ 0
  pub once : (k : String) → key_count k l.refunds ≤ 1

reserved-append :
    (id : String) (rs : List Refund) (r : Refund)
    → reserved id (rs ++ r ∷ [])
      ≡ reserved id rs + (if r.order_id == id && reserves r.status then r.amount_minor else 0)
unfolding reserved
reserved-append id [] r = omega arith
reserved-append id (x ∷ xs) r = omega (arith, reserved-append id xs r)

key_count-append :
    (k : String) (rs : List Refund) (r : Refund)
    → key_count k (rs ++ r ∷ []) ≡ key_count k rs + (if r.operation_key == k then 1 else 0)
key_count-append k [] r = omega arith
key_count-append k (x ∷ xs) r = omega (arith, key_count-append k xs r)

pub reserved-settle-le :
    (id i : String) (status : RefundStatus) (rs : List Refund)
    → reserved id (settle i status rs) ≤ reserved id rs
unfolding reserved settle
reserved-settle-le id i status [] = omega arith
reserved-settle-le id i status (r ∷ rs) = ground (arith, reserved-settle-le id i status rs)

key_count-settle :
    (k i : String) (status : RefundStatus) (rs : List Refund)
    → key_count k (settle i status rs) ≡ key_count k rs
unfolding settle
key_count-settle k i status [] = refl
key_count-settle k i status (r ∷ rs) = ground (arith, key_count-settle k i status rs)

abbrev Kept : Refund → Refund → Type 0
Kept r r' =
    (r'.id ≡ r.id)
    × (r'.operation_key ≡ r.operation_key)
    × (refund_parameters r' ≡ refund_parameters r)

Kept-if :
    (b : Bool) (status : RefundStatus) (r : Refund)
    → Kept r (if b then record r { status = status } else r)
Kept-if true status r = (refl, refl, refl)
Kept-if false status r = (refl, refl, refl)

-- Settling keeps what the other columns of a refund say.
pub find_refund-settle :
    (id i : String) (status : RefundStatus) (rs : List Refund) (r : Refund)
    → find_refund id rs ≡ some r
    → (r' : Refund) × (find_refund id (settle i status rs) ≡ some r')
      × (r'.operation_key ≡ r.operation_key)
      × (refund_parameters r' ≡ refund_parameters r)
unfolding find_refund settle
find_refund-settle id i status [] r h = cc
find_refund-settle id i status (x ∷ xs) r h =
    let hit = x.id == i && is_pending x.status in
    let y : Refund = if hit then record x { status = status } else x in
    let (same, key, parameters) = Kept-if hit status x in
    elim (Bool-cases (x.id == id)) [
      | inl here_it_is ↦
          let now : x ≡ r = ground (arith, here_it_is) in
          (
            y,
            rw (same, here_it_is),
            key ∙ ap (λ z. z.operation_key) now,
            parameters ∙ ap refund_parameters now,
          )
      | inr other ↦
          let (r', found, key', parameters') =
            find_refund-settle id i status xs r (ground (arith, other)) in
          (r', rw (same, other) found, key', parameters')
    ]

Names-append :
    (rs : List Refund) (r : Refund) (g : Registration) → Names rs g → Names (rs ++ r ∷ []) g
unfolding find_refund
Names-append rs r g (x, found, key, parameters) =
    (x, first-append_found _ rs (r ∷ []) x found, key, parameters)

Names-new :
    (rs : List Refund) (r : Refund)
    → find_refund r.id rs ≡ none
    → Names (rs ++ r ∷ []) (registration_of r)
unfolding find_refund
Names-new rs r fresh = (r, first-append_missing _ rs (r ∷ []) fresh ∙ rw eq_refl refl, refl, refl)

Names-settle :
    (i : String) (status : RefundStatus) (rs : List Refund) (g : Registration)
    → Names rs g
    → Names (settle i status rs) g
Names-settle i status rs g (r, found, key, parameters) =
    let (r', found', key', parameters') = find_refund-settle g.refund_id i status rs r found in
    (r', found', key' ∙ key, parameters' ∙ parameters)

-- The row that a lookup finds behind one more row.
find_registration-append :
    (k : String) (gs : List Registration) (g x : Registration)
    → find_registration k (gs ++ g ∷ []) ≡ some x
    → (find_registration k gs ≡ some x) ⊎ (x ≡ g)
unfolding find_registration
find_registration-append k [] g x h = ground arith
find_registration-append k (y ∷ ys) g x h = ground (arith, find_registration-append k ys g x)

find_registration-append_none :
    (k : String) (gs : List Registration) (g : Registration)
    → find_registration k (gs ++ g ∷ []) ≡ none
    → (find_registration k gs ≡ none) × ((g.operation_key == k) ≡ false)
unfolding find_registration
find_registration-append_none k [] g h = ground arith
find_registration-append_none k (y ∷ ys) g h = ground (arith, find_registration-append_none k ys g)

module _ (l : Ledger) (r : Refund) (a : Allowed l r) (s : IsSound l) where
  commit_balanced :
      (id : String) (o : Order)
      → find_order id l.orders ≡ some o
      → reserved id (l.refunds ++ r ∷ []) ≤ o.amount_minor
  commit_balanced id o found = elim (Bool-cases (r.order_id == id)) [
    | inl hit ↦
        let same : some a.order ≡ some o =
          sym a.owned ∙ ap (λ k. find_order k l.orders) (eq_of_test r.order_id id hit) ∙ found in
        let taken : reserved r.order_id l.refunds ≡ reserved id l.refunds =
          ap (λ k. reserved k l.refunds) (eq_of_test r.order_id id hit) in
        ground (arith, reserved-append id l.refunds r, hit, same, taken, a.covered)
    | inr miss ↦ ground (arith, reserved-append id l.refunds r, miss, s.balanced id o found)
  ]

  commit_named :
      (k : String) (g : Registration)
      → find_registration k (l.registry ++ registration_of r ∷ []) ≡ some g
      → Names (l.refunds ++ r ∷ []) g
  commit_named k g found =
      elim (find_registration-append k l.registry (registration_of r) g found) [
        | inl old ↦ Names-append l.refunds r g (s.named k g old)
        | inr new ↦ rw new (Names-new l.refunds r a.fresh_id)
      ]

  commit_unused :
      (k : String)
      → find_registration k (l.registry ++ registration_of r ∷ []) ≡ none
      → key_count k (l.refunds ++ r ∷ []) ≡ 0
  commit_unused k missing =
      let (old, other) = find_registration-append_none k l.registry (registration_of r) missing in
      ground (arith, key_count-append k l.refunds r, other, s.unused k old)

  commit_once : (k : String) → key_count k (l.refunds ++ r ∷ []) ≤ 1
  commit_once k = elim (Bool-cases (r.operation_key == k)) [
    | inl hit ↦
        let fresh : find_registration k l.registry ≡ none =
          ap (λ j. find_registration j l.registry) (sym (eq_of_test r.operation_key k hit))
          ∙ a.fresh_key in
        ground (arith, key_count-append k l.refunds r, hit, s.unused k fresh)
    | inr miss ↦ ground (arith, key_count-append k l.refunds r, miss, s.once k)
  ]

pub Step-IsSound : {l m : Ledger} → Step l m → IsSound l → IsSound m
Step-IsSound {l} (commit r a e) s = rw e (record {
  balanced = commit_balanced l r a s;
  named = commit_named l r a s;
  unused = commit_unused l r a s;
  once = commit_once l r a s;
})
Step-IsSound {l} (settling i status e) s = rw e (record {
  balanced =
      λ id o found. omega (arith, reserved-settle-le id i status l.refunds, s.balanced id o found);
  named = λ k g found. Names-settle i status l.refunds g (s.named k g found);
  unused = λ k missing. key_count-settle k i status l.refunds ∙ s.unused k missing;
  once = λ k. omega (arith, key_count-settle k i status l.refunds, s.once k);
})

pub Reach-IsSound : {l m : Ledger} → Reach l m → IsSound l → IsSound m
Reach-IsSound here s = s
Reach-IsSound (next r st) s = Step-IsSound st (Reach-IsSound r s)

Step-registry :
    {l m : Ledger} (k : String) (g : Registration)
    → Step l m
    → find_registration k l.registry ≡ some g
    → find_registration k m.registry ≡ some g
unfolding find_registration
Step-registry {l} k g (commit r a e) h =
    rw e (first-append_found _ l.registry (registration_of r ∷ []) g h)
Step-registry {l} k g (settling i status e) h = rw e h

-- A registered key stays registered, to the same refund and parameters.
pub Reach-registry :
    {l m : Ledger} (k : String) (g : Registration)
    → Reach l m
    → find_registration k l.registry ≡ some g
    → find_registration k m.registry ≡ some g
Reach-registry k g here h = h
Reach-registry k g (next r st) h = Step-registry k g st (Reach-registry k g r h)

pub Reach-orders : {l m : Ledger} → Reach l m → m.orders ≡ l.orders
Reach-orders here = refl
Reach-orders (next r (commit x a e)) = ap (λ n. n.orders) e ∙ Reach-orders r
Reach-orders (next r (settling i status e)) = ap (λ n. n.orders) e ∙ Reach-orders r
