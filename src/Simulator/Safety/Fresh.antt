-- ===== src/Simulator/Safety/Fresh.antt =====
-- A fresh database of a validated case meets the invariant of the payment machine
-- (packages/breakroom-core/src/breakroom/simulator.py, `_initialize`, and the fixture checks of
-- packages/breakroom-core/src/breakroom/scenarios.py).
use breakroom.Base.{
  ◌≤◌, ◌≡◌, refl, sym, ap, subst, ◌∙◌, String, false, ◌==◌, eq_refl, eq_of_test, none, some, List,
  [], ◌∷◌, map, Bool-cases, inl, inr, arith,
}
use breakroom.Simulator.Rows.{Order, Refund, Registration}
use breakroom.Simulator.State.{Case}
use breakroom.Simulator.Queries.{find_order, find_refund, find_registration, reserved}
use breakroom.Simulator.Initialize.{initialize, registration_of}
use breakroom.Simulator.Evolution.{ledger}
use breakroom.Ledger.Invariant.{IsSound, Names, key_count}

-- Identifiers are distinct, and so are operation keys.
abbrev pub Distinct : List Refund → Type 0
Distinct [] = Unit {0}
Distinct (r ∷ rs) = (find_refund r.id rs ≡ none) × (key_count r.operation_key rs ≡ 0) × Distinct rs

-- What `validate_case` demands of the refunds of a fixture.
pub record IsValidFixture (c : Case) : Type 0 where
  pub distinct : Distinct c.initial_state.refunds
  pub covered :
      (id : String) (o : Order)
      → find_order id c.initial_state.orders ≡ some o
      → reserved id c.initial_state.refunds ≤ o.amount_minor

find_refund-later :
    (x r : Refund) (xs : List Refund)
    → find_refund x.id xs ≡ none
    → find_refund r.id xs ≡ some r
    → (x.id == r.id) ≡ false
find_refund-later x r xs missing found = elim (Bool-cases (x.id == r.id)) [
  | inl hit ↦ cc (ap (λ k. find_refund k xs) (eq_of_test x.id r.id hit))
  | inr miss ↦ miss
]

initial_named :
    (rs : List Refund) (k : String) (g : Registration)
    → Distinct rs
    → find_registration k (map registration_of rs) ≡ some g
    → (r : Refund) × (g ≡ registration_of r) × (find_refund r.id rs ≡ some r)
unfolding find_registration find_refund
initial_named [] k g d h = cc
initial_named (x ∷ xs) k g d h = elim (Bool-cases (x.operation_key == k)) [
  | inl hit ↦ (x, ground (arith, hit), rw eq_refl refl)
  | inr miss ↦
      let (r, same, found) = initial_named xs k g d.2 (ground (arith, miss)) in
      (r, same, rw (find_refund-later x r xs d.0 found) found)
]

initial_unused :
    (rs : List Refund) (k : String)
    → find_registration k (map registration_of rs) ≡ none
    → key_count k rs ≡ 0
unfolding find_registration
initial_unused [] k h = refl
initial_unused (x ∷ xs) k h = ground (arith, initial_unused xs k)

initial_once : (rs : List Refund) (k : String) → Distinct rs → key_count k rs ≤ 1
initial_once [] k d = omega arith
initial_once (x ∷ xs) k d = elim (Bool-cases (x.operation_key == k)) [
  | inl hit ↦
      let rest : key_count k xs ≡ 0 =
        ap (λ j. key_count j xs) (sym (eq_of_test x.operation_key k hit)) ∙ d.1 in
      ground (arith, hit, rest)
  | inr miss ↦ ground (arith, miss, initial_once xs k d.2)
]

-- The registry of a fresh database names its refunds one to one.
pub initialize-IsSound : (c : Case) → IsValidFixture c → IsSound (ledger (initialize c))
unfolding initialize
initialize-IsSound c v = record {
  balanced = v.covered;
  named = λ k g h.
      let (r, same, found) = initial_named c.initial_state.refunds k g v.distinct h in
      subst (Names c.initial_state.refunds) (sym same) (r, found, refl, refl);
  unused = λ k h. initial_unused c.initial_state.refunds k h;
  once = λ k. initial_once c.initial_state.refunds k v.distinct;
}
