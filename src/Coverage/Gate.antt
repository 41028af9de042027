-- ===== src/Coverage/Gate.antt =====
-- What the gate of a matrix means (packages/breakroom-core/src/breakroom/coverage.py).
use breakroom.Base.{
  ℕ, ◌≤◌, ◌≡◌, refl, String, Bool, true, false, not, ◌||◌, List, [], ◌∷◌, all, filter, length,
  arith, ◌=ℕ=◌, if◌then◌else◌,
}
use breakroom.Coverage.Summary.{
  Cell, is_negative, is_control, is_expected, is_detected, is_missed, is_incomplete, is_passing,
  is_control_failure, count, negatives, controls, gate_exit,
}

count-le-length : (p : Cell → Bool) (cs : List Cell) → count p cs ≤ length cs
unfolding count
count-le-length p [] = omega arith
count-le-length p (c ∷ cs) = ground (arith, count-le-length p cs)

-- A count that reaches the length counts every cell.
all_of_count : (p : Cell → Bool) (cs : List Cell) → count p cs ≡ length cs → all p cs ≡ true
unfolding count
all_of_count p [] h = refl
all_of_count p (c ∷ cs) h = ground (arith, count-le-length p cs, all_of_count p cs)

count_of_all : (p : Cell → Bool) (cs : List Cell) → all p cs ≡ true → count p cs ≡ length cs
unfolding count
count_of_all p [] h = refl
count_of_all p (c ∷ cs) h = ground (arith, count_of_all p cs)

all-filter :
    (p q : Cell → Bool) (cs : List Cell)
    → all p (filter q cs) ≡ true
    → all (λ c. not (q c) || p c) cs ≡ true
all-filter p q [] h = refl
all-filter p q (c ∷ cs) h = ground (arith, all-filter p q cs)

-- The gate's tests, in its order.
gate_tests :
    (a b c d e f g h : Bool)
    → ◌≡◌ {A = ℕ}
        (if not a || not b then 1 else if c || d || not e || not f || not g || not h then 2 else 0)
        0
    → (c ≡ false) × (d ≡ false) × (f ≡ true) × (g ≡ true) × (h ≡ true)
gate_tests a b c d e f g h z = ground arith

-- A matrix that shows what its pack claims.
pub record IsClean (cells : List Cell) (missing : List String) : Type 0 where
  pub has_negatives : 1 ≤ length (negatives cells)
  pub has_controls : 1 ≤ length (controls cells)
  pub no_missing : length missing ≡ 0
  pub all_detected : all (λ c. not (is_negative c) || is_detected c) cells ≡ true
  pub all_passing : all (λ c. not (is_control c) || is_passing c) cells ≡ true

-- If the gate of a matrix exits with zero, there are negative and corrected cells, no case lacks a
-- negative control, every cell that expects a failure is a detection, and every cell of the
-- corrected reference passed.
pub gate_exit-IsClean :
    (cells : List Cell) (missing : List String)
    → gate_exit cells missing ≡ 0
    → IsClean cells missing
unfolding gate_exit
gate_exit-IsClean cells missing z =
    let (some_negative, some_control, none_missing, found, passed) =
      gate_tests (count is_missed (negatives cells) =ℕ= 0)
        (count is_control_failure (controls cells) =ℕ= 0) (length (negatives cells) =ℕ= 0)
        (length (controls cells) =ℕ= 0) (count is_incomplete (filter is_expected cells) =ℕ= 0)
        (length missing =ℕ= 0) (count is_detected (negatives cells) =ℕ= length (negatives cells))
        (count is_passing (controls cells) =ℕ= length (controls cells)) z in
    record {
      has_negatives = ground arith;
      has_controls = ground arith;
      no_missing = ground arith;
      all_detected =
          all-filter is_detected is_negative cells
            (all_of_count is_detected (negatives cells) (ground arith));
      all_passing =
          all-filter is_passing is_control cells
            (all_of_count is_passing (controls cells) (ground arith));
    }
