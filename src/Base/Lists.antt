-- ===== src/Base/Lists.antt =====
-- Lists over the native numbers: lengths, tests on every member, rows found by a text key.
use Prim.Native.Nat.{ℕ, zero, suc, ◌+◌}
use Prim.Native.String.{String, compare}
use Prim.Native.Nat.{Ordering}
use mathlib.Core.Path.{◌≡◌, refl, ap, sym}
use mathlib.Core.Bool.{Bool, true, false, ◌&&◌, ◌||◌}
use mathlib.Core.List.{List, [], ◌∷◌, ◌++◌, append-nil, append_assoc}
use mathlib.Core.Option.{Option, none, some}
use native.Mathlib.Omega.{arith}
use text.Mathlib.Text.{◌==◌}
use breakroom.Base.Tests.{if◌then◌else◌}

module _ {ℓ} {A : Type ℓ} where
  abbrev pub length : List A → ℕ
  length [] = 0
  length (x ∷ xs) = suc (length xs)

  pub length-append : (xs ys : List A) → length (xs ++ ys) ≡ length xs + length ys
  length-append [] ys = omega arith
  length-append (x ∷ xs) ys = omega (arith, length-append xs ys)

  -- Python's `all(p(x) for x in xs)` and `any(...)`.
  abbrev pub all : (A → Bool) → List A → Bool
  all p [] = true
  all p (x ∷ xs) = p x && all p xs

  abbrev pub any : (A → Bool) → List A → Bool
  any p [] = false
  any p (x ∷ xs) = p x || any p xs

  -- The comprehension `[x for x in xs if p(x)]`.
  abbrev pub filter : (A → Bool) → List A → List A
  filter p [] = []
  filter p (x ∷ xs) = let rest = filter p xs in if p x then x ∷ rest else rest

  -- `next((x for x in xs if p(x)), None)`, also SELECT ... fetchone().
  abbrev pub first : (A → Bool) → List A → Option A
  first p [] = none
  first p (x ∷ xs) = let rest = first p xs in if p x then some x else rest

  abbrev pub take : ℕ → List A → List A
  take zero xs = []
  take (suc n) [] = []
  take (suc n) (x ∷ xs) = x ∷ take n xs

  -- UPDATE ... WHERE p
  abbrev pub update_where : (A → Bool) → (A → A) → List A → List A
  update_where p f [] = []
  update_where p f (x ∷ xs) = (if p x then f x else x) ∷ update_where p f xs

  -- What a search finds passes the test.
  pub first_test : (p : A → Bool) (xs : List A) (x : A) → first p xs ≡ some x → p x ≡ true
  first_test p [] x h = cc
  first_test p (y ∷ ys) x h = ground (arith, first_test p ys x)

  pub first-append_found :
      (p : A → Bool) (xs ys : List A) (x : A) → first p xs ≡ some x → first p (xs ++ ys) ≡ some x
  first-append_found p [] ys x h = cc
  first-append_found p (z ∷ zs) ys x h = ground (arith, first-append_found p zs ys x)

  pub first-append_missing :
      (p : A → Bool) (xs ys : List A) → first p xs ≡ none → first p (xs ++ ys) ≡ first p ys
  first-append_missing p [] ys h = refl
  first-append_missing p (z ∷ zs) ys h = ground (arith, first-append_missing p zs ys)

  -- The row that an update leaves where a lookup finds one.
  abbrev pub updated : (A → Bool) → (A → A) → A → A
  updated p f x = if p x then f x else x

  abbrev pub map_found : (A → A) → Option A → Option A
  map_found g none = none
  map_found g (some x) = some (g x)

  updated_if :
      (b : Bool) (g : A → A) (x : A) (rest : Option A)
      → (if b then some (g x) else map_found g rest) ≡ map_found g (if b then some x else rest)
  updated_if true g x rest = refl
  updated_if false g x rest = refl

  test-updated : (p q : A → Bool) (f : A → A) (x : A) → q (f x) ≡ q x → q (updated p f x) ≡ q x
  test-updated p q f x h = ground arith

  pub first-update_where :
      (p q : A → Bool) (f : A → A) (xs : List A)
      → ((x : A) → q (f x) ≡ q x)
      → first q (update_where p f xs) ≡ map_found (updated p f) (first q xs)
  first-update_where p q f [] keeps = refl
  first-update_where p q f (x ∷ xs) keeps =
      rw (test-updated p q f x (keeps x), first-update_where p q f xs keeps)
        (updated_if (q x) (updated p f) x (first q xs))

  pub length-update_where :
      (p : A → Bool) (f : A → A) (xs : List A) → length (update_where p f xs) ≡ length xs
  length-update_where p f [] = refl
  length-update_where p f (x ∷ xs) = ap suc (length-update_where p f xs)

-- SELECT ... ORDER BY a text column: an insertion sort by code points.
abbrev pub text_le : String → String → Bool
text_le s t = elim (compare s t) [ Ordering.gt ↦ false | _ ↦ true ]

module _ {ℓ} {A : Type ℓ} (key : A → String) where
  abbrev pub insert_by : A → List A → List A
  insert_by x [] = x ∷ []
  insert_by x (y ∷ ys) =
      let rest = insert_by x ys in if text_le (key x) (key y) then x ∷ y ∷ ys else y ∷ rest

  abbrev pub order_by : List A → List A
  order_by [] = []
  order_by (x ∷ xs) = insert_by x (order_by xs)

-- `ys` is `xs` with more behind it.
abbrev pub Extends {ℓ} : {A : Type ℓ} → List A → List A → Type ℓ
Extends {A = A} xs ys = (zs : List A) × (ys ≡ xs ++ zs)

module _ {ℓ} {A : Type ℓ} where
  pub Extends-refl : (xs : List A) → Extends xs xs
  Extends-refl xs = ([], sym (append-nil xs))

  pub Extends-append : (xs zs : List A) → Extends xs (xs ++ zs)
  Extends-append xs zs = (zs, refl)

  pub Extends-trans : (xs ys zs : List A) → Extends xs ys → Extends ys zs → Extends xs zs
  Extends-trans xs ys zs (us, p) (vs, q) = (us ++ vs, rw (q, p) (append_assoc xs us vs))

-- `x in xs`, for texts.
abbrev pub member : String → List String → Bool
member x xs = any (λ y. y == x) xs
