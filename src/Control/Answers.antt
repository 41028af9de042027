-- ===== src/Control/Answers.antt =====
-- What the answer of a handler says of its parts (apps/api/breakroom_api).
use breakroom.Base.{
  ◌≡◌, refl, ◌⊎◌, inl, inr, ap, Bool, true, false, Option, none, some, if◌then◌else◌,
}
use breakroom.Control.Rows.{Store}
use breakroom.Control.Monad.{
  Act, Answer, ok, problem, Problem, fail, reply, query, gets, modify, pure, require, transaction,
  ◌>>=◌,
}

module _ {ℓ} {A : Type ℓ} where
  pub if_run :
      (b : Bool) (m n : Act A) (db : Store) (x : Answer A × Store)
      → (if b then m else n) db ≡ x
      → ((b ≡ true) × (m db ≡ x)) ⊎ ((b ≡ false) × (n db ≡ x))
  if_run true m n db x h = inl (refl, h)
  if_run false m n db x h = inr (refl, h)

  pub option_run {κ} :
      {B : Type κ} (r : Option B) (m : Act A) (f : B → Act A) (db : Store) (x : Answer A × Store)
      → (elim r as (λ _. Act A) [ none ↦ m | some b ↦ f b ]) db ≡ x
      → ((r ≡ none) × (m db ≡ x)) ⊎ ((b : B) × (r ≡ some b) × (f b db ≡ x))
  option_run none m f db x h = inl (refl, h)
  option_run (some b) m f db x h = inr (b, refl, h)

  pub option_pass {κ} :
      {B : Type κ} (r : Option B) (m : Act A) (f : B → Act A) (db : Store)
      → r ≡ none
      → (elim r as (λ _. Act A) [ none ↦ m | some b ↦ f b ]) db ≡ m db
  option_pass none m f db h = refl
  option_pass (some b) m f db h = cc

  pub pure_pass : (a : A) (db : Store) → pure a db ≡ (ok a, db)
  unfolding ◌>>=◌
  pure_pass a db = refl

  bound_run {κ} :
      {B : Type κ} (x : Answer B × Store) (f : B → Act A) (after : Store) (a : A)
      {y : Answer B × Store}
      → y ≡ x
      → ((λ (_ : Store). x) >>= f) after ≡ (ok a, after)
      → (b : B) × (mid : Store) × (y ≡ (ok b, mid)) × (f b mid ≡ (ok a, after))
  unfolding ◌>>=◌
  bound_run (ok b, mid) f after a e h = (b, mid, e, h)
  bound_run (problem p, mid) f after a e h = cc

  pub require_run :
      (b : Bool) (e : Problem) (f : Unit {0} → Act A) (db after : Store) (a : A)
      → (require b e >>= f) db ≡ (ok a, after)
      → (b ≡ true) × (f tt db ≡ (ok a, after))
  unfolding ◌>>=◌
  require_run true e f db after a h = (refl, h)
  require_run false e f db after a h = cc

  pub bind_run {κ} :
      {B : Type κ} (m : Act B) (f : B → Act A) (db after : Store) (a : A)
      → (m >>= f) db ≡ (ok a, after)
      → (b : B) × (mid : Store) × (m db ≡ (ok b, mid)) × (f b mid ≡ (ok a, after))
  unfolding ◌>>=◌
  bind_run m f db after a h = bound_run (m db) f after a refl h

  pub reply_run {κ} :
      {B : Type κ} (r : Answer B) (f : B → Act A) (db after : Store) (a : A)
      → (reply r >>= f) db ≡ (ok a, after)
      → (b : B) × (r ≡ ok b) × (f b db ≡ (ok a, after))
  unfolding ◌>>=◌
  reply_run (ok b) f db after a h = (b, refl, h)
  reply_run (problem e) f db after a h = cc

  pub query_run {κ} :
      {B : Type κ} (q : Store → Answer B) (f : B → Act A) (db after : Store) (a : A)
      → (query q >>= f) db ≡ (ok a, after)
      → (b : B) × (q db ≡ ok b) × (f b db ≡ (ok a, after))
  unfolding ◌>>=◌
  query_run q f db after a h = reply_run (q db) f db after a h

  pub require_pass :
      (b : Bool) (e : Problem) (f : Unit {0} → Act A) (db : Store)
      → b ≡ true
      → (require b e >>= f) db ≡ f tt db
  unfolding ◌>>=◌
  require_pass true e f db h = refl
  require_pass false e f db h = cc

  pub gets_run {κ} :
      {B : Type κ} (g : Store → B) (f : B → Act A) (db : Store) (x : Answer A × Store)
      → (gets g >>= f) db ≡ x
      → f (g db) db ≡ x
  unfolding ◌>>=◌
  gets_run g f db x h = h

  pub gets_pass {κ} :
      {B : Type κ} (g : Store → B) (f : B → Act A) (db : Store) (x : Answer A × Store)
      → f (g db) db ≡ x
      → (gets g >>= f) db ≡ x
  unfolding ◌>>=◌
  gets_pass g f db x h = h

  pub modify_run :
      (g : Store → Store) (f : Unit {0} → Act A) (db : Store) (x : Answer A × Store)
      → (modify g >>= f) db ≡ x
      → f tt (g db) ≡ x
  unfolding ◌>>=◌
  modify_run g f db x h = h

  pub modify_pass :
      (g : Store → Store) (a : A) (db : Store) → (modify g >>= λ _. pure a) db ≡ (ok a, g db)
  unfolding ◌>>=◌
  modify_pass g a db = refl

  pub pure_run : (a b : A) (db after : Store) → pure a db ≡ (ok b, after) → (a ≡ b) × (after ≡ db)
  unfolding ◌>>=◌
  pure_run a b db after h = (cc, cc)

  pub require_answer :
      (b : Bool) (e : Problem) (a : A) (db : Store)
      → (require b e >>= λ _. pure a) db ≡ (if b then ok a else problem e, db)
  unfolding ◌>>=◌
  require_answer true e a db = refl
  require_answer false e a db = refl

  pub fail_run :
      (e : Problem) (db after : Store) (a : A) {B : Type 0} → fail {A = A} e db ≡ (ok a, after) → B
  unfolding ◌>>=◌
  fail_run e db after a h = cc

  committed :
      (db after : Store) (x : Answer A × Store) (a : A)
      → transaction (λ _. x) db ≡ (ok a, after)
      → x ≡ (ok a, after)
  unfolding transaction
  committed db after (ok b, d) a h = h
  committed db after (problem e, d) a h = cc

  pub transaction_run :
      (m : Act A) (db after : Store) (a : A)
      → transaction m db ≡ (ok a, after)
      → m db ≡ (ok a, after)
  unfolding transaction
  transaction_run m db after a h = committed db after (m db) a h

  rolled :
      (db : Store) (r : Answer A) (x : Answer A × Store)
      → x ≡ (r, db)
      → transaction (λ _. x) db ≡ (r, db)
  unfolding transaction
  rolled db r (ok b, d) h = h
  rolled db r (problem e, d) h = ap (λ y. (y.0, db)) h

  pub transaction_same :
      (m : Act A) (db : Store) (r : Answer A) → m db ≡ (r, db) → transaction m db ≡ (r, db)
  unfolding transaction
  transaction_same m db r h = rolled db r (m db) h
