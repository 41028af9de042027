-- ===== src/Simulator/Ensures.antt =====
-- What holds of the answer and the database where an action returns.
use breakroom.Base.{◌≡◌, refl, Bool, true, false}
use breakroom.Simulator.State.{Db}
use breakroom.Simulator.Monad.{Tx, Raised, Outcome, ok, raised, query, gets, guard, ◌>>=◌}

abbrev pub Ensures {ℓ} : {A : Type ℓ} → (A → Db → Type 0) → Outcome A × Db → Type 0
Ensures Q (ok a, d) = Q a d
Ensures Q (raised e, d) = Unit {0}

module _ {ℓ κ} {A : Type ℓ} {B : Type κ} (Q : B → Db → Type 0) where
  Ensures-bind' :
      (P : A → Db → Type 0) (f : A → Tx B) (x : Outcome A × Db)
      → Ensures P x
      → ((a : A) (d : Db) → P a d → Ensures Q (f a d))
      → (db : Db) → Ensures Q (((λ _. x) >>= f) db)
  unfolding ◌>>=◌
  Ensures-bind' P f (ok a, d) h k db = k a d h
  Ensures-bind' P f (raised e, d) h k db = tt

  pub Ensures-bind :
      (P : A → Db → Type 0) (m : Tx A) (f : A → Tx B) (db : Db)
      → Ensures P (m db)
      → ((a : A) (d : Db) → P a d → Ensures Q (f a d))
      → Ensures Q ((m >>= f) db)
  unfolding ◌>>=◌
  Ensures-bind P m f db h k = Ensures-bind' P f (m db) h k db

  pub Ensures-gets :
      (g : Db → A) (f : A → Tx B) (db : Db)
      → Ensures Q (f (g db) db)
      → Ensures Q ((gets g >>= f) db)
  unfolding ◌>>=◌
  Ensures-gets g f db h = h

  Ensures-answer :
      (f : A → Tx B) (db : Db) (r : Outcome A)
      → ((a : A) → r ≡ ok a → Ensures Q (f a db))
      → Ensures Q (((λ _. (r, db)) >>= f) db)
  unfolding ◌>>=◌
  Ensures-answer f db (ok a) k = k a refl
  Ensures-answer f db (raised e) k = tt

  pub Ensures-query :
      (q : Db → Outcome A) (f : A → Tx B) (db : Db)
      → ((a : A) → q db ≡ ok a → Ensures Q (f a db))
      → Ensures Q ((query q >>= f) db)
  unfolding ◌>>=◌
  Ensures-query q f db k = Ensures-answer f db (q db) k

module _ {κ} {B : Type κ} (Q : B → Db → Type 0) where
  pub Ensures-guard :
      (b : Bool) (e : Raised) (f : Unit {0} → Tx B) (db : Db)
      → (b ≡ true → Ensures Q (f tt db))
      → Ensures Q ((guard b e >>= f) db)
  unfolding ◌>>=◌
  Ensures-guard true e f db k = k refl
  Ensures-guard false e f db k = tt
