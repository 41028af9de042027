-- ===== src/Simulator/Effects.antt =====
-- What an action does to the database, as a relation between the state before and after: one rule
-- for each way to build an action, for any relation that is reflexive and transitive.
use breakroom.Base.{◌≡◌, refl, Bool, true, false, if◌then◌else◌}
use breakroom.Simulator.State.{Db}
use breakroom.Simulator.Monad.{
  Tx, Raised, Outcome, ok, raised, pure, raise, query, gets, modify, guard, when, transaction,
  ◌>>=◌,
}

pub record Preorder (R : Db → Db → Type 0) : Type 0 where
  pub same : (db : Db) → R db db
  pub chain : (a b c : Db) → R a b → R b c → R a c

-- The relation holds where the action returns; nothing is asked of a state that a raise leaves.
abbrev pub Committed {ℓ} : {A : Type ℓ} → (Db → Db → Type 0) → Db → Outcome A × Db → Type 0
Committed R db (ok a, d) = R db d
Committed R db (raised e, d) = Unit {0}

pub record Commits {ℓ} {A : Type ℓ} (R : Db → Db → Type 0) (m : Tx A) : Type 0 where
  pub at : (db : Db) → Committed R db (m db)

-- The relation holds however the action ends.
pub record Moves {ℓ} {A : Type ℓ} (R : Db → Db → Type 0) (m : Tx A) : Type 0 where
  pub at : (db : Db) → R db (m db).1

module _ {R : Db → Db → Type 0} (o : Preorder R) where
  pub Commits-pure {ℓ} : {A : Type ℓ} (a : A) → Commits R (pure a)
  unfolding ◌>>=◌
  Commits-pure a = record { at = λ db. o.same db }

  pub Commits-gets {ℓ} : {A : Type ℓ} (f : Db → A) → Commits R (gets f)
  unfolding ◌>>=◌
  Commits-gets f = record { at = λ db. o.same db }

  Committed-query' {ℓ} : {A : Type ℓ} (r : Outcome A) (db : Db) → Committed R db (r, db)
  Committed-query' (ok a) db = o.same db
  Committed-query' (raised e) db = tt

  pub Commits-query {ℓ} : {A : Type ℓ} (q : Db → Outcome A) → Commits R (query q)
  unfolding ◌>>=◌
  Commits-query q = record { at = λ db. Committed-query' (q db) db }

  pub Commits-guard : (b : Bool) (e : Raised) → Commits R (guard b e)
  unfolding ◌>>=◌
  Commits-guard b e = record { at = λ db. Committed-query' (if b then ok tt else raised e) db }

  pub Commits-when : (b : Bool) (m : Tx (Unit {0})) → Commits R m → Commits R (when b m)
  unfolding ◌>>=◌
  Commits-when true m h = record { at = h.at }
  Commits-when false m h = record { at = λ db. o.same db }

  Committed-chain {ℓ} :
      {A : Type ℓ} (a b : Db) (y : Outcome A × Db) → R a b → Committed R b y → Committed R a y
  Committed-chain a b (ok x, d) h t = o.chain a b d h t
  Committed-chain a b (raised e, d) h t = tt

  Committed-bind' {ℓ κ} :
      {A : Type ℓ} {B : Type κ} (f : A → Tx B) (db : Db) (x : Outcome A × Db)
      → Committed R db x
      → ((a : A) → Commits R (f a))
      → Committed R db (((λ _. x) >>= f) db)
  unfolding ◌>>=◌
  Committed-bind' f db (ok a, d) h k = Committed-chain db d (f a d) h ((k a).at d)
  Committed-bind' f db (raised e, d) h k = tt

  pub Commits-bind {ℓ κ} :
      {A : Type ℓ} {B : Type κ} (m : Tx A) (f : A → Tx B)
      → Commits R m
      → ((a : A) → Commits R (f a))
      → Commits R (m >>= f)
  unfolding ◌>>=◌
  Commits-bind m f h k = record { at = λ db. Committed-bind' f db (m db) (h.at db) k }

  -- The same at one state, where the first action is known to be good there.
  pub Committed-bind {ℓ κ} :
      {A : Type ℓ} {B : Type κ} (m : Tx A) (f : A → Tx B) (db : Db)
      → Committed R db (m db)
      → ((a : A) → Commits R (f a))
      → Committed R db ((m >>= f) db)
  unfolding ◌>>=◌
  Committed-bind m f db h k = Committed-bind' f db (m db) h k

  moved_transaction {ℓ} :
      {A : Type ℓ} (db : Db) (x : Outcome A × Db)
      → Committed R db x
      → R db (transaction (λ _. x) db).1
  unfolding transaction
  moved_transaction db (ok a, d) h = h
  moved_transaction db (raised e, d) h = o.same db

  -- Rollback: what holds of every commit holds of the transaction, however it ends.
  pub Moves-transaction {ℓ} : {A : Type ℓ} (m : Tx A) → Commits R m → Moves R (transaction m)
  unfolding transaction
  Moves-transaction m h = record { at = λ db. moved_transaction db (m db) (h.at db) }

  pub Moves-pure {ℓ} : {A : Type ℓ} (a : A) → Moves R (pure a)
  unfolding ◌>>=◌
  Moves-pure a = record { at = λ db. o.same db }

  pub Moves-raise {ℓ} : {A : Type ℓ} (e : Raised) → Moves R (raise {A = A} e)
  unfolding ◌>>=◌
  Moves-raise e = record { at = λ db. o.same db }

  pub Moves-gets {ℓ} : {A : Type ℓ} (f : Db → A) → Moves R (gets f)
  unfolding ◌>>=◌
  Moves-gets f = record { at = λ db. o.same db }

  pub Moves-query {ℓ} : {A : Type ℓ} (q : Db → Outcome A) → Moves R (query q)
  unfolding ◌>>=◌
  Moves-query q = record { at = λ db. o.same db }

  pub Moves-guard : (b : Bool) (e : Raised) → Moves R (guard b e)
  unfolding ◌>>=◌
  Moves-guard b e = record { at = λ db. o.same db }

  pub Moves-when : (b : Bool) (m : Tx (Unit {0})) → Moves R m → Moves R (when b m)
  unfolding ◌>>=◌
  Moves-when true m h = record { at = h.at }
  Moves-when false m h = record { at = λ db. o.same db }

  moved_bind {ℓ κ} :
      {A : Type ℓ} {B : Type κ} (f : A → Tx B) (db : Db) (x : Outcome A × Db)
      → R db x.1
      → ((a : A) → Moves R (f a))
      → R db (((λ _. x) >>= f) db).1
  unfolding ◌>>=◌
  moved_bind f db (ok a, d) h k = o.chain db d _ h ((k a).at d)
  moved_bind f db (raised e, d) h k = h

  pub Moves-bind {ℓ κ} :
      {A : Type ℓ} {B : Type κ} (m : Tx A) (f : A → Tx B)
      → Moves R m
      → ((a : A) → Moves R (f a))
      → Moves R (m >>= f)
  unfolding ◌>>=◌
  Moves-bind m f h k = record { at = λ db. moved_bind f db (m db) (h.at db) k }

  pub Moves-if {ℓ} :
      {A : Type ℓ} (b : Bool) (m n : Tx A) → Moves R m → Moves R n → Moves R (if b then m else n)
  Moves-if true m n h k = h
  Moves-if false m n h k = k

  pub Commits-if {ℓ} :
      {A : Type ℓ} (b : Bool) (m n : Tx A)
      → Commits R m
      → Commits R n
      → Commits R (if b then m else n)
  Commits-if true m n h k = h
  Commits-if false m n h k = k

pub Commits-raise {ℓ} :
    {A : Type ℓ} {R : Db → Db → Type 0} (e : Raised) → Commits R (raise {A = A} e)
unfolding ◌>>=◌
Commits-raise e = record { at = λ db. tt }

pub Commits-modify :
    {R : Db → Db → Type 0} (f : Db → Db) → ((db : Db) → R db (f db)) → Commits R (modify f)
unfolding ◌>>=◌
Commits-modify f h = record { at = λ db. h db }

module _ {ℓ κ} (R : Db → Db → Type 0) {A : Type ℓ} {B : Type κ} where
  Committed-answer :
      (f : A → Tx B) (db : Db) (r : Outcome A)
      → ((a : A) → r ≡ ok a → Committed R db (f a db))
      → Committed R db (((λ _. (r, db)) >>= f) db)
  unfolding ◌>>=◌
  Committed-answer f db (ok a) k = k a refl
  Committed-answer f db (raised e) k = tt

  -- After a query, with what it answered.
  pub Committed-query :
      (q : Db → Outcome A) (f : A → Tx B) (db : Db)
      → ((a : A) → q db ≡ ok a → Committed R db (f a db))
      → Committed R db ((query q >>= f) db)
  unfolding ◌>>=◌
  Committed-query q f db k = Committed-answer f db (q db) k

  pub Committed-gets :
      (g : Db → A) (f : A → Tx B) (db : Db)
      → Committed R db (f (g db) db)
      → Committed R db ((gets g >>= f) db)
  unfolding ◌>>=◌
  Committed-gets g f db h = h

-- After a guard, with the test that passed.
pub Committed-guard {κ} :
    (R : Db → Db → Type 0) {B : Type κ} (b : Bool) (e : Raised) (f : Unit {0} → Tx B) (db : Db)
    → (b ≡ true → Committed R db (f tt db))
    → Committed R db ((guard b e >>= f) db)
unfolding ◌>>=◌
Committed-guard R true e f db k = k refl
Committed-guard R false e f db k = tt

pub ruleset commit_rules = (
  Commits-pure, Commits-raise, Commits-query, Commits-gets, Commits-guard, Commits-when,
  Commits-bind, Commits-if,
)

pub ruleset move_rules = (
  Moves-transaction, Moves-pure, Moves-raise, Moves-query, Moves-gets, Moves-guard, Moves-when,
  Moves-bind, Moves-if,
)
