-- ===== src/Simulator/Monad.antt =====
-- A method of `Simulator`: it reads and writes the database and may raise. What was written
-- before a raise is still there beside the error, and `transaction` rolls it back.
use breakroom.Base.{String, Bool, if◌then◌else◌}
use breakroom.Simulator.State.{Db}
pub use breakroom.Simulator.Answer.{
  Raised, tool_error, budget_exceeded, agent_cancelled, value_error, integrity_error, type_error,
  Outcome, ok, raised,
}

abbrev pub Tx {ℓ} : Type ℓ → Type ℓ
Tx A = Db → Outcome A × Db

module _ {ℓ} {A : Type ℓ} where
  pub pure : A → Tx A
  pure a db = (ok a, db)

  pub raise : Raised → Tx A
  raise e db = (raised e, db)

  -- A SELECT: it may raise and writes nothing.
  pub query : (Db → Outcome A) → Tx A
  query q db = (q db, db)

  pub gets : (Db → A) → Tx A
  gets f db = (ok (f db), db)

  -- BEGIN IMMEDIATE, then COMMIT, or ROLLBACK on any exception.
  unfoldable pub transaction : Tx A → Tx A
  transaction m db =
      let (r, db') = m db in elim r [ ok a ↦ (ok a, db') | raised e ↦ (raised e, db) ]

  abbrev pub refuse : String → Tx A
  refuse code = raise (tool_error code 0)

pub modify : (Db → Db) → Tx (Unit {0})
modify f db = (ok tt, f db)

pub guard : Bool → Raised → Tx (Unit {0})
guard b e db = (if b then ok tt else raised e, db)

pub when : Bool → Tx (Unit {0}) → Tx (Unit {0})
when b m db = if b then m db else (ok tt, db)

infixl 5 ◌>>=◌ ◌>>◌
-- Opening this opens the actions above too.
unfoldable pub ◌>>=◌ {ℓ κ} : {A : Type ℓ} {B : Type κ} → Tx A → (A → Tx B) → Tx B
unfolding pure raise query gets modify guard when
◌>>=◌ m f db = let (r, db') = m db in elim r [ ok a ↦ f a db' | raised e ↦ (raised e, db') ]

abbrev pub ◌>>◌ {ℓ κ} : {A : Type ℓ} {B : Type κ} → Tx A → Tx B → Tx B
m >> k = m >>= λ _. k
