-- ===== src/Control/Monad.antt =====
-- A handler of the control plane reads and writes the database and may raise
-- (apps/api/breakroom_api). What was written before a raise is still there beside it:
-- `engine.begin()` rolls it back, and an `except` inside a transaction keeps it.
use breakroom.Base.{ℕ, Bool, if◌then◌else◌}
use breakroom.Control.Rows.{Store}

-- HTTPException with its status code, BillingUnavailable, BillingInvalidRequest, and any other.
pub data Problem : Type 0 where
  http : ℕ → Problem
  unavailable : Problem
  invalid_request : Problem
  unexpected : Problem

pub data Answer {ℓ} (A : Type ℓ) : Type ℓ where
  ok : A → Answer A
  problem : Problem → Answer A

abbrev pub Act {ℓ} : Type ℓ → Type ℓ
Act A = Store → Answer A × Store

module _ {ℓ} {A : Type ℓ} where
  pub pure : A → Act A
  pure a db = (ok a, db)

  pub fail : Problem → Act A
  fail e db = (problem e, db)

  pub query : (Store → Answer A) → Act A
  query q db = (q db, db)

  pub gets : (Store → A) → Act A
  gets f db = (ok (f db), db)

  -- A value that a call outside the database answers.
  pub reply : Answer A → Act A
  reply r db = (r, db)

  -- `with store.engine.begin() as con:`
  unfoldable pub transaction : Act A → Act A
  transaction m db =
      let (r, after) = m db in elim r [ ok a ↦ (ok a, after) | problem e ↦ (problem e, db) ]

  -- `try: ... except (BillingUnavailable, BillingInvalidRequest) as e: ...`
  unfoldable pub handle : Act A → (Problem → Act A) → Act A
  handle m f db =
      let (r, after) = m db in
      elim r [
        | ok a ↦ (ok a, after)
        | problem e ↦ elim e [
          | unavailable ↦ f unavailable after
          | invalid_request ↦ f invalid_request after
          | http code ↦ (problem (http code), after)
          | unexpected ↦ (problem unexpected, after)
        ]
      ]

pub modify : (Store → Store) → Act (Unit {0})
modify f db = (ok tt, f db)

pub require : Bool → Problem → Act (Unit {0})
require b e db = (if b then ok tt else problem e, db)

pub when : Bool → Act (Unit {0}) → Act (Unit {0})
when b m db = if b then m db else (ok tt, db)

infixl 5 ◌>>=◌ ◌>>◌
-- Opening this opens the actions above too.
unfoldable pub ◌>>=◌ {ℓ κ} : {A : Type ℓ} {B : Type κ} → Act A → (A → Act B) → Act B
unfolding pure fail query gets reply modify require when
◌>>=◌ m f db = let (r, after) = m db in elim r [ ok a ↦ f a after | problem e ↦ (problem e, after) ]

abbrev pub ◌>>◌ {ℓ κ} : {A : Type ℓ} {B : Type κ} → Act A → Act B → Act B
m >> k = m >>= λ _. k
