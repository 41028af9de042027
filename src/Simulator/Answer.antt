-- ===== src/Simulator/Answer.antt =====
-- What a query of the database answers: a value, or the exception that it raises
-- (packages/breakroom-core/src/breakroom/models.py and simulator.py).
use breakroom.Base.{ℕ, ◌≡◌, refl, String, Bool, Option, none, some, if◌then◌else◌}

-- `ToolError`, `BudgetExceeded`, `AgentCancelled`, `ValueError`, sqlite3's `IntegrityError`, and
-- the `TypeError` of `dict(None)`.
pub data Raised : Type 0 where
  tool_error : (code : String) → (retry_after : ℕ) → Raised
  budget_exceeded : Raised
  agent_cancelled : Raised
  value_error : Raised
  integrity_error : Raised
  type_error : Raised

pub data Outcome {ℓ} (A : Type ℓ) : Type ℓ where
  ok : A → Outcome A
  raised : Raised → Outcome A

-- `fetchone()`, with an exception where there is no row.
abbrev pub found {ℓ} : {X : Type ℓ} → Option X → Raised → Outcome X
found none missing = raised missing
found (some row) missing = ok row

-- The next statement runs on the value; an exception leaves the chain.
infixl 5 ◌>>=◌ ◌>>◌
abbrev pub ◌>>=◌ {κ ℓ} : {X : Type ℓ} {Y : Type κ} → Outcome X → (X → Outcome Y) → Outcome Y
raised problem >>= next = raised problem
ok x >>= next = next x

-- A chain that answers has passed its first link.
pub >>=-eq-ok {κ ℓ} :
    {Y : Type κ} {y : Y} {X : Type ℓ} (first : Outcome X) (next : X → Outcome Y)
    → (first >>= next) ≡ ok y
    → (x : X) × (first ≡ ok x) × (next x ≡ ok y)
>>=-eq-ok (raised problem) next answers = cc
>>=-eq-ok (ok x) next answers = (x, refl, answers)

-- An `if not …: raise …` in front of the rest.
abbrev pub guard : Bool → Raised → Outcome (Unit {0})
guard passes problem = if passes then ok tt else raised problem

abbrev pub ◌>>◌ {κ ℓ} : {Y : Type κ} {X : Type ℓ} → Outcome Y → Outcome X → Outcome X
first >> second = first >>= λ _. second
