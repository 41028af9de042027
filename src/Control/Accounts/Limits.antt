-- ===== src/Control/Accounts/Limits.antt =====
-- `consume_attempts`: budgets for an account and for a peer
-- (apps/api/breakroom_api/password_db.py).
use breakroom.Base.{
  ℕ, ◌+◌, String, Bool, true, false, ◌&&◌, Option, none, some, List, [], ◌∷◌, ◌++◌, first,
  update_where, leb, ◌==◌, if◌then◌else◌,
}
use Prim.Native.Nat.{lt, eq, gt}
use Prim.Native.String.{compare, ◌++◌ as join}
use breakroom.Control.Rows.{AuthLimit, Store}
use breakroom.Control.Monad.{Act, gets, modify, pure, transaction, ◌>>=◌, ◌>>◌}
use breakroom.Control.Accounts.Request.{AuthCall}

pub data AttemptKind : Type 0 where
  login_kind register_kind mail_kind token_kind change_kind : AttemptKind

pub record Budget : Type 0 where
  pub account_max : ℕ
  pub peer_max : ℕ
  pub seconds : ℕ

-- `budgets`
unfoldable pub budget_of : AttemptKind → Budget
budget_of login_kind = record { account_max = 8; peer_max = 80; seconds = 900 }
budget_of register_kind = record { account_max = 5; peer_max = 20; seconds = 3600 }
budget_of mail_kind = record { account_max = 3; peer_max = 20; seconds = 900 }
budget_of token_kind = record { account_max = 12; peer_max = 60; seconds = 900 }
budget_of change_kind = record { account_max = 8; peer_max = 80; seconds = 900 }

unfoldable pub kind_name : AttemptKind → String
kind_name login_kind = "login"
kind_name register_kind = "register"
kind_name mail_kind = "mail"
kind_name token_kind = "token"
kind_name change_kind = "change"

unfoldable pub account_bucket : AuthCall → AttemptKind → String → String
unfolding kind_name
account_bucket c kind email = c.hash (join "account:" (join (kind_name kind) (join ":" email)))

unfoldable pub peer_bucket : AuthCall → AttemptKind → String → String
unfolding kind_name
peer_bucket c kind peer = c.hash (join "peer:" (join (kind_name kind) (join ":" peer)))

unfoldable pub find_limit : String → List AuthLimit → Option AuthLimit
find_limit key = first (λ l. l.bucket_hash == key)

unfoldable pub update_limit : String → (AuthLimit → AuthLimit) → Store → Store
update_limit key f db = record db {
  auth_limits = update_where (λ l. l.bucket_hash == key) f db.auth_limits;
}

abbrev new_limit : String → ℕ → AuthLimit
new_limit key expires_at = record { bucket_hash = key; attempts = 1; expires_at = expires_at }

-- A row that is there: a window that is over starts again, a full one refuses.
unfoldable pub renew_limit : AuthCall → ℕ → String → ℕ → AuthLimit → Act Bool
unfolding update_limit
renew_limit c seconds key maximum l =
    if leb l.expires_at c.now
    then (do
      modify (update_limit key (λ x. record x { attempts = 1; expires_at = c.now + seconds }))
      pure true)
    else if leb maximum l.attempts
    then pure false
    else (do modify (update_limit key (λ x. record x { attempts = l.attempts + 1 })); pure true)

-- The row that is there, or a new one.
unfoldable pub reserve_row : AuthCall → ℕ → String → ℕ → Option AuthLimit → Act Bool
unfolding renew_limit
reserve_row c seconds key maximum none = do
  modify (λ db. record db { auth_limits = db.auth_limits ++ new_limit key (c.now + seconds) ∷ [] })
  pure true
reserve_row c seconds key maximum (some l) = renew_limit c seconds key maximum l

-- One pass of the loop.
unfoldable pub reserve_attempt : AuthCall → ℕ → String → ℕ → Act Bool
unfolding find_limit reserve_row
reserve_attempt c seconds key maximum = do
  row ← gets (λ db. find_limit key db.auth_limits)
  reserve_row c seconds key maximum row

unfoldable pub reserve_both : AuthCall → ℕ → (String × ℕ) → (String × ℕ) → Act Bool
unfolding reserve_attempt
reserve_both c seconds a b = do
  first_allowed ← reserve_attempt c seconds a.0 a.1
  second_allowed ← reserve_attempt c seconds b.0 b.1
  pure (first_allowed && second_allowed)

-- `consume_attempts`, with the buckets in the order of their keys
unfoldable pub consume_attempts : AuthCall → AttemptKind → String → String → Act Bool
unfolding budget_of account_bucket peer_bucket reserve_both
consume_attempts c kind email peer =
    let budget = budget_of kind in
    let account : String × ℕ = (account_bucket c kind email, budget.account_max) in
    let other : String × ℕ = (peer_bucket c kind peer, budget.peer_max) in
    elim (compare account.0 other.0) [
      | gt ↦ transaction (reserve_both c budget.seconds other account)
      | lt ↦ transaction (reserve_both c budget.seconds account other)
      | eq ↦ transaction (reserve_both c budget.seconds account other)
    ]
