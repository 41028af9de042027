-- ===== src/Control/Accounts/Passwords.antt =====
-- The routes that replace a password (apps/api/breakroom_api/password_auth.py).
use breakroom.Base.{String, not, none, some, filter, ◌==◌}
use breakroom.Control.Rows.{User, reset, Store}
use breakroom.Control.Monad.{
  Act, http, gets, reply, modify, fail, require, transaction, ◌>>=◌, ◌>>◌,
}
use breakroom.Control.Accounts.Request.{HttpRequest, AuthCall}
use breakroom.Control.Accounts.Limits.{token_kind, change_kind}
use breakroom.Control.Accounts.Tokens.{lock_credential, update_credential, consume_token}
use breakroom.Control.Accounts.Sessions.{require_origin, session_response, SignedIn}
use breakroom.Control.Accounts.Handlers.{available, attempt, current}

-- All sessions and all account tokens of the user end.
unfoldable pub revoke_all : String → Store → Store
revoke_all user_id db = record db {
  sessions = filter (λ s. not (s.user_id == user_id)) db.sessions;
  account_tokens = filter (λ t. not (t.user_id == user_id)) db.account_tokens;
}

-- The transaction of `reset_password`.
unfoldable pub replace_password : AuthCall → String → String → Act (Unit {0})
unfolding consume_token update_credential revoke_all
replace_password c token encoded = do
  row ← consume_token c token reset
  elim row [
    | none ↦ fail (http 400)
    | some t ↦ do
      modify (
          update_credential t.user_id
            (λ x. record x { password_hash = encoded; changed_at = c.now }))
      modify (revoke_all t.user_id)
  ]

-- `reset_password`
unfoldable pub reset_password : AuthCall → HttpRequest → String → String → Act (Unit {0})
unfolding available require_origin attempt replace_password
reset_password c request token password = do
  available c
  require_origin c request
  attempt c request token_kind (c.hash token)
  encoded ← reply (c.hash_password password)
  transaction (replace_password c token encoded)

-- The transaction of `change_password`.
unfoldable pub change_credential : AuthCall → HttpRequest → User → String → String → Act SignedIn
unfolding lock_credential update_credential revoke_all session_response
change_credential c request user old new = do
  credential ← gets (lock_credential user.id)
  elim credential [
    | none ↦ fail (http 401)
    | some x ↦ do
      valid ← reply (c.verify_password (some x.password_hash) old)
      require valid (http 401)
      encoded ← reply (c.hash_password new)
      modify (
          update_credential user.id (λ y. record y { password_hash = encoded; changed_at = c.now }))
      modify (revoke_all user.id)
      session_response c request user
  ]

-- `change_password`
unfoldable pub change_password : AuthCall → HttpRequest → String → String → Act SignedIn
unfolding available current attempt change_credential
change_password c request old new = do
  available c
  user ← current c request
  attempt c request change_kind user.email
  transaction (change_credential c request user old new)
