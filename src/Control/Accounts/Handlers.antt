-- ===== src/Control/Accounts/Handlers.antt =====
-- The routes of password accounts (apps/api/breakroom_api/password_auth.py). The fields of a body
-- have passed their validation, which also puts an email address in its normal form.
use breakroom.Base.{
  String, Bool, true, false, not, ◌&&◌, Option, none, some, [], ◌∷◌, ◌++◌, any, first, ◌==◌,
  if◌then◌else◌,
}
use breakroom.Control.Rows.{User, Credential, verification, reset, Store}
use breakroom.Control.Monad.{
  Act, http, gets, reply, modify, pure, fail, require, when, transaction, ◌>>=◌, ◌>>◌,
}
use breakroom.Control.Accounts.Request.{HttpRequest, AuthCall}
use breakroom.Control.Accounts.Limits.{
  AttemptKind, login_kind, register_kind, mail_kind, token_kind, consume_attempts,
}
use breakroom.Control.Accounts.Tokens.{
  password_issuer, lock_credential, update_credential, save_token, consume_token,
}
use breakroom.Control.Accounts.Sessions.{
  principal, require_origin, require_csrf, session_response, SignedIn,
}

-- `available`
unfoldable pub available : AuthCall → Act (Unit {0})
available c = require c.settings.password_enabled (http 404)

-- `attempt`
unfoldable pub attempt : AuthCall → HttpRequest → AttemptKind → String → Act (Unit {0})
unfolding consume_attempts
attempt c request kind email = do
  allowed ← consume_attempts c kind email request.peer
  require allowed (http 429)

-- `current`
unfoldable pub current : AuthCall → HttpRequest → Act User
unfolding require_origin principal require_csrf
current c request = do
  require_origin c request
  who ← principal c request
  require_csrf request who.0
  require (who.1.issuer == password_issuer) (http 409)
  pure who.1

-- The password user of an email address.
unfoldable pub password_user : String → Store → Option User
password_user email db = first (λ u. u.email == email && u.issuer == password_issuer) db.users

abbrev new_user : AuthCall → String → String → User
new_user c email display_name = record {
  id = c.user_id;
  issuer = password_issuer;
  subject = c.subject_id;
  email = email;
  display_name = display_name;
}

abbrev new_credential : AuthCall → String → Credential
new_credential c encoded = record {
  user_id = c.user_id;
  password_hash = encoded;
  verified_at = none;
  changed_at = c.now;
}

-- The transaction of `register`.
unfoldable pub create_account : AuthCall → HttpRequest → String → String → String → Act SignedIn
unfolding save_token session_response
create_account c request email display_name encoded = do
  taken ← gets (λ db. any (λ u. u.email == email) db.users)
  require (not taken) (http 409)
  modify (λ db. record db {
    users = db.users ++ new_user c email display_name ∷ [];
    credentials = db.credentials ++ new_credential c encoded ∷ [];
  })
  when c.has_mailer (save_token c c.user_id verification c.mail_token)
  session_response c request (new_user c email display_name)

-- `register`; the answer says whether the link was sent.
unfoldable pub register : AuthCall → HttpRequest → String → String → String → Act (SignedIn × Bool)
unfolding available require_origin attempt create_account
register c request email password display_name = do
  available c
  require_origin c request
  attempt c request register_kind email
  encoded ← reply (c.hash_password password)
  response ← transaction (create_account c request email display_name encoded)
  pure (response, c.has_mailer && c.send email verification c.mail_token)

-- `lock_credential(con, user["id"]) if user else None`
unfoldable pub credential_of : Option User → Store → Option Credential
unfolding lock_credential
credential_of none db = none
credential_of (some u) db = lock_credential u.id db

-- A sign-in that is not refused.
unfoldable pub sign_in : AuthCall → HttpRequest → String → User → Credential → Act SignedIn
unfolding session_response update_credential
sign_in c request password user credential =
    if c.needs_rehash credential.password_hash
    then (do
      encoded ← reply (c.hash_password password)
      modify (update_credential user.id (λ x. record x { password_hash = encoded }))
      session_response c request user)
    else session_response c request user

-- The transaction of `login`.
unfoldable pub check_login : AuthCall → HttpRequest → String → String → Act SignedIn
unfolding password_user credential_of sign_in
check_login c request email password = do
  user ← gets (password_user email)
  credential ← gets (credential_of user)
  valid ←
      reply (
        c.verify_password (elim credential [ none ↦ none | some x ↦ some x.password_hash ])
          password)
  elim user [
    | none ↦ fail (http 401)
    | some u ↦ elim credential [
      | none ↦ fail (http 401)
      | some x ↦ do require valid (http 401); sign_in c request password u x
    ]
  ]

-- `login`
unfoldable pub login : AuthCall → HttpRequest → String → String → Act SignedIn
unfolding available require_origin attempt check_login
login c request email password = do
  available c
  require_origin c request
  attempt c request login_kind email
  transaction (check_login c request email password)

abbrev is_unverified : Option Credential → Bool
is_unverified none = false
is_unverified (some x) = elim x.verified_at [ none ↦ true | some _ ↦ false ]

-- The transaction of `request_verification`: whether there is a link to send.
unfoldable pub save_verification : AuthCall → User → Act Bool
unfolding lock_credential save_token
save_verification c user = do
  credential ← gets (lock_credential user.id)
  if is_unverified credential && c.has_mailer
      then save_token c user.id verification c.mail_token >> pure true
      else pure false

-- `request_verification`; the answer says whether the link was sent.
unfoldable pub request_verification : AuthCall → HttpRequest → Act Bool
unfolding available current attempt save_verification
request_verification c request = do
  available c
  user ← current c request
  attempt c request mail_kind user.email
  saved ← transaction (save_verification c user)
  pure (saved && c.send user.email verification c.mail_token)

-- The transaction of `verify_email`.
unfoldable pub confirm_email : AuthCall → String → Act (Unit {0})
unfolding consume_token update_credential
confirm_email c token = do
  row ← consume_token c token verification
  elim row [
    | none ↦ fail (http 400)
    | some t ↦ modify (update_credential t.user_id (λ x. record x { verified_at = some c.now }))
  ]

-- `verify_email`
unfoldable pub verify_email : AuthCall → HttpRequest → String → Act (Unit {0})
unfolding available require_origin attempt confirm_email
verify_email c request token = do
  available c
  require_origin c request
  attempt c request token_kind (c.hash token)
  transaction (confirm_email c token)

-- The transaction of `request_reset`: whether there is a link to send.
unfoldable pub save_reset : AuthCall → String → Act Bool
unfolding password_user credential_of save_token
save_reset c email = do
  user ← gets (password_user email)
  credential ← gets (credential_of user)
  elim user [
    | none ↦ pure false
    | some u ↦
        if c.has_mailer && (elim credential [ none ↦ false | some _ ↦ true ])
        then save_token c u.id reset c.mail_token >> pure true
        else pure false
  ]

-- `request_reset`: one answer for every address. What it returns here is the task in the background,
-- whether a link is sent afterwards.
unfoldable pub request_reset : AuthCall → HttpRequest → String → Act Bool
unfolding available require_origin attempt save_reset
request_reset c request email = do
  available c
  require_origin c request
  attempt c request mail_kind email
  transaction (save_reset c email)
