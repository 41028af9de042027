-- ===== src/Control/Accounts/Sessions.antt =====
-- Sessions: `get_session` and `delete_session` (apps/api/breakroom_api/team_db.py), `principal` and
-- the tests of a request (team_auth.py), and `session_response` (password_auth.py).
use breakroom.Base.{
  ◌+◌, String, Bool, not, ◌&&◌, ◌||◌, Option, none, some, List, [], ◌∷◌, ◌++◌, filter, first, ltb,
  same_option, ◌==◌, if◌then◌else◌,
}
use breakroom.Control.Rows.{User, UserSession, Store}
use breakroom.Control.Monad.{Act, http, gets, modify, pure, fail, require, when, ◌>>=◌, ◌>>◌}
use breakroom.Control.Accounts.Request.{HttpRequest, AuthCall, is_opaque, without_slash}
use breakroom.Control.Accounts.Tokens.{password_issuer, development_issuer, user_email_verified}

unfoldable pub find_user : String → List User → Option User
find_user id = first (λ u. u.id == id)

-- `get_session`
unfoldable pub get_session : AuthCall → String → Store → Option (UserSession × User)
unfolding find_user
get_session c hash db =
    elim (first (λ s. s.token_hash == hash && ltb c.now s.expires_at) db.sessions) [
      | none ↦ none
      | some s ↦ elim (find_user s.user_id db.users) [
        | none ↦ none
        | some u ↦
            if u.issuer == development_issuer && not c.settings.dev_login then none else some (s, u)
      ]
    ]

-- `delete_session`
unfoldable pub delete_session : String → Store → Store
delete_session hash db = record db {
  sessions = filter (λ s. not (s.token_hash == hash)) db.sessions;
}

-- `principal`: `get_session` already leaves out a session that has expired.
unfoldable pub principal : AuthCall → HttpRequest → Act (UserSession × User)
unfolding is_opaque get_session
principal c request = do
  require (is_opaque request.cookie) (http 401)
  found ← gets (get_session c (c.hash request.cookie))
  elim found [
    | none ↦ fail (http 401)
    | some who ↦ do
      require (not (who.1.issuer == password_issuer) || c.settings.password_enabled) (http 401)
      pure who
  ]

-- `_require_origin`
unfoldable pub require_origin : AuthCall → HttpRequest → Act (Unit {0})
unfolding without_slash
require_origin c request =
    require (same_option request.origin (some (without_slash c.settings.public_origin))) (http 403)

-- `_require_csrf`
unfoldable pub require_csrf : HttpRequest → UserSession → Act (Unit {0})
require_csrf request session =
    require
      (not (request.csrf_token == "")
        && not (session.csrf_token == "")
        && request.csrf_token == session.csrf_token)
      (http 403)

-- The body and the cookie of `session_response`.
pub record SignedIn : Type 0 where
  pub user : User
  pub email_verified : Bool
  pub csrf_token : String
  pub token : String

abbrev new_session : AuthCall → User → UserSession
new_session c user = record {
  token_hash = c.hash c.session_token;
  user_id = user.id;
  csrf_token = c.new_csrf_token;
  expires_at = c.now + c.settings.session_ttl_seconds;
}

-- `session_response`
unfoldable pub session_response : AuthCall → HttpRequest → User → Act SignedIn
unfolding is_opaque delete_session user_email_verified
session_response c request user = do
  when (is_opaque request.cookie) (modify (delete_session (c.hash request.cookie)))
  modify (λ db. record db { sessions = db.sessions ++ new_session c user ∷ [] })
  verified ← gets (user_email_verified user)
  pure (record {
    user = user;
    email_verified = verified;
    csrf_token = c.new_csrf_token;
    token = c.session_token;
  })

-- `logout`
unfoldable pub logout : AuthCall → HttpRequest → Act (Unit {0})
unfolding require_origin principal require_csrf delete_session
logout c request = do
  require_origin c request
  who ← principal c request
  require_csrf request who.0
  modify (delete_session (c.hash request.cookie))
