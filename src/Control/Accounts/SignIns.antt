-- ===== src/Control/Accounts/SignIns.antt =====
-- What a sign-in means (apps/api/breakroom_api/password_auth.py).
use breakroom.Base.{
  ◌≡◌, sym, ap, ◌∙◌, subst, inl, inr, String, true, ◌&&◌, Option, none, some, first, ◌==◌,
}
use breakroom.Control.Rows.{User, Credential, Store}
use breakroom.Control.Monad.{ok, when}
use breakroom.Control.Answers.{
  if_run, option_run, require_run, gets_run, modify_run, pure_run, fail_run, bind_run, reply_run,
  transaction_run,
}
use breakroom.Control.Accounts.Request.{HttpRequest, AuthCall}
use breakroom.Control.Accounts.Limits.{login_kind}
use breakroom.Control.Accounts.Tokens.{password_issuer, lock_credential, find_credential}
use breakroom.Control.Accounts.Sessions.{SignedIn, session_response, require_origin}
use breakroom.Control.Accounts.Handlers.{
  available, attempt, password_user, credential_of, sign_in, check_login, login,
}
use breakroom.Control.Accounts.Budgets.{SameTables, Keeps-attempt}

-- The user of the address and its credential, whose hash the password matches.
pub record IsSignIn (c : AuthCall) (email password : String) (db : Store) (s : SignedIn)
    : Type 0 where
  pub user : User
  pub found : password_user email db ≡ some user
  pub credential : Credential
  pub has_credential : lock_credential user.id db ≡ some credential
  pub is_password : c.verify_password (some credential.password_hash) password ≡ ok true
  pub is_user : s.user ≡ user

session_response-user :
    (c : AuthCall) (request : HttpRequest) (u : User) (db after : Store) (s : SignedIn)
    → session_response c request u db ≡ (ok s, after)
    → s.user ≡ u
unfolding session_response
session_response-user c request u db after s h =
    let (_, mid, _, k) = bind_run (when _ _) _ db after s h in
    ap (λ r. r.user) (sym (pure_run _ _ _ after (gets_run _ _ _ _ (modify_run _ _ mid _ k))).0)

sign_in-user :
    (c : AuthCall) (request : HttpRequest) (password : String) (u : User) (x : Credential)
    (db after : Store) (s : SignedIn)
    → sign_in c request password u x db ≡ (ok s, after)
    → s.user ≡ u
unfolding sign_in
sign_in-user c request password u x db after s h =
    elim (if_run (c.needs_rehash x.password_hash) _ _ db _ h) [
      | inl (_, k) ↦
          let (encoded, _, l) = reply_run (c.hash_password password) _ db after s k in
          session_response-user c request u _ after s (modify_run _ _ db _ l)
      | inr (_, k) ↦ session_response-user c request u db after s k
    ]

abbrev hash_of : Option Credential → Option String
hash_of r = elim r [ none ↦ none | some x ↦ some x.password_hash ]

check_login-IsSignIn :
    (c : AuthCall) (request : HttpRequest) (email password : String) (db after : Store)
    (s : SignedIn)
    → check_login c request email password db ≡ (ok s, after)
    → IsSignIn c email password db s
unfolding check_login credential_of
check_login-IsSignIn c request email password db after s h =
    let k = gets_run _ _ db _ (gets_run _ _ db _ h) in
    let (valid, e, l) =
      reply_run (c.verify_password (hash_of (credential_of (password_user email db) db)) password) _
        db after s k in
    elim (option_run (password_user email db) _ _ db _ l) [
      | inl (_, m) ↦ fail_run _ db after s m
      | inr (u, fu, m) ↦ elim (option_run (credential_of (password_user email db) db) _ _ db _ m) [
        | inl (_, n) ↦ fail_run _ db after s n
        | inr (x, fx, n) ↦
            let (passed, z) = require_run valid _ _ db after s n in
            record {
              user = u;
              found = fu;
              credential = x;
              has_credential = sym (ap (λ r. credential_of r db) fu) ∙ fx;
              is_password =
                  sym (ap (λ r. c.verify_password (hash_of r) password) fx)
                  ∙ e
                  ∙ ap (λ b. ok b) passed;
              is_user = sign_in-user c request password u x db after s z;
            }
      ]
    ]

signed_in_before :
    (c : AuthCall) (email password : String) (a db : Store) (s : SignedIn)
    → SameTables a db
    → IsSignIn c email password db s
    → IsSignIn c email password a s
unfolding password_user lock_credential
signed_in_before c email password a db s t h = record {
  user = h.user;
  found =
      ap (λ us. first (λ u. u.email == email && u.issuer == password_issuer) us) (sym t.2)
      ∙ h.found;
  credential = h.credential;
  has_credential = ap (λ xs. find_credential h.user.id xs) (sym t.1) ∙ h.has_credential;
  is_password = h.is_password;
  is_user = h.is_user;
}

-- A sign-in that succeeds is for a password user with a credential, and Argon2id accepts the password
-- for the hash on record.
pub login-IsSignIn :
    (c : AuthCall) (request : HttpRequest) (email password : String) (db after : Store)
    (s : SignedIn)
    → login c request email password db ≡ (ok s, after)
    → IsSignIn c email password db s
unfolding login available require_origin
login-IsSignIn c request email password db after s h =
    let k = (require_run _ _ _ db after s (require_run _ _ _ db after s h).1).1 in
    let (_, mid, m, l) = bind_run (attempt c request login_kind email) _ db after s k in
    signed_in_before c email password db mid s
      (subst (λ d. SameTables db d) (ap (λ r. r.1) m)
        ((Keeps-attempt c request login_kind email).at db))
      (check_login-IsSignIn c request email password mid after s (transaction_run _ mid after s l))
