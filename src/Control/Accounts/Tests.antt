-- ===== src/Control/Accounts/Tests.antt =====
-- Sign-ins and resets on a concrete account (apps/api/breakroom_api/password_auth.py).
use breakroom.Base.{◌≡◌, refl, ap, true, false, same_option, none, some, [], ◌∷◌}
use breakroom.Control.Rows.{User, UserSession, AccountToken, reset, Store, Settings}
use breakroom.Control.Monad.{Answer, ok, problem, http, transaction, ◌>>=◌}
use breakroom.Control.Rows.{AuthLimit}
use breakroom.Base.{String, List, ◌+◌, ◌≤◌, arith}
use breakroom.Control.Accounts.Limits.{
  budget_of, login_kind, find_limit, account_bucket, peer_bucket,
}
use breakroom.Control.Accounts.Allowed.{
  allowed_count, InWindow, no_call, next_call, allowed_count-budget,
}
use breakroom.Control.Accounts.Request.{HttpRequest, AuthCall}
use breakroom.Control.Accounts.Tokens.{password_issuer, consume_token}
use breakroom.Control.Accounts.Sessions.{SignedIn, require_origin}
use breakroom.Control.Accounts.Handlers.{available, login}
use breakroom.Control.Accounts.Passwords.{reset_password}
use breakroom.Control.Accounts.Credentials.{consume_token-once}
use breakroom.Control.Accounts.Resets.{IsReset, reset_password-IsReset}
use breakroom.Control.Accounts.SignIns.{IsSignIn, login-IsSignIn}

abbrev test_settings : Settings
test_settings = record {
  environment = "test";
  dev_login = false;
  password_enabled = true;
  mail_available = true;
  session_ttl_seconds = 3600;
  public_origin = "https://breakroom.test/";
  billing_enabled = false;
  price_id = "";
  unit_amount = 0;
  currency = "usd";
  seat_limit = 5;
  report_limit = 100;
  storage_limit = 1000000;
}

-- A digest is its text, and a password's hash is the password.
abbrev test_call : AuthCall
test_call = record {
  settings = test_settings;
  now = 1000;
  user_id = "user_b";
  subject_id = "subject_b";
  session_token = "session";
  new_csrf_token = "csrf";
  mail_token = "mail";
  hash = λ s. s;
  hash_password = λ s. ok s;
  verify_password = λ r s. ok (same_option r (some s));
  needs_rehash = λ s. false;
  has_mailer = true;
  send = λ a p t. true;
}

abbrev test_request : HttpRequest
test_request = record {
  origin = some "https://breakroom.test";
  cookie = "";
  csrf_token = "";
  peer = "10.0.0.1";
}

abbrev test_user : User
test_user = record {
  id = "user_a";
  issuer = password_issuer;
  subject = "subject_a";
  email = "a@example.com";
  display_name = "A";
}

abbrev test_token : AccountToken
test_token = record { token_hash = "link"; user_id = "user_a"; purpose = reset; expires_at = 1500 }

abbrev test_session : UserSession
test_session = record {
  token_hash = "old";
  user_id = "user_a";
  csrf_token = "old";
  expires_at = 2000;
}

abbrev test_store : Store
test_store = record {
  users = test_user ∷ [];
  sessions = test_session ∷ [];
  credentials =
      record {
        user_id = "user_a";
        password_hash = "correct password";
        verified_at = none;
        changed_at = 0;
      }
      ∷ [];
  account_tokens = test_token ∷ [];
  auth_limits = [];
  projects = [];
  memberships = [];
  invitations = [];
  reports = [];
  accounts = [];
  operations = [];
  events = [];
}

taken_test :
    consume_token test_call "link" reset test_store
    ≡ (ok (some test_token), record test_store { account_tokens = [] })
unfolding consume_token ◌>>=◌
taken_test = refl

consume_token-once_example :
    consume_token test_call "link" reset (record test_store { account_tokens = [] })
    ≡ (ok none, record test_store { account_tokens = [] })
consume_token-once_example =
    consume_token-once test_call test_call "link" reset test_token test_store
      (record test_store { account_tokens = [] }) refl taken_test

reset_test : (reset_password test_call test_request "link" "new password" test_store).0 ≡ ok tt
unfolding reset_password ◌>>=◌ transaction available require_origin
reset_test = refl

answered : {A : Type 0} (x : Answer A × Store) (a : A) → x.0 ≡ ok a → x ≡ (ok a, x.1)
answered x a h = ap (λ r. (r, x.1)) h

reset_password-IsReset_example :
    IsReset test_call "link" "new password" test_store
      (reset_password test_call test_request "link" "new password" test_store).1
reset_password-IsReset_example =
    reset_password-IsReset test_call test_request "link" "new password" test_store _
      (answered _ tt reset_test)

abbrev signed_in : SignedIn
signed_in = record {
  user = test_user;
  email_verified = false;
  csrf_token = "csrf";
  token = "session";
}

login_test :
    (login test_call test_request "a@example.com" "correct password" test_store).0 ≡ ok signed_in
unfolding login ◌>>=◌ transaction available require_origin
login_test = refl

login-IsSignIn_example : IsSignIn test_call "a@example.com" "correct password" test_store signed_in
login-IsSignIn_example =
    login-IsSignIn test_call test_request "a@example.com" "correct password" test_store _ signed_in
      (answered _ signed_in login_test)

-- A wrong password is refused, and the attempt is counted.
refused_test :
    (login test_call test_request "a@example.com" "wrong password" test_store).0
    ≡ problem (http 401)
unfolding login ◌>>=◌ transaction available require_origin
refused_test = refl

-- Seven attempts are counted: of two more, one is let through.
abbrev busy_limit : AuthLimit
busy_limit = record { bucket_hash = "account:login:a@example.com"; attempts = 7; expires_at = 1500 }

abbrev busy_store : Store
busy_store = record test_store { auth_limits = busy_limit ∷ [] }

abbrev two_calls : List (AuthCall × String)
two_calls = (test_call, "10.0.0.1") ∷ (test_call, "10.0.0.2") ∷ []

allowed_test : allowed_count login_kind "a@example.com" two_calls busy_store ≡ 1
unfolding allowed_count find_limit ◌>>=◌ transaction
allowed_test = refl

busy_window : InWindow login_kind "a@example.com" "account:login:a@example.com" 1500 two_calls
unfolding account_bucket peer_bucket
busy_window =
    next_call test_call "10.0.0.1" refl refl refl
      (next_call test_call "10.0.0.2" refl refl refl no_call)

busy_found : find_limit "account:login:a@example.com" busy_store.auth_limits ≡ some busy_limit
unfolding find_limit
busy_found = refl

seven_within : busy_limit.attempts ≤ (budget_of login_kind).account_max
unfolding budget_of
seven_within = omega arith

allowed_count-budget_example :
    allowed_count login_kind "a@example.com" two_calls busy_store + 7
    ≤ (budget_of login_kind).account_max
allowed_count-budget_example =
    allowed_count-budget login_kind "a@example.com" "account:login:a@example.com" 1500 two_calls
      busy_store busy_limit busy_window refl seven_within busy_found
