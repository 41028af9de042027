-- ===== src/Control/Accounts/Tokens.antt =====
-- Single-use account tokens and credentials (apps/api/breakroom_api/password_db.py).
use breakroom.Base.{
  ℕ, ◌+◌, String, Bool, true, false, not, ◌&&◌, Option, none, some, List, [], ◌∷◌, ◌++◌, filter,
  first, update_where, ltb, ◌==◌, if◌then◌else◌,
}
use breakroom.Control.Rows.{User, Credential, AccountToken, Purpose, verification, reset, Store}
use breakroom.Control.Monad.{Act, gets, modify, pure, ◌>>=◌, ◌>>◌}
use breakroom.Control.Accounts.Request.{AuthCall}

-- `PASSWORD_ISSUER`, and the issuer of a local sign-in
abbrev pub password_issuer : String
password_issuer = "breakroom:password"

abbrev pub development_issuer : String
development_issuer = "breakroom:development"

abbrev pub same_purpose : Purpose → Purpose → Bool
same_purpose verification verification = true
same_purpose reset reset = true
same_purpose verification reset = false
same_purpose reset verification = false

unfoldable pub find_credential : String → List Credential → Option Credential
find_credential user_id = first (λ x. x.user_id == user_id)

-- `lock_credential`
unfoldable pub lock_credential : String → Store → Option Credential
unfolding find_credential
lock_credential user_id db = find_credential user_id db.credentials

unfoldable pub update_credential : String → (Credential → Credential) → Store → Store
update_credential user_id f db = record db {
  credentials = update_where (λ x. x.user_id == user_id) f db.credentials;
}

abbrev is_some : Option ℕ → Bool
is_some none = false
is_some (some _) = true

-- `user_email_verified`
unfoldable pub user_email_verified : User → Store → Bool
unfolding lock_credential
user_email_verified user db =
    if user.issuer == password_issuer
    then (elim (lock_credential user.id db) [ none ↦ false | some x ↦ is_some x.verified_at ])
    else not (user.issuer == development_issuer)

abbrev pub names_token : String → Purpose → AccountToken → Bool
names_token hash purpose t = t.token_hash == hash && same_purpose t.purpose purpose

unfoldable pub find_token : String → Purpose → List AccountToken → Option AccountToken
find_token hash purpose = first (names_token hash purpose)

abbrev lifetime : Purpose → ℕ
lifetime verification = 3600
lifetime reset = 1800

abbrev new_token : AuthCall → String → Purpose → String → AccountToken
new_token c user_id purpose raw_token = record {
  token_hash = c.hash raw_token;
  user_id = user_id;
  purpose = purpose;
  expires_at = c.now + lifetime purpose;
}

abbrev supersedes : String → Purpose → AccountToken → Bool
supersedes user_id purpose t = t.user_id == user_id && same_purpose t.purpose purpose

-- `save_token`
unfoldable pub save_token : AuthCall → String → Purpose → String → Act (Unit {0})
save_token c user_id purpose raw_token = modify λ db. record db {
  account_tokens =
      filter (λ t. not (supersedes user_id purpose t)) db.account_tokens
      ++ new_token c user_id purpose raw_token ∷ [];
}

-- DELETE ... RETURNING of a token that was found: an expired one is deleted all the same.
unfoldable pub take_token : AuthCall → String → Purpose → AccountToken → Act (Option AccountToken)
take_token c hash purpose t = do
  modify λ db. record db {
    account_tokens = filter (λ x. not (names_token hash purpose x)) db.account_tokens;
  }
  pure (if ltb c.now t.expires_at then some t else none)

-- `consume_token`
unfoldable pub consume_token : AuthCall → String → Purpose → Act (Option AccountToken)
unfolding find_token lock_credential take_token
consume_token c raw_token purpose = do
  row ← gets (λ db. find_token (c.hash raw_token) purpose db.account_tokens)
  elim row [
    | none ↦ pure none
    | some t ↦ do
      credential ← gets (lock_credential t.user_id)
      elim credential [ none ↦ pure none | some _ ↦ take_token c (c.hash raw_token) purpose t ]
  ]
